-- ===== src/MiddleProxy/Codec/Examples.antt =====
-- RPC frames on sample checksums and a sample cipher.
use v3mtp.Prelude.{
  to_le_bytes, to_le_bytes-bytes, All, All-append, IsByte, ℕ, ◌+◌, ◌%◌, ◌^◌, ◌≡◌, refl, arith, List,
  [], ◌∷◌, ◌++◌, ok, err, length, replicate,
}
use v3mtp.Crypto.Aes.Sample.{shift_cipher, replicate-bytes}
use v3mtp.Crypto.Aes.{decrypt_in_place}
use v3mtp.MiddleProxy.Codec.{
  Checksums, crc32, build_rpc_frame, read_exact, read_rpc_frame_plaintext, unexpected_eof, padded,
  cbc_encrypt_padded, cbc_decrypt_inplace, RpcWriter,
}
use v3mtp.MiddleProxy.Codec.Payloads.{Endpoint}
use v3mtp.MiddleProxy.Codec.Sound.{build-read_rpc_frame}
use v3mtp.MiddleProxy.Codec.Frames.{read_rpc_frame-build}
use v3mtp.MiddleProxy.Codec.Padded.{cbc_decrypt-encrypt}
use v3mtp.MiddleProxy.Codec.Writer.{frames, send_all, decrypt-send_all}

abbrev sample_sums : Checksums
sample_sums = record {
  hash32 = λ bs. (length bs + 7) % 2 ^ 32;
  hash32c = λ bs. (length bs + 9) % 2 ^ 32;
  hash32-lt = λ bs. omega arith;
  hash32c-lt = λ bs. omega arith;
}

short_input : read_rpc_frame_plaintext sample_sums (replicate 3 1) ≡ err unexpected_eof
unfolding read_rpc_frame_plaintext read_exact
short_input = refl

read_rpc_frame-build_example :
    read_rpc_frame_plaintext sample_sums
      (build_rpc_frame sample_sums 5 (replicate 8 1) crc32 ++ replicate 2 9)
    ≡ ok ((5, replicate 8 1), replicate 2 9)
read_rpc_frame-build_example =
    read_rpc_frame-build sample_sums 5 (replicate 8 1) (replicate 2 9) (omega arith) (omega arith)

cbc_decrypt-encrypt_example :
    (buf next : List ℕ) × (cbc_encrypt_padded shift_cipher
        (replicate 32 7)
        (replicate 16 1)
        (replicate 20 5)
      ≡ ok (buf, next))
    × (cbc_decrypt_inplace shift_cipher (replicate 32 7) (replicate 16 1) buf
        ≡ ok (padded (replicate 20 5), next))
    × (length buf ≡ length (padded (replicate 20 5)))
cbc_decrypt-encrypt_example =
    cbc_decrypt-encrypt shift_cipher (replicate 32 7) (replicate 16 1) (replicate 20 5)
      (refl, replicate-bytes 16 1 (omega arith)) (replicate-bytes 20 5 (omega arith))

abbrev fresh : RpcWriter
fresh = record {
  key = replicate 32 7;
  iv = replicate 16 1;
  seq_no = 0;
  crc_mode = crc32;
  sent = [];
}

abbrev two_payloads : List (List ℕ)
two_payloads = replicate 8 5 ∷ replicate 4 6 ∷ []

decrypt-send_all_example :
    (added : List ℕ) × (w' : RpcWriter) × (send_all sample_sums shift_cipher two_payloads fresh
      ≡ ok w')
    × (w'.sent ≡ added)
    × (decrypt_in_place shift_cipher (record { key = replicate 32 7; iv = replicate 16 1 }) added
        ≡ ok (frames sample_sums crc32 0 two_payloads))
decrypt-send_all_example =
    decrypt-send_all sample_sums shift_cipher two_payloads fresh
      (refl, replicate-bytes 16 1 (omega arith))
      (replicate-bytes 8 5 (omega arith), (replicate-bytes 4 6 (omega arith), tt))

abbrev here : Endpoint
here = record { ip = replicate 4 10; port = 443 }

abbrev arrived_crc : List ℕ
arrived_crc = to_le_bytes 4 23 ++ replicate 2 9

abbrev arrived_body : List ℕ
arrived_body = replicate 8 1 ++ arrived_crc

abbrev arrived : List ℕ
arrived = (to_le_bytes 4 20 ++ to_le_bytes 4 5) ++ arrived_body

arrived-bytes : All IsByte arrived
arrived-bytes =
    All-append IsByte (to_le_bytes 4 20 ++ to_le_bytes 4 5) arrived_body
      (All-append IsByte (to_le_bytes 4 20) (to_le_bytes 4 5) (to_le_bytes-bytes 4 20)
        (to_le_bytes-bytes 4 5))
      (All-append IsByte (replicate 8 1) arrived_crc (replicate-bytes 8 1 (omega arith)) (
        All-append IsByte (to_le_bytes 4 23) (replicate 2 9) (to_le_bytes-bytes 4 23)
          (replicate-bytes 2 9 (omega arith))))

arrived_read : read_rpc_frame_plaintext sample_sums arrived ≡ ok ((5, replicate 8 1), replicate 2 9)
unfolding read_rpc_frame_plaintext read_exact
arrived_read = refl

build-read_rpc_frame_example :
    arrived ≡ build_rpc_frame sample_sums 5 (replicate 8 1) crc32 ++ replicate 2 9
build-read_rpc_frame_example =
    build-read_rpc_frame sample_sums arrived (replicate 2 9) (replicate 8 1) 5 arrived-bytes
      arrived_read
