-- ===== src/MiddleProxy/Codec.antt =====
-- src/transport/middle_proxy/codec.rs: RPC frames, their checksums, and the encrypting writer. A
-- socket is the list of bytes read from it or written to it. The `i32` sequence number is kept as
-- its bit pattern.
pub mod Frames
pub mod Padded
pub mod Payloads
pub mod Sound
pub mod Writer
mod Examples
use v3mtp.Prelude.{
  ℕ, zero, suc, ◌+◌, ◌-◌, ◌*◌, ◌/◌, ◌%◌, ◌^◌, ◌<◌, Bool, ◌&&◌, List, [], ◌∷◌, ◌++◌, Result, ok, err,
  ◌>>=◌, ◌>>◌, guard, length, take, drop, replicate, to_le_bytes, from_le_bytes, bit_and, ltb, leb,
  ◌==◌, if◌then◌else◌,
}
use v3mtp.Crypto.Aes.{BlockCipher, AesCbc, CryptoError, encrypt_in_place, decrypt_in_place}

pub data RpcChecksumMode : Type 0 where
  crc32 crc32c : RpcChecksumMode

abbrev use_crc32c : ℕ
use_crc32c = 0x800

unfoldable pub from_handshake_flags : ℕ → RpcChecksumMode
from_handshake_flags flags = if bit_and flags use_crc32c == 0 then crc32 else crc32c

unfoldable pub advertised_flags : RpcChecksumMode → ℕ
advertised_flags crc32 = 0
advertised_flags crc32c = use_crc32c

-- The checksums of the crates `crc32fast` and `crc32c`: words of 32 bits.
pub record Checksums : Type 0 where
  pub hash32 : List ℕ → ℕ
  pub hash32c : List ℕ → ℕ
  pub hash32-lt : (bs : List ℕ) → hash32 bs < 2 ^ 32
  pub hash32c-lt : (bs : List ℕ) → hash32c bs < 2 ^ 32

pub data RpcError : Type 0 where
  unexpected_eof : RpcError
  bad_frame_length : ℕ → RpcError
  crc_mismatch : ℕ → ℕ → RpcError

-- `read_exact` of `n` bytes.
unfoldable pub read_exact : ℕ → List ℕ → Result RpcError (List ℕ × List ℕ)
read_exact n input =
    if ltb (length input) n then err unexpected_eof else ok (take n input, drop n input)

module _ (sums : Checksums) where
  unfoldable pub rpc_crc : RpcChecksumMode → List ℕ → ℕ
  rpc_crc crc32 bytes = sums.hash32 bytes
  rpc_crc crc32c bytes = sums.hash32c bytes

  -- The frame without its checksum.
  abbrev pub frame_head : ℕ → List ℕ → List ℕ
  frame_head seq_no payload =
      to_le_bytes 4 ((4 + 4 + length payload + 4) % 2 ^ 32) ++ (to_le_bytes 4 seq_no ++ payload)

  unfoldable pub build_rpc_frame : ℕ → List ℕ → RpcChecksumMode → List ℕ
  build_rpc_frame seq_no payload crc_mode =
      let frame = frame_head seq_no payload in frame ++ to_le_bytes 4 (rpc_crc crc_mode frame)

  -- From the whole frame on: the checksum is tested, and the parts are cut out.
  abbrev check_frame : ℕ → List ℕ → List ℕ → Result RpcError ((ℕ × List ℕ) × List ℕ)
  check_frame crc_offset full input =
      let expected_crc = from_le_bytes (take 4 (drop crc_offset full)) in
      let actual_crc = sums.hash32 (take crc_offset full) in
      if expected_crc == actual_crc
      then ok ((from_le_bytes (take 4 (drop 4 full)), drop 8 (take crc_offset full)), input)
      else err (crc_mismatch expected_crc actual_crc)

  -- The sequence number and the payload, and what is left of the input.
  unfoldable pub read_rpc_frame_plaintext : List ℕ → Result RpcError ((ℕ × List ℕ) × List ℕ)
  read_rpc_frame_plaintext input = do
    (len_buf, after_len) ← read_exact 4 input
    guard (leb 12 (from_le_bytes len_buf) && leb (from_le_bytes len_buf) (2 ^ 24))
        (bad_frame_length (from_le_bytes len_buf))
    (rest, after) ← read_exact (from_le_bytes len_buf - 4) after_len
    check_frame (from_le_bytes len_buf - 4) (len_buf ++ rest) after

-- `pad_pattern[i % 4]`.
abbrev pad_byte : ℕ → ℕ
pad_byte i = if i % 4 == 0 then 4 else 0

-- The padding of `n` bytes, from position `i` on.
unfoldable pub pad_from : ℕ → ℕ → List ℕ
pad_from zero i = []
pad_from (suc n) i = pad_byte i ∷ pad_from n (i + 1)

unfoldable pub padded : List ℕ → List ℕ
padded frame = frame ++ pad_from ((16 - length frame % 16) % 16) 0

-- `new_iv`: the last block of `buf`, or zeros.
abbrev pub new_iv : List ℕ → List ℕ
new_iv buf = if leb 16 (length buf) then drop (length buf - 16) buf else replicate 16 0

module _ (cipher : BlockCipher) where
  unfoldable pub cbc_encrypt_padded :
      List ℕ → List ℕ → List ℕ → Result CryptoError (List ℕ × List ℕ)
  cbc_encrypt_padded key iv plaintext = do
    buf ← encrypt_in_place cipher (record { key = key; iv = iv }) (padded plaintext)
    ok (buf, new_iv buf)

  unfoldable pub cbc_decrypt_inplace :
      List ℕ → List ℕ → List ℕ → Result CryptoError (List ℕ × List ℕ)
  cbc_decrypt_inplace key iv input = do
    output ← decrypt_in_place cipher (record { key = key; iv = iv }) input
    ok (output, new_iv input)

-- `sent` is what `write_all` has put on the socket.
pub record RpcWriter : Type 0 where
  pub key : List ℕ
  pub iv : List ℕ
  pub seq_no : ℕ
  pub crc_mode : RpcChecksumMode
  pub sent : List ℕ

-- The vector after a call: the last block that it wrote.
abbrev pub next_iv : List ℕ → List ℕ → List ℕ
next_iv iv buf = if leb 16 (length buf) then drop (length buf - 16) buf else iv

module _ (sums : Checksums) (cipher : BlockCipher) where
  abbrev after_send : RpcWriter → List ℕ → RpcWriter
  after_send w buf = record w {
    iv = next_iv w.iv buf;
    seq_no = (w.seq_no + 1) % 2 ^ 32;
    sent = w.sent ++ buf;
  }

  -- A write that fails on the socket ends the connection, and is not modelled.
  unfoldable pub send : List ℕ → RpcWriter → Result CryptoError RpcWriter
  send payload w = do
    buf ←
        encrypt_in_place cipher (record { key = w.key; iv = w.iv })
          (padded (build_rpc_frame sums w.seq_no payload w.crc_mode))
    ok (after_send w buf)
