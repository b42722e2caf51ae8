-- ===== src/MiddleProxy/Codec/Writer.antt =====
-- What a sequence of calls of `RpcWriter::send` puts on the socket.
use v3mtp.Prelude.{
  ℕ, suc, ◌+◌, ◌-◌, ◌*◌, ◌%◌, ◌^◌, ◌≤◌, ◌≡◌, ◌∙◌, refl, sym, ap, List, [], ◌∷◌, ◌++◌, Result, ok,
  ◌>>=◌, arith, length, drop, length-append, append_assoc, append-nil, to_le_bytes,
  to_le_bytes-bytes, All, All-append, IsByte,
}
use v3mtp.Crypto.Aes.{
  BlockCipher, AesCbc, CryptoError, IsBlock, block_size, encrypt_chunks, decrypt_in_place,
}
use v3mtp.Crypto.Aes.Laws.{encrypt_in_place-chunks, decrypt_in_place-chunks}
use v3mtp.Crypto.Aes.Chain.{length-encrypt_chunks}
use v3mtp.Crypto.Aes.Sequence.{
  chain_end, chain_end-IsBlock, encrypt_chunks-append, drop-encrypt_chunks,
}
use v3mtp.MiddleProxy.Codec.{
  Checksums, RpcChecksumMode, frame_head, build_rpc_frame, padded, next_iv, RpcWriter, send,
}
use v3mtp.MiddleProxy.Codec.Padded.{blocks, length-padded, padded-bytes}

next_iv_whole : (iv buf : List ℕ) → 16 ≤ length buf → next_iv iv buf ≡ drop (length buf - 16) buf
next_iv_whole iv buf h = ground arith

module _ (sums : Checksums) where
  build_rpc_frame-bytes :
      (seq_no : ℕ) (payload : List ℕ) (mode : RpcChecksumMode)
      → All IsByte payload
      → All IsByte (build_rpc_frame sums seq_no payload mode)
  unfolding build_rpc_frame
  build_rpc_frame-bytes seq_no payload mode h =
      All-append IsByte (frame_head sums seq_no payload) _
        (All-append IsByte (to_le_bytes 4 _) (to_le_bytes 4 seq_no ++ payload)
          (to_le_bytes-bytes 4 _)
          (All-append IsByte (to_le_bytes 4 seq_no) payload (to_le_bytes-bytes 4 seq_no) h))
        (to_le_bytes-bytes 4 _)

  -- A frame has a block at least.
  frame_blocks :
      (seq_no : ℕ) (payload : List ℕ) (mode : RpcChecksumMode)
      → (m : ℕ) × (blocks (build_rpc_frame sums seq_no payload mode) ≡ suc m)
  unfolding build_rpc_frame
  frame_blocks seq_no payload mode =
      let n = blocks (build_rpc_frame sums seq_no payload mode) in (n - 1, omega arith)

  -- The padded frames of `payloads`, numbered from `seq_no` on.
  abbrev pub frames : RpcChecksumMode → ℕ → List (List ℕ) → List ℕ
  frames mode seq_no [] = []
  frames mode seq_no (payload ∷ payloads) =
      padded (build_rpc_frame sums seq_no payload mode)
      ++ frames mode ((seq_no + 1) % 2 ^ 32) payloads

  frames-bytes :
      (mode : RpcChecksumMode) (payloads : List (List ℕ)) (seq_no : ℕ)
      → All (All IsByte) payloads
      → All IsByte (frames mode seq_no payloads)
  frames-bytes mode [] seq_no h = tt
  frames-bytes mode (payload ∷ payloads) seq_no h =
      All-append IsByte (padded (build_rpc_frame sums seq_no payload mode)) _
        (padded-bytes _ (build_rpc_frame-bytes seq_no payload mode h.0))
        (frames-bytes mode payloads ((seq_no + 1) % 2 ^ 32) h.1)

module _ (sums : Checksums) (cipher : BlockCipher) where
  open cipher use {schedule}

  abbrev pub send_all : List (List ℕ) → RpcWriter → Result CryptoError RpcWriter
  send_all [] w = ok w
  send_all (payload ∷ payloads) w = send sums cipher payload w >>= send_all payloads

  -- One call encrypts the padded frame, and the next vector is where its chaining ends.
  send-chunks :
      (payload : List ℕ) (w : RpcWriter) (m : ℕ)
      → IsBlock w.iv
      → All IsByte payload
      → let frame = build_rpc_frame sums w.seq_no payload w.crc_mode in
        blocks frame ≡ suc m
        → send sums cipher payload w
          ≡ ok (record w {
            iv = chain_end cipher (suc m) (schedule w.key) w.iv (padded frame);
            seq_no = (w.seq_no + 1) % 2 ^ 32;
            sent = w.sent ++ encrypt_chunks cipher (suc m) (schedule w.key) w.iv (padded frame);
          })
  unfolding send
  send-chunks payload w m p h e =
      let frame = build_rpc_frame sums w.seq_no payload w.crc_mode in
      let c : AesCbc = record { key = w.key; iv = w.iv } in
      let whole : length (padded frame) ≡ suc m * block_size =
        length-padded frame ∙ ap (λ n. n * block_size) e in
      let bytes = padded-bytes frame (build_rpc_frame-bytes sums w.seq_no payload w.crc_mode h) in
      let buf = encrypt_chunks cipher (suc m) (schedule w.key) w.iv (padded frame) in
      let long =
        length-encrypt_chunks cipher (suc m) (schedule w.key) w.iv (padded frame) whole bytes p in
      let tail : length buf - 16 ≡ m * block_size = omega (arith, long) in
      let next : next_iv w.iv buf ≡ chain_end cipher (suc m) (schedule w.key) w.iv (padded frame) =
        next_iv_whole w.iv buf (omega (arith, long))
        ∙ ap (λ n. drop n buf) tail
        ∙ drop-encrypt_chunks cipher m (schedule w.key) w.iv (padded frame) whole bytes p in
      rw (encrypt_in_place-chunks cipher (suc m) c (padded frame) p bytes whole, next)

  send_all-chunks :
      (payloads : List (List ℕ)) (w : RpcWriter)
      → IsBlock w.iv
      → All (All IsByte) payloads
      → let wire = frames sums w.crc_mode w.seq_no payloads in
        (n : ℕ) × (w' : RpcWriter) × (length wire ≡ n * block_size)
        × (send_all payloads w ≡ ok w')
        × (w'.sent ≡ w.sent ++ encrypt_chunks cipher n (schedule w.key) w.iv wire)
  unfolding encrypt_chunks
  send_all-chunks [] w p h = (0, w, refl, refl, sym (append-nil w.sent))
  send_all-chunks (payload ∷ payloads) w p h =
      let frame = build_rpc_frame sums w.seq_no payload w.crc_mode in
      let (m, e) = frame_blocks sums w.seq_no payload w.crc_mode in
      let whole : length (padded frame) ≡ suc m * block_size =
        length-padded frame ∙ ap (λ n. n * block_size) e in
      let bytes = padded-bytes frame (build_rpc_frame-bytes sums w.seq_no payload w.crc_mode h.0) in
      let iv' = chain_end cipher (suc m) (schedule w.key) w.iv (padded frame) in
      let buf = encrypt_chunks cipher (suc m) (schedule w.key) w.iv (padded frame) in
      let next : RpcWriter = record w {
        iv = iv';
        seq_no = (w.seq_no + 1) % 2 ^ 32;
        sent = w.sent ++ buf;
      } in
      let (n, w', size, sends, wrote) =
        send_all-chunks payloads next
          (chain_end-IsBlock cipher (suc m) (schedule w.key) w.iv (padded frame) whole bytes p)
          h.1 in
      let left = frames sums w.crc_mode ((w.seq_no + 1) % 2 ^ 32) payloads in
      (
        suc m + n,
        w',
        omega (arith, length-append (padded frame) left, whole, size),
        rw (send-chunks payload w m p h.0 e) sends,
        wrote
            ∙ append_assoc w.sent buf _
            ∙ ap (◌++◌ w.sent) (
                sym (
                  encrypt_chunks-append cipher (suc m) n (schedule w.key) w.iv (padded frame) left
                    whole)),
      )

  -- For a writer whose vector is one block, and any payloads of bytes, every call of `send`
  -- succeeds, and what the calls add to the socket decrypts, under the key and the vector from
  -- before the first call, to the padded frames of the payloads, numbered in order.
  pub decrypt-send_all :
      (payloads : List (List ℕ)) (w : RpcWriter)
      → IsBlock w.iv
      → All (All IsByte) payloads
      → (added : List ℕ) × (w' : RpcWriter) × (send_all payloads w ≡ ok w')
        × (w'.sent ≡ w.sent ++ added)
        × (decrypt_in_place cipher (record { key = w.key; iv = w.iv }) added
            ≡ ok (frames sums w.crc_mode w.seq_no payloads))
  decrypt-send_all payloads w p h =
      let (n, w', size, sends, wrote) = send_all-chunks payloads w p h in
      let wire = frames sums w.crc_mode w.seq_no payloads in
      (
        encrypt_chunks cipher n (schedule w.key) w.iv wire,
        w',
        sends,
        wrote,
        decrypt_in_place-chunks cipher n (record { key = w.key; iv = w.iv }) wire p
            (frames-bytes sums w.crc_mode payloads w.seq_no h) size,
      )
