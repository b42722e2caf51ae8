-- ===== src/MiddleProxy/Codec/Frames.antt =====
-- RPC frames: what the builder writes, the reader reads back.
use v3mtp.Prelude.{
  ℕ, ◌+◌, ◌-◌, ◌%◌, ◌^◌, ◌≤◌, ◌<◌, ◌≡◌, ◌∙◌, refl, sym, ap, ap₂, List, [], ◌++◌, ok, arith, length,
  take, drop, length-append, take-length-append, drop-length-append, append_assoc, append-nil,
  to_le_bytes, from_le_bytes, from_le_bytes-to_le_bytes, ◌&&◌, true, leb,
}
use v3mtp.MiddleProxy.Codec.{
  Checksums, crc32, rpc_crc, frame_head, build_rpc_frame, read_exact, read_rpc_frame_plaintext,
  check_frame,
}

pub read_exact-append :
    (n : ℕ) (xs ys : List ℕ) → n ≡ length xs → read_exact n (xs ++ ys) ≡ ok (xs, ys)
unfolding read_exact
read_exact-append n xs ys e =
    rw (take-length-append n xs ys e, drop-length-append n xs ys e)
      (ground (arith, length-append xs ys))

module _ (sums : Checksums) where
  -- The reader on a length and as many bytes as it asks for.
  read_rpc_frame-step :
      (len_buf rest after : List ℕ)
      → 4 ≡ length len_buf
      → 12 ≤ from_le_bytes len_buf
      → from_le_bytes len_buf ≤ 2 ^ 24
      → from_le_bytes len_buf - 4 ≡ length rest
      → read_rpc_frame_plaintext sums (len_buf ++ (rest ++ after))
        ≡ check_frame sums (from_le_bytes len_buf - 4) (len_buf ++ rest) after
  unfolding read_rpc_frame_plaintext
  read_rpc_frame-step len_buf rest after e low high r =
      let fits : (leb 12 (from_le_bytes len_buf) && leb (from_le_bytes len_buf) (2 ^ 24)) ≡ true =
        ground arith in
      rw (
        read_exact-append 4 len_buf (rest ++ after) e,
        fits,
        read_exact-append (from_le_bytes len_buf - 4) rest after r,
      )

  check_frame-append :
      (n : ℕ) (head crc after : List ℕ)
      → n ≡ length head
      → 4 ≡ length crc
      → from_le_bytes crc ≡ sums.hash32 head
      → check_frame sums n (head ++ crc) after
        ≡ ok ((from_le_bytes (take 4 (drop 4 (head ++ crc))), drop 8 head), after)
  check_frame-append n head crc after e f g =
      let whole : take 4 crc ≡ crc =
        ap (take 4) (sym (append-nil crc)) ∙ take-length-append 4 crc [] f in
      rw (take-length-append n head crc e, drop-length-append n head crc e, whole, g) (ground arith)

  -- A length, a sequence number, a payload and the checksum of the three, in bytes.
  read_rpc_frame-parts :
      (len_buf seq_buf payload crc rest : List ℕ)
      → 4 ≡ length len_buf
      → 4 ≡ length seq_buf
      → 4 ≡ length crc
      → from_le_bytes len_buf ≡ 12 + length payload
      → 12 + length payload ≤ 2 ^ 24
      → from_le_bytes crc ≡ sums.hash32 (len_buf ++ (seq_buf ++ payload))
      → read_rpc_frame_plaintext sums (((len_buf ++ (seq_buf ++ payload)) ++ crc) ++ rest)
        ≡ ok ((from_le_bytes seq_buf, payload), rest)
  read_rpc_frame-parts len_buf seq_buf payload crc rest l s c value high sum =
      let body = seq_buf ++ payload in
      let head = len_buf ++ body in
      let size : length body ≡ length seq_buf + length payload = length-append seq_buf payload in
      let seq : take 4 (drop 4 (head ++ crc)) ≡ seq_buf =
        rw
          (
            append_assoc len_buf body crc,
            drop-length-append 4 len_buf (body ++ crc) l,
            append_assoc seq_buf payload crc,
          )
          (take-length-append 4 seq_buf (payload ++ crc) s) in
      let pay : drop 8 head ≡ payload = rw (← append_assoc len_buf seq_buf payload) (
        drop-length-append 8 (len_buf ++ seq_buf) payload
          (omega (arith, length-append len_buf seq_buf, l, s))) in
      let order : (head ++ crc) ++ rest ≡ len_buf ++ ((body ++ crc) ++ rest) =
        rw (append_assoc len_buf body crc, append_assoc len_buf (body ++ crc) rest) in
      let order2 : len_buf ++ (body ++ crc) ≡ head ++ crc = sym (append_assoc len_buf body crc) in
      let n = from_le_bytes len_buf - 4 in
      rw (order) (
        read_rpc_frame-step len_buf (body ++ crc) rest l (omega (arith, value))
          (omega (arith, value, high)) (omega (arith, length-append body crc, size, s, c, value))
        ∙ ap (λ full. check_frame sums n full rest) order2
        ∙ check_frame-append n head crc rest
            (omega (arith, length-append len_buf body, size, l, s, value)) c sum
        ∙ ap₂ (λ a b. ok ((from_le_bytes a, b), rest)) seq pay)

  -- Whatever follows it, a frame of at most 2 ^ 24 bytes under CRC32 reads back as its sequence
  -- number and its payload, and the rest of the input is left.
  pub read_rpc_frame-build :
      (seq_no : ℕ) (payload rest : List ℕ)
      → seq_no < 2 ^ 32
      → 12 + length payload ≤ 2 ^ 24
      → read_rpc_frame_plaintext sums (build_rpc_frame sums seq_no payload crc32 ++ rest)
        ≡ ok ((seq_no, payload), rest)
  unfolding build_rpc_frame rpc_crc
  read_rpc_frame-build seq_no payload rest hs hl =
      let total = (4 + 4 + length payload + 4) % 2 ^ 32 in
      let crc = sums.hash32 (frame_head sums seq_no payload) in
      read_rpc_frame-parts (to_le_bytes 4 total) (to_le_bytes 4 seq_no) payload (to_le_bytes 4 crc)
        rest refl refl refl (from_le_bytes-to_le_bytes 4 total (omega arith) ∙ omega arith) hl
        (from_le_bytes-to_le_bytes 4 crc (sums.hash32-lt _))
      ∙ ap (λ n. ok ((n, payload), rest)) (from_le_bytes-to_le_bytes 4 seq_no hs)
