-- ===== src/MiddleProxy/Codec/Sound.antt =====
-- RPC frames: whatever the reader accepts, the builder writes.
use v3mtp.Prelude.{
  ℕ, ◌+◌, ◌-◌, ◌%◌, ◌^◌, ◌≤◌, ◌≡◌, ◌∙◌, refl, sym, ap, ap₂, List, [], ◌++◌, ok, arith, length, take,
  drop, length-append, length-take, length-drop, drop-drop, take-append-drop, take-length-append,
  take-append_le, drop-append_le, append_assoc, append-nil, to_le_bytes, from_le_bytes,
  to_le_bytes-from_le_bytes, All, All-take, All-drop, All-append, IsByte,
}
use v3mtp.MiddleProxy.Codec.{
  Checksums, crc32, rpc_crc, frame_head, build_rpc_frame, read_exact, read_rpc_frame_plaintext,
}

word_bytes :
    (bs : List ℕ) (n : ℕ)
    → All IsByte bs
    → length bs ≡ 4
    → from_le_bytes bs ≡ n
    → to_le_bytes 4 n ≡ bs
word_bytes bs n h e v = ap₂ to_le_bytes (sym e) (sym v) ∙ to_le_bytes-from_le_bytes bs h

-- A frame of `n` bytes and a checksum of 4, in its four parts.
head-parts :
    (n : ℕ) (full : List ℕ)
    → length full ≡ n + 4
    → 8 ≤ n
    → take 4 full ++ (take 4 (drop 4 full) ++ drop 8 (take n full)) ≡ take n full
head-parts n full e low =
    let head = take n full in
    let crc = drop n full in
    let size : length head ≡ n = omega (arith, length-take n full, e) in
    let size4 : length (drop 4 head) + 4 ≡ n = omega (arith, length-drop 4 head, size, low) in
    let whole : full ≡ head ++ crc = sym (take-append-drop n full) in
    let first : take 4 full ≡ take 4 head =
      ap (take 4) whole ∙ take-append_le 4 head crc (omega (arith, size, low)) in
    let second : take 4 (drop 4 full) ≡ take 4 (drop 4 head) =
      ap (λ xs. take 4 (drop 4 xs)) whole
      ∙ ap (take 4) (drop-append_le 4 head crc (omega (arith, size, low)))
      ∙ take-append_le 4 (drop 4 head) crc (omega (arith, size4, low)) in
    ap₂ ◌++◌ first (ap₂ ◌++◌ second (drop-drop 4 4 head) ∙ take-append-drop 4 (drop 4 head))
    ∙ take-append-drop 4 head

module _ (sums : Checksums) where
  build-parts :
      (len_buf seq_buf payload crc : List ℕ)
      → All IsByte len_buf
      → All IsByte seq_buf
      → All IsByte crc
      → length len_buf ≡ 4
      → length seq_buf ≡ 4
      → length crc ≡ 4
      → from_le_bytes len_buf ≡ 12 + length payload
      → 12 + length payload ≤ 2 ^ 24
      → from_le_bytes crc ≡ sums.hash32 (len_buf ++ (seq_buf ++ payload))
      → build_rpc_frame sums (from_le_bytes seq_buf) payload crc32
        ≡ (len_buf ++ (seq_buf ++ payload)) ++ crc
  unfolding build_rpc_frame rpc_crc
  build-parts len_buf seq_buf payload crc bl bs bc l s c value high sum =
      let head : frame_head sums (from_le_bytes seq_buf) payload ≡ len_buf ++ (seq_buf ++ payload) =
        ap₂ (λ a b. a ++ (b ++ payload))
          (word_bytes len_buf ((4 + 4 + length payload + 4) % 2 ^ 32) bl l
            (omega (arith, value, high)))
          (word_bytes seq_buf (from_le_bytes seq_buf) bs s refl) in
      ap₂ (λ a b. a ++ b) head
        (word_bytes crc (sums.hash32 (frame_head sums (from_le_bytes seq_buf) payload)) bc c
          (sum ∙ ap sums.hash32 (sym head)))

  -- What a successful read has tested.
  read-facts :
      (input rest payload : List ℕ) (seq_no : ℕ)
      → read_rpc_frame_plaintext sums input ≡ ok ((seq_no, payload), rest)
      → let len_buf = take 4 input in
        let n = from_le_bytes len_buf - 4 in
        let full = len_buf ++ take n (drop 4 input) in
        (4 ≤ length input)
        × (12 ≤ from_le_bytes len_buf)
        × (from_le_bytes len_buf ≤ 2 ^ 24)
        × (n ≤ length (drop 4 input))
        × (from_le_bytes (take 4 (drop n full)) ≡ sums.hash32 (take n full))
        × (from_le_bytes (take 4 (drop 4 full)) ≡ seq_no)
        × (drop 8 (take n full) ≡ payload)
        × (drop n (drop 4 input) ≡ rest)
  unfolding read_rpc_frame_plaintext read_exact
  read-facts input rest payload seq_no e = ground (arith, e)

  -- Whatever bytes the reader accepts are a frame that the builder writes under CRC32, for the
  -- sequence number and the payload that it returned, and then the rest that it left.
  pub build-read_rpc_frame :
      (input rest payload : List ℕ) (seq_no : ℕ)
      → All IsByte input
      → read_rpc_frame_plaintext sums input ≡ ok ((seq_no, payload), rest)
      → input ≡ build_rpc_frame sums seq_no payload crc32 ++ rest
  build-read_rpc_frame input rest payload seq_no h e =
      let (long, low, high, more, sum, seq, pay, left) = read-facts input rest payload seq_no e in
      let len_buf = take 4 input in
      let n = from_le_bytes len_buf - 4 in
      let body = take n (drop 4 input) in
      let full = len_buf ++ body in
      let l : length len_buf ≡ 4 = omega (arith, length-take 4 input, long) in
      let b : length body ≡ n = omega (arith, length-take n (drop 4 input), more) in
      let size : length full ≡ n + 4 = omega (arith, length-append len_buf body, l, b) in
      let bytes : All IsByte full =
        All-append IsByte len_buf body (All-take IsByte 4 input h)
          (All-take IsByte n (drop 4 input) (All-drop IsByte 4 input h)) in
      let crc = drop n full in
      let crc_size : length crc ≡ 4 = omega (arith, length-drop n full, size) in
      let word : take 4 crc ≡ crc =
        ap (take 4) (sym (append-nil crc)) ∙ take-length-append 4 crc [] (sym crc_size) in
      let first : take 4 full ≡ len_buf = take-length-append 4 len_buf body (sym l) in
      let seq_buf = take 4 (drop 4 full) in
      let pay' = drop 8 (take n full) in
      let parts : len_buf ++ (seq_buf ++ pay') ≡ take n full =
        ap (λ xs. xs ++ (seq_buf ++ pay')) (sym first)
        ∙ head-parts n full size (omega (arith, low)) in
      let pay_size : length pay' ≡ n - 8 =
        omega (arith, length-drop 8 (take n full), length-take n full, size) in
      let seq_size : length seq_buf ≡ 4 =
        omega (arith, length-take 4 (drop 4 full), length-drop 4 full, size, low) in
      let built : build_rpc_frame sums (from_le_bytes seq_buf) pay' crc32 ≡ full =
        build-parts len_buf seq_buf pay' crc (All-take IsByte 4 input h)
          (All-take IsByte 4 (drop 4 full) (All-drop IsByte 4 full bytes))
          (All-drop IsByte n full bytes) l seq_size crc_size (omega (arith, pay_size, low))
          (omega (arith, pay_size, low, high))
          (ap from_le_bytes (sym word) ∙ sum ∙ ap sums.hash32 (sym parts))
        ∙ ap (λ xs. xs ++ crc) parts
        ∙ take-append-drop n full in
      sym (take-append-drop 4 input)
      ∙ ap (◌++◌ len_buf) (sym (take-append-drop n (drop 4 input)))
      ∙ sym (append_assoc len_buf body (drop n (drop 4 input)))
      ∙ ap₂ ◌++◌ (sym built ∙ ap₂ (λ a b. build_rpc_frame sums a b crc32) seq pay) left
