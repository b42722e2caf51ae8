-- ===== src/Protocol/Tls/Named.antt =====
-- The server name of a ClientHello as a client writes it, and what `extract_sni_from_client_hello` finds.
use Prim.Native.String.{String}
use v3mtp.Prelude.{
  ◌||◌, not, append-nil, get_or-append_lt, ℕ, zero, suc, ◌+◌, ◌≤◌, ◌<◌, min, ◌≡◌, refl, sym, ap,
  ◌∙◌, arith, true, false, List, [], ◌∷◌, ◌++◌, append_assoc, Option, some, length, length-append,
  take, drop, take-length-append, drop-length-append, byte_at, ltb, leb, ◌==◌, to_be_bytes, All,
}
use mathlib.Core.Path.{subst}
use v3mtp.Protocol.Tls.ClientHello.{u16_at, slice, extension_range}
use v3mtp.Protocol.Tls.Offered.{byte_at-skip, u16_at-skip, extension_bytes, IsExtension}
use v3mtp.Protocol.Tls.Offered.{head-Reads}
use v3mtp.Protocol.Tls.Written.{
  Hello, hello_bytes, IsHello, extension_range_lem, few_extensions, hello_long,
}
use v3mtp.Protocol.Tls.ClientHello.{name_list, sni_loop, extract_sni_from_client_hello}
use v3mtp.Stream.TlsStream.{tls_record_handshake}

-- One host name.
abbrev pub name_entry : List ℕ → List ℕ
name_entry host = 0 ∷ (to_be_bytes 2 (length host) ++ host)

abbrev pub sni_body : List ℕ → List ℕ
sni_body host = to_be_bytes 2 (length (name_entry host)) ++ name_entry host

abbrev pub IsUnnamed : ℕ × List ℕ → Type 0
IsUnnamed (ty, body) = (ty == 0) ≡ false

module _ (from_utf8 : List ℕ → Option String) where
  name_list-finds :
      (fuel : ℕ) (message : List ℕ) (sn_pos sn_end name_len : ℕ) (name : String)
      → 0 < fuel
      → byte_at message sn_pos ≡ 0
      → u16_at message (sn_pos + 1) ≡ name_len
      → sn_pos + 3 + name_len ≤ sn_end
      → 0 < name_len
      → from_utf8 (slice message (sn_pos + 3) name_len) ≡ some name
      → name_list from_utf8 fuel message sn_pos sn_end ≡ some name
  unfolding name_list
  name_list-finds zero message sn_pos sn_end name_len name f b n fits pos text =
      absurd (omega (arith, f))
  name_list-finds (suc fuel) message sn_pos sn_end name_len name f b n fits pos text =
      let first : ltb sn_end (sn_pos + 3) ≡ false = ground (arith, fits) in
      let second : ltb sn_end (sn_pos + 3 + name_len) ≡ false = ground (arith, fits) in
      let third : ltb 0 name_len ≡ true = ground (arith, pos) in
      rw (b, n, first, second, third, text, name_list) refl

  sni_loop-skips :
      (fuel : ℕ) (message : List ℕ) (pos ext_end ty elen : ℕ)
      → u16_at message pos ≡ ty
      → u16_at message (pos + 2) ≡ elen
      → (ty == 0) ≡ false
      → pos + 4 + elen ≤ ext_end
      → sni_loop from_utf8 (suc fuel) message pos ext_end
        ≡ sni_loop from_utf8 fuel message (pos + 4 + elen) ext_end
  unfolding sni_loop
  sni_loop-skips fuel message pos ext_end ty elen t n other fits =
      let first : ltb ext_end (pos + 4) ≡ false = ground (arith, fits) in
      let second : ltb ext_end (pos + 4 + elen) ≡ false = ground (arith, fits) in
      rw (t, n, first, second, other) refl

  sni_loop-finds :
      (fuel : ℕ) (message : List ℕ) (pos ext_end elen list_len : ℕ) (name : String)
      → u16_at message pos ≡ 0
      → u16_at message (pos + 2) ≡ elen
      → u16_at message (pos + 4) ≡ list_len
      → 5 ≤ elen
      → list_len + 2 ≡ elen
      → pos + 4 + elen ≤ ext_end
      → name_list from_utf8 (length message) message (pos + 4 + 2) (pos + 4 + 2 + list_len)
        ≡ some name
      → sni_loop from_utf8 (suc fuel) message pos ext_end ≡ some name
  unfolding sni_loop
  sni_loop-finds fuel message pos ext_end elen list_len name t n l long whole fits found =
      let first : ltb ext_end (pos + 4) ≡ false = ground (arith, fits) in
      let second : ltb ext_end (pos + 4 + elen) ≡ false = ground (arith, fits) in
      let third : leb 5 elen ≡ true = ground (arith, long) in
      let stop : min (pos + 4 + 2 + list_len) (pos + 4 + elen) ≡ pos + 4 + 2 + list_len =
        omega (arith, whole) in
      rw (t, n, first, second, third, l, stop, found, sni_loop) refl

  sni_loop-reads :
      (fuel : ℕ) (message pre rest : List ℕ) (pos ext_end : ℕ) (before after : List (ℕ × List ℕ))
      (host : List ℕ) (name : String)
      → message ≡ pre ++ (extension_bytes (before ++ ((0, sni_body host) ∷ after)) ++ rest)
      → pos ≡ length pre
      → ext_end ≡ pos + length (extension_bytes (before ++ ((0, sni_body host) ∷ after)))
      → All IsExtension (before ++ ((0, sni_body host) ∷ after))
      → All IsUnnamed before
      → length before < fuel
      → 0 < length host
      → from_utf8 host ≡ some name
      → sni_loop from_utf8 fuel message pos ext_end ≡ some name
  sni_loop-reads zero message pre rest pos ext_end before after host name e at_ stop sized others
        few some_host text =
      absurd (omega (arith, few))
  sni_loop-reads (suc fuel) message pre rest pos ext_end [] after host name e at_ stop sized others
        few some_host text =
      let body = sni_body host in
      let entry = name_entry host in
      let behind = extension_bytes after ++ rest in
      let h =
        head-Reads message pre behind pos 0 body
          (e
            ∙ ap (λ xs. pre ++ (to_be_bytes 2 0 ++ (to_be_bytes 2 (length body) ++ xs)))
                (append_assoc body (extension_bytes after) rest))
          at_ sized.0 in
      let heads = pre ++ (to_be_bytes 2 0 ++ to_be_bytes 2 (length body)) in
      let to_list : length heads ≡ pos + 4 =
        omega (arith, at_, length-append pre (to_be_bytes 2 0 ++ to_be_bytes 2 (length body))) in
      let listed : u16_at message (pos + 4) ≡ length entry =
        u16_at-skip message heads (entry ++ behind) (pos + 4) (length entry) h.split (sym to_list)
          (omega (arith, sized.0.1)) in
      let opened = heads ++ to_be_bytes 2 (length entry) in
      let in_list : message ≡ opened ++ (entry ++ behind) =
        h.split ∙ sym (append_assoc heads (to_be_bytes 2 (length entry)) (entry ++ behind)) in
      let at_list : pos + 4 + 2 ≡ length opened =
        omega (arith, to_list, length-append heads (to_be_bytes 2 (length entry))) in
      let marked = opened ++ (0 ∷ []) in
      let in_name : message ≡ marked ++ (to_be_bytes 2 (length host) ++ (host ++ behind)) =
        in_list
        ∙ sym (append_assoc opened (0 ∷ []) (to_be_bytes 2 (length host) ++ (host ++ behind))) in
      let at_name : pos + 4 + 2 + 1 ≡ length marked =
        omega (arith, at_list, length-append opened (0 ∷ [])) in
      let named = marked ++ to_be_bytes 2 (length host) in
      let in_host : message ≡ named ++ (host ++ behind) =
        in_name ∙ sym (append_assoc marked (to_be_bytes 2 (length host)) (host ++ behind)) in
      let at_host : pos + 4 + 2 + 3 ≡ length named =
        omega (arith, at_name, length-append marked (to_be_bytes 2 (length host))) in
      let got : slice message (pos + 4 + 2 + 3) (length host) ≡ host =
        ap (λ m. take (length host) (drop (pos + 4 + 2 + 3) m)) in_host
        ∙ ap (take (length host))
            (drop-length-append (pos + 4 + 2 + 3) named (host ++ behind) at_host)
        ∙ take-length-append (length host) host behind refl in
      sni_loop-finds fuel message pos ext_end (length body) (length entry) name h.kind h.size listed
        (omega (arith, some_host)) (omega arith)
        (omega (arith, stop, length-append body (extension_bytes after)))
        (name_list-finds (length message) message (pos + 4 + 2) (pos + 4 + 2 + length entry)
          (length host) name
          (omega (arith, ap length in_list, length-append opened (entry ++ behind)))
          (ap (λ m. byte_at m (pos + 4 + 2)) in_list
            ∙ byte_at-skip opened (entry ++ behind) (pos + 4 + 2) 0 (omega (arith, at_list)))
          (u16_at-skip message marked (host ++ behind) (pos + 4 + 2 + 1) (length host) in_name
            at_name (omega (arith, sized.0.1)))
          (omega arith) some_host (ap from_utf8 got ∙ text))
  sni_loop-reads (suc fuel) message pre rest pos ext_end ((ty, body) ∷ before) after host name e at_
        stop sized others few some_host text =
      let es = before ++ ((0, sni_body host) ∷ after) in
      let h =
        head-Reads message pre (extension_bytes es ++ rest) pos ty body
          (e
            ∙ ap (λ xs. pre ++ (to_be_bytes 2 ty ++ (to_be_bytes 2 (length body) ++ xs)))
                (append_assoc body (extension_bytes es) rest))
          at_ sized.0 in
      let heads = pre ++ (to_be_bytes 2 ty ++ to_be_bytes 2 (length body)) in
      sni_loop-skips fuel message pos ext_end ty (length body) h.kind h.size others.0
        (omega (arith, stop, length-append body (extension_bytes es)))
      ∙ sni_loop-reads fuel message (heads ++ body) rest (pos + 4 + length body) ext_end before
          after host name (h.split ∙ sym (append_assoc heads body (extension_bytes es ++ rest)))
          (omega (
            arith,
            at_,
            length-append heads body,
            length-append pre (to_be_bytes 2 ty ++ to_be_bytes 2 (length body)),
          ))
          (omega (arith, stop, length-append body (extension_bytes es))) sized.1 others.1
          (omega (arith, few)) some_host text

  sni_of :
      (m : List ℕ) (pos ext_end : ℕ)
      → 43 ≤ length m
      → byte_at m 0 ≡ tls_record_handshake
      → byte_at m 5 ≡ 1
      → extension_range m ≡ some (pos, ext_end)
      → extract_sni_from_client_hello from_utf8 m ≡ sni_loop from_utf8 (length m) m pos ext_end
  unfolding extract_sni_from_client_hello
  sni_of m pos ext_end long kind head range =
      let first : (ltb (length m) 43 || not (byte_at m 0 == tls_record_handshake)) ≡ false =
        ground (arith, long, kind) in
      let second : (byte_at m 5 == 1) ≡ true = ground (arith, head) in
      rw (first, second, range) refl

  -- A ClientHello that a client wrote, in a handshake record, with a host name that is a text, in an extension behind others of any kind,
  -- gives this name.
  pub extract_sni_from_client_hello-named :
      (h : Hello) (before after : List (ℕ × List ℕ)) (host : List ℕ) (name : String)
      → IsHello h
      → byte_at h.intro 0 ≡ tls_record_handshake
      → byte_at h.intro 5 ≡ 0x01
      → h.extensions ≡ before ++ ((0, sni_body host) ∷ after)
      → All IsUnnamed before
      → 0 < length host
      → from_utf8 host ≡ some name
      → extract_sni_from_client_hello from_utf8 (hello_bytes h) ≡ some name
  extract_sni_from_client_hello-named h before after host name is record_kind kind named others
        some_host text =
      let (pre, (split, range)) = extension_range_lem h is in
      let m = hello_bytes h in
      let es = before ++ ((0, sni_body host) ∷ after) in
      let size = ap length split ∙ length-append pre (extension_bytes h.extensions) in
      let bytes : extension_bytes h.extensions ≡ extension_bytes es = ap extension_bytes named in
      let first : byte_at m 0 ≡ tls_record_handshake =
        get_or-append_lt h.intro _ 0 0 (omega (arith, is.intro_size)) ∙ record_kind in
      let head : byte_at m 5 ≡ 1 =
        get_or-append_lt h.intro _ 5 0 (omega (arith, is.intro_size)) ∙ kind in
      sni_of m (length pre) (length pre + length (extension_bytes h.extensions)) (hello_long h is)
        first head range
      ∙ sni_loop-reads (length m) m pre [] (length pre)
          (length pre + length (extension_bytes h.extensions)) before after host name
          (split ∙ ap (λ xs. pre ++ xs) (bytes ∙ sym (append-nil (extension_bytes es)))) refl
          (omega (arith, ap length bytes)) (subst (All IsExtension) named is.sized) others
          (omega (
            arith,
            size,
            ap length bytes,
            few_extensions es,
            length-append before ((0, sni_body host) ∷ after),
          ))
          some_host text
