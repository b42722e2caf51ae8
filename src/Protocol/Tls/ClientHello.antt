-- ===== src/Protocol/Tls/ClientHello.antt =====
-- The readers of a ClientHello of src/protocol/tls.rs: its names (SNI) and protocols (ALPN), and the
-- test of the first bytes. `str::from_utf8` is an argument. Loops are on fuel, with the length of the
-- message: each round moves the position.
mod Examples
use Prim.Native.String.{String}
use v3mtp.Prelude.{
  ℕ, zero, suc, ◌+◌, ◌*◌, min, Bool, false, ◌&&◌, ◌||◌, not, List, [], ◌∷◌, Option, none, some,
  length, take, drop, byte_at, ltb, leb, ◌==◌, ◌=?◌, bytes_eq, if◌then◌else◌,
}
use v3mtp.Stream.TlsStream.{tls_version, tls_record_handshake}
use v3mtp.Protocol.Tls.ServerHello.{alpn_type}

unfoldable pub is_tls_handshake : List ℕ → Bool
is_tls_handshake first_bytes =
    if ltb (length first_bytes) 3
    then false
    else (byte_at first_bytes 0 == tls_record_handshake)
      && ((byte_at first_bytes 1 == 0x03) && (byte_at first_bytes 2 == 0x01))

unfoldable pub parse_tls_record_header : List ℕ → Option (ℕ × ℕ)
parse_tls_record_header header =
    let version = byte_at header 1 ∷ byte_at header 2 ∷ [] in
    if not (version =? (0x03 ∷ 0x01 ∷ [])) && not (version =? tls_version)
    then none
    else some (byte_at header 0, byte_at header 3 * 256 + byte_at header 4)

-- `u16::from_be_bytes([message[pos], message[pos + 1]])`.
abbrev pub u16_at : List ℕ → ℕ → ℕ
u16_at message pos = byte_at message pos * 256 + byte_at message (pos + 1)

abbrev pub slice : List ℕ → ℕ → ℕ → List ℕ
slice message pos n = take n (drop pos message)

-- The extensions' first position and their end, behind the session, the ciphers and the compressions.
unfoldable pub extension_range : List ℕ → Option (ℕ × ℕ)
extension_range message =
    let ciphers = 43 + (1 + byte_at message 43) in
    let comps = ciphers + (2 + u16_at message ciphers) in
    let exts = comps + (1 + byte_at message comps) in
    if ltb (length message) (43 + 1)
    then none
    else if ltb (length message) (ciphers + 2)
    then none
    else if ltb (length message) (comps + 1)
    then none
    else if ltb (length message) (exts + 2)
    then none
    else if ltb (length message) (exts + 2 + u16_at message exts)
    then none
    else some (exts + 2, exts + 2 + u16_at message exts)

-- The protocols in a list, in the order in which they are offered.
unfoldable pub alpn_list : ℕ → List ℕ → ℕ → ℕ → List (List ℕ)
alpn_list zero message lp list_end = []
alpn_list (suc fuel) message lp list_end =
    let plen = byte_at message lp in
    let rest = alpn_list fuel message (lp + 1 + plen) list_end in
    if leb list_end lp
    then []
    else if ltb list_end (lp + 1 + plen)
    then []
    else slice message (lp + 1) plen ∷ rest

unfoldable pub alpn_loop : ℕ → List ℕ → ℕ → ℕ → List (List ℕ)
alpn_loop zero message pos ext_end = []
alpn_loop (suc fuel) message pos ext_end =
    let elen = u16_at message (pos + 2) in
    let body = pos + 4 in
    let rest = alpn_loop fuel message (body + elen) ext_end in
    if ltb ext_end (pos + 4)
    then []
    else if ltb ext_end (body + elen)
    then []
    else if (u16_at message pos == alpn_type) && leb 3 elen
    then alpn_list (length message) message (body + 2)
        (min (body + 2 + u16_at message body) (body + elen))
    else rest

unfoldable pub extract_alpn_from_client_hello : List ℕ → List (List ℕ)
extract_alpn_from_client_hello message =
    if ltb 5 (length message) && (byte_at message 5 == 0x01)
    then elim (extension_range message) [
      | none ↦ []
      | some r ↦ alpn_loop (length message) message r.0 r.1
    ]
    else []

module _ (from_utf8 : List ℕ → Option String) where
  -- The first host name in the list that is a text.
  unfoldable pub name_list : ℕ → List ℕ → ℕ → ℕ → Option String
  name_list zero message sn_pos sn_end = none
  name_list (suc fuel) message sn_pos sn_end =
      let name_len = u16_at message (sn_pos + 1) in
      let rest = name_list fuel message (sn_pos + 3 + name_len) sn_end in
      if ltb sn_end (sn_pos + 3)
      then none
      else if ltb sn_end (sn_pos + 3 + name_len)
      then none
      else if (byte_at message sn_pos == 0) && ltb 0 name_len
      then elim (from_utf8 (slice message (sn_pos + 3) name_len)) [
        | none ↦ rest
        | some host ↦ some host
      ]
      else rest

  unfoldable pub sni_loop : ℕ → List ℕ → ℕ → ℕ → Option String
  sni_loop zero message pos ext_end = none
  sni_loop (suc fuel) message pos ext_end =
      let elen = u16_at message (pos + 2) in
      let body = pos + 4 in
      let rest = sni_loop fuel message (body + elen) ext_end in
      if ltb ext_end (pos + 4)
      then none
      else if ltb ext_end (body + elen)
      then none
      else if (u16_at message pos == 0x0000) && leb 5 elen
      then elim (name_list (length message) message (body + 2)
          (min (body + 2 + u16_at message body) (body + elen))) [
            | none ↦ rest
            | some host ↦ some host
          ]
      else rest

  unfoldable pub extract_sni_from_client_hello : List ℕ → Option String
  extract_sni_from_client_hello message =
      if ltb (length message) 43 || not (byte_at message 0 == tls_record_handshake)
      then none
      else if byte_at message 5 == 0x01
      then elim (extension_range message) [
        | none ↦ none
        | some r ↦ sni_loop (length message) message r.0 r.1
      ]
      else none
