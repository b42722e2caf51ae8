-- ===== src/Protocol/Constants.antt =====
-- src/protocol/constants.rs: protocol tags and the length rules of the secure mode.
use v3mtp.Prelude.{
  ℕ, ◌+◌, ◌-◌, ◌%◌, Bool, List, [], ◌∷◌, Option, none, some, ltb, ◌==◌, if◌then◌else◌, to_le_bytes,
  from_le_bytes,
}
use v3mtp.Crypto.Random
use v3mtp.Crypto.Random.{Source, SecureRandom}

pub data ProtoTag : Type 0 where
  abridged intermediate secure : ProtoTag

-- The enum's discriminants.
unfoldable pub tag_word : ProtoTag → ℕ
tag_word abridged = 0xefefefef
tag_word intermediate = 0xeeeeeeee
tag_word secure = 0xdddddddd

unfoldable pub from_bytes : List ℕ → Option ProtoTag
from_bytes bs =
    let w = from_le_bytes bs in
    if w == 0xefefefef
    then some abridged
    else if w == 0xeeeeeeee
    then some intermediate
    else if w == 0xdddddddd
    then some secure
    else none

unfoldable pub to_bytes : ProtoTag → List ℕ
unfolding tag_word
to_bytes t = to_le_bytes 4 (tag_word t)

unfoldable pub as_bytes : ProtoTag → List ℕ
as_bytes abridged = 0xef ∷ 0xef ∷ 0xef ∷ 0xef ∷ []
as_bytes intermediate = 0xee ∷ 0xee ∷ 0xee ∷ 0xee ∷ []
as_bytes secure = 0xdd ∷ 0xdd ∷ 0xdd ∷ 0xdd ∷ []

unfoldable pub is_valid_secure_payload_len : ℕ → Bool
is_valid_secure_payload_len data_len = data_len % 4 == 0

unfoldable pub secure_payload_len_from_wire_len : ℕ → Option ℕ
secure_payload_len_from_wire_len wire_len =
    if ltb wire_len 4 then none else some (wire_len - wire_len % 4)

module _ (source : Source) where
  unfoldable pub secure_padding_len : ℕ → SecureRandom source → ℕ × SecureRandom source
  secure_padding_len data_len rng =
      ((Random.range source 3 rng).0 + 1, (Random.range source 3 rng).1)
