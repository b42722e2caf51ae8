-- ===== src/Prelude/Bits.antt =====
-- Bit operations as arithmetic. The law for the lowest digit holds at every width; masks of a
-- byte are tables of 256 rows.
use Prim.Native.Nat.{
  ℕ, zero, suc, ◌+◌, ◌-◌, ◌*◌, ◌/◌, ◌%◌, ◌^◌, ◌≤◌, ◌<◌, max, bit_and, bit_or, bit_xor, digits,
  bit_or-bitwise,
}
use mathlib.Core.Path.{◌≡◌, refl, ap, subst, ◌∙◌}
use mathlib.Core.Bool.{Bool, true, ◌&&◌}
use native.Mathlib.Nat.{pow-suc}
use native.Mathlib.Omega.{arith}
use package.v3mtp.Prelude.Tests.{◌==◌, ==_iff, ltb, ltb→lt}

all_below : ℕ → (ℕ → Bool) → Bool
all_below zero p = true
all_below (suc n) p = p n && all_below n p

all_below→ : (n : ℕ) (p : ℕ → Bool) (x : ℕ) → all_below n p ≡ true → x < n → p x ≡ true
unfolding all_below
all_below→ zero p x h lt = absurd (omega arith)
all_below→ (suc n) p x h lt = ground (arith, all_below→ n p x)

low_seven_table : all_below 256 (λ b. bit_and b 0x7f == b % 128) ≡ true
unfolding all_below
low_seven_table = refl

pub bit_and_low_seven : (b : ℕ) → b < 256 → bit_and b 0x7f ≡ b % 128
bit_and_low_seven b h = (==_iff _ _).0 (all_below→ 256 _ b low_seven_table h)

low_four_table : all_below 256 (λ b. bit_and b 0x0f == b % 16) ≡ true
unfolding all_below
low_four_table = refl

pub bit_and_low_four : (b : ℕ) → b < 256 → bit_and b 0x0f ≡ b % 16
bit_and_low_four b h = (==_iff _ _).0 (all_below→ 256 _ b low_four_table h)

set_top_table : all_below 128 (λ b. bit_or b 0x80 == b + 128) ≡ true
unfolding all_below
set_top_table = refl

pub bit_or_top : (b : ℕ) → b < 128 → bit_or b 0x80 ≡ b + 128
bit_or_top b h = (==_iff _ _).0 (all_below→ 128 _ b set_top_table h)

-- `digits` on `or`: fuel beyond the first number changes nothing.
abbrev or_digits : ℕ → ℕ → ℕ → ℕ
or_digits = digits (λ y. y) max

one_less : (fuel a b : ℕ) → a ≤ fuel → or_digits (suc fuel) a b ≡ or_digits fuel a b
one_less fuel zero b h = elim fuel as (λ k. or_digits (suc k) zero b ≡ or_digits k zero b) [
  | zero ↦ refl
  | suc k ↦ refl
]
one_less zero (suc a) b h = absurd (omega arith)
one_less (suc fuel) (suc a) b h =
    ap (λ t. t * 2 + max (suc a % 2) (b % 2)) (one_less fuel (suc a / 2) (b / 2) (omega arith))

abbrev raise : ℕ → ℕ → ℕ
raise zero fuel = fuel
raise (suc d) fuel = suc (raise d fuel)

raise-eq-add : (d fuel : ℕ) → raise d fuel ≡ d + fuel
raise-eq-add zero fuel = omega arith
raise-eq-add (suc d) fuel = omega (arith, raise-eq-add d fuel)

any_less : (d fuel a b : ℕ) → a ≤ fuel → or_digits (raise d fuel) a b ≡ or_digits fuel a b
any_less zero fuel a b h = refl
any_less (suc d) fuel a b h =
    one_less (raise d fuel) a b (omega (arith, raise-eq-add d fuel)) ∙ any_less d fuel a b h

enough : (top a b : ℕ) → a ≤ top → or_digits top a b ≡ or_digits a a b
enough top a b h =
    let e : raise (top - a) a ≡ top = omega (arith, raise-eq-add (top - a) a) in
    subst (λ t. or_digits t a b ≡ or_digits a a b) e (any_less (top - a) a a b (omega arith))

bit_or_step : (a b : ℕ) → bit_or a b ≡ max (a % 2) (b % 2) + 2 * bit_or (a / 2) (b / 2)
bit_or_step zero b = rw (bit_or-bitwise zero b, bit_or-bitwise zero (b / 2)) (omega arith)
bit_or_step (suc a) b = omega (
  arith,
  bit_or-bitwise (suc a) b,
  bit_or-bitwise (suc a / 2) (b / 2),
  enough a (suc a / 2) (b / 2) (omega arith),
)

-- `r | (q << k)` is a sum where `r` fits `k` bits.
pub bit_or_high : (k q r : ℕ) → r < 2 ^ k → bit_or r (q * 2 ^ k) ≡ r + q * 2 ^ k
bit_or_high zero q zero h = simp bit_or-bitwise (omega arith)
bit_or_high zero q (suc r) h = absurd (omega arith)
bit_or_high (suc k) q r h = ground (
  arith,
  bit_or_step r (q * 2 ^ suc k),
  ap (λ (t : ℕ). q * t) (pow-suc 2 k),
  pow-suc 2 k,
  bit_or_high k q (r / 2),
)

xor_cancel_table : all_below 256 (λ a. all_below 256 (λ b. bit_xor (bit_xor a b) b == a)) ≡ true
unfolding all_below
xor_cancel_table = refl

pub bit_xor_cancel : (a b : ℕ) → a < 256 → b < 256 → bit_xor (bit_xor a b) b ≡ a
bit_xor_cancel a b ha hb =
    (==_iff _ _).0 (all_below→ 256 _ b (all_below→ 256 _ a xor_cancel_table ha) hb)

xor_byte_table : all_below 256 (λ a. all_below 256 (λ b. ltb (bit_xor a b) 256)) ≡ true
unfolding all_below
xor_byte_table = refl

pub bit_xor_byte : (a b : ℕ) → a < 256 → b < 256 → bit_xor a b < 256
bit_xor_byte a b ha hb = ltb→lt _ _ (all_below→ 256 _ b (all_below→ 256 _ a xor_byte_table ha) hb)
