-- ===== src/Prelude/Bytes.antt =====
-- Bits of a byte. The laws are checked over all bytes by evaluation.
use Prim.Native.Nat.{ℕ, zero, suc, ◌+◌, ◌-◌, ◌^◌, ◌%◌, ◌<◌, bit_and, bit_or}
use mathlib.Core.Path.{◌≡◌, refl}
use mathlib.Core.Logic.{inl, inr}
use mathlib.Core.Bool.{Bool, true, false, ◌&&◌, ◌||◌, not}
use native.Mathlib.Omega.{arith}
use native.Mathlib.Decide.{ℕ_discrete}
use ikan_osv5_student.Prelude.Tests.{◌==◌, ltb, Bool-cases, if◌then◌else◌}

-- Whether a test holds of every number below a bound: one round for each number.
unfoldable pub all_below : ℕ → (ℕ → Bool) → Bool
all_below zero test = true
all_below (suc bound) test = if test bound then all_below bound test else false

pub all_below_sound :
    (bound : ℕ) (test : ℕ → Bool) (n : ℕ) → all_below bound test ≡ true → n < bound → test n ≡ true
unfolding all_below
all_below_sound zero test n passed below = absurd (omega arith)
all_below_sound (suc bound) test n passed below = elim (Bool-cases (test bound)) [
  | inl e ↦ elim (ℕ_discrete n bound) [
    | yes same ↦ rw same e
    | no other ↦ all_below_sound bound test n (ground arith) (ground arith)
  ]
  | inr e ↦ ground arith
]

abbrev pub xor : Bool → Bool → Bool
xor true b = not b
xor false b = b

-- `(byte & (1 << bit)) != 0`
unfoldable pub has_bit : ℕ → ℕ → Bool
has_bit byte bit = not (bit_and byte (2 ^ bit) == 0)

-- `byte | (1 << bit)`
unfoldable pub with_bit : ℕ → ℕ → ℕ
with_bit byte bit = bit_or byte (2 ^ bit)

abbrev pub bool_eq : Bool → Bool → Bool
bool_eq true b = b
bool_eq false b = not b

pub bool_eq_sound : (a b : Bool) → bool_eq a b ≡ true → a ≡ b
bool_eq_sound true b h = ground arith
bool_eq_sound false b h = ground arith

module _ (p : ℕ → ℕ → ℕ → Bool) where
  abbrev all_bits : Bool
  all_bits = all_below 256 (λ x. all_below 8 (λ b. all_below 8 (λ c. p x b c)))

  all_bits_sound : (x b c : ℕ) → all_bits ≡ true → x < 256 → b < 8 → c < 8 → p x b c ≡ true
  all_bits_sound x b c h hx hb hc =
      all_below_sound 8 (λ c. p x b c) c
        (all_below_sound 8 (λ b. all_below 8 (λ c. p x b c)) b
          (all_below_sound 256 (λ x. all_below 8 (λ b. all_below 8 (λ c. p x b c))) x h hx) hb)
        hc

set_table : all_bits (λ x b c. bool_eq (has_bit (with_bit x b) c) (b == c || has_bit x c)) ≡ true
unfolding all_below has_bit with_bit
set_table = refl

clear_table :
    all_bits (λ x b c.
      not (has_bit x b)
      || bool_eq (has_bit ((x + 256 - 2 ^ b) % 256) c) (not (b == c) && has_bit x c))
    ≡ true
unfolding all_below has_bit
clear_table = refl

-- Setting a bit sets that bit and no other.
pub has_bit-with_bit :
    (x b c : ℕ) → x < 256 → b < 8 → c < 8 → has_bit (with_bit x b) c ≡ (b == c || has_bit x c)
has_bit-with_bit x b c hx hb hc = bool_eq_sound _ _ (all_bits_sound _ x b c set_table hx hb hc)

range_table : all_below 256 (λ x. all_below 8 (λ b. ltb (with_bit x b) 256)) ≡ true
unfolding all_below with_bit
range_table = refl

pub with_bit-lt : (x b : ℕ) → x < 256 → b < 8 → with_bit x b < 256
with_bit-lt x b hx hb =
    let h =
      all_below_sound 8 (λ b. ltb (with_bit x b) 256) b
        (all_below_sound 256 (λ x. all_below 8 (λ b. ltb (with_bit x b) 256)) x range_table hx)
        hb in
    ground arith

-- Subtracting the weight of a set bit clears that bit and no other.
pub has_bit-clear :
    (x b c : ℕ)
    → x < 256
    → b < 8
    → c < 8
    → has_bit x b ≡ true
    → has_bit ((x + 256 - 2 ^ b) % 256) c ≡ (not (b == c) && has_bit x c)
has_bit-clear x b c hx hb hc h =
    bool_eq_sound _ _ (ground (arith, all_bits_sound _ x b c clear_table hx hb hc))

full_table : all_below 8 (λ b. has_bit 255 b) ≡ true
unfolding all_below has_bit
full_table = refl

-- 0xff has every bit.
pub has_bit_full : (b : ℕ) → b < 8 → has_bit 255 b ≡ true
has_bit_full b h = all_below_sound 8 (λ b. has_bit 255 b) b full_table h

top_table :
    all_bits (λ x b c. bool_eq (has_bit ((x + 256 - 128) % 256) c) (xor (c == 7) (has_bit x c)))
    ≡ true
unfolding all_below has_bit
top_table = refl

-- Subtracting 128 from a byte flips its top bit and changes no other.
pub has_bit-flip_top :
    (x c : ℕ) → x < 256 → c < 8 → has_bit ((x + 256 - 128) % 256) c ≡ xor (c == 7) (has_bit x c)
has_bit-flip_top x c hx hc =
    bool_eq_sound _ _ (all_bits_sound _ x 0 c top_table hx (omega arith) hc)
