-- ===== src/Libc/Numbers/Decimal.antt =====
-- `itoa` and `atoi` (libc-main.cpp) are inverse.
use native.Mathlib.Nat.{pow-suc}
use ikan_osv5_student.Prelude.{
  ℕ, zero, suc, ◌+◌, ◌-◌, ◌*◌, ◌/◌, ◌%◌, ◌^◌, ◌<◌, ◌≤◌, ◌≡◌, ◌⊎◌, inl, inr, ◌∙◌, true, false, List,
  [], ◌∷◌, ◌==◌, leb, ap, arith, refl, dec_lt, ℕ_discrete, Bool-cases,
}
use ikan_osv5_student.Libc.Numbers.{fill_digits, itoa, atoi, digits_value, is_digit}

digits_value_step :
    (n : ℕ) (buffer : List ℕ)
    → n < 2 ^ 32
    → digits_value (n / 10) ((n % 10 + b'0') ∷ buffer) ≡ digits_value n buffer
unfolding digits_value is_digit
digits_value_step n buffer l =
    let same : (n / 10 * 10 + (n % 10 + b'0' - b'0')) % 2 ^ 32 ≡ n = omega arith in
    rw same (ground arith)

-- Reading the digits that were filled in gives the number, and goes on with what follows them.
fill_digits_enough :
    (fuel n : ℕ) (buffer : List ℕ)
    → n < 10 ^ fuel
    → n < 2 ^ 32
    → digits_value 0 (fill_digits fuel n buffer) ≡ digits_value n buffer
unfolding fill_digits
fill_digits_enough zero n buffer h l = ap (λ k. digits_value k buffer) (omega arith)
fill_digits_enough (suc fuel) n buffer h l = elim (Bool-cases (n == 0)) [
  | inl e ↦ rw e (ap (λ k. digits_value k buffer) (ground arith))
  | inr ne ↦ rw ne (
      fill_digits_enough fuel (n / 10) ((n % 10 + b'0') ∷ buffer) (omega (arith, pow-suc 10 fuel))
        (omega arith)
      ∙ digits_value_step n buffer l)
]

abbrev pub StartsWithDigit : List ℕ → Type 0
StartsWithDigit [] = ⊥
StartsWithDigit (c ∷ rest) = (b'0' ≤ c) × (c ≤ b'9')

fill_digits-StartsWithDigit :
    (fuel n : ℕ) (buffer : List ℕ)
    → n < 10 ^ fuel
    → (0 < n) ⊎ StartsWithDigit buffer
    → StartsWithDigit (fill_digits fuel n buffer)
unfolding fill_digits
fill_digits-StartsWithDigit zero n buffer h (inl p) = absurd (omega arith)
fill_digits-StartsWithDigit zero n buffer h (inr s) = s
fill_digits-StartsWithDigit (suc fuel) n buffer h o = elim (Bool-cases (n == 0)) [
  | inl e ↦ rw e (elim o [ inl p ↦ absurd (ground arith) | inr s ↦ s ])
  | inr ne ↦ rw ne (
      fill_digits-StartsWithDigit fuel (n / 10) ((n % 10 + b'0') ∷ buffer)
        (omega (arith, pow-suc 10 fuel)) (inr (omega arith)))
]

atoi_digits : (l : List ℕ) → StartsWithDigit l → atoi l ≡ digits_value 0 l
unfolding atoi
atoi_digits [] s = absurd s
atoi_digits (c ∷ rest) s = ground arith

atoi_minus : (l : List ℕ) → atoi (b'-' ∷ l) ≡ (2 ^ 32 - digits_value 0 l) % 2 ^ 32
unfolding atoi
atoi_minus l = refl

digits_value-nil : (n : ℕ) → digits_value n [] ≡ n
unfolding digits_value
digits_value-nil n = refl

itoa-small : (n : ℕ) → 0 < n → n < 2 ^ 31 → itoa n ≡ fill_digits 10 n []
unfolding itoa
itoa-small n p h = ground arith

itoa-large : (n : ℕ) → 2 ^ 31 ≤ n → n < 2 ^ 32 → itoa n ≡ b'-' ∷ fill_digits 10 (2 ^ 32 - n) []
unfolding itoa
itoa-large n p h =
    let same : (2 ^ 32 - 1 - n + 1) % 2 ^ 32 ≡ 2 ^ 32 - n = omega arith in
    let negative : leb (2 ^ 31) n ≡ true = ground arith in
    let positive : (n == 0) ≡ false = ground arith in rw (negative, positive, same)

atoi-itoa_zero : atoi (itoa 0) ≡ 0
unfolding itoa atoi
atoi-itoa_zero = refl

-- `atoi` reads back every 32-bit number that `itoa` writes, the ones written with a sign included.
pub atoi-itoa : (n : ℕ) → n < 2 ^ 32 → atoi (itoa n) ≡ n
atoi-itoa n h = elim (dec_lt n (2 ^ 31)) [
  | yes small ↦ elim (ℕ_discrete n 0) [
    | yes z ↦ rw z atoi-itoa_zero
    | no nz ↦ rw (itoa-small n (omega arith) small) (
        atoi_digits (fill_digits 10 n [])
          (fill_digits-StartsWithDigit 10 n [] (omega arith) (inl (omega arith)))
        ∙ fill_digits_enough 10 n [] (omega arith) h
        ∙ digits_value-nil n)
  ]
  | no large ↦
      rw
        (
          itoa-large n (omega arith) h,
          atoi_minus (fill_digits 10 (2 ^ 32 - n) []),
          fill_digits_enough 10 (2 ^ 32 - n) [] (omega arith) (omega arith),
          digits_value-nil (2 ^ 32 - n),
        )
        (omega arith)
]
