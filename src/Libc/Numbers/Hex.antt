-- ===== src/Libc/Numbers/Hex.antt =====
-- `itoaHex` and `hextoi` (libc-main.cpp), and `ceiling` and `power`.
use native.Mathlib.Nat.{pow-suc}
use ikan_osv5_student.Prelude.{
  ℕ, zero, suc, ◌+◌, ◌-◌, ◌*◌, ◌/◌, ◌%◌, ◌^◌, ◌<◌, ◌≤◌, ◌≡◌, ◌⊎◌, inl, inr, ◌∙◌, List, [], ◌∷◌,
  ◌==◌, ltb, ap, arith, refl, Bool-cases, ℕ_discrete,
}
use ikan_osv5_student.Libc.Numbers.{hex_digit, fill_hex, itoa_hex, hex_value, hextoi, ceiling}

hex_value_step :
    (r d : ℕ) (rest : List ℕ)
    → d < 16
    → hex_value r (hex_digit d ∷ rest) ≡ hex_value ((r * 16 + d) % 2 ^ 32) rest
unfolding hex_value hex_digit
hex_value_step r d rest h = elim (Bool-cases (ltb d 10)) [
  | inl e ↦
      let same : d + b'0' - b'0' ≡ d = omega arith in
      rw e (ground (arith, ap (λ k. hex_value ((r * 16 + k) % 2 ^ 32) rest) same))
  | inr e ↦
      let same : d + b'A' - 10 - b'A' + 10 ≡ d = ground arith in
      rw e (ground (arith, ap (λ k. hex_value ((r * 16 + k) % 2 ^ 32) rest) same))
]

-- Reading the hexadecimal digits that were filled in gives the number.
fill_hex_enough :
    (fuel n : ℕ) (text : List ℕ)
    → n < 16 ^ fuel
    → n < 2 ^ 32
    → hex_value 0 (fill_hex fuel n text) ≡ hex_value n text
unfolding fill_hex
fill_hex_enough zero n text h l = ap (λ k. hex_value k text) (omega arith)
fill_hex_enough (suc fuel) n text h l = elim (Bool-cases (n == 0)) [
  | inl e ↦ rw e (ap (λ k. hex_value k text) (ground arith))
  | inr ne ↦ rw ne (
      fill_hex_enough fuel (n / 16) (hex_digit (n % 16) ∷ text) (omega (arith, pow-suc 16 fuel))
        (omega arith)
      ∙ hex_value_step (n / 16) (n % 16) text (omega arith)
      ∙ ap (λ k. hex_value k text) (omega arith))
]

abbrev StartsWithHex : List ℕ → Type 0
StartsWithHex [] = ⊥
StartsWithHex (c ∷ rest) = b'0' < c

hex_digit-pos : (d : ℕ) → 0 < d → b'0' < hex_digit d
unfolding hex_digit
hex_digit-pos d h = ground arith

fill_hex-StartsWithHex :
    (fuel n : ℕ) (text : List ℕ)
    → n < 16 ^ fuel
    → (0 < n) ⊎ ((n ≡ 0) × StartsWithHex text)
    → StartsWithHex (fill_hex fuel n text)
unfolding fill_hex
fill_hex-StartsWithHex zero n text h (inl p) = absurd (omega arith)
fill_hex-StartsWithHex zero n text h (inr s) = s.1
fill_hex-StartsWithHex (suc fuel) n text h o = elim (Bool-cases (n == 0)) [
  | inl e ↦ rw e (elim o [ inl p ↦ absurd (ground arith) | inr s ↦ s.1 ])
  | inr ne ↦ rw ne (
      fill_hex-StartsWithHex fuel (n / 16) (hex_digit (n % 16) ∷ text)
        (omega (arith, pow-suc 16 fuel))
        (elim (ℕ_discrete (n / 16) 0) [
          | yes z ↦ inr (z, hex_digit-pos (n % 16) (ground arith))
          | no nz ↦ inl (omega arith)
        ]))
]

hextoi_plain : (l : List ℕ) → StartsWithHex l → hextoi l ≡ hex_value 0 l
unfolding hextoi
hextoi_plain [] s = absurd s
hextoi_plain (c ∷ []) s = refl
hextoi_plain (c ∷ x ∷ rest) s = ground arith

hex_value-nil : (n : ℕ) → hex_value n [] ≡ n
unfolding hex_value
hex_value-nil n = refl

hextoi-itoa_hex_zero : hextoi (itoa_hex 0) ≡ 0
unfolding itoa_hex hextoi hex_value
hextoi-itoa_hex_zero = refl

itoa_hex-pos : (n : ℕ) → 0 < n → itoa_hex n ≡ fill_hex 8 n []
unfolding itoa_hex
itoa_hex-pos n h = ground arith

-- `hextoi` reads back every 32-bit number that `itoaHex` writes.
hextoi-itoa_hex : (n : ℕ) → n < 2 ^ 32 → hextoi (itoa_hex n) ≡ n
hextoi-itoa_hex n h = elim (ℕ_discrete n 0) [
  | yes z ↦ rw z hextoi-itoa_hex_zero
  | no nz ↦ rw (itoa_hex-pos n (omega arith)) (
      hextoi_plain (fill_hex 8 n [])
        (fill_hex-StartsWithHex 8 n [] (omega arith) (inl (omega arith)))
      ∙ fill_hex_enough 8 n [] (omega arith) h
      ∙ hex_value-nil n)
]

-- `ceiling` rounds a quotient up, where the base is positive and number and base leave room in 32
-- bits.
ceiling_lem :
    (number base : ℕ)
    → 0 < base
    → number + base ≤ 2 ^ 32
    → (number ≤ base * ceiling number base) × (base * ceiling number base < number + base)
unfolding ceiling
ceiling_lem number base p h =
    let same : (number + base + 2 ^ 32 - 1) % 2 ^ 32 ≡ number + base - 1 = omega arith in
    rw same (grind arith)
