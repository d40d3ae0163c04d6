-- ===== src/Libc/Time/RoundTrip.antt =====
-- The two conversions of libc-main.cpp between a date and Unix time are inverse on this century.
use ikan_osv5_student.Prelude.{
  ℕ, ◌+◌, ◌-◌, ◌*◌, ◌/◌, ◌%◌, ◌^◌, ◌<◌, ◌≤◌, ◌≡◌, arith, refl, all_below, all_below_sound, ==_iff,
  ◌==◌, true, leb, Bool-cases, inl, inr,
}
use ikan_osv5_student.Libc.Time.{
  convert_to_unix_time, convert_from_unix_time, days_since_1970, days_start, find_subyear, w32,
  sub32,
}

-- The first day of the year `2000 + 4 * y + k`, in days since 1970.
year_table :
    all_below 25 (λ y. all_below 4 (λ k.
      days_since_1970 (w32 (2000 + y * 4 + k)) 1 == 10957 + 1461 * y + (365 * k + (k + 3) / 4)))
    ≡ true
unfolding all_below days_since_1970
year_table = refl

first_day :
    (y k : ℕ)
    → y < 25
    → k < 4
    → days_since_1970 (w32 (2000 + y * 4 + k)) 1 ≡ 10957 + 1461 * y + (365 * k + (k + 3) / 4)
first_day y k hy hk = (==_iff _ _).0 (
    all_below_sound 4
      (λ k.
        days_since_1970 (w32 (2000 + y * 4 + k)) 1 == 10957 + 1461 * y + (365 * k + (k + 3) / 4))
      k
      (all_below_sound 25
        (λ y. all_below 4 (λ k.
          days_since_1970 (w32 (2000 + y * 4 + k)) 1 == 10957 + 1461 * y + (365 * k + (k + 3) / 4)))
        y year_table hy)
      hk)

add_days : (x d : ℕ) → d < 2 ^ 32 → w32 (x + sub32 (w32 (d + 1)) 1) ≡ w32 (w32 (x + sub32 1 1) + d)
add_days x d h = omega arith

day_of_year_step :
    (year d : ℕ)
    → d < 2 ^ 32
    → days_since_1970 year (w32 (d + 1)) ≡ w32 (days_since_1970 year 1 + d)
unfolding days_since_1970
day_of_year_step year d h = add_days _ d h

days_in_cycle :
    (y k start e : ℕ)
    → y < 25
    → k < 4
    → start ≡ 365 * k + (k + 3) / 4
    → start ≤ e
    → e < 1461
    → days_since_1970 (w32 (2000 + y * 4 + k)) (w32 (sub32 e start + 1)) ≡ 10957 + 1461 * y + e
days_in_cycle y k start e hy hk hs l h =
    rw
      (day_of_year_step (w32 (2000 + y * 4 + k)) (sub32 e start) (omega arith), first_day y k hy hk)
      (omega arith)

days_of :
    (y e : ℕ)
    → y < 25
    → e < 1461
    → days_since_1970
        (w32 (2000 + y * 4 + find_subyear e))
        (w32 (sub32 e (days_start (find_subyear e)) + 1))
      ≡ 10957 + 1461 * y + e
days_of y e hy he = elim (Bool-cases (leb 1096 e)) [
  | inl a ↦ rw a (days_in_cycle y 3 1096 e hy (omega arith) refl (ground arith) he)
  | inr a ↦ elim (Bool-cases (leb 731 e)) [
    | inl b ↦ rw (a, b) (days_in_cycle y 2 731 e hy (omega arith) refl (ground arith) he)
    | inr b ↦ elim (Bool-cases (leb 366 e)) [
      | inl c ↦ rw (a, b, c) (days_in_cycle y 1 366 e hy (omega arith) refl (ground arith) he)
      | inr c ↦ rw (a, b, c) (days_in_cycle y 0 0 e hy (omega arith) refl (omega arith) he)
    ]
  ]
]

-- Converting a Unix time from the start of 2000 to the end of 2099 to a date and back gives the
-- same time.
pub convert_to-convert_from :
    (t : ℕ) → 946684800 ≤ t → t < 4102444800 → convert_to_unix_time (convert_from_unix_time t) ≡ t
unfolding convert_to_unix_time convert_from_unix_time
convert_to-convert_from t lo hi =
    let s : ℕ = sub32 t 946684800 in
    let small : s ≡ t - 946684800 = omega arith in
    let d : ℕ = s / 60 / 60 / 24 in
    rw (days_of (d / 1461) (d % 1461) (omega arith) (omega arith)) (omega arith)
