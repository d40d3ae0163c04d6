-- ===== src/Libc/Time.antt =====
-- `convertToUnixTime` and `convertFromUnixTime` (libc-main.cpp). All arithmetic is on `uint32_t`
-- (`unsigned long` has 32 bits on this machine).
pub mod RoundTrip
use ikan_osv5_student.Prelude.{ℕ, ◌+◌, ◌-◌, ◌*◌, ◌/◌, ◌%◌, ◌^◌, ◌==◌, leb, if◌then◌else◌}

-- `struct time`
pub record Time : Type 0 where
  pub year : ℕ
  pub day_of_year : ℕ
  pub hour : ℕ
  pub minute : ℕ
  pub sec : ℕ

abbrev pub w32 : ℕ → ℕ
w32 n = n % 2 ^ 32

abbrev pub sub32 : ℕ → ℕ → ℕ
sub32 a b = (a + 2 ^ 32 - b) % 2 ^ 32

-- `y / 4 - y / 100 + y / 400`
abbrev pub leap_years : ℕ → ℕ
leap_years y = w32 (sub32 (y / 4) (y / 100) + y / 400)

unfoldable pub days_since_1970 : ℕ → ℕ → ℕ
days_since_1970 year day_of_year =
    let leaps = sub32 (leap_years (sub32 year 1)) (leap_years 1969) in
    w32 (w32 (w32 (sub32 year 1970 * 365) + leaps) + sub32 day_of_year 1)

unfoldable pub convert_to_unix_time : Time → ℕ
convert_to_unix_time t =
    let days = days_since_1970 t.year t.day_of_year in
    w32 (w32 (w32 (w32 (days * 86400) + w32 (t.hour * 3600)) + w32 (t.minute * 60)) + t.sec)

abbrev pub days_start : ℕ → ℕ
days_start subyear =
    if subyear == 0 then 0 else if subyear == 1 then 366 else if subyear == 2 then 731 else 1096

-- The loop `for (subyear = 3; subyear > 0; subyear--)`.
abbrev pub find_subyear : ℕ → ℕ
find_subyear epoch =
    if leb 1096 epoch then 3 else if leb 731 epoch then 2 else if leb 366 epoch then 1 else 0

unfoldable pub convert_from_unix_time : ℕ → Time
convert_from_unix_time unix_time =
    let seconds = sub32 unix_time 946684800 in
    let days = seconds / 60 / 60 / 24 in
    let years = days / (365 * 4 + 1) * 4 in
    let epoch = days % (365 * 4 + 1) in
    record {
      year = w32 (2000 + years + find_subyear epoch);
      day_of_year = w32 (sub32 epoch (days_start (find_subyear epoch)) + 1);
      hour = seconds / 60 / 60 % 24;
      minute = seconds / 60 % 60;
      sec = seconds % 60;
    }
