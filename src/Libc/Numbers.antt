-- ===== src/Libc/Numbers.antt =====
-- Numbers and text in libc-main.cpp: `itoa`, `atoi`, `itoaHex`, `hextoi`, `ceiling`, `power` and the
-- character tests. A string is the list of its bytes before the final zero.
pub mod Decimal
pub mod Hex
use ikan_osv5_student.Prelude.{
  ℕ, zero, suc, ◌+◌, ◌-◌, ◌*◌, ◌/◌, ◌%◌, ◌^◌, Bool, true, false, not, ◌&&◌, ◌||◌, List, [], ◌∷◌,
  ◌++◌, ◌==◌, ltb, leb, if◌then◌else◌,
}

-- The loop that fills `buffer`, lowest digit first: the list's head is the digit written last.
-- A number below 10^fuel is exhausted (`Decimal.fill_digits_enough`).
unfoldable pub fill_digits : ℕ → ℕ → List ℕ → List ℕ
fill_digits zero n buffer = buffer
fill_digits (suc fuel) n buffer =
    let more = fill_digits fuel (n / 10) ((n % 10 + b'0') ∷ buffer) in
    if n == 0 then buffer else more

-- `buffer` has room for ten digits and a sign; the last loop reads it from its end, so the result
-- is the buffer from the byte written last.
unfoldable pub itoa : ℕ → List ℕ
itoa number =
    let negative = leb (2 ^ 31) number in
    let abs_num = if negative then (2 ^ 32 - 1 - number + 1) % 2 ^ 32 else number in
    let buffer = fill_digits 10 abs_num [] in
    if number == 0 then b'0' ∷ [] else if negative then b'-' ∷ buffer else buffer

unfoldable pub is_space : ℕ → Bool
is_space c = c == 32 || c == 9 || c == 13 || c == 10 || c == 12 || c == 11

unfoldable pub is_digit : ℕ → Bool
is_digit c = leb b'0' c && leb c b'9'

unfoldable pub is_alpha : ℕ → Bool
is_alpha c = (leb b'a' c && leb c b'z') || (leb b'A' c && leb c b'Z')

unfoldable pub to_lower : ℕ → ℕ
to_lower c = if leb b'A' c && leb c b'Z' then c + 32 else c

-- The first loop of `atoi`, and `skipWhitespace`.
unfoldable pub skip_whitespace : List ℕ → List ℕ
skip_whitespace [] = []
skip_whitespace (c ∷ rest) = if is_space c then skip_whitespace rest else c ∷ rest

-- The digit loop of `atoi`.
unfoldable pub digits_value : ℕ → List ℕ → ℕ
digits_value result [] = result
digits_value result (c ∷ rest) =
    let more = digits_value ((result * 10 + (c - b'0')) % 2 ^ 32) rest in
    if is_digit c then more else result

unfoldable pub signed_value : List ℕ → ℕ
unfolding digits_value is_digit
signed_value [] = 0
signed_value (c ∷ rest) =
    if c == b'-'
    then (2 ^ 32 - digits_value 0 rest) % 2 ^ 32
    else if c == b'+'
    then digits_value 0 rest
    else digits_value 0 (c ∷ rest)

unfoldable pub atoi : List ℕ → ℕ
unfolding signed_value skip_whitespace is_space
atoi source = signed_value (skip_whitespace source)

unfoldable pub hex_digit : ℕ → ℕ
hex_digit remainder = if ltb remainder 10 then remainder + b'0' else remainder + b'A' - 10

-- The loop of `itoaHex` with the reversal that follows it: each digit goes in front.
unfoldable pub fill_hex : ℕ → ℕ → List ℕ → List ℕ
fill_hex zero n text = text
fill_hex (suc fuel) n text =
    let more = fill_hex fuel (n / 16) (hex_digit (n % 16) ∷ text) in if n == 0 then text else more

unfoldable pub itoa_hex : ℕ → List ℕ
itoa_hex number = if number == 0 then b'0' ∷ [] else fill_hex 8 number []

-- The digit loop of `hextoi`; it stops at the first byte that is no digit.
unfoldable pub hex_value : ℕ → List ℕ → ℕ
hex_value result [] = result
hex_value result (c ∷ rest) =
    let more = λ (digit : ℕ). hex_value ((result * 16 + digit) % 2 ^ 32) rest in
    if leb b'0' c && leb c b'9'
    then more (c - b'0')
    else if leb b'A' c && leb c b'F'
    then more (c - b'A' + 10)
    else if leb b'a' c && leb c b'f'
    then more (c - b'a' + 10)
    else result

-- The optional "0x".
unfoldable pub hextoi : List ℕ → ℕ
hextoi [] = 0
hextoi (c ∷ []) = hex_value 0 (c ∷ [])
hextoi (c ∷ x ∷ rest) =
    if c == b'0' && (x == b'x' || x == b'X') then hex_value 0 rest else hex_value 0 (c ∷ x ∷ rest)

unfoldable pub ceiling : ℕ → ℕ → ℕ
ceiling number base = (number + base + 2 ^ 32 - 1) % 2 ^ 32 / base

-- Square and multiply, on 32 halvings of an `uint32_t` exponent.
unfoldable pub power_loop : ℕ → ℕ → ℕ → ℕ → ℕ
power_loop zero result number exponent = result
power_loop (suc fuel) result number exponent =
    let more =
      power_loop fuel (if exponent % 2 == 1 then (result * number) % 2 ^ 32 else result)
        ((number * number) % 2 ^ 32) (exponent / 2) in
    if exponent == 0 then result else more

unfoldable pub power : ℕ → ℕ → ℕ
unfolding power_loop
power number exponent = power_loop 32 1 number exponent
