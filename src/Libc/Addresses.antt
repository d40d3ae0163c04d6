-- ===== src/Libc/Addresses.antt =====
-- `itoIPAddressString` and `ipAddressTointeger` (libc-main.cpp).
pub mod Text
use ikan_osv5_student.Prelude.{
  ℕ, zero, suc, ◌+◌, ◌*◌, ◌/◌, ◌%◌, ◌^◌, Bool, true, false, ◌||◌, List, [], ◌∷◌, ◌++◌, Option, none,
  some, ◌==◌, ltb, if◌then◌else◌,
}
use ikan_osv5_student.Libc.Numbers.{itoa, atoi}

unfoldable pub ito_ip_address_string : ℕ → List ℕ
ito_ip_address_string ip_address =
    itoa (ip_address / 2 ^ 24 % 2 ^ 8)
    ++ (b'.'
        ∷ (itoa (ip_address / 2 ^ 16 % 2 ^ 8)
            ++ (b'.' ∷ (itoa (ip_address / 2 ^ 8 % 2 ^ 8) ++ (b'.' ∷ itoa (ip_address % 2 ^ 8))))))

-- The loops over the first three octets, on the room left in the buffer: the octet and the rest.
unfoldable pub take_octet : ℕ → List ℕ → List ℕ × List ℕ
take_octet zero text = ([], text)
take_octet (suc room) [] = ([], [])
take_octet (suc room) (c ∷ rest) =
    let (octet, more) = take_octet room rest in
    if c == b'.' then ([], c ∷ rest) else (c ∷ octet, more)

-- `if (ipAddress[position] != '.') return 0;`
unfoldable pub after_dot : List ℕ → Option (List ℕ)
after_dot [] = none
after_dot (c ∷ rest) = if c == b'.' then some rest else none

-- The loop over the fourth octet and the test after it: at most three characters are left.
unfoldable pub last_octet : ℕ → List ℕ → Option (List ℕ)
last_octet room [] = some []
last_octet zero (c ∷ rest) = none
last_octet (suc room) (c ∷ rest) = elim (last_octet room rest) [
  | none ↦ none
  | some octet ↦ some (c ∷ octet)
]

-- The conversion at the end; a shifted octet and a smaller one have no bit in common.
unfoldable pub combine : ℕ → ℕ → ℕ → ℕ → ℕ
combine a b c d =
    if ltb 255 a || (ltb 255 b || (ltb 255 c || ltb 255 d))
    then 0
    else a * 2 ^ 24 + b * 2 ^ 16 + c * 2 ^ 8 + d

unfoldable pub ip_address_to_integer : List ℕ → ℕ
ip_address_to_integer text =
    let (octet1, text1) = take_octet 3 text in
    elim (after_dot text1) [
      | none ↦ 0
      | some text2 ↦
          let (octet2, text3) = take_octet 3 text2 in
          elim (after_dot text3) [
            | none ↦ 0
            | some text4 ↦
                let (octet3, text5) = take_octet 3 text4 in
                elim (after_dot text5) [
                  | none ↦ 0
                  | some text6 ↦ elim (last_octet 3 text6) [
                    | none ↦ 0
                    | some octet4 ↦ combine (atoi octet1) (atoi octet2) (atoi octet3) (atoi octet4)
                  ]
                ]
          ]
    ]
