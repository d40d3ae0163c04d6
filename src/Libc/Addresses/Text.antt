-- ===== src/Libc/Addresses/Text.antt =====
-- Addresses as text and back (libc-main.cpp).
use ikan_osv5_student.Prelude.{
  ℕ, zero, suc, ◌+◌, ◌*◌, ◌/◌, ◌%◌, ◌^◌, ◌<◌, ◌≤◌, ◌≡◌, Bool, true, ◌&&◌, not, List, [], ◌∷◌, ◌++◌,
  some, ◌==◌, leb, length, arith, refl, all_below, all_below_sound,
}
use ikan_osv5_student.Libc.Numbers.{itoa, atoi, fill_digits}
use ikan_osv5_student.Libc.Numbers.Decimal.{atoi-itoa}
use ikan_osv5_student.Libc.Addresses.{
  ito_ip_address_string, take_octet, after_dot, last_octet, combine, ip_address_to_integer,
}

-- A text without a dot.
no_dots : List ℕ → Bool
no_dots [] = true
no_dots (c ∷ rest) = not (c == b'.') && no_dots rest

take_octet-append :
    (room : ℕ) (octet rest : List ℕ)
    → length octet ≤ room
    → no_dots octet ≡ true
    → take_octet room (octet ++ (b'.' ∷ rest)) ≡ (octet, b'.' ∷ rest)
unfolding take_octet no_dots
take_octet-append zero [] rest l h = refl
take_octet-append zero (c ∷ octet) rest l h = absurd (omega arith)
take_octet-append (suc room) [] rest l h = refl
take_octet-append (suc room) (c ∷ octet) rest l h =
    ground (arith, take_octet-append room octet rest)

last_octet-lem :
    (room : ℕ) (octet : List ℕ) → length octet ≤ room → last_octet room octet ≡ some octet
unfolding last_octet
last_octet-lem room [] l = refl
last_octet-lem zero (c ∷ octet) l = absurd (omega arith)
last_octet-lem (suc room) (c ∷ octet) l = rw (last_octet-lem room octet (omega arith)) refl

octets_table : all_below 256 (λ n. leb (length (itoa n)) 3 && no_dots (itoa n)) ≡ true
unfolding all_below itoa fill_digits no_dots
octets_table = refl

-- An octet is written with three digits at most.
octet_text : (n : ℕ) → n < 256 → (length (itoa n) ≤ 3) × (no_dots (itoa n) ≡ true)
octet_text n h =
    ground (
      arith,
      all_below_sound 256 (λ n. leb (length (itoa n)) 3 && no_dots (itoa n)) n octets_table h,
    )

combine_lem :
    (a b c d : ℕ)
    → a < 256
    → b < 256
    → c < 256
    → d < 256
    → combine a b c d ≡ a * 2 ^ 24 + b * 2 ^ 16 + c * 2 ^ 8 + d
unfolding combine
combine_lem a b c d ha hb hc hd = ground arith

ip_address_to_integer-append :
    (a b c d : List ℕ)
    → (length a ≤ 3) × (no_dots a ≡ true)
    → (length b ≤ 3) × (no_dots b ≡ true)
    → (length c ≤ 3) × (no_dots c ≡ true)
    → length d ≤ 3
    → ip_address_to_integer (a ++ (b'.' ∷ (b ++ (b'.' ∷ (c ++ (b'.' ∷ d))))))
      ≡ combine (atoi a) (atoi b) (atoi c) (atoi d)
unfolding ip_address_to_integer after_dot
ip_address_to_integer-append a b c d ha hb hc hd =
    rw
      (
        take_octet-append 3 a (b ++ (b'.' ∷ (c ++ (b'.' ∷ d)))) ha.0 ha.1,
        take_octet-append 3 b (c ++ (b'.' ∷ d)) hb.0 hb.1,
        take_octet-append 3 c d hc.0 hc.1,
        last_octet-lem 3 d hd,
        ip_address_to_integer,
        after_dot,
      )
      (rw
        (
          take_octet-append 3 a (b ++ (b'.' ∷ (c ++ (b'.' ∷ d)))) ha.0 ha.1,
          take_octet-append 3 b (c ++ (b'.' ∷ d)) hb.0 hb.1,
          take_octet-append 3 c d hc.0 hc.1,
        )
        refl)

-- `ipAddressTointeger` reads back every 32-bit address that `itoIPAddressString` writes.
pub ip_address_to_integer-ito_ip_address_string :
    (ip_address : ℕ)
    → ip_address < 2 ^ 32
    → ip_address_to_integer (ito_ip_address_string ip_address) ≡ ip_address
unfolding ito_ip_address_string
ip_address_to_integer-ito_ip_address_string n h =
    let a : ℕ = n / 2 ^ 24 % 2 ^ 8 in
    let b : ℕ = n / 2 ^ 16 % 2 ^ 8 in
    let c : ℕ = n / 2 ^ 8 % 2 ^ 8 in
    let d : ℕ = n % 2 ^ 8 in
    rw
      (
        ip_address_to_integer-append (itoa a) (itoa b) (itoa c) (itoa d)
            (octet_text a (omega arith)) (octet_text b (omega arith)) (octet_text c (omega arith))
            (octet_text d (omega arith)).0,
        atoi-itoa a (omega arith),
        atoi-itoa b (omega arith),
        atoi-itoa c (omega arith),
        atoi-itoa d (omega arith),
        combine_lem a b c d (omega arith) (omega arith) (omega arith) (omega arith),
      )
      (omega arith)
