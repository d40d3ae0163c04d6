-- ===== src/Tests/Texts.antt =====
-- Numbers, dates and text of libc-main.cpp.
use ikan_osv5_student.Prelude.{◌≡◌, [], ◌∷◌, refl, arith}
use ikan_osv5_student.Libc.Numbers.{itoa, fill_digits, atoi, power}
use ikan_osv5_student.Libc.Addresses.{ito_ip_address_string, ip_address_to_integer}
use ikan_osv5_student.Libc.Addresses.Text.{ip_address_to_integer-ito_ip_address_string}
use ikan_osv5_student.Libc.Numbers.Decimal.{atoi-itoa}
use ikan_osv5_student.Libc.Time.{convert_to_unix_time, convert_from_unix_time}
use ikan_osv5_student.Libc.Time.RoundTrip.{convert_to-convert_from}

itoa-minus_two : itoa 0xFFFFFFFE ≡ b'-' ∷ b'2' ∷ []
unfolding itoa fill_digits
itoa-minus_two = refl

power-three_five : power 3 5 ≡ 243
unfolding power
power-three_five = refl

-- 29 February 2024, 12:30:15
convert_from_leap_day :
    convert_from_unix_time 1709209815
    ≡ record { year = 2024; day_of_year = 60; hour = 12; minute = 30; sec = 15 }
unfolding convert_from_unix_time
convert_from_leap_day = refl

atoi-itoa_example : atoi (itoa 0xFFFFFFFE) ≡ 0xFFFFFFFE
atoi-itoa_example = atoi-itoa 0xFFFFFFFE (omega arith)

convert_to-convert_from_example :
    convert_to_unix_time (convert_from_unix_time 1709209815) ≡ 1709209815
convert_to-convert_from_example = convert_to-convert_from 1709209815 (omega arith) (omega arith)

ip_address_to_integer-ito_ip_address_string_example :
    ip_address_to_integer (ito_ip_address_string 3232235777) ≡ 3232235777
ip_address_to_integer-ito_ip_address_string_example =
    ip_address_to_integer-ito_ip_address_string 3232235777 (omega arith)
