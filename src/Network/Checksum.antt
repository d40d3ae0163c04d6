-- ===== src/Network/Checksum.antt =====
-- The checksums that net.cpp puts into a packet are the ones that a receiver expects.
use ikan_osv5_student.Prelude.{
  ℕ, ◌+◌, ◌-◌, ◌*◌, ◌/◌, ◌%◌, ◌^◌, ◌≤◌, ◌<◌, ◌≡◌, refl, sym, ap, ◌∙◌, ◌⊎◌, inl, inr, false, List,
  [], ◌∷◌, ◌++◌, arith, ◌==◌, ltb, length, get_or, take, drop, replicate, length-append,
  length-replicate, take-append, append_assoc, Bool-cases,
}
use ikan_osv5_student.Network.{
  sum_words, fold_carry, check_sum, network_short, network_long, Datagram, udp_length, frame_length,
  ip_start, addresses, ip_header, udp_start, udp_packet, pseudo_header, udp_checksum,
  ethernet_header, max_packet_length, min_packet_length, net_udp_send, sent,
}

-- The sum of the words, without a bound.
unfoldable words_total : List ℕ → ℕ
words_total [] = 0
words_total (a ∷ []) = a * 2 ^ 8
words_total (a ∷ b ∷ data_bytes) = a * 2 ^ 8 + b + words_total data_bytes

sum_words_lem :
    (sum : ℕ) (data_bytes : List ℕ)
    → sum + words_total data_bytes < 2 ^ 32
    → sum_words sum data_bytes ≡ sum + words_total data_bytes
unfolding sum_words words_total
sum_words_lem sum [] h = omega arith
sum_words_lem sum (a ∷ []) h = omega arith
sum_words_lem sum (a ∷ b ∷ data_bytes) h =
    let small : (sum + (a * 2 ^ 8 + b)) % 2 ^ 32 ≡ sum + (a * 2 ^ 8 + b) = omega arith in
    rw small (sum_words_lem (sum + (a * 2 ^ 8 + b)) data_bytes (omega arith) ∙ omega arith)

-- Two rounds are enough for a sum of 32 bits, and folding keeps the residue modulo 2^16 - 1.
fold_carry_lem :
    (sum : ℕ)
    → sum < 2 ^ 32
    → (fold_carry 2 sum < 2 ^ 16)
      × (fold_carry 2 sum % 0xFFFF ≡ sum % 0xFFFF)
      × ((sum ≡ 0) ⊎ (0 < fold_carry 2 sum))
unfolding fold_carry
fold_carry_lem sum h = elim (Bool-cases (sum / 2 ^ 16 == 0)) [
  | inl hit ↦ rw hit (ground arith, refl, ground arith)
  | inr miss ↦
      let next = sum % 2 ^ 16 + sum / 2 ^ 16 in
      let same : next % 0xFFFF ≡ sum % 0xFFFF = omega arith in
      rw miss (elim (Bool-cases (next / 2 ^ 16 == 0)) [
        | inl low ↦ rw low (ground arith, same, ground arith)
        | inr high ↦
            let last : (next % 2 ^ 16 + next / 2 ^ 16) % 0xFFFF ≡ next % 0xFFFF = omega arith in
            rw high (ground arith, last ∙ same, ground arith)
      ])
]

unfoldable pub AreBytes : List ℕ → Type 0
AreBytes [] = Unit
AreBytes (a ∷ data_bytes) = (a < 2 ^ 8) × AreBytes data_bytes

words_total-lt :
    (data_bytes : List ℕ)
    → AreBytes data_bytes
    → words_total data_bytes ≤ 2 ^ 16 * length data_bytes
unfolding words_total AreBytes
words_total-lt [] h = omega arith
words_total-lt (a ∷ []) h = omega (arith, h.0)
words_total-lt (a ∷ b ∷ data_bytes) h = omega (arith, h.0, h.1.0, words_total-lt data_bytes h.1.1)

AreBytes-zero : (data_bytes : List ℕ) → AreBytes data_bytes → AreBytes (data_bytes ++ 0 ∷ [])
unfolding AreBytes
AreBytes-zero [] h = (omega arith, tt)
AreBytes-zero (a ∷ data_bytes) h = (h.0, AreBytes-zero data_bytes h.1)

words_total-append :
    (xs ys : List ℕ) → length xs % 2 ≡ 0 → words_total (xs ++ ys) ≡ words_total xs + words_total ys
unfolding words_total
words_total-append [] ys h = omega arith
words_total-append (a ∷ []) ys h = absurd (omega arith)
words_total-append (a ∷ b ∷ xs) ys h = omega (arith, words_total-append xs ys (omega arith))

words_total-network_short :
    (c : ℕ) (ys : List ℕ) → c < 2 ^ 16 → words_total (network_short c ++ ys) ≡ c + words_total ys
unfolding words_total
words_total-network_short c ys h =
    let whole : c / 2 ^ 8 % 2 ^ 8 * 2 ^ 8 + c % 2 ^ 8 ≡ c = omega arith in omega arith

check_sum_lem :
    (data_bytes : List ℕ)
    → words_total data_bytes < 2 ^ 32
    → (check_sum data_bytes < 2 ^ 16)
      × ((words_total data_bytes + check_sum data_bytes) % 0xFFFF ≡ 0)
      × (words_total data_bytes % 0xFFFF ≡ 0
          → 0 < words_total data_bytes
          → check_sum data_bytes ≡ 0)
unfolding check_sum
check_sum_lem data_bytes h =
    let total = words_total data_bytes in
    let sum : sum_words 0 data_bytes ≡ total =
      sum_words_lem 0 data_bytes (omega arith) ∙ omega arith in
    let (small, residue, positive) = fold_carry_lem total h in
    rw sum (
      omega arith,
      omega arith,
      λ multiple some_bits. elim positive [
        | inl zero_total ↦ absurd (omega arith)
        | inr above ↦ omega arith
      ],
    )

-- A number at an even place that completes the sum to a multiple of 2^16 - 1.
check_sum-insert :
    (xs ys : List ℕ) (c : ℕ)
    → length xs % 2 ≡ 0
    → c < 2 ^ 16
    → 0 < words_total xs
    → words_total xs + words_total ys + c < 2 ^ 32
    → (words_total xs + words_total ys + c) % 0xFFFF ≡ 0
    → check_sum (xs ++ (network_short c ++ ys)) ≡ 0
check_sum-insert xs ys c even small positive bound multiple =
    let total : words_total (xs ++ (network_short c ++ ys)) ≡ words_total xs + words_total ys + c =
      omega (
        arith,
        words_total-append xs (network_short c ++ ys) even,
        words_total-network_short c ys small,
      ) in
    (check_sum_lem (xs ++ (network_short c ++ ys)) (omega arith)).2 (omega arith) (omega arith)

check_sum-ip_header : (p : Datagram) → check_sum (ip_header (check_sum (ip_header 0 p)) p) ≡ 0
unfolding ip_header words_total
check_sum-ip_header p =
    let xs = ip_start p in
    let ys = addresses p in
    let bound : words_total xs + words_total ys < 2 ^ 31 = omega arith in
    let positive : 0 < words_total xs = omega arith in
    let total : words_total (ip_header 0 p) ≡ words_total xs + words_total ys = omega (
      arith,
      words_total-append xs (network_short 0 ++ ys) refl,
      words_total-network_short 0 ys (omega arith),
    ) in
    let (small, completes, _) = check_sum_lem (ip_header 0 p) (omega arith) in
    check_sum-insert xs ys (check_sum (ip_header 0 p)) refl small positive (omega arith)
      (omega arith)

udp_checksum_lem :
    (p : Datagram)
    → words_total (pseudo_header p ++ udp_packet 0 p) < 2 ^ 32
    → (udp_checksum p < 2 ^ 16)
      × ((words_total (pseudo_header p ++ udp_packet 0 p) + udp_checksum p) % 0xFFFF ≡ 0)
unfolding udp_checksum
udp_checksum_lem p h =
    let data_bytes = pseudo_header p ++ udp_packet 0 p in
    let (small, completes, _) = check_sum_lem data_bytes h in
    elim (Bool-cases (check_sum data_bytes == 0)) [
      | inl hit ↦ rw hit (omega arith, ground arith)
      | inr miss ↦ rw miss (small, completes)
    ]

check_sum-udp_packet :
    (p : Datagram)
    → AreBytes p.packet_payload
    → length p.packet_payload < 1472
    → check_sum (pseudo_header p ++ udp_packet (udp_checksum p) p) ≡ 0
unfolding udp_packet words_total AreBytes
check_sum-udp_packet p bytes short =
    let xs = pseudo_header p ++ udp_start p in
    let ys = p.packet_payload ++ 0 ∷ [] in
    let c = udp_checksum p in
    let split : (d : ℕ) → pseudo_header p ++ udp_packet d p ≡ xs ++ (network_short d ++ ys) =
      λ d. sym (append_assoc (pseudo_header p) (udp_start p) (network_short d ++ ys)) in
    let head : words_total xs < 2 ^ 24 = omega arith in
    let positive : 0 < words_total xs = omega arith in
    let body : words_total ys ≤ 2 ^ 16 * length ys =
      words_total-lt ys (AreBytes-zero p.packet_payload bytes) in
    let total : words_total (pseudo_header p ++ udp_packet 0 p) ≡ words_total xs + words_total ys =
      ap words_total (split 0)
      ∙ words_total-append xs (network_short 0 ++ ys) refl
      ∙ ap (λ m. words_total xs + m) (words_total-network_short 0 ys (omega arith) ∙ omega arith) in
    let bound : words_total xs + words_total ys < 2 ^ 31 =
      omega (arith, length-append p.packet_payload (0 ∷ [])) in
    let (small, completes) = udp_checksum_lem p (omega arith) in
    ap check_sum (split c)
    ∙ check_sum-insert xs ys c refl small positive (omega arith) (omega arith)

length-udp_packet : (c : ℕ) (p : Datagram) → length (udp_packet c p) ≡ 9 + length p.packet_payload
unfolding udp_packet
length-udp_packet c p = omega (arith, length-append p.packet_payload (0 ∷ []))

take_udp :
    (p : Datagram) (pad : List ℕ)
    → length p.packet_payload < 1472
    → take (udp_length p) (udp_packet (udp_checksum p) p ++ pad) ≡ udp_packet (udp_checksum p) p
take_udp p pad short =
    let packet = udp_packet (udp_checksum p) p in
    let all : udp_length p ≡ length packet = omega (arith, length-udp_packet (udp_checksum p) p) in
    ap (λ n. take n (packet ++ pad)) all ∙ take-append packet pad

-- The IP header of a frame; the part of it that a receiver puts before the UDP packet for the check,
-- that is both addresses, a zero, the protocol and the length of the UDP packet; and the UDP packet,
-- of the length in its own header.
abbrev pub received_ip_header : List ℕ → List ℕ
received_ip_header frame = take 20 (drop 14 frame)

abbrev pub received_pseudo_header : List ℕ → List ℕ
received_pseudo_header frame =
    take 8 (drop 26 frame) ++ (0 ∷ get_or frame 23 0 ∷ take 2 (drop 38 frame))

abbrev pub received_udp_packet : List ℕ → List ℕ
received_udp_packet frame = take (get_or frame 38 0 * 2 ^ 8 + get_or frame 39 0) (drop 34 frame)

-- A payload of bytes, shorter than 1472, is sent in a frame of 60 to 1514 bytes that names the UDP
-- protocol, the destination's address as `hostToNetworkLong` gives it and its port. A receiver that
-- reads addresses, protocol and length from the frame itself gets 0 from the checksums over the IP
-- header and over the pseudo header and UDP packet, and behind the UDP header the payload with a
-- final zero.
pub net_udp_send_lem :
    (p : Datagram)
    → AreBytes p.packet_payload
    → length p.packet_payload < 1472
    → (frame : List ℕ) × (net_udp_send p ≡ sent frame)
      × (check_sum (received_ip_header frame) ≡ 0)
      × (get_or frame 23 0 ≡ 17)
      × (take 4 (drop 30 frame) ≡ network_long p.destination_ip_address)
      × (take 2 (drop 36 frame) ≡ network_short p.destination_port)
      × (check_sum (received_pseudo_header frame ++ received_udp_packet frame) ≡ 0)
      × (drop 8 (received_udp_packet frame) ≡ p.packet_payload ++ 0 ∷ [])
      × (min_packet_length ≤ length frame)
      × (length frame ≤ max_packet_length)
unfolding net_udp_send ip_header udp_packet
net_udp_send_lem p bytes short =
    let packet = udp_packet (udp_checksum p) p in
    let pad : List ℕ = replicate (min_packet_length - frame_length p) 0 in
    let headers = ethernet_header ++ ip_header (check_sum (ip_header 0 p)) p in
    let fits : ltb max_packet_length (frame_length p) ≡ false = ground arith in
    let inside : ltb max_packet_length (42 + length p.packet_payload + 1) ≡ false = ground arith in
    let size : length (packet ++ pad)
        ≡ 9 + length p.packet_payload + (60 - (43 + length p.packet_payload)) =
      omega (
        arith,
        length-append packet pad,
        length-udp_packet (udp_checksum p) p,
        length-replicate {A = ℕ} (min_packet_length - frame_length p) 0,
      ) in
    let named : udp_length p / 2 ^ 8 % 2 ^ 8 * 2 ^ 8 + udp_length p % 2 ^ 8 ≡ udp_length p =
      omega arith in
    let received : received_udp_packet (headers ++ (packet ++ pad)) ≡ packet =
      ap (λ n. take n (packet ++ pad)) named ∙ take_udp p pad short in
    (
      headers ++ (packet ++ pad),
      rw (fits, inside) refl,
      check_sum-ip_header p,
      refl,
      refl,
      refl,
      ap (λ m. check_sum (pseudo_header p ++ m)) received ∙ check_sum-udp_packet p bytes short,
      ap (drop 8) received,
      omega arith,
      omega arith,
    )

-- Two destination addresses that differ in the third octet only give the same frame.
pub net_udp_send_octet :
    (p : Datagram) (destination : ℕ)
    → p.destination_ip_address / 2 ^ 16 ≡ destination / 2 ^ 16
    → p.destination_ip_address % 2 ^ 8 ≡ destination % 2 ^ 8
    → net_udp_send p ≡ net_udp_send (record p { destination_ip_address = destination })
unfolding net_udp_send ip_header udp_packet udp_checksum
net_udp_send_octet p destination high low =
    let first : p.destination_ip_address / 2 ^ 24 ≡ destination / 2 ^ 24 = omega arith in
    rw (first, high, low) refl
