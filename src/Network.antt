-- ===== src/Network.antt =====
-- The checksum of net.cpp, and the header of a packet of `netUDPSend`.
pub mod Checksum
pub mod Receiving
pub mod Exchange
pub mod Delivery
use ikan_osv5_student.Prelude.{
  ℕ, zero, suc, ◌+◌, ◌-◌, ◌*◌, ◌/◌, ◌%◌, ◌^◌, List, [], ◌∷◌, ◌++◌, ◌==◌, ltb, if◌then◌else◌, length,
  replicate,
}

-- The loop of `checkSum` over pairs of bytes, the first the high one.
unfoldable pub sum_words : ℕ → List ℕ → ℕ
sum_words sum [] = sum
sum_words sum (a ∷ []) = (sum + a * 2 ^ 8) % 2 ^ 32
sum_words sum (a ∷ b ∷ data_bytes) = sum_words ((sum + (a * 2 ^ 8 + b)) % 2 ^ 32) data_bytes

-- The loop that folds the carry, on the rounds left.
unfoldable pub fold_carry : ℕ → ℕ → ℕ
fold_carry zero sum = sum
fold_carry (suc n) sum =
    let later = fold_carry n (sum % 2 ^ 16 + sum / 2 ^ 16) in
    if sum / 2 ^ 16 == 0 then sum else later

-- `~sum` as `uint16_t`. A sum of 32 bits is folded in two rounds.
unfoldable pub check_sum : List ℕ → ℕ
check_sum data_bytes = 2 ^ 16 - 1 - fold_carry 2 (sum_words 0 data_bytes) % 2 ^ 16

-- The bytes in memory of `hostToNetworkShort(n)` and `hostToNetworkLong(n)`. In the second, the
-- macros expand to `n & 0xFFFF >> 8`, which is `n & 0xFF`.
abbrev pub network_short : ℕ → List ℕ
network_short n = n / 2 ^ 8 % 2 ^ 8 ∷ n % 2 ^ 8 ∷ []

abbrev pub network_long : ℕ → List ℕ
network_long n = n / 2 ^ 24 % 2 ^ 8 ∷ n / 2 ^ 16 % 2 ^ 8 ∷ n % 2 ^ 8 ∷ n % 2 ^ 8 ∷ []

-- `struct networkParameter`, with the text that its packetPayload points to.
pub record Datagram : Type 0 where
  pub source_ip_address : ℕ
  pub destination_ip_address : ℕ
  pub source_port : ℕ
  pub destination_port : ℕ
  pub packet_payload : List ℕ

-- Sizes are those of the payload with its final zero, in `uint16_t`.
abbrev pub udp_length : Datagram → ℕ
udp_length p = (8 + (length p.packet_payload + 1)) % 2 ^ 16

abbrev pub ip_length : Datagram → ℕ
ip_length p = (20 + udp_length p) % 2 ^ 16

abbrev pub frame_length : Datagram → ℕ
frame_length p = (14 + ip_length p) % 2 ^ 16

-- The first ten bytes of the IP header, and the addresses behind its checksum.
abbrev pub ip_start : Datagram → List ℕ
ip_start p =
    (0x45 ∷ 0x00 ∷ network_short (ip_length p)) ++ (0x00 ∷ 0x00 ∷ 0x40 ∷ 0x00 ∷ 0x40 ∷ 0x11 ∷ [])

abbrev pub addresses : Datagram → List ℕ
addresses p = network_long p.source_ip_address ++ network_long p.destination_ip_address

unfoldable pub ip_header : ℕ → Datagram → List ℕ
ip_header checksum p = ip_start p ++ (network_short checksum ++ addresses p)

-- The UDP header before its checksum.
abbrev pub udp_start : Datagram → List ℕ
udp_start p =
    network_short p.source_port
    ++ (network_short p.destination_port ++ network_short (udp_length p))

unfoldable pub udp_packet : ℕ → Datagram → List ℕ
udp_packet checksum p = udp_start p ++ (network_short checksum ++ (p.packet_payload ++ 0 ∷ []))

abbrev pub pseudo_header : Datagram → List ℕ
pseudo_header p = addresses p ++ (0 ∷ 0x11 ∷ network_short (udp_length p))

unfoldable pub udp_checksum : Datagram → ℕ
udp_checksum p =
    let sum = check_sum (pseudo_header p ++ udp_packet 0 p) in if sum == 0 then 0xFFFF else sum

abbrev pub ethernet_header : List ℕ
ethernet_header =
    0x02 ∷ 0x00 ∷ 0xA0 ∷ 0x04 ∷ 0x00 ∷ 0x00 ∷ 0x52 ∷ 0x54 ∷ 0x00 ∷ 0x12 ∷ 0x34 ∷ 0x56 ∷ 0x08 ∷ 0x00
    ∷ []

-- MAX_PACKET_LEN, MIN_PACKET_LEN
abbrev pub max_packet_length : ℕ
max_packet_length = 1514

abbrev pub min_packet_length : ℕ
min_packet_length = 60

-- What `netUDPSend` does: it refuses a frame that is too long, hands a frame to the card, or, where
-- the length of 16 bits has wrapped, writes outside the packet.
pub data Sending : Type 0 where
  refused : Sending
  sent : List ℕ → Sending
  outside_packet : Sending

unfoldable pub net_udp_send : Datagram → Sending
net_udp_send p =
    let frame =
      ethernet_header
      ++ (ip_header (check_sum (ip_header 0 p)) p ++ udp_packet (udp_checksum p) p) in
    if ltb max_packet_length (frame_length p)
    then refused
    else (if ltb max_packet_length (42 + length p.packet_payload + 1)
        then outside_packet
        else sent (frame ++ replicate (min_packet_length - frame_length p) 0))
