-- ===== src/Network/Receiving.antt =====
-- `netUDPRcv` of net.cpp: what it makes of the packets that wait in the card's ring.
use ikan_osv5_student.Prelude.{
  ℕ, zero, suc, ◌+◌, ◌-◌, ◌*◌, ◌%◌, ◌^◌, bit_and, Bool, true, false, ◌&&◌, not, Option, none, some,
  List, [], ◌∷◌, ◌++◌, ◌==◌, ltb, leb, if◌then◌else◌, length, get_or, set, take, drop, replicate,
}
use ikan_osv5_student.Network.{max_packet_length}

-- A packet as the card gives it: the first byte and the length of its header there, and the bytes of
-- `ethernetPacket` after the copy, all MAX_PACKET_LEN of them.
pub record Frame : Type 0 where
  pub status : ℕ
  pub packet_length : ℕ
  pub packet : List ℕ

-- The buffers in memory, the static queue, and what is answered.
pub record Receiver : Type 0 where
  pub incoming : List ℕ
  pub incoming_payload : List ℕ
  pub payload_queue : List (List ℕ)
  pub queue_size : ℕ
  pub queue_front : ℕ
  pub queue_rear : ℕ
  pub processed_udp : Bool
  pub packets_received : ℕ
  pub replies : List (List ℕ)

abbrev pub max_queued_packets : ℕ
max_queued_packets = 10

-- The test on the header, its negation.
abbrev pub is_valid : Frame → Bool
is_valid f =
    (bit_and f.status 0x01 == 0x01 && bit_and f.status 0x0E == 0x00)
    && (leb 64 f.packet_length && leb f.packet_length (max_packet_length + 4))

abbrev pub short_at : List ℕ → ℕ → ℕ
short_at packet i = get_or packet i 0 * 2 ^ 8 + get_or packet (i + 1) 0

abbrev guest_mac_address : List ℕ
guest_mac_address = 0x52 ∷ 0x54 ∷ 0x00 ∷ 0x12 ∷ 0x34 ∷ 0x56 ∷ []

abbrev guest_ip : ℕ
guest_ip = 0x0A00020F

unfoldable pub arp_reply : List ℕ → List ℕ
arp_reply packet =
    take 6 (drop 6 packet)
    ++ guest_mac_address
    ++ (0x08 ∷ 0x06 ∷ 0x00 ∷ 0x01 ∷ 0x08 ∷ 0x00 ∷ 0x06 ∷ 0x04 ∷ 0x00 ∷ 0x02 ∷ [])
    ++ guest_mac_address
    ++ (0x0A ∷ 0x00 ∷ 0x02 ∷ 0x0F ∷ [])
    ++ take 6 (drop 22 packet)
    ++ take 4 (drop 28 packet)
    ++ replicate 18 0

unfoldable pub handle_arp : List ℕ → Receiver → Receiver
handle_arp packet r =
    if short_at packet 20 == 1 && short_at packet 38 * 2 ^ 16 + short_at packet 40 == guest_ip
    then record r { replies = r.replies ++ arp_reply packet ∷ [] }
    else r

-- The payload in the queue, where there is room. None: the payload's length leads outside the packet.
unfoldable pub queue_payload : List ℕ → ℕ → ℕ → Receiver → Option Receiver
queue_payload packet start payload_length r =
    let counted : Receiver = record r { packets_received = (r.packets_received + 1) % 2 ^ 32 } in
    let queued : Receiver = record counted {
      payload_queue = set r.payload_queue r.queue_rear (take payload_length (drop start packet));
      queue_size = r.queue_size + 1;
      queue_rear = (r.queue_rear + 1) % max_queued_packets;
      processed_udp = true;
    } in
    if ltb r.queue_size max_queued_packets
    then (if leb (start + payload_length) max_packet_length then some queued else none)
    else some counted

unfoldable pub handle_ip : ℕ → List ℕ → Receiver → Option Receiver
handle_ip data_length packet r =
    let filled : Receiver = record r {
      incoming =
          take data_length packet
          ++ replicate (max_packet_length - length (take data_length packet)) 0;
    } in
    let ip_header_length = get_or packet 14 0 % 2 ^ 4 * 4 in
    let udp_header = 14 + ip_header_length in
    let udp_length = short_at packet (udp_header + 4) in
    if ltb ip_header_length 20
    then some filled
    else (if not (get_or packet 23 0 == 0x11)
        then some filled
        else (if ltb udp_length 8
            then some filled
            else queue_payload packet (udp_header + 8) (udp_length - 8) filled))

unfoldable pub process_packet : Frame → Receiver → Option Receiver
process_packet f r =
    let ether_type = short_at f.packet 12 in
    if not (is_valid f)
    then some r
    else (if ether_type == 0x0806
        then some (handle_arp f.packet r)
        else (if ether_type == 0x0800 then handle_ip (f.packet_length - 4) f.packet r else some r))

infixl 5 ◌>>=◌
abbrev pub ◌>>=◌ : Option Receiver → (Receiver → Option Receiver) → Option Receiver
none >>= next = none
some r >>= next = next r

-- The loop over the packets that wait.
unfoldable pub process_packets : List Frame → Receiver → Option Receiver
process_packets [] r = some r
process_packets (f ∷ frames) r = do next ← process_packet f r; process_packets frames next

-- The loop that joins the payloads, on the rounds left.
unfoldable pub joined : ℕ → ℕ → List (List ℕ) → List ℕ
joined zero i queue = []
joined (suc n) i queue =
    get_or queue i []
    ++ ((if n == 0 then [] else b'\n' ∷ []) ++ joined n ((i + 1) % max_queued_packets) queue)

abbrev pub empty_queue : List (List ℕ)
empty_queue = replicate max_queued_packets []

unfoldable pub deliver : Receiver → Receiver
deliver r =
    if r.processed_udp
    then record r {
      incoming_payload = joined r.queue_size r.queue_front r.payload_queue;
      payload_queue = empty_queue;
      queue_size = 0;
      queue_front = 0;
      queue_rear = 0;
    }
    else r

-- The buffers are cleared first; the queue is static and stays.
abbrev pub cleared_buffers : Receiver → Receiver
cleared_buffers r = record r { incoming = []; incoming_payload = []; processed_udp = false }

unfoldable pub net_udp_rcv : List Frame → Receiver → Option Receiver
net_udp_rcv frames r = do
  received ← process_packets frames (cleared_buffers r)
  some (deliver received)
