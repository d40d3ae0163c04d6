-- ===== src/Network/Exchange.antt =====
-- What `netUDPRcv` makes of packets that `netUDPSend` sent (net.cpp).
use ikan_osv5_student.Prelude.{
  ℕ, ◌+◌, ◌-◌, ◌%◌, ◌^◌, ◌≤◌, ◌<◌, ◌≡◌, refl, sym, ap, ◌∙◌, true, false, some, List, [], ◌∷◌, ◌++◌,
  arith, ltb, leb, length, get_or, set, take, drop, replicate, length-append, take-append,
  append_assoc,
}
use ikan_osv5_student.Network.{
  Datagram, frame_length, ip_header, udp_packet, max_packet_length, min_packet_length, Sending,
  net_udp_send, refused, sent, outside_packet,
}
use ikan_osv5_student.Network.Checksum.{AreBytes, net_udp_send_lem}
use ikan_osv5_student.Network.Receiving.{
  Frame, Receiver, max_queued_packets, short_at, queue_payload, handle_ip, process_packet,
}

-- The text of a packet, with its final zero.
abbrev pub message : Datagram → List ℕ
message p = p.packet_payload ++ 0 ∷ []

abbrev pub frame_bytes : Sending → List ℕ
frame_bytes (sent frame) = frame
frame_bytes refused = []
frame_bytes outside_packet = []

-- A sent frame as the card of a receiver gives it, `stale` behind it in `ethernetPacket`.
abbrev pub arrival : List ℕ → Datagram → Frame
arrival stale p =
    let frame = frame_bytes (net_udp_send p) in
    record { status = 0x01; packet_length = length frame + 4; packet = frame ++ stale }

-- The state of a receiver that has queued another payload.
abbrev pub with_payload : List ℕ → List ℕ → Receiver → Receiver
with_payload data_bytes payload r = record r {
  incoming = data_bytes ++ replicate (max_packet_length - length data_bytes) 0;
  payload_queue = set r.payload_queue r.queue_rear payload;
  queue_size = r.queue_size + 1;
  queue_rear = (r.queue_rear + 1) % max_queued_packets;
  processed_udp = true;
  packets_received = (r.packets_received + 1) % 2 ^ 32;
}

handle_ip_lem :
    (data_length n : ℕ) (packet : List ℕ) (r : Receiver)
    → get_or packet 14 0 ≡ 0x45
    → get_or packet 23 0 ≡ 0x11
    → short_at packet 38 ≡ 8 + n
    → 42 + n ≤ max_packet_length
    → r.queue_size < max_queued_packets
    → handle_ip data_length packet r
      ≡ some (with_payload (take data_length packet) (take n (drop 42 packet)) r)
unfolding handle_ip queue_payload
handle_ip_lem data_length n packet r version protocol size inside room =
    let long : ltb (8 + n) 8 ≡ false = ground arith in
    let payload : 8 + n - 8 ≡ n = omega arith in
    let fits : leb (42 + n) max_packet_length ≡ true = ground arith in
    let free : ltb r.queue_size max_queued_packets ≡ true = ground arith in
    rw (version, protocol, size, long, payload, fits, free) refl

process_packet_lem :
    (f : Frame) (n : ℕ) (r : Receiver)
    → f.status ≡ 0x01
    → 64 ≤ f.packet_length
    → f.packet_length ≤ max_packet_length + 4
    → short_at f.packet 12 ≡ 0x0800
    → get_or f.packet 14 0 ≡ 0x45
    → get_or f.packet 23 0 ≡ 0x11
    → short_at f.packet 38 ≡ 8 + n
    → 42 + n ≤ max_packet_length
    → r.queue_size < max_queued_packets
    → process_packet f r
      ≡ some (with_payload (take (f.packet_length - 4) f.packet) (take n (drop 42 f.packet)) r)
unfolding process_packet
process_packet_lem f n r status least most ip version protocol size inside room =
    let low : leb 64 f.packet_length ≡ true = ground arith in
    let high : leb f.packet_length (max_packet_length + 4) ≡ true = ground arith in
    rw (status, low, high, ip)
      (handle_ip_lem (f.packet_length - 4) n f.packet r version protocol size inside room)

take-message :
    (p : Datagram) (more : List ℕ)
    → take (length p.packet_payload + 1) (message p ++ more) ≡ message p
take-message p more =
    let all : length p.packet_payload + 1 ≡ length (message p) =
      omega (arith, length-append p.packet_payload (0 ∷ [])) in
    ap (λ n. take n (message p ++ more)) all ∙ take-append (message p) more

-- What the receiver takes from a sent frame.
payload_of-arrival :
    (stale : List ℕ) (p : Datagram)
    → length p.packet_payload < 1472
    → (short_at (arrival stale p).packet 12 ≡ 0x0800)
      × (get_or (arrival stale p).packet 14 0 ≡ 0x45)
      × (get_or (arrival stale p).packet 23 0 ≡ 0x11)
      × (short_at (arrival stale p).packet 38 ≡ 8 + (length p.packet_payload + 1))
      × (take (length p.packet_payload + 1) (drop 42 (arrival stale p).packet) ≡ message p)
unfolding net_udp_send ip_header udp_packet
payload_of-arrival stale p short =
    let fits : ltb max_packet_length (frame_length p) ≡ false = ground arith in
    let inside : ltb max_packet_length (42 + length p.packet_payload + 1) ≡ false = ground arith in
    let pad : List ℕ = replicate (min_packet_length - frame_length p) 0 in
    rw (fits, inside)
      (
        refl,
        refl,
        refl,
        omega arith,
        ap (take (length p.packet_payload + 1)) (append_assoc (message p) pad stale)
            ∙ take-message p (pad ++ stale),
      )

pub process_packet-arrival :
    (stale : List ℕ) (p : Datagram) (r : Receiver)
    → AreBytes p.packet_payload
    → length p.packet_payload < 1472
    → r.queue_size < max_queued_packets
    → (data_bytes : List ℕ) × (process_packet (arrival stale p) r
        ≡ some (with_payload data_bytes (message p) r))
process_packet-arrival stale p r bytes short room =
    let f = arrival stale p in
    let n = length p.packet_payload + 1 in
    let (frame, is_sent, checks, udp, address, port, udp_checks, carried, least, most) =
      net_udp_send_lem p bytes short in
    let size : length frame ≡ length (frame_bytes (net_udp_send p)) =
      ap (λ s. length (frame_bytes s)) (sym is_sent) in
    let (ip, version, protocol, udp_size, payload) = payload_of-arrival stale p short in
    let data_bytes = take (f.packet_length - 4) f.packet in
    (
      data_bytes,
      process_packet_lem f n r refl (omega arith) (omega arith) ip version protocol udp_size
            (omega arith) room
          ∙ ap (λ m. some (with_payload data_bytes m r)) payload,
    )
