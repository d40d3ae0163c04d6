-- ===== src/Tests/Packets.antt =====
-- A packet sent by the network card.
use ikan_osv5_student.Prelude.{
  get_or, ℕ, ◌≤◌, ◌≡◌, refl, false, some, List, [], ◌∷◌, ◌++◌, arith, length, take, drop,
}
use ikan_osv5_student.Network.{
  network_short, check_sum, network_long, Datagram, max_packet_length, min_packet_length,
  net_udp_send, sent,
}
use ikan_osv5_student.Network.Checksum.{
  received_ip_header, received_pseudo_header, received_udp_packet, AreBytes, net_udp_send_lem,
  net_udp_send_octet,
}
use ikan_osv5_student.Network.Receiving.{Receiver, empty_queue, net_udp_rcv}
use ikan_osv5_student.Network.Exchange.{arrival}
use ikan_osv5_student.Network.Delivery.{
  further, lines_of, AreSendable, IsFilled, net_udp_rcv-net_udp_send,
}

abbrev hello : Datagram
hello = record {
  source_ip_address = 0x0A00020F;
  destination_ip_address = 0x0A000202;
  source_port = 1234;
  destination_port = 1234;
  packet_payload = b'h' ∷ b'i' ∷ [];
}

hello-AreBytes : AreBytes hello.packet_payload
unfolding AreBytes
hello-AreBytes = (omega arith, (omega arith, tt))

-- The third octet of an address is sent as the fourth.
third_octet : network_long 0x0A00020F ≡ 10 ∷ 0 ∷ 15 ∷ 15 ∷ []
third_octet = refl

net_udp_send_lem_example :
    (frame : List ℕ) × (net_udp_send hello ≡ sent frame)
    × (check_sum (received_ip_header frame) ≡ 0)
    × (get_or frame 23 0 ≡ 17)
    × (take 4 (drop 30 frame) ≡ network_long hello.destination_ip_address)
    × (take 2 (drop 36 frame) ≡ network_short 1234)
    × (check_sum (received_pseudo_header frame ++ received_udp_packet frame) ≡ 0)
    × (drop 8 (received_udp_packet frame) ≡ b'h' ∷ b'i' ∷ 0 ∷ [])
    × (min_packet_length ≤ length frame)
    × (length frame ≤ max_packet_length)
net_udp_send_lem_example = net_udp_send_lem hello hello-AreBytes (omega arith)

net_udp_send_octet_example :
    net_udp_send hello ≡ net_udp_send (record hello { destination_ip_address = 0x0A000102 })
net_udp_send_octet_example = net_udp_send_octet hello 0x0A000102 refl refl

abbrev bye : Datagram
bye = record hello { packet_payload = b'b' ∷ b'y' ∷ b'e' ∷ [] }

sendable : AreSendable (hello ∷ bye ∷ [])
unfolding AreSendable AreBytes
sendable = (
  ((omega arith, (omega arith, tt)), omega arith),
  (((omega arith, (omega arith, (omega arith, tt))), omega arith), tt),
)

abbrev idle : Receiver
idle = record {
  incoming = [];
  incoming_payload = [];
  payload_queue = empty_queue;
  queue_size = 0;
  queue_front = 0;
  queue_rear = 0;
  processed_udp = false;
  packets_received = 0;
  replies = [];
}

idle-IsFilled : IsFilled [] idle
idle-IsFilled = record { front = refl; rear = refl; size = refl; room = refl; contents = refl }

net_udp_rcv-net_udp_send_example :
    (s : Receiver) × (net_udp_rcv (arrival [] hello ∷ arrival [] bye ∷ []) idle ≡ some s)
    × (s.incoming_payload ≡ b'h' ∷ b'i' ∷ 0 ∷ b'\n' ∷ b'b' ∷ b'y' ∷ b'e' ∷ 0 ∷ [])
    × IsFilled [] s
unfolding lines_of further
net_udp_rcv-net_udp_send_example =
    net_udp_rcv-net_udp_send [] hello (bye ∷ []) idle sendable (omega arith) idle-IsFilled

-- The UDP header says that 4088 bytes of payload follow.
