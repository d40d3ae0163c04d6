-- ===== src/Network/Delivery.antt =====
-- The payloads that `netUDPRcv` delivers for packets that `netUDPSend` sent (net.cpp).
use mathlib.Core.Path.{subst}
use ikan_osv5_student.Prelude.{
  append_nil, ℕ, zero, suc, ◌+◌, ◌%◌, ◌≤◌, ◌<◌, ◌≡◌, refl, sym, ap, ap₂, ◌∙◌, ◌⊎◌, inl, inr, true,
  false, some, List, [], ◌∷◌, ◌++◌, map, arith, ◌==◌, length, get_or, set, take, drop,
  length-append, append_assoc, length-map, length-set,
}
use ikan_osv5_student.Network.{Datagram}
use ikan_osv5_student.Network.Checksum.{AreBytes}
use ikan_osv5_student.Network.Receiving.{
  Receiver, max_queued_packets, process_packets, joined, deliver, cleared_buffers, net_udp_rcv,
}
use ikan_osv5_student.Network.Exchange.{message, arrival, with_payload, process_packet-arrival}

-- Messages with newlines between them.
unfoldable pub further : List (List ℕ) → List ℕ
further [] = []
further (m ∷ messages) = b'\n' ∷ (m ++ further messages)

unfoldable pub lines_of : List (List ℕ) → List ℕ
lines_of [] = []
lines_of (m ∷ messages) = m ++ further messages

-- Packets that a frame has room for.
unfoldable pub AreSendable : List Datagram → Type 0
AreSendable [] = Unit
AreSendable (p ∷ ps) =
    (AreBytes p.packet_payload × (length p.packet_payload < 1472)) × AreSendable ps

drop-get_or :
    (i : ℕ) (queue : List (List ℕ))
    → i < length queue
    → drop i queue ≡ get_or queue i [] ∷ drop (suc i) queue
drop-get_or i [] h = absurd (omega arith)
drop-get_or zero (m ∷ queue) h = refl
drop-get_or (suc i) (m ∷ queue) h = drop-get_or i queue (omega arith)

joined_lem :
    (n i : ℕ) (queue : List (List ℕ))
    → i + n < max_queued_packets
    → length queue ≡ max_queued_packets
    → joined (suc n) i queue ≡ get_or queue i [] ++ further (take n (drop (suc i) queue))
unfolding joined further
joined_lem zero i queue h l = refl
joined_lem (suc n) i queue h l =
    let more : (suc n == 0) ≡ false = ground arith in
    let next : (i + 1) % max_queued_packets ≡ suc i = omega arith in
    rw (more, next)
      (ap (λ m. get_or queue i [] ++ b'\n' ∷ m) (joined_lem n (suc i) queue (omega arith) l)
        ∙ ap (λ m. get_or queue i [] ++ further (take (suc n) m))
            (sym (drop-get_or (suc i) queue (omega arith))))

take-set_last :
    (n : ℕ) (queue : List (List ℕ)) (m : List ℕ)
    → n < length queue
    → take (suc n) (set queue n m) ≡ take n queue ++ m ∷ []
take-set_last n [] m h = absurd (omega arith)
take-set_last zero (old ∷ queue) m h = refl
take-set_last (suc n) (old ∷ queue) m h = ap (◌∷◌ old) (take-set_last n queue m (omega arith))

-- A queue that has been filled from its start.
pub record IsFilled (messages : List (List ℕ)) (r : Receiver) : Type 0 where
  pub front : r.queue_front ≡ 0
  pub rear : r.queue_rear ≡ r.queue_size % max_queued_packets
  pub size : r.queue_size ≡ length messages
  pub room : length r.payload_queue ≡ max_queued_packets
  pub contents : take r.queue_size r.payload_queue ≡ messages

IsFilled-with_payload :
    (messages : List (List ℕ)) (data_bytes m : List ℕ) (r : Receiver)
    → IsFilled messages r
    → r.queue_size < max_queued_packets
    → IsFilled (messages ++ m ∷ []) (with_payload data_bytes m r)
IsFilled-with_payload messages data_bytes m r f h =
    let at : r.queue_rear ≡ r.queue_size = omega (arith, f.rear) in
    let more : r.queue_size + 1 ≡ suc r.queue_size = omega arith in
    record {
      front = f.front;
      rear = omega (arith, f.rear);
      size = omega (arith, f.size, length-append messages (m ∷ []));
      room = length-set r.payload_queue r.queue_rear m ∙ f.room;
      contents =
          ap₂ (λ n i. take n (set r.payload_queue i m)) more at
          ∙ take-set_last r.queue_size r.payload_queue m (omega (arith, f.room))
          ∙ ap (λ x. x ++ m ∷ []) f.contents;
    }

process_packets_lem :
    (stale : List ℕ) (ps : List Datagram) (messages : List (List ℕ)) (r : Receiver)
    → AreSendable ps
    → IsFilled messages r
    → r.queue_size + length ps ≤ max_queued_packets
    → (s : Receiver) × (process_packets (map (arrival stale) ps) r ≡ some s)
      × IsFilled (messages ++ map message ps) s
      × (((length ps ≡ 0) × (s.processed_udp ≡ r.processed_udp)) ⊎ (s.processed_udp ≡ true))
unfolding process_packets AreSendable
process_packets_lem stale [] messages r a f h =
    (r, refl, subst (λ x. IsFilled x r) (sym (append_nil messages)) f, inl (refl, refl))
process_packets_lem stale (p ∷ ps) messages r a f h =
    let (data_bytes, e) = process_packet-arrival stale p r a.0.0 a.0.1 (omega arith) in
    let next = with_payload data_bytes (message p) r in
    let (s, run, filled, processed) =
      process_packets_lem stale ps (messages ++ message p ∷ []) next a.1
        (IsFilled-with_payload messages data_bytes (message p) r f (omega arith)) (omega arith) in
    (
      s,
      rw e run,
      subst (λ x. IsFilled x s) (append_assoc messages (message p ∷ []) (map message ps)) filled,
      elim processed [ inl same ↦ inr same.1 | inr set_true ↦ inr set_true ],
    )

deliver_lem :
    (m : List ℕ) (messages : List (List ℕ)) (r : Receiver)
    → IsFilled (m ∷ messages) r
    → r.queue_size ≤ max_queued_packets
    → r.processed_udp ≡ true
    → ((deliver r).incoming_payload ≡ lines_of (m ∷ messages)) × IsFilled [] (deliver r)
unfolding deliver lines_of
deliver_lem m messages r f h processed =
    let n = length messages in
    let queue = r.payload_queue in
    let split : queue ≡ get_or queue 0 [] ∷ drop 1 queue =
      drop-get_or 0 queue (omega (arith, f.room)) in
    let contents : get_or queue 0 [] ∷ take n (drop 1 queue) ≡ m ∷ messages =
      ap (take (suc n)) (sym split) ∙ ap (λ k. take k queue) (sym f.size) ∙ f.contents in
    rw (processed, f.front, f.size)
      (
        joined_lem n 0 queue (omega (arith, f.size)) f.room ∙ ap lines_of contents,
        record { front = refl; rear = refl; size = refl; room = refl; contents = refl },
      )

-- With an empty queue, receiving one to ten sent datagrams, each shorter than 1472 bytes, whatever
-- stands behind their frames in the buffer, delivers their payloads with the final zeros, in order
-- and with newlines between them, and leaves the queue empty.
pub net_udp_rcv-net_udp_send :
    (stale : List ℕ) (p : Datagram) (ps : List Datagram) (r : Receiver)
    → AreSendable (p ∷ ps)
    → length ps < max_queued_packets
    → IsFilled [] r
    → (s : Receiver) × (net_udp_rcv (map (arrival stale) (p ∷ ps)) r ≡ some s)
      × (s.incoming_payload ≡ lines_of (map message (p ∷ ps)))
      × IsFilled [] s
unfolding net_udp_rcv
net_udp_rcv-net_udp_send stale p ps r a h f =
    let start = cleared_buffers r in
    let (s, run, filled, processed) =
      process_packets_lem stale (p ∷ ps) [] start a
        (record {
          front = f.front;
          rear = f.rear;
          size = f.size;
          room = f.room;
          contents = f.contents;
        })
        (omega (arith, f.size)) in
    let now : s.processed_udp ≡ true = elim processed [
      | inl none_sent ↦ absurd (omega (arith, none_sent.0))
      | inr yes_sent ↦ yes_sent
    ] in
    let bound : s.queue_size ≤ max_queued_packets =
      omega (arith, filled.size, length-map ps message) in
    let (payload, empty) = deliver_lem (message p) (map message ps) s filled bound now in
    (deliver s, rw run refl, payload, empty)
