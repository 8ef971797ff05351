-- ===== src/StubbornLinks/Tests.antt =====
-- The stubborn links with one packet for one peer.
use cs451_2021_project.Base.{
  ℕ, ◌≡◌, ◌≢◌, refl, true, false, List, [], ◌∷◌, some, arith, Elem, ◌==◌, if◌then◌else◌, map,
}
use cs451_2021_project.Address.{SockAddr, get_index}
use cs451_2021_project.LinkedList.{Packet, insert_last}
use cs451_2021_project.Serializer.{deserialize, of_bytes}
use cs451_2021_project.StubbornLinks.{
  Links, sl_init, sl_send, serve, send_round, header, fill_buffer, received_size, ack_type,
}
use cs451_2021_project.StubbornLinks.Invariant.{
  IsValid, initial_links, send, look_after, start, next, Reach-IsValid,
}
use cs451_2021_project.StubbornLinks.Stubborn.{datagram, send_round_sends}
use cs451_2021_project.StubbornLinks.Exchange.{
  round_trips, delivery_of, IsSendable, round_trips_drain,
}

-- The process at port 11001 of the local host.
abbrev peer : SockAddr
peer = record { sin_family = 2; sin_port = 0xf92a; s_addr = 0x0100007f }

abbrev packet : Packet
packet = record { num = 0; ack = false; message = b'm' ∷ 0 ∷ 0 ∷ 0 ∷ 0 ∷ b'1' ∷ []; n = 6 }

abbrev one_packet : Links
one_packet = record {
  hashmap = λ i. if i == 1 then packet ∷ [] else [];
  n_packets = 1;
  addresses = λ i. if i == 1 then peer else record { sin_family = 0; sin_port = 0; s_addr = 0 };
  largest_index = 1;
  send_forever = true;
  wire = [];
}

peer_index : get_index peer ≡ 1
unfolding get_index
peer_index = refl

one_packet-IsValid : IsValid one_packet
one_packet-IsValid = record {
  small = omega arith;
  addressed = λ i h. ground (arith, h);
  in_range = λ i h. ground (arith, h);
  own_index = λ i h. ground (arith, h, peer_index);
}

-- The state behind one `sl_send` from the start.
sent : (t : Links) × (sl_send (sl_init initial_links) peer packet.message 6 0 ≡ some t)
unfolding sl_send sl_init insert_last get_index
sent = (_, refl)

Reach-IsValid_example : IsValid (serve true sent.0 1)
Reach-IsValid_example =
    Reach-IsValid
      (next (next start (send peer packet.message 6 0 (omega arith) sent.1)) (look_after true 1))

send_round_sends_example :
    Elem (datagram one_packet 1 packet) (send_round (λ _. true) one_packet).wire
send_round_sends_example =
    send_round_sends (λ _. true) one_packet 1 one_packet-IsValid refl (λ _. refl) refl refl

abbrev ack_bytes : List ℕ
ack_bytes = b'a' ∷ 0 ∷ 0 ∷ 0 ∷ 0 ∷ []

ack_header : header (fill_buffer ack_bytes) ≡ some (ack_type, 0)
unfolding header fill_buffer deserialize of_bytes
ack_header = refl

ack_size : received_size ack_bytes ≢ 0
unfolding received_size
ack_size = omega arith

-- The process at port 11002.
abbrev other : SockAddr
other = record { sin_family = 2; sin_port = 0xfa2a; s_addr = 0x0100007f }

packet-IsSendable : IsSendable packet
unfolding header fill_buffer received_size deserialize of_bytes
packet-IsSendable = (refl, refl, omega arith, omega arith)

-- Two datagrams are lost.
round_trips_drain_example :
    (a : Links) × (b : Links) × (round_trips other peer (2 ∷ []) one_packet initial_links
      ≡ some (map (delivery_of other) (packet ∷ []), a, b))
    × (a.hashmap (get_index peer) ≡ [])
    × (a.send_forever ≡ true)
unfolding get_index
round_trips_drain_example =
    round_trips_drain other peer (2 ∷ []) (packet ∷ []) one_packet initial_links refl refl refl refl
      (packet-IsSendable, tt)
