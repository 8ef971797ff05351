-- ===== src/PerfectLinks/Tests.antt =====
-- The perfect links with one peer.
use cs451_2021_project.Base.{
  ℕ, ◌+◌, ◌≡◌, ◌<◌, refl, arith, false, List, [], ◌∷◌, ◌++◌, some, length, take,
}
use cs451_2021_project.Serializer.{to_bytes, serialize, deserialize, of_bytes}
use cs451_2021_project.Address.{SockAddr, initial_table, find_process_id, get_index, u32}
use cs451_2021_project.Receive.{Datagram, returned, deliver_loop, map_state}
use cs451_2021_project.StubbornLinks.{
  sl_deliver, handle_packet, ack_message, header, fill_buffer, received_size, message_type,
}
use cs451_2021_project.StubbornLinks.Invariant.{initial_links}
use cs451_2021_project.PerfectLinks.{
  Perfect, PlDelivery, initial_acks, pl_deliver, below, pl_body, unpack, check_ack, move_down,
  pl_finish, record_ack, pl_send_at, pl_metadata_len,
}
use cs451_2021_project.PerfectLinks.Recorded.{Recorded, CountsFit, pl_deliver_once}
use cs451_2021_project.PerfectLinks.Delivered.{deliver_keys, Distinct, deliver_keys-Distinct}
use cs451_2021_project.PerfectLinks.Packing.{
  packed, packed_received, message_packet, pl_send_at_queues,
}

-- The process at port 11001 of the local host.
abbrev pub peer : SockAddr
peer = record { sin_family = 2; sin_port = 0xf92a; s_addr = 0x0100007f }

abbrev pub initial_perfect : Perfect
initial_perfect = record {
  links = initial_links;
  ack_table = λ _. initial_acks;
  seq_num_table = λ _. 0;
  process_ids = initial_table;
}

initial_perfect-CountsFit : CountsFit initial_perfect
initial_perfect-CountsFit i = omega arith

abbrev message : List ℕ
message = b'h' ∷ b'i' ∷ []

-- The message with number 0, as it comes over the network.
abbrev datagram : Datagram
datagram = record { peer = peer; bytes = b'm' ∷ 0 ∷ 0 ∷ 0 ∷ 0 ∷ b'h' ∷ b'i' ∷ [] }

delivered :
    (t : Perfect) × (d : PlDelivery) × (pl_deliver
        (λ _. false)
        initial_perfect
        (datagram ∷ datagram ∷ [])
      ≡ returned t d (datagram ∷ []))
unfolding pl_deliver deliver_loop map_state below sl_deliver received_size fill_buffer handle_packet
    ack_message header deserialize serialize of_bytes to_bytes pl_body unpack check_ack
    find_process_id move_down pl_finish record_ack
delivered = (_, _, refl)

pl_deliver_once_example :
    (¬ Recorded initial_perfect delivered.1.index delivered.1.seq_num)
    × Recorded delivered.0 delivered.1.index delivered.1.seq_num
    × (length (datagram ∷ []) < length (datagram ∷ datagram ∷ []))
pl_deliver_once_example =
    pl_deliver_once (λ _. false) initial_perfect (datagram ∷ datagram ∷ [])
      initial_perfect-CountsFit delivered.2

deliver_keys-Distinct_example :
    Distinct (deliver_keys (λ _. false) 2 initial_perfect (datagram ∷ datagram ∷ []))
deliver_keys-Distinct_example =
    deliver_keys-Distinct (λ _. false) 2 initial_perfect (datagram ∷ datagram ∷ [])
      initial_perfect-CountsFit

packed_received_example :
    (header (fill_buffer (packed 7 message)) ≡ some (message_type, 7))
    × (received_size (packed 7 message) ≡ pl_metadata_len + length message)
    × (take (length message) (
          move_down
            (fill_buffer (packed 7 message))
            (received_size (packed 7 message))
            pl_metadata_len)
        ≡ message)
packed_received_example = packed_received 7 message (omega arith) (omega arith)

pl_send_at_queues_example :
    (t : Perfect) × (pl_send_at initial_perfect 0 peer message 2 ≡ some t)
    × (t.links.hashmap (get_index peer)
        ≡ initial_perfect.links.hashmap (get_index peer)
          ++ message_packet (initial_perfect.seq_num_table 0) (take 2 message) ∷ [])
    × (t.seq_num_table 0 ≡ u32 (initial_perfect.seq_num_table 0 + 1))
pl_send_at_queues_example =
    pl_send_at_queues initial_perfect 0 peer message 2 (omega arith) (omega arith) (omega arith)
