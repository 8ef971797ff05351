-- ===== src/Urb/Tests.antt =====
-- One process that broadcasts to itself.
use cs451_2021_project.Base.{
  ℕ, ◌/◌, ◌≡◌, ◌≢◌, ◌<◌, refl, arith, true, false, List, [], ◌∷◌, none, some, replicate,
}
use cs451_2021_project.Serializer.{to_bytes, serialize, deserialize, of_bytes}
use cs451_2021_project.Address.{find_process_id, get_index, index_of_port, max_processes}
use cs451_2021_project.LinkedList.{insert_last}
use cs451_2021_project.Receive.{Datagram, returned, deliver_loop, map_state}
use cs451_2021_project.StubbornLinks.{
  sl_deliver, sl_send, handle_packet, ack_message, header, fill_buffer, received_size,
}
use cs451_2021_project.PerfectLinks.{
  pl_deliver, below, pl_body, unpack, check_ack, move_down, pl_finish, record_ack, pl_send,
  pl_send_at, pl_pack,
}
use cs451_2021_project.PerfectLinks.Delivered.{Distinct}
use cs451_2021_project.PerfectLinks.Tests.{initial_perfect, peer}
use cs451_2021_project.BestEffort.{beb_broadcast, beb_deliver, send_to_all}
use cs451_2021_project.Urb.{
  Urb, zero_pam, zero_row, urb_broadcast, pam_alloc, fill_pam, get_address, urb_pack, accessible,
  check_pam_table,
}
use cs451_2021_project.Urb.Deliver.{
  UrbDelivery, urb_deliver, beb_below, urb_body, urb_header, handle_pam, count_ack, first_seen,
  ready, mark_delivered,
}
use cs451_2021_project.Urb.Cells.{IsValid, count_acks}
use cs451_2021_project.Urb.Growth.{handle_pam_beyond, urb_broadcast_beyond}
use cs451_2021_project.Urb.Majority.{urb_deliver_majority}
use cs451_2021_project.Urb.Once.{start, delivers, broadcasts, Calls-Distinct, none_acked}

abbrev alone : Urb
alone = record {
  beb = record { perfect = initial_perfect; addresses = peer ∷ [] };
  rows = λ _. zero_row;
  n_processes = 1;
  process_id = 1;
  addresses = peer ∷ [];
  count = 0;
}

alone-IsValid : IsValid alone
alone-IsValid os num = ground (arith, none_acked)

abbrev text : List ℕ
text = b'1' ∷ replicate 255 0

-- The message as it comes back over the network.
abbrev datagram : Datagram
datagram = record {
  peer = peer;
  bytes = b'm' ∷ 0 ∷ 0 ∷ 0 ∷ 0 ∷ 0x2a ∷ 0xf9 ∷ 0 ∷ 0 ∷ 0 ∷ 0 ∷ b'1' ∷ 0 ∷ [];
}

broadcast : (u : Urb) × (urb_broadcast alone text 2 ≡ some u)
unfolding urb_broadcast pam_alloc fill_pam get_address urb_pack accessible serialize to_bytes
    beb_broadcast send_to_all pl_send pl_send_at pl_pack find_process_id sl_send insert_last
    get_index index_of_port
broadcast = (_, refl)

returns :
    (v : Urb) × (d : UrbDelivery) × (urb_deliver
        (λ _. false)
        (λ _. zero_pam)
        broadcast.0
        (datagram ∷ [])
      ≡ returned v d [])
unfolding broadcast urb_deliver deliver_loop map_state beb_below beb_deliver pl_deliver below
    sl_deliver received_size fill_buffer handle_packet ack_message header deserialize serialize
    of_bytes to_bytes pl_body unpack check_ack find_process_id move_down pl_finish record_ack
    urb_body urb_header handle_pam count_ack first_seen ready mark_delivered accessible
    check_pam_table get_index index_of_port pam_alloc fill_pam
returns = (_, _, refl)

-- A message of its own that the process has not broadcast in this run: the entry is made as it arrives.
relays :
    (v : Urb) × (d : UrbDelivery) × (urb_deliver (λ _. false) (λ _. zero_pam) alone (datagram ∷ [])
      ≡ returned v d [])
unfolding urb_deliver deliver_loop map_state beb_below beb_deliver pl_deliver below sl_deliver
    received_size fill_buffer handle_packet ack_message header deserialize serialize of_bytes
    to_bytes pl_body unpack check_ack find_process_id move_down pl_finish record_ack urb_body
    urb_header handle_pam count_ack first_seen ready mark_delivered accessible check_pam_table
    get_index index_of_port pam_alloc fill_pam beb_broadcast send_to_all pl_send pl_send_at pl_pack
    sl_send insert_last
relays = (_, _, refl)

urb_deliver_majority_example :
    IsValid relays.0
    × (((alone.rows relays.1.os).cells relays.1.num).delivered ≡ false)
    × (((relays.0.rows relays.1.os).cells relays.1.num).delivered ≡ true)
    × (alone.n_processes / 2
        < count_acks max_processes ((relays.0.rows relays.1.os).cells relays.1.num).ack)
urb_deliver_majority_example =
    urb_deliver_majority (λ _. false) (λ _. zero_pam) alone (datagram ∷ []) alone-IsValid relays.2

other_row : 2 ≢ relays.1.os
unfolding relays index_of_port
other_row = omega arith

Calls-Distinct_example : Distinct ((returns.1.os, returns.1.num) ∷ [])
Calls-Distinct_example = Calls-Distinct alone-IsValid (
    delivers (λ _. false) (λ _. zero_pam) (datagram ∷ []) [] returns.1
      (broadcasts text 2 start (omega arith) refl broadcast.1) returns.2)

handle_pam_beyond_example : handle_pam (λ _. zero_pam) alone 1 1 8192 text 12 ≡ none
handle_pam_beyond_example =
    handle_pam_beyond (λ _. zero_pam) alone 1 1 8192 text 12 refl (omega arith)

-- The process after its first 8192 messages, as far as the count goes.
abbrev full : Urb
full = record alone { count = 8192 }

urb_broadcast_beyond_example : urb_broadcast full text 2 ≡ none
urb_broadcast_beyond_example = urb_broadcast_beyond full text 2 refl (omega arith)
