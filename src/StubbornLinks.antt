-- ===== src/StubbornLinks.antt =====
-- template_cpp/src/src/stubborn_links.c. The static variables are a record. Datagrams that arrive are
-- a list, and what `sendto` put on the network is recorded in `wire`.
pub mod Invariant
pub mod Stubborn
pub mod Acks
pub mod Exchange
pub mod Deliver
mod Tests
use cs451_2021_project.Base.{
  ℕ, zero, suc, ◌+◌, ◌-◌, ◌^◌, ◌≡◌, min, Bool, true, false, ◌&&◌, not, List, [], ◌∷◌, ◌++◌, Option,
  none, some, length, take, replicate, update, ltb, ◌==◌, if◌then◌else◌,
}
use cs451_2021_project.Serializer.{serialize, deserialize, to_bytes, of_bytes}
use cs451_2021_project.Address.{SockAddr, get_index, u64, max_processes}
use cs451_2021_project.Receive.{Datagram, Delivery, Received, returned, exited, waiting, fault}
use cs451_2021_project.LinkedList.{Packet, insert_last, delete_first, is_empty}

abbrev pub max_chars : ℕ
max_chars = 256

-- sizeof(char) + sizeof(uint)
abbrev pub max_ack_size : ℕ
max_ack_size = 5

abbrev pub message_type : ℕ
message_type = b'm'

abbrev pub ack_type : ℕ
ack_type = b'a'

-- `wire` has the datagrams handed to `sendto`, the latest first, each with its receiver.
pub record Links : Type 0 where
  pub hashmap : ℕ → List Packet
  pub n_packets : ℕ
  pub addresses : ℕ → SockAddr
  pub largest_index : ℕ
  pub send_forever : Bool
  pub wire : List Datagram

abbrev pub no_port : SockAddr → SockAddr
no_port addr = record addr { sin_port = 0 }

unfoldable pub sl_init : Links → Links
sl_init s = record s {
  hashmap = λ i. if ltb i max_processes then [] else s.hashmap i;
  addresses = λ i. if ltb i max_processes then no_port (s.addresses i) else s.addresses i;
  largest_index = 0;
  send_forever = true;
}

-- The first part of `sl_send`: the first receiver of an index sets the index's address.
unfoldable pub remember_address : Links → SockAddr → Links
remember_address s receiver =
    if (s.addresses (get_index receiver)).sin_port == 0
    then record s {
      addresses = update s.addresses (get_index receiver) receiver;
      largest_index =
          if ltb s.largest_index (get_index receiver) then get_index receiver else s.largest_index;
    }
    else s

abbrev put_queue : Links → ℕ → Option (List Packet) → Option Links
put_queue s index none = none
put_queue s index (some list) =
    some (record s { hashmap = update s.hashmap index list; n_packets = u64 (s.n_packets + 1) })

-- `none`: the message is too long for a packet.
unfoldable pub sl_send : Links → SockAddr → List ℕ → ℕ → ℕ → Option Links
unfolding remember_address
sl_send s receiver message n num =
    let index = get_index receiver in
    let s' = remember_address s receiver in
    put_queue s' index (insert_last (s'.hashmap index) num false message n)

-- One index of the loop of `sl_send_forever`; `accepts` says whether `sendto` succeeds. A
-- failed `sendto` ends the outer loop after the round.
serve_queue : Bool → Links → ℕ → List Packet → Links
serve_queue accepts s i [] = s
serve_queue accepts s i (packet ∷ list) =
    if packet.ack
    then record s { hashmap = update s.hashmap i list; n_packets = u64 (s.n_packets + 2 ^ 64 - 1) }
    else if accepts
    then record s { wire = record { peer = s.addresses i; bytes = packet.message } ∷ s.wire }
    else record s { send_forever = false }

unfoldable pub serve : Bool → Links → ℕ → Links
unfolding serve_queue
serve accepts s i = serve_queue accepts s i (s.hashmap i)

-- The loop from index `i` on, with `left` indices to go.
unfoldable pub serve_from : (ℕ → Bool) → Links → ℕ → ℕ → Links
serve_from accepts s i zero = s
serve_from accepts s i (suc left) = serve_from accepts (serve (accepts i) s i) (i + 1) left

-- One round of the loop of `sl_send_forever`, over the indices from 0 to `largest_index`.
unfoldable pub send_round : (ℕ → Bool) → Links → Links
unfolding serve_from
send_round accepts s = if s.send_forever then serve_from accepts s 0 (s.largest_index + 1) else s

-- The `while` of `sl_destroy`: `delete_first` until the queue is empty.
unfoldable pub drain : List Packet → List Packet
drain [] = []
drain (link ∷ list) = drain list

-- The thread of `sl_send_forever` has been joined before the queues are emptied.
unfoldable pub sl_destroy : Links → Links
unfolding drain
sl_destroy s = record s {
  send_forever = false;
  hashmap = λ i. if ltb s.largest_index i then s.hashmap i else drain (s.hashmap i);
}

-- The buffer after `memset` and `recvfrom`, and what `recvfrom` returns.
unfoldable pub fill_buffer : List ℕ → List ℕ
fill_buffer bytes = take max_chars (bytes ++ replicate max_chars 0)

unfoldable pub received_size : List ℕ → ℕ
received_size bytes = min (length bytes) max_chars

header_fields : Option (List (List ℕ)) → Option (ℕ × ℕ)
header_fields (some (type ∷ seq_num ∷ [])) = some (of_bytes type, of_bytes seq_num)
header_fields _ = none

-- type | seq_num, as `deserialize` reads them.
unfoldable pub header : List ℕ → Option (ℕ × ℕ)
unfolding header_fields
header message = header_fields (deserialize message (1 ∷ 4 ∷ []))

-- An acknowledgement marks the first packet of the queue, if it has the number and no mark yet.
unfoldable pub ack_first : ℕ → List Packet → List Packet
ack_first seq_num [] = []
ack_first seq_num (packet ∷ list) =
    if packet.num == seq_num && not packet.ack
    then record packet { ack = true } ∷ list
    else packet ∷ list

abbrev put_on_wire : Links → SockAddr → Option (List ℕ) → Option Links
put_on_wire s receiver none = none
put_on_wire s receiver (some bytes) =
    some (record s { wire = record { peer = receiver; bytes = bytes } ∷ s.wire })

-- The acknowledgement that `sl_deliver` packs.
unfoldable pub ack_message : ℕ → Option (List ℕ)
ack_message seq_num =
    serialize (replicate max_ack_size 0) ((ack_type ∷ []) ∷ to_bytes 4 seq_num ∷ [])

-- What the loop of `sl_deliver` does with a packet of this type.
unfoldable pub handle_packet : Links → SockAddr → ℕ → ℕ → Option Links
unfolding ack_first
handle_packet s sender type seq_num =
    if type == ack_type
    then some (record s {
      hashmap =
          update s.hashmap (get_index sender) (ack_first seq_num (s.hashmap (get_index sender)));
    })
    else if type == message_type
    then put_on_wire s sender (ack_message seq_num)
    else some s

-- The end of an iteration: `type == 'm'` leaves the loop.
abbrev after_packet :
    ℕ
    → Delivery
    → List Datagram
    → (Links → Received Links Delivery)
    → Option Links
    → Received Links Delivery
after_packet type delivery rest again none = fault
after_packet type delivery rest again (some s) =
    if type == message_type then returned s delivery rest else again s

-- The decoded header decides how the iteration goes on.
abbrev on_header :
    Links
    → Delivery
    → List Datagram
    → (Links → Received Links Delivery)
    → Option (ℕ × ℕ)
    → Received Links Delivery
on_header s delivery rest again none = fault
on_header s delivery rest again (some (type, seq_num)) =
    after_packet type delivery rest again (handle_packet s delivery.sender type seq_num)

unfoldable pub sl_deliver : Links → List Datagram → Received Links Delivery
sl_deliver s [] = waiting s
sl_deliver s (d ∷ rest) =
    let again = λ (s' : Links). sl_deliver s' rest in
    if received_size d.bytes == 0
    then exited s rest
    else on_header s
        (record { sender = d.peer; message = fill_buffer d.bytes; n = received_size d.bytes }) rest
        again (header (fill_buffer d.bytes))
