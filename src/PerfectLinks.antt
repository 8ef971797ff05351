-- ===== src/PerfectLinks.antt =====
-- template_cpp/src/src/perfect_links.c: numbered messages over the stubborn links.
pub mod Recorded
pub mod Delivered
pub mod Packing
pub mod Sending
pub mod Tests
use cs451_2021_project.Base.{
  ℕ, suc, ◌+◌, ◌-◌, ◌*◌, ◌^◌, Bool, true, false, ◌&&◌, List, [], ◌∷◌, ◌++◌, Option, none, some,
  length, take, drop, replicate, update, ltb, leb, ◌==◌, if◌then◌else◌,
}
use cs451_2021_project.Serializer.{serialize, to_bytes}
use cs451_2021_project.Address.{SockAddr, ProcessTable, find_process_id, u32, u64, max_processes}
use cs451_2021_project.Receive.{
  Datagram, Delivery, Received, returned, exited, waiting, fault, unfinished, Turn, again, leave,
  out_of_bounds, map_state, deliver_loop,
}
use cs451_2021_project.StubbornLinks.{
  Links, sl_init, sl_send, sl_deliver, sl_destroy, header, message_type, max_chars,
}

abbrev pub init_ack_size : ℕ
init_ack_size = 2 ^ 20

-- sizeof(char) + sizeof(uint)
abbrev pub pl_metadata_len : ℕ
pl_metadata_len = 5

-- MAX_HEADER_SIZE + MAX_CHARS + 1
abbrev pub pl_buffer_size : ℕ
pl_buffer_size = 270

pub record AckTable : Type 0 where
  pub acks : ℕ → Bool
  pub size : ℕ
  pub n_ack : ℕ

-- The static variables, those of `find_process_id`, and the layer below.
pub record Perfect : Type 0 where
  pub links : Links
  pub ack_table : ℕ → AckTable
  pub seq_num_table : ℕ → ℕ
  pub process_ids : ProcessTable

abbrev pub initial_acks : AckTable
initial_acks = record { acks = λ _. false; size = init_ack_size; n_ack = 0 }

-- `calloc` succeeds.
unfoldable pub pl_init : Perfect → Perfect
pl_init s = record s {
  links = sl_init s.links;
  ack_table = λ i. if ltb i max_processes then initial_acks else s.ack_table i;
  seq_num_table = λ i. if ltb i max_processes then 0 else s.seq_num_table i;
}

-- The table that `pl_destroy` frees has size 0 from then on.
unfoldable pub pl_destroy : Perfect → Perfect
pl_destroy s = record s {
  links = sl_destroy s.links;
  ack_table =
      λ i. if ltb i max_processes then record (s.ack_table i) { size = 0 } else s.ack_table i;
}

-- `pl_realloc` on one table. `realloc` succeeds; what it appends is uninitialised: `fresh`.
unfoldable pub pl_realloc : (ℕ → Bool) → AckTable → AckTable
pl_realloc fresh t = record t {
  acks = λ i. if ltb i t.size then t.acks i else fresh i;
  size = u64 (2 * t.size);
}

-- `find_process_id(…) - 1` on `uint`.
abbrev pub process_index : ℕ → ℕ
process_index id = u32 (id + 2 ^ 32 - 1)

abbrev put_links : Perfect → Option Links → Option Perfect
put_links s none = none
put_links s (some links) = some (record s { links = links })

abbrev send_packed : Perfect → SockAddr → ℕ → ℕ → Option (List ℕ) → Option Perfect
send_packed s receiver size seq_num none = none
send_packed s receiver size seq_num (some buffer) =
    put_links s (sl_send s.links receiver buffer size seq_num)

-- message_type | seq_num | the first `n` bytes of the message.
unfoldable pub pl_pack : ℕ → List ℕ → Option (List ℕ)
pl_pack seq_num content =
    serialize (replicate pl_buffer_size 0) ((message_type ∷ []) ∷ to_bytes 4 seq_num ∷ content ∷ [])

-- The part behind the call of `find_process_id`, at the index that it gave.
unfoldable pub pl_send_at : Perfect → ℕ → SockAddr → List ℕ → ℕ → Option Perfect
pl_send_at s index receiver message n =
    if ltb index max_processes && leb n (length message)
    then send_packed
        (record s {
          seq_num_table = update s.seq_num_table index (u32 (s.seq_num_table index + 1));
        })
        receiver (pl_metadata_len + n) (s.seq_num_table index)
        (pl_pack (s.seq_num_table index) (take n message))
    else none

-- `none` is an access out of bounds.
unfoldable pub pl_send : Perfect → SockAddr → List ℕ → ℕ → Option Perfect
unfolding pl_send_at
pl_send s receiver message n =
    let (id, ids) = find_process_id s.process_ids receiver in
    pl_send_at (record s { process_ids = ids }) (process_index id) receiver message n

-- What `pl_deliver` returns: the message without its header, and the key that it is filed under.
pub record PlDelivery : Type 0 where
  pub delivery : Delivery
  pub index : ℕ
  pub seq_num : ℕ

-- `memmove(message, message + k, n - k)`: the bytes behind the first `n - k` stay.
unfoldable pub move_down : List ℕ → ℕ → ℕ → List ℕ
move_down message n k = take (n - k) (drop k message) ++ drop (n - k) message

-- `acks[seq_num]` decides whether the loop goes on; it is out of bounds from `size` on.
unfoldable pub check_ack : Perfect → PlDelivery → Turn Perfect PlDelivery
check_ack s d =
    if ltb d.index max_processes && ltb d.seq_num (s.ack_table d.index).size
    then (if (s.ack_table d.index).acks d.seq_num then again s else leave s d)
    else out_of_bounds

-- The body for a packet of type 'm'. `n - metadata_len` on `size_t` would be huge for a short packet.
unfoldable pub unpack : Perfect → Delivery → ℕ → Turn Perfect PlDelivery
unfolding check_ack move_down
unpack s d seq_num =
    let (id, ids) = find_process_id s.process_ids d.sender in
    if leb pl_metadata_len d.n
    then check_ack (record s { process_ids = ids })
        (record {
          delivery = record d { message = move_down d.message d.n pl_metadata_len };
          index = process_index id;
          seq_num = seq_num;
        })
    else out_of_bounds

abbrev pub on_pl_header : Perfect → Delivery → Option (ℕ × ℕ) → Turn Perfect PlDelivery
on_pl_header s d none = out_of_bounds
on_pl_header s d (some (type, seq_num)) =
    if type == message_type then unpack s d seq_num else again s

-- The body of the loop of `pl_deliver`, behind the call of `sl_deliver`.
unfoldable pub pl_body : Perfect → Delivery → Turn Perfect PlDelivery
pl_body s d = on_pl_header s d (header d.message)

-- Behind the loop: grow the table if its count says so, and record the number.
unfoldable pub record_ack : (ℕ → Bool) → AckTable → ℕ → AckTable
unfolding pl_realloc
record_ack fresh t seq_num =
    let t' = if leb t.size t.n_ack then pl_realloc fresh t else t in
    record t' { acks = update t'.acks seq_num true; n_ack = u32 (t'.n_ack + 1) }

unfoldable pub pl_finish : (ℕ → Bool) → Perfect → PlDelivery → Perfect
pl_finish fresh s d = record s {
  ack_table = update s.ack_table d.index (record_ack fresh (s.ack_table d.index) d.seq_num);
}

abbrev pub finished : (ℕ → Bool) → Received Perfect PlDelivery → Received Perfect PlDelivery
finished fresh (returned s d rest) = returned (pl_finish fresh s d) d rest
finished fresh (exited s rest) = exited s rest
finished fresh (waiting s) = waiting s
finished fresh fault = fault
finished fresh unfinished = unfinished

-- `sl_deliver` on the state of this layer.
unfoldable pub below : Perfect → List Datagram → Received Perfect Delivery
below s datagrams = map_state (λ links. record s { links = links }) (sl_deliver s.links datagrams)

-- Each iteration consumes a datagram, so their number bounds the loop.
unfoldable pub pl_deliver : (ℕ → Bool) → Perfect → List Datagram → Received Perfect PlDelivery
unfolding below
pl_deliver fresh s datagrams =
    finished fresh (deliver_loop below pl_body (suc (length datagrams)) s datagrams)
