-- ===== src/PerfectLinks/Packing.antt =====
-- What `pl_send` queues, and what `pl_deliver` makes of it at the other end.
use cs451_2021_project.Base.{
  ℕ, ◌+◌, ◌-◌, ◌^◌, ◌≡◌, ◌≤◌, ◌<◌, ◌∙◌, refl, ap, ap₂, false, List, [], ◌∷◌, ◌++◌, none, some,
  arith, length, take, drop, replicate, length-append, length-take, take-take, take-append_le,
  take_prefix, lt→ltb, le→leb, append-nil, update, update_self, Option-cases, inl, inr,
}
use cs451_2021_project.Serializer.{to_bytes}
use cs451_2021_project.Serializer.RoundTrip.{serialize_lem, concat, total}
use cs451_2021_project.Address.{SockAddr, get_index, find_process_id, max_processes, u32}
use cs451_2021_project.LinkedList.{Packet, insert_last}
use cs451_2021_project.StubbornLinks.{
  Links, sl_send, fill_buffer, received_size, header, message_type, max_chars,
}
use cs451_2021_project.StubbornLinks.Acks.{packet_header, filled, header_lem}
use cs451_2021_project.PerfectLinks.{
  Perfect, pl_pack, pl_send, pl_send_at, process_index, move_down, pl_metadata_len, pl_buffer_size,
}

-- The bytes of a message on the network.
abbrev pub packed : ℕ → List ℕ → List ℕ
packed seq_num content = concat (packet_header message_type seq_num) ++ content

length-packed :
    (seq_num : ℕ) (content : List ℕ) → length (packed seq_num content) ≡ 5 + length content
unfolding to_bytes
length-packed seq_num content = omega arith

received_packed :
    (seq_num : ℕ) (content : List ℕ)
    → length content ≤ 251
    → received_size (packed seq_num content) ≡ pl_metadata_len + length content
unfolding received_size
received_packed seq_num content l = omega (arith, length-packed seq_num content)

drop_header :
    (seq_num : ℕ) (rest : List ℕ)
    → drop 5 (concat (packet_header message_type seq_num) ++ rest) ≡ rest
unfolding to_bytes
drop_header seq_num rest = refl

-- The message stands in the part of the buffer that `recvfrom` filled.
prefix_of_buffer :
    (content : List ℕ)
    → length content ≤ 251
    → take (length content) (take 251 (content ++ replicate max_chars 0)) ≡ content
prefix_of_buffer content l =
    take-take (length content) 251 (content ++ replicate max_chars 0) l
    ∙ take_prefix content (replicate max_chars 0)

moved :
    (seq_num : ℕ) (content : List ℕ)
    → length content ≤ 251
    → take (length content) (
        move_down
          (fill_buffer (packed seq_num content))
          (pl_metadata_len + length content)
          pl_metadata_len)
      ≡ content
unfolding move_down
moved seq_num content l =
    let L = length content in
    let body = take 251 (content ++ replicate max_chars 0) in
    rw (filled message_type seq_num content, drop_header seq_num body, size)
      (take-append_le L (take L body) (drop L (concat (packet_header message_type seq_num) ++ body))
          (omega (arith, ap length (prefix_of_buffer content l)))
        ∙ take-take L L body (omega arith)
        ∙ prefix_of_buffer content l)
  where
    size : pl_metadata_len + length content - pl_metadata_len ≡ length content
    size = omega arith

-- A packed message of at most 251 bytes with a 32-bit number is read back by its receiver: `sl_deliver`
-- finds type 'm', the number and the size, and the `memmove` of `pl_deliver` leaves the message at the
-- start of the buffer.
pub packed_received :
    (seq_num : ℕ) (content : List ℕ)
    → seq_num < 2 ^ 32
    → length content ≤ 251
    → (header (fill_buffer (packed seq_num content)) ≡ some (message_type, seq_num))
      × (received_size (packed seq_num content) ≡ pl_metadata_len + length content)
      × (take (length content) (
            move_down
              (fill_buffer (packed seq_num content))
              (received_size (packed seq_num content))
              pl_metadata_len)
          ≡ content)
packed_received seq_num content h l = (
  header_lem message_type seq_num content h,
  received_packed seq_num content l,
  rw (received_packed seq_num content l) (moved seq_num content l),
)

-- The last packet of a queue.
abbrev pub message_packet : ℕ → List ℕ → Packet
message_packet seq_num content = record {
  num = seq_num;
  ack = false;
  message = packed seq_num content;
  n = pl_metadata_len + length content;
}

pl_pack_lem :
    (seq_num : ℕ) (content : List ℕ)
    → length content ≤ 251
    → (rest : List ℕ) × (pl_pack seq_num content ≡ some (packed seq_num content ++ rest))
unfolding pl_pack to_bytes
pl_pack_lem seq_num content l = (
  drop (total items) (replicate pl_buffer_size 0),
  serialize_lem (replicate pl_buffer_size 0) items (omega arith)
      ∙ ap
          (λ end. some (
            concat (packet_header message_type seq_num)
            ++ (end ++ drop (total items) (replicate pl_buffer_size 0))))
          (append-nil content),
)
  where
    items : List (List ℕ)
    items = (message_type ∷ []) ∷ to_bytes 4 seq_num ∷ content ∷ []

sl_send_lem :
    (s : Links) (receiver : SockAddr) (buffer : List ℕ) (n num : ℕ)
    → n ≤ 256
    → n ≤ length buffer
    → (t : Links) × (sl_send s receiver buffer n num ≡ some t)
      × (t.hashmap (get_index receiver)
          ≡ s.hashmap (get_index receiver)
            ++ record { num = num; ack = false; message = take n buffer; n = n } ∷ [])
unfolding sl_send insert_last
sl_send_lem s receiver buffer n num h l = elim (Option-cases (sl_send s receiver buffer n num)) [
  | inl e ↦ absurd (ground arith)
  | inr (t, e) ↦ (t, e, ground arith)
]

packet_of : ℕ → List ℕ → ℕ → Packet
packet_of num bytes n = record { num = num; ack = false; message = bytes; n = n }

same_packet :
    (seq_num : ℕ) (content rest : List ℕ) (n : ℕ)
    → length content ≡ n
    → packet_of seq_num
        (take (pl_metadata_len + n) (packed seq_num content ++ rest))
        (pl_metadata_len + n)
      ≡ message_packet seq_num content
unfolding packet_of
same_packet seq_num content rest n e =
    ap₂ (packet_of seq_num)
      (let k : pl_metadata_len + n ≡ length (packed seq_num content) =
          omega (arith, length-packed seq_num content) in
        rw k (take_prefix (packed seq_num content) rest))
      (omega arith)

-- For an index below `MAX_PROCESSES` and a message that has its `n` bytes, at most 251, `pl_send` queues
-- the packed message, with the next number of the index, behind the packets that wait for the receiver,
-- and counts that number on.
pub pl_send_at_queues :
    (s : Perfect) (index : ℕ) (receiver : SockAddr) (message : List ℕ) (n : ℕ)
    → index < max_processes
    → n ≤ 251
    → n ≤ length message
    → (t : Perfect) × (pl_send_at s index receiver message n ≡ some t)
      × (t.links.hashmap (get_index receiver)
          ≡ s.links.hashmap (get_index receiver)
            ++ message_packet (s.seq_num_table index) (take n message) ∷ [])
      × (t.seq_num_table index ≡ u32 (s.seq_num_table index + 1))
unfolding pl_send_at packet_of
pl_send_at_queues s index receiver message n i h l =
    let (rest, pack_eq) = pl_pack_lem seq content (omega (arith, size)) in
    let (t, send_eq, queue_eq) =
      sl_send_lem s.links receiver (packed seq content ++ rest) (pl_metadata_len + n) seq
        (omega arith)
        (omega (arith, size, length-packed seq content, length-append (packed seq content) rest)) in
    (
      record s { links = t; seq_num_table = update s.seq_num_table index (u32 (seq + 1)) },
      rw (lt→ltb index max_processes i, le→leb n (length message) l, pack_eq, send_eq),
      queue_eq
          ∙ ap (λ p. s.links.hashmap (get_index receiver) ++ p ∷ [])
              (same_packet seq content rest n size),
      update_self s.seq_num_table index (u32 (seq + 1)),
    )
  where
    seq : ℕ
    seq = s.seq_num_table index

    content : List ℕ
    content = take n message

    size : length content ≡ n
    size = omega (arith, length-take n message)

-- `pl_send` of more than 251 bytes accesses memory out of bounds.
pub pl_send_at_overflows :
    (s : Perfect) (index : ℕ) (receiver : SockAddr) (message : List ℕ) (n : ℕ)
    → 251 < n
    → pl_send_at s index receiver message n ≡ none
unfolding pl_send_at sl_send insert_last
pl_send_at_overflows s index receiver message n h = ground arith

pub pl_send_overflows :
    (s : Perfect) (receiver : SockAddr) (message : List ℕ) (n : ℕ)
    → 251 < n
    → pl_send s receiver message n ≡ none
unfolding pl_send
pl_send_overflows s receiver message n h =
    pl_send_at_overflows (record s { process_ids = (find_process_id s.process_ids receiver).1 })
      (process_index (find_process_id s.process_ids receiver).0) receiver message n h
