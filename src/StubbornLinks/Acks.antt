-- ===== src/StubbornLinks/Acks.antt =====
-- Acknowledgements, from the receiver of a packet back to its sender's queue.
use cs451_2021_project.Base.{
  ℕ, ◌^◌, ◌≡◌, ◌<◌, refl, ap₂, fun_ext, Bool, true, false, List, [], ◌∷◌, ◌++◌, some, ◌≢◌,
  append-nil, arith, take, replicate, update,
}
use cs451_2021_project.Serializer.{serialize, deserialize, to_bytes, of_bytes}
use cs451_2021_project.Serializer.RoundTrip.{deserialize_lem, of_bytes-to_bytes, concat}
use cs451_2021_project.Address.{SockAddr, get_index}
use cs451_2021_project.LinkedList.{Packet}
use cs451_2021_project.Receive.{waiting}
use cs451_2021_project.StubbornLinks.{
  Links, ack_type, max_chars, message_type, header, fill_buffer, received_size, ack_first,
  ack_message, handle_packet, sl_deliver, serve,
}

-- The first five bytes of a datagram.
abbrev pub packet_header : ℕ → ℕ → List (List ℕ)
packet_header type seq_num = (type ∷ []) ∷ to_bytes 4 seq_num ∷ []

pub one_byte : (b : ℕ) → of_bytes (b ∷ []) ≡ b
unfolding of_bytes
one_byte b = omega arith

pub filled :
    (type seq_num : ℕ) (body : List ℕ)
    → fill_buffer (concat (packet_header type seq_num) ++ body)
      ≡ concat (packet_header type seq_num) ++ take 251 (body ++ replicate max_chars 0)
unfolding fill_buffer to_bytes
filled type seq_num body = refl

pub deserialize_header :
    (type seq_num : ℕ) (rest : List ℕ)
    → deserialize (concat (packet_header type seq_num) ++ rest) (1 ∷ 4 ∷ [])
      ≡ some (packet_header type seq_num)
unfolding to_bytes
deserialize_header type seq_num rest = deserialize_lem (packet_header type seq_num) rest

-- A datagram that starts with a type and a 32-bit number is read as these.
pub header_lem :
    (type seq_num : ℕ) (body : List ℕ)
    → seq_num < 2 ^ 32
    → header (fill_buffer (concat (packet_header type seq_num) ++ body)) ≡ some (type, seq_num)
unfolding header
header_lem type seq_num body h =
    rw (filled type seq_num body, split)
      (ap₂ (λ t n. some (t, n)) (one_byte type) (of_bytes-to_bytes 4 seq_num h))
  where
    split :
        deserialize
          (concat (packet_header type seq_num) ++ take 251 (body ++ replicate max_chars 0))
          (1 ∷ 4 ∷ [])
        ≡ some (packet_header type seq_num)
    split = deserialize_header type seq_num (take 251 (body ++ replicate max_chars 0))

ack_message_lem :
    (seq_num : ℕ) → ack_message seq_num ≡ some (concat (packet_header ack_type seq_num))
unfolding ack_message serialize to_bytes
ack_message_lem seq_num = refl

-- The receiver of a message with a 32-bit number answers its sender with one datagram, which the loop
-- of `sl_deliver` reads as an acknowledgement of that number.
pub handle_packet_acks :
    (s : Links) (sender : SockAddr) (seq_num : ℕ)
    → seq_num < 2 ^ 32
    → (bytes : List ℕ) × (handle_packet s sender message_type seq_num
        ≡ some (record s { wire = record { peer = sender; bytes = bytes } ∷ s.wire }))
      × (header (fill_buffer bytes) ≡ some (ack_type, seq_num))
unfolding handle_packet
handle_packet_acks s sender seq_num h = (
  concat (packet_header ack_type seq_num),
  rw (ack_message_lem seq_num),
  rw (← append-nil (concat (packet_header ack_type seq_num))) (header_lem ack_type seq_num [] h),
)

-- A non-empty datagram that reads as an acknowledgement of the first, unmarked packet of its sender's
-- queue lets `sl_deliver` wait on, and then the next look of the sending thread at the queue takes that
-- packet off and changes no other queue.
pub acked_packet_leaves :
    (s : Links) (sender : SockAddr) (accepts : Bool) {packet : Packet} {list : List Packet}
    (bytes : List ℕ)
    → header (fill_buffer bytes) ≡ some (ack_type, packet.num)
    → received_size bytes ≢ 0
    → s.hashmap (get_index sender) ≡ packet ∷ list
    → packet.ack ≡ false
    → (t : Links) × (sl_deliver s (record { peer = sender; bytes = bytes } ∷ []) ≡ waiting t)
      × ((serve accepts t (get_index sender)).hashmap ≡ update s.hashmap (get_index sender) list)
unfolding sl_deliver handle_packet serve ack_first
acked_packet_leaves s sender accepts {packet} {list} bytes h n q a = (
  record s { hashmap = update s.hashmap (get_index sender) (record packet { ack = true } ∷ list) },
  ground arith,
  fun_ext λ j. ground arith,
)
