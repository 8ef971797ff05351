-- ===== src/LinkedList.antt =====
-- template_cpp/src/src/linked_list.c: the queue of packets that one peer still has to acknowledge.
-- Here it is the list of its packets, first to last; Heap has the pointers of the code, and Refine
-- compares the two.
pub mod Heap
pub mod Refine
mod Tests
use cs451_2021_project.Base.{
  ℕ, Bool, true, false, ◌&&◌, List, [], ◌∷◌, ◌++◌, Option, none, some, length, take, leb,
  if◌then◌else◌,
}

abbrev pub message_size : ℕ
message_size = 256

-- `struct Packet` without its `next`. `message` holds the first `n` bytes of the array: the
-- others stay uninitialised, and `sendto` reads `n` bytes.
pub record Packet : Type 0 where
  pub num : ℕ
  pub ack : Bool
  pub message : List ℕ
  pub n : ℕ

-- The packet that `insertLast` builds from `n` bytes of `message`. `none`: `memcpy` would leave one
-- of the two arrays.
unfoldable pub new_packet : ℕ → Bool → List ℕ → ℕ → Option Packet
new_packet num ack message n =
    if leb n message_size && leb n (length message)
    then some (record { num = num; ack = ack; message = take n message; n = n })
    else none

abbrev append_packet : List Packet → Option Packet → Option (List Packet)
append_packet list none = none
append_packet list (some link) = some (list ++ link ∷ [])

unfoldable pub insert_last : List Packet → ℕ → Bool → List ℕ → ℕ → Option (List Packet)
unfolding new_packet
insert_last list num ack message n = append_packet list (new_packet num ack message n)

-- `none`: the code would follow a null pointer.
unfoldable pub delete_first : List Packet → Option (List Packet)
delete_first [] = none
delete_first (link ∷ list) = some list

unfoldable pub is_empty : List Packet → Bool
is_empty [] = true
is_empty (link ∷ list) = false
