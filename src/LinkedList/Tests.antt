-- ===== src/LinkedList/Tests.antt =====
-- A queue of one packet on a heap.
use cs451_2021_project.Base.{refl, false, [], ◌∷◌, none, some, ◌==◌, if◌then◌else◌}
use cs451_2021_project.LinkedList.{Packet, insert_last, delete_first}
use cs451_2021_project.LinkedList.Heap.{
  Heap, Queue, init_list, heap_insert_last, heap_delete_first, packets_of, last_address, Holds,
  Agree,
}
use cs451_2021_project.LinkedList.Refine.{heap_insert_last-Agree, heap_delete_first-Agree}

abbrev first_packet : Packet
first_packet = record { num = 0; ack = false; message = b'm' ∷ []; n = 1 }

abbrev heap : Heap
heap address = if address == 16 then some (record { packet = first_packet; next = none }) else none

abbrev list : Queue
list = record { head = some 16; current = some 16 }

heap-Holds : Holds heap list (first_packet ∷ [])
unfolding packets_of last_address
heap-Holds = record {
  cells = (16, first_packet) ∷ [];
  chain = (refl, tt, (none, refl, refl));
  same = refl;
  last = λ address e. e;
}

init_list-Holds : Holds (λ _. none) init_list []
unfolding packets_of last_address
init_list-Holds = record { cells = []; chain = refl; same = refl; last = λ address e. absurd (cc) }

heap_insert_last-Agree_example :
    Agree
      (heap_insert_last heap list 32 1 false (b'm' ∷ b'1' ∷ []) 2)
      (insert_last (first_packet ∷ []) 1 false (b'm' ∷ b'1' ∷ []) 2)
heap_insert_last-Agree_example =
    heap_insert_last-Agree heap list (first_packet ∷ []) 32 1 false (b'm' ∷ b'1' ∷ []) 2 heap-Holds
      refl

heap_delete_first-Agree_example :
    Agree (heap_delete_first heap list) (delete_first (first_packet ∷ []))
heap_delete_first-Agree_example = heap_delete_first-Agree heap list (first_packet ∷ []) heap-Holds
