-- ===== src/LinkedList/Refine.antt =====
-- The operations on pointers of template_cpp/src/src/linked_list.c against those on lists.
use cs451_2021_project.Base.{
  ℕ, zero, suc, ◌<◌, arith, length, ◌≡◌, ◌≢◌, refl, sym, ◌∙◌, Bool, List, [], ◌∷◌, ◌++◌, Option,
  none, some, All, Option-cases, inl, inr, subst, update_self,
}
use cs451_2021_project.LinkedList.{
  Packet, new_packet, append_packet, insert_last, delete_first, is_empty,
}
use cs451_2021_project.LinkedList.Heap.{
  Node, Heap, Queue, put_link, insert_packet, heap_insert_last, delete_node, heap_delete_first,
  heap_is_empty, heap_length, heap_length_from, Chain, packets_of, last_address, Holds, Agree,
  Chain-update, Chain-unallocated, Chain-link_behind, packets_of-behind, last_address-behind,
  last_address-longer,
}

last_of :
    (cell : ℕ × Packet) (cells : List (ℕ × Packet))
    → (address : ℕ) × (last_address (cell ∷ cells) ≡ some address)
unfolding last_address
last_of cell cells = elim (Option-cases (last_address cells)) [
  | inl e ↦ (cell.0, rw e refl)
  | inr (address, e) ↦ (address, rw e refl)
]

node_at :
    (heap : Heap) (p : Option ℕ) (cells : List (ℕ × Packet)) (address : ℕ)
    → Chain heap p cells
    → last_address cells ≡ some address
    → (found : Node) × (heap address ≡ some found)
unfolding last_address
node_at heap p [] address c e = absurd (cc)
node_at heap p (cell ∷ []) address c e = (
  record { packet = cell.1; next = c.2.0 },
  subst (λ a. heap a ≡ some (record { packet = cell.1; next = c.2.0 })) (same e) c.2.1,
)
  where
    same : some cell.0 ≡ some address → cell.0 ≡ address
    same e = cc
node_at heap p (cell ∷ cell' ∷ cells) address c e =
    node_at heap c.2.0 (cell' ∷ cells) address c.2.2
      (sym (last_address-longer cell cell' cells) ∙ e)

put_link-Agree :
    (heap : Heap) (list : Queue) (cells : List (ℕ × Packet)) (link : ℕ) (packet : Packet)
    → Chain heap list.head cells
    → ((address : ℕ) → last_address cells ≡ some address → list.current ≡ some address)
    → All (λ other. other.0 ≢ link) cells
    → heap link ≡ some (record { packet = packet; next = none })
    → Agree (put_link heap list link list.head) (some (packets_of cells ++ packet ∷ []))
unfolding packets_of last_address
put_link-Agree heap list [] link packet c l a e = rw c (record {
  cells = (link, packet) ∷ [];
  chain = (refl, tt, (none, e, refl));
  same = refl;
  last = λ address s. s;
})
put_link-Agree heap list (cell ∷ cells) link packet c l a e =
    let (address, at_end) = last_of cell cells in
    let (found, at_address) = node_at heap list.head (cell ∷ cells) address c at_end in
    rw (c.0, l address at_end, at_address)
      (record {
        cells = (cell ∷ cells) ++ (link, packet) ∷ [];
        chain =
            Chain-link_behind heap (some cell.0) (cell ∷ cells) link packet address (refl, c.1, c.2)
              at_end a e at_address;
        same = packets_of-behind (cell ∷ cells) (link, packet);
        last = λ other s. sym (last_address-behind (cell ∷ cells) (link, packet)) ∙ s;
      })

insert_packet-Agree :
    (heap : Heap) (list : Queue) (packets : List Packet) (link : ℕ) (made : Option Packet)
    → Holds heap list packets
    → heap link ≡ none
    → Agree (insert_packet heap list link made) (append_packet packets made)
insert_packet-Agree heap list packets link none h e = tt
insert_packet-Agree heap list packets link (some packet) h e =
    let apart = Chain-unallocated heap list.head h.cells link e h.chain in
    subst (λ l. Agree (insert_packet heap list link (some packet)) (some (l ++ packet ∷ []))) h.same
      (put_link-Agree _ list h.cells link packet
        (Chain-update heap list.head h.cells link _ h.chain apart) h.last apart
        (update_self heap link _))

-- On a heap that holds a queue of packets, with an address from malloc that is not allocated yet, the
-- pointer operations of `insertLast` fail where the operation on lists does, and otherwise lead to a
-- heap that holds its result.
pub heap_insert_last-Agree :
    (heap : Heap) (list : Queue) (packets : List Packet) (link num : ℕ) (ack : Bool)
    (message : List ℕ) (n : ℕ)
    → Holds heap list packets
    → heap link ≡ none
    → Agree
        (heap_insert_last heap list link num ack message n)
        (insert_last packets num ack message n)
unfolding heap_insert_last insert_last
heap_insert_last-Agree heap list packets link num ack message n h e =
    insert_packet-Agree heap list packets link (new_packet num ack message n) h e

delete_cells-Agree :
    (heap : Heap) (list : Queue) (cells : List (ℕ × Packet))
    → Chain heap list.head cells
    → ((address : ℕ) → last_address cells ≡ some address → list.current ≡ some address)
    → Agree (delete_node heap list list.head) (delete_first (packets_of cells))
unfolding packets_of delete_first last_address
delete_cells-Agree heap list [] c l = rw c tt
delete_cells-Agree heap list (cell ∷ cells) c l =
    rw (c.0, c.2.1)
      (record {
        cells = cells;
        chain = Chain-update heap c.2.0 cells cell.0 none c.2.2 c.1;
        same = refl;
        last = λ address s. l address (rw s refl);
      })

-- On a heap that holds a queue of packets, the pointer operations of `deleteFirst` fail where the
-- operation on lists does, and otherwise lead to a heap that holds its result.
pub heap_delete_first-Agree :
    (heap : Heap) (list : Queue) (packets : List Packet)
    → Holds heap list packets
    → Agree (heap_delete_first heap list) (delete_first packets)
unfolding heap_delete_first
heap_delete_first-Agree heap list packets h =
    subst (λ l. Agree (heap_delete_first heap list) (delete_first l)) h.same
      (delete_cells-Agree heap list h.cells h.chain h.last)

-- `isEmpty` on pointers answers as on the list of packets.
pub heap_is_empty-Holds :
    (heap : Heap) (list : Queue) (packets : List Packet)
    → Holds heap list packets
    → heap_is_empty list ≡ is_empty packets
unfolding is_empty packets_of
heap_is_empty-Holds heap list packets h =
    subst (λ l. heap_is_empty list ≡ is_empty l) h.same (empty_cells h.cells h.chain)
  where
    empty_cells :
        (cells : List (ℕ × Packet))
        → Chain heap list.head cells
        → heap_is_empty list ≡ is_empty (packets_of cells)
    empty_cells [] c = rw c refl
    empty_cells (cell ∷ cells) c = rw c.0 refl

-- On a heap that holds a queue of packets, the loop of `length` ends within more turns than there are packets, and
-- counts them.
pub heap_length-Holds :
    (fuel : ℕ) (heap : Heap) (list : Queue) (packets : List Packet)
    → Holds heap list packets
    → length packets < fuel
    → heap_length fuel heap list ≡ some (length packets)
unfolding packets_of heap_length_from
heap_length-Holds fuel heap list packets h b =
    subst (λ l. length l < fuel → heap_length fuel heap list ≡ some (length l)) h.same
      (count fuel list.head h.cells h.chain) b
  where
    count :
        (fuel : ℕ) (p : Option ℕ) (cells : List (ℕ × Packet))
        → Chain heap p cells
        → length (packets_of cells) < fuel
        → heap_length_from fuel heap p ≡ some (length (packets_of cells))
    count zero p cells c b = absurd (omega (arith, b))
    count (suc fuel) p [] c b = rw c refl
    count (suc fuel) p (cell ∷ cells) (at, others, (next, here, more)) b =
        rw (at, here, count fuel next cells more (omega (arith, b))) (ground arith)
