-- ===== src/LinkedList/Heap.antt =====
-- The pointers of template_cpp/src/src/linked_list.c, and how they represent a list of packets.
use cs451_2021_project.Base.{
  ℕ, zero, suc, ◌+◌, ◌≡◌, ◌≢◌, refl, ap, sym, ◌∙◌, Bool, true, false, List, [], ◌∷◌, ◌++◌, Option,
  none, some, All, update, arith, subst,
}
use cs451_2021_project.LinkedList.{Packet, new_packet}

-- `struct Packet` with its `next`; `none` is NULL.
pub record Node : Type 0 where
  pub packet : Packet
  pub next : Option ℕ

-- `none` is memory that is not allocated.
abbrev pub Heap : Type 0
Heap = ℕ → Option Node

-- `struct List`
pub record Queue : Type 0 where
  pub head : Option ℕ
  pub current : Option ℕ

abbrev pub init_list : Queue
init_list = record { head = none; current = none }

-- `list->current->next = link; list->current = link`
abbrev pub set_next : Heap → Queue → ℕ → ℕ → Option Node → Option (Heap × Queue)
set_next heap list link current none = none
set_next heap list link current (some node) = some (
  update heap current (some (record node { next = some link })),
  record list { current = some link },
)

abbrev pub link_behind : Heap → Queue → ℕ → Option ℕ → Option (Heap × Queue)
link_behind heap list link none = none
link_behind heap list link (some current) = set_next heap list link current (heap current)

abbrev pub put_link : Heap → Queue → ℕ → Option ℕ → Option (Heap × Queue)
put_link heap list link none = some (heap, record { head = some link; current = some link })
put_link heap list link (some head) = link_behind heap list link list.current

abbrev pub insert_packet : Heap → Queue → ℕ → Option Packet → Option (Heap × Queue)
insert_packet heap list link none = none
insert_packet heap list link (some packet) =
    put_link (update heap link (some (record { packet = packet; next = none }))) list link list.head

-- `malloc` returns `link`. `none` is an access out of bounds, or to memory that is not allocated.
unfoldable pub heap_insert_last : Heap → Queue → ℕ → ℕ → Bool → List ℕ → ℕ → Option (Heap × Queue)
heap_insert_last heap list link num ack message n =
    insert_packet heap list link (new_packet num ack message n)

abbrev pub free_node : Heap → Queue → ℕ → Option Node → Option (Heap × Queue)
free_node heap list head none = none
free_node heap list head (some node) =
    some (update heap head none, record list { head = node.next })

abbrev pub delete_node : Heap → Queue → Option ℕ → Option (Heap × Queue)
delete_node heap list none = none
delete_node heap list (some head) = free_node heap list head (heap head)

unfoldable pub heap_delete_first : Heap → Queue → Option (Heap × Queue)
heap_delete_first heap list = delete_node heap list list.head

abbrev pub heap_is_empty : Queue → Bool
heap_is_empty list = elim list.head [ none ↦ true | some head ↦ false ]

abbrev count_link : (Option ℕ → Option ℕ) → Option Node → Option ℕ
count_link more none = none
count_link more (some node) = elim (more node.next) [
  | none ↦ none
  | some length ↦ some (length + 1)
]

-- The loop of `length` from `current` on. `none`: it leaves the allocated memory, or does not end within the fuel.
unfoldable pub heap_length_from : ℕ → Heap → Option ℕ → Option ℕ
heap_length_from zero heap current = none
heap_length_from (suc fuel) heap none = some 0
heap_length_from (suc fuel) heap (some current) =
    count_link (λ next. heap_length_from fuel heap next) (heap current)

abbrev pub heap_length : ℕ → Heap → Queue → Option ℕ
heap_length fuel heap list = heap_length_from fuel heap list.head

-- From a pointer, the nodes at these addresses, with these packets, up to NULL; no address comes twice.
abbrev pub Chain : Heap → Option ℕ → List (ℕ × Packet) → Type 0
Chain heap p [] = p ≡ none
Chain heap p (cell ∷ cells) =
    (p ≡ some cell.0)
    × All (λ other. other.0 ≢ cell.0) cells
    × ((next : Option ℕ) × (heap cell.0 ≡ some (record { packet = cell.1; next = next }))
        × Chain heap next cells)

unfoldable pub packets_of : List (ℕ × Packet) → List Packet
packets_of [] = []
packets_of (cell ∷ cells) = cell.1 ∷ packets_of cells

unfoldable pub last_address : List (ℕ × Packet) → Option ℕ
last_address [] = none
last_address (cell ∷ cells) = elim (last_address cells) [
  | none ↦ some cell.0
  | some address ↦ some address
]

-- The queue holds these packets: a chain leads to them, and `current` points to the last one if there
-- is one.
pub record Holds (heap : Heap) (list : Queue) (packets : List Packet) : Type 0 where
  pub cells : List (ℕ × Packet)
  pub chain : Chain heap list.head cells
  pub same : packets_of cells ≡ packets
  pub last : (address : ℕ) → last_address cells ≡ some address → list.current ≡ some address

-- The results of an operation on pointers and of the one on lists.
abbrev pub Agree : Option (Heap × Queue) → Option (List Packet) → Type 0
Agree none none = Unit
Agree none (some packets) = ⊥
Agree (some (heap, list)) none = ⊥
Agree (some (heap, list)) (some packets) = Holds heap list packets

-- A write elsewhere keeps a chain.
pub Chain-update :
    (heap : Heap) (p : Option ℕ) (cells : List (ℕ × Packet)) (address : ℕ) (value : Option Node)
    → Chain heap p cells
    → All (λ other. other.0 ≢ address) cells
    → Chain (update heap address value) p cells
Chain-update heap p [] address value c a = c
Chain-update heap p (cell ∷ cells) address value c a = (
  c.0,
  c.1,
  (c.2.0, ground (arith, c.2.1, a.0), Chain-update heap c.2.0 cells address value c.2.2 a.1),
)

-- A chain does not reach memory that is not allocated.
pub Chain-unallocated :
    (heap : Heap) (p : Option ℕ) (cells : List (ℕ × Packet)) (address : ℕ)
    → heap address ≡ none
    → Chain heap p cells
    → All (λ other. other.0 ≢ address) cells
Chain-unallocated heap p [] address e c = tt
Chain-unallocated heap p (cell ∷ cells) address e c =
    (λ s. ground (arith, c.2.1), Chain-unallocated heap c.2.0 cells address e c.2.2)

pub last_address-longer :
    (cell cell' : ℕ × Packet) (cells : List (ℕ × Packet))
    → last_address (cell ∷ cell' ∷ cells) ≡ last_address (cell' ∷ cells)
unfolding last_address
last_address-longer cell cell' cells = ground arith

All-last_address :
    (P : ℕ → Type 0) (cells : List (ℕ × Packet)) (address : ℕ)
    → All (λ other. P other.0) cells
    → last_address cells ≡ some address
    → P address
unfolding last_address
All-last_address P [] address a e = absurd (cc)
All-last_address P (cell ∷ []) address a e = subst P (some_injective e) a.0
  where
    some_injective : some cell.0 ≡ some address → cell.0 ≡ address
    some_injective e = cc
All-last_address P (cell ∷ cell' ∷ cells) address a e =
    All-last_address P (cell' ∷ cells) address a.1 (sym (last_address-longer cell cell' cells) ∙ e)

All-behind :
    (P : ℕ × Packet → Type 0) (cells : List (ℕ × Packet)) (cell : ℕ × Packet)
    → All P cells
    → P cell
    → All P (cells ++ cell ∷ [])
All-behind P [] cell a p = (p, tt)
All-behind P (c ∷ cells) cell a p = (a.0, All-behind P cells cell a.1 p)

-- The write of `next` in the last node links one more node to the chain.
pub Chain-link_behind :
    (heap : Heap) (p : Option ℕ) (cells : List (ℕ × Packet)) (link : ℕ) (packet : Packet) (last : ℕ)
    {node : Node}
    → Chain heap p cells
    → last_address cells ≡ some last
    → All (λ other. other.0 ≢ link) cells
    → heap link ≡ some (record { packet = packet; next = none })
    → heap last ≡ some node
    → Chain
        (update heap last (some (record node { next = some link })))
        p
        (cells ++ (link, packet) ∷ [])
unfolding last_address
Chain-link_behind heap p [] link packet last c l a e n = absurd (cc)
Chain-link_behind heap p (cell ∷ []) link packet last {node} c l a e n = (
  c.0,
  (λ s. a.0 (sym s), tt),
  (some link, ground (arith, c.2.1), (refl, tt, (none, ground (arith, a.0), refl))),
)
Chain-link_behind heap p (cell ∷ cell' ∷ cells) link packet last {node} c l a e n =
    let l' = sym (last_address-longer cell cell' cells) ∙ l in
    let apart = All-last_address (λ address. address ≢ cell.0) (cell' ∷ cells) last c.1 l' in
    (
      c.0,
      All-behind (λ other. other.0 ≢ cell.0) (cell' ∷ cells) (link, packet) c.1 (λ s. a.0 (sym s)),
      (
        c.2.0,
        ground (arith, c.2.1, apart),
        Chain-link_behind heap c.2.0 (cell' ∷ cells) link packet last {node = node} c.2.2 l' a.1 e
            n,
      ),
    )

pub packets_of-behind :
    (cells : List (ℕ × Packet)) (cell : ℕ × Packet)
    → packets_of (cells ++ cell ∷ []) ≡ packets_of cells ++ cell.1 ∷ []
unfolding packets_of
packets_of-behind [] cell = refl
packets_of-behind (c ∷ cells) cell = ap (λ l. c.1 ∷ l) (packets_of-behind cells cell)

pub last_address-behind :
    (cells : List (ℕ × Packet)) (cell : ℕ × Packet)
    → last_address (cells ++ cell ∷ []) ≡ some cell.0
unfolding last_address
last_address-behind [] cell = refl
last_address-behind (c ∷ cells) cell = rw (last_address-behind cells cell) refl
