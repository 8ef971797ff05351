-- ===== src/Network/Local.antt =====
-- What the operations of template_cpp/src/src/stubborn_links.c do to the queues of one process and to what it
-- has given to sendto.
use cs451_2021_project.Base.{
  ℕ, ◌≡◌, ◌≢◌, ◌⊎◌, inl, inr, refl, ap, sym, arith, Bool, true, false, ◌&&◌, not, List, [], ◌∷◌,
  ◌++◌, some, take, Elem, update, ◌==◌, if◌then◌else◌, Bool-cases,
}
use cs451_2021_project.Address.{SockAddr, get_index}
use cs451_2021_project.LinkedList.{Packet, insert_last}
use cs451_2021_project.Receive.{waiting}
use cs451_2021_project.StubbornLinks.{
  Links, ack_type, remember_address, sl_send, serve, header, fill_buffer, received_size, ack_first,
  handle_packet, sl_deliver,
}

abbrev pub new_packet : List ℕ → ℕ → ℕ → Packet
new_packet buffer n num = record { num = num; ack = false; message = take n buffer; n = n }

-- A packet goes behind its queue, and nothing on the wire.
pub sl_send_lem :
    (s : Links) (receiver : SockAddr) (buffer : List ℕ) (n num : ℕ) {t : Links}
    → sl_send s receiver buffer n num ≡ some t
    → (t.hashmap
        ≡ update s.hashmap
            (get_index receiver)
            (s.hashmap (get_index receiver) ++ new_packet buffer n num ∷ []))
      × (t.wire ≡ s.wire)
unfolding sl_send insert_last remember_address
sl_send_lem s receiver buffer n num e = (ground arith, ground arith)

-- What a look at a queue does: nothing to queues and wire; take an acknowledged packet off; or send the first.
pub data Looked (s : Links) (i : ℕ) (t : Links) : Type 0 where
  idle : t.hashmap ≡ s.hashmap → t.wire ≡ s.wire → Looked s i t
  removed :
      (p : Packet) (list : List Packet)
      → s.hashmap i ≡ p ∷ list
      → p.ack ≡ true
      → t.hashmap ≡ update s.hashmap i list
      → t.wire ≡ s.wire
      → Looked s i t
  repeated :
      (p : Packet) (list : List Packet)
      → s.hashmap i ≡ p ∷ list
      → t.hashmap ≡ s.hashmap
      → t.wire ≡ record { peer = s.addresses i; bytes = p.message } ∷ s.wire
      → Looked s i t

serve_cases :
    (accepts : Bool) (s : Links) (i : ℕ) (list : List Packet)
    → s.hashmap i ≡ list
    → Looked s i (serve accepts s i)
unfolding serve
serve_cases accepts s i [] e = idle (ground (arith, e)) (ground (arith, e))
serve_cases accepts s i (p ∷ list) e = elim (Bool-cases p.ack) [
  | inl acked ↦ removed p list e acked (ground (arith, e)) (ground (arith, e))
  | inr waits ↦ elim (Bool-cases accepts) [
    | inl sends ↦ repeated p list e (ground (arith, e)) (ground (arith, e))
    | inr fails ↦ idle (ground (arith, e)) (ground (arith, e))
  ]
]

pub serve-Looked : (accepts : Bool) (s : Links) (i : ℕ) → Looked s i (serve accepts s i)
serve-Looked accepts s i = serve_cases accepts s i (s.hashmap i) refl

-- An acknowledgement lets `sl_deliver` wait on.
pub ack_arrives :
    (s : Links) (sender : SockAddr) (bytes : List ℕ) (num : ℕ)
    → header (fill_buffer bytes) ≡ some (ack_type, num)
    → received_size bytes ≢ 0
    → sl_deliver s (record { peer = sender; bytes = bytes } ∷ [])
      ≡ waiting (record s {
        hashmap =
            update s.hashmap (get_index sender) (ack_first num (s.hashmap (get_index sender)));
      })
unfolding sl_deliver handle_packet
ack_arrives s sender bytes num h n = ground arith

-- The packet is one of the list, or one of these with the number, marked.
abbrev pub IsMarked : ℕ → Packet → List Packet → Type 0
IsMarked num p list = (q : Packet) × Elem q list × (q.num ≡ num) × (p ≡ record q { ack = true })

abbrev mark_if : Bool → Packet → List Packet → List Packet
mark_if b q list = if b then record q { ack = true } ∷ list else q ∷ list

mark_if-Elem :
    (num : ℕ) (b : Bool) (q : Packet) (list : List Packet) (p : Packet)
    → (b ≡ true → q.num ≡ num)
    → Elem p (mark_if b q list)
    → Elem p (q ∷ list) ⊎ IsMarked num p (q ∷ list)
mark_if-Elem num false q list p h e = inl e
mark_if-Elem num true q list p h (inl same) = inr (q, inl refl, h refl, same)
mark_if-Elem num true q list p h (inr later) = inl (inr later)

pub ack_first-Elem :
    (num : ℕ) (list : List Packet) (p : Packet)
    → Elem p (ack_first num list)
    → Elem p list ⊎ IsMarked num p list
unfolding ack_first
ack_first-Elem num [] p e = absurd e
ack_first-Elem num (q ∷ list) p e =
    mark_if-Elem num ((q.num == num) && not q.ack) q list p (λ h. ground arith) e

mark_if-keeps :
    (b : Bool) (q : Packet) (list : List Packet) (p : Packet)
    → Elem p (q ∷ list)
    → (r : Packet) × Elem r (mark_if b q list) × (r.num ≡ p.num) × (r.message ≡ p.message)
mark_if-keeps false q list p e = (p, e, refl, refl)
mark_if-keeps true q list p (inl same) =
    (record q { ack = true }, inl refl, ap (λ x. x.num) (sym same), ap (λ x. x.message) (sym same))
mark_if-keeps true q list p (inr later) = (p, inr later, refl, refl)

-- Each packet stays, marked or not.
pub ack_first-keeps :
    (num : ℕ) (list : List Packet) (p : Packet)
    → Elem p list
    → (q : Packet) × Elem q (ack_first num list) × (q.num ≡ p.num) × (q.message ≡ p.message)
unfolding ack_first
ack_first-keeps num [] p e = absurd e
ack_first-keeps num (q ∷ list) p e = mark_if-keeps ((q.num == num) && not q.ack) q list p e

pub Elem-behind :
    (list : List Packet) (p q : Packet) → Elem p (list ++ q ∷ []) → Elem p list ⊎ (p ≡ q)
Elem-behind [] p q (inl e) = inr e
Elem-behind [] p q (inr e) = absurd e
Elem-behind (r ∷ list) p q (inl e) = inl (inl e)
Elem-behind (r ∷ list) p q (inr e) = elim (Elem-behind list p q e) [
  | inl there ↦ inl (inr there)
  | inr last ↦ inr last
]

pub Elem-before : (list : List Packet) (p q : Packet) → Elem p list → Elem p (list ++ q ∷ [])
Elem-before [] p q e = absurd e
Elem-before (r ∷ list) p q (inl e) = inl e
Elem-before (r ∷ list) p q (inr e) = inr (Elem-before list p q e)

pub Elem-last : (list : List Packet) (q : Packet) → Elem q (list ++ q ∷ [])
Elem-last [] q = inl refl
Elem-last (r ∷ list) q = inr (Elem-last list q)
