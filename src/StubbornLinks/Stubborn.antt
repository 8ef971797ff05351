-- ===== src/StubbornLinks/Stubborn.antt =====
-- What template_cpp/src/src/stubborn_links.c sends, and what may take a packet off its queue.
use native.Mathlib.Decide.{ℕ_discrete}
use cs451_2021_project.Base.{
  ℕ, zero, suc, ◌+◌, ◌≡◌, ◌≢◌, ◌≤◌, ◌<◌, ◌⊎◌, inl, inr, refl, Bool, true, false, List, [], ◌∷◌,
  some, arith, subst, sym, if◌then◌else◌, Elem, first,
}
use cs451_2021_project.Address.{SockAddr, get_index}
use cs451_2021_project.LinkedList.{Packet, insert_last}
use cs451_2021_project.Receive.{Datagram}
use cs451_2021_project.StubbornLinks.{
  Links, ack_type, sl_send, serve_queue, serve, serve_from, send_round, ack_first, handle_packet,
}
use cs451_2021_project.StubbornLinks.Invariant.{IsValid, Step, send, look_after, handle}

-- The datagram that a round sends for the packet.
abbrev pub datagram : Links → ℕ → Packet → Datagram
datagram s i packet = record { peer = s.addresses i; bytes = packet.message }

serve_keeps_first :
    (accepts : Bool) (s : Links) {packet : Packet} (i j : ℕ) (list : List Packet)
    → s.hashmap j ≡ list
    → first (s.hashmap i) ≡ some packet
    → packet.ack ≡ false
    → first ((serve_queue accepts s j list).hashmap i) ≡ some packet
unfolding serve_queue
serve_keeps_first accepts s i j [] l e n = e
serve_keeps_first accepts s i j (other ∷ list) l e n = ground arith

handle_keeps_first :
    (s : Links) {t : Links} {packet : Packet} (i : ℕ) (sender : SockAddr) (type seq_num : ℕ)
    → first (s.hashmap i) ≡ some packet
    → packet.ack ≡ false
    → handle_packet s sender type seq_num ≡ some t
    → (first (t.hashmap i) ≡ some packet)
      ⊎ ((first (t.hashmap i) ≡ some (record packet { ack = true }))
          × (type ≡ ack_type)
          × (get_index sender ≡ i)
          × (seq_num ≡ packet.num))
unfolding handle_packet ack_first
handle_keeps_first s i sender type seq_num e n q = ground arith

first_ne_nil : (list : List Packet) {packet : Packet} → first list ≡ some packet → list ≢ []
first_ne_nil list e z = ground arith

-- A step of any thread keeps an unacknowledged first packet of a queue where it is, or marks it because
-- a packet of type 'a' with its number came from an address of the queue's index.
pub Step-keeps_first :
    {s t : Links} {packet : Packet} (i : ℕ)
    → first (s.hashmap i) ≡ some packet
    → packet.ack ≡ false
    → Step s t
    → (first (t.hashmap i) ≡ some packet)
      ⊎ ((first (t.hashmap i) ≡ some (record packet { ack = true }))
          × ((sender : SockAddr) × (get_index sender ≡ i)
              × (handle_packet s sender ack_type packet.num ≡ some t)))
unfolding sl_send insert_last serve
Step-keeps_first {s} {t} {packet} i e n (send receiver message k num p q) = inl (ground arith)
Step-keeps_first {s} {t} {packet} i e n (look_after accepts j) =
    inl (serve_keeps_first accepts s i j (s.hashmap j) refl e n)
Step-keeps_first {s} {t} {packet} i e n (handle sender type seq_num q) =
    elim (handle_keeps_first s i sender type seq_num e n q) [
      | inl kept ↦ inl kept
      | inr (marked, is_ack, index, num) ↦ inr (marked, (sender, index, rw (← is_ack, ← num) q))
    ]

serve_first :
    (s : Links) {packet : Packet} (i : ℕ) (list : List Packet)
    → first list ≡ some packet
    → packet.ack ≡ false
    → Elem (datagram s i packet) (serve_queue true s i list).wire
unfolding serve_queue
serve_first s i [] e n = absurd (cc)
serve_first s i (other ∷ list) e n = ground arith

serve_keeps_rest :
    (accepts : Bool) (s : Links) (j : ℕ) (list : List Packet) (d : Datagram)
    → ((serve_queue accepts s j list).addresses ≡ s.addresses)
      × (Elem d s.wire → Elem d (serve_queue accepts s j list).wire)
unfolding serve_queue
serve_keeps_rest accepts s j [] d = (refl, λ m. m)
serve_keeps_rest accepts s j (other ∷ list) d = ground arith

serve_from_keeps_wire :
    (accepts : ℕ → Bool) (s : Links) (j left : ℕ) (d : Datagram)
    → Elem d s.wire
    → Elem d (serve_from accepts s j left).wire
unfolding serve_from serve
serve_from_keeps_wire accepts s j zero d m = m
serve_from_keeps_wire accepts s j (suc left) d m =
    serve_from_keeps_wire accepts (serve (accepts j) s j) (j + 1) left d
      ((serve_keeps_rest (accepts j) s j (s.hashmap j) d).1 m)

serve_from_sends :
    (accepts : ℕ → Bool) (s : Links) {packet : Packet} (i j left : ℕ)
    → j ≤ i
    → i < j + left
    → first (s.hashmap i) ≡ some packet
    → packet.ack ≡ false
    → ((k : ℕ) → accepts k ≡ true)
    → Elem (datagram s i packet) (serve_from accepts s j left).wire
unfolding serve_from serve
serve_from_sends accepts s i j zero lo hi e n ok = absurd (omega arith)
serve_from_sends accepts s {packet} i j (suc left) lo hi e n ok = elim (ℕ_discrete i j) [
  | yes here ↦
      serve_from_keeps_wire accepts (serve (accepts j) s j) (j + 1) left (datagram s i packet)
        (rw (ok j, ← here) (serve_first s i (s.hashmap i) e n))
  | no later ↦
      subst
        (λ a.
          Elem (record { peer = a i; bytes = packet.message })
            (serve_from accepts (serve (accepts j) s j) (j + 1) left).wire)
        (serve_keeps_rest (accepts j) s j (s.hashmap j) (datagram s i packet)).0
        (serve_from_sends accepts (serve (accepts j) s j) i (j + 1) left (omega arith) (omega arith)
          (serve_keeps_first (accepts j) s i j (s.hashmap j) refl e n) n ok)
]

-- In a valid state in which the sending loop runs, a round in which every `sendto` succeeds sends the
-- first packet of each queue, if it is not acknowledged, to the address of its queue.
pub send_round_sends :
    (accepts : ℕ → Bool) (s : Links) {packet : Packet} (i : ℕ)
    → IsValid s
    → s.send_forever ≡ true
    → ((k : ℕ) → accepts k ≡ true)
    → first (s.hashmap i) ≡ some packet
    → packet.ack ≡ false
    → Elem (datagram s i packet) (send_round accepts s).wire
unfolding send_round
send_round_sends accepts s {packet} i v on ok e n =
    subst
      (λ b.
        Elem (datagram s i packet)
          (if b then serve_from accepts s 0 (s.largest_index + 1) else s).wire)
      (sym on)
      (serve_from_sends accepts s i 0 (s.largest_index + 1) (omega arith)
        (omega (arith, v.in_range i (v.addressed i (λ z. first_ne_nil (s.hashmap i) e z)))) e n ok)
