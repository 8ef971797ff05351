-- ===== src/Network/Progress.antt =====
-- Processes that run template_cpp/src/src/stubborn_links.c are never stuck: whatever the network has done, it can
-- still let their messages through.
use native.Mathlib.Decide.{ℕ_discrete}
use cs451_2021_project.Base.{
  ℕ, ◌+◌, ◌≡◌, ◌≤◌, ◌<◌, Option, some, refl, ap, sym, ◌∙◌, subst, arith, true, false, Bool-cases,
  inl, inr, List, [], ◌∷◌, Elem, update, update_self, update_ne,
}
use cs451_2021_project.Address.{SockAddr, get_index}
use cs451_2021_project.LinkedList.{Packet}
use cs451_2021_project.StubbornLinks.{Links, serve, ack_first}
use cs451_2021_project.StubbornLinks.Exchange.{serve_sends, message_arrives, ack_is_not_empty}
use cs451_2021_project.Network.{
  Message, IsMessage, delivery_from, Net, put, deliver, absorb, Runs, AreHosts,
}
use cs451_2021_project.Network.Local.{ack_arrives}
use cs451_2021_project.Network.Queues.{acked}
use cs451_2021_project.Network.Promises.{Runs-IsSound, no_loss}
use cs451_2021_project.Network.Thread.{
  looked, Later, now, look_next, arrive, Later-Runs, reach_queue,
}
use cs451_2021_project.Network.Addressed.{Runs-IsAddressed}

serve_removes :
    (s : Links) (i : ℕ) (p : Packet) (list : List Packet)
    → s.hashmap i ≡ p ∷ list
    → p.ack ≡ true
    → (serve true s i).hashmap i ≡ list
unfolding serve
serve_removes s i p list e acked = ground (arith, e, acked)

serve-send_forever : (s : Links) (i : ℕ) → (serve true s i).send_forever ≡ s.send_forever
unfolding serve
serve-send_forever s i = ground arith

ack_first_marks :
    (num : ℕ) (p : Packet) (list : List Packet)
    → p.num ≡ num
    → p.ack ≡ false
    → ack_first num (p ∷ list) ≡ record p { ack = true } ∷ list
unfolding ack_first
ack_first_marks num p list same waits = ground arith

-- What a process has, of which another's new state has as much as before, stays.
same_in :
    {X : Type 0} (f : Links → X) (links : ℕ → Links) (b : ℕ) (t : Links) (a : ℕ)
    → f t ≡ f (links b)
    → f (update links b t a) ≡ f (links a)
same_in f links b t a e = elim (ℕ_discrete b a) [
  | no other ↦ ap f (update_ne links b a t other)
  | yes same ↦
      subst (λ x. f (update links b t x) ≡ f (links x)) same (ap f (update_self links b t) ∙ e)
]

module _ (count : ℕ) (address : ℕ → SockAddr) (a : ℕ) (from : Net) (place : Option ℕ) where
  -- The queue of `a` for `b`.
  abbrev pub queue : Net → ℕ → List Packet
  queue s b = (s.links a).hashmap (get_index (address b))

  abbrev Goes : Net → Option ℕ → Type 0
  Goes = Later count address a from place

  -- What may follow with this queue of `a` for `b`, while the sending thread of `a` runs.
  abbrev Leaves : Net → ℕ → List Packet → Type 0
  Leaves s b list =
      (t : Net) × (at : Option ℕ) × Goes t at
      × (t.sent ≡ s.sent)
      × (queue t b ≡ list)
      × ((t.links a).send_forever ≡ true)

  take_acked :
      (s : Net) (b : ℕ) (p : Packet) (list : List Packet)
      → Goes s (some (get_index (address b)))
      → (s.links a).send_forever ≡ true
      → get_index (address b) ≤ (s.links a).largest_index
      → queue s b ≡ p ∷ list
      → p.ack ≡ true
      → Leaves s b list
  take_acked s b p list l on h q acked =
      let i = get_index (address b) in
      let at = update_self s.links a (serve true (s.links a) i) in
      (
        looked count address s a i true,
        some (i + 1),
        look_next true l h,
        refl,
        ap (λ l. l.hashmap i) at ∙ serve_removes (s.links a) i p list q acked,
        ap (λ l. l.send_forever) at ∙ serve-send_forever (s.links a) i ∙ on,
      )

  -- The packet is sent, delivered and acknowledged.
  acknowledge :
      (s : Net) (b : ℕ) (p : Packet) (list : List Packet) (m : Message)
      → Goes s (some (get_index (address b)))
      → (s.links a).send_forever ≡ true
      → get_index (address b) ≤ (s.links a).largest_index
      → a < count
      → b < count
      → (s.links a).addresses (get_index (address b)) ≡ address b
      → queue s b ≡ p ∷ list
      → p.ack ≡ false
      → p.num ≡ m.num
      → p.message ≡ m.bytes
      → IsMessage m
      → Leaves s b (record p { ack = true } ∷ list)
  acknowledge s b p list m l on h ha hb to q waits same_num same_bytes is =
      let i = get_index (address b) in
      let looks : Links = serve true (s.links a) i in
      let s1 : Net = looked count address s a i true in
      let sends = serve_sends (s.links a) i q waits in
      let on_wire : Elem (record { peer = address b; bytes = m.bytes }) (s1.links a).wire =
        subst (λ l. Elem (record { peer = address b; bytes = m.bytes }) l.wire)
          (sym (update_self s.links a looks ∙ sends)) (inl (cc)) in
      let (reply, arrives, read) =
        message_arrives (s1.links b) (address a) m.bytes m.num is.0 is.1 is.2 in
      let replied : Links = record (s1.links b) {
        wire = record { peer = address a; bytes = reply } ∷ (s1.links b).wire;
      } in
      let s2 : Net = record s1 {
        links = update s1.links b replied;
        got = put s1.got b a (delivery_from (address a) m);
      } in
      let on_wire' : Elem (record { peer = address a; bytes = reply }) (s2.links b).wire =
        subst (λ l. Elem (record { peer = address a; bytes = reply }) l.wire)
          (sym (update_self s1.links b replied)) (inl refl) in
      let absorbed =
        ack_arrives (s2.links a) (address b) reply m.num read (ack_is_not_empty reply m.num read) in
      let s3 : Net = record s2 {
        links = update s2.links a (acked (s2.links a) (address b) m.num);
      } in
      let queue_2 : queue s2 b ≡ p ∷ list =
        same_in (λ l. l.hashmap i) s1.links b replied a refl
        ∙ same_in (λ l. l.hashmap i) s.links a looks a (ap (λ l. l.hashmap i) sends)
        ∙ q in
      let on_2 : (s2.links a).send_forever ≡ true =
        same_in (λ l. l.send_forever) s1.links b replied a refl
        ∙ same_in (λ l. l.send_forever) s.links a looks a (ap (λ l. l.send_forever) sends)
        ∙ on in
      let at = update_self s2.links a (acked (s2.links a) (address b) m.num) in
      (
        s3,
        some (i + 1),
        arrive
            (arrive (look_next true l h)
              (deliver a b m.bytes (delivery_from (address a) m) ha hb on_wire arrives) refl)
            (absorb b a reply hb ha on_wire' absorbed) refl,
        refl,
        ap (λ l. l.hashmap i) at
            ∙ update_self (s2.links a).hashmap i (ack_first m.num (queue s2 b))
            ∙ ap (ack_first m.num) queue_2
            ∙ ack_first_marks m.num p list same_num waits,
        ap (λ l. l.send_forever) at ∙ on_2,
      )

  module _ (hosts : AreHosts count address) (r : Runs count address from) (b : ℕ) (ha : a < count)
      (hb : b < count) where
    -- The loop over the queues reaches one that has a packet.
    in_round :
        {s : Net} {at : Option ℕ} {p : Packet} {list : List Packet}
        → Goes s at
        → queue s b ≡ p ∷ list
        → get_index (address b) ≤ (s.links a).largest_index
    in_round l q =
        let now = Later-Runs count address a from place ha r l in
        let ok = (Runs-IsSound count address hosts now).processes a ha in
        let i = get_index (address b) in
        ok.valid.in_range i (ok.valid.addressed i (λ e. absurd (cc)))

    reach_acked :
        (s : Net) (at : Option ℕ) (p : Packet) (list : List Packet)
        → Goes s at
        → (s.links a).send_forever ≡ true
        → queue s b ≡ p ∷ list
        → p.ack ≡ true
        → Leaves s b list
    reach_acked s at p list l on q acked =
        let i = get_index (address b) in
        let (t, l', k) = reach_queue count address a from place i s at l on (in_round l q) in
        let q' = k.hashmap ∙ q in
        let (u, at', l'', same, q'', on') =
          take_acked t b p list l' (k.send_forever ∙ on) (in_round l' q') q' acked in
        (u, at', l'', same ∙ k.sent, q'', on')

    reach_waiting :
        (s : Net) (at : Option ℕ) (p : Packet) (list : List Packet)
        → Goes s at
        → (s.links a).send_forever ≡ true
        → queue s b ≡ p ∷ list
        → p.ack ≡ false
        → Leaves s b (record p { ack = true } ∷ list)
    reach_waiting s at p list l on q waits =
        let i = get_index (address b) in
        let (t, l', k) = reach_queue count address a from place i s at l on (in_round l q) in
        let q' = k.hashmap ∙ q in
        let r' = Later-Runs count address a from place ha r l' in
        let sound = Runs-IsSound count address hosts r' in
        let ok = sound.processes a ha in
        let packet = ok.queued b hb p (subst (Elem p) (sym q') (inl refl)) in
        let is = sound.messages a b packet.message packet.was_sent in
        let to =
          Runs-IsAddressed count address hosts r' a b hb
            (ok.valid.addressed i (λ e. absurd (cc))) in
        let (u, at', l'', same, q'', on') =
          acknowledge t b p list packet.message l' (k.send_forever ∙ on) (in_round l' q') ha hb to
            q' waits packet.same_num packet.same_bytes is in
        (u, at', l'', same ∙ k.sent, q'', on')

    take_first :
        (s : Net) (at : Option ℕ) (p : Packet) (list : List Packet)
        → Goes s at
        → (s.links a).send_forever ≡ true
        → queue s b ≡ p ∷ list
        → Leaves s b list
    take_first s at p list l on q = elim (Bool-cases p.ack) [
      | inl acked ↦ reach_acked s at p list l on q acked
      | inr waits ↦
          let (t, at', l', same, q', on') = reach_waiting s at p list l on q waits in
          let (u, at'', l'', same', q'', on'') =
            reach_acked t at' (record p { ack = true }) list l' on' q' refl in
          (u, at'', l'', same' ∙ same, q'', on'')
    ]

    drain_queue :
        (list : List Packet) (s : Net) (at : Option ℕ)
        → Goes s at
        → (s.links a).send_forever ≡ true
        → queue s b ≡ list
        → Leaves s b []
    drain_queue [] s at l on q = (s, at, l, refl, q, on)
    drain_queue (p ∷ list) s at l on q =
        let (t, at', l', same, q', on') = take_first s at p list l on q in
        let (u, at'', l'', same', q'', on'') = drain_queue list t at' l' on' q' in
        (u, at'', l'', same' ∙ same, q'', on'')

-- Processes that have ports and queues of their own run the stubborn links, each message with a number that its sender has not
-- used for its receiver, over any network. From each state that they reach, whatever was lost, repeated or reordered before, in which
-- `send_forever` of `a` is true, and wherever in a round its sending thread then stands, there is a continuation by looks of this
-- thread, which it makes in the order of its rounds, and arrivals of datagrams, but no call of `sl_send`, behind which the queue of `a` for `b`
-- is empty, `b` has got every message that `a` sent it, and `send_forever` is still true.
pub can_drain :
    (count : ℕ) (address : ℕ → SockAddr)
    → AreHosts count address
    → {s : Net} → Runs count address s
    → (a b : ℕ) → a < count
    → b < count
    → (s.links a).send_forever ≡ true
    → (place : Option ℕ)
    → (t : Net) × (at : Option ℕ) × Later count address a s place t at
      × (t.sent ≡ s.sent)
      × ((t.links a).hashmap (get_index (address b)) ≡ [])
      × ((m : Message) → Elem m (s.sent a b) → Elem (delivery_from (address a) m) (t.got b a))
      × ((t.links a).send_forever ≡ true)
can_drain count address hosts {s} r a b ha hb on place =
    let (t, at, l, same, empty, still) =
      drain_queue count address a s place hosts r b ha hb (queue count address a s place s b) s
        place now on refl in
    (
      t,
      at,
      l,
      same,
      empty,
      λ m e.
          (no_loss count address hosts (Later-Runs count address a s place ha r l) a b ha hb m
              (subst (λ sent. Elem m (sent a b)) (sym same) e)).1
            empty,
      still,
    )
