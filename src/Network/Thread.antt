-- ===== src/Network/Thread.antt =====
-- The thread of `sl_send_forever` of template_cpp/src/src/stubborn_links.c, look by look: a round begins while
-- `send_forever` holds, and looks at the queues from 0 to `largest_index`, one after the other. Between its looks
-- datagrams arrive at any process.
use cs451_2021_project.Base.{
  ℕ, zero, suc, ◌+◌, ◌-◌, ◌≡◌, ◌≢◌, ◌≤◌, ◌<◌, ◌⊎◌, refl, ap, ◌∙◌, subst, arith, Bool, true, false,
  Option, some, none, inl, inr, update, update_self, Bool-cases, leb,
}
use cs451_2021_project.Address.{SockAddr}
use cs451_2021_project.StubbornLinks.{Links, serve}
use cs451_2021_project.Network.{Net, Turn, send, look, deliver, absorb, Runs, turn}

serve_keeps :
    (s : Links) (i q : ℕ)
    → i ≢ q
    → ((serve true s i).hashmap q ≡ s.hashmap q)
      × ((serve true s i).send_forever ≡ s.send_forever)
      × ((serve true s i).largest_index ≡ s.largest_index)
unfolding serve
serve_keeps s i q other = ground arith

le_cases : (i q : ℕ) → (i ≤ q) ⊎ (q < i)
le_cases i q = elim (Bool-cases (leb i q)) [
  | inl h ↦ inl (ground (arith, h))
  | inr h ↦ inr (ground (arith, h))
]

module _ (count : ℕ) (address : ℕ → SockAddr) where
  -- A datagram arrives.
  abbrev pub is_arrival : {s t : Net} → Turn count address s t → Bool
  is_arrival (send a b buffer n num ha hb ok fresh e) = false
  is_arrival (look a i accepts ha) = false
  is_arrival (deliver a b bytes d ha hb w e) = true
  is_arrival (absorb a b bytes ha hb w e) = true

  -- The processes behind a look of `a`, with success of `sendto`, at queue `i`.
  abbrev pub looked : Net → ℕ → ℕ → Bool → Net
  looked s a i accepts = record s { links = update s.links a (serve accepts (s.links a) i) }

  -- What may follow from a state in which the sending thread of `a` is between two rounds (`none`), or about to compare `i`
  -- with `largest_index` (`some i`).
  module _ (a : ℕ) (from : Net) (place : Option ℕ) where
    pub data Later : Net → Option ℕ → Type 0 where
      now : Later from place
      begin : {s : Net} → Later s none → (s.links a).send_forever ≡ true → Later s (some 0)
      look_next :
          (accepts : Bool) {s : Net} {i : ℕ}
          → Later s (some i)
          → i ≤ (s.links a).largest_index
          → Later (looked s a i accepts) (some (i + 1))
      finish : {s : Net} {i : ℕ} → Later s (some i) → (s.links a).largest_index < i → Later s none
      arrive :
          {s t : Net} {at : Option ℕ}
          → Later s at
          → (st : Turn count address s t) → is_arrival st ≡ true
          → Later t at

    pub Later-Runs :
        {s : Net} {at : Option ℕ}
        → a < count
        → Runs count address from
        → Later s at
        → Runs count address s
    Later-Runs ha r now = r
    Later-Runs ha r (begin l on) = Later-Runs ha r l
    Later-Runs ha r (look_next accepts {s} {i} l h) = turn (Later-Runs ha r l) (look a i accepts ha)
    Later-Runs ha r (finish l h) = Later-Runs ha r l
    Later-Runs ha r (arrive l st e) = turn (Later-Runs ha r l) st

    -- What looks at other queues leave.
    pub record Same (q : ℕ) (s t : Net) : Type 0 where
      pub sent : t.sent ≡ s.sent
      pub hashmap : (t.links a).hashmap q ≡ (s.links a).hashmap q
      pub send_forever : (t.links a).send_forever ≡ (s.links a).send_forever
      pub largest_index : (t.links a).largest_index ≡ (s.links a).largest_index

    Same-trans : {q : ℕ} {s t u : Net} → Same q s t → Same q t u → Same q s u
    Same-trans k l = record {
      sent = l.sent ∙ k.sent;
      hashmap = l.hashmap ∙ k.hashmap;
      send_forever = l.send_forever ∙ k.send_forever;
      largest_index = l.largest_index ∙ k.largest_index;
    }

    Same-refl : (q : ℕ) (s : Net) → Same q s s
    Same-refl q s = record {
      sent = refl;
      hashmap = refl;
      send_forever = refl;
      largest_index = refl;
    }

    looked-Same : (s : Net) (i q : ℕ) → i ≢ q → Same q s (looked s a i true)
    looked-Same s i q other =
        let at = update_self s.links a (serve true (s.links a) i) in
        let (queue, on, largest) = serve_keeps (s.links a) i q other in
        record {
          sent = refl;
          hashmap = ap (λ l. l.hashmap q) at ∙ queue;
          send_forever = ap (λ l. l.send_forever) at ∙ on;
          largest_index = ap (λ l. l.largest_index) at ∙ largest;
        }

    -- The next `n` looks of a round, none of which is at the queue `q`.
    walk :
        (q n : ℕ) (s : Net) (i : ℕ)
        → Later s (some i)
        → n ≤ ((s.links a).largest_index + 1) - i
        → (q < i) ⊎ (i + n ≤ q)
        → (t : Net) × Later t (some (i + n)) × Same q s t
    walk q zero s i l h o = (s, subst (λ k. Later s (some k)) (omega arith) l, Same-refl q s)
    walk q (suc n) s i l h o =
        let (t, l', k) = walk q n s i l (omega arith) (nearer o) in
        let other : i + n ≢ q = apart o in
        (
          looked t a (i + n) true,
          subst (λ k. Later (looked t a (i + n) true) (some k)) {x = i + n + 1} {y = i + suc n}
              (omega arith) (look_next true l' (omega (arith, h, k.largest_index))),
          Same-trans k (looked-Same t (i + n) q other),
        )
      where
        nearer : (q < i) ⊎ (i + suc n ≤ q) → (q < i) ⊎ (i + n ≤ q)
        nearer (inl before) = inl before
        nearer (inr behind) = inr (omega arith)

        apart : (q < i) ⊎ (i + suc n ≤ q) → i + n ≢ q
        apart (inl before) = λ e. omega arith
        apart (inr behind) = λ e. omega arith

    -- Wherever the thread stands, it gets to the queue.
    begin_to :
        (q : ℕ) (s : Net)
        → Later s none
        → (s.links a).send_forever ≡ true
        → q ≤ (s.links a).largest_index
        → (t : Net) × Later t (some q) × Same q s t
    begin_to q s l on h =
        let (t, l', k) = walk q q s 0 (begin l on) (omega arith) (inr (omega arith)) in
        (t, subst (λ j. Later t (some j)) {x = 0 + q} {y = q} (omega arith) l', k)

    pub reach_queue :
        (q : ℕ) (s : Net) (at : Option ℕ)
        → Later s at
        → (s.links a).send_forever ≡ true
        → q ≤ (s.links a).largest_index
        → (t : Net) × Later t (some q) × Same q s t
    reach_queue q s none l on h = begin_to q s l on h
    reach_queue q s (some i) l on h = elim (le_cases i q) [
      | inl ahead ↦
          let (t, l', k) = walk q (q - i) s i l (omega arith) (inr (omega arith)) in
          (t, subst (λ j. Later t (some j)) {x = i + (q - i)} {y = q} (omega arith) l', k)
      | inr passed ↦
          let n = ((s.links a).largest_index + 1) - i in
          let (t, l', k) = walk q n s i l (omega arith) (inl passed) in
          let (u, l'', k') =
            begin_to q t (finish l' (omega (arith, k.largest_index))) (k.send_forever ∙ on)
              (omega (arith, k.largest_index)) in
          (u, l'', Same-trans k k')
    ]
