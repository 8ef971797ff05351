-- ===== src/Receive/Rule.antt =====
-- A rule for `deliver_loop`, which the layers use for the loops of their deliver functions.
use cs451_2021_project.Base.{ℕ, zero, suc, ◌<◌, ◌≤◌, List, arith, length}
use cs451_2021_project.Receive.{
  Datagram, Received, returned, exited, waiting, fault, unfinished, Turn, again, leave,
  out_of_bounds, map_state, after_turn, after_deliver, deliver_loop,
}

-- A call on `n` datagrams ended; `P` holds of the state, and `Q` of what it returned, with fewer than
-- `n` datagrams left.
abbrev pub Ends : {S A : Type 0} → (S → Type 0) → (S → A → Type 0) → ℕ → Received S A → Type 0
Ends P Q n (returned s a rest) = Q s a × (length rest < n)
Ends P Q n (exited s rest) = P s
Ends P Q n (waiting s) = P s
Ends P Q n fault = Unit
Ends P Q n unfinished = ⊥

abbrev pub TurnEnds : {S B : Type 0} → (S → Type 0) → (S → B → Type 0) → Turn S B → Type 0
TurnEnds P R (again s) = P s
TurnEnds P R (leave s b) = R s b
TurnEnds P R out_of_bounds = Unit

module _ {S A : Type 0} (P : S → Type 0) (Q : S → A → Type 0) where
  pub Ends-mono : (m n : ℕ) (r : Received S A) → m ≤ n → Ends P Q m r → Ends P Q n r
  Ends-mono m n (returned s a rest) h e = (e.0, omega arith)
  Ends-mono m n (exited s rest) h e = e
  Ends-mono m n (waiting s) h e = e
  Ends-mono m n fault h e = e
  Ends-mono m n unfinished h e = e

  pub Ends-map_state :
      {L : Type 0} (P' : L → Type 0) (Q' : L → A → Type 0) (f : L → S) (n : ℕ) (r : Received L A)
      → ((l : L) → P' l → P (f l))
      → ((l : L) (a : A) → Q' l a → Q (f l) a)
      → Ends P' Q' n r
      → Ends P Q n (map_state f r)
  unfolding map_state
  Ends-map_state P' Q' f n (returned l a rest) p q e = (q l a e.0, e.1)
  Ends-map_state P' Q' f n (exited l rest) p q e = p l e
  Ends-map_state P' Q' f n (waiting l) p q e = p l e
  Ends-map_state P' Q' f n fault p q e = tt
  Ends-map_state P' Q' f n unfinished p q e = absurd e

module _ {S A B : Type 0} (P : S → Type 0) (Q : S → A → Type 0) (R : S → B → Type 0)
    (deliver : S → List Datagram → Received S A) (body : S → A → Turn S B)
    (deliver_ends : (s : S) (datagrams : List Datagram)
      → P s
      → Ends P Q (length datagrams) (deliver s datagrams))
    (body_ends : (s : S) (a : A) → Q s a → TurnEnds P R (body s a)) where
  after_turn-Ends :
      (loop : S → List Datagram → Received S B) (n : ℕ) (rest : List Datagram) (t : Turn S B)
      → ((s : S) → P s → Ends P R (length rest) (loop s rest))
      → length rest < n
      → TurnEnds P R t
      → Ends P R n (after_turn loop rest t)
  after_turn-Ends loop n rest (again s) ih h e =
      Ends-mono P R (length rest) n (loop s rest) (omega arith) (ih s e)
  after_turn-Ends loop n rest (leave s b) ih h e = (e, h)
  after_turn-Ends loop n rest out_of_bounds ih h e = tt

  after_deliver-Ends :
      (loop : S → List Datagram → Received S B) (n : ℕ) (r : Received S A)
      → ((s : S) (rest : List Datagram)
          → length rest < n
          → P s
          → Ends P R (length rest) (loop s rest))
      → Ends P Q n r
      → Ends P R n (after_deliver loop body r)
  after_deliver-Ends loop n (returned s a rest) ih e =
      after_turn-Ends loop n rest (body s a) (λ s' p. ih s' rest e.1 p) e.1 (body_ends s a e.0)
  after_deliver-Ends loop n (exited s rest) ih e = e
  after_deliver-Ends loop n (waiting s) ih e = e
  after_deliver-Ends loop n fault ih e = tt
  after_deliver-Ends loop n unfinished ih e = e

  pub deliver_loop-Ends :
      (fuel : ℕ) (s : S) (datagrams : List Datagram)
      → length datagrams < fuel
      → P s
      → Ends P R (length datagrams) (deliver_loop deliver body fuel s datagrams)
  unfolding deliver_loop
  deliver_loop-Ends zero s datagrams h p = absurd (omega arith)
  deliver_loop-Ends (suc fuel) s datagrams h p =
      after_deliver-Ends (λ s' rest. deliver_loop deliver body fuel s' rest) (length datagrams)
        (deliver s datagrams) (λ s' rest l p'. deliver_loop-Ends fuel s' rest (omega arith) p')
        (deliver_ends s datagrams p)
