-- ===== src/Fifo/Log.antt =====
-- The log of `run_receiver` of template_cpp/src/src/fifo_broadcast_application.c only grows.
use cs451_2021_project.Base.{
  Bool, ℕ, zero, suc, ◌+◌, ◌≡◌, refl, ap, sym, ◌∙◌, List, [], ◌∷◌, ◌++◌, append_assoc, ◌==◌,
  Bool-cases, inl, inr,
}
use cs451_2021_project.Receive.{Datagram, Received, returned, exited, waiting, fault, unfinished}
use cs451_2021_project.Urb.{Urb, Pam, accessible}
use cs451_2021_project.Urb.Deliver.{UrbDelivery, urb_deliver}
use cs451_2021_project.Lcb.Deliver.{Loop, done, crashed, no_fuel}
use cs451_2021_project.Fifo.{
  Fifo, FifoEntry, next_pam, deliver_next, fifo_row, fifo_visit, then_fifo, fifo_rows, after_rows,
  after_urb, fifo_deliver,
}

-- Entries before the log, the latest of which comes first.
abbrev pub Extends : List FifoEntry → List FifoEntry → Type 0
Extends log log' = (new : List FifoEntry) × (log' ≡ new ++ log)

Extends-trans : (a b c : List FifoEntry) → Extends a b → Extends b c → Extends a c
Extends-trans a b c (new, e) (new', e') =
    (new' ++ new, e' ∙ ap (λ l. new' ++ l) e ∙ sym (append_assoc new' new a))

abbrev LoopExtends : Fifo → Loop Fifo → Type 0
LoopExtends s (done t) = Extends s.log t.log
LoopExtends s crashed = Unit
LoopExtends s no_fuel = Unit

LoopExtends-behind :
    (s u : Fifo) (r : Loop Fifo) → Extends s.log u.log → LoopExtends u r → LoopExtends s r
LoopExtends-behind s u (done t) e e' = Extends-trans s.log u.log t.log e e'
LoopExtends-behind s u crashed e e' = tt
LoopExtends-behind s u no_fuel e e' = tt

fifo_row-Extends : (fuel : ℕ) (s : Fifo) (i : ℕ) → LoopExtends s (fifo_row fuel s i)
unfolding fifo_row deliver_next
fifo_row-Extends zero s i = tt
fifo_row-Extends (suc fuel) s i = elim (Bool-cases (accessible (s.urb.rows i) (s.delivered i))) [
  | inr outside ↦ rw outside tt
  | inl inside ↦ elim (Bool-cases (next_pam s i).delivered) [
    | inl more ↦
        rw (inside, more)
          (LoopExtends-behind s (deliver_next s i) (fifo_row fuel (deliver_next s i) i)
            (_ ∷ [], refl) (fifo_row-Extends fuel (deliver_next s i) i))
    | inr stop ↦ rw (inside, stop) ([], refl)
  ]
]

fifo_visit-Extends : (s : Fifo) (i : ℕ) → LoopExtends s (fifo_visit s i)
unfolding fifo_visit
fifo_visit-Extends s i = elim (Bool-cases ((s.urb.rows i).bytes == 0)) [
  | inl empty ↦ rw empty ([], refl)
  | inr full ↦ rw full (fifo_row-Extends (suc (s.urb.rows i).bytes) s i)
]

then_fifo-Extends :
    (s : Fifo) (more : Fifo → Loop Fifo) (r : Loop Fifo)
    → ((t : Fifo) → LoopExtends t (more t))
    → LoopExtends s r
    → LoopExtends s (then_fifo more r)
then_fifo-Extends s more (done t) f e = LoopExtends-behind s t (more t) e (f t)
then_fifo-Extends s more crashed f e = tt
then_fifo-Extends s more no_fuel f e = tt

fifo_rows-Extends : (left : ℕ) (s : Fifo) (i : ℕ) → LoopExtends s (fifo_rows left s i)
unfolding fifo_rows
fifo_rows-Extends zero s i = ([], refl)
fifo_rows-Extends (suc left) s i =
    then_fifo-Extends s (λ t. fifo_rows left t (i + 1)) (fifo_visit s i)
      (λ t. fifo_rows-Extends left t (i + 1)) (fifo_visit-Extends s i)

after_rows-Extends :
    (s : Fifo) (d d' : UrbDelivery) (rest rest' : List Datagram) (r : Loop Fifo) {t : Fifo}
    → LoopExtends s r
    → after_rows d rest r ≡ returned t d' rest'
    → Extends s.log t.log
after_rows-Extends s d d' rest rest' (done u) {t} (new, e) h =
    (new, ap (λ x. x.log) {x = t} {y = u} (cc) ∙ e)
after_rows-Extends s d d' rest rest' crashed e h = absurd (cc)
after_rows-Extends s d d' rest rest' no_fuel e h = absurd (cc)

after_urb-Extends :
    (s : Fifo) (d : UrbDelivery) (rest : List Datagram) (r : Received Urb UrbDelivery) {t : Fifo}
    → after_urb s r ≡ returned t d rest
    → Extends s.log t.log
after_urb-Extends s d rest (returned u d' rest') h =
    after_rows-Extends (record s { urb = u }) d' d rest' rest
      (fifo_rows (s.n_process + 1) (record s { urb = u }) 0)
      (fifo_rows-Extends (s.n_process + 1) (record s { urb = u }) 0) h
after_urb-Extends s d rest (exited u rest') h = absurd (cc)
after_urb-Extends s d rest (waiting u) h = absurd (cc)
after_urb-Extends s d rest fault h = absurd (cc)
after_urb-Extends s d rest unfinished h = absurd (cc)

pub fifo_deliver-Extends :
    (fresh_acks : ℕ → Bool) (fresh_pams : ℕ → Pam) (s : Fifo) (datagrams rest : List Datagram)
    (d : UrbDelivery) {t : Fifo}
    → fifo_deliver fresh_acks fresh_pams s datagrams ≡ returned t d rest
    → Extends s.log t.log
unfolding fifo_deliver
fifo_deliver-Extends fresh_acks fresh_pams s datagrams rest d h =
    after_urb-Extends s d rest (urb_deliver fresh_acks fresh_pams s.urb datagrams) h
