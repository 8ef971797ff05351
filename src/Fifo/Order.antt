-- ===== src/Fifo/Order.antt =====
-- The order of the deliveries of template_cpp/src/src/fifo_broadcast_application.c, and what is left behind.
use cs451_2021_project.Base.{
  ℕ, suc, ◌+◌, ◌^◌, ◌≡◌, ◌≤◌, ◌<◌, refl, arith, Bool, true, false, List, [], length, if◌then◌else◌,
}
use cs451_2021_project.Receive.{
  Datagram, Received, returned, exited, waiting, fault, unfinished, again, leave, deliver_loop,
}
use cs451_2021_project.Receive.Rule.{Ends, TurnEnds, deliver_loop-Ends}
use cs451_2021_project.Urb.{Urb, Pam}
use cs451_2021_project.Urb.Deliver.{UrbDelivery, urb_deliver}
use cs451_2021_project.Urb.Memory.{SameMemory, urb_deliver-SameMemory}
use cs451_2021_project.Lcb.Deliver.{Loop, done, crashed, no_fuel}
use cs451_2021_project.Fifo.{
  Fifo, fifo_rows, after_rows, after_urb, fifo_deliver, fifo_turn, fifo_receiver,
}
use cs451_2021_project.Fifo.Rows.{
  count_of, InOrder, IsPassed, LoopPasses, Between, fifo_rows-passes,
}

with_urb-InOrder :
    (s : Fifo) (u : Urb) → SameMemory s.urb u → InOrder s → InOrder (record s { urb = u })
with_urb-InOrder s u m k = record {
  small = λ i. ground (arith, m.bytes i, k.small i);
  position = k.position;
  ordered = k.ordered;
}

-- Such a state in which the row waits for the layer below.
abbrev pub HasPassed : ℕ → Fifo → Type 0
HasPassed j s = InOrder s × IsPassed s j

after_urb-Ends :
    (s : Fifo) (n j : ℕ) (r : Received Urb UrbDelivery)
    → InOrder s
    → j ≤ s.n_process
    → Ends (SameMemory s.urb) (λ u _. SameMemory s.urb u) n r
    → Ends InOrder (λ t _. HasPassed j t) n (after_urb s r)
after_urb-Ends s n j (returned u d rest) k b (m, h) =
    finish (fifo_rows (s.n_process + 1) (record s { urb = u }) 0)
      (fifo_rows-passes (s.n_process + 1) (record s { urb = u }) 0 (with_urb-InOrder s u m k))
  where
    finish :
        (r : Loop Fifo)
        → LoopPasses (record s { urb = u }) (Between 0 (s.n_process + 1)) r
        → Ends InOrder (λ t _. HasPassed j t) n (after_rows d rest r)
    finish (done t) p = ((p.in_order, p.passed j (omega arith, omega (arith, b))), h)
    finish crashed p = tt
    finish no_fuel p = absurd p
after_urb-Ends s n j (exited u rest) k b m = with_urb-InOrder s u m k
after_urb-Ends s n j (waiting u) k b m = with_urb-InOrder s u m k
after_urb-Ends s n j fault k b m = tt
after_urb-Ends s n j unfinished k b m = m

-- Where the positions count the log, which is in FIFO order, and each row takes less than 2 ^ 32 bytes, an
-- iteration of `run_receiver` on any datagrams comes to an end within the fuel of the model. Unless it leaves an
-- array the same holds again: the logged messages of each process are in the order of their numbers, without a
-- gap. If it goes on to the next iteration, then in a row `j` up to `n_process`, whichever that is,
-- the next message is not there yet, or the row has no memory.
pub fifo_deliver-Ends :
    (fresh_acks : ℕ → Bool) (fresh_pams : ℕ → Pam) (s : Fifo) (datagrams : List Datagram) (j : ℕ)
    → InOrder s
    → j ≤ s.n_process
    → Ends InOrder
        (λ t _. HasPassed j t)
        (length datagrams)
        (fifo_deliver fresh_acks fresh_pams s datagrams)
unfolding fifo_deliver
fifo_deliver-Ends fresh_acks fresh_pams s datagrams j k b =
    after_urb-Ends s (length datagrams) j (urb_deliver fresh_acks fresh_pams s.urb datagrams) k b
      (urb_deliver-SameMemory fresh_acks fresh_pams s.urb datagrams)

fifo_turn-Ends :
    (s : Fifo) (d : UrbDelivery) → InOrder s → TurnEnds InOrder (λ t _. InOrder t) (fifo_turn s d)
fifo_turn-Ends s d k = choose s.receive_forever
  where
    choose :
        (more : Bool)
        → TurnEnds {S = Fifo} {B = Unit {0}} InOrder
            (λ t _. InOrder t)
            (if more then again s else leave s tt)
    choose true = k
    choose false = k

first_row :
    (n : ℕ) (r : Received Fifo UrbDelivery)
    → Ends InOrder (λ t _. HasPassed 0 t) n r
    → Ends InOrder (λ t _. InOrder t) n r
first_row n (returned s d rest) e = (e.0.0, e.1)
first_row n (exited s rest) e = e
first_row n (waiting s) e = e
first_row n fault e = tt
first_row n unfinished e = e

-- From an empty log and rows of less than 2 ^ 32 bytes, `run_receiver` on any datagrams comes to an end within
-- the fuel of the model, and unless it leaves an array, the log is in FIFO order.
pub fifo_receiver-Ends :
    (fresh_acks : ℕ → Bool) (fresh_pams : ℕ → Pam) (s : Fifo) (datagrams : List Datagram)
    → s.receive_forever ≡ true
    → s.log ≡ []
    → ((i : ℕ) → (s.urb.rows i).bytes < 2 ^ 32)
    → Ends InOrder
        (λ t _. InOrder t)
        (length datagrams)
        (fifo_receiver fresh_acks fresh_pams s datagrams)
unfolding fifo_receiver count_of
fifo_receiver-Ends fresh_acks fresh_pams s datagrams f e small = choose s.receive_forever f
  where
    choose :
        (more : Bool)
        → more ≡ true
        → Ends InOrder
            (λ t _. InOrder t)
            (length datagrams)
            (if more
              then deliver_loop
                  (fifo_deliver fresh_acks fresh_pams)
                  fifo_turn
                  (suc (length datagrams))
                  (record s { delivered = λ _. 0 })
                  datagrams
              else returned s tt datagrams)
    choose false g = absurd (cc)
    choose true g =
        deliver_loop-Ends InOrder (λ t _. InOrder t) (λ t _. InOrder t)
          (fifo_deliver fresh_acks fresh_pams) fifo_turn
          (λ t rest k.
            first_row (length rest) (fifo_deliver fresh_acks fresh_pams t rest)
              (fifo_deliver-Ends fresh_acks fresh_pams t rest 0 k (omega arith)))
          fifo_turn-Ends (suc (length datagrams)) (record s { delivered = λ _. 0 }) datagrams
          (omega arith) (record { small = small; position = λ i. rw e refl; ordered = rw e tt })
