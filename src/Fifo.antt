-- ===== src/Fifo.antt =====
-- The receiving thread of template_cpp/src/src/fifo_broadcast_application.c: the messages of each process in the
-- order of their numbers.
pub mod Rows
pub mod Order
pub mod Log
pub mod Application
pub mod Record
pub mod Sender
pub mod Whole
mod Tests
use cs451_2021_project.Base.{
  ℕ, zero, suc, ◌+◌, Bool, true, false, List, [], ◌∷◌, Option, none, some, length, update, ◌==◌,
  if◌then◌else◌,
}
use cs451_2021_project.Address.{u32}
use cs451_2021_project.Receive.{
  Datagram, Received, returned, exited, waiting, fault, unfinished, Turn, again, leave,
  deliver_loop,
}
use cs451_2021_project.Urb.{Urb, Pam, accessible}
use cs451_2021_project.Urb.Deliver.{UrbDelivery, urb_deliver}
use cs451_2021_project.Lcb.Deliver.{Loop, done, crashed, no_fuel}

-- A call of `log_deliver_events`, with the place of the message in its row.
pub record FifoEntry : Type 0 where
  pub content : List ℕ
  pub sender : ℕ
  pub num : ℕ

-- The variables of `run_receiver` and the layer below. The latest entry of `log` comes first.
pub record Fifo : Type 0 where
  pub urb : Urb
  pub n_process : ℕ
  pub delivered : ℕ → ℕ
  pub receive_forever : Bool
  pub log : List FifoEntry

abbrev pub next_pam : Fifo → ℕ → Pam
next_pam s i = (s.urb.rows i).cells (s.delivered i)

-- The body of the inner `while`.
unfoldable pub deliver_next : Fifo → ℕ → Fifo
deliver_next s i = record s {
  delivered = update s.delivered i (u32 (s.delivered i + 1));
  log = record { content = (next_pam s i).content; sender = i; num = s.delivered i } ∷ s.log;
}

-- The inner `while` on row `i`; each turn moves one entry on within the row's memory.
unfoldable pub fifo_row : ℕ → Fifo → ℕ → Loop Fifo
fifo_row zero s i = no_fuel
fifo_row (suc fuel) s i =
    let more = fifo_row fuel (deliver_next s i) i in
    if accessible (s.urb.rows i) (s.delivered i)
    then (if (next_pam s i).delivered then more else done s)
    else crashed

-- `if (pam_table[i])`: a row that was never allocated has no bytes.
unfoldable pub fifo_visit : Fifo → ℕ → Loop Fifo
fifo_visit s i =
    if (s.urb.rows i).bytes == 0 then done s else fifo_row (suc (s.urb.rows i).bytes) s i

abbrev pub then_fifo : (Fifo → Loop Fifo) → Loop Fifo → Loop Fifo
then_fifo more (done s) = more s
then_fifo more crashed = crashed
then_fifo more no_fuel = no_fuel

-- The `for` from row `i` on, with `left` rows to go.
unfoldable pub fifo_rows : ℕ → Fifo → ℕ → Loop Fifo
fifo_rows zero s i = done s
fifo_rows (suc left) s i = then_fifo (λ t. fifo_rows left t (i + 1)) (fifo_visit s i)

abbrev pub after_rows : UrbDelivery → List Datagram → Loop Fifo → Received Fifo UrbDelivery
after_rows d rest (done s) = returned s d rest
after_rows d rest crashed = fault
after_rows d rest no_fuel = unfinished

abbrev pub after_urb : Fifo → Received Urb UrbDelivery → Received Fifo UrbDelivery
after_urb s (returned u d rest) =
    after_rows d rest (fifo_rows (s.n_process + 1) (record s { urb = u }) 0)
after_urb s (exited u rest) = exited (record s { urb = u }) rest
after_urb s (waiting u) = waiting (record s { urb = u })
after_urb s fault = fault
after_urb s unfinished = unfinished

-- An iteration of the loop of `run_receiver`.
unfoldable pub fifo_deliver :
    (ℕ → Bool) → (ℕ → Pam) → Fifo → List Datagram → Received Fifo UrbDelivery
fifo_deliver fresh_acks fresh_pams s datagrams =
    after_urb s (urb_deliver fresh_acks fresh_pams s.urb datagrams)

abbrev pub fifo_turn : Fifo → UrbDelivery → Turn Fifo Unit
fifo_turn s d = if s.receive_forever then again s else leave s tt

unfoldable pub fifo_receiver : (ℕ → Bool) → (ℕ → Pam) → Fifo → List Datagram → Received Fifo Unit
fifo_receiver fresh_acks fresh_pams s datagrams =
    if s.receive_forever
    then deliver_loop (fifo_deliver fresh_acks fresh_pams) fifo_turn (suc (length datagrams))
        (record s { delivered = λ _. 0 }) datagrams
    else returned s tt datagrams
