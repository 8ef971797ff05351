-- ===== src/PerfectLinks/Recorded.antt =====
-- The numbers that `pl_deliver` of template_cpp/src/src/perfect_links.c records.
use cs451_2021_project.Base.{
  ℕ, suc, ◌^◌, ◌≡◌, ◌<◌, refl, subst, Bool, true, false, List, Option, none, some, arith, length,
}
use cs451_2021_project.Address.{max_processes}
use cs451_2021_project.Receive.{
  Datagram, Delivery, Received, returned, exited, waiting, fault, unfinished, deliver_loop,
}
use cs451_2021_project.Receive.Rule.{Ends, TurnEnds, Ends-map_state, deliver_loop-Ends}
use cs451_2021_project.StubbornLinks.{sl_deliver, header}
use cs451_2021_project.StubbornLinks.Deliver.{sl_deliver-Ends}
use cs451_2021_project.PerfectLinks.{
  AckTable, Perfect, PlDelivery, pl_realloc, unpack, pl_body, on_pl_header, record_ack, pl_finish,
  finished, below, pl_deliver,
}

-- The number is recorded under the index of its sender.
abbrev pub Recorded : Perfect → ℕ → ℕ → Type 0
Recorded s i q = (q < (s.ack_table i).size) × ((s.ack_table i).acks q ≡ true)

-- `n_ack` is a `uint`.
abbrev pub CountsFit : Perfect → Type 0
CountsFit s = (i : ℕ) → (s.ack_table i).n_ack < 2 ^ 32

-- What holds behind the loop of `pl_deliver`.
abbrev Unrecorded : (ℕ → AckTable) → Perfect → PlDelivery → Type 0
Unrecorded tables t d =
    (t.ack_table ≡ tables)
    × (d.index < max_processes)
    × (d.seq_num < (tables d.index).size)
    × ((tables d.index).acks d.seq_num ≡ false)

on_pl_header_ends :
    (tables : ℕ → AckTable) (s : Perfect) (d : Delivery) (fields : Option (ℕ × ℕ))
    → s.ack_table ≡ tables
    → TurnEnds (λ t. t.ack_table ≡ tables) (Unrecorded tables) (on_pl_header s d fields)
unfolding unpack
on_pl_header_ends tables s d none e = tt
on_pl_header_ends tables s d (some (type, seq_num)) e = ground arith

pl_body_ends :
    (tables : ℕ → AckTable) (s : Perfect) (d : Delivery)
    → s.ack_table ≡ tables
    → TurnEnds (λ t. t.ack_table ≡ tables) (Unrecorded tables) (pl_body s d)
unfolding pl_body
pl_body_ends tables s d e = on_pl_header_ends tables s d (header d.message) e

below-Ends :
    (tables : ℕ → AckTable) (s : Perfect) (datagrams : List Datagram)
    → s.ack_table ≡ tables
    → Ends
        (λ t. t.ack_table ≡ tables)
        (λ t _. t.ack_table ≡ tables)
        (length datagrams)
        (below s datagrams)
unfolding below
below-Ends tables s datagrams e =
    Ends-map_state (λ t. t.ack_table ≡ tables) (λ t _. t.ack_table ≡ tables) (λ _. Unit {0})
      (λ _ _. Unit {0}) (λ links. record s { links = links }) (length datagrams)
      (sl_deliver s.links datagrams) (λ l _. e) (λ l a _. e)
      (sl_deliver-Ends (λ _. Unit {0}) (λ l sender type q t p h. tt) s.links datagrams tt)

pl_loop-Ends :
    (s : Perfect) (datagrams : List Datagram)
    → Ends
        (λ t. t.ack_table ≡ s.ack_table)
        (Unrecorded s.ack_table)
        (length datagrams)
        (deliver_loop below pl_body (suc (length datagrams)) s datagrams)
pl_loop-Ends s datagrams =
    deliver_loop-Ends (λ t. t.ack_table ≡ s.ack_table) (λ t _. t.ack_table ≡ s.ack_table)
      (Unrecorded s.ack_table) below pl_body (below-Ends s.ack_table) (pl_body_ends s.ack_table)
      (suc (length datagrams)) s datagrams (omega arith) refl

-- Nothing that is recorded is forgotten, also where a table grows.
pl_finish_keeps :
    (fresh : ℕ → Bool) (s : Perfect) (d : PlDelivery) (i q : ℕ)
    → CountsFit s
    → Recorded s i q
    → Recorded (pl_finish fresh s d) i q
unfolding pl_finish record_ack pl_realloc
pl_finish_keeps fresh s d i q c r = ground (arith, c d.index)

pl_finish_records :
    (fresh : ℕ → Bool) (s : Perfect) (d : PlDelivery)
    → CountsFit s
    → d.seq_num < (s.ack_table d.index).size
    → Recorded (pl_finish fresh s d) d.index d.seq_num
unfolding pl_finish record_ack pl_realloc
pl_finish_records fresh s d c h = ground (arith, c d.index)

pl_finish-CountsFit :
    (fresh : ℕ → Bool) (s : Perfect) (d : PlDelivery)
    → CountsFit s
    → CountsFit (pl_finish fresh s d)
unfolding pl_finish record_ack pl_realloc
pl_finish-CountsFit fresh s d c i = ground (arith, c i)

-- What a call leaves behind, however it ends, and what it says of the message that it returns.
abbrev pub Kept : Perfect → Perfect → Type 0
Kept s t = CountsFit t × ((i q : ℕ) → Recorded s i q → Recorded t i q)

abbrev pub New : Perfect → Perfect → PlDelivery → Type 0
New s t d = Kept s t × (¬ Recorded s d.index d.seq_num) × Recorded t d.index d.seq_num

Kept-of_tables : (s t : Perfect) → CountsFit s → t.ack_table ≡ s.ack_table → Kept s t
Kept-of_tables s t c e = (λ i. rw e (c i), λ i q r. rw e r)

finished-Ends :
    (fresh : ℕ → Bool) (s : Perfect) (n : ℕ) (r : Received Perfect PlDelivery)
    → CountsFit s
    → Ends (λ t. t.ack_table ≡ s.ack_table) (Unrecorded s.ack_table) n r
    → Ends (Kept s) (New s) n (finished fresh r)
finished-Ends fresh s n (returned t d rest) c e =
    let k = Kept-of_tables s t c e.0.0 in
    (
      (
        (pl_finish-CountsFit fresh t d k.0, λ i q r. pl_finish_keeps fresh t d i q k.0 (k.1 i q r)),
        λ r. ground arith,
        pl_finish_records fresh t d k.0 (rw e.0.0 e.0.2),
      ),
      e.1,
    )
finished-Ends fresh s n (exited t rest) c e = Kept-of_tables s t c e
finished-Ends fresh s n (waiting t) c e = Kept-of_tables s t c e
finished-Ends fresh s n fault c e = tt
finished-Ends fresh s n unfinished c e = e

pub pl_deliver-Ends :
    (fresh : ℕ → Bool) (s : Perfect) (datagrams : List Datagram)
    → CountsFit s
    → Ends (Kept s) (New s) (length datagrams) (pl_deliver fresh s datagrams)
unfolding pl_deliver
pl_deliver-Ends fresh s datagrams c =
    finished-Ends fresh s (length datagrams) _ c (pl_loop-Ends s datagrams)

finished_total :
    (fresh : ℕ → Bool) (P : Perfect → Type 0) (Q : Perfect → PlDelivery → Type 0) (n : ℕ)
    (r : Received Perfect PlDelivery)
    → Ends P Q n r
    → Ends (λ _. Unit {0}) (λ _ _. Unit {0}) n (finished fresh r)
finished_total fresh P Q n (returned t d rest) e = (tt, e.1)
finished_total fresh P Q n (exited t rest) e = tt
finished_total fresh P Q n (waiting t) e = tt
finished_total fresh P Q n fault e = tt
finished_total fresh P Q n unfinished e = e

-- A call ends, with fewer datagrams if it returns.
pub pl_deliver_total :
    (fresh : ℕ → Bool) (s : Perfect) (datagrams : List Datagram)
    → Ends (λ _. Unit {0}) (λ _ _. Unit {0}) (length datagrams) (pl_deliver fresh s datagrams)
unfolding pl_deliver
pl_deliver_total fresh s datagrams =
    finished_total fresh (λ t. t.ack_table ≡ s.ack_table) (Unrecorded s.ack_table)
      (length datagrams) _ (pl_loop-Ends s datagrams)

-- Where each count `n_ack` is below 2 ^ 32, a message that `pl_deliver` returns was not recorded before
-- the call, is recorded after it, and the call has consumed at least one datagram.
pub pl_deliver_once :
    (fresh : ℕ → Bool) (s : Perfect) (datagrams : List Datagram) {t : Perfect} {d : PlDelivery}
    {rest : List Datagram}
    → CountsFit s
    → pl_deliver fresh s datagrams ≡ returned t d rest
    → (¬ Recorded s d.index d.seq_num)
      × Recorded t d.index d.seq_num
      × (length rest < length datagrams)
pl_deliver_once fresh s datagrams c e =
    let k =
      subst (Ends (Kept s) (New s) (length datagrams)) e (pl_deliver-Ends fresh s datagrams c) in
    (k.0.1, k.0.2, k.1)
