-- ===== src/Lcb/Deliver.antt =====
-- `lcb_deliver` of template_cpp/src/src/localized_causal_broadcast.c.
use cs451_2021_project.Base.{
  ℕ, zero, suc, ◌+◌, ◌-◌, ◌*◌, Bool, true, false, ◌&&◌, List, [], ◌∷◌, Option, none, some, take,
  length, ◌++◌, drop, update, ltb, leb, ◌==◌, if◌then◌else◌,
}
use cs451_2021_project.Serializer.{deserialize, of_bytes}
use cs451_2021_project.Address.{u32, max_processes}
use cs451_2021_project.StubbornLinks.{max_chars}
use cs451_2021_project.Receive.{Datagram, Received, returned, exited, waiting, fault, unfinished}
use cs451_2021_project.Urb.{Urb, Pam, accessible}
use cs451_2021_project.Urb.Deliver.{UrbDelivery, urb_deliver}
use cs451_2021_project.Lcb.{Lcb, Entry, check_local_causality}

-- How a loop ends: with a value, out of bounds, or (in the model only) out of fuel.
pub data Loop (A : Type 0) : Type 0 where
  done : A → Loop A
  crashed : Loop A
  no_fuel : Loop A

-- The state, `continue_looping`, and the array `content`, which each `deserialize` of the call overwrites in part.
pub record Pass : Type 0 where
  pub lcb : Lcb
  pub continue_looping : Bool
  pub content : List ℕ

-- Entry `j` of `w_clock`, which starts with zeros and of which `n` entries are read.
unfoldable pub clock_of_bytes : ℕ → List ℕ → ℕ → ℕ
clock_of_bytes n bytes j = if ltb j n then of_bytes (take 4 (drop (j * 4) bytes)) else 0

unfoldable pub entry_fields : ℕ → ℕ → ℕ → Option (List (List ℕ)) → Option Entry
entry_fields n sender num (some (clock ∷ content ∷ [])) =
    some (record { content = content; sender = sender; num = num; clock = clock_of_bytes n clock })
entry_fields n sender num _ = none

-- w_clock | content, from the stored message. `none` is out of bounds: the difference of the sizes
-- would wrap, or one of the arrays is left.
unfoldable pub read_entry : ℕ → ℕ → ℕ → Pam → Option Entry
unfolding entry_fields clock_of_bytes
read_entry n sender num pam =
    if leb (n * 4) pam.n && leb n max_processes
    then entry_fields n sender num (deserialize pam.content (n * 4 ∷ (pam.n - n * 4) ∷ []))
    else none

-- The message that the row's turn is at: `none` if it is not delivered yet.
pub data Next : Type 0 where
  absent : Next
  present : Entry → Next
  outside : Next

abbrev pub as_next : Option Entry → Next
as_next none = outside
as_next (some entry) = present entry

unfoldable pub next_of : Lcb → ℕ → Next
next_of s i =
    let row = s.urb.rows i in
    let num = s.delivered i in
    if accessible row num
    then (if (row.cells num).delivered
        then as_next (read_entry s.n_processes i num (row.cells num))
        else absent)
    else outside

-- The delivery of an entry.
unfoldable pub deliver_entry : Lcb → Entry → Lcb
deliver_entry s entry = record s {
  v_clock = update s.v_clock entry.sender (u32 (s.v_clock entry.sender + 1));
  delivered = update s.delivered entry.sender (u32 (s.delivered entry.sender + 1));
  log = entry ∷ s.log;
}

-- The array `content` behind `deserialize`: the message, and what the array held behind it.
abbrev pub fill_content : List ℕ → Entry → Entry
fill_content array entry = record entry {
  content = take max_chars (entry.content ++ drop (length entry.content) array);
}

-- One turn of the inner `while` behind `deserialize`: it delivers, breaks, or is out of bounds.
abbrev pub on_check : (Pass → Loop Pass) → Pass → Entry → Option Bool → Loop Pass
on_check more p entry none = crashed
on_check more p entry (some false) = done (record p { content = entry.content })
on_check more p entry (some true) =
    more
      (record { lcb = deliver_entry p.lcb entry; continue_looping = true; content = entry.content })

abbrev pub on_next : (Pass → Loop Pass) → Pass → Next → Loop Pass
on_next more p absent = done p
on_next more p (present entry) =
    on_check more p (fill_content p.content entry)
      (check_local_causality p.lcb entry.clock entry.sender)
on_next more p outside = crashed

-- The inner `while` on row `i`.
unfoldable pub drain_row : ℕ → Pass → ℕ → Loop Pass
drain_row zero p i = no_fuel
drain_row (suc fuel) p i = on_next (λ q. drain_row fuel q i) p (next_of p.lcb i)

-- Each turn moves one entry on within the row's memory.
abbrev pub row_fuel : Lcb → ℕ → ℕ
row_fuel s i = suc (s.urb.rows i).bytes

abbrev pub then_rows : (Pass → Loop Pass) → Loop Pass → Loop Pass
then_rows more (done p) = more p
then_rows more crashed = crashed
then_rows more no_fuel = no_fuel

-- `if (pam_table[i])`: a row that was never allocated has no bytes. The table has `MAX_PROCESSES` rows.
unfoldable pub visit_row : Pass → ℕ → Loop Pass
visit_row p i =
    if ltb i max_processes
    then (if (p.lcb.urb.rows i).bytes == 0 then done p else drain_row (row_fuel p.lcb i) p i)
    else crashed

-- The `for` from row `i` on, with `left` rows to go.
unfoldable pub drain_rows : ℕ → Pass → ℕ → Loop Pass
drain_rows zero p i = done p
drain_rows (suc left) p i = then_rows (λ q. drain_rows left q (i + 1)) (visit_row p i)

abbrev pub after_rows : (List ℕ → Lcb → Loop Lcb) → Loop Pass → Loop Lcb
after_rows more (done p) = if p.continue_looping then more p.content p.lcb else done p.lcb
after_rows more crashed = crashed
after_rows more no_fuel = no_fuel

-- The outer `while`; the `for` visits the rows from 0 to `n_processes`.
unfoldable pub drain_all : ℕ → List ℕ → Lcb → Loop Lcb
drain_all zero content s = no_fuel
drain_all (suc fuel) content s = after_rows (drain_all fuel) (
    drain_rows (s.n_processes + 1) (record { lcb = s; continue_looping = false; content = content })
      0)

-- All bytes of the first rows: a bound on the messages that can be delivered.
unfoldable pub memory : Lcb → ℕ → ℕ
memory s zero = 0
memory s (suc k) = (s.urb.rows k).bytes + memory s k

-- `content` is what the array holds before.
unfoldable pub drain : List ℕ → Lcb → Loop Lcb
drain content s = drain_all (suc (memory s (s.n_processes + 1))) content s

abbrev pub after_drain : UrbDelivery → List Datagram → Loop Lcb → Received Lcb UrbDelivery
after_drain d rest (done s) = returned s d rest
after_drain d rest crashed = fault
after_drain d rest no_fuel = unfinished

abbrev pub after_urb : List ℕ → Lcb → Received Urb UrbDelivery → Received Lcb UrbDelivery
after_urb stack s (returned u d rest) = after_drain d rest (drain stack (record s { urb = u }))
after_urb stack s (exited u rest) = exited (record s { urb = u }) rest
after_urb stack s (waiting u) = waiting (record s { urb = u })
after_urb stack s fault = fault
after_urb stack s unfinished = unfinished

-- `stack` is what the array `content` of the call holds before it is written.
unfoldable pub lcb_deliver :
    (ℕ → Bool) → (ℕ → Pam) → List ℕ → Lcb → List Datagram → Received Lcb UrbDelivery
lcb_deliver fresh_acks fresh_pams stack s datagrams =
    after_urb stack s (urb_deliver fresh_acks fresh_pams s.urb datagrams)
