-- ===== src/Urb/Majority.antt =====
-- When `urb_deliver` of template_cpp/src/src/uniform_reliable_broadcast.c returns a message.
use cs451_2021_project.Base.{
  ℕ, suc, ◌/◌, ◌≡◌, ◌<◌, ◌≢◌, ◌⊎◌, inl, inr, Bool, true, false, refl, arith, subst, List, length,
  Option, none, some, Bool-cases, leb, if◌then◌else◌,
}
use cs451_2021_project.Address.{SockAddr, max_processes, get_index, index_of_port}
use cs451_2021_project.StubbornLinks.Invariant.{get_index-lt}
use cs451_2021_project.Receive.{
  Datagram, Delivery, Received, returned, exited, waiting, fault, unfinished, Turn, out_of_bounds,
}
use cs451_2021_project.Receive.Rule.{Ends, TurnEnds, Ends-map_state, deliver_loop-Ends}
use cs451_2021_project.StubbornLinks.{max_chars}
use cs451_2021_project.PerfectLinks.{PlDelivery, pl_deliver}
use cs451_2021_project.PerfectLinks.Recorded.{pl_deliver_total}
use cs451_2021_project.BestEffort.{beb_deliver}
use cs451_2021_project.Urb.{Urb, Pam}
use cs451_2021_project.Urb.Deliver.{
  UrbLoop, UrbDelivery, UrbPacket, urb_header, handle_pam, ready, test_pam, after_pam,
  on_urb_header, urb_body, mark_delivered, urb_finished, beb_below, urb_deliver,
}
use cs451_2021_project.Urb.Cells.{IsValid, count_acks}
use cs451_2021_project.Urb.Handled.{Handled, handle_pam-Handled, Handled-trans}

-- What holds behind the loop of `urb_deliver`: the entry has a majority and was not delivered.
abbrev Ready : Urb → UrbLoop → UrbDelivery → Type 0
Ready u l d =
    Handled u l.urb
    × (l.urb.n_processes / 2 < ((l.urb.rows d.os).cells d.num).sum)
    × (((l.urb.rows d.os).cells d.num).delivered ≡ false)

abbrev Running : Urb → UrbLoop → Type 0
Running u l = Handled u l.urb

test_pam_ends :
    (u v : Urb) (sender : SockAddr) (pam : Option (ℕ × ℕ))
    → Handled u v
    → TurnEnds (Running u) (Ready u) (test_pam v sender pam)
unfolding ready
test_pam_ends u v sender none h = h
test_pam_ends u v sender (some (os, num)) h = elim (Bool-cases (ready v (os, num))) [
  | inl now ↦ rw now (h, ground arith, ground arith)
  | inr later ↦ rw later h
]

after_pam_ends :
    (u v : Urb) (sender : SockAddr) (place : ℕ × ℕ) (r : Option Urb)
    → ((w : Urb) → r ≡ some w → Handled v w)
    → Handled u v
    → TurnEnds (Running u) (Ready u) (after_pam sender place r)
after_pam_ends u v sender place none k h = tt
after_pam_ends u v sender place (some w) k h =
    test_pam_ends u w sender (some place) (Handled-trans u v w h (k w refl))

module _ (fresh_acks : ℕ → Bool) (fresh : ℕ → Pam) (u : Urb) where
  if_turn :
      (b : Bool) (x y : Turn UrbLoop UrbDelivery)
      → TurnEnds (Running u) (Ready u) x
      → TurnEnds (Running u) (Ready u) y
      → TurnEnds (Running u) (Ready u) (if b then x else y)
  if_turn true x y hx hy = hx
  if_turn false x y hx hy = hy

  on_urb_header_ends :
      (l : UrbLoop) (d : Delivery) (packet : Option UrbPacket)
      → Running u l
      → TurnEnds (Running u) (Ready u) (on_urb_header fresh l d packet)
  on_urb_header_ends l d none h = tt
  on_urb_header_ends l d (some p) h =
      if_turn _ _ _
        (after_pam_ends u l.urb _ _
          (handle_pam fresh l.urb (index_of_port p.os_port) (get_index d.sender) p.num d.message
            d.n)
          (λ w e.
            handle_pam-Handled fresh l.urb (index_of_port p.os_port) (get_index d.sender) p.num
              d.message d.n (get_index-lt d.sender) h.0 e)
          h)
        (test_pam_ends u l.urb _ l.pam h)

  urb_body_ends :
      (l : UrbLoop) (d : PlDelivery)
      → Running u l
      → TurnEnds (Running u) (Ready u) (urb_body fresh l d)
  unfolding urb_body
  urb_body_ends l d h =
      if_turn (leb d.delivery.n max_chars)
        (on_urb_header fresh l d.delivery (urb_header d.delivery.message)) out_of_bounds
        (on_urb_header_ends l d.delivery (urb_header d.delivery.message) h) tt

  beb_below-Ends :
      (l : UrbLoop) (datagrams : List Datagram)
      → Running u l
      → Ends
          (Running u)
          (λ l' _. Running u l')
          (length datagrams)
          (beb_below fresh_acks l datagrams)
  unfolding beb_below beb_deliver
  beb_below-Ends l datagrams h =
      Ends-map_state (Running u) (λ l' _. Running u l') (λ _. Unit {0}) (λ _ _. Unit {0})
        (λ beb. record l { urb = record l.urb { beb = beb } }) (length datagrams)
        (beb_deliver fresh_acks l.urb.beb datagrams) (λ _ _. h) (λ _ _ _. h)
        (Ends-map_state (λ _. Unit {0}) (λ _ _. Unit {0}) (λ _. Unit {0}) (λ _ _. Unit {0})
          (λ perfect. record l.urb.beb { perfect = perfect }) (length datagrams)
          (pl_deliver fresh_acks l.urb.beb.perfect datagrams) (λ _ _. tt) (λ _ _ _. tt)
          (pl_deliver_total fresh_acks l.urb.beb.perfect datagrams))

  -- What holds when `urb_deliver` returns: the entry was not delivered and is now, a majority has
  -- sent it, and no other entry's flag has changed.
  abbrev pub Delivered : Urb → UrbDelivery → Type 0
  Delivered v d =
      IsValid v
      × (((u.rows d.os).cells d.num).delivered ≡ false)
      × (((v.rows d.os).cells d.num).delivered ≡ true)
      × (u.n_processes / 2 < count_acks max_processes ((v.rows d.os).cells d.num).ack)
      × ((os num : ℕ)
          → (os ≢ d.os) ⊎ (num ≢ d.num)
          → ((v.rows os).cells num).delivered ≡ ((u.rows os).cells num).delivered)

  mark_delivered_lem :
      (l : UrbLoop) (d : UrbDelivery) → Ready u l d → Delivered (mark_delivered l.urb d.os d.num) d
  unfolding mark_delivered
  mark_delivered_lem l d r = (
    λ o m. ground (arith, r.0.0 o m),
    ground (arith, r.0.1 d.os d.num),
    ground arith,
    ground (arith, r.0.0 d.os d.num),
    λ o m ne. ground (arith, r.0.1 o m),
  )

  urb_finished-Ends :
      (n : ℕ) (r : Received UrbLoop UrbDelivery)
      → Ends (Running u) (Ready u) n r
      → Ends (Handled u) Delivered n (urb_finished r)
  urb_finished-Ends n (returned l d rest) e = (mark_delivered_lem l d e.0, e.1)
  urb_finished-Ends n (exited l rest) e = e
  urb_finished-Ends n (waiting l) e = e
  urb_finished-Ends n fault e = tt
  urb_finished-Ends n unfinished e = e

  pub urb_deliver-Ends :
      (datagrams : List Datagram)
      → IsValid u
      → Ends (Handled u) Delivered (length datagrams) (urb_deliver fresh_acks fresh u datagrams)
  unfolding urb_deliver
  urb_deliver-Ends datagrams valid = urb_finished-Ends (length datagrams) _ (
      deliver_loop-Ends (Running u) (λ l' _. Running u l') (Ready u) (beb_below fresh_acks)
        (urb_body fresh) beb_below-Ends urb_body_ends (suc (length datagrams))
        (record { urb = u; pam = none }) datagrams (omega arith) (valid, λ _ _. refl, refl))

-- When `urb_deliver` returns from a valid table with a message, the message's entry was not delivered
-- before the call and is delivered after it, more than half of the processes are marked in it as having
-- sent the message, and the table is valid.
pub urb_deliver_majority :
    (fresh_acks : ℕ → Bool) (fresh : ℕ → Pam) (u : Urb) (datagrams : List Datagram) {v : Urb}
    {d : UrbDelivery} {rest : List Datagram}
    → IsValid u
    → urb_deliver fresh_acks fresh u datagrams ≡ returned v d rest
    → IsValid v
      × (((u.rows d.os).cells d.num).delivered ≡ false)
      × (((v.rows d.os).cells d.num).delivered ≡ true)
      × (u.n_processes / 2 < count_acks max_processes ((v.rows d.os).cells d.num).ack)
urb_deliver_majority fresh_acks fresh u datagrams valid e =
    let r =
      subst (Ends (Handled u) (Delivered fresh_acks fresh u) (length datagrams)) e
        (urb_deliver-Ends fresh_acks fresh u datagrams valid) in
    (r.0.0, r.0.1, r.0.2, r.0.3)

-- A call of `urb_deliver` on a valid table that returns a message leaves the `delivered` flag of every
-- other entry as it was.
pub urb_deliver_frame :
    (fresh_acks : ℕ → Bool) (fresh : ℕ → Pam) (u : Urb) (datagrams : List Datagram) (os num : ℕ)
    {v : Urb} {d : UrbDelivery} {rest : List Datagram}
    → IsValid u
    → urb_deliver fresh_acks fresh u datagrams ≡ returned v d rest
    → (os ≢ d.os) ⊎ (num ≢ d.num)
    → ((v.rows os).cells num).delivered ≡ ((u.rows os).cells num).delivered
urb_deliver_frame fresh_acks fresh u datagrams os num valid e other =
    (subst (Ends (Handled u) (Delivered fresh_acks fresh u) (length datagrams)) e
        (urb_deliver-Ends fresh_acks fresh u datagrams valid)).0.4
      os num other

-- From a valid table, `urb_deliver` ends within the fuel of the model, one turn for each datagram.
pub urb_deliver_finishes :
    (fresh_acks : ℕ → Bool) (fresh : ℕ → Pam) (u : Urb) (datagrams : List Datagram)
    → IsValid u
    → urb_deliver fresh_acks fresh u datagrams ≢ unfinished
urb_deliver_finishes fresh_acks fresh u datagrams valid e =
    subst (Ends (Handled u) (Delivered fresh_acks fresh u) (length datagrams)) e
      (urb_deliver-Ends fresh_acks fresh u datagrams valid)
