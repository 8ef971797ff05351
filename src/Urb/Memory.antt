-- ===== src/Urb/Memory.antt =====
-- What the calls of template_cpp/src/src/uniform_reliable_broadcast.c leave alone: the memory of the rows and
-- the parameters of the component.
use cs451_2021_project.Base.{
  ℕ, suc, ◌≡◌, refl, sym, ◌∙◌, Bool, ◌&&◌, List, Option, none, some, arith, length, take, subst,
  Bool-cases, inl, inr, leb,
}
use cs451_2021_project.Address.{SockAddr, get_index, index_of_port}
use cs451_2021_project.Receive.{
  Datagram, Delivery, Received, returned, exited, waiting, fault, unfinished,
}
use cs451_2021_project.Receive.Rule.{Ends, TurnEnds, Ends-map_state, deliver_loop-Ends}
use cs451_2021_project.StubbornLinks.{max_chars}
use cs451_2021_project.PerfectLinks.{PlDelivery, move_down, pl_deliver}
use cs451_2021_project.PerfectLinks.Recorded.{pl_deliver_total}
use cs451_2021_project.BestEffort.{beb_deliver}
use cs451_2021_project.Urb.{Urb, Row, Pam, pam_alloc, urb_metadata_len}
use cs451_2021_project.Urb.Deliver.{
  UrbLoop, UrbDelivery, UrbPacket, urb_header, relay_row, handle_pam, ready, test_pam, after_pam,
  on_urb_header, urb_body, mark_delivered, urb_finished, beb_below, urb_deliver,
}
use cs451_2021_project.Urb.Handled.{handle_pam_cases}

-- The same memory, number of processes, own id and addresses.
pub record SameMemory (u v : Urb) : Type 0 where
  pub bytes : (os : ℕ) → (v.rows os).bytes ≡ (u.rows os).bytes
  pub n_processes : v.n_processes ≡ u.n_processes
  pub process_id : v.process_id ≡ u.process_id
  pub addresses : v.addresses ≡ u.addresses

SameMemory-refl : (u : Urb) → SameMemory u u
SameMemory-refl u = record {
  bytes = λ os. refl;
  n_processes = refl;
  process_id = refl;
  addresses = refl;
}

SameMemory-trans : {u v w : Urb} → SameMemory u v → SameMemory v w → SameMemory u w
SameMemory-trans m n = record {
  bytes = λ os. n.bytes os ∙ m.bytes os;
  n_processes = n.n_processes ∙ m.n_processes;
  process_id = n.process_id ∙ m.process_id;
  addresses = n.addresses ∙ m.addresses;
}

pub pam_alloc-bytes :
    (row : Row) (s num : ℕ) (content : List ℕ) (n : ℕ) {row' : Row}
    → pam_alloc row s num content n ≡ some row'
    → row'.bytes ≡ row.bytes
unfolding pam_alloc
pam_alloc-bytes row s num content n e = ground arith

relay_row-SameMemory :
    (u : Urb) (os : ℕ) (buffer : List ℕ) (n : ℕ) (made : Option Row) {v : Urb}
    → ((row : Row) → made ≡ some row → row.bytes ≡ (u.rows os).bytes)
    → relay_row u os buffer n made ≡ some v
    → SameMemory u v
relay_row-SameMemory u os buffer n none k e = absurd (cc)
relay_row-SameMemory u os buffer n (some row) k e = record {
  bytes = λ o. ground (arith, k row refl);
  n_processes = ground arith;
  process_id = ground arith;
  addresses = ground arith;
}

handle_pam-SameMemory :
    (fresh : ℕ → Pam) (u : Urb) (os s num : ℕ) (message : List ℕ) (n : ℕ) {v : Urb}
    → handle_pam fresh u os s num message n ≡ some v
    → SameMemory u v
handle_pam-SameMemory fresh u os s num message n e =
    elim (handle_pam_cases fresh u os s num message n e) [
      | inl (known, eq) ↦ subst (SameMemory u) (sym eq) (record {
        bytes = λ o. ground arith;
        n_processes = refl;
        process_id = refl;
        addresses = refl;
      })
      | inr (unknown, eq) ↦
          relay_row-SameMemory u os (take n message) n _
            (λ row made.
              pam_alloc-bytes (u.rows os) s num (move_down message n urb_metadata_len) n made)
            eq
    ]

module _ (fresh_acks : ℕ → Bool) (fresh : ℕ → Pam) (u : Urb) where
  abbrev Same : UrbLoop → Type 0
  Same l = SameMemory u l.urb

  test_pam-Ends :
      (v : Urb) (sender : SockAddr) (pam : Option (ℕ × ℕ))
      → SameMemory u v
      → TurnEnds Same (λ l _. Same l) (test_pam v sender pam)
  test_pam-Ends v sender none m = m
  test_pam-Ends v sender (some (os, num)) m = elim (Bool-cases (ready v (os, num))) [
    | inl now ↦ rw now m
    | inr later ↦ rw later m
  ]

  after_pam-Ends :
      (v : Urb) (sender : SockAddr) (place : ℕ × ℕ) (r : Option Urb)
      → ((w : Urb) → r ≡ some w → SameMemory v w)
      → SameMemory u v
      → TurnEnds Same (λ l _. Same l) (after_pam sender place r)
  after_pam-Ends v sender place none k m = tt
  after_pam-Ends v sender place (some w) k m =
      test_pam-Ends w sender (some place) (SameMemory-trans m (k w refl))

  on_urb_header-Ends :
      (l : UrbLoop) (d : Delivery) (packet : Option UrbPacket)
      → Same l
      → TurnEnds Same (λ l' _. Same l') (on_urb_header fresh l d packet)
  on_urb_header-Ends l d none m = tt
  on_urb_header-Ends l d (some p) m =
      elim (Bool-cases (
        leb (index_of_port p.os_port) l.urb.n_processes
        && leb (get_index d.sender) l.urb.n_processes)) [
          | inl known ↦ rw known (
              after_pam-Ends l.urb _ _
                (handle_pam fresh l.urb (index_of_port p.os_port) (get_index d.sender) p.num
                  d.message d.n)
                (λ w e.
                  handle_pam-SameMemory fresh l.urb (index_of_port p.os_port) (get_index d.sender)
                    p.num d.message d.n e)
                m)
          | inr unknown ↦ rw unknown (test_pam-Ends l.urb _ l.pam m)
        ]

  urb_body-Ends :
      (l : UrbLoop) (d : PlDelivery) → Same l → TurnEnds Same (λ l' _. Same l') (urb_body fresh l d)
  unfolding urb_body
  urb_body-Ends l d m = elim (Bool-cases (leb d.delivery.n max_chars)) [
    | inl fits ↦ rw fits (on_urb_header-Ends l d.delivery (urb_header d.delivery.message) m)
    | inr long ↦ rw long tt
  ]

  beb_below-SameMemory :
      (l : UrbLoop) (datagrams : List Datagram)
      → Same l
      → Ends Same (λ l' _. Same l') (length datagrams) (beb_below fresh_acks l datagrams)
  unfolding beb_below beb_deliver
  beb_below-SameMemory l datagrams m =
      Ends-map_state Same (λ l' _. Same l') (λ _. Unit {0}) (λ _ _. Unit {0})
        (λ beb. record l { urb = record l.urb { beb = beb } }) (length datagrams)
        (beb_deliver fresh_acks l.urb.beb datagrams)
        (λ _ _. record {
          bytes = m.bytes;
          n_processes = m.n_processes;
          process_id = m.process_id;
          addresses = m.addresses;
        })
        (λ _ _ _. record {
          bytes = m.bytes;
          n_processes = m.n_processes;
          process_id = m.process_id;
          addresses = m.addresses;
        })
        (Ends-map_state (λ _. Unit {0}) (λ _ _. Unit {0}) (λ _. Unit {0}) (λ _ _. Unit {0})
          (λ perfect. record l.urb.beb { perfect = perfect }) (length datagrams)
          (pl_deliver fresh_acks l.urb.beb.perfect datagrams) (λ _ _. tt) (λ _ _ _. tt)
          (pl_deliver_total fresh_acks l.urb.beb.perfect datagrams))

  mark_delivered-SameMemory :
      (v : Urb) (os num : ℕ) → SameMemory u v → SameMemory u (mark_delivered v os num)
  unfolding mark_delivered
  mark_delivered-SameMemory v os num m = record {
    bytes = λ o. ground (arith, m.bytes o);
    n_processes = m.n_processes;
    process_id = m.process_id;
    addresses = m.addresses;
  }

  urb_finished-SameMemory :
      (n : ℕ) (r : Received UrbLoop UrbDelivery)
      → Ends Same (λ l _. Same l) n r
      → Ends (SameMemory u) (λ v _. SameMemory u v) n (urb_finished r)
  urb_finished-SameMemory n (returned l d rest) e =
      (mark_delivered-SameMemory l.urb d.os d.num e.0, e.1)
  urb_finished-SameMemory n (exited l rest) e = e
  urb_finished-SameMemory n (waiting l) e = e
  urb_finished-SameMemory n fault e = tt
  urb_finished-SameMemory n unfinished e = e

  -- However a call of `urb_deliver` ends, the memory is the same, and it has used datagrams if it returns.
  pub urb_deliver-SameMemory :
      (datagrams : List Datagram)
      → Ends
          (SameMemory u)
          (λ v _. SameMemory u v)
          (length datagrams)
          (urb_deliver fresh_acks fresh u datagrams)
  unfolding urb_deliver
  urb_deliver-SameMemory datagrams = urb_finished-SameMemory (length datagrams) _ (
      deliver_loop-Ends Same (λ l _. Same l) (λ l _. Same l) (beb_below fresh_acks) (urb_body fresh)
        beb_below-SameMemory urb_body-Ends (suc (length datagrams)) (record { urb = u; pam = none })
        datagrams (omega arith) (SameMemory-refl u))
