-- ===== src/Urb/Once.antt =====
-- The life of the component: calls of `urb_broadcast` by the sending thread and of `urb_deliver` by the
-- receiving thread, in any order.
use cs451_2021_project.Base.{
  ℕ, ◌≡◌, ◌<◌, inl, inr, Bool, true, false, refl, ◌∙◌, arith, update, List, [], ◌∷◌, length, Option,
  none, some, All, Bool-cases, ltb, leb, ◌&&◌, ◌==◌,
}
use cs451_2021_project.Address.{SockAddr, max_processes}
use cs451_2021_project.Receive.{Datagram, returned}
use cs451_2021_project.Urb.{
  Urb, Pam, Row, fill_pam, accessible, pam_alloc, broadcast_from, broadcast_as, urb_broadcast,
  urb_init,
}
use cs451_2021_project.Urb.Deliver.{UrbDelivery, urb_deliver}
use cs451_2021_project.Urb.Cells.{IsValid, count_acks}
use cs451_2021_project.Urb.Handled.{Handled, Kept, put-Handled, fill_pam-Kept}
use cs451_2021_project.Urb.Majority.{urb_deliver_majority, urb_deliver_frame}
use cs451_2021_project.PerfectLinks.Delivered.{Distinct}

-- `urb_broadcast` at a place of its row that nobody has used keeps the table valid, and no flag changes.
broadcast_row :
    (u : Urb) (own : SockAddr) (message : List ℕ) (n num : ℕ) (row : Row) {v : Urb} (pam : Pam)
    → IsValid u
    → Kept ((u.rows u.process_id).cells num) pam
    → row.cells ≡ update (u.rows u.process_id).cells num pam
    → broadcast_from u own message n (some row) ≡ some v
    → Handled u v
broadcast_row u own message n num row {v} pam valid k c e =
    put-Handled u v u.process_id num row pam valid k c (ground arith) (ground arith)

broadcast_from-Handled :
    (u : Urb) (own : SockAddr) (message : List ℕ) (n s num : ℕ) {v : Urb}
    → s < max_processes
    → IsValid u
    → ((u.rows u.process_id).cells num).sum ≡ 0
    → broadcast_from u own message n (pam_alloc (u.rows u.process_id) s num message n) ≡ some v
    → Handled u v
unfolding pam_alloc
broadcast_from-Handled u own message n s num {v} h valid z e =
    elim (Bool-cases
      (accessible (u.rows u.process_id) num && (ltb s max_processes && leb 255 (length message)))) [
        | inl fits ↦
            broadcast_row u own message n num _
              (fill_pam ((u.rows u.process_id).cells num) s message n) valid
              (fill_pam-Kept ((u.rows u.process_id).cells num) s message n h
                (valid u.process_id num) z)
              refl (rw fits at e)
        | inr over ↦ absurd (ground arith)
      ]

broadcast_as-Handled :
    (u : Urb) (message : List ℕ) (n : ℕ) (own : Option SockAddr) {v : Urb}
    → u.process_id < max_processes
    → IsValid u
    → ((u.rows u.process_id).cells u.count).sum ≡ 0
    → broadcast_as u message n own ≡ some v
    → Handled u v
broadcast_as-Handled u message n none h valid z e = absurd (cc)
broadcast_as-Handled u message n (some own) {v} h valid z e =
    elim (Bool-cases (leb n (length message))) [
      | inl fits ↦
          broadcast_from-Handled u own message n u.process_id u.count h valid z (rw fits at e)
      | inr over ↦ absurd (ground arith)
    ]

pub urb_broadcast-Handled :
    (u : Urb) (message : List ℕ) (n : ℕ) {v : Urb}
    → u.process_id < max_processes
    → IsValid u
    → ((u.rows u.process_id).cells u.count).sum ≡ 0
    → urb_broadcast u message n ≡ some v
    → Handled u v
unfolding urb_broadcast
urb_broadcast-Handled u message n {v} h valid z e = elim (Bool-cases (u.process_id == 0)) [
  | inl none_id ↦ absurd (ground arith)
  | inr some_id ↦ broadcast_as-Handled u message n _ h valid z (rw some_id at e)
]

-- The calls made so far, and the places of the messages that `urb_deliver` has returned, the latest first.
pub data Calls (u : Urb) : Urb → List (ℕ × ℕ) → Type 0 where
  start : Calls u u []
  delivers :
      {v w : Urb} {keys : List (ℕ × ℕ)} (fresh_acks : ℕ → Bool) (fresh : ℕ → Pam)
      (datagrams rest : List Datagram) (d : UrbDelivery)
      → Calls u v keys
      → urb_deliver fresh_acks fresh v datagrams ≡ returned w d rest
      → Calls u w ((d.os, d.num) ∷ keys)
  broadcasts :
      {v w : Urb} {keys : List (ℕ × ℕ)} (message : List ℕ) (n : ℕ)
      → Calls u v keys
      → v.process_id < max_processes
      → ((v.rows v.process_id).cells v.count).sum ≡ 0
      → urb_broadcast v message n ≡ some w
      → Calls u w keys

abbrev IsDelivered : Urb → ℕ × ℕ → Type 0
IsDelivered v key = ((v.rows key.0).cells key.1).delivered ≡ true

All-IsDelivered :
    (v w : Urb) (keys : List (ℕ × ℕ))
    → ((key : ℕ × ℕ) → IsDelivered v key → IsDelivered w key)
    → All (IsDelivered v) keys
    → All (IsDelivered w) keys
All-IsDelivered v w [] k a = tt
All-IsDelivered v w (key ∷ keys) k a = (k key a.0, All-IsDelivered v w keys k a.1)

differs :
    (v : Urb) (os num : ℕ) (keys : List (ℕ × ℕ))
    → ((v.rows os).cells num).delivered ≡ false
    → All (IsDelivered v) keys
    → All (λ other. ¬ ((os ≡ other.0) × (num ≡ other.1))) keys
differs v os num [] n a = tt
differs v os num (key ∷ keys) n a = (λ e. ground arith, differs v os num keys n a.1)

still-IsDelivered :
    (fresh_acks : ℕ → Bool) (fresh : ℕ → Pam) (v w : Urb) (datagrams rest : List Datagram)
    (d : UrbDelivery)
    → IsValid v
    → urb_deliver fresh_acks fresh v datagrams ≡ returned w d rest
    → (key : ℕ × ℕ) → IsDelivered v key
    → IsDelivered w key
still-IsDelivered fresh_acks fresh v w datagrams rest d valid e key h = ground (
  arith,
  urb_deliver_frame fresh_acks fresh v datagrams key.0 key.1 valid e,
  urb_deliver_majority fresh_acks fresh v datagrams valid e,
)

Calls_keep :
    {u v : Urb} {keys : List (ℕ × ℕ)}
    → Calls u v keys
    → IsValid u
    → IsValid v × All (IsDelivered v) keys × Distinct keys
Calls_keep start valid = (valid, tt, tt)
Calls_keep (delivers {v} {w} {keys} fresh_acks fresh datagrams rest d c e) valid =
    let ih = Calls_keep c valid in
    let m = urb_deliver_majority fresh_acks fresh v datagrams ih.0 e in
    (
      m.0,
      (
        m.2,
        All-IsDelivered v w keys (still-IsDelivered fresh_acks fresh v w datagrams rest d ih.0 e)
            ih.1,
      ),
      (differs v d.os d.num keys m.1 ih.1, ih.2),
    )
Calls_keep (broadcasts {v} {w} {keys} message n c p z e) valid =
    let ih = Calls_keep c valid in
    let b = urb_broadcast-Handled v message n p ih.0 z e in
    (b.0, All-IsDelivered v w keys (λ key h. b.1 key.0 key.1 ∙ h) ih.1, ih.2)

-- No duplication: along any sequence of calls of `urb_broadcast` (each at a place of its row that
-- nobody has used) and of `urb_deliver`, from a valid table, no message is delivered twice.
pub Calls-Distinct : {u v : Urb} {keys : List (ℕ × ℕ)} → IsValid u → Calls u v keys → Distinct keys
Calls-Distinct valid c = (Calls_keep c valid).2

pub none_acked : count_acks max_processes (λ _. false) ≡ 0
unfolding count_acks
none_acked = refl

-- The table that `urb_init` sets up is valid, if the entries of the other rows were.
pub urb_init-IsValid :
    (u : Urb) (id : ℕ) (addrs : List SockAddr) (n : ℕ) {v : Urb}
    → IsValid u
    → urb_init u id addrs n ≡ some v
    → IsValid v
unfolding urb_init
urb_init-IsValid u id addrs n {v} valid e os num = ground (arith, valid os num, none_acked)
