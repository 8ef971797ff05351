-- ===== src/Urb/Handled.antt =====
-- What the handling of packets by template_cpp/src/src/uniform_reliable_broadcast.c keeps of the table.
use cs451_2021_project.Base.{
  ℕ, ◌≡◌, ◌≤◌, ◌<◌, ◌⊎◌, inl, inr, false, refl, ap, ◌∙◌, arith, update, take, ◌&&◌, List, length,
  some, Bool-cases, ltb, leb, ltb→lt,
}
use cs451_2021_project.Address.{max_processes}
use cs451_2021_project.PerfectLinks.{move_down}
use cs451_2021_project.Urb.{
  Urb, Pam, Row, fill_pam, check_pam_table, accessible, pam_alloc, put_pam, urb_metadata_len,
}
use cs451_2021_project.Urb.Deliver.{count_ack, relay_row, handle_pam}
use cs451_2021_project.Urb.Cells.{CellIsValid, IsValid, count_ack-CellIsValid, fill_pam-CellIsValid}
use cs451_2021_project.Urb.Growth.{check_pam_table_too_small}

-- The same entries are delivered.
abbrev pub SameFlags : Urb → Urb → Type 0
SameFlags u v = (os num : ℕ) → ((v.rows os).cells num).delivered ≡ ((u.rows os).cells num).delivered

-- What the handling of packets keeps.
abbrev pub Handled : Urb → Urb → Type 0
Handled u v = IsValid v × SameFlags u v × (v.n_processes ≡ u.n_processes)

-- An entry after it was handled.
abbrev pub Kept : Pam → Pam → Type 0
Kept pam pam' = CellIsValid pam' × (pam'.delivered ≡ pam.delivered)

count_ack-Kept :
    (pam : Pam) (s : ℕ)
    → s < max_processes
    → CellIsValid pam
    → 1 ≤ pam.sum
    → Kept pam (count_ack pam s)
unfolding count_ack
count_ack-Kept pam s h v p = (count_ack-CellIsValid pam s h v p, ground arith)

pub fill_pam-Kept :
    (pam : Pam) (s : ℕ) (content : List ℕ) (n : ℕ)
    → s < max_processes
    → CellIsValid pam
    → pam.sum ≡ 0
    → Kept pam (fill_pam pam s content n)
unfolding fill_pam
fill_pam-Kept pam s content n h v z = (fill_pam-CellIsValid pam s content n h v z, ground arith)

pub put-Handled :
    (u v : Urb) (os num : ℕ) (row : Row) (pam : Pam)
    → IsValid u
    → Kept ((u.rows os).cells num) pam
    → row.cells ≡ update (u.rows os).cells num pam
    → v.rows ≡ update u.rows os row
    → v.n_processes ≡ u.n_processes
    → Handled u v
put-Handled u v os num row pam valid k c r n =
    (λ o m. ground (arith, valid o m), λ o m. ground (arith, valid o m), n)

relay_row-Handled :
    (u : Urb) (os num : ℕ) (buffer : List ℕ) (n : ℕ) (row : Row) {v : Urb} (pam : Pam)
    → IsValid u
    → Kept ((u.rows os).cells num) pam
    → row.cells ≡ update (u.rows os).cells num pam
    → relay_row u os buffer n (some row) ≡ some v
    → Handled u v
relay_row-Handled u os num buffer n row {v} pam valid k c e =
    put-Handled u v os num row pam valid k c (ground arith) (ground arith)

pam_alloc-Handled :
    (u : Urb) (os s num : ℕ) (content buffer : List ℕ) (n size : ℕ) {v : Urb}
    → s < max_processes
    → IsValid u
    → ((u.rows os).cells num).sum ≡ 0
    → relay_row u os buffer size (pam_alloc (u.rows os) s num content n) ≡ some v
    → Handled u v
unfolding pam_alloc
pam_alloc-Handled u os s num content buffer n size {v} h valid z e =
    elim (Bool-cases
      (accessible (u.rows os) num && (ltb s max_processes && leb 255 (length content)))) [
        | inl fits ↦
            relay_row-Handled u os num buffer size _ (fill_pam ((u.rows os).cells num) s content n)
              valid (fill_pam-Kept ((u.rows os).cells num) s content n h (valid os num) z) refl
              (rw fits at e)
        | inr over ↦ absurd (ground arith)
      ]

-- The row that `handle_pam` works on is the one of the table: a row that had to grow is a fault.
handle_pam_row :
    (fresh : ℕ → Pam) (u : Urb) (os s num : ℕ) (message : List ℕ) (n : ℕ) {v : Urb}
    → handle_pam fresh u os s num message n ≡ some v
    → ltb (u.rows os).size num ≡ false
unfolding handle_pam
handle_pam_row fresh u os s num message n e = elim (Bool-cases (ltb (u.rows os).size num)) [
  | inl grows ↦
      absurd (ground (arith, check_pam_table_too_small fresh (u.rows os) num (ltb→lt _ _ grows)))
  | inr fits ↦ fits
]

pub handle_pam_cases :
    (fresh : ℕ → Pam) (u : Urb) (os s num : ℕ) (message : List ℕ) (n : ℕ) {v : Urb}
    → handle_pam fresh u os s num message n ≡ some v
    → let row = u.rows os in
      ((1 ≤ (row.cells num).sum)
        × (v
            ≡ record u { rows = update u.rows os (put_pam row num (count_ack (row.cells num) s)) }))
      ⊎ (((row.cells num).sum ≡ 0)
          × (relay_row u os
                (take n message)
                n
                (pam_alloc row s num (move_down message n urb_metadata_len) n)
              ≡ some v))
unfolding handle_pam check_pam_table
handle_pam_cases fresh u os s num message n {v} e =
    let fits = handle_pam_row fresh u os s num message n e in ground arith

pub handle_pam-Handled :
    (fresh : ℕ → Pam) (u : Urb) (os s num : ℕ) (message : List ℕ) (n : ℕ) {v : Urb}
    → s < max_processes
    → IsValid u
    → handle_pam fresh u os s num message n ≡ some v
    → Handled u v
handle_pam-Handled fresh u os s num message n {v} h valid e =
    elim (handle_pam_cases fresh u os s num message n e) [
      | inl (known, eq) ↦
          put-Handled u v os num _ (count_ack ((u.rows os).cells num) s) valid
            (count_ack-Kept ((u.rows os).cells num) s h (valid os num) known) refl
            (ap (λ w. w.rows) eq) (ap (λ w. w.n_processes) eq)
      | inr (unknown, eq) ↦ pam_alloc-Handled u os s num _ _ n n h valid unknown eq
    ]

pub Handled-trans : (u v w : Urb) → Handled u v → Handled v w → Handled u w
Handled-trans u v w h k = (k.0, λ o m. k.1 o m ∙ h.1 o m, k.2 ∙ h.2)
