-- ===== src/Lcb/Refine.antt =====
-- The loop over the rows in `lcb_deliver` of template_cpp/src/src/localized_causal_broadcast.c.
use native.Mathlib.Decide.{ℕ_discrete}
use cs451_2021_project.Base.{
  ℕ, zero, suc, ◌+◌, ◌-◌, ◌≡◌, ◌≤◌, ◌<◌, ◌⊎◌, inl, inr, true, refl, sym, ap, ◌∙◌, arith, Bool-cases,
  subst, ◌==◌, ltb, List,
}
use cs451_2021_project.Address.{max_processes}
use cs451_2021_project.Lcb.{Lcb, Entry, check_local_causality}
use cs451_2021_project.Lcb.Deliver.{
  Loop, done, crashed, no_fuel, Pass, Next, absent, present, outside, next_of, deliver_entry,
  fill_content, on_next, drain_row, row_fuel, then_rows, visit_row, drain_rows,
}
use cs451_2021_project.Lcb.Spec.{
  Step, deliver, Steps, here, more, Steps-trans, Steps-urb, next_of-present, ready_lem,
  not_ready_lem, Checked-cases, IsReady, RowsAreSmall, left, accessible-lt,
}

-- The next message of the row is not there yet, or has to wait for another.
abbrev pub Waits : Lcb → Next → Type 0
Waits s absent = Unit
Waits s (present entry) = ¬ IsReady s entry.clock entry.sender
Waits s outside = ⊥

abbrev pub IsBlocked : Lcb → ℕ → Type 0
IsBlocked s i = Waits s (next_of s i)

-- Nothing changed but the array `content`.
abbrev pub Keeps : Pass → Pass → Type 0
Keeps p q = (q.lcb ≡ p.lcb) × (q.continue_looping ≡ p.continue_looping)

-- How a loop over rows ended, at `q` from `p`: nothing was delivered and all that it looked at is
-- blocked, or something was.
abbrev pub Ended : Pass → Pass → Type 0 → Type 0
Ended p q blocked =
    (c : ℕ) × Steps p.lcb q.lcb c
    × ((Keeps p q × blocked) ⊎ ((1 ≤ c) × (q.continue_looping ≡ true)))

abbrev pub RowEnds : Pass → Type 0 → Loop Pass → Type 0
RowEnds p blocked (done q) = Ended p q blocked
RowEnds p blocked crashed = Unit
RowEnds p blocked no_fuel = ⊥

prepend :
    (p q : Pass) (blocked blocked' : Type 0)
    → q.continue_looping ≡ true
    → Step p.lcb q.lcb
    → (r : Loop Pass) → RowEnds q blocked' r
    → RowEnds p blocked r
prepend p q blocked blocked' f st (done r) (c, steps, inl (e, b)) =
    let (n, size, r') = Steps-trans (more here st) steps in (n, r', inr (omega arith, e.1 ∙ f))
prepend p q blocked blocked' f st (done r) (c, steps, inr (one, g)) =
    let (n, size, r') = Steps-trans (more here st) steps in (n, r', inr (omega arith, g))
prepend p q blocked blocked' f st crashed e = tt
prepend p q blocked blocked' f st no_fuel e = e

-- The state behind a delivery, with the flag set.
abbrev delivered_pass : Pass → Entry → Pass
delivered_pass p entry = record {
  lcb = deliver_entry p.lcb (fill_content p.content entry);
  continue_looping = true;
  content = (fill_content p.content entry).content;
}

on_next_ends :
    (p : Pass) (i : ℕ) (again : Pass → Loop Pass) (n : Next)
    → i ≤ p.lcb.n_processes
    → next_of p.lcb i ≡ n
    → ((entry : Entry)
        → next_of p.lcb i ≡ present entry
        → RowEnds
            (delivered_pass p entry)
            (IsBlocked (delivered_pass p entry).lcb i)
            (again (delivered_pass p entry)))
    → RowEnds p (IsBlocked p.lcb i) (on_next again p n)
on_next_ends p i again absent b e ih = (0, here, inl ((refl, refl), rw e tt))
on_next_ends p i again outside b e ih = tt
on_next_ends p i again (present entry) b e ih =
    elim (Checked-cases (check_local_causality p.lcb entry.clock entry.sender)) [
      | inl fails ↦ rw fails tt
      | inr (inl ready) ↦ rw ready (
          prepend p (delivered_pass p entry) (IsBlocked p.lcb i)
            (IsBlocked (delivered_pass p entry).lcb i) refl
            (deliver entry p.content (omega (arith, (next_of-present p.lcb i e).0))
              (subst (λ j. next_of p.lcb j ≡ present entry) (sym (next_of-present p.lcb i e).0) e)
              (ready_lem p.lcb entry.clock entry.sender ready))
            (again (delivered_pass p entry)) (ih entry e))
      | inr (inr waits) ↦
          rw waits
            (0, here, inl ((refl, refl), rw e (not_ready_lem p.lcb entry.clock entry.sender waits)))
    ]

deliver_entry-RowsAreSmall :
    (s : Lcb) (entry : Entry) → RowsAreSmall s → RowsAreSmall (deliver_entry s entry)
unfolding deliver_entry
deliver_entry-RowsAreSmall s entry small = small

in_range :
    (s : Lcb) (entry : Entry) {i : ℕ} → i ≤ s.n_processes → i ≤ (deliver_entry s entry).n_processes
unfolding deliver_entry
in_range s entry b = b

pub Steps-RowsAreSmall : {s t : Lcb} {c : ℕ} → Steps s t c → RowsAreSmall s → RowsAreSmall t
Steps-RowsAreSmall steps small i = rw (Steps-urb steps).0 (small i)

delivered_less :
    (s : Lcb) (i : ℕ) (entry : Entry) (array : List ℕ)
    → RowsAreSmall s
    → next_of s i ≡ present entry
    → (((deliver_entry s (fill_content array entry)).urb.rows i).bytes
          - (deliver_entry s (fill_content array entry)).delivered i)
        + 1
      ≤ (s.urb.rows i).bytes - s.delivered i
unfolding deliver_entry
delivered_less s i entry array small e =
    let m = next_of-present s i e in
    ground (arith, m, small i, accessible-lt (s.urb.rows i) (s.delivered i) m.2)

drain_row_ends :
    (fuel : ℕ) (p : Pass) (i : ℕ)
    → RowsAreSmall p.lcb
    → i ≤ p.lcb.n_processes
    → (p.lcb.urb.rows i).bytes - p.lcb.delivered i < fuel
    → RowEnds p (IsBlocked p.lcb i) (drain_row fuel p i)
unfolding drain_row
drain_row_ends zero p i small b h = absurd (omega arith)
drain_row_ends (suc fuel) p i small b h =
    on_next_ends p i (λ q. drain_row fuel q i) (next_of p.lcb i) b refl
      (λ entry e.
        drain_row_ends fuel (delivered_pass p entry) i
          (deliver_entry-RowsAreSmall p.lcb (fill_content p.content entry) small)
          (in_range p.lcb (fill_content p.content entry) b)
          (omega (arith, delivered_less p.lcb i entry p.content small e)))

-- The loop leaves the row: it has no memory, or is blocked.
abbrev pub IsLeft : Lcb → ℕ → Type 0
IsLeft s i = ((s.urb.rows i).bytes ≡ 0) ⊎ IsBlocked s i

abbrev pub AreLeft : Lcb → ℕ → ℕ → Type 0
AreLeft s i n = (j : ℕ) → i ≤ j → j < i + n → IsLeft s j

weaken : (p : Pass) (a b : Type 0) (r : Loop Pass) → (a → b) → RowEnds p a r → RowEnds p b r
weaken p a b (done q) f (c, steps, inl (e, x)) = (c, steps, inl (e, f x))
weaken p a b (done q) f (c, steps, inr x) = (c, steps, inr x)
weaken p a b crashed f e = tt
weaken p a b no_fuel f e = e

visit_row_ends :
    (p : Pass) (i : ℕ)
    → RowsAreSmall p.lcb
    → i ≤ p.lcb.n_processes
    → RowEnds p (IsLeft p.lcb i) (visit_row p i)
unfolding visit_row
visit_row_ends p i small b = elim (Bool-cases (ltb i max_processes)) [
  | inr beyond ↦ rw beyond tt
  | inl below ↦ elim (Bool-cases ((p.lcb.urb.rows i).bytes == 0)) [
    | inl empty ↦ rw (below, empty) (0, here, inl ((refl, refl), inl (ground arith)))
    | inr full ↦
        rw (below, full)
          (weaken p (IsBlocked p.lcb i) (IsLeft p.lcb i) (drain_row (row_fuel p.lcb i) p i)
            (λ w. inr w) (drain_row_ends (row_fuel p.lcb i) p i small b (omega arith)))
  ]
]

-- What a loop does behind a part that has delivered something.
behind :
    (p q : Pass) (c : ℕ) (a b : Type 0) (r : Loop Pass)
    → Steps p.lcb q.lcb c
    → 1 ≤ c
    → q.continue_looping ≡ true
    → RowEnds q a r
    → RowEnds p b r
behind p q c a b (done r) steps one f (d, steps', inl (e, x)) =
    let (n, size, s) = Steps-trans steps steps' in (n, s, inr (omega arith, e.1 ∙ f))
behind p q c a b (done r) steps one f (d, steps', inr (g, h)) =
    let (n, size, s) = Steps-trans steps steps' in (n, s, inr (omega arith, h))
behind p q c a b crashed steps one f e = tt
behind p q c a b no_fuel steps one f e = e

-- What a loop does behind a part that has delivered nothing.
kept : (p q : Pass) (a : Type 0) (r : Loop Pass) → Keeps p q → RowEnds q a r → RowEnds p a r
kept p q a (done r) e (c, steps, inl (f, x)) =
    (c, subst (λ s. Steps s r.lcb c) e.0 steps, inl ((f.0 ∙ e.0, f.1 ∙ e.1), x))
kept p q a (done r) e (c, steps, inr x) = (c, subst (λ s. Steps s r.lcb c) e.0 steps, inr x)
kept p q a crashed e x = tt
kept p q a no_fuel e x = x

-- The rows that are left to visit, behind the first.
then_rows_ends :
    (p : Pass) (i left : ℕ) (continue : Pass → Loop Pass) (r : Loop Pass)
    → RowsAreSmall p.lcb
    → ((q : Pass)
        → RowsAreSmall q.lcb
        → q.lcb.n_processes ≡ p.lcb.n_processes
        → RowEnds q (AreLeft q.lcb (i + 1) left) (continue q))
    → RowEnds p (IsLeft p.lcb i) r
    → RowEnds p (AreLeft p.lcb i (suc left)) (then_rows continue r)
then_rows_ends p i left continue (done q) small ih (c, steps, inl (e, x)) =
    weaken p (AreLeft q.lcb (i + 1) left) (AreLeft p.lcb i (suc left)) (continue q)
      (λ rest j lo hi. elim (ℕ_discrete i j) [
        | yes same ↦ subst (IsLeft p.lcb) same x
        | no other ↦ subst (λ s. IsLeft s j) e.0 (rest j (omega arith) (omega arith))
      ])
      (kept p q (AreLeft q.lcb (i + 1) left) (continue q) e
        (ih q (subst RowsAreSmall (sym e.0) small) (ap (λ s. s.n_processes) e.0)))
then_rows_ends p i left continue (done q) small ih (c, steps, inr (one, f)) =
    behind p q c (AreLeft q.lcb (i + 1) left) (AreLeft p.lcb i (suc left)) (continue q) steps one f
      (ih q (Steps-RowsAreSmall steps small) (Steps-urb steps).1)
then_rows_ends p i left continue crashed small ih e = tt
then_rows_ends p i left continue no_fuel small ih e = e

pub drain_rows_ends :
    (left : ℕ) (p : Pass) (i : ℕ)
    → RowsAreSmall p.lcb
    → i + left ≤ p.lcb.n_processes + 1
    → RowEnds p (AreLeft p.lcb i left) (drain_rows left p i)
unfolding drain_rows
drain_rows_ends zero p i small b = (0, here, inl ((refl, refl), λ j lo hi. absurd (omega arith)))
drain_rows_ends (suc left) p i small b =
    then_rows_ends p i left (λ q. drain_rows left q (i + 1)) (visit_row p i) small
      (λ q small' same. drain_rows_ends left q (i + 1) small' (omega arith))
      (visit_row_ends p i small (omega arith))
