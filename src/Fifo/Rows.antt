-- ===== src/Fifo/Rows.antt =====
-- The loops of `run_receiver` of template_cpp/src/src/fifo_broadcast_application.c over the rows of the table.
use native.Mathlib.Decide.{ℕ_discrete}
use cs451_2021_project.Base.{
  ℕ, zero, suc, ◌+◌, ◌-◌, ◌^◌, ◌≡◌, ◌≤◌, ◌<◌, ◌⊎◌, inl, inr, refl, sym, ap, ◌∙◌, subst, arith, true,
  false, List, [], ◌∷◌, ◌==◌, if◌then◌else◌, Bool-cases,
}
use cs451_2021_project.Urb.{accessible}
use cs451_2021_project.Lcb.Deliver.{Loop, done, crashed, no_fuel}
use cs451_2021_project.Lcb.Spec.{accessible-lt}
use cs451_2021_project.Fifo.{
  Fifo, FifoEntry, next_pam, deliver_next, fifo_row, fifo_visit, then_fifo, fifo_rows,
}

unfoldable pub count_of : ℕ → List FifoEntry → ℕ
count_of i [] = 0
count_of i (entry ∷ log) = (if entry.sender == i then 1 else 0) + count_of i log

-- Each entry is the next of its sender.
abbrev pub IsFifo : List FifoEntry → Type 0
IsFifo [] = Unit
IsFifo (entry ∷ log) = (entry.num ≡ count_of entry.sender log) × IsFifo log

-- The rows are small, and the positions count the log, which is in FIFO order.
pub record InOrder (s : Fifo) : Type 0 where
  pub small : (i : ℕ) → (s.urb.rows i).bytes < 2 ^ 32
  pub position : (i : ℕ) → s.delivered i ≡ count_of i s.log
  pub ordered : IsFifo s.log

deliver_next-InOrder :
    (s : Fifo) (i : ℕ)
    → accessible (s.urb.rows i) (s.delivered i) ≡ true
    → InOrder s
    → InOrder (deliver_next s i)
unfolding deliver_next count_of
deliver_next-InOrder s i a k = record {
  small = k.small;
  position =
      λ j. ground (arith, k.position j, k.small i, accessible-lt (s.urb.rows i) (s.delivered i) a);
  ordered = (k.position i, k.ordered);
}

-- The row has no memory, or its next message is not delivered by the layer below.
abbrev pub IsPassed : Fifo → ℕ → Type 0
IsPassed s i = ((s.urb.rows i).bytes ≡ 0) ⊎ ((next_pam s i).delivered ≡ false)

-- How a loop over rows ended, at `t` from `s`: the rows `P` are passed, and the others stay as they were.
pub record Passed (s t : Fifo) (P : ℕ → Type 0) : Type 0 where
  pub in_order : InOrder t
  pub urb : t.urb ≡ s.urb
  pub n_process : t.n_process ≡ s.n_process
  pub passed : (i : ℕ) → P i → IsPassed t i
  pub others : (i : ℕ) → ¬ P i → t.delivered i ≡ s.delivered i

abbrev pub LoopPasses : Fifo → (ℕ → Type 0) → Loop Fifo → Type 0
LoopPasses s P (done t) = Passed s t P
LoopPasses s P crashed = Unit
LoopPasses s P no_fuel = ⊥

behind_first :
    (s : Fifo) (i : ℕ) (r : Loop Fifo)
    → LoopPasses (deliver_next s i) (λ j. j ≡ i) r
    → LoopPasses s (λ j. j ≡ i) r
unfolding deliver_next
behind_first s i (done t) p = record {
  in_order = p.in_order;
  urb = p.urb;
  n_process = p.n_process;
  passed = p.passed;
  others = λ j other. p.others j other ∙ ground arith;
}
behind_first s i crashed p = tt
behind_first s i no_fuel p = p

fifo_less :
    (s : Fifo) (i : ℕ)
    → InOrder s
    → accessible (s.urb.rows i) (s.delivered i) ≡ true
    → (((deliver_next s i).urb.rows i).bytes - (deliver_next s i).delivered i) + 1
      ≤ (s.urb.rows i).bytes - s.delivered i
unfolding deliver_next
fifo_less s i k a = ground (arith, k.small i, accessible-lt (s.urb.rows i) (s.delivered i) a)

fifo_row-passes :
    (fuel : ℕ) (s : Fifo) (i : ℕ)
    → InOrder s
    → (s.urb.rows i).bytes - s.delivered i < fuel
    → LoopPasses s (λ j. j ≡ i) (fifo_row fuel s i)
unfolding fifo_row
fifo_row-passes zero s i k h = absurd (omega arith)
fifo_row-passes (suc fuel) s i k h = elim (Bool-cases (accessible (s.urb.rows i) (s.delivered i))) [
  | inr outside ↦ rw outside tt
  | inl inside ↦ elim (Bool-cases (next_pam s i).delivered) [
    | inl more ↦
        rw (inside, more)
          (behind_first s i (fifo_row fuel (deliver_next s i) i) (
            fifo_row-passes fuel (deliver_next s i) i (deliver_next-InOrder s i inside k)
              (omega (arith, fifo_less s i k inside))))
    | inr stop ↦
        rw (inside, stop)
          (record {
            in_order = k;
            urb = refl;
            n_process = refl;
            passed = λ j e. subst (IsPassed s) (sym e) (inr stop);
            others = λ j other. refl;
          })
  ]
]

fifo_visit-passes : (s : Fifo) (i : ℕ) → InOrder s → LoopPasses s (λ j. j ≡ i) (fifo_visit s i)
unfolding fifo_visit
fifo_visit-passes s i k = elim (Bool-cases ((s.urb.rows i).bytes == 0)) [
  | inl empty ↦ rw empty (record {
    in_order = k;
    urb = refl;
    n_process = refl;
    passed = λ j e. subst (IsPassed s) (sym e) (inl (ground arith));
    others = λ j other. refl;
  })
  | inr full ↦ rw full (fifo_row-passes (suc (s.urb.rows i).bytes) s i k (omega arith))
]

-- The rows from `i` on, `left` of them.
abbrev pub Between : ℕ → ℕ → ℕ → Type 0
Between i left j = (i ≤ j) × (j < i + left)

still-IsPassed :
    (s t : Fifo) (j : ℕ)
    → t.urb ≡ s.urb
    → t.delivered j ≡ s.delivered j
    → IsPassed s j
    → IsPassed t j
still-IsPassed s t j u d p =
    subst (λ r. ((r j).bytes ≡ 0) ⊎ (((r j).cells (t.delivered j)).delivered ≡ false))
      (ap (λ v. v.rows) (sym u))
      (subst (λ n. ((s.urb.rows j).bytes ≡ 0) ⊎ (((s.urb.rows j).cells n).delivered ≡ false))
        (sym d) p)

then_fifo-passes :
    (s : Fifo) (i left : ℕ) (continue : Fifo → Loop Fifo) (r : Loop Fifo)
    → ((t : Fifo) → InOrder t → LoopPasses t (Between (i + 1) left) (continue t))
    → LoopPasses s (λ j. j ≡ i) r
    → LoopPasses s (Between i (suc left)) (then_fifo continue r)
then_fifo-passes s i left continue crashed ih p = tt
then_fifo-passes s i left continue no_fuel ih p = p
then_fifo-passes s i left continue (done t) ih p = join (continue t) (ih t p.in_order)
  where
    join :
        (r : Loop Fifo)
        → LoopPasses t (Between (i + 1) left) r
        → LoopPasses s (Between i (suc left)) r
    join crashed q = tt
    join no_fuel q = q
    join (done u) q = record {
      in_order = q.in_order;
      urb = q.urb ∙ p.urb;
      n_process = q.n_process ∙ p.n_process;
      passed = λ j b. elim (ℕ_discrete j i) [
        | yes same ↦
            still-IsPassed t u j q.urb (q.others j (λ later. absurd (omega (arith, later.0, same))))
              (p.passed j same)
        | no other ↦ q.passed j (omega (arith, b.0, other), omega (arith, b.1))
      ];
      others = λ j outside.
          q.others j (λ later. outside (omega (arith, later.0), omega (arith, later.1)))
          ∙ p.others j (λ same. outside (omega (arith, same), omega (arith, same)));
    }

pub fifo_rows-passes :
    (left : ℕ) (s : Fifo) (i : ℕ) → InOrder s → LoopPasses s (Between i left) (fifo_rows left s i)
unfolding fifo_rows
fifo_rows-passes zero s i k = record {
  in_order = k;
  urb = refl;
  n_process = refl;
  passed = λ j b. absurd (omega (arith, b.0, b.1));
  others = λ j outside. refl;
}
fifo_rows-passes (suc left) s i k =
    then_fifo-passes s i left (λ t. fifo_rows left t (i + 1)) (fifo_visit s i)
      (λ t k'. fifo_rows-passes left t (i + 1) k') (fifo_visit-passes s i k)
