-- ===== src/Lcb/Drain.antt =====
-- The loops of `lcb_deliver` of template_cpp/src/src/localized_causal_broadcast.c against the specification.
use cs451_2021_project.Base.{
  ℕ, zero, suc, ◌+◌, ◌≡◌, ◌≢◌, ◌≤◌, ◌<◌, inl, inr, false, sym, arith, subst, List,
}
use cs451_2021_project.Lcb.{Lcb}
use cs451_2021_project.Lcb.Deliver.{
  Loop, done, crashed, no_fuel, Pass, drain_rows, after_rows, drain_all, memory, drain,
}
use cs451_2021_project.Lcb.Spec.{Steps, Steps-trans, Steps-urb, RowsAreSmall, left, Steps-left}
use cs451_2021_project.Lcb.Refine.{IsLeft, AreLeft, RowEnds, drain_rows_ends, Steps-RowsAreSmall}

-- The last state of the outer loop: reached by deliveries, and nothing more can be delivered.
abbrev AllEnds : Lcb → Loop Lcb → Type 0
AllEnds s (done t) = (c : ℕ) × Steps s t c × AreLeft t 0 (s.n_processes + 1)
AllEnds s crashed = Unit
AllEnds s no_fuel = ⊥

start_pass : List ℕ → Lcb → Pass
start_pass content s = record { lcb = s; continue_looping = false; content = content }

AllEnds-behind :
    (s t : Lcb) (c : ℕ) (r : Loop Lcb)
    → Steps s t c
    → t.n_processes ≡ s.n_processes
    → AllEnds t r
    → AllEnds s r
AllEnds-behind s t c (done u) steps n (d, steps', b) =
    let (k, size, all) = Steps-trans steps steps' in (k, all, subst (λ m. AreLeft u 0 (m + 1)) n b)
AllEnds-behind s t c crashed steps n e = tt
AllEnds-behind s t c no_fuel steps n e = e

after_rows_ends :
    (content : List ℕ) (s : Lcb) (continue : List ℕ → Lcb → Loop Lcb) (r : Loop Pass)
    → RowsAreSmall s
    → ((array : List ℕ) (t : Lcb) (c : ℕ) → 1 ≤ c → Steps s t c → AllEnds t (continue array t))
    → RowEnds (start_pass content s) (AreLeft s 0 (s.n_processes + 1)) r
    → AllEnds s (after_rows continue r)
unfolding start_pass
after_rows_ends content s continue (done q) small ih (c, steps, inl (e, x)) =
    rw e.1 (c, steps, subst (λ t. AreLeft t 0 (s.n_processes + 1)) (sym e.0) x)
after_rows_ends content s continue (done q) small ih (c, steps, inr (one, f)) = rw f (
    AllEnds-behind s q.lcb c (continue q.content q.lcb) steps (Steps-urb steps).1
      (ih q.content q.lcb c one steps))
after_rows_ends content s continue crashed small ih e = tt
after_rows_ends content s continue no_fuel small ih e = e

drain_all_ends :
    (fuel : ℕ) (content : List ℕ) (s : Lcb)
    → RowsAreSmall s
    → left s (s.n_processes + 1) < fuel
    → AllEnds s (drain_all fuel content s)
unfolding drain_all start_pass
drain_all_ends zero content s small h = absurd (omega arith)
drain_all_ends (suc fuel) content s small h =
    after_rows_ends content s (drain_all fuel)
      (drain_rows (s.n_processes + 1) (start_pass content s) 0) small
      (λ array t c one steps. drain_all_ends fuel array t (Steps-RowsAreSmall steps small) (
        subst (λ m. left t (m + 1) < fuel) (sym (Steps-urb steps).1)
          (omega (arith, Steps-left steps small))))
      (drain_rows_ends (s.n_processes + 1) (start_pass content s) 0 small (omega arith))

left-le-memory : (s : Lcb) (k : ℕ) → left s k ≤ memory s k
unfolding left memory
left-le-memory s zero = omega arith
left-le-memory s (suc k) = omega (arith, left-le-memory s k)

drain_ends : (content : List ℕ) (s : Lcb) → RowsAreSmall s → AllEnds s (drain content s)
unfolding drain
drain_ends content s small =
    drain_all_ends (suc (memory s (s.n_processes + 1))) content s small
      (omega (arith, left-le-memory s (s.n_processes + 1)))

-- If the rows of the table take less than 2 ^ 32 bytes each, the loops of `lcb_deliver` end within the
-- fuel of the model, which is the memory of the rows.
pub drain_finishes : (content : List ℕ) (s : Lcb) → RowsAreSmall s → drain content s ≢ no_fuel
drain_finishes content s small e = subst (AllEnds s) e (drain_ends content s small)

-- If the rows of the table take less than 2 ^ 32 bytes each and the loops of `lcb_deliver` end in a state,
-- then a number of deliveries, each allowed by the specification, lead to that state.
pub drain_refines :
    (content : List ℕ) (s : Lcb) {t : Lcb}
    → RowsAreSmall s
    → drain content s ≡ done t
    → (c : ℕ) × Steps s t c
drain_refines content s small e =
    let r = subst (AllEnds s) e (drain_ends content s small) in (r.0, r.1)

-- If the rows of the table take less than 2 ^ 32 bytes each, then in the state in which the loops of
-- `lcb_deliver` end nothing can be delivered: in each row up to `n_processes` that has memory, the next
-- message is not there, or its causes are not all known.
pub drain_completes :
    (content : List ℕ) (s : Lcb) (j : ℕ) {t : Lcb}
    → RowsAreSmall s
    → j ≤ s.n_processes
    → drain content s ≡ done t
    → IsLeft t j
drain_completes content s j small h e =
    (subst (AllEnds s) e (drain_ends content s small)).2 j (omega arith) (omega arith)
