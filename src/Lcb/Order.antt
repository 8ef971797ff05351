-- ===== src/Lcb/Order.antt =====
-- The order of the deliveries of template_cpp/src/src/localized_causal_broadcast.c.
use cs451_2021_project.Base.{
  ℕ, ◌+◌, ◌^◌, ◌≡◌, ◌≤◌, ◌<◌, refl, arith, List, [], ◌∷◌, All, subst, sym, if◌then◌else◌, ◌==◌,
}
use cs451_2021_project.Lcb.{Lcb, Entry}
use cs451_2021_project.Lcb.Deliver.{done, deliver_entry, fill_content, drain}
use cs451_2021_project.Lcb.Spec.{
  Step, deliver, Steps, here, more, next_of-present, RowsAreSmall, accessible-lt,
}
use cs451_2021_project.Lcb.Refine.{Steps-RowsAreSmall}
use cs451_2021_project.Lcb.Drain.{drain_refines}

-- How many messages of the process are logged.
unfoldable pub count_from : ℕ → List Entry → ℕ
count_from i [] = 0
count_from i (entry ∷ log) = (if entry.sender == i then 1 else 0) + count_from i log

-- What holds of each entry and those logged before it: it is the next of its sender, and as many
-- messages as its clock says were logged before, of its sender and of each process that affects it.
abbrev pub IsOrdered : (ℕ → List ℕ) → List Entry → Type 0
IsOrdered causal [] = Unit
IsOrdered causal (entry ∷ log) =
    (entry.num ≡ count_from entry.sender log)
    × (entry.clock entry.sender ≤ count_from entry.sender log)
    × All (λ j. entry.clock j ≤ count_from j log) (causal entry.sender)
    × IsOrdered causal log

-- The clock and the positions in the rows count the logged messages.
pub record Counts (s : Lcb) : Type 0 where
  pub clock : (i : ℕ) → s.v_clock i ≡ count_from i s.log
  pub position : (i : ℕ) → s.delivered i ≡ count_from i s.log

All-known :
    (s : Lcb) (vec : ℕ → ℕ) (causes : List ℕ)
    → Counts s
    → All (λ j. vec j ≤ s.v_clock j) causes
    → All (λ j. vec j ≤ count_from j s.log) causes
All-known s vec [] k a = tt
All-known s vec (j ∷ causes) k a =
    (subst (λ n. vec j ≤ n) (k.clock j) a.0, All-known s vec causes k a.1)

deliver_entry-Counts :
    (s : Lcb) (entry : Entry)
    → s.delivered entry.sender + 1 < 2 ^ 32
    → Counts s
    → Counts (deliver_entry s entry)
unfolding deliver_entry count_from
deliver_entry-Counts s entry h k = record {
  clock = λ i. ground (arith, k.clock i, k.clock entry.sender, k.position entry.sender);
  position = λ i. ground (arith, k.position i, k.position entry.sender);
}

Step-IsOrdered :
    {s t : Lcb}
    → Step s t
    → RowsAreSmall s
    → Counts s
    → IsOrdered s.config.causal s.log
    → Counts t × IsOrdered s.config.causal t.log
unfolding deliver_entry
Step-IsOrdered {s} (deliver entry array b n y) small k o =
    let m = next_of-present s entry.sender n in
    (
      deliver_entry-Counts s (fill_content array entry)
          (omega (
            arith,
            small entry.sender,
            accessible-lt (s.urb.rows entry.sender) (s.delivered entry.sender) m.2,
          ))
          k,
      (
        omega (arith, m.1, k.position entry.sender),
        omega (arith, y.0, k.clock entry.sender),
        All-known s entry.clock (s.config.causal entry.sender) k y.1,
        o,
      ),
    )

Step-config : {s t : Lcb} → Step s t → t.config ≡ s.config
unfolding deliver_entry
Step-config (deliver entry array b n y) = refl

Steps-IsOrdered :
    {s t : Lcb} {c : ℕ}
    → Steps s t c
    → RowsAreSmall s
    → Counts s
    → IsOrdered s.config.causal s.log
    → Counts t × IsOrdered t.config.causal t.log
Steps-IsOrdered here small k o = (k, o)
Steps-IsOrdered (more {t} {u} r st) small k o =
    let ih = Steps-IsOrdered r small k o in
    let last = Step-IsOrdered st (Steps-RowsAreSmall r small) ih.0 ih.1 in
    (last.0, subst (λ c. IsOrdered c.causal u.log) (sym (Step-config st)) last.1)

-- Where the clock and the positions count the log and each row takes less than 2 ^ 32 bytes, the loops of
-- `lcb_deliver` keep the log in localized causal order: the messages of each sender are logged in the
-- order of their numbers, without a gap, and each only after as many messages, of its sender and of every
-- process that affects it, as its clock says.
pub drain-IsOrdered :
    (content : List ℕ) (s : Lcb) {t : Lcb}
    → RowsAreSmall s
    → Counts s
    → IsOrdered s.config.causal s.log
    → drain content s ≡ done t
    → Counts t × IsOrdered t.config.causal t.log
drain-IsOrdered content s small k o e =
    Steps-IsOrdered (drain_refines content s small e).1 small k o
