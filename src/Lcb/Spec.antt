-- ===== src/Lcb/Spec.antt =====
-- A specification of localized causal delivery, for template_cpp/src/src/localized_causal_broadcast.c: one
-- message after the other, each when the processes that affect its sender have been heard of as far as its
-- clock says.
use cs451_2021_project.Base.{
  ℕ, zero, suc, ◌+◌, ◌-◌, ◌*◌, ◌^◌, ◌↔◌, ◌≡◌, ◌≤◌, ◌<◌, ◌≢◌, ◌⊎◌, inl, inr, Bool, true, false, refl,
  arith, List, [], ◌∷◌, All, Option, none, some,
}
use cs451_2021_project.Serializer.{deserialize}
use cs451_2021_project.Address.{max_processes}
use cs451_2021_project.Urb.{Pam, Row, accessible}
use cs451_2021_project.Lcb.{Lcb, Entry, check_causes, check_local_causality}
use cs451_2021_project.Lcb.Deliver.{
  present, next_of, read_entry, entry_fields, deliver_entry, fill_content,
}

-- The sender's own messages and those of the processes that affect it are delivered as far as the
-- clock says.
abbrev pub CausesKnown : (ℕ → ℕ) → (ℕ → ℕ) → List ℕ → Type 0
CausesKnown v_clock vec causes = All (λ j. vec j ≤ v_clock j) causes

check_causes_lem :
    (v_clock vec : ℕ → ℕ) (causes : List ℕ)
    → check_causes v_clock vec causes ≡ some true
    → CausesKnown v_clock vec causes
unfolding check_causes
check_causes_lem v_clock vec [] e = tt
check_causes_lem v_clock vec (j ∷ causes) e = ground (arith, check_causes_lem v_clock vec causes)

causes_unknown :
    (v_clock vec : ℕ → ℕ) (causes : List ℕ)
    → check_causes v_clock vec causes ≡ some false
    → ¬ CausesKnown v_clock vec causes
unfolding check_causes
causes_unknown v_clock vec [] e k = absurd (cc)
causes_unknown v_clock vec (j ∷ causes) e k = ground (arith, k, causes_unknown v_clock vec causes)

-- The causes are indices of the clocks.
abbrev pub CausesFit : List ℕ → Type 0
CausesFit causes = All (λ j. j < max_processes) causes

causes_checked :
    (v_clock vec : ℕ → ℕ) (causes : List ℕ)
    → CausesFit causes
    → check_causes v_clock vec causes ≢ none
unfolding check_causes
causes_checked v_clock vec [] f e = absurd (cc)
causes_checked v_clock vec (j ∷ causes) f e = ground (arith, f, causes_checked v_clock vec causes)

abbrev pub IsReady : Lcb → (ℕ → ℕ) → ℕ → Type 0
IsReady s vec id = (vec id ≤ s.v_clock id) × CausesKnown s.v_clock vec (s.config.causal id)

pub ready_lem :
    (s : Lcb) (vec : ℕ → ℕ) (id : ℕ) → check_local_causality s vec id ≡ some true → IsReady s vec id
unfolding check_local_causality
ready_lem s vec id e = ground (arith, check_causes_lem s.v_clock vec (s.config.causal id))

pub not_ready_lem :
    (s : Lcb) (vec : ℕ → ℕ) (id : ℕ)
    → check_local_causality s vec id ≡ some false
    → ¬ IsReady s vec id
unfolding check_local_causality
not_ready_lem s vec id e r = ground (arith, causes_unknown s.v_clock vec (s.config.causal id), r)

pub check_local_causality-ne-none :
    (s : Lcb) (vec : ℕ → ℕ) (id : ℕ)
    → id < max_processes
    → CausesFit (s.config.causal id)
    → check_local_causality s vec id ≢ none
unfolding check_local_causality
check_local_causality-ne-none s vec id b f e =
    ground (arith, causes_checked s.v_clock vec (s.config.causal id) f)

-- How the test can end.
pub Checked-cases : (r : Option Bool) → (r ≡ none) ⊎ ((r ≡ some true) ⊎ (r ≡ some false))
Checked-cases none = inl refl
Checked-cases (some true) = inr (inl refl)
Checked-cases (some false) = inr (inr refl)

-- Where the sender and the processes that affect it are below `MAX_PROCESSES`, `check_local_causality` stays within
-- the arrays and decides exactly whether the clock is at most the local one at the sender and at every process
-- that affects it.
pub check_local_causality_iff :
    (s : Lcb) (vec : ℕ → ℕ) (id : ℕ)
    → id < max_processes
    → CausesFit (s.config.causal id)
    → ((check_local_causality s vec id ≡ some true) ↔ IsReady s vec id)
      × ((check_local_causality s vec id ≡ some false) ↔ (¬ IsReady s vec id))
check_local_causality_iff s vec id b f = elim (Checked-cases (check_local_causality s vec id)) [
  | inl fails ↦ absurd (check_local_causality-ne-none s vec id b f fails)
  | inr (inl now) ↦ (
    (λ e. ready_lem s vec id e, λ r. now),
    (λ e. not_ready_lem s vec id e, λ n. absurd (n (ready_lem s vec id now))),
  )
  | inr (inr later) ↦ (
    (λ e. ready_lem s vec id e, λ r. absurd (not_ready_lem s vec id later r)),
    (λ e. not_ready_lem s vec id e, λ n. later),
  )
]

-- The delivery of the next message of one of the rows up to `n_processes`, whatever the array holds behind it.
pub data Step (s : Lcb) : Lcb → Type 0 where
  deliver :
      (entry : Entry) (array : List ℕ)
      → entry.sender ≤ s.n_processes
      → next_of s entry.sender ≡ present entry
      → IsReady s entry.clock entry.sender
      → Step s (deliver_entry s (fill_content array entry))

-- A number of deliveries.
pub data Steps (s : Lcb) : Lcb → ℕ → Type 0 where
  here : Steps s s 0
  more : {t u : Lcb} {c : ℕ} → Steps s t c → Step t u → Steps s u (suc c)

pub Steps-trans :
    {s t u : Lcb} {c d : ℕ} → Steps s t c → Steps t u d → (n : ℕ) × (n ≡ c + d) × Steps s u n
Steps-trans {c} a here = (c, omega arith, a)
Steps-trans a (more b st) = let (n, e, r) = Steps-trans a b in (suc n, omega arith, more r st)

entry_fields-sender :
    (n sender num : ℕ) (fields : Option (List (List ℕ))) {entry : Entry}
    → entry_fields n sender num fields ≡ some entry
    → (entry.sender ≡ sender) × (entry.num ≡ num)
unfolding entry_fields
entry_fields-sender n sender num none e = absurd (cc)
entry_fields-sender n sender num (some []) e = absurd (cc)
entry_fields-sender n sender num (some (a ∷ [])) e = absurd (cc)
entry_fields-sender n sender num (some (a ∷ b ∷ [])) e = ground arith
entry_fields-sender n sender num (some (a ∷ b ∷ c ∷ l)) e = absurd (cc)

read_entry-sender :
    (n sender num : ℕ) (pam : Pam) {entry : Entry}
    → read_entry n sender num pam ≡ some entry
    → (entry.sender ≡ sender) × (entry.num ≡ num)
unfolding read_entry
read_entry-sender n sender num pam e = ground (
  arith,
  entry_fields-sender n sender num (deserialize pam.content (n * 4 ∷ (pam.n - n * 4) ∷ [])),
)

pub next_of-present :
    (s : Lcb) (i : ℕ) {entry : Entry}
    → next_of s i ≡ present entry
    → (entry.sender ≡ i)
      × (entry.num ≡ s.delivered i)
      × (accessible (s.urb.rows i) (s.delivered i) ≡ true)
unfolding next_of
next_of-present s i {entry} e = ground (
  arith,
  read_entry-sender s.n_processes i (s.delivered i) ((s.urb.rows i).cells (s.delivered i))
      {entry = entry},
)

-- What deliveries leave alone.
pub Steps-urb :
    {s t : Lcb} {c : ℕ}
    → Steps s t c
    → (t.urb ≡ s.urb) × (t.n_processes ≡ s.n_processes) × (t.config ≡ s.config)
unfolding deliver_entry
Steps-urb here = (refl, refl, refl)
Steps-urb (more r (deliver entry array b n y)) = Steps-urb r

-- The rows fit into 32-bit counters, as those of `urb_init` do.
abbrev pub RowsAreSmall : Lcb → Type 0
RowsAreSmall s = (i : ℕ) → (s.urb.rows i).bytes < 2 ^ 32

-- The messages that the first `k` rows can still hold.
unfoldable pub left : Lcb → ℕ → ℕ
left s zero = 0
left s (suc k) = ((s.urb.rows k).bytes - s.delivered k) + left s k

left-above :
    (s : Lcb) (entry : Entry) (k : ℕ) → k ≤ entry.sender → left (deliver_entry s entry) k ≡ left s k
unfolding left deliver_entry
left-above s entry zero h = refl
left-above s entry (suc k) h = ground (arith, left-above s entry k)

-- A delivery from one of the first `k` rows leaves less room.
pub left-below :
    (s : Lcb) (entry : Entry) (k : ℕ)
    → entry.sender < k
    → s.delivered entry.sender < (s.urb.rows entry.sender).bytes
    → (s.urb.rows entry.sender).bytes < 2 ^ 32
    → left (deliver_entry s entry) k + 1 ≤ left s k
unfolding left deliver_entry
left-below s entry zero h d b = absurd (omega arith)
left-below s entry (suc k) h d b = ground (arith, left-below s entry k, left-above s entry k)

pub accessible-lt : (row : Row) (num : ℕ) → accessible row num ≡ true → num < row.bytes
unfolding accessible
accessible-lt row num e = ground arith

-- So a number of deliveries is at most the room that there was.
pub Steps-left :
    {s t : Lcb} {c : ℕ}
    → Steps s t c
    → RowsAreSmall s
    → left t (s.n_processes + 1) + c ≤ left s (s.n_processes + 1)
Steps-left here small = omega arith
Steps-left {s} (more {t} {c = c} r (deliver entry array b n y)) small =
    let kept = Steps-urb r in
    let room =
      left-below t (fill_content array entry) (s.n_processes + 1) (omega (arith, kept.1))
        (accessible-lt (t.urb.rows entry.sender) (t.delivered entry.sender)
          (next_of-present t entry.sender n).2)
        (rw kept.0 (small entry.sender)) in
    omega (arith, room, Steps-left r small)
