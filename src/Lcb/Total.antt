-- ===== src/Lcb/Total.antt =====
-- When the loops of `lcb_deliver` of template_cpp/src/src/localized_causal_broadcast.c stay within the arrays.
use cs451_2021_project.Base.{
  ℕ, zero, suc, ◌+◌, ◌*◌, ◌≡◌, ◌≢◌, ◌≤◌, inl, inr, true, false, refl, sym, arith, none, Bool-cases,
  Option-cases, subst, ◌==◌, length, List, ltb, ◌<◌,
}
use cs451_2021_project.Serializer.{deserialize}
use cs451_2021_project.Address.{max_processes}
use cs451_2021_project.Urb.{Pam, Row, accessible}
use cs451_2021_project.Lcb.{Lcb, Entry, check_local_causality}
use cs451_2021_project.Lcb.Deliver.{
  Loop, done, crashed, no_fuel, Pass, Next, absent, present, outside, next_of, read_entry,
  deliver_entry, fill_content, on_next, drain_row, row_fuel, then_rows, visit_row, drain_rows,
  after_rows, drain_all, drain,
}
use cs451_2021_project.Lcb.Spec.{
  Steps, RowsAreSmall, next_of-present, accessible-lt, CausesFit, Checked-cases,
  check_local_causality-ne-none,
}
use cs451_2021_project.Lcb.Refine.{IsLeft}
use cs451_2021_project.Lcb.Drain.{drain_finishes, drain_refines, drain_completes}

-- A stored message holds a clock, within its content.
abbrev pub IsReadable : ℕ → Pam → Type 0
IsReadable n pam = (n * 4 ≤ pam.n) × (pam.n ≤ length pam.content)

-- Row `i` ends, within its memory and at or behind the position in it, with an entry that is not
-- delivered; the delivered entries are readable.
pub record RowIsReadable (s : Lcb) (i : ℕ) : Type 0 where
  pub end : ℕ
  pub behind : s.delivered i ≤ end
  pub within : accessible (s.urb.rows i) end ≡ true
  pub last : ((s.urb.rows i).cells end).delivered ≡ false
  pub readable :
      (num : ℕ)
      → ((s.urb.rows i).cells num).delivered ≡ true
      → IsReadable s.n_processes ((s.urb.rows i).cells num)

-- So it is for each row that has memory. The table has a row `n_processes`, and the clocks an entry for each cause.
pub record CanRead (s : Lcb) : Type 0 where
  pub rows_fit : s.n_processes < max_processes
  pub causes_fit : (i : ℕ) → CausesFit (s.config.causal i)
  pub small : RowsAreSmall s
  pub rows : (i : ℕ) → (s.urb.rows i).bytes ≢ 0 → RowIsReadable s i

read_entry_succeeds :
    (n sender num : ℕ) (pam : Pam)
    → n ≤ max_processes
    → IsReadable n pam
    → read_entry n sender num pam ≢ none
unfolding read_entry deserialize
read_entry_succeeds n sender num pam b r e = ground arith

accessible-earlier :
    (row : Row) (num end : ℕ) → num ≤ end → accessible row end ≡ true → accessible row num ≡ true
unfolding accessible
accessible-earlier row num end h a = ground arith

next_of-ne-outside :
    (s : Lcb) (i : ℕ) → CanRead s → (s.urb.rows i).bytes ≢ 0 → next_of s i ≢ outside
unfolding next_of
next_of-ne-outside s i c b e =
    let r = c.rows i b in
    let here = accessible-earlier (s.urb.rows i) (s.delivered i) r.end r.behind r.within in
    elim (Option-cases
      (read_entry s.n_processes i (s.delivered i) ((s.urb.rows i).cells (s.delivered i)))) [
        | inl fails ↦ ground (
          arith,
          r.readable (s.delivered i),
          read_entry_succeeds s.n_processes i (s.delivered i) ((s.urb.rows i).cells (s.delivered i))
              (omega (arith, c.rows_fit)),
        )
        | inr (entry, reads) ↦ ground arith
      ]

next_of-delivered :
    (s : Lcb) (i : ℕ) {entry : Entry}
    → next_of s i ≡ present entry
    → ((s.urb.rows i).cells (s.delivered i)).delivered ≡ true
unfolding next_of
next_of-delivered s i e = ground arith

deliver_entry-row :
    (s : Lcb) (entry : Entry) (array : List ℕ) (i : ℕ)
    → RowsAreSmall s
    → next_of s entry.sender ≡ present entry
    → RowIsReadable s i
    → RowIsReadable (deliver_entry s (fill_content array entry)) i
unfolding deliver_entry
deliver_entry-row s entry array i small e r =
    let there = next_of-delivered s entry.sender e in
    let room = accessible-lt (s.urb.rows i) r.end r.within in
    record {
      end = r.end;
      behind = elim (Bool-cases (entry.sender == i)) [
        | inl same ↦ ground (arith, small i, differ i r (same_number entry.sender i same) there)
        | inr other ↦ ground (arith, r.behind)
      ];
      within = r.within;
      last = r.last;
      readable = r.readable;
    }
  where
    same_number : (a b : ℕ) → (a == b) ≡ true → a ≡ b
    same_number a b h = ground arith

    differ :
        (i : ℕ) (r : RowIsReadable s i)
        → entry.sender ≡ i
        → ((s.urb.rows entry.sender).cells (s.delivered entry.sender)).delivered ≡ true
        → s.delivered i ≢ r.end
    differ i r same there q = cc (r.last, same, there, q)

deliver_entry-CanRead :
    (s : Lcb) (i : ℕ) (entry : Entry) (array : List ℕ)
    → next_of s i ≡ present entry
    → CanRead s
    → CanRead (deliver_entry s (fill_content array entry))
unfolding deliver_entry
deliver_entry-CanRead s i entry array e c = record {
  rows_fit = c.rows_fit;
  causes_fit = c.causes_fit;
  small = c.small;
  rows = λ j b.
      deliver_entry-row s entry array j c.small
        (subst (λ k. next_of s k ≡ present entry) (sym (next_of-present s i e).0) e) (c.rows j b);
}

-- A loop over rows stays within the arrays, and leaves as many processes as there were.
abbrev Within : ℕ → Loop Pass → Type 0
Within n (done q) = CanRead q.lcb × (q.lcb.n_processes ≡ n)
Within n crashed = ⊥
Within n no_fuel = Unit

on_next-Within :
    (p : Pass) (i : ℕ) (continue : Pass → Loop Pass) (n : Next)
    → CanRead p.lcb
    → i < max_processes
    → next_of p.lcb i ≡ n
    → n ≢ outside
    → ((q : Pass)
        → CanRead q.lcb
        → (q.lcb.urb ≡ p.lcb.urb)
        → q.lcb.n_processes ≡ p.lcb.n_processes
        → Within p.lcb.n_processes (continue q))
    → Within p.lcb.n_processes (on_next continue p n)
unfolding deliver_entry
on_next-Within p i continue absent c b e o k = (c, refl)
on_next-Within p i continue (present entry) c b e o k =
    elim (Checked-cases (check_local_causality p.lcb entry.clock entry.sender)) [
      | inl fails ↦ absurd (
          check_local_causality-ne-none p.lcb entry.clock entry.sender
            (omega (arith, b, (next_of-present p.lcb i e).0)) (c.causes_fit entry.sender) fails)
      | inr (inl now) ↦ rw now (
          k
            (record {
              lcb = deliver_entry p.lcb (fill_content p.content entry);
              continue_looping = true;
              content = (fill_content p.content entry).content;
            })
            (deliver_entry-CanRead p.lcb i entry p.content e c) refl refl)
      | inr (inr later) ↦ rw later (c, refl)
    ]
on_next-Within p i continue outside c b e o k = absurd (o refl)

drain_row-Within :
    (fuel : ℕ) (p : Pass) (i : ℕ)
    → CanRead p.lcb
    → i < max_processes
    → (p.lcb.urb.rows i).bytes ≢ 0
    → Within p.lcb.n_processes (drain_row fuel p i)
unfolding drain_row
drain_row-Within zero p i c b h = tt
drain_row-Within (suc fuel) p i c b h =
    on_next-Within p i (λ q. drain_row fuel q i) (next_of p.lcb i) c b refl
      (next_of-ne-outside p.lcb i c h)
      (λ q c' urb n.
        subst (λ m. Within m (drain_row fuel q i)) n
          (drain_row-Within fuel q i c' b (subst (λ u. (u.rows i).bytes ≢ 0) (sym urb) h)))

visit_row-Within :
    (p : Pass) (i : ℕ)
    → CanRead p.lcb
    → i < max_processes
    → Within p.lcb.n_processes (visit_row p i)
unfolding visit_row
visit_row-Within p i c b =
    let below : ltb i max_processes ≡ true = ground arith in
    elim (Bool-cases ((p.lcb.urb.rows i).bytes == 0)) [
      | inl empty ↦ rw (below, empty) (c, refl)
      | inr full ↦ rw (below, full) (drain_row-Within (row_fuel p.lcb i) p i c b (ground arith))
    ]

then_rows-Within :
    (n : ℕ) (continue : Pass → Loop Pass) (r : Loop Pass)
    → Within n r
    → ((q : Pass) → CanRead q.lcb → q.lcb.n_processes ≡ n → Within n (continue q))
    → Within n (then_rows continue r)
then_rows-Within n continue (done q) c k = k q c.0 c.1
then_rows-Within n continue crashed c k = c
then_rows-Within n continue no_fuel c k = tt

drain_rows-Within :
    (left : ℕ) (p : Pass) (i : ℕ)
    → CanRead p.lcb
    → i + left ≤ p.lcb.n_processes + 1
    → Within p.lcb.n_processes (drain_rows left p i)
unfolding drain_rows
drain_rows-Within zero p i c b = (c, refl)
drain_rows-Within (suc left) p i c b =
    then_rows-Within p.lcb.n_processes (λ q. drain_rows left q (i + 1)) (visit_row p i)
      (visit_row-Within p i c (omega (arith, b, c.rows_fit)))
      (λ q c' n.
        subst (λ m. Within m (drain_rows left q (i + 1))) n
          (drain_rows-Within left q (i + 1) c' (omega (arith, b, n))))

after_rows-ne-crashed :
    (n : ℕ) (continue : List ℕ → Lcb → Loop Lcb) (r : Loop Pass)
    → Within n r
    → ((content : List ℕ) (s : Lcb) → CanRead s → continue content s ≢ crashed)
    → after_rows continue r ≢ crashed
after_rows-ne-crashed n continue (done q) c k = elim (Bool-cases q.continue_looping) [
  | inl again ↦ rw again (k q.content q.lcb c.0)
  | inr last ↦ rw last (λ e. cc)
]
after_rows-ne-crashed n continue crashed c k = absurd c
after_rows-ne-crashed n continue no_fuel c k = λ e. cc

drain_all-ne-crashed :
    (fuel : ℕ) (content : List ℕ) (s : Lcb) → CanRead s → drain_all fuel content s ≢ crashed
unfolding drain_all
drain_all-ne-crashed zero content s c = λ e. cc
drain_all-ne-crashed (suc fuel) content s c =
    let start : Pass = record { lcb = s; continue_looping = false; content = content } in
    after_rows-ne-crashed s.n_processes (drain_all fuel) (drain_rows (s.n_processes + 1) start 0)
      (drain_rows-Within (s.n_processes + 1) start 0 c (omega arith))
      (λ array t c'. drain_all-ne-crashed fuel array t c')

done_of : (r : Loop Lcb) → r ≢ crashed → r ≢ no_fuel → (t : Lcb) × (r ≡ done t)
done_of (done t) c f = (t, refl)
done_of crashed c f = absurd (c refl)
done_of no_fuel c f = absurd (f refl)

-- If `n_processes`, which is one more than the number of processes, is below `MAX_PROCESSES`, so are the causes of the
-- configuration, each row takes less than 2 ^ 32 bytes and, if it has memory, ends with an entry that is not
-- delivered, and each delivered entry holds a clock within its content: then the loops of `lcb_deliver` end, stay
-- within the arrays, and lead by deliveries that the specification allows to a state in which it allows no
-- more in a row `j` up to `n_processes`, whichever that is.
pub drain_total :
    (content : List ℕ) (s : Lcb) (j : ℕ)
    → CanRead s
    → j ≤ s.n_processes
    → (t : Lcb) × (drain content s ≡ done t) × ((c : ℕ) × Steps s t c) × IsLeft t j
unfolding drain
drain_total content s j c b =
    let (t, e) =
      done_of (drain content s) (drain_all-ne-crashed _ content s c)
        (drain_finishes content s c.small) in
    (t, e, drain_refines content s c.small e, drain_completes content s j c.small b e)
