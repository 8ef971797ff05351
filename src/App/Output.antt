-- ===== src/App/Output.antt =====
-- What `app_destroy` of template_cpp/src/src/lcb_app.c writes at the end.
use cs451_2021_project.Base.{
  ℕ, zero, suc, ◌+◌, ◌-◌, ◌^◌, ◌≡◌, ◌≢◌, ◌≤◌, ◌<◌, refl, sym, ap, ◌∙◌, subst, arith, List, [], ◌∷◌,
  ◌++◌, All, some, length, take, replicate, length-take, Option-cases, inl, inr, ◌==◌, Bool-cases,
}
use cs451_2021_project.Lcb.{Entry, strlen}
use cs451_2021_project.Logger.{Logger, newline, write_output}
use cs451_2021_project.Logger.Merge.{Event, sent, delivered, lines_of, text_of, IsShort}
use cs451_2021_project.Logger.Output.{IsLine, IsClean, write_output-log_events}
use cs451_2021_project.App.{App, message_text, message_buffer, c_string, content_text, app_destroy}
use cs451_2021_project.App.Record.{
  sent_messages, sent_texts, Records, Wrote, Writes, Turns, Turns-Writes,
}

-- No newline.
abbrev pub OneLine : List ℕ → Type 0
OneLine text = All (λ c. c ≢ newline) text

OneLine-take : (n : ℕ) (text : List ℕ) → OneLine text → OneLine (take n text)
OneLine-take zero text a = tt
OneLine-take (suc n) [] a = tt
OneLine-take (suc n) (c ∷ text) a = (a.0, OneLine-take n text a.1)

pub OneLine-append : (xs ys : List ℕ) → OneLine xs → OneLine ys → OneLine (xs ++ ys)
OneLine-append [] ys a b = b
OneLine-append (x ∷ xs) ys a b = (a.0, OneLine-append xs ys a.1 b)

OneLine-replicate : (n : ℕ) → OneLine (replicate n 0)
OneLine-replicate zero = tt
OneLine-replicate (suc n) = (omega arith, OneLine-replicate n)

c_string-OneLine : (text : List ℕ) → OneLine text → OneLine (c_string text)
unfolding c_string
c_string-OneLine [] a = tt
c_string-OneLine (c ∷ text) a = elim (Bool-cases (c == 0)) [
  | inl end ↦ rw end tt
  | inr more ↦ rw more (a.0, c_string-OneLine text a.1)
]

-- The 0 that `snprintf` leaves cuts a string shorter than the buffer.
length-c_string :
    (text : List ℕ) (n : ℕ) → length (c_string (text ++ replicate (suc n) 0)) ≤ length text
unfolding c_string
length-c_string [] n = omega arith
length-c_string (c ∷ text) n = ground (arith, length-c_string text n)

strlen-lt : (text : List ℕ) {n : ℕ} → strlen text ≡ some n → n < length text
unfolding strlen
strlen-lt [] e = absurd (cc)
strlen-lt (c ∷ text) e = elim (Option-cases (strlen text)) [
  | inl none' ↦ ground (arith)
  | inr (m, found) ↦ ground (arith, strlen-lt text found)
]

-- What a line can take: less than 256 bytes, and no newline.
abbrev pub FitsLine : List ℕ → Type 0
FitsLine text = (length text < 256) × OneLine text

pub message_text-FitsLine :
    (print_ulong : ℕ → List ℕ) (n : ℕ)
    → OneLine (print_ulong n)
    → FitsLine (message_text print_ulong n)
unfolding message_buffer
message_text-FitsLine print_ulong n a =
    let printed = take 255 (print_ulong n) in
    let size : length printed ≤ 255 = omega (arith, length-take 255 (print_ulong n)) in
    (
      subst (λ k. length (c_string (printed ++ replicate k 0)) < 256)
          {x = suc (255 - length printed)} {y = 256 - length printed} (omega arith)
          (omega (arith, length-c_string printed (255 - length printed))),
      c_string-OneLine (message_buffer print_ulong n) (
          OneLine-append printed (replicate (256 - length printed) 0)
            (OneLine-take 255 (print_ulong n) a) (OneLine-replicate (256 - length printed))),
    )

content_text-FitsLine :
    (content : List ℕ) {text : List ℕ}
    → OneLine content
    → content_text content ≡ some text
    → FitsLine text
unfolding content_text
content_text-FitsLine content {text} b e =
    let bytes = take 256 content in
    elim (Option-cases (strlen bytes)) [
      | inl endless ↦ absurd (ground arith)
      | inr (n, ends) ↦ subst FitsLine {x = take n bytes} (ground arith) (
        omega (arith, length-take n bytes, length-take 256 content, strlen-lt bytes ends),
        OneLine-take n bytes (OneLine-take 256 content b),
      )
    ]

module _ (print_ulong : ℕ → List ℕ)
    (digits : (n : ℕ) → (length (print_ulong n) ≤ 20) × OneLine (print_ulong n)) where
  sent_messages-FitsLine : (k : ℕ) → All FitsLine (sent_messages print_ulong k)
  sent_messages-FitsLine zero = tt
  sent_messages-FitsLine (suc k) =
      (message_text-FitsLine print_ulong (k + 1) (digits (k + 1)).1, sent_messages-FitsLine k)

  length-sent_messages : (k : ℕ) → length (sent_messages print_ulong k) ≡ k
  length-sent_messages zero = refl
  length-sent_messages (suc k) = omega (arith, length-sent_messages k)

  events_fit :
      (events : List Event) (log : List Entry)
      → All FitsLine (sent_texts events)
      → Records events log
      → All (λ entry. OneLine entry.content) log
      → All (IsShort print_ulong) events
        × All (IsClean print_ulong) events
        × (length events ≡ length (sent_texts events) + length log)
  events_fit [] [] f r a = (tt, tt, refl)
  events_fit [] (entry ∷ log) f r a = absurd r
  events_fit (sent text ∷ events) log f r a =
      let (short, clean, size) = events_fit events log f.1 r a in
      (
        (f.0.0, short),
        ((λ e. absurd (omega arith), (λ e. absurd (omega arith), f.0.1)), clean),
        omega (arith, size),
      )
  events_fit (delivered text id ∷ events) [] f r a = absurd r
  events_fit (delivered text id ∷ events) (entry ∷ log) f r a =
      let (short, clean, size) = events_fit events log f r.2 a.1 in
      let fits = content_text-FitsLine entry.content a.0 r.0 in
      (
        ((fits.0, (digits id).0), short),
        (
          (
            λ e. absurd (omega arith),
            (
              λ e. absurd (omega arith),
              OneLine-append (print_ulong id) (b' ' ∷ text) (digits id).1
                  (λ e. absurd (omega arith), fits.1),
            ),
          ),
          clean,
        ),
        omega (arith, size),
      )

  -- If the printed numbers have at most 20 bytes, neither they nor the arrays `content` as they are logged have a
  -- newline, `strtok_r` cuts a text of lines into these, and fewer than 2 ^ 32 messages were sent and
  -- delivered: after iterations of the two loops, `app_destroy` writes the lines of the messages that were
  -- sent, by their numbers, and of those that were delivered, in localized causal order, as they happened.
  pub app_destroy_writes :
      (tokens : List ℕ → List (List ℕ)) (app b : App)
      → ((lines : List (List ℕ)) → All IsLine lines → tokens (text_of lines) ≡ lines)
      → Writes print_ulong app
      → Turns print_ulong app b
      → All (λ entry. OneLine entry.content) b.lcb.log
      → b.n_sent + length b.lcb.log < 2 ^ 32
      → (events : List Event) × Wrote print_ulong b events
        × ((app_destroy tokens b).1 ≡ some (text_of (lines_of print_ulong events)))
  unfolding app_destroy
  app_destroy_writes tokens app b cut w turns a h =
      let (events, w') = Turns-Writes print_ulong turns w in
      let (short, clean, size) =
        events_fit events b.lcb.log
          (subst (All FitsLine) (sym w'.sends) (sent_messages-FitsLine b.n_sent)) w'.delivers a in
      let count = ap length w'.sends ∙ length-sent_messages b.n_sent in
      let (s, logs, writes) =
        write_output-log_events print_ulong tokens events cut (omega (arith, size, count)) short
          clean in
      let same : s ≡ b.logger = some_injective (sym logs ∙ w'.logged) in
      (
        events,
        w',
        subst (λ l. write_output tokens l ≡ some (text_of (lines_of print_ulong events))) same
            writes,
      )
    where
      some_injective : {x y : Logger} → some x ≡ some y → x ≡ y
      some_injective e = cc
