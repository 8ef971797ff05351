-- ===== src/App/Numbered.antt =====
-- What the logger holds of numbered messages, as the `run_sender` functions make them, and what it then writes.
use cs451_2021_project.Base.{ℕ, zero, suc, ◌≡◌, refl, ap, arith, List, [], ◌∷◌, ◌++◌, length, All}
use cs451_2021_project.Logger.{send_line}
use cs451_2021_project.Logger.Merge.{Event, sent, lines_of}
use cs451_2021_project.Logger.Output.{IsClean}
use cs451_2021_project.App.{message_text}
use cs451_2021_project.App.Output.{OneLine, message_text-FitsLine}

module _ (print_ulong : ℕ → List ℕ) where
  -- The latest first.
  unfoldable pub sent_events : ℕ → List Event
  sent_events zero = []
  sent_events (suc n) = sent (message_text print_ulong (suc n)) ∷ sent_events n

  -- "b 1" to "b n".
  unfoldable pub sent_lines : ℕ → List (List ℕ)
  sent_lines zero = []
  sent_lines (suc n) = sent_lines n ++ send_line (message_text print_ulong (suc n)) ∷ []

  pub lines_of-sent_events : (n : ℕ) → lines_of print_ulong (sent_events n) ≡ sent_lines n
  unfolding lines_of sent_events sent_lines
  lines_of-sent_events zero = refl
  lines_of-sent_events (suc n) =
      ap (λ l. l ++ send_line (message_text print_ulong (suc n)) ∷ []) (lines_of-sent_events n)

  pub length-sent_events : (n : ℕ) → length (sent_events n) ≡ n
  unfolding sent_events
  length-sent_events zero = refl
  length-sent_events (suc n) = omega (arith, length-sent_events n)

module _ (print_ulong : ℕ → List ℕ) (quiet : (n : ℕ) → OneLine (print_ulong n)) where
  pub sent_events-IsClean : (n : ℕ) → All (IsClean print_ulong) (sent_events print_ulong n)
  unfolding sent_events
  sent_events-IsClean zero = tt
  sent_events-IsClean (suc n) = (
    (
      λ e. absurd (omega arith),
      (λ e. absurd (omega arith), (message_text-FitsLine print_ulong (suc n) (quiet (suc n))).1),
    ),
    sent_events-IsClean n,
  )
