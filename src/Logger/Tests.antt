-- ===== src/Logger/Tests.antt =====
-- One message sent and two delivered, with `strtok_r` as a function that cuts at newlines.
use cs451_2021_project.Base.{
  ℕ, ◌+◌, ◌≡◌, ◌≢◌, refl, ap, ◌∙◌, List, [], ◌∷◌, ◌++◌, some, arith, All, ◌==◌, if◌then◌else◌,
}
use cs451_2021_project.Logger.{Logger, newline, write_output}
use cs451_2021_project.Logger.Merge.{Event, sent, delivered, log_events, text_of, lines_of, IsShort}
use cs451_2021_project.Logger.Output.{IsLine, IsClean, write_output-log_events}

abbrev put_first : ℕ → List (List ℕ) → List (List ℕ)
put_first c [] = (c ∷ []) ∷ []
put_first c (piece ∷ pieces) = (c ∷ piece) ∷ pieces

unfoldable pub pieces_of : List ℕ → List (List ℕ)
pieces_of [] = [] ∷ []
pieces_of (c ∷ text) =
    let pieces = pieces_of text in if c == newline then [] ∷ pieces else put_first c pieces

unfoldable pub not_empty : List (List ℕ) → List (List ℕ)
not_empty [] = []
not_empty ([] ∷ pieces) = not_empty pieces
not_empty ((c ∷ piece) ∷ pieces) = (c ∷ piece) ∷ not_empty pieces

abbrev pub tokens : List ℕ → List (List ℕ)
tokens text = not_empty (pieces_of text)

pieces_of-line :
    (line text : List ℕ)
    → All (λ c. c ≢ newline) line
    → pieces_of (line ++ newline ∷ text) ≡ line ∷ pieces_of text
unfolding pieces_of
pieces_of-line [] text a = refl
pieces_of-line (c ∷ line) text a = ground (arith, a.0, pieces_of-line line text a.1)

pub tokens-text_of : (lines : List (List ℕ)) → All IsLine lines → tokens (text_of lines) ≡ lines
unfolding text_of not_empty pieces_of
tokens-text_of [] a = refl
tokens-text_of ([] ∷ lines) a = absurd (a.0.0 refl)
tokens-text_of ((c ∷ line) ∷ lines) a =
    ap not_empty (pieces_of-line (c ∷ line) (text_of lines) a.0.1)
    ∙ ap (λ l. (c ∷ line) ∷ l) (tokens-text_of lines a.1)

-- Numbers of one digit.
abbrev pub digit : ℕ → List ℕ
digit n = (b'0' + n) ∷ []

-- The latest first.
abbrev events : List Event
events = delivered (b'1' ∷ []) 2 ∷ sent (b'1' ∷ []) ∷ delivered (b'1' ∷ []) 3 ∷ []

events-IsShort : All (IsShort digit) events
events-IsShort = ground arith

events-IsClean : All (IsClean digit) events
events-IsClean = ground arith

write_output-log_events_example :
    (s : Logger) × (log_events digit events ≡ some s)
    × (write_output tokens s ≡ some (text_of (lines_of digit events)))
write_output-log_events_example =
    write_output-log_events digit tokens events tokens-text_of (omega arith) events-IsShort
      events-IsClean
