-- ===== src/Logger/Output.antt =====
-- What `write_output` of template_cpp/src/src/logger.c writes.
use cs451_2021_project.Base.{
  ℕ, suc, ◌+◌, ◌^◌, ◌≡◌, ◌≢◌, ◌<◌, refl, ap, sym, ◌∙◌, Bool, true, false, List, [], ◌∷◌, ◌++◌,
  Option, some, arith, length, All, length-append, append_assoc, append-nil,
}
use cs451_2021_project.Logger.{
  Logger, newline, send_line, deliver_line, put_line, merge, write_output,
}
use cs451_2021_project.Logger.Merge.{
  Event, sent, delivered, log_events, line_of, text_of, lines_of, lines_of_kind, IsShort,
  FlagsMatch, Logged, text_of-behind, log_events-Logged,
}

-- What `strtok_r` can find: a line that is not empty and holds no newline.
abbrev pub IsLine : List ℕ → Type 0
IsLine line = (line ≢ []) × All (λ c. c ≢ newline) line

-- Lines before an output.
prepend : List (List ℕ) → Option (List ℕ) → Option (List ℕ)
prepend [] output = output
prepend (line ∷ lines) output = put_line line (prepend lines output)

prepend-behind :
    (lines : List (List ℕ)) (line : List ℕ) (output : Option (List ℕ))
    → prepend (lines ++ line ∷ []) output ≡ prepend lines (put_line line output)
unfolding prepend
prepend-behind [] line output = refl
prepend-behind (l ∷ lines) line output = ap (put_line l) (prepend-behind lines line output)

prepend-text_of : (lines : List (List ℕ)) → prepend lines (some []) ≡ some (text_of lines)
unfolding prepend text_of
prepend-text_of [] = refl
prepend-text_of (line ∷ lines) = rw (prepend-text_of lines) refl

All-behind :
    (P : List ℕ → Type 0) (lines : List (List ℕ)) (line : List ℕ)
    → All P lines
    → P line
    → All P (lines ++ line ∷ [])
All-behind P [] line a p = (p, tt)
All-behind P (l ∷ lines) line a p = (a.0, All-behind P lines line a.1 p)

module _ (print_ulong : ℕ → List ℕ) where
  -- No newline in the message or the number.
  abbrev pub IsClean : Event → Type 0
  IsClean event = All (λ c. c ≢ newline) (line_of print_ulong event)

  -- The loop of `write_output` over the events takes their lines, in their order.
  merge_lem :
      (order : ℕ → Bool) (events : List Event) (left : ℕ) (more_sent more_delivered : List (List ℕ))
      → FlagsMatch print_ulong order events
      → merge
          (length events + left)
          0
          order
          (lines_of_kind print_ulong true events ++ more_sent)
          (lines_of_kind print_ulong false events ++ more_delivered)
        ≡ prepend
            (lines_of print_ulong events)
            (merge left (length events) order more_sent more_delivered)
  unfolding lines_of lines_of_kind prepend merge
  merge_lem order [] left more_sent more_delivered m =
      ap (λ n. merge n 0 order more_sent more_delivered) (omega arith)
  merge_lem order (sent buffer ∷ events) left more_sent more_delivered m =
      let line = send_line buffer in
      ap
        (λ n.
          merge n 0 order ((lines_of_kind print_ulong true events ++ line ∷ []) ++ more_sent)
            (lines_of_kind print_ulong false events ++ more_delivered))
        {x = length (sent buffer ∷ events) + left} {y = length events + suc left} (omega arith)
      ∙ ap
          (λ l.
            merge (length events + suc left) 0 order l
              (lines_of_kind print_ulong false events ++ more_delivered))
          (append_assoc (lines_of_kind print_ulong true events) (line ∷ []) more_sent)
      ∙ merge_lem order events (suc left) (line ∷ more_sent) more_delivered m.1
      ∙ ap (prepend (lines_of print_ulong events)) (taken m.0)
      ∙ sym (
          prepend-behind (lines_of print_ulong events) line
            (merge left (length (sent buffer ∷ events)) order more_sent more_delivered))
    where
      taken :
          order (length events) ≡ true
          → merge (suc left) (length events) order (send_line buffer ∷ more_sent) more_delivered
            ≡ put_line
                (send_line buffer)
                (merge left (length (sent buffer ∷ events)) order more_sent more_delivered)
      taken e = rw e (
          ap (λ n. put_line (send_line buffer) (merge left n order more_sent more_delivered))
            (omega arith))
  merge_lem order (delivered buffer sender_id ∷ events) left more_sent more_delivered m =
      let line = deliver_line (print_ulong sender_id) buffer in
      ap
        (λ n.
          merge n 0 order (lines_of_kind print_ulong true events ++ more_sent)
            ((lines_of_kind print_ulong false events ++ line ∷ []) ++ more_delivered))
        {x = length (delivered buffer sender_id ∷ events) + left} {y = length events + suc left}
        (omega arith)
      ∙ ap
          (λ l.
            merge (length events + suc left) 0 order
              (lines_of_kind print_ulong true events ++ more_sent) l)
          (append_assoc (lines_of_kind print_ulong false events) (line ∷ []) more_delivered)
      ∙ merge_lem order events (suc left) more_sent (line ∷ more_delivered) m.1
      ∙ ap (prepend (lines_of print_ulong events)) (taken m.0)
      ∙ sym (
          prepend-behind (lines_of print_ulong events) line (
            merge left (length (delivered buffer sender_id ∷ events)) order more_sent
              more_delivered))
    where
      taken :
          order (length events) ≡ false
          → merge
              (suc left)
              (length events)
              order
              more_sent
              (deliver_line (print_ulong sender_id) buffer ∷ more_delivered)
            ≡ put_line (deliver_line (print_ulong sender_id) buffer) (
                merge left
                  (length (delivered buffer sender_id ∷ events))
                  order
                  more_sent
                  more_delivered)
      taken e = rw e (
          ap
            (λ n.
              put_line (deliver_line (print_ulong sender_id) buffer)
                (merge left n order more_sent more_delivered))
            (omega arith))

  length-text_of :
      (events : List Event)
      → length (text_of (lines_of print_ulong events))
        ≡ length (text_of (lines_of_kind print_ulong true events))
          + length (text_of (lines_of_kind print_ulong false events))
  unfolding lines_of lines_of_kind text_of
  length-text_of [] = omega arith
  length-text_of (sent buffer ∷ events) =
      let line = send_line buffer in
      rw
        (
          text_of-behind print_ulong (lines_of print_ulong events) line,
          text_of-behind print_ulong (lines_of_kind print_ulong true events) line,
        )
        (omega (
          arith,
          length-text_of events,
          length-append (text_of (lines_of print_ulong events)) (line ++ newline ∷ []),
          length-append (text_of (lines_of_kind print_ulong true events)) (line ++ newline ∷ []),
        ))
  length-text_of (delivered buffer sender_id ∷ events) =
      let line = deliver_line (print_ulong sender_id) buffer in
      rw
        (
          text_of-behind print_ulong (lines_of print_ulong events) line,
          text_of-behind print_ulong (lines_of_kind print_ulong false events) line,
        )
        (omega (
          arith,
          length-text_of events,
          length-append (text_of (lines_of print_ulong events)) (line ++ newline ∷ []),
          length-append (text_of (lines_of_kind print_ulong false events)) (line ++ newline ∷ []),
        ))

  All-IsLine :
      (kind : Bool) (events : List Event)
      → All IsClean events
      → All IsLine (lines_of_kind print_ulong kind events)
  unfolding lines_of_kind
  All-IsLine true [] a = tt
  All-IsLine true (sent buffer ∷ events) a =
      All-behind IsLine (lines_of_kind print_ulong true events) (send_line buffer)
        (All-IsLine true events a.1) (λ e. absurd (cc), a.0)
  All-IsLine true (delivered buffer sender_id ∷ events) a = All-IsLine true events a.1
  All-IsLine false [] a = tt
  All-IsLine false (sent buffer ∷ events) a = All-IsLine false events a.1
  All-IsLine false (delivered buffer sender_id ∷ events) a =
      All-behind IsLine (lines_of_kind print_ulong false events)
        (deliver_line (print_ulong sender_id) buffer) (All-IsLine false events a.1)
        (λ e. absurd (cc), a.0)

  pub write_output-Logged :
      (tokens : List ℕ → List (List ℕ)) (s : Logger) (events : List Event)
      → ((lines : List (List ℕ)) → All IsLine lines → tokens (text_of lines) ≡ lines)
      → All IsClean events
      → Logged print_ulong s events
      → write_output tokens s ≡ some (text_of (lines_of print_ulong events))
  unfolding write_output merge
  write_output-Logged tokens s events cut clean g =
      rw
        (
          g.sent_text,
          g.delivered_text,
          cut (lines_of_kind print_ulong true events) (All-IsLine true events clean),
          cut (lines_of_kind print_ulong false events) (All-IsLine false events clean),
          whole,
        )
        (ground (arith, length-text_of events))
    where
      whole :
          merge s.num_order 0 s.order
            (lines_of_kind print_ulong true events)
            (lines_of_kind print_ulong false events)
          ≡ some (text_of (lines_of print_ulong events))
      whole =
          ap
            (λ n.
              merge n 0 s.order (lines_of_kind print_ulong true events)
                (lines_of_kind print_ulong false events))
            {x = s.num_order} {y = length events + 0} (g.count ∙ omega arith)
          ∙ ap (λ l. merge (length events + 0) 0 s.order l (lines_of_kind print_ulong false events))
              (sym (append-nil (lines_of_kind print_ulong true events)))
          ∙ ap (merge (length events + 0) 0 s.order (lines_of_kind print_ulong true events ++ []))
              (sym (append-nil (lines_of_kind print_ulong false events)))
          ∙ merge_lem s.order events 0 [] [] g.flags
          ∙ prepend-text_of (lines_of print_ulong events)

-- From the initial logger, fewer than 2 ^ 32 calls of `log_send_events` and `log_deliver_events`, with
-- messages of less than 256 bytes, numbers printed in at most 20 bytes and no newline in either, all stay
-- within the buffers, and then `write_output` writes exactly their lines, in the order of the calls, if
-- `strtok_r` cuts a text of lines into these lines.
pub write_output-log_events :
    (print_ulong : ℕ → List ℕ) (tokens : List ℕ → List (List ℕ)) (events : List Event)
    → ((lines : List (List ℕ)) → All IsLine lines → tokens (text_of lines) ≡ lines)
    → length events < 2 ^ 32
    → All (IsShort print_ulong) events
    → All (IsClean print_ulong) events
    → (s : Logger) × (log_events print_ulong events ≡ some s)
      × (write_output tokens s ≡ some (text_of (lines_of print_ulong events)))
write_output-log_events print_ulong tokens events cut b short clean =
    let (s, e, g) = log_events-Logged print_ulong events b short in
    (s, e, write_output-Logged print_ulong tokens s events cut clean g)
