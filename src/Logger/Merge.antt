-- ===== src/Logger/Merge.antt =====
-- Calls of the logger of template_cpp/src/src/logger.c in a row, and the state that they leave.
use cs451_2021_project.Base.{
  ℕ, ◌+◌, ◌-◌, ◌*◌, ◌^◌, ◌≡◌, ◌≤◌, ◌<◌, refl, ap, sym, ◌∙◌, Bool, true, false, List, [], ◌∷◌, ◌++◌,
  Option, none, some, arith, length, All, update, length-append, append_assoc, subst,
}
use cs451_2021_project.Logger.{
  Logger, empty_logger, newline, put_flag, record_order, send_line, deliver_line, log_send_events,
  log_deliver_events,
}
use cs451_2021_project.Logger.Room.{Fits, log_line-Fits}

-- A call of `log_send_events` or of `log_deliver_events`.
pub data Event : Type 0 where
  sent : List ℕ → Event
  delivered : List ℕ → ℕ → Event

abbrev pub log_event : (ℕ → List ℕ) → Logger → Event → Option Logger
log_event print_ulong s (sent buffer) = log_send_events s buffer
log_event print_ulong s (delivered buffer sender_id) =
    log_deliver_events print_ulong s buffer sender_id

-- The logger after these calls, the latest of which comes first.
abbrev pub after_event : (ℕ → List ℕ) → Event → Option Logger → Option Logger
after_event print_ulong event none = none
after_event print_ulong event (some s) = log_event print_ulong s event

unfoldable pub log_events : (ℕ → List ℕ) → List Event → Option Logger
log_events print_ulong [] = some empty_logger
log_events print_ulong (event ∷ events) =
    after_event print_ulong event (log_events print_ulong events)

abbrev pub is_sent : Event → Bool
is_sent (sent buffer) = true
is_sent (delivered buffer sender_id) = false

abbrev pub line_of : (ℕ → List ℕ) → Event → List ℕ
line_of print_ulong (sent buffer) = send_line buffer
line_of print_ulong (delivered buffer sender_id) = deliver_line (print_ulong sender_id) buffer

-- Lines, each with a newline behind it.
unfoldable pub text_of : List (List ℕ) → List ℕ
text_of [] = []
text_of (line ∷ lines) = line ++ newline ∷ text_of lines

module _ (print_ulong : ℕ → List ℕ) where
  -- The lines of the events, first to last: all, and those of one kind.
  unfoldable pub lines_of : List Event → List (List ℕ)
  lines_of [] = []
  lines_of (event ∷ events) = lines_of events ++ line_of print_ulong event ∷ []

  unfoldable pub lines_of_kind : Bool → List Event → List (List ℕ)
  lines_of_kind true [] = []
  lines_of_kind true (sent buffer ∷ events) = lines_of_kind true events ++ send_line buffer ∷ []
  lines_of_kind true (delivered buffer sender_id ∷ events) = lines_of_kind true events
  lines_of_kind false [] = []
  lines_of_kind false (sent buffer ∷ events) = lines_of_kind false events
  lines_of_kind false (delivered buffer sender_id ∷ events) =
      lines_of_kind false events ++ deliver_line (print_ulong sender_id) buffer ∷ []

  -- What the code relies on: messages of less than 256 bytes, a number printed in at most 20 digits.
  abbrev pub IsShort : Event → Type 0
  IsShort (sent buffer) = length buffer < 256
  IsShort (delivered buffer sender_id) =
      (length buffer < 256) × (length (print_ulong sender_id) ≤ 20)

  -- The flags at the first orders say of the events, latest first, whether they were sent.
  abbrev pub FlagsMatch : (ℕ → Bool) → List Event → Type 0
  FlagsMatch order [] = Unit
  FlagsMatch order (event ∷ events) =
      (order (length events) ≡ is_sent event) × FlagsMatch order events

  -- The logger holds these events.
  pub record Logged (s : Logger) (events : List Event) : Type 0 where
    pub sent_text : s.sender_events.text ≡ text_of (lines_of_kind true events)
    pub delivered_text : s.receiver_events.text ≡ text_of (lines_of_kind false events)
    pub sender_fits : Fits s.sender_events
    pub receiver_fits : Fits s.receiver_events
    pub sender_short : length s.sender_events.text ≤ 300 * length events
    pub receiver_short : length s.receiver_events.text ≤ 300 * length events
    pub count : s.num_order ≡ length events
    pub room : (s.num_order < s.order_size) × (256 ≤ s.order_size) × (s.order_size ≤ 256 + 2 ^ 33)
    pub flags : FlagsMatch s.order events

  pub text_of-behind :
      (lines : List (List ℕ)) (line : List ℕ)
      → text_of (lines ++ line ∷ []) ≡ text_of lines ++ (line ++ newline ∷ [])
  unfolding text_of
  text_of-behind [] line = refl
  text_of-behind (l ∷ lines) line =
      rw (text_of-behind lines line)
        (sym (append_assoc l (newline ∷ text_of lines) (line ++ newline ∷ [])))

  FlagsMatch-update :
      (order : ℕ → Bool) (events : List Event) (i : ℕ) (flag : Bool)
      → length events ≤ i
      → FlagsMatch order events
      → FlagsMatch (update order i flag) events
  FlagsMatch-update order [] i flag h m = tt
  FlagsMatch-update order (event ∷ events) i flag h m =
      (ground (arith, m.0), FlagsMatch-update order events i flag (omega arith) m.1)

  -- What the part under the lock leaves.
  record_order_lem :
      (s : Logger) (events : List Event) (flag : Bool) (limit : ℕ)
      → length events + 1 < 2 ^ 32
      → s.order_size - 1 ≤ limit
      → limit ≤ s.order_size
      → Logged s events
      → (t : Logger) × (record_order s flag limit ≡ some t)
        × (t.sender_events ≡ s.sender_events)
        × (t.receiver_events ≡ s.receiver_events)
        × (t.num_order ≡ length events + 1)
        × ((t.num_order < t.order_size) × (256 ≤ t.order_size) × (t.order_size ≤ 256 + 2 ^ 33))
        × (t.order ≡ update s.order (length events) flag)
  unfolding record_order
  record_order_lem s events flag limit b lo hi g = (
    put_flag s flag limit,
    ground (arith, g.room),
    refl,
    refl,
    ground (arith, g.count),
    (ground (arith, g.count, g.room), ground (arith, g.room), ground (arith, g.count, g.room)),
    ap (λ i. update s.order i flag) g.count,
  )

  log_sent-Logged :
      (s : Logger) (events : List Event) (buffer : List ℕ)
      → length events + 1 < 2 ^ 32
      → length buffer < 256
      → Logged s events
      → (t : Logger) × (log_send_events s buffer ≡ some t) × Logged t (sent buffer ∷ events)
  unfolding log_send_events lines_of_kind
  log_sent-Logged s events buffer b h g =
      let line = send_line buffer ++ newline ∷ [] in
      let size : length line ≡ length buffer + 3 =
        omega (arith, length-append buffer (newline ∷ [])) in
      let (t, e, es, er, n, room, flags) =
        record_order_lem s events true (s.order_size - 1) b (omega arith) (omega arith) g in
      let (log, e', text, fits) =
        log_line-Fits s.sender_events buffer line g.sender_fits (omega (arith, g.sender_short))
          (omega (arith, size)) in
      (
        record t { sender_events = log },
        rw (e, es, e') refl,
        record {
          sent_text =
              text
              ∙ ap (λ l. l ++ line) g.sent_text
              ∙ sym (text_of-behind (lines_of_kind true events) (send_line buffer));
          delivered_text = rw er g.delivered_text;
          sender_fits = fits;
          receiver_fits = rw er g.receiver_fits;
          sender_short = omega (
            arith,
            ap length text,
            length-append s.sender_events.text line,
            size,
            g.sender_short,
          );
          receiver_short = rw er (omega (arith, g.receiver_short));
          count = n ∙ omega arith;
          room = room;
          flags =
              subst (λ order. FlagsMatch order (sent buffer ∷ events)) (sym flags)
                (
                  ground arith,
                  FlagsMatch-update s.order events (length events) true (omega arith) g.flags,
                );
        },
      )

  log_delivered-Logged :
      (s : Logger) (events : List Event) (buffer : List ℕ) (sender_id : ℕ)
      → length events + 1 < 2 ^ 32
      → length buffer < 256
      → length (print_ulong sender_id) ≤ 20
      → Logged s events
      → (t : Logger) × (log_deliver_events print_ulong s buffer sender_id ≡ some t)
        × Logged t (delivered buffer sender_id ∷ events)
  unfolding log_deliver_events lines_of_kind
  log_delivered-Logged s events buffer sender_id b h d g =
      let digits = print_ulong sender_id in
      let line = deliver_line digits buffer ++ newline ∷ [] in
      let size : length line ≡ length digits + length buffer + 4 = omega (
        arith,
        length-append (digits ++ b' ' ∷ buffer) (newline ∷ []),
        length-append digits (b' ' ∷ buffer),
      ) in
      let (t, e, es, er, n, room, flags) =
        record_order_lem s events false s.order_size b (omega arith) (omega arith) g in
      let (log, e', text, fits) =
        log_line-Fits s.receiver_events buffer line g.receiver_fits
          (omega (arith, g.receiver_short)) (omega (arith, size)) in
      (
        record t { receiver_events = log },
        rw (e, er, e') refl,
        record {
          sent_text = rw es g.sent_text;
          delivered_text =
              text
              ∙ ap (λ l. l ++ line) g.delivered_text
              ∙ sym (text_of-behind (lines_of_kind false events) (deliver_line digits buffer));
          sender_fits = rw es g.sender_fits;
          receiver_fits = fits;
          sender_short = rw es (omega (arith, g.sender_short));
          receiver_short = omega (
            arith,
            ap length text,
            length-append s.receiver_events.text line,
            size,
            g.receiver_short,
          );
          count = n ∙ omega arith;
          room = room;
          flags =
              subst (λ order. FlagsMatch order (delivered buffer sender_id ∷ events)) (sym flags)
                (
                  ground arith,
                  FlagsMatch-update s.order events (length events) false (omega arith) g.flags,
                );
        },
      )

  pub log_event-Logged :
      (s : Logger) (events : List Event) (event : Event)
      → length events + 1 < 2 ^ 32
      → IsShort event
      → Logged s events
      → (t : Logger) × (log_event print_ulong s event ≡ some t) × Logged t (event ∷ events)
  log_event-Logged s events (sent buffer) b h g = log_sent-Logged s events buffer b h g
  log_event-Logged s events (delivered buffer sender_id) b h g =
      log_delivered-Logged s events buffer sender_id b h.0 h.1 g

  pub empty_logger-Logged : Logged empty_logger []
  unfolding lines_of_kind text_of
  empty_logger-Logged = record {
    sent_text = refl;
    delivered_text = refl;
    sender_fits = omega arith;
    receiver_fits = omega arith;
    sender_short = omega arith;
    receiver_short = omega arith;
    count = refl;
    room = omega arith;
    flags = tt;
  }

  -- No call is out of bounds, and the logger holds the events.
  pub log_events-Logged :
      (events : List Event)
      → length events < 2 ^ 32
      → All IsShort events
      → (s : Logger) × (log_events print_ulong events ≡ some s) × Logged s events
  unfolding log_events lines_of_kind text_of
  log_events-Logged [] b a = (empty_logger, refl, empty_logger-Logged)
  log_events-Logged (event ∷ events) b a =
      let (s, e, g) = log_events-Logged events (omega arith) a.1 in
      let (t, e', g') = log_event-Logged s events event (omega arith) a.0 g in (t, rw e e', g')
