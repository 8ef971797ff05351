-- ===== src/Logger.antt =====
-- template_cpp/src/src/logger.c: the texts of what was sent and of what was delivered, the order of the
-- two, and the output that is merged from them.
pub mod Room
pub mod Merge
pub mod Output
pub mod Tests
use cs451_2021_project.Base.{
  ℕ, zero, suc, ◌+◌, ◌-◌, ◌*◌, Bool, true, false, List, [], ◌∷◌, ◌++◌, Option, none, some, length,
  take, update, ltb, leb, if◌then◌else◌,
}
use cs451_2021_project.Address.{u32, u64}

abbrev pub init_size : ℕ
init_size = 256

abbrev pub safety_size : ℕ
safety_size = 64

abbrev pub newline : ℕ
newline = 10

-- `struct EventLog` of a text: the bytes before its terminating 0, and the size of the buffer.
pub record EventLog : Type 0 where
  pub text : List ℕ
  pub size : ℕ

-- The static variables. Of `order_events` the buffer holds flags.
pub record Logger : Type 0 where
  pub sender_events : EventLog
  pub receiver_events : EventLog
  pub order : ℕ → Bool
  pub order_size : ℕ
  pub num_order : ℕ

abbrev pub init_events : EventLog
init_events = record { text = []; size = init_size }

-- `calloc` succeeds. Of the statics it leaves `num_order`.
abbrev pub init_logger : Logger → Logger
init_logger s = record s {
  sender_events = init_events;
  receiver_events = init_events;
  order = λ _. false;
  order_size = init_size;
}

-- What it leaves in a process that has just started, where `num_order` is 0.
abbrev pub empty_logger : Logger
empty_logger = record {
  sender_events = init_events;
  receiver_events = init_events;
  order = λ _. false;
  order_size = init_size;
  num_order = 0;
}

-- `realloc` succeeds.
unfoldable pub realloc_events : EventLog → EventLog
realloc_events events = record events { size = u64 (2 * events.size) }

-- The `while` of `check_available_size`.
unfoldable pub make_room : ℕ → EventLog → ℕ → Option EventLog
unfolding realloc_events
make_room zero events needed = none
make_room (suc fuel) events needed =
    let grown = make_room fuel (realloc_events events) needed in
    if leb needed (events.size - length events.text) then some events else grown

-- Doubling a size adds at least one byte, which bounds the turns.
unfoldable pub check_available_size : EventLog → List ℕ → Option EventLog
check_available_size events buffer =
    make_room (suc (length events.text + length buffer + safety_size)) events
      (length buffer + safety_size)

-- `snprintf` behind the text, cut off at the end of the buffer.
abbrev pub print_line : List ℕ → Option EventLog → Option EventLog
print_line line none = none
print_line line (some events) =
    some (record events { text = events.text ++ take (events.size - length events.text - 1) line })

unfoldable pub log_line : EventLog → List ℕ → List ℕ → Option EventLog
log_line events buffer line = print_line line (check_available_size events buffer)

-- The part under the lock, for an order within the flags. `limit` is the size from which these grow.
abbrev pub put_flag : Logger → Bool → ℕ → Logger
put_flag s flag limit = record s {
  order = update s.order s.num_order flag;
  num_order = u32 (s.num_order + 1);
  order_size = if leb limit (u32 (s.num_order + 1)) then u64 (2 * s.order_size) else s.order_size;
}

-- `none` is a write out of bounds.
unfoldable pub record_order : Logger → Bool → ℕ → Option Logger
record_order s flag limit =
    if ltb s.num_order s.order_size then some (put_flag s flag limit) else none

abbrev pub put_sender : Logger → Option EventLog → Option Logger
put_sender s none = none
put_sender s (some events) = some (record s { sender_events = events })

abbrev pub put_receiver : Logger → Option EventLog → Option Logger
put_receiver s none = none
put_receiver s (some events) = some (record s { receiver_events = events })

-- "b %s"
abbrev pub send_line : List ℕ → List ℕ
send_line buffer = b'b' ∷ b' ' ∷ buffer

-- "d %lu %s", where `snprintf` prints the number as `digits`.
abbrev pub deliver_line : List ℕ → List ℕ → List ℕ
deliver_line digits buffer = b'd' ∷ b' ' ∷ digits ++ b' ' ∷ buffer

abbrev pub log_sent : List ℕ → Option Logger → Option Logger
log_sent buffer none = none
log_sent buffer (some s) =
    put_sender s (log_line s.sender_events buffer (send_line buffer ++ newline ∷ []))

abbrev pub log_delivered : List ℕ → List ℕ → Option Logger → Option Logger
log_delivered digits buffer none = none
log_delivered digits buffer (some s) =
    put_receiver s (log_line s.receiver_events buffer (deliver_line digits buffer ++ newline ∷ []))

unfoldable pub log_send_events : Logger → List ℕ → Option Logger
log_send_events s buffer = log_sent buffer (record_order s true (s.order_size - 1))

unfoldable pub log_deliver_events : (ℕ → List ℕ) → Logger → List ℕ → ℕ → Option Logger
log_deliver_events print_ulong s buffer sender_id =
    log_delivered (print_ulong sender_id) buffer (record_order s false s.order_size)

-- The lines that follow, behind `line` and a newline.
abbrev pub put_line : List ℕ → Option (List ℕ) → Option (List ℕ)
put_line line none = none
put_line line (some output) = some (line ++ newline ∷ output)

-- `strcat` of the line that `strtok_r` found; `none`: it found none, and the pointer is NULL.
abbrev pub next_line : (List (List ℕ) → Option (List ℕ)) → List (List ℕ) → Option (List ℕ)
next_line more [] = none
next_line more (line ∷ lines) = put_line line (more lines)

-- The loop of `write_output` from order `i` on, with `left` events to go.
unfoldable pub merge : ℕ → ℕ → (ℕ → Bool) → List (List ℕ) → List (List ℕ) → Option (List ℕ)
merge zero i order sent received = some []
merge (suc left) i order sent received =
    if order i
    then next_line (λ lines. merge left (i + 1) order lines received) sent
    else next_line (λ lines. merge left (i + 1) order sent lines) received

abbrev pub fit : ℕ → Option (List ℕ) → Option (List ℕ)
fit size none = none
fit size (some output) = if leb (length output) size then some output else none

-- What `write_output` writes to the file. `tokens` is what `strtok_r` cuts a text into at newlines; `none`
-- is an access out of bounds of the allocated buffer, or to NULL.
unfoldable pub write_output : (List ℕ → List (List ℕ)) → Logger → Option (List ℕ)
write_output tokens s =
    fit (length s.sender_events.text + length s.receiver_events.text)
      (merge s.num_order 0 s.order (tokens s.sender_events.text) (tokens s.receiver_events.text))
