-- ===== src/Fifo/Application.antt =====
-- The rest of template_cpp/src/src/fifo_broadcast_application.c: its start, its sending thread, what its receiving
-- thread logs, and its end.
use cs451_2021_project.Base.{
  ℕ, zero, suc, ◌+◌, ◌-◌, Bool, true, false, List, [], ◌∷◌, Option, none, some, length, take, leb,
  if◌then◌else◌,
}
use cs451_2021_project.Address.{SockAddr, ProcessInfo, get_sockaddr_by_id, max_processes}
use cs451_2021_project.Receive.{Datagram, Received, returned, exited, waiting, fault, unfinished}
use cs451_2021_project.Urb.{Urb, Pam, urb_init, urb_destroy}
use cs451_2021_project.Urb.Deliver.{UrbDelivery}
use cs451_2021_project.Logger.{Logger, log_send_events, log_deliver_events, write_output}
use cs451_2021_project.Config.{Parsed, parsed, exits, overflows}
use cs451_2021_project.App.{filename_size, fill_addresses, array, message_buffer, message_text}
use cs451_2021_project.Handler.{string_in}
use cs451_2021_project.Fifo.{Fifo, FifoEntry, fifo_deliver}

-- What the file calls and the repository does not have: the start of io_handler.h, its reading of the number of messages
-- (from the number before and the path), and an `urb_broadcast` that takes no size.
pub record Outside : Type 0 where
  pub init_io_handler : Logger → Logger
  pub init_config_info : ℕ → List ℕ → ℕ
  pub urb_broadcast : Urb → List ℕ → Option Urb

-- The static variables, and those of the components below. `i` of `run_sender` is `n_sent`.
pub record FifoApp : Type 0 where
  pub filename : List ℕ
  pub addresses : ℕ → SockAddr
  pub n_messages : ℕ
  pub infos : List ProcessInfo
  pub process_id : ℕ
  pub n_sent : ℕ
  pub logger : Logger
  pub fifo : Fifo

abbrev with_urb : FifoApp → Option Urb → Parsed FifoApp
with_urb app none = overflows
with_urb app (some urb) = parsed (record app {
  fifo = record app.fifo { urb = urb; n_process = length app.infos; receive_forever = true };
})

abbrev start_urb : FifoApp → Parsed FifoApp
start_urb app =
    with_urb app (
      urb_init app.fifo.urb app.process_id (array max_processes 0 app.addresses) (length app.infos))

-- `has_socket` is false if `socket` fails.
unfoldable pub app_init :
    Outside → FifoApp → List ℕ → List ℕ → Bool → ℕ → List ProcessInfo → Parsed FifoApp
app_init outside app filename configpath has_socket process_id infos =
    if leb (length infos) max_processes
    then (if has_socket
        then start_urb (record app {
          filename = take (filename_size - 1) filename;
          addresses = fill_addresses (length infos) 0 infos app.addresses;
          n_messages = outside.init_config_info app.n_messages configpath;
          infos = infos;
          process_id = process_id;
          logger = outside.init_io_handler app.logger;
        })
        else exits)
    else overflows

-- `app_run` before it starts the two threads. `stack` is what `process_addr` holds before it is filled in.
unfoldable pub app_run : (SockAddr → Bool) → SockAddr → FifoApp → Parsed FifoApp
app_run binds stack app =
    if binds (get_sockaddr_by_id stack app.process_id app.infos) then parsed app else exits

-- The state, and what is written to the output file; `tokens` as for `write_output`.
unfoldable pub app_destroy : (List ℕ → List (List ℕ)) → FifoApp → FifoApp × Option (List ℕ)
app_destroy tokens app = (
  record app { fifo = record app.fifo { receive_forever = false; urb = urb_destroy app.fifo.urb } },
  write_output tokens app.logger,
)

module _ (print_ulong : ℕ → List ℕ) where
  abbrev with_logger : FifoApp → Option Logger → Option FifoApp
  with_logger app none = none
  with_logger app (some logger) = some (record app { logger = logger })

  abbrev put_urb : FifoApp → Option Urb → Option FifoApp
  put_urb app none = none
  put_urb app (some urb) =
      some (record app { fifo = record app.fifo { urb = urb }; n_sent = app.n_sent + 1 })

  abbrev broadcast_logged : Outside → Option FifoApp → Option FifoApp
  broadcast_logged outside none = none
  broadcast_logged outside (some app) =
      put_urb app (outside.urb_broadcast app.fifo.urb (message_buffer print_ulong (app.n_sent + 1)))

  -- An iteration of the loop of `run_sender`. `none` is an access out of bounds.
  unfoldable pub send_next : Outside → FifoApp → Option FifoApp
  send_next outside app =
      broadcast_logged outside
        (with_logger app (log_send_events app.logger (message_text print_ulong (app.n_sent + 1))))

  abbrev log_text : Logger → ℕ → Option (List ℕ) → Option Logger
  log_text logger sender none = none
  log_text logger sender (some text) = log_deliver_events print_ulong logger text sender

  abbrev pub log_entry : FifoEntry → Option Logger → Option Logger
  log_entry entry none = none
  log_entry entry (some logger) = log_text logger entry.sender (string_in entry.content)

  -- The calls of `log_deliver_events` for entries, the latest of which comes first.
  unfoldable pub log_entries : List FifoEntry → Logger → Option Logger
  log_entries [] logger = some logger
  log_entries (entry ∷ log) logger = log_entry entry (log_entries log logger)

  -- What `t` has logged and `s` has not.
  abbrev pub new_entries : Fifo → Fifo → List FifoEntry
  new_entries s t = take (length t.log - length s.log) t.log

  abbrev logged_rows : UrbDelivery → List Datagram → Option FifoApp → Received FifoApp UrbDelivery
  logged_rows d rest none = fault
  logged_rows d rest (some app) = returned app d rest

  abbrev pub after_fifo : FifoApp → Received Fifo UrbDelivery → Received FifoApp UrbDelivery
  after_fifo app (returned fifo d rest) = logged_rows d rest (
      with_logger (record app { fifo = fifo }) (log_entries (new_entries app.fifo fifo) app.logger))
  after_fifo app (exited fifo rest) = exited (record app { fifo = fifo }) rest
  after_fifo app (waiting fifo) = waiting (record app { fifo = fifo })
  after_fifo app fault = fault
  after_fifo app unfinished = unfinished

  -- An iteration of the loop of `run_receiver`, with what it logs.
  unfoldable pub receive_next :
      (ℕ → Bool) → (ℕ → Pam) → FifoApp → List Datagram → Received FifoApp UrbDelivery
  receive_next fresh_acks fresh_pams app datagrams =
      after_fifo app (fifo_deliver fresh_acks fresh_pams app.fifo datagrams)

  abbrev pub then_send : (FifoApp → Option FifoApp) → Option FifoApp → Option FifoApp
  then_send more none = none
  then_send more (some app) = more app

  -- The loop of `run_sender`, with `left` messages to go.
  unfoldable pub send_all : Outside → ℕ → FifoApp → Option FifoApp
  send_all outside zero app = some app
  send_all outside (suc left) app = then_send (λ a. send_all outside left a) (send_next outside app)

  unfoldable pub run_sender : Outside → FifoApp → Option FifoApp
  run_sender outside app = send_all outside app.n_messages (record app { n_sent = 0 })
