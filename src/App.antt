-- ===== src/App.antt =====
-- template_cpp/src/src/lcb_app.c: the application that broadcasts numbered messages and logs them. The two
-- threads are sequences of the iterations of their loops.
pub mod Record
pub mod Output
pub mod Numbered
pub mod Sender
pub mod Start
pub mod Whole
pub mod Tests
use cs451_2021_project.Base.{
  ℕ, zero, suc, ◌+◌, ◌-◌, Bool, true, false, List, [], ◌∷◌, ◌++◌, Option, none, some, length, take,
  drop, replicate, update, leb, ◌==◌, if◌then◌else◌,
}
use cs451_2021_project.Address.{SockAddr, ProcessInfo, get_sockaddr_by_id, max_processes}
use cs451_2021_project.Receive.{
  Datagram, Received, returned, exited, waiting, fault, unfinished, Turn, again, leave,
  deliver_loop,
}
use cs451_2021_project.LinkedList.{message_size}
use cs451_2021_project.StubbornLinks.{max_chars}
use cs451_2021_project.Urb.{Pam}
use cs451_2021_project.Urb.Deliver.{UrbDelivery}
use cs451_2021_project.Lcb.{Lcb, Entry, CausalConfig, strlen, lcb_init, lcb_broadcast, lcb_destroy}
use cs451_2021_project.Lcb.Deliver.{lcb_deliver}
use cs451_2021_project.Logger.{
  Logger, init_logger, log_send_events, log_deliver_events, write_output,
}
use cs451_2021_project.Config.{
  Parsed, parsed, exits, overflows, TextFunctions, ConfigInfo, perfect_link, fifo, l_causal,
  ConfigFile, parse_config,
}

abbrev pub filename_size : ℕ
filename_size = 256

-- The static variables, and those of the components below. `i` of `run_sender` is `n_sent`.
pub record App : Type 0 where
  pub filename : List ℕ
  pub addresses : ℕ → SockAddr
  pub config : CausalConfig
  pub infos : List ProcessInfo
  pub process_id : ℕ
  pub receive_forever : Bool
  pub n_sent : ℕ
  pub logger : Logger
  pub lcb : Lcb

-- The loop of `app_init` over the processes from `i` on, with `left` to go.
unfoldable pub fill_addresses : ℕ → ℕ → List ProcessInfo → (ℕ → SockAddr) → ℕ → SockAddr
fill_addresses zero i infos addresses = addresses
fill_addresses (suc left) i infos addresses =
    fill_addresses left (i + 1) infos
      (update addresses i (get_sockaddr_by_id (addresses i) (i + 1) infos))

-- The array of `n` entries from `i` on.
unfoldable pub array : ℕ → ℕ → (ℕ → SockAddr) → List SockAddr
array zero i addresses = []
array (suc n) i addresses = addresses i ∷ array n (i + 1) addresses

abbrev pub with_lcb : App → Option Lcb → Parsed App
with_lcb app none = overflows
with_lcb app (some lcb) = parsed (record app { lcb = lcb })

abbrev pub start_layers : App → Parsed ConfigInfo → Parsed App
start_layers app (parsed (l_causal config)) =
    with_lcb (record app { config = config; logger = init_logger app.logger })
      (lcb_init app.lcb app.process_id (array max_processes 0 app.addresses) (length app.infos)
        config)
start_layers app (parsed _) = overflows
start_layers app exits = exits
start_layers app overflows = overflows

-- `file` is `none` if the configuration cannot be opened; `has_socket` is false if `socket` fails.
unfoldable pub app_init :
    TextFunctions → App → List ℕ → Option ConfigFile → Bool → ℕ → List ProcessInfo → Parsed App
app_init text app filename file has_socket process_id infos =
    if leb (length infos) max_processes
    then (if has_socket
        then start_layers
            (record app {
              receive_forever = true;
              filename = take (filename_size - 1) filename;
              process_id = process_id;
              infos = infos;
              addresses = fill_addresses (length infos) 0 infos app.addresses;
            })
            (parse_config text (l_causal (record app.config { process_id = process_id })) file)
        else exits)
    else overflows

-- `app_run` before it starts the two threads. `binds` says for which addresses `bind` succeeds, and `stack` is what
-- `process_addr` holds before it is filled in.
unfoldable pub app_run : (SockAddr → Bool) → SockAddr → App → Parsed App
app_run binds stack app =
    if binds (get_sockaddr_by_id stack app.process_id app.infos) then parsed app else exits

-- The bytes before the first 0.
unfoldable pub c_string : List ℕ → List ℕ
c_string [] = []
c_string (c ∷ text) = if c == 0 then [] else c ∷ c_string text

abbrev pub with_logger : App → Option Logger → Option App
with_logger app none = none
with_logger app (some logger) = some (record app { logger = logger })

abbrev pub put_lcb : App → Option Lcb → Option App
put_lcb app none = none
put_lcb app (some lcb) = some (record app { lcb = lcb; n_sent = app.n_sent + 1 })

-- The string in the array `content` of `lcb_deliver`. `none` if it has no 0 within its `MAX_CHARS` bytes.
unfoldable pub content_text : List ℕ → Option (List ℕ)
content_text content =
    let bytes = take max_chars content in
    elim (strlen bytes) [ none ↦ none | some n ↦ some (take n bytes) ]

-- What `t` has logged and `s` has not.
abbrev pub new_entries : Lcb → Lcb → List Entry
new_entries s t = take (length t.log - length s.log) t.log

module _ (print_ulong : ℕ → List ℕ) where
  -- What `snprintf` makes of the cleared buffer.
  unfoldable pub message_buffer : ℕ → List ℕ
  message_buffer n =
      take (message_size - 1) (print_ulong n)
      ++ replicate (message_size - length (take (message_size - 1) (print_ulong n))) 0

  abbrev pub message_text : ℕ → List ℕ
  message_text n = c_string (message_buffer n)

  abbrev broadcast_logged : App → Option App → Option App
  broadcast_logged app none = none
  broadcast_logged app (some logged) = put_lcb logged (
      lcb_broadcast app.lcb (message_buffer (app.n_sent + 1))
        (length (message_text (app.n_sent + 1))))

  -- An iteration of the loop of `run_sender`. `none` is an access out of bounds.
  unfoldable pub send_next : App → Option App
  send_next app =
      broadcast_logged app
        (with_logger app (log_send_events app.logger (message_text (app.n_sent + 1))))

  abbrev then_send : (App → Option App) → Option App → Option App
  then_send more none = none
  then_send more (some app) = more app

  -- The loop of `run_sender`, with `left` messages to go.
  unfoldable pub send_all : ℕ → App → Option App
  send_all zero app = some app
  send_all (suc left) app = then_send (λ a. send_all left a) (send_next app)

  unfoldable pub run_sender : App → Option App
  run_sender app = send_all app.config.n_messages (record app { n_sent = 0 })

  abbrev pub log_text : Logger → ℕ → Option (List ℕ) → Option Logger
  log_text logger sender none = none
  log_text logger sender (some text) = log_deliver_events print_ulong logger text sender

  abbrev pub log_entry : Entry → Option Logger → Option Logger
  log_entry entry none = none
  log_entry entry (some logger) = log_text logger entry.sender (content_text entry.content)

  -- The calls of `log_deliver_events` for entries, the latest of which comes first.
  unfoldable pub log_entries : List Entry → Logger → Option Logger
  log_entries [] logger = some logger
  log_entries (entry ∷ log) logger = log_entry entry (log_entries log logger)

  abbrev pub logged_delivery :
      App → UrbDelivery → List Datagram → Option App → Received App UrbDelivery
  logged_delivery app d rest none = fault
  logged_delivery app d rest (some app') = returned app' d rest

  abbrev pub after_lcb : App → Received Lcb UrbDelivery → Received App UrbDelivery
  after_lcb app (returned lcb d rest) =
      logged_delivery app d rest
        (with_logger (record app { lcb = lcb }) (log_entries (new_entries app.lcb lcb) app.logger))
  after_lcb app (exited lcb rest) = exited (record app { lcb = lcb }) rest
  after_lcb app (waiting lcb) = waiting (record app { lcb = lcb })
  after_lcb app fault = fault
  after_lcb app unfinished = unfinished

  -- An iteration of the loop of `run_receiver`: `lcb_deliver` with what it logs. `stack` is what its array
  -- `content` holds before.
  unfoldable pub receive_next :
      (ℕ → Bool) → (ℕ → Pam) → List ℕ → App → List Datagram → Received App UrbDelivery
  receive_next fresh_acks fresh_pams stack app datagrams =
      after_lcb app (lcb_deliver fresh_acks fresh_pams stack app.lcb datagrams)

  abbrev pub receive_turn : App → UrbDelivery → Turn App Unit
  receive_turn app d = if app.receive_forever then again app else leave app tt

  -- `stack` gives this for each call, by the number of datagrams that are left.
  unfoldable pub run_receiver :
      (ℕ → Bool) → (ℕ → Pam) → (ℕ → List ℕ) → App → List Datagram → Received App Unit
  run_receiver fresh_acks fresh_pams stack app datagrams =
      if app.receive_forever
      then deliver_loop (λ a rest. receive_next fresh_acks fresh_pams (stack (length rest)) a rest)
          receive_turn (suc (length datagrams)) app datagrams
      else returned app tt datagrams

-- The state, and what is written to the output file; `tokens` as for `write_output`.
unfoldable pub app_destroy : (List ℕ → List (List ℕ)) → App → App × Option (List ℕ)
app_destroy tokens app = (
  record app { receive_forever = false; lcb = lcb_destroy app.lcb },
  write_output tokens app.logger,
)
