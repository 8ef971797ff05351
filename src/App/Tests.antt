-- ===== src/App/Tests.antt =====
-- The second of two processes, with one message.
use cs451_2021_project.Base.{
  Bool, not, ◌&&◌, ◌==◌, ◌<◌, ◌^◌, All, replicate, ◌++◌, ℕ, ◌+◌, ◌%◌, ◌≡◌, ◌≤◌, refl, arith, true,
  false, List, [], ◌∷◌, Option, none, some, length,
}
use cs451_2021_project.Address.{ProcessInfo, get_sockaddr_by_id, htons, index_of_port, get_index}
use cs451_2021_project.Serializer.{to_bytes, serialize, deserialize, of_bytes}
use cs451_2021_project.Address.{find_process_id}
use cs451_2021_project.LinkedList.{insert_last}
use cs451_2021_project.StubbornLinks.{
  sl_deliver, sl_send, handle_packet, ack_message, header, fill_buffer, received_size,
}
use cs451_2021_project.PerfectLinks.{
  pl_init, pl_deliver, below, pl_body, unpack, check_ack, move_down, pl_finish, record_ack, pl_send,
  pl_send_at, pl_pack,
}
use cs451_2021_project.BestEffort.{beb_init, beb_broadcast, beb_deliver, send_to_all}
use cs451_2021_project.Urb.{pam_alloc, fill_pam, accessible, check_pam_table}
use cs451_2021_project.Urb.Deliver.{
  UrbDelivery, urb_deliver, beb_below, urb_body, urb_header, handle_pam, count_ack, first_seen,
  ready, mark_delivered,
}
use cs451_2021_project.Lcb.{check_local_causality, check_causes, strlen}
use cs451_2021_project.Lcb.Deliver.{
  lcb_deliver, drain, drain_all, drain_rows, visit_row, drain_row, next_of, read_entry,
  entry_fields, clock_of_bytes, deliver_entry, memory,
}
use cs451_2021_project.Logger.{
  log_deliver_events, record_order, log_line, check_available_size, make_room,
}
use cs451_2021_project.Receive.{Datagram, returned, deliver_loop, map_state}
use cs451_2021_project.Receive.Rule.{Ends}
use cs451_2021_project.PerfectLinks.Tests.{initial_perfect, peer}
use cs451_2021_project.BestEffort.Sending.{IndicesDiffer}
use cs451_2021_project.Urb.{Row, zero_pam}
use cs451_2021_project.Lcb.{Entry, CausalConfig}
use cs451_2021_project.Logger.{empty_logger}
use cs451_2021_project.Logger.Merge.{Event, log_events, lines_of, text_of}
use cs451_2021_project.Logger.Tests.{tokens, tokens-text_of}
use cs451_2021_project.Config.{
  parsed, l_causal, ConfigFile, number, parse_config, parse_lcausal_config, parse_lines,
}
use cs451_2021_project.Config.Tests.{text, initial}
use cs451_2021_project.App.{
  receive_next, log_entries, content_text, App, fill_addresses, array, app_init, run_sender,
  run_receiver, app_destroy,
}
use cs451_2021_project.App.Record.{Wrote, Writes, Turns, start, receive}
use cs451_2021_project.App.Output.{OneLine}
use cs451_2021_project.App.Sender.{broadcasts}
use cs451_2021_project.App.Numbered.{sent_events}
use cs451_2021_project.App.Start.{app_init_lem, IsFresh, read_config, initialised-Wrote}
use cs451_2021_project.App.Whole.{first, peers, run_receiver-Ends, app_init-run_sender, app_writes}

abbrev pub infos : List ProcessInfo
infos =
    record { id = 1; ip = 0x0100007f; port = 0xf92a }
    ∷ record { id = 2; ip = 0x0100007f; port = 0xfa2a }
    ∷ []

abbrev pub no_row : Row
no_row = record { cells = λ _. zero_pam; bytes = 0; size = 0; used = 0 }

-- The static variables before the first call.
abbrev pub blank : App
blank = record {
  filename = [];
  addresses = λ _. record { sin_family = 0; sin_port = 0; s_addr = 0 };
  config = initial;
  infos = [];
  process_id = 0;
  receive_forever = false;
  n_sent = 0;
  logger = empty_logger;
  lcb = record {
    urb = record {
      beb = record { perfect = initial_perfect; addresses = [] };
      rows = λ _. no_row;
      n_processes = 0;
      process_id = 0;
      addresses = [];
      count = 0;
    };
    config = initial;
    v_clock = λ _. 0;
    lsn = 0;
    process_id = 0;
    n_processes = 0;
    broadcast_buffer = [];
    delivered = λ _. 0;
    log = [];
  };
}

abbrev pub one_message : CausalConfig
one_message = record { process_id = 2; n_messages = 1; causal = λ _. [] }

abbrev pub file : Option ConfigFile
file = some (record { size = 2; numbers = none; scans = number 1 ∷ [] })

configured : read_config text blank (b'o' ∷ []) file 2 infos ≡ parsed (l_causal one_message)
unfolding parse_config parse_lcausal_config parse_lines
configured = refl

blank-IsFresh : IsFresh blank
blank-IsFresh = record {
  n_sent = refl;
  num_order = refl;
  log = refl;
  v_clock = λ i. refl;
  delivered = λ i. refl;
  rows = λ i. refl;
}

-- Numbers of one digit.
abbrev digit : ℕ → List ℕ
digit n = (b'0' + n % 10) ∷ []

digit-OneLine : (n : ℕ) → (length (digit n) ≤ 20) × OneLine (digit n)
digit-OneLine n = (omega arith, ((λ e. absurd (omega arith)), tt))

differ :
    IndicesDiffer (peers text blank (b'o' ∷ []) file 2 infos one_message configured blank-IsFresh)
unfolding array fill_addresses get_sockaddr_by_id get_index index_of_port htons
differ = (((λ e. absurd (omega arith)), tt), (tt, tt))

app_init-run_sender_example :
    (a : App) × (app_init text blank (b'o' ∷ []) file true 2 infos ≡ parsed a)
    × ((b : App) × (run_sender digit a ≡ some b)
        × (b.n_sent ≡ 1)
        × (log_events digit (sent_events digit 1) ≡ some b.logger)
        × (broadcasts digit 1 a.lcb ≡ some b.lcb))
app_init-run_sender_example =
    app_init-run_sender text blank (b'o' ∷ []) file 2 infos one_message configured blank-IsFresh
      digit (λ n. (digit-OneLine n).0) refl refl differ (omega arith) (omega arith) (omega arith)
      (omega arith)

abbrev begun : App
begun = first text blank (b'o' ∷ []) file 2 infos one_message configured blank-IsFresh

abbrev begun-Writes : Writes digit begun
begun-Writes = ([], initialised-Wrote digit blank (b'o' ∷ []) 2 infos one_message blank-IsFresh)

abbrev datagram : Datagram
datagram = record { peer = peer; bytes = b'm' ∷ 0 ∷ 0 ∷ 0 ∷ 0 ∷ b'1' ∷ [] }

run_receiver-Ends_example :
    Ends
      (Writes digit)
      (λ a _. Writes digit a)
      1
      (run_receiver digit (λ _. false) (λ _. zero_pam) (λ _. []) begun (datagram ∷ []))
run_receiver-Ends_example =
    run_receiver-Ends digit (λ _. false) (λ _. zero_pam) (λ _. []) begun (datagram ∷ []) refl
      begun-Writes

-- A message of process 1 with the clock 0, 0, 0 and the text 1, and the copy of it that this process relays.
abbrev from_process : ℕ → Datagram
from_process port = record {
  peer = record { sin_family = 2; sin_port = port; s_addr = 0x0100007f };
  bytes =
      (b'm' ∷ 0 ∷ 0 ∷ 0 ∷ 0 ∷ [])
      ++ (0x2a ∷ 0xf9 ∷ 0 ∷ 0 ∷ 0 ∷ 0 ∷ [])
      ++ replicate 12 0
      ++ b'1' ∷ 0 ∷ [];
}

-- It is delivered when the copy arrives.
received_one :
    (b : App) × (d : UrbDelivery) × (receive_next digit
        (λ _. false)
        (λ _. zero_pam)
        []
        begun
        (from_process 0xf92a ∷ from_process 0xfa2a ∷ [])
      ≡ returned b d [])
unfolding receive_next urb_deliver deliver_loop map_state beb_below beb_deliver pl_deliver below
    sl_deliver received_size fill_buffer handle_packet ack_message header deserialize serialize
    of_bytes to_bytes pl_body unpack check_ack find_process_id move_down pl_finish record_ack
    urb_body urb_header handle_pam count_ack first_seen ready mark_delivered accessible
    check_pam_table get_index index_of_port pam_alloc fill_pam beb_broadcast send_to_all pl_send
    pl_send_at pl_pack sl_send insert_last lcb_deliver drain drain_all drain_rows visit_row
    drain_row next_of read_entry entry_fields clock_of_bytes deliver_entry memory
    check_local_causality check_causes log_entries content_text strlen log_deliver_events
    record_order log_line check_available_size make_room array fill_addresses get_sockaddr_by_id
    beb_init pl_init
received_one = (_, _, refl)

turns : Turns digit begun received_one.0
turns = receive (λ _. false) (λ _. zero_pam) [] _ [] received_one.1 start received_one.2

-- Whether a text has no newline.
unfoldable one_line : List ℕ → Bool
one_line [] = true
one_line (c ∷ text) = not (c == 10) && one_line text

one_line-OneLine : (text : List ℕ) → one_line text ≡ true → OneLine text
unfolding one_line
one_line-OneLine [] e = tt
one_line-OneLine (c ∷ text) e = (λ h. ground arith, one_line-OneLine text (ground arith))

unfoldable one_lines : List Entry → Bool
one_lines [] = true
one_lines (entry ∷ log) = one_line entry.content && one_lines log

one_lines-OneLine :
    (log : List Entry) → one_lines log ≡ true → All (λ entry. OneLine entry.content) log
unfolding one_lines
one_lines-OneLine [] e = tt
one_lines-OneLine (entry ∷ log) e =
    (one_line-OneLine entry.content (ground arith), one_lines-OneLine log (ground arith))

delivered_clean : All (λ entry. OneLine entry.content) received_one.0.lcb.log
unfolding received_one entry_fields deliver_entry one_line one_lines
delivered_clean = one_lines-OneLine received_one.0.lcb.log refl

-- One delivery is logged.
one_delivery : length received_one.0.lcb.log ≡ 1
unfolding received_one deliver_entry
one_delivery = refl

few : received_one.0.n_sent + length received_one.0.lcb.log < 2 ^ 32
unfolding received_one deliver_entry
few = omega arith

app_writes_example :
    (events : List Event) × Wrote digit received_one.0 events
    × ((app_destroy tokens received_one.0).1 ≡ some (text_of (lines_of digit events)))
app_writes_example =
    app_writes text blank (b'o' ∷ []) file 2 infos one_message configured blank-IsFresh digit tokens
      received_one.0 digit-OneLine tokens-text_of (omega arith)
      (app_init_lem text blank (b'o' ∷ []) file 2 infos one_message configured (omega arith)) turns
      delivered_clean few
