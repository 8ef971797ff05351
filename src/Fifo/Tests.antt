-- ===== src/Fifo/Tests.antt =====
-- A process that has two messages of process 1, the first of which the layer below has delivered.
use cs451_2021_project.Base.{
  ◌+◌, List, some, ℕ, ◌≡◌, refl, arith, true, false, [], ◌∷◌, ◌&&◌, ◌==◌, if◌then◌else◌, ltb,
}
use cs451_2021_project.Receive.{Datagram}
use cs451_2021_project.Receive.Rule.{Ends}
use cs451_2021_project.PerfectLinks.Tests.{initial_perfect, peer}
use cs451_2021_project.Urb.{urb_init, Row, zero_pam, accessible}
use cs451_2021_project.Lcb.Deliver.{done}
use cs451_2021_project.Fifo.{Fifo, fifo_rows, fifo_visit, fifo_row, deliver_next, fifo_deliver}
use cs451_2021_project.Fifo.Rows.{count_of, InOrder}
use cs451_2021_project.Fifo.Order.{HasPassed, fifo_deliver-Ends}
use cs451_2021_project.Config.{parsed}
use cs451_2021_project.Logger.{
  empty_logger, log_send_events, record_order, log_line, check_available_size, make_room,
}
use cs451_2021_project.Logger.Merge.{Event, log_events, text_of}
use cs451_2021_project.Logger.Tests.{tokens, tokens-text_of, digit}
use cs451_2021_project.App.{c_string, message_buffer}
use cs451_2021_project.App.Record.{sent_messages, sent_texts}
use cs451_2021_project.App.Numbered.{sent_lines}
use cs451_2021_project.App.Tests.{blank, infos}
use cs451_2021_project.Fifo.Rows.{IsFifo}
use cs451_2021_project.Fifo.Application.{
  Outside, FifoApp, app_init, send_next, run_sender, app_destroy,
}
use cs451_2021_project.Fifo.Record.{Records, start, send, IsFresh, KeepsRows}
use cs451_2021_project.Fifo.Sender.{broadcasts, run_sender_writes}
use cs451_2021_project.Fifo.Whole.{app_logs}

abbrev row : ℕ → Row
row i = record {
  cells = λ num.
      if i == 1 && ltb num 1 then record zero_pam { delivered = true; sum = 1 } else zero_pam;
  bytes = if ltb i 2 then 1200 else 0;
  size = if ltb i 2 then 3 else 0;
  used = 0;
}

abbrev initial : Fifo
initial = record {
  urb = record {
    beb = record { perfect = initial_perfect; addresses = peer ∷ [] };
    rows = row;
    n_processes = 1;
    process_id = 1;
    addresses = peer ∷ [];
    count = 0;
  };
  n_process = 1;
  delivered = λ _. 0;
  receive_forever = true;
  log = [];
}

logged : (t : Fifo) × (fifo_rows 2 initial 0 ≡ done t)
unfolding fifo_rows fifo_visit fifo_row deliver_next accessible
logged = (_, refl)

one_logged : logged.0.delivered 1 ≡ 1
unfolding logged deliver_next
one_logged = refl

initial-InOrder : InOrder initial
unfolding count_of
initial-InOrder = record { small = λ i. ground arith; position = λ i. refl; ordered = tt }

abbrev datagram : Datagram
datagram = record { peer = peer; bytes = b'm' ∷ 0 ∷ 0 ∷ 0 ∷ 0 ∷ b'1' ∷ [] }

fifo_deliver-Ends_example :
    Ends InOrder
      (λ t _. HasPassed 1 t)
      1
      (fifo_deliver (λ _. false) (λ _. zero_pam) initial (datagram ∷ []))
fifo_deliver-Ends_example =
    fifo_deliver-Ends (λ _. false) (λ _. zero_pam) initial (datagram ∷ []) 1 initial-InOrder
      (omega arith)

-- A broadcast that counts its messages, and two messages to send.
abbrev outside : Outside
outside = record {
  init_io_handler = λ logger. empty_logger;
  init_config_info = λ n path. 2;
  urb_broadcast = λ urb message. some (record urb { count = urb.count + 1 });
}

outside-KeepsRows : KeepsRows outside
outside-KeepsRows u message v e i = cc

abbrev before : FifoApp
before = record {
  filename = [];
  addresses = blank.addresses;
  n_messages = 0;
  infos = [];
  process_id = 0;
  n_sent = 0;
  logger = empty_logger;
  fifo = record {
    urb = blank.lcb.urb;
    n_process = 0;
    delivered = λ _. 0;
    receive_forever = false;
    log = [];
  };
}

before-IsFresh : IsFresh before
before-IsFresh = record {
  no_log = refl;
  no_rows = λ i. refl;
  no_positions = λ i. refl;
  none_sent = refl;
}

started : (a : FifoApp) × (app_init outside before [] [] true 2 infos ≡ parsed a)
unfolding app_init urb_init
started = (_, refl)

broadcast_both :
    broadcasts digit outside 2 0 started.0.fifo.urb ≡ some (record started.0.fifo.urb { count = 2 })
unfolding broadcasts started urb_init
broadcast_both = refl

run_sender_writes_example :
    (b : FifoApp) × (run_sender digit outside started.0 ≡ some b)
    × (b.fifo.urb ≡ record started.0.fifo.urb { count = 2 })
    × ((app_destroy tokens b).1 ≡ some (text_of (sent_lines digit 2)))
unfolding started
run_sender_writes_example =
    run_sender_writes digit outside (λ n. (omega arith, tt)) tokens started.0
      (record started.0.fifo.urb { count = 2 }) tokens-text_of refl (omega arith) broadcast_both

sent_one : (b : FifoApp) × (send_next digit outside started.0 ≡ some b)
unfolding send_next started log_send_events record_order log_line check_available_size make_room
    c_string message_buffer
sent_one = (_, refl)

app_logs_example :
    (events : List Event) × (log_events digit events ≡ some sent_one.0.logger)
    × (sent_texts events ≡ sent_messages digit sent_one.0.n_sent)
    × Records events sent_one.0.fifo.log
    × IsFifo sent_one.0.fifo.log
app_logs_example =
    app_logs digit outside before started.0 sent_one.0 [] [] true 2 infos outside-KeepsRows refl
      before-IsFresh started.1 (send start sent_one.1)
