-- ===== src/Fifo/Whole.antt =====
-- A run of template_cpp/src/src/fifo_broadcast_application.c, from the start.
use cs451_2021_project.Base.{
  ℕ, ◌^◌, ◌≡◌, ◌<◌, refl, arith, Bool, true, List, [], some, length, Option-cases, inl, inr,
}
use cs451_2021_project.Address.{SockAddr, ProcessInfo, max_processes}
use cs451_2021_project.Urb.{Urb, urb_init}
use cs451_2021_project.Logger.{empty_logger}
use cs451_2021_project.Logger.Merge.{Event, log_events}
use cs451_2021_project.Config.{parsed}
use cs451_2021_project.App.{array, fill_addresses}
use cs451_2021_project.App.Record.{sent_messages, sent_texts}
use cs451_2021_project.Fifo.Rows.{IsFifo, count_of}
use cs451_2021_project.Fifo.Application.{Outside, FifoApp, app_init}
use cs451_2021_project.Fifo.Record.{Records, KeepsRows, Turns, Turns-Writes, IsFresh}

app_init_lem :
    (outside : Outside) (app a : FifoApp) (filename configpath : List ℕ) (has_socket : Bool)
    (process_id : ℕ) (infos : List ProcessInfo)
    → app_init outside app filename configpath has_socket process_id infos ≡ parsed a
    → (urb : Urb) × (urb_init app.fifo.urb process_id
          (array max_processes 0 a.addresses)
          (length infos)
        ≡ some urb)
      × (a.fifo ≡ record app.fifo { urb = urb; n_process = length infos; receive_forever = true })
      × (a.logger ≡ outside.init_io_handler app.logger)
      × (a.n_sent ≡ app.n_sent)
unfolding app_init
app_init_lem outside app a filename configpath has_socket process_id infos e =
    elim (Option-cases (
      urb_init app.fifo.urb process_id
        (array max_processes 0 (fill_addresses (length infos) 0 infos app.addresses))
        (length infos))) [
          | inl fails ↦ absurd (ground arith)
          | inr (urb, inits) ↦ (
            urb,
            ground (arith, inits),
            ground (arith, inits),
            ground (arith, inits),
            ground (arith, inits),
          )
        ]

urb_init-small :
    (s : Urb) (process_id : ℕ) (addresses : List SockAddr) (n : ℕ) {t : Urb}
    → urb_init s process_id addresses n ≡ some t
    → ((i : ℕ) → (s.rows i).bytes ≡ 0)
    → (i : ℕ) → (t.rows i).bytes < 2 ^ 32
unfolding urb_init
urb_init-small s process_id addresses n e zero_rows i = ground (arith, zero_rows i)

-- If `init_io_handler` leaves an empty logger, the `urb_broadcast` of the file leaves the rows of the table as large as
-- they are, the static variables are as they start, and `app_init` goes through: after iterations of the loops of the two
-- threads, in any order and each within the arrays, the logger holds the calls for the messages that were sent, by their
-- numbers from 1 on, and for those that were delivered, and the latter are in FIFO order: of each process
-- in the order of their numbers, without a gap.
pub app_logs :
    (print_ulong : ℕ → List ℕ) (outside : Outside) (app a b : FifoApp)
    (filename configpath : List ℕ) (has_socket : Bool) (process_id : ℕ) (infos : List ProcessInfo)
    → KeepsRows outside
    → outside.init_io_handler app.logger ≡ empty_logger
    → IsFresh app
    → app_init outside app filename configpath has_socket process_id infos ≡ parsed a
    → Turns print_ulong outside a b
    → (events : List Event) × (log_events print_ulong events ≡ some b.logger)
      × (sent_texts events ≡ sent_messages print_ulong b.n_sent)
      × Records events b.fifo.log
      × IsFifo b.fifo.log
unfolding log_events count_of
app_logs print_ulong outside app a b filename configpath has_socket process_id infos keeps logger
      fresh e turns =
    let (urb, inits, fifo, logs, none_sent) =
      app_init_lem outside app a filename configpath has_socket process_id infos e in
    let (events, w) = Turns-Writes print_ulong outside keeps turns (
      [],
      record {
        logged = rw (logs, logger) refl;
        sends = rw (none_sent, fresh.none_sent) refl;
        delivers = rw (fifo, fresh.no_log) tt;
        in_order = record {
          small = λ i. rw fifo (
              urb_init-small app.fifo.urb process_id (array max_processes 0 a.addresses)
                (length infos) inits fresh.no_rows i);
          position = λ i. rw (fifo, fresh.no_log) (fresh.no_positions i);
          ordered = rw (fifo, fresh.no_log) tt;
        };
      },
    ) in
    (events, w.logged, w.sends, w.delivers, w.in_order.ordered)
