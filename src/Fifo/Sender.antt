-- ===== src/Fifo/Sender.antt =====
-- `run_sender` of template_cpp/src/src/fifo_broadcast_application.c, up to what is written at the end.
use cs451_2021_project.Base.{
  ℕ, zero, suc, ◌+◌, ◌^◌, ◌≡◌, ◌<◌, refl, sym, ap, ◌∙◌, subst, arith, List, [], ◌∷◌, Option, some,
  none, All, Option-cases, inl, inr,
}
use cs451_2021_project.Urb.{Urb}
use cs451_2021_project.Logger.{Logger, empty_logger}
use cs451_2021_project.Logger.Merge.{sent, Logged, log_event-Logged, empty_logger-Logged, text_of}
use cs451_2021_project.Logger.Output.{IsLine, write_output-Logged}
use cs451_2021_project.App.{message_buffer, message_text}
use cs451_2021_project.App.Output.{OneLine, message_text-FitsLine}
use cs451_2021_project.App.Numbered.{
  sent_events, sent_lines, lines_of-sent_events, length-sent_events, sent_events-IsClean,
}
use cs451_2021_project.Fifo.Application.{
  Outside, FifoApp, send_next, send_all, run_sender, app_destroy,
}

module _ (print_ulong : ℕ → List ℕ) (outside : Outside) where
  abbrev then_broadcast : (Urb → Option Urb) → Option Urb → Option Urb
  then_broadcast more none = none
  then_broadcast more (some urb) = more urb

  -- The calls of `urb_broadcast` with the `left` messages behind the message `n`, in the order of their numbers.
  unfoldable pub broadcasts : ℕ → ℕ → Urb → Option Urb
  broadcasts zero n urb = some urb
  broadcasts (suc left) n urb =
      then_broadcast (broadcasts left (n + 1))
        (outside.urb_broadcast urb (message_buffer print_ulong (n + 1)))

module _ (print_ulong : ℕ → List ℕ) (outside : Outside)
    (quiet : (n : ℕ) → OneLine (print_ulong n)) where
  sent_one :
      (app : FifoApp) (urb : Urb)
      → app.n_sent + 1 < 2 ^ 32
      → outside.urb_broadcast app.fifo.urb (message_buffer print_ulong (app.n_sent + 1)) ≡ some urb
      → Logged print_ulong app.logger (sent_events print_ulong app.n_sent)
      → (logger : Logger) × (send_next print_ulong outside app
          ≡ some (record app {
            logger = logger;
            fifo = record app.fifo { urb = urb };
            n_sent = app.n_sent + 1;
          }))
        × Logged print_ulong logger (sent_events print_ulong (app.n_sent + 1))
  unfolding send_next sent_events
  sent_one app urb b sends logged =
      let next : suc app.n_sent ≡ app.n_sent + 1 = omega arith in
      let (logger, logs, logged') =
        log_event-Logged print_ulong app.logger (sent_events print_ulong app.n_sent)
          (sent (message_text print_ulong (app.n_sent + 1)))
          (omega (arith, length-sent_events print_ulong app.n_sent))
          (message_text-FitsLine print_ulong (app.n_sent + 1) (quiet (app.n_sent + 1))).0 logged in
      (
        logger,
        rw (logs, sends) refl,
        subst (λ n. Logged print_ulong logger (sent_events print_ulong n)) next
            (subst
              (λ n.
                Logged print_ulong logger
                  (sent (message_text print_ulong n) ∷ sent_events print_ulong app.n_sent))
              (sym next) logged'),
      )

  send_all-Logged :
      (left : ℕ) (app : FifoApp) (urb : Urb)
      → app.n_sent + left < 2 ^ 32
      → broadcasts print_ulong outside left app.n_sent app.fifo.urb ≡ some urb
      → Logged print_ulong app.logger (sent_events print_ulong app.n_sent)
      → (b : FifoApp) × (send_all print_ulong outside left app ≡ some b)
        × (b.fifo.urb ≡ urb)
        × Logged print_ulong b.logger (sent_events print_ulong (app.n_sent + left))
  unfolding send_all broadcasts
  send_all-Logged zero app urb b e logged = (
    app,
    refl,
    cc,
    subst (λ n. Logged print_ulong app.logger (sent_events print_ulong n)) (omega arith) logged,
  )
  send_all-Logged (suc left) app urb b e logged =
      elim (Option-cases
        (outside.urb_broadcast app.fifo.urb (message_buffer print_ulong (app.n_sent + 1)))) [
          | inl fails ↦ absurd (ground arith)
          | inr (next, sends) ↦
              let (logger, one, logged') = sent_one app next (omega (arith, b)) sends logged in
              let sent_app : FifoApp = record app {
                logger = logger;
                fifo = record app.fifo { urb = next };
                n_sent = app.n_sent + 1;
              } in
              let (d, all, same, logged'') =
                send_all-Logged left sent_app urb (omega (arith, b)) (ground (arith, sends))
                  logged' in
              (
                d,
                rw one all,
                same,
                subst (λ n. Logged print_ulong d.logger (sent_events print_ulong n))
                    {x = app.n_sent + 1 + left} {y = app.n_sent + suc left} (omega arith) logged'',
              )
        ]

  -- From the initial logger, where no number is printed with a newline, `strtok_r` cuts a text of lines into these lines,
  -- there are fewer than 2 ^ 32 messages, and the calls of `urb_broadcast` with the messages 1 to `n_messages`, in this
  -- order, lead to a state: `run_sender` completes with this state of the broadcast, and if nothing is delivered meanwhile,
  -- `app_destroy` writes a line "b k" for each message, in this order.
  pub run_sender_writes :
      (tokens : List ℕ → List (List ℕ)) (app : FifoApp) (urb : Urb)
      → ((lines : List (List ℕ)) → All IsLine lines → tokens (text_of lines) ≡ lines)
      → app.logger ≡ empty_logger
      → app.n_messages < 2 ^ 32
      → broadcasts print_ulong outside app.n_messages 0 app.fifo.urb ≡ some urb
      → (b : FifoApp) × (run_sender print_ulong outside app ≡ some b)
        × (b.fifo.urb ≡ urb)
        × ((app_destroy tokens b).1 ≡ some (text_of (sent_lines print_ulong app.n_messages)))
  unfolding run_sender app_destroy sent_events
  run_sender_writes tokens app urb cut fresh b e =
      let (d, all, same, logged) =
        send_all-Logged app.n_messages (record app { n_sent = 0 }) urb (omega (arith, b)) e
          (subst (λ l. Logged print_ulong l []) (sym fresh) (empty_logger-Logged print_ulong)) in
      let logged' =
        subst (λ n. Logged print_ulong d.logger (sent_events print_ulong n))
          {x = 0 + app.n_messages} {y = app.n_messages} (omega arith) logged in
      (
        d,
        all,
        same,
        write_output-Logged print_ulong tokens d.logger (sent_events print_ulong app.n_messages) cut
              (sent_events-IsClean print_ulong quiet app.n_messages) logged'
            ∙ ap (λ l. some (text_of l)) (lines_of-sent_events print_ulong app.n_messages),
      )
