-- ===== src/App/Sender.antt =====
-- `run_sender` of template_cpp/src/src/lcb_app.c within the limits of the layers below.
use cs451_2021_project.Base.{
  ℕ, zero, suc, ◌+◌, ◌-◌, ◌*◌, ◌^◌, ◌≡◌, ◌≤◌, ◌<◌, refl, subst, arith, List, [], ◌∷◌, ◌++◌, some,
  length, take, replicate, length-take, sym, ap, ◌∙◌, Option, none, le→leb, Bool-cases, inl, inr,
  ◌==◌,
}
use cs451_2021_project.Urb.{accessible}
use cs451_2021_project.Lcb.{Lcb, lcb_broadcast, strlen}
use cs451_2021_project.Lcb.Sending.{CanSend, lcb_broadcast-Queued}
use cs451_2021_project.Logger.{empty_logger}
use cs451_2021_project.Logger.Merge.{sent, after_event, log_events, Logged, log_event-Logged}
use cs451_2021_project.App.Numbered.{sent_events, length-sent_events}
use cs451_2021_project.App.{
  App, c_string, message_buffer, message_text, send_next, send_all, run_sender,
}

strlen-c_string :
    (text : List ℕ) (n : ℕ)
    → strlen (text ++ replicate (suc n) 0) ≡ some (length (c_string (text ++ replicate (suc n) 0)))
unfolding strlen c_string
strlen-c_string [] n = ground arith
strlen-c_string (c ∷ text) n = elim (Bool-cases (c == 0)) [
  | inl end ↦ rw end refl
  | inr more ↦ rw (more, strlen-c_string text n) (ground arith)
]

length-c_string_le : (text : List ℕ) → length (c_string text) ≤ length text
unfolding c_string
length-c_string_le [] = omega arith
length-c_string_le (c ∷ text) = ground (arith, length-c_string_le text)

pub length-replicate : (n c : ℕ) → length (replicate n c) ≡ n
length-replicate zero c = refl
length-replicate (suc n) c = omega (arith, length-replicate n c)

module _ (print_ulong : ℕ → List ℕ) where
  abbrev broadcast_text : ℕ → Option Lcb → Option Lcb
  broadcast_text n none = none
  broadcast_text n (some lcb) =
      lcb_broadcast lcb (message_buffer print_ulong n) (length (message_text print_ulong n))

  -- The calls of `lcb_broadcast` with the messages 1 to `n`, one after the other.
  unfoldable pub broadcasts : ℕ → Lcb → Option Lcb
  broadcasts zero lcb = some lcb
  broadcasts (suc n) lcb = broadcast_text (suc n) (broadcasts n lcb)

  -- What has been logged and broadcast, from the state `before` on, are the messages with the numbers 1 to `n_sent`.
  pub record HasSent (before : Lcb) (app : App) : Type 0 where
    pub logs : log_events print_ulong (sent_events print_ulong app.n_sent) ≡ some app.logger
    pub calls : broadcasts app.n_sent before ≡ some app.lcb

  -- The arrays of the layers have room for `left` messages more, and an entry behind these.
  pub record CanSendAll (left : ℕ) (app : App) : Type 0 where
    pub can_send : CanSend app.lcb
    pub clock_room : app.lcb.n_processes * 4 + 20 ≤ 244
    pub row_room :
        (app.lcb.urb.count + left + 1) * 400 ≤ (app.lcb.urb.rows app.lcb.urb.process_id).bytes
    pub small : (app.lcb.urb.rows app.lcb.urb.process_id).bytes < 2 ^ 32
    pub logged : Logged print_ulong app.logger (sent_events print_ulong app.n_sent)
    pub order_room : app.n_sent + left < 2 ^ 32

module _ (print_ulong : ℕ → List ℕ) (digits : (n : ℕ) → length (print_ulong n) ≤ 20) where
  short_text : (text : List ℕ) (n : ℕ) → length (c_string (text ++ replicate n 0)) ≤ length text
  unfolding c_string
  short_text [] zero = omega arith
  short_text [] (suc n) = ground arith
  short_text (c ∷ text) n = ground (arith, short_text text n)

  message_text_lem :
      (n : ℕ)
      → (strlen (message_buffer print_ulong n) ≡ some (length (message_text print_ulong n)))
        × (length (message_text print_ulong n) ≤ 20)
        × (length (message_text print_ulong n) ≤ length (message_buffer print_ulong n))
  unfolding message_buffer
  message_text_lem n =
      let printed = take 255 (print_ulong n) in
      let size : length printed ≤ 20 = omega (arith, length-take 255 (print_ulong n), digits n) in
      (
        subst
            (λ k.
              strlen (printed ++ replicate k 0)
              ≡ some (length (c_string (printed ++ replicate k 0))))
            {x = suc (255 - length printed)} {y = 256 - length printed} (omega arith)
            (strlen-c_string printed (255 - length printed)),
        omega (arith, size, short_text printed (256 - length printed)),
        length-c_string_le (message_buffer print_ulong n),
      )

  pub send_next_lem :
      (before : Lcb) (left : ℕ) (app : App)
      → CanSendAll print_ulong (suc left) app
      → HasSent print_ulong before app
      → (b : App) × (send_next print_ulong app ≡ some b)
        × CanSendAll print_ulong left b
        × HasSent print_ulong before b
        × (b.n_sent ≡ app.n_sent + 1)
  unfolding send_next accessible log_events sent_events broadcasts
  send_next_lem before left app c h =
      let n = app.n_sent + 1 in
      let next : suc app.n_sent ≡ n = omega arith in
      let text = message_text print_ulong n in
      let events : sent_events print_ulong n ≡ sent text ∷ sent_events print_ulong app.n_sent =
        ap (sent_events print_ulong) (sym next)
        ∙ ap (λ k. sent (message_text print_ulong k) ∷ sent_events print_ulong app.n_sent) next in
      let called : broadcasts print_ulong n before
          ≡ lcb_broadcast app.lcb (message_buffer print_ulong n) (length text) =
        ap (λ k. broadcasts print_ulong k before) (sym next)
        ∙ ap (broadcast_text print_ulong (suc app.n_sent)) h.calls
        ∙ ap (λ k. broadcast_text print_ulong k (some app.lcb)) next in
      let (ends, short, within) = message_text_lem n in
      let (logger, logs, logged) =
        log_event-Logged print_ulong app.logger (sent_events print_ulong app.n_sent) (sent text)
          (omega (arith, length-sent_events print_ulong app.n_sent, c.order_room))
          (omega (arith, short)) c.logged in
      let (lcb, sends, (lsn, count), again, (same_n, same_id, same_bytes), tail, queues) =
        lcb_broadcast-Queued app.lcb (message_buffer print_ulong n) (length text) c.can_send ends
          within (omega (arith, short, c.clock_room)) in
      let counted : lcb.urb.count ≡ app.lcb.urb.count + 1 =
        omega (arith, count, c.row_room, c.small) in
      (
        record app { logger = logger; lcb = lcb; n_sent = n },
        rw (logs, sends) refl,
        record {
          can_send = again (
              le→leb ((lcb.urb.count + 1) * 400) (app.lcb.urb.rows app.lcb.urb.process_id).bytes
                (omega (arith, counted, c.row_room)));
          clock_room = omega (arith, same_n, c.clock_room);
          row_room = omega (arith, same_bytes, counted, c.row_room);
          small = omega (arith, same_bytes, c.small);
          logged = subst (Logged print_ulong logger) (sym events) logged;
          order_room = omega (arith, c.order_room);
        },
        record {
          logs =
              ap (log_events print_ulong) events
              ∙ ap (after_event print_ulong (sent text)) h.logs
              ∙ logs;
          calls = called ∙ sends;
        },
        refl,
      )

  send_all_lem :
      (before : Lcb) (left : ℕ) (app : App)
      → CanSendAll print_ulong left app
      → HasSent print_ulong before app
      → (b : App) × (send_all print_ulong left app ≡ some b)
        × HasSent print_ulong before b
        × (b.n_sent ≡ app.n_sent + left)
  unfolding send_all
  send_all_lem before zero app c h = (app, refl, h, omega arith)
  send_all_lem before (suc left) app c h =
      let (b, sends, can, sent_b, n) = send_next_lem before left app c h in
      let (d, sends', sent_d, n') = send_all_lem before left b can sent_b in
      (d, rw sends sends', sent_d, omega (arith, n))

  -- If the printed numbers have at most 20 bytes, the clock leaves room for these, and the row of the process and
  -- the order of the logger have room for all messages of the configuration (and the row for an entry behind
  -- them), then `run_sender` does not leave the arrays, and has logged and broadcast exactly these messages, in the order of
  -- their numbers.
  pub run_sender_completes :
      (app : App)
      → CanSendAll print_ulong app.config.n_messages (record app { n_sent = 0 })
      → app.logger ≡ empty_logger
      → (b : App) × (run_sender print_ulong app ≡ some b)
        × (b.n_sent ≡ app.config.n_messages)
        × HasSent print_ulong app.lcb b
  unfolding run_sender log_events sent_events broadcasts
  run_sender_completes app c empty =
      let (b, sends, has, n) =
        send_all_lem app.lcb app.config.n_messages (record app { n_sent = 0 }) c
          (record { logs = ap some (sym empty); calls = refl }) in
      (b, sends, omega (arith, n), has)
