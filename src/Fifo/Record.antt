-- ===== src/Fifo/Record.antt =====
-- What the logger of template_cpp/src/src/fifo_broadcast_application.c holds while the two threads run.
use cs451_2021_project.Base.{
  ℕ, suc, ◌+◌, ◌≡◌, refl, ap, ◌∙◌, subst, arith, Bool, List, [], ◌∷◌, ◌++◌, some, length, take_new,
  Option-cases, inl, inr,
}
use cs451_2021_project.Receive.{Datagram, Received, returned, exited, waiting, fault, unfinished}
use cs451_2021_project.Receive.Rule.{Ends}
use cs451_2021_project.Urb.{Urb, Pam}
use cs451_2021_project.Urb.Deliver.{UrbDelivery}
use cs451_2021_project.Logger.{Logger, log_send_events}
use cs451_2021_project.Logger.Merge.{Event, sent, delivered, log_events}
use cs451_2021_project.App.{message_buffer, message_text}
use cs451_2021_project.App.Record.{sent_messages, sent_texts}
use cs451_2021_project.Handler.{string_in}
use cs451_2021_project.Fifo.{Fifo, FifoEntry, fifo_deliver}
use cs451_2021_project.Fifo.Rows.{InOrder, IsPassed}
use cs451_2021_project.Fifo.Order.{fifo_deliver-Ends}
use cs451_2021_project.Fifo.Log.{fifo_deliver-Extends}
use cs451_2021_project.Fifo.Application.{
  Outside, FifoApp, send_next, log_entries, new_entries, after_fifo, receive_next,
}

-- The deliveries among the events are those of the entries, in the same order.
abbrev pub Records : List Event → List FifoEntry → Type 0
Records [] [] = Unit
Records [] (entry ∷ log) = ⊥
Records (sent text ∷ events) log = Records events log
Records (delivered text id ∷ events) [] = ⊥
Records (delivered text id ∷ events) (entry ∷ log) =
    (string_in entry.content ≡ some text) × (id ≡ entry.sender) × Records events log

-- The `urb_broadcast` that the file calls does not change how much memory the rows have.
abbrev pub KeepsRows : Outside → Type 0
KeepsRows outside =
    (u : Urb) (message : List ℕ) (v : Urb)
    → outside.urb_broadcast u message ≡ some v
    → (i : ℕ) → (v.rows i).bytes ≡ (u.rows i).bytes

module _ (print_ulong : ℕ → List ℕ) where
  -- The logger holds these events: the messages that were sent, by their numbers, and what was delivered in FIFO order.
  pub record Wrote (app : FifoApp) (events : List Event) : Type 0 where
    pub logged : log_events print_ulong events ≡ some app.logger
    pub sends : sent_texts events ≡ sent_messages print_ulong app.n_sent
    pub delivers : Records events app.fifo.log
    pub in_order : InOrder app.fifo

  log_entries_lem :
      (new log : List FifoEntry) (events : List Event) {s t : Logger}
      → log_events print_ulong events ≡ some s
      → Records events log
      → log_entries print_ulong new s ≡ some t
      → (events' : List Event) × (log_events print_ulong events' ≡ some t)
        × Records events' (new ++ log)
        × (sent_texts events' ≡ sent_texts events)
  unfolding log_entries log_events
  log_entries_lem [] log events l r e = (events, l ∙ e, r, refl)
  log_entries_lem (entry ∷ new) log events {s} {t} l r e =
      elim (Option-cases (log_entries print_ulong new s)) [
        | inl fails ↦ absurd (ground arith)
        | inr (u, logs) ↦ elim (Option-cases (string_in entry.content)) [
          | inl fails ↦ absurd (ground arith)
          | inr (text, found) ↦
              let (events', l', r', same) = log_entries_lem new log events l r logs in
              (delivered text entry.sender ∷ events', rw l' (ground arith), (found, refl, r'), same)
        ]
      ]

  module _ (outside : Outside) where
    send_next-Wrote :
        (app : FifoApp) (events : List Event) {app' : FifoApp}
        → KeepsRows outside
        → send_next print_ulong outside app ≡ some app'
        → Wrote app events
        → Wrote app' (sent (message_text print_ulong (app.n_sent + 1)) ∷ events)
    unfolding send_next log_events
    send_next-Wrote app events keeps e w =
        let text = message_text print_ulong (app.n_sent + 1) in
        elim (Option-cases (log_send_events app.logger text)) [
          | inl fails ↦ absurd (ground arith)
          | inr (logger, logs) ↦
              elim (Option-cases (
                outside.urb_broadcast app.fifo.urb (message_buffer print_ulong (app.n_sent + 1)))) [
                  | inl fails ↦ absurd (ground arith)
                  | inr (urb, sends) ↦
                      subst
                        (λ a. Wrote a (sent (message_text print_ulong (app.n_sent + 1)) ∷ events))
                        {x = record app {
                          logger = logger;
                          fifo = record app.fifo { urb = urb };
                          n_sent = app.n_sent + 1;
                        }}
                        (ground arith)
                        (record {
                          logged = rw w.logged logs;
                          sends =
                              ap (λ l. message_text print_ulong (app.n_sent + 1) ∷ l) w.sends
                              ∙ ap (sent_messages print_ulong) {x = suc app.n_sent}
                                  {y = app.n_sent + 1} (omega arith);
                          delivers = w.delivers;
                          in_order = record {
                            small = λ i. omega (
                              arith,
                              keeps app.fifo.urb (message_buffer print_ulong (app.n_sent + 1)) urb
                                  sends i,
                              w.in_order.small i,
                            );
                            position = w.in_order.position;
                            ordered = w.in_order.ordered;
                          };
                        })
                ]
        ]

  -- The messages and deliveries that the logger holds, whatever they are.
  abbrev pub Writes : FifoApp → Type 0
  Writes app = (events : List Event) × Wrote app events

  after_fifo-Writes :
      (app : FifoApp) (events : List Event) (r : Received Fifo UrbDelivery) (d : UrbDelivery)
      (rest : List Datagram) {b : FifoApp}
      → ((t : Fifo) (d : UrbDelivery) (rest : List Datagram)
          → r ≡ returned t d rest
          → InOrder t × ((new : List FifoEntry) × (t.log ≡ new ++ app.fifo.log)))
      → Wrote app events
      → after_fifo print_ulong app r ≡ returned b d rest
      → Writes b
  after_fifo-Writes app events (returned t d' rest') d rest f w e =
      let (k, (new, grows)) = f t d' rest' refl in
      elim (Option-cases
        (log_entries print_ulong (new_entries print_ulong app.fifo t) app.logger)) [
          | inl fails ↦ absurd (ground arith)
          | inr (logger, logs) ↦
              let these : new_entries print_ulong app.fifo t ≡ new =
                rw grows (take_new new app.fifo.log) in
              let (events', l, r, same) =
                log_entries_lem new app.fifo.log events w.logged w.delivers
                  (subst (λ l. log_entries print_ulong l app.logger ≡ some logger) these logs) in
              subst Writes {x = record app { fifo = t; logger = logger }} (ground arith) (
                events',
                record { logged = l; sends = same ∙ w.sends; delivers = rw grows r; in_order = k },
              )
        ]
  after_fifo-Writes app events (exited t rest') d rest f w e = absurd (cc)
  after_fifo-Writes app events (waiting t) d rest f w e = absurd (cc)
  after_fifo-Writes app events fault d rest f w e = absurd (cc)
  after_fifo-Writes app events unfinished d rest f w e = absurd (cc)

  receive_next-Writes :
      (fresh_acks : ℕ → Bool) (fresh_pams : ℕ → Pam) (app : FifoApp)
      (datagrams rest : List Datagram) (d : UrbDelivery) {b : FifoApp}
      → receive_next print_ulong fresh_acks fresh_pams app datagrams ≡ returned b d rest
      → Writes app
      → Writes b
  unfolding receive_next
  receive_next-Writes fresh_acks fresh_pams app datagrams rest d e (events, w) =
      after_fifo-Writes app events (fifo_deliver fresh_acks fresh_pams app.fifo datagrams) d rest
        (λ t d' rest' h. (
          (subst (Ends InOrder (λ t _. InOrder t × IsPassed t 0) (length datagrams)) h (
              fifo_deliver-Ends fresh_acks fresh_pams app.fifo datagrams 0 w.in_order
                (omega arith))).0.0,
          fifo_deliver-Extends fresh_acks fresh_pams app.fifo datagrams rest' d' h,
        ))
        w e

  -- An iteration of one of the two loops, that ends within the arrays.
  pub data Turns (outside : Outside) (app : FifoApp) : FifoApp → Type 0 where
    start : Turns outside app app
    send :
        {b c : FifoApp}
        → Turns outside app b
        → send_next print_ulong outside b ≡ some c
        → Turns outside app c
    receive :
        {b c : FifoApp} (fresh_acks : ℕ → Bool) (fresh_pams : ℕ → Pam)
        (datagrams rest : List Datagram) (d : UrbDelivery)
        → Turns outside app b
        → receive_next print_ulong fresh_acks fresh_pams b datagrams ≡ returned c d rest
        → Turns outside app c

  pub Turns-Writes :
      (outside : Outside) {app b : FifoApp}
      → KeepsRows outside
      → Turns outside app b
      → Writes app
      → Writes b
  Turns-Writes outside keeps start w = w
  Turns-Writes outside keeps (send {b} turns e) w =
      let (events, w') = Turns-Writes outside keeps turns w in
      (
        sent (message_text print_ulong (b.n_sent + 1)) ∷ events,
        send_next-Wrote outside b events keeps e w',
      )
  Turns-Writes outside keeps (receive {b} fresh_acks fresh_pams datagrams rest d turns e) w =
      receive_next-Writes fresh_acks fresh_pams b datagrams rest d e
        (Turns-Writes outside keeps turns w)

-- As the process starts.
pub record IsFresh (app : FifoApp) : Type 0 where
  pub no_log : app.fifo.log ≡ []
  pub no_rows : (i : ℕ) → (app.fifo.urb.rows i).bytes ≡ 0
  pub no_positions : (i : ℕ) → app.fifo.delivered i ≡ 0
  pub none_sent : app.n_sent ≡ 0
