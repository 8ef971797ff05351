-- ===== src/App/Record.antt =====
-- What the logger of template_cpp/src/src/lcb_app.c holds while the two threads run.
use cs451_2021_project.Base.{
  take_new, ℕ, zero, suc, ◌+◌, ◌≡◌, refl, ap, ◌∙◌, subst, arith, Bool, List, [], ◌∷◌, ◌++◌, some,
  length, Option-cases, inl, inr,
}
use cs451_2021_project.Receive.{Datagram, Received, returned, exited, waiting, fault, unfinished}
use cs451_2021_project.Urb.{Pam}
use cs451_2021_project.Urb.Deliver.{UrbDelivery}
use cs451_2021_project.Lcb.{Lcb, Entry, lcb_broadcast}
use cs451_2021_project.Lcb.Deliver.{lcb_deliver}
use cs451_2021_project.Lcb.Life.{IsCausal, Stays, Continues, lcb_deliver-Ends, lcb_broadcast-Stays}
use cs451_2021_project.Receive.Rule.{Ends}
use cs451_2021_project.Logger.{Logger, log_send_events}
use cs451_2021_project.Logger.Merge.{Event, sent, delivered, log_events}
use cs451_2021_project.App.{
  App, message_buffer, message_text, send_next, content_text, log_entries, new_entries,
  receive_next, after_lcb,
}

-- The texts of the first `k` messages, the latest first.
abbrev pub sent_messages : (ℕ → List ℕ) → ℕ → List (List ℕ)
sent_messages print_ulong zero = []
sent_messages print_ulong (suc k) = message_text print_ulong (k + 1) ∷ sent_messages print_ulong k

abbrev pub sent_texts : List Event → List (List ℕ)
sent_texts [] = []
sent_texts (sent text ∷ events) = text ∷ sent_texts events
sent_texts (delivered text id ∷ events) = sent_texts events

-- The deliveries among the events are those of the entries, in the same order.
abbrev pub Records : List Event → List Entry → Type 0
Records [] [] = Unit
Records [] (entry ∷ log) = ⊥
Records (sent text ∷ events) log = Records events log
Records (delivered text id ∷ events) [] = ⊥
Records (delivered text id ∷ events) (entry ∷ log) =
    (content_text entry.content ≡ some text) × (id ≡ entry.sender) × Records events log

module _ (print_ulong : ℕ → List ℕ) where
  -- The logger holds these events: the messages that were sent, by their numbers, and what was delivered
  -- in localized causal order.
  pub record Wrote (app : App) (events : List Event) : Type 0 where
    pub logged : log_events print_ulong events ≡ some app.logger
    pub sends : sent_texts events ≡ sent_messages print_ulong app.n_sent
    pub delivers : Records events app.lcb.log
    pub causal : IsCausal app.lcb

  log_entries_lem :
      (new log : List Entry) (events : List Event) {s t : Logger}
      → log_events print_ulong events ≡ some s
      → Records events log
      → log_entries print_ulong new s ≡ some t
      → (events' : List Event) × (log_events print_ulong events' ≡ some t)
        × Records events' (new ++ log)
        × (sent_texts events' ≡ sent_texts events)
  unfolding log_entries log_events
  log_entries_lem [] log events l r e = (events, l ∙ e, r, refl)
  log_entries_lem (entry ∷ new) log events {s} {t} l r e =
      elim (Option-cases (log_entries print_ulong new s)) [
        | inl fails ↦ absurd (ground arith)
        | inr (u, logs) ↦ elim (Option-cases (content_text entry.content)) [
          | inl fails ↦ absurd (ground arith)
          | inr (text, found) ↦
              let (events', l', r', same) = log_entries_lem new log events l r logs in
              (delivered text entry.sender ∷ events', rw l' (ground arith), (found, refl, r'), same)
        ]
      ]

  -- The messages and deliveries that the logger holds, whatever they are.
  abbrev pub Writes : App → Type 0
  Writes app = (events : List Event) × Wrote app events

  pub send_next-Wrote :
      (app : App) (events : List Event) {app' : App}
      → send_next print_ulong app ≡ some app'
      → Wrote app events
      → Wrote app' (sent (message_text print_ulong (app.n_sent + 1)) ∷ events)
  unfolding send_next log_events
  send_next-Wrote app events e w =
      elim (Option-cases (log_send_events app.logger (message_text print_ulong (app.n_sent + 1)))) [
        | inl fails ↦ absurd (ground arith)
        | inr (logger, logs) ↦
            elim (Option-cases (
              lcb_broadcast app.lcb (message_buffer print_ulong (app.n_sent + 1))
                (length (message_text print_ulong (app.n_sent + 1))))) [
                  | inl fails ↦ absurd (ground arith)
                  | inr (lcb, sends) ↦
                      subst
                        (λ a. Wrote a (sent (message_text print_ulong (app.n_sent + 1)) ∷ events))
                        {x = record app { logger = logger; lcb = lcb; n_sent = app.n_sent + 1 }}
                        (ground arith)
                        (record {
                          logged = rw w.logged logs;
                          sends =
                              ap (λ l. message_text print_ulong (app.n_sent + 1) ∷ l) w.sends
                              ∙ ap (sent_messages print_ulong) {x = suc app.n_sent}
                                  {y = app.n_sent + 1} (omega arith);
                          delivers =
                              rw
                                (lcb_broadcast-Stays app.lcb
                                  (message_buffer print_ulong (app.n_sent + 1))
                                  (length (message_text print_ulong (app.n_sent + 1))) sends
                                  w.causal).1
                                w.delivers;
                          causal =
                              (lcb_broadcast-Stays app.lcb
                                (message_buffer print_ulong (app.n_sent + 1))
                                (length (message_text print_ulong (app.n_sent + 1))) sends
                                w.causal).0;
                        })
                ]
      ]

  after_lcb-Ends :
      (app : App) (events : List Event) (n : ℕ) (r : Received Lcb UrbDelivery)
      → Wrote app events
      → Ends (Stays app.lcb) (λ t _. Continues app.lcb t) n r
      → Ends Writes (λ a _. Writes a) n (after_lcb print_ulong app r)
  after_lcb-Ends app events n (returned t d rest) w (c, h) =
      elim (Option-cases (log_entries print_ulong (new_entries app.lcb t) app.logger)) [
        | inl fails ↦ rw fails tt
        | inr (logger, logs) ↦
            let new : new_entries app.lcb t ≡ c.new = rw c.log (take_new c.new app.lcb.log) in
            let (events', l, r, same) =
              log_entries_lem c.new app.lcb.log events w.logged w.delivers
                (subst (λ l. log_entries print_ulong l app.logger ≡ some logger) new logs) in
            rw logs (
              (
                events',
                record {
                  logged = l;
                  sends = same ∙ w.sends;
                  delivers = rw c.log r;
                  causal = c.causal;
                },
              ),
              h,
            )
      ]
  after_lcb-Ends app events n (exited t rest) w c = (
    events,
    record { logged = w.logged; sends = w.sends; delivers = rw c.1 w.delivers; causal = c.0 },
  )
  after_lcb-Ends app events n (waiting t) w c = (
    events,
    record { logged = w.logged; sends = w.sends; delivers = rw c.1 w.delivers; causal = c.0 },
  )
  after_lcb-Ends app events n fault w c = tt
  after_lcb-Ends app events n unfinished w c = c

  pub receive_next-Ends :
      (fresh_acks : ℕ → Bool) (fresh_pams : ℕ → Pam) (stack : List ℕ) (app : App)
      (datagrams : List Datagram)
      → Writes app
      → Ends Writes
          (λ a _. Writes a)
          (length datagrams)
          (receive_next print_ulong fresh_acks fresh_pams stack app datagrams)
  unfolding receive_next
  receive_next-Ends fresh_acks fresh_pams stack app datagrams (events, w) =
      after_lcb-Ends app events (length datagrams)
        (lcb_deliver fresh_acks fresh_pams stack app.lcb datagrams) w
        (lcb_deliver-Ends fresh_acks fresh_pams stack app.lcb datagrams w.causal)

  -- An iteration of one of the two loops, that ends within the arrays.
  pub data Turns (app : App) : App → Type 0 where
    start : Turns app app
    send : {b c : App} → Turns app b → send_next print_ulong b ≡ some c → Turns app c
    receive :
        {b c : App} (fresh_acks : ℕ → Bool) (fresh_pams : ℕ → Pam) (stack : List ℕ)
        (datagrams rest : List Datagram) (d : UrbDelivery)
        → Turns app b
        → receive_next print_ulong fresh_acks fresh_pams stack b datagrams ≡ returned c d rest
        → Turns app c

  -- However the iterations of the two loops follow each other: from a state in which the logger holds what was
  -- sent and delivered, with the deliveries in localized causal order, they lead to such states only.
  pub Turns-Writes : {app b : App} → Turns app b → Writes app → Writes b
  Turns-Writes start w = w
  Turns-Writes (send {b} turns e) w =
      let (events, w') = Turns-Writes turns w in
      (sent (message_text print_ulong (b.n_sent + 1)) ∷ events, send_next-Wrote b events e w')
  Turns-Writes (receive {b} fresh_acks fresh_pams stack datagrams rest d turns e) w =
      (subst (Ends Writes (λ a _. Writes a) (length datagrams)) e
        (receive_next-Ends fresh_acks fresh_pams stack b datagrams (Turns-Writes turns w))).0
