-- ===== src/Handler/Sender.antt =====
-- `run_sender` of template_cpp/src/src/network_handler_pl.c.
use cs451_2021_project.Base.{
  ℕ, zero, suc, ◌+◌, ◌^◌, ◌≡◌, ◌<◌, refl, sym, ap, ◌∙◌, subst, arith, List, [], some, All,
}
use cs451_2021_project.Address.{SockAddr, ProcessInfo, u64}
use cs451_2021_project.Config.{PlConfigInfo}
use cs451_2021_project.Logger.{empty_logger, write_output}
use cs451_2021_project.Logger.Merge.{sent, Logged, log_event-Logged, empty_logger-Logged, text_of}
use cs451_2021_project.Logger.Output.{IsLine, write_output-Logged}
use cs451_2021_project.App.{message_buffer, message_text}
use cs451_2021_project.App.Output.{OneLine, message_text-FitsLine}
use cs451_2021_project.App.Numbered.{
  sent_events, sent_lines, lines_of-sent_events, length-sent_events, sent_events-IsClean,
}
use cs451_2021_project.Handler.{
  PerfectLink, Handler, get_sockaddr_by_id, send_next, send_from, run_sender,
}

module _ {S : Type 0} (link : PerfectLink S) (print_ulong : ℕ → List ℕ) where
  -- The perfect links after calls of `pl_send` with the messages 1 to `n`.
  unfoldable pub sends : SockAddr → ℕ → S → S
  sends receiver zero links = links
  sends receiver (suc n) links =
      link.pl_send (sends receiver n links) receiver (message_buffer print_ulong (suc n))

module _ {S : Type 0} (link : PerfectLink S) (print_ulong : ℕ → List ℕ)
    (quiet : (n : ℕ) → OneLine (print_ulong n)) where
  -- The state after the message `n`.
  record Sent (receiver : SockAddr) (links : S) (n : ℕ) (h : Handler S) : Type 0 where
    pub links_are : h.links ≡ sends link print_ulong receiver n links
    pub logged : Logged print_ulong h.logger (sent_events print_ulong n)

  send_next-Sent :
      (receiver : SockAddr) (links : S) (n : ℕ) (h : Handler S)
      → n + 1 < 2 ^ 32
      → Sent receiver links n h
      → (t : Handler S) × (send_next link print_ulong receiver (suc n) h ≡ some t)
        × Sent receiver links (suc n) t
  unfolding send_next sends sent_events
  send_next-Sent receiver links n h b k =
      let (logger, logs, logged) =
        log_event-Logged print_ulong h.logger (sent_events print_ulong n)
          (sent (message_text print_ulong (suc n)))
          (omega (arith, length-sent_events print_ulong n, b))
          (message_text-FitsLine print_ulong (suc n) (quiet (suc n))).0 k.logged in
      (
        record h {
          buffer = message_buffer print_ulong (suc n);
          logger = logger;
          links = link.pl_send h.links receiver (message_buffer print_ulong (suc n));
        },
        rw logs refl,
        record {
          links_are =
              ap (λ l. link.pl_send l receiver (message_buffer print_ulong (suc n))) k.links_are;
          logged = logged;
        },
      )

  send_from-Sent :
      (receiver : SockAddr) (links : S) (left n : ℕ) (h : Handler S)
      → n + left < 2 ^ 32
      → Sent receiver links n h
      → (t : Handler S) × (send_from link print_ulong left receiver (suc n) h ≡ some t)
        × Sent receiver links (n + left) t
  unfolding send_from
  send_from-Sent receiver links zero n h b k =
      (h, refl, subst (λ m. Sent receiver links m h) (omega arith) k)
  send_from-Sent receiver links (suc left) n h b k =
      let (t, sends_one, k') = send_next-Sent receiver links n h (omega (arith, b)) k in
      let (u, sends_all, k'') =
        send_from-Sent receiver links left (suc n) t (omega (arith, b)) k' in
      (
        u,
        rw (sends_one) (
            ap (λ m. send_from link print_ulong left receiver m t) {x = u64 (suc n + 1)}
              {y = suc (suc n)} (omega (arith, b))
            ∙ sends_all),
        subst (λ m. Sent receiver links m u) (omega arith) k'',
      )

  -- The loop, from the initial logger.
  pub run_sender_lem :
      (tokens : List ℕ → List (List ℕ)) (stack : SockAddr) (config : PlConfigInfo)
      (infos : List ProcessInfo) (h : Handler S)
      → ((lines : List (List ℕ)) → All IsLine lines → tokens (text_of lines) ≡ lines)
      → h.logger ≡ empty_logger
      → config.n_messages < 2 ^ 32
      → (t : Handler S) × (run_sender link print_ulong stack config infos h ≡ some t)
        × (t.links
            ≡ sends link print_ulong
                (get_sockaddr_by_id stack config.receiver_id infos)
                config.n_messages
                h.links)
        × (write_output tokens t.logger ≡ some (text_of (sent_lines print_ulong config.n_messages)))
  unfolding run_sender sends sent_events
  run_sender_lem tokens stack config infos h cut fresh b =
      let (t, sends_all, k') =
        send_from-Sent (get_sockaddr_by_id stack config.receiver_id infos) h.links config.n_messages
          0 h (omega (arith, b))
          (record {
            links_are = refl;
            logged =
                subst (λ l. Logged print_ulong l []) (sym fresh) (empty_logger-Logged print_ulong);
          }) in
      let k =
        subst (λ n. Sent (get_sockaddr_by_id stack config.receiver_id infos) h.links n t)
          {x = 0 + config.n_messages} {y = config.n_messages} (omega arith) k' in
      (
        t,
        sends_all,
        k.links_are,
        write_output-Logged print_ulong tokens t.logger (sent_events print_ulong config.n_messages)
              cut (sent_events-IsClean print_ulong quiet config.n_messages) k.logged
            ∙ ap (λ l. some (text_of l)) (lines_of-sent_events print_ulong config.n_messages),
      )
