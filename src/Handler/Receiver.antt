-- ===== src/Handler/Receiver.antt =====
-- `run_receiver` of template_cpp/src/src/network_handler_pl.c.
use cs451_2021_project.Base.{
  ℕ, zero, suc, ◌+◌, ◌^◌, ◌≡◌, ◌<◌, ◌≤◌, inl, inr, refl, sym, ap, ◌∙◌, subst, arith, List, [], ◌∷◌,
  ◌++◌, some, none, length, All, ◌==◌, Bool-cases, map, replicate, ◌-◌, take, length-take,
  append_assoc, append-nil,
}
use cs451_2021_project.Address.{SockAddr, ProcessInfo}
use cs451_2021_project.Address.Lookup.{HasId}
use cs451_2021_project.Logger.{Logger, empty_logger, deliver_line, write_output}
use cs451_2021_project.Logger.Merge.{
  Event, delivered, Logged, log_event-Logged, empty_logger-Logged, text_of, lines_of, IsShort,
}
use cs451_2021_project.Logger.Output.{IsLine, IsClean, write_output-Logged}
use cs451_2021_project.App.{message_buffer, message_text, c_string}
use cs451_2021_project.App.Output.{OneLine, OneLine-append, message_text-FitsLine}
use cs451_2021_project.Handler.{
  PerfectLink, Handler, goes_on, waits, get_sockaddr_by_id, string_in, receive_next, run_receiver,
}
use cs451_2021_project.Handler.Lookup.{AddressesDiffer, get_id_by_sockaddr_inverse}

-- A message: the id of its sender, and its number.
pub record Numbered : Type 0 where
  pub sender_id : ℕ
  pub num : ℕ

module _ {S : Type 0} (link : PerfectLink S) (print_ulong : ℕ → List ℕ) (stack : SockAddr)
    (infos : List ProcessInfo) where
  -- From these links, calls of `pl_deliver` give these messages in turn: the buffer as `run_sender` fills it, with the
  -- address of the sender. It waits behind them.
  pub data Gives : S → List ℕ → List Numbered → Type 0 where
    silent :
        {links : S} {buffer : List ℕ} → link.pl_deliver links buffer ≡ none → Gives links buffer []
    message :
        {links links' : S} {buffer : List ℕ} {m : Numbered} {ms : List Numbered}
        → HasId m.sender_id infos
        → link.pl_deliver links buffer
          ≡ some
              (links', get_sockaddr_by_id stack m.sender_id infos, message_buffer print_ulong m.num)
        → Gives links' (message_buffer print_ulong m.num) ms
        → Gives links buffer (m ∷ ms)

string_in-padded :
    (text : List ℕ) (n : ℕ)
    → string_in (text ++ replicate (suc n) 0) ≡ some (c_string (text ++ replicate (suc n) 0))
unfolding string_in c_string
string_in-padded [] n = ground arith
string_in-padded (c ∷ text) n = elim (Bool-cases (c == 0)) [
  | inl end ↦ rw end refl
  | inr more ↦ rw (more, string_in-padded text n) refl
]

module _ (print_ulong : ℕ → List ℕ) where
  -- "d i k" for message k of process i.
  abbrev pub delivered_line : Numbered → List ℕ
  delivered_line m = deliver_line (print_ulong m.sender_id) (message_text print_ulong m.num)

  abbrev delivery : Numbered → Event
  delivery m = delivered (message_text print_ulong m.num) m.sender_id

  string_in-message_buffer :
      (n : ℕ) → string_in (message_buffer print_ulong n) ≡ some (message_text print_ulong n)
  unfolding message_buffer
  string_in-message_buffer n =
      let printed = take 255 (print_ulong n) in
      subst (λ k. string_in (printed ++ replicate k 0) ≡ some (c_string (printed ++ replicate k 0)))
        {x = suc (255 - length printed)} {y = 256 - length printed}
        (omega (arith, length-take 255 (print_ulong n)))
        (string_in-padded printed (255 - length printed))

  -- Lines of events, with those of messages behind them.
  lines_of-behind :
      (events : List Event) (m : Numbered) (ms : List Numbered)
      → lines_of print_ulong (delivery m ∷ events) ++ map delivered_line ms
        ≡ lines_of print_ulong events ++ map delivered_line (m ∷ ms)
  unfolding lines_of
  lines_of-behind events m ms =
      append_assoc (lines_of print_ulong events) (delivered_line m ∷ []) (map delivered_line ms)

module _ {S : Type 0} (link : PerfectLink S) (print_ulong : ℕ → List ℕ) (stack : SockAddr)
    (infos : List ProcessInfo) (differ : AddressesDiffer infos)
    (digits : (n : ℕ) → (length (print_ulong n) ≤ 20) × OneLine (print_ulong n)) where
  delivery-IsShort : (m : Numbered) → IsShort print_ulong (delivery print_ulong m)
  delivery-IsShort m =
      ((message_text-FitsLine print_ulong m.num (digits m.num).1).0, (digits m.sender_id).0)

  delivery-IsClean : (m : Numbered) → IsClean print_ulong (delivery print_ulong m)
  delivery-IsClean m = (
    λ e. absurd (omega arith),
    (
      λ e. absurd (omega arith),
      OneLine-append (print_ulong m.sender_id) (b' ' ∷ message_text print_ulong m.num)
          (digits m.sender_id).1
          (λ e. absurd (omega arith), (message_text-FitsLine print_ulong m.num (digits m.num).1).1),
    ),
  )

  -- What `run_receiver` does with one message.
  receive_next_lem :
      (h : Handler S) (m : Numbered) (links' : S) (events : List Event)
      → HasId m.sender_id infos
      → link.pl_deliver h.links h.buffer
        ≡ some
            (links', get_sockaddr_by_id stack m.sender_id infos, message_buffer print_ulong m.num)
      → length events + 1 < 2 ^ 32
      → Logged print_ulong h.logger events
      → (logger : Logger) × (receive_next link print_ulong infos h
          ≡ goes_on (record {
            links = links';
            logger = logger;
            buffer = message_buffer print_ulong m.num;
          }))
        × Logged print_ulong logger (delivery print_ulong m ∷ events)
  unfolding receive_next
  receive_next_lem h m links' events known gives b g =
      let (logger, logs, g') =
        log_event-Logged print_ulong h.logger events (delivery print_ulong m) b (delivery-IsShort m)
          g in
      (
        logger,
        rw
            (
              gives,
              string_in-message_buffer print_ulong m.num,
              get_id_by_sockaddr_inverse stack m.sender_id infos differ known,
              logs,
            )
            refl,
        g',
      )

  receiving :
      (turns : ℕ) (h : Handler S) (ms : List Numbered) (events : List Event)
      → Gives link print_ulong stack infos h.links h.buffer ms
      → length ms < turns
      → length events + length ms < 2 ^ 32
      → Logged print_ulong h.logger events
      → All (IsClean print_ulong) events
      → (t : Handler S) × (run_receiver link print_ulong turns infos h ≡ waits t)
        × ((events' : List Event) × Logged print_ulong t.logger events'
            × All (IsClean print_ulong) events'
            × (lines_of print_ulong events'
                ≡ lines_of print_ulong events ++ map (delivered_line print_ulong) ms))
  unfolding run_receiver receive_next
  receiving zero h ms events gives enough b g c = absurd (omega (arith, enough))
  receiving (suc turns) h [] events (silent stops) enough b g c =
      (h, rw stops refl, (events, g, c, sym (append-nil (lines_of print_ulong events))))
  receiving (suc turns) h (m ∷ ms) events (message {links' = links'} known gives more) enough b g
        c =
      let (logger, goes, g') =
        receive_next_lem h m links' events known gives (omega (arith, b)) g in
      let next : Handler S = record {
        links = links';
        logger = logger;
        buffer = message_buffer print_ulong m.num;
      } in
      let (t, ends, (events', g'', c', lines)) =
        receiving turns next ms (delivery print_ulong m ∷ events) more (omega (arith, enough))
          (omega (arith, b)) g' (delivery-IsClean m, c) in
      (t, rw goes ends, (events', g'', c', lines ∙ lines_of-behind print_ulong events m ms))

  -- The loop, from the initial logger, until it waits for more.
  pub run_receiver_lem :
      (tokens : List ℕ → List (List ℕ)) (turns : ℕ) (h : Handler S) (ms : List Numbered)
      → ((lines : List (List ℕ)) → All IsLine lines → tokens (text_of lines) ≡ lines)
      → Gives link print_ulong stack infos h.links h.buffer ms
      → h.logger ≡ empty_logger
      → length ms < 2 ^ 32
      → length ms < turns
      → (t : Handler S) × (run_receiver link print_ulong turns infos h ≡ waits t)
        × (write_output tokens t.logger ≡ some (text_of (map (delivered_line print_ulong) ms)))
  unfolding lines_of
  run_receiver_lem tokens turns h ms cut gives fresh b enough =
      let (t, ends, (events, g, c, lines)) =
        receiving turns h ms [] gives enough (omega (arith, b))
          (subst (λ l. Logged print_ulong l []) (sym fresh) (empty_logger-Logged print_ulong)) tt in
      (
        t,
        ends,
        write_output-Logged print_ulong tokens t.logger events cut c g
            ∙ ap (λ l. some (text_of l)) lines,
      )
