-- ===== src/App/Whole.antt =====
-- A run of template_cpp/src/src/lcb_app.c from `app_init` on: the two threads and the output.
use cs451_2021_project.Base.{
  ℕ, zero, suc, ◌+◌, ◌-◌, ◌*◌, ◌^◌, ◌≡◌, ◌≤◌, ◌<◌, refl, sym, ap, ◌∙◌, subst, arith, Bool, true,
  false, List, [], ◌∷◌, Option, some, length, take, le→leb, All, if◌then◌else◌,
}
use cs451_2021_project.Address.{SockAddr, ProcessInfo, max_processes, initial_table}
use cs451_2021_project.Address.Room.{initial-HasRoom}
use cs451_2021_project.Receive.{Datagram, returned, again, leave, deliver_loop}
use cs451_2021_project.Receive.Rule.{Ends, TurnEnds, deliver_loop-Ends}
use cs451_2021_project.PerfectLinks.{pl_init}
use cs451_2021_project.BestEffort.{beb_init}
use cs451_2021_project.BestEffort.Sending.{IndicesDiffer}
use cs451_2021_project.Urb.{Pam, get_address, accessible}
use cs451_2021_project.Urb.Deliver.{UrbDelivery}
use cs451_2021_project.Lcb.{CausalConfig}
use cs451_2021_project.Logger.Merge.{Event, log_events, empty_logger-Logged, lines_of, text_of}
use cs451_2021_project.Logger.Output.{IsLine}
use cs451_2021_project.Config.{parsed, TextFunctions, l_causal, ConfigFile}
use cs451_2021_project.App.{
  App, fill_addresses, array, app_init, run_sender, receive_turn, receive_next, run_receiver,
  app_destroy,
}
use cs451_2021_project.App.Record.{Wrote, Writes, Turns, receive_next-Ends}
use cs451_2021_project.App.Output.{OneLine, app_destroy_writes}
use cs451_2021_project.App.Sender.{length-replicate, CanSendAll, broadcasts, run_sender_completes}
use cs451_2021_project.App.Numbered.{sent_events}
use cs451_2021_project.App.Start.{
  IsFresh, initialised, read_config, app_init_lem, initialised-Wrote,
}

take-array :
    (k n i : ℕ) (addresses : ℕ → SockAddr)
    → k ≤ n
    → take k (array n i addresses) ≡ array k i addresses
unfolding array
take-array zero n i addresses h = refl
take-array (suc k) zero i addresses h = absurd (omega arith)
take-array (suc k) (suc n) i addresses h =
    ap (λ l. addresses i ∷ l) (take-array k n (i + 1) addresses (omega arith))

get_address-array :
    (n i j : ℕ) (addresses : ℕ → SockAddr)
    → j < n
    → get_address (array n i addresses) j ≡ some (addresses (i + j))
unfolding array get_address
get_address-array zero i j addresses h = absurd (omega arith)
get_address-array (suc n) i zero addresses h = ap (λ k. some (addresses k)) (omega arith)
get_address-array (suc n) i (suc j) addresses h =
    get_address-array n (i + 1) j addresses (omega arith)
    ∙ ap (λ k. some (addresses k)) (omega arith)

length-array : (n i : ℕ) (addresses : ℕ → SockAddr) → length (array n i addresses) ≡ n
unfolding array
length-array zero i addresses = refl
length-array (suc n) i addresses = omega (arith, length-array n (i + 1) addresses)

module _ (print_ulong : ℕ → List ℕ) where
  receive_turn-Ends :
      (app : App) (d : UrbDelivery)
      → Writes print_ulong app
      → TurnEnds (Writes print_ulong) (λ a _. Writes print_ulong a) (receive_turn print_ulong app d)
  receive_turn-Ends app d w = choose app.receive_forever
    where
      choose :
          (more : Bool)
          → TurnEnds {S = App} {B = Unit {0}}
              (Writes print_ulong)
              (λ a _. Writes print_ulong a)
              (if more then again app else leave app tt)
      choose true = w
      choose false = w

  -- Where the logger holds what was sent and delivered, with the deliveries in localized causal order, and
  -- `receive_forever` is set, `run_receiver` on any datagrams comes to an end within the fuel of the model, with
  -- such a state again unless it accesses memory out of bounds.
  pub run_receiver-Ends :
      (fresh_acks : ℕ → Bool) (fresh_pams : ℕ → Pam) (stack : ℕ → List ℕ) (app : App)
      (datagrams : List Datagram)
      → app.receive_forever ≡ true
      → Writes print_ulong app
      → Ends
          (Writes print_ulong)
          (λ a _. Writes print_ulong a)
          (length datagrams)
          (run_receiver print_ulong fresh_acks fresh_pams stack app datagrams)
  unfolding run_receiver
  run_receiver-Ends fresh_acks fresh_pams stack app datagrams f w = choose app.receive_forever f
    where
      choose :
          (more : Bool)
          → more ≡ true
          → Ends
              (Writes print_ulong)
              (λ a _. Writes print_ulong a)
              (length datagrams)
              (if more
                then deliver_loop
                    (λ a rest.
                      receive_next print_ulong fresh_acks fresh_pams (stack (length rest)) a rest)
                    (receive_turn print_ulong)
                    (suc (length datagrams))
                    app
                    datagrams
                else returned app tt datagrams)
      choose false e = absurd (cc)
      choose true e =
          deliver_loop-Ends (Writes print_ulong) (λ a _. Writes print_ulong a)
            (λ a _. Writes print_ulong a)
            (λ a rest. receive_next print_ulong fresh_acks fresh_pams (stack (length rest)) a rest)
            (receive_turn print_ulong)
            (λ a rest.
              receive_next-Ends print_ulong fresh_acks fresh_pams (stack (length rest)) a rest)
            receive_turn-Ends (suc (length datagrams)) app datagrams (omega arith) w

module _ (text : TextFunctions) (app : App) (filename : List ℕ) (file : Option ConfigFile)
    (process_id : ℕ) (infos : List ProcessInfo) (config : CausalConfig)
    (configured : read_config text app filename file process_id infos ≡ parsed (l_causal config))
    (fresh : IsFresh app) where
  abbrev pub first : App
  first = initialised app filename process_id infos config

  -- The addresses that `app_init` fills in.
  abbrev pub peers : List SockAddr
  peers = array (length infos) 0 (fill_addresses (length infos) 0 infos app.addresses)

  pub first-CanSendAll :
      (print_ulong : ℕ → List ℕ)
      → app.lcb.urb.count ≡ 0
      → app.lcb.urb.beb.perfect.process_ids ≡ initial_table
      → IndicesDiffer peers
      → 1 ≤ process_id
      → process_id ≤ length infos
      → length infos ≤ 55
      → config.n_messages ≤ 8191
      → CanSendAll print_ulong config.n_messages (record first { n_sent = 0 })
  unfolding accessible beb_init pl_init log_events sent_events
  first-CanSendAll print_ulong c ids differ lo hi room messages =
      let addresses = fill_addresses (length infos) 0 infos app.addresses in
      let same = take-array (length infos) max_processes 0 addresses (omega arith) in
      let bytes : (first.lcb.urb.rows process_id).bytes ≡ 3276800 =
        rw (le→leb process_id (length infos + 1) (omega arith)) refl in
      record {
        can_send = record {
          below = record {
            own = addresses (process_id - 1);
            is_own =
                get_address-array max_processes 0 (process_id - 1) addresses (omega arith)
                ∙ ap (λ k. some (addresses k)) {x = 0 + (process_id - 1)} {y = process_id - 1}
                    (omega arith);
            positive = λ e. absurd (omega arith);
            below = omega arith;
            place =
                le→leb ((app.lcb.urb.count + 1) * 400) (first.lcb.urb.rows process_id).bytes
                  (omega (arith, c, bytes));
            differ = rw same differ;
            room =
                rw (same, ids)
                  (initial-HasRoom peers (omega (arith, length-array (length infos) 0 addresses)));
          };
          clock_fits = omega arith;
          in_clock = omega arith;
          buffer_size = length-replicate ((length infos + 1) * 4 + 1 + 256) 0 ∙ omega arith;
        };
        clock_room = omega arith;
        row_room = omega (arith, c, bytes, messages);
        small = omega (arith, bytes);
        logged = rw fresh.num_order (empty_logger-Logged print_ulong);
        order_room = omega arith;
      }

  -- A configuration that can be read with at most 8191 messages, at most 55 processes with queues of their own,
  -- one of which is this one, and numbers printed in at most 20 bytes: with the static variables as they start,
  -- `app_init` goes through. Then `run_sender` returns, having stayed within the arrays, and has counted all messages;
  -- the logger is as the calls of `log_send_events` leave it, one for each message from 1 to `n_messages`, in the order of
  -- their numbers, and the layers below are as the calls of `lcb_broadcast` with these messages leave them.
  pub app_init-run_sender :
      (print_ulong : ℕ → List ℕ)
      → ((n : ℕ) → length (print_ulong n) ≤ 20)
      → app.lcb.urb.count ≡ 0
      → app.lcb.urb.beb.perfect.process_ids ≡ initial_table
      → IndicesDiffer peers
      → 1 ≤ process_id
      → process_id ≤ length infos
      → length infos ≤ 55
      → config.n_messages ≤ 8191
      → (a : App) × (app_init text app filename file true process_id infos ≡ parsed a)
        × ((b : App) × (run_sender print_ulong a ≡ some b)
            × (b.n_sent ≡ config.n_messages)
            × (log_events print_ulong (sent_events print_ulong config.n_messages) ≡ some b.logger)
            × (broadcasts print_ulong config.n_messages a.lcb ≡ some b.lcb))
  app_init-run_sender print_ulong digits c ids differ lo hi room messages =
      let (b, sends, n, has) =
        run_sender_completes print_ulong digits first
          (first-CanSendAll print_ulong c ids differ lo hi room messages)
          (rw fresh.num_order refl) in
      (
        first,
        app_init_lem text app filename file process_id infos config configured (omega arith),
        (
          b,
          sends,
          n,
          ap (λ k. log_events print_ulong (sent_events print_ulong k)) (sym n) ∙ has.logs,
          ap (λ k. broadcasts print_ulong k first.lcb) (sym n) ∙ has.calls,
        ),
      )

  -- A configuration that can be read, at most 126 processes, and the static variables as they start; numbers
  -- printed in at most 20 bytes; no newline in these or in the array `content` as a delivery is logged; `strtok_r` cuts a
  -- text of lines into these; and fewer than 2 ^ 32 messages sent and delivered. Then after `app_init` and
  -- iterations of the two loops in any order, `app_destroy` writes the lines of the messages that were sent, by
  -- their numbers from 1 on, and of those delivered, in localized causal order, as they happened.
  pub app_writes :
      (print_ulong : ℕ → List ℕ) (tokens : List ℕ → List (List ℕ)) {a : App} (b : App)
      → ((n : ℕ) → (length (print_ulong n) ≤ 20) × OneLine (print_ulong n))
      → ((lines : List (List ℕ)) → All IsLine lines → tokens (text_of lines) ≡ lines)
      → length infos ≤ 126
      → app_init text app filename file true process_id infos ≡ parsed a
      → Turns print_ulong a b
      → All (λ entry. OneLine entry.content) b.lcb.log
      → b.n_sent + length b.lcb.log < 2 ^ 32
      → (events : List Event) × Wrote print_ulong b events
        × ((app_destroy tokens b).1 ≡ some (text_of (lines_of print_ulong events)))
  app_writes print_ulong tokens {a} b digits cut room e turns clean count =
      let same : first ≡ a = parsed_injective (
        sym (app_init_lem text app filename file process_id infos config configured (omega arith))
        ∙ e) in
      app_destroy_writes print_ulong digits tokens a b cut
        (subst (Writes print_ulong) same
          ([], initialised-Wrote print_ulong app filename process_id infos config fresh))
        turns clean count
    where
      parsed_injective : {x y : App} → parsed x ≡ parsed y → x ≡ y
      parsed_injective e = cc
