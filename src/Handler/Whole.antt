-- ===== src/Handler/Whole.antt =====
-- `run` of template_cpp/src/src/network_handler_pl.c, from the socket to what the logger then writes.
use cs451_2021_project.Base.{
  ℕ, ◌^◌, ◌≡◌, ◌≢◌, ◌≤◌, ◌<◌, refl, arith, Bool, true, List, some, length, All, map, replicate,
}
use cs451_2021_project.Address.{SockAddr, ProcessInfo}
use cs451_2021_project.LinkedList.{message_size}
use cs451_2021_project.Config.{PlConfigInfo}
use cs451_2021_project.Logger.{empty_logger, write_output}
use cs451_2021_project.Logger.Merge.{text_of}
use cs451_2021_project.Logger.Output.{IsLine}
use cs451_2021_project.App.Output.{OneLine}
use cs451_2021_project.Handler.{
  PerfectLink, Handler, waits, finished, get_sockaddr_by_id, is_receiver, run_receiver_sender, run,
}
use cs451_2021_project.Handler.Lookup.{AddressesDiffer}
use cs451_2021_project.Handler.Sender.{sends, run_sender_lem}
use cs451_2021_project.App.Numbered.{sent_lines}
use cs451_2021_project.Handler.Receiver.{Numbered, Gives, delivered_line, run_receiver_lem}

module _ {S : Type 0} (link : PerfectLink S) (print_ulong : ℕ → List ℕ)
    (tokens : List ℕ → List (List ℕ)) (stack receiver_stack : SockAddr) (config : PlConfigInfo)
    (process_id : ℕ) (infos : List ProcessInfo) (binds : SockAddr → Bool) (turns : ℕ)
    (links : S) where
  -- `strtok_r` cuts a text of lines into these lines.
  abbrev Cuts : Type 0
  Cuts = (lines : List (List ℕ)) → All IsLine lines → tokens (text_of lines) ≡ lines

  -- Where no number is printed with a newline, `strtok_r` cuts a text of lines into these lines, and there are fewer than 2 ^ 32
  -- messages: `run` of a process that is not the configured receiver, and whose own address it can bind, finishes. It has
  -- initialised the perfect links and then called `pl_send` with the messages 1 to `n_messages`, in this order, for the
  -- address of the receiver; and `write_output` then writes a line "b k" for each of them, in this order.
  pub run_sends :
      ((n : ℕ) → OneLine (print_ulong n))
      → Cuts
      → config.n_messages < 2 ^ 32
      → config.receiver_id ≢ process_id
      → binds (get_sockaddr_by_id stack process_id infos) ≡ true
      → (t : Handler S) × (run link print_ulong true binds turns stack receiver_stack config
            process_id infos links empty_logger
          ≡ finished t)
        × (t.links
            ≡ sends link print_ulong
                (get_sockaddr_by_id receiver_stack config.receiver_id infos)
                config.n_messages
                (link.pl_init links))
        × (write_output tokens t.logger ≡ some (text_of (sent_lines print_ulong config.n_messages)))
  unfolding run run_receiver_sender is_receiver
  run_sends quiet cut b other bound =
      let (t, ends, calls, writes) =
        run_sender_lem link print_ulong quiet tokens receiver_stack config infos
          (record {
            links = link.pl_init links;
            logger = empty_logger;
            buffer = replicate message_size 0;
          })
          cut refl b in
      (t, ground (arith, ends), calls, writes)

  -- Where no two processes share both IP address and port, numbers are printed in at most 20 bytes without a newline, `strtok_r`
  -- cuts a text of lines into these lines, and `pl_deliver`, from the initialised links on, gives in turn fewer than 2 ^ 32
  -- messages with the addresses of known processes, the buffer as `run_sender` fills it, and then waits: `run` of the configured
  -- receiver, whose own address it can bind, comes to wait in `pl_deliver` within as many iterations as there are
  -- messages, and one; and `write_output` then writes a line "d i k" for each message k of process i, in this order.
  pub run_receives :
      (ms : List Numbered)
      → AddressesDiffer infos
      → ((n : ℕ) → (length (print_ulong n) ≤ 20) × OneLine (print_ulong n))
      → Cuts
      → Gives link print_ulong receiver_stack infos
          (link.pl_init links)
          (replicate message_size 0)
          ms
      → length ms < 2 ^ 32
      → length ms < turns
      → config.receiver_id ≡ process_id
      → binds (get_sockaddr_by_id stack process_id infos) ≡ true
      → (t : Handler S) × (run link print_ulong true binds turns stack receiver_stack config
            process_id infos links empty_logger
          ≡ waits t)
        × (write_output tokens t.logger ≡ some (text_of (map (delivered_line print_ulong) ms)))
  unfolding run run_receiver_sender is_receiver
  run_receives ms differ digits cut gives b enough same bound =
      let (t, ends, writes) =
        run_receiver_lem link print_ulong receiver_stack infos differ digits tokens turns
          (record {
            links = link.pl_init links;
            logger = empty_logger;
            buffer = replicate message_size 0;
          })
          ms cut gives refl b enough in
      (t, ground (arith, ends), writes)
