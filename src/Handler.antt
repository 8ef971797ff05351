-- ===== src/Handler.antt =====
-- template_cpp/src/src/network_handler_pl.c: the program of an earlier submission, in which one process receives
-- what all others send it.
pub mod Lookup
pub mod Sender
pub mod Receiver
pub mod Whole
mod Tests
use cs451_2021_project.Base.{
  ℕ, zero, suc, ◌+◌, Bool, true, false, ◌&&◌, List, [], ◌∷◌, Option, none, some, replicate, ◌==◌,
  if◌then◌else◌,
}
use cs451_2021_project.Address.{SockAddr, ProcessInfo, af_inet, u64}
use cs451_2021_project.LinkedList.{message_size}
use cs451_2021_project.Logger.{Logger, log_send_events, log_deliver_events}
use cs451_2021_project.Config.{PlConfigInfo}
use cs451_2021_project.App.{message_buffer, message_text}

-- 0 means that no process has the address.
unfoldable pub get_id_by_sockaddr : SockAddr → List ProcessInfo → ℕ
get_id_by_sockaddr sockaddr [] = 0
get_id_by_sockaddr sockaddr (info ∷ infos) =
    if sockaddr.s_addr == info.ip && sockaddr.sin_port == info.port
    then info.id
    else get_id_by_sockaddr sockaddr infos

-- `*sockaddr` is left as it was where no process has the id.
unfoldable pub get_sockaddr_by_id : SockAddr → ℕ → List ProcessInfo → SockAddr
get_sockaddr_by_id sockaddr id [] = sockaddr
get_sockaddr_by_id sockaddr id (info ∷ infos) =
    if info.id == id
    then record { sin_family = af_inet; sin_port = info.port; s_addr = info.ip }
    else get_sockaddr_by_id sockaddr id infos

-- The perfect links that this program calls, which are not those of perfect_links.c: `pl_send` takes no size, and
-- `pl_init` no socket. `none`: `pl_deliver` waits; else it fills the address and the buffer.
pub record PerfectLink (S : Type 0) : Type 0 where
  pub pl_init : S → S
  pub pl_send : S → SockAddr → List ℕ → S
  pub pl_deliver : S → List ℕ → Option (S × SockAddr × List ℕ)

-- The perfect links, the logger and the buffer of `run`.
pub record Handler (S : Type 0) : Type 0 where
  pub links : S
  pub logger : Logger
  pub buffer : List ℕ

-- How far the program has come: the receiver goes on, or waits in `pl_deliver`; the sender has finished; the
-- program has exited; it accesses memory out of bounds.
pub data Progress (S : Type 0) : Type 0 where
  goes_on : Handler S → Progress S
  waits : Handler S → Progress S
  finished : Handler S → Progress S
  exits : Progress S
  fault : Progress S

-- The string at the start of the buffer; `none` if it does not end there.
unfoldable pub string_in : List ℕ → Option (List ℕ)
string_in [] = none
string_in (c ∷ buffer) =
    let rest = string_in buffer in
    if c == 0 then some [] else elim rest [ none ↦ none | some text ↦ some (c ∷ text) ]

unfoldable pub is_receiver : ℕ → ℕ → Bool
is_receiver receiver_id host_id = receiver_id == host_id

module _ {S : Type 0} (link : PerfectLink S) (print_ulong : ℕ → List ℕ) where
  abbrev log_text : Logger → ℕ → Option (List ℕ) → Option Logger
  log_text logger sender_id none = none
  log_text logger sender_id (some text) = log_deliver_events print_ulong logger text sender_id

  abbrev put_log : Handler S → Option Logger → Progress S
  put_log h none = fault
  put_log h (some logger) = goes_on (record h { logger = logger })

  abbrev on_delivery : List ProcessInfo → Handler S → Option (S × SockAddr × List ℕ) → Progress S
  on_delivery infos h none = waits h
  on_delivery infos h (some (links, sender_addr, buffer)) =
      put_log (record h { links = links; buffer = buffer })
        (log_text h.logger (get_id_by_sockaddr sender_addr infos) (string_in buffer))

  -- The body of the `while` of `run_receiver`.
  unfoldable pub receive_next : List ProcessInfo → Handler S → Progress S
  receive_next infos h = on_delivery infos h (link.pl_deliver h.links h.buffer)

  abbrev pub then_receive : (Handler S → Progress S) → Progress S → Progress S
  then_receive more (goes_on h) = more h
  then_receive more (waits h) = waits h
  then_receive more (finished h) = finished h
  then_receive more exits = exits
  then_receive more fault = fault

  -- The first iterations of `run_receiver`, which never returns.
  unfoldable pub run_receiver : ℕ → List ProcessInfo → Handler S → Progress S
  run_receiver zero infos h = goes_on h
  run_receiver (suc turns) infos h = then_receive (run_receiver turns infos) (receive_next infos h)

  abbrev put_sent : SockAddr → Handler S → Option Logger → Option (Handler S)
  put_sent receiver_addr h none = none
  put_sent receiver_addr h (some logger) =
      some (record h { logger = logger; links = link.pl_send h.links receiver_addr h.buffer })

  -- The body of the `for` of `run_sender`.
  unfoldable pub send_next : SockAddr → ℕ → Handler S → Option (Handler S)
  send_next receiver_addr seq_n h =
      put_sent receiver_addr (record h { buffer = message_buffer print_ulong seq_n })
        (log_send_events h.logger (message_text print_ulong seq_n))

  abbrev pub then_send : (Handler S → Option (Handler S)) → Option (Handler S) → Option (Handler S)
  then_send more none = none
  then_send more (some h) = more h

  -- The `for` from the number `seq_n` on, with `left` messages to go.
  unfoldable pub send_from : ℕ → SockAddr → ℕ → Handler S → Option (Handler S)
  send_from zero receiver_addr seq_n h = some h
  send_from (suc left) receiver_addr seq_n h =
      then_send (send_from left receiver_addr (u64 (seq_n + 1))) (send_next receiver_addr seq_n h)

  -- `stack` is what `receiver_addr` holds before it is filled in.
  unfoldable pub run_sender :
      SockAddr → PlConfigInfo → List ProcessInfo → Handler S → Option (Handler S)
  run_sender stack config infos h =
      send_from config.n_messages (get_sockaddr_by_id stack config.receiver_id infos) 1 h

  abbrev pub finish : Option (Handler S) → Progress S
  finish none = fault
  finish (some h) = finished h

  unfoldable pub run_receiver_sender :
      ℕ → SockAddr → PlConfigInfo → ℕ → List ProcessInfo → Handler S → Progress S
  run_receiver_sender turns stack config process_id infos h =
      if is_receiver config.receiver_id process_id
      then run_receiver turns infos h
      else finish (run_sender stack config infos h)

  -- `has_socket` is false if `socket` fails, and `binds` says for which addresses `bind` succeeds. `stack` is what
  -- `process_addr` holds before it is filled in, and `receiver_stack` is that of `run_sender`.
  unfoldable pub run :
      Bool
      → (SockAddr → Bool)
      → ℕ
      → SockAddr
      → SockAddr
      → PlConfigInfo
      → ℕ
      → List ProcessInfo
      → S
      → Logger
      → Progress S
  run has_socket binds turns stack receiver_stack config process_id infos links logger =
      if has_socket
      then (if binds (get_sockaddr_by_id stack process_id infos)
          then run_receiver_sender turns receiver_stack config process_id infos (record {
            links = link.pl_init links;
            logger = logger;
            buffer = replicate message_size 0;
          })
          else exits)
      else exits
