-- ===== src/Lib.antt =====
-- A stack of broadcast protocols over UDP, as template_cpp/src builds it: every process runs a sending
-- thread, which broadcasts numbered messages, a receiving thread, which delivers them, and a thread
-- that sends again what is not acknowledged. Each layer calls the one below, and its deliver function
-- loops over that of the layer below until it has something to pass up:
--
--   lcb_broadcast -> urb_broadcast -> beb_broadcast -> pl_send -> sl_send -> the queues of packets
--   lcb_deliver <- urb_deliver <- beb_deliver <- pl_deliver <- sl_deliver <- recvfrom
--
-- The files, and the code that they model (under template_cpp/src, .c in src and .h in include):
--   Serializer      serializer.c: `serialize` and `deserialize` on lists of items and of sizes. `store` and
--                   `load` are the two calls of memcpy; integers are little-endian (`to_bytes`).
--   Address         common.h, `get_index` of stubborn_links.c, `find_process_id` of perfect_links.c with its
--                   static variables (`ProcessTable`), and the two lookups of lcb_app.c.
--   Receive         the datagrams, the ways in which a deliver function ends (`Received`), and the loop
--                   that the deliver functions share; Rule is its proof rule.
--   LinkedList      linked_list.c: `insertLast`, `deleteFirst`, `isEmpty` on lists of packets, which the
--                   layers above use; Heap has them, and `length`, on pointers, and Refine compares the two.
--   StubbornLinks   stubborn_links.c: `Links` holds the static variables. `sl_send_forever` is `send_round`,
--                   one look at a queue is `serve`; `wire` lists what was given to sendto, latest first.
--                   Invariant has the interleavings of the threads, Stubborn the sending, Acks the
--                   acknowledgements, Exchange two processes whose datagrams may be lost.
--   PerfectLinks    perfect_links.c: `Perfect` holds the static variables. Recorded is about one call of
--                   the receiving side, Delivered about all of them, Packing and Sending about the sending
--                   side.
--   BestEffort      best_effort_broadcast.c.
--   Urb             uniform_reliable_broadcast.c: `Urb` holds the static variables, `Row` a row of
--                   `pam_table` with its size in bytes. Urb itself has the sending side and the table,
--                   Deliver has `urb_deliver`, Cells the entries, Handled the handling of packets, Majority one
--                   call, Once all calls, Memory and Growth the limits of the rows, Sending the broadcasts.
--   Lcb             localized_causal_broadcast.c and the struct of config_parser.h. Lcb itself has the
--                   sending side and the causality test, Deliver has `lcb_deliver`, Spec the specification,
--                   Refine, Drain and Total the refinement, Order the order of the log, Life the calls one after
--                   the other, Sending and Capacity the limits of the buffers.
--   Logger          logger.c: `log_send_events`, `log_deliver_events`, `write_output`. Room is about the growth of
--                   the buffers, Merge about the calls, Output about what is written. What snprintf prints
--                   for a number and how strtok_r cuts a text are parameters.
--   Fifo            fifo_broadcast_application.c, an earlier application. `Fifo` holds what `run_receiver` works on,
--                   and `fifo_deliver` is an iteration of its loop; Rows and Order are about the order and what
--                   is left behind. Application has the rest, `Outside` what the file calls and the repository does not
--                   have. Log, Record, Sender and Whole are about runs.
--   Config          config_parser.c: the formats of a configuration; the calls of fscanf are the list of their
--                   results (`Scan`). Lines is about the lines of causes.
--   App             lcb_app.c: `App` holds the static variables, `app_init` sets up the layers, `send_next` and
--                   `receive_next` are the iterations of `run_sender` and `run_receiver`, and `app_destroy`
--                   writes the output. Record is about what the logger holds, Output about what is written,
--                   Sender, Start and Whole about a run.
--   Handler         network_handler_pl.c, an earlier program in which one process receives what the others send.
--                   The perfect links that it calls are the parameter `PerfectLink`. Whole is about a run.
--   Network         processes that run stubborn_links.c over any network: `Turn` is what one of them does at a
--                   time, `Net` their links with what was sent and got. Local, Tables, Queues, Invariant,
--                   Steps, Reliable and Arrivals lead to Promises. Its looks may be more than the
--                   sending thread makes; Thread has the thread look by look, which Progress is about.
--   Arguments       the arguments of the program, in parser.hpp; Accepted is the usage.
--   Hosts           the file of hosts, in parser.hpp; Numbered is about the ids.
--   Main            main.cpp up to the start of the threads, and `stop`; Addresses is about the addresses of the
--                   peers and of the process.
--   Base            shared helpers; the files Tests evaluate the definitions at concrete inputs.
--
-- Conventions. Bytes and machine integers are natural numbers with the wrap-around written out (`u32`,
-- `u64`). An array that the code indexes is a function or a list with its size; an access out of bounds,
-- which C leaves undefined, is `none`, `fault` or `crashed`. Malloc, calloc and realloc succeed; what realloc
-- does not initialise is a parameter (`fresh`), and so is whether sendto succeeds (`accepts`). A deliver
-- function takes the datagrams that are going to arrive: when they are used up it waits, and on an empty
-- one its thread exits, as the code does when recvfrom returns 0.
--
-- Fuel. A loop over a deliver function is given one turn more than there are datagrams, since each turn
-- uses one up. The loops of `lcb_deliver` are given the bytes of the rows, since each delivery moves one
-- entry on in a row. `unfinished` and `no_fuel` mark a model out of fuel.
--
-- Concurrency. One call of a sending function, one look at a queue and the handling of one datagram are
-- atomic steps of the links; one call of `urb_broadcast` or `urb_deliver` is a step of the layer above. These
-- layers take no locks, so that finer interleavings exist which are not modelled; the lock of the logger
-- covers the order flags only, and each of its texts is written by one thread.
--
-- The calls of the logger by `lcb_deliver` are the `log` of its state, a list of entries, each with the whole
-- array `content` as it is at the call: a delivery overwrites the front of what the one before left, and what a
-- call of `lcb_deliver` finds in the array at first is a parameter (`stack`). App makes them calls
-- of the logger when `lcb_deliver` returns. The two threads of the application are sequences of iterations of
-- their loops, in any order, each atomic.
--
-- Not modelled: the functions that print; shutdown, the creation and joining of threads, the registration of
-- the signal handler, which have no state in the model; hello.c.
pub mod App
pub mod Arguments
pub mod Hosts
pub mod Main
pub mod Base
pub mod Serializer
pub mod Address
pub mod Receive
pub mod LinkedList
pub mod StubbornLinks
pub mod Handler
pub mod Network
pub mod PerfectLinks
pub mod BestEffort
pub mod Urb
pub mod Lcb
pub mod Fifo
pub mod Logger
pub mod Config
