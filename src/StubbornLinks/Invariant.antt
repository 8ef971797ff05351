-- ===== src/StubbornLinks/Invariant.antt =====
-- The representation invariant of the stubborn links: a packet that waits has an address, the sending
-- thread reaches its queue, and the address belongs to the queue.
use cs451_2021_project.Base.{
  ℕ, ◌≡◌, ◌≢◌, ◌≤◌, ◌<◌, refl, Bool, true, false, List, [], ◌∷◌, some, arith,
}
use cs451_2021_project.Address.{SockAddr, get_index, max_processes}
use cs451_2021_project.Address.Index.{index_of_port-lt}
use cs451_2021_project.LinkedList.{Packet}
use cs451_2021_project.StubbornLinks.{
  Links, sl_init, remember_address, sl_send, serve_queue, serve, drain, sl_destroy, ack_first,
  handle_packet,
}

pub record IsValid (s : Links) : Type 0 where
  pub small : s.largest_index < max_processes
  pub addressed : (i : ℕ) → s.hashmap i ≢ [] → (s.addresses i).sin_port ≢ 0
  pub in_range : (i : ℕ) → (s.addresses i).sin_port ≢ 0 → i ≤ s.largest_index
  pub own_index : (i : ℕ) → (s.addresses i).sin_port ≢ 0 → get_index (s.addresses i) ≡ i

-- As the process starts: the statics are zero.
abbrev pub zero_address : SockAddr
zero_address = record { sin_family = 0; sin_port = 0; s_addr = 0 }

abbrev pub initial_links : Links
initial_links = record {
  hashmap = λ _. [];
  n_packets = 0;
  addresses = λ _. zero_address;
  largest_index = 0;
  send_forever = true;
  wire = [];
}

pub get_index-lt : (addr : SockAddr) → get_index addr < max_processes
unfolding get_index
get_index-lt addr = index_of_port-lt addr.sin_port

pub sl_init-IsValid : IsValid (sl_init initial_links)
unfolding sl_init
sl_init-IsValid = record {
  small = omega arith;
  addressed = λ i h. ground (arith, h);
  in_range = λ i h. ground (arith, h);
  own_index = λ i h. ground (arith, h);
}

remember_address-IsValid :
    (s : Links) (receiver : SockAddr)
    → receiver.sin_port ≢ 0
    → IsValid s
    → IsValid (remember_address s receiver)
      × (((remember_address s receiver).addresses (get_index receiver)).sin_port ≢ 0)
unfolding remember_address
remember_address-IsValid s receiver p v = (
  record {
    small = ground (arith, v.small, get_index-lt receiver);
    addressed = λ i h. ground (arith, v.addressed i);
    in_range = λ i h. ground (arith, v.in_range i);
    own_index = λ i h. ground (arith, v.own_index i);
  },
  ground arith,
)

-- A packet queued for a receiver with a port keeps the invariant.
pub sl_send-IsValid :
    (s : Links) (receiver : SockAddr) (message : List ℕ) (n num : ℕ) {t : Links}
    → receiver.sin_port ≢ 0
    → IsValid s
    → sl_send s receiver message n num ≡ some t
    → IsValid t
unfolding sl_send
sl_send-IsValid s receiver message n num {t} p v e =
    let w = remember_address-IsValid s receiver p v in
    record {
      small = ground (arith, w.0.small);
      addressed = λ i h. ground (arith, w.0.addressed i);
      in_range = λ i h. ground (arith, w.0.in_range i);
      own_index = λ i h. ground (arith, w.0.own_index i);
    }

serve_queue-IsValid :
    (accepts : Bool) (s : Links) (i : ℕ) (list : List Packet)
    → s.hashmap i ≡ list
    → IsValid s
    → IsValid (serve_queue accepts s i list)
unfolding serve_queue
serve_queue-IsValid accepts s i [] e v = v
serve_queue-IsValid accepts s i (packet ∷ list) e v = record {
  small = ground (arith, v.small);
  addressed = λ j h. ground (arith, v.addressed j);
  in_range = λ j h. ground (arith, v.in_range j);
  own_index = λ j h. ground (arith, v.own_index j);
}

pub serve-IsValid : (accepts : Bool) (s : Links) (i : ℕ) → IsValid s → IsValid (serve accepts s i)
unfolding serve
serve-IsValid accepts s i v = serve_queue-IsValid accepts s i (s.hashmap i) refl v

pub ack_first-nil : (seq_num : ℕ) (list : List Packet) → ack_first seq_num list ≢ [] → list ≢ []
unfolding ack_first
ack_first-nil seq_num list h = ground arith

pub handle_packet-IsValid :
    (s : Links) (sender : SockAddr) (type seq_num : ℕ) {t : Links}
    → IsValid s
    → handle_packet s sender type seq_num ≡ some t
    → IsValid t
unfolding handle_packet
handle_packet-IsValid s sender type seq_num {t} v e = record {
  small = ground (arith, v.small);
  addressed = λ i h. ground (arith, v.addressed i);
  in_range = λ i h. ground (arith, v.in_range i);
  own_index = λ i h. ground (arith, v.own_index i);
}

drain-nil : (list : List Packet) → drain list ≡ []
unfolding drain
drain-nil [] = refl
drain-nil (packet ∷ list) = drain-nil list

-- In a valid state `sl_destroy` leaves no packet behind, although it stops at `largest_index`, and
-- it ends the sending thread's loop.
pub sl_destroy_empties :
    (s : Links)
    → IsValid s
    → ((i : ℕ) → (sl_destroy s).hashmap i ≡ []) × ((sl_destroy s).send_forever ≡ false)
unfolding sl_destroy
sl_destroy_empties s v =
    (λ i. ground (arith, drain-nil (s.hashmap i), v.addressed i, v.in_range i), refl)

-- What the threads of the process do to the links: queue a packet, look after one queue, handle one
-- datagram. Their steps interleave in any order. `sl_send` is for a receiver with a port: port 0 marks a queue
-- without an address.
pub data Step (s : Links) : Links → Type 0 where
  send :
      (receiver : SockAddr) (message : List ℕ) (n num : ℕ) {t : Links}
      → receiver.sin_port ≢ 0
      → sl_send s receiver message n num ≡ some t
      → Step s t
  look_after : (accepts : Bool) (i : ℕ) → Step s (serve accepts s i)
  handle :
      (sender : SockAddr) (type seq_num : ℕ) {t : Links}
      → handle_packet s sender type seq_num ≡ some t
      → Step s t

pub data Reach : Links → Type 0 where
  start : Reach (sl_init initial_links)
  next : {s t : Links} → Reach s → Step s t → Reach t

pub Step-IsValid : {s t : Links} → Step s t → IsValid s → IsValid t
Step-IsValid (send receiver message n num p e) v = sl_send-IsValid _ receiver message n num p v e
Step-IsValid (look_after accepts i) v = serve-IsValid accepts _ i v
Step-IsValid (handle sender type seq_num e) v = handle_packet-IsValid _ sender type seq_num v e

-- If each `sl_send` is for a receiver whose port is not 0, then in every state that the threads reach from the initial
-- one, in any interleaving of their steps, each queue with a packet has an address with a port, the sending loop reaches that queue, and the index of the address is the
-- index of the queue.
pub Reach-IsValid : {s : Links} → Reach s → IsValid s
Reach-IsValid start = sl_init-IsValid
Reach-IsValid (next r st) = Step-IsValid st (Reach-IsValid r)
