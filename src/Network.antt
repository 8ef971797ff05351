-- ===== src/Network.antt =====
-- Processes that run template_cpp/src/src/stubborn_links.c, over a network that loses, repeats and reorders
-- datagrams: what their threads do in turn, and what they have sent and received.
pub mod Local
pub mod Tables
pub mod Invariant
pub mod Steps
pub mod Queues
pub mod Reliable
pub mod Arrivals
pub mod Promises
pub mod Addressed
pub mod Thread
pub mod Progress
mod Tests
use cs451_2021_project.Base.{
  ℕ, ◌≡◌, ◌≢◌, ◌<◌, ◌^◌, Bool, List, [], ◌∷◌, some, take, All, Elem, update, ◌==◌, if◌then◌else◌,
}
use cs451_2021_project.Address.{SockAddr, get_index}
use cs451_2021_project.Receive.{Datagram, Delivery, returned, waiting}
use cs451_2021_project.StubbornLinks.{
  Links, message_type, sl_init, sl_send, serve, header, fill_buffer, received_size, sl_deliver,
}
use cs451_2021_project.StubbornLinks.Invariant.{initial_links}

-- What is given to `sl_send` for a process.
pub record Message : Type 0 where
  pub num : ℕ
  pub bytes : List ℕ

-- Its receiver takes it for a message with its number.
abbrev pub IsMessage : Message → Type 0
IsMessage m =
    (header (fill_buffer m.bytes) ≡ some (message_type, m.num))
    × (m.num < 2 ^ 32)
    × (received_size m.bytes ≢ 0)

-- What `sl_deliver` returns for it, coming from the address.
abbrev pub delivery_from : SockAddr → Message → Delivery
delivery_from addr m = record {
  sender = addr;
  message = fill_buffer m.bytes;
  n = received_size m.bytes;
}

-- The links of each process, what it has sent to another, and what it got from another. The latest is first.
pub record Net : Type 0 where
  pub links : ℕ → Links
  pub sent : ℕ → ℕ → List Message
  pub got : ℕ → ℕ → List Delivery

abbrev pub put {ℓ} : {A : Type ℓ} → (ℕ → ℕ → List A) → ℕ → ℕ → A → ℕ → ℕ → List A
put table a b x = update table a (update (table a) b (x ∷ table a b))

abbrev pub initial_net : Net
initial_net = record { links = λ _. sl_init initial_links; sent = λ _ _. []; got = λ _ _. [] }

-- The first `count` processes are at these addresses.
module _ (count : ℕ) (address : ℕ → SockAddr) where
  -- A call of `sl_send` by process `a`, with a number that it has not used for `b`; a look of its sending thread
  -- at a queue; and a datagram of `a` that reaches `b`, where `sl_deliver` returns a message or waits on. The
  -- datagram stays on the wire, from which it may arrive again, or never. There may be more looks here than the thread
  -- makes, which keeps to its rounds and ends once `send_forever` is false: Thread has those that it makes.
  pub data Turn (s : Net) : Net → Type 0 where
    send :
        (a b : ℕ) (buffer : List ℕ) (n num : ℕ) {t : Links}
        → a < count
        → b < count
        → IsMessage (record { num = num; bytes = take n buffer })
        → All (λ m. m.num ≢ num) (s.sent a b)
        → sl_send (s.links a) (address b) buffer n num ≡ some t
        → Turn s (record s {
          links = update s.links a t;
          sent = put s.sent a b (record { num = num; bytes = take n buffer });
        })
    look :
        (a i : ℕ) (accepts : Bool)
        → a < count
        → Turn s (record s { links = update s.links a (serve accepts (s.links a) i) })
    deliver :
        (a b : ℕ) (bytes : List ℕ) {t : Links} (d : Delivery)
        → a < count
        → b < count
        → Elem (record { peer = address b; bytes = bytes }) (s.links a).wire
        → sl_deliver (s.links b) (record { peer = address a; bytes = bytes } ∷ []) ≡ returned t d []
        → Turn s (record s { links = update s.links b t; got = put s.got b a d })
    absorb :
        (a b : ℕ) (bytes : List ℕ) {t : Links}
        → a < count
        → b < count
        → Elem (record { peer = address b; bytes = bytes }) (s.links a).wire
        → sl_deliver (s.links b) (record { peer = address a; bytes = bytes } ∷ []) ≡ waiting t
        → Turn s (record s { links = update s.links b t })

  -- The states that the processes reach.
  pub data Runs : Net → Type 0 where
    start : Runs initial_net
    turn : {s t : Net} → Runs s → Turn s t → Runs t

  -- The processes have ports, and a queue of their own for each.
  pub record AreHosts : Type 0 where
    pub ports : (a : ℕ) → a < count → (address a).sin_port ≢ 0
    pub differ :
        (a b : ℕ) → a < count → b < count → get_index (address a) ≡ get_index (address b) → a ≡ b
