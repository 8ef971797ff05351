-- ===== src/Network/Promises.antt =====
-- What processes that run template_cpp/src/src/stubborn_links.c promise each other over any network.
use cs451_2021_project.Base.{ℕ, ◌≡◌, ◌<◌, ◌⊎◌, inl, inr, [], subst, Elem}
use cs451_2021_project.Address.{SockAddr, get_index}
use cs451_2021_project.Receive.{Delivery}
use cs451_2021_project.LinkedList.{Packet}
use cs451_2021_project.Network.{
  Message, delivery_from, Net, Turn, send, look, deliver, absorb, Runs, start, turn, AreHosts,
}
use cs451_2021_project.Network.Reliable.{IsSound, initial_net-IsSound, send-IsSound, look-IsSound}
use cs451_2021_project.Network.Arrivals.{deliver-IsSound, absorb-IsSound}

Turn-IsSound :
    (count : ℕ) (address : ℕ → SockAddr) (hosts : AreHosts count address) {s t : Net}
    → Turn count address s t
    → IsSound count address hosts s
    → IsSound count address hosts t
Turn-IsSound count address hosts (send a b buffer n num ha hb ok fresh e) =
    send-IsSound count address hosts a b buffer n num hb ok fresh e
Turn-IsSound count address hosts (look a i accepts ha) =
    look-IsSound count address hosts a i accepts
Turn-IsSound count address hosts (deliver a b bytes d ha hb w e) =
    deliver-IsSound count address hosts a b bytes d ha hb w e
Turn-IsSound count address hosts (absorb a b bytes ha hb w e) =
    absorb-IsSound count address hosts a b bytes ha hb w e

pub Runs-IsSound :
    (count : ℕ) (address : ℕ → SockAddr) (hosts : AreHosts count address) {s : Net}
    → Runs count address s
    → IsSound count address hosts s
Runs-IsSound count address hosts start = initial_net-IsSound count address hosts
Runs-IsSound count address hosts (turn r st) =
    Turn-IsSound count address hosts st (Runs-IsSound count address hosts r)

-- Processes that have ports and queues of their own run the stubborn links, each message with a number that its sender
-- has not used for its receiver, in any order of their calls and over a network that loses, repeats and reorders
-- datagrams. Whatever `sl_deliver` of a process `b` has returned with the address of a process `a` is a message
-- that `a` gave to `sl_send` for `b`: the buffer has its bytes, and `n` is its size.
pub no_creation :
    (count : ℕ) (address : ℕ → SockAddr)
    → AreHosts count address
    → {s : Net} → Runs count address s
    → (a b : ℕ) (d : Delivery) → Elem d (s.got b a)
    → (m : Message) × Elem m (s.sent a b) × (d ≡ delivery_from (address a) m)
no_creation count address hosts r a b d e = (Runs-IsSound count address hosts r).created a b d e

-- Under the conditions of `no_creation` no message is lost, although the sending thread deletes packets: each message that `a`
-- gave to `sl_send` for `b` still waits as a packet in the queue of `a` for `b`, or `sl_deliver` of `b` has returned it.
-- So if that queue is empty, `b` has got every message that `a` sent it.
pub no_loss :
    (count : ℕ) (address : ℕ → SockAddr)
    → AreHosts count address
    → {s : Net} → Runs count address s
    → (a b : ℕ) → a < count
    → b < count
    → (m : Message) → Elem m (s.sent a b)
    → (((p : Packet) × Elem p ((s.links a).hashmap (get_index (address b)))
          × (p.num ≡ m.num)
          × (p.message ≡ m.bytes))
        ⊎ Elem (delivery_from (address a) m) (s.got b a))
      × ((s.links a).hashmap (get_index (address b)) ≡ []
          → Elem (delivery_from (address a) m) (s.got b a))
no_loss count address hosts {s} r a b ha hb m e =
    let held = (Runs-IsSound count address hosts r).held a b ha hb m e in
    (
      held,
      λ empty. elim held [
        | inl (p, there, num, bytes) ↦ absurd (subst (Elem p) empty there)
        | inr got ↦ got
      ],
    )
