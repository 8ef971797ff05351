-- ===== src/BestEffort.antt =====
-- template_cpp/src/src/best_effort_broadcast.c: one perfect-link message to each process.
pub mod Sending
use cs451_2021_project.Base.{ℕ, Bool, List, [], ◌∷◌, Option, none, some, take}
use cs451_2021_project.Address.{SockAddr}
use cs451_2021_project.Receive.{Datagram, Received, map_state}
use cs451_2021_project.PerfectLinks.{Perfect, PlDelivery, pl_init, pl_send, pl_deliver, pl_destroy}

-- The static variables: the first `n_addresses` entries of `addresses`, and the layer below.
pub record Beb : Type 0 where
  pub perfect : Perfect
  pub addresses : List SockAddr

unfoldable pub beb_init : Beb → List SockAddr → ℕ → Beb
beb_init s addrs n = record { perfect = pl_init s.perfect; addresses = take n addrs }

unfoldable pub beb_destroy : Beb → Beb
beb_destroy s = record s { perfect = pl_destroy s.perfect }

-- The loop of `beb_broadcast`.
unfoldable pub send_to_all : Perfect → List SockAddr → List ℕ → ℕ → Option Perfect
send_to_all s [] message n = some s
send_to_all s (addr ∷ addrs) message n = elim (pl_send s addr message n) [
  | none ↦ none
  | some s' ↦ send_to_all s' addrs message n
]

abbrev put_perfect : Beb → Option Perfect → Option Beb
put_perfect s none = none
put_perfect s (some perfect) = some (record s { perfect = perfect })

-- `none` is an access out of bounds.
unfoldable pub beb_broadcast : Beb → List ℕ → ℕ → Option Beb
unfolding send_to_all
beb_broadcast s message n = put_perfect s (send_to_all s.perfect s.addresses message n)

unfoldable pub beb_deliver : (ℕ → Bool) → Beb → List Datagram → Received Beb PlDelivery
beb_deliver fresh s datagrams =
    map_state (λ perfect. record s { perfect = perfect }) (pl_deliver fresh s.perfect datagrams)
