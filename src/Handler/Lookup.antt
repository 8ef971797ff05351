-- ===== src/Handler/Lookup.antt =====
-- The searches of template_cpp/src/src/network_handler_pl.c by id and by address.
use cs451_2021_project.Base.{ℕ, ◌≡◌, ◌≢◌, ◌⊎◌, List, [], ◌∷◌, arith, All}
use cs451_2021_project.Address.{SockAddr, ProcessInfo}
use cs451_2021_project.Address.Lookup.{HasId}
use cs451_2021_project.Handler.{get_id_by_sockaddr, get_sockaddr_by_id}

-- No two processes share an address and a port.
abbrev pub AddressesDiffer : List ProcessInfo → Type 0
AddressesDiffer [] = Unit
AddressesDiffer (info ∷ infos) =
    All (λ other. (other.ip ≢ info.ip) ⊎ (other.port ≢ info.port)) infos × AddressesDiffer infos

abbrev IsAt : SockAddr → ℕ → ℕ → Type 0
IsAt s ip port = (s.s_addr ≡ ip) × (s.sin_port ≡ port)

-- The address found is that of an entry.
address_found :
    (s : SockAddr) (id ip port : ℕ) (infos : List ProcessInfo)
    → HasId id infos
    → All (λ other. (other.ip ≢ ip) ⊎ (other.port ≢ port)) infos
    → ¬ IsAt (get_sockaddr_by_id s id infos) ip port
unfolding get_sockaddr_by_id
address_found s id ip port [] h a e = absurd h
address_found s id ip port (info ∷ infos) h a e = ground (arith, address_found s id ip port infos)

-- Where no two processes share both IP address and port, `get_id_by_sockaddr` takes the address that
-- `get_sockaddr_by_id` fills in for a known id back to that id.
pub get_id_by_sockaddr_inverse :
    (s : SockAddr) (id : ℕ) (infos : List ProcessInfo)
    → AddressesDiffer infos
    → HasId id infos
    → get_id_by_sockaddr (get_sockaddr_by_id s id infos) infos ≡ id
unfolding get_id_by_sockaddr get_sockaddr_by_id
get_id_by_sockaddr_inverse s id [] d h = absurd h
get_id_by_sockaddr_inverse s id (info ∷ infos) d h =
    ground
      (arith, get_id_by_sockaddr_inverse s id infos, address_found s id info.ip info.port infos)
