-- ===== src/Address/Lookup.antt =====
-- The searches by id and by port of template_cpp/src/src/lcb_app.c.
use cs451_2021_project.Base.{ℕ, ◌≡◌, ◌≢◌, ◌⊎◌, List, [], ◌∷◌, arith, All}
use cs451_2021_project.Address.{SockAddr, ProcessInfo, get_id_by_sockaddr, get_sockaddr_by_id}

-- No two processes share a port.
abbrev pub PortsDiffer : List ProcessInfo → Type 0
PortsDiffer [] = Unit
PortsDiffer (info ∷ infos) = All (λ other. other.port ≢ info.port) infos × PortsDiffer infos

-- Some process of the table has the id.
abbrev pub HasId : ℕ → List ProcessInfo → Type 0
HasId id [] = ⊥
HasId id (info ∷ infos) = (info.id ≡ id) ⊎ HasId id infos

-- The address found is that of an entry.
port_found :
    (s : SockAddr) (id p : ℕ) (infos : List ProcessInfo)
    → HasId id infos
    → All (λ other. other.port ≢ p) infos
    → (get_sockaddr_by_id s id infos).sin_port ≢ p
unfolding get_sockaddr_by_id
port_found s id p [] h a = absurd h
port_found s id p (info ∷ infos) h a = ground (arith, port_found s id p infos)

-- Where the processes have distinct ports, `get_id_by_sockaddr` takes the address that
-- `get_sockaddr_by_id` fills in for a known id back to that id.
pub get_id_by_sockaddr-get_sockaddr_by_id :
    (s : SockAddr) (id : ℕ) (infos : List ProcessInfo)
    → PortsDiffer infos
    → HasId id infos
    → get_id_by_sockaddr (get_sockaddr_by_id s id infos) infos ≡ id
unfolding get_id_by_sockaddr get_sockaddr_by_id
get_id_by_sockaddr-get_sockaddr_by_id s id [] d h = absurd h
get_id_by_sockaddr-get_sockaddr_by_id s id (info ∷ infos) d h =
    ground
      (arith, get_id_by_sockaddr-get_sockaddr_by_id s id infos, port_found s id info.port infos)

-- An id that no process has leaves the address as it was.
pub get_sockaddr_by_id_unknown :
    (s : SockAddr) (id : ℕ) (infos : List ProcessInfo)
    → ¬ HasId id infos
    → get_sockaddr_by_id s id infos ≡ s
unfolding get_sockaddr_by_id
get_sockaddr_by_id_unknown s id [] h = ground arith
get_sockaddr_by_id_unknown s id (info ∷ infos) h =
    ground (arith, h, get_sockaddr_by_id_unknown s id infos)
