-- ===== src/Address/Tests.antt =====
-- Addresses of a small hosts file.
use cs451_2021_project.Base.{ℕ, ◌≡◌, ◌≤◌, refl, inl, inr, List, [], ◌∷◌, arith}
use cs451_2021_project.Address.{
  SockAddr, ProcessInfo, htons, get_id_by_sockaddr, get_sockaddr_by_id, initial_table,
  find_process_id, port_hash,
}
use cs451_2021_project.Address.Lookup.{get_id_by_sockaddr-get_sockaddr_by_id}
use cs451_2021_project.Address.ProcessIds.{initial-IsValid, find_process_id_again}

abbrev local_host : ℕ
local_host = 0x0100007f

-- Ports 11001 and 11002 in network byte order.
abbrev host_1 : SockAddr
host_1 = record { sin_family = 2; sin_port = 0xf92a; s_addr = local_host }

abbrev host_2 : SockAddr
host_2 = record { sin_family = 2; sin_port = 0xfa2a; s_addr = local_host }

abbrev hosts : List ProcessInfo
hosts =
    record { id = 1; ip = local_host; port = 0xf92a }
    ∷ record { id = 2; ip = local_host; port = 0xfa2a }
    ∷ []

htons_runs : htons 11001 ≡ 0xf92a
unfolding htons
htons_runs = refl

-- Ports 11008 and 11133 of one host, both allowed, fall into one slot of `find_process_id`.
ports_collide :
    port_hash (record host_1 { sin_port = 0x002b })
    ≡ port_hash (record host_1 { sin_port = 0x7d2b })
ports_collide = refl

get_id_by_sockaddr-get_sockaddr_by_id_example :
    get_id_by_sockaddr (get_sockaddr_by_id host_1 2 hosts) hosts ≡ 2
get_id_by_sockaddr-get_sockaddr_by_id_example =
    get_id_by_sockaddr-get_sockaddr_by_id host_1 2 hosts (omega arith) (inr (inl refl))

find_process_id_again_example :
    let (id, t) = find_process_id initial_table host_1 in
    (1 ≤ id) × (id ≤ 1) × (find_process_id t host_1 ≡ (id, t))
find_process_id_again_example =
    find_process_id_again initial_table host_1 host_1 initial-IsValid (omega arith) refl refl
