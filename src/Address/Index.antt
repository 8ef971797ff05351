-- ===== src/Address/Index.antt =====
-- `get_index` at the ports that the hosts file allows.
use cs451_2021_project.Base.{ℕ, ◌+◌, ◌-◌, ◌%◌, ◌^◌, ◌≤◌, ◌<◌, ◌≡◌, arith}
use cs451_2021_project.Address.{htons, index_of_port, max_processes}

-- Swapping the bytes of a port twice gives the port back.
pub htons-htons : (port : ℕ) → port < 2 ^ 16 → htons (htons port) ≡ port
unfolding htons
htons-htons port h = omega arith

pub htons-lt : (port : ℕ) → htons port < 2 ^ 16
unfolding htons
htons-lt port = omega arith

-- An index is always within the tables of `MAX_PROCESSES` entries.
pub index_of_port-lt : (port : ℕ) → index_of_port port < max_processes
unfolding index_of_port
index_of_port-lt port = omega arith

-- For a 16-bit port from 11000 on, stored in network byte order, the index is the distance from 11000
-- modulo `MAX_PROCESSES`.
pub index_of_port-htons :
    (port : ℕ) → 11000 ≤ port → port < 2 ^ 16 → index_of_port (htons port) ≡ (port - 11000) % 128
unfolding index_of_port
index_of_port-htons port lo hi = omega arith

-- With port 11000 + id for process id, the index is the id.
pub index_of_port-id : (id : ℕ) → id < max_processes → index_of_port (htons (11000 + id)) ≡ id
unfolding index_of_port
index_of_port-id id h = omega arith
