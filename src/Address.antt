-- ===== src/Address.antt =====
-- Socket addresses and the tables that turn them into process numbers: template_cpp/src/include/common.h,
-- `get_index` of stubborn_links.c, `find_process_id` of perfect_links.c, and the two searches of
-- the applications (lcb_app.c; fifo_broadcast_application.c has the same text).
pub mod Index
pub mod Lookup
pub mod ProcessIds
pub mod Room
mod Tests
use cs451_2021_project.Base.{
  ℕ, ◌+◌, ◌-◌, ◌*◌, ◌/◌, ◌%◌, ◌^◌, Bool, ◌&&◌, List, [], ◌∷◌, ◌==◌, if◌then◌else◌, update, not,
}

abbrev pub max_processes : ℕ
max_processes = 128

abbrev pub max_ports : ℕ
max_ports = 1000

abbrev pub shift_modulo : ℕ
shift_modulo = 120

-- `uint` and `size_t` arithmetic.
abbrev pub u32 : ℕ → ℕ
u32 n = n % 2 ^ 32

abbrev pub u64 : ℕ → ℕ
u64 n = n % 2 ^ 64

-- `struct sockaddr_in`: the port is in network byte order.
pub record SockAddr : Type 0 where
  pub sin_family : ℕ
  pub sin_port : ℕ
  pub s_addr : ℕ

abbrev pub af_inet : ℕ
af_inet = 2

-- The library's `htons` on a machine that stores the least significant byte first.
unfoldable pub htons : ℕ → ℕ
htons port = port % 256 * 256 + port / 256 % 256

-- The subtraction is on `int`; the cast to `uint` reduces it.
unfoldable pub index_of_port : ℕ → ℕ
unfolding htons
index_of_port port = u32 (htons port + 2 ^ 32 - shift_modulo) % max_processes

unfoldable pub get_index : SockAddr → ℕ
unfolding index_of_port
get_index addr = index_of_port addr.sin_port

pub record ProcessInfo : Type 0 where
  pub id : ℕ
  pub ip : ℕ
  pub port : ℕ

-- The loops of lcb_app.c over `processInfos`. 0 means that no process has the port.
unfoldable pub get_id_by_sockaddr : SockAddr → List ProcessInfo → ℕ
get_id_by_sockaddr sockaddr [] = 0
get_id_by_sockaddr sockaddr (info ∷ infos) =
    if sockaddr.sin_port == info.port then info.id else get_id_by_sockaddr sockaddr infos

-- `*sockaddr` is left as it was where no process has the id.
unfoldable pub get_sockaddr_by_id : SockAddr → ℕ → List ProcessInfo → SockAddr
get_sockaddr_by_id sockaddr id [] = sockaddr
get_sockaddr_by_id sockaddr id (info ∷ infos) =
    if info.id == id
    then record { sin_family = af_inet; sin_port = info.port; s_addr = info.ip }
    else get_sockaddr_by_id sockaddr id infos

-- The static variables of `find_process_id`.
pub record ProcessTable : Type 0 where
  pub n_process : ℕ
  pub slots : ℕ → ℕ → ℕ

abbrev pub initial_table : ProcessTable
initial_table = record { n_process = 1; slots = λ _ _. 0 }

abbrev pub addr_hash : SockAddr → ℕ
addr_hash addr = addr.s_addr % max_processes

abbrev pub port_hash : SockAddr → ℕ
port_hash addr = addr.sin_port % max_ports

-- The id, and the table with the id that it may have handed out.
unfoldable pub find_process_id : ProcessTable → SockAddr → ℕ × ProcessTable
find_process_id t addr =
    let id = t.slots (addr_hash addr) (port_hash addr) in
    let claimed : ProcessTable = record {
      n_process = u32 (t.n_process + 1);
      slots =
          update t.slots (addr_hash addr)
            (update (t.slots (addr_hash addr)) (port_hash addr) t.n_process);
    } in
    if not (id == 0) then (id, t) else (u32 (u32 (t.n_process + 1) + 2 ^ 32 - 1), claimed)
