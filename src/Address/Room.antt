-- ===== src/Address/Room.antt =====
-- How many ids `find_process_id` of template_cpp/src/src/perfect_links.c hands out for a set of addresses.
use cs451_2021_project.Base.{
  ℕ, ◌+◌, ◌^◌, ◌≤◌, ◌<◌, ◌≡◌, inl, inr, refl, arith, List, [], ◌∷◌, length, Elem, ◌==◌,
  if◌then◌else◌, subst,
}
use cs451_2021_project.Address.{
  SockAddr, ProcessTable, initial_table, addr_hash, port_hash, find_process_id, max_processes,
}
use cs451_2021_project.Address.ProcessIds.{
  IsValid, initial-IsValid, find_process_id-IsValid, find_process_id_again,
}

-- 1 if the address has no id yet.
unfoldable pub is_unknown : ProcessTable → SockAddr → ℕ
is_unknown t addr = if t.slots (addr_hash addr) (port_hash addr) == 0 then 1 else 0

unfoldable pub unknown : ProcessTable → List SockAddr → ℕ
unknown t [] = 0
unknown t (addr ∷ addrs) = is_unknown t addr + unknown t addrs

-- The ids that the addresses still need are at most `MAX_PROCESSES`.
pub record HasRoom (t : ProcessTable) (addrs : List SockAddr) : Type 0 where
  pub valid : IsValid t
  pub room : t.n_process + unknown t addrs ≤ max_processes + 1

unknown-le-length : (t : ProcessTable) (addrs : List SockAddr) → unknown t addrs ≤ length addrs
unfolding unknown is_unknown
unknown-le-length t [] = omega arith
unknown-le-length t (addr ∷ addrs) = ground (arith, unknown-le-length t addrs)

pub initial-HasRoom :
    (addrs : List SockAddr) → length addrs ≤ max_processes → HasRoom initial_table addrs
initial-HasRoom addrs h = record {
  valid = initial-IsValid;
  room = omega (arith, unknown-le-length initial_table addrs);
}

is_unknown-claimed :
    (t : ProcessTable) (addr other : SockAddr)
    → IsValid t
    → is_unknown (find_process_id t addr).1 other ≤ is_unknown t other
unfolding is_unknown find_process_id
is_unknown-claimed t addr other v = ground (arith, v.positive)

is_unknown-again :
    (t : ProcessTable) (addr : SockAddr)
    → IsValid t
    → is_unknown (find_process_id t addr).1 addr ≡ 0
unfolding is_unknown find_process_id
is_unknown-again t addr v = ground (arith, v.positive)

n_process-claimed :
    (t : ProcessTable) (addr : SockAddr)
    → (find_process_id t addr).1.n_process ≤ t.n_process + is_unknown t addr
unfolding is_unknown find_process_id
n_process-claimed t addr = ground arith

id-le :
    (t : ProcessTable) (addr : SockAddr)
    → IsValid t
    → (find_process_id t addr).0 + 1 ≤ t.n_process + is_unknown t addr
unfolding is_unknown find_process_id
id-le t addr v = ground (arith, v.below (addr_hash addr) (port_hash addr), v.positive, v.small)

unknown-claimed :
    (t : ProcessTable) (addr : SockAddr) (addrs : List SockAddr)
    → IsValid t
    → unknown (find_process_id t addr).1 addrs ≤ unknown t addrs
unfolding unknown
unknown-claimed t addr [] v = omega arith
unknown-claimed t addr (other ∷ addrs) v =
    omega (arith, is_unknown-claimed t addr other v, unknown-claimed t addr addrs v)

unknown-less :
    (t : ProcessTable) (addr : SockAddr) (addrs : List SockAddr)
    → IsValid t
    → Elem addr addrs
    → unknown (find_process_id t addr).1 addrs + is_unknown t addr ≤ unknown t addrs
unfolding unknown
unknown-less t addr [] v e = absurd e
unknown-less t addr (other ∷ addrs) v (inl same) =
    subst
      (λ o.
        is_unknown (find_process_id t addr).1 o
          + unknown (find_process_id t addr).1 addrs
          + is_unknown t addr
        ≤ is_unknown t o + unknown t addrs)
      same (omega (arith, is_unknown-again t addr v, unknown-claimed t addr addrs v))
unknown-less t addr (other ∷ addrs) v (inr e) =
    omega (arith, is_unknown-claimed t addr other v, unknown-less t addr addrs v e)

-- For one of the addresses, `find_process_id` gives an id from 1 to `MAX_PROCESSES`, and leaves room.
pub find_process_id-HasRoom :
    (t : ProcessTable) (addr : SockAddr) (addrs : List SockAddr)
    → Elem addr addrs
    → HasRoom t addrs
    → (1 ≤ (find_process_id t addr).0)
      × ((find_process_id t addr).0 ≤ max_processes)
      × HasRoom (find_process_id t addr).1 addrs
find_process_id-HasRoom t addr addrs e h =
    let less = unknown-less t addr addrs h.valid e in
    let fits : t.n_process + 1 < 2 ^ 32 = omega (arith, h.room) in
    (
      (find_process_id_again t addr addr h.valid fits refl refl).0,
      omega (arith, less, h.room, id-le t addr h.valid),
      record {
        valid = find_process_id-IsValid t addr h.valid fits;
        room = omega (arith, less, h.room, n_process-claimed t addr);
      },
    )
