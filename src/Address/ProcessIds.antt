-- ===== src/Address/ProcessIds.antt =====
-- The ids of `find_process_id` of template_cpp/src/src/perfect_links.c.
use cs451_2021_project.Base.{ℕ, ◌+◌, ◌^◌, ◌≤◌, ◌<◌, ◌≡◌, ◌≢◌, ◌⊎◌, refl, arith}
use cs451_2021_project.Address.{
  SockAddr, ProcessTable, initial_table, addr_hash, port_hash, find_process_id,
}

-- Ids handed out are below `n_process`, and no two slots have the same.
pub record IsValid (t : ProcessTable) : Type 0 where
  pub positive : 1 ≤ t.n_process
  pub small : t.n_process < 2 ^ 32
  pub below : (a p : ℕ) → t.slots a p < t.n_process
  pub distinct : (a p b q : ℕ) → t.slots a p ≡ t.slots b q → t.slots a p ≢ 0 → (a ≡ b) × (p ≡ q)

pub initial-IsValid : IsValid initial_table
initial-IsValid = record {
  positive = omega arith;
  small = omega arith;
  below = λ a p. omega arith;
  distinct = λ a p b q e n. absurd (n refl);
}

-- As long as the counter does not wrap, a call keeps the table valid.
pub find_process_id-IsValid :
    (t : ProcessTable) (addr : SockAddr)
    → IsValid t
    → t.n_process + 1 < 2 ^ 32
    → IsValid (find_process_id t addr).1
unfolding find_process_id
find_process_id-IsValid t addr v h = record {
  positive = ground (arith, v.positive);
  small = ground (arith, v.small);
  below = λ a p. ground (arith, v.below a p);
  distinct =
      λ a p b q e n. ground (arith, v.below a p, v.below b q, v.distinct a p b q, v.positive);
}

-- From a valid table whose counter is not at its limit, `find_process_id` gives a positive id, at most
-- the counter, and a later call with an address of the same two hashes gives it again and changes nothing.
pub find_process_id_again :
    (t : ProcessTable) (addr addr' : SockAddr)
    → IsValid t
    → t.n_process + 1 < 2 ^ 32
    → addr_hash addr ≡ addr_hash addr'
    → port_hash addr ≡ port_hash addr'
    → let (id, t') = find_process_id t addr in
      (1 ≤ id) × (id ≤ t.n_process) × (find_process_id t' addr' ≡ (id, t'))
unfolding find_process_id
find_process_id_again t addr addr' v h ea ep =
    ground (arith, v.positive, v.below (addr_hash addr) (port_hash addr))

-- From a valid table whose counter is not at its limit, two calls with addresses that differ in one of
-- the two hashes give different ids.
pub find_process_id_distinct :
    (t : ProcessTable) (addr addr' : SockAddr)
    → IsValid t
    → t.n_process + 2 < 2 ^ 32
    → (addr_hash addr ≢ addr_hash addr') ⊎ (port_hash addr ≢ port_hash addr')
    → let (id, t') = find_process_id t addr in (find_process_id t' addr').0 ≢ id
unfolding find_process_id
find_process_id_distinct t addr addr' v h apart = ground (
  arith,
  v.positive,
  v.below (addr_hash addr) (port_hash addr),
  v.below (addr_hash addr') (port_hash addr'),
  v.distinct (addr_hash addr) (port_hash addr) (addr_hash addr') (port_hash addr'),
)
