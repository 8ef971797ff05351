-- ===== src/Urb/Growth.antt =====
-- The limits of the rows of `pam_table` in template_cpp/src/src/uniform_reliable_broadcast.c.
use cs451_2021_project.Base.{
  ℕ, ◌*◌, ◌≡◌, ◌≤◌, ◌<◌, false, arith, List, Option, none, some, refl, ◌-◌,
}
use cs451_2021_project.Address.{SockAddr}
use cs451_2021_project.Urb.{
  Pam, Row, Urb, accessible, check_pam_table, pam_alloc, pam_size, urb_broadcast, broadcast_as,
  get_address,
}
use cs451_2021_project.Urb.Deliver.{handle_pam}

-- Once a number exceeds the size of its row, the row that `check_pam_table` leaves does not have the
-- entry in its memory.
pub check_pam_table_too_small :
    (fresh : ℕ → Pam) (row : Row) (num : ℕ)
    → row.size < num
    → accessible (check_pam_table fresh row num) num ≡ false
unfolding accessible check_pam_table
check_pam_table_too_small fresh row num h = ground arith

-- A row as `urb_init` allocates it: its memory holds as many entries as its size says.
abbrev pub IsFull : Row → Type 0
IsFull row = row.bytes ≡ row.size * pam_size

inaccessible :
    (fresh : ℕ → Pam) (row : Row) (num : ℕ)
    → IsFull row
    → row.size ≤ num
    → accessible (check_pam_table fresh row num) num ≡ false
unfolding accessible check_pam_table
inaccessible fresh row num f h = ground arith

-- In a row that has memory for as many entries as its size says, a packet with a number at the size or
-- above it leads to an access out of bounds, although `check_pam_table` looks at the row before.
pub handle_pam_beyond :
    (fresh : ℕ → Pam) (u : Urb) (os s num : ℕ) (message : List ℕ) (n : ℕ)
    → IsFull (u.rows os)
    → (u.rows os).size ≤ num
    → handle_pam fresh u os s num message n ≡ none
unfolding handle_pam
handle_pam_beyond fresh u os s num message n f h = rw (inaccessible fresh (u.rows os) num f h)

off_row : (row : Row) (num : ℕ) → IsFull row → row.size ≤ num → accessible row num ≡ false
unfolding accessible
off_row row num f h = ground arith

pam_alloc_beyond :
    (row : Row) (s num : ℕ) (content : List ℕ) (n : ℕ)
    → IsFull row
    → row.size ≤ num
    → pam_alloc row s num content n ≡ none
unfolding pam_alloc
pam_alloc_beyond row s num content n f h = rw (off_row row num f h)

broadcast_as_beyond :
    (u : Urb) (message : List ℕ) (n : ℕ) (own : Option SockAddr)
    → IsFull (u.rows u.process_id)
    → (u.rows u.process_id).size ≤ u.count
    → broadcast_as u message n own ≡ none
broadcast_as_beyond u message n none f h = refl
broadcast_as_beyond u message n (some own) f h =
    ground (arith, pam_alloc_beyond (u.rows u.process_id) u.process_id u.count message n f h)

-- If the row of the own process has memory for as many entries as its size says, a broadcast whose count
-- has reached that size accesses memory out of bounds, for every message.
pub urb_broadcast_beyond :
    (u : Urb) (message : List ℕ) (n : ℕ)
    → IsFull (u.rows u.process_id)
    → (u.rows u.process_id).size ≤ u.count
    → urb_broadcast u message n ≡ none
unfolding urb_broadcast
urb_broadcast_beyond u message n f h =
    ground (arith, broadcast_as_beyond u message n (get_address u.addresses (u.process_id - 1)) f h)
