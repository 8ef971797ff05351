-- ===== src/Urb.antt =====
-- template_cpp/src/src/uniform_reliable_broadcast.c: a process relays what it sees first, and passes a
-- message up when a majority has sent it.
pub mod Cells
pub mod Sending
pub mod Memory
pub mod Deliver
pub mod Handled
pub mod Majority
pub mod Growth
pub mod Once
mod Tests
use cs451_2021_project.Base.{
  ℕ, zero, suc, ◌+◌, ◌-◌, ◌*◌, ◌/◌, ◌^◌, Bool, true, false, ◌&&◌, ◌||◌, not, List, [], ◌∷◌, ◌++◌,
  Option, none, some, length, take, drop, replicate, update, ltb, leb, ◌==◌, if◌then◌else◌,
}
use cs451_2021_project.Serializer.{serialize, deserialize, store, to_bytes, of_bytes}
use cs451_2021_project.Address.{SockAddr, get_index, index_of_port, u32, max_processes}
use cs451_2021_project.Receive.{
  Datagram, Delivery, Received, returned, exited, waiting, fault, unfinished, Turn, again, leave,
  out_of_bounds, map_state, deliver_loop,
}
use cs451_2021_project.StubbornLinks.{max_chars}
use cs451_2021_project.PerfectLinks.{PlDelivery, move_down}
use cs451_2021_project.BestEffort.{Beb, beb_init, beb_broadcast, beb_deliver, beb_destroy}

abbrev pub init_table_size : ℕ
init_table_size = 8192

-- sizeof(uint16_t) + sizeof(uint)
abbrev pub urb_metadata_len : ℕ
urb_metadata_len = 6

-- sizeof(struct PAM): 1 + 3 of padding + 4 + 128 + 256 + 8 bytes.
abbrev pub pam_size : ℕ
pam_size = 400

-- `struct PAM`
pub record Pam : Type 0 where
  pub delivered : Bool
  pub sum : ℕ
  pub ack : ℕ → Bool
  pub content : List ℕ
  pub n : ℕ

-- One row of `pam_table`, with the bytes allocated for it, and its entries of `pam_table_size` and
-- `pam_table_n`.
pub record Row : Type 0 where
  pub cells : ℕ → Pam
  pub bytes : ℕ
  pub size : ℕ
  pub used : ℕ

-- The static variables, that of `urb_broadcast`, and the layer below. `addresses` is the whole array.
pub record Urb : Type 0 where
  pub beb : Beb
  pub rows : ℕ → Row
  pub n_processes : ℕ
  pub process_id : ℕ
  pub addresses : List SockAddr
  pub count : ℕ

abbrev pub zero_pam : Pam
zero_pam = record {
  delivered = false;
  sum = 0;
  ack = λ _. false;
  content = replicate max_chars 0;
  n = 0;
}

abbrev pub zero_row : Row
zero_row = record {
  cells = λ _. zero_pam;
  bytes = init_table_size * pam_size;
  size = init_table_size;
  used = 0;
}

-- The loop writes the rows up to `_n_processes + 1`; `none` if these are not all in the arrays.
unfoldable pub urb_init : Urb → ℕ → List SockAddr → ℕ → Option Urb
urb_init s process_id addrs n_processes =
    if leb (n_processes + 2) max_processes
    then some (record s {
      beb = beb_init s.beb addrs n_processes;
      rows = λ i. if leb i (n_processes + 1) then zero_row else s.rows i;
      n_processes = n_processes;
      process_id = process_id;
      addresses = addrs;
    })
    else none

-- A freed row has no bytes.
unfoldable pub urb_destroy : Urb → Urb
urb_destroy s = record s {
  beb = beb_destroy s.beb;
  rows = λ i. if leb i s.n_processes then record (s.rows i) { bytes = 0 } else s.rows i;
}

-- `pam_table[os][num]` lies within the memory of the row.
unfoldable pub accessible : Row → ℕ → Bool
accessible row num = leb ((num + 1) * pam_size) row.bytes

-- `check_pam_table` on the row. `realloc` succeeds, and gets a number of bytes; what it does not
-- keep is uninitialised: `fresh`.
unfoldable pub check_pam_table : (ℕ → Pam) → Row → ℕ → Row
unfolding accessible
check_pam_table fresh row num =
    if ltb row.size num
    then record row {
      cells = λ j. if accessible row j then row.cells j else fresh j;
      bytes = u32 (2 * row.size);
      size = u32 (row.size * 2);
    }
    else row

-- The `Pam` that `pam_alloc` leaves in the place of `pam`.
unfoldable pub fill_pam : Pam → ℕ → List ℕ → ℕ → Pam
fill_pam pam s content n = record {
  delivered = false;
  sum = 1;
  ack = update pam.ack s true;
  content = take (max_chars - 1) content ++ drop (max_chars - 1) pam.content;
  n = n;
}

abbrev pub put_pam : Row → ℕ → Pam → Row
put_pam row num pam = record row { cells = update row.cells num pam }

-- `none` is an access out of bounds: of the row, of `ack`, or of the 255 bytes copied.
unfoldable pub pam_alloc : Row → ℕ → ℕ → List ℕ → ℕ → Option Row
unfolding fill_pam accessible
pam_alloc row s num content n =
    if accessible row num && (ltb s max_processes && leb (max_chars - 1) (length content))
    then some (record (put_pam row num (fill_pam (row.cells num) s content n)) {
      used = u32 (row.used + 1);
    })
    else none

unfoldable pub get_address : List SockAddr → ℕ → Option SockAddr
get_address [] i = none
get_address (addr ∷ addrs) zero = some addr
get_address (addr ∷ addrs) (suc i) = get_address addrs i

-- port | count | the first `n` bytes of the message, in a buffer of `MAX_CHARS` bytes.
unfoldable pub urb_pack : ℕ → ℕ → List ℕ → Option (List ℕ)
urb_pack port count content =
    serialize (replicate max_chars 0) (to_bytes 2 port ∷ to_bytes 4 count ∷ content ∷ [])

abbrev put_beb : Urb → Option Beb → Option Urb
put_beb s none = none
put_beb s (some beb) = some (record s { beb = beb; count = u32 (s.count + 1) })

abbrev broadcast_buffer : Urb → ℕ → Option (List ℕ) → Option Urb
broadcast_buffer s n none = none
broadcast_buffer s n (some buffer) = put_beb s (beb_broadcast s.beb buffer (urb_metadata_len + n))

abbrev pub broadcast_from : Urb → SockAddr → List ℕ → ℕ → Option Row → Option Urb
broadcast_from s own message n none = none
broadcast_from s own message n (some row) =
    broadcast_buffer (record s { rows = update s.rows s.process_id row }) n
      (urb_pack own.sin_port s.count (take n message))

abbrev pub broadcast_as : Urb → List ℕ → ℕ → Option SockAddr → Option Urb
broadcast_as s message n none = none
broadcast_as s message n (some own) =
    if leb n (length message)
    then broadcast_from s own message n
        (pam_alloc (s.rows s.process_id) s.process_id s.count message n)
    else none

-- `addresses[process_id - 1]` is out of bounds for id 0, or one beyond the array.
unfoldable pub urb_broadcast : Urb → List ℕ → ℕ → Option Urb
unfolding get_address
urb_broadcast s message n =
    if s.process_id == 0
    then none
    else broadcast_as s message n (get_address s.addresses (s.process_id - 1))
