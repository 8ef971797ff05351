-- ===== src/Lcb.antt =====
-- template_cpp/src/src/localized_causal_broadcast.c: messages carry a vector clock, and are delivered
-- when the processes that affect their sender have been heard of as far as the clock says.
pub mod Deliver
pub mod Spec
pub mod Refine
pub mod Drain
pub mod Total
pub mod Order
pub mod Capacity
pub mod Sending
pub mod Life
mod Tests
use cs451_2021_project.Base.{
  ℕ, zero, suc, ◌+◌, ◌-◌, ◌*◌, Bool, true, false, ◌&&◌, List, [], ◌∷◌, ◌++◌, Option, none, some,
  take, drop, replicate, update, ltb, leb, ◌==◌, if◌then◌else◌,
}
use cs451_2021_project.Serializer.{serialize, to_bytes, of_bytes}
use cs451_2021_project.Address.{SockAddr, u32, max_processes}
use cs451_2021_project.StubbornLinks.{max_chars}
use cs451_2021_project.Urb.{Urb, urb_init, urb_broadcast, urb_destroy}

-- `struct LCAUSALConfigInfo`. The list of a process stands for its entry of `n_processes` and the
-- used part of its row of `causal_processes`; these are numbers as the configuration has them, of any size.
pub record CausalConfig : Type 0 where
  pub process_id : ℕ
  pub n_messages : ℕ
  pub causal : ℕ → List ℕ

-- What `lcb_deliver` hands to the logger: the array `content` with the text, the sender, and (for the proofs) the place of the
-- message in the sender's row and the clock that it came with.
pub record Entry : Type 0 where
  pub content : List ℕ
  pub sender : ℕ
  pub num : ℕ
  pub clock : ℕ → ℕ

-- The static variables, those of `lcb_deliver`, and the layer below. `n_processes` is one more than
-- the number of processes. The latest entry of `log` comes first.
pub record Lcb : Type 0 where
  pub urb : Urb
  pub config : CausalConfig
  pub v_clock : ℕ → ℕ
  pub lsn : ℕ
  pub process_id : ℕ
  pub n_processes : ℕ
  pub broadcast_buffer : List ℕ
  pub delivered : ℕ → ℕ
  pub log : List Entry

abbrev pub put_urb : Lcb → Option Urb → Option Lcb
put_urb s none = none
put_urb s (some urb) = some (record s { urb = urb })

-- `calloc` succeeds.
unfoldable pub lcb_init : Lcb → ℕ → List SockAddr → ℕ → CausalConfig → Option Lcb
lcb_init s process_id addrs n config =
    put_urb
      (record s {
        lsn = 0;
        n_processes = n + 1;
        process_id = process_id;
        broadcast_buffer = replicate ((n + 1) * 4 + 1 + max_chars) 0;
        config = config;
      })
      (urb_init s.urb process_id addrs n)

unfoldable pub lcb_destroy : Lcb → Lcb
lcb_destroy s = record s { broadcast_buffer = []; urb = urb_destroy s.urb }

-- The bytes of the first `k` entries of a clock, from entry `i` on.
unfoldable pub clock_bytes : ℕ → ℕ → (ℕ → ℕ) → List ℕ
clock_bytes zero i clock = []
clock_bytes (suc k) i clock = to_bytes 4 (clock i) ++ clock_bytes k (i + 1) clock

-- The library's `strlen`; `none` if no byte is 0.
unfoldable pub strlen : List ℕ → Option ℕ
strlen [] = none
strlen (c ∷ text) =
    let rest = strlen text in
    if c == 0 then some 0 else elim rest [ none ↦ none | some n ↦ some (n + 1) ]

-- w_clock | the first `n` bytes of the message, over what the buffer held before.
unfoldable pub lcb_pack : Lcb → List ℕ → Option (List ℕ)
lcb_pack s content =
    serialize s.broadcast_buffer
      (clock_bytes s.n_processes 0 (update s.v_clock s.process_id s.lsn) ∷ content ∷ [])

abbrev pub send_clocked : Lcb → Option ℕ → Option (List ℕ) → Option Lcb
send_clocked s none buffer = none
send_clocked s (some length) none = none
send_clocked s (some length) (some buffer) =
    put_urb (record s { lsn = u32 (s.lsn + 1); broadcast_buffer = buffer })
      (urb_broadcast s.urb buffer (s.n_processes * 4 + 1 + length))

-- `none` is an access out of bounds. The clocks have `MAX_PROCESSES` entries.
unfoldable pub lcb_broadcast : Lcb → List ℕ → ℕ → Option Lcb
lcb_broadcast s message n =
    if leb s.n_processes max_processes && ltb s.process_id max_processes
    then send_clocked s (strlen message) (lcb_pack s (take n message))
    else none

-- The loop of `check_local_causality` over the processes that affect the sender. `none` is an access behind
-- the `MAX_PROCESSES` entries of one of the clocks.
unfoldable pub check_causes : (ℕ → ℕ) → (ℕ → ℕ) → List ℕ → Option Bool
check_causes v_clock vec [] = some true
check_causes v_clock vec (index ∷ causes) =
    let rest = check_causes v_clock vec causes in
    if ltb index max_processes
    then (if ltb (v_clock index) (vec index) then some false else rest)
    else none

unfoldable pub check_local_causality : Lcb → (ℕ → ℕ) → ℕ → Option Bool
unfolding check_causes
check_local_causality s vec id =
    if ltb id max_processes
    then (if ltb (s.v_clock id) (vec id)
        then some false
        else check_causes s.v_clock vec (s.config.causal id))
    else none
