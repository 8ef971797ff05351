-- ===== src/Lcb/Capacity.antt =====
-- How large a clock the buffers can carry.
use cs451_2021_project.Base.{
  ℕ, ◌+◌, ◌-◌, ◌*◌, ◌≡◌, ◌<◌, ◌≢◌, arith, refl, List, [], ◌∷◌, Option, none, some, take,
  Option-cases, inl, inr,
}
use cs451_2021_project.Address.{SockAddr}
use cs451_2021_project.PerfectLinks.{Perfect}
use cs451_2021_project.PerfectLinks.Packing.{pl_send_overflows}
use cs451_2021_project.BestEffort.{Beb, beb_broadcast, send_to_all}
use cs451_2021_project.Urb.{
  Urb, Row, urb_pack, urb_metadata_len, broadcast_from, broadcast_as, get_address, pam_alloc,
  urb_broadcast,
}
use cs451_2021_project.Lcb.{Lcb, strlen, lcb_pack, lcb_broadcast}

send_to_all_overflows :
    (s : Perfect) (addrs : List SockAddr) (message : List ℕ) (n : ℕ)
    → addrs ≢ []
    → 251 < n
    → send_to_all s addrs message n ≡ none
unfolding send_to_all
send_to_all_overflows s [] message n a h = absurd (a refl)
send_to_all_overflows s (addr ∷ addrs) message n a h =
    ground (arith, pl_send_overflows s addr message n h)

beb_broadcast_overflows :
    (s : Beb) (message : List ℕ) (n : ℕ)
    → s.addresses ≢ []
    → 251 < n
    → beb_broadcast s message n ≡ none
unfolding beb_broadcast
beb_broadcast_overflows s message n a h =
    rw (send_to_all_overflows s.perfect s.addresses message n a h)

broadcast_from_overflows :
    (u : Urb) (own : SockAddr) (message : List ℕ) (n : ℕ) (row : Option Row)
    → u.beb.addresses ≢ []
    → 245 < n
    → broadcast_from u own message n row ≡ none
broadcast_from_overflows u own message n none a h = refl
broadcast_from_overflows u own message n (some row) a h =
    elim (Option-cases (urb_pack own.sin_port u.count (take n message))) [
      | inl e ↦ rw e refl
      | inr (buffer, e) ↦ rw e (
          ground
            (arith, beb_broadcast_overflows u.beb buffer (urb_metadata_len + n) a (omega arith)))
    ]

broadcast_as_overflows :
    (u : Urb) (message : List ℕ) (n : ℕ) (own : Option SockAddr)
    → u.beb.addresses ≢ []
    → 245 < n
    → broadcast_as u message n own ≡ none
broadcast_as_overflows u message n none a h = refl
broadcast_as_overflows u message n (some own) a h = ground (
  arith,
  broadcast_from_overflows u own message n
      (pam_alloc (u.rows u.process_id) u.process_id u.count message n) a h,
)

urb_broadcast_overflows :
    (u : Urb) (message : List ℕ) (n : ℕ)
    → u.beb.addresses ≢ []
    → 245 < n
    → urb_broadcast u message n ≡ none
unfolding urb_broadcast
urb_broadcast_overflows u message n a h =
    ground
      (arith, broadcast_as_overflows u message n (get_address u.addresses (u.process_id - 1)) a h)

-- Where the clock of `n_processes` entries and a text of `length` bytes take more than 244 bytes
-- together, and there is a process to send to, `lcb_broadcast` accesses memory out of bounds.
pub lcb_broadcast_overflows :
    (s : Lcb) (message : List ℕ) (n length : ℕ)
    → strlen message ≡ some length
    → s.urb.beb.addresses ≢ []
    → 244 < s.n_processes * 4 + length
    → lcb_broadcast s message n ≡ none
unfolding lcb_broadcast
lcb_broadcast_overflows s message n length e a h =
    elim (Option-cases (lcb_pack s (take n message))) [
      | inl p ↦ ground arith
      | inr (buffer, p) ↦ ground (
        arith,
        urb_broadcast_overflows s.urb buffer (s.n_processes * 4 + 1 + length) a (omega arith),
      )
    ]
