-- ===== src/Urb/Deliver.antt =====
-- `urb_deliver` of template_cpp/src/src/uniform_reliable_broadcast.c.
use cs451_2021_project.Base.{
  ℕ, suc, ◌+◌, ◌/◌, Bool, true, ◌&&◌, not, List, [], ◌∷◌, Option, none, some, length, take, update,
  leb, if◌then◌else◌,
}
use cs451_2021_project.Serializer.{deserialize, of_bytes}
use cs451_2021_project.Address.{SockAddr, get_index, index_of_port, u32}
use cs451_2021_project.Receive.{
  Datagram, Delivery, Received, returned, exited, waiting, fault, unfinished, Turn, again, leave,
  out_of_bounds, map_state, deliver_loop,
}
use cs451_2021_project.StubbornLinks.{max_chars}
use cs451_2021_project.PerfectLinks.{PlDelivery, move_down}
use cs451_2021_project.BestEffort.{beb_broadcast, beb_deliver}
use cs451_2021_project.Urb.{
  Urb, Pam, Row, urb_metadata_len, accessible, check_pam_table, pam_alloc, put_pam,
}

-- What the loop of `urb_deliver` carries from one iteration to the next: `pam`, as the place in the
-- table that it points to (`none` is NULL).
pub record UrbLoop : Type 0 where
  pub urb : Urb
  pub pam : Option (ℕ × ℕ)

-- What `urb_deliver` leaves to its caller: the sender's address with the port of the original sender,
-- and the place of the message in the table.
pub record UrbDelivery : Type 0 where
  pub sender : SockAddr
  pub os : ℕ
  pub num : ℕ

pub record UrbPacket : Type 0 where
  pub os_port : ℕ
  pub num : ℕ

urb_fields : Option (List (List ℕ)) → Option UrbPacket
urb_fields (some (port ∷ num ∷ [])) = some (record { os_port = of_bytes port; num = of_bytes num })
urb_fields _ = none

-- port | seq_num
unfoldable pub urb_header : List ℕ → Option UrbPacket
unfolding urb_fields
urb_header message = urb_fields (deserialize message (2 ∷ 4 ∷ []))

-- `pam->ack[s]` and `pam->sum`, where the message is known already.
unfoldable pub count_ack : Pam → ℕ → Pam
count_ack pam s =
    if not (pam.ack s)
    then record pam { ack = update pam.ack s true; sum = u32 (pam.sum + 1) }
    else pam

abbrev pub relay_row : Urb → ℕ → List ℕ → ℕ → Option Row → Option Urb
relay_row u os buffer n none = none
relay_row u os buffer n (some row) = elim (beb_broadcast u.beb buffer n) [
  | none ↦ none
  | some beb ↦ some (record u { rows = update u.rows os row; beb = beb })
]

-- The first time: store the message without its metadata, and relay the packet as it came. The
-- subtraction on `size_t` would be huge for a short packet.
unfoldable pub first_seen : Urb → Row → ℕ → ℕ → ℕ → List ℕ → ℕ → Option Urb
first_seen u row os s num message n =
    if leb urb_metadata_len n
    then relay_row u os (take n message) n
        (pam_alloc row s num (move_down message n urb_metadata_len) n)
    else none

-- The branch for a packet whose two processes are known.
unfoldable pub handle_pam : (ℕ → Pam) → Urb → ℕ → ℕ → ℕ → List ℕ → ℕ → Option Urb
unfolding count_ack first_seen
handle_pam fresh u os s num message n =
    let row = check_pam_table fresh (u.rows os) num in
    if accessible row num
    then (if leb 1 (row.cells num).sum
        then some
            (record u { rows = update u.rows os (put_pam row num (count_ack (row.cells num) s)) })
        else first_seen u row os s num message n)
    else none

-- The test of `do … while`: the loop ends at a message with a majority that was not passed up.
unfoldable pub ready : Urb → ℕ × ℕ → Bool
ready u (os, num) =
    not (leb ((u.rows os).cells num).sum (u.n_processes / 2))
    && not ((u.rows os).cells num).delivered

abbrev pub test_pam : Urb → SockAddr → Option (ℕ × ℕ) → Turn UrbLoop UrbDelivery
test_pam u sender none = again (record { urb = u; pam = none })
test_pam u sender (some (os, num)) =
    if ready u (os, num)
    then leave (record { urb = u; pam = some (os, num) })
        (record { sender = sender; os = os; num = num })
    else again (record { urb = u; pam = some (os, num) })

abbrev pub after_pam : SockAddr → ℕ × ℕ → Option Urb → Turn UrbLoop UrbDelivery
after_pam sender place none = out_of_bounds
after_pam sender place (some u) = test_pam u sender (some place)

abbrev pub with_port : SockAddr → ℕ → SockAddr
with_port addr port = record addr { sin_port = port }

abbrev pub on_urb_header :
    (ℕ → Pam) → UrbLoop → Delivery → Option UrbPacket → Turn UrbLoop UrbDelivery
on_urb_header fresh l d none = out_of_bounds
on_urb_header fresh l d (some p) =
    let os = index_of_port p.os_port in
    let s = get_index d.sender in
    if leb os l.urb.n_processes && leb s l.urb.n_processes
    then after_pam (with_port d.sender p.os_port) (os, p.num)
        (handle_pam fresh l.urb os s p.num d.message d.n)
    else test_pam l.urb (with_port d.sender p.os_port) l.pam

-- The body of the loop, behind the call of `beb_deliver`. `memcpy` of `n` bytes is within `buffer`.
unfoldable pub urb_body : (ℕ → Pam) → UrbLoop → PlDelivery → Turn UrbLoop UrbDelivery
urb_body fresh l d =
    if leb d.delivery.n max_chars
    then on_urb_header fresh l d.delivery (urb_header d.delivery.message)
    else out_of_bounds

-- Behind the loop: `pam->delivered = true`.
unfoldable pub mark_delivered : Urb → ℕ → ℕ → Urb
mark_delivered u os num = record u {
  rows =
      update u.rows os
        (put_pam (u.rows os) num (record ((u.rows os).cells num) { delivered = true }));
}

abbrev pub urb_finished : Received UrbLoop UrbDelivery → Received Urb UrbDelivery
urb_finished (returned l d rest) = returned (mark_delivered l.urb d.os d.num) d rest
urb_finished (exited l rest) = exited l.urb rest
urb_finished (waiting l) = waiting l.urb
urb_finished fault = fault
urb_finished unfinished = unfinished

-- `beb_deliver` on the state of the loop.
unfoldable pub beb_below : (ℕ → Bool) → UrbLoop → List Datagram → Received UrbLoop PlDelivery
beb_below fresh l datagrams =
    map_state (λ beb. record l { urb = record l.urb { beb = beb } })
      (beb_deliver fresh l.urb.beb datagrams)

-- `fresh_acks` and `fresh_pams` stand for the uninitialised memory of the two `realloc`s.
unfoldable pub urb_deliver : (ℕ → Bool) → (ℕ → Pam) → Urb → List Datagram → Received Urb UrbDelivery
unfolding beb_below
urb_deliver fresh_acks fresh_pams u datagrams = urb_finished (
    deliver_loop (beb_below fresh_acks) (urb_body fresh_pams) (suc (length datagrams))
      (record { urb = u; pam = none }) datagrams)
