-- ===== src/PerfectLinks/Sending.antt =====
-- `pl_send` of template_cpp/src/src/perfect_links.c for one of a set of known receivers.
use cs451_2021_project.Base.{
  ℕ, ◌+◌, ◌≤◌, ◌≡◌, ◌≢◌, arith, List, [], ◌∷◌, ◌++◌, some, length, take, Elem, Option-cases, inl,
  inr,
}
use cs451_2021_project.Address.{SockAddr, find_process_id, get_index}
use cs451_2021_project.Address.Room.{HasRoom, find_process_id-HasRoom}
use cs451_2021_project.StubbornLinks.{Links, sl_send}
use cs451_2021_project.LinkedList.{insert_last}
use cs451_2021_project.PerfectLinks.{Perfect, pl_send, pl_send_at, pl_pack, process_index}
use cs451_2021_project.PerfectLinks.Packing.{message_packet, pl_send_at_queues}

-- Behind the packets for the receiver, `t` has one more than `s`, with this message.
abbrev pub Queued : Links → Links → SockAddr → List ℕ → Type 0
Queued s t receiver content =
    (num : ℕ) × (t.hashmap (get_index receiver)
      ≡ s.hashmap (get_index receiver) ++ message_packet num content ∷ [])

-- No other queue changes.
abbrev pub OthersSame : Links → Links → SockAddr → Type 0
OthersSame s t receiver = (i : ℕ) → get_index receiver ≢ i → t.hashmap i ≡ s.hashmap i

sl_send-OthersSame :
    (s : Links) (receiver : SockAddr) (message : List ℕ) (n num : ℕ) {t : Links}
    → sl_send s receiver message n num ≡ some t
    → OthersSame s t receiver
unfolding sl_send insert_last
sl_send-OthersSame s receiver message n num e i other = ground arith

pl_send_at-OthersSame :
    (s : Perfect) (index : ℕ) (receiver : SockAddr) (message : List ℕ) (n : ℕ) {t : Perfect}
    → pl_send_at s index receiver message n ≡ some t
    → (t.process_ids ≡ s.process_ids) × OthersSame s.links t.links receiver
unfolding pl_send_at
pl_send_at-OthersSame s index receiver message n e =
    elim (Option-cases (pl_pack (s.seq_num_table index) (take n message))) [
      | inl fails ↦ absurd (ground arith)
      | inr (buffer, packs) ↦
          elim (Option-cases (sl_send s.links receiver buffer (5 + n) (s.seq_num_table index))) [
            | inl fails ↦ absurd (ground arith)
            | inr (links, sends) ↦ (
              ground arith,
              λ i other. ground (
                arith,
                sl_send-OthersSame s.links receiver buffer (5 + n) (s.seq_num_table index) sends i
                    other,
              ),
            )
          ]
    ]

-- A message of at most 251 bytes for one of the addresses that there are ids for is queued for it.
pub pl_send-Queued :
    (s : Perfect) (receiver : SockAddr) (addrs : List SockAddr) (message : List ℕ) (n : ℕ)
    → Elem receiver addrs
    → HasRoom s.process_ids addrs
    → n ≤ 251
    → n ≤ length message
    → (t : Perfect) × (pl_send s receiver message n ≡ some t)
      × HasRoom t.process_ids addrs
      × Queued s.links t.links receiver (take n message)
      × OthersSame s.links t.links receiver
unfolding pl_send
pl_send-Queued s receiver addrs message n e h b l =
    let found = find_process_id-HasRoom s.process_ids receiver addrs e h in
    let id = (find_process_id s.process_ids receiver).0 in
    let s' = record s { process_ids = (find_process_id s.process_ids receiver).1 } in
    let (t, sends, queue, counted) =
      pl_send_at_queues s' (process_index id) receiver message n (omega (arith, found.0, found.1)) b
        l in
    let same = pl_send_at-OthersSame s' (process_index id) receiver message n sends in
    (t, sends, rw same.0 found.2, (s'.seq_num_table (process_index id), queue), same.1)
