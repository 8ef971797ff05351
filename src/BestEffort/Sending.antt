-- ===== src/BestEffort/Sending.antt =====
-- `beb_broadcast` of template_cpp/src/src/best_effort_broadcast.c to processes with ids.
use cs451_2021_project.Base.{
  All-Elem, ℕ, ◌≤◌, ◌≡◌, ◌≢◌, refl, sym, ap, ◌∙◌, List, [], ◌∷◌, ◌++◌, some, length, take, Elem,
  All, inl, inr, subst,
}
use cs451_2021_project.Address.{SockAddr, get_index}
use cs451_2021_project.Address.Room.{HasRoom}
use cs451_2021_project.StubbornLinks.{Links}
use cs451_2021_project.PerfectLinks.{Perfect}
use cs451_2021_project.PerfectLinks.Sending.{Queued, pl_send-Queued}
use cs451_2021_project.PerfectLinks.Packing.{message_packet}
use cs451_2021_project.BestEffort.{Beb, send_to_all, beb_broadcast}

-- Each address has a queue of its own.
abbrev pub IndicesDiffer : List SockAddr → Type 0
IndicesDiffer [] = Unit
IndicesDiffer (addr ∷ addrs) =
    All (λ other. get_index addr ≢ get_index other) addrs × IndicesDiffer addrs

-- The same queues but for those of the addresses.
abbrev RestSame : Links → Links → List SockAddr → Type 0
RestSame s t addrs = (i : ℕ) → All (λ addr. get_index addr ≢ i) addrs → t.hashmap i ≡ s.hashmap i

All-ne :
    (i : ℕ) (addrs : List SockAddr)
    → All (λ other. i ≢ get_index other) addrs
    → All (λ addr. get_index addr ≢ i) addrs
All-ne i [] a = tt
All-ne i (addr ∷ addrs) a = (λ e. a.0 (sym e), All-ne i addrs a.1)

send_to_all-Queued :
    (s : Perfect) (addrs known : List SockAddr) (message : List ℕ) (n : ℕ)
    → All (λ addr. Elem addr known) addrs
    → IndicesDiffer addrs
    → HasRoom s.process_ids known
    → n ≤ 251
    → n ≤ length message
    → (t : Perfect) × (send_to_all s addrs message n ≡ some t)
      × HasRoom t.process_ids known
      × ((addr : SockAddr) → Elem addr addrs → Queued s.links t.links addr (take n message))
      × RestSame s.links t.links addrs
unfolding send_to_all
send_to_all-Queued s [] known message n k d h b l = (s, refl, h, λ addr e. absurd e, λ i a. refl)
send_to_all-Queued s (receiver ∷ addrs) known message n k d h b l =
    let (t, sends, h', queue, others) = pl_send-Queued s receiver known message n k.0 h b l in
    let (u, sends', h'', queues, rest) =
      send_to_all-Queued t addrs known message n k.1 d.1 h' b l in
    (
      u,
      rw (sends, send_to_all) sends',
      h'',
      λ addr e. elim e [
        | inl same ↦
            subst (λ a. Queued s.links u.links a (take n message)) (sym same)
              (queue.0, rest (get_index receiver) (All-ne (get_index receiver) addrs d.0) ∙ queue.1)
        | inr later ↦ (
          (queues addr later).0,
          (queues addr later).1
              ∙ ap (λ q. q ++ message_packet (queues addr later).0 (take n message) ∷ [])
                  (others (get_index addr)
                    (All-Elem (λ a. get_index receiver ≢ get_index a) addrs d.0 later)),
        )
      ],
      λ i a. rest i a.1 ∙ others i a.0,
    )

All-known :
    (addrs more : List SockAddr)
    → All (λ addr. Elem addr more) addrs
    → (addr : SockAddr) → All (λ a. Elem a (addr ∷ more)) addrs
All-known [] more a addr = tt
All-known (other ∷ addrs) more a addr = (inr a.0, All-known addrs more a.1 addr)

All-self : (addrs : List SockAddr) → All (λ addr. Elem addr addrs) addrs
All-self [] = tt
All-self (addr ∷ addrs) = (inl refl, All-known addrs addrs (All-self addrs) addr)

-- A message of at most 251 bytes is queued for each of the processes, if each has a queue of its own and
-- there are ids for them.
pub beb_broadcast-Queued :
    (s : Beb) (message : List ℕ) (n : ℕ)
    → IndicesDiffer s.addresses
    → HasRoom s.perfect.process_ids s.addresses
    → n ≤ 251
    → n ≤ length message
    → (t : Beb) × (beb_broadcast s message n ≡ some t)
      × (t.addresses ≡ s.addresses)
      × HasRoom t.perfect.process_ids s.addresses
      × ((addr : SockAddr)
          → Elem addr s.addresses
          → Queued s.perfect.links t.perfect.links addr (take n message))
unfolding beb_broadcast
beb_broadcast-Queued s message n d h b l =
    let (t, sends, h', queues, rest) =
      send_to_all-Queued s.perfect s.addresses s.addresses message n (All-self s.addresses) d h b
        l in
    (record s { perfect = t }, rw sends refl, refl, h', queues)
