-- ===== src/StubbornLinks/Exchange.antt =====
-- Two processes that run template_cpp/src/src/stubborn_links.c, over a network that loses datagrams: the
-- sending thread of the one, the loops of `sl_deliver` of both.
use cs451_2021_project.Base.{
  ℕ, zero, suc, ◌≡◌, ◌≢◌, ◌<◌, ◌^◌, refl, ap, ◌∙◌, Bool, true, false, ◌&&◌, List, [], ◌∷◌, map,
  Option, none, some, arith, length, All, ◌==◌, if◌then◌else◌, update_self,
}
use cs451_2021_project.Serializer.{deserialize, of_bytes}
use cs451_2021_project.Address.{SockAddr, get_index}
use cs451_2021_project.LinkedList.{Packet}
use cs451_2021_project.Receive.{Datagram, Delivery, Received, returned, waiting}
use cs451_2021_project.StubbornLinks.{
  Links, message_type, ack_type, serve, header, fill_buffer, received_size, handle_packet,
  sl_deliver,
}
use cs451_2021_project.StubbornLinks.Acks.{handle_packet_acks, acked_packet_leaves}

abbrev same_address : SockAddr → SockAddr → Bool
same_address a b =
    a.sin_family == b.sin_family && (a.sin_port == b.sin_port && a.s_addr == b.s_addr)

-- The latest datagram of a process at `from`, as the process at `to` receives it.
abbrev pub route : SockAddr → SockAddr → List Datagram → List Datagram
route from to [] = []
route from to (datagram ∷ wire) =
    if same_address datagram.peer to then record datagram { peer = from } ∷ [] else []

-- The sending thread's look at a queue: it makes none after its loop has ended.
unfoldable pub look_at : Links → ℕ → Links
look_at s i = if s.send_forever then serve true s i else s

-- A number of looks at a queue whose datagrams are lost.
unfoldable pub lost_looks : ℕ → Links → ℕ → Links
lost_looks zero s i = s
lost_looks (suc k) s i = lost_looks k (look_at s i) i

-- What `sl_deliver` returns for the packet, coming from the process at `here`.
abbrev pub delivery_of : SockAddr → Packet → Delivery
delivery_of here packet = record {
  sender = here;
  message = fill_buffer packet.message;
  n = received_size packet.message;
}

-- A packet that is not acknowledged and that its receiver takes for a message with its number.
abbrev pub IsSendable : Packet → Type 0
IsSendable packet =
    (packet.ack ≡ false)
    × (header (fill_buffer packet.message) ≡ some (message_type, packet.num))
    × (packet.num < 2 ^ 32)
    × (received_size packet.message ≢ 0)

empty_header : header (fill_buffer []) ≡ some (0, 0)
unfolding header fill_buffer deserialize of_bytes
empty_header = refl

pub ack_is_not_empty :
    (bytes : List ℕ) (num : ℕ)
    → header (fill_buffer bytes) ≡ some (ack_type, num)
    → received_size bytes ≢ 0
unfolding received_size
ack_is_not_empty [] num h e = absurd (ground (arith, empty_header))
ack_is_not_empty (b ∷ bytes) num h e = omega arith

-- The receiver returns a message, and answers with an acknowledgement of its number.
pub message_arrives :
    (s : Links) (here : SockAddr) (bytes : List ℕ) (num : ℕ)
    → header (fill_buffer bytes) ≡ some (message_type, num)
    → num < 2 ^ 32
    → received_size bytes ≢ 0
    → (reply : List ℕ) × (sl_deliver s (record { peer = here; bytes = bytes } ∷ [])
        ≡ returned
            (record s { wire = record { peer = here; bytes = reply } ∷ s.wire })
            (record { sender = here; message = fill_buffer bytes; n = received_size bytes })
            [])
      × (header (fill_buffer reply) ≡ some (ack_type, num))
unfolding sl_deliver
message_arrives s here bytes num h b n =
    let (reply, handled, read) = handle_packet_acks s here num b in
    (reply, ground (arith, handled), read)

-- A look at a queue sends its first packet, if that is not acknowledged.
pub serve_sends :
    (a : Links) (i : ℕ) {packet : Packet} {list : List Packet}
    → a.hashmap i ≡ packet ∷ list
    → packet.ack ≡ false
    → serve true a i
      ≡ record a { wire = record { peer = a.addresses i; bytes = packet.message } ∷ a.wire }
unfolding serve
serve_sends a i q n = ground arith

look_at_on : (a : Links) (i : ℕ) → a.send_forever ≡ true → look_at a i ≡ serve true a i
unfolding look_at
look_at_on a i on = ap (λ f. if f then serve true a i else a) on

-- While the sending thread runs.
look_at_sends :
    (a : Links) (i : ℕ) {packet : Packet} {list : List Packet}
    → a.send_forever ≡ true
    → a.hashmap i ≡ packet ∷ list
    → packet.ack ≡ false
    → look_at a i
      ≡ record a { wire = record { peer = a.addresses i; bytes = packet.message } ∷ a.wire }
look_at_sends a i on q n = look_at_on a i on ∙ serve_sends a i q n

module _ (here there : SockAddr) where
  abbrev take_ack : Delivery → Links → Received Links Delivery → Option (Delivery × Links × Links)
  take_ack d b (waiting a) = some (d, look_at a (get_index there), b)
  take_ack d b _ = none

  abbrev await_ack : Links → Received Links Delivery → Option (Delivery × Links × Links)
  await_ack a (returned b d rest) = take_ack d b (sl_deliver a (route there here b.wire))
  await_ack a _ = none

  -- The process `a` at `here` looks at its queue for `there` until a datagram gets through; the process
  -- `b` at `there` receives it and answers; the answer gets through, and `a` looks at the queue again.
  unfoldable pub round_trip : ℕ → Links → Links → Option (Delivery × Links × Links)
  round_trip losses a b =
      let sent = look_at (lost_looks losses a (get_index there)) (get_index there) in
      await_ack sent (sl_deliver b (route here there sent.wire))

  abbrev then_more :
      Delivery → Option (List Delivery × Links × Links) → Option (List Delivery × Links × Links)
  then_more d none = none
  then_more d (some (deliveries, a, b)) = some (d ∷ deliveries, a, b)

  abbrev continue_trips :
      (Links → Links → Option (List Delivery × Links × Links))
      → Option (Delivery × Links × Links)
      → Option (List Delivery × Links × Links)
  continue_trips more none = none
  continue_trips more (some (d, a, b)) = then_more d (more a b)

  -- Round trips in a row, each after a number of losses: what `there` delivers, and both states.
  unfoldable pub round_trips : List ℕ → Links → Links → Option (List Delivery × Links × Links)
  round_trips [] a b = some ([], a, b)
  round_trips (losses ∷ more) a b =
      continue_trips (λ a' b'. round_trips more a' b') (round_trip losses a b)

  -- An unacknowledged first packet stays where it is while its datagrams are lost.
  lost_looks_keep :
      (losses : ℕ) (a : Links) (i : ℕ) {packet : Packet} {list : List Packet}
      → a.send_forever ≡ true
      → a.hashmap i ≡ packet ∷ list
      → packet.ack ≡ false
      → ((lost_looks losses a i).hashmap i ≡ packet ∷ list)
        × ((lost_looks losses a i).addresses ≡ a.addresses)
        × ((lost_looks losses a i).send_forever ≡ true)
  unfolding lost_looks
  lost_looks_keep zero a i on q n = (q, refl, on)
  lost_looks_keep (suc losses) a i {packet} on q n =
      rw (look_at_sends a i on q n, lost_looks)
        (lost_looks_keep losses
          (record a { wire = record { peer = a.addresses i; bytes = packet.message } ∷ a.wire }) i
          on q n)

  same_address_refl : (addr : SockAddr) → same_address addr addr ≡ true
  same_address_refl addr = ground arith

  look_at_keeps :
      (a : Links) (i : ℕ)
      → ((look_at a i).addresses ≡ a.addresses) × ((look_at a i).send_forever ≡ a.send_forever)
  unfolding look_at serve
  look_at_keeps a i = ground arith

  sl_deliver_ack_keeps :
      (a t : Links) (bytes : List ℕ) (num : ℕ)
      → header (fill_buffer bytes) ≡ some (ack_type, num)
      → sl_deliver a (record { peer = there; bytes = bytes } ∷ []) ≡ waiting t
      → (t.addresses ≡ a.addresses) × (t.send_forever ≡ a.send_forever)
  unfolding sl_deliver handle_packet
  sl_deliver_ack_keeps a t bytes num h e = ground arith

  -- One round trip takes the first packet off the queue, and its receiver returns it.
  round_trip_lem :
      (losses : ℕ) (a b : Links) (packet : Packet) (list : List Packet)
      → a.send_forever ≡ true
      → a.hashmap (get_index there) ≡ packet ∷ list
      → a.addresses (get_index there) ≡ there
      → IsSendable packet
      → (a' : Links) × (b' : Links) × (round_trip losses a b
          ≡ some (delivery_of here packet, a', b'))
        × (a'.hashmap (get_index there) ≡ list)
        × (a'.addresses (get_index there) ≡ there)
        × (a'.send_forever ≡ true)
  unfolding round_trip
  round_trip_lem losses a b packet list on q at_there s =
      let i = get_index there in
      let l = lost_looks losses a i in
      let (queue, addresses, still) = lost_looks_keep losses a i on q s.0 in
      let to = ap (λ t. t i) addresses ∙ at_there in
      let sent = record l { wire = record { peer = there; bytes = packet.message } ∷ l.wire } in
      let sends =
        look_at_sends l i still queue s.0
        ∙ ap (λ p. record l { wire = record { peer = p; bytes = packet.message } ∷ l.wire }) to in
      let (reply, arrived, read) = message_arrives b here packet.message packet.num s.1 s.2 s.3 in
      let (t, acked, left) =
        acked_packet_leaves sent there true reply read (ack_is_not_empty reply packet.num read)
          queue s.0 in
      let (keeps, runs) = sl_deliver_ack_keeps sent t reply packet.num read acked in
      let (same, runs_on) = look_at_keeps t i in
      let looked : look_at t i ≡ serve true t i = look_at_on t i (runs ∙ still) in
      (
        look_at t i,
        record b { wire = record { peer = here; bytes = reply } ∷ b.wire },
        rw (sends, same_address_refl there, arrived, same_address_refl here, acked) refl,
        ap (λ u. u.hashmap i) looked ∙ ap (λ f. f i) left ∙ update_self sent.hashmap i list,
        ap (λ f. f i) (same ∙ keeps) ∙ to,
        runs_on ∙ runs ∙ still,
      )

  -- Liveness of a queue. The sending thread of `a` runs, the queue of `a` for `there` has that address, and each of
  -- its packets is unacknowledged, is of type 'm' with its own number, below 2 ^ 32, and its datagram is not empty.
  -- If for each packet some datagrams are lost and then one gets through each way, as many round trips as there are
  -- packets empty the queue, its receiver has returned exactly these
  -- packets, in their order, and the sending thread still runs.
  pub round_trips_drain :
      (losses : List ℕ) (queue : List Packet) (a b : Links)
      → length losses ≡ length queue
      → a.send_forever ≡ true
      → a.hashmap (get_index there) ≡ queue
      → a.addresses (get_index there) ≡ there
      → All IsSendable queue
      → (a' : Links) × (b' : Links) × (round_trips losses a b
          ≡ some (map (delivery_of here) queue, a', b'))
        × (a'.hashmap (get_index there) ≡ [])
        × (a'.send_forever ≡ true)
  unfolding round_trips
  round_trips_drain [] [] a b l on q at_there s = (a, b, refl, q, on)
  round_trips_drain [] (packet ∷ queue) a b l on q at_there s = absurd (omega arith)
  round_trips_drain (k ∷ losses) [] a b l on q at_there s = absurd (omega arith)
  round_trips_drain (k ∷ losses) (packet ∷ queue) a b l on q at_there s =
      let (a1, b1, e, q1, at1, on1) = round_trip_lem k a b packet queue on q at_there s.0 in
      let (a2, b2, e2, q2, on2) =
        round_trips_drain losses queue a1 b1 (omega arith) on1 q1 at1 s.1 in
      (a2, b2, rw (e, e2) refl, q2, on2)
