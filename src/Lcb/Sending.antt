-- ===== src/Lcb/Sending.antt =====
-- `lcb_broadcast` of template_cpp/src/src/localized_causal_broadcast.c within the limits of its buffers.
use cs451_2021_project.Base.{
  ℕ, zero, suc, ◌+◌, ◌*◌, ◌≤◌, ◌<◌, ◌≡◌, refl, sym, ap, ◌∙◌, arith, List, [], ◌∷◌, ◌++◌, some, true,
  length, take, drop, Elem, subst, lt→ltb, le→leb, length-take, length-append, update,
}
use cs451_2021_project.Serializer.{to_bytes}
use cs451_2021_project.Serializer.RoundTrip.{concat, total, length-to_bytes}
use cs451_2021_project.Serializer.Prefix.{serialize_prefix}
use cs451_2021_project.Address.{SockAddr, max_processes, u32}
use cs451_2021_project.PerfectLinks.Sending.{Queued}
use cs451_2021_project.Urb.{accessible}
use cs451_2021_project.Urb.Sending.{CanBroadcast, urb_packed, urb_broadcast-Queued}
use cs451_2021_project.Lcb.{Lcb, clock_bytes, strlen, lcb_pack, lcb_broadcast}

pub length-clock_bytes : (k i : ℕ) (clock : ℕ → ℕ) → length (clock_bytes k i clock) ≡ k * 4
unfolding clock_bytes
length-clock_bytes zero i clock = refl
length-clock_bytes (suc k) i clock = omega (
  arith,
  length-append (to_bytes 4 (clock i)) (clock_bytes k (i + 1) clock),
  length-to_bytes 4 (clock i),
  length-clock_bytes k (i + 1) clock,
)

-- The clock that goes with the next message.
abbrev pub w_clock : Lcb → ℕ → ℕ
w_clock s = update s.v_clock s.process_id s.lsn

abbrev pub lcb_items : Lcb → List ℕ → List (List ℕ)
lcb_items s content = clock_bytes s.n_processes 0 (w_clock s) ∷ content ∷ []

-- The bytes of a message of this layer: the clock, the text, and the byte that the buffer holds behind it.
abbrev pub lcb_packed : Lcb → List ℕ → List ℕ
lcb_packed s content =
    concat (lcb_items s content)
    ++ take 1 (drop (s.n_processes * 4 + length content) s.broadcast_buffer)

-- The process can broadcast below, and has its place in the clock and the buffer that `lcb_init` allocates.
pub record CanSend (s : Lcb) : Type 0 where
  pub below : CanBroadcast s.urb
  pub clock_fits : s.n_processes ≤ max_processes
  pub in_clock : s.process_id < max_processes
  pub buffer_size : length s.broadcast_buffer ≡ s.n_processes * 4 + 257

take-suc : (n : ℕ) (xs : List ℕ) → take (n + 1) xs ≡ take n xs ++ take 1 (drop n xs)
take-suc n xs = ap (λ k. take k xs) {x = n + 1} {y = suc n} (omega arith) ∙ split n xs
  where
    split : (n : ℕ) (xs : List ℕ) → take (suc n) xs ≡ take n xs ++ take 1 (drop n xs)
    split zero xs = refl
    split (suc n) [] = refl
    split (suc n) (x ∷ xs) = ap (λ l. x ∷ l) (split n xs)

total-lcb_items :
    (s : Lcb) (content : List ℕ) → total (lcb_items s content) ≡ s.n_processes * 4 + length content
total-lcb_items s content = omega (arith, length-clock_bytes s.n_processes 0 (w_clock s))

lcb_pack_lem :
    (s : Lcb) (content : List ℕ)
    → CanSend s
    → length content ≤ 256
    → (buffer : List ℕ) × (lcb_pack s content ≡ some buffer)
      × (take (s.n_processes * 4 + 1 + length content) buffer ≡ lcb_packed s content)
      × (drop (s.n_processes * 4 + length content) buffer
          ≡ drop (s.n_processes * 4 + length content) s.broadcast_buffer)
      × (length buffer ≡ length s.broadcast_buffer)
unfolding lcb_pack
lcb_pack_lem s content c h =
    let size = total-lcb_items s content in
    let (buffer, packs, front, back, long) =
      serialize_prefix s.broadcast_buffer (lcb_items s content)
        (omega (arith, size, c.buffer_size)) in
    let back' = subst (λ n. drop n buffer ≡ drop n s.broadcast_buffer) size back in
    (
      buffer,
      packs,
      ap (λ n. take n buffer) {x = s.n_processes * 4 + 1 + length content}
            {y = s.n_processes * 4 + length content + 1} (omega arith)
          ∙ take-suc (s.n_processes * 4 + length content) buffer
          ∙ ap (λ l. l ++ take 1 (drop (s.n_processes * 4 + length content) buffer))
              (subst (λ n. take n buffer ≡ concat (lcb_items s content)) size front)
          ∙ ap (λ l. concat (lcb_items s content) ++ take 1 l) back',
      back',
      long,
    )

-- The same with all that a broadcast leaves as it was.
pub lcb_broadcast-Queued :
    (s : Lcb) (message : List ℕ) (n : ℕ)
    → (c : CanSend s) → strlen message ≡ some n
    → n ≤ length message
    → s.n_processes * 4 + n ≤ 244
    → (t : Lcb) × (lcb_broadcast s message n ≡ some t)
      × ((t.lsn ≡ u32 (s.lsn + 1)) × (t.urb.count ≡ u32 (s.urb.count + 1)))
      × (accessible (s.urb.rows s.urb.process_id) t.urb.count ≡ true → CanSend t)
      × ((t.n_processes ≡ s.n_processes)
          × (t.urb.process_id ≡ s.urb.process_id)
          × ((t.urb.rows t.urb.process_id).bytes ≡ (s.urb.rows s.urb.process_id).bytes))
      × (drop (s.n_processes * 4 + n) t.broadcast_buffer
          ≡ drop (s.n_processes * 4 + n) s.broadcast_buffer)
      × ((addr : SockAddr)
          → Elem addr s.urb.beb.addresses
          → Queued s.urb.beb.perfect.links t.urb.beb.perfect.links addr
              (urb_packed c.below.own.sin_port s.urb.count (lcb_packed s (take n message))))
unfolding lcb_broadcast accessible
lcb_broadcast-Queued s message n c z l h =
    let size : length (take n message) ≡ n = omega (arith, length-take n message) in
    let (buffer, packs, front, back, long) =
      lcb_pack_lem s (take n message) c (omega (arith, size)) in
    let (urb, sends, (counted, same_id, same_addresses), bytes, (peers, room), queues) =
      urb_broadcast-Queued s.urb buffer (s.n_processes * 4 + 1 + n) c.below (omega arith)
        (omega (arith, long, c.buffer_size)) in
    (
      record s { urb = urb; lsn = u32 (s.lsn + 1); broadcast_buffer = buffer },
      rw
          (
            le→leb s.n_processes max_processes c.clock_fits,
            lt→ltb s.process_id max_processes c.in_clock,
            z,
            packs,
            sends,
          )
          refl,
      (refl, counted),
      λ place. record {
        below = record {
          own = c.below.own;
          is_own = rw (same_id, same_addresses) c.below.is_own;
          positive = rw same_id c.below.positive;
          below = rw same_id c.below.below;
          place = rw (same_id, bytes) place;
          differ = rw peers c.below.differ;
          room = rw peers room;
        };
        clock_fits = c.clock_fits;
        in_clock = c.in_clock;
        buffer_size = long ∙ c.buffer_size;
      },
      (refl, same_id, rw same_id bytes),
      subst
          (λ k.
            drop (s.n_processes * 4 + k) buffer ≡ drop (s.n_processes * 4 + k) s.broadcast_buffer)
          size back,
      λ addr e.
          subst
            (λ content.
              Queued s.urb.beb.perfect.links urb.beb.perfect.links addr
                (urb_packed c.below.own.sin_port s.urb.count content))
            (ap (λ k. take (s.n_processes * 4 + 1 + k) buffer) (sym size) ∙ front) (queues addr e),
    )

pub lcb_broadcast_queues :
    (s : Lcb) (message : List ℕ) (n : ℕ) (addr : SockAddr)
    → (c : CanSend s) → strlen message ≡ some n
    → n ≤ length message
    → s.n_processes * 4 + n ≤ 244
    → Elem addr s.urb.beb.addresses
    → (t : Lcb) × (lcb_broadcast s message n ≡ some t)
      × (t.lsn ≡ u32 (s.lsn + 1))
      × (drop (s.n_processes * 4 + n) t.broadcast_buffer
          ≡ drop (s.n_processes * 4 + n) s.broadcast_buffer)
      × Queued s.urb.beb.perfect.links t.urb.beb.perfect.links addr
          (urb_packed c.below.own.sin_port s.urb.count (lcb_packed s (take n message)))
lcb_broadcast_queues s message n addr c z l h e =
    let (t, sends, counts, again, same, tail, queues) = lcb_broadcast-Queued s message n c z l h in
    (t, sends, counts.0, tail, queues addr e)
