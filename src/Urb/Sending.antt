-- ===== src/Urb/Sending.antt =====
-- `urb_broadcast` of template_cpp/src/src/uniform_reliable_broadcast.c within the limits of its arrays.
use cs451_2021_project.Base.{
  ℕ, ◌+◌, ◌-◌, ◌≤◌, ◌<◌, ◌≡◌, ◌≢◌, refl, sym, ap, ◌∙◌, arith, List, [], ◌∷◌, some, true, false,
  length, take, Elem, subst, ◌==◌, lt→ltb, le→leb, length-take, update,
}
use cs451_2021_project.Serializer.{to_bytes}
use cs451_2021_project.Serializer.RoundTrip.{concat, total, length-to_bytes}
use cs451_2021_project.Serializer.Prefix.{serialize_prefix}
use cs451_2021_project.Address.{SockAddr, max_processes, u32}
use cs451_2021_project.Address.Room.{HasRoom}
use cs451_2021_project.PerfectLinks.Sending.{Queued}
use cs451_2021_project.BestEffort.Sending.{IndicesDiffer, beb_broadcast-Queued}
use cs451_2021_project.Urb.{
  Urb, Row, accessible, pam_alloc, fill_pam, put_pam, get_address, urb_pack, urb_metadata_len,
  urb_broadcast,
}

-- The bytes of a message of this layer: port | count | content.
abbrev pub urb_items : ℕ → ℕ → List ℕ → List (List ℕ)
urb_items port count content = to_bytes 2 port ∷ to_bytes 4 count ∷ content ∷ []

abbrev pub urb_packed : ℕ → ℕ → List ℕ → List ℕ
urb_packed port count content = concat (urb_items port count content)

-- The process has an address, its place in the table is within its row, and its peers have ids and queues
-- of their own.
pub record CanBroadcast (u : Urb) : Type 0 where
  pub own : SockAddr
  pub is_own : get_address u.addresses (u.process_id - 1) ≡ some own
  pub positive : u.process_id ≢ 0
  pub below : u.process_id < max_processes
  pub place : accessible (u.rows u.process_id) u.count ≡ true
  pub differ : IndicesDiffer u.beb.addresses
  pub room : HasRoom u.beb.perfect.process_ids u.beb.addresses

total-urb_items :
    (port count : ℕ) (content : List ℕ)
    → total (urb_items port count content) ≡ urb_metadata_len + length content
total-urb_items port count content = omega (arith, length-to_bytes 2 port, length-to_bytes 4 count)

urb_pack_lem :
    (port count : ℕ) (content : List ℕ)
    → length content ≤ 250
    → (buffer : List ℕ) × (urb_pack port count content ≡ some buffer)
      × (take (urb_metadata_len + length content) buffer ≡ urb_packed port count content)
      × (length buffer ≡ 256)
unfolding urb_pack
urb_pack_lem port count content h =
    let size = total-urb_items port count content in
    let (buffer, packs, front, back, long) =
      serialize_prefix _ (urb_items port count content) (omega (arith, size)) in
    (buffer, packs, subst (λ n. take n buffer ≡ urb_packed port count content) size front, long)

pam_alloc_fits :
    (row : Row) (s num : ℕ) (content : List ℕ) (n : ℕ)
    → accessible row num ≡ true
    → s < max_processes
    → 255 ≤ length content
    → (row' : Row) × (pam_alloc row s num content n ≡ some row') × (row'.bytes ≡ row.bytes)
unfolding pam_alloc
pam_alloc_fits row s num content n a b h = (
  record (put_pam row num (fill_pam (row.cells num) s content n)) { used = u32 (row.used + 1) },
  rw (a, lt→ltb s max_processes b, le→leb 255 (length content) h) refl,
  refl,
)

-- Within these limits, a message of at most 245 bytes is queued for each process, with the port of the
-- sender and the count, which is counted on; nothing else that a broadcast depends on changes.
pub urb_broadcast-Queued :
    (u : Urb) (message : List ℕ) (n : ℕ)
    → (c : CanBroadcast u) → n ≤ 245
    → 255 ≤ length message
    → (v : Urb) × (urb_broadcast u message n ≡ some v)
      × ((v.count ≡ u32 (u.count + 1))
          × (v.process_id ≡ u.process_id)
          × (v.addresses ≡ u.addresses))
      × ((v.rows u.process_id).bytes ≡ (u.rows u.process_id).bytes)
      × ((v.beb.addresses ≡ u.beb.addresses) × HasRoom v.beb.perfect.process_ids u.beb.addresses)
      × ((addr : SockAddr)
          → Elem addr u.beb.addresses
          → Queued u.beb.perfect.links v.beb.perfect.links addr
              (urb_packed c.own.sin_port u.count (take n message)))
unfolding urb_broadcast
urb_broadcast-Queued u message n c h l =
    let size : length (take n message) ≡ n = omega (arith, length-take n message) in
    let (buffer, packs, front, long) =
      urb_pack_lem c.own.sin_port u.count (take n message) (omega (arith, size)) in
    let (row, made, bytes) =
      pam_alloc_fits (u.rows u.process_id) u.process_id u.count message n c.place c.below l in
    let (beb, sends, same, room, queues) =
      beb_broadcast-Queued u.beb buffer (urb_metadata_len + n) c.differ c.room (omega arith)
        (omega (arith, long)) in
    (
      record u { rows = update u.rows u.process_id row; beb = beb; count = u32 (u.count + 1) },
      rw
          (
            not_zero c.positive,
            c.is_own,
            le→leb n (length message) (omega arith),
            made,
            packs,
            sends,
          )
          refl,
      (refl, refl, refl),
      ground (arith, bytes),
      (same, room),
      λ addr e.
          subst (Queued u.beb.perfect.links beb.perfect.links addr)
            (ap (λ k. take (urb_metadata_len + k) buffer) (sym size) ∙ front) (queues addr e),
    )
  where
    not_zero : u.process_id ≢ 0 → (u.process_id == 0) ≡ false
    not_zero p = ground arith
