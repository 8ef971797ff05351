-- ===== src/Serializer/RoundTrip.antt =====
-- What `deserialize` reads back from what `serialize` wrote.
use native.Mathlib.Nat.{pow-suc}
use native.Mathlib.Decide.{dec_le}
use cs451_2021_project.Base.{
  ℕ, zero, suc, ◌+◌, ◌/◌, ◌^◌, ◌≤◌, ◌<◌, ◌≡◌, ◌⊎◌, inl, inr, refl, ap, ◌∙◌, List, [], ◌∷◌, ◌++◌,
  map, append_assoc, none, some, arith, length, take, drop, le→leb, length-append, length-take,
  length-drop, drop-drop, take_prefix, drop_prefix, drop_past,
}
use cs451_2021_project.Serializer.{
  cons_some, store, load, serialize_from, serialize, deserialize_from, deserialize, to_bytes,
  of_bytes,
}

-- The bytes that the items take up.
abbrev pub total : List (List ℕ) → ℕ
total [] = 0
total (item ∷ items) = length item + total items

abbrev pub concat : List (List ℕ) → List ℕ
concat [] = []
concat (item ∷ items) = item ++ concat items

pub store_lem :
    (before rest bytes : List ℕ)
    → length bytes ≤ length rest
    → store (before ++ rest) (length before) bytes
      ≡ some (before ++ (bytes ++ drop (length bytes) rest))
unfolding store
store_lem before rest bytes h = rw (
  le→leb (length before + length bytes) (length (before ++ rest))
      (omega (arith, length-append before rest)),
  take_prefix before rest,
  drop_past before rest (length bytes),
)

pub load_lem :
    (before bytes rest : List ℕ)
    → load (before ++ (bytes ++ rest)) (length before) (length bytes) ≡ some bytes
unfolding load
load_lem before bytes rest = rw (
  le→leb (length before + length bytes) (length (before ++ (bytes ++ rest)))
      (omega (arith, length-append before (bytes ++ rest), length-append bytes rest)),
  drop_prefix before (bytes ++ rest),
  take_prefix bytes rest,
)

serialize_from_lem :
    (before rest : List ℕ) (items : List (List ℕ)) (size : ℕ)
    → size ≡ length before
    → total items ≤ length rest
    → serialize_from (before ++ rest) size items
      ≡ some (before ++ (concat items ++ drop (total items) rest))
unfolding serialize_from
serialize_from_lem before rest [] size e h = refl
serialize_from_lem before rest (item ∷ items) size e h =
    rw (stored, serialize_from)
      (serialize_from_lem (before ++ item) (drop (length item) rest) items (size + length item)
          (omega (arith, length-append before item, e))
          (omega (arith, length-drop (length item) rest))
        ∙ ap some regroup)
  where
    stored : store (before ++ rest) size item ≡ some ((before ++ item) ++ drop (length item) rest)
    stored = rw (e, append_assoc before item) (store_lem before rest item (omega arith))

    regroup :
        (before ++ item) ++ (concat items ++ drop (total items) (drop (length item) rest))
        ≡ before ++ ((item ++ concat items) ++ drop (length item + total items) rest)
    regroup = simp (append_assoc, drop-drop)

deserialize_from_step :
    (buffer : List ℕ) (size n : ℕ) (sizes : List ℕ) {item : List ℕ} {items : List (List ℕ)}
    → load buffer size n ≡ some item
    → deserialize_from buffer (size + n) sizes ≡ some items
    → deserialize_from buffer size (n ∷ sizes) ≡ some (item ∷ items)
unfolding deserialize_from
deserialize_from_step buffer size n sizes {item} loaded more =
    rw (loaded, deserialize_from) (ap (cons_some item) more)

deserialize_from_lem :
    (before : List ℕ) (items : List (List ℕ)) (rest : List ℕ) (size : ℕ)
    → size ≡ length before
    → deserialize_from (before ++ (concat items ++ rest)) size (map length items) ≡ some items
unfolding deserialize_from
deserialize_from_lem before [] rest size e = refl
deserialize_from_lem before (item ∷ items) rest size e = finish (
    deserialize_from_lem (before ++ item) items rest (size + length item)
      (omega (arith, length-append before item, e)))
  where
    regroup : before ++ (concat (item ∷ items) ++ rest) ≡ (before ++ item) ++ (concat items ++ rest)
    regroup = simp append_assoc

    loaded : load (before ++ (concat (item ∷ items) ++ rest)) size (length item) ≡ some item
    loaded =
        rw (e, append_assoc item (concat items) rest) (load_lem before item (concat items ++ rest))

    finish :
        deserialize_from
            ((before ++ item) ++ (concat items ++ rest))
            (size + length item)
            (map length items)
          ≡ some items
        → deserialize_from
            (before ++ (concat (item ∷ items) ++ rest))
            size
            (map length (item ∷ items))
          ≡ some (item ∷ items)
    finish more =
        deserialize_from_step (before ++ (concat (item ∷ items) ++ rest)) size (length item)
          (map length items) loaded (rw regroup more)

-- `serialize` into a buffer with enough room succeeds: the items stand at its start, in order, and
-- the bytes behind them are as before.
pub serialize_lem :
    (buffer : List ℕ) (items : List (List ℕ))
    → total items ≤ length buffer
    → serialize buffer items ≡ some (concat items ++ drop (total items) buffer)
unfolding serialize
serialize_lem buffer items h = serialize_from_lem [] buffer items 0 refl h

pub deserialize_lem :
    (items : List (List ℕ)) (rest : List ℕ)
    → deserialize (concat items ++ rest) (map length items) ≡ some items
unfolding deserialize
deserialize_lem items rest = deserialize_from_lem [] items rest 0 refl

-- If the items fit into the buffer, `serialize` succeeds, and `deserialize` with their sizes gives them
-- back.
pub deserialize-serialize :
    (buffer : List ℕ) (items : List (List ℕ))
    → total items ≤ length buffer
    → (packed : List ℕ) × (serialize buffer items ≡ some packed)
      × (deserialize packed (map length items) ≡ some items)
deserialize-serialize buffer items h = (
  concat items ++ drop (total items) buffer,
  serialize_lem buffer items h,
  deserialize_lem items (drop (total items) buffer),
)

-- A copy fails, or stays within the buffer and keeps its length.
store_cases :
    (buffer : List ℕ) (at : ℕ) (bytes : List ℕ)
    → (store buffer at bytes ≡ none)
      ⊎ ((buffer' : List ℕ) × (store buffer at bytes ≡ some buffer')
          × (length buffer' ≡ length buffer)
          × (at + length bytes ≤ length buffer))
unfolding store
store_cases buffer at bytes = elim (dec_le (at + length bytes) (length buffer)) [
  | yes fits ↦ inr (
    take at buffer ++ (bytes ++ drop (at + length bytes) buffer),
    rw (le→leb _ _ fits),
    omega (
      arith,
      length-append (take at buffer) (bytes ++ drop (at + length bytes) buffer),
      length-append bytes (drop (at + length bytes) buffer),
      length-take at buffer,
      length-drop (at + length bytes) buffer,
    ),
    fits,
  )
  | no over ↦ inl (ground arith)
]

serialize_from_overflow :
    (buffer : List ℕ) (items : List (List ℕ)) (size : ℕ)
    → size ≤ length buffer
    → length buffer < size + total items
    → serialize_from buffer size items ≡ none
unfolding serialize_from
serialize_from_overflow buffer [] size g h = absurd (omega arith)
serialize_from_overflow buffer (item ∷ items) size g h = elim (store_cases buffer size item) [
  | inl e ↦ rw (e, serialize_from)
  | inr (buffer', e, l, room) ↦
      rw (e, serialize_from)
        (serialize_from_overflow buffer' items (size + length item) (omega arith) (omega arith))
]

-- If the items do not fit into the buffer, `serialize` writes out of bounds.
pub serialize_overflow :
    (buffer : List ℕ) (items : List (List ℕ))
    → length buffer < total items
    → serialize buffer items ≡ none
unfolding serialize
serialize_overflow buffer items h =
    serialize_from_overflow buffer items 0 (omega arith) (omega arith)

-- An unsigned integer below 256 ^ `width` is read back from the `width` bytes that it was written to.
pub of_bytes-to_bytes : (width n : ℕ) → n < 256 ^ width → of_bytes (to_bytes width n) ≡ n
unfolding of_bytes to_bytes
of_bytes-to_bytes zero n h = omega arith
of_bytes-to_bytes (suc width) n h =
    omega (arith, of_bytes-to_bytes width (n / 256) (omega (arith, pow-suc 256 width)))

pub length-to_bytes : (width n : ℕ) → length (to_bytes width n) ≡ width
unfolding to_bytes
length-to_bytes zero n = refl
length-to_bytes (suc width) n = ap suc (length-to_bytes width (n / 256))
