-- ===== src/Serializer.antt =====
-- template_cpp/src/src/serializer.c: packing values one after the other into a buffer.
pub mod RoundTrip
pub mod Prefix
mod Tests
use cs451_2021_project.Base.{
  ℕ, zero, suc, ◌+◌, ◌*◌, ◌/◌, ◌%◌, List, [], ◌∷◌, ◌++◌, Option, none, some, length, take, drop,
  leb, if◌then◌else◌,
}

-- Memory is a list of bytes. `memcpy` of `bytes` to `buffer + at`; `none` is a write out of bounds.
pub store : List ℕ → ℕ → List ℕ → Option (List ℕ)
store buffer at bytes =
    if leb (at + length bytes) (length buffer)
    then some (take at buffer ++ (bytes ++ drop (at + length bytes) buffer))
    else none

-- `memcpy` of `n` bytes from `buffer + at`; `none` is a read out of bounds.
pub load : List ℕ → ℕ → ℕ → Option (List ℕ)
load buffer at n = if leb (at + n) (length buffer) then some (take n (drop at buffer)) else none

-- The loop of `serialize`. A pair (data_ptr, data_size) is the list of the bytes that it denotes.
pub serialize_from : List ℕ → ℕ → List (List ℕ) → Option (List ℕ)
serialize_from buffer size [] = some buffer
serialize_from buffer size (item ∷ items) = elim (store buffer size item) [
  | none ↦ none
  | some buffer' ↦ serialize_from buffer' (size + length item) items
]

unfoldable pub serialize : List ℕ → List (List ℕ) → Option (List ℕ)
unfolding serialize_from store
serialize buffer items = serialize_from buffer 0 items

abbrev pub cons_some : List ℕ → Option (List (List ℕ)) → Option (List (List ℕ))
cons_some item none = none
cons_some item (some items) = some (item ∷ items)

-- The loop of `deserialize`, with the sizes asked for: what is written through each data_ptr.
pub deserialize_from : List ℕ → ℕ → List ℕ → Option (List (List ℕ))
deserialize_from buffer size [] = some []
deserialize_from buffer size (n ∷ sizes) =
    let rest = deserialize_from buffer (size + n) sizes in
    elim (load buffer size n) [ none ↦ none | some item ↦ cons_some item rest ]

unfoldable pub deserialize : List ℕ → List ℕ → Option (List (List ℕ))
unfolding deserialize_from load
deserialize buffer sizes = deserialize_from buffer 0 sizes

-- The object representation of an unsigned integer of `width` bytes, least significant byte first.
unfoldable pub to_bytes : ℕ → ℕ → List ℕ
to_bytes zero n = []
to_bytes (suc width) n = n % 256 ∷ to_bytes width (n / 256)

unfoldable pub of_bytes : List ℕ → ℕ
of_bytes [] = 0
of_bytes (b ∷ bytes) = b + 256 * of_bytes bytes
