-- ===== src/Serializer/Tests.antt =====
-- The serializer at concrete buffers.
use cs451_2021_project.Base.{ℕ, ◌≡◌, refl, List, [], ◌∷◌, map, some, arith, length}
use cs451_2021_project.Serializer.{serialize, deserialize, to_bytes, of_bytes}
use cs451_2021_project.Serializer.RoundTrip.{deserialize-serialize, of_bytes-to_bytes}

abbrev buffer : List ℕ
buffer = 9 ∷ 9 ∷ 9 ∷ 9 ∷ []

abbrev items : List (List ℕ)
items = (1 ∷ []) ∷ (2 ∷ 3 ∷ []) ∷ []

serialize_runs : serialize buffer items ≡ some (1 ∷ 2 ∷ 3 ∷ 9 ∷ [])
unfolding serialize
serialize_runs = refl

to_bytes_runs : to_bytes 4 258 ≡ 2 ∷ 1 ∷ 0 ∷ 0 ∷ []
unfolding to_bytes
to_bytes_runs = refl

deserialize-serialize_example :
    (packed : List ℕ) × (serialize buffer items ≡ some packed)
    × (deserialize packed (map length items) ≡ some items)
deserialize-serialize_example = deserialize-serialize buffer items (omega arith)

of_bytes-to_bytes_example : of_bytes (to_bytes 4 258) ≡ 258
of_bytes-to_bytes_example = of_bytes-to_bytes 4 258 (omega arith)
