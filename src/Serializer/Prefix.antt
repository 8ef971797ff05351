-- ===== src/Serializer/Prefix.antt =====
-- The first bytes of a buffer behind `serialize` of template_cpp/src/src/serializer.c.
use cs451_2021_project.Base.{
  ℕ, ◌≤◌, ◌≡◌, refl, ap, ◌∙◌, arith, List, [], ◌∷◌, ◌++◌, some, length, take, drop, length-append,
  length-drop, take-append_le, take-all,
}
use cs451_2021_project.Serializer.{serialize}
use cs451_2021_project.Serializer.RoundTrip.{concat, total, serialize_lem}

pub length-concat : (items : List (List ℕ)) → length (concat items) ≡ total items
length-concat [] = refl
length-concat (item ∷ items) = omega (arith, length-append item (concat items), length-concat items)

take-total :
    (items : List (List ℕ)) (rest : List ℕ)
    → take (total items) (concat items ++ rest) ≡ concat items
take-total items rest =
    ap (λ n. take n (concat items ++ rest)) {x = total items} {y = length (concat items)}
      (omega (arith, length-concat items))
    ∙ take-append_le (length (concat items)) (concat items) rest (omega arith)
    ∙ take-all (concat items)

-- Items that fit are written one behind the other, at the start of a buffer of the same length.
pub serialize_prefix :
    (buffer : List ℕ) (items : List (List ℕ))
    → total items ≤ length buffer
    → (packed : List ℕ) × (serialize buffer items ≡ some packed)
      × (take (total items) packed ≡ concat items)
      × (drop (total items) packed ≡ drop (total items) buffer)
      × (length packed ≡ length buffer)
serialize_prefix buffer items h = (
  concat items ++ drop (total items) buffer,
  serialize_lem buffer items h,
  take-total items (drop (total items) buffer),
  drop-total items (drop (total items) buffer),
  omega (
    arith,
    length-append (concat items) (drop (total items) buffer),
    length-concat items,
    length-drop (total items) buffer,
  ),
)
  where
    drop-total :
        (items : List (List ℕ)) (rest : List ℕ) → drop (total items) (concat items ++ rest) ≡ rest
    drop-total items rest =
        ap (λ n. drop n (concat items ++ rest)) {x = total items} {y = length (concat items)}
          (omega (arith, length-concat items))
        ∙ drop-prefix (concat items) rest
      where
        drop-prefix : (xs rest : List ℕ) → drop (length xs) (xs ++ rest) ≡ rest
        drop-prefix [] rest = refl
        drop-prefix (x ∷ xs) rest = drop-prefix xs rest
