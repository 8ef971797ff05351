-- ===== src/Network/Tables.antt =====
-- The tables of what a process has sent to another, and got from another.
use native.Mathlib.Decide.{ℕ_discrete}
use cs451_2021_project.Base.{ℕ, ◌≡◌, ◌≢◌, ◌⊎◌, inl, inr, refl, sym, subst, arith, List, ◌∷◌, Elem}
use cs451_2021_project.Network.{put}

module _ {ℓ} {A : Type ℓ} (table : ℕ → ℕ → List A) (a b : ℕ) (x : A) where
  put_self : put table a b x a b ≡ x ∷ table a b
  put_self = ground arith

  put_ne : (c d : ℕ) → (a ≢ c) ⊎ (b ≢ d) → put table a b x c d ≡ table c d
  put_ne c d (inl e) = ground arith
  put_ne c d (inr e) = ground arith

module _ {A : Type 0} (table : ℕ → ℕ → List A) (a b : ℕ) (x : A) where
  -- What a table gains.
  pub put-Elem :
      (c d : ℕ) (y : A)
      → Elem y (put table a b x c d)
      → Elem y (table c d) ⊎ ((a ≡ c) × (b ≡ d) × (y ≡ x))
  put-Elem c d y e = elim (ℕ_discrete a c) [
    | no other ↦ inl (subst (Elem y) (put_ne table a b x c d (inl other)) e)
    | yes same ↦ elim (ℕ_discrete b d) [
      | no other ↦ inl (subst (Elem y) (put_ne table a b x c d (inr other)) e)
      | yes same' ↦ here same same' (subst (λ l. Elem y (put table a b x l d)) (sym same) e)
    ]
  ]
    where
      here :
          a ≡ c
          → b ≡ d
          → Elem y (put table a b x a d)
          → Elem y (table c d) ⊎ ((a ≡ c) × (b ≡ d) × (y ≡ x))
      here p q f = found p q (
          subst (Elem y) (put_self table a b x)
            (subst (λ l. Elem y (put table a b x a l)) (sym q) f))
        where
          found :
              a ≡ c
              → b ≡ d
              → Elem y (x ∷ table a b)
              → Elem y (table c d) ⊎ ((a ≡ c) × (b ≡ d) × (y ≡ x))
          found p q (inl g) = inr (p, q, g)
          found p q (inr g) =
              inl (subst (λ l. Elem y (table l d)) p (subst (λ l. Elem y (table a l)) q g))

  pub put-keeps : (c d : ℕ) (y : A) → Elem y (table c d) → Elem y (put table a b x c d)
  put-keeps c d y e = elim (ℕ_discrete a c) [
    | no other ↦ subst (Elem y) (sym (put_ne table a b x c d (inl other))) e
    | yes same ↦ elim (ℕ_discrete b d) [
      | no other ↦ subst (Elem y) (sym (put_ne table a b x c d (inr other))) e
      | yes same' ↦
          subst (λ l. Elem y (put table a b x l d)) same
            (subst (λ l. Elem y (put table a b x a l)) same'
              (subst (Elem y) (sym (put_self table a b x)) (
                inr (
                  subst (λ l. Elem y (table l b)) (sym same)
                    (subst (λ l. Elem y (table c l)) (sym same') e)))))
    ]
  ]

  pub put-has : Elem x (put table a b x a b)
  put-has = subst (Elem x) (sym (put_self table a b x)) (inl refl)
