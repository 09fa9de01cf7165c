-- ===== src/Base/Among.antt =====
-- The places where a value stands in a list.
use mathlib.Core.Path.{◌≡◌}
use mathlib.Core.Logic.{◌⊎◌, inl, inr}
use mathlib.Core.List.{List, [], ◌∷◌}

module _ {ℓ} {A : Type ℓ} where
  pub data Among (a : A) : List A → Type ℓ where
    at_head : {x : A} {xs : List A} → a ≡ x → Among a (x ∷ xs)
    in_tail : {x : A} {xs : List A} → Among a xs → Among a (x ∷ xs)

  pub Among-none {κ} : {P : Type κ} {a : A} → Among a [] → P
  Among-none m = elim m [ ]

  pub Among-cases : {a x : A} {xs : List A} → Among a (x ∷ xs) → (a ≡ x) ⊎ Among a xs
  Among-cases (at_head same) = inl same
  Among-cases (in_tail later) = inr later
