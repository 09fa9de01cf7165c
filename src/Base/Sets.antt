-- ===== src/Base/Sets.antt =====
-- A Python `set`, as the list of its members in the order in which they came in.
use mathlib.Core.Path.{◌≡◌, refl}
use mathlib.Core.Bool.{Bool, true, false, ◌||◌, ◌&&◌}
use mathlib.Core.List.{List, [], ◌∷◌, ◌++◌}
use native.Mathlib.Omega.{arith}
use ameme.Base.Tests.{if◌then◌else◌}
use ameme.Base.Equality.{Comparable, ◌==◌}

module _ {ℓ} {A : Type ℓ} ⦃e : Comparable A⦄ where
  -- `a in s`
  unfoldable pub contains : A → List A → Bool
  contains a [] = false
  contains a (x ∷ xs) = x == a || contains a xs

  -- `s.add(a)`
  unfoldable pub add : A → List A → List A
  unfolding contains
  add a s = if contains a s then s else s ++ a ∷ []

  -- Every member of a list put into a set: `s.update(xs)`.
  unfoldable pub add_all : List A → List A → List A
  unfolding add
  add_all [] s = s
  add_all (x ∷ xs) s = add_all xs (add x s)

  -- `set(xs) <= set(ys)`
  unfoldable pub is_subset : List A → List A → Bool
  unfolding contains
  is_subset [] ys = true
  is_subset (x ∷ xs) ys = contains x ys && is_subset xs ys

  contains-append :
      (b : A) (xs ys : List A) → contains b (xs ++ ys) ≡ (contains b xs || contains b ys)
  unfolding contains
  contains-append b [] ys = refl
  contains-append b (x ∷ xs) ys = ground (arith, contains-append b xs ys)

  contains-single : (a b : A) → contains b (a ∷ []) ≡ (a == b)
  unfolding contains
  contains-single a b = ground arith

  contains-== : (a b : A) (s : List A) → contains a s ≡ true → (a == b) ≡ true → contains b s ≡ true
  unfolding contains
  contains-== a b s h p = rw (← (e.same_iff a b).0 p) h

  pub contains-add : (a b : A) (s : List A) → contains b (add a s) ≡ (a == b || contains b s)
  unfolding add
  contains-add a b s =
      ground (
        arith,
        contains-append b s (a ∷ []),
        contains-single a b,
        contains-== a b s,
        e.same_iff a b,
      )

  pub add_idem : (a : A) (s : List A) → add a (add a s) ≡ add a s
  add_idem a s =
      unfold add in
      ground (arith, contains-append a s (a ∷ []), contains-single a a, e.same_iff a a)
