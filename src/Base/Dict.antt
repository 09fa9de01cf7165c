-- ===== src/Base/Dict.antt =====
-- A Python `dict`, in insertion order: writing to a key that is there keeps its place.
use mathlib.Core.Path.{◌≡◌, refl, ap}
use mathlib.Core.Bool.{Bool, true, false, ◌||◌}
use mathlib.Core.Option.{Option, none, some}
use mathlib.Core.List.{List, [], ◌∷◌}
use Prim.Native.Nat.{◌≤◌, ◌<◌}
use native.Mathlib.Omega.{arith}
use ameme.Base.Tests.{if◌then◌else◌, Bool-cases}
use mathlib.Core.Logic.{inl, inr}
use ameme.Base.Lists.{length}
use ameme.Base.Equality.{Comparable, ◌==◌}

abbrev pub Dict {ℓ} : Type ℓ → Type ℓ → Type ℓ
Dict K V = List (K × V)

module _ {ℓ} {V : Type ℓ} where
  -- The read of a `defaultdict`.
  abbrev pub default : V → Option V → V
  default d none = d
  default d (some v) = v

  abbrev pub is_some : Option V → Bool
  is_some none = false
  is_some (some _) = true

module _ {ℓ} {K V : Type ℓ} where
  -- `list(d)`
  abbrev pub keys : Dict K V → List K
  keys [] = []
  keys ((j, w) ∷ d) = j ∷ keys d

  -- `d.values()`
  abbrev pub values : Dict K V → List V
  values [] = []
  values ((j, w) ∷ d) = w ∷ values d

module _ {ℓ} {K V : Type ℓ} ⦃e : Comparable K⦄ where
  -- `d.get(k)`
  unfoldable pub lookup : K → Dict K V → Option V
  lookup k [] = none
  lookup k ((j, w) ∷ d) = if j == k then some w else lookup k d

  -- `d[k] = v`
  unfoldable pub insert : K → V → Dict K V → Dict K V
  insert k v [] = (k, v) ∷ []
  insert k v ((j, w) ∷ d) = if j == k then (k, v) ∷ d else (j, w) ∷ insert k v d

  -- `d.pop(k, None)`, without its result
  unfoldable pub erase : K → Dict K V → Dict K V
  erase k [] = []
  erase k ((j, w) ∷ d) = let rest = erase k d in if j == k then rest else (j, w) ∷ rest

  pub lookup-insert :
      (k j : K) (v : V) (d : Dict K V)
      → lookup j (insert k v d) ≡ (if k == j then some v else lookup j d)
  unfolding lookup insert
  lookup-insert k j v [] = refl
  lookup-insert k j v ((i, w) ∷ d) =
      ground (arith, e.same_iff k j, e.same_iff i k, e.same_iff i j, lookup-insert k j v d)

  pub lookup-erase :
      (k j : K) (d : Dict K V) → lookup j (erase k d) ≡ (if k == j then none else lookup j d)
  unfolding lookup erase
  lookup-erase k j [] = ground arith
  lookup-erase k j ((i, w) ∷ d) =
      ground (arith, e.same_iff k j, e.same_iff i k, e.same_iff i j, lookup-erase k j d)

  pub length-erase : (k : K) (d : Dict K V) → length (erase k d) ≤ length d
  unfolding erase
  length-erase k [] = omega arith
  length-erase k ((j, w) ∷ d) = ground (arith, length-erase k d)

  -- An entry that is there is taken out.
  pub length-erase-lt :
      (k : K) {v : V} (d : Dict K V) → lookup k d ≡ some v → length (erase k d) < length d
  unfolding lookup erase
  length-erase-lt k [] h = cc
  length-erase-lt k {v} ((j, w) ∷ d) h =
      ground (arith, length-erase k d, length-erase-lt k {v = v} d)

-- `k in d`
module _ {ℓ} {K V : Type ℓ} ⦃e : Comparable K⦄ where
  abbrev pub has_key : K → Dict K V → Bool
  has_key k d = is_some (lookup k d)

  pub has_key-insert :
      (k j : K) (v : V) (d : Dict K V) → has_key j (insert k v d) ≡ (k == j || has_key j d)
  has_key-insert k j v d = ground (arith, lookup-insert k j v d)

  -- A write to a new key changes no other look-up.
  pub lookup-insert_new :
      (k j : K) (v : V) {w : V} (d : Dict K V)
      → lookup k d ≡ none
      → lookup j d ≡ some w
      → lookup j (insert k v d) ≡ some w
  lookup-insert_new k j v d new old = elim (Bool-cases (k == j)) [
    | inl same ↦ absurd (cc (new, old, ap (λ i. lookup i d) ((e.same_iff k j).0 same)))
    | inr other ↦ rw (lookup-insert k j v d, other) old
  ]

-- A `defaultdict(dict)`, read and written at a pair of keys.
module _ {ℓ} {J K V : Type ℓ} ⦃e : Comparable J⦄ ⦃f : Comparable K⦄ where
  -- `d[j]`
  abbrev pub row : J → Dict J (Dict K V) → Dict K V
  row j d = default [] (lookup j d)

  -- `d[j].get(k)`
  unfoldable pub lookup2 : J → K → Dict J (Dict K V) → Option V
  lookup2 j k d = lookup k (row j d)

  -- `d[j][k] = v`
  unfoldable pub insert2 : J → K → V → Dict J (Dict K V) → Dict J (Dict K V)
  insert2 j k v d = insert j (insert k v (row j d)) d

  -- `d[j].pop(k, None)`, without its result
  unfoldable pub erase2 : J → K → Dict J (Dict K V) → Dict J (Dict K V)
  erase2 j k d = insert j (erase k (row j d)) d

  pub lookup2-insert2 :
      (j : J) (k : K) (i : J) (l : K) (v : V) (d : Dict J (Dict K V))
      → lookup2 i l (insert2 j k v d)
        ≡ (if j == i then if k == l then some v else lookup2 i l d else lookup2 i l d)
  unfolding lookup2 insert2
  lookup2-insert2 j k i l v d =
      rw (lookup-insert j i (insert k v (row j d)) d)
        (ground (arith, f.same_iff k l, e.same_iff j i, lookup-insert k l v (row j d)))

  pub lookup2-erase2 :
      (j : J) (k : K) (i : J) (l : K) (d : Dict J (Dict K V))
      → lookup2 i l (erase2 j k d)
        ≡ (if j == i then if k == l then none else lookup2 i l d else lookup2 i l d)
  unfolding lookup2 erase2
  lookup2-erase2 j k i l d =
      rw (lookup-insert j i (erase k (row j d)) d)
        (ground (arith, f.same_iff k l, e.same_iff j i, lookup-erase k l (row j d)))
