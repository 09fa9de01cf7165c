-- ===== src/Base/Members.antt =====
-- Membership in the lists that sorting and the writes to sets and dicts give.
use ameme.Base.Tests.{&&-eq-true}
use mathlib.Core.Path.{◌≡◌, refl, ap, ◌∙◌, sym, subst}
use mathlib.Core.Logic.{inl, inr}
use mathlib.Core.Bool.{Bool, true, false, ◌||◌}
use mathlib.Core.Option.{some}
use mathlib.Core.List.{List, [], ◌∷◌}
use Prim.Native.String.{String}
use native.Mathlib.Omega.{arith}
use ameme.Base.Tests.{Bool-cases}
use ameme.Base.Equality.{string_eq, nat_eq, ◌==◌}
use ameme.Base.Lists.{is_empty, keep, length}
use ameme.Base.Sets.{add, add_all, contains, contains-add, is_subset}
use ameme.Base.Dict.{Dict, lookup, insert, keys}
use ameme.Base.Text.{str_leb}
use ameme.Base.Sorting.{put, sorted_by, sort_texts}

contains-put :
    (order : String → String → Bool) (k x : String) (xs : List String)
    → contains k (put order x xs) ≡ (x == k || contains k xs)
unfolding contains
contains-put order k x [] = refl
contains-put order k x (y ∷ ys) = ground (arith, contains-put order k x ys)

pub contains-sort_texts :
    (k : String) (xs : List String) → contains k (sort_texts xs) ≡ contains k xs
unfolding sort_texts sorted_by contains
contains-sort_texts k [] = refl
contains-sort_texts k (x ∷ xs) =
    contains-put str_leb k x (sorted_by str_leb xs)
    ∙ ap (λ b. x == k || b) (contains-sort_texts k xs)

pub stays-add : (k x : String) (r : List String) → contains k r ≡ true → contains k (add x r) ≡ true
stays-add k x r h = ground (arith, contains-add x k r, h)

pub stays-add_all :
    (k : String) (xs r : List String) → contains k r ≡ true → contains k (add_all xs r) ≡ true
unfolding add_all
stays-add_all k [] r h = h
stays-add_all k (x ∷ xs) r h = stays-add_all k xs (add x r) (stays-add k x r h)

pub contains-add_all :
    (k : String) (xs r : List String) → contains k xs ≡ true → contains k (add_all xs r) ≡ true
unfolding add_all contains
contains-add_all k [] r h = cc h
contains-add_all k (x ∷ xs) r h = elim (Bool-cases (x == k)) [
  | inl same ↦ stays-add_all k xs (add x r) (rw (contains-add x k r, same) refl)
  | inr other ↦ contains-add_all k xs (add x r) (sym (rw other refl) ∙ h)
]

-- The two texts of a list whose set has one member are the same.
one_member :
    (x y : String) (xs : List String)
    → length xs ≡ 1
    → contains x xs ≡ true
    → contains y xs ≡ true
    → x ≡ y
unfolding contains
one_member x y [] n h k = cc h
one_member x y (z ∷ []) n h k = ground (arith, h, k, string_eq.same_iff z x, string_eq.same_iff z y)
one_member x y (z ∷ w ∷ ws) n h k = absurd (omega (arith, n))

pub add_all-one :
    (x y : String) (xs : List String)
    → (length (add_all xs []) == 1) ≡ true
    → contains x xs ≡ true
    → contains y xs ≡ true
    → x ≡ y
add_all-one x y xs n h k =
    one_member x y (add_all xs []) ((nat_eq.same_iff (length (add_all xs [])) 1).0 n)
      (contains-add_all x xs [] h) (contains-add_all y xs [] k)

-- What is sorted is empty only if it was.
put-filled :
    (order : String → String → Bool) (x : String) (xs : List String)
    → is_empty (put order x xs) ≡ false
put-filled order x [] = refl
put-filled order x (y ∷ ys) = ground arith

pub sort_texts-empty : (xs : List String) → is_empty (sort_texts xs) ≡ true → is_empty xs ≡ true
unfolding sort_texts sorted_by
sort_texts-empty [] h = refl
sort_texts-empty (x ∷ xs) h = cc (h, put-filled str_leb x (sorted_by str_leb xs))

-- A write leaves nothing empty.
pub add-filled : (x : String) (r : List String) → is_empty (add x r) ≡ false
unfolding add contains
add-filled x [] = refl
add-filled x (y ∷ ys) = ground arith

pub add_all-filled : (xs r : List String) → is_empty r ≡ false → is_empty (add_all xs r) ≡ false
unfolding add_all
add_all-filled [] r h = h
add_all-filled (x ∷ xs) r h = add_all-filled xs (add x r) (add-filled x r)

pub add_all-empty : (xs : List String) → is_empty (add_all xs []) ≡ true → xs ≡ []
unfolding add_all
add_all-empty [] h = refl
add_all-empty (x ∷ xs) h = cc (h, add_all-filled xs (add x []) (add-filled x []))

pub insert-filled :
    {V : Type 0} (k : String) (v : V) (d : Dict String V) → is_empty (insert k v d) ≡ false
unfolding insert
insert-filled k v [] = refl
insert-filled k v ((j, w) ∷ d) = ground arith

-- Nothing passes a test that leaves nothing.
pub keep-empty :
    (test : String → Bool) (x : String) (xs : List String)
    → is_empty (keep test xs) ≡ true
    → contains x xs ≡ true
    → test x ≡ false
unfolding contains
keep-empty test x [] h k = cc k
keep-empty test x (y ∷ ys) h k = elim (Bool-cases (test y)) [
  | inl passes ↦ absurd (cc (h, passes))
  | inr fails ↦
      ground
        (arith, k, fails, string_eq.same_iff y x, keep-empty test x ys (sym (rw fails refl) ∙ h))
]

-- A key that is there is among the keys.
pub lookup-keys :
    {V : Type 0} (k : String) (v : V) (d : Dict String V)
    → lookup k d ≡ some v
    → contains k (keys d) ≡ true
unfolding lookup contains
lookup-keys k v [] h = cc h
lookup-keys k v ((j, w) ∷ d) h = ground (arith, lookup-keys k v d)

-- What is among the members of a subset is among those of the set.
pub is_subset-contains :
    (k : String) (xs ys : List String)
    → is_subset xs ys ≡ true
    → contains k xs ≡ true
    → contains k ys ≡ true
unfolding is_subset contains
is_subset-contains k [] ys h i = cc i
is_subset-contains k (x ∷ xs) ys h i =
    let (first, rest) = &&-eq-true (contains x ys) (is_subset xs ys) h in
    elim (Bool-cases (x == k)) [
      | inl same ↦ subst (λ z. contains z ys ≡ true) ((string_eq.same_iff x k).0 same) first
      | inr other ↦ is_subset-contains k xs ys rest (sym (rw other refl) ∙ i)
    ]

-- Two lists that are subsets of each other have the same members.
pub is_subset-same :
    (xs ys : List String)
    → is_subset xs ys ≡ true
    → is_subset ys xs ≡ true
    → (k : String) → contains k xs ≡ contains k ys
is_subset-same xs ys h i k = elim (Bool-cases (contains k xs)) [
  | inl here ↦ here ∙ sym (is_subset-contains k xs ys h here)
  | inr gone ↦ elim (Bool-cases (contains k ys)) [
    | inl there ↦ absurd (cc (is_subset-contains k ys xs i there, gone))
    | inr not_there ↦ gone ∙ sym not_there
  ]
]
