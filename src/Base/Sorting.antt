-- ===== src/Base/Sorting.antt =====
-- Python's `sorted`: ascending by an order, and equal keys keep their places.
use Prim.Native.String.{String}
use mathlib.Core.Bool.{Bool}
use mathlib.Core.List.{List, [], ◌∷◌}
use ameme.Base.Tests.{if◌then◌else◌}
use ameme.Base.Text.{str_leb}

-- `sorted(xs, key=...)`, by the order of the keys: equal keys keep their order.
module _ {A : Type 0} (order : A → A → Bool) where
  abbrev pub put : A → List A → List A
  put x [] = x ∷ []
  put x (y ∷ ys) = let rest = put x ys in if order x y then x ∷ y ∷ ys else y ∷ rest

  unfoldable pub sorted_by : List A → List A
  sorted_by [] = []
  sorted_by (x ∷ xs) = put x (sorted_by xs)

unfoldable pub sort_texts : List String → List String
unfolding sorted_by
sort_texts = sorted_by str_leb
