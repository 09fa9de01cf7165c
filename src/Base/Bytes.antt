-- ===== src/Base/Bytes.antt =====
-- Python's `bytes`, as the list of their values.
use Prim.Native.Nat.{ℕ, suc}
use mathlib.Core.Bool.{Bool, true, false, ◌||◌}
use mathlib.Core.List.{List, [], ◌∷◌}
use ameme.Base.Tests.{nat_beq, if◌then◌else◌}

abbrev pub Bytes : Type 0
Bytes = List ℕ

-- `b.startswith(part)`
abbrev pub starts_with : Bytes → Bytes → Bool
starts_with [] b = true
starts_with (x ∷ xs) [] = false
starts_with (x ∷ xs) (y ∷ ys) = let rest = starts_with xs ys in if nat_beq x y then rest else false

-- `bytes([x]) in b`
abbrev pub has_byte : ℕ → Bytes → Bool
has_byte x [] = false
has_byte x (y ∷ ys) = nat_beq y x || has_byte x ys

-- `b.count(bytes([x]))`
abbrev pub count_byte : ℕ → Bytes → ℕ
count_byte x [] = 0
count_byte x (y ∷ ys) = let rest = count_byte x ys in if nat_beq y x then suc rest else rest

-- `b.endswith(bytes([x]))`
abbrev pub ends_with : ℕ → Bytes → Bool
ends_with x [] = false
ends_with x (y ∷ []) = nat_beq y x
ends_with x (y ∷ z ∷ ys) = ends_with x (z ∷ ys)

-- `b[:-1]`
abbrev pub drop_last : Bytes → Bytes
drop_last [] = []
drop_last (y ∷ []) = []
drop_last (y ∷ z ∷ ys) = y ∷ drop_last (z ∷ ys)
