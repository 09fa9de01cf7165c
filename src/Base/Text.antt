-- ===== src/Base/Text.antt =====
-- Python's `str` where the code builds one: decimal and hexadecimal digits, padding, `join`, and the
-- order of texts (by code points, which is the order of the bytes of their UTF-8).
use mathlib.Core.Bool.{◌||◌}
use Prim.Native.Nat.{ℕ, zero, suc, ◌+◌, ◌-◌, ◌/◌, ◌%◌, Ordering, compare as compare_ℕ}
use Prim.Native.Nat.compare as compare_ℕ
use Prim.Native.Char.{code}
use Prim.Native.String.compare
use Prim.Native.String.{String, ◌++◌, slice, compare, count, then as then_order}
use text.Mathlib.Text.{◌==◌ as str_eq}
use mathlib.Core.Path.{◌≡◌, refl}
use mathlib.Core.Bool.{Bool, true, false}
use ameme.Base.Tests.{ltb, if◌then◌else◌}
use ameme.Base.Int.{ℤ, pos, negsuc}

-- `s <= t`
abbrev pub str_leb : String → String → Bool
str_leb s t = elim (compare s t) [ Ordering.gt ↦ false | _ ↦ true ]

reversed : Ordering → Ordering
reversed Ordering.lt = Ordering.gt
reversed Ordering.eq = Ordering.eq
reversed Ordering.gt = Ordering.lt

nat_compare-reversed : (a b : ℕ) → compare_ℕ b a ≡ reversed (compare_ℕ a b)
unfolding reversed
nat_compare-reversed zero zero = refl
nat_compare-reversed zero (suc b) = rw (compare_ℕ.zero-suc b, compare_ℕ.suc-zero b) refl
nat_compare-reversed (suc a) zero = rw (compare_ℕ.zero-suc a, compare_ℕ.suc-zero a) refl
nat_compare-reversed (suc a) (suc b) =
    rw (compare_ℕ.suc-suc b a, compare_ℕ.suc-suc a b) (nat_compare-reversed a b)

then-reversed : (o p : Ordering) → then_order (reversed o) (reversed p) ≡ reversed (then_order o p)
unfolding reversed
then-reversed Ordering.lt p = refl
then-reversed Ordering.eq p = refl
then-reversed Ordering.gt p = refl

compare-reversed : (s t : String) → compare t s ≡ reversed (compare s t)
unfolding reversed
compare-reversed String.[] String.[] = refl
compare-reversed String.[] (String.◌∷◌ d t) = rw (compare.nil-cons d t, compare.cons-nil d t) refl
compare-reversed (String.◌∷◌ c s) String.[] = rw (compare.nil-cons c s, compare.cons-nil c s) refl
compare-reversed (String.◌∷◌ c s) (String.◌∷◌ d t) =
    rw
      (
        compare.cons-cons d c t s,
        compare.cons-cons c d s t,
        compare-reversed s t,
        nat_compare-reversed (code c) (code d),
      )
      (then-reversed (compare_ℕ (code c) (code d)) (compare s t))

-- The order is total.
pub str_leb-total : (s t : String) → str_leb s t ≡ false → str_leb t s ≡ true
unfolding reversed
str_leb-total s t h = go (compare s t) (compare-reversed s t) h
  where
    go :
        (o : Ordering) {p : Ordering}
        → p ≡ reversed o
        → elim o [ Ordering.gt ↦ false | _ ↦ true ] ≡ false
        → elim p [ Ordering.gt ↦ false | _ ↦ true ] ≡ true
    go Ordering.lt e h = cc h
    go Ordering.eq e h = cc h
    go Ordering.gt e h = rw e refl

-- One hexadecimal digit.
hex_digit : ℕ → String
hex_digit n = slice "0123456789abcdef" n (n + 1)

decimal_fuel : ℕ → ℕ → String
decimal_fuel zero n = ""
decimal_fuel (suc fuel) n =
    let rest = decimal_fuel fuel (n / 10) in
    (if ltb n 10 then "" else rest) ++ slice "0123456789" (n % 10) (n % 10 + 1)

-- `str(n)`; a number has no more digits than one more than its value.
unfoldable pub decimal : ℕ → String
unfolding decimal_fuel
decimal n = decimal_fuel (suc n) n

unfoldable pub decimal_int : ℤ → String
unfolding decimal
decimal_int (pos n) = decimal n
decimal_int (negsuc n) = "-" ++ decimal (suc n)

repeat : ℕ → String
repeat zero = ""
repeat (suc n) = "0" ++ repeat n

-- `f"{n:0wd}"`
unfoldable pub padded : ℕ → ℕ → String
unfolding decimal repeat
padded width n = let s = decimal n in repeat (width - count s) ++ s

-- The two hexadecimal digits of a byte.
unfoldable pub hex_byte : ℕ → String
unfolding hex_digit
hex_byte n = hex_digit (n / 16) ++ hex_digit (n % 16)

-- `s[:n]`
unfoldable pub take_text : ℕ → String → String
take_text zero s = ""
take_text (suc n) String.[] = ""
take_text (suc n) (String.◌∷◌ c s) = String.◌∷◌ c (take_text n s)

-- `s.startswith(part)`
unfoldable pub has_prefix : String → String → Bool
has_prefix String.[] s = true
has_prefix (String.◌∷◌ c part) String.[] = false
has_prefix (String.◌∷◌ c part) (String.◌∷◌ d s) =
    let rest = has_prefix part s in
    if str_eq (String.◌∷◌ c String.[]) (String.◌∷◌ d String.[]) then rest else false

-- `part in s`
unfoldable pub has_part : String → String → Bool
unfolding has_prefix
has_part part String.[] = has_prefix part String.[]
has_part part (String.◌∷◌ c s) =
    let rest = has_part part s in has_prefix part (String.◌∷◌ c s) || rest
