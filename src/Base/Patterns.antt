-- ===== src/Base/Patterns.antt =====
-- The regular expressions of the protocols: classes of characters and their repetition.
use Prim.Native.Nat.{ℕ, zero, suc}
use Prim.Native.Char.{Char, code}
use Prim.Native.String.{String, count}
use mathlib.Core.Bool.{Bool, true, false, ◌&&◌, ◌||◌}
use ameme.Base.Tests.{leb, nat_beq}

-- `[a-b]` by the numbers of the characters
abbrev pub is_between : ℕ → ℕ → Char → Bool
is_between low high c = leb low (code c) && leb (code c) high

-- `[A-Za-z0-9]`
unfoldable pub is_alnum : Char → Bool
is_alnum c = is_between 65 90 c || is_between 97 122 c || is_between 48 57 c

-- `[0-9a-f]`
unfoldable pub is_hex : Char → Bool
is_hex c = is_between 48 57 c || is_between 97 102 c

-- `[A-Za-z0-9._:-]`
unfoldable pub is_id_char : Char → Bool
unfolding is_alnum
is_id_char c =
    is_alnum c
    || nat_beq (code c) 46
    || nat_beq (code c) 95
    || nat_beq (code c) 58
    || nat_beq (code c) 45

-- `[A-Za-z0-9._/-]`
unfoldable pub is_ref_char : Char → Bool
unfolding is_alnum
is_ref_char c =
    is_alnum c
    || nat_beq (code c) 46
    || nat_beq (code c) 95
    || nat_beq (code c) 47
    || nat_beq (code c) 45

-- `[A-Za-z0-9.-]`
unfoldable pub is_host_char : Char → Bool
unfolding is_alnum
is_host_char c = is_alnum c || nat_beq (code c) 46 || nat_beq (code c) 45

-- Every character is in a class.
unfoldable pub all_chars : (Char → Bool) → String → Bool
all_chars p String.[] = true
all_chars p (String.◌∷◌ c s) = p c && all_chars p s

-- `[class]{n}` as the whole text
unfoldable pub is_run : (Char → Bool) → ℕ → String → Bool
unfolding all_chars
is_run p n s = nat_beq (count s) n && all_chars p s

-- A first character of `[A-Za-z0-9]` and at most `n` further ones of a class, as the whole text
unfoldable pub is_word : (Char → Bool) → ℕ → String → Bool
unfolding all_chars is_alnum
is_word p n String.[] = false
is_word p n (String.◌∷◌ c s) = is_alnum c && leb (count s) n && all_chars p s

-- `s[n:]`
unfoldable pub drop_text : ℕ → String → String
drop_text zero s = s
drop_text (suc n) String.[] = ""
drop_text (suc n) (String.◌∷◌ c s) = drop_text n s
