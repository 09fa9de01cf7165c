-- ===== src/Node/Lines/Accepted.antt =====
-- The lines that are accepted (`parse_strict_json_line` of
-- packages/agent-local-node-protocol/ameme_agent_local_node_protocol/protocol.py).
use ameme.Base.{
  string_eq, ℕ, suc, ◌≤◌, ◌<◌, ◌≡◌, refl, arith, Bool, true, false, Option, none, some, [], ◌∷◌,
  ◌||◌, ◌&&◌, not, ltb, length, is_empty, if◌then◌else◌, ok, err, on_return, on_check, ap,
  ok-injective, not-eq-false, ||-eq-false, ltb-eq-false, raise_if-passes, Bool-cases, inl, inr,
}
use mathlib.Core.Path.{subst}
use ameme.Base.Bytes.{Bytes, starts_with, has_byte, count_byte, ends_with, drop_last}
use ameme.Json.{Json}
use ameme.Node.Codec.{Codec}
use ameme.Node.Checks.{invalid_request, payload_too_large, is_plain, canonical_bytes}
use ameme.Node.Lines.{is_unambiguous, check_line, accept_value, parse_line, parse_strict_json_line}

-- The bytes that the JSON text of a line has: the line without its newline.
abbrev pub text_of_line : Bytes → Bytes
text_of_line line = if ends_with 10 line then drop_last line else line

-- A line of bounded length, whose only newline is its last byte, that reads as a value.
pub record IsLine (x : Codec) (maximum : ℕ) (line : Bytes) (v : Json) : Type 0 where
  pub not_empty : 0 < length line
  pub bounded : length line ≤ maximum
  pub no_nul : has_byte 0 line ≡ false
  pub no_mark : starts_with (239 ∷ 187 ∷ 191 ∷ []) line ≡ false
  pub no_newline : has_byte 10 (text_of_line line) ≡ false
  pub reads : x.loads (text_of_line line) ≡ some v
  pub unambiguous : is_unambiguous v ≡ true
  pub plain : is_plain v ≡ true

-- A byte that is there counts.
count_byte-pos : (b : ℕ) (line : Bytes) → has_byte b line ≡ true → 0 < count_byte b line
count_byte-pos b [] h = cc h
count_byte-pos b (y ∷ ys) h = ground (arith, count_byte-pos b ys)

count_byte-drop_last :
    (b : ℕ) (line : Bytes)
    → ends_with b line ≡ true
    → count_byte b line ≡ suc (count_byte b (drop_last line))
count_byte-drop_last b [] h = cc h
count_byte-drop_last b (y ∷ []) h = ground (arith, h)
count_byte-drop_last b (y ∷ z ∷ ys) h = ground (arith, count_byte-drop_last b (z ∷ ys) h)

no_newline-inside :
    (line : Bytes)
    → ltb 1 (count_byte 10 line) ≡ false
    → (has_byte 10 line && not (ends_with 10 line)) ≡ false
    → has_byte 10 (text_of_line line) ≡ false
no_newline-inside line few last = elim (Bool-cases (ends_with 10 line)) [
  | inl ends ↦
      rw ends
        (ground (arith, few, count_byte-drop_last 10 line ends, count_byte-pos 10 (drop_last line)))
  | inr open_ ↦ rw open_ (ground (arith, open_, last))
]

accept_value-reads :
    (o : Option Json) (v : Json) → accept_value o ≡ ok v → (o ≡ some v) × (is_unambiguous v ≡ true)
accept_value-reads none v h = cc h
accept_value-reads (some w) v h = clear (is_unambiguous w) refl h
  where
    clear :
        (b : Bool)
        → is_unambiguous w ≡ b
        → (if b then ok w else err invalid_request) ≡ ok v
        → (some w ≡ some v) × (is_unambiguous v ≡ true)
    clear true clean h = let same = ok-injective w v h in (ap some same, rw⁻¹ same clean)
    clear false twice h = cc h

not_empty-length : (line : Bytes) → is_empty line ≡ false → 0 < length line
not_empty-length [] h = cc h
not_empty-length (y ∷ ys) h = omega arith

-- A line that is parsed is not empty and not longer than the maximum, has no NUL and no byte order mark, and no
-- newline but one at its end; it reads as the value that is returned, in which no object has a key twice, every
-- integer is safe, no number is a float and no text that stands as a value has a NUL (the keys are not looked at).
pub parse_strict_json_line-IsLine :
    (x : Codec) (maximum : ℕ) (line : Bytes) (v : Json)
    → parse_strict_json_line x maximum line ≡ ok v
    → IsLine x maximum line v
unfolding parse_strict_json_line parse_line check_line canonical_bytes
parse_strict_json_line-IsLine x maximum line v h =
    on_return (parse_line x maximum line) _ h (λ value parsed h.
      on_return (canonical_bytes x value) _ h (λ bytes written h.
        on_return (check_line maximum line) _ parsed (λ _ checked parsed.
          let too_long = is_empty line || ltb maximum (length line) in
          let marked = starts_with (239 ∷ 187 ∷ 191 ∷ []) line || has_byte 0 line in
          let split = ltb 1 (count_byte 10 line) || has_byte 10 line && not (ends_with 10 line) in
          on_check too_long payload_too_large _ checked (λ short checked.
            on_check marked invalid_request _ checked (λ unmarked checked.
              on_check (not (is_plain value)) invalid_request _ written (λ plain _.
                let same = ok-injective value v h in
                let (some_bytes, fits) =
                  ||-eq-false (is_empty line) (ltb maximum (length line)) short in
                let (no_mark, no_nul) =
                  ||-eq-false (starts_with (239 ∷ 187 ∷ 191 ∷ []) line) (has_byte 0 line)
                    unmarked in
                let (few, last) =
                  ||-eq-false (ltb 1 (count_byte 10 line))
                    (has_byte 10 line && not (ends_with 10 line))
                    (raise_if-passes split invalid_request checked) in
                let (reads, unambiguous) =
                  accept_value-reads (x.loads (text_of_line line)) value parsed in
                subst (IsLine x maximum line) same (record {
                  not_empty = not_empty-length line some_bytes;
                  bounded = ltb-eq-false maximum (length line) fits;
                  no_nul = no_nul;
                  no_mark = no_mark;
                  no_newline = no_newline-inside line few last;
                  reads = reads;
                  unambiguous = unambiguous;
                  plain = not-eq-false (is_plain value) plain;
                })))))))
