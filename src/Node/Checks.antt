-- ===== src/Node/Checks.antt =====
-- The checks of single values: `_walk_json` to `_payload_shape`, and the canonical bytes and digest of a value
-- (packages/agent-local-node-protocol/ameme_agent_local_node_protocol/protocol.py).
use Prim.Native.Char.{code}
use ameme.Base.{
  string_eq, ℕ, String, ◌+s◌, Bool, true, false, none, some, List, [], ◌∷◌, ◌++◌, ◌==◌, ◌&&◌, ◌||◌,
  not, nat_beq, leb, ltb, count, length, if◌then◌else◌, Outcome, ok, err, ◌>>=◌, ◌>>◌, raise_if,
}
use ameme.Base.Int.{ℤ, pos, negsuc}
use ameme.Base.Sets.{contains, add_all, is_subset}
use ameme.Base.Sorting.{sort_texts}
use ameme.Base.Patterns.{all_chars, is_word, is_id_char}
use ameme.Base.Bytes.{Bytes}
use ameme.Json.{
  Json, Items, Fields, null, bool, int, real, str, arr, obj, nil, cons, end, field, canonical_json,
}
use ameme.Json.Access.{names, items_length}
use ameme.Node.Codec.{Codec}

-- `ERROR_CODES`, the codes of a `ProtocolViolation`
pub data Violation : Type 0 where
  auth_required grant_revoked grant_expired purpose_denied space_denied : Violation
  data_type_denied schema_unsupported invalid_request payload_too_large : Violation
  payload_digest_mismatch result_digest_mismatch scope_mismatch not_visible : Violation
  operation_unsupported revision_conflict idempotency_conflict : Violation
  temporarily_unavailable internal_error response_request_mismatch : Violation

abbrev pub Checked : Type 0 → Type 0
Checked A = Outcome Violation A

-- `abs(value) <= MAX_SAFE_INTEGER`
abbrev pub is_safe : ℤ → Bool
is_safe (pos n) = leb n 9007199254740991
is_safe (negsuc n) = ltb n 9007199254740991

-- `_walk_json` as a test. A text of the model holds no surrogates.
unfoldable mutual
  unfolding all_chars

  pub is_plain : Json → Bool
  is_plain null = true
  is_plain (bool b) = true
  is_plain (str s) = all_chars (λ c. not (nat_beq (code c) 0)) s
  is_plain (int n) = is_safe n
  is_plain (real s) = false
  is_plain (arr xs) = are_plain xs
  is_plain (obj fs) = have_plain fs

  pub are_plain : Items → Bool
  are_plain nil = true
  are_plain (cons x xs) = is_plain x && are_plain xs

  pub have_plain : Fields → Bool
  have_plain end = true
  have_plain (field k v fs) = is_plain v && have_plain fs

module _ (x : Codec) where
  -- `canonical_json_bytes`
  unfoldable pub canonical_bytes : Json → Checked Bytes
  unfolding is_plain
  canonical_bytes v =
      raise_if (not (is_plain v)) invalid_request >> ok (x.encode (canonical_json v))

  -- `digest_json`
  unfoldable pub digest_json : Json → Checked String
  unfolding canonical_bytes
  digest_json v = do bytes ← canonical_bytes v; ok ("sha256_" +s x.sha256_hex bytes)

-- `_exact_keys`
unfoldable pub exact_keys : List String → Json → Checked Fields
unfolding is_subset names
exact_keys expected (obj fs) =
    raise_if (not (is_subset expected (names fs)) || not (is_subset (names fs) expected))
      invalid_request
    >> ok fs
exact_keys expected _ = err invalid_request

-- `_bounded_string`
unfoldable pub bounded_string : ℕ → Bool → Json → Checked String
bounded_string maximum allow_empty (str s) =
    raise_if (ltb maximum (count s) || (not allow_empty && s == "")) invalid_request >> ok s
bounded_string maximum allow_empty _ = err invalid_request

-- `_identifier`, with `ID_PATTERN`
unfoldable pub identifier : Json → Checked String
unfolding bounded_string is_word is_id_char
identifier v = do
  s ← bounded_string 128 false v
  raise_if (not (is_word is_id_char 127 s)) invalid_request
  ok s

-- `value.replace("Z", "+00:00")`
unfoldable pub spell_zone : String → String
spell_zone String.[] = ""
spell_zone (String.◌∷◌ c s) =
    (if nat_beq (code c) 90 then "+00:00" else String.◌∷◌ c "") +s spell_zone s

-- `_timestamp`
unfoldable pub timestamp : Codec → Json → Checked String
unfolding bounded_string spell_zone
timestamp x v = do
  s ← bounded_string 64 false v
  raise_if (elim (x.has_offset (spell_zone s)) [ none ↦ true | some b ↦ not b ]) invalid_request
  ok s

-- `_enum`
unfoldable pub enum : List String → Json → Checked String
unfolding contains
enum allowed (str s) = raise_if (not (contains s allowed)) invalid_request >> ok s
enum allowed _ = err invalid_request

-- The loop of `_scope_list` over its items, which are checked by one of two checks.
unfoldable pub check_items : (Json → Checked String) → Items → Checked (List String)
check_items check nil = ok []
check_items check (cons v vs) = do s ← check v; rest ← check_items check vs; ok (s ∷ rest)

-- `==` on lists of texts
unfoldable pub texts_eq : List String → List String → Bool
texts_eq [] [] = true
texts_eq (s ∷ ss) (t ∷ ts) = s == t && texts_eq ss ts
texts_eq _ _ = false

unfoldable pub is_strict : List String → Bool
unfolding texts_eq sort_texts add_all
is_strict xs = texts_eq xs (sort_texts xs) && nat_beq (length (add_all xs [])) (length xs)

-- `_scope_list`: `memory_types` says which check.
unfoldable pub scope_list : Bool → Json → Checked (List String)
unfolding check_items enum identifier is_strict items_length
scope_list memory_types (arr vs) = do
  raise_if (ltb 8 (items_length vs) || nat_beq (items_length vs) 0) invalid_request
  xs ← check_items (if memory_types then enum ("event" ∷ "revision" ∷ []) else identifier) vs
  raise_if (not (is_strict xs)) invalid_request
  ok xs
scope_list memory_types _ = err invalid_request

-- `_payload_shape`
unfoldable pub payload_shape : List String → List String → Fields → Checked (Unit {0})
unfolding is_subset names
payload_shape required optional fs =
    raise_if
      (not (is_subset required (names fs)) || not (is_subset (names fs) (required ++ optional)))
      invalid_request
