-- ===== src/Node/Lines.antt =====
-- The lines of the protocol: `_parse_line` to `parse_response_line`
-- (packages/agent-local-node-protocol/ameme_agent_local_node_protocol/protocol.py).
pub mod Accepted
use ameme.Base.{
  ℕ, String, Bool, true, false, Option, none, some, List, [], ◌∷◌, ◌&&◌, ◌||◌, not, ltb, nat_beq,
  length, is_empty, if◌then◌else◌, Outcome, ok, err, ◌>>=◌, ◌>>◌, raise_if, string_eq,
}
use ameme.Base.Sets.{contains}
use ameme.Base.Bytes.{Bytes, starts_with, has_byte, count_byte, ends_with, drop_last}
use ameme.Json.{Json, Items, Fields, null, bool, int, real, str, arr, obj, nil, cons, end, field}
use ameme.Json.Access.{names}
use ameme.Node.Codec.{Codec}
use ameme.Node.Checks.{Violation, invalid_request, payload_too_large, Checked, canonical_bytes}
use ameme.Node.Request.{Request, validate_request}
use ameme.Node.Response.{Reply, validate_response}

-- `_reject_duplicate_keys`, at every object of a value
unfoldable mutual
  unfolding contains names

  pub is_unambiguous : Json → Bool
  is_unambiguous (arr xs) = are_unambiguous xs
  is_unambiguous (obj fs) = have_unambiguous fs
  is_unambiguous null = true
  is_unambiguous (bool b) = true
  is_unambiguous (int n) = true
  is_unambiguous (real s) = true
  is_unambiguous (str s) = true

  pub are_unambiguous : Items → Bool
  are_unambiguous nil = true
  are_unambiguous (cons v vs) = is_unambiguous v && are_unambiguous vs

  pub have_unambiguous : Fields → Bool
  have_unambiguous end = true
  have_unambiguous (field k v fs) =
      not (contains k (names fs)) && is_unambiguous v && have_unambiguous fs

-- The guards of `_parse_line`: the length, the byte order mark and NUL, the newline.
unfoldable pub check_line : ℕ → Bytes → Checked (Unit {0})
check_line maximum line = do
  raise_if (is_empty line || ltb maximum (length line)) payload_too_large
  raise_if (starts_with (239 ∷ 187 ∷ 191 ∷ []) line || has_byte 0 line) invalid_request
  raise_if (ltb 1 (count_byte 10 line) || (has_byte 10 line && not (ends_with 10 line)))
      invalid_request

-- What `loads` gives none for is taken for a decoding error. `json.loads` raises a plain `ValueError`, which the code
-- does not catch, for an integer of more than 4300 digits; that is not told apart.
abbrev pub accept_value : Option Json → Checked Json
accept_value none = err invalid_request
accept_value (some v) = if is_unambiguous v then ok v else err invalid_request

module _ (x : Codec) where
  -- `_parse_line`
  unfoldable pub parse_line : ℕ → Bytes → Checked Json
  unfolding check_line is_unambiguous
  parse_line maximum line = do
    check_line maximum line
    accept_value (x.loads (if ends_with 10 line then drop_last line else line))

  -- `parse_strict_json_line`
  unfoldable pub parse_strict_json_line : ℕ → Bytes → Checked Json
  unfolding parse_line canonical_bytes
  parse_strict_json_line maximum line = do
    value ← parse_line maximum line
    bytes ← canonical_bytes x value
    ok value

  -- `parse_request_line`
  unfoldable pub parse_request_line : Bytes → Checked Request
  unfolding parse_strict_json_line validate_request
  parse_request_line line = do value ← parse_strict_json_line 65536 line; validate_request x value

  -- `parse_response_line`
  unfoldable pub parse_response_line : Option Json → Bytes → Checked (Json × Reply)
  unfolding parse_strict_json_line validate_response
  parse_response_line requested line = do
    value ← parse_strict_json_line 524288 line
    validate_response x requested value
