-- ===== src/Node/Payload.antt =====
-- `_validate_payload`: the payload of each operation, and the scope that it asks for
-- (packages/agent-local-node-protocol/ameme_agent_local_node_protocol/protocol.py).
use ameme.Base.{
  string_eq, String, Bool, true, false, List, [], ◌∷◌, ◌==◌, ◌&&◌, not, ltb, length, if◌then◌else◌,
  ok, err, ◌>>=◌, ◌>>◌, raise_if,
}
use ameme.Base.Int.{pos}
use ameme.Base.Sets.{contains}
use ameme.Json.{Json, Fields, obj, bool, int}
use ameme.Json.Access.{names, at_key}
use ameme.Node.Codec.{Codec}
use ameme.Node.Checks.{
  invalid_request, payload_too_large, Checked, canonical_bytes, bounded_string, identifier,
  timestamp, enum, scope_list, payload_shape,
}

-- The spaces and the types of memory that a payload asks for.
abbrev pub Scopes : Type 0
Scopes = List String × List String

abbrev pub evidence_states : List String
evidence_states = "observed" ∷ "user_asserted" ∷ "inferred" ∷ []

abbrev pub fact_states : List String
fact_states = "confirmed" ∷ "user_asserted" ∷ "low_confidence_candidate" ∷ []

abbrev pub both_types : List String
both_types = "event" ∷ "revision" ∷ []

abbrev pub event_types : List String
event_types =
    "activity" ∷ "communication" ∷ "decision" ∷ "result" ∷ "state_change" ∷ "milestone"
    ∷ "experience" ∷ []

-- `return [payload["space"]], [payload["memory_type"]]`, after the checks of the two.
unfoldable pub one_scope : List String → Fields → Checked Scopes
unfolding identifier enum at_key
one_scope types fs = do
  space ← identifier (at_key "space" fs)
  memory_type ← enum types (at_key "memory_type" fs)
  ok (space ∷ [], memory_type ∷ [])

-- `if key in payload: check(payload[key])`
unfoldable pub if_there : String → (Json → Checked String) → Fields → Checked (Unit {0})
unfolding names at_key contains
if_there key check fs = if contains key (names fs) then check (at_key key fs) >> ok tt else ok tt

-- `get_event` and `set_policy_blocked`, which differ in the types they take
unfoldable pub event_payload : List String → Fields → Checked Scopes
unfolding payload_shape identifier one_scope at_key
event_payload types fs = do
  payload_shape ("event_id" ∷ "space" ∷ "memory_type" ∷ []) [] fs
  identifier (at_key "event_id" fs) >> one_scope types fs

module _ (x : Codec) where
  -- `create_event`
  unfoldable pub create_payload : Fields → Checked Scopes
  unfolding payload_shape one_scope bounded_string enum timestamp if_there at_key
  create_payload fs = do
    payload_shape
        ("space" ∷ "memory_type" ∷ "content" ∷ "event_type" ∷ "evidence_state" ∷ "fact_status"
          ∷ "sensitivity" ∷ "data_class" ∷ "now" ∷ [])
        ("event_time" ∷ []) fs
    scopes ← one_scope ("event" ∷ []) fs
    content ← bounded_string 4000 false (at_key "content" fs)
    event_type ← enum event_types (at_key "event_type" fs)
    evidence ← enum evidence_states (at_key "evidence_state" fs)
    fact ← enum fact_states (at_key "fact_status" fs)
    sensitivity ←
        enum ("public" ∷ "personal" ∷ "confidential" ∷ "restricted" ∷ []) (at_key "sensitivity" fs)
    data_class ← enum ("structured" ∷ []) (at_key "data_class" fs)
    now ← timestamp x (at_key "now" fs)
    if_there "event_time" (timestamp x) fs
    ok scopes

  -- `append_revision`
  unfoldable pub append_payload : Fields → Checked Scopes
  unfolding payload_shape identifier one_scope bounded_string enum timestamp at_key
  append_payload fs = do
    payload_shape
        ("event_id" ∷ "space" ∷ "memory_type" ∷ "content" ∷ "evidence_state" ∷ "fact_status" ∷ "now"
          ∷ [])
        [] fs
    event_id ← identifier (at_key "event_id" fs)
    scopes ← one_scope ("revision" ∷ []) fs
    content ← bounded_string 4000 false (at_key "content" fs)
    evidence ← enum evidence_states (at_key "evidence_state" fs)
    fact ← enum fact_states (at_key "fact_status" fs)
    now ← timestamp x (at_key "now" fs)
    ok scopes

  -- `undo_capture`
  unfoldable pub undo_payload : Fields → Checked Scopes
  unfolding payload_shape identifier one_scope timestamp at_key
  undo_payload fs = do
    payload_shape ("undo_token" ∷ "space" ∷ "memory_type" ∷ "now" ∷ []) [] fs
    token ← identifier (at_key "undo_token" fs)
    scopes ← one_scope both_types fs
    now ← timestamp x (at_key "now" fs)
    ok scopes

  abbrev is_bool : Json → Bool
  is_bool (bool b) = true
  is_bool _ = false

  -- `isinstance(limit, int)`, no `bool`, and `1 <= limit <= 100`
  abbrev is_limit : Json → Bool
  is_limit (int (pos n)) = ltb 0 n && ltb n 101
  is_limit _ = false

  -- `visible_events`
  unfoldable pub visible_payload : Fields → Checked Scopes
  unfolding payload_shape scope_list bounded_string timestamp if_there at_key
  visible_payload fs = do
    payload_shape ("spaces" ∷ "memory_types" ∷ "allow_high_risk" ∷ "limit" ∷ [])
        ("query" ∷ "start_at" ∷ "end_at" ∷ []) fs
    spaces ← scope_list false (at_key "spaces" fs)
    memory_types ← scope_list true (at_key "memory_types" fs)
    raise_if (not (is_bool (at_key "allow_high_risk" fs))) invalid_request
    raise_if (not (is_limit (at_key "limit" fs))) invalid_request
    if_there "query" (bounded_string 1000 true) fs
    if_there "start_at" (timestamp x) fs
    if_there "end_at" (timestamp x) fs
    ok (spaces, memory_types)

  -- The operations, by name.
  unfoldable pub operation_payload : String → Fields → Checked Scopes
  unfolding event_payload create_payload append_payload undo_payload visible_payload
  operation_payload operation fs =
      if operation == "get_event"
      then event_payload both_types fs
      else if operation == "create_event"
      then create_payload fs
      else if operation == "append_revision"
      then append_payload fs
      else if operation == "undo_capture"
      then undo_payload fs
      else if operation == "visible_events"
      then visible_payload fs
      else if operation == "set_policy_blocked"
      then event_payload ("event" ∷ []) fs
      else err invalid_request

  -- `_validate_payload`
  unfoldable pub validate_payload : String → Json → Checked Scopes
  unfolding canonical_bytes operation_payload
  validate_payload operation (obj fs) = do
    bytes ← canonical_bytes x (obj fs)
    raise_if (ltb 32768 (length bytes)) payload_too_large
    operation_payload operation fs
  validate_payload operation _ = err invalid_request
