-- ===== src/Node/Request.antt =====
-- `validate_request` and `authorize_request`
-- (packages/agent-local-node-protocol/ameme_agent_local_node_protocol/protocol.py).
pub mod Scope
pub mod Authorized
use ameme.Base.{
  string_eq, ℕ, String, Bool, true, false, List, [], ◌∷◌, ◌==◌, ◌&&◌, ◌||◌, not, ltb, length,
  if◌then◌else◌, Outcome, ok, err, ◌>>=◌, ◌>>◌, raise_if,
}
use ameme.Base.Sets.{contains, is_subset}
use ameme.Base.Text.{has_prefix}
use ameme.Base.Patterns.{is_run, is_hex, drop_text}
use ameme.Json.{Json, Fields}
use ameme.Json.Access.{at_key, is_text}
use ameme.Node.Codec.{Codec}
use ameme.Node.Checks.{
  Violation, auth_required, grant_revoked, grant_expired, purpose_denied, space_denied,
  data_type_denied, schema_unsupported, invalid_request, payload_too_large, payload_digest_mismatch,
  scope_mismatch, Checked, canonical_bytes, digest_json, exact_keys, bounded_string, identifier,
  enum, texts_eq, scope_list,
}
use ameme.Node.Payload.{Scopes, validate_payload}

abbrev pub protocol_version : String
protocol_version = "ameme.agent-local-node.v1"

-- `OPERATIONS`
abbrev pub operations : List String
operations =
    "get_event" ∷ "create_event" ∷ "append_revision" ∷ "undo_capture" ∷ "visible_events"
    ∷ "set_policy_blocked" ∷ []

-- `REQUEST_KEYS`, `CONTROL_KEYS`
abbrev pub request_keys : List String
request_keys = "protocol_version" ∷ "request_id" ∷ "control" ∷ "payload" ∷ []

abbrev pub control_keys : List String
control_keys =
    "caller_id" ∷ "grant_id" ∷ "purpose" ∷ "spaces" ∷ "memory_types" ∷ "operation"
    ∷ "idempotency_slot" ∷ "payload_digest" ∷ []

-- The control part of a request, read once it is checked.
pub record Control : Type 0 where
  pub caller_id : String
  pub grant_id : String
  pub purpose : String
  pub spaces : List String
  pub memory_types : List String
  pub operation : String
  pub idempotency_slot : String
  pub payload_digest : String

-- A request that was validated: the document itself and what is read of it later.
pub record Request : Type 0 where
  pub document : Json
  pub request_id : String
  pub control : Control
  pub payload : Json

-- A text of a prefix and 64 hexadecimal digits, of at most `maximum` characters.
unfoldable pub tagged_hex : ℕ → ℕ → String → Json → Checked String
unfolding bounded_string has_prefix is_run is_hex drop_text
tagged_hex maximum width prefix v = do
  s ← bounded_string maximum false v
  raise_if (not (has_prefix prefix s) || not (is_run is_hex 64 (drop_text width s))) invalid_request
  ok s

-- The checks of `validate_request` on `request["control"]`
unfoldable pub validate_control : Json → Checked Control
unfolding exact_keys identifier scope_list enum tagged_hex at_key
validate_control v = do
  control ← exact_keys control_keys v
  caller_id ← identifier (at_key "caller_id" control)
  grant_id ← identifier (at_key "grant_id" control)
  purpose ← identifier (at_key "purpose" control)
  spaces ← scope_list false (at_key "spaces" control)
  memory_types ← scope_list true (at_key "memory_types" control)
  operation ← enum operations (at_key "operation" control)
  slot ← tagged_hex 69 5 "idem_" (at_key "idempotency_slot" control)
  payload_digest ← tagged_hex 71 7 "sha256_" (at_key "payload_digest" control)
  ok (record {
    caller_id = caller_id;
    grant_id = grant_id;
    purpose = purpose;
    spaces = spaces;
    memory_types = memory_types;
    operation = operation;
    idempotency_slot = slot;
    payload_digest = payload_digest;
  })

module _ (x : Codec) where
  -- The rest of `validate_request`: the control part against the payload, and the size.
  unfoldable pub validate_binding : Json → Control → Json → Checked (Unit {0})
  unfolding validate_payload texts_eq digest_json canonical_bytes
  validate_binding request control payload = do
    asked ← validate_payload x control.operation payload
    raise_if (not (texts_eq control.spaces asked.0) || not (texts_eq control.memory_types asked.1))
        scope_mismatch
    digest ← digest_json x payload
    raise_if (not (control.payload_digest == digest)) payload_digest_mismatch
    bytes ← canonical_bytes x request
    raise_if (ltb 65536 (length bytes)) payload_too_large

  -- `validate_request`
  unfoldable pub validate_request : Json → Checked Request
  unfolding exact_keys identifier validate_control validate_binding at_key
  validate_request request = do
    fs ← exact_keys request_keys request
    raise_if (not (is_text protocol_version (at_key "protocol_version" fs))) schema_unsupported
    request_id ← identifier (at_key "request_id" fs)
    control ← validate_control (at_key "control" fs)
    validate_binding request control (at_key "payload" fs)
    ok (record {
      document = request;
      request_id = request_id;
      control = control;
      payload = at_key "payload" fs;
    })

abbrev pub grant_keys : List String
grant_keys = "caller_id" ∷ "grant_id" ∷ "purposes" ∷ "spaces" ∷ "memory_types" ∷ "state" ∷ []

abbrev pub grant_states : List String
grant_states = "active" ∷ "revoked" ∷ "expired" ∷ []

-- The state of a grant: `if state == "revoked"`, `if state == "expired"`
unfoldable pub require_active : String → Checked (Unit {0})
require_active state =
    if state == "revoked"
    then err grant_revoked
    else if state == "expired"
    then err grant_expired
    else ok tt

-- `authorize_request` on a request that was validated
unfoldable pub authorize : Control → Json → Checked (Unit {0})
unfolding exact_keys enum scope_list at_key require_active contains is_subset
authorize control v = do
  grant ← exact_keys grant_keys v
  raise_if
      (not (is_text control.caller_id (at_key "caller_id" grant))
        || not (is_text control.grant_id (at_key "grant_id" grant)))
      auth_required
  state ← enum grant_states (at_key "state" grant)
  require_active state
  purposes ← scope_list false (at_key "purposes" grant)
  spaces ← scope_list false (at_key "spaces" grant)
  memory_types ← scope_list true (at_key "memory_types" grant)
  raise_if (not (contains control.purpose purposes)) purpose_denied
  raise_if (not (is_subset control.spaces spaces)) space_denied
  raise_if (not (is_subset control.memory_types memory_types)) data_type_denied

-- `authorize_request`
unfoldable pub authorize_request : Codec → Json → Json → Checked Request
unfolding validate_request authorize
authorize_request x request grant = do
  validated ← validate_request x request
  authorize validated.control grant
  ok validated
