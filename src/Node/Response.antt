-- ===== src/Node/Response.antt =====
-- `validate_response`
-- (packages/agent-local-node-protocol/ameme_agent_local_node_protocol/protocol.py).
use ameme.Base.{◌++◌}
use ameme.Base.{
  string_eq, String, Bool, true, false, Option, none, some, List, [], ◌∷◌, ◌==◌, ◌||◌, not, ltb,
  length, if◌then◌else◌, ok, err, ◌>>=◌, ◌>>◌, raise_if,
}
use ameme.Base.Sets.{contains}
use ameme.Json.{Json, Fields, obj, null, bool, str}
use ameme.Json.Access.{at_key, is_text, json_eq}
use ameme.Node.Codec.{Codec}
use ameme.Node.Checks.{
  schema_unsupported, invalid_request, payload_too_large, result_digest_mismatch,
  response_request_mismatch, Checked, canonical_bytes, digest_json, exact_keys, identifier, enum,
}
use ameme.Node.Request.{protocol_version}

-- `RESPONSE_KEYS`
abbrev pub response_keys : List String
response_keys =
    "protocol_version" ∷ "request_id" ∷ "status" ∷ "result" ∷ "result_digest" ∷ "error" ∷ []

-- `ERROR_RETRYABLE`; its keys are `ERROR_CODES`.
abbrev pub final_codes : List String
final_codes =
    "AUTH_REQUIRED" ∷ "GRANT_REVOKED" ∷ "GRANT_EXPIRED" ∷ "PURPOSE_DENIED" ∷ "SPACE_DENIED"
    ∷ "DATA_TYPE_DENIED" ∷ "SCHEMA_UNSUPPORTED" ∷ "INVALID_REQUEST" ∷ "PAYLOAD_TOO_LARGE"
    ∷ "PAYLOAD_DIGEST_MISMATCH" ∷ "RESULT_DIGEST_MISMATCH" ∷ "SCOPE_MISMATCH" ∷ "NOT_VISIBLE"
    ∷ "OPERATION_UNSUPPORTED" ∷ "REVISION_CONFLICT" ∷ "IDEMPOTENCY_CONFLICT"
    ∷ "RESPONSE_REQUEST_MISMATCH" ∷ []

abbrev pub retryable_codes : List String
retryable_codes = "TEMPORARILY_UNAVAILABLE" ∷ "INTERNAL_ERROR" ∷ []

-- What a response that was validated says.
pub data Reply : Type 0 where
  result : Fields → Reply
  failure : String → Bool → Reply

abbrev pub is_null : Json → Bool
is_null null = true
is_null _ = false

-- The branch of `status == "ok"`
unfoldable pub ok_reply : Codec → Fields → Checked Reply
unfolding digest_json at_key json_eq
ok_reply x fs = elim (at_key "result" fs) [
  | obj r ↦ do
    raise_if (not (is_null (at_key "error" fs))) invalid_request
    expected ← digest_json x (obj r)
    raise_if (not (is_text expected (at_key "result_digest" fs))) result_digest_mismatch
    ok (result r)
  | _ ↦ err invalid_request
]

-- `error["retryable"]` against `ERROR_RETRYABLE[code]`
unfoldable pub check_retryable : String → Json → Checked Reply
unfolding contains
check_retryable code (bool b) =
    if contains code retryable_codes
    then if b then ok (failure code b) else err invalid_request
    else if b
    then err invalid_request
    else ok (failure code b)
check_retryable code _ = err invalid_request

-- The branch of `status == "error"`
unfoldable pub error_reply : Fields → Checked Reply
unfolding exact_keys enum check_retryable at_key
error_reply fs = do
  raise_if (not (is_null (at_key "result" fs)) || not (is_null (at_key "result_digest" fs)))
      invalid_request
  error ← exact_keys ("code" ∷ "retryable" ∷ []) (at_key "error" fs)
  code ← enum (final_codes ++ retryable_codes) (at_key "code" error)
  check_retryable code (at_key "retryable" error)

-- `request is not None and response["request_id"] != request.get("request_id")`
abbrev pub answers_other : String → Option Json → Bool
answers_other id none = false
answers_other id (some requested) = not (json_eq (str id) requested)

-- `validate_response`; of the request only its `request_id` is read. The document is returned with its reply.
unfoldable pub validate_response : Codec → Option Json → Json → Checked (Json × Reply)
unfolding exact_keys identifier enum ok_reply error_reply canonical_bytes at_key
validate_response x requested response = do
  fs ← exact_keys response_keys response
  raise_if (not (is_text protocol_version (at_key "protocol_version" fs))) schema_unsupported
  id ← identifier (at_key "request_id" fs)
  raise_if (answers_other id requested) response_request_mismatch
  status ← enum ("ok" ∷ "error" ∷ []) (at_key "status" fs)
  reply ← if status == "ok" then ok_reply x fs else error_reply fs
  bytes ← canonical_bytes x response
  raise_if (ltb 524288 (length bytes)) payload_too_large
  ok (response, reply)
