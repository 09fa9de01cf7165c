-- ===== src/Channel/Frames.antt =====
-- The frames of requests and responses: `_application_bytes` to `parse_response_frame`
-- (packages/agent-local-node-protocol/ameme_agent_local_node_protocol/channel.py).
pub mod Parts
pub mod Fresh
pub mod Sealed
use ameme.Base.{
  string_eq, nat_eq, ℕ, String, Bool, true, false, Option, none, some, List, [], ◌∷◌, ◌==◌, ◌&&◌,
  ◌||◌, not, ltb, length, is_empty, if◌then◌else◌, Outcome, ok, err, ◌>>=◌, ◌>>◌, raise_if,
}
use ameme.Base.Int.{ℤ, pos, negsuc}
use ameme.Base.Sets.{contains, add}
use ameme.Base.Bytes.{Bytes}
use ameme.Json.{Json, Fields, int, str, end, field}
use ameme.Json.Access.{at_key, is_text, json_eq}
use ameme.Node.Codec.{Codec}
use ameme.Node.Request.{Request, Control, protocol_version}
use ameme.Node.Response.{Reply}
use ameme.Node.Lines.{parse_strict_json_line, parse_request_line, parse_response_line}
use ameme.Channel.Secrets.{Secrets}
use ameme.Channel.Checks.{
  ChannelCode, invalid_channel_message, channel_binding_failed, channel_sequence_invalid,
  channel_replay, channel_payload_invalid, ChannelError, channel, Safe, recode, exact,
  channel_identifier, nonce_text, digest_text, idempotency_ref, sequence_number, secret_key,
  sha256_bytes, verify_proof, sealed,
}
use ameme.Channel.Pairing.{channel_version}

-- `REQUEST_FRAME_KEYS`, `RESPONSE_FRAME_KEYS`
abbrev pub request_frame_keys : List String
request_frame_keys =
    "channel_protocol" ∷ "message_type" ∷ "session_id" ∷ "sequence" ∷ "nonce" ∷ "idempotency_ref"
    ∷ "application_protocol" ∷ "application_digest" ∷ "application_b64" ∷ "proof" ∷ []

abbrev pub response_frame_keys : List String
response_frame_keys =
    "channel_protocol" ∷ "message_type" ∷ "session_id" ∷ "sequence" ∷ "request_nonce" ∷ "nonce"
    ∷ "idempotency_ref" ∷ "application_protocol" ∷ "application_digest" ∷ "application_b64"
    ∷ "proof" ∷ []

-- `_application_bytes`
unfoldable pub application_bytes : ℕ → Bytes → Safe Bytes
application_bytes maximum b =
    if is_empty b || ltb maximum (length b) then err (channel channel_payload_invalid) else ok b

-- `_decoded_application`
abbrev pub decoded : ℕ → Option Bytes → Safe Bytes
unfolding application_bytes
decoded maximum none = err (channel channel_payload_invalid)
decoded maximum (some b) = application_bytes maximum b

unfoldable pub decoded_application : Secrets → ℕ → Json → Safe Bytes
unfolding application_bytes
decoded_application y maximum (str s) = decoded maximum (y.b64decode s)
decoded_application y maximum _ = err (channel channel_payload_invalid)

-- The document of a request frame, without its proof.
unfoldable pub request_document : String → ℕ → String → String → String → String → Fields
request_document session_id sequence nonce slot digest body =
    field "channel_protocol" (str channel_version) (
      field "message_type" (str "request") (
        field "session_id" (str session_id) (
          field "sequence" (int (pos sequence)) (
            field "nonce" (str nonce) (
              field "idempotency_ref" (str slot) (
                field "application_protocol" (str protocol_version) (
                  field "application_digest" (str digest)
                    (field "application_b64" (str body) end))))))))

unfoldable pub response_document : String → ℕ → String → String → String → String → String → Fields
response_document session_id sequence request_nonce nonce slot digest body =
    field "channel_protocol" (str channel_version) (
      field "message_type" (str "response") (
        field "session_id" (str session_id) (
          field "sequence" (int (pos sequence)) (
            field "request_nonce" (str request_nonce) (
              field "nonce" (str nonce) (
                field "idempotency_ref" (str slot) (
                  field "application_protocol" (str protocol_version) (
                    field "application_digest" (str digest)
                      (field "application_b64" (str body) end)))))))))

-- What both frames have whatever the session.
unfoldable pub is_framed : String → Fields → Bool
unfolding at_key
is_framed message_type fs =
    is_text channel_version (at_key "channel_protocol" fs)
    && is_text message_type (at_key "message_type" fs)
    && is_text protocol_version (at_key "application_protocol" fs)

-- A frame that was taken: its document, the bytes of the application and what they say, and the nonces seen.
pub record Taken (A : Type 0) : Type 0 where
  pub document : Fields
  pub application : Bytes
  pub message : A
  pub seen_nonces : List String

module _ (x : Codec) (y : Secrets) where
  -- `build_request_frame`
  unfoldable pub build_request_frame : Bytes → Bytes → Json → Json → Json → Safe Bytes
  unfolding application_bytes parse_request_line channel_identifier sequence_number nonce_text
      idempotency_ref secret_key sha256_bytes request_document sealed
  build_request_frame line session_key session_id sequence nonce = do
    application ← application_bytes 65536 line
    request ← recode channel_payload_invalid (parse_request_line x application)
    session ← channel_identifier session_id
    number ← sequence_number sequence
    nonce' ← nonce_text nonce
    slot ← idempotency_ref (str request.control.idempotency_slot)
    key ← secret_key session_key
    sealed x y key "request-frame" (
        request_document session number nonce' slot (sha256_bytes x y application)
          (y.b64encode application))

  -- The application of a frame: decoded, with the digest that the frame gives.
  unfoldable pub frame_application : ℕ → Fields → Safe Bytes
  unfolding decoded_application digest_text sha256_bytes at_key
  frame_application maximum document = do
    application ← decoded_application y maximum (at_key "application_b64" document)
    digest ← digest_text (at_key "application_digest" document)
    raise_if (not (digest == sha256_bytes x y application)) (channel channel_payload_invalid)
    ok application

  -- `parse_request_frame`
  unfoldable pub parse_request_frame :
      Bytes → Bytes → String → ℕ → List String → Safe (Taken Request)
  unfolding parse_strict_json_line exact is_framed sequence_number nonce_text secret_key
      verify_proof frame_application parse_request_line idempotency_ref contains add at_key
  parse_request_frame line session_key session_id expected seen = do
    value ← recode invalid_channel_message (parse_strict_json_line x 786432 line)
    document ← exact request_frame_keys value
    raise_if
        (not (is_framed "request" document)
          || not (is_text session_id (at_key "session_id" document)))
        (channel channel_binding_failed)
    number ← sequence_number (at_key "sequence" document)
    raise_if (not (number == expected)) (channel channel_sequence_invalid)
    nonce ← nonce_text (at_key "nonce" document)
    raise_if (contains nonce seen) (channel channel_replay)
    key ← secret_key session_key
    verify_proof x y key "request-frame" document
    application ← frame_application 65536 document
    request ← recode channel_payload_invalid (parse_request_line x application)
    slot ← idempotency_ref (at_key "idempotency_ref" document)
    raise_if (not (slot == request.control.idempotency_slot)) (channel channel_binding_failed)
    ok (record {
      document = document;
      application = application;
      message = request;
      seen_nonces = add nonce seen;
    })

  -- `build_response_frame`, for a request frame that was taken
  unfoldable pub build_response_frame : Bytes → Fields → Bytes → Json → Safe Bytes
  unfolding application_bytes parse_strict_json_line channel_identifier sequence_number nonce_text
      idempotency_ref secret_key sha256_bytes response_document sealed at_key
  build_response_frame line request_frame session_key nonce = do
    application ← application_bytes 524288 line
    value ← recode channel_payload_invalid (parse_strict_json_line x 524288 application)
    session ← channel_identifier (at_key "session_id" request_frame)
    number ← sequence_number (at_key "sequence" request_frame)
    request_nonce ← nonce_text (at_key "nonce" request_frame)
    nonce' ← nonce_text nonce
    slot ← idempotency_ref (at_key "idempotency_ref" request_frame)
    key ← secret_key session_key
    sealed x y key "response-frame" (
        response_document session number request_nonce nonce' slot (sha256_bytes x y application)
          (y.b64encode application))

  -- The response frame names the request frame.
  unfoldable pub answers : Fields → Fields → Bool
  unfolding json_eq at_key
  answers request_frame document =
      json_eq (at_key "session_id" document) (at_key "session_id" request_frame)
      && json_eq (at_key "sequence" document) (at_key "sequence" request_frame)
      && json_eq (at_key "request_nonce" document) (at_key "nonce" request_frame)
      && json_eq (at_key "idempotency_ref" document) (at_key "idempotency_ref" request_frame)

  -- `parse_response_frame`; of the application's request only its `request_id` is read.
  unfoldable pub parse_response_frame :
      Bytes → Bytes → Fields → Json → List String → Safe (Taken (Json × Reply))
  unfolding parse_strict_json_line exact is_framed answers sequence_number idempotency_ref
      nonce_text secret_key verify_proof frame_application parse_response_line contains add at_key
  parse_response_frame line session_key request_frame request_id seen = do
    value ← recode invalid_channel_message (parse_strict_json_line x 786432 line)
    document ← exact response_frame_keys value
    raise_if (not (is_framed "response" document) || not (answers request_frame document))
        (channel channel_binding_failed)
    number ← sequence_number (at_key "sequence" document)
    slot ← idempotency_ref (at_key "idempotency_ref" document)
    nonce ← nonce_text (at_key "nonce" document)
    raise_if (is_text nonce (at_key "nonce" request_frame) || contains nonce seen)
        (channel channel_replay)
    key ← secret_key session_key
    verify_proof x y key "response-frame" document
    application ← frame_application 524288 document
    response ← recode channel_payload_invalid (parse_response_line x (some request_id) application)
    ok (record {
      document = document;
      application = application;
      message = response;
      seen_nonces = add nonce seen;
    })
