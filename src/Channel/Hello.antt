-- ===== src/Channel/Hello.antt =====
-- The two greetings and the key of a session: `build_client_hello` to `derive_session_key`
-- (packages/agent-local-node-protocol/ameme_agent_local_node_protocol/channel.py).
use ameme.Base.{
  string_eq, String, Bool, List, [], ◌∷◌, ◌++◌, ◌&&◌, ◌||◌, not, ok, ◌>>=◌, ◌>>◌, raise_if,
}
use ameme.Base.Int.{pos}
use ameme.Base.Sets.{add_all}
use ameme.Base.Sorting.{sort_texts}
use ameme.Base.Bytes.{Bytes}
use ameme.Json.{Json, Fields, int, str, arr, obj, end, field}
use ameme.Json.Access.{at_key, is_text, json_eq}
use ameme.Node.Codec.{Codec}
use ameme.Node.Checks.{canonical_bytes}
use ameme.Node.Lines.{parse_strict_json_line}
use ameme.Node.Ledger.{texts}
use ameme.Channel.Secrets.{Secrets}
use ameme.Channel.Checks.{
  invalid_channel_message, channel_binding_failed, channel, Safe, recode, let_through, exact,
  channel_identifier, nonce_text, operation_list, secret_key, verify_proof, sealed,
}
use ameme.Channel.Pairing.{channel_version, Pairing, validate_pairing}

-- `CLIENT_HELLO_KEYS`, `SERVER_HELLO_KEYS`
abbrev pub client_hello_keys : List String
client_hello_keys =
    "channel_protocol" ∷ "message_type" ∷ "pairing_id" ∷ "expected_device_id"
    ∷ "session_binding_ref" ∷ "tls_certificate_sha256" ∷ "client_nonce" ∷ "sequence" ∷ "proof" ∷ []

abbrev pub server_hello_keys : List String
server_hello_keys =
    "channel_protocol" ∷ "message_type" ∷ "pairing_id" ∷ "device_id" ∷ "session_binding_ref"
    ∷ "tls_certificate_sha256" ∷ "client_nonce" ∷ "server_nonce" ∷ "session_id"
    ∷ "supported_operations" ∷ "sequence" ∷ "proof" ∷ []

abbrev pub zero_number : Json
zero_number = int (pos 0)

-- The document of the client's greeting, without its proof.
unfoldable pub client_document : Pairing → String → Fields
client_document q nonce = field "channel_protocol" (str channel_version) (
    field "message_type" (str "client_hello") (
      field "pairing_id" (str q.pairing_id) (
        field "expected_device_id" (str q.expected_device_id) (
          field "session_binding_ref" (str q.session_binding_ref) (
            field "tls_certificate_sha256" (str q.tls_certificate_sha256)
              (field "client_nonce" (str nonce) (field "sequence" zero_number end)))))))

-- What both greetings share with the pairing; `device_key` is the key of the device's id.
unfoldable pub is_bound_to : Pairing → String → String → Fields → Bool
unfolding at_key json_eq
is_bound_to q message_type device_key fs =
    is_text channel_version (at_key "channel_protocol" fs)
    && is_text message_type (at_key "message_type" fs)
    && is_text q.pairing_id (at_key "pairing_id" fs)
    && is_text q.expected_device_id (at_key device_key fs)
    && is_text q.session_binding_ref (at_key "session_binding_ref" fs)
    && is_text q.tls_certificate_sha256 (at_key "tls_certificate_sha256" fs)
    && json_eq (at_key "sequence" fs) zero_number

-- The document of the server's greeting, without its proof.
unfoldable pub server_document : Pairing → String → String → String → List String → Fields
server_document q client_nonce server_nonce session_id operations =
    field "channel_protocol" (str channel_version) (
      field "message_type" (str "server_hello") (
        field "pairing_id" (str q.pairing_id) (
          field "device_id" (str q.expected_device_id) (
            field "session_binding_ref" (str q.session_binding_ref) (
              field "tls_certificate_sha256" (str q.tls_certificate_sha256) (
                field "client_nonce" (str client_nonce) (
                  field "server_nonce" (str server_nonce) (
                    field "session_id" (str session_id) (
                      field "supported_operations" (arr (texts operations))
                        (field "sequence" zero_number end))))))))))

-- The document that the session's key is derived from.
unfoldable pub session_material : Fields → Fields → Json
unfolding at_key
session_material client_hello server_hello = obj (
    field "channel_protocol" (str channel_version) (
      field "pairing_id" (at_key "pairing_id" server_hello) (
        field "device_id" (at_key "device_id" server_hello) (
          field "session_binding_ref" (at_key "session_binding_ref" server_hello) (
            field "tls_certificate_sha256" (at_key "tls_certificate_sha256" server_hello) (
              field "client_nonce" (at_key "client_nonce" client_hello) (
                field "server_nonce" (at_key "server_nonce" server_hello)
                  (field "session_id" (at_key "session_id" server_hello) end))))))))

module _ (x : Codec) (y : Secrets) where
  -- `build_client_hello`
  unfoldable pub build_client_hello : Json → Bytes → Json → Safe Bytes
  unfolding validate_pairing secret_key nonce_text sealed client_document
  build_client_hello pairing secret client_nonce = do
    q ← validate_pairing x y pairing
    key ← secret_key secret
    nonce ← nonce_text client_nonce
    sealed x y key "client-hello" (client_document q nonce)

  -- `verify_client_hello`
  unfoldable pub verify_client_hello : Bytes → Json → Bytes → Safe Fields
  unfolding validate_pairing secret_key parse_strict_json_line exact is_bound_to nonce_text
      verify_proof at_key
  verify_client_hello line pairing secret = do
    q ← validate_pairing x y pairing
    key ← secret_key secret
    value ← recode invalid_channel_message (parse_strict_json_line x 786432 line)
    document ← exact client_hello_keys value
    raise_if (not (is_bound_to q "client_hello" "expected_device_id" document))
        (channel channel_binding_failed)
    nonce ← nonce_text (at_key "client_nonce" document)
    verify_proof x y key "client-hello" document
    ok document

  -- `build_server_hello`; the operations are texts, so the code's `TypeError` does not arise.
  unfoldable pub build_server_hello : Fields → Json → Bytes → Json → Json → List String → Safe Bytes
  unfolding validate_pairing secret_key operation_list sort_texts add_all nonce_text
      channel_identifier server_document sealed at_key
  build_server_hello client_hello pairing secret server_nonce session_id supported = do
    q ← validate_pairing x y pairing
    key ← secret_key secret
    operations ← operation_list (arr (texts (sort_texts (add_all supported []))))
    client_nonce ← nonce_text (at_key "client_nonce" client_hello)
    nonce ← nonce_text server_nonce
    session ← channel_identifier session_id
    sealed x y key "server-hello" (server_document q client_nonce nonce session operations)

  -- `verify_server_hello`
  unfoldable pub verify_server_hello : Bytes → Fields → Json → Bytes → Safe Fields
  unfolding validate_pairing secret_key parse_strict_json_line exact is_bound_to json_eq
      operation_list nonce_text channel_identifier verify_proof at_key
  verify_server_hello line client_hello pairing secret = do
    q ← validate_pairing x y pairing
    key ← secret_key secret
    value ← recode invalid_channel_message (parse_strict_json_line x 786432 line)
    document ← exact server_hello_keys value
    raise_if
        (not (is_bound_to q "server_hello" "device_id" document)
          || not (json_eq (at_key "client_nonce" document) (at_key "client_nonce" client_hello)))
        (channel channel_binding_failed)
    operations ← operation_list (at_key "supported_operations" document)
    nonce ← nonce_text (at_key "server_nonce" document)
    session ← channel_identifier (at_key "session_id" document)
    verify_proof x y key "server-hello" document
    ok document

  -- `derive_session_key`, of greetings that have the keys that it reads
  unfoldable pub derive_session_key : Fields → Fields → Bytes → Safe Bytes
  unfolding secret_key session_material canonical_bytes
  derive_session_key client_hello server_hello secret = do
    key ← secret_key secret
    material ← let_through (canonical_bytes x (session_material client_hello server_hello))
    ok (y.hmac_digest key (x.encode "session-key" ++ 0 ∷ material))
