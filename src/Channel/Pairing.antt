-- ===== src/Channel/Pairing.antt =====
-- The pairing material: `validate_pairing_material` and `parse_pairing_material`
-- (packages/agent-local-node-protocol/ameme_agent_local_node_protocol/channel.py).
use ameme.Base.{
  string_eq, String, Bool, false, Option, none, some, List, [], ◌∷◌, ◌==◌, ◌&&◌, ◌||◌, not, leb,
  count, ok, ◌>>=◌, ◌>>◌, raise_if,
}
use ameme.Base.Int.{pos}
use ameme.Base.Patterns.{is_alnum, is_host_char, all_chars}
use ameme.Base.Bytes.{Bytes}
use ameme.Json.{Json, int}
use ameme.Json.Access.{at_key, is_text}
use ameme.Node.Codec.{Codec}
use ameme.Node.Lines.{parse_strict_json_line}
use ameme.Channel.Secrets.{Secrets}
use ameme.Channel.Checks.{
  invalid_channel_message, channel, Safe, recode, text_where, exact, channel_identifier, reference,
  digest_text,
}

abbrev pub channel_version : String
channel_version = "ameme.agent-local-node.channel.v1"

-- `PAIRING_KEYS`
abbrev pub pairing_keys : List String
pairing_keys =
    "channel_protocol" ∷ "endpoint_ref" ∷ "credential_ref" ∷ "expected_device_id"
    ∷ "session_binding_ref" ∷ "pairing_id" ∷ "host" ∷ "port" ∷ "tls_certificate_sha256" ∷ []

-- Pairing material that was validated, as far as later code reads it.
pub record Pairing : Type 0 where
  pub document : Json
  pub expected_device_id : String
  pub session_binding_ref : String
  pub pairing_id : String
  pub tls_certificate_sha256 : String

-- The last character is of `[A-Za-z0-9]`.
unfoldable pub ends_alnum : String → Bool
unfolding is_alnum
ends_alnum String.[] = false
ends_alnum (String.◌∷◌ c String.[]) = is_alnum c
ends_alnum (String.◌∷◌ c (String.◌∷◌ d s)) = ends_alnum (String.◌∷◌ d s)

-- `HOST_PATTERN`, as the whole text
unfoldable pub is_host : String → Bool
unfolding is_alnum all_chars is_host_char ends_alnum
is_host String.[] = false
is_host (String.◌∷◌ c s) =
    is_alnum c && (s == "" || (leb (count s) 252 && all_chars is_host_char s && ends_alnum s))

-- `ipaddress.ip_address(host)` and what follows from it
abbrev pub host_allowed : Option Bool → String → Bool
host_allowed none host = is_host host
host_allowed (some unspecified) host = not unspecified

-- `1 <= port <= 65_535`, and no `bool`
abbrev pub is_port : Json → Bool
is_port (int (pos n)) = leb 1 n && leb n 65535
is_port _ = false

module _ (x : Codec) (y : Secrets) where
  -- `validate_pairing_material`
  unfoldable pub validate_pairing : Json → Safe Pairing
  unfolding exact reference channel_identifier digest_text is_host at_key
  validate_pairing v = do
    fs ← exact pairing_keys v
    raise_if (not (is_text channel_version (at_key "channel_protocol" fs)))
        (channel invalid_channel_message)
    endpoint ← reference "endpoint-ref:" (at_key "endpoint_ref" fs)
    credential ← reference "credential-ref:" (at_key "credential_ref" fs)
    device ← channel_identifier (at_key "expected_device_id" fs)
    session ← reference "session-binding-ref:" (at_key "session_binding_ref" fs)
    pairing_id ← channel_identifier (at_key "pairing_id" fs)
    host ←
        text_where invalid_channel_message
          (λ s. not (s == "") && leb (count s) 253 && host_allowed (y.is_unspecified s) s)
          (at_key "host" fs)
    raise_if (not (is_port (at_key "port" fs))) (channel invalid_channel_message)
    certificate ← digest_text (at_key "tls_certificate_sha256" fs)
    ok (record {
      document = v;
      expected_device_id = device;
      session_binding_ref = session;
      pairing_id = pairing_id;
      tls_certificate_sha256 = certificate;
    })

  -- `parse_pairing_material`
  unfoldable pub parse_pairing : Bytes → Safe Pairing
  unfolding parse_strict_json_line validate_pairing
  parse_pairing line = do
    value ← recode invalid_channel_message (parse_strict_json_line x 8192 line)
    validate_pairing value
