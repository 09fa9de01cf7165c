-- ===== src/Channel/Checks.antt =====
-- The checks of single values and the proofs: `_exact` to `_verify_proof`
-- (packages/agent-local-node-protocol/ameme_agent_local_node_protocol/channel.py).
use ameme.Base.{
  string_eq, ℕ, String, ◌+s◌, Bool, Option, none, some, List, [], ◌∷◌, ◌++◌, ◌==◌, ◌&&◌, ◌||◌, not,
  leb, count, length, is_empty, if◌then◌else◌, Outcome, ok, err, ◌>>=◌,
}
use ameme.Base.Int.{pos}
use ameme.Base.Sets.{add_all, is_subset}
use ameme.Base.Text.{has_prefix}
use ameme.Base.Sorting.{sort_texts}
use ameme.Base.Patterns.{is_word, is_run, is_hex, is_id_char, is_ref_char, drop_text}
use ameme.Base.Bytes.{Bytes}
use ameme.Json.{Json, Items, Fields, int, str, arr, obj, nil, cons, end, field}
use ameme.Json.Access.{names, at_key}
use ameme.Node.Codec.{Codec}
use ameme.Node.Checks.{Violation, Checked, canonical_bytes, texts_eq}
use ameme.Node.Request.{operations}
use ameme.Channel.Secrets.{Secrets}

-- `CHANNEL_ERROR_CODES`, the codes of a `ChannelViolation`
pub data ChannelCode : Type 0 where
  invalid_channel_message channel_auth_failed channel_binding_failed : ChannelCode
  channel_sequence_invalid channel_replay channel_payload_invalid : ChannelCode

-- What a function of the channel raises: its own violation, or one of the protocol that it lets through.
pub data ChannelError : Type 0 where
  channel : ChannelCode → ChannelError
  protocol : Violation → ChannelError

abbrev pub Safe : Type 0 → Type 0
Safe A = Outcome ChannelError A

-- `except ProtocolViolation as exc: raise ChannelViolation(code) from exc`
abbrev pub recode : {A : Type 0} → ChannelCode → Checked A → Safe A
recode code (ok a) = ok a
recode code (err _) = err (channel code)

abbrev pub let_through : {A : Type 0} → Checked A → Safe A
let_through (ok a) = ok a
let_through (err c) = err (protocol c)

-- A text under a test, else a violation.
abbrev pub text_where : ChannelCode → (String → Bool) → Json → Safe String
text_where code test (str s) = if test s then ok s else err (channel code)
text_where code test _ = err (channel code)

-- `_exact`
unfoldable pub exact : List String → Json → Safe Fields
unfolding is_subset names
exact ks (obj fs) =
    if is_subset ks (names fs) && is_subset (names fs) ks
    then ok fs
    else err (channel invalid_channel_message)
exact ks _ = err (channel invalid_channel_message)

-- `_identifier`
unfoldable pub channel_identifier : Json → Safe String
unfolding is_word is_id_char
channel_identifier = text_where invalid_channel_message (is_word is_id_char 127)

-- `_reference`
unfoldable pub reference : String → Json → Safe String
unfolding has_prefix is_word is_ref_char drop_text
reference prefix =
    text_where invalid_channel_message
      (λ s. has_prefix prefix s && is_word is_ref_char 239 (drop_text (count prefix) s))

-- A prefix and 64 hexadecimal digits, as the whole text
unfoldable pub is_tagged : ℕ → String → String → Bool
unfolding has_prefix is_run is_hex drop_text
is_tagged width prefix s = has_prefix prefix s && is_run is_hex 64 (drop_text width s)

-- `_nonce`, `_digest`, `_idempotency_ref`
unfoldable pub nonce_text : Json → Safe String
unfolding is_tagged
nonce_text = text_where invalid_channel_message (is_tagged 6 "nonce_")

unfoldable pub digest_text : Json → Safe String
unfolding is_tagged
digest_text = text_where invalid_channel_message (is_tagged 7 "sha256_")

unfoldable pub idempotency_ref : Json → Safe String
unfolding is_tagged
idempotency_ref = text_where invalid_channel_message (is_tagged 5 "idem_")

-- `_sequence`; no caller allows zero.
unfoldable pub sequence_number : Json → Safe ℕ
sequence_number (int (pos n)) =
    if leb 1 n && leb n 9223372036854775807 then ok n else err (channel channel_sequence_invalid)
sequence_number _ = err (channel channel_sequence_invalid)

unfoldable pub item_texts : Items → Option (List String)
item_texts nil = some []
item_texts (cons (str s) vs) = elim (item_texts vs) [ none ↦ none | some ss ↦ some (s ∷ ss) ]
item_texts (cons _ vs) = none

-- `_operations`
abbrev pub check_operations : Option (List String) → Safe (List String)
check_operations none = err (channel invalid_channel_message)
check_operations (some xs) =
    if is_empty xs
      || not (texts_eq xs (sort_texts (add_all xs [])))
      || not (is_subset xs operations)
    then err (channel invalid_channel_message)
    else ok xs

unfoldable pub operation_list : Json → Safe (List String)
unfolding item_texts texts_eq sort_texts add_all is_subset
operation_list (arr vs) = check_operations (item_texts vs)
operation_list _ = err (channel invalid_channel_message)

-- `_secret`
unfoldable pub secret_key : Bytes → Safe Bytes
secret_key key =
    if leb 32 (length key) && leb (length key) 256
    then ok key
    else err (channel channel_auth_failed)

-- `_without_proof`
unfoldable pub without_proof : Fields → Fields
without_proof end = end
without_proof (field k v fs) =
    let rest = without_proof fs in if k == "proof" then rest else field k v rest

-- A key and value written at the end of a dict: `document["proof"] = ...`
unfoldable pub append_field : String → Json → Fields → Fields
append_field k v end = field k v end
append_field k v (field j w fs) = field j w (append_field k v fs)

module _ (x : Codec) (y : Secrets) where
  -- `_sha256_bytes`
  unfoldable pub sha256_bytes : Bytes → String
  sha256_bytes b = "sha256_" +s x.sha256_hex b

  -- `_proof`
  unfoldable pub proof_of : Bytes → String → Fields → Safe String
  unfolding canonical_bytes
  proof_of key label document = do
    body ← let_through (canonical_bytes x (obj document))
    ok ("hmac_" +s y.hmac_hex key (x.encode label ++ 0 ∷ body))

  -- `_verify_proof`
  unfoldable pub verify_proof : Bytes → String → Fields → Safe (Unit {0})
  unfolding proof_of without_proof at_key is_tagged
  verify_proof key label document = do
    proof ← text_where channel_auth_failed (is_tagged 5 "hmac_") (at_key "proof" document)
    expected ← proof_of key label (without_proof document)
    if proof == expected then ok tt else err (channel channel_auth_failed)

  -- A document with its proof, as its canonical bytes.
  unfoldable pub sealed : Bytes → String → Fields → Safe Bytes
  unfolding proof_of canonical_bytes append_field
  sealed key label document = do
    proof ← proof_of key label document
    let_through (canonical_bytes x (obj (append_field "proof" (str proof) document)))
