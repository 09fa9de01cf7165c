-- ===== src/Node/Ledger.antt =====
-- `ReplayLedger`, and `derive_idempotency_slot`
-- (packages/agent-local-node-protocol/ameme_agent_local_node_protocol/protocol.py).
pub mod Trace
use ameme.Base.{
  string_eq, ℕ, String, ◌+s◌, Bool, true, false, Option, none, some, List, [], ◌∷◌, ◌==◌, ◌||◌, not,
  ltb, count, if◌then◌else◌, Outcome, ok, err, ◌>>=◌, ◌>>◌, raise_if,
}
use ameme.Base.Dict.{Dict, lookup, insert}
use ameme.Base.Sets.{contains}
use ameme.Json.{Json, Items, Fields, str, arr, obj, nil, cons, end, field}
use ameme.Node.Codec.{Codec}
use ameme.Node.Checks.{Violation, invalid_request, idempotency_conflict, Checked, digest_json}
use ameme.Node.Request.{Request, Control, operations, validate_request}

abbrev pub texts : List String → Items
texts [] = nil
texts (s ∷ ss) = cons (str s) (texts ss)

-- The document that `accept` takes the fingerprint of.
unfoldable pub fingerprint_of : Control → Json
fingerprint_of c = obj (
    field "caller_id" (str c.caller_id) (
      field "grant_id" (str c.grant_id) (
        field "purpose" (str c.purpose) (
          field "spaces" (arr (texts c.spaces)) (
            field "memory_types" (arr (texts c.memory_types)) (
              field "operation" (str c.operation)
                (field "payload_digest" (str c.payload_digest) end)))))))

pub data Verdict : Type 0 where
  new replay : Verdict

-- `_seen`: the fingerprint of each slot
abbrev pub Ledger : Type 0
Ledger = Dict String String

-- From the look-up of the slot on
unfoldable pub settle : Option String → String → String → Ledger → Ledger × Checked Verdict
settle none slot fingerprint seen = (insert slot fingerprint seen, ok new)
settle (some previous) slot fingerprint seen =
    if previous == fingerprint then (seen, ok replay) else (seen, err idempotency_conflict)

module _ (x : Codec) where
  abbrev pub enter : Control → Checked String → Ledger → Ledger × Checked Verdict
  unfolding settle
  enter c (ok fingerprint) seen =
      settle (lookup c.idempotency_slot seen) c.idempotency_slot fingerprint seen
  enter c (err code) seen = (seen, err code)

  -- `accept` of a request that was validated
  unfoldable pub accept_control : Control → Ledger → Ledger × Checked Verdict
  unfolding digest_json fingerprint_of settle
  accept_control c seen = enter c (digest_json x (fingerprint_of c)) seen

  abbrev pub accept_validated : Checked Request → Ledger → Ledger × Checked Verdict
  unfolding accept_control
  accept_validated (ok r) seen = accept_control r.control seen
  accept_validated (err code) seen = (seen, err code)

  -- `accept`
  unfoldable pub accept : Json → Ledger → Ledger × Checked Verdict
  unfolding validate_request accept_control
  accept request seen = accept_validated (validate_request x request) seen

  -- `derive_idempotency_slot`
  unfoldable pub derive_idempotency_slot : String → String → Checked String
  unfolding contains
  derive_idempotency_slot raw_key operation = do
    raise_if (not (contains operation operations) || ltb (count raw_key) 8) invalid_request
    ok (
        "idem_"
        +s x.sha256_hex (
            x.encode
              ("ameme:idempotency:v1:agent-local-node-wire:" +s operation +s "\0" +s raw_key)))
