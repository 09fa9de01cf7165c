-- ===== src/Sync/Envelope/Checks.antt =====
-- What the constructor of an envelope has checked when it returns.
use ameme.Base.{
  string_eq, ℕ, ◌≤◌, ◌≡◌, refl, arith, false, true, ◌||◌, none, some, Option, String, count,
  Outcome, ok, >>=-returns, raise_if, ltb, ◌==◌, Bool,
}
use ameme.Base.Int.{ℤ, pos}
use text.Mathlib.TextEquality.{eq_iff}
use mathlib.Core.Path.{subst}
use ameme.Json.{sort_fields}
use ameme.Sync.Envelope.{
  build, Draft, Envelope, ValueError, bad_key, empty_identifier, empty_object, checked_sequence,
  checked_base, supported_operation, or_raise, operation_name, post_init, Operation, bad_sequence,
  unsupported_operation, bad_base,
}

or_raise-ok :
    {A : Type 0} (o : Option A) (c : ValueError) {a : A} → or_raise o c ≡ ok a → o ≡ some a
unfolding or_raise
or_raise-ok none c h = cc
or_raise-ok (some b) c h = ground arith

raise_if-ok : (b : Bool) (c : ValueError) {u : Unit {0}} → raise_if b c ≡ ok u → b ≡ false
raise_if-ok true c h = cc
raise_if-ok false c h = refl

checked_sequence-pos : (z : ℤ) {n : ℕ} → checked_sequence z ≡ some n → (z ≡ pos n) × (1 ≤ n)
unfolding checked_sequence
checked_sequence-pos z h = ground arith

supported_operation-name :
    (s : String) {o : Operation} → supported_operation s ≡ some o → operation_name o ≡ s
unfolding supported_operation
supported_operation-name s h = ground (
  arith,
  eq_iff s "append_revision",
  eq_iff s "structured_upsert",
  eq_iff s "tombstone",
  eq_iff s "grant_revocation",
  eq_iff s "deletion_ack",
  eq_iff s "raw_manifest",
)

-- What is known of an envelope that was built from a draft.
pub record IsChecked (d : Draft) (e : Envelope) : Type 0 where
  pub sequence : d.device_sequence ≡ pos e.device_sequence
  pub positive : 1 ≤ e.device_sequence
  pub operation : operation_name e.operation ≡ d.operation
  pub device_id : e.device_id ≡ d.device_id
  pub space_id : e.space_id ≡ d.space_id
  pub key : e.idempotency_key ≡ d.idempotency_key
  pub key_short : 8 ≤ count e.idempotency_key
  pub key_long : count e.idempotency_key ≤ 128
  pub named : (e.sync_envelope_id == "" || e.space_id == "" || e.device_id == "") ≡ false
  pub object : (e.object_type == "" || e.object_id == "") ≡ false
  pub payload : e.payload ≡ sort_fields d.payload

build-IsChecked :
    (d : Draft) (n : ℕ) (o : Operation) (b : Option ℕ)
    → (d.device_sequence ≡ pos n) × (1 ≤ n)
    → operation_name o ≡ d.operation
    → (ltb (count d.idempotency_key) 8 || ltb 128 (count d.idempotency_key)) ≡ false
    → (d.sync_envelope_id == "" || d.space_id == "" || d.device_id == "") ≡ false
    → (d.object_type == "" || d.object_id == "") ≡ false
    → IsChecked d (build d n o b)
build-IsChecked d n o b seq op key named object = record {
  sequence = seq.0;
  positive = seq.1;
  operation = op;
  device_id = refl;
  space_id = refl;
  key = refl;
  key_short = ground arith;
  key_long = ground arith;
  named = named;
  object = object;
  payload = refl;
}

ok-injective : {a b : Envelope} → ◌≡◌ {A = Outcome ValueError Envelope} (ok a) (ok b) → a ≡ b
ok-injective h = cc

-- An envelope that was built has a sequence number of at least 1, an operation that is supported, a key of
-- 8 to 128 characters, no empty identifier, and the identity and the payload (its keys sorted) of its draft.
pub post_init-IsChecked : (d : Draft) {e : Envelope} → post_init d ≡ ok e → IsChecked d e
unfolding post_init
post_init-IsChecked d {e} h =
    let (n, seq, h1) =
      >>=-returns (or_raise (checked_sequence d.device_sequence) bad_sequence) _ h in
    let (o, op, h2) =
      >>=-returns (or_raise (supported_operation d.operation) unsupported_operation) _ h1 in
    let (u, key, h3) =
      >>=-returns
        (raise_if (ltb (count d.idempotency_key) 8 || ltb 128 (count d.idempotency_key)) bad_key) _
        h2 in
    let (v, named, h4) =
      >>=-returns
        (raise_if (d.sync_envelope_id == "" || d.space_id == "" || d.device_id == "")
          empty_identifier)
        _ h3 in
    let (w, object, h5) =
      >>=-returns (raise_if (d.object_type == "" || d.object_id == "") empty_object) _ h4 in
    let (b, base, h6) = >>=-returns (or_raise (checked_base d.base_revision) bad_base) _ h5 in
    subst (IsChecked d) (ok-injective h6) (
      build-IsChecked d n o b
        (checked_sequence-pos d.device_sequence (or_raise-ok _ bad_sequence seq))
        (supported_operation-name d.operation (or_raise-ok _ unsupported_operation op))
        (raise_if-ok _ bad_key key) (raise_if-ok _ empty_identifier named)
        (raise_if-ok _ empty_object object))
