-- ===== src/Sync/Envelope.antt =====
-- `Envelope` of packages/sync-protocol/src/ameme_sync_protocol/model.py.
-- `Draft` has the arguments of the constructor; `post_init` checks them and gives the frozen value,
-- whose numbers are not negative and whose operation is one of the six that are supported.
pub mod Checks
use ameme.Base.{
  ℕ, String, count, Bool, true, false, ◌||◌, Option, none, some, ltb, if◌then◌else◌, ◌==◌,
  string_eq, Outcome, ok, err, ◌>>=◌, ◌>>◌, raise_if,
}
use ameme.Base.Int.{ℤ, pos, negsuc}
use ameme.Json.{Json, Fields, end, field, sort_fields, canonical_json}
use ameme.Json
use ameme.Platform.{Platform}

pub data Operation : Type 0 where
  append_revision structured_upsert tombstone grant_revocation deletion_ack raw_manifest : Operation

abbrev pub operation_name : Operation → String
operation_name append_revision = "append_revision"
operation_name structured_upsert = "structured_upsert"
operation_name tombstone = "tombstone"
operation_name grant_revocation = "grant_revocation"
operation_name deletion_ack = "deletion_ack"
operation_name raw_manifest = "raw_manifest"

-- `operation in SUPPORTED_OPERATIONS`, with the member
unfoldable pub supported_operation : String → Option Operation
supported_operation s =
    if s == "append_revision"
    then some append_revision
    else if s == "structured_upsert"
    then some structured_upsert
    else if s == "tombstone"
    then some tombstone
    else if s == "grant_revocation"
    then some grant_revocation
    else if s == "deletion_ack"
    then some deletion_ack
    else if s == "raw_manifest"
    then some raw_manifest
    else none

pub record Draft : Type 0 where
  pub schema_version : ℤ
  pub sync_envelope_id : String
  pub space_id : String
  pub device_id : String
  pub device_sequence : ℤ
  pub operation : String
  pub object_type : String
  pub object_id : String
  pub idempotency_key : String
  pub created_at : String
  pub payload : Fields
  pub base_revision : Option ℤ

pub record Envelope : Type 0 where
  pub schema_version : ℤ
  pub sync_envelope_id : String
  pub space_id : String
  pub device_id : String
  pub device_sequence : ℕ
  pub operation : Operation
  pub object_type : String
  pub object_id : String
  pub idempotency_key : String
  pub created_at : String
  pub payload : Fields
  pub base_revision : Option ℕ

pub data ValueError : Type 0 where
  bad_sequence unsupported_operation bad_key empty_identifier empty_object bad_base : ValueError

or_raise : {A : Type 0} → Option A → ValueError → Outcome ValueError A
or_raise none c = err c
or_raise (some a) c = ok a

-- `device_sequence < 1` raises
checked_sequence : ℤ → Option ℕ
checked_sequence (negsuc n) = none
checked_sequence (pos n) = if ltb n 1 then none else some n

-- `base_revision is not None and base_revision < 0` raises
checked_base : Option ℤ → Option (Option ℕ)
checked_base none = some none
checked_base (some (pos n)) = some (some n)
checked_base (some (negsuc n)) = none

-- The frozen value of a draft that passed.
abbrev pub build : Draft → ℕ → Operation → Option ℕ → Envelope
build d sequence operation base = record {
  schema_version = d.schema_version;
  sync_envelope_id = d.sync_envelope_id;
  space_id = d.space_id;
  device_id = d.device_id;
  device_sequence = sequence;
  operation = operation;
  object_type = d.object_type;
  object_id = d.object_id;
  idempotency_key = d.idempotency_key;
  created_at = d.created_at;
  payload = sort_fields d.payload;
  base_revision = base;
}

-- `Envelope.__post_init__`
unfoldable pub post_init : Draft → Outcome ValueError Envelope
unfolding or_raise checked_sequence checked_base supported_operation
post_init d = do
  sequence ← or_raise (checked_sequence d.device_sequence) bad_sequence
  operation ← or_raise (supported_operation d.operation) unsupported_operation
  raise_if (ltb (count d.idempotency_key) 8 || ltb 128 (count d.idempotency_key)) bad_key
  raise_if (d.sync_envelope_id == "" || d.space_id == "" || d.device_id == "") empty_identifier
  raise_if (d.object_type == "" || d.object_id == "") empty_object
  base ← or_raise (checked_base d.base_revision) bad_base
  ok (build d sequence operation base)

-- `Envelope.is_priority`
abbrev pub is_priority : Operation → Bool
is_priority grant_revocation = true
is_priority tombstone = true
is_priority deletion_ack = true
is_priority _ = false

or_null : Option ℕ → Json
or_null none = Json.null
or_null (some n) = Json.int (pos n)

-- `payload` is written only if it has members
with_payload : Fields → Fields
with_payload end = end
with_payload (field k v fs) = field "payload" (Json.obj (field k v fs)) end

-- `base_revision` is written only if it is there
with_base : Option ℕ → Fields → Fields
with_base none fs = fs
with_base (some n) fs = field "base_revision" (Json.int (pos n)) fs

-- `Envelope.to_dict`
unfoldable pub to_dict : Envelope → Json
unfolding with_base with_payload
to_dict e = Json.obj (
    field "schema_version" (Json.int e.schema_version) (
      field "sync_envelope_id" (Json.str e.sync_envelope_id) (
        field "space_id" (Json.str e.space_id) (
          field "device_id" (Json.str e.device_id) (
            field "device_sequence" (Json.int (pos e.device_sequence)) (
              field "operation" (Json.str (operation_name e.operation)) (
                field "object_type" (Json.str e.object_type) (
                  field "object_id" (Json.str e.object_id) (
                    field "idempotency_key" (Json.str e.idempotency_key) (
                      field "created_at" (Json.str e.created_at)
                        (with_base e.base_revision (with_payload e.payload))))))))))))

module _ (p : Platform) where
  -- `digest_json`
  unfoldable pub digest_json : Json → String
  digest_json v = p.sha256_hex (canonical_json v)

  -- `Envelope.digest`
  unfoldable pub digest : Envelope → String
  digest e = digest_json (to_dict e)

  -- `Envelope.idempotency_digest`
  unfoldable pub idempotency_digest : Envelope → String
  unfolding or_null
  idempotency_digest e = digest_json (
      Json.obj (
        field "space_id" (Json.str e.space_id) (
          field "device_id" (Json.str e.device_id) (
            field "operation" (Json.str (operation_name e.operation)) (
              field "object_type" (Json.str e.object_type) (
                field "object_id" (Json.str e.object_id) (
                  field "base_revision" (or_null e.base_revision)
                    (field "payload" (Json.obj e.payload) end))))))))
