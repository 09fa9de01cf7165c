-- ===== src/Sync/Semantics.antt =====
-- `Peer._apply_semantics` (packages/sync-protocol/src/ameme_sync_protocol/simulator.py).
-- A step returns the state that it leaves and its result; what was written before a raise stays.
pub mod Frame
pub mod Effects
use ameme.Base.{
  ℕ, String, ◌+s◌, Bool, true, false, ◌||◌, ◌&&◌, Option, none, some, [], ltb, if◌then◌else◌, ◌==◌,
  string_eq, Outcome, ok, err,
}
use ameme.Base.Dict.{lookup, insert, insert2, default, has_key}
use ameme.Base.Sets.{add, contains}
use ameme.Base.Text.{decimal_int}
use ameme.Json.{Json, Items, nil, cons, Fields, end, field}
use ameme.Json
use ameme.Platform.{Platform}
use ameme.Sync.Envelope.{
  Envelope, Operation, append_revision, structured_upsert, tombstone, grant_revocation,
  deletion_ack, raw_manifest, digest, idempotency_digest,
}
use ameme.Sync.State.{
  Peer, Code, space_denied, device_revoked, authorization_expired, idempotent_replay,
  idempotency_conflict, tombstone_applied, revocation_applied, tombstone_precedence,
  invalid_revision_payload, revision_applied, accepted_no_projection, add_reason, record_audit,
  record_space_denial,
}

-- `type_error`: a payload value that is not hashable was looked up in a set.
-- `out_of_fuel`: the bound on a loop of the model was met.
pub data Fault : Type 0 where
  type_error out_of_fuel : Fault

abbrev pub Applied : Type 0
Applied = Peer × Outcome Fault (Bool × Code)

-- A `FrozenMap` has no hash, and a tuple has one if its members have.
mutual
  is_hashable : Json → Bool
  is_hashable (Json.obj fs) = false
  is_hashable (Json.arr xs) = are_hashable xs
  is_hashable (Json.null) = true
  is_hashable (Json.bool b) = true
  is_hashable (Json.int n) = true
  is_hashable (Json.real s) = true
  is_hashable (Json.str s) = true

  are_hashable : Items → Bool
  are_hashable nil = true
  are_hashable (cons x xs) = is_hashable x && are_hashable xs

-- `value in {"device", "device_grant"}`
names_device : Json → Bool
names_device (Json.str s) = s == "device" || s == "device_grant"
names_device _ = false

-- `payload.get(key, text)`
get_or_text : String → String → Fields → Json
get_or_text key text payload = default (Json.str text) (Json.get key payload)

-- `isinstance(changes, Mapping) and changes`
is_change_set : Option Json → Bool
is_change_set (some (Json.obj (field k v fs))) = true
is_change_set _ = false

is_expired : Option ℕ → ℕ → Bool
is_expired none now = false
is_expired (some expires_at) now = ltb expires_at now

module _ (p : Platform) where
  -- `str(value)`
  unfoldable pub text_of : Json → String
  text_of (Json.null) = "None"
  text_of (Json.bool true) = "True"
  text_of (Json.bool false) = "False"
  text_of (Json.int n) = decimal_int n
  text_of (Json.real s) = s
  text_of (Json.str s) = s
  text_of v = p.str_of_container v

  -- The event that a revision names.
  unfoldable pub event_id_of : Envelope → String
  unfolding text_of get_or_text
  event_id_of e = text_of (get_or_text "event_id" e.object_id e.payload)

  -- `changes` of a revision is a mapping with members.
  unfoldable pub has_changes : Envelope → Bool
  unfolding is_change_set
  has_changes e = is_change_set (Json.get "changes" e.payload)

  unfoldable pub apply_tombstone : Envelope → Peer → Applied
  apply_tombstone e s = (
    record_audit p e tombstone_applied (record s {
      tombstones =
          insert e.object_id (add (digest p e) (default [] (lookup e.object_id s.tombstones)))
            s.tombstones;
    }),
    ok (true, tombstone_applied),
  )

  unfoldable pub apply_revocation : Envelope → Peer → Applied
  unfolding is_hashable names_device get_or_text text_of
  apply_revocation e s =
      let target_type = get_or_text "target_type" e.object_type e.payload in
      let target_id = get_or_text "target_id" e.object_id e.payload in
      if is_hashable target_type
      then (
        record_audit p e revocation_applied (
            if names_device target_type
            then record s { revoked_devices = add (text_of target_id) s.revoked_devices }
            else s),
        ok (true, revocation_applied),
      )
      else (s, err type_error)

  unfoldable pub apply_revision : Envelope → Peer → Applied
  unfolding event_id_of has_changes
  apply_revision e s =
      let event_id = event_id_of e in
      if has_key event_id s.tombstones
      then (record_audit p e tombstone_precedence s, ok (false, tombstone_precedence))
      else if has_changes e
      then (
        record_audit p e revision_applied
            (record s { revisions = insert2 event_id (digest p e) e s.revisions }),
        ok (true, revision_applied),
      )
      else (
        record_audit p e invalid_revision_payload
            (add_reason ("invalid_revision:" +s e.sync_envelope_id) s),
        ok (false, invalid_revision_payload),
      )

  -- The part of `_apply_semantics` behind the guards, by operation.
  unfoldable pub apply_operation : Operation → Envelope → Peer → Applied
  unfolding apply_tombstone apply_revocation apply_revision
  apply_operation tombstone e s = apply_tombstone e s
  apply_operation grant_revocation e s = apply_revocation e s
  apply_operation append_revision e s = apply_revision e s
  apply_operation structured_upsert e s = apply_revision e s
  apply_operation deletion_ack e s =
      (record_audit p e accepted_no_projection s, ok (true, accepted_no_projection))
  apply_operation raw_manifest e s =
      (record_audit p e accepted_no_projection s, ok (true, accepted_no_projection))

  -- From the look-up of the idempotency key on.
  unfoldable pub apply_once : Option String → Envelope → Peer → Applied
  apply_once (some idem_digest) e s =
      if idem_digest == idempotency_digest p e
      then (record_audit p e idempotent_replay s, ok (false, idempotent_replay))
      else (
        record_audit p e idempotency_conflict
            (add_reason ("idempotency_conflict:" +s e.idempotency_key) s),
        ok (false, idempotency_conflict),
      )
  apply_once none e s =
      apply_operation e.operation e
        (record s { idempotency = insert e.idempotency_key (idempotency_digest p e) s.idempotency })

  -- `_apply_semantics`
  unfoldable pub apply_semantics : Envelope → ℕ → Peer → Applied
  unfolding is_expired
  apply_semantics e now s =
      if e.space_id == s.space_id
      then if contains e.device_id s.revoked_devices
        then (
          record_audit p e device_revoked (add_reason ("device_revoked:" +s e.device_id) s),
          ok (false, device_revoked),
        )
        else if is_expired (lookup e.device_id s.authorization_expiry) now
        then (
          record_audit p e authorization_expired
              (add_reason ("authorization_expired:" +s e.device_id) s),
          ok (false, authorization_expired),
        )
        else apply_once (lookup e.idempotency_key s.idempotency) e s
      else (record_space_denial p e s, ok (false, space_denied))
