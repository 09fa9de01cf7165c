-- ===== src/Sync/State.antt =====
-- The state of `Peer` (packages/sync-protocol/src/ameme_sync_protocol/simulator.py), its receipts and
-- its records. A read of a `defaultdict` does not change it here: Python then stores an empty entry,
-- which no method tells from an absent one. Ticks are counted from zero.
use ameme.Base.{ℕ, String, ◌+s◌, Bool, Option, List, [], ◌∷◌, ◌++◌, string_eq, nat_eq}
use Prim.Native.String.{slice}
use ameme.Base.Int.{ℤ}
use ameme.Base.Dict.{Dict, row, lookup, insert, lookup2, insert2, erase2, default}
use ameme.Base.Sets.{add}
use ameme.Base.Text.{decimal}
use ameme.Platform.{Platform}
use ameme.Sync.Envelope.{Envelope, Operation, digest}

pub data Status : Type 0 where
  applied rejected duplicate quarantined priority_applied_with_gap rejected_with_gap : Status
  pending_gap queued_offline : Status

pub data Code : Type 0 where
  space_denied replay_sequence_collision duplicate_envelope schema_unsupported : Code
  replay_stale_sequence sync_sequence_gap device_revoked authorization_expired : Code
  idempotent_replay idempotency_conflict tombstone_applied revocation_applied : Code
  tombstone_precedence invalid_revision_payload revision_applied accepted_no_projection : Code
  peer_offline : Code

-- `_Pending`
pub record Pending : Type 0 where
  pub envelope : Envelope
  pub preapplied : Bool
  pub semantic_applied : Bool
  pub code : Code

pub record Receipt : Type 0 where
  pub peer_id : String
  pub envelope_id : String
  pub origin_device_id : String
  pub device_sequence : ℕ
  pub status : Status
  pub code : Code
  pub cursor : ℕ
  pub semantic_applied : Bool

-- An entry of `Peer._quarantine`; its code is always SCHEMA_UNSUPPORTED.
pub record Quarantined : Type 0 where
  pub envelope_id : String
  pub origin_device_id : String
  pub device_sequence : ℕ

-- An entry of `Peer.audit`.
pub record AuditEntry : Type 0 where
  pub envelope_id : String
  pub origin_device_id : String
  pub device_sequence : ℕ
  pub operation : Operation
  pub object_type : String
  pub object_id : String
  pub result_code : Code
  pub envelope_digest : String

pub record Peer : Type 0 where
  pub peer_id : String
  pub space_id : String
  pub supported_schema_versions : List ℤ
  pub next_sequence : ℕ
  pub outbox : List Envelope
  pub cursors : Dict String ℕ
  pub sequence_digests : Dict String (Dict ℕ String)
  pub pending : Dict String (Dict ℕ Pending)
  pub idempotency : Dict String String
  pub revisions : Dict String (Dict String Envelope)
  pub tombstones : Dict String (List String)
  pub revoked_devices : List String
  pub authorization_expiry : Dict String ℕ
  pub quarantine : List Quarantined
  pub security_reasons : List String
  pub audit : List AuditEntry

-- `Peer.__init__`
abbrev pub new_peer : String → String → List ℤ → Peer
new_peer peer_id space_id versions = record {
  peer_id = peer_id;
  space_id = space_id;
  supported_schema_versions = versions;
  next_sequence = 1;
  outbox = [];
  cursors = [];
  sequence_digests = [];
  pending = [];
  idempotency = [];
  revisions = [];
  tombstones = [];
  revoked_devices = [];
  authorization_expiry = [];
  quarantine = [];
  security_reasons = [];
  audit = [];
}

-- `set_authorization_expiry`
unfoldable pub set_authorization_expiry : String → ℕ → Peer → Peer
set_authorization_expiry device tick s = record s {
  authorization_expiry = insert device tick s.authorization_expiry;
}

-- `self.cursors[origin]`
abbrev pub cursor_of : Peer → String → ℕ
cursor_of s origin = default 0 (lookup origin s.cursors)

-- `self._sequence_digests[origin].get(sequence)`
abbrev pub digest_of : Peer → String → ℕ → Option String
digest_of s origin sequence = lookup2 origin sequence s.sequence_digests

-- `self._pending[origin]`
abbrev pub pending_of : Peer → String → Dict ℕ Pending
pending_of s origin = row origin s.pending

-- `self._pending[origin].get(sequence)`
abbrev pub pending_at : Peer → String → ℕ → Option Pending
pending_at s origin sequence = lookup2 origin sequence s.pending

-- `self.cursors[origin] = sequence`
abbrev pub set_cursor : String → ℕ → Peer → Peer
set_cursor origin sequence s = record s { cursors = insert origin sequence s.cursors }

-- `self._pending[origin][sequence] = entry`
abbrev pub put_pending : String → ℕ → Pending → Peer → Peer
put_pending origin sequence entry s = record s { pending = insert2 origin sequence entry s.pending }

-- `self._pending[origin].pop(sequence, None)`, without its result
abbrev pub pop_pending : String → ℕ → Peer → Peer
pop_pending origin sequence s = record s { pending = erase2 origin sequence s.pending }

-- `self._security_reasons.add(reason)`
abbrev pub add_reason : String → Peer → Peer
add_reason reason s = record s { security_reasons = add reason s.security_reasons }

module _ (p : Platform) where
  -- `self._sequence_digests[origin][sequence] = envelope.digest`
  abbrev pub record_digest : Envelope → Peer → Peer
  record_digest e s = record s {
    sequence_digests = insert2 e.device_id e.device_sequence (digest p e) s.sequence_digests;
  }

  -- `_record_audit`
  abbrev pub record_audit : Envelope → Code → Peer → Peer
  record_audit e c s = record s {
    audit =
        s.audit
        ++ record {
          envelope_id = e.sync_envelope_id;
          origin_device_id = e.device_id;
          device_sequence = e.device_sequence;
          operation = e.operation;
          object_type = e.object_type;
          object_id = e.object_id;
          result_code = c;
          envelope_digest = slice (digest p e) 0 16;
        }
          ∷ [];
  }

  -- `_record_space_denial`
  abbrev pub record_space_denial : Envelope → Peer → Peer
  record_space_denial e s =
      record_audit e space_denied
        (add_reason ("space_denied:" +s e.device_id +s ":" +s decimal e.device_sequence) s)

-- `_receipt`
abbrev pub receipt : Peer → Envelope → Status → Code → Bool → Receipt
receipt s e status code semantic_applied = record {
  peer_id = s.peer_id;
  envelope_id = e.sync_envelope_id;
  origin_device_id = e.device_id;
  device_sequence = e.device_sequence;
  status = status;
  code = code;
  cursor = cursor_of s e.device_id;
  semantic_applied = semantic_applied;
}
