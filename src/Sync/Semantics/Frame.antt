-- ===== src/Sync/Semantics/Frame.antt =====
-- What `_apply_semantics` leaves alone: all that the delivery loop keeps for itself.
use ameme.Base.{string_eq, ℕ, ◌≡◌, arith, none, some, Option, String}
use ameme.Base.Dict.{insert, lookup}
use ameme.Platform.{Platform}
use ameme.Sync.Envelope.{
  idempotency_digest, Envelope, Operation, append_revision, structured_upsert, tombstone,
  grant_revocation, deletion_ack, raw_manifest,
}
use ameme.Sync.State.{Peer}
use ameme.Sync.Semantics.{
  apply_tombstone, apply_revocation, apply_revision, apply_operation, apply_once, apply_semantics,
}

-- The two states agree on identity, sequence numbers, cursors, pending envelopes and quarantine.
pub record SameTransport (s t : Peer) : Type 0 where
  pub peer_id : t.peer_id ≡ s.peer_id
  pub space_id : t.space_id ≡ s.space_id
  pub supported_schema_versions : t.supported_schema_versions ≡ s.supported_schema_versions
  pub next_sequence : t.next_sequence ≡ s.next_sequence
  pub outbox : t.outbox ≡ s.outbox
  pub cursors : t.cursors ≡ s.cursors
  pub sequence_digests : t.sequence_digests ≡ s.sequence_digests
  pub pending : t.pending ≡ s.pending
  pub quarantine : t.quarantine ≡ s.quarantine
  pub authorization_expiry : t.authorization_expiry ≡ s.authorization_expiry

module _ (p : Platform) where
  apply_tombstone-SameTransport :
      (e : Envelope) (s : Peer) → SameTransport s (apply_tombstone p e s).0
  unfolding apply_tombstone
  apply_tombstone-SameTransport e s = ground arith

  apply_revocation-SameTransport :
      (e : Envelope) (s : Peer) → SameTransport s (apply_revocation p e s).0
  unfolding apply_revocation
  apply_revocation-SameTransport e s = ground arith

  apply_revision-SameTransport :
      (e : Envelope) (s : Peer) → SameTransport s (apply_revision p e s).0
  unfolding apply_revision
  apply_revision-SameTransport e s = ground arith

  apply_operation-SameTransport :
      (o : Operation) (e : Envelope) (s : Peer) → SameTransport s (apply_operation p o e s).0
  unfolding apply_operation
  apply_operation-SameTransport tombstone e s = apply_tombstone-SameTransport e s
  apply_operation-SameTransport grant_revocation e s = apply_revocation-SameTransport e s
  apply_operation-SameTransport append_revision e s = apply_revision-SameTransport e s
  apply_operation-SameTransport structured_upsert e s = apply_revision-SameTransport e s
  apply_operation-SameTransport deletion_ack e s = ground arith
  apply_operation-SameTransport raw_manifest e s = ground arith

  apply_once-SameTransport :
      (found : Option String) (e : Envelope) (s : Peer) → SameTransport s (apply_once p found e s).0
  unfolding apply_once
  apply_once-SameTransport (some d) e s = ground arith
  apply_once-SameTransport none e s =
      let h = apply_operation-SameTransport e.operation e (record s {
        idempotency = insert e.idempotency_key (idempotency_digest p e) s.idempotency;
      }) in
      assumption (h)

  pub apply_semantics-SameTransport :
      (e : Envelope) (now : ℕ) (s : Peer) → SameTransport s (apply_semantics p e now s).0
  unfolding apply_semantics
  apply_semantics-SameTransport e now s =
      ground (arith, apply_once-SameTransport (lookup e.idempotency_key s.idempotency) e s)
