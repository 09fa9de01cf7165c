-- ===== src/Sync/Receive.antt =====
-- `Peer._drain`, `Peer.receive` and `Peer.emit`
-- (packages/sync-protocol/src/ameme_sync_protocol/simulator.py).
pub mod Invariant
pub mod Drain
pub mod DrainEnd
pub mod Branches
pub mod Keeps
pub mod Space
pub mod Replay
pub mod Authority
pub mod Revoked
pub mod Cursor
pub mod Progress
pub mod Deliveries
pub mod Faults
use ameme.Base.{
  ℕ, zero, suc, ◌+◌, String, ◌+s◌, Bool, true, false, Option, none, some, [], ◌∷◌, ◌++◌, ltb,
  if◌then◌else◌, ◌==◌, string_eq, nat_eq, length, Outcome, ok, err,
}
use ameme.Base.Int.{ℤ, pos, int_eq}
use ameme.Base.Sets.{contains}
use ameme.Base.Text.{decimal, padded}
use ameme.Json.{Fields}
use ameme.Platform.{Platform}
use ameme.Sync.Envelope.{Envelope, Draft, ValueError, is_priority, digest, post_init}
use ameme.Sync.State.{
  Peer, Pending, Receipt, Code, applied, rejected, duplicate, quarantined,
  priority_applied_with_gap, rejected_with_gap, pending_gap, space_denied,
  replay_sequence_collision, duplicate_envelope, schema_unsupported, replay_stale_sequence,
  sync_sequence_gap, cursor_of, digest_of, pending_of, pending_at, set_cursor, put_pending,
  pop_pending, add_reason, record_digest, record_space_denial, receipt,
}
use ameme.Sync.Semantics.{Fault, out_of_fuel, apply_semantics}

abbrev pub Received : Type 0
Received = Peer × Outcome Fault Receipt

module _ (p : Platform) where
  -- The body of the loop: a pending envelope that was not applied on arrival is applied now.
  unfoldable pub settle : Pending → ℕ → Peer → Peer × Outcome Fault (Unit {0})
  settle entry now s =
      if entry.preapplied
      then (s, ok tt)
      else let (s', result) = apply_semantics p entry.envelope now s in
        elim result [ ok _ ↦ (s', ok tt) | err fault ↦ (s', err fault) ]

  -- `_drain`, one round of the `while` loop for each unit of fuel. The entry is popped before it is
  -- settled, and the cursor moves after.
  unfoldable pub drain : ℕ → String → ℕ → Peer → Peer × Outcome Fault (Unit {0})
  drain zero origin now s = (s, err out_of_fuel)
  drain (suc fuel) origin now s =
      let sequence = cursor_of s origin + 1 in
      elim (pending_at s origin sequence) [
        | none ↦ (s, ok tt)
        | some entry ↦
            let (s', result) = settle entry now (pop_pending origin sequence s) in
            elim result [
              | ok _ ↦ drain fuel origin now (set_cursor origin sequence s')
              | err fault ↦ (s', err fault)
            ]
      ]

  -- The fuel that is given: one round for each pending entry, and one to see that none is left.
  abbrev pub drain_all : String → ℕ → Peer → Peer × Outcome Fault (Unit {0})
  drain_all origin now s = drain (suc (length (pending_of s origin))) origin now s

  -- The result of a call of `_drain`, turned into the receipt of the envelope that came in order.
  abbrev pub finish : Envelope → Bool → Code → Peer × Outcome Fault (Unit {0}) → Received
  finish e done code (s, ok _) =
      (s, ok (receipt s e (if done then applied else rejected) code done))
  finish e done code (s, err fault) = (s, err fault)

  -- `sequence == expected`
  unfoldable pub receive_next : Envelope → ℕ → Peer → Received
  receive_next e now s =
      let (s', result) = apply_semantics p e now s in
      elim result [
        | ok (done, code) ↦
            finish e done code
              (drain_all e.device_id now (set_cursor e.device_id e.device_sequence s'))
        | err fault ↦ (s', err fault)
      ]

  -- `sequence > expected`, for an envelope that is applied ahead of its turn
  unfoldable pub receive_priority : Envelope → ℕ → Peer → Received
  receive_priority e now s =
      let (s', result) = apply_semantics p e now s in
      elim result [
        | ok (done, code) ↦
            let s'' =
              put_pending e.device_id e.device_sequence
                (record { envelope = e; preapplied = true; semantic_applied = done; code = code })
                s' in
            (
              s'',
              ok (
                  receipt s'' e (if done then priority_applied_with_gap else rejected_with_gap)
                    (if done then sync_sequence_gap else code) done),
            )
        | err fault ↦ (s', err fault)
      ]

  -- `sequence > expected`, for any other: it waits.
  unfoldable pub receive_waiting : Envelope → Peer → Received
  receive_waiting e s =
      let s' =
        put_pending e.device_id e.device_sequence
          (record {
            envelope = e;
            preapplied = false;
            semantic_applied = false;
            code = sync_sequence_gap;
          })
          s in
      (s', ok (receipt s' e pending_gap sync_sequence_gap false))

  -- `sequence < expected`
  unfoldable pub receive_stale : Envelope → Peer → Received
  receive_stale e s =
      let s' =
        add_reason ("stale_sequence:" +s e.device_id +s ":" +s decimal e.device_sequence) s in
      (s', ok (receipt s' e rejected replay_stale_sequence false))

  -- A schema version that is not supported.
  unfoldable pub receive_unsupported : Envelope → Peer → Received
  receive_unsupported e s =
      let s' = record s {
        quarantine =
            s.quarantine
            ++ record {
              envelope_id = e.sync_envelope_id;
              origin_device_id = e.device_id;
              device_sequence = e.device_sequence;
            }
              ∷ [];
      } in
      (s', ok (receipt s' e quarantined schema_unsupported false))

  -- An envelope whose sequence number is new: its digest is recorded on each of these branches.
  unfoldable pub receive_new : Envelope → ℕ → Peer → Received
  unfolding receive_next receive_priority receive_waiting receive_stale receive_unsupported
  receive_new e now s =
      let expected = cursor_of s e.device_id + 1 in
      let s' = record_digest p e s in
      if contains e.schema_version s.supported_schema_versions
      then if ltb e.device_sequence expected
        then receive_stale e s'
        else if ltb expected e.device_sequence
        then if is_priority e.operation then receive_priority e now s' else receive_waiting e s'
        else receive_next e now s'
      else receive_unsupported e s'

  -- An envelope whose sequence number was seen before, with that digest.
  unfoldable pub receive_known : String → Envelope → Peer → Received
  receive_known existing e s =
      if existing == digest p e
      then (s, ok (receipt s e duplicate duplicate_envelope false))
      else let s' =
          add_reason
            ("replay_sequence_collision:" +s e.device_id +s ":" +s decimal e.device_sequence) s in
        (s', ok (receipt s' e rejected replay_sequence_collision false))

  -- `Peer.receive`
  unfoldable pub receive : Envelope → ℕ → Peer → Received
  unfolding receive_known receive_new
  receive e now s =
      if e.space_id == s.space_id
      then elim (digest_of s e.device_id e.device_sequence) [
        | some existing ↦ receive_known existing e s
        | none ↦ receive_new e now s
      ]
      else let s' = record_space_denial p e s in (s', ok (receipt s' e rejected space_denied false))

-- The arguments of `Peer.emit`.
pub record Emission : Type 0 where
  pub operation : String
  pub object_type : String
  pub object_id : String
  pub payload : Fields
  pub base_revision : Option ℤ
  pub idempotency_key : Option String
  pub schema_version : ℤ

-- What `emit` raises: the checks of the envelope, or a fault of the delivery to itself.
pub data EmitError : Type 0 where
  value_error : ValueError → EmitError
  fault : Fault → EmitError

-- `idempotency_key or default`: an empty key counts as none.
abbrev or_text : Option String → String → String
or_text none d = d
or_text (some k) d = if k == "" then d else k

-- The time of creation is `clock` of the sequence number, 2026-01-01T00:00:00Z and as many seconds.
module _ (p : Platform) (clock : ℕ → String) where
  unfoldable pub draft : Emission → Peer → Draft
  unfolding padded decimal
  draft m s =
      let sequence = s.next_sequence in
      record {
        schema_version = m.schema_version;
        sync_envelope_id = "syn_" +s s.peer_id +s "_" +s padded 6 sequence;
        space_id = s.space_id;
        device_id = s.peer_id;
        device_sequence = pos sequence;
        operation = m.operation;
        object_type = m.object_type;
        object_id = m.object_id;
        idempotency_key =
            or_text m.idempotency_key ("idem_" +s s.peer_id +s "_" +s padded 8 sequence);
        created_at = clock sequence;
        payload = m.payload;
        base_revision = m.base_revision;
      }

  -- `Peer.emit`: the sequence number is spent before the envelope is checked.
  unfoldable pub emit : Emission → ℕ → Peer → Peer × Outcome EmitError (Envelope × Receipt)
  emit m now s =
      let s' = record s { next_sequence = s.next_sequence + 1 } in
      elim (post_init (draft m s)) [
        | err e ↦ (s', err (value_error e))
        | ok e ↦
            let (s'', result) = receive p e now (record s' { outbox = s'.outbox ++ e ∷ [] }) in
            elim result [ ok r ↦ (s'', ok (e, r)) | err f ↦ (s'', err (fault f)) ]
      ]
