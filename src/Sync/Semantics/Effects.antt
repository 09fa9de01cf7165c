-- ===== src/Sync/Semantics/Effects.antt =====
-- What `_apply_semantics` may change in the projection of the peer, and when it changes nothing.
use ameme.Sync.Semantics.{out_of_fuel}
use ameme.Base.{
  ◌≢◌, string_eq, ℕ, ◌≡◌, arith, true, false, none, some, Option, String, ok, err, inl, inr,
  Option-cases,
}
use ameme.Base.Dict.{insert, lookup, has_key, has_key-insert, lookup-insert_new}
use ameme.Base.Sets.{contains, contains-add}
use ameme.Platform.{Platform}
use ameme.Sync.Envelope.{
  idempotency_digest, Envelope, Operation, append_revision, structured_upsert, tombstone,
  grant_revocation, deletion_ack, raw_manifest,
}
use ameme.Sync.State.{Peer}
use ameme.Sync.Semantics.{
  Applied, apply_tombstone, apply_revocation, apply_revision, apply_operation, apply_once,
  apply_semantics,
}

-- The state that the projection reads.
pub record SameProjection (s t : Peer) : Type 0 where
  pub revisions : t.revisions ≡ s.revisions
  pub tombstones : t.tombstones ≡ s.tombstones
  pub revoked_devices : t.revoked_devices ≡ s.revoked_devices

-- Tombstones, revocations and the digests of idempotency keys are never taken back.
pub record Grows (s t : Peer) : Type 0 where
  pub tombstone : (k : String) → has_key k s.tombstones ≡ true → has_key k t.tombstones ≡ true
  pub revoked :
      (d : String) → contains d s.revoked_devices ≡ true → contains d t.revoked_devices ≡ true
  pub idempotency :
      (k d : String) → lookup k s.idempotency ≡ some d → lookup k t.idempotency ≡ some d

pub Grows-refl : (s : Peer) → Grows s s
Grows-refl s = record { tombstone = λ k h. h; revoked = λ d h. h; idempotency = λ k d h. h }

pub Grows-trans : {s t u : Peer} → Grows s t → Grows t u → Grows s u
Grows-trans g h = record {
  tombstone = λ k x. h.tombstone k (g.tombstone k x);
  revoked = λ d x. h.revoked d (g.revoked d x);
  idempotency = λ k d x. h.idempotency k d (g.idempotency k d x);
}

-- Nothing but an applied envelope changes the projection.
abbrev pub Quiet : Peer → Applied → Type 0
Quiet s (t, ok (true, c)) = Unit
Quiet s (t, ok (false, c)) = SameProjection s t
Quiet s (t, err f) = SameProjection s t

module _ (p : Platform) where
  apply_operation-Quiet :
      (o : Operation) (e : Envelope) (s : Peer) → Quiet s (apply_operation p o e s)
  unfolding apply_operation
  apply_operation-Quiet tombstone e s = tt
  apply_operation-Quiet grant_revocation e s = ground arith
  apply_operation-Quiet append_revision e s = ground arith
  apply_operation-Quiet structured_upsert e s = ground arith
  apply_operation-Quiet deletion_ack e s = tt
  apply_operation-Quiet raw_manifest e s = tt

  apply_once-Quiet :
      (found : Option String) (e : Envelope) (s : Peer) → Quiet s (apply_once p found e s)
  unfolding apply_once
  apply_once-Quiet (some d) e s = ground arith
  apply_once-Quiet none e s = ground (
    arith,
    apply_operation-Quiet e.operation e (record s {
      idempotency = insert e.idempotency_key (idempotency_digest p e) s.idempotency;
    }),
  )

  -- A call of `_apply_semantics` that reports `False`, or raises, leaves the revisions, the tombstones and the
  -- revoked devices of the peer as they were.
  pub apply_semantics-Quiet :
      (e : Envelope) (now : ℕ) (s : Peer) → Quiet s (apply_semantics p e now s)
  unfolding apply_semantics
  apply_semantics-Quiet e now s =
      ground (arith, apply_once-Quiet (lookup e.idempotency_key s.idempotency) e s)

  -- A revoked device, or one whose authorization has lapsed, applies nothing.
  pub apply_semantics-revoked :
      (e : Envelope) (now : ℕ) (s : Peer)
      → contains e.device_id s.revoked_devices ≡ true
      → SameProjection s (apply_semantics p e now s).0
  unfolding apply_semantics
  apply_semantics-revoked e now s h = ground arith

  apply_tombstone-Grows : (e : Envelope) (s : Peer) → Grows s (apply_tombstone p e s).0
  unfolding apply_tombstone
  apply_tombstone-Grows e s = record {
    tombstone = λ k h. grind (arith, has_key-insert);
    revoked = λ d h. h;
    idempotency = λ k d h. h;
  }

  apply_revocation-Grows : (e : Envelope) (s : Peer) → Grows s (apply_revocation p e s).0
  unfolding apply_revocation
  apply_revocation-Grows e s = record {
    tombstone = λ k h. ground arith;
    revoked = λ d h. grind (arith, contains-add);
    idempotency = λ k d h. ground arith;
  }

  apply_revision-Grows : (e : Envelope) (s : Peer) → Grows s (apply_revision p e s).0
  unfolding apply_revision
  apply_revision-Grows e s = record {
    tombstone = λ k h. ground arith;
    revoked = λ d h. ground arith;
    idempotency = λ k d h. ground arith;
  }

  apply_operation-Grows :
      (o : Operation) (e : Envelope) (s : Peer) → Grows s (apply_operation p o e s).0
  unfolding apply_operation
  apply_operation-Grows tombstone e s = apply_tombstone-Grows e s
  apply_operation-Grows grant_revocation e s = apply_revocation-Grows e s
  apply_operation-Grows append_revision e s = apply_revision-Grows e s
  apply_operation-Grows structured_upsert e s = apply_revision-Grows e s
  apply_operation-Grows deletion_ack e s = assumption (Grows-refl s)
  apply_operation-Grows raw_manifest e s = assumption (Grows-refl s)

  -- The key is new to the dictionary, so what was stored stays.
  apply_once-Grows :
      (e : Envelope) (s : Peer)
      → Grows s (apply_once p (lookup e.idempotency_key s.idempotency) e s).0
  unfolding apply_once
  apply_once-Grows e s = elim (Option-cases (lookup e.idempotency_key s.idempotency)) [
    | inl new ↦
        let s' = record s {
          idempotency = insert e.idempotency_key (idempotency_digest p e) s.idempotency;
        } in
        let g = apply_operation-Grows e.operation e s' in
        rw new (record {
          tombstone = g.tombstone;
          revoked = g.revoked;
          idempotency = λ k d h.
              g.idempotency k d (lookup-insert_new e.idempotency_key k _ s.idempotency new h);
        })
    | inr (d, old) ↦ rw old (record {
      tombstone = λ k h. ground arith;
      revoked = λ k h. ground arith;
      idempotency = λ k c h. ground arith;
    })
  ]

  pub apply_semantics-Grows :
      (e : Envelope) (now : ℕ) (s : Peer) → Grows s (apply_semantics p e now s).0
  unfolding apply_semantics
  apply_semantics-Grows e now s =
      let g = apply_once-Grows e s in
      record {
        tombstone = λ k h. ground (arith, g.tombstone k h);
        revoked = λ k h. ground (arith, g.revoked k h);
        idempotency = λ k c h. ground (arith, g.idempotency k c h);
      }

  -- The only fault of the semantics is the raise of a set's look-up.
  apply_once-ne-out_of_fuel :
      (found : Option String) (e : Envelope) (s : Peer)
      → (apply_once p found e s).1 ≢ err out_of_fuel
  unfolding apply_once apply_operation
  apply_once-ne-out_of_fuel found e s = ground arith

  pub apply_semantics-ne-out_of_fuel :
      (e : Envelope) (now : ℕ) (s : Peer) → (apply_semantics p e now s).1 ≢ err out_of_fuel
  unfolding apply_semantics
  apply_semantics-ne-out_of_fuel e now s =
      ground (arith, apply_once-ne-out_of_fuel (lookup e.idempotency_key s.idempotency) e s)
