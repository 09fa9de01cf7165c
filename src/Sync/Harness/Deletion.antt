-- ===== src/Sync/Harness/Deletion.antt =====
-- When a deletion counts as received (`_track_tombstone` of
-- packages/sync-protocol/src/ameme_sync_protocol/simulator.py).
use mathlib.Core.Path.{subst}
use text.Mathlib.TextEquality.{eq_iff}
use ameme.Base.{
  sym, ap, ◌∙◌, string_eq, nat_eq, ℕ, ◌+◌, ◌≡◌, refl, true, false, none, some, String, [], ok,
  ==-refl,
}
use ameme.Base.Dict.{lookup, insert, lookup-insert, default, has_key, keys}
use ameme.Base.Sets.{add, contains, contains-add}
use ameme.Json.{get}
use ameme.Platform.{Platform}
use ameme.Sync.Envelope.{Envelope, digest, tombstone}
use ameme.Sync.State.{Peer, Receipt, digest_of, duplicate, duplicate_envelope, receipt}
use ameme.Sync.Receive.{receive, receive_known}
use ameme.Base.Sorting.{sort_texts}
use ameme.Sync.Harness.{
  Harness, Ran, track_tombstone, required_of, require_deletion, acknowledge, acknowledges,
  record_receipt, after_receipt, handed, returning, hand_over, deliver,
}

module _ (p : Platform) (e : Envelope) (target : String) where
  receive-duplicate :
      (now : ℕ) (s : Peer)
      → e.space_id ≡ s.space_id
      → digest_of s e.device_id e.device_sequence ≡ some (digest p e)
      → receive p e now s ≡ (s, ok (receipt s e duplicate duplicate_envelope false))
  unfolding receive receive_known
  receive-duplicate now s here seen =
      rw ((eq_iff e.space_id s.space_id).1 here, seen, ==-refl (digest p e), receive) refl

  track_tombstone-acknowledged :
      (r : Receipt) (h : Harness)
      → e.operation ≡ tombstone
      → get "required_peer_ids" e.payload ≡ none
      → acknowledges p r ≡ true
      → track_tombstone p e target r h ≡ (
        acknowledge p e.object_id target
            (require_deletion p e.object_id (sort_texts (keys h.peers)) h),
        ok tt,
      )
  unfolding track_tombstone required_of
  track_tombstone-acknowledged r h kind plain done = rw (kind, plain, done, track_tombstone) refl

  -- The harness once the receipt is in the evidence and the deletion is acknowledged.
  abbrev acknowledged : String → Receipt → Harness → Harness
  acknowledged action r h =
      acknowledge p e.object_id target
        (require_deletion p e.object_id (sort_texts (keys h.peers)) (record_receipt action r h))

  after_receipt-acknowledged :
      (action : String) (r : Receipt) (h : Harness)
      → e.operation ≡ tombstone
      → get "required_peer_ids" e.payload ≡ none
      → acknowledges p r ≡ true
      → after_receipt p action e target r h ≡ (acknowledged action r h, ok r)
  unfolding after_receipt
  after_receipt-acknowledged action r h kind plain done =
      ap (returning p r)
        (track_tombstone-acknowledged r (record_receipt action r h) kind plain done)

  contains-acknowledge :
      (h : Harness)
      → contains target
          (default [] (lookup e.object_id (acknowledge p e.object_id target h).deletion_receipts))
        ≡ true
  contains-acknowledge h =
      let old = default [] (lookup e.object_id h.deletion_receipts) in
      rw
        (
          lookup-insert e.object_id e.object_id (add target old) h.deletion_receipts,
          ==-refl e.object_id,
          contains-add target target old,
          ==-refl target,
        )
        refl

  hand_over-duplicate :
      (h : Harness) (s : Peer)
      → lookup target h.peers ≡ some s
      → e.operation ≡ tombstone
      → get "required_peer_ids" e.payload ≡ none
      → e.space_id ≡ s.space_id
      → digest_of s e.device_id e.device_sequence ≡ some (digest p e)
      → let r = receipt s e duplicate duplicate_envelope false in
        hand_over p e target h
        ≡ (acknowledged "delivery" r (record h { peers = insert target s h.peers }), ok r)
  unfolding hand_over handed
  hand_over-duplicate h s found kind plain here seen =
      rw (found, hand_over)
        (ap (handed p e target h) (receive-duplicate h.tick s here seen)
          ∙ after_receipt-acknowledged "delivery" (receipt s e duplicate duplicate_envelope false)
              (record h { peers = insert target s h.peers }) kind plain refl)

  -- What a delivery leaves that counts as the receipt of a tombstone that the peer does not hold.
  pub record FalseReceipt (q : Ran Receipt) : Type 0 where
    pub duplicated : (r : Receipt) × (q.1 ≡ ok r) × (r.code ≡ duplicate_envelope)
    pub without :
        (s : Peer) × (lookup target q.0.peers ≡ some s) × (has_key e.object_id s.tombstones ≡ false)
    pub counted : contains target (default [] (lookup e.object_id q.0.deletion_receipts)) ≡ true

  -- A tombstone of the peer's space that names no required peers, and that a peer which is online has seen before,
  -- counts as received by it when it is delivered again, also where the peer refused it the first time and holds no
  -- tombstone of the object.
  pub refused_tombstone_is_acknowledged :
      (h : Harness) (s : Peer)
      → lookup target h.peers ≡ some s
      → contains target h.offline_peers ≡ false
      → e.operation ≡ tombstone
      → get "required_peer_ids" e.payload ≡ none
      → e.space_id ≡ s.space_id
      → digest_of s e.device_id e.device_sequence ≡ some (digest p e)
      → has_key e.object_id s.tombstones ≡ false
      → FalseReceipt (deliver p e target h)
  unfolding deliver
  refused_tombstone_is_acknowledged h s found online kind plain here seen missing =
      let h' = record h { tick = h.tick + 1 } in
      let h'' = record h' { peers = insert target s h'.peers } in
      let r = receipt s e duplicate duplicate_envelope false in
      let reached : deliver p e target h ≡ (acknowledged "delivery" r h'', ok r) =
        rw (online, deliver) (hand_over-duplicate h' s found kind plain here seen) in
      subst FalseReceipt (sym reached) (record {
        duplicated = (r, refl, refl);
        without = (s, rw (lookup-insert target target s h.peers, ==-refl target) refl, missing);
        counted = contains-acknowledge (
            require_deletion p e.object_id (sort_texts (keys h''.peers))
              (record_receipt "delivery" r h''));
      })
