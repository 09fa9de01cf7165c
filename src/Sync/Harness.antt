-- ===== src/Sync/Harness.antt =====
-- `DeterministicSimulator`: the peers, who of them is offline, what waits for them, and the record of deletions
-- (packages/sync-protocol/src/ameme_sync_protocol/simulator.py). A call that raises keeps what it had changed.
pub mod Deletion
pub mod Offline
pub mod Evaluate
pub mod Quiet
pub mod Settled
mod Tests
use Prim.Native.String
use ameme.Base.{
  string_eq, ℕ, ◌+◌, String, Bool, true, false, not, ◌&&◌, ◌||◌, Option, none, some, List, [], ◌∷◌,
  ◌++◌, ◌==◌, if◌then◌else◌, Outcome, ok, err, keep,
}
use ameme.Base.Dict.{Dict, lookup, insert, erase, default, keys}
use ameme.Base.Sets.{add, contains}
use ameme.Json.{Json, Items, nil, cons, Fields, end, field, get}
use ameme.Platform.{Platform}
use ameme.Sync.Envelope.{Envelope, Operation, tombstone}
use ameme.Sync.State.{
  Peer, Receipt, Code, duplicate_envelope, queued_offline, peer_offline, cursor_of,
}
use ameme.Sync.Semantics.{Fault, type_error, text_of}
use ameme.Sync.Receive.{receive, Received, emit, Emission, EmitError}
use ameme.Base.Sorting.{sort_texts}
use ameme.Base.Sets.{add_all}

-- An entry of `evidence`: a receipt under an action, or a change of who is offline.
pub data Observation : Type 0 where
  receipt_seen : ℕ → String → Receipt → Observation
  online_set : ℕ → String → Bool → Observation

pub record Harness : Type 0 where
  pub seed : ℕ
  pub peers : Dict String Peer
  pub tick : ℕ
  pub offline_peers : List String
  pub offline_queue : Dict String (List Envelope)
  pub deletion_required : Dict String (List String)
  pub deletion_receipts : Dict String (List String)
  pub evidence : List Observation

pub data HarnessError : Type 0 where
  no_peer still_offline : HarnessError
  fault : Fault → HarnessError
  emit_error : EmitError → HarnessError

abbrev pub Ran : Type 0 → Type 0
Ran A = Harness × Outcome HarnessError A

-- `_record`
abbrev pub record_receipt : String → Receipt → Harness → Harness
record_receipt action r h = record h { evidence = h.evidence ++ receipt_seen h.tick action r ∷ [] }

module _ (p : Platform) where
  texts_of : Items → List String
  texts_of nil = []
  texts_of (cons x xs) = text_of p x ∷ texts_of xs

  field_names : Fields → List String
  field_names end = []
  field_names (field k v fs) = k ∷ field_names fs

  characters : String → List String
  characters String.[] = []
  characters (String.◌∷◌ c s) = String.◌∷◌ c String.[] ∷ characters s

  -- `str(item) for item in required`
  unfoldable pub required_of : Option Json → Harness → Outcome HarnessError (List String)
  unfolding sort_texts texts_of field_names characters
  required_of none h = ok (sort_texts (keys h.peers))
  required_of (some (Json.arr xs)) h = ok (texts_of xs)
  required_of (some (Json.obj fs)) h = ok (field_names fs)
  required_of (some (Json.str s)) h = ok (characters s)
  required_of _ h = err (fault type_error)

  -- `self._deletion_required[object_id].update(...)`
  abbrev pub require_deletion : String → List String → Harness → Harness
  require_deletion id required h = record h {
    deletion_required =
        insert id (add_all required (default [] (lookup id h.deletion_required)))
          h.deletion_required;
  }

  abbrev pub acknowledges : Receipt → Bool
  acknowledges r = r.semantic_applied || is_duplicate r.code
    where
      is_duplicate : Code → Bool
      is_duplicate duplicate_envelope = true
      is_duplicate _ = false

  -- `self._deletion_receipts[object_id].add(peer_id)`
  abbrev pub acknowledge : String → String → Harness → Harness
  acknowledge id peer_id h = record h {
    deletion_receipts =
        insert id (add peer_id (default [] (lookup id h.deletion_receipts))) h.deletion_receipts;
  }

  -- `_track_tombstone`
  unfoldable pub track_tombstone : Envelope → String → Receipt → Harness → Ran (Unit {0})
  unfolding required_of add_all
  track_tombstone e peer_id r h = elim e.operation [
    | tombstone ↦ elim (required_of (get "required_peer_ids" e.payload) h) [
      | err c ↦ (require_deletion e.object_id [] h, err c)
      | ok required ↦
          let h' = require_deletion e.object_id required h in
          (if acknowledges r then acknowledge e.object_id peer_id h' else h', ok tt)
    ]
    | _ ↦ (h, ok tt)
  ]

  -- The delivery to a peer that is offline.
  unfoldable pub hold : Envelope → String → Harness → Ran Receipt
  hold e target h =
      let h' = record h {
        offline_queue =
            insert target (default [] (lookup target h.offline_queue) ++ e ∷ []) h.offline_queue;
      } in
      elim (lookup target h.peers) [
        | none ↦ (h', err no_peer)
        | some s ↦
            let r : Receipt = record {
              peer_id = target;
              envelope_id = e.sync_envelope_id;
              origin_device_id = e.device_id;
              device_sequence = e.device_sequence;
              status = queued_offline;
              code = peer_offline;
              cursor = cursor_of s e.device_id;
              semantic_applied = false;
            } in
            (record_receipt "delivery_queued" r h', ok r)
      ]

  abbrev pub returning : Receipt → Ran (Unit {0}) → Ran Receipt
  returning r (h, ok _) = (h, ok r)
  returning r (h, err c) = (h, err c)

  -- What follows the call of `receive` or `emit`: the evidence and the deletion.
  unfoldable pub after_receipt : String → Envelope → String → Receipt → Harness → Ran Receipt
  unfolding track_tombstone
  after_receipt action e target r h =
      returning r (track_tombstone e target r (record_receipt action r h))

  -- The new state of the peer, and what follows.
  unfoldable pub handed : Envelope → String → Harness → Received → Ran Receipt
  unfolding after_receipt
  handed e target h (s, ok r) =
      after_receipt "delivery" e target r (record h { peers = insert target s h.peers })
  handed e target h (s, err f) = (record h { peers = insert target s h.peers }, err (fault f))

  -- The delivery to a peer that is online.
  unfoldable pub hand_over : Envelope → String → Harness → Ran Receipt
  unfolding handed
  hand_over e target h = elim (lookup target h.peers) [
    | none ↦ (h, err no_peer)
    | some s ↦ handed e target h (receive p e h.tick s)
  ]

  -- `deliver`
  unfoldable pub deliver : Envelope → String → Harness → Ran Receipt
  unfolding hold hand_over
  deliver e target h =
      let h' = record h { tick = h.tick + 1 } in
      if contains target h'.offline_peers then hold e target h' else hand_over e target h'

  -- One delivery after the other; the first that raises ends the call.
  unfoldable pub deliver_all : List (Envelope × String) → Harness → Ran (List Receipt)
  unfolding deliver
  deliver_all [] h = (h, ok [])
  deliver_all ((e, target) ∷ rest) h =
      let (h', result) = deliver e target h in
      let (h'', results) = deliver_all rest h' in
      elim result [
        | err c ↦ (h', err c)
        | ok r ↦ elim results [ err c ↦ (h'', err c) | ok rs ↦ (h'', ok (r ∷ rs)) ]
      ]

  -- `broadcast`
  unfoldable pub broadcast : Envelope → Bool → Harness → Ran (List Receipt)
  unfolding deliver_all sort_texts
  broadcast e exclude_origin h =
      deliver_all
        (to (keep (λ id. not (exclude_origin && id == e.device_id)) (sort_texts (keys h.peers)))) h
    where
      to : List String → List (Envelope × String)
      to [] = []
      to (id ∷ ids) = (e, id) ∷ to ids

  -- `set_online`
  unfoldable pub set_online : String → Bool → Harness → Harness
  set_online id online h = record h {
    offline_peers =
        if online then keep (λ x. not (x == id)) h.offline_peers else add id h.offline_peers;
    evidence = h.evidence ++ online_set h.tick id online ∷ [];
  }

  reversed : List Envelope → List Envelope → List Envelope
  reversed [] done = done
  reversed (e ∷ es) done = reversed es (e ∷ done)

  -- `[self.deliver(envelope, peer_id) for envelope in queued]`
  unfoldable pub each_to : String → List Envelope → List (Envelope × String)
  each_to id [] = []
  each_to id (e ∷ es) = (e, id) ∷ each_to id es

  -- `replay_offline`
  unfoldable pub replay_offline : String → Bool → Harness → Ran (List Receipt)
  unfolding deliver_all reversed each_to
  replay_offline id reverse h =
      let queued = default [] (lookup id h.offline_queue) in
      let h' = record h { offline_queue = erase id h.offline_queue } in
      if contains id h.offline_peers
      then (h, err still_offline)
      else deliver_all (each_to id (if reverse then reversed queued [] else queued)) h'

  -- `emit` of a peer that is there
  unfoldable pub emit_from : (ℕ → String) → String → Emission → Harness → Ran Envelope
  unfolding after_receipt
  emit_from clock id m h =
      let h1 = record h { tick = h.tick + 1 } in
      elim (lookup id h1.peers) [
        | none ↦ (h1, err no_peer)
        | some s ↦
            let (s', result) = emit p clock m h1.tick s in
            let h2 = record h1 { peers = insert id s' h1.peers } in
            elim result [
              | err c ↦ (h2, err (emit_error c))
              | ok (e, r) ↦
                  let (h3, tracked) = after_receipt "local_emit" e id r h2 in
                  elim tracked [ ok _ ↦ (h3, ok e) | err c ↦ (h3, err c) ]
            ]
      ]
