-- ===== src/Sync/Harness/Evaluate.antt =====
-- `DeterministicSimulator.evaluate` and its constructor
-- (packages/sync-protocol/src/ameme_sync_protocol/simulator.py).
use ameme.Sync.Report.Documents.{snapshot_json}
use ameme.Base.{
  string_eq, nat_eq, ℕ, String, ◌+s◌, Bool, false, Option, none, some, List, [], ◌∷◌, ◌++◌, ◌==◌,
  ◌||◌, not, length, is_empty, if◌then◌else◌, Outcome, ok, err, keep,
}
use ameme.Base.Int.{pos}
use ameme.Base.Text.{decimal}
use ameme.Base.Dict.{Dict, keys, values, lookup, insert, default}
use ameme.Base.Sets.{add, add_all, contains}
use ameme.Base.Sorting.{sort_texts}
use ameme.Platform.{Platform}
use ameme.Sync.Envelope.{digest_json}
use ameme.Sync.State.{Peer, new_peer}
use ameme.Sync.Project.{Alternative}
use ameme.Sync.Report.{Snapshot, state_snapshot, partial_reasons, conflicts}
use ameme.Sync.Harness.{Harness, HarnessError, no_peer, Observation}

-- `{peer_id: Peer(peer_id) for peer_id in ids}`
unfoldable pub new_peers : List String → Dict String Peer → Dict String Peer
unfolding insert
new_peers [] d = d
new_peers (id ∷ ids) d =
    new_peers ids (insert id (new_peer id "space_sync_synthetic" (pos 1 ∷ [])) d)

-- `__init__`; none where it raises `ValueError`.
unfoldable pub new_harness : List String → ℕ → Option Harness
unfolding new_peers add_all
new_harness ids seed =
    if not (length ids == 2 || length ids == 3) || not (length (add_all ids []) == length ids)
    then none
    else some (record {
      seed = seed;
      peers = new_peers ids [];
      tick = 0;
      offline_peers = [];
      offline_queue = [];
      deletion_required = [];
      deletion_receipts = [];
      evidence = [];
    })

-- `Outcome`
pub data Verdict : Type 0 where
  convergence partial conflicting proof_incomplete : Verdict

-- An entry of `deletion_proofs`
pub record DeletionProof : Type 0 where
  pub target_id : String
  pub is_complete : Bool
  pub required_peer_ids : List String
  pub acknowledged_peer_ids : List String
  pub pending_peer_ids : List String

-- `SimulationResult`
pub record Evaluation : Type 0 where
  pub outcome : Verdict
  pub converged : Bool
  pub seed : ℕ
  pub peer_state_digests : Dict String String
  pub peer_snapshots : Dict String Snapshot
  pub partial_reasons : Dict String (List String)
  pub conflicts : Dict String (Dict String (List Alternative))
  pub deletion_proofs : List DeletionProof
  pub evidence : List Observation
  pub conditions : List String

-- The peers of a list of ids, one entry for each id
unfoldable pub peers_of :
    List String → Harness → Dict String Peer → Outcome HarnessError (Dict String Peer)
unfolding lookup insert
peers_of [] h found = ok found
peers_of (id ∷ ids) h found = elim (lookup id h.peers) [
  | none ↦ err no_peer
  | some s ↦ peers_of ids h (insert id s found)
]

-- `sorted(required_peer_ids or self.peers)`
unfoldable pub peer_ids : Option (List String) → Harness → List String
unfolding sort_texts
peer_ids (some (id ∷ ids)) h = sort_texts (id ∷ ids)
peer_ids _ h = sort_texts (keys h.peers)

-- The members of a set that are not in another
abbrev pub absent_from : List String → List String → List String
unfolding contains
absent_from xs ys = keep (λ x. not (contains x ys)) xs

module _ (p : Platform) where
  unfoldable pub snapshots_of : Dict String Peer → Dict String Snapshot
  unfolding state_snapshot
  snapshots_of [] = []
  snapshots_of ((id, s) ∷ rest) = (id, state_snapshot p s) ∷ snapshots_of rest

  -- `digest_json` of every snapshot
  unfoldable pub digests_of : Dict String Snapshot → Dict String String
  unfolding digest_json snapshot_json
  digests_of [] = []
  digests_of ((id, v) ∷ rest) = (id, digest_json p (snapshot_json v)) ∷ digests_of rest

  -- The reasons of one peer, those of the harness included
  unfoldable pub reasons_of : Harness → String → Peer → List String
  unfolding partial_reasons add add_all contains lookup decimal
  reasons_of h id s =
      let own = add_all (partial_reasons p s) [] in
      let offline = if contains id h.offline_peers then add "peer_offline" own else own in
      let queue = default [] (lookup id h.offline_queue) in
      if is_empty queue
      then offline
      else add ("offline_replay_pending:" +s decimal (length queue)) offline

  unfoldable pub all_reasons : Harness → Dict String Peer → Dict String (List String)
  unfolding reasons_of sort_texts
  all_reasons h [] = []
  all_reasons h ((id, s) ∷ rest) =
      let reasons = reasons_of h id s in
      let others = all_reasons h rest in
      if is_empty reasons then others else (id, sort_texts reasons) ∷ others

  -- `conflicts[event_id] = fields`
  unfoldable pub merge_conflicts :
      Dict String (Dict String (List Alternative))
      → Dict String (Dict String (List Alternative))
      → Dict String (Dict String (List Alternative))
  unfolding insert
  merge_conflicts [] d = d
  merge_conflicts ((id, fields) ∷ rest) d = merge_conflicts rest (insert id fields d)

  unfoldable pub all_conflicts :
      Dict String Peer
      → Dict String (Dict String (List Alternative))
      → Dict String (Dict String (List Alternative))
  unfolding merge_conflicts conflicts
  all_conflicts [] d = d
  all_conflicts ((id, s) ∷ rest) d = all_conflicts rest (merge_conflicts (conflicts p s) d)

-- The proof of the deletion of one target
unfoldable pub deletion_proof : Harness → String → DeletionProof
unfolding lookup contains sort_texts
deletion_proof h id =
    let required = default [] (lookup id h.deletion_required) in
    let receipts = default [] (lookup id h.deletion_receipts) in
    let missing = sort_texts (absent_from required receipts) in
    record {
      target_id = id;
      is_complete = is_empty missing;
      required_peer_ids = sort_texts required;
      acknowledged_peer_ids = sort_texts (keep (λ x. contains x receipts) required);
      pending_peer_ids = missing;
    }

unfoldable pub proofs_of : Harness → List String → List DeletionProof
unfolding deletion_proof
proofs_of h [] = []
proofs_of h (id ∷ ids) = deletion_proof h id ∷ proofs_of h ids

-- `proof_incomplete`
unfoldable pub is_incomplete : List DeletionProof → Bool
is_incomplete [] = false
is_incomplete (v ∷ vs) = not v.is_complete || is_incomplete vs

-- `conditions`
abbrev pub conditions_of : Bool → Bool → Bool → Bool → List String
conditions_of converged has_partial has_conflict incomplete =
    (if converged then "state_digests_equal" else "state_digests_differ")
      ∷ (if has_partial then "partial_scope_or_rejection_present" ∷ [] else [])
    ++ (if has_conflict then "revision_conflict_preserved" ∷ [] else [])
    ++ (if incomplete then "deletion_proof_incomplete" ∷ [] else [])

-- `outcome`
unfoldable pub outcome_of : Bool → Bool → Bool → Bool → Verdict
outcome_of converged has_partial has_conflict incomplete =
    if incomplete
    then proof_incomplete
    else if has_conflict
    then conflicting
    else if not converged || has_partial
    then partial
    else convergence

-- `len(set(digests.values())) == 1`
unfoldable pub is_one : List String → Bool
unfolding add_all
is_one xs = length (add_all xs []) == 1

module _ (p : Platform) where
  -- From the peers on
  unfoldable pub evaluate_peers : Harness → Dict String Peer → Evaluation
  unfolding snapshots_of digests_of all_reasons all_conflicts proofs_of is_incomplete outcome_of
      is_one sort_texts
  evaluate_peers h found =
      let snapshots = snapshots_of p found in
      let digests = digests_of p snapshots in
      let converged = is_one (values digests) in
      let reasons = all_reasons p h found in
      let conflicts' = all_conflicts p found [] in
      let proofs = proofs_of h (sort_texts (keys h.deletion_required)) in
      let has_partial = not (is_empty reasons) in
      let has_conflict = not (is_empty conflicts') in
      record {
        outcome = outcome_of converged has_partial has_conflict (is_incomplete proofs);
        converged = converged;
        seed = h.seed;
        peer_state_digests = digests;
        peer_snapshots = snapshots;
        partial_reasons = reasons;
        conflicts = conflicts';
        deletion_proofs = proofs;
        evidence = h.evidence;
        conditions = conditions_of converged has_partial has_conflict (is_incomplete proofs);
      }

  abbrev pub evaluate_found :
      Harness → Outcome HarnessError (Dict String Peer) → Outcome HarnessError Evaluation
  unfolding evaluate_peers
  evaluate_found h (ok found) = ok (evaluate_peers h found)
  evaluate_found h (err e) = err e

  -- `evaluate`
  unfoldable pub evaluate : Option (List String) → Harness → Outcome HarnessError Evaluation
  unfolding evaluate_peers peers_of peer_ids
  evaluate required h = evaluate_found h (peers_of (peer_ids required h) h [])
