-- ===== src/Sync/Harness/Settled.antt =====
-- What the outcome `convergence` says (`evaluate` of
-- packages/sync-protocol/src/ameme_sync_protocol/simulator.py).
use ameme.Sync.Report.Reasons.{gap_is_reported}
use ameme.Sync.Harness.Quiet.{
  outcome_of-convergence, digests_of-found, all_reasons-quiet, all_conflicts-none, reasons_of-quiet,
  proofs_of_complete, deletion_proof_complete, state_digest,
}
use ameme.Base.{
  string_eq, nat_eq, ℕ, ◌≡◌, ◌≢◌, refl, String, true, false, Option, some, List, [], not, is_empty,
  Outcome, ok, err, sym, ap, ◌∙◌, not-eq-false, ok-injective,
}
use ameme.Base.Dict.{Dict, keys, values, lookup, default}
use ameme.Base.Sets.{contains}
use ameme.Base.Sorting.{sort_texts}
use ameme.Base.Members.{contains-sort_texts, add_all-one, lookup-keys}
use ameme.Platform.{Platform}
use ameme.Sync.State.{Peer, Pending, pending_at}
use ameme.Sync.Report.{partial_reasons, conflicts, gap_reason}
use ameme.Sync.Harness.{Harness, HarnessError}
use ameme.Sync.Harness.Evaluate.{
  convergence, Evaluation, peers_of, peer_ids, snapshots_of, digests_of, all_reasons, all_conflicts,
  proofs_of, is_incomplete, is_one, evaluate_peers, evaluate_found, evaluate,
}

-- What holds of a harness and of the peers that are evaluated.
pub record IsSettled (p : Platform) (h : Harness) (found : Dict String Peer) : Type 0 where
  pub agree :
      (i j : String) (s u : Peer)
      → lookup i found ≡ some s
      → lookup j found ≡ some u
      → state_digest p s ≡ state_digest p u
  pub online :
      (i : String) (s : Peer)
      → lookup i found ≡ some s
      → (contains i h.offline_peers ≡ false)
        × (is_empty (default [] (lookup i h.offline_queue)) ≡ true)
  pub whole : (i : String) (s : Peer) → lookup i found ≡ some s → partial_reasons p s ≡ []
  pub decided : (i : String) (s : Peer) → lookup i found ≡ some s → conflicts p s ≡ []
  pub deleted :
      (target : String) (required : List String) (id : String)
      → lookup target h.deletion_required ≡ some required
      → contains id required ≡ true
      → contains id (default [] (lookup target h.deletion_receipts)) ≡ true

evaluate_peers-IsSettled :
    (p : Platform) (h : Harness) (found : Dict String Peer)
    → (evaluate_peers p h found).outcome ≡ convergence
    → IsSettled p h found
unfolding evaluate_peers
evaluate_peers-IsSettled p h found e =
    let digests = values (digests_of p (snapshots_of p found)) in
    let proofs = proofs_of h (sort_texts (keys h.deletion_required)) in
    let (same, no_reason, no_conflict, complete) =
      outcome_of-convergence (is_one digests) (not (is_empty (all_reasons p h found)))
        (not (is_empty (all_conflicts p found []))) (is_incomplete proofs) e in
    let quiet : (i : String) (s : Peer) → lookup i found ≡ some s → _ = λ i s l.
      reasons_of-quiet p h i s (
        all_reasons-quiet p h i s found (not-eq-false (is_empty (all_reasons p h found)) no_reason)
          l) in
    record {
      agree = λ i j s u l k.
          add_all-one (state_digest p s) (state_digest p u) digests same
            (digests_of-found p i s found l) (digests_of-found p j u found k);
      online = λ i s l. let (here, idle, _) = quiet i s l in (here, idle);
      whole = λ i s l. let (_, _, own) = quiet i s l in own;
      decided = λ i s l.
          all_conflicts-none p i s found []
            (not-eq-false (is_empty (all_conflicts p found [])) no_conflict) l;
      deleted = λ target required id l k.
          deletion_proof_complete h target required id
            (proofs_of_complete h target (sort_texts (keys h.deletion_required)) complete (
              contains-sort_texts target (keys h.deletion_required)
              ∙ lookup-keys target required h.deletion_required l))
            l k;
    }

-- If `evaluate` returns the outcome convergence, then it found all peers that it was asked for; the states of all of
-- them have the same digest, all are online with nothing that waits for them, none has a partial reason or a
-- conflict, and every peer that a deletion is required of has acknowledged it.
pub evaluate-IsSettled :
    (p : Platform) (required : Option (List String)) (h : Harness) (r : Evaluation)
    → evaluate p required h ≡ ok r
    → r.outcome ≡ convergence
    → (found : Dict String Peer) × (peers_of (peer_ids required h) h [] ≡ ok found)
      × IsSettled p h found
unfolding evaluate
evaluate-IsSettled p required h r e c = of_found (peers_of (peer_ids required h) h []) refl e
  where
    of_found :
        (o : Outcome HarnessError (Dict String Peer))
        → peers_of (peer_ids required h) h [] ≡ o
        → evaluate_found p h o ≡ ok r
        → (found : Dict String Peer) × (peers_of (peer_ids required h) h [] ≡ ok found)
          × IsSettled p h found
    of_found (ok found) q e = (
      found,
      q,
      evaluate_peers-IsSettled p h found
          (ap (λ v. v.outcome) (ok-injective (evaluate_peers p h found) r e) ∙ c),
    )
    of_found (err x) q e = cc e

-- While an envelope waits for its turn at one of the peers that are evaluated, the outcome is not convergence.
pub evaluate-waiting :
    (p : Platform) (required : Option (List String)) (h : Harness) (found : Dict String Peer)
    (r : Evaluation) (id origin : String) (n : ℕ) (entry : Pending) (s : Peer)
    → peers_of (peer_ids required h) h [] ≡ ok found
    → lookup id found ≡ some s
    → pending_at s origin n ≡ some entry
    → evaluate p required h ≡ ok r
    → r.outcome ≢ convergence
unfolding contains
evaluate-waiting p required h found r id origin n entry s f l w e c =
    let (found', f', settled) = evaluate-IsSettled p required h r e c in
    let same = ok-injective found found' (sym f ∙ f') in
    let quiet = settled.whole id s (ap (lookup id) (sym same) ∙ l) in
    cc (ap (contains (gap_reason s origin)) quiet, gap_is_reported p origin n entry s w)
