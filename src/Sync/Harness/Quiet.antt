-- ===== src/Sync/Harness/Quiet.antt =====
-- What the parts of an evaluation are empty or equal for (`evaluate` of
-- packages/sync-protocol/src/ameme_sync_protocol/simulator.py).
use ameme.Base.{
  string_eq, nat_eq, ◌≡◌, refl, arith, String, ◌+s◌, Bool, true, false, some, List, [], ◌∷◌, ◌==◌,
  not, length, is_empty, if◌then◌else◌, Bool-cases, inl, inr, sym, ap, ◌∙◌, ==-refl, not-eq-false,
  ||-eq-false,
}
use ameme.Base.Text.{decimal}
use ameme.Base.Dict.{Dict, values, lookup, insert, default}
use ameme.Base.Sets.{add, add_all, contains}
use ameme.Base.Members.{sort_texts-empty, add-filled, add_all-empty, insert-filled, keep-empty}
use ameme.Platform.{Platform}
use ameme.Sync.Envelope.{digest_json}
use ameme.Sync.State.{Peer}
use ameme.Sync.Project.{Alternative}
use ameme.Sync.Report.{state_snapshot, partial_reasons, conflicts}
use ameme.Sync.Report.Documents.{snapshot_json}
use ameme.Sync.Harness.{Harness}
use ameme.Sync.Harness.Evaluate.{
  convergence, snapshots_of, digests_of, reasons_of, all_reasons, merge_conflicts, all_conflicts,
  absent_from, deletion_proof, proofs_of, is_incomplete, outcome_of,
}

-- The parts of an outcome that is `convergence`.
pub outcome_of-convergence :
    (a b c d : Bool)
    → outcome_of a b c d ≡ convergence
    → (a ≡ true) × (b ≡ false) × (c ≡ false) × (d ≡ false)
unfolding outcome_of
outcome_of-convergence true false false false h = (refl, refl, refl, refl)
outcome_of-convergence true true false false h = cc h
outcome_of-convergence false b false false h = cc h
outcome_of-convergence a b true false h = cc h
outcome_of-convergence a b c true h = cc h

module _ (p : Platform) where
  -- The digest of a peer's state
  abbrev pub state_digest : Peer → String
  unfolding digest_json snapshot_json state_snapshot
  state_digest s = digest_json p (snapshot_json (state_snapshot p s))

  pub digests_of-found :
      (id : String) (s : Peer) (found : Dict String Peer)
      → lookup id found ≡ some s
      → contains (state_digest s) (values (digests_of p (snapshots_of p found))) ≡ true
  unfolding lookup contains digests_of snapshots_of
  digests_of-found id s [] h = cc h
  digests_of-found id s ((j, u) ∷ found) h = elim (Bool-cases (j == id)) [
    | inl same ↦
        let here : some u ≡ some s = sym (rw same refl) ∙ h in
        let equal : u ≡ s = cc here in rw (ap state_digest equal, ==-refl (state_digest s)) refl
    | inr other ↦
        let later : lookup id found ≡ some s = sym (rw other refl) ∙ h in
        rw (digests_of-found id s found later) (ground arith)
  ]

  pub all_reasons-quiet :
      (h : Harness) (id : String) (s : Peer) (found : Dict String Peer)
      → is_empty (all_reasons p h found) ≡ true
      → lookup id found ≡ some s
      → is_empty (reasons_of p h id s) ≡ true
  unfolding lookup all_reasons
  all_reasons-quiet h id s [] e l = cc l
  all_reasons-quiet h id s ((j, u) ∷ found) e l =
      ground (arith, string_eq.same_iff j id, all_reasons-quiet h id s found)

  pub merge_conflicts-filled :
      (xs d : Dict String (Dict String (List Alternative)))
      → is_empty d ≡ false
      → is_empty (merge_conflicts p xs d) ≡ false
  unfolding merge_conflicts
  merge_conflicts-filled [] d h = h
  merge_conflicts-filled ((k, v) ∷ xs) d h =
      merge_conflicts-filled xs (insert k v d) (insert-filled k v d)

  pub all_conflicts-filled :
      (found : Dict String Peer) (d : Dict String (Dict String (List Alternative)))
      → is_empty d ≡ false
      → is_empty (all_conflicts p found d) ≡ false
  unfolding all_conflicts
  all_conflicts-filled [] d h = h
  all_conflicts-filled ((id, s) ∷ found) d h =
      all_conflicts-filled found (merge_conflicts p (conflicts p s) d)
        (merge_conflicts-filled (conflicts p s) d h)

  pub merge_conflicts-empty :
      (xs d : Dict String (Dict String (List Alternative)))
      → is_empty (merge_conflicts p xs d) ≡ true
      → xs ≡ []
  unfolding merge_conflicts
  merge_conflicts-empty [] d h = refl
  merge_conflicts-empty ((k, v) ∷ xs) d h =
      cc (h, merge_conflicts-filled xs (insert k v d) (insert-filled k v d))

  pub all_conflicts-none :
      (id : String) (s : Peer) (found : Dict String Peer)
      (d : Dict String (Dict String (List Alternative)))
      → is_empty (all_conflicts p found d) ≡ true
      → lookup id found ≡ some s
      → conflicts p s ≡ []
  unfolding lookup all_conflicts
  all_conflicts-none id s [] d e l = cc l
  all_conflicts-none id s ((j, u) ∷ found) d e l = elim (Bool-cases (j == id)) [
    | inl same ↦
        let here : some u ≡ some s = sym (rw same refl) ∙ l in
        let equal : u ≡ s = cc here in
        elim (Bool-cases (is_empty (merge_conflicts p (conflicts p u) d))) [
          | inl none_yet ↦
              sym (ap (conflicts p) equal) ∙ merge_conflicts-empty (conflicts p u) d none_yet
          | inr some_yet ↦
              absurd
                (cc (e, all_conflicts-filled found (merge_conflicts p (conflicts p u) d) some_yet))
        ]
    | inr other ↦
        all_conflicts-none id s found (merge_conflicts p (conflicts p u) d) e
          (sym (rw other refl) ∙ l)
  ]

  -- A peer absent_from reasons is online, has nothing that waits for it, and has no reasons of its own.
  pub reasons_of-quiet :
      (h : Harness) (id : String) (s : Peer)
      → is_empty (reasons_of p h id s) ≡ true
      → (contains id h.offline_peers ≡ false)
        × (is_empty (default [] (lookup id h.offline_queue)) ≡ true)
        × (partial_reasons p s ≡ [])
  unfolding reasons_of
  reasons_of-quiet h id s e =
      let own = add_all (partial_reasons p s) [] in
      let offline = if contains id h.offline_peers then add "peer_offline" own else own in
      let queue = default [] (lookup id h.offline_queue) in
      elim (Bool-cases (is_empty queue)) [
        | inr waiting ↦ absurd (
            cc (
              e,
              waiting,
              add-filled ("offline_replay_pending:" +s decimal (length queue)) offline,
            ))
        | inl idle ↦ elim (Bool-cases (contains id h.offline_peers)) [
          | inl away ↦ absurd (cc (e, idle, away, add-filled "peer_offline" own))
          | inr here ↦ (here, idle, add_all-empty (partial_reasons p s) (cc (e, idle, here)))
        ]
      ]

pub proofs_of_complete :
    (h : Harness) (target : String) (targets : List String)
    → is_incomplete (proofs_of h targets) ≡ false
    → contains target targets ≡ true
    → (deletion_proof h target).is_complete ≡ true
unfolding proofs_of is_incomplete contains
proofs_of_complete h target [] e k = cc k
proofs_of_complete h target (t ∷ targets) e k = elim (Bool-cases (t == target)) [
  | inl same ↦
      let here = (string_eq.same_iff t target).0 same in
      let (first, _) =
        ||-eq-false (not (deletion_proof h t).is_complete) (is_incomplete (proofs_of h targets))
          e in
      ap (λ id. (deletion_proof h id).is_complete) (sym here)
      ∙ not-eq-false (deletion_proof h t).is_complete first
  | inr other ↦
      let (_, rest) =
        ||-eq-false (not (deletion_proof h t).is_complete) (is_incomplete (proofs_of h targets))
          e in
      proofs_of_complete h target targets rest (sym (rw other refl) ∙ k)
]

-- The peers that a deletion is required of have acknowledged it.
pub deletion_proof_complete :
    (h : Harness) (target : String) (required : List String) (id : String)
    → (deletion_proof h target).is_complete ≡ true
    → lookup target h.deletion_required ≡ some required
    → contains id required ≡ true
    → contains id (default [] (lookup target h.deletion_receipts)) ≡ true
unfolding deletion_proof
deletion_proof_complete h target required id e l k =
    let receipts = default [] (lookup target h.deletion_receipts) in
    let missing = absent_from (default [] (lookup target h.deletion_required)) receipts in
    let none_missing = sort_texts-empty missing e in
    not-eq-false (contains id receipts) (
      keep-empty (λ x. not (contains x receipts)) id required
        (ap (λ o. is_empty (absent_from (default [] o) receipts)) (sym l) ∙ none_missing) k)
