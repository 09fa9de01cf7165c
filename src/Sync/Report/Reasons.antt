-- ===== src/Sync/Report/Reasons.antt =====
-- What stands in the partial reasons of a peer
-- (`partial_reasons` of packages/sync-protocol/src/ameme_sync_protocol/simulator.py).
use ameme.Base.{
  string_eq, nat_eq, ℕ, ◌≡◌, refl, true, false, none, some, String, Option, List, [], ◌∷◌, is_empty,
  ◌∙◌, sym, ◌+◌, ◌+s◌, if◌then◌else◌, ◌==◌, if_induction, ==-refl, Bool-cases, inl, inr,
}
use mathlib.Core.Path.{subst}
use ameme.Base.Dict.{Dict, lookup, lookup2, default}
use ameme.Base.Sets.{add, contains, contains-add}
use ameme.Base.Members.{contains-sort_texts, stays-add, stays-add_all}
use ameme.Base.Text.{decimal}
use ameme.Platform.{Platform}
use ameme.Sync.State.{Peer, Pending, pending_at, cursor_of}
use ameme.Sync.Report.{
  gap_reason, pending_reasons, partial_reasons, quarantine_reasons, event_reasons, event_ids,
}

module _ (s : Peer) where
  stays-pending_reasons :
      (k : String) (d : Dict String (Dict ℕ Pending)) (r : List String)
      → contains k r ≡ true
      → contains k (pending_reasons s d r) ≡ true
  unfolding pending_reasons
  stays-pending_reasons k [] r h = h
  stays-pending_reasons k ((origin, waiting) ∷ rest) r h =
      stays-pending_reasons k rest (if is_empty waiting then r else add (gap_reason s origin) r) (
        if_induction (λ t. contains k t ≡ true) (is_empty waiting) (λ _. h)
          (λ _. stays-add k (gap_reason s origin) r h))

  names :
      (o origin : String) (r : List String)
      → o ≡ origin
      → contains (gap_reason s origin) (add (gap_reason s o) r) ≡ true
  names o origin r h =
      let x = gap_reason s o in
      subst (λ y. contains (gap_reason s y) (add x r) ≡ true) h
        (rw (contains-add x x r, ==-refl x) refl)

  -- A sender that has something waiting is among the reasons.
  pending_reasons-waiting :
      (origin : String) (waiting : Dict ℕ Pending) (d : Dict String (Dict ℕ Pending))
      (r : List String)
      → lookup origin d ≡ some waiting
      → is_empty waiting ≡ false
      → contains (gap_reason s origin) (pending_reasons s d r) ≡ true
  unfolding pending_reasons lookup
  pending_reasons-waiting origin waiting [] r h k = cc h
  pending_reasons-waiting origin waiting ((o, w) ∷ rest) r h k = elim (Bool-cases (o == origin)) [
    | inl same ↦
        let here : some w ≡ some waiting = sym (rw same refl) ∙ h in
        let full : is_empty w ≡ false = cc (here, k) in
        rw full (
          stays-pending_reasons (gap_reason s origin) rest (add (gap_reason s o) r)
            (names o origin r ((string_eq.same_iff o origin).0 same)))
    | inr other ↦
        let later : lookup origin rest ≡ some waiting = sym (rw other refl) ∙ h in
        pending_reasons-waiting origin waiting rest _ later k
  ]

row-waiting :
    (n : ℕ) (entry : Pending) (o : Option (Dict ℕ Pending))
    → lookup n (default [] o) ≡ some entry
    → (waiting : Dict ℕ Pending) × (o ≡ some waiting) × (is_empty waiting ≡ false)
unfolding lookup
row-waiting n entry none h = cc h
row-waiting n entry (some []) h = cc h
row-waiting n entry (some (x ∷ xs)) h = (x ∷ xs, refl, refl)

-- While an envelope of a sender waits for its turn, its gap is a reason.
pub gap_is_reported :
    (p : Platform) (origin : String) (n : ℕ) (entry : Pending) (s : Peer)
    → pending_at s origin n ≡ some entry
    → contains (gap_reason s origin) (partial_reasons p s) ≡ true
unfolding partial_reasons lookup2
gap_is_reported p origin n entry s h =
    let (waiting, found, full) = row-waiting n entry (lookup origin s.pending) h in
    contains-sort_texts (gap_reason s origin) _
    ∙ stays-add_all (gap_reason s origin) (event_reasons p (event_ids s) s) _ (
        stays-add_all (gap_reason s origin) (quarantine_reasons s.quarantine) _
          (pending_reasons-waiting s origin waiting s.pending s.security_reasons found full))

-- While an envelope of a sender waits for its turn, the partial reasons of the peer have the text "sequence_gap:",
-- the sender, ":" and, in decimal, the number after the last one that was taken from the sender.
pub partial_reasons-waiting :
    (p : Platform) (origin : String) (n : ℕ) (entry : Pending) (s : Peer)
    → pending_at s origin n ≡ some entry
    → contains
        ("sequence_gap:" +s origin +s ":" +s decimal (cursor_of s origin + 1))
        (partial_reasons p s)
      ≡ true
unfolding gap_reason
partial_reasons-waiting p origin n entry s h = gap_is_reported p origin n entry s h
