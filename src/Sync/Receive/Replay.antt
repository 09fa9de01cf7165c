-- ===== src/Sync/Receive/Replay.antt =====
-- What a second delivery of an envelope does.
use ameme.Base.{sym}
use ameme.Base.Text.{decimal}
use ameme.Base.{
  ◌+s◌, sym, string_eq, nat_eq, ℕ, ◌≡◌, refl, ap, ◌∙◌, arith, false, none, some, String, ok, inl,
  inr, Option-cases, Outcome-cases, Bool-cases, ◌==◌, ==-refl, length, suc,
}
use ameme.Base.Sets.{add_idem}
use ameme.Base.Int.{int_eq}
use text.Mathlib.TextEquality.{eq_iff}
use ameme.Platform.{Platform}
use ameme.Sync.Envelope.{Envelope, digest}
use ameme.Sync.State.{
  rejected, replay_sequence_collision, Peer, Receipt, duplicate, duplicate_envelope, digest_of,
  pending_of, set_cursor, record_digest, receipt, add_reason,
}
use ameme.Sync.Semantics.{apply_semantics}
use ameme.Sync.Semantics.Frame.{apply_semantics-SameTransport}
use ameme.Sync.Receive.{
  Received, drain_all, receive_next, receive_priority, receive_new, receive_known, receive,
}
use ameme.Sync.Receive.DrainEnd.{drain-LeavesOthers}
use ameme.Sync.Receive.Keeps.{record_digest-IsRecorded, finish-state}

-- The identity of the space and the digests are those of another state.
abbrev SameRecord : Peer → Received → Type 0
SameRecord s r = (r.0.sequence_digests ≡ s.sequence_digests) × (r.0.space_id ≡ s.space_id)

module _ (p : Platform) (e : Envelope) (now : ℕ) where
  receive_priority-SameRecord : (s : Peer) → SameRecord s (receive_priority p e now s)
  unfolding receive_priority
  receive_priority-SameRecord s = ground (arith, apply_semantics-SameTransport p e now s)

  receive_next-SameRecord : (s : Peer) → SameRecord s (receive_next p e now s)
  unfolding receive_next
  receive_next-SameRecord s =
      let h = apply_semantics-SameTransport p e now s in
      let t = set_cursor e.device_id e.device_sequence (apply_semantics p e now s).0 in
      let l = drain-LeavesOthers p e.device_id now (suc (length (pending_of t e.device_id))) t in
      elim (Outcome-cases (apply_semantics p e now s).1) [
        | inl ((done, code), r) ↦
            rw (r, receive_next)
              (rw (finish-state p e done code (drain_all p e.device_id now t))
                (l.sequence_digests ∙ h.sequence_digests, l.space_id ∙ h.space_id))
        | inr (f, r) ↦ rw (r, receive_next) (h.sequence_digests, h.space_id)
      ]

  pub receive_new-SameRecord : (s : Peer) → SameRecord (record_digest p e s) (receive_new p e now s)
  unfolding receive_new
  receive_new-SameRecord s =
      let s' = record_digest p e s in
      ground (arith, receive_priority-SameRecord s', receive_next-SameRecord s')

  -- After a delivery the number of the envelope is on record.
  pub receive_new-IsRecorded :
      (s : Peer)
      → digest_of (receive_new p e now s).0 e.device_id e.device_sequence ≡ some (digest p e)
  receive_new-IsRecorded s = rw (receive_new-SameRecord s).0 (record_digest-IsRecorded p e s)

  -- The delivery ends in the state in which it began, with nothing applied.
  abbrev Idle : Peer → Received → Type 0
  Idle t q = (r : Receipt) × (q ≡ (t, ok r)) × (r.semantic_applied ≡ false)

  receive_known-same : (s : Peer) → Idle s (receive_known p (digest p e) e s)
  unfolding receive_known
  receive_known-same s = (
    receipt s e duplicate duplicate_envelope false,
    rw (==-refl (digest p e), receive_known),
    refl,
  )

  receive_known-SameRecord : (d : String) (s : Peer) → SameRecord s (receive_known p d e s)
  unfolding receive_known
  receive_known-SameRecord d s = ground arith

  receive_known-again :
      (d : String) (s : Peer) → let t = (receive_known p d e s).0 in Idle t (receive_known p d e t)
  unfolding receive_known
  receive_known-again d s = elim (Bool-cases (d == digest p e)) [
    | inl same ↦ (receipt s e duplicate duplicate_envelope false, rw (same, receive_known), refl)
    | inr other ↦
        let reason =
          "replay_sequence_collision:" +s e.device_id +s ":" +s decimal e.device_sequence in
        let r = receipt (add_reason reason s) e rejected replay_sequence_collision false in
        rw (other, receive_known)
          (
            r,
            ap {B = Received} (λ reasons. (record s { security_reasons = reasons }, ok r))
                (add_idem reason s.security_reasons),
            refl,
          )
  ]

  module _ (at : ℕ) (s : Peer) (here : e.space_id ≡ s.space_id) where
    receive-known_lem :
        (d : String)
        → digest_of s e.device_id e.device_sequence ≡ some d
        → receive p e at s ≡ receive_known p d e s
    unfolding receive
    receive-known_lem d seen = rw ((eq_iff e.space_id s.space_id).1 here, seen, receive)

    pub receive-new_lem :
        digest_of s e.device_id e.device_sequence ≡ none → receive p e at s ≡ receive_new p e at s
    unfolding receive
    receive-new_lem new = rw ((eq_iff e.space_id s.space_id).1 here, new, receive)

  -- A number that was not on record is so after the delivery.
  pub receive-IsRecorded :
      (s : Peer)
      → e.space_id ≡ s.space_id
      → digest_of s e.device_id e.device_sequence ≡ none
      → digest_of (receive p e now s).0 e.device_id e.device_sequence ≡ some (digest p e)
  receive-IsRecorded s here new = rw (receive-new_lem now s here new) (receive_new-IsRecorded s)

  -- A second delivery of an envelope of the peer's space, at any time, changes nothing at all, and its
  -- receipt says that nothing was applied; so also where the first delivery raised.
  pub receive_again :
      (later : ℕ) (s : Peer)
      → e.space_id ≡ s.space_id
      → let t = (receive p e now s).0 in Idle t (receive p e later t)
  receive_again later s here = elim (Option-cases (digest_of s e.device_id e.device_sequence)) [
    | inl new ↦
        let t = (receive_new p e now s).0 in
        rw (receive-new_lem now s here new) (
          rw
            (receive-known_lem later t (here ∙ sym (receive_new-SameRecord s).1) (digest p e)
              (receive_new-IsRecorded s))
            (receive_known-same t))
    | inr (d, seen) ↦
        let t = (receive_known p d e s).0 in
        rw (receive-known_lem now s here d seen) (
          rw
            (receive-known_lem later t (here ∙ sym (receive_known-SameRecord d s).1) d
              (rw (receive_known-SameRecord d s).0 seen))
            (receive_known-again d s))
  ]
