-- ===== src/Sync/Receive/Authority.antt =====
-- Decisions that are never taken back, and a revoked sender that can do nothing.
use ameme.Base.{string_eq, nat_eq, ℕ, arith, String, inl, inr, Outcome-cases, suc, length}
use ameme.Platform.{Platform}
use ameme.Sync.Envelope.{Envelope}
use ameme.Sync.State.{Peer, pending_of, set_cursor, record_digest}
use ameme.Sync.Semantics.{apply_semantics}
use ameme.Sync.Semantics.Effects.{Grows, Grows-refl, Grows-trans, apply_semantics-Grows}
use ameme.Sync.Receive.{
  drain_all, receive_next, receive_priority, receive_waiting, receive_stale, receive_unsupported,
  receive_new, receive_known, receive,
}
use ameme.Sync.Receive.Branches.{receive_new_induction, receive_induction}
use ameme.Sync.Receive.DrainEnd.{drain-Grows}
use ameme.Sync.Receive.Keeps.{finish-state}

module _ (p : Platform) (e : Envelope) (now : ℕ) where
  receive_priority-Grows : (s : Peer) → Grows s (receive_priority p e now s).0
  unfolding receive_priority
  receive_priority-Grows s = elim (Outcome-cases (apply_semantics p e now s).1) [
    | inl ((done, code), r) ↦
        rw (r, receive_priority) (assumption (apply_semantics-Grows p e now s))
    | inr (f, r) ↦ rw (r, receive_priority) (apply_semantics-Grows p e now s)
  ]

  receive_next-Grows : (s : Peer) → Grows s (receive_next p e now s).0
  unfolding receive_next
  receive_next-Grows s =
      let t = set_cursor e.device_id e.device_sequence (apply_semantics p e now s).0 in
      elim (Outcome-cases (apply_semantics p e now s).1) [
        | inl ((done, code), r) ↦
            rw (r, receive_next)
              (rw (finish-state p e done code (drain_all p e.device_id now t)) (
                Grows-trans (assumption (apply_semantics-Grows p e now s))
                  (drain-Grows p e.device_id now (suc (length (pending_of t e.device_id))) t)))
        | inr (f, r) ↦ rw (r, receive_next) (apply_semantics-Grows p e now s)
      ]

  receive_new-Grows : (s : Peer) → Grows s (receive_new p e now s).0
  unfolding receive_unsupported receive_stale receive_waiting
  receive_new-Grows s =
      receive_new_induction p e now s (λ r. Grows s r.0) (λ _. assumption (Grows-refl s))
        (λ _. assumption (Grows-refl s))
        (λ _ _. assumption (receive_priority-Grows (record_digest p e s)))
        (λ _ _. assumption (Grows-refl s))
        (λ _. assumption (receive_next-Grows (record_digest p e s)))

  receive_known-Grows : (d : String) (s : Peer) → Grows s (receive_known p d e s).0
  unfolding receive_known
  receive_known-Grows d s = record {
    tombstone = λ k h. ground arith;
    revoked = λ k h. ground arith;
    idempotency = λ k c h. ground arith;
  }

  -- No delivery takes back a tombstone, a revocation, or the digest that an idempotency key has.
  pub receive-Grows : (s : Peer) → Grows s (receive p e now s).0
  receive-Grows s =
      receive_induction p e now s (λ r. Grows s r.0) (λ _. assumption (Grows-refl s))
        (λ d _. receive_known-Grows d s) (λ _. receive_new-Grows s)
