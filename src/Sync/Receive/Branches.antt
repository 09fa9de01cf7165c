-- ===== src/Sync/Receive/Branches.antt =====
-- The branches of `receive`, each with the tests that lead to it: one rule for what holds on all.
use ameme.Base.{
  string_eq, nat_eq, ℕ, ◌+◌, ◌≡◌, ◌<◌, ◌≢◌, arith, true, false, none, some, String, ok, inl, inr,
  Option-cases, ◌==◌, ltb, if_induction,
}
use ameme.Base.Int.{int_eq}
use ameme.Base.Sets.{contains}
use text.Mathlib.TextEquality.{eq_iff}
use ameme.Platform.{Platform}
use ameme.Sync.Envelope.{Envelope, is_priority}
use ameme.Sync.State.{
  Peer, rejected, space_denied, receipt, cursor_of, digest_of, record_digest, record_space_denial,
}
use ameme.Sync.Receive.{
  Received, receive_next, receive_priority, receive_waiting, receive_stale, receive_unsupported,
  receive_new, receive_known, receive,
}

module _ (p : Platform) (e : Envelope) (now : ℕ) (s : Peer) (P : Received → Type 0) where
  pub receive_new_induction :
      (contains e.schema_version s.supported_schema_versions ≡ false
        → P (receive_unsupported p e (record_digest p e s)))
      → (e.device_sequence < cursor_of s e.device_id + 1
          → P (receive_stale p e (record_digest p e s)))
      → (cursor_of s e.device_id + 1 < e.device_sequence
          → is_priority e.operation ≡ true
          → P (receive_priority p e now (record_digest p e s)))
      → (cursor_of s e.device_id + 1 < e.device_sequence
          → is_priority e.operation ≡ false
          → P (receive_waiting p e (record_digest p e s)))
      → (e.device_sequence ≡ cursor_of s e.device_id + 1
          → P (receive_next p e now (record_digest p e s)))
      → P (receive_new p e now s)
  unfolding receive_new
  receive_new_induction unsupported stale priority waiting next =
      let expected = cursor_of s e.device_id + 1 in
      if_induction P (contains e.schema_version s.supported_schema_versions)
        (λ _.
          if_induction P (ltb e.device_sequence expected) (λ h. stale (ground arith))
            (λ not_stale.
              if_induction P (ltb expected e.device_sequence)
                (λ gap.
                  if_induction P (is_priority e.operation) (priority (ground arith))
                    (waiting (ground arith)))
                (λ no_gap. next (ground arith))))
        unsupported

  -- With the space, which stands before the digest.
  pub receive_by_space :
      (e.space_id ≢ s.space_id
        → P (
          record_space_denial p e s,
          ok (receipt (record_space_denial p e s) e rejected space_denied false),
        ))
      → ((d : String)
          → digest_of s e.device_id e.device_sequence ≡ some d
          → P (receive_known p d e s))
      → (e.space_id ≡ s.space_id
          → digest_of s e.device_id e.device_sequence ≡ none
          → P (receive_new p e now s))
      → P (receive p e now s)
  unfolding receive
  receive_by_space foreign known new =
      if_induction P (e.space_id == s.space_id)
        (λ here. elim (Option-cases (digest_of s e.device_id e.device_sequence)) [
          | inl n ↦ rw n (new ((eq_iff e.space_id s.space_id).0 here) n)
          | inr (d, k) ↦ rw k (known d k)
        ])
        (λ other. foreign (λ h. cc (other, (eq_iff e.space_id s.space_id).1 h)))

  pub receive_induction :
      (e.space_id ≢ s.space_id
        → P (
          record_space_denial p e s,
          ok (receipt (record_space_denial p e s) e rejected space_denied false),
        ))
      → ((d : String)
          → digest_of s e.device_id e.device_sequence ≡ some d
          → P (receive_known p d e s))
      → (digest_of s e.device_id e.device_sequence ≡ none → P (receive_new p e now s))
      → P (receive p e now s)
  receive_induction foreign known new = receive_by_space foreign known (λ _. new)
