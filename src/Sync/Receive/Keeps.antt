-- ===== src/Sync/Receive/Keeps.antt =====
-- `receive` keeps the order of the peer, on every branch and also when it raises.
use ameme.Base.{Bool}
use ameme.Base.{
  string_eq, nat_eq, ℕ, suc, ◌+◌, ◌<◌, ◌≡◌, ◌≢◌, refl, arith, true, none, some, String, ok, err,
  inl, inr, Outcome-cases, Bool-cases, length, Outcome, ◌==◌, if_induction,
}
use ameme.Base.Dict.{lookup-insert, lookup2-insert2}
use text.Mathlib.TextEquality.{eq_iff}
use ameme.Platform.{Platform}
use ameme.Sync.Envelope.{Envelope, digest}
use ameme.Sync.State.{
  Peer, Pending, Code, cursor_of, digest_of, pending_at, pending_of, put_pending, record_digest,
}
use ameme.Sync.Semantics.{apply_semantics, Fault}
use ameme.Sync.Semantics.Frame.{SameTransport, apply_semantics-SameTransport}
use ameme.Base.Int.{int_eq}
use ameme.Sync.Receive.{
  Received, drain_all, finish, receive_next, receive_priority, receive_waiting, receive_stale,
  receive_unsupported, receive_new, receive_known, receive,
}
use ameme.Sync.Receive.Invariant.{
  IsOrdered, IsValid, SameTransport-IsOrdered, set_cursor-IsOrdered, put_pending-IsOrdered,
  record_digest-IsOrdered,
}
use ameme.Sync.Receive.Branches.{receive_new_induction, receive_induction}
use ameme.Sync.Receive.Drain.{drain-IsOrdered}
use ameme.Sync.Receive.DrainEnd.{drain-LeavesOthers, drain-drained}

module _ (p : Platform) where
  SameTransport-IsValid : {s t : Peer} → SameTransport s t → IsValid p s → IsValid p t
  SameTransport-IsValid h v = record {
    ordered = SameTransport-IsOrdered p h v.ordered;
    drained = λ o. ground (arith, h.pending, h.cursors, v.drained o);
  }

  record_digest-IsValid :
      (e : Envelope) {s : Peer}
      → digest_of s e.device_id e.device_sequence ≡ none
      → IsValid p s
      → IsValid p (record_digest p e s)
  record_digest-IsValid e new v = record {
    ordered = record_digest-IsOrdered p e new v.ordered;
    drained = v.drained;
  }

  -- The digest of `e` is on record.
  abbrev IsRecorded : Envelope → Peer → Type 0
  IsRecorded e s = digest_of s e.device_id e.device_sequence ≡ some (digest p e)

  pub record_digest-IsRecorded : (e : Envelope) (s : Peer) → IsRecorded e (record_digest p e s)
  record_digest-IsRecorded e s = ground (
    arith,
    eq_iff e.device_id e.device_id,
    nat_eq.same_iff e.device_sequence e.device_sequence,
    lookup2-insert2 e.device_id e.device_sequence e.device_id e.device_sequence (digest p e)
        s.sequence_digests,
  )

  put_pending-IsValid :
      (x : Pending) (n : ℕ) {s : Peer}
      → cursor_of s x.envelope.device_id + 1 < n
      → digest_of s x.envelope.device_id n ≡ some (digest p x.envelope)
      → IsValid p s
      → IsValid p (put_pending x.envelope.device_id n x s)
  put_pending-IsValid x n {s} later known v = record {
    ordered = put_pending-IsOrdered p x n (omega arith) known v.ordered;
    drained = λ o. ground (
      arith,
      eq_iff x.envelope.device_id o,
      nat_eq.same_iff n (cursor_of s o + 1),
      lookup2-insert2 x.envelope.device_id n o (cursor_of s o + 1) x s.pending,
      v.drained o,
    );
  }

  pub finish-state :
      (e : Envelope) (done : Bool) (code : Code) (r : Peer × Outcome Fault (Unit {0}))
      → (finish p e done code r).0 ≡ r.0
  finish-state e done code (s, ok u) = refl
  finish-state e done code (s, err f) = refl

  -- From a state in order in which every other sender is drained, the loop drains the last one.
  drain_all-IsValid :
      (origin : String) (now : ℕ) (s : Peer)
      → IsOrdered p s
      → ((o : String) → origin ≢ o → pending_at s o (cursor_of s o + 1) ≡ none)
      → IsValid p (drain_all p origin now s).0
  drain_all-IsValid origin now s v others =
      let fuel = suc (length (pending_of s origin)) in
      let l = drain-LeavesOthers p origin now fuel s in
      record {
        ordered = drain-IsOrdered p fuel origin now s v;
        drained = λ o. elim (Bool-cases (origin == o)) [
          | inl same ↦
              rw (← (eq_iff origin o).0 same) (drain-drained p origin now fuel s (omega arith))
          | inr other ↦
              let ne : origin ≢ o = λ e. cc (other, (eq_iff origin o).1 e) in
              ground (arith, l.cursor o ne, l.waiting o (cursor_of s o + 1) ne, others o ne)
        ];
      }

  receive_waiting-IsValid :
      (e : Envelope) (s : Peer)
      → cursor_of s e.device_id + 1 < e.device_sequence
      → IsRecorded e s
      → IsValid p s
      → IsValid p (receive_waiting p e s).0
  unfolding receive_waiting
  receive_waiting-IsValid e s later known v = put_pending-IsValid _ e.device_sequence later known v

  receive_priority-IsValid :
      (e : Envelope) (now : ℕ) (s : Peer)
      → cursor_of s e.device_id + 1 < e.device_sequence
      → IsRecorded e s
      → IsValid p s
      → IsValid p (receive_priority p e now s).0
  unfolding receive_priority
  receive_priority-IsValid e now s later known v =
      let h = apply_semantics-SameTransport p e now s in
      elim (Outcome-cases (apply_semantics p e now s).1) [
        | inl ((done, code), r) ↦
            rw (r, receive_priority)
              (put_pending-IsValid
                (record { envelope = e; preapplied = true; semantic_applied = done; code = code })
                e.device_sequence (ground (arith, h.cursors)) (ground (arith, h.sequence_digests))
                (SameTransport-IsValid h v))
        | inr (f, r) ↦ rw (r, receive_priority) (SameTransport-IsValid h v)
      ]

  receive_next-IsValid :
      (e : Envelope) (now : ℕ) (s : Peer)
      → e.device_sequence ≡ cursor_of s e.device_id + 1
      → IsRecorded e s
      → IsValid p s
      → IsValid p (receive_next p e now s).0
  unfolding receive_next
  receive_next-IsValid e now s next known v =
      let h = apply_semantics-SameTransport p e now s in
      let w = SameTransport-IsValid h v in
      elim (Outcome-cases (apply_semantics p e now s).1) [
        | inl ((done, code), r) ↦
            rw (r, receive_next)
              (rw (finish-state e done code (drain_all p e.device_id now _)) (
                drain_all-IsValid e.device_id now _
                  (set_cursor-IsOrdered p e.device_id e.device_sequence (ground (arith, h.cursors))
                    (ground (arith, h.sequence_digests))
                    (ground (arith, h.cursors, w.drained e.device_id)) w.ordered)
                  (λ o ne. ground (
                    arith,
                    eq_iff e.device_id o,
                    lookup-insert e.device_id o e.device_sequence
                        (apply_semantics p e now s).0.cursors,
                    w.drained o,
                  ))))
        | inr (f, r) ↦ rw (r, receive_next) w
      ]

  receive_stale-IsValid :
      (e : Envelope) (s : Peer) → IsValid p s → IsValid p (receive_stale p e s).0
  unfolding receive_stale
  receive_stale-IsValid e s v = SameTransport-IsValid (ground arith) v

  receive_unsupported-IsValid :
      (e : Envelope) (s : Peer) → IsValid p s → IsValid p (receive_unsupported p e s).0
  unfolding receive_unsupported
  receive_unsupported-IsValid e s v = record {
    ordered = assumption (v.ordered);
    drained = v.drained;
  }

  receive_known-IsValid :
      (d : String) (e : Envelope) (s : Peer) → IsValid p s → IsValid p (receive_known p d e s).0
  unfolding receive_known
  receive_known-IsValid d e s v =
      if_induction (λ (r : Received). IsValid p r.0) (d == digest p e) (λ _. v)
        (λ _. SameTransport-IsValid (ground arith) v)

  receive_new-IsValid :
      (e : Envelope) (now : ℕ) (s : Peer)
      → digest_of s e.device_id e.device_sequence ≡ none
      → IsValid p s
      → IsValid p (receive_new p e now s).0
  receive_new-IsValid e now s new v =
      let s' = record_digest p e s in
      let w = record_digest-IsValid e new v in
      let known = record_digest-IsRecorded e s in
      receive_new_induction p e now s (λ r. IsValid p r.0) (λ _. receive_unsupported-IsValid e s' w)
        (λ _. receive_stale-IsValid e s' w) (λ gap _. receive_priority-IsValid e now s' gap known w)
        (λ gap _. receive_waiting-IsValid e s' gap known w)
        (λ next. receive_next-IsValid e now s' next known w)

  -- The order of the peer is kept by every call of `receive`: after it each sender's numbers up to its
  -- cursor are on record, what waits lies beyond, and nothing waits at the number that comes next.
  pub receive-IsValid :
      (e : Envelope) (now : ℕ) (s : Peer) → IsValid p s → IsValid p (receive p e now s).0
  receive-IsValid e now s v =
      receive_induction p e now s (λ r. IsValid p r.0) (λ _. SameTransport-IsValid (ground arith) v)
        (λ d _. receive_known-IsValid d e s v) (λ new. receive_new-IsValid e now s new v)
