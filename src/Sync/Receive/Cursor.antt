-- ===== src/Sync/Receive/Cursor.antt =====
-- What a delivery does to the cursors: they never move back, only the sender's moves, and a gap that
-- closes lets the sender's cursor run over everything that waited behind it.
use ameme.Sync.Receive.{sync_sequence_gap}
use ameme.Base.{
  string_eq, nat_eq, ℕ, suc, ◌+◌, ◌≤◌, ◌≡◌, ◌≢◌, refl, arith, true, false, String, inl, inr,
  Outcome-cases, length,
}
use ameme.Base.Dict.{lookup-insert, lookup2-insert2}
use ameme.Base.Int.{int_eq}
use text.Mathlib.TextEquality.{eq_iff}
use ameme.Platform.{Platform}
use ameme.Sync.Envelope.{Envelope}
use ameme.Sync.State.{Peer, cursor_of, pending_at, pending_of, set_cursor, record_digest}
use ameme.Sync.Semantics.{apply_semantics}
use ameme.Sync.Semantics.Frame.{apply_semantics-SameTransport}
use ameme.Sync.Receive.{
  drain_all, receive_next, receive_priority, receive_waiting, receive_stale, receive_unsupported,
  receive_new, receive_known, receive,
}
use ameme.Sync.Receive.Branches.{receive_new_induction, receive_induction}
use ameme.Sync.Receive.DrainEnd.{drain-LeavesOthers}
use ameme.Sync.Receive.Keeps.{finish-state}

-- The other senders keep their cursors and what waits for them; no cursor moves back.
pub record MovesOnly (origin : String) (s t : Peer) : Type 0 where
  pub forward : cursor_of s origin ≤ cursor_of t origin
  pub cursor : (o : String) → origin ≢ o → cursor_of t o ≡ cursor_of s o
  pub waiting : (o : String) (n : ℕ) → origin ≢ o → pending_at t o n ≡ pending_at s o n

module _ (p : Platform) (e : Envelope) (now : ℕ) where
  MovesOnly-same :
      {s t : Peer} → t.cursors ≡ s.cursors → t.pending ≡ s.pending → MovesOnly e.device_id s t
  MovesOnly-same c w = record {
    forward = ground arith;
    cursor = λ o ne. ground arith;
    waiting = λ o n ne. ground arith;
  }

  receive_priority-MovesOnly : (s : Peer) → MovesOnly e.device_id s (receive_priority p e now s).0
  unfolding receive_priority
  receive_priority-MovesOnly s =
      let h = apply_semantics-SameTransport p e now s in
      elim (Outcome-cases (apply_semantics p e now s).1) [
        | inl ((done, code), r) ↦
            rw (r, receive_priority)
              (record {
                forward = ground (arith, h.cursors);
                cursor = λ o ne. ground (arith, h.cursors);
                waiting = λ o n ne. ground (
                  arith,
                  h.pending,
                  eq_iff e.device_id o,
                  lookup2-insert2 e.device_id e.device_sequence o n
                      (record {
                        envelope = e;
                        preapplied = true;
                        semantic_applied = done;
                        code = code;
                      })
                      (apply_semantics p e now s).0.pending,
                );
              })
        | inr (f, r) ↦ rw (r, receive_priority) (MovesOnly-same h.cursors h.pending)
      ]

  receive_waiting-MovesOnly : (s : Peer) → MovesOnly e.device_id s (receive_waiting p e s).0
  unfolding receive_waiting
  receive_waiting-MovesOnly s = record {
    forward = omega arith;
    cursor = λ o ne. refl;
    waiting = λ o n ne. ground (
      arith,
      eq_iff e.device_id o,
      lookup2-insert2 e.device_id e.device_sequence o n
          (record {
            envelope = e;
            preapplied = false;
            semantic_applied = false;
            code = sync_sequence_gap;
          })
          s.pending,
    );
  }

  receive_next-MovesOnly :
      (s : Peer)
      → e.device_sequence ≡ cursor_of s e.device_id + 1
      → MovesOnly e.device_id s (receive_next p e now s).0
  unfolding receive_next
  receive_next-MovesOnly s next =
      let h = apply_semantics-SameTransport p e now s in
      let t = set_cursor e.device_id e.device_sequence (apply_semantics p e now s).0 in
      let l = drain-LeavesOthers p e.device_id now (suc (length (pending_of t e.device_id))) t in
      let moved = λ (o : String).
        lookup-insert e.device_id o e.device_sequence (apply_semantics p e now s).0.cursors in
      elim (Outcome-cases (apply_semantics p e now s).1) [
        | inl ((done, code), r) ↦
            rw (r, receive_next)
              (rw (finish-state p e done code (drain_all p e.device_id now t)) (record {
                forward =
                    ground (arith, l.forward, eq_iff e.device_id e.device_id, moved e.device_id);
                cursor =
                    λ o ne. ground (arith, h.cursors, l.cursor o ne, eq_iff e.device_id o, moved o);
                waiting = λ o n ne. ground (arith, h.pending, l.waiting o n ne);
              }))
        | inr (f, r) ↦ rw (r, receive_next) (MovesOnly-same h.cursors h.pending)
      ]

  receive_new-MovesOnly : (s : Peer) → MovesOnly e.device_id s (receive_new p e now s).0
  unfolding receive_unsupported receive_stale
  receive_new-MovesOnly s =
      let s' = record_digest p e s in
      receive_new_induction p e now s (λ r. MovesOnly e.device_id s r.0)
        (λ _. MovesOnly-same refl refl) (λ _. MovesOnly-same refl refl)
        (λ _ _. assumption (receive_priority-MovesOnly s'))
        (λ _ _. assumption (receive_waiting-MovesOnly s'))
        (λ next. assumption (receive_next-MovesOnly s' next))

  -- A delivery moves no cursor back, moves no cursor but the sender's, and touches nothing that waits
  -- for another sender, on every branch and also when it raises.
  pub receive-MovesOnly : (s : Peer) → MovesOnly e.device_id s (receive p e now s).0
  unfolding receive_known
  receive-MovesOnly s =
      receive_induction p e now s (λ r. MovesOnly e.device_id s r.0) (λ _. MovesOnly-same refl refl)
        (λ d _. MovesOnly-same (ground arith) (ground arith)) (λ _. receive_new-MovesOnly s)
