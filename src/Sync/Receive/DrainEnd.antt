-- ===== src/Sync/Receive/DrainEnd.antt =====
-- The state in which `_drain` stops, and what it leaves alone.
use ameme.Base.{
  string_eq, nat_eq, ℕ, zero, suc, ◌+◌, ◌≤◌, ◌<◌, ◌≡◌, ◌≢◌, refl, ◌∙◌, arith, none, String, inl,
  inr, Option-cases, Outcome-cases, length,
}
use ameme.Base.Dict.{lookup-insert, lookup2-erase2}
use text.Mathlib.TextEquality.{eq_iff}
use ameme.Platform.{Platform}
use ameme.Sync.State.{Peer, Pending, cursor_of, pending_at, pending_of, pop_pending}
use ameme.Sync.Semantics.Effects.{Grows, Grows-refl, Grows-trans, apply_semantics-Grows}
use ameme.Sync.Receive.{settle, drain}
use ameme.Sync.Receive.Drain.{settle-SameTransport, round, round-length, drain_induction}

-- Another sender's cursor and row, and every digest, stay as they are; no cursor moves back.
pub record LeavesOthers (origin : String) (s t : Peer) : Type 0 where
  pub space_id : t.space_id ≡ s.space_id
  pub sequence_digests : t.sequence_digests ≡ s.sequence_digests
  pub forward : cursor_of s origin ≤ cursor_of t origin
  pub cursor : (o : String) → origin ≢ o → cursor_of t o ≡ cursor_of s o
  pub waiting : (o : String) (n : ℕ) → origin ≢ o → pending_at t o n ≡ pending_at s o n

module _ (p : Platform) (origin : String) (now : ℕ) where
  stop-LeavesOthers :
      (x : Pending) (s : Peer)
      → LeavesOthers origin s (settle p x now (pop_pending origin (cursor_of s origin + 1) s)).0
  stop-LeavesOthers x s =
      let n = cursor_of s origin + 1 in
      let h = settle-SameTransport p x now (pop_pending origin n s) in
      record {
        space_id = h.space_id;
        sequence_digests = h.sequence_digests;
        forward = ground (arith, h.cursors);
        cursor = λ o ne. ground (arith, h.cursors);
        waiting = λ o l ne.
            ground (arith, h.pending, eq_iff origin o, lookup2-erase2 origin n o l s.pending);
      }

  round-LeavesOthers : (x : Pending) (s : Peer) → LeavesOthers origin s (round p origin now x s)
  round-LeavesOthers x s =
      let n = cursor_of s origin + 1 in
      let h = settle-SameTransport p x now (pop_pending origin n s) in
      let l = stop-LeavesOthers x s in
      record {
        space_id = l.space_id;
        sequence_digests = l.sequence_digests;
        forward =
            ground
              (arith, h.cursors, eq_iff origin origin, lookup-insert origin origin n s.cursors);
        cursor =
            λ o ne. ground (arith, h.cursors, eq_iff origin o, lookup-insert origin o n s.cursors);
        waiting = l.waiting;
      }

  LeavesOthers-trans :
      {s t u : Peer} → LeavesOthers origin s t → LeavesOthers origin t u → LeavesOthers origin s u
  LeavesOthers-trans a b = record {
    space_id = b.space_id ∙ a.space_id;
    sequence_digests = b.sequence_digests ∙ a.sequence_digests;
    forward = omega (arith, a.forward, b.forward);
    cursor = λ o ne. b.cursor o ne ∙ a.cursor o ne;
    waiting = λ o n ne. b.waiting o n ne ∙ a.waiting o n ne;
  }

  pub drain-LeavesOthers :
      (fuel : ℕ) (s : Peer) → LeavesOthers origin s (drain p fuel origin now s).0
  drain-LeavesOthers fuel s =
      drain_induction p (λ t. LeavesOthers origin s t) origin now
        (λ x t waits l. LeavesOthers-trans l (stop-LeavesOthers x t))
        (λ x t waits l. LeavesOthers-trans l (round-LeavesOthers x t)) fuel s
        (record {
          space_id = refl;
          sequence_digests = refl;
          forward = omega arith;
          cursor = λ o ne. refl;
          waiting = λ o n ne. refl;
        })

  settle-Grows : (x : Pending) (s : Peer) → Grows s (settle p x now s).0
  unfolding settle
  settle-Grows x s =
      let g = apply_semantics-Grows p x.envelope now s in
      record {
        tombstone = λ k h. ground (arith, g.tombstone k h);
        revoked = λ k h. ground (arith, g.revoked k h);
        idempotency = λ k d h. ground (arith, g.idempotency k d h);
      }

  pub drain-Grows : (fuel : ℕ) (s : Peer) → Grows s (drain p fuel origin now s).0
  drain-Grows fuel s =
      drain_induction p (Grows s) origin now
        (λ x t waits g.
          Grows-trans g
            (assumption (settle-Grows x (pop_pending origin (cursor_of t origin + 1) t))))
        (λ x t waits g.
          Grows-trans g
            (assumption (settle-Grows x (pop_pending origin (cursor_of t origin + 1) t))))
        fuel s (Grows-refl s)

  -- Where the fuel suffices, nothing waits at the number after the cursor, also after a raise.
  pub drain-drained :
      (fuel : ℕ) (s : Peer)
      → length (pending_of s origin) < fuel
      → let t = (drain p fuel origin now s).0 in pending_at t origin (cursor_of t origin + 1) ≡ none
  unfolding drain
  drain-drained zero s lt = absurd (omega arith)
  drain-drained (suc fuel) s lt =
      let n = cursor_of s origin + 1 in
      elim (Option-cases (pending_at s origin n)) [
        | inl free ↦ rw (free, drain) free
        | inr (x, waits) ↦ elim (Outcome-cases (settle p x now (pop_pending origin n s)).1) [
          | inl (u, done) ↦
              rw (waits, done, drain)
                (drain-drained fuel (round p origin now x s)
                  (omega (arith, round-length p origin now x s waits)))
          | inr (f, raised) ↦
              rw (waits, raised, drain)
                (let h = settle-SameTransport p x now (pop_pending origin n s) in
                  ground (
                    arith,
                    h.pending,
                    h.cursors,
                    eq_iff origin origin,
                    nat_eq.same_iff n n,
                    lookup2-erase2 origin n origin n s.pending,
                  ))
        ]
      ]
