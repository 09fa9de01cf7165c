-- ===== src/Sync/Receive/Drain.antt =====
-- The loop of `_drain`: it ends within its fuel, keeps the order of the peer, and leaves nothing
-- waiting at the number that comes next.
use ameme.Base.{
  ◌∙◌, string_eq, nat_eq, ℕ, zero, suc, ◌+◌, ◌<◌, ◌≡◌, ◌≢◌, arith, some, String, err, inl, inr,
  Option-cases, Outcome-cases, ==-refl, length,
}
use ameme.Base.Dict.{length-erase-lt, erase, lookup2, erase2, lookup-insert, lookup2-erase2}
use text.Mathlib.TextEquality.{eq_iff}
use ameme.Platform.{Platform}
use ameme.Sync.State.{Peer, Pending, cursor_of, pending_at, pending_of, set_cursor, pop_pending}
use ameme.Sync.Semantics.{out_of_fuel}
use ameme.Sync.Semantics.Frame.{SameTransport, apply_semantics-SameTransport}
use ameme.Sync.Semantics.Effects.{apply_semantics-ne-out_of_fuel}
use ameme.Sync.Receive.{settle, drain}
use ameme.Sync.Receive.Invariant.{
  IsOrdered, SameTransport-IsOrdered, pop_pending-IsOrdered, set_cursor-IsOrdered,
}

module _ (p : Platform) where
  pub settle-SameTransport :
      (x : Pending) (now : ℕ) (s : Peer) → SameTransport s (settle p x now s).0
  unfolding settle
  settle-SameTransport x now s = ground (arith, apply_semantics-SameTransport p x.envelope now s)

  -- One round: an entry is popped and settled, and the cursor moves onto it.
  abbrev pub round : String → ℕ → Pending → Peer → Peer
  round origin now x s =
      let n = cursor_of s origin + 1 in
      set_cursor origin n (settle p x now (pop_pending origin n s)).0

  round-IsOrdered :
      (origin : String) (now : ℕ) (x : Pending) (s : Peer)
      → pending_at s origin (cursor_of s origin + 1) ≡ some x
      → IsOrdered p s
      → IsOrdered p (round origin now x s)
  round-IsOrdered origin now x s waits v =
      let n = cursor_of s origin + 1 in
      let popped = pop_pending origin n s in
      let h = settle-SameTransport x now popped in
      set_cursor-IsOrdered p origin n (ground (arith, h.cursors))
        (ground (arith, h.sequence_digests, v.recorded origin n x waits))
        (ground (
          arith,
          h.pending,
          nat_eq.same_iff n n,
          eq_iff origin origin,
          lookup2-erase2 origin n origin n s.pending,
        ))
        (SameTransport-IsOrdered p h (pop_pending-IsOrdered p origin n v))

  -- What each round keeps, whether it raises or moves the cursor, the loop keeps.
  pub drain_induction :
      (P : Peer → Type 0) (origin : String) (now : ℕ)
      → ((x : Pending) (s : Peer)
          → pending_at s origin (cursor_of s origin + 1) ≡ some x
          → P s
          → P (settle p x now (pop_pending origin (cursor_of s origin + 1) s)).0)
      → ((x : Pending) (s : Peer)
          → pending_at s origin (cursor_of s origin + 1) ≡ some x
          → P s
          → P (round origin now x s))
      → (fuel : ℕ) (s : Peer) → P s
      → P (drain p fuel origin now s).0
  unfolding drain
  drain_induction P origin now stop go zero s h = h
  drain_induction P origin now stop go (suc fuel) s h =
      elim (Option-cases (pending_at s origin (cursor_of s origin + 1))) [
        | inl free ↦ rw (free, drain) h
        | inr (x, waits) ↦
            elim (Outcome-cases
              (settle p x now (pop_pending origin (cursor_of s origin + 1) s)).1) [
                | inl (u, done) ↦
                    rw (waits, done, drain)
                      (drain_induction P origin now stop go fuel (round origin now x s)
                        (go x s waits h))
                | inr (f, raised) ↦ rw (waits, raised, drain) (stop x s waits h)
              ]
      ]

  pub drain-IsOrdered :
      (fuel : ℕ) (origin : String) (now : ℕ) (s : Peer)
      → IsOrdered p s
      → IsOrdered p (drain p fuel origin now s).0
  drain-IsOrdered fuel origin now =
      drain_induction (IsOrdered p) origin now
        (λ x s waits v.
          SameTransport-IsOrdered p
            (settle-SameTransport x now (pop_pending origin (cursor_of s origin + 1) s))
            (pop_pending-IsOrdered p origin (cursor_of s origin + 1) v))
        (λ x s waits v. round-IsOrdered origin now x s waits v) fuel

  settle-ne-out_of_fuel :
      (x : Pending) (now : ℕ) (s : Peer) → (settle p x now s).1 ≢ err out_of_fuel
  unfolding settle
  settle-ne-out_of_fuel x now s = ground (arith, apply_semantics-ne-out_of_fuel p x.envelope now s)

  -- A round takes one entry out of the sender's row.
  pub round-length :
      (origin : String) (now : ℕ) (x : Pending) (s : Peer)
      → pending_at s origin (cursor_of s origin + 1) ≡ some x
      → length (pending_of (round origin now x s) origin) < length (pending_of s origin)
  unfolding lookup2 erase2
  round-length origin now x s waits =
      let n = cursor_of s origin + 1 in
      let h = settle-SameTransport x now (pop_pending origin n s) in
      rw h.pending (
        rw (lookup-insert origin origin (erase n (pending_of s origin)) s.pending, ==-refl origin)
          (length-erase-lt n (pending_of s origin) waits))

  -- With one unit of fuel more than entries that wait, the loop ends by its own test or by a raise.
  pub drain-ne-out_of_fuel :
      (fuel : ℕ) (origin : String) (now : ℕ) (s : Peer)
      → length (pending_of s origin) < fuel
      → (drain p fuel origin now s).1 ≢ err out_of_fuel
  unfolding drain
  drain-ne-out_of_fuel zero origin now s lt = absurd (omega arith)
  drain-ne-out_of_fuel (suc fuel) origin now s lt =
      elim (Option-cases (pending_at s origin (cursor_of s origin + 1))) [
        | inl free ↦ rw (free, drain) (cc)
        | inr (x, waits) ↦
            elim (Outcome-cases
              (settle p x now (pop_pending origin (cursor_of s origin + 1) s)).1) [
                | inl (u, done) ↦
                    rw (waits, done, drain)
                      (drain-ne-out_of_fuel fuel origin now (round origin now x s)
                        (omega (arith, round-length origin now x s waits)))
                | inr (f, raised) ↦
                    rw (waits, raised, drain)
                      (λ e.
                        settle-ne-out_of_fuel x now (pop_pending origin (cursor_of s origin + 1) s)
                          (raised ∙ e))
              ]
      ]
