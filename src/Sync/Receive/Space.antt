-- ===== src/Sync/Receive/Space.antt =====
-- The space of what waits at a peer (`Peer.receive` and `Peer._drain` of
-- packages/sync-protocol/src/ameme_sync_protocol/simulator.py).
use ameme.Base.{
  string_eq, nat_eq, ℕ, suc, ◌+◌, ◌≡◌, refl, ◌∙◌, arith, true, false, some, String, List, [], ◌∷◌,
  inl, inr, Outcome-cases, length,
}
use ameme.Base.Dict.{lookup2-insert2, lookup2-erase2}
use ameme.Base.Int.{int_eq}
use text.Mathlib.TextEquality.{eq_iff}
use ameme.Platform.{Platform}
use ameme.Sync.Envelope.{Envelope}
use ameme.Sync.State.{
  Peer, Pending, cursor_of, pending_at, pending_of, put_pending, pop_pending, set_cursor,
  record_digest, sync_sequence_gap,
}
use ameme.Sync.Semantics.{apply_semantics}
use ameme.Sync.Semantics.Frame.{apply_semantics-SameTransport}
use ameme.Sync.Receive.{
  settle, drain, drain_all, receive_next, receive_priority, receive_waiting, receive_stale,
  receive_unsupported, receive_known, receive_new, receive,
}
use ameme.Sync.Receive.Branches.{receive_new_induction, receive_by_space}
use ameme.Sync.Receive.Drain.{settle-SameTransport, drain_induction}
use ameme.Sync.Receive.Keeps.{finish-state}
use ameme.Sync.Receive.Deliveries.{receive_all}

-- The space is that of a first state, and so is the space of all that waits.
pub record IsHome (space : String) (s : Peer) : Type 0 where
  pub at_home : s.space_id ≡ space
  pub waiting :
      (o : String) (n : ℕ) (x : Pending) → pending_at s o n ≡ some x → x.envelope.space_id ≡ space

module _ (p : Platform) (space : String) where
  same-IsHome :
      {s t : Peer}
      → t.space_id ≡ s.space_id
      → t.pending ≡ s.pending
      → IsHome space s
      → IsHome space t
  same-IsHome a b v = record {
    at_home = a ∙ v.at_home;
    waiting = λ o n x h. ground (arith, b, h, v.waiting o n x);
  }

  pop_pending-IsHome :
      (o : String) (n : ℕ) (s : Peer) → IsHome space s → IsHome space (pop_pending o n s)
  pop_pending-IsHome o n s v = record {
    at_home = v.at_home;
    waiting = λ i l x h. ground (arith, h, v.waiting i l x, lookup2-erase2 o n i l s.pending);
  }

  put_pending-IsHome :
      (o : String) (n : ℕ) (y : Pending) (s : Peer)
      → y.envelope.space_id ≡ space
      → IsHome space s
      → IsHome space (put_pending o n y s)
  put_pending-IsHome o n y s here v = record {
    at_home = v.at_home;
    waiting = λ i l x h. ground (
      arith,
      h,
      here,
      eq_iff o i,
      nat_eq.same_iff n l,
      v.waiting i l x,
      lookup2-insert2 o n i l y s.pending,
    );
  }

  settle-IsHome :
      (x : Pending) (o : String) (now : ℕ) (s : Peer)
      → IsHome space s
      → IsHome space (settle p x now (pop_pending o (cursor_of s o + 1) s)).0
  settle-IsHome x o now s v =
      let n = cursor_of s o + 1 in
      let h = settle-SameTransport p x now (pop_pending o n s) in
      same-IsHome h.space_id h.pending (pop_pending-IsHome o n s v)

  drain-IsHome :
      (fuel : ℕ) (o : String) (now : ℕ) (s : Peer)
      → IsHome space s
      → IsHome space (drain p fuel o now s).0
  drain-IsHome fuel o now s v =
      drain_induction p (IsHome space) o now (λ x t _ w. settle-IsHome x o now t w)
        (λ x t _ w. same-IsHome refl refl (settle-IsHome x o now t w)) fuel s v

  module _ (e : Envelope) (now : ℕ) where
    applied-IsHome : (s : Peer) → IsHome space s → IsHome space (apply_semantics p e now s).0
    applied-IsHome s v =
        let h = apply_semantics-SameTransport p e now s in same-IsHome h.space_id h.pending v

    receive_priority-IsHome :
        (s : Peer)
        → e.space_id ≡ space
        → IsHome space s
        → IsHome space (receive_priority p e now s).0
    unfolding receive_priority
    receive_priority-IsHome s here v =
        let w = applied-IsHome s v in
        elim (Outcome-cases (apply_semantics p e now s).1) [
          | inl ((done, code), r) ↦
              rw (r, receive_priority)
                (put_pending-IsHome e.device_id e.device_sequence
                  (record { envelope = e; preapplied = true; semantic_applied = done; code = code })
                  (apply_semantics p e now s).0 here w)
          | inr (f, r) ↦ rw (r, receive_priority) w
        ]

    receive_next-IsHome : (s : Peer) → IsHome space s → IsHome space (receive_next p e now s).0
    unfolding receive_next
    receive_next-IsHome s v =
        let w = applied-IsHome s v in
        let t = set_cursor e.device_id e.device_sequence (apply_semantics p e now s).0 in
        elim (Outcome-cases (apply_semantics p e now s).1) [
          | inl ((done, code), r) ↦
              rw (r, receive_next)
                (rw (finish-state p e done code (drain_all p e.device_id now t)) (
                  drain-IsHome (suc (length (pending_of t e.device_id))) e.device_id now t
                    (same-IsHome refl refl w)))
          | inr (f, r) ↦ rw (r, receive_next) w
        ]

    receive_new-IsHome :
        (s : Peer) → e.space_id ≡ space → IsHome space s → IsHome space (receive_new p e now s).0
    unfolding receive_unsupported receive_stale receive_waiting
    receive_new-IsHome s here v =
        let s' = record_digest p e s in
        let v' : IsHome space s' = same-IsHome refl refl v in
        receive_new_induction p e now s (λ r. IsHome space r.0) (λ _. same-IsHome refl refl v')
          (λ _. same-IsHome refl refl v') (λ _ _. receive_priority-IsHome s' here v')
          (λ _ _.
            put_pending-IsHome e.device_id e.device_sequence
              (record {
                envelope = e;
                preapplied = false;
                semantic_applied = false;
                code = sync_sequence_gap;
              })
              s' here v')
          (λ _. receive_next-IsHome s' v')

    receive-IsHome : (s : Peer) → IsHome space s → IsHome space (receive p e now s).0
    unfolding receive_known
    receive-IsHome s v =
        receive_by_space p e now s (λ r. IsHome space r.0) (λ _. same-IsHome refl refl v)
          (λ d _. same-IsHome (ground arith) (ground arith) v)
          (λ here _. receive_new-IsHome s (here ∙ v.at_home) v)

-- Whatever is delivered to a peer, by whom, and at which ticks: its space stays what it was, and if all that waits for
-- its turn was of that space, so is all that waits then.
pub only_own_space_waits :
    (p : Platform) (deliveries : List (Envelope × ℕ)) (space : String) (s : Peer)
    → IsHome space s
    → IsHome space (receive_all p deliveries s)
unfolding receive_all
only_own_space_waits p [] space s v = v
only_own_space_waits p ((e, now) ∷ rest) space s v =
    only_own_space_waits p rest space (receive p e now s).0 (receive-IsHome p space e now s v)
