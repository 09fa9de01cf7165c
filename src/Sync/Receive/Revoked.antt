-- ===== src/Sync/Receive/Revoked.antt =====
-- A sender on the list of revoked devices: nothing that it sends, or that waits for it, has an effect.
use ameme.Base.{
  string_eq, nat_eq, ℕ, ◌+◌, ◌≡◌, ◌∙◌, arith, true, some, String, inl, inr, Outcome-cases, suc,
  length,
}
use ameme.Base.Sets.{contains}
use ameme.Base.Dict.{lookup2-erase2}
use ameme.Platform.{Platform}
use ameme.Sync.Envelope.{Envelope}
use ameme.Sync.State.{
  Peer, Pending, cursor_of, pending_at, pending_of, set_cursor, pop_pending, record_digest,
}
use ameme.Sync.Semantics.{apply_semantics}
use ameme.Sync.Semantics.Frame.{apply_semantics-SameTransport}
use ameme.Sync.Semantics.Effects.{SameProjection, apply_semantics-revoked}
use ameme.Sync.Receive.{
  drain_all, drain, settle, receive_next, receive_priority, receive_waiting, receive_stale,
  receive_unsupported, receive_known, receive,
}
use ameme.Sync.Receive.Branches.{receive_new_induction, receive_induction}
use ameme.Sync.Receive.Drain.{drain_induction, settle-SameTransport}
use ameme.Sync.Receive.Invariant.{IsValid}
use ameme.Sync.Receive.Keeps.{finish-state}

SameProjection-trans : {s t u : Peer} → SameProjection s t → SameProjection t u → SameProjection s u
SameProjection-trans a b = record {
  revisions = b.revisions ∙ a.revisions;
  tombstones = b.tombstones ∙ a.tombstones;
  revoked_devices = b.revoked_devices ∙ a.revoked_devices;
}

module _ (p : Platform) (d : String) (now : ℕ) where
  -- The sender is revoked, and all that waits for it carries its name.
  record IsBarred (s : Peer) : Type 0 where
    revoked : contains d s.revoked_devices ≡ true
    sender : (n : ℕ) (x : Pending) → pending_at s d n ≡ some x → x.envelope.device_id ≡ d

  settle-barred :
      (x : Pending) (s : Peer)
      → x.envelope.device_id ≡ d
      → contains d s.revoked_devices ≡ true
      → SameProjection s (settle p x now s).0
  unfolding settle
  settle-barred x s h r = ground (arith, apply_semantics-revoked p x.envelope now s (rw h r))

  -- The loop ran from `s`: the projection is that of `s`, and the sender is barred still.
  abbrev IsIdle : Peer → Peer → Type 0
  IsIdle s t = SameProjection s t × IsBarred t

  stop-IsIdle :
      (s : Peer) (x : Pending) (t : Peer)
      → pending_at t d (cursor_of t d + 1) ≡ some x
      → IsIdle s t
      → IsIdle s (settle p x now (pop_pending d (cursor_of t d + 1) t)).0
  stop-IsIdle s x t waits (same, barred) =
      let n = cursor_of t d + 1 in
      let q = settle-barred x (pop_pending d n t) (barred.sender n x waits) barred.revoked in
      let h = settle-SameTransport p x now (pop_pending d n t) in
      (
        SameProjection-trans same (assumption (q)),
        record {
          revoked = rw q.revoked_devices barred.revoked;
          sender = λ m y w.
              ground (arith, h.pending, barred.sender m y, lookup2-erase2 d n d m t.pending);
        },
      )

  drain-IsIdle : (fuel : ℕ) (s : Peer) → IsBarred s → SameProjection s (drain p fuel d now s).0
  drain-IsIdle fuel s barred =
      (drain_induction p (IsIdle s) d now (λ x t waits i. stop-IsIdle s x t waits i)
        (λ x t waits i.
          let (same, barred) = stop-IsIdle s x t waits i in
          (assumption (same), record { revoked = barred.revoked; sender = barred.sender }))
        fuel s (assumption (barred))).0

module _ (p : Platform) (e : Envelope) (now : ℕ) where
  receive_next-revoked :
      (s : Peer)
      → contains e.device_id s.revoked_devices ≡ true
      → ((n : ℕ) (x : Pending)
          → pending_at s e.device_id n ≡ some x
          → x.envelope.device_id ≡ e.device_id)
      → SameProjection s (receive_next p e now s).0
  unfolding receive_next
  receive_next-revoked s revoked sender =
      let q = apply_semantics-revoked p e now s revoked in
      let h = apply_semantics-SameTransport p e now s in
      let t = set_cursor e.device_id e.device_sequence (apply_semantics p e now s).0 in
      elim (Outcome-cases (apply_semantics p e now s).1) [
        | inl ((done, code), r) ↦
            rw (r, receive_next)
              (rw (finish-state p e done code (drain_all p e.device_id now t)) (
                SameProjection-trans (assumption (q)) (
                  drain-IsIdle p e.device_id now (suc (length (pending_of t e.device_id))) t
                    (record {
                      revoked = rw q.revoked_devices revoked;
                      sender = λ n x w. sender n x (rw h.pending at w);
                    }))))
        | inr (f, r) ↦ rw (r, receive_next) q
      ]

  receive_priority-revoked :
      (s : Peer)
      → contains e.device_id s.revoked_devices ≡ true
      → SameProjection s (receive_priority p e now s).0
  unfolding receive_priority
  receive_priority-revoked s revoked = ground (arith, apply_semantics-revoked p e now s revoked)

  -- Whatever a revoked device sends to a peer in order, in turn or ahead of it, the revisions, the
  -- tombstones and the revocations of the peer stay as they are, also where it frees what waited.
  pub revoked_sender_is_powerless :
      (s : Peer)
      → IsValid p s
      → contains e.device_id s.revoked_devices ≡ true
      → SameProjection s (receive p e now s).0
  unfolding receive_unsupported receive_stale receive_waiting receive_known
  revoked_sender_is_powerless s v revoked =
      receive_induction p e now s (λ r. SameProjection s r.0) (λ _. ground arith)
        (λ d _. ground arith)
        (λ _.
          receive_new_induction p e now s (λ r. SameProjection s r.0) (λ _. ground arith)
            (λ _. ground arith)
            (λ _ _. assumption (receive_priority-revoked (record_digest p e s) revoked))
            (λ _ _. ground arith)
            (λ _. assumption (
              receive_next-revoked (record_digest p e s) revoked
                (λ n x w. v.ordered.sender e.device_id n x w))))
