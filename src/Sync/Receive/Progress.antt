-- ===== src/Sync/Receive/Progress.antt =====
-- Progress of a peer: its loop ends, no envelope of a fresh number counts as stale, and a gap that
-- closes lets the sender's cursor run over everything that waited behind it.
use ameme.Base.{
  string_eq, nat_eq, ℕ, zero, suc, ◌+◌, ◌≤◌, ◌<◌, ◌≡◌, ◌≢◌, refl, ◌∙◌, arith, true, none, String,
  Outcome, ok, err, inl, inr, Option-cases, Outcome-cases, length, Bool,
}
use ameme.Base.Dict.{is_some, lookup-insert, lookup2-erase2}
use ameme.Base.Sets.{contains}
use ameme.Base.Int.{int_eq}
use text.Mathlib.TextEquality.{eq_iff}
use ameme.Platform.{Platform}
use ameme.Sync.Envelope.{Envelope}
use ameme.Sync.State.{
  Peer, Receipt, Code, cursor_of, digest_of, pending_at, pending_of, set_cursor, pop_pending,
  record_digest,
}
use ameme.Sync.Semantics.{apply_semantics, Fault, out_of_fuel}
use ameme.Sync.Semantics.Frame.{apply_semantics-SameTransport}
use ameme.Sync.Semantics.Effects.{apply_semantics-ne-out_of_fuel}
use ameme.Sync.Receive.{
  finish, drain_all, drain, settle, receive_next, receive_priority, receive_waiting, receive_stale,
  receive_unsupported, receive_new, receive_known, receive,
}
use ameme.Sync.Receive.Branches.{receive_new_induction, receive_induction}
use ameme.Sync.Receive.Drain.{round, settle-SameTransport, drain-ne-out_of_fuel}
use ameme.Sync.Receive.Replay.{receive-new_lem}
use ameme.Sync.Receive.Keeps.{finish-state}

module _ (p : Platform) (now : ℕ) where
  finish-ne-out_of_fuel :
      (e : Envelope) (done : Bool) (code : Code) (r : Peer × Outcome Fault (Unit {0}))
      → r.1 ≢ err out_of_fuel
      → (finish p e done code r).1 ≢ err out_of_fuel
  finish-ne-out_of_fuel e done code (s, ok u) h = λ c. cc
  finish-ne-out_of_fuel e done code (s, err f) h = λ c. h (ground arith)

  receive_next-ne-out_of_fuel :
      (e : Envelope) (s : Peer) → (receive_next p e now s).1 ≢ err out_of_fuel
  unfolding receive_next
  receive_next-ne-out_of_fuel e s =
      let t = set_cursor e.device_id e.device_sequence (apply_semantics p e now s).0 in
      elim (Outcome-cases (apply_semantics p e now s).1) [
        | inl ((done, code), r) ↦
            rw (r, receive_next)
              (finish-ne-out_of_fuel e done code (drain_all p e.device_id now t) (
                drain-ne-out_of_fuel p (suc (length (pending_of t e.device_id))) e.device_id now t
                  (omega arith)))
        | inr (f, r) ↦
            rw (r, receive_next) (λ c. apply_semantics-ne-out_of_fuel p e now s (ground arith))
      ]

  receive_priority-ne-out_of_fuel :
      (e : Envelope) (s : Peer) → (receive_priority p e now s).1 ≢ err out_of_fuel
  unfolding receive_priority
  receive_priority-ne-out_of_fuel e s = ground (arith, apply_semantics-ne-out_of_fuel p e now s)

  -- The rounds that `drain` is given are enough on every path of `receive`: a call returns a receipt, or
  -- raises as the source does.
  pub receive-ne-out_of_fuel : (e : Envelope) (s : Peer) → (receive p e now s).1 ≢ err out_of_fuel
  unfolding receive_known receive_unsupported receive_stale receive_waiting
  receive-ne-out_of_fuel e s =
      let s' = record_digest p e s in
      receive_induction p e now s (λ r. r.1 ≢ err out_of_fuel) (λ _ c. cc) (λ d _. ground arith)
        (λ _.
          receive_new_induction p e now s (λ r. r.1 ≢ err out_of_fuel) (λ _ c. cc) (λ _ c. cc)
            (λ _ _. receive_priority-ne-out_of_fuel e s') (λ _ _ c. cc)
            (λ _. receive_next-ne-out_of_fuel e s'))

  -- The loop runs over every number that waits without a gap.
  drain_runs :
      (origin : String) (m fuel : ℕ) (s : Peer)
      → ((n : ℕ) → cursor_of s origin < n → n ≤ m → is_some (pending_at s origin n) ≡ true)
      → (drain p fuel origin now s).1 ≡ ok tt
      → m ≤ cursor_of (drain p fuel origin now s).0 origin
  unfolding drain
  drain_runs origin m zero s waits done = cc
  drain_runs origin m (suc fuel) s waits done =
      let n = cursor_of s origin + 1 in
      elim (Option-cases (pending_at s origin n)) [
        | inl free ↦ rw (free, drain) (ground (arith, waits n))
        | inr (x, there) ↦ elim (Outcome-cases (settle p x now (pop_pending origin n s)).1) [
          | inl (u, r) ↦
              rw (there, r, drain)
                (drain_runs origin m fuel (round p origin now x s)
                  (λ l a b.
                    let h = settle-SameTransport p x now (pop_pending origin n s) in
                    ground (
                      arith,
                      h.pending,
                      eq_iff origin origin,
                      nat_eq.same_iff n l,
                      lookup-insert origin origin n
                          (settle p x now (pop_pending origin n s)).0.cursors,
                      lookup2-erase2 origin n origin l s.pending,
                      waits l,
                    ))
                  (rw (there, r, drain) at done))
          | inr (f, r) ↦ absurd (cc (rw (there, r, drain) at done))
        ]
      ]

  finish-ok :
      (e : Envelope) (done : Bool) (code : Code) {q : Receipt} (r : Peer × Outcome Fault (Unit {0}))
      → (finish p e done code r).1 ≡ ok q
      → r.1 ≡ ok tt
  finish-ok e done code (s, ok tt) h = refl
  finish-ok e done code (s, err f) h = cc

  receive_next_runs :
      (e : Envelope) (m : ℕ) (s : Peer) {q : Receipt}
      → ((n : ℕ) → e.device_sequence < n → n ≤ m → is_some (pending_at s e.device_id n) ≡ true)
      → (receive_next p e now s).1 ≡ ok q
      → m ≤ cursor_of (receive_next p e now s).0 e.device_id
  unfolding receive_next
  receive_next_runs e m s waits ended =
      let h = apply_semantics-SameTransport p e now s in
      let u = (apply_semantics p e now s).0 in
      let t = set_cursor e.device_id e.device_sequence u in
      let moved = lookup-insert e.device_id e.device_id e.device_sequence u.cursors in
      elim (Outcome-cases (apply_semantics p e now s).1) [
        | inl ((done, code), r) ↦
            rw (r, receive_next)
              (rw (finish-state p e done code (drain_all p e.device_id now t)) (
                drain_runs e.device_id m (suc (length (pending_of t e.device_id))) t
                  (λ n a b.
                    ground (arith, h.pending, moved, eq_iff e.device_id e.device_id, waits n))
                  (finish-ok e done code (drain_all p e.device_id now t)
                    (rw (r, receive_next) at ended))))
        | inr (f, r) ↦ absurd (cc (rw (r, receive_next) at ended))
      ]

  -- The branch of `receive` for the number that comes next.
  pub receive-next_lem :
      (e : Envelope) (s : Peer)
      → e.space_id ≡ s.space_id
      → contains e.schema_version s.supported_schema_versions ≡ true
      → digest_of s e.device_id e.device_sequence ≡ none
      → e.device_sequence ≡ cursor_of s e.device_id + 1
      → receive p e now s ≡ receive_next p e now (record_digest p e s)
  unfolding receive_new
  receive-next_lem e s here known new next = receive-new_lem p e now now s here new ∙ ground arith

  -- An envelope of the peer's space that comes in turn, of a schema version that the peer supports, with a number
  -- that has no digest on record, and whose receipt is returned, brings the cursor of its sender to every number up
  -- to which all that follows it was waiting.
  pub gap_closes :
      (e : Envelope) (m : ℕ) (s : Peer) {q : Receipt}
      → e.space_id ≡ s.space_id
      → contains e.schema_version s.supported_schema_versions ≡ true
      → digest_of s e.device_id e.device_sequence ≡ none
      → e.device_sequence ≡ cursor_of s e.device_id + 1
      → ((n : ℕ) → e.device_sequence < n → n ≤ m → is_some (pending_at s e.device_id n) ≡ true)
      → (receive p e now s).1 ≡ ok q
      → m ≤ cursor_of (receive p e now s).0 e.device_id
  gap_closes e m s here known new next waits ended =
      let s' = record_digest p e s in
      rw (receive-next_lem e s here known new next)
        (receive_next_runs e m s' waits (rw (receive-next_lem e s here known new next) at ended))
