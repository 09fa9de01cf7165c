-- ===== src/Sync/Receive/Deliveries.antt =====
-- Deliveries one after the other, and a number on record at which the cursor of a sender stops.
use ameme.Base.{
  string_eq, nat_eq, ℕ, ◌+◌, ◌≡◌, ◌≢◌, refl, ◌∙◌, sym, ap, arith, some, String, List, [], ◌∷◌,
  Bool-cases, inl, inr, ◌==◌,
}
use ameme.Base.Dict.{lookup2-insert2}
use ameme.Base.Int.{int_eq}
use text.Mathlib.TextEquality.{eq_iff}
use ameme.Platform.{Platform}
use ameme.Sync.Envelope.{Envelope, digest}
use ameme.Sync.State.{Peer, cursor_of, digest_of, record_digest}
use ameme.Sync.Semantics.Frame.{apply_semantics-SameTransport}
use ameme.Sync.Receive.{
  receive_priority, receive_waiting, receive_stale, receive_unsupported, receive_known, receive,
}
use ameme.Sync.Receive.Branches.{receive_new_induction, receive_induction}
use ameme.Sync.Receive.Cursor.{receive-MovesOnly}
use ameme.Sync.Receive.Replay.{receive_new-SameRecord}

-- Whatever each returns or raises.
unfoldable pub receive_all : Platform → List (Envelope × ℕ) → Peer → Peer
receive_all p [] s = s
receive_all p ((e, now) ∷ rest) s = receive_all p rest (receive p e now s).0

-- The cursors, the name, the space and the next number of the peer are those of another state.
pub record Held (s t : Peer) : Type 0 where
  pub cursors : t.cursors ≡ s.cursors
  pub peer_id : t.peer_id ≡ s.peer_id
  pub next_sequence : t.next_sequence ≡ s.next_sequence

module _ (p : Platform) (e : Envelope) (now : ℕ) where
  receive_priority-Held : (s : Peer) → Held s (receive_priority p e now s).0
  unfolding receive_priority
  receive_priority-Held s = ground (arith, apply_semantics-SameTransport p e now s)

  -- An envelope whose number is not the next one moves no cursor.
  pub receive_out_of_turn :
      (s : Peer) → e.device_sequence ≢ cursor_of s e.device_id + 1 → Held s (receive p e now s).0
  unfolding receive_unsupported receive_stale receive_waiting receive_known
  receive_out_of_turn s skipped =
      receive_induction p e now s (λ r. Held s r.0) (λ _. ground arith) (λ d _. ground arith)
        (λ _.
          receive_new_induction p e now s (λ r. Held s r.0) (λ _. ground arith) (λ _. ground arith)
            (λ _ _. assumption (receive_priority-Held (record_digest p e s))) (λ _ _. ground arith)
            (λ next. absurd (skipped next)))

  -- A digest on record stays there.
  receive-keeps_digest :
      (dev : String) (n : ℕ) (d : String) (s : Peer)
      → digest_of s dev n ≡ some d
      → digest_of (receive p e now s).0 dev n ≡ some d
  unfolding receive_known
  receive-keeps_digest dev n d s h =
      receive_induction p e now s (λ r. digest_of r.0 dev n ≡ some d) (λ _. assumption h)
        (λ k _. ground (arith, h))
        (λ new. rw (receive_new-SameRecord p e now s).0 (
          ground (
            arith,
            h,
            new,
            eq_iff e.device_id dev,
            nat_eq.same_iff e.device_sequence n,
            lookup2-insert2 e.device_id e.device_sequence dev n (digest p e) s.sequence_digests,
          )))

  -- A delivery of the number on record, from its sender, moves no cursor.
  receive-keeps_cursors :
      (s : Peer) (d : String)
      → digest_of s e.device_id e.device_sequence ≡ some d
      → (receive p e now s).0.cursors ≡ s.cursors
  unfolding receive_known
  receive-keeps_cursors s d h =
      receive_induction p e now s (λ r. r.0.cursors ≡ s.cursors) (λ _. refl) (λ k _. ground arith)
        (λ new. absurd (cc (h, new)))

  receive-blocked :
      (dev : String) (n : ℕ) (d : String) (s : Peer)
      → digest_of s dev n ≡ some d
      → n ≡ cursor_of s dev + 1
      → cursor_of (receive p e now s).0 dev ≡ cursor_of s dev
  receive-blocked dev n d s h next = elim (Bool-cases (e.device_id == dev)) [
    | inr other ↦
        (receive-MovesOnly p e now s).cursor dev
          (λ same. cc (other, (string_eq.same_iff e.device_id dev).1 same))
    | inl same ↦ elim (Bool-cases (e.device_sequence == n)) [
      | inl this ↦
          let same' = (string_eq.same_iff e.device_id dev).0 same in
          let this' = (nat_eq.same_iff e.device_sequence n).0 this in
          let cursors : (receive p e now s).0.cursors ≡ s.cursors =
            receive-keeps_cursors s d (rw (same', this') h) in
          ground (arith, cursors)
      | inr skip ↦
          let same' = (string_eq.same_iff e.device_id dev).0 same in
          let cursors =
            (receive_out_of_turn s (λ k.
              cc (
                skip,
                (nat_eq.same_iff e.device_sequence n).1 (k ∙ rw same' (sym next)),
              ))).cursors in
          ground (arith, cursors)
    ]
  ]

-- A sender whose next number is on record has come to its end: whatever is delivered, its cursor stays.
pub receive_all-blocked :
    (p : Platform) (dev : String) (n : ℕ) (deliveries : List (Envelope × ℕ)) (s : Peer) (d : String)
    → digest_of s dev n ≡ some d
    → n ≡ cursor_of s dev + 1
    → cursor_of (receive_all p deliveries s) dev ≡ cursor_of s dev
unfolding receive_all
receive_all-blocked p dev n [] s d h next = refl
receive_all-blocked p dev n ((e, now) ∷ rest) s d h next =
    let same = receive-blocked p e now dev n d s h next in
    receive_all-blocked p dev n rest (receive p e now s).0 d
      (receive-keeps_digest p e now dev n d s h) (next ∙ ap (λ k. k + 1) (sym same))
    ∙ same
