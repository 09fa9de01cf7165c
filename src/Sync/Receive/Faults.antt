-- ===== src/Sync/Receive/Faults.antt =====
-- Two ways in which a stream of envelopes stops for good: an emission that fails its checks has spent
-- its sequence number, and a revocation whose target type has no hash raises after it was recorded.
use ameme.Sync.Semantics.{apply_operation}
use ameme.Sync.Semantics.{apply_once}
use ameme.Base.{
  ◌++◌, string_eq, nat_eq, ℕ, ◌+◌, ◌<◌, ◌≡◌, refl, ◌∙◌, arith, true, false, none, some, String, ok,
  err, inl, inr, sym, Outcome-cases, List, [], ◌∷◌, ap,
}
use ameme.Base.Dict.{lookup}
use ameme.Base.Sets.{contains}
use ameme.Base.Int.{int_eq}
use text.Mathlib.TextEquality.{eq_iff}
use ameme.Json.{Json, obj, Fields}
use ameme.Json
use ameme.Platform.{Platform}
use ameme.Sync.Envelope.{Envelope, digest, ValueError, post_init, grant_revocation}
use ameme.Sync.State.{Peer, cursor_of, digest_of, record_digest}
use ameme.Sync.Envelope.Checks.{post_init-IsChecked}
use ameme.Sync.Semantics.{apply_semantics, type_error}
use ameme.Sync.Semantics.Frame.{apply_semantics-SameTransport}
use ameme.Sync.Receive.{receive_next, receive, Emission, draft, emit}
use ameme.Sync.Receive.Deliveries.{receive_all, receive_out_of_turn, receive_all-blocked}
use ameme.Sync.Receive.Replay.{receive-IsRecorded}
use ameme.Sync.Receive.Progress.{receive-next_lem}

-- A number that was spent lies between the cursor of the peer for itself and the number that it gives next.
abbrev IsStuck : Peer → Type 0
IsStuck s = cursor_of s s.peer_id + 1 < s.next_sequence

module _ (p : Platform) (clock : ℕ → String) where
  draft_sequence :
      (m : Emission) (s : Peer) {e : Envelope}
      → post_init (draft p clock m s) ≡ ok e
      → (e.device_sequence ≡ s.next_sequence) × (e.device_id ≡ s.peer_id)
  unfolding draft
  draft_sequence m s passed =
      let c = post_init-IsChecked (draft p clock m s) passed in
      (ground (arith, c.sequence), c.device_id)

  emit-Held :
      (m : Emission) (now : ℕ) (s : Peer)
      → IsStuck s
      → let t = (emit p clock m now s).0 in
        (t.cursors ≡ s.cursors) × (t.peer_id ≡ s.peer_id) × (t.next_sequence ≡ s.next_sequence + 1)
  unfolding emit
  emit-Held m now s stuck = elim (Outcome-cases (post_init (draft p clock m s))) [
    | inl (e, passed) ↦
        let s' = record s { next_sequence = s.next_sequence + 1; outbox = s.outbox ++ e ∷ [] } in
        let (sequence, device) = draft_sequence m s passed in
        let h =
          receive_out_of_turn p e now s' (λ next. omega (arith, rw (sequence, device) at next)) in
        rw (passed, emit)
          (elim (Outcome-cases (receive p e now s').1) [
            | inl (r, returned) ↦ rw (returned, emit) (h.cursors, h.peer_id, h.next_sequence)
            | inr (f, raised) ↦ rw (raised, emit) (h.cursors, h.peer_id, h.next_sequence)
          ])
    | inr (c, failed) ↦ rw (failed, emit) (refl, refl, refl)
  ]

  -- Emissions one after the other, each at its tick; what one raises does not stop the next.
  pub emit_all : List (Emission × ℕ) → Peer → Peer
  emit_all [] s = s
  emit_all ((m, now) ∷ ms) s = emit_all ms (emit p clock m now s).0

  emit_all-stuck :
      (ms : List (Emission × ℕ)) (s : Peer) → IsStuck s → (emit_all ms s).cursors ≡ s.cursors
  unfolding emit_all
  emit_all-stuck [] s stuck = refl
  emit_all-stuck ((m, now) ∷ ms) s stuck =
      let (c, i, n) = emit-Held m now s stuck in
      emit_all-stuck ms (emit p clock m now s).0 (ground (arith, c, i, n)) ∙ c

  -- In a peer that has applied all of its own envelopes, one emission that fails the checks of the
  -- constructor stops the peer's own stream for good: whatever it emits after that, its cursor for itself
  -- stays where it was.
  pub failed_emit_blocks :
      (m : Emission) (now : ℕ) (s : Peer) {c : ValueError} (ms : List (Emission × ℕ))
      → s.next_sequence ≡ cursor_of s s.peer_id + 1
      → post_init (draft p clock m s) ≡ err c
      → cursor_of (emit_all ms (emit p clock m now s).0) s.peer_id ≡ cursor_of s s.peer_id
  unfolding emit
  failed_emit_blocks m now s ms in_turn failed =
      let t = record s { next_sequence = s.next_sequence + 1 } in
      rw (failed, emit) (ground (arith, emit_all-stuck ms t (omega arith)))

module _ (p : Platform) (e : Envelope) (now : ℕ) where
  -- The guards in front of the operation let the envelope through.
  abbrev IsAdmitted : Peer → Type 0
  IsAdmitted s =
      (e.space_id ≡ s.space_id)
      × (contains e.device_id s.revoked_devices ≡ false)
      × (lookup e.device_id s.authorization_expiry ≡ none)
      × (lookup e.idempotency_key s.idempotency ≡ none)

  apply_semantics-raises :
      (s : Peer) (fs : Fields)
      → e.operation ≡ grant_revocation
      → Json.get "target_type" e.payload ≡ some (obj fs)
      → IsAdmitted s
      → (apply_semantics p e now s).1 ≡ err type_error
  unfolding apply_semantics apply_once apply_operation
  apply_semantics-raises s fs op target (here, free, lasting, fresh) =
      ground (arith, (eq_iff e.space_id s.space_id).1 here)

  receive_next-raises :
      (s : Peer)
      → (apply_semantics p e now s).1 ≡ err type_error
      → ((receive_next p e now s).1 ≡ err type_error)
        × ((receive_next p e now s).0.cursors ≡ s.cursors)
  unfolding receive_next
  receive_next-raises s raised =
      rw (raised, receive_next) (refl, (apply_semantics-SameTransport p e now s).cursors)

  -- Take a grant revocation in turn whose target type is a mapping, with a number that is not on record, of a supported
  -- schema version, in the peer's own space, from a sender that is not revoked and whose authority has no expiry, under
  -- an idempotency key that was not used. Its delivery raises a type error, and the cursor of its sender stays where it
  -- was whatever is then delivered to the peer, by whom, and at which ticks.
  pub unhashable_target_blocks :
      (later : List (Envelope × ℕ)) (s : Peer) (fs : Fields)
      → e.operation ≡ grant_revocation
      → Json.get "target_type" e.payload ≡ some (obj fs)
      → IsAdmitted s
      → contains e.schema_version s.supported_schema_versions ≡ true
      → digest_of s e.device_id e.device_sequence ≡ none
      → e.device_sequence ≡ cursor_of s e.device_id + 1
      → ((receive p e now s).1 ≡ err type_error)
        × (cursor_of (receive_all p later (receive p e now s).0) e.device_id
            ≡ cursor_of s e.device_id)
  unhashable_target_blocks later s fs op target admitted known new next =
      let q = receive-next_lem p now e s admitted.0 known new next in
      let (raised, unmoved) =
        receive_next-raises (record_digest p e s)
          (apply_semantics-raises (record_digest p e s) fs op target admitted) in
      let cursors : (receive p e now s).0.cursors ≡ s.cursors = rw q unmoved in
      let same : cursor_of (receive p e now s).0 e.device_id ≡ cursor_of s e.device_id =
        ground (arith, cursors) in
      (
        rw q raised,
        receive_all-blocked p e.device_id e.device_sequence later (receive p e now s).0 (digest p e)
              (receive-IsRecorded p e now s admitted.0 new) (next ∙ ap (λ n. n + 1) (sym same))
            ∙ same,
      )
