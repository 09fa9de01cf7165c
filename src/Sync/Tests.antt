-- ===== src/Sync/Tests.antt =====
-- Runs of the peer on small inputs, and its theorems at inputs that meet their conditions.
use ameme.Base.{
  string_eq, nat_eq, ℕ, ◌≤◌, ◌<◌, ◌≡◌, ◌≢◌, refl, arith, true, false, none, some, String, [], ◌∷◌,
  ok, err,
}
use ameme.Base.Int.{pos}
use ameme.Json.{Fields, end, field, obj, str}
use ameme.Platform.{Platform}
use ameme.Sync.Envelope.{
  Envelope, Draft, Operation, append_revision, grant_revocation, post_init, bad_key,
}
use ameme.Sync.Envelope.Checks.{IsChecked, post_init-IsChecked}
use ameme.Base.Dict.{is_some, lookup, lookup2, insert, insert2, erase, erase2}
use ameme.Base.Sets.{add, contains}
use ameme.Json.{get}
use ameme.Sync.Envelope.{build}
use ameme.Sync.State.{
  Peer, Receipt, new_peer, cursor_of, pending_at, applied, revision_applied, receipt,
}
use ameme.Sync.Semantics.{type_error, out_of_fuel, apply_semantics, apply_once, apply_operation}
use ameme.Sync.Semantics.Effects.{SameProjection, Grows, Quiet, apply_semantics-Quiet}
use ameme.Sync.Receive.{receive, drain, settle, Emission, draft, emit}
use ameme.Sync.Receive.Invariant.{IsValid, new_peer-IsValid}
use ameme.Sync.Receive.Keeps.{receive-IsValid}
use ameme.Sync.Receive.Space.{IsHome, only_own_space_waits}
use ameme.Sync.Receive.Replay.{receive_again}
use ameme.Sync.Receive.Authority.{receive-Grows}
use ameme.Sync.Receive.Revoked.{revoked_sender_is_powerless}
use ameme.Sync.Receive.Cursor.{MovesOnly, receive-MovesOnly}
use ameme.Sync.Receive.Progress.{gap_closes, receive-ne-out_of_fuel}
use ameme.Sync.Receive.Deliveries.{receive_all}
use ameme.Sync.Receive.Faults.{emit_all, failed_emit_blocks, unhashable_target_blocks}

-- A hash that keeps its input apart from any other.
abbrev platform : Platform
platform = record { sha256_hex = λ s. s; str_of_container = λ v. "{}" }

abbrev changes : Fields
changes = field "changes" (obj (field "title" (str "Lunch") end)) end

abbrev envelope : String → ℕ → Operation → Fields → Envelope
envelope key n operation payload = record {
  schema_version = pos 1;
  sync_envelope_id = key;
  space_id = "space";
  device_id = "phone";
  device_sequence = n;
  operation = operation;
  object_type = "event_revision";
  object_id = "evr_1";
  idempotency_key = key;
  created_at = "2026-01-01T00:00:01Z";
  payload = payload;
  base_revision = none;
}

abbrev first : Envelope
first = envelope "idem_first" 1 append_revision changes

abbrev second : Envelope
second = envelope "idem_second" 2 append_revision changes

abbrev laptop : Peer
laptop = new_peer "laptop" "space" (pos 1 ∷ [])

-- A delivery that runs: whoever unfolds it computes.
delivered : Envelope → ℕ → Peer → Peer
unfolding receive apply_semantics apply_once apply_operation drain settle lookup lookup2 contains
    add insert insert2 erase erase2 get
delivered e now s = (receive platform e now s).0

-- The second envelope waits for the first.
abbrev waiting : Peer
waiting = (receive platform second 1 laptop).0

gap_waits : cursor_of waiting "phone" ≡ 0
unfolding delivered
gap_waits = refl

gap_then_first : cursor_of (receive platform first 2 waiting).0 "phone" ≡ 2
unfolding delivered
gap_then_first = refl

laptop-IsValid : IsValid platform laptop
laptop-IsValid = new_peer-IsValid platform "laptop" "space" (pos 1 ∷ [])

waiting-IsValid : IsValid platform waiting
waiting-IsValid = receive-IsValid platform second 1 laptop laptop-IsValid

receive-IsValid_example : IsValid platform (receive platform first 2 waiting).0
receive-IsValid_example = receive-IsValid platform first 2 waiting waiting-IsValid

waits_at_two : (n : ℕ) → 1 < n → n ≤ 2 → is_some (pending_at waiting "phone" n) ≡ true
unfolding delivered
waits_at_two n a b = rw (the_two n a b) refl
  where
    the_two : (n : ℕ) → 1 < n → n ≤ 2 → n ≡ 2
    the_two n a b = omega arith

gap_closes_example : 2 ≤ cursor_of (receive platform first 2 waiting).0 "phone"
unfolding delivered
gap_closes_example =
    gap_closes platform 2 first 2 waiting
      {q = receipt (receive platform first 2 waiting).0 first applied revision_applied true} refl
      refl refl refl waits_at_two refl

abbrev barred : Peer
barred = record waiting { revoked_devices = "phone" ∷ [] }

revoked_sender_is_powerless_example : SameProjection barred (receive platform first 2 barred).0
unfolding contains
revoked_sender_is_powerless_example =
    revoked_sender_is_powerless platform first 2 barred
      (record { ordered = assumption (waiting-IsValid.ordered); drained = waiting-IsValid.drained })
      refl

receive_again_example :
    let t = (receive platform first 2 waiting).0 in
    (r : Receipt) × (receive platform first 9 t ≡ (t, ok r)) × (r.semantic_applied ≡ false)
unfolding delivered
receive_again_example = receive_again platform first 2 9 waiting refl

receive-ne-out_of_fuel_example : (receive platform first 2 waiting).1 ≢ err out_of_fuel
receive-ne-out_of_fuel_example = receive-ne-out_of_fuel platform 2 first waiting

laptop-IsHome : IsHome "space" laptop
unfolding lookup2 lookup
laptop-IsHome = record { at_home = refl; waiting = λ o n x h. absurd (cc h) }

-- The second envelope waits; under the name of another space it does not.
only_own_space_waits_example :
    IsHome "space"
      (receive_all platform ((record second { space_id = "home" }, 1) ∷ (second, 2) ∷ []) laptop)
only_own_space_waits_example =
    only_own_space_waits platform ((record second { space_id = "home" }, 1) ∷ (second, 2) ∷ [])
      "space" laptop laptop-IsHome

receive-Grows_example : Grows waiting (receive platform first 2 waiting).0
receive-Grows_example = receive-Grows platform first 2 waiting

receive-MovesOnly_example : MovesOnly "phone" waiting (receive platform first 2 waiting).0
receive-MovesOnly_example = receive-MovesOnly platform first 2 waiting

apply_semantics-Quiet_example : Quiet barred (apply_semantics platform first 2 barred)
apply_semantics-Quiet_example = apply_semantics-Quiet platform first 2 barred

-- A key of three characters fails the checks.
abbrev short_key : Emission
short_key = record {
  operation = "tombstone";
  object_type = "event";
  object_id = "evt_1";
  payload = end;
  base_revision = none;
  idempotency_key = some "abc";
  schema_version = pos 1;
}

abbrev clock : ℕ → String
clock n = "2026-01-01T00:00:01Z"

failed_emit_blocks_example :
    cursor_of
      (emit_all platform clock
        ((record short_key { idempotency_key = none }, 2) ∷ [])
        (emit platform clock short_key 1 laptop).0)
      "laptop"
    ≡ cursor_of laptop "laptop"
unfolding post_init draft delivered
failed_emit_blocks_example =
    failed_emit_blocks platform clock short_key 1 laptop {c = bad_key}
      ((record short_key { idempotency_key = none }, 2) ∷ []) refl refl

abbrev poisoned : Envelope
poisoned = envelope "idem_first" 1 grant_revocation (field "target_type" (obj end) end)

unhashable_target_blocks_example :
    ((receive platform poisoned 1 laptop).1 ≡ err type_error)
    × (cursor_of
          (receive_all platform
            ((poisoned, 5) ∷ (first, 6) ∷ [])
            (receive platform poisoned 1 laptop).0)
          "phone"
        ≡ cursor_of laptop "phone")
unfolding delivered
unhashable_target_blocks_example =
    unhashable_target_blocks platform poisoned 1 ((poisoned, 5) ∷ (first, 6) ∷ []) laptop end refl
      refl (refl, refl, refl, refl) refl refl refl

abbrev a_draft : Draft
a_draft = record {
  schema_version = pos 1;
  sync_envelope_id = "syn_1";
  space_id = "space";
  device_id = "phone";
  device_sequence = pos 1;
  operation = "append_revision";
  object_type = "event_revision";
  object_id = "evr_1";
  idempotency_key = "idem_first";
  created_at = "2026-01-01T00:00:01Z";
  payload = changes;
  base_revision = some (pos 0);
}

post_init-IsChecked_example : IsChecked a_draft (build a_draft 1 append_revision (some 0))
unfolding post_init
post_init-IsChecked_example =
    post_init-IsChecked a_draft {e = build a_draft 1 append_revision (some 0)} refl
