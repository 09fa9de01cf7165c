-- ===== src/Sync/Project/Tests.antt =====
-- Projections of a small peer, and the theorems on them at inputs that meet their conditions.
use ameme.Base.{
  string_eq, nat_eq, ltb, ℕ, ◌<◌, ◌≡◌, refl, true, false, none, some, String, [], ◌∷◌, keep,
}
use ameme.Base.Int.{pos}
use ameme.Base.Dict.{lookup, insert, row, values, has_key}
use ameme.Json
use ameme.Json.{Fields, end, field, obj, str}
use ameme.Platform.{Platform}
use ameme.Sync.Envelope.{Envelope, append_revision}
use ameme.Sync.State.{Peer, new_peer}
use ameme.Sync.Project.{project_event, deleted, bases}
use ameme.Sync.Project.Deleted.{deleted_for_good}
use ameme.Sync.Receive.Deliveries.{receive_all}
use ameme.Sync.Project.Chain.{has_base, project_event-revision}

abbrev platform : Platform
platform = record { sha256_hex = λ s. s; str_of_container = λ v. "{}" }

abbrev revision : String → ℕ → ℕ → Envelope
revision key n base = record {
  schema_version = pos 1;
  sync_envelope_id = key;
  space_id = "space";
  device_id = "phone";
  device_sequence = n;
  operation = append_revision;
  object_type = "event_revision";
  object_id = key;
  idempotency_key = key;
  created_at = "2026-01-01T00:00:01Z";
  payload =
      field "changes" (obj (field "title" (str key) end)) (field "event_id" (str "evt_1") end);
  base_revision = some base;
}

-- Two revisions that follow each other, and one after a gap.
abbrev peer : Peer
peer = record (new_peer "laptop" "space" (pos 1 ∷ [])) {
  revisions =
      (
        "evt_1",
        ("a", revision "evr_a" 1 0)
            ∷ ("c", revision "evr_c" 3 4)
            ∷ ("b", revision "evr_b" 2 1)
            ∷ [],
      )
      ∷ [];
}

abbrev deleting_peer : Peer
deleting_peer = record peer { tombstones = ("evt_1", "t" ∷ []) ∷ [] }

no_tombstone : lookup "evt_1" peer.tombstones ≡ none
unfolding lookup
no_tombstone = refl

has_tombstone : has_key "evt_1" deleting_peer.tombstones ≡ true
unfolding lookup
has_tombstone = refl

project_event-revision_example :
    let v = project_event platform "evt_1" peer in
    let es = values (row "evt_1" peer.revisions) in
    ((n : ℕ) → n < v.revision → has_base n es ≡ true)
    × (has_base v.revision es ≡ false)
    × (v.ancestry_gaps ≡ keep (λ n. ltb v.revision n) (bases es))
project_event-revision_example = project_event-revision platform "evt_1" peer no_tombstone

deleted_for_good_example :
    let v =
      project_event platform "evt_1"
        (receive_all platform ((revision "evr_a" 1 0, 5) ∷ []) deleting_peer) in
    (v.state ≡ deleted) × (v.revision ≡ 0) × (v.fields ≡ []) × (v.conflicts ≡ [])
deleted_for_good_example =
    deleted_for_good platform "evt_1" ((revision "evr_a" 1 0, 5) ∷ []) deleting_peer has_tombstone

-- The revision after the gap does not count.
project_event_run : (project_event platform "evt_1" peer).revision ≡ 2
unfolding project_event lookup Json.get insert
project_event_run = refl

project_event_gaps : (project_event platform "evt_1" peer).ancestry_gaps ≡ 4 ∷ []
unfolding project_event lookup Json.get insert
project_event_gaps = refl
