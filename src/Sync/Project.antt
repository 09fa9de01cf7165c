-- ===== src/Sync/Project.antt =====
-- `Peer._project_event`: the current state of an event, made from the revisions and the tombstones that a peer
-- holds (packages/sync-protocol/src/ameme_sync_protocol/simulator.py).
pub mod Deleted
pub mod Walk
pub mod Chain
mod Tests
use ameme.Base.{
  string_eq, nat_eq, ltb, leb, ℕ, ◌+◌, String, Bool, true, false, Option, none, some, List, [], ◌∷◌,
  ◌++◌, length, keep, ◌==◌, if◌then◌else◌,
}
use ameme.Base.Dict.{Dict, lookup, insert, erase, default, has_key, keys, values, row}
use ameme.Base.Sorting.{sorted_by, sort_texts}
use ameme.Base.Text.{str_leb}
use ameme.Json.{Json, Fields, end, field, obj, get, canonical_json}
use ameme.Platform.{Platform}
use ameme.Sync.Envelope.{Envelope, digest}
use ameme.Sync.State.{Peer}

-- The keys of a dict of numbers in ascending order: each stands once.
abbrev pub put_number : ℕ → List ℕ → List ℕ
put_number n [] = n ∷ []
put_number n (m ∷ ms) =
    let rest = put_number n ms in
    if ltb n m then n ∷ m ∷ ms else if n == m then m ∷ ms else m ∷ rest

-- `envelope.base_revision or 0`
abbrev pub base_of : Envelope → ℕ
base_of e = default 0 e.base_revision

-- `sorted(grouped)`
unfoldable pub bases : List Envelope → List ℕ
bases [] = []
bases (e ∷ es) = put_number (base_of e) (bases es)

-- `revision.payload["changes"].items()`. A revision is stored only with a mapping there.
unfoldable pub items : Fields → List (String × Json)
items end = []
items (field k v fs) = (k, v) ∷ items fs

unfoldable pub changes_of : Envelope → List (String × Json)
unfolding items
changes_of e = members (get "changes" e.payload)
  where
    members : Option Json → List (String × Json)
    members (some (Json.obj fs)) = items fs
    members _ = []

-- One value that revisions of the same base give to a field, and those revisions.
pub record Alternative : Type 0 where
  pub value : Json
  pub revision_ids : List String

-- The variables of the loop over the bases.
pub record Building : Type 0 where
  pub current_revision : ℕ
  pub fields : Dict String Json
  pub conflicts : Dict String (List Alternative)
  pub revision_ids : List String
  pub ancestry_gaps : List ℕ

pub data EventState : Type 0 where
  deleted conflict active : EventState

pub record Projection : Type 0 where
  pub event_id : String
  pub state : EventState
  pub revision : ℕ
  pub fields : Dict String Json
  pub conflicts : Dict String (List Alternative)
  pub revision_ids : List String
  pub ancestry_gaps : List ℕ
  pub tombstone_count : ℕ

-- `{key: d[key] for key in sorted(d)}`
unfoldable pub sort_dict : {V : Type 0} → Dict String V → Dict String V
unfolding sorted_by
sort_dict d = sorted_by (λ x y. str_leb x.0 y.0) d

module _ (p : Platform) where
  -- The key of the sort of the revisions: device, number, digest.
  abbrev pub comes_before : Envelope → Envelope → Bool
  comes_before e f =
      if e.device_id == f.device_id
      then if e.device_sequence == f.device_sequence
        then str_leb (digest p e) (digest p f)
        else ltb e.device_sequence f.device_sequence
      else str_leb e.device_id f.device_id

  -- `revisions`: those of one base
  unfoldable pub revisions_at : ℕ → List Envelope → List Envelope
  unfolding sorted_by
  revisions_at base es = sorted_by comes_before (keep (λ e. base_of e == base) es)

-- `by_field[field_name].append((canonical_json(thaw(value)), thaw(value), revision))`
abbrev pub Entry : Type 0
Entry = String × Json × Envelope

unfoldable pub add_changes :
    Envelope → List (String × Json) → Dict String (List Entry) → Dict String (List Entry)
add_changes e [] d = d
add_changes e ((name, value) ∷ rest) d =
    add_changes e rest
      (insert name (default [] (lookup name d) ++ (canonical_json value, value, e) ∷ []) d)

unfoldable pub by_field : List Envelope → Dict String (List Entry) → Dict String (List Entry)
unfolding add_changes changes_of
by_field [] d = d
by_field (e ∷ es) d = by_field es (add_changes e (changes_of e) d)

-- `alternatives_by_value`
unfoldable pub by_value :
    List Entry → Dict String (Json × List Envelope) → Dict String (Json × List Envelope)
by_value [] d = d
by_value ((key, value, e) ∷ rest) d =
    let (first, sources) = default (value, []) (lookup key d) in
    by_value rest (insert key (first, sources ++ e ∷ []) d)

object_ids : List Envelope → List String
object_ids [] = []
object_ids (e ∷ es) = e.object_id ∷ object_ids es

unfoldable pub alternatives : Dict String (Json × List Envelope) → List Alternative
unfolding sort_texts object_ids
alternatives [] = []
alternatives ((key, (value, sources)) ∷ rest) =
    record { value = value; revision_ids = sort_texts (object_ids sources) } ∷ alternatives rest

-- The body of the loop over the fields.
unfoldable pub settle_field : String → Dict String (Json × List Envelope) → Building → Building
unfolding alternatives sort_dict
settle_field name ((key, (value, sources)) ∷ []) b = record b {
  fields = insert name value b.fields;
  conflicts = erase name b.conflicts;
}
settle_field name found b = record b {
  conflicts = insert name (alternatives (sort_dict found)) b.conflicts;
}

unfoldable pub settle_fields : Dict String (List Entry) → Building → Building
unfolding settle_field by_value
settle_fields [] b = b
settle_fields ((name, entries) ∷ rest) b =
    settle_fields rest (settle_field name (by_value entries []) b)

-- A base that continues the chain.
unfoldable pub continue_chain : List Envelope → Building → Building
unfolding settle_fields by_field sort_dict
continue_chain revisions b =
    let b' = settle_fields (sort_dict (by_field revisions [])) b in
    record b' { current_revision = b'.current_revision + 1 }

abbrev pub nothing_built : Building
nothing_built = record {
  current_revision = 0;
  fields = [];
  conflicts = [];
  revision_ids = [];
  ancestry_gaps = [];
}

module _ (p : Platform) where
  -- The body of the loop over the bases.
  unfoldable pub build_base : List Envelope → ℕ → Building → Building
  unfolding revisions_at object_ids continue_chain
  build_base es base b =
      let revisions = revisions_at p base es in
      let b' = record b { revision_ids = b.revision_ids ++ object_ids revisions } in
      if base == b.current_revision
      then continue_chain revisions b'
      else record b' { ancestry_gaps = b.ancestry_gaps ++ base ∷ [] }

  unfoldable pub build_bases : List Envelope → List ℕ → Building → Building
  unfolding build_base
  build_bases es [] b = b
  build_bases es (base ∷ rest) b = build_bases es rest (build_base es base b)

  -- An event without a tombstone.
  unfoldable pub project_revisions : String → List Envelope → Projection
  unfolding build_bases bases sort_dict sort_texts
  project_revisions event_id es =
      let b = build_bases es (bases es) nothing_built in
      record {
        event_id = event_id;
        state = state_of b.conflicts;
        revision = b.current_revision;
        fields = sort_dict b.fields;
        conflicts = sort_dict b.conflicts;
        revision_ids = sort_texts b.revision_ids;
        ancestry_gaps = b.ancestry_gaps;
        tombstone_count = 0;
      }
    where
      state_of : Dict String (List Alternative) → EventState
      state_of [] = active
      state_of _ = conflict

  -- The projection, by the tombstones of the event.
  unfoldable pub project_by : Option (List String) → String → Peer → Projection
  unfolding project_revisions
  project_by (some seen) event_id s = record {
    event_id = event_id;
    state = deleted;
    revision = 0;
    fields = [];
    conflicts = [];
    revision_ids = [];
    ancestry_gaps = [];
    tombstone_count = length seen;
  }
  project_by none event_id s = project_revisions event_id (values (row event_id s.revisions))

  -- `_project_event`
  unfoldable pub project_event : String → Peer → Projection
  unfolding project_by
  project_event event_id s = project_by (lookup event_id s.tombstones) event_id s
