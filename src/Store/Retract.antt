-- ===== src/Store/Retract.antt =====
-- The methods of `JsonStore` that take a capture back, block an event and queue a delivery
-- (services/ameme-mcp-mock/ameme_mcp_mock/store.py).
use ameme.Base.{
  string_eq, nat_eq, ℕ, ◌+◌, String, ◌+s◌, Bool, true, false, ◌&&◌, Option, none, some, [], ◌∷◌,
  ◌++◌, length, ◌==◌, if◌then◌else◌, Outcome, ok, err, ◌>>=◌, ◌>>◌,
}
use ameme.Base.Dict.{lookup, insert}
use ameme.Store.State.{
  StoreError, not_visible, conflict, Scope, require, Event, Revision, Queued, Store, Undo,
}
use ameme.Store.Capture.{Changed, visible_if, option_if, is_own}

-- `undo_capture` of an event: it is marked as deleted.
unfoldable pub undo_event : Undo → Event → String → Store → Changed (Option String)
undo_event undo event now s =
    if event.event_id == undo.created_object_id
      && event.revision == undo.created_revision
      && undo.created_revision == 1
    then ok (
      record s {
        events =
            insert undo.target_event_id (record event { state = "deleted"; updated_at = now })
              s.events;
      },
      none,
    )
    else err not_visible

-- The event as it was before the revision, under a new revision number and head.
unfoldable pub restored : String → Event → Event → String → Event
restored compensation_id event snapshot now = record snapshot {
  revision = event.revision + 1;
  revision_head_id = some compensation_id;
  updated_at = now;
}

-- `undo_capture` of a revision, where the revision and the snapshot are there: a compensating revision.
unfoldable pub compensated : String → Undo → Event → Event → String → Store → Store
unfolding restored
compensated compensation_id undo event snapshot now s = record s {
  revisions =
      insert compensation_id
        (record {
          event_revision_id = compensation_id;
          event_id = event.event_id;
          base_revision_id = some undo.created_object_id;
          revision = event.revision + 1;
          actor = "system";
          reason = "user_edit";
          description = snapshot.description;
          evidence_state = snapshot.evidence_state;
          compensates = some undo.created_object_id;
          created_at = now;
        })
        s.revisions;
  events = insert event.event_id (restored compensation_id event snapshot now) s.events;
}

abbrev compensate : String → Undo → Event → Event → String → Store → Changed (Option String)
unfolding compensated
compensate hex undo event snapshot now s =
    let compensation_id = "evr_" +s hex in
    ok (compensated compensation_id undo event snapshot now s, some compensation_id)

-- The guards of the undo of a revision.
abbrev pub is_head : Option String → String → Bool
is_head none id = false
is_head (some head) id = head == id

unfoldable pub undo_revision :
    String
    → Undo
    → Event
    → String
    → String
    → Option Revision
    → Option Event
    → Store
    → Changed (Option String)
unfolding compensated
undo_revision hex undo event space now (some created) (some snapshot) s =
    if created.event_id == event.event_id
      && snapshot.space_id == space
      && event.revision == undo.created_revision
    then if is_head event.revision_head_id undo.created_object_id
      then compensate hex undo event snapshot now s
      else err conflict
    else err not_visible
undo_revision hex undo event space now _ _ s = err not_visible

-- The event that `undo_capture` works on.
unfoldable pub undo_target : Undo → Scope → String → String → Store → Outcome StoreError Event
undo_target undo scope space memory_type s =
    if undo.space_id == space && undo.created_object_type == memory_type
    then visible_if (is_own scope space) (lookup undo.target_event_id s.events)
    else err not_visible

-- The two kinds of object that `undo_capture` takes back.
unfoldable pub undo_object :
    String → Undo → Event → String → String → Store → Changed (Option String)
unfolding undo_event undo_revision
undo_object hex undo event space now s =
    if undo.created_object_type == "event"
    then undo_event undo event now s
    else if undo.created_object_type == "revision"
    then undo_revision hex undo event space now (lookup undo.created_object_id s.revisions)
        undo.previous_event_snapshot s
    else err not_visible

-- `undo_capture`: the id of the compensating revision, if there is one
unfoldable pub undo_capture :
    String → Undo → Scope → String → String → String → Store → Changed (Option String)
unfolding require undo_object undo_target
undo_capture hex undo scope space memory_type now s = do
  require scope space memory_type
  event ← undo_target undo scope space memory_type s
  undo_object hex undo event space now s

-- Blocking an event, if it is there.
unfoldable pub block : String → Option Event → Store → Store × Bool
block event_id none s = (s, false)
block event_id (some event) s =
    (record s { events = insert event_id (record event { policy_blocked = true }) s.events }, true)

-- `set_policy_blocked`: whether the event was there
unfoldable pub set_policy_blocked : String → Scope → String → String → Store → Changed Bool
unfolding require block
set_policy_blocked event_id scope space memory_type s = do
  require scope space memory_type
  ok (block event_id (option_if (is_own scope space) (lookup event_id s.events)) s)

-- `enqueue_delivery`
unfoldable pub enqueue_delivery : String → String → String → String → Store → Store × Queued
enqueue_delivery hex object_type object_id now s =
    let queued : Queued = record {
      queue_id = "que_" +s hex;
      object_type = object_type;
      object_id = object_id;
      state = "queued";
      created_at = now;
    } in
    (record s { queue = s.queue ++ queued ∷ [] }, queued)

-- `queued_count`
unfoldable pub queued_count : Store → ℕ
queued_count s = length s.queue
