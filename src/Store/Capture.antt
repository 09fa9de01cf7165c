-- ===== src/Store/Capture.antt =====
-- The methods of `JsonStore` that read and write one event
-- (services/ameme-mcp-mock/ameme_mcp_mock/store.py). `hex` is the random text that `uuid4().hex` gives.
use ameme.Base.{
  string_eq, nat_eq, ℕ, ◌+◌, String, ◌+s◌, Bool, false, ◌&&◌, ◌||◌, Option, none, some, ◌==◌,
  if◌then◌else◌, Outcome, ok, err, ◌>>=◌, ◌>>◌,
}
use ameme.Base.Dict.{lookup, insert}
use ameme.Base.Text.{take_text}
use ameme.Store.State.{StoreError, not_visible, Scope, require, Event, Revision, Store}

-- A method that changes the state returns it beside its result; one that raises has changed nothing.
abbrev pub Changed : Type 0 → Type 0
Changed A = Outcome StoreError (Store × A)

-- The event under an id, if it passes a test; absent or failing it is not visible.
abbrev pub visible_if : (Event → Bool) → Option Event → Outcome StoreError Event
visible_if test none = err not_visible
visible_if test (some event) = if test event then ok event else err not_visible

abbrev pub option_if : (Event → Bool) → Option Event → Option Event
option_if test none = none
option_if test (some event) = if test event then some event else none

-- The tests of `get_event`, `append_revision` and `undo_capture` on the event that they find.
abbrev pub is_own : Scope → String → Event → Bool
is_own scope space event = event.owner_id == scope.owner_id && event.space_id == space

abbrev pub is_active_in : String → Event → Bool
is_active_in space event = event.state == "active" && event.space_id == space

abbrev pub is_own_active : Scope → String → Event → Bool
is_own_active scope space event = is_own scope space event && event.state == "active"

-- `get_event`
unfoldable pub get_event :
    String → Scope → String → String → Store → Outcome StoreError (Option Event)
unfolding require
get_event event_id scope space memory_type s = do
  require scope space memory_type
  ok (option_if (is_own_active scope space) (lookup event_id s.events))

-- The arguments of `create_event` beside the scope.
pub record Capture : Type 0 where
  pub space : String
  pub content : String
  pub event_time : Option String
  pub event_type : String
  pub evidence_state : String
  pub fact_status : String
  pub sensitivity : String
  pub data_class : String
  pub now : String

-- `event_time or now`
abbrev or_now : Option String → String → String
or_now none now = now
or_now (some time) now = if time == "" then now else time

-- The event that `create_event` stores.
unfoldable pub new_event : String → Scope → Capture → Event
new_event hex scope c = record {
  event_id = "evt_" +s hex;
  owner_id = scope.owner_id;
  space_id = c.space;
  event_type = c.event_type;
  start = or_now c.event_time c.now;
  title = take_text 200 c.content;
  description = take_text 4000 c.content;
  fact_status = c.fact_status;
  field_evidence = record {
    observation_id = "obs_" +s hex;
    is_certain = c.evidence_state == "observed" || c.evidence_state == "user_asserted";
    status = c.evidence_state;
  };
  evidence_state = c.evidence_state;
  source_object_id = "src_" +s hex;
  revision = 1;
  sensitivity = c.sensitivity;
  data_class = c.data_class;
  memory_type = "event";
  state = "active";
  created_at = c.now;
  updated_at = c.now;
  revision_head_id = none;
  policy_blocked = false;
}

-- `create_event`: the id of the new event, whose revision is 1
unfoldable pub create_event : String → Scope → Capture → Store → Changed String
unfolding require new_event
create_event hex scope c s = do
  require scope c.space "event"
  let event_id = "evt_" +s hex
  ok (record s { events = insert event_id (new_event hex scope c) s.events }, event_id)

-- The arguments of `append_revision` beside the scope.
pub record Addendum : Type 0 where
  pub space : String
  pub event_id : String
  pub content : String
  pub evidence_state : String
  pub fact_status : String
  pub now : String

-- The event after a revision.
unfoldable pub revised : String → Addendum → Event → Event
revised revision_id a event = record event {
  description = take_text 4000 a.content;
  fact_status = a.fact_status;
  revision = event.revision + 1;
  revision_head_id = some revision_id;
  evidence_state = a.evidence_state;
  updated_at = a.now;
}

-- The revision that `append_revision` stores.
unfoldable pub new_revision : String → Addendum → Event → Revision
new_revision revision_id a event = record {
  event_revision_id = revision_id;
  event_id = a.event_id;
  base_revision_id = none;
  revision = event.revision + 1;
  actor = "agent";
  reason = if a.evidence_state == "user_asserted" then "user_addendum" else "model_recompute";
  description = take_text 4000 a.content;
  evidence_state = a.evidence_state;
  compensates = none;
  created_at = a.now;
}

-- The state after a revision of an event, which stands under the id of the addendum.
unfoldable pub appended : String → Addendum → Event → Store → Store
unfolding revised new_revision
appended revision_id a event s = record s {
  events = insert a.event_id (revised revision_id a event) s.events;
  revisions = insert revision_id (new_revision revision_id a event) s.revisions;
}

-- `append_revision`: the id of the revision and its number
unfoldable pub append_revision : String → Scope → Addendum → Store → Changed (String × ℕ)
unfolding require appended
append_revision hex scope a s = do
  require scope a.space "revision"
  event ← visible_if (is_active_in a.space) (lookup a.event_id s.events)
  let revision_id = "evr_" +s hex
  ok (appended revision_id a event s, (revision_id, event.revision + 1))
