-- ===== src/Store/Tests.antt =====
-- Runs of the store on small inputs, and its theorems at inputs that meet their conditions.
use ameme.Base.Sets.{is_subset}
use ameme.Base.{Bool}
use ameme.Base.{List}
use ameme.Base.{
  string_eq, nat_eq, ◌≡◌, ◌≢◌, refl, arith, true, false, none, some, String, [], ◌∷◌, ok, any, all,
  keep,
}
use mathlib.Core.List.{Perm}
use text.Mathlib.TextEquality.{eq_iff}
use ameme.Base.Dict.{lookup, insert, values}
use ameme.Base.Sets.{contains}
use ameme.Base.Text.{take_text, has_part, has_prefix}
use ameme.Store.State.{Scope, Store, Event, require}
use ameme.Store.Capture.{Capture, Addendum, create_event, get_event, append_revision, new_event}
use ameme.Store.Retract.{undo_capture, set_policy_blocked}
use ameme.Store.Visible.{
  Texts, Query, visible_events, require_all, require_types, scan, judge, sort_events,
}
use ameme.Store.Roundtrip.{create_event-get_event}
use ameme.Store.Revising.{append_ignores_owner}
use ameme.Store.Undoing.{undo_of, append-undo, undo_lifts_block}
use ameme.Store.Listing.{is_visible, is_withheld, is_latest_first, visible_events-keep}
use ameme.Store.Answering.{is_readable, visible_events-returns}
use ameme.Store.Permitted.{is_permitted, visible_events-is_permitted}

abbrev scope_of : String → Scope
scope_of owner = record {
  owner_id = owner;
  caller_id = "agent";
  grant_id = "grant_1";
  purpose = "recall";
  spaces = "home" ∷ [];
  memory_types = "event" ∷ "revision" ∷ [];
}

abbrev capture : Capture
capture = record {
  space = "home";
  content = "Lunch with Ann";
  event_time = none;
  event_type = "note";
  evidence_state = "observed";
  fact_status = "observed";
  sensitivity = "normal";
  data_class = "structured";
  now = "2026-01-01";
}

abbrev empty_store : Store
empty_store = record { events = []; revisions = []; queue = [] }

abbrev lunch : Event
unfolding new_event take_text
lunch = new_event "1" (scope_of "ann") capture

abbrev one_event : Store
unfolding insert
one_event = record empty_store { events = insert "evt_1" lunch empty_store.events }

abbrev addendum : Addendum
addendum = record {
  space = "home";
  event_id = "evt_1";
  content = "Dinner with Ann";
  evidence_state = "user_asserted";
  fact_status = "user_asserted";
  now = "2026-01-02";
}

abbrev texts : Texts
texts = record { casefold = λ s. s; instant = λ s. some 20 }

abbrev query : Query
query = record {
  spaces = "home" ∷ [];
  memory_types = "event" ∷ [];
  query = some "Lunch";
  allow_high_risk = false;
  start_at = some 10;
  end_at = none;
}

create_event_run : create_event "1" (scope_of "ann") capture empty_store ≡ ok (one_event, "evt_1")
unfolding create_event require contains new_event take_text insert one_event lunch
create_event_run = refl

visible_events_run : visible_events texts (scope_of "ann") query one_event ≡ ok (lunch ∷ [], false)
unfolding visible_events require_all require_types require scan judge sort_events contains has_part
    has_prefix one_event lunch
visible_events_run = refl

visible_events_foreign : visible_events texts (scope_of "bob") query one_event ≡ ok ([], false)
unfolding visible_events require_all require_types require scan judge sort_events contains one_event
    lunch
visible_events_foreign = refl

granted : (owner : String) → require (scope_of owner) "home" "revision" ≡ ok tt
unfolding require contains
granted owner = refl

found : lookup "evt_1" one_event.events ≡ some lunch
unfolding lookup one_event lunch
found = refl

create_event-get_event_example :
    (e : Event) × (get_event "evt_1" (scope_of "ann") "home" "event" one_event ≡ ok (some e))
    × ((e.description ≡ take_text 4000 "Lunch with Ann")
        × (e.title ≡ take_text 200 "Lunch with Ann")
        × (e.revision ≡ 1))
    × ((other : String)
        → "evt_1" ≢ other
        → lookup other one_event.events ≡ lookup {V = Event} other [])
unfolding one_event lunch
create_event-get_event_example =
    create_event-get_event "1" (scope_of "ann") capture empty_store one_event "evt_1"
      create_event_run

append-undo_example :
    (t u : Store) × (e' : Event) × (append_revision "2" (scope_of "ann") addendum one_event
      ≡ ok (t, ("evr_2", 2)))
    × (undo_capture "3"
          (undo_of "evr_2" addendum lunch)
          (scope_of "ann")
          "home"
          "revision"
          "2026-01-03"
          t
        ≡ ok (u, some "evr_3"))
    × (lookup "evt_1" u.events ≡ some e')
    × (e'
        ≡ record lunch { revision = 3; revision_head_id = some "evr_3"; updated_at = "2026-01-03" })
unfolding one_event lunch
append-undo_example =
    append-undo "2" "3" (scope_of "ann") addendum "2026-01-03" one_event lunch (granted "ann") found
      refl refl refl refl

append_ignores_owner_example :
    (t : Store) × (e' : Event) × (append_revision "2" (scope_of "bob") addendum one_event
      ≡ ok (t, ("evr_2", 2)))
    × (lookup "evt_1" t.events ≡ some e')
    × (e'.owner_id ≡ "ann")
    × (e'.description ≡ take_text 4000 "Dinner with Ann")
    × (e'.revision ≡ 2)
unfolding one_event lunch
append_ignores_owner_example =
    append_ignores_owner "2" (scope_of "bob") addendum one_event lunch (granted "bob") found refl
      refl (ground (arith, eq_iff "bob" "ann"))

undo_lifts_block_example :
    (t blocked u : Store) × (e' : Event) × (append_revision "2" (scope_of "ann") addendum one_event
      ≡ ok (t, ("evr_2", 2)))
    × (set_policy_blocked "evt_1" (scope_of "ann") "home" "revision" t ≡ ok (blocked, true))
    × (undo_capture "3"
          (undo_of "evr_2" addendum lunch)
          (scope_of "ann")
          "home"
          "revision"
          "2026-01-03"
          blocked
        ≡ ok (u, some "evr_3"))
    × (lookup "evt_1" u.events ≡ some e')
    × (e'.policy_blocked ≡ false)
unfolding one_event lunch
undo_lifts_block_example =
    undo_lifts_block "2" "3" (scope_of "ann") addendum "2026-01-03" one_event lunch (granted "ann")
      found refl refl refl refl refl

visible_events-keep_example :
    Perm (lunch ∷ []) (keep (is_visible texts (scope_of "ann") query) (values one_event.events))
    × (is_latest_first (lunch ∷ []) ≡ true)
    × (false ≡ any (is_withheld (scope_of "ann") query) (values one_event.events))
visible_events-keep_example =
    visible_events-keep texts (scope_of "ann") query one_event (lunch ∷ []) false visible_events_run

visible_events-is_permitted_example : all (is_permitted (scope_of "ann")) (lunch ∷ []) ≡ true
visible_events-is_permitted_example =
    visible_events-is_permitted texts (scope_of "ann") query one_event (lunch ∷ []) false
      visible_events_run

covers_spaces : is_subset query.spaces (scope_of "ann").spaces ≡ true
unfolding is_subset contains
covers_spaces = refl

covers_types : is_subset query.memory_types (scope_of "ann").memory_types ≡ true
unfolding is_subset contains
covers_types = refl

readable : all (is_readable texts) (values one_event.events) ≡ true
unfolding one_event lunch
readable = refl

visible_events-returns_example :
    (r : List Event × Bool) × (visible_events texts (scope_of "ann") query one_event ≡ ok r)
visible_events-returns_example =
    visible_events-returns texts (scope_of "ann") query one_event covers_spaces covers_types
      readable
