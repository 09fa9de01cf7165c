-- ===== src/Store/Revising.antt =====
-- A revision by `append_revision`
-- (services/ameme-mcp-mock/ameme_mcp_mock/store.py).

use ameme.Base.{string_eq, nat_eq, ◌+◌, ◌≡◌, ◌≢◌, refl, true, some, String, ◌+s◌, ok, ==-refl}
use ameme.Base.Dict.{lookup, lookup-insert}
use ameme.Base.Text.{take_text}
use ameme.Store.State.{Scope, Store, Event, require}
use ameme.Store.Capture.{Addendum, append_revision, appended, new_revision, revised, is_active_in}

pub append_revision-found :
    (hex : String) (scope : Scope) (a : Addendum) (s : Store) (e : Event)
    → require scope a.space "revision" ≡ ok tt
    → lookup a.event_id s.events ≡ some e
    → is_active_in a.space e ≡ true
    → append_revision hex scope a s
      ≡ ok (appended ("evr_" +s hex) a e s, ("evr_" +s hex, e.revision + 1))
unfolding append_revision
append_revision-found hex scope a s e granted found test = rw (granted, found, test) refl

pub appended-read :
    (id : String) (a : Addendum) (e : Event) (s : Store)
    → (lookup a.event_id (appended id a e s).events ≡ some (revised id a e))
      × (lookup id (appended id a e s).revisions ≡ some (new_revision id a e))
unfolding appended
appended-read id a e s = (
  rw (lookup-insert a.event_id a.event_id (revised id a e) s.events, ==-refl a.event_id) refl,
  rw (lookup-insert id id (new_revision id a e) s.revisions, ==-refl id) refl,
)

pub is_active_in-true :
    (space : String) (e : Event)
    → e.state ≡ "active"
    → e.space_id ≡ space
    → is_active_in space e ≡ true
is_active_in-true space e active here = rw (active, here, ==-refl space) refl

-- A revision of an active event raises its number by one and replaces its text, and it asks nothing of the owner
-- of the event: the scope of another owner that covers the space is enough.
pub append_ignores_owner :
    (hex : String) (scope : Scope) (a : Addendum) (s : Store) (e : Event)
    → require scope a.space "revision" ≡ ok tt
    → lookup a.event_id s.events ≡ some e
    → e.state ≡ "active"
    → e.space_id ≡ a.space
    → scope.owner_id ≢ e.owner_id
    → (t : Store) × (e' : Event) × (append_revision hex scope a s
        ≡ ok (t, ("evr_" +s hex, e.revision + 1)))
      × (lookup a.event_id t.events ≡ some e')
      × (e'.owner_id ≡ e.owner_id)
      × (e'.description ≡ take_text 4000 a.content)
      × (e'.revision ≡ e.revision + 1)
unfolding revised
append_ignores_owner hex scope a s e granted found active here foreign =
    let id = "evr_" +s hex in
    (
      appended id a e s,
      revised id a e,
      append_revision-found hex scope a s e granted found (is_active_in-true a.space e active here),
      (appended-read id a e s).0,
      refl,
      refl,
      refl,
    )
