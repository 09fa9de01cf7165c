-- ===== src/Store/Roundtrip.antt =====
-- What the methods of `JsonStore` that write an event do to the event and to the others
-- (services/ameme-mcp-mock/ameme_mcp_mock/store.py).
use ameme.Base.{==-false}
use ameme.Base.{==-refl}
use ameme.Base.{
  string_eq, nat_eq, ◌≡◌, ◌≢◌, refl, true, some, String, ◌+s◌, ok, ◌==◌, if◌then◌else◌, >>=-returns,
}
use ameme.Base.Dict.{lookup, insert, lookup-insert}
use ameme.Base.Text.{take_text}
use ameme.Store.State.{Scope, Store, Event, require}
use ameme.Store.Capture.{Capture, create_event, get_event, new_event, is_own_active}

-- What a call of `create_event` that returns has done.
create_event-eq-ok :
    (hex : String) (scope : Scope) (c : Capture) (s t : Store) (id : String)
    → create_event hex scope c s ≡ ok (t, id)
    → (require scope c.space "event" ≡ ok tt)
      × (id ≡ "evt_" +s hex)
      × (t.events ≡ insert ("evt_" +s hex) (new_event hex scope c) s.events)
unfolding create_event
create_event-eq-ok hex scope c s t id h =
    let (u, granted, h) = >>=-returns (require scope c.space "event") _ h in (granted, cc h, cc h)

-- `get_event` where the scope covers the request and the id has an event.
get_event-found :
    (id : String) (scope : Scope) (space memory_type : String) (t : Store) (e : Event)
    → require scope space memory_type ≡ ok tt
    → lookup id t.events ≡ some e
    → is_own_active scope space e ≡ true
    → get_event id scope space memory_type t ≡ ok (some e)
unfolding get_event
get_event-found id scope space memory_type t e granted found test = rw (granted, found, test) refl

new_event-active :
    (hex : String) (scope : Scope) (c : Capture)
    → is_own_active scope c.space (new_event hex scope c) ≡ true
unfolding new_event
new_event-active hex scope c = rw (==-refl scope.owner_id, ==-refl c.space) refl

new_event-fields :
    (hex : String) (scope : Scope) (c : Capture)
    → let e = new_event hex scope c in
      (e.description ≡ take_text 4000 c.content)
      × (e.title ≡ take_text 200 c.content)
      × (e.revision ≡ 1)
unfolding new_event
new_event-fields hex scope c = (refl, refl, refl)

-- An event that `create_event` stores under a scope is read back under the same scope, with the content cut to
-- 4000 characters as its description, the first 200 as its title, and revision 1; every other id reads as before.
pub create_event-get_event :
    (hex : String) (scope : Scope) (c : Capture) (s t : Store) (id : String)
    → create_event hex scope c s ≡ ok (t, id)
    → (e : Event) × (get_event id scope c.space "event" t ≡ ok (some e))
      × ((e.description ≡ take_text 4000 c.content)
          × (e.title ≡ take_text 200 c.content)
          × (e.revision ≡ 1))
      × ((other : String) → id ≢ other → lookup other t.events ≡ lookup other s.events)
create_event-get_event hex scope c s t id h =
    let (granted, named, written) = create_event-eq-ok hex scope c s t id h in
    let e = new_event hex scope c in
    let read : (j : String) → lookup j t.events ≡ (if id == j then some e else lookup j s.events) =
      λ j. rw (written, named) (lookup-insert ("evt_" +s hex) j e s.events) in
    let found : lookup id t.events ≡ some e = cc (read id, ==-refl id) in
    (
      e,
      get_event-found id scope c.space "event" t e granted found (new_event-active hex scope c),
      new_event-fields hex scope c,
      λ other distinct. cc (read other, ==-false id other distinct),
    )
