-- ===== src/Store/Undoing.antt =====
-- A revision and its undo by `undo_capture`
-- (services/ameme-mcp-mock/ameme_mcp_mock/store.py).
use ameme.Base.{ap}
use ameme.Base.{◌∙◌}
use ameme.Base.{string_eq, nat_eq, ◌+◌, ◌≡◌, refl, true, false, some, String, ◌+s◌, ok, ==-refl}
use ameme.Base.Dict.{lookup, insert, lookup-insert}
use ameme.Store.State.{Scope, Store, Event, Undo, Revision, require}
use ameme.Store.Capture.{Addendum, append_revision, appended, new_revision, revised, is_own}
use ameme.Store.Retract.{
  undo_capture, undo_object, undo_target, undo_revision, compensated, restored, set_policy_blocked,
  block,
}
use ameme.Store.Revising.{append_revision-found, appended-read, is_active_in-true}

undo_target-found :
    (undo : Undo) (scope : Scope) (space memory_type : String) (s : Store) (e : Event)
    → undo.space_id ≡ space
    → undo.created_object_type ≡ memory_type
    → lookup undo.target_event_id s.events ≡ some e
    → is_own scope space e ≡ true
    → undo_target undo scope space memory_type s ≡ ok e
unfolding undo_target
undo_target-found undo scope space memory_type s e h1 h2 h3 h4 =
    rw (h1, h2, ==-refl space, ==-refl memory_type, h3, h4) refl

undo_revision-found :
    (hex : String) (undo : Undo) (e : Event) (space now : String) (r : Revision) (snapshot : Event)
    (s : Store)
    → r.event_id ≡ e.event_id
    → snapshot.space_id ≡ space
    → e.revision ≡ undo.created_revision
    → e.revision_head_id ≡ some undo.created_object_id
    → undo_revision hex undo e space now (some r) (some snapshot) s
      ≡ ok (compensated ("evr_" +s hex) undo e snapshot now s, some ("evr_" +s hex))
unfolding undo_revision
undo_revision-found hex undo e space now r snapshot s h1 h2 h3 h4 =
    rw
      (
        h1,
        h2,
        h3,
        h4,
        ==-refl e.event_id,
        ==-refl space,
        ==-refl undo.created_revision,
        ==-refl undo.created_object_id,
      )
      refl

undo_object-revision :
    (hex : String) (undo : Undo) (e : Event) (space now : String) (s : Store)
    → undo.created_object_type ≡ "revision"
    → undo_object hex undo e space now s
      ≡ undo_revision hex undo e space now
          (lookup undo.created_object_id s.revisions)
          undo.previous_event_snapshot
          s
unfolding undo_object
undo_object-revision hex undo e space now s h = rw h refl

-- The undo of a revision that is still the head of its event.
undo_capture-found :
    (hex : String) (undo : Undo) (scope : Scope) (space now : String) (s : Store) (e : Event)
    → require scope space "revision" ≡ ok tt
    → undo.created_object_type ≡ "revision"
    → undo_target undo scope space "revision" s ≡ ok e
    → undo_capture hex undo scope space "revision" now s
      ≡ undo_revision hex undo e space now
          (lookup undo.created_object_id s.revisions)
          undo.previous_event_snapshot
          s
unfolding undo_capture
undo_capture-found hex undo scope space now s e granted kind target =
    rw (granted, target) (undo_object-revision hex undo e space now s kind)

-- What the policy layer keeps of a revision, in order to take it back.
abbrev pub undo_of : String → Addendum → Event → Undo
undo_of id a e = record {
  space_id = a.space;
  created_object_type = "revision";
  created_object_id = id;
  created_revision = e.revision + 1;
  target_event_id = a.event_id;
  previous_event_snapshot = some e;
}

lookup-insert_same :
    (id key : String) (e : Event) (s : Store)
    → id ≡ key
    → lookup key (insert id e s.events) ≡ some e
lookup-insert_same id key e s h = rw (h, lookup-insert key key e s.events, ==-refl key) refl

is_own-true :
    (scope : Scope) (space : String) (e : Event)
    → e.owner_id ≡ scope.owner_id
    → e.space_id ≡ space
    → is_own scope space e ≡ true
is_own-true scope space e own here = rw (own, here, ==-refl scope.owner_id, ==-refl space) refl

-- The undo of a revision, of an event that is still as the revision left it but for its policy block.
undo_restores :
    (hex id : String) (scope : Scope) (a : Addendum) (now : String) (s : Store) (e head : Event)
    (r : Revision)
    → require scope a.space "revision" ≡ ok tt
    → e.event_id ≡ a.event_id
    → e.space_id ≡ a.space
    → lookup a.event_id s.events ≡ some head
    → is_own scope a.space head ≡ true
    → head.event_id ≡ a.event_id
    → head.revision ≡ e.revision + 1
    → head.revision_head_id ≡ some id
    → lookup id s.revisions ≡ some r
    → r.event_id ≡ a.event_id
    → (u : Store) × (undo_capture hex (undo_of id a e) scope a.space "revision" now s
        ≡ ok (u, some ("evr_" +s hex)))
      × (lookup a.event_id u.events ≡ some (restored ("evr_" +s hex) head e now))
unfolding compensated
undo_restores hex id scope a now s e head r granted keyed here found own named number headed kept
      about =
    let undo = undo_of id a e in
    let target = undo_target-found undo scope a.space "revision" s head refl refl found own in
    (
      compensated ("evr_" +s hex) undo head e now s,
      undo_capture-found hex undo scope a.space now s head granted refl target
          ∙ (ap (λ o. undo_revision hex undo head a.space now o (some e) s) kept
              ∙ undo_revision-found hex undo head a.space now r e s (cc (about, named)) here number
                  headed),
      lookup-insert_same head.event_id a.event_id (restored ("evr_" +s hex) head e now) s named,
    )

-- A revision of an active event that the scope owns, and its undo under the record that was kept of it and the same
-- scope, both go through where the scope covers the space and the type; the event has its former text, facts and
-- state again, two revisions on, with the undo as its head.
pub append-undo :
    (hex hex' : String) (scope : Scope) (a : Addendum) (now : String) (s : Store) (e : Event)
    → require scope a.space "revision" ≡ ok tt
    → lookup a.event_id s.events ≡ some e
    → e.event_id ≡ a.event_id
    → e.owner_id ≡ scope.owner_id
    → e.space_id ≡ a.space
    → e.state ≡ "active"
    → (t u : Store) × (e' : Event) × (append_revision hex scope a s
        ≡ ok (t, ("evr_" +s hex, e.revision + 1)))
      × (undo_capture hex' (undo_of ("evr_" +s hex) a e) scope a.space "revision" now t
          ≡ ok (u, some ("evr_" +s hex')))
      × (lookup a.event_id u.events ≡ some e')
      × (e' ≡ record e {
        revision = e.revision + 1 + 1;
        revision_head_id = some ("evr_" +s hex');
        updated_at = now;
      })
unfolding revised new_revision restored
append-undo hex hex' scope a now s e granted found keyed own here active =
    let id = "evr_" +s hex in
    let t = appended id a e s in
    let (read, noted) = appended-read id a e s in
    let (u, undone, after) =
      undo_restores hex' id scope a now t e (revised id a e) (new_revision id a e) granted keyed
        here read (is_own-true scope a.space (revised id a e) own here) keyed refl refl noted
        refl in
    (
      t,
      u,
      restored ("evr_" +s hex') (revised id a e) e now,
      append_revision-found hex scope a s e granted found (is_active_in-true a.space e active here),
      undone,
      after,
      refl,
    )

set_policy_blocked-found :
    (id : String) (scope : Scope) (space memory_type : String) (s : Store) (e : Event)
    → require scope space memory_type ≡ ok tt
    → lookup id s.events ≡ some e
    → is_own scope space e ≡ true
    → (t : Store) × (set_policy_blocked id scope space memory_type s ≡ ok (t, true))
      × (lookup id t.events ≡ some (record e { policy_blocked = true }))
      × (t.revisions ≡ s.revisions)
unfolding set_policy_blocked block
set_policy_blocked-found id scope space memory_type s e granted found own = (
  record s { events = insert id (record e { policy_blocked = true }) s.events },
  rw (granted, found, own) refl,
  lookup-insert_same id id (record e { policy_blocked = true }) s refl,
  refl,
)

-- A policy block that is set on an active event that the scope owns, between a revision and its undo, is gone after
-- the undo, which goes through: the snapshot that comes back is from before the block.
pub undo_lifts_block :
    (hex hex' : String) (scope : Scope) (a : Addendum) (now : String) (s : Store) (e : Event)
    → require scope a.space "revision" ≡ ok tt
    → lookup a.event_id s.events ≡ some e
    → e.event_id ≡ a.event_id
    → e.owner_id ≡ scope.owner_id
    → e.space_id ≡ a.space
    → e.state ≡ "active"
    → e.policy_blocked ≡ false
    → (t blocked u : Store) × (e' : Event) × (append_revision hex scope a s
        ≡ ok (t, ("evr_" +s hex, e.revision + 1)))
      × (set_policy_blocked a.event_id scope a.space "revision" t ≡ ok (blocked, true))
      × (undo_capture hex' (undo_of ("evr_" +s hex) a e) scope a.space "revision" now blocked
          ≡ ok (u, some ("evr_" +s hex')))
      × (lookup a.event_id u.events ≡ some e')
      × (e'.policy_blocked ≡ false)
unfolding revised new_revision restored
undo_lifts_block hex hex' scope a now s e granted found keyed own here active open_ =
    let id = "evr_" +s hex in
    let t = appended id a e s in
    let head = record (revised id a e) { policy_blocked = true } in
    let owned = is_own-true scope a.space (revised id a e) own here in
    let (read, noted) = appended-read id a e s in
    let (blocked, done, marked, kept) =
      set_policy_blocked-found a.event_id scope a.space "revision" t (revised id a e) granted read
        owned in
    let (u, undone, after) =
      undo_restores hex' id scope a now blocked e head (new_revision id a e) granted keyed here
        marked (is_own-true scope a.space head own here) keyed refl refl
        (ap (lookup id) kept ∙ noted) refl in
    (
      t,
      blocked,
      u,
      restored ("evr_" +s hex') head e now,
      append_revision-found hex scope a s e granted found (is_active_in-true a.space e active here),
      done,
      undone,
      after,
      open_,
    )
