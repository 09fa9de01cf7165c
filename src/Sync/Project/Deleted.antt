-- ===== src/Sync/Project/Deleted.antt =====
-- A deleted event stays deleted (`_project_event` of
-- packages/sync-protocol/src/ameme_sync_protocol/simulator.py, under `receive`).
use ameme.Base.Dict.{is_some}
use ameme.Base.{Option}
use ameme.Base.{string_eq, ℕ, ◌≡◌, refl, true, none, some, String, List, [], ◌∷◌}
use ameme.Base.Dict.{has_key, lookup}
use ameme.Platform.{Platform}
use ameme.Sync.Envelope.{Envelope}
use ameme.Sync.State.{Peer}
use ameme.Sync.Receive.{receive}
use ameme.Sync.Receive.Deliveries.{receive_all}
use ameme.Sync.Receive.Authority.{receive-Grows}
use ameme.Sync.Project.{deleted, project_by, project_event}

keeps_tombstone :
    (p : Platform) (id : String) (deliveries : List (Envelope × ℕ)) (s : Peer)
    → has_key id s.tombstones ≡ true
    → has_key id (receive_all p deliveries s).tombstones ≡ true
unfolding receive_all
keeps_tombstone p id [] s h = h
keeps_tombstone p id ((e, now) ∷ rest) s h =
    keeps_tombstone p id rest (receive p e now s).0 ((receive-Grows p e now s).tombstone id h)

project_by-deleted :
    (p : Platform) (seen : Option (List String)) (id : String) (s : Peer)
    → is_some seen ≡ true
    → let v = project_by p seen id s in
      (v.state ≡ deleted) × (v.revision ≡ 0) × (v.fields ≡ []) × (v.conflicts ≡ [])
unfolding project_by
project_by-deleted p none id s h = cc h
project_by-deleted p (some seen) id s h = (refl, refl, refl, refl)

-- Where a peer holds a tombstone of an event, the event is projected as deleted, without fields and conflicts and
-- with revision 0, after any deliveries whatever: no revision that comes later brings it back.
pub deleted_for_good :
    (p : Platform) (id : String) (deliveries : List (Envelope × ℕ)) (s : Peer)
    → has_key id s.tombstones ≡ true
    → let v = project_event p id (receive_all p deliveries s) in
      (v.state ≡ deleted) × (v.revision ≡ 0) × (v.fields ≡ []) × (v.conflicts ≡ [])
unfolding project_event
deleted_for_good p id deliveries s h =
    let t = receive_all p deliveries s in
    project_by-deleted p (lookup id t.tombstones) id t (keeps_tombstone p id deliveries s h)
