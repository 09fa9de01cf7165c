-- ===== src/Sync/Report/Documents.antt =====
-- The documents that the digests of snapshots are taken of: what `_project_event` and `state_snapshot` return
-- (packages/sync-protocol/src/ameme_sync_protocol/simulator.py).
use ameme.Base.{string_eq, nat_eq, ℕ, String, List, [], ◌∷◌}
use ameme.Base.Int.{pos}
use ameme.Base.Dict.{Dict}
use ameme.Json.{Json, Items, Fields, int, str, arr, obj, nil, cons, end, field}
use ameme.Sync.Project.{Alternative, EventState, deleted, conflict, active, Projection}
use ameme.Sync.Report.{Snapshot}

unfoldable pub texts_json : List String → Items
texts_json [] = nil
texts_json (s ∷ ss) = cons (str s) (texts_json ss)

unfoldable pub numbers_json : List ℕ → Items
numbers_json [] = nil
numbers_json (n ∷ ns) = cons (int (pos n)) (numbers_json ns)

unfoldable pub alternatives_json : List Alternative → Items
unfolding texts_json
alternatives_json [] = nil
alternatives_json (a ∷ rest) =
    cons (obj (field "value" a.value (field "revision_ids" (arr (texts_json a.revision_ids)) end)))
      (alternatives_json rest)

unfoldable pub fields_json : Dict String Json → Fields
fields_json [] = end
fields_json ((k, v) ∷ rest) = field k v (fields_json rest)

unfoldable pub conflicts_json : Dict String (List Alternative) → Fields
unfolding alternatives_json
conflicts_json [] = end
conflicts_json ((k, xs) ∷ rest) = field k (arr (alternatives_json xs)) (conflicts_json rest)

abbrev pub state_name : EventState → String
state_name deleted = "deleted"
state_name conflict = "conflict"
state_name active = "active"

-- A deleted event has no list of gaps.
abbrev pub with_gaps : EventState → List ℕ → Fields → Fields
unfolding numbers_json
with_gaps deleted gaps fs = fs
with_gaps _ gaps fs = field "ancestry_gaps" (arr (numbers_json gaps)) fs

-- The dict that `_project_event` returns
unfoldable pub projection_json : Projection → Json
unfolding fields_json conflicts_json texts_json numbers_json
projection_json v = obj (
    field "event_id" (str v.event_id) (
      field "state" (str (state_name v.state)) (
        field "revision" (int (pos v.revision)) (
          field "fields" (obj (fields_json v.fields)) (
            field "conflicts" (obj (conflicts_json v.conflicts)) (
              field "revision_ids" (arr (texts_json v.revision_ids)) (
                with_gaps v.state v.ancestry_gaps
                  (field "tombstone_count" (int (pos v.tombstone_count)) end))))))))

unfoldable pub projections_json : Dict String Projection → Fields
unfolding projection_json
projections_json [] = end
projections_json ((k, v) ∷ rest) = field k (projection_json v) (projections_json rest)

-- The dict that `state_snapshot` returns
unfoldable pub snapshot_json : Snapshot → Json
unfolding projections_json texts_json
snapshot_json v = obj (
    field "space_id" (str v.space_id) (
      field "events" (obj (projections_json v.events))
        (field "revoked_devices" (arr (texts_json v.revoked_devices)) end)))
