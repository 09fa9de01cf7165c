-- ===== src/Sync/Report.antt =====
-- What a peer reports of itself: `state_snapshot`, `partial_reasons` and `conflicts`
-- (packages/sync-protocol/src/ameme_sync_protocol/simulator.py).
pub mod Reasons
pub mod Documents
mod Tests
use ameme.Base.{
  string_eq, nat_eq, ℕ, ◌+◌, String, ◌+s◌, Bool, true, false, List, [], ◌∷◌, ◌++◌, is_empty,
  if◌then◌else◌,
}
use ameme.Base.Dict.{Dict, keys, lookup}
use ameme.Base.Sets.{add, add_all, contains}
use ameme.Base.Text.{decimal}
use ameme.Platform.{Platform}
use ameme.Sync.State.{Peer, Pending, Quarantined, cursor_of}
use ameme.Sync.Project.{Alternative, EventState, conflict, Projection, project_event}
use ameme.Base.Sorting.{sort_texts}

-- `sorted(set(self._revisions) | set(self._tombstones))`
unfoldable pub event_ids : Peer → List String
unfolding sort_texts add_all
event_ids s = sort_texts (add_all (keys s.tombstones) (add_all (keys s.revisions) []))

pub record Snapshot : Type 0 where
  pub space_id : String
  pub events : Dict String Projection
  pub revoked_devices : List String

unfoldable pub gap_reason : Peer → String → String
unfolding decimal
gap_reason s origin = "sequence_gap:" +s origin +s ":" +s decimal (cursor_of s origin + 1)

-- The loop over the pending envelopes.
unfoldable pub pending_reasons : Peer → Dict String (Dict ℕ Pending) → List String → List String
unfolding gap_reason
pending_reasons s [] reasons = reasons
pending_reasons s ((origin, waiting) ∷ rest) reasons =
    pending_reasons s rest (if is_empty waiting then reasons else add (gap_reason s origin) reasons)

unfoldable pub quarantine_reasons : List Quarantined → List String
unfolding decimal
quarantine_reasons [] = []
quarantine_reasons (q ∷ qs) =
    ("schema_unsupported:" +s q.origin_device_id +s ":" +s decimal q.device_sequence)
    ∷ quarantine_reasons qs

unfoldable pub revision_gaps : String → List ℕ → List String
unfolding decimal
revision_gaps event_id [] = []
revision_gaps event_id (gap ∷ gaps) =
    ("revision_gap:" +s event_id +s ":" +s decimal gap) ∷ revision_gaps event_id gaps

module _ (p : Platform) where
  project_all : List String → Peer → Dict String Projection
  project_all [] s = []
  project_all (id ∷ ids) s = (id, project_event p id s) ∷ project_all ids s

  -- `state_snapshot`
  unfoldable pub state_snapshot : Peer → Snapshot
  unfolding event_ids project_all sort_texts
  state_snapshot s = record {
    space_id = s.space_id;
    events = project_all (event_ids s) s;
    revoked_devices = sort_texts s.revoked_devices;
  }

  -- The reasons of the events that miss a revision.
  unfoldable pub event_reasons : List String → Peer → List String
  unfolding revision_gaps
  event_reasons [] s = []
  event_reasons (id ∷ ids) s =
      revision_gaps id (project_event p id s).ancestry_gaps ++ event_reasons ids s

  -- `partial_reasons`
  unfoldable pub partial_reasons : Peer → List String
  unfolding sort_texts add_all pending_reasons quarantine_reasons event_reasons event_ids
  partial_reasons s = sort_texts (
      add_all (event_reasons (event_ids s) s) (
        add_all (quarantine_reasons s.quarantine) (pending_reasons s s.pending s.security_reasons)))

  keep_conflicts : Dict String Projection → Dict String (Dict String (List Alternative))
  keep_conflicts [] = []
  keep_conflicts ((id, v) ∷ rest) =
      let others = keep_conflicts rest in
      elim v.state [ conflict ↦ (id, v.conflicts) ∷ others | _ ↦ others ]

  -- `conflicts`
  unfoldable pub conflicts : Peer → Dict String (Dict String (List Alternative))
  unfolding keep_conflicts project_all event_ids
  conflicts s = keep_conflicts (project_all (event_ids s) s)
