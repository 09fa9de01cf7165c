-- ===== src/Store/State.antt =====
-- The state of `JsonStore` that its methods read and write, and the scope of a request
-- (services/ameme-mcp-mock/ameme_mcp_mock/{event_store,store}.py). An event is a record with the keys that
-- `create_event` writes and the two that later calls add. The other keys of the state belong to the policy
-- layer, and files are not modelled.
use ameme.Base.{
  string_eq, ℕ, String, Bool, ◌||◌, not, Option, List, Outcome, ok, err, if◌then◌else◌,
}
use ameme.Base.Dict.{Dict}
use ameme.Base.Sets.{contains}

pub data StoreError : Type 0 where
  not_visible conflict value_error : StoreError

-- `EventNodeScope`
pub record Scope : Type 0 where
  pub owner_id : String
  pub caller_id : String
  pub grant_id : String
  pub purpose : String
  pub spaces : List String
  pub memory_types : List String

-- `EventNodeScope.require`
unfoldable pub require : Scope → String → String → Outcome StoreError (Unit {0})
require scope space memory_type =
    if not (contains space scope.spaces) || not (contains memory_type scope.memory_types)
    then err not_visible
    else ok tt

-- The one entry of `field_evidence`; its confidence is 1.0 or 0.5.
pub record Evidence : Type 0 where
  pub observation_id : String
  pub is_certain : Bool
  pub status : String

pub record Event : Type 0 where
  pub event_id : String
  pub owner_id : String
  pub space_id : String
  pub event_type : String
  pub start : String
  pub title : String
  pub description : String
  pub fact_status : String
  pub field_evidence : Evidence
  pub evidence_state : String
  pub source_object_id : String
  pub revision : ℕ
  pub sensitivity : String
  pub data_class : String
  pub memory_type : String
  pub state : String
  pub created_at : String
  pub updated_at : String
  pub revision_head_id : Option String
  pub policy_blocked : Bool

-- `base_revision_id` and the compensated revision stand only in the record of an undo.
pub record Revision : Type 0 where
  pub event_revision_id : String
  pub event_id : String
  pub base_revision_id : Option String
  pub revision : ℕ
  pub actor : String
  pub reason : String
  pub description : String
  pub evidence_state : String
  pub compensates : Option String
  pub created_at : String

pub record Queued : Type 0 where
  pub queue_id : String
  pub object_type : String
  pub object_id : String
  pub state : String
  pub created_at : String

pub record Store : Type 0 where
  pub events : Dict String Event
  pub revisions : Dict String Revision
  pub queue : List Queued

-- What the policy layer kept of a capture, in order to take it back.
pub record Undo : Type 0 where
  pub space_id : String
  pub created_object_type : String
  pub created_object_id : String
  pub created_revision : ℕ
  pub target_event_id : String
  pub previous_event_snapshot : Option Event
