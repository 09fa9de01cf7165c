-- ===== src/Policy/Recall.antt =====
-- `recall`: the events of the store that a grant lets a caller see
-- (services/ameme-mcp-mock/ameme_mcp_mock/core.py). The store is read only, and is an argument.
pub mod Bounded
pub mod Kept
pub mod Unchanged
use ameme.Base.{
  string_eq, nat_eq, ℕ, zero, suc, String, Bool, true, false, Option, none, some, List, [], ◌∷◌,
  ◌++◌, ◌==◌, ◌||◌, ltb, length, is_empty, if◌then◌else◌, Outcome, ok, err,
}
use ameme.Base.Int.{ℤ, pos, negsuc}
use ameme.Base.Dict.{default}
use ameme.Store.State.{StoreError, Scope, Event, Store}
use ameme.Store.Visible.{Texts, Query, visible_events}
use ameme.Policy.State.{Refusal, store_error, Times, Terms, Grant, Memory, World}
use ameme.Policy.Calls.{Act, ◌>>=◌, ◌>>◌, give, refuse_if, save}
use ameme.Policy.Grants.{
  Ask, is_missing, bounded_values, authorize, event_scope, high_risk_gate, requested_time_range,
  record_activity,
}

-- The arguments; `sensitivity` and `data_class` are in lower case, and `confirmed` is what the confirmation says.
pub record Search : Type 0 where
  pub ask : Ask
  pub spaces : List String
  pub memory_types : List String
  pub is_autonomous : Bool
  pub sensitivity : String
  pub data_class : String
  pub confirmed : Bool
  pub time_range : Option (Option String × Option String)
  pub query : Option String
  pub limit : ℤ

pub record Hit : Type 0 where
  pub object_type : String
  pub object_id : String
  pub revision : ℕ
  pub space_id : String
  pub fact_status : String
  pub lineage_refs : List String

pub record Recalled : Type 0 where
  pub range_state : String
  pub partial_reasons : List String
  pub results : List Hit
  pub spaces : List String
  pub memory_types : List String

-- `min(max(limit, 1), 100)`
unfoldable pub limit_of : ℤ → ℕ
limit_of (pos n) = if ltb n 1 then 1 else if ltb 100 n then 100 else n
limit_of (negsuc n) = 1

-- `results`, of `events[:limit]`; an event has the one source that `create_event` writes.
unfoldable pub hits : ℕ → List Event → List Hit
hits zero es = []
hits (suc n) [] = []
hits (suc n) (e ∷ es) =
    record {
      object_type = e.memory_type;
      object_id = e.event_id;
      revision = e.revision;
      space_id = e.space_id;
      fact_status = e.fact_status;
      lineage_refs = e.source_object_id ∷ [];
    }
    ∷ hits n es

-- A call of the store
abbrev pub of_store : {A : Type 0} → Outcome StoreError A → Act A
of_store (ok a) = give a
of_store (err e) = λ w. (w, err (store_error e))

abbrev pub reasons_for : Bool → Bool → List String
reasons_for offline filtered =
    (if offline then "device_not_synced" ∷ [] else [])
    ++ (if filtered then "policy_filtered" ∷ [] else [])

abbrev pub range_of : List String → List Hit → String
range_of reasons results =
    if is_empty reasons
    then if is_empty results then "empty" else "complete_for_requested_scope"
    else "partial"

-- `_visible_events` for a search under a grant
unfoldable pub search_store :
    Texts
    → Search
    → Grant
    → List String
    → List String
    → Bool
    → Option ℕ × Option ℕ
    → Store
    → Outcome StoreError (List Event × Bool)
unfolding visible_events event_scope
search_store x r g spaces types allow range s =
    visible_events x
      (event_scope g (default "" r.ask.caller_id) (default "" r.ask.purpose) spaces types)
      (record {
        spaces = spaces;
        memory_types = types;
        query = r.query;
        allow_high_risk = allow;
        start_at = range.0;
        end_at = range.1;
      })
      s

-- `recall`
unfoldable pub recall : Times → Texts → ℕ → Bool → Store → Search → Act Recalled
unfolding bounded_values authorize high_risk_gate requested_time_range search_store hits limit_of
    record_activity
recall t x now offline s r = do
  refuse_if
      (is_missing r.ask.caller_id
        || is_missing r.ask.grant_id
        || is_missing r.ask.purpose
        || is_empty r.spaces
        || is_empty r.memory_types)
      "INVALID_ARGUMENT" "missing_required_fields"
  spaces ← bounded_values r.spaces
  types ← bounded_values r.memory_types
  g ← authorize t now r.ask spaces types r.is_autonomous
  allow ← high_risk_gate r.sensitivity r.data_class r.confirmed r.is_autonomous
  range ← requested_time_range t r.time_range
  found ← of_store (search_store x r g spaces types allow range s)
  let results = hits (limit_of r.limit) found.0
  let reasons = reasons_for offline found.1
  record_activity t now (default "" r.ask.caller_id) (default "" r.ask.purpose) spaces types "OK"
      (length results)
  save
  give (record {
    range_state = range_of reasons results;
    partial_reasons = reasons;
    results = results;
    spaces = spaces;
    memory_types = types;
  })
