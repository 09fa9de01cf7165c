-- ===== src/Store/Visible.antt =====
-- `visible_events` of services/ameme-mcp-mock/ameme_mcp_mock/store.py. `casefold` and the reading of a time
-- (`_parse`, as a number that grows with the instant) are parameters; a time that has no reading raises.
use ameme.Base.{
  string_eq, nat_eq, ltb, ℕ, String, ◌+s◌, Bool, true, false, not, ◌&&◌, ◌||◌, Option, none, some,
  List, [], ◌∷◌, ◌==◌, if◌then◌else◌, Outcome, ok, err, ◌>>=◌, ◌>>◌,
}
use ameme.Base.Dict.{values}
use ameme.Base.Sets.{contains}
use ameme.Base.Text.{str_leb, has_part}
use ameme.Store.State.{StoreError, value_error, Scope, require, Event, Store}

pub record Texts : Type 0 where
  pub casefold : String → String
  pub instant : String → Option ℕ

-- The arguments of `visible_events` beside the scope.
pub record Query : Type 0 where
  pub spaces : List String
  pub memory_types : List String
  pub query : Option String
  pub allow_high_risk : Bool
  pub start_at : Option ℕ
  pub end_at : Option ℕ

-- `x or y` on texts
abbrev pub or_else : String → String → String
or_else x y = if x == "" then y else x

abbrev pub text_or_empty : Option String → String
text_or_empty none = ""
text_or_empty (some s) = s

-- `start_at and event_time < start_at`, `end_at and event_time > end_at`
abbrev pub is_before : ℕ → Option ℕ → Bool
is_before t none = false
is_before t (some start) = ltb t start

abbrev pub is_after : ℕ → Option ℕ → Bool
is_after t none = false
is_after t (some stop) = ltb stop t

-- What the loop does with one event.
pub data Verdict : Type 0 where
  skipped risky taken : Verdict

-- The guards before the one on risk.
abbrev pub is_in_reach : Scope → Query → Event → Bool
is_in_reach scope q event =
    event.state == "active"
    && not event.policy_blocked
    && event.owner_id == scope.owner_id
    && contains event.space_id q.spaces
    && contains event.memory_type q.memory_types

abbrev pub is_high_risk : Event → Bool
is_high_risk event = event.sensitivity == "restricted" || event.data_class == "raw"

-- `query_folded and query_folded not in body`, negated
abbrev pub is_asked_for : Texts → Query → Event → Bool
is_asked_for x q event =
    has_part (x.casefold (text_or_empty q.query))
      (x.casefold (event.title +s "\n" +s event.description))

-- `event_time_value`
abbrev pub time_of : Event → String
time_of event = or_else event.start event.created_at

abbrev pub judge_at : Texts → Query → Event → Option ℕ → Outcome StoreError Verdict
judge_at x q event none = err value_error
judge_at x q event (some t) = ok (
    if is_before t q.start_at || is_after t q.end_at
    then skipped
    else if is_asked_for x q event
    then taken
    else skipped)

abbrev pub judge_time : Texts → Query → Event → Outcome StoreError Verdict
judge_time x q event =
    if time_of event == ""
    then ok (if is_asked_for x q event then taken else skipped)
    else judge_at x q event (x.instant (time_of event))

-- The body of the loop.
unfoldable pub judge : Texts → Scope → Query → Event → Outcome StoreError Verdict
judge x scope q event =
    if not (is_in_reach scope q event)
    then ok skipped
    else if not q.allow_high_risk && is_high_risk event
    then ok risky
    else judge_time x q event

abbrev pub collect : Event → Verdict → List Event × Bool → List Event × Bool
collect event skipped (found, risk) = (found, risk)
collect event risky (found, risk) = (found, true)
collect event taken (found, risk) = (event ∷ found, risk)

-- The loop over the events: those it takes, and whether it met one that it left out for its risk.
unfoldable pub scan : Texts → Scope → Query → List Event → Outcome StoreError (List Event × Bool)
unfolding judge
scan x scope q [] = ok ([], false)
scan x scope q (event ∷ rest) = do
  verdict ← judge x scope q event
  found ← scan x scope q rest
  ok (collect event verdict found)

-- The key of the sort.
abbrev pub age : Event → String
age event = or_else event.updated_at event.created_at

-- `result.sort(key=..., reverse=True)`: descending, and equal keys keep their order.
abbrev pub place : Event → List Event → List Event
place event [] = event ∷ []
place event (e ∷ es) =
    let rest = place event es in if str_leb (age e) (age event) then event ∷ e ∷ es else e ∷ rest

unfoldable pub sort_events : List Event → List Event
sort_events [] = []
sort_events (event ∷ rest) = place event (sort_events rest)

-- `scope.require` of every space with every type
unfoldable pub require_types : Scope → String → List String → Outcome StoreError (Unit {0})
unfolding require
require_types scope space [] = ok tt
require_types scope space (t ∷ ts) = require scope space t >> require_types scope space ts

unfoldable pub require_all : Scope → List String → List String → Outcome StoreError (Unit {0})
unfolding require_types
require_all scope [] memory_types = ok tt
require_all scope (space ∷ spaces) memory_types =
    require_types scope space memory_types >> require_all scope spaces memory_types

-- `visible_events`
unfoldable pub visible_events :
    Texts → Scope → Query → Store → Outcome StoreError (List Event × Bool)
unfolding require_all scan sort_events
visible_events x scope q s = do
  require_all scope q.spaces q.memory_types
  found ← scan x scope q (values s.events)
  ok (sort_events found.0, found.1)
