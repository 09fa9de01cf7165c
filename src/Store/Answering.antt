-- ===== src/Store/Answering.antt =====
-- When `visible_events` answers (services/ameme-mcp-mock/ameme_mcp_mock/store.py).
use ameme.Base.{String}
use ameme.Store.State.{require}
use ameme.Store.Visible.{require_types}
use ameme.Base.{ℕ}
use ameme.Base.{
  string_eq, ◌≡◌, refl, Bool, true, false, Option, none, some, List, [], ◌∷◌, ◌==◌, ◌||◌, not, ◌&&◌,
  all, ok, &&-eq-true, if◌then◌else◌, Outcome,
}
use ameme.Base.Dict.{values, is_some}
use ameme.Base.Sets.{contains, is_subset}
use ameme.Store.State.{StoreError, require, Scope, Event, Store}
use ameme.Store.Visible.{
  Texts, Query, Verdict, skipped, risky, taken, is_in_reach, is_high_risk, is_asked_for, time_of,
  judge, judge_at, judge_time, collect, scan, sort_events, require_types, require_all,
  visible_events,
}

-- An event without a time, or with one that can be read.
abbrev pub is_readable : Texts → Event → Bool
is_readable x event = time_of event == "" || is_some (x.instant (time_of event))

judge_time-returns :
    (x : Texts) (q : Query) (event : Event) (untimed : Bool) (t : Option ℕ)
    → (untimed || is_some t) ≡ true
    → (v : Verdict) × ((if untimed
          then ok (if is_asked_for x q event then taken else skipped)
          else judge_at x q event t)
        ≡ ok v)
judge_time-returns x q event true t h = (_, refl)
judge_time-returns x q event false none h = absurd (cc h)
judge_time-returns x q event false (some t) h = (_, refl)

guards-returns :
    (near allow high : Bool) (rest : Outcome StoreError Verdict)
    → ((v : Verdict) × (rest ≡ ok v))
    → (v : Verdict) × ((if not near
          then ok skipped
          else if not allow && high
          then ok risky
          else rest)
        ≡ ok v)
guards-returns false allow high rest h = (skipped, refl)
guards-returns true false true rest h = (risky, refl)
guards-returns true false false rest h = h
guards-returns true true high rest h = h

judge-returns :
    (x : Texts) (scope : Scope) (q : Query) (event : Event)
    → is_readable x event ≡ true
    → (v : Verdict) × (judge x scope q event ≡ ok v)
unfolding judge
judge-returns x scope q event h =
    guards-returns (is_in_reach scope q event) q.allow_high_risk (is_high_risk event)
      (judge_time x q event)
      (judge_time-returns x q event (time_of event == "") (x.instant (time_of event)) h)

scan-returns :
    (x : Texts) (scope : Scope) (q : Query) (es : List Event)
    → all (is_readable x) es ≡ true
    → (r : List Event × Bool) × (scan x scope q es ≡ ok r)
unfolding scan
scan-returns x scope q [] h = (([], false), refl)
scan-returns x scope q (event ∷ es) h =
    let (now, later) = &&-eq-true (is_readable x event) (all (is_readable x) es) h in
    let (v, judged) = judge-returns x scope q event now in
    let (r, scanned) = scan-returns x scope q es later in
    (collect event v r, rw (judged, scanned, scan) refl)

require-returns :
    (scope : Scope) (space t : String)
    → contains space scope.spaces ≡ true
    → contains t scope.memory_types ≡ true
    → require scope space t ≡ ok tt
unfolding require
require-returns scope space t h k = rw (h, k) refl

require_types-returns :
    (scope : Scope) (space : String) (ts : List String)
    → contains space scope.spaces ≡ true
    → is_subset ts scope.memory_types ≡ true
    → require_types scope space ts ≡ ok tt
unfolding require_types is_subset
require_types-returns scope space [] h k = refl
require_types-returns scope space (t ∷ ts) h k =
    let (first, rest) =
      &&-eq-true (contains t scope.memory_types) (is_subset ts scope.memory_types) k in
    rw (require-returns scope space t h first) (require_types-returns scope space ts h rest)

require_all-returns :
    (scope : Scope) (spaces ts : List String)
    → is_subset spaces scope.spaces ≡ true
    → is_subset ts scope.memory_types ≡ true
    → require_all scope spaces ts ≡ ok tt
unfolding require_all is_subset
require_all-returns scope [] ts h k = refl
require_all-returns scope (space ∷ spaces) ts h k =
    let (first, rest) =
      &&-eq-true (contains space scope.spaces) (is_subset spaces scope.spaces) h in
    rw (require_types-returns scope space ts first k) (require_all-returns scope spaces ts rest k)

-- A listing answers wherever the spaces and the types of the request are among those of the scope, and every event of
-- the store has no time or one that can be read.
pub visible_events-returns :
    (x : Texts) (scope : Scope) (q : Query) (s : Store)
    → is_subset q.spaces scope.spaces ≡ true
    → is_subset q.memory_types scope.memory_types ≡ true
    → all (is_readable x) (values s.events) ≡ true
    → (r : List Event × Bool) × (visible_events x scope q s ≡ ok r)
unfolding visible_events
visible_events-returns x scope q s spaces types readable =
    let granted = require_all-returns scope q.spaces q.memory_types spaces types in
    let (r, scanned) = scan-returns x scope q (values s.events) readable in
    ((sort_events r.0, r.1), rw (granted, scanned) refl)
