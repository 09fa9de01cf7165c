-- ===== src/Store/Listing.antt =====
-- What `visible_events` returns (services/ameme-mcp-mock/ameme_mcp_mock/store.py).
use ameme.Base.{&&-eq-true}
use ameme.Base.{if_induction}
use ameme.Base.{
  string_eq, nat_eq, ℕ, ◌≡◌, refl, Bool, true, false, not, ◌&&◌, ◌||◌, Option, none, some, List, [],
  ◌∷◌, ◌==◌, any, keep, if◌then◌else◌, Outcome, ok, >>=-returns,
}
use ameme.Base.Dict.{values}
use ameme.Base.Sets.{contains}
use ameme.Base.Text.{str_leb, str_leb-total}
use mathlib.Core.List.{Perm}
use mathlib.Core.List.Perm
use ameme.Store.State.{StoreError, Scope, Event, Store}
use ameme.Store.Visible.{
  Texts, Query, Verdict, skipped, risky, taken, is_before, is_after, is_in_reach, is_high_risk,
  is_asked_for, time_of, judge, judge_at, judge_time, collect, scan, age, place, sort_events,
  require_all, visible_events,
}

abbrev is_within : Query → Option ℕ → Bool
is_within q none = false
is_within q (some t) = not (is_before t q.start_at) && not (is_after t q.end_at)

-- An event in the window of time of a query; one without a time is in every window.
abbrev pub is_in_window : Texts → Query → Event → Bool
is_in_window x q event = time_of event == "" || is_within q (x.instant (time_of event))

-- The events that a query may show, said of one event at a time.
abbrev pub is_visible : Texts → Scope → Query → Event → Bool
is_visible x scope q event =
    (event.state == "active"
      && not event.policy_blocked
      && event.owner_id == scope.owner_id
      && contains event.space_id q.spaces
      && contains event.memory_type q.memory_types)
    && (q.allow_high_risk || not (event.sensitivity == "restricted" || event.data_class == "raw"))
    && (is_in_window x q event && is_asked_for x q event)

-- Left out for its risk alone, whatever its time and its text.
abbrev pub is_withheld : Scope → Query → Event → Bool
is_withheld scope q event = is_in_reach scope q event && not q.allow_high_risk && is_high_risk event

verdict_of : Texts → Scope → Query → Event → Verdict
verdict_of x scope q event =
    if is_withheld scope q event
    then risky
    else if is_visible x scope q event
    then taken
    else skipped

window-verdict :
    (x : Texts) (q : Query) (event : Event) (untimed : Bool) (t : Option ℕ) {v : Verdict}
    → (if untimed
        then ok (if is_asked_for x q event then taken else skipped)
        else judge_at x q event t)
      ≡ ok v
    → v ≡ (if (untimed || is_within q t) && is_asked_for x q event then taken else skipped)
window-verdict x q event true t h = cc h
window-verdict x q event false none h = cc h
window-verdict x q event false (some t) h =
    outside (is_before t q.start_at) (is_after t q.end_at) (is_asked_for x q event) (cc h)
  where
    outside :
        (before after asked : Bool) {v : Verdict}
        → v ≡ (if before || after then skipped else if asked then taken else skipped)
        → v ≡ (if (not before && not after) && asked then taken else skipped)
    outside true after asked h = h
    outside false true asked h = h
    outside false false asked h = h

guards-verdict :
    (near allow high fits : Bool) (rest : Outcome StoreError Verdict) {v : Verdict}
    → (rest ≡ ok v → v ≡ (if fits then taken else skipped))
    → (if not near then ok skipped else if not allow && high then ok risky else rest) ≡ ok v
    → v ≡ (
        if near && not allow && high
        then risky
        else if near && (allow || not high) && fits
        then taken
        else skipped)
guards-verdict false allow high fits rest k h = cc h
guards-verdict true false false fits rest k h = k h
guards-verdict true false true fits rest k h = cc h
guards-verdict true true high fits rest k h = k h

judge-verdict :
    (x : Texts) (scope : Scope) (q : Query) (event : Event) {v : Verdict}
    → judge x scope q event ≡ ok v
    → v ≡ verdict_of x scope q event
unfolding judge verdict_of
judge-verdict x scope q event h =
    guards-verdict (is_in_reach scope q event) q.allow_high_risk (is_high_risk event)
      (is_in_window x q event && is_asked_for x q event) (judge_time x q event)
      (window-verdict x q event (time_of event == "") (x.instant (time_of event))) h

collect-verdict :
    (x : Texts) (scope : Scope) (q : Query) (event : Event) (es : List Event)
    → collect event
        (verdict_of x scope q event)
        (keep (is_visible x scope q) es, any (is_withheld scope q) es)
      ≡ (keep (is_visible x scope q) (event ∷ es), any (is_withheld scope q) (event ∷ es))
unfolding verdict_of
collect-verdict x scope q event es =
    collected (is_in_reach scope q event) q.allow_high_risk (is_high_risk event)
      (is_in_window x q event && is_asked_for x q event) (keep (is_visible x scope q) es)
      (any (is_withheld scope q) es)
  where
    collected :
        (near allow high fits : Bool) (found : List Event) (risk : Bool)
        → collect event
            (if near && not allow && high
              then risky
              else if near && (allow || not high) && fits
              then taken
              else skipped)
            (found, risk)
          ≡ (
            if near && (allow || not high) && fits then event ∷ found else found,
            near && not allow && high || risk,
          )
    collected false allow high fits found risk = refl
    collected true false true fits found risk = refl
    collected true false false true found risk = refl
    collected true false false false found risk = refl
    collected true true high true found risk = refl
    collected true true high false found risk = refl

pub scan-keep :
    (x : Texts) (scope : Scope) (q : Query) (es : List Event) {r : List Event × Bool}
    → scan x scope q es ≡ ok r
    → r ≡ (keep (is_visible x scope q) es, any (is_withheld scope q) es)
unfolding scan
scan-keep x scope q [] h = cc h
scan-keep x scope q (event ∷ es) h =
    let (v, judged, h) = >>=-returns (judge x scope q event) _ h in
    let (found, scanned, h) = >>=-returns (scan x scope q es) _ h in
    cc (
      h,
      judge-verdict x scope q event judged,
      scan-keep x scope q es scanned,
      collect-verdict x scope q event es,
    )

-- In the order of `updated_at` and `created_at`, the latest first.
abbrev heads : Event → List Event → Bool
heads event [] = true
heads event (e ∷ es) = str_leb (age e) (age event)

abbrev pub is_latest_first : List Event → Bool
is_latest_first [] = true
is_latest_first (e ∷ es) = heads e es && is_latest_first es

place-Perm : (event : Event) (es : List Event) → Perm (place event es) (event ∷ es)
place-Perm event [] = Perm.rfl
place-Perm event (e ∷ es) =
    if_induction (λ r. Perm r (event ∷ e ∷ es)) (str_leb (age e) (age event)) (λ _. Perm.rfl)
      (λ _. Perm.trans (Perm.cons e (place-Perm event es)) (Perm.swap event e es))

sort_events-Perm : (es : List Event) → Perm (sort_events es) es
unfolding sort_events
sort_events-Perm [] = Perm.rfl
sort_events-Perm (e ∷ es) =
    Perm.trans (place-Perm e (sort_events es)) (Perm.cons e (sort_events-Perm es))

place-heads :
    (event e : Event) (es : List Event)
    → str_leb (age e) (age event) ≡ false
    → heads e es ≡ true
    → heads e (place event es) ≡ true
place-heads event e [] less h = str_leb-total (age e) (age event) less
place-heads event e (f ∷ es) less h =
    if_induction (λ r. heads e r ≡ true) (str_leb (age f) (age event))
      (λ _. str_leb-total (age e) (age event) less) (λ _. h)

place-is_latest_first :
    (event : Event) (es : List Event)
    → is_latest_first es ≡ true
    → is_latest_first (place event es) ≡ true
place-is_latest_first event [] h = refl
place-is_latest_first event (e ∷ es) h =
    let (top, below) = &&-eq-true (heads e es) (is_latest_first es) h in
    if_induction (λ r. is_latest_first r ≡ true) (str_leb (age e) (age event)) (λ p. rw (p, h) refl)
      (λ p. rw (place-heads event e es p top, place-is_latest_first event es below) refl)

sort_events-is_latest_first : (es : List Event) → is_latest_first (sort_events es) ≡ true
unfolding sort_events
sort_events-is_latest_first [] = refl
sort_events-is_latest_first (e ∷ es) =
    place-is_latest_first e (sort_events es) (sort_events-is_latest_first es)

-- Where the listing returns, it holds exactly the events of the store that the query may show, each as often as it
-- is there, the latest first; and it tells whether an event was left out for its risk.
pub visible_events-keep :
    (x : Texts) (scope : Scope) (q : Query) (s : Store) (found : List Event) (risk : Bool)
    → visible_events x scope q s ≡ ok (found, risk)
    → Perm found (keep (is_visible x scope q) (values s.events))
      × (is_latest_first found ≡ true)
      × (risk ≡ any (is_withheld scope q) (values s.events))
unfolding visible_events
visible_events-keep x scope q s found risk h =
    let (_, _, h) = >>=-returns (require_all scope q.spaces q.memory_types) _ h in
    let (r, scanned, h) = >>=-returns (scan x scope q (values s.events)) _ h in
    let kept = scan-keep x scope q (values s.events) scanned in
    let sorted : found ≡ sort_events (keep (is_visible x scope q) (values s.events)) =
      cc (h, kept) in
    (
      rw sorted (sort_events-Perm (keep (is_visible x scope q) (values s.events))),
      rw sorted (sort_events-is_latest_first (keep (is_visible x scope q) (values s.events))),
      cc (h, kept),
    )
