-- ===== src/Store/Members.antt =====
-- The members of a listing, one by one (`visible_events` of services/ameme-mcp-mock/ameme_mcp_mock/store.py).
use ameme.Base.{arith}
use ameme.Base.{
  string_eq, ◌≡◌, Bool, true, false, not, ◌&&◌, ◌||◌, List, [], ◌∷◌, ◌==◌, keep, ok, >>=-returns,
  if_induction, &&-eq-true, inl, inr, ap, ◌∙◌,
}
use mathlib.Core.Path.{subst}
use ameme.Base.Among.{Among, at_head, in_tail, Among-none, Among-cases}
use ameme.Base.Dict.{values}
use ameme.Base.Sets.{contains}
use ameme.Base.Text.{str_leb}
use ameme.Store.State.{Scope, Event, Store}
use ameme.Store.Visible.{
  Texts, Query, is_in_reach, is_high_risk, age, place, sort_events, require_all, scan,
  visible_events,
}
use ameme.Store.Listing.{is_visible, scan-keep}

mem-place : (e f : Event) (es : List Event) → Among e (place f es) → Among e (f ∷ es)
mem-place e f [] m = m
mem-place e f (d ∷ es) m =
    if_induction (λ r. Among e r → Among e (f ∷ d ∷ es)) (str_leb (age d) (age f)) (λ _ n. n)
      (λ _ n. elim (Among-cases n) [
        | inl same ↦ in_tail (at_head same)
        | inr later ↦ elim (Among-cases (mem-place e f es later)) [
          | inl this ↦ at_head this
          | inr deep ↦ in_tail (in_tail deep)
        ]
      ])
      m

mem-sort_events : (e : Event) (es : List Event) → Among e (sort_events es) → Among e es
unfolding sort_events
mem-sort_events e [] m = m
mem-sort_events e (f ∷ es) m = elim (Among-cases (mem-place e f (sort_events es) m)) [
  | inl same ↦ at_head same
  | inr later ↦ in_tail (mem-sort_events e es later)
]

mem-keep :
    (p : Event → Bool) (e : Event) (es : List Event)
    → Among e (keep p es)
    → Among e es × (p e ≡ true)
mem-keep p e [] m = Among-none m
mem-keep p e (f ∷ es) m =
    if_induction (λ r. Among e r → Among e (f ∷ es) × (p e ≡ true)) (p f)
      (λ passes n. elim (Among-cases n) [
        | inl same ↦ (at_head same, ap p same ∙ passes)
        | inr later ↦ let (there, kept) = mem-keep p e es later in (in_tail there, kept)
      ])
      (λ _ n. let (there, kept) = mem-keep p e es n in (in_tail there, kept)) m

-- What a query shows of one event.
pub record IsShown (scope : Scope) (q : Query) (e : Event) : Type 0 where
  pub active : e.state ≡ "active"
  pub unblocked : e.policy_blocked ≡ false
  pub owned : e.owner_id ≡ scope.owner_id
  pub in_spaces : contains e.space_id q.spaces ≡ true
  pub in_types : contains e.memory_type q.memory_types ≡ true

is_visible-IsShown :
    (x : Texts) (scope : Scope) (q : Query) (e : Event)
    → is_visible x scope q e ≡ true
    → IsShown scope q e
is_visible-IsShown x scope q e h =
    let (near, _) =
      &&-eq-true (is_in_reach scope q e && (q.allow_high_risk || not (is_high_risk e))) _ h in
    let (near, _) = &&-eq-true (is_in_reach scope q e) _ near in
    let (near, h5) = &&-eq-true _ (contains e.memory_type q.memory_types) near in
    let (near, h4) = &&-eq-true _ (contains e.space_id q.spaces) near in
    let (near, h3) = &&-eq-true _ (e.owner_id == scope.owner_id) near in
    let (h1, h2) = &&-eq-true (e.state == "active") (not e.policy_blocked) near in
    record {
      active = (string_eq.same_iff e.state "active").0 h1;
      unblocked = ground (arith, h2);
      owned = (string_eq.same_iff e.owner_id scope.owner_id).0 h3;
      in_spaces = h4;
      in_types = h5;
    }

-- An event of a listing is one of the store that the query shows.
pub visible_events-IsShown :
    (x : Texts) (scope : Scope) (q : Query) (s : Store) (found : List Event) (risk : Bool)
    → visible_events x scope q s ≡ ok (found, risk)
    → (e : Event) → Among e found
    → Among e (values s.events) × IsShown scope q e
unfolding visible_events
visible_events-IsShown x scope q s found risk h e m =
    let (_, _, h) = >>=-returns (require_all scope q.spaces q.memory_types) _ h in
    let (r, scanned, h) = >>=-returns (scan x scope q (values s.events)) _ h in
    let kept = keep (is_visible x scope q) (values s.events) in
    let sorted : found ≡ sort_events kept = cc (h, scan-keep x scope q (values s.events) scanned) in
    let (there, seen) =
      mem-keep (is_visible x scope q) e (values s.events)
        (mem-sort_events e kept (subst (Among e) sorted m)) in
    (there, is_visible-IsShown x scope q e seen)
