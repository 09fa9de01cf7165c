-- ===== src/Store/Permitted.antt =====
-- No listing goes beyond the scope of the request (`visible_events` of
-- services/ameme-mcp-mock/ameme_mcp_mock/store.py).
use ameme.Base.{||-eq-true}
use ameme.Store.State.{not_visible}
use ameme.Base.{
  string_eq, ◌≡◌, refl, String, Bool, true, false, not, ◌&&◌, ◌||◌, List, [], ◌∷◌, ◌==◌, all, keep,
  if◌then◌else◌, ok, err, >>=-returns, inl, inr, if_induction, &&-eq-true,
}
use mathlib.Core.Path.{subst}
use ameme.Base.Dict.{values}
use ameme.Base.Sets.{contains}
use ameme.Base.Text.{str_leb}
use ameme.Store.State.{Scope, require, Event, Store}
use ameme.Store.Visible.{
  Texts, Query, is_in_reach, is_high_risk, age, place, sort_events, require_types, require_all,
  scan, visible_events,
}
use ameme.Store.Listing.{is_visible, scan-keep}

-- Within what a scope allows to see: its owner, its spaces, its types of memory.
abbrev pub is_permitted : Scope → Event → Bool
is_permitted scope event =
    event.owner_id == scope.owner_id
    && contains event.space_id scope.spaces
    && contains event.memory_type scope.memory_types

module _ (p : Event → Bool) where
  all-place :
      (e : Event) (es : List Event) → p e ≡ true → all p es ≡ true → all p (place e es) ≡ true
  all-place e [] h k = rw (h, k) refl
  all-place e (f ∷ es) h k =
      let (first, others) = &&-eq-true (p f) (all p es) k in
      if_induction (λ r. all p r ≡ true) (str_leb (age f) (age e)) (λ _. rw (h, k) refl)
        (λ _. rw (first, all-place e es h others) refl)

  all-sort_events : (es : List Event) → all p es ≡ true → all p (sort_events es) ≡ true
  unfolding sort_events
  all-sort_events [] h = refl
  all-sort_events (e ∷ es) h =
      let (first, others) = &&-eq-true (p e) (all p es) h in
      all-place e (sort_events es) first (all-sort_events es others)

  all-keep :
      (q : Event → Bool) (es : List Event)
      → ((e : Event) → q e ≡ true → p e ≡ true)
      → all p (keep q es) ≡ true
  all-keep q [] h = refl
  all-keep q (e ∷ es) h =
      if_induction (λ r. all p r ≡ true) (q e) (λ t. rw (h e t, all-keep q es h) refl)
        (λ _. all-keep q es h)

require-ok :
    (scope : Scope) (space t : String)
    → require scope space t ≡ ok tt
    → (contains space scope.spaces && contains t scope.memory_types) ≡ true
unfolding require
require-ok scope space t h = granted (contains space scope.spaces) (contains t scope.memory_types) h
  where
    granted :
        (a b : Bool) → (if not a || not b then err not_visible else ok tt) ≡ ok tt → (a && b) ≡ true
    granted true true h = refl
    granted true false h = cc h
    granted false b h = cc h

require_types-ok :
    (scope : Scope) (space t : String) (ts : List String)
    → require_types scope space ts ≡ ok tt
    → contains t ts ≡ true
    → (contains space scope.spaces && contains t scope.memory_types) ≡ true
unfolding require_types contains
require_types-ok scope space t [] h k = cc k
require_types-ok scope space t (u ∷ ts) h k =
    let (_, this, others) = >>=-returns (require scope space u) _ h in
    elim (||-eq-true (u == t) (contains t ts) k) [
      | inl same ↦
          require-ok scope space t
            (subst (λ v. require scope space v ≡ ok tt) ((string_eq.same_iff u t).0 same) this)
      | inr later ↦ require_types-ok scope space t ts others later
    ]

require_all-ok :
    (scope : Scope) (space t : String) (spaces ts : List String)
    → require_all scope spaces ts ≡ ok tt
    → contains space spaces ≡ true
    → contains t ts ≡ true
    → (contains space scope.spaces && contains t scope.memory_types) ≡ true
unfolding require_all contains
require_all-ok scope space t [] ts h k l = cc k
require_all-ok scope space t (v ∷ spaces) ts h k l =
    let (_, this, others) = >>=-returns (require_types scope v ts) _ h in
    elim (||-eq-true (v == space) (contains space spaces) k) [
      | inl same ↦
          require_types-ok scope space t ts
            (subst (λ v. require_types scope v ts ≡ ok tt) ((string_eq.same_iff v space).0 same)
              this)
            l
      | inr later ↦ require_all-ok scope space t spaces ts others later l
    ]

permitted :
    (x : Texts) (scope : Scope) (q : Query) (e : Event)
    → require_all scope q.spaces q.memory_types ≡ ok tt
    → is_visible x scope q e ≡ true
    → is_permitted scope e ≡ true
permitted x scope q e granted h =
    let active = e.state == "active" && not e.policy_blocked in
    let owned = e.owner_id == scope.owner_id in
    let here = contains e.space_id q.spaces in
    let typed = contains e.memory_type q.memory_types in
    let (near, _) =
      &&-eq-true (is_in_reach scope q e && (q.allow_high_risk || not (is_high_risk e))) _ h in
    let (near, _) = &&-eq-true (is_in_reach scope q e) _ near in
    let (near, h3) = &&-eq-true (active && owned && here) typed near in
    let (near, h2) = &&-eq-true (active && owned) here near in
    let (_, h1) = &&-eq-true active owned near in
    rw (h1, require_all-ok scope e.space_id e.memory_type q.spaces q.memory_types granted h2 h3)
      refl

-- Where a listing returns, every event in it belongs to the owner of the scope and stands in a space and under a
-- type that the scope grants, whatever spaces and types the request names.
pub visible_events-is_permitted :
    (x : Texts) (scope : Scope) (q : Query) (s : Store) (found : List Event) (risk : Bool)
    → visible_events x scope q s ≡ ok (found, risk)
    → all (is_permitted scope) found ≡ true
unfolding visible_events
visible_events-is_permitted x scope q s found risk h =
    let (_, granted, h) = >>=-returns (require_all scope q.spaces q.memory_types) _ h in
    let (r, scanned, h) = >>=-returns (scan x scope q (values s.events)) _ h in
    let sorted : found ≡ sort_events (keep (is_visible x scope q) (values s.events)) =
      cc (h, scan-keep x scope q (values s.events) scanned) in
    rw sorted (
      all-sort_events (is_permitted scope) (keep (is_visible x scope q) (values s.events)) (
        all-keep (is_permitted scope) (is_visible x scope q) (values s.events)
          (λ e. permitted x scope q e granted)))
