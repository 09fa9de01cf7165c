-- ===== src/Sync/Project/Chain.antt =====
-- The revision number of a projected event
-- (`_project_event` of packages/sync-protocol/src/ameme_sync_protocol/simulator.py).
use ameme.Base.{◌||◌}
use ameme.Base.{any, sym, ap, sym}
use ameme.Base.{ap}
use ameme.Base.{◌∙◌}
use ameme.Sync.Project.{Json}
use ameme.Sync.Project.{by_value}
use ameme.Base.{
  string_eq, nat_eq, ltb, ℕ, ◌+◌, ◌<◌, ◌≡◌, refl, arith, true, false, String, Bool, List, [], ◌∷◌,
  ◌++◌, keep, ◌==◌, if◌then◌else◌, none, Bool-cases, inl, inr,
}
use mathlib.Core.Path.{subst}
use ameme.Base.Sets.{contains}
use ameme.Base.Dict.{Dict, lookup, values, row}
use ameme.Platform.{Platform}
use ameme.Sync.Envelope.{Envelope}
use ameme.Sync.State.{Peer}
use ameme.Sync.Project.{
  Building, Entry, base_of, bases, revisions_at, settle_field, settle_fields, by_field, sort_dict,
  by_value, continue_chain, build_base, build_bases, nothing_built, project_by, project_revisions,
  project_event,
}
use ameme.Sync.Project.Walk.{walk, IsChain, walk-IsChain, bases-IsAbove, contains-put_number}

settle_field-walk :
    (name : String) (d : Dict String (Json × List Envelope)) (b : Building)
    → ((settle_field name d b).current_revision ≡ b.current_revision)
      × ((settle_field name d b).ancestry_gaps ≡ b.ancestry_gaps)
unfolding settle_field
settle_field-walk name [] b = (refl, refl)
settle_field-walk name ((key, (value, sources)) ∷ []) b = (refl, refl)
settle_field-walk name (x ∷ y ∷ rest) b = (refl, refl)

settle_fields-walk :
    (d : Dict String (List Entry)) (b : Building)
    → ((settle_fields d b).current_revision ≡ b.current_revision)
      × ((settle_fields d b).ancestry_gaps ≡ b.ancestry_gaps)
unfolding settle_fields
settle_fields-walk [] b = (refl, refl)
settle_fields-walk ((name, entries) ∷ rest) b =
    let (number, gaps) = settle_field-walk name (by_value entries []) b in
    let (number', gaps') = settle_fields-walk rest (settle_field name (by_value entries []) b) in
    (number' ∙ number, gaps' ∙ gaps)

-- What a building shows of the walk.
abbrev progress : Building → ℕ × List ℕ
progress b = (b.current_revision, b.ancestry_gaps)

continue_chain-walk :
    (es : List Envelope) (b : Building)
    → progress (continue_chain es b) ≡ (b.current_revision + 1, b.ancestry_gaps)
unfolding continue_chain
continue_chain-walk es b =
    let (number, gaps) = settle_fields-walk (sort_dict (by_field es [])) b in cc (number, gaps)

build_base-walk :
    (p : Platform) (es : List Envelope) (base : ℕ) (b : Building)
    → progress (build_base p es base b) ≡ (
        if base == b.current_revision
        then (b.current_revision + 1, b.ancestry_gaps)
        else (b.current_revision, b.ancestry_gaps ++ base ∷ []))
unfolding build_base
build_base-walk p es base b = elim (Bool-cases (base == b.current_revision)) [
  | inl next ↦ rw (next, build_base) (continue_chain-walk (revisions_at p base es) _)
  | inr gap ↦ rw (gap, build_base) refl
]

build_bases-walk :
    (p : Platform) (es : List Envelope) (ns : List ℕ) (b : Building)
    → progress (build_bases p es ns b) ≡ walk ns (progress b)
unfolding build_bases walk
build_bases-walk p es [] b = refl
build_bases-walk p es (base ∷ rest) b =
    build_bases-walk p es rest (build_base p es base b)
    ∙ ap (walk rest) (build_base-walk p es base b)

-- Whether one of the revisions has a base.
abbrev pub has_base : ℕ → List Envelope → Bool
has_base n es = any (λ e. base_of e == n) es

contains-bases : (n : ℕ) (es : List Envelope) → contains n (bases es) ≡ has_base n es
unfolding bases contains
contains-bases n [] = refl
contains-bases n (e ∷ es) =
    contains-put_number n (base_of e) (bases es)
    ∙ ap (λ b. base_of e == n || b) (contains-bases n es)

-- The revision number of an event without a tombstone is the first number that no revision of it is based on: every
-- number below has a revision based on it. The gaps are the bases above, in ascending order, each once.
pub project_event-revision :
    (p : Platform) (id : String) (s : Peer)
    → lookup id s.tombstones ≡ none
    → let v = project_event p id s in
      let es = values (row id s.revisions) in
      ((n : ℕ) → n < v.revision → has_base n es ≡ true)
      × (has_base v.revision es ≡ false)
      × (v.ancestry_gaps ≡ keep (λ n. ltb v.revision n) (bases es))
unfolding project_event project_by project_revisions IsChain
project_event-revision p id s h =
    let es = values (row id s.revisions) in
    let (_, chain, absent, gaps) =
      subst (IsChain 0 (bases es) []) (sym (build_bases-walk p es (bases es) nothing_built))
        (walk-IsChain 0 (bases es) [] (bases-IsAbove es)) in
    rw h (
      λ n k. sym (contains-bases n es) ∙ chain n (omega arith) k,
      sym (contains-bases _ es) ∙ absent,
      gaps,
    )
