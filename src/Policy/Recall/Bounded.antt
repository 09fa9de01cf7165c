-- ===== src/Policy/Recall/Bounded.antt =====
-- What a search may show (`recall` of services/ameme-mcp-mock/ameme_mcp_mock/core.py).
use ameme.Base.{
  string_eq, nat_eq, ℕ, zero, suc, ◌≤◌, ◌≡◌, refl, arith, String, ◌+s◌, Bool, true, false, Option,
  List, [], ◌∷◌, ◌++◌, inl, inr, ◌||◌, length, is_empty, Outcome, ok, err, sym, ap, ◌∙◌,
}
use mathlib.Core.Path.{subst}
use ameme.Base.Int.{ℤ, pos, negsuc}
use ameme.Base.Dict.{default, values}
use ameme.Store.State.{StoreError, Event, Store}
use ameme.Store.Visible.{Texts}
use ameme.Base.Sets.{contains}
use ameme.Base.Sorting.{sort_texts}
use ameme.Base.Among.{Among, at_head, in_tail, Among-none, Among-cases}
use ameme.Store.Members.{visible_events-IsShown}
use ameme.Policy.Recall.Unchanged.{
  bounded_values-same, high_risk_gate-same, requested_time_range-same,
}
use ameme.Policy.State.{Times, Grant, Activity, World}
use ameme.Policy.Calls.{Act, next, on_act, on_refuse_if, returned}
use ameme.Policy.Grants.{
  is_missing, bucket, add_activity, bounded_values, authorize, event_scope, high_risk_gate,
  requested_time_range, record_activity, set_of,
}
use ameme.Policy.Grants.Granted.{IsGranted, authorize-IsGranted}
use ameme.Policy.Recall.{Search, Hit, Recalled, limit_of, hits, of_store, search_store, recall}

limit_of-bounds : (n : ℤ) → limit_of n ≤ 100
unfolding limit_of
limit_of-bounds (pos n) = ground arith
limit_of-bounds (negsuc n) = omega arith

length-hits : (n : ℕ) (es : List Event) → length (hits n es) ≤ n
unfolding hits
length-hits zero es = omega arith
length-hits (suc n) [] = omega arith
length-hits (suc n) (e ∷ es) = omega (arith, length-hits n es)

-- What a search shows: the active and unblocked events of the store that are of the owner of the grant and in the
-- spaces and of the types that the search names.
pub record IsSource (s : Store) (r : Search) (g : Grant) (h : Hit) (e : Event) : Type 0 where
  pub stored : Among e (values s.events)
  pub named : h.object_id ≡ e.event_id
  pub typed : h.object_type ≡ e.memory_type
  pub placed : h.space_id ≡ e.space_id
  pub revised : h.revision ≡ e.revision
  pub traced : h.lineage_refs ≡ e.source_object_id ∷ []
  pub active : e.state ≡ "active"
  pub unblocked : e.policy_blocked ≡ false
  pub owned : e.owner_id ≡ g.owner_id
  pub in_spaces : contains e.space_id r.spaces ≡ true
  pub in_types : contains e.memory_type r.memory_types ≡ true

-- What a search leaves: one activity of the caller, in memory and in the file.
pub record IsLogged (g : Grant) (w v : World) : Type 0 where
  pub entry : Activity
  pub coded : entry.result_code ≡ "OK"
  pub of_caller : entry.caller_id ≡ g.terms.caller_id
  pub memory : v.memory ≡ record w.memory { activity = w.memory.activity ++ entry ∷ [] }
  pub disk : v.disk ≡ record w.memory { activity = w.memory.activity ++ entry ∷ [] }

-- What holds of a search that returns.
pub record IsRecalled (t : Times) (now : ℕ) (s : Store) (r : Search) (w v : World) (a : Recalled)
    : Type 0 where
  pub grant : Grant
  pub granted : IsGranted t now r.ask r.spaces r.memory_types r.is_autonomous w.memory grant
  pub shown : (h : Hit) → Among h a.results → (e : Event) × IsSource s r grant h e
  pub few : length a.results ≤ 100
  pub logged : IsLogged grant w v

on_store {κ} :
    {A B : Type 0} {P : Type κ} (o : Outcome StoreError A) (k : A → Act B) (w : World) {v : World}
    {r : B}
    → next (of_store o w) k ≡ (v, ok r)
    → ((a : A) → o ≡ ok a → k a w ≡ (v, ok r) → P)
    → P
on_store (ok a) k w h then_ = then_ a refl h
on_store (err e) k w h then_ = absurd (cc h)

-- Each hit is made of one of the events that are found.
hits-Among :
    (h : Hit) (n : ℕ) (es : List Event)
    → Among h (hits n es)
    → (e : Event) × Among e es
      × (h ≡ record {
        object_type = e.memory_type;
        object_id = e.event_id;
        revision = e.revision;
        space_id = e.space_id;
        fact_status = e.fact_status;
        lineage_refs = e.source_object_id ∷ [];
      })
unfolding hits
hits-Among h zero es m = Among-none m
hits-Among h (suc n) [] m = Among-none m
hits-Among h (suc n) (e ∷ es) m = elim (Among-cases m) [
  | inl same ↦ (e, at_head refl, same)
  | inr later ↦ let (f, place, made) = hits-Among h n es later in (f, in_tail place, made)
]

search_store-IsSource :
    (x : Texts) (r : Search) (g : Grant) (allow : Bool) (range : Option ℕ × Option ℕ) (s : Store)
    (found : List Event × Bool)
    → search_store x r g r.spaces r.memory_types allow range s ≡ ok found
    → (n : ℕ) (h : Hit) → Among h (hits n found.0)
    → (e : Event) × IsSource s r g h e
unfolding search_store event_scope
search_store-IsSource x r g allow range s found listed n h m =
    let (e, place, made) = hits-Among h n found.0 m in
    let (stored, seen) =
      visible_events-IsShown x
        (event_scope g (default "" r.ask.caller_id) (default "" r.ask.purpose) r.spaces
          r.memory_types)
        (record {
          spaces = r.spaces;
          memory_types = r.memory_types;
          query = r.query;
          allow_high_risk = allow;
          start_at = range.0;
          end_at = range.1;
        })
        s found.0 found.1 listed e place in
    (
      e,
      record {
        stored = stored;
        named = ap (λ z. z.object_id) made;
        typed = ap (λ z. z.object_type) made;
        placed = ap (λ z. z.space_id) made;
        revised = ap (λ z. z.revision) made;
        traced = ap (λ z. z.lineage_refs) made;
        active = seen.active;
        unblocked = seen.unblocked;
        owned = seen.owned;
        in_spaces = seen.in_spaces;
        in_types = seen.in_types;
      },
    )

-- The activity that a search records.
abbrev activity_of : Times → ℕ → World → Search → List String → List String → List Hit → Activity
activity_of t now w r spaces types results = record {
  activity_id = "act" +s "_" +s t.uuid w.drawn;
  caller_id = default "" r.ask.caller_id;
  purpose = default "" r.ask.purpose;
  spaces = sort_texts (set_of spaces);
  data_types = sort_texts (set_of types);
  result_code = "OK";
  object_count_bucket = bucket (length results);
  occurred_at = t.iso now;
}

granted_for :
    (t : Times) (now : ℕ) (r : Search) (u w : World) (g : Grant) (spaces types : List String)
    → spaces ≡ r.spaces
    → types ≡ r.memory_types
    → u ≡ w
    → IsGranted t now r.ask spaces types r.is_autonomous u.memory g
    → IsGranted t now r.ask r.spaces r.memory_types r.is_autonomous w.memory g
granted_for t now r u w g spaces types p q same granted =
    subst (λ m. IsGranted t now r.ask r.spaces r.memory_types r.is_autonomous m g)
      (ap (λ z. z.memory) same)
      (subst (λ xs. IsGranted t now r.ask xs r.memory_types r.is_autonomous u.memory g) p
        (subst (λ xs. IsGranted t now r.ask spaces xs r.is_autonomous u.memory g) q granted))

listed_for :
    (x : Texts) (r : Search) (g : Grant) (spaces types : List String) (allow : Bool)
    (range : Option ℕ × Option ℕ) (s : Store) (found : List Event × Bool)
    → spaces ≡ r.spaces
    → types ≡ r.memory_types
    → search_store x r g spaces types allow range s ≡ ok found
    → search_store x r g r.spaces r.memory_types allow range s ≡ ok found
listed_for x r g spaces types allow range s found p q listed =
    subst (λ xs. search_store x r g xs r.memory_types allow range s ≡ ok found) p
      (subst (λ xs. search_store x r g spaces xs allow range s ≡ ok found) q listed)

-- A search that returns was authorized by an active grant of its caller. It shows at most 100 hits. Each is of an
-- event of the store, of which it gives the id, the type, the space, the revision and the source: an active event that
-- no policy blocks, of the owner of the grant, and in a space and of a type that the search names and so the grant
-- holds. The memory is what it was with one activity of the caller more, of the code OK, and the file is like the memory.
pub recall-IsRecalled :
    (t : Times) (x : Texts) (now : ℕ) (offline : Bool) (s : Store) (r : Search) (w v : World)
    (a : Recalled)
    → recall t x now offline s r w ≡ (v, ok a)
    → IsRecalled t now s r w v a
unfolding recall record_activity
recall-IsRecalled t x now offline s r w v a h =
    on_refuse_if
      (is_missing r.ask.caller_id
        || is_missing r.ask.grant_id
        || is_missing r.ask.purpose
        || is_empty r.spaces
        || is_empty r.memory_types)
      "INVALID_ARGUMENT" "missing_required_fields" _ w h
      (λ _ h. on_act (bounded_values r.spaces w) _ h (λ w1 spaces first h.
        on_act (bounded_values r.memory_types w1) _ h (λ w2 types second h.
          on_act (authorize t now r.ask spaces types r.is_autonomous w2) _ h (λ w3 g authorized h.
            on_act (high_risk_gate r.sensitivity r.data_class r.confirmed r.is_autonomous w3) _ h
              (λ w4 allow gate h.
                on_act (requested_time_range t r.time_range w4) _ h (λ w5 range timed h.
                  on_store (search_store x r g spaces types allow range s) _ w5 h (λ found listed h.
                    let (same1, spaces_are) = bounded_values-same r.spaces spaces w w1 first in
                    let (same2, types_are) =
                      bounded_values-same r.memory_types types w1 w2 second in
                    let start : w2 ≡ w = same2 ∙ same1 in
                    let (granted, same3) =
                      authorize-IsGranted t now r.ask spaces types r.is_autonomous w2 w3 g
                        authorized in
                    let same4 =
                      high_risk_gate-same r.sensitivity r.data_class r.confirmed r.is_autonomous
                        allow w3 w4 gate in
                    let same5 = requested_time_range-same t r.time_range range w4 w5 timed in
                    let unchanged : w5 ≡ w = same5 ∙ same4 ∙ same3 ∙ start in
                    let (end_world, answer) = returned h in
                    let entry =
                      activity_of t now w5 r spaces types (hits (limit_of r.limit) found.0) in
                    let granted' =
                      granted_for t now r w2 w g spaces types spaces_are types_are start granted in
                    record {
                      grant = g;
                      granted = granted';
                      shown = λ hit m.
                          search_store-IsSource x r g allow range s found
                            (listed_for x r g spaces types allow range s found spaces_are types_are
                              listed)
                            (limit_of r.limit) hit
                            (subst (Among hit) (ap (λ z. z.results) (sym answer)) m);
                      few = rw (ap (λ z. z.results) (sym answer)) (
                          omega (
                            arith,
                            length-hits (limit_of r.limit) found.0,
                            limit_of-bounds r.limit,
                          ));
                      logged = record {
                        entry = entry;
                        coded = refl;
                        of_caller = ap (default "") granted'.caller;
                        memory =
                            ap (λ z. z.memory) end_world
                            ∙ ap (λ z. add_activity entry z.memory) unchanged;
                        disk =
                            ap (λ z. z.disk) end_world
                            ∙ ap (λ z. add_activity entry z.memory) unchanged;
                      };
                    })))))))
