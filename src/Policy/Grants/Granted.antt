-- ===== src/Policy/Grants/Granted.antt =====
-- The calls that are authorized, and what a denial leaves (`_authorize` and `_deny` of
-- services/ameme-mcp-mock/ameme_mcp_mock/core.py).
use ameme.Base.{
  string_eq, nat_eq, ℕ, ◌<◌, ◌≡◌, ◌≢◌, refl, arith, String, Bool, true, false, Option, none, some,
  List, [], ◌∷◌, ◌++◌, ◌&&◌, ◌==◌, &&-eq-true, not, leb, if◌then◌else◌, ok, sym, ap, ◌∙◌,
  not-eq-false,
}
use mathlib.Core.Path.{subst}
use ameme.Base.Dict.{lookup}
use ameme.Base.Sets.{contains, is_subset}
use ameme.Base.Members.{is_subset-contains, is_subset-same}
use ameme.Policy.State.{
  Times, Terms, GrantStatus, active, revoked, expired, Grant, Activity, Memory, World,
}
use ameme.Policy.Calls.{Act, next, ◌>>◌, give, change, read_time, on_act, returned}
use ameme.Policy.Grants.{
  Ask, is_given, is_member, is_revoked, has_expired, is_exact, same_set, deny, deny_if, expire_at,
  expire_as, end_grant, expire_if_needed, check_grant, grant_at, authorize_found, authorize,
  record_activity,
}

-- What holds of a grant under which a call is authorized.
pub record IsGranted (t : Times) (now : ℕ) (ask : Ask) (spaces types : List String)
    (autonomous : Bool) (m : Memory) (g : Grant) : Type 0 where
  pub id : String
  pub named : ask.grant_id ≡ some id
  pub stored : lookup id m.grants ≡ some g
  pub live : g.status ≡ active
  pub ends : ℕ
  pub readable : t.parse g.terms.expires_at ≡ some ends
  pub current : now < ends
  pub caller : ask.caller_id ≡ some g.terms.caller_id
  pub purpose : String
  pub asked_for : ask.purpose ≡ some purpose
  pub holds_purpose : contains purpose g.terms.purposes ≡ true
  pub holds_spaces : (s : String) → contains s spaces ≡ true → contains s g.terms.spaces ≡ true
  pub holds_types : (s : String) → contains s types ≡ true → contains s g.terms.data_types ≡ true
  pub exact_purpose : autonomous ≡ true → purpose ≡ "autonomous_memory"
  pub exact_purposes :
      autonomous ≡ true → (s : String) → contains s g.terms.purposes ≡ ("autonomous_memory" == s)
  pub exact_spaces :
      autonomous ≡ true → (s : String) → contains s g.terms.spaces ≡ contains s spaces
  pub exact_types :
      autonomous ≡ true → (s : String) → contains s g.terms.data_types ≡ contains s types

-- A text that is given is there.
pub is_given-some : (s : String) (o : Option String) → is_given s o ≡ true → o ≡ some s
is_given-some s none h = cc h
is_given-some s (some r) h = ap some ((string_eq.same_iff r s).0 h)

-- A purpose that is a member is given.
is_member-some :
    (o : Option String) (xs : List String)
    → is_member o xs ≡ true
    → (s : String) × (o ≡ some s) × (contains s xs ≡ true)
unfolding contains
is_member-some none xs h = absurd (cc h)
is_member-some (some s) xs h = (s, refl, h)

same_set-contains :
    (xs ys : List String) → same_set xs ys ≡ true → (s : String) → contains s xs ≡ contains s ys
unfolding same_set
same_set-contains xs ys h =
    let (to, from) = &&-eq-true (is_subset xs ys) (is_subset ys xs) h in
    is_subset-same xs ys to from

contains-one : (s t : String) → contains s (t ∷ []) ≡ (t == s)
unfolding contains
contains-one s t = ground arith

-- What an autonomous call and its grant are to have in common.
is_exact-parts :
    (ask : Ask) (spaces types : List String) (terms : Terms) (autonomous : Bool)
    → (autonomous && not (is_exact ask spaces types terms)) ≡ false
    → autonomous ≡ true
    → (ask.purpose ≡ some "autonomous_memory")
      × ((s : String) → contains s terms.purposes ≡ ("autonomous_memory" == s))
      × ((s : String) → contains s terms.spaces ≡ contains s spaces)
      × ((s : String) → contains s terms.data_types ≡ contains s types)
unfolding is_exact
is_exact-parts ask spaces types terms autonomous h k =
    let one = "autonomous_memory" ∷ [] in
    let given = is_given "autonomous_memory" ask.purpose in
    let whole : is_exact ask spaces types terms ≡ true =
      not-eq-false (is_exact ask spaces types terms)
        (sym (ap (λ a. a && not (is_exact ask spaces types terms)) k) ∙ h) in
    let (front, in_types) =
      &&-eq-true (given && same_set terms.purposes one && same_set terms.spaces spaces) _ whole in
    let (front, in_spaces) = &&-eq-true (given && same_set terms.purposes one) _ front in
    let (is_it, in_purposes) = &&-eq-true given _ front in
    (
      is_given-some "autonomous_memory" ask.purpose is_it,
      λ s. same_set-contains terms.purposes one in_purposes s ∙ contains-one s "autonomous_memory",
      same_set-contains terms.spaces spaces in_spaces,
      same_set-contains terms.data_types types in_types,
    )

only_active : (s : GrantStatus) → is_revoked s ≡ false → has_expired s ≡ false → s ≡ active
only_active active h k = refl
only_active revoked h k = cc h
only_active expired h k = cc k

module _ (t : Times) (now : ℕ) (ask : Ask) (spaces types : List String) where
  on_deny_if {κ} :
      {B : Type 0} {P : Type κ} (b : Bool) (code message_key : String) (k : Unit {0} → Act B)
      (w : World) {v : World} {r : B}
      → next (deny_if t now b ask spaces types code message_key w) k ≡ (v, ok r)
      → (b ≡ false → k tt w ≡ (v, ok r) → P)
      → P
  unfolding deny record_activity
  on_deny_if true code message_key k w h then_ = absurd (cc h)
  on_deny_if false code message_key k w h then_ = then_ refl h

  deny_if-passes :
      (b : Bool) (code message_key : String) (w v : World) {u : Unit {0}}
      → deny_if t now b ask spaces types code message_key w ≡ (v, ok u)
      → (b ≡ false) × (v ≡ w)
  unfolding deny record_activity
  deny_if-passes true code message_key w v h = cc h
  deny_if-passes false code message_key w v h = (refl, sym (ap (λ q. q.0) h))

  deny-refuses :
      {A : Type 0} (code message_key : String) (w v : World) (a : A)
      → deny t now ask spaces types code message_key w ≢ (v, ok a)
  unfolding deny record_activity
  deny-refuses code message_key w v a h = cc h

  -- What the guards let through, and that they change nothing then.
  check_grant-passes :
      (autonomous : Bool) (g : Grant) (w v : World) {u : Unit {0}}
      → check_grant t now ask spaces types autonomous g w ≡ (v, ok u)
      → (g.status ≡ active)
        × (is_member ask.purpose g.terms.purposes ≡ true)
        × (is_subset spaces g.terms.spaces ≡ true)
        × (is_subset types g.terms.data_types ≡ true)
        × ((autonomous && not (is_exact ask spaces types g.terms)) ≡ false)
        × (v ≡ w)
  unfolding check_grant
  check_grant-passes autonomous g w v h =
      on_deny_if (is_revoked g.status) "GRANT_REVOKED" "grant_revoked" _ w h (λ a h.
        on_deny_if (has_expired g.status) "GRANT_EXPIRED" "grant_expired" _ w h (λ b h.
          on_deny_if (not (is_member ask.purpose g.terms.purposes)) "PURPOSE_DENIED"
            "purpose_denied" _ w h
            (λ c h.
              on_deny_if (not (is_subset spaces g.terms.spaces)) "SPACE_DENIED" "space_denied" _ w h
                (λ d h.
                  on_deny_if (not (is_subset types g.terms.data_types)) "DATA_TYPE_DENIED"
                    "data_type_denied" _ w h
                    (λ e h.
                      let (f, same) =
                        deny_if-passes (autonomous && not (is_exact ask spaces types g.terms))
                          "CONSENT_REQUIRED" "autonomous_grant_not_exact" w v h in
                      (
                        only_active g.status a b,
                        not-eq-false (is_member ask.purpose g.terms.purposes) c,
                        not-eq-false (is_subset spaces g.terms.spaces) d,
                        not-eq-false (is_subset types g.terms.data_types) e,
                        f,
                        same,
                      ))))))

-- What `_deny` leaves: one activity with the code and no objects, in memory and in the file.
pub record IsDenied (w v : World) (code : String) : Type 0 where
  pub entry : Activity
  pub coded : entry.result_code ≡ code
  pub logged : v.memory.activity ≡ w.memory.activity ++ entry ∷ []
  pub grants : v.memory.grants ≡ w.memory.grants
  pub saved : v.disk ≡ v.memory

-- A grant that is still active after the check of its time was so before, and nothing was changed.
expire_if_needed-active :
    (t : Times) (now : ℕ) (id : String) (f g : Grant) (w v : World)
    → expire_if_needed t now id f w ≡ (v, ok g)
    → g.status ≡ active
    → (v ≡ w) × (f ≡ g) × ((at : ℕ) × (t.parse g.terms.expires_at ≡ some at) × (now < at))
unfolding expire_if_needed
expire_if_needed-active t now id f g w v h live = by_status f.status refl h
  where
    by_time :
        (at : ℕ) (b : Bool)
        → leb at now ≡ b
        → t.parse f.terms.expires_at ≡ some at
        → (if b
              then change (end_grant id (record f { status = expired }))
                >> give (record f { status = expired })
              else give f)
            w
          ≡ (v, ok g)
        → (v ≡ w) × (f ≡ g) × ((at : ℕ) × (t.parse g.terms.expires_at ≡ some at) × (now < at))
    by_time at true late parsed h = absurd (cc (live, ap (λ x. x.status) (returned h).1))
    by_time at false early parsed h =
        let (unchanged, same) = returned h in
        (
          unchanged,
          same,
          (at, ap (λ x. t.parse x.terms.expires_at) (sym same) ∙ parsed, ground (arith, early)),
        )

    by_reading :
        (o : Option ℕ)
        → t.parse f.terms.expires_at ≡ o
        → next (read_time o w) (expire_at t now id f) ≡ (v, ok g)
        → (v ≡ w) × (f ≡ g) × ((at : ℕ) × (t.parse g.terms.expires_at ≡ some at) × (now < at))
    by_reading none parsed h = cc h
    by_reading (some at) parsed h = by_time at (leb at now) refl parsed h

    by_status :
        (s : GrantStatus)
        → f.status ≡ s
        → expire_as t now id f s w ≡ (v, ok g)
        → (v ≡ w) × (f ≡ g) × ((at : ℕ) × (t.parse g.terms.expires_at ≡ some at) × (now < at))
    by_status active e h = by_reading (t.parse f.terms.expires_at) refl h
    by_status revoked e h = absurd (cc (live, e, ap (λ x. x.status) (returned h).1))
    by_status expired e h = absurd (cc (live, e, ap (λ x. x.status) (returned h).1))

-- A call is authorized only under a grant that is stored under the id it names, that is active and whose time of
-- expiry is readable and to come, that is of its caller, and that holds its purpose, all of its spaces and all of its
-- types of memory. An autonomous call has the purpose "autonomous_memory", its grant has that purpose and no other, and
-- the spaces and the types of the grant are exactly its own. Nothing is changed then.
pub authorize-IsGranted :
    (t : Times) (now : ℕ) (ask : Ask) (spaces types : List String) (autonomous : Bool) (w v : World)
    (g : Grant)
    → authorize t now ask spaces types autonomous w ≡ (v, ok g)
    → IsGranted t now ask spaces types autonomous w.memory g × (v ≡ w)
unfolding authorize
authorize-IsGranted t now ask spaces types autonomous w v g h = by_id ask.grant_id refl h
  where
    by_grant :
        (id : String) (o : Option Grant)
        → ask.grant_id ≡ some id
        → lookup id w.memory.grants ≡ o
        → authorize_found t now ask spaces types autonomous
            (elim o [ none ↦ none | some g ↦ some (id, g) ])
            w
          ≡ (v, ok g)
        → IsGranted t now ask spaces types autonomous w.memory g × (v ≡ w)
    by_grant id none named found h =
        absurd (deny-refuses t now ask spaces types "GRANT_MISSING" "grant_missing" w v g h)
    by_grant id (some f) named found h =
        on_deny_if t now ask spaces types (not (is_given f.terms.caller_id ask.caller_id))
          "AUTH_REQUIRED" "caller_mismatch" _ w h
          (λ caller h. on_act (expire_if_needed t now id f w) _ h (λ u k expiry h.
            on_act (check_grant t now ask spaces types autonomous k u) _ h (λ x _ checked h.
              let (live, purpose, in_spaces, in_types, exact, same) =
                check_grant-passes t now ask spaces types autonomous k u x checked in
              let (unchanged, kept, (ends, readable, current)) =
                expire_if_needed-active t now id f k w u expiry live in
              let (end_world, g_is) = returned h in
              let (why, asked, holds) = is_member-some ask.purpose k.terms.purposes purpose in
              let parts = is_exact-parts ask spaces types k.terms autonomous exact in
              (
                subst (IsGranted t now ask spaces types autonomous w.memory) g_is (record {
                  id = id;
                  named = named;
                  stored = found ∙ ap some kept;
                  live = live;
                  ends = ends;
                  readable = readable;
                  current = current;
                  caller = is_given-some k.terms.caller_id ask.caller_id (
                      ap (λ x. is_given x.terms.caller_id ask.caller_id) (sym kept)
                      ∙ not-eq-false (is_given f.terms.caller_id ask.caller_id) caller);
                  purpose = why;
                  asked_for = asked;
                  holds_purpose = holds;
                  holds_spaces = λ s. is_subset-contains s spaces k.terms.spaces in_spaces;
                  holds_types = λ s. is_subset-contains s types k.terms.data_types in_types;
                  exact_purpose = λ a. cc (asked, (parts a).0);
                  exact_purposes = λ a. (parts a).1;
                  exact_spaces = λ a. (parts a).2;
                  exact_types = λ a. (parts a).3;
                }),
                end_world ∙ same ∙ unchanged,
              ))))

    by_id :
        (o : Option String)
        → ask.grant_id ≡ o
        → authorize_found t now ask spaces types autonomous (grant_at o w.memory) w ≡ (v, ok g)
        → IsGranted t now ask spaces types autonomous w.memory g × (v ≡ w)
    by_id none named h =
        absurd (deny-refuses t now ask spaces types "GRANT_MISSING" "grant_missing" w v g h)
    by_id (some id) named h = by_grant id (lookup id w.memory.grants) named refl h
