-- ===== src/Policy/Grants/Kept.antt =====
-- What a call leaves of the state whether it returns or raises; `_authorize` leaves a revocation
-- (services/ameme-mcp-mock/ameme_mcp_mock/core.py).
use ameme.Policy.Grants.{expire_packs}
use ameme.Base.{
  string_eq, ℕ, ◌≤◌, ◌≡◌, refl, arith, String, Bool, true, false, Option, none, some, List, ◌==◌,
  ◌&&◌, not, leb, if◌then◌else◌, ok, err, ap, Bool-cases, inl, inr,
}
use ameme.Base.Sets.{is_subset}
use ameme.Base.Dict.{Dict, lookup, insert, lookup-insert}
use ameme.Policy.State.{Times, GrantStatus, active, revoked, expired, Grant, World}
use ameme.Policy.Calls.{Ended, Act, next, ◌>>=◌, ◌>>◌, give, refuse_if, change, read_time}
use ameme.Policy.Grants.{
  Ask, record_activity, deny, deny_if, expire_at, expire_as, end_grant, expire_if_needed,
  check_grant, authorize_found, grant_at, authorize, is_revoked, has_expired, is_member, is_exact,
  is_given, expire_packs,
}

-- The grant of an id is revoked, and at least `first` random ids were drawn.
pub record IsGone (id : String) (first : ℕ) (w : World) : Type 0 where
  pub grant : Grant
  pub stored : lookup id w.memory.grants ≡ some grant
  pub status : grant.status ≡ revoked
  pub drawn : first ≤ w.drawn

-- A call that returns or raises leaves what holds of the state.
abbrev pub Keeps : {A : Type 0} → (World → Type 0) → Act A → Type 0
Keeps P m = (w : World) → P w → P (m w).0

pub next-Keeps :
    {A B : Type 0} (P : World → Type 0) (e : Ended A) (k : A → Act B)
    → P e.0
    → ((a : A) → Keeps P (k a))
    → P (next e k).0
next-Keeps P (w, ok a) k h rest = rest a w h
next-Keeps P (w, err x) k h rest = h

pub refuse_if-Keeps :
    (P : World → Type 0) (b : Bool) (code message_key : String)
    → Keeps P (refuse_if b code message_key)
refuse_if-Keeps P true code message_key w h = h
refuse_if-Keeps P false code message_key w h = h

pub read_time-Keeps : (P : World → Type 0) (o : Option ℕ) → Keeps P (read_time o)
read_time-Keeps P none w h = h
read_time-Keeps P (some n) w h = h

module _ (t : Times) (now : ℕ) (id : String) (first : ℕ) where
  abbrev pub Gone : World → Type 0
  Gone = IsGone id first

  pub record_activity-Keeps :
      (caller purpose : String) (spaces types : List String) (code : String) (count : ℕ)
      → Keeps Gone (record_activity t now caller purpose spaces types code count)
  unfolding record_activity
  record_activity-Keeps caller purpose spaces types code count w h = record {
    grant = h.grant;
    stored = h.stored;
    status = h.status;
    drawn = omega (arith, h.drawn);
  }

  deny-Keeps :
      (A : Type 0) (ask : Ask) (spaces types : List String) (code message_key : String)
      → Keeps Gone (deny t now {A = A} ask spaces types code message_key)
  unfolding deny record_activity
  deny-Keeps A ask spaces types code message_key w h = record {
    grant = h.grant;
    stored = h.stored;
    status = h.status;
    drawn = omega (arith, h.drawn);
  }

  deny_if-Keeps :
      (b : Bool) (ask : Ask) (spaces types : List String) (code message_key : String)
      → Keeps Gone (deny_if t now b ask spaces types code message_key)
  unfolding deny record_activity
  deny_if-Keeps true ask spaces types code message_key w h =
      deny-Keeps (Unit {0}) ask spaces types code message_key w h
  deny_if-Keeps false ask spaces types code message_key w h = h

  deny_if_then :
      {B : Type 0} (b : Bool) (ask : Ask) (spaces types : List String) (code message_key : String)
      (k : Unit {0} → Act B) (w : World)
      → Gone w
      → ((u : World) → Gone u → Gone (k tt u).0)
      → Gone (next (deny_if t now b ask spaces types code message_key w) k).0
  unfolding deny record_activity
  deny_if_then true ask spaces types code message_key k w h rest =
      deny_if-Keeps true ask spaces types code message_key w h
  deny_if_then false ask spaces types code message_key k w h rest = rest w h

  check_grant-Keeps :
      (ask : Ask) (spaces types : List String) (autonomous : Bool) (g : Grant)
      → Keeps Gone (check_grant t now ask spaces types autonomous g)
  unfolding check_grant
  check_grant-Keeps ask spaces types autonomous g w h =
      deny_if_then (is_revoked g.status) ask spaces types "GRANT_REVOKED" "grant_revoked" _ w h
        (λ w h.
          deny_if_then (has_expired g.status) ask spaces types "GRANT_EXPIRED" "grant_expired" _ w h
            (λ w h.
              deny_if_then (not (is_member ask.purpose g.terms.purposes)) ask spaces types
                "PURPOSE_DENIED" "purpose_denied" _ w h
                (λ w h.
                  deny_if_then (not (is_subset spaces g.terms.spaces)) ask spaces types
                    "SPACE_DENIED" "space_denied" _ w h
                    (λ w h.
                      deny_if_then (not (is_subset types g.terms.data_types)) ask spaces types
                        "DATA_TYPE_DENIED" "data_type_denied" _ w h
                        (λ w h.
                          deny_if-Keeps (autonomous && not (is_exact ask spaces types g.terms)) ask
                            spaces types "CONSENT_REQUIRED" "autonomous_grant_not_exact" w h)))))

  -- Writing a revoked grant, or any grant at another id, takes no revocation back.
  pub insert_gone :
      (k : String) (g f : Grant) (d : Dict String Grant)
      → lookup id d ≡ some g
      → g.status ≡ revoked
      → ((k == id) ≡ true → f.status ≡ revoked)
      → (x : Grant) × (lookup id (insert k f d) ≡ some x) × (x.status ≡ revoked)
  insert_gone k g f d found status other = elim (Bool-cases (k == id)) [
    | inl same ↦ (f, rw (lookup-insert k id f d, same) refl, other same)
    | inr apart ↦ (g, rw (lookup-insert k id f d, apart) found, status)
  ]

  -- A grant that is written where it was found active is not the revoked one.
  expire_if_needed-Keeps :
      (k : String) (f : Grant) (w : World)
      → lookup k w.memory.grants ≡ some f
      → IsGone id first w
      → IsGone id first (expire_if_needed t now k f w).0
  unfolding expire_if_needed insert expire_packs
  expire_if_needed-Keeps k f w found h = by_status f.status refl
    where
      by_time :
          (b : Bool)
          → f.status ≡ active
          → IsGone id first
              ((if b
                  then change (end_grant k (record f { status = expired }))
                    >> give (record f { status = expired })
                  else give f)
                w).0
      by_time true live =
          let other : (k == id) ≡ true → expired ≡ revoked = λ same. absurd (
            cc (
              live,
              h.status,
              ap (λ j. lookup j w.memory.grants) ((string_eq.same_iff k id).0 same),
              found,
              h.stored,
            )) in
          let (grant, stored, status) =
            insert_gone k h.grant (record f { status = expired }) w.memory.grants h.stored h.status
              other in
          record { grant = grant; stored = stored; status = status; drawn = h.drawn }
      by_time false live = h

      by_reading :
          (o : Option ℕ)
          → f.status ≡ active
          → IsGone id first (next (read_time o w) (expire_at t now k f)).0
      by_reading none live = h
      by_reading (some at) live = by_time (leb at now) live

      by_status : (s : GrantStatus) → f.status ≡ s → IsGone id first (expire_as t now k f s w).0
      by_status active live = by_reading (t.parse f.terms.expires_at) live
      by_status revoked e = h
      by_status expired e = h

  pub authorize-Keeps :
      (ask : Ask) (spaces types : List String) (autonomous : Bool)
      → Keeps Gone (authorize t now ask spaces types autonomous)
  unfolding authorize lookup deny record_activity
  authorize-Keeps ask spaces types autonomous w h = by_id ask.grant_id
    where
      by_caller :
          (b : Bool) (k : String) (f : Grant)
          → lookup k w.memory.grants ≡ some f
          → Gone
              (next (deny_if t now b ask spaces types "AUTH_REQUIRED" "caller_mismatch" w) (λ _.
                expire_if_needed t now k f >>= λ g.
                check_grant t now ask spaces types autonomous g >> give g)).0
      by_caller true k f found =
          deny_if-Keeps true ask spaces types "AUTH_REQUIRED" "caller_mismatch" w h
      by_caller false k f found =
          next-Keeps Gone (expire_if_needed t now k f w) _ (expire_if_needed-Keeps k f w found h)
            (λ g. λ u j.
              next-Keeps Gone (check_grant t now ask spaces types autonomous g u) _
                (check_grant-Keeps ask spaces types autonomous g u j) (λ _ x i. i))

      by_grant :
          (k : String) (o : Option Grant)
          → lookup k w.memory.grants ≡ o
          → Gone
              (authorize_found t now ask spaces types autonomous
                (elim o [ none ↦ none | some g ↦ some (k, g) ])
                w).0
      by_grant k none found = deny-Keeps Grant ask spaces types "GRANT_MISSING" "grant_missing" w h
      by_grant k (some f) found =
          by_caller (not (is_given f.terms.caller_id ask.caller_id)) k f found

      by_id :
          (o : Option String)
          → Gone (authorize_found t now ask spaces types autonomous (grant_at o w.memory) w).0
      by_id none = deny-Keeps Grant ask spaces types "GRANT_MISSING" "grant_missing" w h
      by_id (some k) = by_grant k (lookup k w.memory.grants) refl
