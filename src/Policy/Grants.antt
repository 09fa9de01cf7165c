-- ===== src/Policy/Grants.antt =====
-- `_authorize` and what it calls: `_expire_if_needed`, `_deny`, `_activity`, and `_bounded_values`, `_event_scope`,
-- `_high_risk_gate`, `_evidence`, `_requested_time_range`
-- (services/ameme-mcp-mock/ameme_mcp_mock/core.py).
pub mod Granted
pub mod Kept
use ameme.Base.{
  string_eq, nat_eq, ℕ, String, Bool, true, false, Option, none, some, List, [], ◌∷◌, ◌++◌, ◌==◌,
  ◌&&◌, ◌||◌, not, ltb, leb, length, is_empty, if◌then◌else◌, Outcome, ok, err,
}
use ameme.Base.Dict.{Dict, lookup, insert, default}
use ameme.Base.Sets.{contains, add_all, is_subset}
use ameme.Base.Sorting.{sort_texts}
use ameme.Store.State.{Scope}
use ameme.Policy.State.{
  Refusal, mock, value_error, Times, Terms, GrantStatus, active, revoked, expired, Grant,
  ContextPack, Activity, Memory, World,
}
use ameme.Policy.Calls.{
  Act, ◌>>=◌, ◌>>◌, give, refuse, refuse_if, read, change, save, draw, read_time,
}

-- `set(xs)`
unfoldable pub set_of : List String → List String
unfolding add_all
set_of xs = add_all xs []

-- What every tool is asked with; a key that is missing is `none`.
pub record Ask : Type 0 where
  pub caller_id : Option String
  pub grant_id : Option String
  pub purpose : Option String

abbrev pub bucket : ℕ → String
bucket n = if n == 0 then "0" else if n == 1 then "1" else if leb n 10 then "2-10" else "11+"

abbrev pub add_activity : Activity → Memory → Memory
add_activity a m = record m { activity = m.activity ++ a ∷ [] }

-- `context_pack["state"] = "expired"` for the packs of a grant
unfoldable pub expire_packs : String → Dict String ContextPack → Dict String ContextPack
expire_packs id [] = []
expire_packs id ((k, v) ∷ rest) =
    (k, if v.grant_id == id then record v { state = "expired" } else v) ∷ expire_packs id rest

-- A grant written back, with its packs expired
abbrev pub end_grant : String → Grant → Memory → Memory
unfolding insert expire_packs
end_grant id g m = record m {
  grants = insert id g m.grants;
  context_packs = expire_packs g.grant_id m.context_packs;
}

-- `argument == text`
abbrev pub is_given : String → Option String → Bool
is_given s none = false
is_given s (some t) = t == s

abbrev pub is_member : Option String → List String → Bool
unfolding contains
is_member none xs = false
is_member (some s) xs = contains s xs

abbrev pub is_revoked : GrantStatus → Bool
is_revoked revoked = true
is_revoked _ = false

abbrev pub has_expired : GrantStatus → Bool
has_expired expired = true
has_expired _ = false

abbrev pub same_set : List String → List String → Bool
unfolding is_subset
same_set xs ys = is_subset xs ys && is_subset ys xs

-- `exact` of an autonomous call
unfoldable pub is_exact : Ask → List String → List String → Terms → Bool
unfolding is_subset
is_exact ask spaces types terms =
    is_given "autonomous_memory" ask.purpose
    && same_set terms.purposes ("autonomous_memory" ∷ [])
    && same_set terms.spaces spaces
    && same_set terms.data_types types

-- `self.store.state["grants"].get(...)`
abbrev pub grant_at : Option String → Memory → Option (String × Grant)
unfolding lookup
grant_at none m = none
grant_at (some id) m = elim (lookup id m.grants) [ none ↦ none | some g ↦ some (id, g) ]

module _ (t : Times) (now : ℕ) where
  -- `_activity`
  unfoldable pub record_activity :
      String → String → List String → List String → String → ℕ → Act (Unit {0})
  unfolding set_of sort_texts
  record_activity caller purpose spaces types code count = do
    id ← draw t "act"
    change (
        add_activity (record {
          activity_id = id;
          caller_id = caller;
          purpose = purpose;
          spaces = sort_texts (set_of spaces);
          data_types = sort_texts (set_of types);
          result_code = code;
          object_count_bucket = bucket count;
          occurred_at = t.iso now;
        }))

  -- `_deny`
  unfoldable pub deny : {A : Type 0} → Ask → List String → List String → String → String → Act A
  unfolding record_activity
  deny ask spaces types code message_key =
      record_activity (default "caller_unknown" ask.caller_id) (default "unknown" ask.purpose)
        spaces types code 0
      >> (save >> refuse code message_key)

  abbrev pub deny_if : Bool → Ask → List String → List String → String → String → Act (Unit {0})
  unfolding deny
  deny_if true ask spaces types code message_key = deny ask spaces types code message_key
  deny_if false ask spaces types code message_key = give tt

  -- From the time of expiry of an active grant on
  abbrev pub expire_at : String → Grant → ℕ → Act Grant
  unfolding insert expire_packs
  expire_at id g at =
      if leb at now
      then change (end_grant id (record g { status = expired }))
        >> give (record g { status = expired })
      else give g

  abbrev pub expire_as : String → Grant → GrantStatus → Act Grant
  unfolding insert expire_packs
  expire_as id g active = read_time (t.parse g.terms.expires_at) >>= expire_at id g
  expire_as id g _ = give g

  -- `_expire_if_needed` of the grant at a key; the grant as it is then is returned.
  unfoldable pub expire_if_needed : String → Grant → Act Grant
  unfolding insert expire_packs
  expire_if_needed id g = expire_as id g g.status

  -- The guards of `_authorize` on a grant that is the caller's
  unfoldable pub check_grant : Ask → List String → List String → Bool → Grant → Act (Unit {0})
  unfolding deny contains is_subset is_exact
  check_grant ask spaces types autonomous g = do
    deny_if (is_revoked g.status) ask spaces types "GRANT_REVOKED" "grant_revoked"
    deny_if (has_expired g.status) ask spaces types "GRANT_EXPIRED" "grant_expired"
    deny_if (not (is_member ask.purpose g.terms.purposes)) ask spaces types "PURPOSE_DENIED"
        "purpose_denied"
    deny_if (not (is_subset spaces g.terms.spaces)) ask spaces types "SPACE_DENIED" "space_denied"
    deny_if (not (is_subset types g.terms.data_types)) ask spaces types "DATA_TYPE_DENIED"
        "data_type_denied"
    deny_if (autonomous && not (is_exact ask spaces types g.terms)) ask spaces types
        "CONSENT_REQUIRED" "autonomous_grant_not_exact"

  abbrev pub authorize_found :
      Ask → List String → List String → Bool → Option (String × Grant) → Act Grant
  unfolding deny expire_if_needed check_grant
  authorize_found ask spaces types autonomous none =
      deny ask spaces types "GRANT_MISSING" "grant_missing"
  authorize_found ask spaces types autonomous (some (id, found)) = do
    deny_if (not (is_given found.terms.caller_id ask.caller_id)) ask spaces types "AUTH_REQUIRED"
        "caller_mismatch"
    g ← expire_if_needed id found
    check_grant ask spaces types autonomous g
    give g

  -- `_authorize`
  unfoldable pub authorize : Ask → List String → List String → Bool → Act Grant
  unfolding deny expire_if_needed check_grant lookup
  authorize ask spaces types autonomous =
      read (grant_at ask.grant_id) >>= authorize_found ask spaces types autonomous

-- `_bounded_values`; the values are texts.
unfoldable pub bounded_values : List String → Act (List String)
unfolding set_of
bounded_values xs = do
  refuse_if (is_empty xs || ltb 16 (length xs)) "INVALID_ARGUMENT" "scope_must_be_nonempty_list"
  refuse_if (not (length (set_of xs) == length xs)) "INVALID_ARGUMENT" "scope_values_must_be_unique"
  give xs

-- `_event_scope`, of the caller and the purpose that were authorized
unfoldable pub event_scope : Grant → String → String → List String → List String → Scope
unfolding set_of sort_texts
event_scope g caller purpose spaces types = record {
  owner_id = g.owner_id;
  caller_id = caller;
  grant_id = g.grant_id;
  purpose = purpose;
  spaces = sort_texts (set_of spaces);
  memory_types = sort_texts (set_of types);
}

-- `_high_risk_gate`: of the confirmation, whether it says that it is confirmed; the texts are in lower case.
unfoldable pub high_risk_gate : String → String → Bool → Bool → Act Bool
high_risk_gate sensitivity data_class confirmed autonomous =
    if not (sensitivity == "restricted" || data_class == "raw")
    then give false
    else refuse_if autonomous "POLICY_BLOCKED" "autonomous_raw_or_restricted_blocked"
      >> (refuse_if (not confirmed) "CONSENT_REQUIRED" "raw_or_restricted_needs_confirmation"
          >> give true)

-- `_required` of one text, and `not value.get(...)`
abbrev pub is_missing : Option String → Bool
is_missing none = true
is_missing (some s) = s == ""

abbrev pub is_before : Option ℕ → ℕ → Bool
is_before none start = false
is_before (some n) start = ltb n start

-- `_parse(value["end"]) if value.get("end") else None`
abbrev pub read_end : Times → Bool → Option String → Act (Option ℕ)
read_end t true text = give none
read_end t false text = do n ← read_time (t.parse (default "" text)); give (some n)

-- `_requested_time_range` of a start and an end; a time that is read is not false.
unfoldable pub requested_time_range :
    Times → Option (Option String × Option String) → Act (Option ℕ × Option ℕ)
requested_time_range t none = give (none, none)
requested_time_range t (some (start, end_)) = do
  refuse_if (is_missing start) "INVALID_ARGUMENT" "time_range_requires_start"
  from ← read_time (t.parse (default "" start))
  to ← read_end t (is_missing end_) end_
  refuse_if (is_before to from) "INVALID_ARGUMENT" "time_range_end_before_start"
  give (some from, to)

-- `_evidence`
unfoldable pub evidence : String → Act (String × String)
evidence kind =
    if kind == "user_statement"
    then give ("user_asserted", "user_asserted")
    else if kind == "inference"
    then give ("inferred", "low_confidence_candidate")
    else if kind == "direct_evidence"
    then give ("observed", "confirmed")
    else refuse "INVALID_ARGUMENT" "unknown_evidence_kind"
