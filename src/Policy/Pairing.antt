-- ===== src/Policy/Pairing.antt =====
-- `pair`: `_begin_pair`, `_approve_pair` and `_revoke_pair`
-- (services/ameme-mcp-mock/ameme_mcp_mock/core.py).
pub mod Approved
pub mod Kept
pub mod Final
use ameme.Base.{
  string_eq, ℕ, ◌+◌, String, Bool, true, false, Option, none, some, List, [], ◌∷◌, ◌++◌, ◌==◌, ◌&&◌,
  ◌||◌, not, ltb, leb, is_empty, any, if◌then◌else◌, Outcome, ok, err,
}
use ameme.Base.Dict.{Dict, lookup, insert, default, is_some}
use ameme.Base.Text.{has_part}
use ameme.Json.{Json, Items, str, arr, obj, nil, cons, field, end, canonical_json}
use ameme.Platform.{Platform}
use ameme.Node.Ledger.{texts}
use ameme.Policy.State.{
  Times, Terms, ChallengeStatus, pending, used, lapsed, Challenge, GrantStatus, active, revoked,
  expired, Grant, Memory, World,
}
use ameme.Policy.Calls.{
  Act, ◌>>=◌, ◌>>◌, give, refuse, refuse_if, read, change, save, draw, read_time,
}
use ameme.Policy.Grants.{
  record_activity, is_missing, bounded_values, is_given, is_revoked, end_grant, expire_packs,
}

-- The arguments of `_begin_pair`; a list that is missing is empty.
pub record Offer : Type 0 where
  pub caller_id : Option String
  pub purposes : List String
  pub spaces : List String
  pub data_types : List String
  pub not_before : Option String
  pub expires_at : Option String

pub record Confirmation : Type 0 where
  pub confirmed : Bool
  pub terms_digest : Option String

-- The arguments of `_approve_pair` and `_revoke_pair`: the id of the challenge or of the grant
pub record Decision : Type 0 where
  pub caller_id : Option String
  pub id : Option String
  pub confirmation : Option Confirmation

-- `"*" in value`
unfoldable pub has_wildcard : List String → Bool
unfolding has_part
has_wildcard [] = false
has_wildcard (x ∷ xs) = has_part "*" x || has_wildcard xs

-- `_digest` of the terms
unfoldable pub terms_digest_of : Platform → Terms → String
unfolding canonical_json
terms_digest_of p terms = p.sha256_hex (
    canonical_json (
      obj (
        field "caller_id" (str terms.caller_id) (
          field "purposes" (arr (texts terms.purposes)) (
            field "spaces" (arr (texts terms.spaces)) (
              field "data_types" (arr (texts terms.data_types)) (
                field "not_before" (str terms.not_before)
                  (field "expires_at" (str terms.expires_at) end))))))))

abbrev pub put_challenge : String → Challenge → Memory → Memory
unfolding insert
put_challenge id c m = record m { challenges = insert id c m.challenges }

abbrev pub put_grant : String → Grant → Memory → Memory
unfolding insert
put_grant id g m = record m { grants = insert id g m.grants }

-- `confirmation.get("confirmed") is not True`
abbrev pub is_confirmed : Option Confirmation → Bool
is_confirmed none = false
is_confirmed (some c) = c.confirmed

abbrev pub confirms : String → Option Confirmation → Bool
confirms digest none = false
confirms digest (some c) = is_given digest c.terms_digest

abbrev pub is_pending : ChallengeStatus → Bool
is_pending pending = true
is_pending _ = false

-- A record that is there, else a refusal.
abbrev pub present : {A : Type 0} → Option A → String → String → Act A
present none code message_key = refuse code message_key
present (some a) code message_key = give a

-- What is at the key that the arguments name; they name one by then.
abbrev pub at_id : {V : Type 0} → Option String → Dict String V → Option V
unfolding lookup
at_id none d = none
at_id (some id) d = lookup id d

module _ (p : Platform) (t : Times) (now : ℕ) where
  -- `_begin_pair`
  unfoldable pub begin_pair : Offer → Act Challenge
  unfolding bounded_values has_wildcard terms_digest_of record_activity insert
  begin_pair o = do
    refuse_if
        (is_missing o.caller_id
          || is_empty o.purposes
          || is_empty o.spaces
          || is_empty o.data_types
          || is_missing o.expires_at)
        "INVALID_ARGUMENT" "missing_required_fields"
    purposes ← bounded_values o.purposes
    spaces ← bounded_values o.spaces
    types ← bounded_values o.data_types
    refuse_if (has_wildcard purposes || has_wildcard spaces || has_wildcard types) "SCOPE_DENIED"
        "wildcards_are_not_grants"
    let terms : Terms = record {
      caller_id = default "" o.caller_id;
      purposes = purposes;
      spaces = spaces;
      data_types = types;
      not_before = default (t.iso now) o.not_before;
      expires_at = default "" o.expires_at;
    }
    starts ← read_time (t.parse terms.not_before)
    ends ← read_time (t.parse terms.expires_at)
    refuse_if (leb ends now || leb ends starts) "GRANT_EXPIRED" "grant_expiry_must_be_future"
    refuse_if (ltb (starts + 2592000000000) ends) "CONSENT_REQUIRED"
        "grant_duration_exceeds_mock_default"
    id ← draw t "pair"
    let challenge : Challenge = record {
      challenge_id = id;
      terms = terms;
      terms_digest = terms_digest_of p terms;
      status = pending;
      created_at = t.iso now;
      expires_at = t.iso (now + 300000000);
      grant_id = none;
    }
    change (put_challenge id challenge)
    save
    record_activity t now terms.caller_id "pair" spaces types "PAIRING_PENDING" 0
    give challenge

module _ (t : Times) (now : ℕ) where
  -- A challenge that is not approved in time
  abbrev pub lapse_if : Bool → String → Challenge → Act (Unit {0})
  unfolding insert
  lapse_if true id c =
      change (put_challenge id (record c { status = lapsed }))
      >> (save >> refuse "GRANT_EXPIRED" "pairing_challenge_expired")
  lapse_if false id c = give tt

  -- The grant that a challenge is turned into, and the challenge then
  unfoldable pub grant_of : String → Challenge → Grant
  grant_of id c = record {
    grant_id = id;
    owner_id = "user_synthetic";
    terms = c.terms;
    status = active;
    created_at = t.iso now;
    revoked_at = none;
  }

  abbrev pub spent : String → Challenge → Challenge
  spent id c = record c { status = used; grant_id = some id }

  -- `_approve_pair`
  unfoldable pub approve_pair : Decision → Act Grant
  unfolding lookup insert record_activity grant_of
  approve_pair d = do
    refuse_if (is_missing d.caller_id || is_missing d.id || not (is_some d.confirmation))
        "INVALID_ARGUMENT" "missing_required_fields"
    found ← read (λ m. at_id d.id m.challenges)
    c ← present found "AUTH_REQUIRED" "pairing_challenge_unknown"
    refuse_if (not (is_pending c.status)) "PAIRING_REPLAY" "pairing_challenge_already_used"
    refuse_if (not (is_given c.terms.caller_id d.caller_id)) "AUTH_REQUIRED"
        "pairing_caller_mismatch"
    ends ← read_time (t.parse c.expires_at)
    lapse_if (leb ends now) (default "" d.id) c
    refuse_if (not (is_confirmed d.confirmation)) "CONSENT_REQUIRED"
        "pairing_needs_explicit_confirmation"
    refuse_if (not (confirms c.terms_digest d.confirmation)) "SCOPE_DENIED"
        "confirmed_terms_do_not_match"
    id ← draw t "grt"
    change (put_grant id (grant_of id c))
    change (put_challenge (default "" d.id) (spent id c))
    save
    record_activity t now c.terms.caller_id "pair" c.terms.spaces c.terms.data_types "OK" 0
    give (grant_of id c)

  -- The rest of `_revoke_pair`, on a grant that is the caller's; whether it is a replay is returned.
  abbrev pub revoke_grant : String → Grant → Act Bool
  unfolding insert expire_packs record_activity
  revoke_grant id g =
      if is_revoked g.status
      then give true
      else change (end_grant id (record g { status = revoked; revoked_at = some (t.iso now) }))
        >> (save
            >> (record_activity t now g.terms.caller_id "revoke" g.terms.spaces g.terms.data_types
                  "GRANT_REVOKED" 0
                >> give false))

  -- `_revoke_pair`
  unfoldable pub revoke_pair : Decision → Act Bool
  unfolding lookup insert expire_packs record_activity
  revoke_pair d = do
    refuse_if (is_missing d.caller_id || is_missing d.id || not (is_some d.confirmation))
        "INVALID_ARGUMENT" "missing_required_fields"
    refuse_if (not (is_confirmed d.confirmation)) "CONSENT_REQUIRED"
        "revocation_needs_explicit_confirmation"
    found ← read (λ m. at_id d.id m.grants)
    g ← present found "AUTH_REQUIRED" "grant_not_visible"
    refuse_if (not (is_given g.terms.caller_id d.caller_id)) "AUTH_REQUIRED" "grant_not_visible"
    revoke_grant (default "" d.id) g
