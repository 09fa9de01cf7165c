-- ===== src/Policy/Pairing/Kept.antt =====
-- The calls of pairing leave a revocation
-- (`_begin_pair`, `_approve_pair` and `_revoke_pair` of services/ameme-mcp-mock/ameme_mcp_mock/core.py).
use ameme.Base.{
  string_eq, nat_eq, ℕ, ◌+◌, ◌≤◌, ◌≢◌, refl, arith, String, ◌+s◌, Bool, true, false, Option, none,
  some, List, ◌==◌, ◌||◌, not, leb, is_empty, ltb, length, if◌then◌else◌,
}
use ameme.Base.Dict.{default, is_some}
use ameme.Platform.{Platform}
use ameme.Policy.State.{Times, Challenge, revoked, Grant, World}
use ameme.Policy.Calls.{Act, next, ◌>>◌, give, refuse_if, change, save, read_time}
use ameme.Policy.Grants.{
  is_missing, record_activity, end_grant, bounded_values, is_revoked, is_given, set_of,
}
use ameme.Policy.Grants.Kept.{IsGone, Keeps, next-Keeps, read_time-Keeps, insert_gone}
use ameme.Policy.Pairing.{
  Offer, Decision, begin_pair, approve_pair, revoke_pair, revoke_grant, grant_of, present, at_id,
  lapse_if, has_wildcard, is_pending, is_confirmed, confirms,
}

present-Keeps :
    {A : Type 0} (P : World → Type 0) (o : Option A) (code message_key : String)
    → Keeps P (present o code message_key)
present-Keeps P none code message_key w h = h
present-Keeps P (some a) code message_key w h = h

-- What holds after a guard holds after the call.
pub refuse_if_then :
    {B : Type 0} (P : World → Type 0) (b : Bool) (code message_key : String) (k : Unit {0} → Act B)
    (w : World)
    → P w
    → ((u : World) → P u → P (k tt u).0)
    → P (next (refuse_if b code message_key w) k).0
refuse_if_then P true code message_key k w h rest = h
refuse_if_then P false code message_key k w h rest = rest w h

module _ (p : Platform) (t : Times) (now : ℕ) (id : String) (first : ℕ) where
  pub bounded_values-Keeps : (xs : List String) → Keeps (IsGone id first) (bounded_values xs)
  unfolding bounded_values
  bounded_values-Keeps xs w h =
      refuse_if_then (IsGone id first) (is_empty xs || ltb 16 (length xs)) "INVALID_ARGUMENT"
        "scope_must_be_nonempty_list" _ w h
        (λ w h.
          refuse_if_then (IsGone id first) (not (length (set_of xs) == length xs))
            "INVALID_ARGUMENT" "scope_values_must_be_unique" (λ _. give xs) w h (λ w h. h))

  pub begin_pair-Keeps : (o : Offer) → Keeps (IsGone id first) (begin_pair p t now o)
  unfolding begin_pair record_activity
  begin_pair-Keeps o w h =
      refuse_if_then (IsGone id first)
        (is_missing o.caller_id
          || is_empty o.purposes
          || is_empty o.spaces
          || is_empty o.data_types
          || is_missing o.expires_at)
        "INVALID_ARGUMENT" "missing_required_fields" _ w h
        (λ w h.
          next-Keeps (IsGone id first) (bounded_values o.purposes w) _
            (bounded_values-Keeps o.purposes w h)
            (λ purposes w h.
              next-Keeps (IsGone id first) (bounded_values o.spaces w) _
                (bounded_values-Keeps o.spaces w h)
                (λ spaces w h.
                  next-Keeps (IsGone id first) (bounded_values o.data_types w) _
                    (bounded_values-Keeps o.data_types w h)
                    (λ types w h.
                      refuse_if_then (IsGone id first)
                        (has_wildcard purposes || has_wildcard spaces || has_wildcard types)
                        "SCOPE_DENIED" "wildcards_are_not_grants" _ w h
                        (λ w h.
                          next-Keeps (IsGone id first)
                            (read_time (t.parse (default (t.iso now) o.not_before)) w) _
                            (read_time-Keeps (IsGone id first) _ w h)
                            (λ starts w h.
                              next-Keeps (IsGone id first)
                                (read_time (t.parse (default "" o.expires_at)) w) _
                                (read_time-Keeps (IsGone id first) _ w h)
                                (λ ends w h.
                                  refuse_if_then (IsGone id first) (leb ends now || leb ends starts)
                                    "GRANT_EXPIRED" "grant_expiry_must_be_future" _ w h
                                    (λ w h.
                                      refuse_if_then (IsGone id first)
                                        (ltb (starts + 2592000000000) ends) "CONSENT_REQUIRED"
                                        "grant_duration_exceeds_mock_default" _ w h
                                        (λ w h. record {
                                          grant = h.grant;
                                          stored = h.stored;
                                          status = h.status;
                                          drawn = omega (arith, h.drawn);
                                        })))))))))

  lapse_if_then :
      {B : Type 0} (b : Bool) (k : String) (c : Challenge) (rest : Unit {0} → Act B) (w : World)
      → IsGone id first w
      → ((u : World) → IsGone id first u → IsGone id first (rest tt u).0)
      → IsGone id first (next (lapse_if t now b k c w) rest).0
  unfolding lapse_if
  lapse_if_then true k c rest w h then_ = record {
    grant = h.grant;
    stored = h.stored;
    status = h.status;
    drawn = h.drawn;
  }
  lapse_if_then false k c rest w h then_ = then_ w h

  -- A grant that is approved later has another id.
  pub approve_pair-Keeps :
      (d : Decision)
      → ((n : ℕ) → first ≤ n → ("grt" +s "_" +s t.uuid n) ≢ id)
      → Keeps (IsGone id first) (approve_pair t now d)
  unfolding approve_pair record_activity
  approve_pair-Keeps d fresh w h =
      refuse_if_then (IsGone id first)
        (is_missing d.caller_id || is_missing d.id || not (is_some d.confirmation))
        "INVALID_ARGUMENT" "missing_required_fields" _ w h
        (λ w h.
          next-Keeps (IsGone id first)
            (present (at_id d.id w.memory.challenges) "AUTH_REQUIRED" "pairing_challenge_unknown" w)
            _ (present-Keeps (IsGone id first) _ _ _ w h)
            (λ c w h.
              refuse_if_then (IsGone id first) (not (is_pending c.status)) "PAIRING_REPLAY"
                "pairing_challenge_already_used" _ w h
                (λ w h.
                  refuse_if_then (IsGone id first) (not (is_given c.terms.caller_id d.caller_id))
                    "AUTH_REQUIRED" "pairing_caller_mismatch" _ w h
                    (λ w h.
                      next-Keeps (IsGone id first) (read_time (t.parse c.expires_at) w) _
                        (read_time-Keeps (IsGone id first) (t.parse c.expires_at) w h)
                        (λ ends w h. lapse_if_then (leb ends now) (default "" d.id) c _ w h (λ w h.
                          refuse_if_then (IsGone id first) (not (is_confirmed d.confirmation))
                            "CONSENT_REQUIRED" "pairing_needs_explicit_confirmation" _ w h
                            (λ w h.
                              refuse_if_then (IsGone id first)
                                (not (confirms c.terms_digest d.confirmation)) "SCOPE_DENIED"
                                "confirmed_terms_do_not_match" _ w h
                                (λ w h.
                                  let k = "grt" +s "_" +s t.uuid w.drawn in
                                  let (grant, stored, status) =
                                    insert_gone t now id first k h.grant (grant_of t now k c)
                                      w.memory.grants h.stored h.status
                                      (λ same. absurd (
                                        fresh w.drawn h.drawn
                                          ((string_eq.same_iff k id).0 same))) in
                                  record {
                                    grant = grant;
                                    stored = stored;
                                    status = status;
                                    drawn = omega (arith, h.drawn);
                                  }))))))))

  revoke_grant-Keeps : (k : String) (g : Grant) → Keeps (IsGone id first) (revoke_grant t now k g)
  unfolding revoke_grant record_activity
  revoke_grant-Keeps k g w h = by_status (is_revoked g.status)
    where
      by_status :
          (b : Bool)
          → IsGone id first
              ((if b
                  then give true
                  else change
                      (end_grant k (record g { status = revoked; revoked_at = some (t.iso now) }))
                    >> (save
                        >> (record_activity t now g.terms.caller_id "revoke" g.terms.spaces
                              g.terms.data_types "GRANT_REVOKED" 0
                            >> give false)))
                w).0
      by_status true = h
      by_status false =
          let (grant, stored, status) =
            insert_gone t now id first k h.grant
              (record g { status = revoked; revoked_at = some (t.iso now) }) w.memory.grants
              h.stored h.status (λ _. refl) in
          record { grant = grant; stored = stored; status = status; drawn = omega (arith, h.drawn) }

  pub revoke_pair-Keeps : (d : Decision) → Keeps (IsGone id first) (revoke_pair t now d)
  unfolding revoke_pair
  revoke_pair-Keeps d w h =
      refuse_if_then (IsGone id first)
        (is_missing d.caller_id || is_missing d.id || not (is_some d.confirmation))
        "INVALID_ARGUMENT" "missing_required_fields" _ w h
        (λ w h.
          refuse_if_then (IsGone id first) (not (is_confirmed d.confirmation)) "CONSENT_REQUIRED"
            "revocation_needs_explicit_confirmation" _ w h
            (λ w h.
              next-Keeps (IsGone id first)
                (present (at_id d.id w.memory.grants) "AUTH_REQUIRED" "grant_not_visible" w) _
                (present-Keeps (IsGone id first) _ _ _ w h)
                (λ g w h.
                  refuse_if_then (IsGone id first) (not (is_given g.terms.caller_id d.caller_id))
                    "AUTH_REQUIRED" "grant_not_visible" _ w h
                    (λ w h. revoke_grant-Keeps (default "" d.id) g w h))))
