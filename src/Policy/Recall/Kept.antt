-- ===== src/Policy/Recall/Kept.antt =====
-- A search leaves a revocation (`recall` of services/ameme-mcp-mock/ameme_mcp_mock/core.py).
use ameme.Base.{
  string_eq, nat_eq, ℕ, arith, String, Bool, true, false, Option, none, some, ◌==◌, ◌||◌, not,
  is_empty, if_induction, Outcome, ok, err,
}
use ameme.Base.Dict.{default}
use ameme.Platform.{Platform}
use ameme.Store.State.{StoreError, Store}
use ameme.Store.Visible.{Texts}
use ameme.Policy.State.{Times}
use ameme.Policy.Calls.{Act, give, read_time}
use ameme.Policy.Grants.{
  is_missing, is_before, read_end, bounded_values, authorize, high_risk_gate, requested_time_range,
  record_activity,
}
use ameme.Policy.Grants.Kept.{IsGone, Keeps, next-Keeps, read_time-Keeps, authorize-Keeps}
use ameme.Policy.Pairing.Kept.{refuse_if_then, bounded_values-Keeps}
use ameme.Policy.Recall.{Search, of_store, search_store, recall}

module _ (t : Times) (now : ℕ) (id : String) (first : ℕ) where
  high_risk_gate-Keeps :
      (sensitivity data_class : String) (confirmed autonomous : Bool)
      → Keeps (IsGone id first) (high_risk_gate sensitivity data_class confirmed autonomous)
  unfolding high_risk_gate
  high_risk_gate-Keeps sensitivity data_class confirmed autonomous w h =
      if_induction (λ (m : Act Bool). IsGone id first (m w).0)
        (not (sensitivity == "restricted" || data_class == "raw")) (λ _. h)
        (λ _.
          refuse_if_then (IsGone id first) autonomous "POLICY_BLOCKED"
            "autonomous_raw_or_restricted_blocked" _ w h
            (λ w h.
              refuse_if_then (IsGone id first) (not confirmed) "CONSENT_REQUIRED"
                "raw_or_restricted_needs_confirmation" (λ _. give true) w h (λ w h. h)))

  of_store-Keeps : {A : Type 0} (o : Outcome StoreError A) → Keeps (IsGone id first) (of_store o)
  of_store-Keeps (ok a) w h = h
  of_store-Keeps (err e) w h = h

  read_end-Keeps :
      (missing : Bool) (text : Option String) → Keeps (IsGone id first) (read_end t missing text)
  read_end-Keeps true text w h = h
  read_end-Keeps false text w h =
      next-Keeps (IsGone id first) (read_time (t.parse (default "" text)) w) _
        (read_time-Keeps (IsGone id first) (t.parse (default "" text)) w h) (λ n w h. h)

  requested_time_range-Keeps :
      (range : Option (Option String × Option String))
      → Keeps (IsGone id first) (requested_time_range t range)
  unfolding requested_time_range
  requested_time_range-Keeps none w h = h
  requested_time_range-Keeps (some (start, end_)) w h =
      refuse_if_then (IsGone id first) (is_missing start) "INVALID_ARGUMENT"
        "time_range_requires_start" _ w h
        (λ w h.
          next-Keeps (IsGone id first) (read_time (t.parse (default "" start)) w) _
            (read_time-Keeps (IsGone id first) (t.parse (default "" start)) w h)
            (λ from w h.
              next-Keeps (IsGone id first) (read_end t (is_missing end_) end_ w) _
                (read_end-Keeps (is_missing end_) end_ w h)
                (λ to w h.
                  refuse_if_then (IsGone id first) (is_before to from) "INVALID_ARGUMENT"
                    "time_range_end_before_start" (λ _. give (some from, to)) w h (λ w h. h))))

  pub recall-Keeps :
      (p : Platform) (x : Texts) (offline : Bool) (s : Store) (r : Search)
      → Keeps (IsGone id first) (recall t x now offline s r)
  unfolding recall record_activity
  recall-Keeps p x offline s r w h =
      refuse_if_then (IsGone id first)
        (is_missing r.ask.caller_id
          || is_missing r.ask.grant_id
          || is_missing r.ask.purpose
          || is_empty r.spaces
          || is_empty r.memory_types)
        "INVALID_ARGUMENT" "missing_required_fields" _ w h
        (λ w h.
          next-Keeps (IsGone id first) (bounded_values r.spaces w) _
            (bounded_values-Keeps p t now id first r.spaces w h)
            (λ spaces w h.
              next-Keeps (IsGone id first) (bounded_values r.memory_types w) _
                (bounded_values-Keeps p t now id first r.memory_types w h)
                (λ types w h.
                  next-Keeps (IsGone id first)
                    (authorize t now r.ask spaces types r.is_autonomous w) _
                    (authorize-Keeps t now id first r.ask spaces types r.is_autonomous w h)
                    (λ g w h.
                      next-Keeps (IsGone id first)
                        (high_risk_gate r.sensitivity r.data_class r.confirmed r.is_autonomous w) _
                        (high_risk_gate-Keeps r.sensitivity r.data_class r.confirmed r.is_autonomous
                          w h)
                        (λ allow w h.
                          next-Keeps (IsGone id first) (requested_time_range t r.time_range w) _
                            (requested_time_range-Keeps r.time_range w h)
                            (λ range w h.
                              next-Keeps (IsGone id first)
                                (of_store (search_store x r g spaces types allow range s) w) _
                                (of_store-Keeps (search_store x r g spaces types allow range s) w h)
                                (λ found w h. record {
                                  grant = h.grant;
                                  stored = h.stored;
                                  status = h.status;
                                  drawn = omega (arith, h.drawn);
                                })))))))
