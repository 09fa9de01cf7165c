-- ===== src/Policy/Recall/Unchanged.antt =====
-- The parts of a search that only read (`_bounded_values`, `_high_risk_gate` and `_requested_time_range` of
-- services/ameme-mcp-mock/ameme_mcp_mock/core.py).
use ameme.Base.{◌∙◌}
use ameme.Base.{
  string_eq, nat_eq, ℕ, ◌≡◌, String, Bool, true, false, Option, none, some, List, ◌==◌, ◌||◌, not,
  ltb, length, is_empty, ok, if_induction, sym,
}
use ameme.Base.Dict.{default}
use ameme.Policy.State.{Times, World}
use ameme.Policy.Calls.{Act, give, on_act, on_refuse_if, on_read_time, returned}
use ameme.Policy.Grants.{
  is_missing, is_before, read_end, set_of, bounded_values, high_risk_gate, requested_time_range,
}

-- A list of values that is bounded is given as it is.
pub bounded_values-same :
    (xs ys : List String) (w u : World) → bounded_values xs w ≡ (u, ok ys) → (u ≡ w) × (ys ≡ xs)
unfolding bounded_values
bounded_values-same xs ys w u h =
    on_refuse_if (is_empty xs || ltb 16 (length xs)) "INVALID_ARGUMENT"
      "scope_must_be_nonempty_list" _ w h
      (λ _ h.
        on_refuse_if (not (length (set_of xs) == length xs)) "INVALID_ARGUMENT"
          "scope_values_must_be_unique" (λ _. give xs) w h
          (λ _ h. let (same, equal) = returned h in (same, sym equal)))

pub high_risk_gate-same :
    (sensitivity data_class : String) (confirmed autonomous allow : Bool) (w u : World)
    → high_risk_gate sensitivity data_class confirmed autonomous w ≡ (u, ok allow)
    → u ≡ w
unfolding high_risk_gate
high_risk_gate-same sensitivity data_class confirmed autonomous allow w u h =
    if_induction (λ (act : Act Bool). act w ≡ (u, ok allow) → u ≡ w)
      (not (sensitivity == "restricted" || data_class == "raw")) (λ _ h. (returned h).0)
      (λ _ h.
        on_refuse_if autonomous "POLICY_BLOCKED" "autonomous_raw_or_restricted_blocked" _ w h
          (λ _ h.
            on_refuse_if (not confirmed) "CONSENT_REQUIRED" "raw_or_restricted_needs_confirmation"
              (λ _. give true) w h (λ _ h. (returned h).0)))
      h

read_end-same :
    (t : Times) (missing : Bool) (text : Option String) (to : Option ℕ) (w u : World)
    → read_end t missing text w ≡ (u, ok to)
    → u ≡ w
read_end-same t true text to w u h = (returned h).0
read_end-same t false text to w u h =
    on_read_time (t.parse (default "" text)) (λ n. give (some n)) w h (λ n _ h. (returned h).0)

pub requested_time_range-same :
    (t : Times) (asked : Option (Option String × Option String)) (range : Option ℕ × Option ℕ)
    (w u : World)
    → requested_time_range t asked w ≡ (u, ok range)
    → u ≡ w
unfolding requested_time_range
requested_time_range-same t none range w u h = (returned h).0
requested_time_range-same t (some (start, end_)) range w u h =
    on_refuse_if (is_missing start) "INVALID_ARGUMENT" "time_range_requires_start" _ w h (λ _ h.
      on_read_time (t.parse (default "" start)) _ w h (λ from _ h.
        on_act (read_end t (is_missing end_) end_ w) _ h (λ w1 to ended h.
          on_refuse_if (is_before to from) "INVALID_ARGUMENT" "time_range_end_before_start" _ w1 h
            (λ _ h. (returned h).0 ∙ read_end-same t (is_missing end_) end_ to w w1 ended))))
