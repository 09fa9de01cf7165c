-- ===== src/Policy/Tests.antt =====
-- Runs of the policy layer on a small state, and its theorems at inputs that meet their conditions.
use ameme.Base.{
  string_eq, nat_eq, ℕ, zero, suc, count, ◌≤◌, ◌≡◌, ◌≢◌, refl, String, ◌+s◌, true, false, none,
  some, List, [], ◌∷◌, ok,
}
use text.Mathlib.TextEquality.{eq_iff}
use ameme.Base.Bytes.{Bytes}
use ameme.Json.{Fields, str, field, end}
use ameme.Platform.{Platform}
use ameme.Policy.State.{Times, Terms, pending, Challenge, active, Grant, Memory, World}
use ameme.Policy.Grants.{Ask, authorize}
use ameme.Policy.Grants.Granted.{IsGranted, authorize-IsGranted}
use ameme.Policy.Pairing.{Decision, approve_pair, revoke_pair}
use ameme.Policy.Pairing.Approved.{IsApproved, approve_pair-IsApproved, approve_pair-once}
use ameme.Policy.Pairing.Final.{Call, approve, use_grant, look_up, perform_all, revoke_pair-final}
use ameme.Base.Int.{pos}
use ameme.Base.Text.{has_part}
use ameme.Store.State.{Event, Store}
use ameme.Store.Visible.{Texts}
use ameme.Policy.Recall.{Search, Recalled, recall}
use ameme.Policy.Recall.Bounded.{IsRecalled, recall-IsRecalled}
use ameme.Base.{Option, if◌then◌else◌}
use ameme.Policy.Budget.{Fitted, token_count, cut, fit_context_item, fill_pack}
use ameme.Policy.Budget.Longest.{Best, fit_context_item-Best}
use ameme.Policy.Budget.Within.{sum_of, fill_pack-total}

abbrev platform : Platform
platform = record { sha256_hex = λ s. s; str_of_container = λ v. "{}" }

-- Every time that is read is 100, and every random id is the same.
abbrev times : Times
times = record { iso = λ n. "now"; parse = λ s. some 100; uuid = λ n. "x" }

abbrev terms : Terms
terms = record {
  caller_id = "agent";
  purposes = "recall" ∷ [];
  spaces = "home" ∷ "work" ∷ [];
  data_types = "event" ∷ [];
  not_before = "now";
  expires_at = "later";
}

abbrev challenge : Challenge
challenge = record {
  challenge_id = "pair_1";
  terms = terms;
  terms_digest = "digest";
  status = pending;
  created_at = "now";
  expires_at = "soon";
  grant_id = none;
}

abbrev grant : Grant
grant = record {
  grant_id = "grt_1";
  owner_id = "user_synthetic";
  terms = terms;
  status = active;
  created_at = "now";
  revoked_at = none;
}

abbrev memory : Memory
memory = record {
  challenges = ("pair_1", challenge) ∷ [];
  grants = ("grt_1", grant) ∷ [];
  context_packs = [];
  activity = [];
}

abbrev world : World
world = record { memory = memory; disk = memory; drawn = 0 }

abbrev ask : Ask
ask = record { caller_id = some "agent"; grant_id = some "grt_1"; purpose = some "recall" }

recall-is_authorized :
    authorize times 50 ask ("home" ∷ []) ("event" ∷ []) false world ≡ (world, ok grant)
unfolding authorize
recall-is_authorized = refl

authorize-IsGranted_example :
    IsGranted times 50 ask ("home" ∷ []) ("event" ∷ []) false memory grant × (world ≡ world)
authorize-IsGranted_example =
    authorize-IsGranted times 50 ask ("home" ∷ []) ("event" ∷ []) false world world grant
      recall-is_authorized

abbrev decision : String → Decision
decision id = record {
  caller_id = some "agent";
  id = some id;
  confirmation = some (record { confirmed = true; terms_digest = some "digest" });
}

approved : World
unfolding approve_pair
approved = (approve_pair times 50 (decision "pair_1") world).0

abbrev new_grant : Grant
new_grant = record grant { grant_id = "grt_x" }

challenge-is_approved : approve_pair times 50 (decision "pair_1") world ≡ (approved, ok new_grant)
unfolding approve_pair approved
challenge-is_approved = refl

approve_pair-IsApproved_example : IsApproved times 50 (decision "pair_1") world approved new_grant
approve_pair-IsApproved_example =
    approve_pair-IsApproved times 50 (decision "pair_1") world approved new_grant
      challenge-is_approved

approve_pair-once_example :
    approve_pair times 60 (decision "pair_1") approved ≢ (approved, ok new_grant)
approve_pair-once_example =
    approve_pair-once times 50 60 (decision "pair_1") (decision "pair_1") world approved approved
      new_grant new_grant challenge-is_approved refl

ended : World
unfolding revoke_pair
ended = (revoke_pair times 50 (decision "grt_1") world).0

grant-is_revoked : revoke_pair times 50 (decision "grt_1") world ≡ (ended, ok false)
unfolding revoke_pair ended
grant-is_revoked = refl

new_ids_differ : (n : ℕ) → ended.drawn ≤ n → ("grt" +s "_" +s times.uuid n) ≢ "grt_1"
new_ids_differ n h e = cc ((eq_iff "grt_x" "grt_1").1 e)

abbrev item : Fields
item = field "content" (str "Lunch with Ann") (field "object_id" (str "evt_1") end)

abbrev eight_bytes : String → Bytes
eight_bytes s = 1 ∷ 2 ∷ 3 ∷ 4 ∷ 5 ∷ 6 ∷ 7 ∷ 8 ∷ []

-- One byte for each character
abbrev bytes_of : ℕ → Bytes
bytes_of zero = []
bytes_of (suc n) = 97 ∷ bytes_of n

abbrev ascii : String → Bytes
ascii s = bytes_of (count s)

abbrev long_item : Fields
long_item =
    field "content" (str "Lunch with Ann and then a long walk around the lake until it was dark")
      (field "object_id" (str "evt_1") end)

-- The tokens of an item that was cut, and nothing for any other.
abbrev cut_tokens : Option Fitted → ℕ
cut_tokens none = 0
cut_tokens (some f) = if f.truncated then f.tokens else 0

long_item-is_cut : cut_tokens (fit_context_item ascii long_item 22) ≡ 22
unfolding fit_context_item token_count cut
long_item-is_cut = refl

fit_context_item-Best_example : Best ascii long_item 22 (fit_context_item ascii long_item 22)
fit_context_item-Best_example = fit_context_item-Best ascii long_item 22

fill_pack-total_example :
    ((fill_pack eight_bytes (item ∷ item ∷ item ∷ []) 5).total
      ≡ sum_of eight_bytes (fill_pack eight_bytes (item ∷ item ∷ item ∷ []) 5).items)
    × ((fill_pack eight_bytes (item ∷ item ∷ item ∷ []) 5).total ≤ 5)
fill_pack-total_example = fill_pack-total eight_bytes (item ∷ item ∷ item ∷ []) 5

abbrev lunch : Event
lunch = record {
  event_id = "evt_1";
  owner_id = "user_synthetic";
  space_id = "home";
  event_type = "note";
  start = "2026-01-01";
  title = "Lunch with Ann";
  description = "Lunch with Ann";
  fact_status = "confirmed";
  field_evidence = record { observation_id = "obs_1"; is_certain = true; status = "observed" };
  evidence_state = "observed";
  source_object_id = "src_1";
  revision = 1;
  sensitivity = "personal";
  data_class = "structured";
  memory_type = "event";
  state = "active";
  created_at = "2026-01-01";
  updated_at = "2026-01-01";
  revision_head_id = none;
  policy_blocked = false;
}

abbrev store : Store
store = record { events = ("evt_1", lunch) ∷ []; revisions = []; queue = [] }

abbrev texts : Texts
texts = record { casefold = λ s. s; instant = λ s. some 20 }

abbrev search_home : Search
search_home = record {
  ask = ask;
  spaces = "home" ∷ [];
  memory_types = "event" ∷ [];
  is_autonomous = false;
  sensitivity = "personal";
  data_class = "structured";
  confirmed = false;
  time_range = none;
  query = some "Lunch";
  limit = pos 20;
}

abbrev recalled : Recalled
recalled = record {
  range_state = "complete_for_requested_scope";
  partial_reasons = [];
  results =
      record {
        object_type = "event";
        object_id = "evt_1";
        revision = 1;
        space_id = "home";
        fact_status = "confirmed";
        lineage_refs = "src_1" ∷ [];
      }
      ∷ [];
  spaces = "home" ∷ [];
  memory_types = "event" ∷ [];
}

after_search : World
unfolding recall
after_search = (recall times texts 50 false store search_home world).0

search_run : recall times texts 50 false store search_home world ≡ (after_search, ok recalled)
unfolding recall after_search has_part
search_run = refl

recall-IsRecalled_example : IsRecalled times 50 store search_home world after_search recalled
recall-IsRecalled_example =
    recall-IsRecalled times texts 50 false store search_home world after_search recalled search_run

-- A challenge is approved, the grant asked for and a search made in between.
abbrev between : List Call
between =
    approve 55 (decision "pair_1")
    ∷ use_grant 56 ask ("home" ∷ []) ("event" ∷ []) false
    ∷ look_up 57 texts false store search_home
    ∷ []

revoke_pair-final_example :
    authorize times 60 ask
      ("home" ∷ [])
      ("event" ∷ [])
      false
      (perform_all platform times between ended)
    ≢ (world, ok grant)
revoke_pair-final_example =
    revoke_pair-final platform times 50 60 (decision "grt_1") "grt_1" world ended world false
      between ask ("home" ∷ []) ("event" ∷ []) false grant grant-is_revoked refl new_ids_differ refl
