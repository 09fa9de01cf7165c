-- ===== src/Policy/State.antt =====
-- The keys of the state that grants and pairing read and write, in memory and as they were saved last
-- (`AmemeMock` of services/ameme-mcp-mock/ameme_mcp_mock/core.py). Arguments have the types of the tool's schema.
use ameme.Base.{ℕ, String, Option, List}
use ameme.Base.Dict.{Dict}
use ameme.Store.State.{StoreError}

-- What a call raises: a `MockError` by its code and its key, a `ValueError` of the reading of a time, or what the
-- store raises.
pub data Refusal : Type 0 where
  mock : String → String → Refusal
  value_error : Refusal
  store_error : StoreError → Refusal

-- The clock as text, the reading of a text as a time, and the hexadecimal text of each random id. Times are counted
-- in microseconds; a call reads the clock once.
pub record Times : Type 0 where
  pub iso : ℕ → String
  pub parse : String → Option ℕ
  pub uuid : ℕ → String

pub record Terms : Type 0 where
  pub caller_id : String
  pub purposes : List String
  pub spaces : List String
  pub data_types : List String
  pub not_before : String
  pub expires_at : String

-- `lapsed` is the challenge's "expired".
pub data ChallengeStatus : Type 0 where
  pending used lapsed : ChallengeStatus

pub record Challenge : Type 0 where
  pub challenge_id : String
  pub terms : Terms
  pub terms_digest : String
  pub status : ChallengeStatus
  pub created_at : String
  pub expires_at : String
  pub grant_id : Option String

pub data GrantStatus : Type 0 where
  active revoked expired : GrantStatus

-- A grant: its terms are copied into it.
pub record Grant : Type 0 where
  pub grant_id : String
  pub owner_id : String
  pub terms : Terms
  pub status : GrantStatus
  pub created_at : String
  pub revoked_at : Option String

-- A context pack, as far as grants change it.
pub record ContextPack : Type 0 where
  pub grant_id : String
  pub state : String

pub record Activity : Type 0 where
  pub activity_id : String
  pub caller_id : String
  pub purpose : String
  pub spaces : List String
  pub data_types : List String
  pub result_code : String
  pub object_count_bucket : String
  pub occurred_at : String

pub record Memory : Type 0 where
  pub challenges : Dict String Challenge
  pub grants : Dict String Grant
  pub context_packs : Dict String ContextPack
  pub activity : List Activity

-- The state in memory, the state in the file, and how many random ids were drawn.
pub record World : Type 0 where
  pub memory : Memory
  pub disk : Memory
  pub drawn : ℕ
