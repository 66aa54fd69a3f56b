-- ===== src/Agent/Models.antt =====
-- app/agent/models.py
use role_model_helper_v.Prelude.{ℕ, String, Bool, Option, none, List, []}
use role_model_helper_v.Prelude.Dict.{Dict}
use role_model_helper_v.Score.{Score, Float}

pub data RouteSource : Type 0 where
  deterministic gigachat_fallback : RouteSource

pub data Outcome : Type 0 where
  handled needs_clarification provider_failure : Outcome

pub record Candidate : Type 0 where
  pub id : String
  pub label : String
  pub confidence : Score

pub record PendingQuestion : Type 0 where
  pub topic : String
  pub kind : String
  pub options : List Candidate
  pub page : ℕ

pub record TurnState : Type 0 where
  pub session_id : String
  pub revision : ℕ
  pub intent : Option String
  pub phase : String
  pub slots : Dict String String
  pub pending_question : Option PendingQuestion

-- `TurnState.empty`
unfoldable pub empty : String → TurnState
empty session_id = record {
  session_id = session_id;
  revision = 0;
  intent = none;
  phase = "READY";
  slots = [];
  pending_question = none;
}

pub record TurnRequest : Type 0 where
  pub request_id : String
  pub text : String
  pub state : TurnState

pub record Plan : Type 0 where
  pub catalog_version : String
  pub intent : String
  pub action : String
  pub slots : Dict String String
  pub confidence : Float

-- The values that answers have among their facts.
pub data Fact : Type 0 where
  one : String → Fact
  many : List String → Fact

pub record Answer : Type 0 where
  pub text : String
  pub answer_type : String
  pub facts : Dict String Fact

pub record Failure : Type 0 where
  pub code : String
  pub user_message : String
  pub retryable : Bool

-- `durations_ms`, in the unit of the clock.
pub record Durations : Type 0 where
  pub state_read : ℕ
  pub retrieval : ℕ
  pub agent : ℕ
  pub gigachat : ℕ
  pub state_write : ℕ
  pub total : ℕ

pub record TurnDiagnostics : Type 0 where
  pub trace_id : String
  pub request_id : String
  pub route : RouteSource
  pub outcome : Outcome
  pub catalog_version : String
  pub cache_hit : Bool
  pub gigachat_calls : ℕ
  pub durations : Durations

pub record TurnResult : Type 0 where
  pub route : RouteSource
  pub outcome : Outcome
  pub state : TurnState
  pub answer : Option Answer
  pub diagnostics : TurnDiagnostics
  pub failure : Option Failure
