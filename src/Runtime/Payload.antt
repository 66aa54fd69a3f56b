-- ===== src/Runtime/Payload.antt =====
-- `_state_payload`, `_state_from_payload` and `_result_payload` of app/runtime/service.py. A
-- payload is a JSON object: a field that is read by `.get` may be missing.
use role_model_helper_v.Prelude.{ℕ, String, Option, none, some, List, [], ◌≡◌, ◌≢◌, arith}
use role_model_helper_v.Prelude.{◌==◌, string_eq, if◌then◌else◌}
use mathlib.Core.Option
use role_model_helper_v.Prelude.Dict.{Dict}
use role_model_helper_v.Agent.Models.{
  Candidate, PendingQuestion, TurnState, Fact, Answer, Failure, TurnDiagnostics, TurnResult,
}

pub record PendingPayload : Type 0 where
  pub topic : String
  pub kind : String
  pub options : Option (List Candidate)
  pub page : Option ℕ

pub record StatePayload : Type 0 where
  pub session_id : Option String
  pub revision : ℕ
  pub intent : Option String
  pub phase : Option String
  pub slots : Option (Dict String String)
  pub pending_question : Option PendingPayload

pub record Assistant : Type 0 where
  pub text : String
  pub answer_type : String
  pub facts : Dict String Fact

pub record ResponsePayload : Type 0 where
  pub request_id : String
  pub session_id : String
  pub assistant : Assistant
  pub state : StatePayload
  pub failure : Option Failure
  pub diagnostics : TurnDiagnostics

pending_payload : PendingQuestion → PendingPayload
pending_payload q = record {
  topic = q.topic;
  kind = q.kind;
  options = some q.options;
  page = some q.page;
}

-- `_state_payload`
unfoldable pub state_payload : TurnState → StatePayload
unfolding pending_payload
state_payload state = record {
  session_id = none;
  revision = state.revision;
  intent = state.intent;
  phase = some state.phase;
  slots = some state.slots;
  pending_question = Option.map pending_payload state.pending_question;
}

-- `x or d`, where the empty text counts as missing
or_text : Option String → String → String
or_text none d = d
or_text (some s) d = if s == "" then d else s

or_nil {ℓ} : {A : Type ℓ} → Option (List A) → List A
or_nil none = []
or_nil (some xs) = xs

or_zero : Option ℕ → ℕ
or_zero none = 0
or_zero (some n) = n

question_from : PendingPayload → PendingQuestion
unfolding or_nil or_zero
question_from p = record {
  topic = p.topic;
  kind = p.kind;
  options = or_nil p.options;
  page = or_zero p.page;
}

-- `_state_from_payload`
unfoldable pub state_from_payload : StatePayload → String → TurnState
unfolding question_from or_text or_nil
state_from_payload payload session_id = record {
  session_id = or_text (some session_id) (or_text payload.session_id "");
  revision = payload.revision;
  intent = payload.intent;
  phase = or_text payload.phase "READY";
  slots = or_nil payload.slots;
  pending_question = Option.map question_from payload.pending_question;
}

abbrev assistant_of : Option Answer → Option Failure → Assistant
assistant_of (some answer) _ = record {
  text = answer.text;
  answer_type = answer.answer_type;
  facts = answer.facts;
}
assistant_of none (some failure) = record {
  text = failure.user_message;
  answer_type = "ERROR";
  facts = [];
}
assistant_of none none = record {
  text = "Не удалось сформировать ответ.";
  answer_type = "ERROR";
  facts = [];
}

-- `_result_payload`
unfoldable pub result_payload : TurnResult → ResponsePayload
result_payload result = record {
  request_id = result.diagnostics.request_id;
  session_id = result.state.session_id;
  assistant = assistant_of result.answer result.failure;
  state = state_payload result.state;
  failure = result.failure;
  diagnostics = result.diagnostics;
}

-- A state that was written and is read again under its own session id is the same state, its
-- pending question with all options included, if its phase is not the empty text.
pub state_from_payload-state_payload :
    (state : TurnState)
    → state.phase ≢ ""
    → state_from_payload (state_payload state) state.session_id ≡ state
unfolding state_from_payload state_payload
state_from_payload-state_payload state h = ground arith
