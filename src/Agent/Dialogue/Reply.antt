-- ===== src/Agent/Dialogue/Reply.antt =====
-- What a handler of the deterministic path returns, and `_candidate_clarification`.
use role_model_helper_v.Prelude.{
  suc, String, ◌<>◌, Option, none, some, List, [], map, take, ◌==◌, string_eq, if◌then◌else◌,
}
use role_model_helper_v.Prelude.Dict
use role_model_helper_v.Prelude.Dict.{Dict}
use role_model_helper_v.Agent.Models.{
  Outcome, needs_clarification, Candidate, PendingQuestion, TurnState, Answer, Failure,
}
use role_model_helper_v.Agent.Matches.{Weak}
use role_model_helper_v.Catalog.Bundle.{or_empty}
use role_model_helper_v.Tools.Search.{ToolCandidate, ToolResult}

pub record Reply : Type 0 where
  pub outcome : Outcome
  pub state : TurnState
  pub answer : Option Answer
  pub failure : Option Failure

-- A reply, the `None` of a handler that leaves the turn to the next one, or an exception.
pub data Handled : Type 0 where
  reply : Reply → Handled
  unhandled raised : Handled

-- `revision=state.revision + 1`
abbrev pub advance : TurnState → TurnState
advance state = record state { revision = suc state.revision }

abbrev pub say : String → String → Answer
say text answer_type = record { text = text; answer_type = answer_type; facts = [] }

abbrev pub respond : Outcome → TurnState → Answer → Handled
respond outcome state answer =
    reply (record { outcome = outcome; state = state; answer = some answer; failure = none })

-- A reply whose answer may raise.
abbrev pub respond_with : Outcome → TurnState → Option Answer → Handled
respond_with outcome state none = raised
respond_with outcome state (some answer) = respond outcome state answer

-- `dict.get(key) or ""`
abbrev pub slot : Dict String String → String → String
slot slots key = or_empty (Dict.get slots key)

-- `x or None`
unfoldable pub or_none : String → Option String
unfolding string_eq
or_none s = if s == "" then none else some s

-- `state.intent or "UNKNOWN"`
unfoldable pub intent_or_unknown : TurnState → String
unfolding string_eq
intent_or_unknown state = elim state.intent [
  | none ↦ "UNKNOWN"
  | some i ↦ if i == "" then "UNKNOWN" else i
]

abbrev pub question : String → String → List Candidate → PendingQuestion
question topic kind options = record { topic = topic; kind = kind; options = options; page = 0 }

label_of : ToolCandidate → String
unfolding string_eq
label_of c =
    let city = or_empty c.context.city in if city == "" then c.label else c.label <> (" — " <> city)

-- `result.candidates[:5]` as options
unfoldable pub options_of : List ToolCandidate → List Candidate
unfolding label_of
options_of candidates =
    map (λ (c : ToolCandidate). record { id = c.id; label = label_of c; confidence = c.score })
      (take 5 candidates)

-- `weak[:5]` as options
unfoldable pub weak_options : List Weak → List Candidate
weak_options weak =
    map (λ ((s, score) : Weak). record { id = s.id; label = s.name; confidence = score })
      (take 5 weak)

-- `_candidate_clarification`
unfoldable pub candidate_clarification :
    TurnState → String → ToolResult → Dict String String → String → Handled
unfolding options_of
candidate_clarification state topic result slots message =
    respond needs_clarification
      (record (advance state) {
        intent = some "ROLE_DISCOVERY";
        phase = "AWAITING_SELECTION";
        slots = slots;
        pending_question =
            some (question topic "candidate_selection" (options_of result.candidates));
      })
      (say message "CLARIFICATION")

-- The reply that asks for the value of a slot.
unfoldable pub ask_slot : TurnState → Dict String String → String → String → Handled
ask_slot state slots topic message =
    respond needs_clarification
      (record (advance state) {
        intent = some "ROLE_DISCOVERY";
        phase = "AWAITING_SLOT";
        slots = slots;
        pending_question = some (question topic "slot" []);
      })
      (say message "CLARIFICATION")
