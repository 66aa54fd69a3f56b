-- ===== src/Agent/Engine/Plans.antt =====
-- The reply to a plan that passed the checks.
pub mod Checks
use role_model_helper_v.Prelude.{
  ℕ, suc, ◌≤◌, ◌*◌, String, Bool, true, false, not, ◌&&◌, ◌||◌, ◌≡◌, refl, sym, ap, ◌≢◌, ◌↔◌, ◌⊎◌,
  inl, inr, Option, none, some, List, [], ◌∷◌, arith, length, Option-cases, Bool-cases,
}
use role_model_helper_v.Prelude.{
  ◌==◌, contains, string_eq, if◌then◌else◌, All, Among, all, map, nat_eq, list_eq,
}
use Prim.Derive.{fst_path}
use mathlib.Core.Option.{some-injective}
use mathlib.Core.Option
use role_model_helper_v.Prelude.Dict
use role_model_helper_v.Score.{Score, Float, nan, minus, plus, fraction, in_unit, below}
use role_model_helper_v.Agent.Models.{
  Outcome, handled, needs_clarification, TurnState, Plan, Answer,
}
use role_model_helper_v.Agent.Dialogue.Reply.{Reply, say, slot}
use role_model_helper_v.Agent.Engine.Replies.{IsTurn, options_in}
use role_model_helper_v.Catalog.Bundle.{Department, System, CatalogBundle}
use role_model_helper_v.Text.{Text, codes}
use role_model_helper_v.Agent.Phrases.{normalize}
use role_model_helper_v.Agent.Engine.{
  is_allowed_action, is_well_formed, allowed_slot_keys, has_allowed_keys, knows_facts, knows_system,
  knows_city, knows_department, refusal, planned_state, planned_answer, planned_reply,
}

planned_state-IsTurn :
    (state : TurnState) (plan : Plan) (outcome : Outcome) (a : Answer)
    → IsTurn state (record {
      outcome = outcome;
      state = planned_state state plan;
      answer = some a;
      failure = none;
    })
unfolding planned_state
planned_state-IsTurn state plan outcome a = record {
  session = refl;
  revision = refl;
  answer = (a, refl);
  failure = refl;
  options = λ h. ground arith;
}

-- What the reply to a plan is, with the answer where the plan names a system.
pub data Planned (b : CatalogBundle) (state : TurnState) (plan : Plan) (r : Reply) : Type 0 where
  asked :
      slot plan.slots "system_id" ≡ ""
      → r ≡ record {
        outcome = needs_clarification;
        state = planned_state state plan;
        answer = some (say "Уточните название автоматизированной системы." plan.intent);
        failure = none;
      }
      → Planned b state plan r
  answered :
      (a : Answer)
      → slot plan.slots "system_id" ≢ ""
      → planned_answer b plan.intent (slot plan.slots "system_id") ≡ some a
      → r ≡ record {
        outcome = handled;
        state = planned_state state plan;
        answer = some a;
        failure = none;
      }
      → Planned b state plan r

pub planned_reply_cases :
    (b : CatalogBundle) (state : TurnState) (plan : Plan) (r : Reply)
    → planned_reply b state plan ≡ some r
    → Planned b state plan r
unfolding planned_reply
planned_reply_cases b state plan r h = elim (string_eq.dec (slot plan.slots "system_id") "") [
  | yes e ↦ asked e (ground (arith, e))
  | no e ↦ elim (Option-cases (planned_answer b plan.intent (slot plan.slots "system_id"))) [
    | inl raised ↦ absurd (ground (arith, e, raised))
    | inr (a, made) ↦ answered a e made (ground (arith, e, made))
  ]
]

pub planned_reply-IsTurn :
    (b : CatalogBundle) (state : TurnState) (plan : Plan) (r : Reply)
    → planned_reply b state plan ≡ some r
    → IsTurn state r
planned_reply-IsTurn b state plan r h = elim (planned_reply_cases b state plan r h) [
  | asked e q ↦ rw q (planned_state-IsTurn state plan _ _)
  | answered a e made q ↦ rw q (planned_state-IsTurn state plan _ _)
]
