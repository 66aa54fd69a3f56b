-- ===== src/Agent/Engine/Outcomes.antt =====
-- The ways in which `handle` ends a turn.
pub mod Results
use role_model_helper_v.Prelude.{
  string_eq, ℕ, suc, ◌+◌, ◌≤◌, String, Bool, ◌≡◌, refl, sym, ◌↔◌, ◌≢◌, ◌⊎◌, inl, inr, Option, none,
  some, arith, length, Option-cases,
}
use role_model_helper_v.Prelude.Dict
use mathlib.Core.Option.{some-injective}
use role_model_helper_v.Telemetry.{Clock, TurnTrace, start, enter, leave, finish}
use role_model_helper_v.Telemetry
use role_model_helper_v.Agent.Models.{
  RouteSource, Outcome, handled, needs_clarification, provider_failure, TurnState, TurnRequest,
  TurnResult, Plan, Answer, Failure,
}
use role_model_helper_v.Agent.Dialogue.Reply.{Reply, Handled, reply, unhandled, raised, slot}
use role_model_helper_v.Agent.Deterministic.{deterministic_reply}
use role_model_helper_v.Agent.Engine.Replies.{IsTurn, Turns, options_in}
use role_model_helper_v.Agent.Engine.Plans.{
  Planned, asked, answered, planned_reply_cases, planned_reply-IsTurn,
}
use role_model_helper_v.Agent.Engine.Plans.Checks.{IsAcceptable, refusal-none}
use role_model_helper_v.Catalog.Bundle.{System, CatalogBundle}
use role_model_helper_v.Catalog.Cache.{Cache, current}
use role_model_helper_v.Agent.Engine.{
  Planner, PlannerReply, planned, malformed, timed_out, broken, Refusal, malformed_plan, refusal,
  planned_state, planned_reply, result_of, provider_rejection, plan_result, fallback, agent_trace,
  handle_with, handle_bundle, handle,
}

Handled-cases : (h : Handled) → ((r : Reply) × (h ≡ reply r)) ⊎ ((h ≡ unhandled) ⊎ (h ≡ raised))
Handled-cases (reply r) = inl (r, refl)
Handled-cases unhandled = inr (inl refl)
Handled-cases raised = inr (inr refl)

differs : needs_clarification ≢ handled
differs = λ e. cc

fails : provider_failure ≢ handled
fails = λ e. cc

module _ (clock : Clock) where
  -- A turn that the planner's plan or its failure ended.
  pub data Rejected (request : TurnRequest) (result : TurnResult) : Type 0 where
    rejected :
        (trace : TurnTrace) (outcome : Outcome) (r : Refusal) (retryable : Bool)
        → outcome ≢ handled
        → result ≡ provider_rejection clock request trace outcome r retryable
        → Rejected request result

  pub data Accepted (b : CatalogBundle) (planner : Planner) (request : TurnRequest)
      (result : TurnResult) : Type 0 where
    accepted :
        (trace : TurnTrace) (plan : Plan) (r : Reply)
        → planner request b ≡ planned plan
        → refusal b plan ≡ none
        → planned_reply b request.state plan ≡ some r
        → result ≡ result_of clock RouteSource.gigachat_fallback 1 trace r
        → Accepted b planner request result

  pub data Decided (b : CatalogBundle) (request : TurnRequest) (result : TurnResult) : Type 0 where
    decided :
        (trace : TurnTrace) (r : Reply)
        → deterministic_reply b request ≡ reply r
        → result ≡ result_of clock RouteSource.deterministic 0 trace r
        → Decided b request result

  abbrev pub Cases : CatalogBundle → Planner → TurnRequest → TurnResult → Type 0
  Cases b planner request result =
      Decided b request result ⊎ (Rejected request result ⊎ Accepted b planner request result)

  plan_result-Cases :
      (b : CatalogBundle) (planner : Planner) (request : TurnRequest) (trace : TurnTrace)
      (plan : Plan) (result : TurnResult)
      → planner request b ≡ planned plan
      → plan_result clock b request trace plan ≡ some result
      → Cases b planner request result
  unfolding plan_result
  plan_result-Cases b planner request trace plan result made h =
      elim (Option-cases (refusal b plan)) [
        | inr (r, refused) ↦ inr (
            inl (rejected trace needs_clarification r Bool.false differs (ground (arith, refused))))
        | inl passed ↦ elim (Option-cases (planned_reply b request.state plan)) [
          | inl none_made ↦ absurd (ground (arith, passed, none_made))
          | inr (r, replied) ↦
              inr
                (inr (accepted trace plan r made passed replied (ground (arith, passed, replied))))
        ]
      ]

  -- The trace inside the component `gigachat`, and after it.
  inside_of : TurnTrace → TurnTrace
  inside_of trace = (enter clock trace).1

  after_of : TurnTrace → TurnTrace
  unfolding inside_of
  after_of trace = leave clock Telemetry.gigachat (enter clock trace).0 (inside_of trace)

  fallback-Cases :
      (b : CatalogBundle) (planner : Planner) (request : TurnRequest) (trace : TurnTrace)
      (result : TurnResult) (a : PlannerReply)
      → planner request b ≡ a
      → fallback clock b request trace a ≡ some result
      → Cases b planner request result
  unfolding fallback inside_of after_of
  fallback-Cases b planner request trace result timed_out made h =
      inr (inl (rejected (inside_of trace) _ _ _ fails (sym (some-injective _ _ h))))
  fallback-Cases b planner request trace result broken made h =
      inr (inl (rejected (inside_of trace) _ _ _ fails (sym (some-injective _ _ h))))
  fallback-Cases b planner request trace result malformed made h =
      inr (inl (rejected (after_of trace) _ _ _ differs (sym (some-injective _ _ h))))
  fallback-Cases b planner request trace result (planned plan) made h =
      plan_result-Cases b planner request (after_of trace) plan result made h

  pub handle_bundle-Cases :
      (planner : Planner) (b : CatalogBundle) (trace_id : String) (request : TurnRequest)
      (result : TurnResult)
      → handle_bundle clock planner b trace_id request ≡ some result
      → Cases b planner request result
  unfolding handle_bundle handle_with
  handle_bundle-Cases planner b trace_id request result h =
      elim (Handled-cases (deterministic_reply b request)) [
        | inl (r, e) ↦ inl (decided (agent_trace clock b request trace_id) r e (ground arith))
        | inr (inl e) ↦
            fallback-Cases b planner request (agent_trace clock b request trace_id) result
              (planner request b) refl (rw e at h)
        | inr (inr e) ↦ absurd (ground arith)
      ]

  pub handle-Cases :
      (planner : Planner) (cache : Cache) (trace_id : String) (request : TurnRequest)
      (result : TurnResult)
      → handle clock planner cache trace_id request ≡ some result
      → (b : CatalogBundle) × (current cache ≡ some b) × Cases b planner request result
  unfolding handle current
  handle-Cases planner cache trace_id request result h = elim (Option-cases (current cache)) [
    | inl none_active ↦ absurd (ground (arith, none_active))
    | inr (b, active) ↦
        (b, active, handle_bundle-Cases planner b trace_id request result (rw active at h))
  ]
