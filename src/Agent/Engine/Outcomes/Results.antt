-- ===== src/Agent/Engine/Outcomes/Results.antt =====
-- What a turn that `handle` ends has, on both routes.
use role_model_helper_v.Prelude.{
  string_eq, suc, ◌≤◌, String, ◌≡◌, refl, ◌↔◌, ◌⊎◌, inl, inr, none, some, arith, length,
}
use role_model_helper_v.Prelude.Dict
use role_model_helper_v.Telemetry.{Clock, TurnTrace, start, enter, leave, finish}
use role_model_helper_v.Agent.Models.{
  RouteSource, handled, TurnRequest, TurnResult, Plan, Answer, Failure,
}
use role_model_helper_v.Agent.Dialogue.Reply.{unhandled, slot}
use role_model_helper_v.Agent.Deterministic.{deterministic_reply}
use role_model_helper_v.Agent.Engine.Replies.{IsTurn, options_in}
use role_model_helper_v.Agent.Engine.Replies.Dialogue.{deterministic_reply-Turns}
use role_model_helper_v.Agent.Engine.Plans.{
  asked, answered, planned_reply_cases, planned_reply-IsTurn,
}
use role_model_helper_v.Agent.Engine.Plans.Checks.{IsAcceptable, refusal-none}
use role_model_helper_v.Catalog.Bundle.{System, CatalogBundle}
use role_model_helper_v.Catalog.Cache.{Cache, current}
use role_model_helper_v.Agent.Engine.{
  Planner, PlannerReply, planned, timed_out, broken, planned_state, planned_reply, result_of,
  provider_rejection, fallback, agent_trace, handle_with, handle_bundle, handle,
}
use role_model_helper_v.Agent.Engine.Outcomes.{Cases, decided, rejected, accepted, handle-Cases}

module _ (clock : Clock) where
  abbrev IsAccounted : TurnResult → Type 0
  IsAccounted result =
      (result.diagnostics.gigachat_calls ≤ 1)
      × ((result.diagnostics.gigachat_calls ≡ 0) ↔ (result.route ≡ RouteSource.deterministic))
      × (result.diagnostics.route ≡ result.route)
      × (result.diagnostics.outcome ≡ result.outcome)

  Cases-IsAccounted :
      (b : CatalogBundle) (planner : Planner) (request : TurnRequest) (result : TurnResult)
      → Cases clock b planner request result
      → IsAccounted result
  unfolding result_of provider_rejection finish
  Cases-IsAccounted b planner request result (inl (decided trace r e q)) = ground arith
  Cases-IsAccounted b planner request result (inr (inl (rejected trace o r retry n q))) =
      ground arith
  Cases-IsAccounted b planner request result (inr (inr (accepted trace plan r e f g q))) =
      ground arith

  -- The diagnostics count at most one call of the planner, and none exactly on the deterministic
  -- route; and they name the route and the outcome of the result.
  pub handle_calls :
      (planner : Planner) (cache : Cache) (trace_id : String) (request : TurnRequest)
      (result : TurnResult)
      → handle clock planner cache trace_id request ≡ some result
      → (result.diagnostics.gigachat_calls ≤ 1)
        × ((result.diagnostics.gigachat_calls ≡ 0) ↔ (result.route ≡ RouteSource.deterministic))
        × (result.diagnostics.route ≡ result.route)
        × (result.diagnostics.outcome ≡ result.outcome)
  handle_calls planner cache trace_id request result h =
      let (b, active, cases) = handle-Cases clock planner cache trace_id request result h in
      Cases-IsAccounted b planner request result cases

  abbrev IsAnswered : TurnRequest → TurnResult → Type 0
  IsAnswered request result =
      ((a : Answer) × (result.answer ≡ some a)
        × (result.failure ≡ none)
        × (result.state.session_id ≡ request.state.session_id)
        × (result.state.revision ≡ suc request.state.revision))
      ⊎ ((f : Failure) × (result.failure ≡ some f)
          × (result.answer ≡ none)
          × (result.state ≡ request.state))

  Cases-IsAnswered :
      (b : CatalogBundle) (planner : Planner) (request : TurnRequest) (result : TurnResult)
      → Cases clock b planner request result
      → IsAnswered request result
  unfolding result_of provider_rejection planned_reply planned_state
  Cases-IsAnswered b planner request result (inl (decided trace r e q)) =
      let turn : IsTurn request.state r = rw e at (deterministic_reply-Turns b request) in
      let (a, said) = turn.answer in rw q (inl (a, said, turn.failure, turn.session, turn.revision))
  Cases-IsAnswered b planner request result (inr (inl (rejected trace o r retry n q))) =
      rw q (inr (_, refl, refl, refl))
  Cases-IsAnswered b planner request result (inr (inr (accepted trace plan r e f g q))) =
      let turn : IsTurn request.state r = planned_reply-IsTurn b request.state plan r g in
      let (a, said) = turn.answer in rw q (inl (a, said, turn.failure, turn.session, turn.revision))

  -- A turn that `handle` ends has either an answer, and then its state keeps the session and has
  -- the next revision, or a failure, and then its state is that of the request.
  pub handle_answers :
      (planner : Planner) (cache : Cache) (trace_id : String) (request : TurnRequest)
      (result : TurnResult)
      → handle clock planner cache trace_id request ≡ some result
      → ((a : Answer) × (result.answer ≡ some a)
          × (result.failure ≡ none)
          × (result.state.session_id ≡ request.state.session_id)
          × (result.state.revision ≡ suc request.state.revision))
        ⊎ ((f : Failure) × (result.failure ≡ some f)
            × (result.answer ≡ none)
            × (result.state ≡ request.state))
  handle_answers planner cache trace_id request result h =
      let (b, active, cases) = handle-Cases clock planner cache trace_id request result h in
      Cases-IsAnswered b planner request result cases

  abbrev Offers : TurnRequest → TurnResult → Type 0
  Offers request result =
      length (options_in request.state.pending_question) ≤ 5
      → length (options_in result.state.pending_question) ≤ 5

  Cases-Offers :
      (b : CatalogBundle) (planner : Planner) (request : TurnRequest) (result : TurnResult)
      → Cases clock b planner request result
      → Offers request result
  unfolding result_of provider_rejection
  Cases-Offers b planner request result (inl (decided trace r e q)) =
      let turn : IsTurn request.state r = rw e at (deterministic_reply-Turns b request) in
      rw q turn.options
  Cases-Offers b planner request result (inr (inl (rejected trace o r retry n q))) = rw q (λ h. h)
  Cases-Offers b planner request result (inr (inr (accepted trace plan r e f g q))) =
      let turn : IsTurn request.state r = planned_reply-IsTurn b request.state plan r g in
      rw q turn.options

  -- A conversation whose state offers at most five options goes on to states that do.
  pub handle_options :
      (planner : Planner) (cache : Cache) (trace_id : String) (request : TurnRequest)
      (result : TurnResult)
      → length (options_in request.state.pending_question) ≤ 5
      → handle clock planner cache trace_id request ≡ some result
      → length (options_in result.state.pending_question) ≤ 5
  handle_options planner cache trace_id request result few h =
      let (b, active, cases) = handle-Cases clock planner cache trace_id request result h in
      Cases-Offers b planner request result cases few

  -- The time of the provider in the diagnostics of a turn of the fallback route whose planner
  -- raised: zero, whatever the clock says.
  fallback_duration :
      (b : CatalogBundle) (request : TurnRequest) (trace : TurnTrace) (a : PlannerReply)
      (result : TurnResult)
      → (a ≡ timed_out) ⊎ (a ≡ broken)
      → fallback clock b request trace a ≡ some result
      → (result.diagnostics.durations.gigachat ≡ trace.durations.gigachat)
        × (result.diagnostics.gigachat_calls ≡ 1)
  unfolding fallback provider_rejection finish enter
  fallback_duration b request trace a result (inl e) h = ground arith
  fallback_duration b request trace a result (inr e) h = ground arith

  -- When the deterministic path leaves the turn to the planner and the call of the planner times
  -- out or raises, the diagnostics of the turn say that the provider took no time, whatever the
  -- clock reads, while they count one call.
  pub handle_lost_duration :
      (planner : Planner) (cache : Cache) (b : CatalogBundle) (trace_id : String)
      (request : TurnRequest) (result : TurnResult)
      → current cache ≡ some b
      → deterministic_reply b request ≡ unhandled
      → (planner request b ≡ timed_out) ⊎ (planner request b ≡ broken)
      → handle clock planner cache trace_id request ≡ some result
      → (result.diagnostics.durations.gigachat ≡ 0) × (result.diagnostics.gigachat_calls ≡ 1)
  unfolding handle handle_bundle handle_with current agent_trace start enter leave
  handle_lost_duration planner cache b trace_id request result active left raises h =
      fallback_duration b request (agent_trace clock b request trace_id) (planner request b) result
        raises (rw left at (rw active at h))

  Cases-grounded :
      (b : CatalogBundle) (planner : Planner) (request : TurnRequest) (result : TurnResult)
      → Cases clock b planner request result
      → result.route ≡ RouteSource.gigachat_fallback
      → result.outcome ≡ handled
      → (plan : Plan) × (s : System) × (planner request b ≡ planned plan)
        × IsAcceptable b plan
        × (Dict.get b.systems (slot plan.slots "system_id") ≡ some s)
  unfolding result_of provider_rejection
  Cases-grounded b planner request result (inl (decided trace r e q)) route outcome =
      absurd (ground arith)
  Cases-grounded b planner request result (inr (inl (rejected trace o r retry n q))) route outcome =
      absurd (ground (arith, n))
  Cases-grounded b planner request result (inr (inr (accepted trace plan r e f g q))) route
        outcome =
      let good = (refusal-none b plan).0 f in
      elim (planned_reply_cases b request.state plan r g) [
        | asked empty q' ↦ absurd (ground arith)
        | answered a named made q' ↦ elim good.system [
          | inl empty ↦ absurd (named empty)
          | inr (s, there) ↦ (plan, s, e, good, there)
        ]
      ]

  -- An answer that the fallback route marks as handled rests on a plan of the planner for this very
  -- bundle, which is acceptable and names a system of the bundle.
  pub handle_grounded :
      (planner : Planner) (cache : Cache) (trace_id : String) (request : TurnRequest)
      (result : TurnResult)
      → handle clock planner cache trace_id request ≡ some result
      → result.route ≡ RouteSource.gigachat_fallback
      → result.outcome ≡ handled
      → (b : CatalogBundle) × (plan : Plan) × (s : System) × (current cache ≡ some b)
        × (planner request b ≡ planned plan)
        × IsAcceptable b plan
        × (Dict.get b.systems (slot plan.slots "system_id") ≡ some s)
  handle_grounded planner cache trace_id request result h route outcome =
      let (b, active, cases) = handle-Cases clock planner cache trace_id request result h in
      let (plan, s, made, good, there) =
        Cases-grounded b planner request result cases route outcome in
      (b, plan, s, active, made, good, there)
