-- ===== src/Gigachat/Turn.antt =====
-- The agent of app/agent/service.py with the planner of app/providers/gigachat.py.
use role_model_helper_v.Prelude.{String, ◌≡◌, some, string_eq}
use mathlib.Core.Path.{subst}
use role_model_helper_v.Prelude.Dict
use role_model_helper_v.Telemetry.{Clock}
use role_model_helper_v.Agent.Models.{RouteSource, handled, TurnRequest, TurnResult, Plan}
use role_model_helper_v.Agent.Dialogue.Reply.{slot}
use role_model_helper_v.Agent.Engine.{handle}
use role_model_helper_v.Agent.Engine.Plans.Checks.{IsAcceptable}
use role_model_helper_v.Agent.Engine.Outcomes.Results.{handle_grounded}
use role_model_helper_v.Catalog.Bundle.{System, CatalogBundle}
use role_model_helper_v.Catalog.Cache.{Cache, current}
use role_model_helper_v.Gigachat.Json.{Python}
use role_model_helper_v.Gigachat.Planner.{Surroundings, plan}
use role_model_helper_v.Gigachat.Planner.Laws.{IsAnswered, PlanCase, plan_cases}

-- An answer of the fallback route that is marked as handled rests on a plan that the server gave
-- before the deadline, that is acceptable for the active bundle, and that names one of its systems.
pub turn_grounded :
    (clock : Clock) (py : Python) (around : Surroundings) (cache : Cache) (trace_id : String)
    (request : TurnRequest) (result : TurnResult)
    → handle clock (plan py around) cache trace_id request ≡ some result
    → result.route ≡ RouteSource.gigachat_fallback
    → result.outcome ≡ handled
    → (b : CatalogBundle) × (p : Plan) × (s : System) × (current cache ≡ some b)
      × IsAnswered py around request b p
      × IsAcceptable b p
      × (Dict.get b.systems (slot p.slots "system_id") ≡ some s)
turn_grounded clock py around cache trace_id request result h route outcome =
    let (b, p, s, active, made, good, there) =
      handle_grounded clock (plan py around) cache trace_id request result h route outcome in
    (
      b,
      p,
      s,
      active,
      subst (PlanCase py around request b) made (plan_cases py around request b),
      good,
      there,
    )
