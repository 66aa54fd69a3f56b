-- ===== src/Agent/Engine.antt =====
-- `AgentEngine.handle` and `_provider_rejection` of app/agent/service.py. The planner, the clock and
-- the trace ids are parameters; `none` stands for an exception that leaves the handler.
pub mod Replies
pub mod Total
pub mod Plans
pub mod Outcomes
use role_model_helper_v.Prelude.{
  ℕ, suc, String, ◌<>◌, Bool, true, false, ◌&&◌, ◌||◌, not, Option, none, some, List, [], ◌∷◌, map,
}
use role_model_helper_v.Prelude.{◌==◌, contains, nat_eq, string_eq, list_eq, if◌then◌else◌, all}
use mathlib.Core.Option
use role_model_helper_v.Prelude.Dict
use role_model_helper_v.Prelude.Dict.{Dict}
use role_model_helper_v.Score.{fraction, Float, in_unit, below}
use role_model_helper_v.Text.{Text, codes}
use role_model_helper_v.Telemetry.{Clock, TurnTrace, start, enter, leave, finish}
use role_model_helper_v.Telemetry
use role_model_helper_v.Agent.Models.{
  RouteSource, Outcome, handled, needs_clarification, provider_failure, Answer, one, Failure, Plan,
  TurnState, TurnRequest, TurnResult,
}
use role_model_helper_v.Agent.Phrases.{normalize}
use role_model_helper_v.Agent.Answers.{roles_answer, instruction_answer}
use role_model_helper_v.Agent.Dialogue.Reply.{
  Reply, Handled, reply, unhandled, raised, advance, say, slot, question,
}
use role_model_helper_v.Agent.Deterministic.{deterministic_reply}
use role_model_helper_v.Catalog.Bundle.{Department, System, CatalogBundle}
use role_model_helper_v.Catalog.Cache.{Cache, current}

-- What the call of the planner ends with: a plan, a value that is no `Plan`, or an exception.
pub data PlannerReply : Type 0 where
  planned : Plan → PlannerReply
  malformed timed_out broken : PlannerReply

abbrev pub Planner : Type 0
Planner = TurnRequest → CatalogBundle → PlannerReply

-- A plan that is refused: the code and the message of its failure.
abbrev pub Refusal : Type 0
Refusal = String × String

abbrev pub malformed_plan : Refusal
malformed_plan =
    ("MALFORMED_PLAN", "Не удалось однозначно понять запрос. Уточните АС или требуемую роль.")

-- `allowed_actions`: the pairs of an intent and its one action
unfoldable pub is_allowed_action : String → String → Bool
is_allowed_action intent action =
    if intent == "ROLE_DISCOVERY"
    then action == "SEARCH_ROLES"
    else if intent == "SYSTEM_DISCOVERY"
    then action == "SEARCH_SYSTEMS"
    else if intent == "ROLE_ACQUISITION" || intent == "INSTRUCTION_LOOKUP"
    then action == "GET_INSTRUCTION"
    else false

abbrev pub allowed_slot_keys : List String
allowed_slot_keys = "system_id" ∷ "city" ∷ "department" ∷ []

abbrev pub has_allowed_keys : Dict String String → Bool
has_allowed_keys slots =
    all (λ ((key, value) : String × String). contains allowed_slot_keys key) slots

unfoldable pub is_well_formed : Plan → Bool
is_well_formed plan =
    is_allowed_action plan.intent plan.action
    && (has_allowed_keys plan.slots && in_unit plan.confidence)

unfoldable pub knows_system : CatalogBundle → String → Bool
knows_system b system_id = elim (Dict.get b.systems system_id) [ none ↦ false | some _ ↦ true ]

-- `_normalize(x) in {_normalize(…) for item in bundle.departments}`
unfoldable pub knows_city : CatalogBundle → String → Bool
knows_city b city =
    contains (map (λ (d : Department). normalize (codes d.city)) b.departments)
      (normalize (codes city))

unfoldable pub knows_department : CatalogBundle → String → Bool
knows_department b name =
    contains (map (λ (d : Department). normalize (codes d.name)) b.departments)
      (normalize (codes name))

-- The three facts of a plan: each is absent, empty or of the bundle.
unfoldable pub knows_facts : CatalogBundle → Dict String String → Bool
knows_facts b slots =
    (slot slots "system_id" == "" || knows_system b (slot slots "system_id"))
    && ((slot slots "city" == "" || knows_city b (slot slots "city"))
        && (slot slots "department" == "" || knows_department b (slot slots "department")))

-- The checks of a plan, in their order.
unfoldable pub refusal : CatalogBundle → Plan → Option Refusal
refusal b plan =
    if not (is_well_formed plan)
    then some malformed_plan
    else if below plan.confidence (fraction 55 100)
    then some ("LOW_CONFIDENCE", "Запрос понят неуверенно. Уточните АС и ожидаемое действие.")
    else if not (plan.catalog_version == b.version)
    then some ("STALE_PLAN", "Каталог обновился во время запроса. Повторите формулировку.")
    else if not (knows_facts b plan.slots)
    then some (
      "UNKNOWN_CATALOG_FACT", "Указанная АС не найдена в актуальном каталоге. Уточните название.",
    )
    else none

-- The state after a plan that passed.
unfoldable pub planned_state : TurnState → Plan → TurnState
planned_state state plan =
    let missing = slot plan.slots "system_id" == "" in
    record (advance state) {
      intent = some plan.intent;
      phase = if missing then "AWAITING_SLOT" else "ANSWERED";
      slots = Dict.update state.slots plan.slots;
      pending_question = if missing then some (question "system" "slot" []) else none;
    }

unfoldable pub system_answer : CatalogBundle → String → Option Answer
system_answer b system_id =
    Option.map
      (λ (s : System). record {
        text = "АС " <> (s.name <> " найдена в актуальном каталоге.");
        answer_type = "SYSTEM_DISCOVERY";
        facts = ("system_id", one system_id) ∷ ("catalog_version", one b.version) ∷ [];
      })
      (Dict.get b.systems system_id)

-- The answer of a plan that names a system.
unfoldable pub planned_answer : CatalogBundle → String → String → Option Answer
planned_answer b intent system_id =
    if intent == "INSTRUCTION_LOOKUP" || intent == "ROLE_ACQUISITION"
    then instruction_answer b system_id
    else if intent == "SYSTEM_DISCOVERY"
    then system_answer b system_id
    else roles_answer b system_id

-- The reply to a plan that passed.
unfoldable pub planned_reply : CatalogBundle → TurnState → Plan → Option Reply
planned_reply b state plan =
    let system_id = slot plan.slots "system_id" in
    if system_id == ""
    then some (record {
      outcome = needs_clarification;
      state = planned_state state plan;
      answer = some (say "Уточните название автоматизированной системы." plan.intent);
      failure = none;
    })
    else Option.map
        (λ (a : Answer). record {
          outcome = handled;
          state = planned_state state plan;
          answer = some a;
          failure = none;
        })
        (planned_answer b plan.intent system_id)

module _ (clock : Clock) where
  -- `trace.finish` and the `TurnResult` of a reply
  unfoldable pub result_of : RouteSource → ℕ → TurnTrace → Reply → TurnResult
  result_of route calls trace r = record {
    route = route;
    outcome = r.outcome;
    state = r.state;
    answer = r.answer;
    diagnostics = finish clock route r.outcome calls trace;
    failure = r.failure;
  }

  -- `_provider_rejection`
  unfoldable pub provider_rejection :
      TurnRequest → TurnTrace → Outcome → Refusal → Bool → TurnResult
  provider_rejection request trace outcome (code, message) retryable = record {
    route = RouteSource.gigachat_fallback;
    outcome = outcome;
    state = request.state;
    answer = none;
    diagnostics = finish clock RouteSource.gigachat_fallback outcome 1 trace;
    failure = some (record { code = code; user_message = message; retryable = retryable });
  }

  -- What follows `plan`, after its component of the trace was left.
  unfoldable pub plan_result : CatalogBundle → TurnRequest → TurnTrace → Plan → Option TurnResult
  plan_result b request trace plan = elim (refusal b plan) [
    | some r ↦ some (provider_rejection request trace needs_clarification r false)
    | none ↦
        Option.map (λ r. result_of RouteSource.gigachat_fallback 1 trace r)
          (planned_reply b request.state plan)
  ]

  -- The call of the planner and what follows. An exception of the planner is answered inside the
  -- component `gigachat`, whose trace is then not left yet.
  unfoldable pub fallback :
      CatalogBundle → TurnRequest → TurnTrace → PlannerReply → Option TurnResult
  fallback b request trace answer =
      let (started, inside) = enter clock trace in
      let after = leave clock Telemetry.gigachat started inside in
      elim answer [
        | timed_out ↦ some (
            provider_rejection request inside provider_failure
              ("PROVIDER_TIMEOUT", "GigaChat не успел ответить. Повторите запрос.") true)
        | broken ↦ some (
            provider_rejection request inside provider_failure
              ("PROVIDER_ERROR", "GigaChat временно недоступен. Повторите запрос.") true)
        | malformed ↦
            some (provider_rejection request after needs_clarification malformed_plan false)
        | planned plan ↦ plan_result b request after plan
      ]

  -- The trace after `_deterministic`.
  unfoldable pub agent_trace : CatalogBundle → TurnRequest → String → TurnTrace
  agent_trace b request trace_id =
      let (started, inside) =
        enter clock (start clock trace_id request.request_id b.version true) in
      leave clock Telemetry.agent started inside

  -- `handle`, for the bundle that the cache gave and what the deterministic path did
  unfoldable pub handle_with :
      Planner → CatalogBundle → TurnRequest → TurnTrace → Handled → Option TurnResult
  handle_with planner b request trace raised = none
  handle_with planner b request trace (reply r) =
      some (result_of RouteSource.deterministic 0 trace r)
  handle_with planner b request trace unhandled = fallback b request trace (planner request b)

  unfoldable pub handle_bundle : Planner → CatalogBundle → String → TurnRequest → Option TurnResult
  handle_bundle planner b trace_id request =
      handle_with planner b request (agent_trace b request trace_id) (deterministic_reply b request)

  -- `handle`: without an active bundle, `CatalogCache.get` raises.
  unfoldable pub handle : Planner → Cache → String → TurnRequest → Option TurnResult
  handle planner cache trace_id request = elim (current cache) [
    | none ↦ none
    | some b ↦ handle_bundle planner b trace_id request
  ]
