-- ===== src/Tests/Gigachat.antt =====
-- The planner over HTTP against a server that answers with one plan.
use role_model_helper_v.Gigachat.Candidates.{candidates_raise}
use role_model_helper_v.Tools.Search.{search_roles_raises}
use role_model_helper_v.Prelude.{
  false, ◌≡◌, refl, ◌≤◌, none, some, length, All, string_eq, list_eq, nat_eq, option_eq,
}
use role_model_helper_v.Prelude.Dict
use role_model_helper_v.Score.{fraction, plus, in_unit, below}
use role_model_helper_v.Telemetry.{start, enter, leave, finish}
use role_model_helper_v.Text.{codes}
use role_model_helper_v.Agent.Models.{Plan}
use role_model_helper_v.Agent.Phrases.{normalize}
use role_model_helper_v.Agent.Answers.{roles_answer}
use role_model_helper_v.Agent.Matches.{system_matches, match_aliases}
use role_model_helper_v.Agent.Dialogue.Reply.{slot}
use role_model_helper_v.Agent.Dialogue.Organization.{organization_request}
use role_model_helper_v.Agent.Deterministic.{
  deterministic_reply, pending_reply, match_reply, or_else,
}
use role_model_helper_v.Agent.Engine.{
  planned, is_well_formed, is_allowed_action, knows_facts, knows_system, handle, handle_bundle,
  handle_with, agent_trace, fallback, plan_result, refusal, planned_reply, planned_state,
  planned_answer, result_of,
}
use role_model_helper_v.Agent.Engine.Plans.Checks.{IsAcceptable}
use role_model_helper_v.Catalog.Bundle.{System, CatalogBundle, from_mapping}
use role_model_helper_v.Catalog.Cache.{current}
use role_model_helper_v.Gigachat.Json.{Json, num, str, arr, obj, nil, cons, end, field, Python}
use role_model_helper_v.Gigachat.Token.{
  Manager, no_token, TokenCache, bearer, token_body, Readings, usable, bearer_token,
}
use role_model_helper_v.Gigachat.Token.Laws.{TokenCase, bearer_token_cases}
use role_model_helper_v.Gigachat.Candidates.{SystemMatch, catalog_candidates}
use role_model_helper_v.Gigachat.Candidates.Laws.{IsShown, catalog_candidates-IsShown}
use role_model_helper_v.Gigachat.Planner.{http_json, Surroundings, plan}
use role_model_helper_v.Gigachat.Planner.Laws.{IsAnswered, PlanCase, plan_cases}
use role_model_helper_v.Gigachat.Turn.{turn_grounded}
use role_model_helper_v.Tests.Data as Data

-- Every text is read as the same plan.
abbrev plan_json : Json
plan_json = obj (
    field "catalog_version" (str "v1") (
      field "intent" (str "ROLE_DISCOVERY") (
        field "action" (str "SEARCH_ROLES") (
          field "slots" (obj (field "system_id" (str "crm") end))
            (field "confidence" (num (plus (fraction 9 10))) end)))))

abbrev python : Python
python = record {
  loads = λ s. some plan_json;
  dumps = λ j. "{}";
  str_of = λ j. "None";
  float_of = λ s. none;
  pairs_of = λ j. none;
}

abbrev around : Surroundings
around = record {
  endpoint = "https://server";
  model = "GigaChat-2-Max";
  deadline_ms = 12000;
  token = bearer "t";
  elapsed_ms = 40;
  server = λ sent. http_json (
      obj (
        field "choices"
          (arr (cons (obj (field "message" (obj (field "content" (str "{…}") end)) end)) nil))
          end));
}

plan_run : plan python around Data.odd_request Data.bundle ≡ planned Data.plan
unfolding candidates_raise search_roles_raises from_mapping Dict.get plan string_eq nat_eq
    Dict.insert
plan_run = refl

plan_cases_example :
    PlanCase python around Data.odd_request Data.bundle
      (plan python around Data.odd_request Data.bundle)
plan_cases_example = plan_cases python around Data.odd_request Data.bundle

catalog_candidates-IsShown_example :
    (length (catalog_candidates Data.odd_request Data.bundle).systems ≤ 5)
    × All
        (λ (m : SystemMatch). IsShown Data.bundle m.id m)
        (catalog_candidates Data.odd_request Data.bundle).systems
catalog_candidates-IsShown_example = catalog_candidates-IsShown Data.odd_request Data.bundle

abbrev manager : Manager
manager = record { auth_key = some "key"; client_id = none; client_secret = none; has_cert = false }

abbrev readings : Readings
readings = record { at_call = 1000; in_lock = 1001; at_parse = 1200; at_store = 1201 }

abbrev fetched : TokenCache
fetched = record { token = some "t"; expires_at = 31201 }

fetched_run :
    bearer_token (λ s. s) manager no_token no_token readings (token_body (some "t") (some 60))
    ≡ (fetched, bearer "t")
unfolding bearer_token string_eq usable
fetched_run = refl

bearer_token_cases_example :
    TokenCase no_token no_token readings
      (token_body (some "t") (some 60))
      (bearer_token (λ s. s) manager no_token no_token readings (token_body (some "t") (some 60))).0
      (bearer_token (λ s. s) manager no_token no_token readings (token_body (some "t") (some 60))).1
bearer_token_cases_example =
    bearer_token_cases (λ s. s) manager no_token no_token readings (token_body (some "t") (some 60))

turn_run :
    handle Data.clock (plan python around) Data.cache "t1" Data.odd_request
    ≡ some Data.fallback_result
unfolding candidates_raise search_roles_raises handle current handle_bundle handle_with agent_trace
    fallback plan_result refusal planned_reply planned_state planned_answer result_of start enter
    leave finish deterministic_reply pending_reply match_reply or_else system_matches
    organization_request normalize codes from_mapping string_eq list_eq nat_eq Dict.insert
    match_aliases is_well_formed is_allowed_action in_unit below knows_facts Dict.get knows_system
    roles_answer Dict.update plan
turn_run = refl

turn_grounded_example :
    (b : CatalogBundle) × (p : Plan) × (s : System) × (current Data.cache ≡ some b)
    × IsAnswered python around Data.odd_request b p
    × IsAcceptable b p
    × (Dict.get b.systems (slot p.slots "system_id") ≡ some s)
turn_grounded_example =
    turn_grounded Data.clock python around Data.cache "t1" Data.odd_request Data.fallback_result
      turn_run refl refl
