-- ===== src/Tests/Agent.antt =====
-- The agent on a small catalog.
use role_model_helper_v.Prelude.{
  true, String, ◌≡◌, refl, ◌↔◌, ◌⊎◌, inl, none, some, [], ◌∷◌, string_eq, nat_eq, list_eq,
  option_eq,
}
use role_model_helper_v.Prelude.Dict
use role_model_helper_v.Telemetry.{start, enter, leave, finish}
use role_model_helper_v.Agent.Models.{
  RouteSource, handled, provider_failure, TurnResult, Answer, Failure,
}
use role_model_helper_v.Agent.Phrases.{normalize}
use role_model_helper_v.Agent.Matches.{system_matches, match_aliases}
use role_model_helper_v.Agent.Dialogue.Reply.{Reply, reply, or_none, unhandled}
use role_model_helper_v.Agent.Dialogue.Organization.{organization_request}
use role_model_helper_v.Agent.Deterministic.{
  deterministic_reply, pending_reply, match_reply, or_else,
}
use role_model_helper_v.Agent.Engine.{
  is_well_formed, is_allowed_action, knows_facts, knows_system, handle, handle_bundle, handle_with,
  agent_trace, fallback, plan_result, refusal, planned_reply, planned_state, planned_answer,
  result_of, provider_rejection,
}
use role_model_helper_v.Agent.Answers.{roles_answer}
use role_model_helper_v.Agent.Engine.Outcomes.Results.{handle_answers, handle_lost_duration}
use role_model_helper_v.Agent.Engine.Plans.Checks.{IsAcceptable, refusal-none}
use role_model_helper_v.Catalog.Bundle.{from_mapping}
use role_model_helper_v.Catalog.Cache.{current}
use role_model_helper_v.Score.{in_unit, below}
use role_model_helper_v.Agent.Dialogue.Profile.{
  access_answer, finish_profile_access, role_ids_in, resolved_profiles, profile_answer, roles_raise,
}
use role_model_helper_v.Agent.Dialogue.Profile.Laws.{
  listed_systems, Grounded, finish_profile_access-Grounded,
}
use role_model_helper_v.Tools.Search.{
  search_roles_raises, resolve_profiles, search_systems, search_roles,
}
use role_model_helper_v.Catalog.Normalization.{normalize_query}
use role_model_helper_v.Text.{codes}
use role_model_helper_v.Tests.Data.{
  bundle, cache, clock, plan, good_planner, late_planner, odd_request, fallback_result, fresh_state,
}

odd_unhandled : deterministic_reply bundle odd_request ≡ unhandled
unfolding deterministic_reply pending_reply match_reply or_else system_matches organization_request
    normalize codes from_mapping string_eq list_eq nat_eq Dict.insert match_aliases
odd_unhandled = refl

fallback_run : handle clock good_planner cache "t1" odd_request ≡ some fallback_result
unfolding handle current handle_bundle handle_with agent_trace fallback plan_result refusal
    planned_reply planned_state planned_answer result_of start enter leave finish
    deterministic_reply pending_reply match_reply or_else system_matches organization_request
    normalize codes from_mapping string_eq list_eq nat_eq Dict.insert match_aliases is_well_formed
    is_allowed_action in_unit below knows_facts Dict.get knows_system roles_answer Dict.update
fallback_run = refl

handle_answers_example :
    ((a : Answer) × (fallback_result.answer ≡ some a)
      × (fallback_result.failure ≡ none)
      × (fallback_result.state.session_id ≡ "s1")
      × (fallback_result.state.revision ≡ 1))
    ⊎ ((f : Failure) × (fallback_result.failure ≡ some f)
        × (fallback_result.answer ≡ none)
        × (fallback_result.state ≡ odd_request.state))
handle_answers_example =
    handle_answers clock good_planner cache "t1" odd_request fallback_result fallback_run

abbrev lost_result : TurnResult
lost_result = record {
  route = RouteSource.gigachat_fallback;
  outcome = provider_failure;
  state = odd_request.state;
  answer = none;
  diagnostics = record {
    trace_id = "t1";
    request_id = "q1";
    route = RouteSource.gigachat_fallback;
    outcome = provider_failure;
    catalog_version = "v1";
    cache_hit = true;
    gigachat_calls = 1;
    durations = record {
      state_read = 0;
      retrieval = 0;
      agent = 10;
      gigachat = 0;
      state_write = 0;
      total = 40;
    };
  };
  failure = some (record {
    code = "PROVIDER_TIMEOUT";
    user_message = "GigaChat не успел ответить. Повторите запрос.";
    retryable = true;
  });
}

lost_run : handle clock late_planner cache "t1" odd_request ≡ some lost_result
unfolding handle current handle_bundle handle_with agent_trace fallback provider_rejection start
    enter leave finish deterministic_reply pending_reply match_reply or_else system_matches
    organization_request normalize codes from_mapping string_eq list_eq nat_eq Dict.insert
    match_aliases
lost_run = refl

handle_lost_duration_example :
    (lost_result.diagnostics.durations.gigachat ≡ 0) × (lost_result.diagnostics.gigachat_calls ≡ 1)
unfolding current
handle_lost_duration_example =
    handle_lost_duration clock late_planner cache bundle "t1" odd_request lost_result refl
      odd_unhandled (inl refl) lost_run

refusal-none_example : (refusal bundle plan ≡ none) ↔ IsAcceptable bundle plan
refusal-none_example = refusal-none bundle plan

abbrev linked_slots : Dict.Dict String String
linked_slots = ("department_id", "d1") ∷ ("position_id", "p1") ∷ []

abbrev access_reply : Reply
access_reply = record {
  outcome = handled;
  state = record {
    session_id = "s1";
    revision = 1;
    intent = some "ROLE_DISCOVERY";
    phase = "ANSWERED";
    slots = ("department_id", "d1") ∷ ("position_id", "p1") ∷ ("profile_id", "f1") ∷ [];
    pending_question = none;
  };
  answer = some (access_answer bundle "d1" "p1" ("f1" ∷ []));
  failure = none;
}

access_run : finish_profile_access fresh_state bundle linked_slots ≡ reply access_reply
unfolding roles_raise search_systems search_roles_raises finish_profile_access resolved_profiles
    profile_answer resolve_profiles from_mapping Dict.get Dict.insert string_eq list_eq nat_eq codes
    or_none normalize_query
access_run = refl

finish_profile_access-Grounded_example : Grounded fresh_state bundle linked_slots access_reply
finish_profile_access-Grounded_example =
    finish_profile_access-Grounded fresh_state bundle linked_slots access_reply access_run refl

-- The only role of the answer.
access_roles : role_ids_in bundle ("f1" ∷ []) (listed_systems bundle ("f1" ∷ [])) ≡ "r1" ∷ []
unfolding role_ids_in from_mapping Dict.get Dict.insert string_eq list_eq nat_eq codes
    search_systems search_roles
access_roles = refl
