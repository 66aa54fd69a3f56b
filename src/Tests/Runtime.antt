-- ===== src/Tests/Runtime.antt =====
-- The service and the store on a small catalog.
use role_model_helper_v.Prelude.{◌≡◌, refl, none, some, string_eq, nat_eq, list_eq, option_eq}
use role_model_helper_v.Prelude.Dict
use role_model_helper_v.Telemetry.{start, enter, leave, finish}
use role_model_helper_v.Score.{in_unit, below}
use role_model_helper_v.Text.{codes}
use role_model_helper_v.Agent.Models.{empty}
use role_model_helper_v.Agent.Phrases.{normalize}
use role_model_helper_v.Agent.Matches.{system_matches, match_aliases}
use role_model_helper_v.Agent.Answers.{roles_answer}
use role_model_helper_v.Agent.Dialogue.Organization.{organization_request}
use role_model_helper_v.Agent.Deterministic.{
  deterministic_reply, pending_reply, match_reply, or_else,
}
use role_model_helper_v.Agent.Engine.{
  is_well_formed, is_allowed_action, knows_facts, knows_system, handle, handle_bundle, handle_with,
  agent_trace, fallback, plan_result, refusal, planned_reply, planned_state, planned_answer,
  result_of,
}
use role_model_helper_v.Catalog.Bundle.{from_mapping}
use role_model_helper_v.Catalog.Cache.{current}
use role_model_helper_v.Runtime.Payload.{
  ResponsePayload, state_payload, state_from_payload, result_payload,
  state_from_payload-state_payload,
}
use role_model_helper_v.Runtime.Store.{
  Error, Result, ok, err, revision_conflict, Tables, Turn, SessionRow, get_replay, get_state,
  find_response, is_turn, commit_turn,
}
use role_model_helper_v.Runtime.Store
use role_model_helper_v.Runtime.Store.Commit.{Outcomes, commit_turn_cases}
use role_model_helper_v.Runtime.Store.Invariant.{
  IsConsistent, empty-IsConsistent, commit_turn-IsConsistent, get_replay-commit_turn,
  commit_turn_frame, Advances,
}
use role_model_helper_v.Runtime.Store.Invariant
use role_model_helper_v.Runtime.Service.{
  Engine, Post, create_session, post_message, read_state, request_of, turn_of,
}
use role_model_helper_v.Runtime.Service.Laws.{post_message_replay, post_message_atomic}
use role_model_helper_v.Runtime.Service.Agent.{agent}
use role_model_helper_v.Runtime.Service.Causes.{Explains, post_message_errors}
use role_model_helper_v.Runtime.Service.Threads.{
  Shared, Step, pick, Reach, begin, later, create, look, read, commit, after_read, answered,
  after_replay, Pc, update, Reach-IsConsistent, replies_agree, revision-Advances,
}
use role_model_helper_v.Tests.Data.{cache, clock, good_planner, fresh_state, fallback_result}

abbrev engine : Engine
engine = agent clock good_planner cache (λ request. "t1")

abbrev pub tables : Tables
tables = (create_session (some "s1") "u1" Invariant.empty).1

abbrev odd_post : Post
odd_post = record { session_id = "s1"; request_id = "q1"; text = "zzzz"; state_revision = 0 }

abbrev stale_post : Post
stale_post = record { session_id = "s1"; request_id = "q1"; text = "zzzz"; state_revision = 5 }

odd_answered : (post_message engine odd_post tables).0 ≡ ok (result_payload fallback_result)
unfolding post_message create_session Store.create_session empty state_payload get_replay
    find_response read_state get_state state_from_payload request_of turn_of commit_turn
    result_payload handle current handle_bundle handle_with agent_trace fallback plan_result refusal
    planned_reply planned_state planned_answer result_of start enter leave finish
    deterministic_reply pending_reply match_reply or_else system_matches organization_request
    normalize codes from_mapping string_eq list_eq nat_eq Dict.insert match_aliases is_well_formed
    is_allowed_action in_unit below knows_facts Dict.get knows_system roles_answer Dict.update
odd_answered = refl

post_message_replay_example :
    post_message (λ request. none) odd_post (post_message engine odd_post tables).1
    ≡ (ok (result_payload fallback_result), (post_message engine odd_post tables).1)
post_message_replay_example =
    post_message_replay engine (λ request. none) odd_post odd_post tables
      (result_payload fallback_result) odd_answered refl refl

stale_refused : (post_message engine stale_post tables).0 ≡ err (revision_conflict 0 5)
unfolding post_message create_session Store.create_session empty state_payload get_replay
    find_response read_state get_state state_from_payload string_eq nat_eq Dict.insert Dict.get
stale_refused = refl

post_message_atomic_example : (post_message engine stale_post tables).1 ≡ tables
post_message_atomic_example =
    post_message_atomic engine stale_post tables (revision_conflict 0 5) stale_refused

post_message_errors_example :
    (get_replay "s1" "q1" tables ≡ none)
    × Explains
        (agent clock good_planner cache (λ request. "t1"))
        stale_post
        tables
        (revision_conflict 0 5)
post_message_errors_example =
    post_message_errors clock good_planner cache (λ request. "t1") stale_post tables
      (revision_conflict 0 5) stale_refused

abbrev odd_turn : Turn
odd_turn = turn_of odd_post fallback_result

commit_turn_cases_example : Outcomes odd_turn tables
commit_turn_cases_example = commit_turn_cases odd_turn tables

state_from_payload-state_payload_example :
    state_from_payload (state_payload fresh_state) "s1" ≡ fresh_state
state_from_payload-state_payload_example = state_from_payload-state_payload fresh_state (λ e. cc)

-- A thread creates the session; two threads then post the same request, one after the other.
abbrev created : Shared
created = record {
  db = (Store.create_session "s1" (state_payload (empty "s1")) Invariant.empty).1;
  pc = update (λ i. Pc.idle) 0 Pc.idle;
}

abbrev at_first : Shared
at_first = record { db = Invariant.empty; pc = λ i. Pc.idle }

created-Step : Step at_first created
created-Step = pick 0 (create "s1")

Reach-IsConsistent_example : IsConsistent created.db
Reach-IsConsistent_example = Reach-IsConsistent (later begin created-Step)

abbrev looked : Shared
looked = record {
  db = created.db;
  pc = update created.pc 0 (after_replay odd_post (get_replay "s1" "q1" created.db));
}

looked-Step : Step created looked
unfolding nat_eq
looked-Step = pick 0 (look odd_post)

abbrev first_row : SessionRow
first_row = record { revision = 0; state_json = state_payload (empty "s1") }

revision-Advances_example : Advances "s1" first_row looked.db
unfolding Store.create_session state_payload empty Dict.get Dict.insert string_eq
revision-Advances_example = revision-Advances "s1" first_row looked-Step refl

abbrev has_read : Shared
has_read = record {
  db = created.db;
  pc = update looked.pc 0 (after_read odd_post (read_state odd_post created.db));
}

abbrev committed : Shared
committed = record {
  db = (commit_turn odd_turn created.db).1;
  pc = update has_read.pc 0 (answered odd_post (commit_turn odd_turn created.db).0);
}

committed-Reach : Reach committed
unfolding nat_eq string_eq get_replay find_response read_state get_state state_from_payload
    state_payload empty after_replay after_read Store.create_session Dict.get Dict.insert
committed-Reach =
    later (later (later (later begin created-Step) looked-Step) (pick 0 (read {p = odd_post})))
      (pick 0 (commit {p = odd_post} {state = fresh_state} fallback_result))

abbrev response : ResponsePayload
response = result_payload fallback_result

replies_agree_example : response ≡ response
unfolding nat_eq string_eq get_replay find_response state_payload empty Store.create_session
    Dict.get Dict.insert commit_turn turn_of result_payload
replies_agree_example =
    replies_agree committed-Reach 0 0 odd_post odd_post response response refl refl refl refl
