-- ===== src/Tests/Data.antt =====
-- A small catalog, a session and the requests that the tests share.
use role_model_helper_v.Prelude.{true, ◌*◌, none, some, [], ◌∷◌}
use role_model_helper_v.Score.{fraction, plus}
use role_model_helper_v.Telemetry.{Clock}
use role_model_helper_v.Agent.Models.{
  RouteSource, handled, one, many, TurnResult, TurnState, TurnRequest, Plan,
}
use role_model_helper_v.Agent.Engine.{Planner, planned, timed_out}
use role_model_helper_v.Catalog.Bundle.{
  at_level, System, Instruction, DepartmentEntry, PositionEntry, ProfileEntry, Document,
  CatalogBundle, from_mapping,
}
use role_model_helper_v.Catalog.Cache.{Cache, init}

abbrev pub crm : System
crm = record {
  id = "crm";
  name = "CRM";
  aliases = [];
  roles = record { id = "r1"; name = "viewer"; access_level = at_level 1 } ∷ [];
}

abbrev pub sales : DepartmentEntry
sales = record { id = "d1"; name = "sales 2"; city = some "omsk"; aliases = [] }

abbrev pub clerk : PositionEntry
clerk = record { id = "p1"; name = "clerk"; aliases = [] }

abbrev pub sales_clerk : ProfileEntry
sales_clerk = record {
  id = "f1";
  name = some "sales clerk";
  city = some "omsk";
  department_ids = "d1" ∷ [];
  position_ids = "p1" ∷ [];
  access = record { system_id = "crm"; role_ids = "r1" ∷ [] } ∷ [];
}

abbrev pub guide : Instruction
guide = record { id = "i1"; title = some "guide"; system_id = some "crm"; citation = none }

abbrev pub document : Document
document = record {
  version = "v1";
  systems = crm ∷ [];
  departments = sales ∷ [];
  positions = clerk ∷ [];
  profiles = sales_clerk ∷ [];
  instructions = guide ∷ [];
}

abbrev pub bundle : CatalogBundle
bundle = from_mapping document

abbrev pub cache : Cache
cache = record init { active = some bundle }

-- A clock that goes on by ten with every reading.
abbrev pub clock : Clock
clock n = 10 * n

abbrev pub plan : Plan
plan = record {
  catalog_version = "v1";
  intent = "ROLE_DISCOVERY";
  action = "SEARCH_ROLES";
  slots = ("system_id", "crm") ∷ [];
  confidence = plus (fraction 9 10);
}

abbrev pub good_planner : Planner
good_planner request b = planned plan

abbrev pub late_planner : Planner
late_planner request b = timed_out

abbrev pub fresh_state : TurnState
fresh_state = record {
  session_id = "s1";
  revision = 0;
  intent = none;
  phase = "READY";
  slots = [];
  pending_question = none;
}

-- A text that no system, no department and no marker matches.
abbrev pub odd_request : TurnRequest
odd_request = record { request_id = "q1"; text = "zzzz"; state = fresh_state }

abbrev pub reset_request : TurnRequest
reset_request = record { request_id = "q2"; text = "сброс"; state = fresh_state }

-- What the fallback route makes of the odd request.
abbrev pub fallback_result : TurnResult
fallback_result = record {
  route = RouteSource.gigachat_fallback;
  outcome = handled;
  state = record {
    session_id = "s1";
    revision = 1;
    intent = some "ROLE_DISCOVERY";
    phase = "ANSWERED";
    slots = ("system_id", "crm") ∷ [];
    pending_question = none;
  };
  answer = some (record {
    text = "Роли для АС CRM:\n1. viewer (по умолчанию)";
    answer_type = "ROLE_DISCOVERY";
    facts =
        ("system_id", one "crm")
        ∷ ("role_ids", many ("r1" ∷ []))
        ∷ ("catalog_version", one "v1")
        ∷ [];
  });
  diagnostics = record {
    trace_id = "t1";
    request_id = "q1";
    route = RouteSource.gigachat_fallback;
    outcome = handled;
    catalog_version = "v1";
    cache_hit = true;
    gigachat_calls = 1;
    durations = record {
      state_read = 0;
      retrieval = 0;
      agent = 10;
      gigachat = 10;
      state_write = 0;
      total = 50;
    };
  };
  failure = none;
}
