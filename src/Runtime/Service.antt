-- ===== src/Runtime/Service.antt =====
-- `RuntimeService` of app/runtime/service.py. The engine is a parameter, `none` where it raises;
-- it runs between two transactions. Service/Threads has the interleavings of several requests.
pub mod Laws
pub mod Threads
pub mod Agent
pub mod Causes
use role_model_helper_v.Prelude.{ℕ, String, Bool, Option, none, some, List, []}
use role_model_helper_v.Prelude.{◌==◌, nat_eq, string_eq, if◌then◌else◌}
use role_model_helper_v.Agent.Models.{TurnState, TurnRequest, TurnResult, empty}
use role_model_helper_v.Runtime.Payload.{
  StatePayload, ResponsePayload, state_payload, state_from_payload, result_payload,
}
use role_model_helper_v.Runtime.Store.{
  Error, Result, ok, err, session_not_found, revision_conflict, engine_error, Tables, Turn,
  SessionView, get_replay, get_state, commit_turn,
}
use role_model_helper_v.Runtime.Store

abbrev pub Engine : Type 0
Engine = TurnRequest → Option TurnResult

pub record Post : Type 0 where
  pub session_id : String
  pub request_id : String
  pub text : String
  pub state_revision : ℕ

-- `session_id or str(uuid.uuid4())`
new_id : Option String → String → String
new_id none uuid = uuid
new_id (some s) uuid = if s == "" then uuid else s

-- `create_session`, with the id that `uuid4` would give.
unfoldable pub create_session : Option String → String → Tables → Result SessionView × Tables
unfolding new_id
create_session given uuid db =
    let session_id = new_id given uuid in
    let state = state_payload (empty session_id) in
    let (result, db') = Store.create_session session_id state db in
    (
      elim result [
        | ok _ ↦ ok (record { session_id = session_id; state = state; messages = [] })
        | err e ↦ err e
      ],
      db',
    )

-- `get_session`
unfoldable pub get_session : String → Tables → Result SessionView
get_session session_id db = Store.get_session session_id db

-- What `post_message` has after reading the state: an error, or the state for the engine.
pub data Read : Type 0 where
  refused : Error → Read
  current : TurnState → Read

unfoldable pub read_state : Post → Tables → Read
read_state p db = elim (get_state p.session_id db) [
  | none ↦ refused (session_not_found p.session_id)
  | some payload ↦
      let state = state_from_payload payload p.session_id in
      if state.revision == p.state_revision
      then current state
      else refused (revision_conflict state.revision p.state_revision)
]

unfoldable pub request_of : Post → TurnState → TurnRequest
request_of p state = record { request_id = p.request_id; text = p.text; state = state }

-- The arguments of the last call, `commit_turn`.
unfoldable pub turn_of : Post → TurnResult → Turn
turn_of p result = record {
  session_id = p.session_id;
  request_id = p.request_id;
  user_text = p.text;
  expected_revision = p.state_revision;
  response = result_payload result;
  state = state_payload result.state;
  catalog_version = result.diagnostics.catalog_version;
  trace_id = result.diagnostics.trace_id;
}

-- `post_message`, where no other request comes between its transactions.
unfoldable pub post_message : Engine → Post → Tables → Result ResponsePayload × Tables
unfolding read_state request_of
post_message engine p db = elim (get_replay p.session_id p.request_id db) [
  | some response ↦ (ok response, db)
  | none ↦ elim (read_state p db) [
    | refused e ↦ (err e, db)
    | current state ↦ elim (engine (request_of p state)) [
      | none ↦ (err engine_error, db)
      | some result ↦ commit_turn (turn_of p result) db
    ]
  ]
]
