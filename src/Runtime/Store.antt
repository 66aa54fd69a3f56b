-- ===== src/Runtime/Store.antt =====
-- `PostgresStateStore` of app/runtime/postgres.py over the two tables that it uses. A method is
-- one transaction: it returns its result and the tables, and an exception rolls them back.
pub mod Invariant
pub mod Commit
use role_model_helper_v.Prelude.{
  ℕ, suc, ◌+◌, String, Bool, true, false, ◌&&◌, ◌||◌, not, Option, none, some, List, [], ◌∷◌, ◌++◌,
  map,
}
use role_model_helper_v.Prelude.{◌==◌, leb, nat_eq, string_eq, if◌then◌else◌}
use mathlib.Core.Option
use role_model_helper_v.Prelude.Dict
use role_model_helper_v.Prelude.Dict.{Dict}
use role_model_helper_v.Agent.Models.{RouteSource, Outcome}
use role_model_helper_v.Runtime.Payload.{StatePayload, ResponsePayload, Assistant}

-- `SessionNotFound`, `StateRevisionConflict`, a constraint of the database, and what the engine
-- raises. The connection works, and the texts hold no NUL, for which the driver raises before
-- any row is written.
pub data Error : Type 0 where
  session_not_found : String → Error
  revision_conflict : ℕ → ℕ → Error
  invalid_next_revision : ℕ → ℕ → Error
  integrity_error : Error
  engine_error : Error

pub data Result {ℓ} (A : Type ℓ) : Type ℓ where
  ok : A → Result A
  err : Error → Result A

pub record SessionRow : Type 0 where
  pub revision : ℕ
  pub state_json : StatePayload

pub record TurnRow : Type 0 where
  pub session_id : String
  pub request_id : String
  pub user_text : String
  pub response_json : ResponsePayload
  pub catalog_version : String
  pub trace_id : String
  pub route : RouteSource
  pub outcome : Outcome
  pub gigachat_calls : ℕ
  pub total_ms : ℕ
  pub gigachat_ms : ℕ

-- `session_state` by its primary key, and `turn_message` in the order of its ids.
pub record Tables : Type 0 where
  pub sessions : Dict String SessionRow
  pub turns : List TurnRow

-- `create_session`; the primary key refuses a session that is there.
unfoldable pub create_session : String → StatePayload → Tables → Result (Unit {0}) × Tables
create_session session_id state db = elim (Dict.get db.sessions session_id) [
  | some _ ↦ (err integrity_error, db)
  | none ↦ (
    ok tt,
    record db {
      sessions =
          Dict.insert session_id (record { revision = state.revision; state_json = state })
            db.sessions;
    },
  )
]

-- `get_state`
unfoldable pub get_state : String → Tables → Option StatePayload
get_state session_id db =
    Option.map (λ (r : SessionRow). r.state_json) (Dict.get db.sessions session_id)

unfoldable pub is_turn : String → String → TurnRow → Bool
is_turn session_id request_id row = row.session_id == session_id && row.request_id == request_id

unfoldable pub find_response : String → String → List TurnRow → Option ResponsePayload
unfolding is_turn
find_response session_id request_id [] = none
find_response session_id request_id (row ∷ rows) =
    if is_turn session_id request_id row
    then some row.response_json
    else find_response session_id request_id rows

-- `get_replay`
unfoldable pub get_replay : String → String → Tables → Option ResponsePayload
unfolding find_response
get_replay session_id request_id db = find_response session_id request_id db.turns

pub record Message : Type 0 where
  pub request_id : String
  pub user_text : String
  pub assistant : Assistant
  pub catalog_version : String
  pub trace_id : String

pub record SessionView : Type 0 where
  pub session_id : String
  pub state : StatePayload
  pub messages : List Message

messages_of : String → List TurnRow → List Message
messages_of session_id [] = []
messages_of session_id (row ∷ rows) =
    let rest = messages_of session_id rows in
    if row.session_id == session_id
    then record {
      request_id = row.request_id;
      user_text = row.user_text;
      assistant = row.response_json.assistant;
      catalog_version = row.catalog_version;
      trace_id = row.trace_id;
    }
      ∷ rest
    else rest

-- `get_session`, without the times of the messages.
unfoldable pub get_session : String → Tables → Result SessionView
unfolding messages_of
get_session session_id db = elim (Dict.get db.sessions session_id) [
  | none ↦ err (session_not_found session_id)
  | some row ↦ ok (record {
    session_id = session_id;
    state = row.state_json;
    messages = messages_of session_id db.turns;
  })
]

pub record Turn : Type 0 where
  pub session_id : String
  pub request_id : String
  pub user_text : String
  pub expected_revision : ℕ
  pub response : ResponsePayload
  pub state : StatePayload
  pub catalog_version : String
  pub trace_id : String

unfoldable pub row_of : Turn → TurnRow
row_of t =
    let d = t.response.diagnostics in
    record {
      session_id = t.session_id;
      request_id = t.request_id;
      user_text = t.user_text;
      response_json = t.response;
      catalog_version = t.catalog_version;
      trace_id = t.trace_id;
      route = d.route;
      outcome = d.outcome;
      gigachat_calls = d.gigachat_calls;
      total_ms = d.durations.total;
      gigachat_ms = d.durations.gigachat;
    }

-- The inserts and updates of `commit_turn`. The constraint on `gigachat_calls` is that of
-- `_apply_version_2`; the update finds the row that the first query has locked.
write_turn : Turn → SessionRow → Tables → Result ResponsePayload × Tables
unfolding row_of
write_turn t session db =
    if not (leb t.response.diagnostics.gigachat_calls 1)
    then (err integrity_error, db)
    else if session.revision == t.expected_revision
    then (
      ok t.response,
      record {
        sessions =
            Dict.insert t.session_id (record { revision = t.state.revision; state_json = t.state })
              db.sessions;
        turns = db.turns ++ row_of t ∷ [];
      },
    )
    else (err (revision_conflict session.revision t.expected_revision), db)

-- `commit_turn`
unfoldable pub commit_turn : Turn → Tables → Result ResponsePayload × Tables
unfolding write_turn
commit_turn t db = elim (Dict.get db.sessions t.session_id) [
  | none ↦ (err (session_not_found t.session_id), db)
  | some session ↦ elim (get_replay t.session_id t.request_id db) [
    | some response ↦ (ok response, db)
    | none ↦
        if not (session.revision == t.expected_revision)
        then (err (revision_conflict session.revision t.expected_revision), db)
        else if not
            (t.state.revision == t.expected_revision || t.state.revision == t.expected_revision + 1)
        then (err (invalid_next_revision t.state.revision t.expected_revision), db)
        else write_turn t session db
  ]
]
