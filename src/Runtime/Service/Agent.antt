-- ===== src/Runtime/Service/Agent.antt =====
-- The service and the engine of the agent together.
use role_model_helper_v.Prelude.{
  suc, ◌≤◌, String, ◌≡◌, ap, ◌⊎◌, inl, inr, Bool, true, false, some, arith,
}
use role_model_helper_v.Prelude.{nat_eq, string_eq}
use role_model_helper_v.Telemetry.{Clock}
use role_model_helper_v.Agent.Models.{TurnState, TurnRequest, TurnResult}
use role_model_helper_v.Agent.Engine.{Planner, handle}
use role_model_helper_v.Agent.Engine.Outcomes.Results.{handle_calls, handle_answers}
use role_model_helper_v.Catalog.Cache.{Cache}
use role_model_helper_v.Runtime.Payload.{state_payload, result_payload}
use role_model_helper_v.Runtime.Store.{
  Error, err, session_not_found, revision_conflict, invalid_next_revision, integrity_error,
  engine_error, Tables, Turn, commit_turn,
}
use role_model_helper_v.Runtime.Service.{
  Engine, Post, refused, current, read_state, request_of, turn_of, post_message,
}
use role_model_helper_v.Runtime.Service.Laws.{IsRaised, post_message-Cases}

-- The engine that `RuntimeService` is built with; `ids` are the trace ids of its turns.
abbrev pub agent : Clock → Planner → Cache → (TurnRequest → String) → Engine
agent clock planner cache ids request = handle clock planner cache (ids request) request

-- The errors that come of a request and not of the service itself: the other two are a next
-- revision that the store refuses and a violated constraint of the database.
unfoldable pub is_expected : Error → Bool
is_expected (session_not_found s) = true
is_expected (revision_conflict a b) = true
is_expected (invalid_next_revision a b) = false
is_expected integrity_error = false
is_expected engine_error = true

commit_turn-is_expected :
    (t : Turn) (db : Tables) (e : Error)
    → t.response.diagnostics.gigachat_calls ≤ 1
    → (t.state.revision ≡ t.expected_revision) ⊎ (t.state.revision ≡ suc t.expected_revision)
    → (commit_turn t db).0 ≡ err e
    → is_expected e ≡ true
unfolding commit_turn is_expected
commit_turn-is_expected t db e calls next h = ground arith

read_state-revision :
    (p : Post) (db : Tables) (t : TurnState)
    → read_state p db ≡ current t
    → t.revision ≡ p.state_revision
unfolding read_state
read_state-revision p db t h = ground arith

read_state-is_expected :
    (p : Post) (db : Tables) (e : Error) → read_state p db ≡ refused e → is_expected e ≡ true
unfolding read_state is_expected
read_state-is_expected p db e h = ground arith

module _ (clock : Clock) (planner : Planner) (cache : Cache) (ids : TurnRequest → String) where
  next_revision :
      (request : TurnRequest) (result : TurnResult)
      → agent clock planner cache ids request ≡ some result
      → (result.state.revision ≡ request.state.revision)
        ⊎ (result.state.revision ≡ suc request.state.revision)
  next_revision request result h =
      elim (handle_answers clock planner cache (ids request) request result h) [
        | inl (a, said, sound, session, revision) ↦ inr revision
        | inr (f, failed, silent, same) ↦ inl (ap (λ (s : TurnState). s.revision) same)
      ]

  commit_of :
      (p : Post) (db : Tables) (t : TurnState) (result : TurnResult) (e : Error)
      → read_state p db ≡ current t
      → agent clock planner cache ids (request_of p t) ≡ some result
      → (commit_turn (turn_of p result) db).0 ≡ err e
      → is_expected e ≡ true
  unfolding request_of turn_of result_payload state_payload
  commit_of p db t result e read made h =
      commit_turn-is_expected (turn_of p result) db e
        (handle_calls clock planner cache _ (request_of p t) result made).0
        (rw (read_state-revision p db t read) at (next_revision (request_of p t) result made)) h

  early :
      (p : Post) (db : Tables) (e f : Error)
      → (read_state p db ≡ refused f) ⊎ IsRaised (agent clock planner cache ids) p db f
      → f ≡ e
      → is_expected e ≡ true
  unfolding is_expected
  early p db e f (inl r) h = ground (arith, read_state-is_expected p db f r)
  early p db e f (inr (r, raised)) h = ground (arith, r)

  -- With the engine of the agent the store never refuses the next revision, nor the number of
  -- planner calls.
  pub post_message-is_expected :
      (p : Post) (db : Tables) (e : Error)
      → (post_message (agent clock planner cache ids) p db).0 ≡ err e
      → is_expected e ≡ true
  post_message-is_expected p db e h =
      elim (post_message-Cases (agent clock planner cache ids) p db) [
        | inl (r, stored, q) ↦ absurd (ground (arith, q))
        | inr (inl (f, fresh, why, q)) ↦ early p db e f why (ground (arith, q))
        | inr (inr (result, t, fresh, read, made, q)) ↦
            commit_of p db t result e read made (rw q at h)
      ]
