-- ===== src/Runtime/Service/Causes.antt =====
-- Why `post_message` fails.
use role_model_helper_v.Prelude.{
  String, ◌≡◌, ◌≢◌, refl, sym, ◌⊎◌, inl, inr, none, some, arith, true, Option-cases, nat_eq,
  string_eq,
}
use mathlib.Core.Path.{subst}
use role_model_helper_v.Prelude.Dict
use role_model_helper_v.Telemetry.{Clock}
use role_model_helper_v.Agent.Models.{TurnState, TurnRequest, TurnResult}
use role_model_helper_v.Agent.Engine.{Planner}
use role_model_helper_v.Catalog.Cache.{Cache}
use role_model_helper_v.Runtime.Payload.{ResponsePayload, state_from_payload}
use role_model_helper_v.Runtime.Store.{
  Error, Result, err, session_not_found, revision_conflict, invalid_next_revision, integrity_error,
  engine_error, SessionRow, Tables, Turn, get_state, get_replay, commit_turn,
}
use role_model_helper_v.Runtime.Service.{
  Engine, Post, refused, current, read_state, request_of, turn_of, post_message,
}
use role_model_helper_v.Runtime.Service.Laws.{IsRaised, post_message-Cases}
use role_model_helper_v.Runtime.Service.Agent.{agent, is_expected, post_message-is_expected}

-- What has to be the case for an error. A session has its revision in a column and in its state.
abbrev pub Explains : Engine → Post → Tables → Error → Type 0
Explains engine p db (session_not_found s) =
    (s ≡ p.session_id) × (Dict.get db.sessions p.session_id ≡ none)
Explains engine p db (revision_conflict actual expected) =
    (expected ≡ p.state_revision)
    × (actual ≢ p.state_revision)
    × ((row : SessionRow) × (Dict.get db.sessions p.session_id ≡ some row)
        × ((actual ≡ row.revision) ⊎ (actual ≡ row.state_json.revision)))
Explains engine p db (invalid_next_revision next expected) = ⊥
Explains engine p db integrity_error = ⊥
Explains engine p db engine_error =
    (t : TurnState) × (read_state p db ≡ current t) × (engine (request_of p t) ≡ none)

read_state-Explains :
    (engine : Engine) (p : Post) (db : Tables) (e : Error)
    → read_state p db ≡ refused e
    → Explains engine p db e
unfolding read_state get_state state_from_payload
read_state-Explains engine p db (session_not_found s) h = (ground arith, ground arith)
read_state-Explains engine p db (revision_conflict a b) h =
    elim (Option-cases (Dict.get db.sessions p.session_id)) [
      | inl gone ↦ absurd (ground (arith, gone, h))
      | inr (row, found) ↦ (
        ground (arith, found, h),
        ground (arith, found, h),
        (row, found, inr (ground (arith, found, h))),
      )
    ]
read_state-Explains engine p db (invalid_next_revision a b) h = ground arith
read_state-Explains engine p db integrity_error h = ground arith
read_state-Explains engine p db engine_error h = absurd (ground arith)

commit_turn-Explains :
    (engine : Engine) (p : Post) (db : Tables) (result : TurnResult) (e : Error)
    → (commit_turn (turn_of p result) db).0 ≡ err e
    → is_expected e ≡ true
    → e ≢ engine_error
    → Explains engine p db e
unfolding commit_turn turn_of is_expected
commit_turn-Explains engine p db result (session_not_found s) h x n = (ground arith, ground arith)
commit_turn-Explains engine p db result (revision_conflict a b) h x n =
    elim (Option-cases (Dict.get db.sessions p.session_id)) [
      | inl gone ↦ absurd (ground (arith, gone, h))
      | inr (row, found) ↦ (
        ground (arith, found, h),
        ground (arith, found, h),
        (row, found, inl (ground (arith, found, h))),
      )
    ]
commit_turn-Explains engine p db result (invalid_next_revision a b) h x n = ground arith
commit_turn-Explains engine p db result integrity_error h x n = ground arith
commit_turn-Explains engine p db result engine_error h x n = absurd (n refl)

commit_turn-no_engine_error : (t : Turn) (db : Tables) → (commit_turn t db).0 ≢ err engine_error
unfolding commit_turn
commit_turn-no_engine_error t db h = ground arith

early-Explains :
    (engine : Engine) (p : Post) (db : Tables) (e : Error)
    → (read_state p db ≡ refused e) ⊎ IsRaised engine p db e
    → Explains engine p db e
early-Explains engine p db e (inl r) = read_state-Explains engine p db e r
early-Explains engine p db e (inr (same, raised)) = subst (Explains engine p db) (sym same) raised

err-injective : (e f : Error) → ◌≡◌ {A = Result ResponsePayload} (err e) (err f) → e ≡ f
err-injective e f h = ground arith

module _ (clock : Clock) (planner : Planner) (cache : Cache) (ids : TurnRequest → String) where
  -- With the engine of the agent, whatever its planner answers, a request fails only if no response
  -- is stored for it, and its error tells why: its session is unknown; its revision is not the
  -- stored one, in the column or in the state of the session, and the error names both; or the
  -- engine raised on the stored state. The store never refuses the next revision, nor the number of
  -- planner calls. No text holds a NUL, which PostgreSQL cannot store.
  pub post_message_errors :
      (p : Post) (db : Tables) (e : Error)
      → (post_message (agent clock planner cache ids) p db).0 ≡ err e
      → (get_replay p.session_id p.request_id db ≡ none)
        × Explains (agent clock planner cache ids) p db e
  post_message_errors p db e h = elim (post_message-Cases (agent clock planner cache ids) p db) [
    | inl (r, stored, q) ↦ absurd (ground (arith, q))
    | inr (inl (f, fresh, why, q)) ↦ (
      fresh,
      subst (Explains (agent clock planner cache ids) p db) (err-injective f e (rw q at h))
          (early-Explains (agent clock planner cache ids) p db f why),
    )
    | inr (inr (result, t, fresh, read, made, q)) ↦ (
      fresh,
      commit_turn-Explains (agent clock planner cache ids) p db result e (rw q at h)
          (post_message-is_expected clock planner cache ids p db e h)
          (λ same.
            commit_turn-no_engine_error (turn_of p result) db
              (subst (λ x. (commit_turn (turn_of p result) db).0 ≡ err x) same (rw q at h))),
    )
  ]
