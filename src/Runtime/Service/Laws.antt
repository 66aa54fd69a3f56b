-- ===== src/Runtime/Service/Laws.antt =====
-- `post_message` as its caller sees it.
use role_model_helper_v.Prelude.{◌≡◌, refl, ◌⊎◌, inl, inr, none, some, arith, Option-cases}
use role_model_helper_v.Prelude.{nat_eq, string_eq}
use role_model_helper_v.Agent.Models.{TurnState, TurnResult}
use role_model_helper_v.Runtime.Payload.{ResponsePayload}
use role_model_helper_v.Runtime.Store.{
  Error, ok, err, engine_error, Tables, get_replay, commit_turn,
}
use role_model_helper_v.Runtime.Store.Commit.{commit_turn_atomic}
use role_model_helper_v.Runtime.Store.Invariant.{
  IsConsistent, commit_turn-IsConsistent, get_replay-commit_turn_self,
}
use role_model_helper_v.Runtime.Service.{
  Engine, Post, Read, refused, current, read_state, request_of, turn_of, post_message,
}

Read-cases : (x : Read) → ((e : Error) × (x ≡ refused e)) ⊎ ((t : TurnState) × (x ≡ current t))
Read-cases (refused e) = inl (e, refl)
Read-cases (current t) = inr (t, refl)

-- The error is the exception of the engine on the stored state.
abbrev pub IsRaised : Engine → Post → Tables → Error → Type 0
IsRaised engine p db e =
    (e ≡ engine_error)
    × ((t : TurnState) × (read_state p db ≡ current t) × (engine (request_of p t) ≡ none))

abbrev Cases : Engine → Post → Tables → Type 0
Cases engine p db =
    ((r : ResponsePayload) × (get_replay p.session_id p.request_id db ≡ some r)
      × (post_message engine p db ≡ (ok r, db)))
    ⊎ (((e : Error) × (get_replay p.session_id p.request_id db ≡ none)
          × ((read_state p db ≡ refused e) ⊎ IsRaised engine p db e)
          × (post_message engine p db ≡ (err e, db)))
        ⊎ ((result : TurnResult) × (t : TurnState) × (get_replay p.session_id p.request_id db
              ≡ none)
            × (read_state p db ≡ current t)
            × (engine (request_of p t) ≡ some result)
            × (post_message engine p db ≡ commit_turn (turn_of p result) db)))

-- `post_message` returns a stored response, fails before its commit, or ends with the commit of
-- what the engine made of the stored state.
pub post_message-Cases : (engine : Engine) (p : Post) (db : Tables) → Cases engine p db
unfolding post_message
post_message-Cases engine p db = elim (Option-cases (get_replay p.session_id p.request_id db)) [
  | inr (r, stored) ↦ inl (r, stored, ground arith)
  | inl fresh ↦ elim (Read-cases (read_state p db)) [
    | inl (e, failed) ↦ inr (inl (e, fresh, inl failed, ground arith))
    | inr (t, read) ↦ elim (Option-cases (engine (request_of p t))) [
      | inl raised ↦ inr (inl (engine_error, fresh, inr (refl, (t, read, raised)), ground arith))
      | inr (result, made) ↦ inr (inr (result, t, fresh, read, made, ground arith))
    ]
  ]
]

-- A request that fails, for whatever reason, has changed nothing.
pub post_message_atomic :
    (engine : Engine) (p : Post) (db : Tables) (e : Error)
    → (post_message engine p db).0 ≡ err e
    → (post_message engine p db).1 ≡ db
post_message_atomic engine p db e h = elim (post_message-Cases engine p db) [
  | inl (r, stored, q) ↦ rw q
  | inr (inl (f, fresh, why, q)) ↦ rw q
  | inr (inr (result, t, fresh, read, made, q)) ↦
      rw q (commit_turn_atomic (turn_of p result) db e (rw q at h))
]

pub post_message-IsConsistent :
    (engine : Engine) (p : Post) (db : Tables)
    → IsConsistent db
    → IsConsistent (post_message engine p db).1
post_message-IsConsistent engine p db c = elim (post_message-Cases engine p db) [
  | inl (r, stored, q) ↦ rw q c
  | inr (inl (f, fresh, why, q)) ↦ rw q c
  | inr (inr (result, t, fresh, read, made, q)) ↦
      rw q (commit_turn-IsConsistent (turn_of p result) db c)
]

pub stored_after :
    (engine : Engine) (p : Post) (db : Tables) (r : ResponsePayload)
    → (post_message engine p db).0 ≡ ok r
    → get_replay p.session_id p.request_id (post_message engine p db).1 ≡ some r
unfolding turn_of
stored_after engine p db r h = elim (post_message-Cases engine p db) [
  | inl (x, stored, q) ↦ ground (arith, q)
  | inr (inl (f, fresh, why, q)) ↦ ground (arith, q)
  | inr (inr (result, t, fresh, read, made, q)) ↦
      rw q (get_replay-commit_turn_self (turn_of p result) db r (rw q at h))
]

-- Idempotency: when a request has been answered, asking again under its session and request id,
-- whatever the text, the revision and the engine, gives the same answer and changes nothing.
pub post_message_replay :
    (engine engine' : Engine) (p q : Post) (db : Tables) (r : ResponsePayload)
    → (post_message engine p db).0 ≡ ok r
    → q.session_id ≡ p.session_id
    → q.request_id ≡ p.request_id
    → post_message engine' q (post_message engine p db).1 ≡ (ok r, (post_message engine p db).1)
post_message_replay engine engine' p q db r h same_session same_request =
    unfold post_message in ground (arith, stored_after engine p db r h)
