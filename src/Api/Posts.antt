-- ===== src/Api/Posts.antt =====
-- How a post of a message ends.
use role_model_helper_v.Prelude.{
  ◌≢◌, ◌≤◌, length, false, ℕ, String, ◌≡◌, refl, ◌⊎◌, inl, inr, Option, none, some, arith, ap, sym,
  ◌∙◌, string_eq,
}
use role_model_helper_v.Prelude.Dict
use role_model_helper_v.Catalog.Cache.{Cache}
use role_model_helper_v.Telemetry.{Clock}
use role_model_helper_v.Agent.Models.{TurnRequest, TurnState}
use role_model_helper_v.Agent.Engine.{Planner}
use role_model_helper_v.Runtime.Payload.{ResponsePayload}
use role_model_helper_v.Runtime.Store.{
  Error, Result, ok, err, session_not_found, revision_conflict, invalid_next_revision,
  integrity_error, engine_error, SessionRow, get_replay, Tables,
}
use role_model_helper_v.Runtime.Service
use role_model_helper_v.Runtime.Service.{Engine, Post, current, read_state, request_of}
use role_model_helper_v.Runtime.Service.Agent.{agent}
use role_model_helper_v.Runtime.Service.Causes.{Explains, post_message_errors}
use role_model_helper_v.Runtime.Service.Laws.{post_message_atomic, stored_after}
use role_model_helper_v.Text.{codes, is_blank}
use role_model_helper_v.Api.{
  Whole, nonnegative, text_field, revision_field, Body, MessageRequest, Reply, answered, rejected,
  invalid_body, unhandled, message_request, reply_of, post_of, post_request, post_message,
}

-- A text of one to so many characters that is not blank.
abbrev pub IsText : ℕ → String → Type 0
IsText most value =
    (1 ≤ length (codes value)) × (length (codes value) ≤ most) × (is_blank value ≡ false)

abbrev pub HasText : ℕ → Option String → String → Type 0
HasText most field value = (field ≡ some value) × IsText most value

-- A request revision is 0 if it is missing.
abbrev pub HasRevision : Option Whole → ℕ → Type 0
HasRevision field n = ((field ≡ none) × (n ≡ 0)) ⊎ (field ≡ some (nonnegative n))

-- What a body has to be to be read as a request.
abbrev pub IsRequest : Body → MessageRequest → Type 0
IsRequest body m =
    HasText 128 body.request_id m.request_id
    × HasText 4000 body.text m.text
    × HasRevision body.state_revision m.state_revision

text_field-HasText :
    (n : ℕ) (o : Option String) (v : String) → text_field n o ≡ some v → HasText n o v
unfolding text_field
text_field-HasText n o v h = ground arith

HasText-text_field :
    (n : ℕ) (o : Option String) (v : String) → HasText n o v → text_field n o ≡ some v
unfolding text_field
HasText-text_field n o v h = ground arith

revision_field-HasRevision :
    (o : Option Whole) (n : ℕ) → revision_field o ≡ some n → HasRevision o n
unfolding revision_field
revision_field-HasRevision o n h = ground arith

HasRevision-revision_field :
    (o : Option Whole) (n : ℕ) → HasRevision o n → revision_field o ≡ some n
unfolding revision_field
HasRevision-revision_field o n h = ground arith

message_request-fields :
    (body : Body) (m : MessageRequest)
    → message_request body ≡ some m
    → (text_field 128 body.request_id ≡ some m.request_id)
      × (text_field 4000 body.text ≡ some m.text)
      × (revision_field body.state_revision ≡ some m.state_revision)
unfolding message_request
message_request-fields body m h = ground arith

message_request-IsRequest :
    (body : Body) (m : MessageRequest) → message_request body ≡ some m → IsRequest body m
message_request-IsRequest body m h =
    let (id, text, revision) = message_request-fields body m h in
    (
      text_field-HasText 128 body.request_id m.request_id id,
      text_field-HasText 4000 body.text m.text text,
      revision_field-HasRevision body.state_revision m.state_revision revision,
    )

IsRequest-message_request :
    (body : Body) (m : MessageRequest) → IsRequest body m → message_request body ≡ some m
unfolding message_request
IsRequest-message_request body m (id, text, revision) =
    rw
      (
        HasText-text_field 128 body.request_id m.request_id id,
        HasText-text_field 4000 body.text m.text text,
        HasRevision-revision_field body.state_revision m.state_revision revision,
      )
      refl

-- The ways in which a post of a message can end: a body that is no request is refused; a request
-- is answered with the response that is then stored for it, or it fails and the error is 404, 409
-- or the exception of the engine, with its cause.
abbrev pub Fails : Engine → Post → Tables → Reply ResponsePayload → Type 0
Fails engine p db reply =
    ((reply ≡ rejected 404) × (Dict.get db.sessions p.session_id ≡ none))
    ⊎ ((reply ≡ rejected 409)
        × ((row : SessionRow) × (Dict.get db.sessions p.session_id ≡ some row)
            × ((p.state_revision ≢ row.revision) ⊎ (p.state_revision ≢ row.state_json.revision))))
    ⊎ ((reply ≡ unhandled engine_error)
        × ((t : TurnState) × (read_state p db ≡ current t) × (engine (request_of p t) ≡ none)))

abbrev pub Ends : Engine → String → Body → Tables → Reply ResponsePayload × Tables → Type 0
Ends engine session_id body db (reply, db') =
    (¬ ((m : MessageRequest) × IsRequest body m) × (reply ≡ invalid_body) × (db' ≡ db))
    ⊎ ((m : MessageRequest) × IsRequest body m
        × (((r : ResponsePayload) × (reply ≡ answered r)
              × (get_replay session_id m.request_id db' ≡ some r))
            ⊎ ((get_replay session_id m.request_id db ≡ none)
                × (db' ≡ db)
                × Fails engine (post_of session_id m) db reply)))

module _ (engine : Engine) (p : Post) (db : Tables) where
  reply_of-Fails : (e : Error) → Explains engine p db e → Fails engine p db (reply_of (err e))
  unfolding reply_of
  reply_of-Fails (session_not_found s) (same, gone) = inl (refl, gone)
  reply_of-Fails (revision_conflict a b) (same, differ, (row, found, inl e)) =
      inr (inl (refl, (row, found, inl (λ q. differ (e ∙ sym q)))))
  reply_of-Fails (revision_conflict a b) (same, differ, (row, found, inr e)) =
      inr (inl (refl, (row, found, inr (λ q. differ (e ∙ sym q)))))
  reply_of-Fails (invalid_next_revision a b) h = absurd h
  reply_of-Fails integrity_error h = absurd h
  reply_of-Fails engine_error h = inr (inr (refl, h))

module _ (clock : Clock) (planner : Planner) (cache : Cache) (ids : TurnRequest → String) where
  served :
      (session_id : String) (body : Body) (m : MessageRequest) (db : Tables)
      (x : Result ResponsePayload × Tables)
      → IsRequest body m
      → Service.post_message (agent clock planner cache ids) (post_of session_id m) db ≡ x
      → Ends (agent clock planner cache ids) session_id body db (reply_of x.0, x.1)
  unfolding reply_of
  served session_id body m db (ok r, db') i q = inr (
    m,
    i,
    inl (
      r,
      refl,
      ap (λ y. get_replay session_id m.request_id y.1) (sym q)
          ∙ stored_after (agent clock planner cache ids) (post_of session_id m) db r
              (ap (λ y. y.0) q),
    ),
  )
  served session_id body m db (err e, db') i q =
      let (fresh, why) =
        post_message_errors clock planner cache ids (post_of session_id m) db e (ap (λ y. y.0) q) in
      inr (
        m,
        i,
        inr (
          fresh,
          sym (ap (λ y. y.1) q)
              ∙ post_message_atomic (agent clock planner cache ids) (post_of session_id m) db e
                  (ap (λ y. y.0) q),
          reply_of-Fails (agent clock planner cache ids) (post_of session_id m) db e why,
        ),
      )

  request-Ends :
      (session_id : String) (body : Body) (request : Option MessageRequest) (db : Tables)
      → message_request body ≡ request
      → Ends
          (agent clock planner cache ids)
          session_id
          body
          db
          (post_request (agent clock planner cache ids) session_id request db)
  unfolding post_request
  request-Ends session_id body none db e =
      inl ((λ (m, i). absurd (ground (arith, e, IsRequest-message_request body m i))), refl, refl)
  request-Ends session_id body (some m) db e =
      served session_id body m db _ (message_request-IsRequest body m e) refl

  pub post_message-Ends :
      (session_id : String) (body : Body) (db : Tables)
      → Ends
          (agent clock planner cache ids)
          session_id
          body
          db
          (post_message (agent clock planner cache ids) session_id body db)
  unfolding post_message
  post_message-Ends session_id body db = request-Ends session_id body (message_request body) db refl
