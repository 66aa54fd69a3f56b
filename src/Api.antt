-- ===== src/Api.antt =====
-- The HTTP interface of app/api.py over the service and the cache. A reply is the value that a
-- handler returns, a status that the code raises, the refusal of a body (422, by the framework), or
-- an exception that no handler takes (500, by the framework).
pub mod Laws
pub mod Posts
use role_model_helper_v.Prelude.{
  ◌>>=◌, ℕ, String, Bool, true, false, ◌&&◌, not, Option, none, some, leb, length, if◌then◌else◌,
}
use role_model_helper_v.Text.{codes, is_blank}
use role_model_helper_v.Catalog.Cache.{Freshness, Cache}
use role_model_helper_v.Settings.{Settings, gigachat_enabled}
use role_model_helper_v.Runtime.Payload.{ResponsePayload}
use role_model_helper_v.Runtime.Store.{
  Error, Result, ok, err, session_not_found, revision_conflict, invalid_next_revision,
  integrity_error, engine_error, Tables, SessionView,
}
use role_model_helper_v.Runtime.Service
use role_model_helper_v.Runtime.Service.{Engine, Post}

-- The integers of a body.
pub data Whole : Type 0 where
  nonnegative : ℕ → Whole
  negative : ℕ → Whole

-- The fields of a body, which may be missing.
pub record Body : Type 0 where
  pub request_id : Option String
  pub text : Option String
  pub state_revision : Option Whole

-- `MessageRequest`
pub record MessageRequest : Type 0 where
  pub request_id : String
  pub text : String
  pub state_revision : ℕ

pub data Reply {ℓ} (A : Type ℓ) : Type ℓ where
  answered : A → Reply A
  rejected : ℕ → Reply A
  invalid_body : Reply A
  unhandled : Error → Reply A

-- A field with its bounds of length and `must_not_be_blank`.
unfoldable pub text_field : ℕ → Option String → Option String
text_field max_length none = none
text_field max_length (some value) =
    if leb 1 (length (codes value)) && leb (length (codes value)) max_length && not (is_blank value)
    then some value
    else none

unfoldable pub revision_field : Option Whole → Option ℕ
revision_field none = some 0
revision_field (some (nonnegative n)) = some n
revision_field (some (negative n)) = none

unfoldable pub message_request : Body → Option MessageRequest
unfolding text_field revision_field
message_request body = do
  request_id ← text_field 128 body.request_id
  text ← text_field 4000 body.text
  state_revision ← revision_field body.state_revision
  some (record { request_id = request_id; text = text; state_revision = state_revision })

-- The `except` clauses of `post_message`.
unfoldable pub reply_of {ℓ} : {A : Type ℓ} → Result A → Reply A
reply_of (ok a) = answered a
reply_of (err (session_not_found s)) = rejected 404
reply_of (err (revision_conflict a b)) = rejected 409
reply_of (err (invalid_next_revision a b)) = rejected 409
reply_of (err integrity_error) = unhandled integrity_error
reply_of (err engine_error) = unhandled engine_error

abbrev pub post_of : String → MessageRequest → Post
post_of session_id m = record {
  session_id = session_id;
  request_id = m.request_id;
  text = m.text;
  state_revision = m.state_revision;
}

-- `post_message`, after the framework has made a request of the body or refused it.
unfoldable pub post_request :
    Engine → String → Option MessageRequest → Tables → Reply ResponsePayload × Tables
unfolding reply_of
post_request engine session_id none db = (invalid_body, db)
post_request engine session_id (some m) db =
    let (result, db') = Service.post_message engine (post_of session_id m) db in
    (reply_of result, db')

unfoldable pub post_message : Engine → String → Body → Tables → Reply ResponsePayload × Tables
unfolding post_request
post_message engine session_id body = post_request engine session_id (message_request body)

-- The `except` clause of `get_session`.
unfoldable pub session_reply {ℓ} : {A : Type ℓ} → Result A → Reply A
session_reply (ok a) = answered a
session_reply (err (session_not_found s)) = rejected 404
session_reply (err (revision_conflict a b)) = unhandled (revision_conflict a b)
session_reply (err (invalid_next_revision a b)) = unhandled (invalid_next_revision a b)
session_reply (err integrity_error) = unhandled integrity_error
session_reply (err engine_error) = unhandled engine_error

-- `get_session`
unfoldable pub get_session : String → Tables → Reply SessionView
unfolding session_reply
get_session session_id db = session_reply (Service.get_session session_id db)

pub record Health : Type 0 where
  pub status : String
  pub catalog_ready : Bool
  pub catalog_version : Option String
  pub catalog_freshness : Freshness
  pub gigachat_enabled : Bool
  pub port : ℕ

unfoldable pub is_some : Option String → Bool
is_some none = false
is_some (some v) = true

unfoldable pub status_text : Bool → String
status_text ready = if ready then "ok" else "degraded"

-- `health`, with a cache and settings.
unfoldable pub health : Cache → Settings → Health
unfolding is_some status_text
health c s =
    let ready = is_some c.status.active_version in
    record {
      status = status_text ready;
      catalog_ready = ready;
      catalog_version = c.status.active_version;
      catalog_freshness = c.status.freshness;
      gigachat_enabled = gigachat_enabled s;
      port = s.port;
    }
