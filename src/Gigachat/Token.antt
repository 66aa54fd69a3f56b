-- ===== src/Gigachat/Token.antt =====
-- `GigaChatTokenManager` of app/providers/gigachat.py: one call of `bearer_token`, which holds the
-- lock from its second test to its end. Times are milliseconds of `time.time()`, and the expiry that
-- the server states is a whole number, of seconds or of milliseconds.
pub mod Laws
use role_model_helper_v.Prelude.{
  ℕ, ◌+◌, ◌-◌, ◌*◌, String, ◌<>◌, Bool, true, false, not, ◌&&◌, Option, none, some, ltb, ◌==◌,
  string_eq, if◌then◌else◌,
}
use Prim.Native.Nat.{max}

-- `_expiration_epoch`, in milliseconds
unfoldable pub expiration_epoch : ℕ → ℕ
expiration_epoch value = if ltb 2000000000 value then value else value * 1000

-- A value that Python takes for true.
unfoldable pub is_set : Option String → Bool
is_set none = false
is_set (some s) = not (s == "")

pub record Manager : Type 0 where
  pub auth_key : Option String
  pub client_id : Option String
  pub client_secret : Option String
  pub has_cert : Bool

-- `_token` and `_expires_at`
pub record TokenCache : Type 0 where
  pub token : Option String
  pub expires_at : ℕ

abbrev pub no_token : TokenCache
no_token = record { token = none; expires_at = 0 }

-- What a caller of `bearer_token` sees: a token, a `TimeoutError`, or any other exception.
pub data TokenResult : Type 0 where
  bearer : String → TokenResult
  token_timed_out token_broken : TokenResult

-- What the OAuth server does with the request: a body with `access_token` and an `expires_at` that
-- can be read as a number, a timeout, or anything that raises.
pub data OauthReply : Type 0 where
  token_body : Option String → Option ℕ → OauthReply
  oauth_timed_out oauth_failed : OauthReply

-- The readings of the clock, in their order.
pub record Readings : Type 0 where
  pub at_call : ℕ
  pub in_lock : ℕ
  pub at_parse : ℕ
  pub at_store : ℕ

-- `str(body.get("access_token") or "")`
unfoldable pub text_or_empty : Option String → String
text_or_empty none = ""
text_or_empty (some s) = s

-- `self._token and now < self._expires_at`: the token, if it may be used.
unfoldable pub usable : TokenCache → ℕ → Option String
unfolding is_set
usable c now = if is_set c.token && ltb now c.expires_at then c.token else none

-- `_authorization`: none where it raises, `some none` where no header is needed. `encode` is
-- Base64.
unfoldable pub authorization : (String → String) → Manager → Option (Option String)
unfolding is_set text_or_empty
authorization encode m =
    if is_set m.auth_key
    then some (some ("Basic " <> text_or_empty m.auth_key))
    else if is_set m.client_id && is_set m.client_secret
    then some (
        some
          ("Basic " <> encode (text_or_empty m.client_id <> ":" <> text_or_empty m.client_secret)))
    else if m.has_cert
    then some none
    else none

-- The expiry that is stored: a minute before the one that was stated, and thirty seconds from now
-- at least. Without a number the token is taken to live for 1700 seconds.
unfoldable pub stored_expiry : Option ℕ → Readings → ℕ
unfolding expiration_epoch
stored_expiry stated r =
    let parsed : ℕ = elim stated [ none ↦ r.at_parse + 1700000 | some v ↦ expiration_epoch v ] in
    max (r.at_store + 30000) (parsed - 60000)

-- The exchange with the server, inside the lock.
unfoldable pub exchange : TokenCache → Readings → OauthReply → TokenCache × TokenResult
unfolding stored_expiry text_or_empty
exchange c r oauth_timed_out = (c, token_timed_out)
exchange c r oauth_failed = (c, token_broken)
exchange c r (token_body access_token stated) =
    let token = text_or_empty access_token in
    if token == ""
    then (c, token_broken)
    else (record { token = some token; expires_at = stored_expiry stated r }, bearer token)

-- The part of `bearer_token` that holds the lock.
unfoldable pub locked_token :
    (String → String) → Manager → TokenCache → Readings → OauthReply → TokenCache × TokenResult
unfolding exchange authorization
locked_token encode m c r server = elim (usable c r.in_lock) [
  | some token ↦ (c, bearer token)
  | none ↦ elim (authorization encode m) [
    | none ↦ (c, token_broken)
    | some header ↦ exchange c r server
  ]
]

-- `bearer_token`, for the state that it finds before the lock and the one that it finds in it.
unfoldable pub bearer_token :
    (String → String)
    → Manager
    → TokenCache
    → TokenCache
    → Readings
    → OauthReply
    → TokenCache × TokenResult
unfolding locked_token
bearer_token encode m before c r server = elim (usable before r.at_call) [
  | some token ↦ (c, bearer token)
  | none ↦ locked_token encode m c r server
]
