-- ===== src/Gigachat/Token/Laws.antt =====
-- Which token a caller gets, and how long it is used.
use role_model_helper_v.Prelude.{
  ℕ, ◌+◌, ◌<◌, ◌≤◌, ◌≡◌, refl, ap, ◌≢◌, ◌⊎◌, inl, inr, String, Option, none, some, string_eq,
  Option-cases, ==-cases, ne_of_==, arith,
}
use role_model_helper_v.Gigachat.Token.{
  Manager, TokenCache, TokenResult, bearer, token_timed_out, token_broken, OauthReply, token_body,
  Readings, oauth_timed_out, oauth_failed, text_or_empty, is_set, usable, authorization,
  stored_expiry, exchange, locked_token, bearer_token,
}

-- A token that is there and has not expired.
abbrev pub IsUsable : TokenCache → ℕ → String → Type 0
IsUsable c now token = (c.token ≡ some token) × (token ≢ "") × (now < c.expires_at)

-- The server's token, stored for thirty seconds at least.
abbrev pub IsFresh : TokenCache → Readings → OauthReply → String → Type 0
IsFresh c r server token =
    (stated : Option ℕ) × (server ≡ token_body (some token) stated)
    × (c ≡ record { token = some token; expires_at = stored_expiry stated r })
    × (token ≢ "")
    × (r.at_store + 30000 ≤ c.expires_at)

usable_parts :
    (token : Option String) (expires now : ℕ) {t : String}
    → usable (record { token = token; expires_at = expires }) now ≡ some t
    → (token ≡ some t) × (t ≢ "") × (now < expires)
unfolding usable is_set
usable_parts none expires now h = absurd (ground arith)
usable_parts (some u) expires now {t} h = elim (==-cases u "") [
  | inl (empty, hit) ↦ absurd (ground (arith, hit))
  | inr there ↦ (ground (arith, there), ground (arith, there), ground (arith, there))
]

usable-IsUsable :
    (c : TokenCache) (now : ℕ) {token : String} → usable c now ≡ some token → IsUsable c now token
usable-IsUsable c now {token} h = usable_parts c.token c.expires_at now h

-- How the result of a call came about.
abbrev pub TokenCase :
    TokenCache → TokenCache → Readings → OauthReply → TokenCache → TokenResult → Type 0
TokenCase before c r server out (bearer token) =
    (IsUsable before r.at_call token × (out ≡ c))
    ⊎ (IsUsable c r.in_lock token × (out ≡ c))
    ⊎ IsFresh out r server token
TokenCase before c r server out token_timed_out = (out ≡ c) × (server ≡ oauth_timed_out)
TokenCase before c r server out token_broken = out ≡ c

expiry_floor : (stated : Option ℕ) (r : Readings) → r.at_store + 30000 ≤ stored_expiry stated r
unfolding stored_expiry
expiry_floor stated r = omega arith

exchange-Case :
    (before c : TokenCache) (r : Readings) (server : OauthReply)
    → TokenCase before c r server (exchange c r server).0 (exchange c r server).1
unfolding exchange text_or_empty
exchange-Case before c r oauth_timed_out = (refl, refl)
exchange-Case before c r oauth_failed = refl
exchange-Case before c r (token_body none stated) = ground arith
exchange-Case before c r (token_body (some token) stated) = elim (==-cases token "") [
  | inl (empty, hit) ↦ rw hit refl
  | inr there ↦
      rw there (inr (inr (stated, refl, refl, ne_of_== token "" there, expiry_floor stated r)))
]

locked_token-Case :
    (encode : String → String) (m : Manager) (before c : TokenCache) (r : Readings)
    (server : OauthReply)
    → let (out, result) = locked_token encode m c r server in TokenCase before c r server out result
unfolding locked_token
locked_token-Case encode m before c r server = elim (Option-cases (usable c r.in_lock)) [
  | inr (token, there) ↦
      rw (there, locked_token) (inr (inl (usable-IsUsable c r.in_lock there, refl)))
  | inl expired ↦ elim (Option-cases (authorization encode m)) [
    | inl missing ↦ rw (expired, missing, locked_token) refl
    | inr (header, given) ↦ rw (expired, given, locked_token) (exchange-Case before c r server)
  ]
]

-- A call of `bearer_token` returns a token that was stored and had not expired when the call looked
-- at it, before the lock or in it, and then stores nothing; or the token that the server gave it,
-- which is not empty and is stored for thirty seconds at least; or it fails and stores nothing, with
-- a timeout only if the server timed out.
pub bearer_token_cases :
    (encode : String → String) (m : Manager) (before c : TokenCache) (r : Readings)
    (server : OauthReply)
    → let (out, result) = bearer_token encode m before c r server in
      TokenCase before c r server out result
unfolding bearer_token
bearer_token_cases encode m before c r server = elim (Option-cases (usable before r.at_call)) [
  | inr (token, there) ↦
      rw (there, bearer_token) (inl (usable-IsUsable before r.at_call there, refl))
  | inl expired ↦ rw (expired, bearer_token) (locked_token-Case encode m before c r server)
]

usable-of_fresh :
    (c : TokenCache) (now : ℕ) (token : String)
    → c.token ≡ some token
    → token ≢ ""
    → now < c.expires_at
    → usable c now ≡ some token
unfolding usable is_set
usable-of_fresh c now token e ne lt = ground (arith, e)

-- After a token was fetched, a call within thirty seconds returns it again and asks no server,
-- whatever state it finds in the lock.
pub bearer_token_again :
    (encode : String → String) (m : Manager) (c d : TokenCache) (r later : Readings)
    (server other : OauthReply) (token : String)
    → IsFresh c r server token
    → later.at_call < r.at_store + 30000
    → bearer_token encode m c d later other ≡ (d, bearer token)
unfolding bearer_token
bearer_token_again encode m c d r later server other token (stated, asked, stored, ne, floor) soon =
    rw (
      usable-of_fresh c later.at_call token (ap (λ (k : TokenCache). k.token) stored) ne
          (omega arith),
      bearer_token,
    )
