-- ===== src/Gigachat/Planner/Laws.antt =====
-- When the planner returns a plan, and what it sends.
use role_model_helper_v.Prelude.{
  ◌-◌, ◌≤◌, ◌<◌, ◌≡◌, refl, ◌⊎◌, inl, inr, String, ◌<>◌, true, false, Option, none, some, leb,
  string_eq, Option-cases, Bool-cases, arith,
}
use Prim.Native.Nat.{max}
use mathlib.Core.Path.{subst, sym}
use role_model_helper_v.Catalog.Bundle.{CatalogBundle}
use role_model_helper_v.Agent.Models.{TurnRequest, Plan}
use role_model_helper_v.Agent.Engine.{PlannerReply, planned, malformed, timed_out, broken}
use role_model_helper_v.Gigachat.Token.{TokenResult, bearer, token_timed_out, token_broken}
use role_model_helper_v.Gigachat.Json.{
  Json, null, bool, num, str, arr, obj, cons, Fields, Python, get_field, find_field, ◌>>=◌,
}
use role_model_helper_v.Gigachat.Candidates.{candidates_raise}
use role_model_helper_v.Gigachat.Planner.{
  HttpReply, http_json, http_timed_out, http_failed, Sent, Surroundings, object_of, post_json,
  provider_payload, payload_of, user_payload, plan_from, reply_from, plan_with, plan,
}

-- The request that a call with a token sends.
abbrev pub sent_by : Python → Surroundings → String → TurnRequest → CatalogBundle → Sent
sent_by py around token request b = record {
  url = around.endpoint;
  authorization = "Bearer " <> token;
  body = provider_payload (payload_of py around.model request b);
  timeout_ms = max (around.deadline_ms - around.elapsed_ms) 50;
}

-- The token was there before the deadline, and the server's answer holds the plan.
abbrev pub IsAnswered : Python → Surroundings → TurnRequest → CatalogBundle → Plan → Type 0
IsAnswered py around request b p =
    (token : String) × (body : Fields) × (around.token ≡ bearer token)
    × (around.elapsed_ms < around.deadline_ms)
    × (around.server (sent_by py around token request b) ≡ http_json (obj body))
    × (plan_from py (obj body) ≡ some p)

abbrev pub PlanCase : Python → Surroundings → TurnRequest → CatalogBundle → PlannerReply → Type 0
PlanCase py around request b (planned p) = IsAnswered py around request b p
PlanCase py around request b timed_out =
    (around.token ≡ token_timed_out)
    ⊎ (around.deadline_ms ≤ around.elapsed_ms)
    ⊎ ((token : String) × (around.server (sent_by py around token request b) ≡ http_timed_out))
PlanCase py around request b broken =
    (candidates_raise request b ≡ true)
    ⊎ (around.token ≡ token_broken)
    ⊎ ((token : String) × (around.token ≡ bearer token) × (around.elapsed_ms < around.deadline_ms))
PlanCase py around request b malformed = ⊥

-- The body that is read is the server's, and an object.
object_of_lem :
    (r : HttpReply) (body : Json)
    → object_of r ≡ http_json body
    → (fs : Fields) × (body ≡ obj fs) × (r ≡ http_json (obj fs))
unfolding object_of
object_of_lem (http_json (obj fs)) body e = (fs, ground arith, refl)
object_of_lem (http_json null) body e = absurd (ground arith)
object_of_lem (http_json (bool b)) body e = absurd (ground arith)
object_of_lem (http_json (num x)) body e = absurd (ground arith)
object_of_lem (http_json (str s)) body e = absurd (ground arith)
object_of_lem (http_json (arr xs)) body e = absurd (ground arith)
object_of_lem http_timed_out body e = absurd (ground arith)
object_of_lem http_failed body e = absurd (ground arith)

object_of_timed_out : (r : HttpReply) → object_of r ≡ http_timed_out → r ≡ http_timed_out
unfolding object_of
object_of_timed_out (http_json (obj fs)) e = absurd (ground arith)
object_of_timed_out (http_json null) e = absurd (ground arith)
object_of_timed_out (http_json (bool b)) e = absurd (ground arith)
object_of_timed_out (http_json (num x)) e = absurd (ground arith)
object_of_timed_out (http_json (str s)) e = absurd (ground arith)
object_of_timed_out (http_json (arr xs)) e = absurd (ground arith)
object_of_timed_out http_timed_out e = refl
object_of_timed_out http_failed e = absurd (ground arith)

module _ (py : Python) (around : Surroundings) (request : TurnRequest) (b : CatalogBundle) where
  answered-Case :
      (token : String) (r : HttpReply)
      → around.token ≡ bearer token
      → around.elapsed_ms < around.deadline_ms
      → object_of (around.server (sent_by py around token request b)) ≡ r
      → PlanCase py around request b (reply_from py r)
  unfolding reply_from
  answered-Case token http_timed_out t lt e = inr (inr (token, object_of_timed_out _ e))
  answered-Case token http_failed t lt e = inr (inr (token, t, lt))
  answered-Case token (http_json body) t lt e = elim (Option-cases (plan_from py body)) [
    | inl missing ↦ rw (missing, reply_from) (inr (inr (token, t, lt)))
    | inr (p, parsed) ↦
        let (fs, same, there) =
          object_of_lem (around.server (sent_by py around token request b)) body e in
        rw (parsed, reply_from) (token, fs, t, lt, there, rw same at parsed)
  ]

  plan_answered :
      (token : String)
      → around.token ≡ bearer token
      → leb around.deadline_ms around.elapsed_ms ≡ false
      → plan_with py around request b
        ≡ reply_from py (object_of (around.server (sent_by py around token request b)))
  unfolding plan_with post_json
  plan_answered token e early = rw (e, early, plan_with)

  plan_with_cases : PlanCase py around request b (plan_with py around request b)
  unfolding plan_with post_json
  plan_with_cases = with_token around.token refl
    where
      with_token :
          (t : TokenResult)
          → around.token ≡ t
          → PlanCase py around request b (plan_with py around request b)
      with_token token_timed_out e =
          let late : plan_with py around request b ≡ timed_out = rw (e, plan_with) in
          subst (PlanCase py around request b) (sym late) (inl e)
      with_token token_broken e =
          let raised : plan_with py around request b ≡ broken = rw (e, plan_with) in
          subst (PlanCase py around request b) (sym raised) (inr (inl e))
      with_token (bearer token) e = elim (Bool-cases (leb around.deadline_ms around.elapsed_ms)) [
        | inl late ↦
            let late' : plan_with py around request b ≡ timed_out = rw (e, late, plan_with) in
            subst (PlanCase py around request b) (sym late') (inr (inl (ground (arith, late))))
        | inr early ↦
            subst (PlanCase py around request b) (sym (plan_answered token e early))
              (answered-Case token _ e (ground (arith, early)) refl)
      ]

  -- The planner returns a plan only if the token was there before the deadline and the plan is what
  -- the object holds that the server answered. It reports a timeout only if the token came too late,
  -- or its fetch or the request timed out; anything else that goes wrong is an exception, an access
  -- level of the bundle that is no number included, and it never returns a value that is no plan.
  pub plan_cases : PlanCase py around request b (plan py around request b)
  unfolding plan
  plan_cases = elim (Bool-cases (candidates_raise request b)) [
    | inl raises ↦
        let stopped : plan py around request b ≡ broken = rw (raises, plan) in
        subst (PlanCase py around request b) (sym stopped) (inl raises)
    | inr quiet ↦
        let goes_on : plan py around request b ≡ plan_with py around request b = rw (quiet, plan) in
        subst (PlanCase py around request b) (sym goes_on) plan_with_cases
  ]

-- `value[1]` of a list
abbrev pub second_item : Json → Option Json
second_item (arr (cons x (cons y ys))) = some y
second_item _ = none

-- The content of the second message.
abbrev pub user_content : Fields → Option Json
user_content fs = do
  messages ← find_field "messages" fs
  message ← second_item messages
  get_field "content" message

-- The request id and the catalog version are no fields of what is sent, but the message of the user
-- in it is the dump of an object that has both.
pub payload_metadata :
    (py : Python) (model : String) (request : TurnRequest) (b : CatalogBundle)
    → let sent = provider_payload (payload_of py model request b) in
      (find_field "request_id" sent ≡ none)
      × (find_field "catalog_version" sent ≡ none)
      × (user_content sent ≡ some (str (py.dumps (user_payload request b))))
      × (get_field "request_id" (user_payload request b) ≡ some (str request.request_id))
      × (get_field "catalog_version" (user_payload request b) ≡ some (str b.version))
unfolding provider_payload payload_of user_payload get_field string_eq
payload_metadata py model request b = (refl, refl, refl, refl, refl)
