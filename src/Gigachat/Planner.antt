-- ===== src/Gigachat/Planner.antt =====
-- `RequestsJsonTransport.post_json` and `GigaChatHttpPlanner.plan` of app/providers/gigachat.py.
pub mod Laws
use role_model_helper_v.Prelude.{
  ℕ, zero, suc, ◌-◌, String, ◌<>◌, Bool, true, false, Option, none, some, List, [], ◌∷◌, contains,
  string_eq, leb, if◌then◌else◌,
}
use Prim.Native.Nat.{max}
use role_model_helper_v.Prelude.Dict
use role_model_helper_v.Prelude.Dict.{Dict}
use role_model_helper_v.Score.{Score, Float, plus, fraction}
use role_model_helper_v.Catalog.Bundle.{CatalogBundle}
use role_model_helper_v.Agent.Models.{TurnRequest, TurnState, PendingQuestion, Plan}
use role_model_helper_v.Agent.Engine.{PlannerReply, planned, timed_out, broken}
use role_model_helper_v.Gigachat.Token.{TokenResult, bearer, token_timed_out, token_broken}
use role_model_helper_v.Gigachat.Candidates.{
  MatchedRole, SystemMatch, DepartmentMatch, PositionMatch, Candidates, candidates_raise,
  catalog_candidates,
}
use role_model_helper_v.Gigachat.Json.{
  Json, null, bool, num, str, arr, obj, Items, nil, cons, Fields, end, field, Python, get_field,
  first_item, text_of, is_true, number_of, dict_pairs, ◌>>=◌,
}

-- What `requests` makes of the request: the JSON of a response, a timeout, or anything that raises.
pub data HttpReply : Type 0 where
  http_json : Json → HttpReply
  http_timed_out http_failed : HttpReply

-- What is sent to the server.
pub record Sent : Type 0 where
  pub url : String
  pub authorization : String
  pub body : Fields
  pub timeout_ms : ℕ

-- The keys that are sent upstream.
abbrev pub sent_keys : List String
sent_keys = "model" ∷ "messages" ∷ "temperature" ∷ "stream" ∷ "max_tokens" ∷ []

unfoldable pub provider_payload : Fields → Fields
provider_payload end = end
provider_payload (field k v fs) =
    let rest = provider_payload fs in if contains sent_keys k then field k v rest else rest

unfoldable pub object_of : HttpReply → HttpReply
object_of (http_json (obj fs)) = http_json (obj fs)
object_of (http_json _) = http_failed
object_of http_timed_out = http_timed_out
object_of http_failed = http_failed

-- `post_json`: the body, which must be an object.
unfoldable pub post_json : (Sent → HttpReply) → String → String → Fields → ℕ → HttpReply
unfolding provider_payload object_of
post_json server url token payload timeout_ms = object_of (
    server (record {
      url = url;
      authorization = "Bearer " <> token;
      body = provider_payload payload;
      timeout_ms = max timeout_ms 50;
    }))

-- `text[:n]`
unfoldable pub prefix_of : ℕ → String → String
prefix_of zero s = ""
prefix_of (suc n) String.[] = ""
prefix_of (suc n) (String.◌∷◌ c s) = String.◌∷◌ c (prefix_of n s)

unfoldable pub array {ℓ} : {A : Type ℓ} → (A → Json) → List A → Items
array f [] = nil
array f (x ∷ xs) = cons (f x) (array f xs)

unfoldable pub text_fields : Dict String String → Fields
text_fields [] = end
text_fields ((k, v) ∷ d) = field k (str v) (text_fields d)

abbrev pub text_or_null : Option String → Json
text_or_null none = null
text_or_null (some s) = str s

abbrev pub whole : ℕ → Json
whole n = num (plus (fraction n 1))

abbrev pub number_or_null : Option ℕ → Json
number_or_null none = null
number_or_null (some n) = whole n

abbrev pub topic_or_null : Option PendingQuestion → Json
topic_or_null none = null
topic_or_null (some q) = str q.topic

-- `state`
unfoldable pub state_json : TurnState → Json
unfolding text_fields
state_json s = obj (
    field "intent" (text_or_null s.intent) (
      field "phase" (str s.phase) (
        field "slots" (obj (text_fields s.slots))
          (field "pending_topic" (topic_or_null s.pending_question) end))))

abbrev role_json : MatchedRole → Json
role_json r = obj (
    field "id" (str r.id)
      (field "label" (str r.label) (field "access_level" (number_or_null r.access_level) end)))

abbrev system_json : SystemMatch → Json
system_json m = obj (
    field "id" (str m.id) (
      field "label" (str m.label) (
        field "score" (num (plus m.score))
          (field "matched_roles" (arr (array role_json m.matched_roles)) end))))

abbrev department_json : DepartmentMatch → Json
department_json m = obj (
    field "id" (str m.id) (
      field "label" (str m.label) (
        field "city" (text_or_null m.city)
          (field "number" (number_or_null m.number) (field "score" (num (plus m.score)) end)))))

abbrev position_json : PositionMatch → Json
position_json m =
    obj
      (field "id" (str m.id) (field "label" (str m.label) (field "score" (num (plus m.score)) end)))

unfoldable pub candidates_json : Candidates → Json
unfolding array
candidates_json c = obj (
    field "systems" (arr (array system_json c.systems)) (
      field "departments" (arr (array department_json c.departments))
        (field "positions" (arr (array position_json c.positions)) end)))

-- `user_payload`
unfoldable pub user_payload : TurnRequest → CatalogBundle → Json
unfolding candidates_json state_json prefix_of catalog_candidates
user_payload request b = obj (
    field "catalog_version" (str b.version) (
      field "request_id" (str request.request_id) (
        field "text" (str (prefix_of 2000 request.text)) (
          field "state" (state_json request.state)
            (field "catalog_candidates" (candidates_json (catalog_candidates request b)) end)))))

abbrev system_prompt : String
system_prompt =
    "Ты планировщик агента по ролевой модели. Верни только JSON: "
    <> "catalog_version, intent, action, slots, confidence. "
    <> "intent: SYSTEM_DISCOVERY, ROLE_DISCOVERY, ROLE_ACQUISITION или INSTRUCTION_LOOKUP. "
    <> "Не придумывай catalog id: используй только id из ограниченного "
    <> "catalog_candidates. Если подходящего id нет, оставь соответствующий "
    <> "slot пустым. Каталог целиком тебе не передаётся."

message : String → String → Json
message role content = obj (field "role" (str role) (field "content" (str content) end))

-- `payload`
unfoldable pub payload_of : Python → String → TurnRequest → CatalogBundle → Fields
unfolding user_payload message
payload_of py model request b = field "catalog_version" (str b.version) (
    field "request_id" (str request.request_id) (
      field "model" (str model) (
        field "messages"
          (arr (
            cons (message "system" system_prompt)
              (cons (message "user" (py.dumps (user_payload request b))) nil)))
          (field "temperature" (whole 0)
            (field "stream" (bool false) (field "max_tokens" (whole 350) end))))))

-- `json.loads(value)`, which wants a text
loads_of : Python → Json → Option Json
loads_of py (str s) = py.loads s
loads_of py _ = none

-- `{str(key): str(value) for …}`
unfoldable pub slots_from : Python → Dict String String → List (String × Json) → Dict String String
unfolding text_of
slots_from py made [] = made
slots_from py made ((k, v) ∷ pairs) = slots_from py (Dict.insert k (text_of py v) made) pairs

-- `parsed.get(key) or default`
get_or_default : String → Json → Json → Json
unfolding is_true
get_or_default key j default = elim (get_field key j) [
  | none ↦ default
  | some v ↦ (if is_true v then v else default)
]

-- The plan that a body holds, or none for a `PlannerResponseError`.
unfoldable pub plan_from : Python → Json → Option Plan
unfolding get_field first_item loads_of get_or_default dict_pairs slots_from number_of text_of
plan_from py body = do
  choices ← get_field "choices" body
  choice ← first_item choices
  message ← get_field "message" choice
  content ← get_field "content" message
  parsed ← loads_of py content
  catalog_version ← get_field "catalog_version" parsed
  intent ← get_field "intent" parsed
  action ← get_field "action" parsed
  pairs ← dict_pairs py (get_or_default "slots" parsed (obj end))
  confidence ← number_of py (get_or_default "confidence" parsed (num (plus (fraction 0 1))))
  some (record {
    catalog_version = text_of py catalog_version;
    intent = text_of py intent;
    action = text_of py action;
    slots = slots_from py [] pairs;
    confidence = confidence;
  })

-- What the planner makes of the server's answer: a `PlannerResponseError` is an exception like any
-- other to the one who calls the planner.
unfoldable pub reply_from : Python → HttpReply → PlannerReply
unfolding plan_from
reply_from py http_timed_out = timed_out
reply_from py http_failed = broken
reply_from py (http_json body) = elim (plan_from py body) [ none ↦ broken | some p ↦ planned p ]

-- What is known of the outside at one call: the endpoint and the model, the deadline, the token or
-- its failure, the milliseconds that had passed when it was there, and the server.
pub record Surroundings : Type 0 where
  pub endpoint : String
  pub model : String
  pub deadline_ms : ℕ
  pub token : TokenResult
  pub elapsed_ms : ℕ
  pub server : Sent → HttpReply

-- `plan`, behind its search of the catalog
unfoldable pub plan_with : Python → Surroundings → TurnRequest → CatalogBundle → PlannerReply
unfolding reply_from post_json payload_of
plan_with py around request b = elim around.token [
  | token_timed_out ↦ timed_out
  | token_broken ↦ broken
  | bearer token ↦
      if leb around.deadline_ms around.elapsed_ms
      then timed_out
      else reply_from py (
          post_json around.server around.endpoint token (payload_of py around.model request b)
            (around.deadline_ms - around.elapsed_ms))
]

-- `plan`
unfoldable pub plan : Python → Surroundings → TurnRequest → CatalogBundle → PlannerReply
unfolding plan_with
plan py around request b =
    if candidates_raise request b then broken else plan_with py around request b
