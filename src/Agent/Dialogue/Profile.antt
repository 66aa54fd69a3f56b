-- ===== src/Agent/Dialogue/Profile.antt =====
-- `_finish_profile_access` of app/agent/service.py
pub mod Laws
use role_model_helper_v.Prelude.{
  ℕ, String, ◌<>◌, Bool, any, Option, none, some, List, [], ◌∷◌, ◌++◌, map, ◌==◌, string_eq,
  if◌then◌else◌,
}
use role_model_helper_v.Prelude.Dict
use role_model_helper_v.Prelude.Dict.{Dict}
use role_model_helper_v.Agent.Models.{handled, TurnState, Answer, one, many}
use role_model_helper_v.Agent.Answers.{join_with}
use role_model_helper_v.Agent.Dialogue.Reply.{
  Handled, raised, advance, respond, slot, or_none, candidate_clarification, ask_slot,
}
use role_model_helper_v.Catalog.Bundle.{CatalogBundle}
use role_model_helper_v.Tools.Search.{
  ToolCandidate, ToolResult, ToolStatus, found, ambiguous, not_found, invalid, resolve_profiles,
  search_systems, search_roles, search_roles_raises,
}

abbrev pub ids_of : List ToolCandidate → List String
ids_of = map (λ (c : ToolCandidate). c.id)

labels_of : List ToolCandidate → List String
labels_of = map (λ (c : ToolCandidate). c.label)

-- `tools.search_roles(…)` for one system of the answer
unfoldable pub roles_in : CatalogBundle → List String → String → List ToolCandidate
roles_in b profile_ids system_id = (search_roles b system_id profile_ids none none 10).candidates

-- `role_ids`, over all systems of the answer
unfoldable pub role_ids_in : CatalogBundle → List String → List ToolCandidate → List String
unfolding roles_in
role_ids_in b profile_ids [] = []
role_ids_in b profile_ids (s ∷ systems) =
    ids_of (roles_in b profile_ids s.id) ++ role_ids_in b profile_ids systems

roles_or_none : List String → String
roles_or_none [] = "роли не найдены"
roles_or_none (l ∷ labels) = join_with ", " (l ∷ labels)

system_lines : CatalogBundle → List String → List ToolCandidate → List String
unfolding roles_in roles_or_none labels_of
system_lines b profile_ids [] = []
system_lines b profile_ids (s ∷ systems) =
    ("• " <> (s.label <> (": " <> roles_or_none (labels_of (roles_in b profile_ids s.id)))))
    ∷ system_lines b profile_ids systems

access_lines : CatalogBundle → List String → List ToolCandidate → List String
unfolding system_lines
access_lines b profile_ids [] = "Связанные АС и роли не найдены." ∷ []
access_lines b profile_ids (s ∷ systems) = system_lines b profile_ids (s ∷ systems)

-- The facts and the text of the answer for the profiles that were resolved.
unfoldable pub access_answer : CatalogBundle → String → String → List String → Answer
unfolding access_lines role_ids_in join_with
access_answer b department_id position_id profile_ids =
    let systems = (search_systems b none profile_ids 10).candidates in
    record {
      text =
          join_with "\n" ("Доступы для выбранного профиля:" ∷ access_lines b profile_ids systems);
      answer_type = "PROFILE_ACCESS";
      facts =
          ("department_id", one department_id)
          ∷ ("position_id", one position_id)
          ∷ ("profile_ids", many profile_ids)
          ∷ ("system_ids", many (ids_of systems))
          ∷ ("role_ids", many (role_ids_in b profile_ids systems))
          ∷ ("catalog_version", one b.version)
          ∷ [];
    }

-- A search of the roles of one of the systems raises.
unfoldable pub roles_raise : CatalogBundle → List String → Bool
roles_raise b profile_ids =
    any (λ (c : ToolCandidate). search_roles_raises b c.id profile_ids none none)
      (search_systems b none profile_ids 10).candidates

-- The end of the handler, for profiles that were found; no profile at all is an `IndexError`.
unfoldable pub profile_answer :
    TurnState → CatalogBundle → Dict String String → String → String → List String → Handled
profile_answer state b slots department_id position_id [] = raised
profile_answer state b slots department_id position_id (id ∷ ids) =
    if roles_raise b (id ∷ ids)
    then raised
    else respond handled
        (record (advance state) {
          intent = some "ROLE_DISCOVERY";
          phase = "ANSWERED";
          slots = Dict.insert "profile_id" id slots;
          pending_question = none;
        })
        (access_answer b department_id position_id (id ∷ ids))

unfoldable pub resolved_profiles :
    TurnState → CatalogBundle → Dict String String → String → String → ToolResult → Handled
unfolding profile_answer
resolved_profiles state b slots department_id position_id profiles = elim profiles.status [
  | not_found ↦
      ask_slot state slots "position"
        "Для этой пары подразделения и должности профиль не найден. Уточните должность."
  | ambiguous ↦
      candidate_clarification state "profile" profiles slots
        "Нашлось несколько профилей. Выберите нужный."
  | found ↦ profile_answer state b slots department_id position_id (ids_of profiles.candidates)
  | invalid ↦ profile_answer state b slots department_id position_id (ids_of profiles.candidates)
]

-- `_finish_profile_access`
unfoldable pub finish_profile_access : TurnState → CatalogBundle → Dict String String → Handled
unfolding resolved_profiles or_none string_eq
finish_profile_access state b slots =
    let department_id = slot slots "department_id" in
    let position_id = slot slots "position_id" in
    if department_id == ""
    then ask_slot state slots "department"
        "Уточните подразделение: полное название или номер и город."
    else if position_id == ""
    then ask_slot state slots "position" "Уточните должность для выбранного подразделения."
    else resolved_profiles state b slots department_id position_id
        (resolve_profiles b department_id position_id (or_none (slot slots "city")) none 5)
