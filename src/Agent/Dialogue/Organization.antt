-- ===== src/Agent/Dialogue/Organization.antt =====
-- `_organization_request` of app/agent/service.py
use role_model_helper_v.Prelude.{
  String, not, Option, none, some, List, [], ◌∷◌, ◌==◌, string_eq, if◌then◌else◌, find,
}
use role_model_helper_v.Prelude.Dict
use role_model_helper_v.Prelude.Dict.{Dict}
use role_model_helper_v.Text.{Text, codes, has_marker}
use role_model_helper_v.Agent.Models.{TurnState, TurnRequest}
use role_model_helper_v.Agent.Phrases.{normalize, contains_phrase}
use role_model_helper_v.Agent.Dialogue.Reply.{
  Handled, unhandled, raised, slot, or_none, candidate_clarification, ask_slot,
}
use role_model_helper_v.Agent.Dialogue.Profile.{finish_profile_access}
use role_model_helper_v.Catalog.Bundle.{Department, CatalogBundle}
use role_model_helper_v.Tools.Search.{
  ToolCandidate, ToolResult, found, ambiguous, not_found, invalid, search_departments,
  search_positions,
}

abbrev pub organization_markers : List String
organization_markers =
    "отдел" ∷ "подразделен" ∷ "должност" ∷ "руководител" ∷ "начальник" ∷ "риск менеджер" ∷ []

-- The city that the text names, or that of the slots.
unfoldable pub requested_city : CatalogBundle → Text → Dict String String → String
unfolding codes normalize contains_phrase
requested_city b text slots =
    elim (find (λ (d : Department). contains_phrase text (normalize (codes d.city)))
      b.departments) [ some d ↦ d.city | none ↦ slot slots "city" ]

-- `slots[key] = result.candidates[0].id`, where there is a candidate.
unfoldable pub set_first :
    String → List ToolCandidate → Dict String String → Option (Dict String String)
set_first key [] slots = none
set_first key (c ∷ cs) slots = some (Dict.insert key c.id slots)

unfoldable pub finish_with : TurnState → CatalogBundle → Option (Dict String String) → Handled
finish_with state b none = raised
finish_with state b (some slots) = finish_profile_access state b slots

-- The second half: the department.
unfoldable pub with_department :
    TurnState → CatalogBundle → Dict String String → ToolResult → Handled
unfolding set_first finish_with
with_department state b slots departments =
    let otherwise : Handled = elim (Dict.get slots "department_id") [
      | some _ ↦ finish_profile_access state b slots
      | none ↦
          ask_slot state slots "department"
            "Уточните подразделение: полное название или номер и город."
    ] in
    elim departments.status [
      | ambiguous ↦
          candidate_clarification state "department" departments slots
            "Подразделений с таким номером несколько. Выберите нужное или уточните город."
      | found ↦ finish_with state b (set_first "department_id" departments.candidates slots)
      | not_found ↦ otherwise
      | invalid ↦ otherwise
    ]

unfoldable pub maybe_department :
    TurnState → CatalogBundle → Option (Dict String String) → ToolResult → Handled
unfolding with_department
maybe_department state b none departments = raised
maybe_department state b (some slots) departments = with_department state b slots departments

-- The first half: the position.
unfoldable pub with_position :
    TurnState → CatalogBundle → Dict String String → ToolResult → ToolResult → Handled
unfolding maybe_department set_first
with_position state b slots positions departments = elim positions.status [
  | found ↦
      maybe_department state b (set_first "position_id" positions.candidates slots) departments
  | ambiguous ↦
      candidate_clarification state "position" positions slots
        "Нашлось несколько должностей. Выберите нужную."
  | not_found ↦ with_department state b slots departments
  | invalid ↦ with_department state b slots departments
]

-- `_organization_request`
unfoldable pub organization_request : CatalogBundle → TurnRequest → Handled
unfolding with_position requested_city or_none has_marker normalize codes string_eq
organization_request b request =
    let text = normalize (codes request.text) in
    let state = request.state in
    let city = requested_city b text state.slots in
    let slots = if city == "" then state.slots else Dict.insert "city" city state.slots in
    if not (has_marker text organization_markers)
    then unhandled
    else with_position state b slots
        (search_positions b request.text (or_none city) (or_none (slot slots "department_id")) 5)
        (search_departments b request.text (or_none city) 5)
