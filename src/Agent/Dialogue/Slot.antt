-- ===== src/Agent/Dialogue/Slot.antt =====
-- `_handle_pending_slot` of app/agent/service.py
use role_model_helper_v.Prelude.{
  String, ◌<>◌, ◌||◌, Option, none, some, List, [], ◌∷◌, ◌==◌, string_eq, list_eq, nat_eq,
  if◌then◌else◌, find,
}
use role_model_helper_v.Prelude.Dict
use role_model_helper_v.Text.{Text, codes, strip}
use role_model_helper_v.Agent.Models.{
  handled, needs_clarification, PendingQuestion, TurnState, TurnRequest,
}
use role_model_helper_v.Agent.Phrases.{normalize}
use role_model_helper_v.Agent.Matches.{Weak, system_matches}
use role_model_helper_v.Agent.Dialogue.Reply.{
  Handled, raised, advance, say, respond, slot, or_none, intent_or_unknown, question, weak_options,
  candidate_clarification,
}
use role_model_helper_v.Agent.Dialogue.Profile.{finish_profile_access}
use role_model_helper_v.Catalog.Bundle.{System, Department, CatalogBundle}
use role_model_helper_v.Tools.Search.{
  ToolCandidate, ToolResult, found, ambiguous, not_found, invalid, search_departments,
  search_positions,
}

-- The value of the slot and the key under which it is kept, a question, or neither.
pub data Canonical : Type 0 where
  settled : String → String → Canonical
  asked : Handled → Canonical
  missing : Canonical

unfoldable pub first_id : String → List ToolCandidate → Canonical
first_id key [] = asked raised
first_id key (c ∷ cs) = settled key c.id

-- The three branches on the status of a search.
unfoldable pub from_search : TurnState → String → String → String → ToolResult → Canonical
unfolding first_id
from_search state topic key message r = elim r.status [
  | found ↦ first_id key r.candidates
  | ambiguous ↦ asked (candidate_clarification state topic r state.slots message)
  | not_found ↦ missing
  | invalid ↦ missing
]

unfoldable pub city_value : CatalogBundle → Text → Canonical
unfolding list_eq nat_eq codes
city_value b value =
    elim (find (λ (d : Department). normalize (codes d.city) == value) b.departments) [
      | none ↦ missing
      | some d ↦ settled "city" d.city
    ]

unfoldable pub system_value : TurnState → Option System × List Weak → Canonical
system_value state (some s, weak) = settled "system_id" s.id
system_value state (none, []) = missing
system_value state (none, w ∷ weak) = asked (
    respond needs_clarification
      (record (advance state) {
        pending_question = some (question "system" "candidate_selection" (weak_options (w ∷ weak)));
      })
      (say "Выберите точное название АС." (intent_or_unknown state)))

-- The branches on the topic of the question.
unfoldable pub canonical_value : CatalogBundle → TurnRequest → PendingQuestion → Canonical
unfolding city_value system_value from_search or_none string_eq codes normalize
canonical_value b request pending =
    let state = request.state in
    let city = or_none (slot state.slots "city") in
    if pending.topic == "city"
    then city_value b (normalize (codes request.text))
    else if pending.topic == "department"
    then from_search state "department" "department_id"
        "Нашлось несколько подразделений. Выберите нужное."
        (search_departments b request.text city 5)
    else if pending.topic == "position"
    then from_search state "position" "position_id" "Нашлось несколько должностей. Выберите нужную."
        (search_positions b request.text city (or_none (slot state.slots "department_id")) 5)
    else if pending.topic == "system"
    then system_value state (system_matches (normalize (codes request.text)) b)
    else missing

unfoldable pub with_value : CatalogBundle → TurnRequest → PendingQuestion → Canonical → Handled
unfolding string_eq strip
with_value b request pending (asked h) = h
with_value b request pending missing = respond needs_clarification (advance request.state) (
    say
      ("Значение «"
        <> (strip request.text
            <> ("» не найдено в актуальном каталоге. Уточните " <> (pending.topic <> "."))))
      (intent_or_unknown request.state))
with_value b request pending (settled key value) =
    let slots = Dict.insert key value request.state.slots in
    if key == "department_id" || key == "position_id"
    then finish_profile_access request.state b slots
    else respond handled
        (record (advance request.state) { phase = "READY"; slots = slots; pending_question = none })
        (say "Контекст подтверждён. Уточните следующий параметр." (intent_or_unknown request.state))

-- `_handle_pending_slot`; its argument `state` is that of the request.
unfoldable pub handle_pending_slot : CatalogBundle → TurnRequest → PendingQuestion → Handled
unfolding with_value canonical_value
handle_pending_slot b request pending =
    with_value b request pending (canonical_value b request pending)
