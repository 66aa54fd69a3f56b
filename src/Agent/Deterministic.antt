-- ===== src/Agent/Deterministic.antt =====
-- `_deterministic` of app/agent/service.py: its steps in their order, each of which replies, raises
-- or leaves the turn to the next.
use role_model_helper_v.Prelude.{
  suc, ◌-◌, String, ◌<>◌, Bool, true, false, ◌&&◌, ◌||◌, not, Option, none, some, List, [], ◌∷◌,
}
use role_model_helper_v.Prelude.{◌==◌, leb, nat_eq, string_eq, if◌then◌else◌, length, get_elem?}
use role_model_helper_v.Prelude.Dict
use role_model_helper_v.Text.{Text, codes, all_digits, int_of, has_marker}
use role_model_helper_v.Text.Words.{split}
use role_model_helper_v.Agent.Models.{
  handled, needs_clarification, Candidate, PendingQuestion, TurnState, TurnRequest,
}
use role_model_helper_v.Agent.Phrases.{normalize}
use role_model_helper_v.Agent.Matches.{Weak, system_matches}
use role_model_helper_v.Agent.Answers.{roles_answer, instruction_answer}
use role_model_helper_v.Agent.Dialogue.Reply.{
  Handled, reply, unhandled, raised, advance, say, respond, respond_with, slot, intent_or_unknown,
  question, weak_options,
}
use role_model_helper_v.Agent.Dialogue.Profile.{finish_profile_access}
use role_model_helper_v.Agent.Dialogue.Slot.{handle_pending_slot}
use role_model_helper_v.Agent.Dialogue.Organization.{organization_request}
use role_model_helper_v.Catalog.Bundle.{System, CatalogBundle}

abbrev pub reset_markers : List String
reset_markers = "начать заново" ∷ "сброс" ∷ "очистить контекст" ∷ []

abbrev pub role_markers : List String
role_markers = "роль" ∷ "роли" ∷ "доступы" ∷ []

abbrev how_markers : List String
how_markers = "инструкция" ∷ "как получить" ∷ "как запросить" ∷ []

abbrev topic_markers : List String
topic_markers = "вопрос" ∷ "доступ" ∷ "роль" ∷ "система" ∷ []

abbrev pub instruction_markers : List String
instruction_markers =
    "как получить доступ" ∷ "как запросить доступ" ∷ "инструкция" ∷ "порядок получения" ∷ []

abbrev pub switch_markers : List String
switch_markers = "перейти на" ∷ "сменить ас" ∷ "другая ас" ∷ "другую ас" ∷ []

-- The reply to a reset marker.
unfoldable pub reset_reply : TurnState → Handled
reset_reply state =
    respond handled
      (record {
        session_id = state.session_id;
        revision = suc state.revision;
        intent = none;
        phase = "READY";
        slots = [];
        pending_question = none;
      })
      (say "Контекст сброшен. Опишите новый вопрос." "RESET")

-- The state after an answer about one system.
abbrev pub settle : TurnState → String → TurnState
settle state intent = record (advance state) {
  intent = some intent;
  phase = "ANSWERED";
  pending_question = none;
}

-- `{**dict(state.slots), key: value}`
abbrev pub with_slot : String → String → TurnState → TurnState
with_slot key value state = record state { slots = Dict.insert key value state.slots }

-- A pending slot with the topic `intent`: all its branches reply or raise.
unfoldable pub intent_reply : CatalogBundle → Text → TurnState → Handled
intent_reply b text state =
    let system_id = slot state.slots "system_id" in
    let known : Bool = elim (Dict.get b.systems system_id) [ some _ ↦ true | none ↦ false ] in
    if known && has_marker text role_markers
    then respond_with handled (settle state "ROLE_DISCOVERY") (roles_answer b system_id)
    else if known && has_marker text how_markers
    then respond_with handled (settle state "INSTRUCTION_LOOKUP") (instruction_answer b system_id)
    else respond needs_clarification (advance state)
        (say "Выберите: роли или инструкция по доступу." "CLARIFICATION")

-- `pending_value_is_simple`
unfoldable pub is_simple_value : Text → Bool
unfolding has_marker split codes
is_simple_value text = leb (length (split text)) 5 && not (has_marker text topic_markers)

-- `pending.options[index]`, for the index that the text gives, from 1; none where it gives no
-- index of an option.
unfoldable pub chosen : Text → List Candidate → Option Candidate
unfolding all_digits int_of nat_eq
chosen text options =
    if not (all_digits text)
    then none
    else if int_of text == 0
    then none
    else get_elem? options (int_of text - 1)

unfoldable pub selected_reply : CatalogBundle → TurnState → String → Option Candidate → Handled
unfolding finish_profile_access intent_or_unknown string_eq
selected_reply b state topic none = unhandled
selected_reply b state topic (some c) =
    if topic == "department" || topic == "position"
    then finish_profile_access state b (Dict.insert (topic <> "_id") c.id state.slots)
    else respond handled
        (record (with_slot (topic <> "_id") c.id (advance state)) {
          phase = "ANSWERED";
          pending_question = none;
        })
        (say ("Выбран вариант: " <> (c.label <> ".")) (intent_or_unknown state))

-- A pending selection.
unfoldable pub selection_reply : CatalogBundle → Text → TurnState → PendingQuestion → Handled
unfolding selected_reply chosen has_marker intent_or_unknown codes
selection_reply b text state pending =
    if has_marker text ("еще" ∷ [])
    then respond needs_clarification (advance state)
        (say "Других вариантов на этой странице нет." (intent_or_unknown state))
    else selected_reply b state pending.topic (chosen text pending.options)

-- The branches on the pending question.
unfoldable pub pending_reply : CatalogBundle → Text → TurnRequest → Option PendingQuestion → Handled
unfolding intent_reply is_simple_value selection_reply handle_pending_slot string_eq
pending_reply b text request none = unhandled
pending_reply b text request (some pending) =
    if pending.kind == "slot" && pending.topic == "intent"
    then intent_reply b text request.state
    else if pending.kind == "slot" && is_simple_value text
    then handle_pending_slot b request pending
    else if pending.kind == "candidate_selection"
    then selection_reply b text request.state pending
    else unhandled

-- A system that the text names: an instruction, its roles, or a change of the context.
unfoldable pub system_reply : CatalogBundle → Text → TurnState → System → Handled
system_reply b text state s =
    let focused = with_slot "system_id" s.id state in
    if has_marker text instruction_markers
    then respond_with handled (settle focused "INSTRUCTION_LOOKUP") (instruction_answer b s.id)
    else if has_marker text role_markers
    then respond_with handled (settle focused "ROLE_DISCOVERY") (roles_answer b s.id)
    else let asked = record (advance focused) {
      phase = "AWAITING_INTENT";
      pending_question = some (question "intent" "slot" []);
    } in
      if has_marker text switch_markers
      then respond handled asked (
          say ("Фокус переключён на АС " <> (s.name <> ". Что нужно: роли или инструкция?"))
            "CONTEXT_UPDATE")
      else respond needs_clarification asked (
          say ("АС " <> (s.name <> " найдена. Уточните: нужны роли или инструкция по доступу?"))
            "CLARIFICATION")

-- The end of the handler: a safe match, weak ones, or none.
unfoldable pub match_reply : CatalogBundle → Text → TurnState → Option System × List Weak → Handled
unfolding system_reply weak_options
match_reply b text state (some s, weak) = system_reply b text state s
match_reply b text state (none, []) = unhandled
match_reply b text state (none, w ∷ weak) =
    respond needs_clarification
      (record (advance state) {
        intent = some "ROLE_DISCOVERY";
        phase = "AWAITING_SELECTION";
        pending_question = some (question "system" "candidate_selection" (weak_options (w ∷ weak)));
      })
      (say "Нашлось несколько похожих АС. Выберите нужную." "ROLE_DISCOVERY")

-- The first of two steps, or the second where the first leaves the turn to it.
unfoldable pub or_else : Handled → Handled → Handled
or_else unhandled h = h
or_else raised h = raised
or_else (reply r) h = reply r

-- `_deterministic`
unfoldable pub deterministic_reply : CatalogBundle → TurnRequest → Handled
unfolding reset_reply pending_reply match_reply or_else system_matches organization_request
    normalize has_marker codes
deterministic_reply b request =
    let text = normalize (codes request.text) in
    if has_marker text reset_markers
    then reset_reply request.state
    else or_else (pending_reply b text request request.state.pending_question) (
        or_else (organization_request b request)
          (match_reply b text request.state (system_matches text b)))
