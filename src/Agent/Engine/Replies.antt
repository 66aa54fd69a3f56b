-- ===== src/Agent/Engine/Replies.antt =====
-- What every reply of the deterministic path has in common.
pub mod Dialogue
use role_model_helper_v.Prelude.{
  ℕ, suc, ◌≤◌, String, ◌<>◌, Bool, ◌≡◌, refl, inl, inr, ap, if-holds, Option, none, some, List, [],
  ◌∷◌, arith, length, length-take_le, Option-cases, Bool-cases,
}
use role_model_helper_v.Prelude.{◌==◌, string_eq, if◌then◌else◌, map, take}
use role_model_helper_v.Prelude.Dict
use role_model_helper_v.Prelude.Dict.{Dict}
use role_model_helper_v.Text.{Text, codes, has_marker}
use role_model_helper_v.Agent.Models.{
  Outcome, Candidate, PendingQuestion, TurnState, TurnRequest, Answer,
}
use role_model_helper_v.Agent.Matches.{Weak, system_matches}
use role_model_helper_v.Agent.Dialogue.Reply.{
  slot, or_none, Reply, Handled, reply, unhandled, raised, advance, say, respond, respond_with,
  weak_options, options_of, candidate_clarification, ask_slot,
}
use role_model_helper_v.Agent.Dialogue.Profile.{
  finish_profile_access, resolved_profiles, profile_answer, roles_raise, ids_of,
}
use role_model_helper_v.Agent.Dialogue.Slot.{
  Canonical, settled, asked, missing, handle_pending_slot, with_value, canonical_value, city_value,
  system_value, from_search, first_id,
}
use role_model_helper_v.Agent.Dialogue.Organization.{
  organization_markers, organization_request, with_position, maybe_department, with_department,
  finish_with, set_first, requested_city,
}
use role_model_helper_v.Agent.Deterministic.{
  reset_reply, settle, with_slot, selected_reply, intent_reply, selection_reply, pending_reply,
  system_reply, match_reply, or_else, deterministic_reply,
}
use role_model_helper_v.Catalog.Bundle.{System, CatalogBundle}
use role_model_helper_v.Agent.Phrases.{normalize}
use role_model_helper_v.Tools.Search.{
  resolve_profiles, ToolCandidate, ToolResult, ToolStatus, found, ambiguous, not_found, invalid,
}

-- The options that a state offers.
abbrev pub options_in : Option PendingQuestion → List Candidate
options_in none = []
options_in (some q) = q.options

pub record IsTurn (state : TurnState) (r : Reply) : Type 0 where
  pub session : r.state.session_id ≡ state.session_id
  pub revision : r.state.revision ≡ suc state.revision
  pub answer : (a : Answer) × (r.answer ≡ some a)
  pub failure : r.failure ≡ none
  pub options :
      length (options_in state.pending_question) ≤ 5
      → length (options_in r.state.pending_question) ≤ 5

abbrev pub Turns : TurnState → Handled → Type 0
Turns state (reply r) = IsTurn state r
Turns state unhandled = Unit
Turns state raised = Unit

pub none_fits : 0 ≤ 5
none_fits = omega arith

abbrev pub Asks : TurnState → Canonical → Type 0
Asks state (asked h) = Turns state h
Asks state (settled key value) = Unit
Asks state missing = Unit

length-map : {A B : Type 0} (f : A → B) (xs : List A) → length (map f xs) ≡ length xs
length-map f [] = refl
length-map f (x ∷ xs) = ap suc (length-map f xs)

length-map-take : {A B : Type 0} (f : A → B) (n : ℕ) (xs : List A) → length (map f (take n xs)) ≤ n
length-map-take f n xs = omega (arith, length-map f (take n xs), length-take_le n xs)

options_of-length : (cs : List ToolCandidate) → length (options_of cs) ≤ 5
unfolding options_of
options_of-length cs = length-map-take _ 5 cs

pub weak_options-length : (ws : List Weak) → length (weak_options ws) ≤ 5
unfolding weak_options
weak_options-length ws = length-map-take _ 5 ws

pub candidate_clarification-Turns :
    (state : TurnState) (topic : String) (r : ToolResult) (slots : Dict String String)
    (message : String)
    → Turns state (candidate_clarification state topic r slots message)
unfolding candidate_clarification
candidate_clarification-Turns state topic r slots message = record {
  session = refl;
  revision = refl;
  answer = (say message "CLARIFICATION", refl);
  failure = refl;
  options = λ h. options_of-length r.candidates;
}

ask_slot-Turns :
    (state : TurnState) (slots : Dict String String) (topic message : String)
    → Turns state (ask_slot state slots topic message)
unfolding ask_slot
ask_slot-Turns state slots topic message = record {
  session = refl;
  revision = refl;
  answer = (say message "CLARIFICATION", refl);
  failure = refl;
  options = λ h. omega arith;
}

pub respond-Turns :
    (state s : TurnState) (outcome : Outcome) (answer : Answer)
    → s.session_id ≡ state.session_id
    → s.revision ≡ suc state.revision
    → (length (options_in state.pending_question) ≤ 5 → length (options_in s.pending_question) ≤ 5)
    → Turns state (respond outcome s answer)
respond-Turns state s outcome answer session revision options = record {
  session = session;
  revision = revision;
  answer = (answer, refl);
  failure = refl;
  options = options;
}

pub respond_with-Turns :
    (state s : TurnState) (outcome : Outcome) (answer : Option Answer)
    → s.session_id ≡ state.session_id
    → s.revision ≡ suc state.revision
    → (length (options_in state.pending_question) ≤ 5 → length (options_in s.pending_question) ≤ 5)
    → Turns state (respond_with outcome s answer)
respond_with-Turns state s outcome none session revision options = tt
respond_with-Turns state s outcome (some answer) session revision options =
    respond-Turns state s outcome answer session revision options

pub or_else-Turns :
    (state : TurnState) (h h' : Handled)
    → Turns state h
    → Turns state h'
    → Turns state (or_else h h')
unfolding or_else
or_else-Turns state unhandled h' t t' = t'
or_else-Turns state raised h' t t' = tt
or_else-Turns state (reply r) h' t t' = t

profile_answer-Turns :
    (state : TurnState) (b : CatalogBundle) (slots : Dict String String)
    (department_id position_id : String) (ids : List String)
    → Turns state (profile_answer state b slots department_id position_id ids)
unfolding profile_answer
profile_answer-Turns state b slots department_id position_id [] = tt
profile_answer-Turns state b slots department_id position_id (id ∷ ids) =
    if-holds (Turns state) (roles_raise b (id ∷ ids)) tt
      (respond-Turns state _ _ _ refl refl (λ h. omega arith))

resolved_profiles-Turns :
    (state : TurnState) (b : CatalogBundle) (slots : Dict String String)
    (department_id position_id : String) (r : ToolResult)
    → Turns state (resolved_profiles state b slots department_id position_id r)
unfolding resolved_profiles
resolved_profiles-Turns state b slots department_id position_id r = ground (
  arith,
  ask_slot-Turns state slots "position"
      "Для этой пары подразделения и должности профиль не найден. Уточните должность.",
  candidate_clarification-Turns state "profile" r slots
      "Нашлось несколько профилей. Выберите нужный.",
  profile_answer-Turns state b slots department_id position_id (ids_of r.candidates),
)

pub finish_profile_access-Turns :
    (state : TurnState) (b : CatalogBundle) (slots : Dict String String)
    → Turns state (finish_profile_access state b slots)
unfolding finish_profile_access
finish_profile_access-Turns state b slots = ground (
  arith,
  ask_slot-Turns state slots "department"
      "Уточните подразделение: полное название или номер и город.",
  ask_slot-Turns state slots "position" "Уточните должность для выбранного подразделения.",
  resolved_profiles-Turns state b slots (slot slots "department_id") (slot slots "position_id") (
      resolve_profiles b (slot slots "department_id") (slot slots "position_id")
        (or_none (slot slots "city")) none 5),
)

finish_with-Turns :
    (state : TurnState) (b : CatalogBundle) (slots : Option (Dict String String))
    → Turns state (finish_with state b slots)
unfolding finish_with
finish_with-Turns state b none = tt
finish_with-Turns state b (some slots) = finish_profile_access-Turns state b slots

with_department-Turns :
    (state : TurnState) (b : CatalogBundle) (slots : Dict String String) (r : ToolResult)
    → Turns state (with_department state b slots r)
unfolding with_department
with_department-Turns state b slots r = ground (
  arith,
  finish_profile_access-Turns state b slots,
  ask_slot-Turns state slots "department"
      "Уточните подразделение: полное название или номер и город.",
  candidate_clarification-Turns state "department" r slots
      "Подразделений с таким номером несколько. Выберите нужное или уточните город.",
  finish_with-Turns state b (set_first "department_id" r.candidates slots),
)

maybe_department-Turns :
    (state : TurnState) (b : CatalogBundle) (slots : Option (Dict String String)) (r : ToolResult)
    → Turns state (maybe_department state b slots r)
unfolding maybe_department
maybe_department-Turns state b none r = tt
maybe_department-Turns state b (some slots) r = with_department-Turns state b slots r

with_position-Turns :
    (state : TurnState) (b : CatalogBundle) (slots : Dict String String) (r s : ToolResult)
    → Turns state (with_position state b slots r s)
unfolding with_position
with_position-Turns state b slots r s = ground (
  arith,
  with_department-Turns state b slots s,
  candidate_clarification-Turns state "position" r slots
      "Нашлось несколько должностей. Выберите нужную.",
  maybe_department-Turns state b (set_first "position_id" r.candidates slots) s,
)

pub organization_request-Turns :
    (b : CatalogBundle) (request : TurnRequest)
    → Turns request.state (organization_request b request)
unfolding organization_request
organization_request-Turns b request = search (if-holds (Turns request.state), with_position-Turns)
