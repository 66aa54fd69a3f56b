-- ===== src/Agent/Engine/Total.antt =====
-- The handler raises nothing on a bundle whose ids and titles are in order.
pub mod Dialogue
pub mod Handler
use role_model_helper_v.Prelude.{
  ℕ, any, String, ◌≡◌, refl, sym, ap, ◌≢◌, ◌⊎◌, inl, inr, Bool, true, false, Option, none, some,
  List, [], ◌∷◌, ◌++◌, map, arith, All, Among, Among-All, if-holds, Option-cases, Bool-cases, find,
  string_eq,
}
use role_model_helper_v.Prelude.{◌==◌, if◌then◌else◌}
use role_model_helper_v.Prelude.Dict
use role_model_helper_v.Prelude.Dict.{Dict}
use mathlib.Core.Option
use mathlib.Core.Option.{some-injective}
use mathlib.Core.Path.{subst}
use role_model_helper_v.Tools.Rank.{Safety, safe, safety_of}
use role_model_helper_v.Catalog.Bundle.Laws.{index_systems-IsKnown}
use role_model_helper_v.Score.{Score}
use role_model_helper_v.Telemetry.{Clock, TurnTrace}
use role_model_helper_v.Catalog.Cache.{Cache, current}
use role_model_helper_v.Agent.Engine.{
  Planner, PlannerReply, planned, malformed, timed_out, broken, refusal, planned_reply,
  planned_answer, system_answer, plan_result, fallback, handle_with, handle_bundle, handle,
}
use role_model_helper_v.Text.{Text}
use role_model_helper_v.Agent.Models.{
  Outcome, Candidate, PendingQuestion, TurnState, TurnRequest, TurnResult, Answer, Plan,
}
use role_model_helper_v.Agent.Answers.{
  roles_answer, instruction_answer, instruction_found, instruction_missing,
}
use role_model_helper_v.Agent.Matches.{
  Weak, Hit, sure, maybe, no_hit, match_aliases, match_systems, system_matches, sort_weak,
  unique_weak,
}
use role_model_helper_v.Agent.Dialogue.Reply.{
  Reply, Handled, reply, unhandled, raised, slot, or_none, respond, respond_with,
  candidate_clarification, ask_slot,
}
use role_model_helper_v.Agent.Dialogue.Profile.{
  finish_profile_access, resolved_profiles, profile_answer, roles_raise, ids_of,
}
use role_model_helper_v.Agent.Dialogue.Slot.{
  Canonical, settled, asked, missing, handle_pending_slot, with_value, canonical_value, city_value,
  system_value, from_search, first_id,
}
use role_model_helper_v.Agent.Dialogue.Organization.{
  organization_request, with_position, maybe_department, with_department, finish_with, set_first,
}
use role_model_helper_v.Agent.Deterministic.{
  reset_reply, intent_reply, selected_reply, selection_reply, pending_reply, system_reply,
  match_reply, or_else, deterministic_reply,
}
use role_model_helper_v.Catalog.Bundle.{
  Role, has_levels, Role, has_levels, Instruction, System, Document, CatalogBundle, from_mapping,
  index_systems, or_empty,
}
use role_model_helper_v.Tools.Search.{
  ToolCandidate, ToolResult, ToolStatus, found, ambiguous, not_found, invalid, result,
  resolve_profiles, search_departments, search_positions, search_systems, role_raises,
  search_roles_raises,
}
use role_model_helper_v.Tools.Search.Laws.{IsMatched, result-IsMatched}

-- The ids of the systems are keys of the bundle, its instructions have titles, and the access levels
-- of its roles can be read as numbers.
pub record IsComplete (b : CatalogBundle) : Type 0 where
  pub systems :
      All
        (λ (s : System). (t : System) × (Dict.get b.systems s.id ≡ some t))
        (Dict.values b.systems)
  pub titles : All (λ (i : Instruction). (t : String) × (i.title ≡ some t)) b.instructions
  pub levels :
      (id : String) (s : System) → Dict.get b.systems id ≡ some s → has_levels s.roles ≡ true

abbrev pub is_raised : Handled → Bool
is_raised raised = true
is_raised unhandled = false
is_raised (reply r) = false

abbrev pub Fine : Handled → Type 0
Fine h = is_raised h ≡ false

pub roles_answer-some :
    (b : CatalogBundle) (id : String) (s : System)
    → IsComplete b
    → Dict.get b.systems id ≡ some s
    → roles_answer b id ≢ none
unfolding roles_answer
roles_answer-some b id s c e = λ q. ground (arith, e, q, c.levels id s e)

any-role_raises :
    (query : String) (allowed : Option (List String)) (level : Option ℕ) (roles : List Role)
    → has_levels roles ≡ true
    → any (role_raises query allowed level) roles ≡ false
unfolding role_raises
any-role_raises query allowed level [] h = refl
any-role_raises query allowed level (r ∷ roles) h =
    ground (arith, h, any-role_raises query allowed level roles)

search_roles_raises-false :
    (b : CatalogBundle) (id : String) (ids : List String) (query : Option String) (level : Option ℕ)
    → IsComplete b
    → search_roles_raises b id ids query level ≡ false
unfolding search_roles_raises
search_roles_raises-false b id ids query level c = elim (Option-cases (Dict.get b.systems id)) [
  | inl out ↦ rw (out, search_roles_raises) refl
  | inr (s, there) ↦
      rw (there, search_roles_raises) (any-role_raises _ _ level s.roles (c.levels id s there))
]

any-false : {A : Type 0} (f : A → Bool) (xs : List A) → ((x : A) → f x ≡ false) → any f xs ≡ false
any-false f [] h = refl
any-false f (x ∷ xs) h = rw (h x, any-false f xs h) refl

roles_raise-false :
    (b : CatalogBundle) (ids : List String) → IsComplete b → roles_raise b ids ≡ false
unfolding roles_raise
roles_raise-false b ids c =
    any-false _ (search_systems b none ids 10).candidates
      (λ (x : ToolCandidate). search_roles_raises-false b x.id ids none none c)

find-All :
    {A : Type 0} (P : A → Type 0) (f : A → Bool) (xs : List A) (x : A)
    → All P xs
    → find f xs ≡ some x
    → P x
find-All P f [] x h e = absurd (ground arith)
find-All P f (y ∷ xs) x (p, h) e = elim (Bool-cases (f y)) [
  | inl hit ↦ subst P (some-injective _ _ (rw hit at e)) p
  | inr miss ↦ find-All P f xs x h (rw miss at e)
]

abbrev pub IsTitled : Instruction → Type 0
IsTitled i = (t : String) × (i.title ≡ some t)

pub instruction_answer-some :
    (b : CatalogBundle) (id : String) (s : System)
    → IsComplete b
    → Dict.get b.systems id ≡ some s
    → instruction_answer b id ≢ none
unfolding instruction_answer instruction_found instruction_missing
instruction_answer-some b id s c e q =
    elim (Option-cases (find (λ (i : Instruction). or_empty i.system_id == id) b.instructions)) [
      | inl nothing ↦ ground (arith, e, nothing, q)
      | inr (i, there) ↦
          let (t, titled) =
            find-All IsTitled (λ (i : Instruction). or_empty i.system_id == id) b.instructions i
              c.titles there in
          ground (arith, e, there, titled, q)
    ]

pub respond_with-Fine :
    (outcome : Outcome) (state : TurnState) (a : Option Answer)
    → a ≢ none
    → Fine (respond_with outcome state a)
respond_with-Fine outcome state none h = absurd (h refl)
respond_with-Fine outcome state (some a) h = refl

pub or_else-Fine : (h h' : Handled) → Fine h → Fine h' → Fine (or_else h h')
unfolding or_else
or_else-Fine unhandled h' t t' = t'
or_else-Fine raised h' t t' = absurd cc
or_else-Fine (reply r) h' t t' = refl

ids_of-some : (r : ToolResult) → IsMatched r → r.status ≡ found → ids_of r.candidates ≢ []
ids_of-some r m e q = let (c, rest, there) = m.1 e in absurd (ground (arith, there))

profile_answer-Fine :
    (state : TurnState) (b : CatalogBundle) (slots : Dict String String) (d p : String)
    (ids : List String)
    → IsComplete b
    → ids ≢ []
    → Fine (profile_answer state b slots d p ids)
unfolding profile_answer
profile_answer-Fine state b slots d p [] c h = absurd (h refl)
profile_answer-Fine state b slots d p (id ∷ ids) c h = rw (roles_raise-false b (id ∷ ids) c) refl

resolved_profiles-Fine :
    (state : TurnState) (b : CatalogBundle) (slots : Dict String String) (d p : String)
    (r : ToolResult)
    → IsComplete b
    → IsMatched r
    → Fine (resolved_profiles state b slots d p r)
unfolding resolved_profiles ask_slot candidate_clarification
resolved_profiles-Fine state b slots d p r c m = ground (
  arith,
  m.0,
  λ (e : r.status ≡ found).
      profile_answer-Fine state b slots d p (ids_of r.candidates) c (ids_of-some r m e),
)

pub finish_profile_access-Fine :
    (state : TurnState) (b : CatalogBundle) (slots : Dict String String)
    → IsComplete b
    → Fine (finish_profile_access state b slots)
unfolding finish_profile_access ask_slot resolve_profiles
finish_profile_access-Fine state b slots c =
    search (if-holds Fine, resolved_profiles-Fine state b, result-IsMatched b)

set_first-some :
    (key : String) (r : ToolResult) (slots : Dict String String)
    → IsMatched r
    → r.status ≡ found
    → set_first key r.candidates slots ≢ none
unfolding set_first
set_first-some key r slots m e q = let (c, rest, there) = m.1 e in absurd (ground (arith, there))

finish_with-Fine :
    (state : TurnState) (b : CatalogBundle) (slots : Option (Dict String String))
    → IsComplete b
    → slots ≢ none
    → Fine (finish_with state b slots)
unfolding finish_with
finish_with-Fine state b none c h = absurd (h refl)
finish_with-Fine state b (some slots) c h = finish_profile_access-Fine state b slots c

with_department-Fine :
    (state : TurnState) (b : CatalogBundle) (slots : Dict String String) (r : ToolResult)
    → IsComplete b
    → IsMatched r
    → Fine (with_department state b slots r)
unfolding with_department ask_slot candidate_clarification
with_department-Fine state b slots r c m = ground (
  arith,
  m.0,
  finish_profile_access-Fine state b slots c,
  λ (e : r.status ≡ found).
      finish_with-Fine state b (set_first "department_id" r.candidates slots) c
        (set_first-some "department_id" r slots m e),
)

maybe_department-Fine :
    (state : TurnState) (b : CatalogBundle) (slots : Option (Dict String String)) (r : ToolResult)
    → IsComplete b
    → IsMatched r
    → slots ≢ none
    → Fine (maybe_department state b slots r)
unfolding maybe_department
maybe_department-Fine state b none r c m h = absurd (h refl)
maybe_department-Fine state b (some slots) r c m h = with_department-Fine state b slots r c m

with_position-Fine :
    (state : TurnState) (b : CatalogBundle) (slots : Dict String String) (r s : ToolResult)
    → IsComplete b
    → IsMatched r
    → IsMatched s
    → Fine (with_position state b slots r s)
unfolding with_position candidate_clarification
with_position-Fine state b slots r s c m n = ground (
  arith,
  m.0,
  with_department-Fine state b slots s c n,
  λ (e : r.status ≡ found).
      maybe_department-Fine state b (set_first "position_id" r.candidates slots) s c n
        (set_first-some "position_id" r slots m e),
)

pub organization_request-Fine :
    (b : CatalogBundle) (request : TurnRequest)
    → IsComplete b
    → Fine (organization_request b request)
unfolding organization_request search_departments search_positions
organization_request-Fine b request c =
    search (if-holds Fine, with_position-Fine request.state b, result-IsMatched b)
