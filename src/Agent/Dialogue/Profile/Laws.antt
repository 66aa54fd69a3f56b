-- ===== src/Agent/Dialogue/Profile/Laws.antt =====
-- The answer of `_finish_profile_access` and the access that the profiles grant.
use role_model_helper_v.Prelude.{
  String, ◌≡◌, refl, inl, inr, true, none, some, List, [], ◌∷◌, arith, All, Among, All-append,
  contains, string_eq,
}
use role_model_helper_v.Prelude.Dict
use role_model_helper_v.Prelude.Dict.{Dict}
use role_model_helper_v.Agent.Models.{handled, TurnState, Answer, many}
use role_model_helper_v.Agent.Dialogue.Reply.{
  Reply, reply, slot, or_none, candidate_clarification, ask_slot,
}
use role_model_helper_v.Catalog.Bundle.{Profile, CatalogBundle}
use role_model_helper_v.Tools.Search.{
  ToolCandidate, ToolResult, resolve_profiles, search_systems, granted_roles,
}
use role_model_helper_v.Tools.Search.Laws.{resolve_profiles-IsLinked, search_roles-granted}
use role_model_helper_v.Agent.Dialogue.Profile.{
  ids_of, roles_in, role_ids_in, access_answer, profile_answer, resolved_profiles,
  finish_profile_access,
}

-- The systems that the answer lists.
abbrev pub listed_systems : CatalogBundle → List String → List ToolCandidate
listed_systems b profile_ids = (search_systems b none profile_ids 10).candidates

-- A role that the profiles grant in one of these systems.
abbrev pub IsGranted : CatalogBundle → List String → List ToolCandidate → String → Type 0
IsGranted b profile_ids systems id =
    (s : ToolCandidate) × Among s systems × (contains (granted_roles b s.id profile_ids) id ≡ true)

All-map :
    (P : String → Type 0) (cs : List ToolCandidate)
    → All (λ (c : ToolCandidate). P c.id) cs
    → All P (ids_of cs)
All-map P [] h = tt
All-map P (c ∷ cs) (p, h) = (p, All-map P cs h)

All-weaken :
    {P Q : String → Type 0}
    → ((id : String) → P id → Q id)
    → (ids : List String) → All P ids
    → All Q ids
All-weaken f [] h = tt
All-weaken f (id ∷ ids) (p, h) = (f id p, All-weaken f ids h)

role_ids_in-IsGranted :
    (b : CatalogBundle) (id : String) (ids : List String) (systems : List ToolCandidate)
    → All (IsGranted b (id ∷ ids) systems) (role_ids_in b (id ∷ ids) systems)
unfolding role_ids_in roles_in
role_ids_in-IsGranted b id ids [] = tt
role_ids_in-IsGranted b id ids (s ∷ systems) =
    All-append (IsGranted b (id ∷ ids) (s ∷ systems)) _ _
      (All-weaken (λ r h. (s, inl refl, h)) _
        (All-map _ _ (search_roles-granted b s.id id ids none none 10)))
      (All-weaken (λ r (t, m, h). (t, inr m, h)) _ (role_ids_in-IsGranted b id ids systems))

-- A profile that has the department and the position.
abbrev pub IsProfileOf : CatalogBundle → String → String → String → Type 0
IsProfileOf b department_id position_id id =
    (p : Profile) × Among p (Dict.values b.profiles)
    × (p.id ≡ id)
    × (contains p.department_ids department_id ≡ true)
    × (contains p.position_ids position_id ≡ true)

-- What the facts of an access answer name: the profiles, the systems listed, and granted roles.
abbrev pub Grounded : TurnState → CatalogBundle → Dict String String → Reply → Type 0
Grounded state b slots r =
    (a : Answer) × (id : String) × (ids : List String) × (role_ids : List String) × (r.answer
      ≡ some a)
    × (Dict.get a.facts "profile_ids" ≡ some (many (id ∷ ids)))
    × (Dict.get a.facts "system_ids" ≡ some (many (ids_of (listed_systems b (id ∷ ids)))))
    × (Dict.get a.facts "role_ids" ≡ some (many role_ids))
    × All (IsProfileOf b (slot slots "department_id") (slot slots "position_id")) (id ∷ ids)
    × All (IsGranted b (id ∷ ids) (listed_systems b (id ∷ ids))) role_ids

profile_answer-Grounded :
    (state : TurnState) (b : CatalogBundle) (slots : Dict String String) (ids : List String)
    (r : Reply)
    → All (IsProfileOf b (slot slots "department_id") (slot slots "position_id")) ids
    → profile_answer state b slots (slot slots "department_id") (slot slots "position_id") ids
      ≡ reply r
    → Grounded state b slots r
unfolding profile_answer access_answer Dict.get string_eq
profile_answer-Grounded state b slots [] r linked h = absurd (ground arith)
profile_answer-Grounded state b slots (id ∷ ids) r linked h = (
  access_answer b (slot slots "department_id") (slot slots "position_id") (id ∷ ids),
  id,
  ids,
  role_ids_in b (id ∷ ids) (listed_systems b (id ∷ ids)),
  ground arith,
  refl,
  refl,
  refl,
  linked,
  role_ids_in-IsGranted b id ids (listed_systems b (id ∷ ids)),
)

resolved_profiles-Grounded :
    (state : TurnState) (b : CatalogBundle) (slots : Dict String String) (result : ToolResult)
    (r : Reply)
    → All
        (IsProfileOf b (slot slots "department_id") (slot slots "position_id"))
        (ids_of result.candidates)
    → resolved_profiles state b slots (slot slots "department_id") (slot slots "position_id") result
      ≡ reply r
    → r.outcome ≡ handled
    → Grounded state b slots r
unfolding resolved_profiles ask_slot candidate_clarification
resolved_profiles-Grounded state b slots result r linked h outcome =
    profile_answer-Grounded state b slots (ids_of result.candidates) r linked (ground arith)

pub finish_profile_access-Grounded :
    (state : TurnState) (b : CatalogBundle) (slots : Dict String String) (r : Reply)
    → finish_profile_access state b slots ≡ reply r
    → r.outcome ≡ handled
    → Grounded state b slots r
unfolding finish_profile_access ask_slot
finish_profile_access-Grounded state b slots r h outcome =
    resolved_profiles-Grounded state b slots
      (resolve_profiles b (slot slots "department_id") (slot slots "position_id")
        (or_none (slot slots "city")) none 5)
      r
      (All-map _ _ (
        resolve_profiles-IsLinked b (slot slots "department_id") (slot slots "position_id")
          (or_none (slot slots "city")) none 5))
      (ground arith) outcome
