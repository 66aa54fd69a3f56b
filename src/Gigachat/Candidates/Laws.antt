-- ===== src/Gigachat/Candidates/Laws.antt =====
-- What the model is shown of the catalog.
use role_model_helper_v.Prelude.{
  ℕ, zero, suc, ◌≤◌, ◌≡◌, refl, String, true, none, some, List, [], ◌∷◌, map, take, length, All,
  All-take, All_mono, length-take_le, contains, string_eq, Option-cases, inl, inr, if-holds, arith,
}
use role_model_helper_v.Prelude.Dict
use role_model_helper_v.Prelude.Dict.{Dict}
use role_model_helper_v.Prelude.Dict.Laws.{
  insert-All, get_or-All, get-All_binding, contains-keys_of_get,
}
use role_model_helper_v.Catalog.Bundle.{System, CatalogBundle}
use role_model_helper_v.Tools.Search.{ToolCandidate, search_systems, search_roles}
use role_model_helper_v.Tools.Search.Origins.{IsRoleOf, search_systems-known, search_roles-IsRoleOf}
use mathlib.Core.Path.{subst, sym}
use role_model_helper_v.Agent.Models.{TurnRequest}
use role_model_helper_v.Gigachat.Candidates.{
  MatchedRole, SystemMatch, Matches, direct_matches, matched_role, with_roles, bare_match,
  add_matches, role_matches, with_state_system, match_before, insert_match, sorted_matches,
  catalog_candidates,
}

-- A system of the bundle, shown under its id with at most three roles, all of them its own.
abbrev pub IsShown : CatalogBundle → String → SystemMatch → Type 0
IsShown b id m =
    (m.id ≡ id)
    × (contains (Dict.keys b.systems) id ≡ true)
    × (length m.matched_roles ≤ 3)
    × All (λ (r : MatchedRole). IsRoleOf b id r.id) m.matched_roles

abbrev AllShown : CatalogBundle → Matches → Type 0
AllShown b = All (λ e. IsShown b e.0 e.1)

module _ {κ} (P : SystemMatch → Type κ) where
  insert_match-All :
      (m : SystemMatch) (ms : List SystemMatch) → P m → All P ms → All P (insert_match m ms)
  unfolding insert_match
  insert_match-All m [] p h = (p, tt)
  insert_match-All m (n ∷ ns) p (q, h) =
      if-holds (All P) (match_before n m) (q, insert_match-All m ns p h) (p, (q, h))

  sorted_matches-All : (ms : List SystemMatch) → All P ms → All P (sorted_matches ms)
  unfolding sorted_matches
  sorted_matches-All [] h = tt
  sorted_matches-All (m ∷ ms) (p, h) =
      insert_match-All m (sorted_matches ms) p (sorted_matches-All ms h)

length-map-take : (n : ℕ) (cs : List ToolCandidate) → length (map matched_role (take n cs)) ≤ n
length-map-take zero cs = omega arith
length-map-take (suc n) [] = omega arith
length-map-take (suc n) (c ∷ cs) = omega (arith, length-map-take n cs)

IsShown-itself :
    (b : CatalogBundle) (id : String) (m : SystemMatch) → IsShown b id m → IsShown b m.id m
IsShown-itself b id m h = subst (λ i. IsShown b i m) (sym h.0) h

module _ (b : CatalogBundle) where
  All-map-take :
      (id : String) (n : ℕ) (cs : List ToolCandidate)
      → All (λ (c : ToolCandidate). IsRoleOf b id c.id) cs
      → All (λ (r : MatchedRole). IsRoleOf b id r.id) (map matched_role (take n cs))
  All-map-take id zero cs h = tt
  All-map-take id (suc n) [] h = tt
  All-map-take id (suc n) (c ∷ cs) (p, h) = (p, All-map-take id n cs h)

  direct_matches-AllShown :
      (made : Matches) (cs : List ToolCandidate)
      → All (λ (c : ToolCandidate). contains (Dict.keys b.systems) c.id ≡ true) cs
      → AllShown b made
      → AllShown b (direct_matches made cs)
  unfolding direct_matches
  direct_matches-AllShown made [] known h = h
  direct_matches-AllShown made (c ∷ cs) (k, known) h =
      direct_matches-AllShown
        (Dict.insert c.id
          (record { id = c.id; label = c.label; score = c.score; matched_roles = [] }) made)
        cs known (insert-All (IsShown b) made c.id _ h (refl, k, omega arith, tt))

  add_matches-AllShown :
      (id : String) (s : System) (cs : List ToolCandidate) (made : Matches)
      → contains (Dict.keys b.systems) id ≡ true
      → All (λ (c : ToolCandidate). IsRoleOf b id c.id) cs
      → AllShown b made
      → AllShown b (add_matches id s cs made)
  unfolding add_matches with_roles
  add_matches-AllShown id s [] made k roles h = h
  add_matches-AllShown id s (c ∷ cs) made k roles h =
      let entry : IsShown b id (Dict.get_or made id (bare_match id s)) =
        get_or-All (IsShown b) made id (bare_match id s) h (refl, k, omega arith, tt) in
      insert-All (IsShown b) made id _ h
        (entry.0, k, length-map-take 3 (c ∷ cs), All-map-take id 3 (c ∷ cs) roles)

  role_matches-AllShown :
      (text : String) (systems : Dict String System) (made : Matches)
      → All (λ e. contains (Dict.keys b.systems) e.0 ≡ true) systems
      → AllShown b made
      → AllShown b (role_matches b text systems made)
  unfolding role_matches
  role_matches-AllShown text [] made known h = h
  role_matches-AllShown text ((id, s) ∷ systems) made (k, known) h =
      role_matches-AllShown text systems
        (add_matches id s (search_roles b id [] (some text) none 3).candidates made) known
        (add_matches-AllShown id s _ made k (search_roles-IsRoleOf b id [] (some text) none 3) h)

  with_state_system-AllShown :
      (id : String) (made : Matches) → AllShown b made → AllShown b (with_state_system b id made)
  unfolding with_state_system
  with_state_system-AllShown id made h = elim (Option-cases (Dict.get b.systems id)) [
    | inl missing ↦ rw (missing, with_state_system) h
    | inr (s, there) ↦
        let k = contains-keys_of_get b.systems id there in
        elim (Option-cases (Dict.get made id)) [
          | inl new ↦
              rw (there, new, with_state_system)
                (insert-All (IsShown b) made id _ h (refl, k, omega arith, tt))
          | inr (m, old) ↦
              let shown = get-All_binding (IsShown b) made id h old in
              rw (there, old, with_state_system)
                (insert-All (IsShown b) made id _ h (refl, k, shown.2, shown.3))
        ]
  ]

self_keys : (d : Dict String System) → All (λ e. contains (Dict.keys d) e.0 ≡ true) d
unfolding Dict.keys
self_keys [] = tt
self_keys ((j, s) ∷ d) = (ground arith, All_mono _ _ d (λ e h. ground (arith, h)) (self_keys d))

values-All {μ} :
    (P : SystemMatch → Type μ) (d : Matches) → All (λ e. P e.1) d → All P (Dict.values d)
unfolding Dict.values
values-All P [] h = tt
values-All P (e ∷ d) (p, h) = (p, values-All P d h)

-- The model is shown at most five systems. Each is a system of the bundle, and at most three roles
-- are shown with it, each of them a role of that system.
pub catalog_candidates-IsShown :
    (request : TurnRequest) (b : CatalogBundle)
    → let systems = (catalog_candidates request b).systems in
      (length systems ≤ 5) × All (λ (m : SystemMatch). IsShown b m.id m) systems
unfolding catalog_candidates
catalog_candidates-IsShown request b =
    let direct = (search_systems b (some request.text) [] 5).candidates in
    let all_shown =
      with_state_system-AllShown b (Dict.get_or request.state.slots "system_id" "") _ (
        role_matches-AllShown b request.text b.systems (direct_matches [] direct)
          (self_keys b.systems)
          (direct_matches-AllShown b [] direct (search_systems-known b (some request.text) [] 5)
            tt)) in
    (
      length-take_le 5 _,
      All-take _ 5 _ (
          sorted_matches-All _ _
            (values-All _ _ (All_mono _ _ _ (λ e. IsShown-itself b e.0 e.1) all_shown))),
    )
