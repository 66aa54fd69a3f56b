-- ===== src/Tools/Search/Origins.antt =====
-- Where the systems and roles that a search returns stand in the bundle.
use role_model_helper_v.Prelude.{
  ℕ, ◌≡◌, ap, String, true, Option, some, List, [], ◌∷◌, map, contains, string_eq, All, All_mono,
  Among, Option-cases, inl, inr, arith, ◌==◌,
}
use role_model_helper_v.Prelude.Dict
use role_model_helper_v.Prelude.Dict.{Dict}
use role_model_helper_v.Catalog.Bundle.{System, Role, CatalogBundle, or_empty}
use role_model_helper_v.Tools.Search.Laws.{result-All, collect-All}
use role_model_helper_v.Tools.Search.{
  ToolCandidate, system_candidate, search_systems, system_ids_for_profiles, role_candidate,
  search_roles, bounded, role_ids_for_profiles,
}

contains-keys_of_Among :
    (d : Dict String System) (id : String) (s : System)
    → Among {A = String × System} (id, s) d
    → contains (Dict.keys d) id ≡ true
unfolding Dict.keys
contains-keys_of_Among [] id s m = absurd m
contains-keys_of_Among ((j, t) ∷ d) id s (inl e) =
    ground (arith, ap (λ (p : String × System). p.0) e)
contains-keys_of_Among ((j, t) ∷ d) id s (inr m) = ground (arith, contains-keys_of_Among d id s m)

system_candidate-id :
    (query : String) (allowed : Option (List String)) (id : String) (s : System)
    → All (λ (c : ToolCandidate). c.id ≡ id) (system_candidate query allowed (id, s))
unfolding system_candidate
system_candidate-id query allowed id s = ground arith

-- Every system that a search returns has the id of a system of the bundle.
pub search_systems-known :
    (b : CatalogBundle) (query : Option String) (profile_ids : List String) (limit : ℕ)
    → All
        (λ (c : ToolCandidate). contains (Dict.keys b.systems) c.id ≡ true)
        (search_systems b query profile_ids limit).candidates
unfolding search_systems
search_systems-known b query profile_ids limit =
    result-All _ b _ (bounded limit) (or_empty query == "") (
      collect-All (λ (c : ToolCandidate). contains (Dict.keys b.systems) c.id ≡ true)
        (system_candidate (or_empty query) (system_ids_for_profiles b profile_ids)) b.systems
        λ p m.
          All_mono _ _ _ (λ c e. rw e (contains-keys_of_Among b.systems p.0 p.1 m))
            (system_candidate-id (or_empty query) (system_ids_for_profiles b profile_ids) p.0 p.1))

-- The candidate has the id of a role of the system.
abbrev pub IsRoleOf : CatalogBundle → String → String → Type 0
IsRoleOf b system_id role_id =
    (s : System) × (Dict.get b.systems system_id ≡ some s)
    × (contains (map (λ (r : Role). r.id) s.roles) role_id ≡ true)

role_of_Among :
    (roles : List Role) (r : Role)
    → Among r roles
    → contains (map (λ (x : Role). x.id) roles) r.id ≡ true
role_of_Among [] r m = absurd m
role_of_Among (x ∷ roles) r (inl e) = ground (arith, ap (λ (y : Role). y.id) e)
role_of_Among (x ∷ roles) r (inr m) = ground (arith, role_of_Among roles r m)

role_candidate-id :
    (system_id query : String) (allowed : Option (List String)) (level : Option ℕ) (r : Role)
    → All (λ (c : ToolCandidate). c.id ≡ r.id) (role_candidate system_id query allowed level r)
unfolding role_candidate
role_candidate-id system_id query allowed level r = ground arith

search_roles-All :
    (P : ToolCandidate → Type 0) (b : CatalogBundle) (system_id : String)
    (profile_ids : List String) (query : Option String) (level : Option ℕ) (limit : ℕ)
    → ((s : System)
        → Dict.get b.systems system_id ≡ some s
        → (r : Role) → Among r s.roles
        → All P (
            role_candidate system_id
              (or_empty query)
              (role_ids_for_profiles b system_id profile_ids)
              level
              r))
    → All P (search_roles b system_id profile_ids query level limit).candidates
unfolding search_roles
search_roles-All P b system_id profile_ids query level limit h =
    elim (Option-cases (Dict.get b.systems system_id)) [
      | inl missing ↦ rw (missing, search_roles) tt
      | inr (s, there) ↦
          rw (there, search_roles)
            (result-All P b _ (bounded limit) (or_empty query == "") (
              collect-All P
                (role_candidate system_id (or_empty query)
                  (role_ids_for_profiles b system_id profile_ids) level)
                s.roles (h s there)))
    ]

-- Every role that a search returns is a role of the system that was asked for.
pub search_roles-IsRoleOf :
    (b : CatalogBundle) (system_id : String) (profile_ids : List String) (query : Option String)
    (level : Option ℕ) (limit : ℕ)
    → All
        (λ (c : ToolCandidate). IsRoleOf b system_id c.id)
        (search_roles b system_id profile_ids query level limit).candidates
search_roles-IsRoleOf b system_id profile_ids query level limit =
    search_roles-All (λ c. IsRoleOf b system_id c.id) b system_id profile_ids query level limit
      λ s there r m.
        All_mono _ _ _ (λ c e. (s, there, rw e (role_of_Among s.roles r m)))
          (role_candidate-id system_id (or_empty query)
            (role_ids_for_profiles b system_id profile_ids) level r)
