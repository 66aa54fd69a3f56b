-- ===== src/Tools/Search/Laws.antt =====
-- What the tools return: how many, from where, and under which conditions.
use role_model_helper_v.Prelude.{
  ℕ, ◌≤◌, String, Bool, true, false, ◌≡◌, refl, ◌≢◌, inl, inr, Option, none, some, List, [], ◌∷◌,
  arith, ◌↔◌,
}
use role_model_helper_v.Prelude.{
  ◌==◌, contains, string_eq, option_eq, nat_eq, length, length-take_le, take, All, All-take,
  All-append, Among, Bool-cases, Option-cases,
}
use role_model_helper_v.Prelude.Dict
use role_model_helper_v.Text.{Text, codes}
use role_model_helper_v.Catalog.Bundle.{CatalogBundle, Department, Profile, Role, System, or_empty}
use role_model_helper_v.Catalog.Normalization.{parse_department_number, normalize_query}
use role_model_helper_v.Tools.Search.{
  ToolCandidate, ToolResult, found, not_found, invalid, bounded, insert_candidate, sorted,
  status_of, result, collect, number_differs, department_candidate, search_departments, is_skipped,
  profile_candidate, resolve_profiles, role_candidate, search_roles, granted_roles,
  role_ids_for_profiles,
}

module _ {ℓ} (P : ToolCandidate → Type ℓ) where
  insert_candidate-All :
      (c : ToolCandidate) (cs : List ToolCandidate) → P c → All P cs → All P (insert_candidate c cs)
  unfolding insert_candidate
  insert_candidate-All c [] p h = (p, tt)
  insert_candidate-All c (d ∷ ds) p (q, h) = ground (arith, insert_candidate-All c ds p h)

  sorted-All : (cs : List ToolCandidate) → All P cs → All P (sorted cs)
  unfolding sorted
  sorted-All [] h = tt
  sorted-All (c ∷ cs) (p, h) = insert_candidate-All c (sorted cs) p (sorted-All cs h)

  pub result-All :
      (b : CatalogBundle) (cs : List ToolCandidate) (limit : ℕ) (list_mode : Bool)
      → All P cs
      → All P (result b cs limit list_mode).candidates
  unfolding result
  result-All b cs limit list_mode h = All-take P limit (sorted cs) (sorted-All cs h)

module _ {κ} {A : Type 0} (P : ToolCandidate → Type κ) where
  pub collect-All :
      (f : A → List ToolCandidate) (xs : List A)
      → ((x : A) → Among x xs → All P (f x))
      → All P (collect f xs)
  unfolding collect
  collect-All f [] h = tt
  collect-All f (x ∷ xs) h =
      All-append P (f x) (collect f xs) (h x (inl refl)) (collect-All f xs (λ y m. h y (inr m)))

status_of-not_found :
    (cs : List ToolCandidate) (list_mode : Bool) → (status_of cs list_mode ≡ not_found) ↔ (cs ≡ [])
unfolding status_of
status_of-not_found [] list_mode = ground arith
status_of-not_found (c ∷ []) list_mode = ground arith
status_of-not_found (c ∷ d ∷ cs) list_mode = ground arith

-- What `_result` builds for a limit that `_limit` bounds has no more candidates than that limit, nor
-- more than ten, and its status is `NOT_FOUND` exactly when it has none.
pub result_bounds :
    (b : CatalogBundle) (cs : List ToolCandidate) (limit : ℕ) (list_mode : Bool)
    → let r = result b cs (bounded limit) list_mode in
      (length r.candidates ≤ bounded limit)
      × (length r.candidates ≤ 10)
      × ((r.status ≡ not_found) ↔ (r.candidates ≡ []))
unfolding result bounded status_of
result_bounds b cs limit list_mode = (
  length-take_le (bounded limit) (sorted cs),
  omega (arith, length-take_le (bounded limit) (sorted cs)),
  status_of-not_found (take (bounded limit) (sorted cs)) list_mode,
)

department_candidate-number :
    (query : String) (n : ℕ) (wanted : Text) (d : Department)
    → All
        (λ (c : ToolCandidate). c.context.number ≡ some n)
        (department_candidate query (some n) wanted d)
unfolding department_candidate number_differs
department_candidate-number query n wanted d = ground arith

-- A department search that names a number returns departments with exactly that number: a query
-- for department 2 never gets department 12 or 20.
pub search_departments_number :
    (b : CatalogBundle) (query : String) (city : Option String) (limit n : ℕ)
    → parse_department_number (codes query) ≡ some n
    → All
        (λ (c : ToolCandidate). c.context.number ≡ some n)
        (search_departments b query city limit).candidates
unfolding search_departments
search_departments_number b query city limit n h =
    result-All Numbered b
      (collect (department_candidate query (parse_department_number (codes query)) wanted)
        b.departments)
      (bounded limit) false
      (collect-All Numbered
        (department_candidate query (parse_department_number (codes query)) wanted) b.departments
        (λ d m. rw h (department_candidate-number query n wanted d)))
  where
    Numbered : ToolCandidate → Type 0
    Numbered c = c.context.number ≡ some n

    wanted : Text
    wanted = normalize_query (codes (or_empty city))

-- A profile of the bundle that is linked to both ids and has the candidate's id.
abbrev pub IsLinked : CatalogBundle → String → String → ToolCandidate → Type 0
IsLinked b department_id position_id c =
    (p : Profile) × Among p (Dict.values b.profiles)
    × (p.id ≡ c.id)
    × (contains p.department_ids department_id ≡ true)
    × (contains p.position_ids position_id ≡ true)

is_skipped-linked :
    (department_id position_id : String) (city : Text) (system_id : String) (p : Profile)
    → is_skipped department_id position_id city system_id p ≡ false
    → (contains p.department_ids department_id ≡ true)
      × (contains p.position_ids position_id ≡ true)
unfolding is_skipped
is_skipped-linked department_id position_id city system_id p h =
    elim (Bool-cases (contains p.department_ids department_id)) [
      | inr out ↦ absurd (ground (arith, out))
      | inl d ↦ elim (Bool-cases (contains p.position_ids position_id)) [
        | inr out ↦ absurd (ground (arith, out))
        | inl q ↦ (d, q)
      ]
    ]

profile_candidate-IsLinked :
    (b : CatalogBundle) (department_id position_id : String) (city : Text) (system_id : String)
    (p : Profile)
    → Among p (Dict.values b.profiles)
    → All
        (IsLinked b department_id position_id)
        (profile_candidate department_id position_id city system_id p)
unfolding profile_candidate
profile_candidate-IsLinked b department_id position_id city system_id p m =
    elim (Bool-cases (is_skipped department_id position_id city system_id p)) [
      | inl out ↦ rw (out, profile_candidate) tt
      | inr kept ↦
          let (d, q) = is_skipped-linked department_id position_id city system_id p kept in
          rw (kept, profile_candidate) ((p, m, refl, d, q), tt)
    ]

-- Profile resolution returns profiles of the bundle that have both the department and the
-- position, and no other.
pub resolve_profiles-IsLinked :
    (b : CatalogBundle) (department_id position_id : String) (city system_id : Option String)
    (limit : ℕ)
    → All
        (IsLinked b department_id position_id)
        (resolve_profiles b department_id position_id city system_id limit).candidates
unfolding resolve_profiles
resolve_profiles-IsLinked b department_id position_id city system_id limit =
    result-All (IsLinked b department_id position_id) b
      (collect one_profile (Dict.values b.profiles)) (bounded limit) false
      (collect-All (IsLinked b department_id position_id) one_profile (Dict.values b.profiles)
        (λ p m.
          profile_candidate-IsLinked b department_id position_id
            (normalize_query (codes (or_empty city))) (or_empty system_id) p m))
  where
    one_profile : Profile → List ToolCandidate
    one_profile =
        profile_candidate department_id position_id (normalize_query (codes (or_empty city)))
          (or_empty system_id)

role_candidate-granted :
    (system_id query : String) (ids : List String) (level : Option ℕ) (r : Role)
    → All
        (λ (c : ToolCandidate). contains ids c.id ≡ true)
        (role_candidate system_id query (some ids) level r)
unfolding role_candidate
role_candidate-granted system_id query ids level r = ground arith

search_roles-missing :
    (b : CatalogBundle) (system_id : String) (ids : List String) (query : Option String)
    (level : Option ℕ) (limit : ℕ)
    → Dict.get b.systems system_id ≡ none
    → (search_roles b system_id ids query level limit).candidates ≡ []
unfolding search_roles
search_roles-missing b system_id ids query level limit h = rw (h, search_roles)

search_roles-there :
    (b : CatalogBundle) (system_id : String) (ids : List String) (query : Option String)
    (level : Option ℕ) (limit : ℕ) (s : System)
    → Dict.get b.systems system_id ≡ some s
    → search_roles b system_id ids query level limit
      ≡ result b
          (collect
            (role_candidate system_id
              (or_empty query)
              (role_ids_for_profiles b system_id ids)
              level)
            s.roles)
          (bounded limit)
          (or_empty query == "")
unfolding search_roles
search_roles-there b system_id ids query level limit s h = rw (h, search_roles)

system_roles-granted :
    (b : CatalogBundle) (system_id query : String) (ids : List String) (level : Option ℕ)
    (limit : ℕ) (mode : Bool) (s : System)
    → All
        (λ (c : ToolCandidate). contains ids c.id ≡ true)
        (result b
          (collect (role_candidate system_id query (some ids) level) s.roles)
          limit
          mode).candidates
system_roles-granted b system_id query ids level limit mode s =
    result-All (λ (c : ToolCandidate). contains ids c.id ≡ true) b
      (collect (role_candidate system_id query (some ids) level) s.roles) limit mode
      (collect-All (λ (c : ToolCandidate). contains ids c.id ≡ true)
        (role_candidate system_id query (some ids) level) s.roles
        (λ r m. role_candidate-granted system_id query ids level r))

-- The roles that a search returns for one profile or more are granted by these profiles in that
-- system.
pub search_roles-granted :
    (b : CatalogBundle) (system_id id : String) (ids : List String) (query : Option String)
    (level : Option ℕ) (limit : ℕ)
    → All
        (λ (c : ToolCandidate). contains (granted_roles b system_id (id ∷ ids)) c.id ≡ true)
        (search_roles b system_id (id ∷ ids) query level limit).candidates
unfolding role_ids_for_profiles
search_roles-granted b system_id id ids query level limit =
    elim (Option-cases (Dict.get b.systems system_id)) [
      | inl missing ↦ rw (search_roles-missing b system_id (id ∷ ids) query level limit missing) tt
      | inr (s, there) ↦ rw (search_roles-there b system_id (id ∷ ids) query level limit s there) (
          system_roles-granted b system_id (or_empty query) (granted_roles b system_id (id ∷ ids))
            level (bounded limit) (or_empty query == "") s)
    ]

-- A status that `result` gives: no search is invalid, and one that found its entry returns it.
abbrev pub IsMatched : ToolResult → Type 0
IsMatched r =
    (r.status ≢ invalid)
    × (r.status ≡ found
        → (c : ToolCandidate) × (rest : List ToolCandidate) × (r.candidates ≡ c ∷ rest))

status_of-matched :
    (cs : List ToolCandidate) (list_mode : Bool)
    → (status_of cs list_mode ≢ invalid)
      × (status_of cs list_mode ≡ found
          → (c : ToolCandidate) × (rest : List ToolCandidate) × (cs ≡ c ∷ rest))
unfolding status_of
status_of-matched [] list_mode = (λ e. cc, λ e. absurd cc)
status_of-matched (c ∷ []) list_mode = (λ e. cc, λ e. (c, [], refl))
status_of-matched (c ∷ d ∷ cs) list_mode = (λ e. ground arith, λ e. (c, d ∷ cs, refl))

pub result-IsMatched :
    (b : CatalogBundle) (cs : List ToolCandidate) (limit : ℕ) (list_mode : Bool)
    → IsMatched (result b cs limit list_mode)
unfolding result
result-IsMatched b cs limit list_mode = status_of-matched (take limit (sorted cs)) list_mode
