-- ===== src/Tools/Search.antt =====
-- `CatalogSearchTools` of app/tools/catalog.py. A tool reads the bundle and changes nothing.
pub mod Laws
pub mod Origins
use role_model_helper_v.Prelude.{
  ℕ, ◌+◌, ◌*◌, String, Bool, true, false, ◌&&◌, ◌||◌, not, Option, none, some, List, [], ◌∷◌, ◌++◌,
  map,
}
use Prim.Native.Nat.{min, max, Ordering}
use Prim.Native.String.{compare}
use mathlib.Core.Option
use role_model_helper_v.Prelude.{
  ◌==◌, ltb, contains, nat_eq, list_eq, string_eq, option_eq, if◌then◌else◌, length, take, any,
  filter,
}
use role_model_helper_v.Prelude.Dict
use role_model_helper_v.Score.{Score, fraction, lt_score, max_score}
use role_model_helper_v.Text.{Text, codes}
use role_model_helper_v.Catalog.Bundle.{
  AccessLevel, no_level, unreadable, at_level, is_readable, Role, System, Access, Instruction,
  Department, Position, Profile, CatalogBundle, or_empty,
}
use role_model_helper_v.Catalog.Normalization.{normalize_query, parse_department_number}
use role_model_helper_v.Tools.Rank.{rank_text, sorted_set}

pub data ToolStatus : Type 0 where
  found ambiguous not_found invalid : ToolStatus

-- The keys that the tools put into a candidate's context.
pub record Context : Type 0 where
  pub city : Option String
  pub number : Option ℕ
  pub system_id : Option String
  pub access_level : Option ℕ
  pub citation : Option String

abbrev pub no_context : Context
no_context = record {
  city = none;
  number = none;
  system_id = none;
  access_level = none;
  citation = none;
}

pub record ToolCandidate : Type 0 where
  pub id : String
  pub label : String
  pub score : Score
  pub matched_by : List String
  pub context : Context

pub record ToolResult : Type 0 where
  pub status : ToolStatus
  pub catalog_version : String
  pub candidates : List ToolCandidate

-- `_limit`
unfoldable pub bounded : ℕ → ℕ
bounded value = max 1 (min value 10)

-- The order of the sort key `(-score, label, id)`.
pub before : ToolCandidate → ToolCandidate → Bool
unfolding nat_eq string_eq
before a b =
    lt_score b.score a.score
    || a.score.num * b.score.den == b.score.num * a.score.den && (elim (compare a.label b.label) [
      | Ordering.lt ↦ true
      | Ordering.gt ↦ false
      | Ordering.eq ↦ elim (compare a.id b.id) [ Ordering.lt ↦ true | _ ↦ false ]
    ])

insert_candidate : ToolCandidate → List ToolCandidate → List ToolCandidate
unfolding before
insert_candidate c [] = c ∷ []
insert_candidate c (d ∷ ds) =
    let rest = insert_candidate c ds in if before d c then d ∷ rest else c ∷ d ∷ ds

-- `sorted(candidates, key=…)`, which is stable.
unfoldable pub sorted : List ToolCandidate → List ToolCandidate
unfolding insert_candidate
sorted [] = []
sorted (c ∷ cs) = insert_candidate c (sorted cs)

status_of : List ToolCandidate → Bool → ToolStatus
status_of [] list_mode = not_found
status_of (c ∷ []) list_mode = found
status_of (c ∷ d ∷ cs) list_mode = if list_mode then found else ambiguous

-- `_result`
unfoldable pub result : CatalogBundle → List ToolCandidate → ℕ → Bool → ToolResult
unfolding sorted status_of
result b candidates limit list_mode =
    let ranked = take limit (sorted candidates) in
    record { status = status_of ranked list_mode; catalog_version = b.version; candidates = ranked }

-- A filter on a normalised city: the empty one lets everything through.
abbrev city_differs : Text → Text → Bool
city_differs wanted actual = not (wanted == []) && not (actual == wanted)

abbrev low : Score → Bool
low score = lt_score score (fraction 30 100)

-- A loop that appends to `candidates`.
unfoldable pub collect {ℓ} : {A : Type ℓ} → (A → List ToolCandidate) → List A → List ToolCandidate
collect f [] = []
collect f (x ∷ xs) = f x ++ collect f xs

number_differs : Option ℕ → Option ℕ → Bool
unfolding option_eq nat_eq
number_differs none actual = false
number_differs (some n) actual = not (actual == some n)

with_number : Option ℕ → Score × List String → Score × List String
unfolding sorted_set max_score
with_number none ranked = ranked
with_number (some n) (score, by) =
    (max_score score (fraction 96 100), sorted_set (by ++ "exact_number" ∷ []))

-- The body of the loop of `search_departments`.
department_candidate : String → Option ℕ → Text → Department → List ToolCandidate
unfolding number_differs with_number list_eq nat_eq
department_candidate query number city d =
    let (score, by) = with_number number (rank_text query d.name d.aliases) in
    if number_differs number d.number || city_differs city d.normalized_city || low score
    then []
    else record {
      id = d.id;
      label = d.name;
      score = score;
      matched_by = by;
      context = record no_context { city = some d.city; number = d.number };
    }
      ∷ []

-- `search_departments`; its argument `position` is never used.
unfoldable pub search_departments : CatalogBundle → String → Option String → ℕ → ToolResult
unfolding department_candidate collect result bounded normalize_query parse_department_number codes
search_departments b query city limit =
    result b
      (collect
        (department_candidate query (parse_department_number (codes query))
          (normalize_query (codes (or_empty city))))
        b.departments)
      (bounded limit) false

positions_of : (Profile → Bool) → List Profile → List String
positions_of skip [] = []
positions_of skip (p ∷ ps) = (if skip p then [] else p.position_ids) ++ positions_of skip ps

-- `_position_ids_for_context`: `none` puts no bound on the positions.
unfoldable pub position_ids_for_context :
    CatalogBundle → Option String → Option String → Option (List String)
unfolding positions_of string_eq list_eq nat_eq codes Dict.values
position_ids_for_context b city department_id =
    let wanted = normalize_query (codes (or_empty city)) in
    let department = or_empty department_id in
    if or_empty city == "" && department == ""
    then none
    else some (
        positions_of
          (λ (p : Profile).
            city_differs wanted p.normalized_city
            || not (department == "") && not (contains p.department_ids department))
          (Dict.values b.profiles))

-- `allowed is not None and x not in allowed`
abbrev excluded : Option (List String) → String → Bool
excluded none x = false
excluded (some xs) x = not (contains xs x)

position_candidate : String → Option (List String) → Position → List ToolCandidate
unfolding string_eq
position_candidate query allowed p =
    let (score, by) = rank_text query p.name p.aliases in
    if excluded allowed p.id || low score
    then []
    else record { id = p.id; label = p.name; score = score; matched_by = by; context = no_context }
      ∷ []

-- `search_positions`
unfoldable pub search_positions :
    CatalogBundle → String → Option String → Option String → ℕ → ToolResult
unfolding position_candidate position_ids_for_context collect result bounded
search_positions b query city department_id limit =
    result b
      (collect (position_candidate query (position_ids_for_context b city department_id))
        b.positions)
      (bounded limit) false

-- The four `continue`s of the loop of `resolve_profiles`.
is_skipped : String → String → Text → String → Profile → Bool
unfolding string_eq list_eq nat_eq
is_skipped department_id position_id city system_id p =
    not (contains p.department_ids department_id)
    || not (contains p.position_ids position_id)
    || city_differs city p.normalized_city
    || not (system_id == "") && not (any (λ (a : Access). a.system_id == system_id) p.access)

profile_candidate : String → String → Text → String → Profile → List ToolCandidate
unfolding is_skipped
profile_candidate department_id position_id city system_id p =
    if is_skipped department_id position_id city system_id p
    then []
    else record {
      id = p.id;
      label = p.name;
      score = fraction 1 1;
      matched_by = "exact_relation" ∷ [];
      context = record no_context { city = some p.city };
    }
      ∷ []

-- `resolve_profiles`
unfoldable pub resolve_profiles :
    CatalogBundle → String → String → Option String → Option String → ℕ → ToolResult
unfolding profile_candidate collect result bounded codes Dict.values
resolve_profiles b department_id position_id city system_id limit =
    result b
      (collect
        (profile_candidate department_id position_id (normalize_query (codes (or_empty city)))
          (or_empty system_id))
        (Dict.values b.profiles))
      (bounded limit) false

system_ids_of : Option Profile → List String
system_ids_of none = []
system_ids_of (some p) = map (λ (a : Access). a.system_id) p.access

-- The systems that the profiles have access to.
unfoldable pub granted_systems : CatalogBundle → List String → List String
unfolding system_ids_of
granted_systems b [] = []
granted_systems b (id ∷ ids) = system_ids_of (Dict.get b.profiles id) ++ granted_systems b ids

-- `_system_ids_for_profiles`; no profiles at all put no bound on the systems.
unfoldable pub system_ids_for_profiles : CatalogBundle → List String → Option (List String)
unfolding granted_systems
system_ids_for_profiles b [] = none
system_ids_for_profiles b (id ∷ ids) = some (granted_systems b (id ∷ ids))

granted_by : String → List Access → List String
unfolding string_eq
granted_by system_id [] = []
granted_by system_id (a ∷ access) =
    (if a.system_id == system_id then a.role_ids else []) ++ granted_by system_id access

-- The roles that the profiles grant in a system.
unfoldable pub granted_roles : CatalogBundle → String → List String → List String
unfolding granted_by
granted_roles b system_id [] = []
granted_roles b system_id (id ∷ ids) =
    (elim (Dict.get b.profiles id) [ none ↦ [] | some p ↦ granted_by system_id p.access ])
    ++ granted_roles b system_id ids

-- `_role_ids_for_profiles`
unfoldable pub role_ids_for_profiles : CatalogBundle → String → List String → Option (List String)
unfolding granted_roles
role_ids_for_profiles b system_id [] = none
role_ids_for_profiles b system_id (id ∷ ids) = some (granted_roles b system_id (id ∷ ids))

-- `query and score < 0.30`
abbrev too_low : String → Score → Bool
too_low query score = not (query == "") && low score

system_candidate : String → Option (List String) → String × System → List ToolCandidate
unfolding string_eq
system_candidate query allowed (id, s) =
    let (score, by) = rank_text query s.name s.aliases in
    if excluded allowed id || too_low query score
    then []
    else record { id = id; label = s.name; score = score; matched_by = by; context = no_context }
      ∷ []

-- `search_systems`
unfoldable pub search_systems : CatalogBundle → Option String → List String → ℕ → ToolResult
unfolding system_candidate system_ids_for_profiles collect result bounded string_eq
search_systems b query profile_ids limit =
    let text = or_empty query in
    result b (collect (system_candidate text (system_ids_for_profiles b profile_ids)) b.systems)
      (bounded limit) (text == "")

-- `int(role.get("access_level") or 0)`, where `int` raises nothing.
level_of : AccessLevel → ℕ
level_of no_level = 0
level_of unreadable = 0
level_of (at_level n) = n

level_differs : Option ℕ → ℕ → Bool
unfolding nat_eq
level_differs none level = false
level_differs (some n) level = not (level == n)

abbrev is_unset : Option ℕ → Bool
is_unset none = true
is_unset (some n) = false

role_candidate : String → String → Option (List String) → Option ℕ → Role → List ToolCandidate
unfolding level_of level_differs string_eq
role_candidate system_id query allowed access_level r =
    let (score, by) = rank_text query r.name [] in
    if excluded allowed r.id
      || level_differs access_level (level_of r.access_level)
      || too_low query score
    then []
    else record {
      id = r.id;
      label = r.name;
      score = score;
      matched_by = by;
      context = record no_context {
        system_id = some system_id;
        access_level = some (level_of r.access_level);
      };
    }
      ∷ []

-- Whether the round of `search_roles` for a role comes to an access level that `int` refuses: the
-- role is allowed, and a level was asked for or the query fits.
unfoldable pub role_raises : String → Option (List String) → Option ℕ → Role → Bool
role_raises query allowed access_level r =
    let (score, by) = rank_text query r.name [] in
    not (is_readable r.access_level)
    && not (excluded allowed r.id)
    && (not (is_unset access_level) || not (too_low query score))

-- Whether `search_roles` raises a `ValueError`.
unfoldable pub search_roles_raises :
    CatalogBundle → String → List String → Option String → Option ℕ → Bool
unfolding role_raises role_ids_for_profiles
search_roles_raises b system_id profile_ids query access_level =
    elim (Dict.get b.systems system_id) [
      | none ↦ false
      | some s ↦
          any
            (role_raises (or_empty query) (role_ids_for_profiles b system_id profile_ids)
              access_level)
            s.roles
    ]

-- `search_roles`, where it raises nothing.
unfoldable pub search_roles :
    CatalogBundle → String → List String → Option String → Option ℕ → ℕ → ToolResult
unfolding role_candidate role_ids_for_profiles collect result bounded string_eq
search_roles b system_id profile_ids query access_level limit =
    let text = or_empty query in
    elim (Dict.get b.systems system_id) [
      | none ↦ record { status = invalid; catalog_version = b.version; candidates = [] }
      | some s ↦
          result b
            (collect
              (role_candidate system_id text (role_ids_for_profiles b system_id profile_ids)
                access_level)
              s.roles)
            (bounded limit) (text == "")
    ]

or_default : Option String → String → String
unfolding string_eq
or_default none d = d
or_default (some s) d = if s == "" then d else s

instruction_candidate : String → Instruction → List ToolCandidate
unfolding or_default string_eq
instruction_candidate system_id i =
    if or_empty i.system_id == system_id
    then record {
      id = i.id;
      label = or_default i.title i.id;
      score = fraction 1 1;
      matched_by = "exact_system_relation" ∷ [];
      context = record no_context {
        system_id = some system_id;
        citation = some (or_empty i.citation);
      };
    }
      ∷ []
    else []

-- `get_access_instruction`; its argument `role_ids` is never used.
unfoldable pub get_access_instruction : CatalogBundle → String → ℕ → ToolResult
unfolding instruction_candidate collect result bounded
get_access_instruction b system_id limit =
    result b (collect (instruction_candidate system_id) b.instructions) (bounded limit) true
