-- ===== src/Catalog/Validation.antt =====
-- `_validate_catalog` of app/catalog/postgres.py on typed documents: `none` where it raises a
-- `CatalogValidationError`. The tests that an entry is an object or a list have nothing to test
-- here, and the counts, which only describe the document, are left out.
pub mod Laws
pub mod Owners
use role_model_helper_v.Prelude.{
  String, Bool, true, false, not, ◌&&◌, ◌||◌, Option, none, some, List, [], ◌∷◌, ◌++◌, map, all,
  contains, ◌==◌, string_eq, list_eq, nat_eq, option_eq, if◌then◌else◌,
}
use role_model_helper_v.Prelude.Dict
use role_model_helper_v.Prelude.Dict.{Dict}
use role_model_helper_v.Text.{Text, codes, strip, upper}
use role_model_helper_v.Catalog.Normalization.{normalize_query}
use role_model_helper_v.Catalog.Bundle.{
  Alias, Role, System, Access, Instruction, DepartmentEntry, PositionEntry, ProfileEntry, Document,
  or_empty,
}

-- `_validate_unique_required`, on the ids and the display names of the entries.
unfoldable pub unique_from : List String → List (String × Option String) → Bool
unique_from seen [] = true
unique_from seen ((id, name) ∷ items) =
    let item_id = strip id in
    not (item_id == "")
    && (not (strip (or_empty name) == "")
        && (not (contains seen item_id) && unique_from (item_id ∷ seen) items))

abbrev pub unique_required : List (String × Option String) → Bool
unique_required = unique_from []

abbrev pub role_item : Role → String × Option String
role_item r = (r.id, some r.name)

abbrev pub instruction_item : Instruction → String × Option String
instruction_item i = (i.id, i.title)

-- The loop over the roles of a system: `role_to_system`, or none for a role that is there already.
unfoldable pub add_roles : String → List Role → Dict String String → Option (Dict String String)
add_roles system_id [] owners = some owners
add_roles system_id (r ∷ roles) owners = elim (Dict.get owners r.id) [
  | some other ↦ none
  | none ↦ add_roles system_id roles (Dict.insert r.id system_id owners)
]

-- The loop over the systems.
unfoldable pub role_owners : List System → Dict String String → Option (Dict String String)
role_owners [] owners = some owners
role_owners (s ∷ systems) owners =
    if unique_required (map role_item s.roles)
    then elim (add_roles s.id s.roles owners) [ none ↦ none | some more ↦ role_owners systems more ]
    else none

-- `_require_references`
abbrev pub refers : List String → List String → Bool
refers allowed values = all (contains allowed) values

unfoldable pub access_fits : List String → Dict String String → Access → Bool
access_fits system_ids owners a =
    contains system_ids a.system_id
    && all (λ (id : String). Dict.get owners id == some a.system_id) a.role_ids

unfoldable pub profile_fits :
    List String → List String → List String → Dict String String → ProfileEntry → Bool
profile_fits department_ids position_ids system_ids owners p =
    refers department_ids p.department_ids
    && (refers position_ids p.position_ids && all (access_fits system_ids owners) p.access)

abbrev pub or_ambiguous : Option String → String
or_ambiguous none = "AMBIGUOUS"
or_ambiguous (some s) = if s == "" then "AMBIGUOUS" else s

-- `_validate_aliases`, on one alias
unfoldable pub alias_fits : Alias → Bool
alias_fits a =
    let safety = upper (codes (or_ambiguous a.safety)) in
    not (normalize_query (codes (strip a.value)) == [])
    && (safety == codes "SAFE" || safety == codes "AMBIGUOUS")

unfoldable pub aliases_fit : Document → Bool
aliases_fit d =
    all (λ (e : DepartmentEntry). all alias_fits e.aliases) d.departments
    && (all (λ (e : PositionEntry). all alias_fits e.aliases) d.positions
        && all (λ (s : System). all alias_fits s.aliases) d.systems)

-- The first loop, over the collections.
unfoldable pub entries_fit : Document → Bool
entries_fit d =
    unique_required (map (λ (e : DepartmentEntry). (e.id, some e.name)) d.departments)
    && (unique_required (map (λ (e : PositionEntry). (e.id, some e.name)) d.positions)
        && (unique_required (map (λ (s : System). (s.id, some s.name)) d.systems)
            && (unique_required (map (λ (p : ProfileEntry). (p.id, p.name)) d.profiles)
                && unique_required (map instruction_item d.instructions))))

-- The tests of the references, given the systems of the roles.
unfoldable pub references_fit : Document → Dict String String → Bool
references_fit d owners =
    let system_ids = map (λ (s : System). s.id) d.systems in
    all
      (profile_fits (map (λ (e : DepartmentEntry). e.id) d.departments)
        (map (λ (e : PositionEntry). e.id) d.positions) system_ids owners)
      d.profiles
    && all (λ (i : Instruction). contains system_ids (or_empty i.system_id)) d.instructions

-- `_validate_catalog`: the document with its version stripped.
unfoldable pub validate_catalog : Document → Option Document
validate_catalog d =
    if strip d.version == "" || not (entries_fit d) then none else elim (role_owners d.systems []) [
      | none ↦ none
      | some owners ↦
          if references_fit d owners && aliases_fit d
          then some (record d { version = strip d.version })
          else none
    ]
