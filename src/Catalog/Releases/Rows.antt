-- ===== src/Catalog/Releases/Rows.antt =====
-- The rows of `catalog_entity`, `catalog_alias` and the four tables of relations that `publish` of
-- app/catalog/postgres.py writes for a document. Every row carries the version of the release, which
-- is new, so its primary key can only be that of another row of the same publication; the column
-- `payload`, a copy of the entry, is left out.
pub mod Laws
pub mod Repeats
use role_model_helper_v.Prelude.{
  ℕ, suc, String, Bool, true, false, ◌||◌, ◌&&◌, Eq, Option, none, some, List, [], ◌∷◌, ◌++◌, map,
  contains, ltb, ◌==◌, nat_eq, string_eq, list_eq, pair_eq, if◌then◌else◌,
}
use role_model_helper_v.Prelude.Dict
use role_model_helper_v.Prelude.Dict.{Dict}
use role_model_helper_v.Text.{Text, codes, strip, upper}
use role_model_helper_v.Catalog.Normalization.{normalize_query}
use role_model_helper_v.Catalog.Bundle.{
  Alias, Role, System, Access, Instruction, DepartmentEntry, PositionEntry, ProfileEntry, Document,
  Department, Position, Profile, CatalogBundle, or_empty, from_mapping,
}
use role_model_helper_v.Catalog.Validation.{or_ambiguous}

pub record EntityRow : Type 0 where
  pub entity_type : String
  pub entity_id : String
  pub raw_name : String
  pub normalized_name : Text
  pub entity_number : Option ℕ
  pub normalized_city : Text
  pub parent_id : Option String

-- `_entity_row`
unfoldable pub entity_row : String → String → String → Option ℕ → String → Option String → EntityRow
unfolding normalize_query codes
entity_row entity_type id name number city parent_id = record {
  entity_type = entity_type;
  entity_id = id;
  raw_name = name;
  normalized_name = normalize_query (codes name);
  entity_number = number;
  normalized_city = normalize_query (codes city);
  parent_id = parent_id;
}

unfoldable pub system_rows : List System → List EntityRow
unfolding entity_row
system_rows [] = []
system_rows (s ∷ systems) =
    entity_row "system" s.id s.name none "" none
      ∷ map (λ (r : Role). entity_row "role" r.id r.name none "" (some s.id)) s.roles
    ++ system_rows systems

-- `_insert_entities`
unfoldable pub entity_rows : Document → CatalogBundle → List EntityRow
unfolding system_rows
entity_rows document b =
    map (λ (d : Department). entity_row "department" d.id d.name d.number d.city none) b.departments
    ++ (map (λ (p : Position). entity_row "position" p.id p.name none "" none) b.positions
        ++ (system_rows (Dict.values b.systems)
            ++ (map (λ (p : Profile). entity_row "profile" p.id p.name none p.city none)
                  (Dict.values b.profiles)
                ++ map
                    (λ (i : Instruction).
                      entity_row "instruction" i.id (or_empty i.title) none "" i.system_id)
                    document.instructions)))

-- An alias before the collisions are counted.
pub record CollectedAlias : Type 0 where
  pub entity_type : String
  pub entity_id : String
  pub alias_raw : String
  pub alias_normalized : Text
  pub safety : Text

pub record AliasRow : Type 0 where
  pub entity_type : String
  pub entity_id : String
  pub alias_raw : String
  pub alias_normalized : Text
  pub safety : Text
  pub collision_count : ℕ

unfoldable pub collected_alias : String → String → Alias → CollectedAlias
unfolding strip normalize_query codes upper
collected_alias entity_type id a =
    let raw = strip a.value in
    record {
      entity_type = entity_type;
      entity_id = id;
      alias_raw = raw;
      alias_normalized = normalize_query (codes raw);
      safety = upper (codes (or_ambiguous a.safety));
    }

collect_aliases {ℓ} :
    {A : Type ℓ} → String → (A → String) → (A → List Alias) → List A → List CollectedAlias
unfolding collected_alias
collect_aliases entity_type id aliases [] = []
collect_aliases entity_type id aliases (e ∷ entities) =
    map (collected_alias entity_type (id e)) (aliases e)
    ++ collect_aliases entity_type id aliases entities

-- The first loop of `_insert_aliases`.
unfoldable pub collected_aliases : Document → List CollectedAlias
unfolding collect_aliases
collected_aliases document =
    collect_aliases "department" (λ (d : DepartmentEntry). d.id)
      (λ (d : DepartmentEntry). d.aliases) document.departments
    ++ (collect_aliases "position" (λ (p : PositionEntry). p.id) (λ (p : PositionEntry). p.aliases)
          document.positions
        ++ collect_aliases "system" (λ (s : System). s.id) (λ (s : System). s.aliases)
            document.systems)

-- `collision_counts[(entity_type, normalized)]`
unfoldable pub collision_count : String → Text → List CollectedAlias → ℕ
collision_count entity_type words [] = 0
collision_count entity_type words (a ∷ aliases) =
    let rest = collision_count entity_type words aliases in
    if entity_type == a.entity_type && words == a.alias_normalized then suc rest else rest

unfoldable pub alias_row : List CollectedAlias → CollectedAlias → AliasRow
unfolding collision_count
alias_row aliases a =
    let count = collision_count a.entity_type a.alias_normalized aliases in
    record {
      entity_type = a.entity_type;
      entity_id = a.entity_id;
      alias_raw = a.alias_raw;
      alias_normalized = a.alias_normalized;
      safety = if ltb 1 count then codes "AMBIGUOUS" else a.safety;
      collision_count = count;
    }

-- `_insert_aliases`
unfoldable pub alias_rows : Document → List AliasRow
unfolding collected_aliases alias_row
alias_rows document = let aliases = collected_aliases document in map (alias_row aliases) aliases

-- The rows of the four tables: the id of a profile and that of what it is related to.
pub record Relations : Type 0 where
  pub profile_department : List (String × String)
  pub profile_position : List (String × String)
  pub profile_system : List (String × String)
  pub profile_role : List (String × String)

abbrev pub related : String → List String → List (String × String)
related id = map (λ other. (id, other))

role_relations : String → List Access → List (String × String)
role_relations id [] = []
role_relations id (a ∷ access) = related id a.role_ids ++ role_relations id access

-- `_insert_relations`
unfoldable pub relation_rows : List ProfileEntry → Relations
unfolding role_relations
relation_rows [] = record {
  profile_department = [];
  profile_position = [];
  profile_system = [];
  profile_role = [];
}
relation_rows (p ∷ profiles) =
    let rest = relation_rows profiles in
    record {
      profile_department = related p.id p.department_ids ++ rest.profile_department;
      profile_position = related p.id p.position_ids ++ rest.profile_position;
      profile_system =
          related p.id (map (λ (a : Access). a.system_id) p.access) ++ rest.profile_system;
      profile_role = role_relations p.id p.access ++ rest.profile_role;
    }

-- A primary key that two rows have.
unfoldable pub has_repeats {ℓ} : {K : Type ℓ} ⦃e : Eq K⦄ → List K → Bool
has_repeats [] = false
has_repeats (k ∷ ks) = contains ks k || has_repeats ks

abbrev pub entity_keys : List EntityRow → List (String × String)
entity_keys = map (λ (r : EntityRow). (r.entity_type, r.entity_id))

abbrev pub alias_keys : List AliasRow → List (String × (String × Text))
alias_keys = map (λ (r : AliasRow). (r.entity_type, (r.entity_id, r.alias_normalized)))

-- A primary key of the six tables refuses a row.
unfoldable pub keys_collide : Document → Bool
unfolding entity_rows alias_rows relation_rows has_repeats
keys_collide document =
    let relations = relation_rows document.profiles in
    has_repeats (entity_keys (entity_rows document (from_mapping document)))
    || has_repeats (alias_keys (alias_rows document))
    || has_repeats relations.profile_department
    || has_repeats relations.profile_position
    || has_repeats relations.profile_system
    || has_repeats relations.profile_role
