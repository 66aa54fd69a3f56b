-- ===== src/Catalog/Snapshot/Entries.antt =====
-- The cities, departments, positions and systems in `_build_document` of
-- app/catalog/v1_snapshot.py. `digest` is the hexadecimal SHA-256 of a text.
pub mod Laws
use role_model_helper_v.Prelude.{
  ℕ, String, ◌<>◌, Bool, Option, none, some, List, [], ◌∷◌, ◌++◌, ◌==◌, nat_eq, list_eq, string_eq,
  pair_eq, map, if◌then◌else◌,
}
use role_model_helper_v.Prelude.Dict
use role_model_helper_v.Prelude.Dict.{Dict}
use role_model_helper_v.Text.{Text, codes}
use role_model_helper_v.Text.Chars.{text_string}
use role_model_helper_v.Catalog.Normalization.{normalize_query}
use role_model_helper_v.Catalog.Bundle.{Alias, DepartmentEntry, PositionEntry, System, or_empty}
use role_model_helper_v.Catalog.Snapshot.City.{extract_city}
use role_model_helper_v.Catalog.Snapshot.Rows.{
  SystemRow, SegmentRow, DepartmentRow, PositionRow, append_unique, stable_id,
}

-- The loop over `segments_raw`: the first segment of a profile that names a city decides.
unfoldable pub cities_by_profile : Dict ℕ String → List SegmentRow → Dict ℕ String
unfolding extract_city text_string codes
cities_by_profile found [] = found
cities_by_profile found (row ∷ rows) =
    let city = text_string (extract_city (codes (or_empty row.segment_name))) in
    cities_by_profile
      (elim (Dict.get found row.profile_id) [
        | some _ ↦ found
        | none ↦ (if city == "" then found else Dict.insert row.profile_id city found)
      ])
      rows

-- `department_id_by_key`, `departments_by_id` and `department_ids_by_profile`
pub record Departments : Type 0 where
  pub ids : Dict (Text × Text) String
  pub entries : Dict String DepartmentEntry
  pub by_profile : Dict ℕ (List String)

-- `position_id_by_key`, `positions_by_id` and `position_ids_by_profile`
pub record Positions : Type 0 where
  pub ids : Dict Text String
  pub entries : Dict String PositionEntry
  pub by_profile : Dict ℕ (List String)

-- `code or normalize_query(name)`
unfoldable pub key_of : String → String → Text
key_of code name = if code == "" then normalize_query (codes name) else codes code

-- `_POSITION_ALIASES.get(normalized_name, ())`, as safe aliases
unfoldable pub position_aliases : String → List Alias
position_aliases name =
    if normalize_query (codes name) == codes "руководитель"
    then record { value = "начальник"; safety = some "SAFE" } ∷ []
    else []

module _ (digest : Text → Text) where
  unfoldable pub department_id : String → String → String → String
  unfolding stable_id
  department_id code name city =
      stable_id digest "department" (if code == "" then "" else code <> "|" <> city)
        (name <> "|" <> city)

  -- One round of the loop over `departments_raw`.
  unfoldable pub add_department :
      Dict ℕ String → Dict String (Dict Text Alias) → DepartmentRow → Departments → Departments
  unfolding department_id key_of append_unique Dict.set_default
  add_department cities aliases row made =
      let name = row.department_name in
      let code = or_empty row.department_code in
      let city = Dict.get_or cities row.profile_id "" in
      let key : Text × Text = (key_of code name, normalize_query (codes city)) in
      let fresh = department_id code name city in
      let id = Dict.get_or made.ids key fresh in
      record {
        ids = Dict.set_default key fresh made.ids;
        entries =
            Dict.set_default id
              (record {
                id = id;
                name = name;
                city = some city;
                aliases = Dict.values (Dict.get_or aliases name []);
              })
              made.entries;
        by_profile = append_unique made.by_profile row.profile_id id;
      }

  unfoldable pub add_departments :
      Dict ℕ String → Dict String (Dict Text Alias) → Departments → List DepartmentRow → Departments
  unfolding add_department
  add_departments cities aliases made [] = made
  add_departments cities aliases made (row ∷ rows) =
      add_departments cities aliases (add_department cities aliases row made) rows

  -- One round of the loop over `positions_raw`.
  unfoldable pub add_position : PositionRow → Positions → Positions
  unfolding key_of position_aliases append_unique stable_id Dict.set_default
  add_position row made =
      let name = row.position_name in
      let code = or_empty row.position_code in
      let key = key_of code name in
      let fresh = stable_id digest "position" code name in
      let id = Dict.get_or made.ids key fresh in
      record {
        ids = Dict.set_default key fresh made.ids;
        entries =
            Dict.set_default id (record { id = id; name = name; aliases = position_aliases name })
              made.entries;
        by_profile = append_unique made.by_profile row.profile_id id;
      }

  unfoldable pub add_positions : Positions → List PositionRow → Positions
  unfolding add_position
  add_positions made [] = made
  add_positions made (row ∷ rows) = add_positions (add_position row made) rows

  unfoldable pub system_id_of : SystemRow → String
  unfolding stable_id
  system_id_of row = stable_id digest "system" (or_empty row.ci_code) row.system_name_raw

  -- `system_id_by_db`
  unfoldable pub system_ids : Dict ℕ String → List SystemRow → Dict ℕ String
  unfolding system_id_of
  system_ids ids [] = ids
  system_ids ids (row ∷ rows) = system_ids (Dict.insert row.id (system_id_of row) ids) rows

  -- `systems`, while they have no roles
  unfoldable pub bare_systems : Dict ℕ (Dict Text Alias) → List SystemRow → List System
  unfolding system_id_of
  bare_systems aliases = map λ row. record {
    id = system_id_of row;
    name = row.system_name_raw;
    aliases = Dict.values (Dict.get_or aliases row.id []);
    roles = [];
  }
