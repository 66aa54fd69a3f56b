-- ===== src/Catalog/Snapshot/Access.antt =====
-- The loop over `accesses_raw` in `_build_document` of app/catalog/v1_snapshot.py: the roles of the
-- systems and the access of the profiles.
pub mod Laws
use role_model_helper_v.Prelude.{
  ℕ, String, ◌<>◌, Bool, ◌&&◌, not, Option, none, some, List, [], ◌∷◌, ◌++◌, ◌==◌, nat_eq,
  string_eq, pair_eq, map, contains, if◌then◌else◌,
}
use role_model_helper_v.Prelude.Dict
use role_model_helper_v.Prelude.Dict.{Dict}
use role_model_helper_v.Text.{strip}
use role_model_helper_v.Text.Chars.{str}
use role_model_helper_v.Catalog.Bundle.{at_level, Role, System, or_empty}
use role_model_helper_v.Catalog.Snapshot.Rows.{AccessRow}

-- `role_id_by_access`, `systems` and `profile_access`
pub record Accesses : Type 0 where
  pub role_ids : Dict (ℕ × (ℕ × ℕ)) String
  pub systems : List System
  pub by_profile : Dict ℕ (Dict String (List String))

-- `entitlement_name`, or else `entitlement_type`, or else "Доступ"
unfoldable pub role_name_of : AccessRow → String
unfolding strip
role_name_of row =
    let name = strip (or_empty row.entitlement_name) in
    let kind = or_empty row.entitlement_type in
    if name == "" then (if kind == "" then "Доступ" else kind) else name

unfoldable pub role_id_of : String → AccessRow → String
unfolding str
role_id_of system_id row =
    "role:" <> system_id <> ":" <> str row.source_col <> ":level:" <> str row.access_level

abbrev pub has_role : String → List Role → Bool
has_role id roles = contains (map (λ (r : Role). r.id) roles) id

abbrev pub has_system : String → List System → Bool
has_system id systems = contains (map (λ (s : System). s.id) systems) id

-- The role is appended, unless one with its id is there.
unfoldable pub with_role : Role → System → System
with_role r s = if has_role r.id s.roles then s else record s { roles = s.roles ++ r ∷ [] }

-- `systems_by_id[system_id]["roles"]` is a list of the last of the systems with that id.
unfoldable pub add_role : String → Role → List System → List System
unfolding with_role
add_role id r [] = []
add_role id r (s ∷ systems) =
    if id == s.id && not (has_system id systems)
    then with_role r s ∷ systems
    else s ∷ add_role id r systems

-- `profile_access.setdefault(…).setdefault(…)`, and the role is appended unless it is there.
unfoldable pub grant :
    ℕ → String → String → Dict ℕ (Dict String (List String)) → Dict ℕ (Dict String (List String))
grant profile_id system_id role_id access =
    let by_system = Dict.get_or access profile_id [] in
    let role_ids = Dict.get_or by_system system_id [] in
    let granted = if contains role_ids role_id then role_ids else role_ids ++ role_id ∷ [] in
    Dict.insert profile_id (Dict.insert system_id granted by_system) access

-- One round, for a row whose system has the id.
unfoldable pub add_access : String → AccessRow → Accesses → Accesses
unfolding role_name_of role_id_of add_role grant Dict.set_default
add_access system_id row made =
    let key : ℕ × (ℕ × ℕ) = (row.system_id, (row.entitlement_id, row.access_level)) in
    let fresh = role_id_of system_id row in
    let id = Dict.get_or made.role_ids key fresh in
    record {
      role_ids = Dict.set_default key fresh made.role_ids;
      systems =
          add_role system_id
            (record { id = id; name = role_name_of row; access_level = at_level row.access_level })
            made.systems;
      by_profile = grant row.profile_id system_id id made.by_profile;
    }

-- The loop: none for the error that an entitlement references a missing system.
unfoldable pub add_accesses : Dict ℕ String → Accesses → List AccessRow → Option Accesses
unfolding add_access
add_accesses ids made [] = some made
add_accesses ids made (row ∷ rows) = elim (Dict.get ids row.system_id) [
  | none ↦ none
  | some system_id ↦ add_accesses ids (add_access system_id row made) rows
]
