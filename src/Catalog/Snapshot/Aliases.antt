-- ===== src/Catalog/Snapshot/Aliases.antt =====
-- The aliases of systems and of departments in `_build_document` of app/catalog/v1_snapshot.py.
pub mod Laws
pub mod Origin
pub mod Safe
use role_model_helper_v.Prelude.{
  ℕ, String, Bool, ◌||◌, Option, none, some, List, [], ◌∷◌, ◌==◌, nat_eq, list_eq, string_eq,
  option_eq, if◌then◌else◌,
}
use role_model_helper_v.Prelude.Dict
use role_model_helper_v.Prelude.Dict.{Dict}
use role_model_helper_v.Text.{Text, codes, upper}
use role_model_helper_v.Catalog.Normalization.{normalize_query}
use role_model_helper_v.Catalog.Bundle.{Alias, or_empty}
use role_model_helper_v.Catalog.Snapshot.Rows.{AliasRow, DepartmentAliasRow}

-- `str(row["alias_class"] or "").upper()`
unfoldable pub class_of : Option String → Text
unfolding codes upper
class_of c = upper (codes (or_empty c))

-- `"SAFE" if safety == "SAFE" else "AMBIGUOUS"`
unfoldable pub safety_of_class : Text → String
safety_of_class safety = if safety == codes "SAFE" then "SAFE" else "AMBIGUOUS"

unfoldable pub alias_of : String → Option String → Alias
unfolding class_of safety_of_class
alias_of raw c = record { value = raw; safety = some (safety_of_class (class_of c)) }

-- A row that makes no alias: its class is UNSAFE, or its text has no words.
unfoldable pub is_dropped : String → Option String → Bool
unfolding class_of
is_dropped raw c = class_of c == codes "UNSAFE" || normalize_query (codes raw) == []

-- An alias takes the place of one with the same words only if it is SAFE.
unfoldable pub keep_alias : Text → Alias → Dict Text Alias → Dict Text Alias
keep_alias normalized candidate aliases = elim (Dict.get aliases normalized) [
  | none ↦ Dict.insert normalized candidate aliases
  | some _ ↦
      if candidate.safety == some "SAFE" then Dict.insert normalized candidate aliases else aliases
]

-- One round of the loop over `aliases_raw`.
unfoldable pub add_alias : AliasRow → Dict ℕ (Dict Text Alias) → Dict ℕ (Dict Text Alias)
unfolding is_dropped alias_of keep_alias
add_alias row made =
    let aliases = Dict.get_or made row.system_id [] in
    let candidate = alias_of row.alias_text row.alias_class in
    let normalized = normalize_query (codes row.alias_text) in
    if is_dropped row.alias_text row.alias_class
    then made
    else Dict.insert row.system_id (keep_alias normalized candidate aliases) made

unfoldable pub system_aliases : Dict ℕ (Dict Text Alias) → List AliasRow → Dict ℕ (Dict Text Alias)
unfolding add_alias
system_aliases made [] = made
system_aliases made (row ∷ rows) = system_aliases (add_alias row made) rows

-- The loop over `department_aliases_raw`: here a later row always takes the place.
unfoldable pub department_aliases :
    Dict String (Dict Text Alias) → List DepartmentAliasRow → Dict String (Dict Text Alias)
unfolding is_dropped alias_of
department_aliases made [] = made
department_aliases made (row ∷ rows) =
    let aliases = Dict.get_or made row.department_name [] in
    let candidate = alias_of row.alias_text row.alias_class in
    let normalized = normalize_query (codes row.alias_text) in
    department_aliases
      (if is_dropped row.alias_text row.alias_class
        then made
        else Dict.insert row.department_name (Dict.insert normalized candidate aliases) made)
      rows
