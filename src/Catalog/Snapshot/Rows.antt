-- ===== src/Catalog/Snapshot/Rows.antt =====
-- The rows that `V1SnapshotCatalogAdapter.extract` of app/catalog/v1_snapshot.py selects, and the
-- helpers that its parts share. A column that may be null, or is tested by `or ""`, is an `Option`;
-- the numbers of the tables are not negative.
pub mod Laws
use role_model_helper_v.Prelude.{
  ℕ, String, ◌<>◌, Option, List, [], ◌∷◌, ◌++◌, ◌==◌, nat_eq, list_eq, string_eq, contains, take,
  if◌then◌else◌,
}
use role_model_helper_v.Prelude.Dict
use role_model_helper_v.Prelude.Dict.{Dict}
use role_model_helper_v.Text.{Text, codes, replace, upper}
use role_model_helper_v.Text.Chars.{text_string}
use role_model_helper_v.Catalog.Normalization.{normalize_query}
use role_model_helper_v.Catalog.Bundle.{or_empty}

pub record SystemRow : Type 0 where
  pub id : ℕ
  pub system_name_raw : String
  pub ci_code : Option String

pub record AliasRow : Type 0 where
  pub system_id : ℕ
  pub alias_text : String
  pub alias_class : Option String

pub record DepartmentAliasRow : Type 0 where
  pub department_name : String
  pub alias_text : String
  pub alias_class : Option String

pub record ProfileRow : Type 0 where
  pub id : ℕ
  pub profile_code : Option String
  pub profile_name : String

pub record SegmentRow : Type 0 where
  pub profile_id : ℕ
  pub segment_name : Option String

pub record DepartmentRow : Type 0 where
  pub profile_id : ℕ
  pub department_name : String
  pub department_code : Option String

pub record PositionRow : Type 0 where
  pub profile_id : ℕ
  pub position_name : String
  pub position_code : Option String

pub record AccessRow : Type 0 where
  pub profile_id : ℕ
  pub access_level : ℕ
  pub entitlement_id : ℕ
  pub source_col : ℕ
  pub entitlement_type : Option String
  pub entitlement_name : Option String
  pub system_id : ℕ

-- What one active snapshot holds: its id, the SHA-256 of its source file, and the rows.
pub record Snapshot : Type 0 where
  pub id : ℕ
  pub source_sha256 : String
  pub systems : List SystemRow
  pub aliases : List AliasRow
  pub department_aliases : List DepartmentAliasRow
  pub profiles : List ProfileRow
  pub segments : List SegmentRow
  pub departments : List DepartmentRow
  pub positions : List PositionRow
  pub accesses : List AccessRow

-- `_append_unique`
unfoldable pub append_unique : Dict ℕ (List String) → ℕ → String → Dict ℕ (List String)
unfolding nat_eq Dict.get Dict.insert
append_unique mapping key value =
    let values = Dict.get_or mapping key [] in
    Dict.insert key (if contains values value then values else values ++ value ∷ []) mapping

-- `_stable_id`, where `digest` is the hexadecimal SHA-256 of a text.
unfoldable pub stable_id : (Text → Text) → String → String → String → String
unfolding normalize_query codes replace text_string list_eq nat_eq
stable_id digest prefix code fallback =
    let normalized_code = replace b' ' (codes "-") (normalize_query (codes code)) in
    if normalized_code == []
    then prefix <> ":sha256:" <> text_string (take 20 (digest (normalize_query (codes fallback))))
    else prefix <> ":" <> text_string normalized_code
