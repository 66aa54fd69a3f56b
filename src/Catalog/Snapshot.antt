-- ===== src/Catalog/Snapshot.antt =====
-- `V1SnapshotCatalogAdapter` of app/catalog/v1_snapshot.py: the document that one snapshot of the
-- tables of V1 becomes. The rows that `extract` selects are the input; the digest of an id, the
-- hexadecimal SHA-256 that hashlib computes, is the parameter `digest`.
pub mod City
pub mod Rows
pub mod Aliases
pub mod Entries
pub mod Access
pub mod References
pub mod Errors
use role_model_helper_v.Prelude.{
  ℕ, String, ◌<>◌, if◌then◌else◌, Option, none, some, List, [], ◌∷◌, ◌==◌, nat_eq, string_eq, map,
  take,
}
use role_model_helper_v.Prelude.Dict
use role_model_helper_v.Prelude.Dict.{Dict}
use role_model_helper_v.Text.{Text, codes, replace, strip}
use role_model_helper_v.Text.Chars.{str, text_string}
use role_model_helper_v.Catalog.Normalization.{normalize_query}
use role_model_helper_v.Catalog.Bundle.{
  Access as AccessEntry, DepartmentEntry, PositionEntry, ProfileEntry, System, Document, or_empty,
}
use role_model_helper_v.Catalog.Snapshot.Rows.{ProfileRow, Snapshot, stable_id}
use role_model_helper_v.Catalog.Snapshot.Aliases.{system_aliases, department_aliases}
use role_model_helper_v.Catalog.Snapshot.Entries.{
  Departments, Positions, cities_by_profile, add_departments, add_positions, system_ids,
  bare_systems,
}
use role_model_helper_v.Catalog.Snapshot.Access.{Accesses, add_accesses}

pub record ExtractedCatalog : Type 0 where
  pub document : Document
  pub source_sha256 : String
  pub snapshot_id : ℕ

-- The three reasons of a `V1SnapshotExtractionError`.
pub data ExtractionError : Type 0 where
  no_active_snapshot : ExtractionError
  no_source_hash : ExtractionError
  missing_system : ExtractionError

pub data Extraction : Type 0 where
  extracted : ExtractedCatalog → Extraction
  failed : ExtractionError → Extraction

-- The `access` of a profile, in the order in which its systems were met.
unfoldable pub access_of : Dict String (List String) → List AccessEntry
access_of = map λ (system_id, role_ids). record { system_id = system_id; role_ids = role_ids }

unfoldable pub version_of : Snapshot → String
unfolding str normalize_query replace codes text_string nat_eq
version_of raw =
    let hash = replace b' ' [] (normalize_query (codes raw.source_sha256)) in
    "v1-snapshot-" <> str raw.id <> "-" <> text_string (take 12 hash)

unfoldable pub cities_of : Snapshot → Dict ℕ String
unfolding cities_by_profile
cities_of raw = cities_by_profile [] raw.segments

module _ (digest : Text → Text) where
  unfoldable pub profile_entry :
      Dict ℕ String → Departments → Positions → Accesses → ProfileRow → ProfileEntry
  unfolding access_of stable_id
  profile_entry cities departments positions accesses row = record {
    id = stable_id digest "profile" (or_empty row.profile_code) row.profile_name;
    name = some row.profile_name;
    city = some (Dict.get_or cities row.id "");
    department_ids = Dict.get_or departments.by_profile row.id [];
    position_ids = Dict.get_or positions.by_profile row.id [];
    access = access_of (Dict.get_or accesses.by_profile row.id []);
  }

  unfoldable pub departments_of : Snapshot → Departments
  unfolding cities_of add_departments department_aliases
  departments_of raw =
      add_departments digest (cities_of raw) (department_aliases [] raw.department_aliases)
        (record { ids = []; entries = []; by_profile = [] }) raw.departments

  unfoldable pub positions_of : Snapshot → Positions
  unfolding add_positions
  positions_of raw =
      add_positions digest (record { ids = []; entries = []; by_profile = [] }) raw.positions

  unfoldable pub accesses_of : Snapshot → Option Accesses
  unfolding system_aliases system_ids bare_systems add_accesses
  accesses_of raw =
      add_accesses (system_ids digest [] raw.systems)
        (record {
          role_ids = [];
          systems = bare_systems digest (system_aliases [] raw.aliases) raw.systems;
          by_profile = [];
        })
        raw.accesses

  unfoldable pub document_of : Snapshot → Accesses → Document
  unfolding departments_of positions_of profile_entry version_of
  document_of raw accesses = record {
    version = version_of raw;
    systems = accesses.systems;
    departments = Dict.values (departments_of raw).entries;
    positions = Dict.values (positions_of raw).entries;
    profiles =
        map (profile_entry (cities_of raw) (departments_of raw) (positions_of raw) accesses)
          raw.profiles;
    instructions = [];
  }

  -- `_build_document`. The counts, which only describe the document, are left out.
  unfoldable pub build_document : Snapshot → Extraction
  unfolding accesses_of document_of
  build_document raw = elim (accesses_of raw) [
    | none ↦ failed missing_system
    | some accesses ↦ extracted (record {
      document = document_of raw accesses;
      source_sha256 = raw.source_sha256;
      snapshot_id = raw.id;
    })
  ]

  -- `extract`, given the active snapshot that was loaded last, if there is one.
  unfoldable pub extract : Option Snapshot → Extraction
  unfolding build_document
  extract none = failed no_active_snapshot
  extract (some raw) =
      let source_sha256 = strip raw.source_sha256 in
      if source_sha256 == ""
      then failed no_source_hash
      else build_document (record raw { source_sha256 = source_sha256 })
