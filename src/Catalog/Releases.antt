-- ===== src/Catalog/Releases.antt =====
-- The transaction of `publish` and the source of app/catalog/postgres.py over the tables
-- `catalog_release` and `catalog_pointer`, for a document that was validated. The tables of entities,
-- aliases and relations, which the source does not read, enter only by the primary keys that may
-- refuse a row of the document.
pub mod Rows
pub mod Laws
use role_model_helper_v.Prelude.{
  String, Bool, true, false, ◌||◌, Option, none, some, any, if◌then◌else◌, string_eq,
}
use role_model_helper_v.Prelude.Dict
use role_model_helper_v.Prelude.Dict.{Dict}
use mathlib.Core.Option
use role_model_helper_v.Catalog.Releases.Rows.{keys_collide}
use role_model_helper_v.Catalog.Bundle.{Document, CatalogBundle, from_mapping}

pub data Status : Type 0 where
  staging active retired : Status

pub record Release : Type 0 where
  pub source_sha256 : String
  pub status : Status
  pub document : Document

-- `catalog_release` by its primary key, and the one row that `catalog_pointer` may have.
pub record Releases : Type 0 where
  pub releases : Dict String Release
  pub pointer : Option String

-- A publication with its version and the previous one, or the error that says that a version
-- exists, into which every violation of a unique key is turned.
pub data Publication : Type 0 where
  published : String → Option String → Publication
  refused : String → Publication

unfoldable pub is_active : Status → Bool
is_active staging = false
is_active active = true
is_active retired = false

unfoldable pub is_staging : Status → Bool
is_staging staging = true
is_staging active = false
is_staging retired = false

-- `UPDATE … SET status = to WHERE version = … AND status = …`; the test is that of the old status.
unfoldable pub set_status :
    (Status → Bool) → Status → String → Dict String Release → Dict String Release
set_status test to version releases = elim (Dict.get releases version) [
  | none ↦ releases
  | some r ↦
      if test r.status then Dict.insert version (record r { status = to }) releases else releases
]

-- `if previous is not None`
unfoldable pub retire : Option String → Dict String Release → Dict String Release
retire none releases = releases
retire (some previous) releases = set_status is_active retired previous releases

unfoldable pub active_at : Dict String Release → String → Bool
active_at releases version = elim (Dict.get releases version) [
  | none ↦ false
  | some r ↦ is_active r.status
]

-- The unique index `catalog_release_one_active_idx` has a row already.
unfoldable pub has_active : Dict String Release → Bool
has_active releases = any (λ ((version, r) : String × Release). active_at releases version) releases

-- `publish`, after the validation. An error rolls the transaction back.
unfoldable pub publish : String → Document → Releases → Publication × Releases
publish source_sha256 document db = elim (Dict.get db.releases document.version) [
  | some r ↦ (refused document.version, db)
  | none ↦
      let row : Release = record {
        source_sha256 = source_sha256;
        status = staging;
        document = document;
      } in
      let rest = retire db.pointer (Dict.insert document.version row db.releases) in
      if keys_collide document || has_active rest then (refused document.version, db) else (
        published document.version db.pointer,
        record {
          releases = set_status is_staging active document.version rest;
          pointer = some document.version;
        },
      )
]

-- `active_version`
unfoldable pub active_version : Releases → Option String
active_version db = db.pointer

loadable : Release → Option CatalogBundle
loadable r = if is_staging r.status then none else some (from_mapping r.document)

-- `load`, the `none` of which is a `KeyError`
unfoldable pub load : String → Releases → Option CatalogBundle
unfolding loadable
load version db = elim (Dict.get db.releases version) [ none ↦ none | some r ↦ loadable r ]
