-- ===== src/Migrations/Catalog.antt =====
-- `PostgresCatalogMigrator` of app/catalog/postgres.py, and `verify_ready` of `PostgresCatalogSource`.
-- The tables of version 1 are made together; who may read and write them is all that is kept.
pub mod Again
use role_model_helper_v.Prelude.{
  ℕ, ◌≡◌, refl, String, Bool, true, false, ◌||◌, Option, none, some, List, [], ◌∷◌, ◌++◌, ◌==◌,
  nat_eq, string_eq, contains, if◌then◌else◌,
}
use role_model_helper_v.Migrations.{
  Schema, Steps, Migration, migrated, not_migrated, run, granted, with_role, is_ready,
}

pub record Content : Type 0 where
  pub has_tables : Bool
  pub readers : List String
  pub writers : List String

-- `_apply_version_1`: the tables must not be there.
unfoldable pub apply_version_1 : Content → Option Content
apply_version_1 c = if c.has_tables then none else some (record c { has_tables = true })

-- `LATEST_CATALOG_SCHEMA_VERSION`
abbrev pub latest_catalog_version : ℕ
latest_catalog_version = 1

unfoldable pub steps : Steps Content
unfolding apply_version_1
steps = (1, apply_version_1) ∷ []

-- `_grant_permissions`
unfoldable pub grant : Option String → Option String → Schema Content → Schema Content
unfolding with_role
grant reader writer s = record s {
  content = record s.content {
    readers = with_role reader s.content.readers;
    writers = with_role writer s.content.writers;
  };
}

-- `migrate`: the grants are part of the transaction.
unfoldable pub migrate :
    String → String → Option String → Option String → Schema Content → Migration Content
unfolding steps run grant granted
migrate name v1_name reader writer s =
    granted (grant reader writer) (run latest_catalog_version steps name v1_name s)

-- `PostgresCatalogSource.verify_ready`
unfoldable pub verify_ready : Schema Content → Bool
unfolding is_ready
verify_ready = is_ready latest_catalog_version
