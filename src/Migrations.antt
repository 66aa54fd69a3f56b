-- ===== src/Migrations.antt =====
-- What the migrators of app/runtime/postgres.py and app/catalog/postgres.py share: the versions of
-- `schema_migration`, the steps that are missing, and the test of readiness. A run is one transaction
-- under an advisory lock, so a run that fails changes nothing.
pub mod Laws
pub mod Runtime
pub mod Catalog
use role_model_helper_v.Prelude.{
  ℕ, zero, suc, String, Bool, true, false, ◌||◌, Option, none, some, List, [], ◌∷◌, ◌++◌, ◌==◌,
  nat_eq, string_eq, leb, ltb, contains, any, if◌then◌else◌,
}
use Prim.Native.Nat.{max}
use role_model_helper_v.Text.{strip}

-- A schema: the versions that it has, and what stands in it.
pub record Schema {ℓ} (D : Type ℓ) : Type ℓ where
  pub versions : List ℕ
  pub content : D

-- Why a run fails: a `ValueError` for the name of the schema, a newer schema, or the database.
pub data MigrationError : Type 0 where
  empty_name same_as_v1 : MigrationError
  newer_schema : ℕ → MigrationError
  database_error : MigrationError

-- The schema after a run and the versions that it applied, or the reason why it failed.
pub data Migration {ℓ} (D : Type ℓ) : Type ℓ where
  migrated : Schema D → List ℕ → Migration D
  not_migrated : MigrationError → Migration D

-- A version with what applies it, none where a statement fails.
abbrev pub Steps {ℓ} : Type ℓ → Type ℓ
Steps D = List (ℕ × (D → Option D))

-- `max(versions)`, or 0
unfoldable pub newest : List ℕ → ℕ
newest [] = 0
newest (v ∷ vs) = max v (newest vs)

module _ {ℓ} {D : Type ℓ} where
  -- The steps whose version was not there at the start.
  unfoldable pub apply_missing : Steps D → List ℕ → Schema D → List ℕ → Option (Schema D × List ℕ)
  apply_missing [] existing s applied = some (s, applied)
  apply_missing ((v, step) ∷ steps) existing s applied =
      if contains existing v
      then apply_missing steps existing s applied
      else elim (step s.content) [
        | none ↦ none
        | some content ↦
            apply_missing steps existing (record { versions = v ∷ s.versions; content = content })
              (applied ++ v ∷ [])
      ]

  -- `migrate`, up to the grants
  unfoldable pub run : ℕ → Steps D → String → String → Schema D → Migration D
  unfolding strip newest apply_missing
  run latest steps name v1_name s =
      if strip name == ""
      then not_migrated empty_name
      else if name == v1_name
      then not_migrated same_as_v1
      else if any (ltb latest) s.versions
      then not_migrated (newer_schema (newest s.versions))
      else elim (apply_missing steps s.versions s []) [
        | none ↦ not_migrated database_error
        | some (s', applied) ↦ migrated s' applied
      ]

  -- The grants at the end of a run that succeeded.
  unfoldable pub granted : (Schema D → Schema D) → Migration D → Migration D
  granted grant (migrated s applied) = migrated (grant s) applied
  granted grant (not_migrated e) = not_migrated e

  -- `verify_ready`
  unfoldable pub is_ready : ℕ → Schema D → Bool
  unfolding newest
  is_ready latest s = newest s.versions == latest

-- A role that has a name is granted once.
unfoldable pub with_role : Option String → List String → List String
with_role none roles = roles
with_role (some role) roles =
    if role == "" || contains roles role then roles else roles ++ role ∷ []
