-- ===== src/Migrations/Catalog/Again.antt =====
-- What a run of the catalog migrations guarantees to the source.
use role_model_helper_v.Prelude.{ℕ, ◌≡◌, refl, String, true, Option, List, [], nat_eq}
use role_model_helper_v.Migrations.{Schema, migrated}
use role_model_helper_v.Migrations.Laws.{granted_run, with_role_again}
use role_model_helper_v.Migrations.Catalog.{
  Content, steps, grant, latest_catalog_version, migrate, verify_ready,
}

grant_again :
    (reader writer : Option String) (s : Schema Content)
    → grant reader writer (grant reader writer s) ≡ grant reader writer s
unfolding grant
grant_again reader writer s =
    rw (with_role_again reader s.content.readers, with_role_again writer s.content.writers)

-- After a run of the migrations the source finds the schema ready, and a second run with the same
-- names succeeds, applies no version and changes nothing.
pub migrate_again :
    (name v1_name : String) (reader writer : Option String) (s s' : Schema Content)
    (applied : List ℕ)
    → migrate name v1_name reader writer s ≡ migrated s' applied
    → (verify_ready s' ≡ true) × (migrate name v1_name reader writer s' ≡ migrated s' [])
unfolding migrate verify_ready steps nat_eq grant
migrate_again name v1_name reader writer s s' applied =
    granted_run latest_catalog_version steps name v1_name (grant reader writer) s s' applied refl
      refl (λ t. refl) (grant_again reader writer)
