-- ===== src/Migrations/Runtime/Again.antt =====
-- What a run of the runtime migrations guarantees to the store.
use role_model_helper_v.Prelude.{ℕ, ◌≡◌, refl, ap, String, true, Option, List, [], nat_eq}
use role_model_helper_v.Migrations.{Schema, migrated}
use role_model_helper_v.Migrations.Laws.{granted_run, with_role_again}
use role_model_helper_v.Migrations.Runtime.{
  Content, steps, grant, latest_schema_version, migrate, verify_ready,
}

grant_again : (role : Option String) (s : Schema Content) → grant role (grant role s) ≡ grant role s
unfolding grant
grant_again role s =
    ap (λ (names : List String). record s { content = record s.content { granted = names } })
      (with_role_again role s.content.granted)

-- After a run of the migrations the store finds the schema ready, and a second run with the same
-- names succeeds, applies no version and changes nothing.
pub migrate_again :
    (name v1_name : String) (app_role : Option String) (s s' : Schema Content) (applied : List ℕ)
    → migrate name v1_name app_role s ≡ migrated s' applied
    → (verify_ready s' ≡ true) × (migrate name v1_name app_role s' ≡ migrated s' [])
unfolding migrate verify_ready steps nat_eq grant
migrate_again name v1_name app_role s s' applied =
    granted_run latest_schema_version steps name v1_name (grant app_role) s s' applied refl refl
      (λ t. refl) (grant_again app_role)
