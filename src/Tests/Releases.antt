-- ===== src/Tests/Releases.antt =====
-- The validation and the publication of a small catalog.
use role_model_helper_v.Prelude.{
  ◌≡◌, refl, ◌≢◌, ◌↔◌, ◌⊎◌, true, false, pair_eq, none, some, All, string_eq, list_eq, nat_eq,
  option_eq,
}
use role_model_helper_v.Prelude.Dict
use role_model_helper_v.Text.{codes, strip, upper}
use role_model_helper_v.Agent.Models.{TurnResult}
use role_model_helper_v.Agent.Engine.{handle}
use role_model_helper_v.Agent.Engine.Total.Handler.{handle_validated}
use role_model_helper_v.Catalog.Bundle.{Document, Instruction, or_empty, from_mapping}
use role_model_helper_v.Catalog.Cache.{current}
use role_model_helper_v.Catalog.Normalization.{normalize_query}
use role_model_helper_v.Catalog.Validation.{
  validate_catalog, entries_fit, references_fit, aliases_fit, role_owners, add_roles, unique_from,
  profile_fits, access_fits, alias_fits,
}
use role_model_helper_v.Catalog.Validation.Laws.{AccessKnown, HasSystem, validate_catalog-HasSystem}
use role_model_helper_v.Catalog.Releases.{refused, publish, active_version, load}
use role_model_helper_v.Catalog.Releases.Laws.{
  IsPointed, no_releases, no_releases-IsPointed, publish-IsPointed, publish_refused, load-publish,
  load-publish_old,
}
use role_model_helper_v.Catalog.Releases.Rows.{keys_collide}
use role_model_helper_v.Tests.Data.{document, bundle, cache, clock, good_planner, reset_request}

document_valid : validate_catalog document ≡ some document
unfolding validate_catalog entries_fit references_fit aliases_fit role_owners add_roles unique_from
    profile_fits access_fits alias_fits strip upper codes normalize_query Dict.get Dict.insert
    string_eq list_eq nat_eq option_eq
document_valid = refl

validate_catalog-HasSystem_example :
    All (AccessKnown document) document.profiles
    × All (λ (i : Instruction). HasSystem document (or_empty i.system_id)) document.instructions
validate_catalog-HasSystem_example = validate_catalog-HasSystem document document document_valid

handle_validated_example :
    (result : TurnResult) × (handle clock good_planner cache "t1" reset_request ≡ some result)
unfolding current
handle_validated_example =
    handle_validated clock good_planner cache document document "t1" reset_request document_valid
      refl (refl, tt)

publish-IsPointed_example : IsPointed (publish "sha" document no_releases).1
publish-IsPointed_example = publish-IsPointed "sha" document no_releases no_releases-IsPointed

publish_refused_example :
    ((publish "sha" document no_releases).0 ≡ refused "v1")
    ↔ ((Dict.get no_releases.releases "v1" ≢ none) ⊎ (keys_collide document ≡ true))
publish_refused_example = publish_refused "sha" document no_releases no_releases-IsPointed

document_apart : keys_collide document ≡ false
unfolding keys_collide from_mapping codes string_eq nat_eq list_eq pair_eq Dict.insert Dict.values
document_apart = refl

load-publish_example :
    (active_version (publish "sha" document no_releases).1 ≡ some "v1")
    × (load "v1" (publish "sha" document no_releases).1 ≡ some bundle)
unfolding Dict.get
load-publish_example =
    load-publish "sha" document no_releases no_releases-IsPointed refl document_apart

abbrev next_document : Document
next_document = record document { version = "v2" }

first_loads : load "v1" (publish "sha" document no_releases).1 ≡ some bundle
unfolding Dict.get
first_loads = (load-publish "sha" document no_releases no_releases-IsPointed refl document_apart).1

first-IsPointed : IsPointed (publish "sha" document no_releases).1
first-IsPointed = publish-IsPointed "sha" document no_releases no_releases-IsPointed

load-publish_old_example :
    load "v1" (publish "sha2" next_document (publish "sha" document no_releases).1).1 ≡ some bundle
load-publish_old_example =
    load-publish_old "sha2" next_document (publish "sha" document no_releases).1 "v1" bundle
      first-IsPointed first_loads
