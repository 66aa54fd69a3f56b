-- ===== src/Tests/Bootstrap.antt =====
-- A start with the catalog in a file.
use role_model_helper_v.Prelude.{◌≡◌, refl, some, false, [], string_eq, nat_eq, list_eq}
use role_model_helper_v.Prelude.Dict
use role_model_helper_v.Text.{codes}
use role_model_helper_v.Catalog.Cache.{Cache, init, loaded, begin_refresh, finish_refresh}
use role_model_helper_v.Settings.{Settings, collisions, gigachat_enabled}
use role_model_helper_v.Catalog.Bundle.{from_mapping}
use role_model_helper_v.Migrations.Runtime
use role_model_helper_v.Bootstrap.{World, started, unavailable, refresh_alone, build_runtime}
use role_model_helper_v.Bootstrap.Laws.{IsRunning, build_runtime-IsRunning}
use role_model_helper_v.Catalog.Releases.Laws.{no_releases}
use role_model_helper_v.Tests.Data.{document, bundle}
use role_model_helper_v.Tests.Settings.{settings}
use role_model_helper_v.Tests.Migrations.{latest}

abbrev file_settings : Settings
file_settings = record settings {
  catalog_backend = "json";
  catalog_path = some "/catalog.json";
  catalog_version = some "v1";
}

abbrev world : World
world = record {
  catalog_schema = record {
    versions = [];
    content = record { has_tables = false; readers = []; writers = [] };
  };
  runtime_schema = latest;
  releases = no_releases;
  file = some document;
  problem = "";
}

abbrev filled : Cache
filled = (refresh_alone "v1" (loaded bundle) init).1

file_started : build_runtime (λ s. s) file_settings world ≡ started filled unavailable
unfolding build_runtime collisions gigachat_enabled refresh_alone string_eq nat_eq list_eq codes
    Runtime.verify_ready begin_refresh Dict.get finish_refresh from_mapping
file_started = refl

build_runtime-IsRunning_example : IsRunning (λ s. s) (λ s. s) file_settings world filled unavailable
build_runtime-IsRunning_example =
    build_runtime-IsRunning (λ s. s) (λ s. s) file_settings world filled unavailable file_started
