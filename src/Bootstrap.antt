-- ===== src/Bootstrap.antt =====
-- The wiring of app/bootstrap.py: `build_runtime` with the source, the cache and the planner that it
-- makes, and `JsonCatalogSource` of app/catalog/json_source.py.
pub mod Laws
use role_model_helper_v.Prelude.{
  ℕ, String, Bool, true, false, ◌&&◌, not, Option, none, some, List, [], ◌∷◌, if◌then◌else◌, ◌==◌,
  string_eq,
}
use role_model_helper_v.Catalog.Bundle.{CatalogBundle, Document, from_mapping}
use role_model_helper_v.Catalog.Cache.{
  Cache, RefreshResult, Loaded, loaded, raised, hit, load, wait, init, begin_refresh,
  finish_refresh, woken_result,
}
use role_model_helper_v.Catalog.Releases
use role_model_helper_v.Catalog.Releases.{Releases, active_version}
use role_model_helper_v.Migrations.{Schema}
use role_model_helper_v.Migrations.Catalog
use role_model_helper_v.Migrations.Runtime
use role_model_helper_v.Gigachat.Token.{Manager, is_set}
use role_model_helper_v.Settings.{Settings, Collision, collisions, given, gigachat_enabled, is_none}

-- What the program finds when it starts: both schemas, the releases, and the document in the file
-- of the catalog (none where reading it raises). `problem` is the text of an exception.
pub record World : Type 0 where
  pub catalog_schema : Schema Catalog.Content
  pub runtime_schema : Schema Runtime.Content
  pub releases : Releases
  pub file : Option Document
  pub problem : String

-- `_build_planner`: `UnavailablePlanner`, a fixed token, or a token manager.
pub data PlannerKind : Type 0 where
  unavailable : PlannerKind
  fixed_token : String → PlannerKind
  managed : Manager → PlannerKind

pub data Startup : Type 0 where
  started : Cache → PlannerKind → Startup
  not_isolated : List Collision → Startup
  catalog_not_ready no_active_release no_catalog_file runtime_not_ready : Startup
  not_loaded : Option String → Startup

unfoldable pub manager_of : Settings → Manager
manager_of s = record {
  auth_key = s.gigachat_auth_key;
  client_id = s.gigachat_client_id;
  client_secret = s.gigachat_client_secret;
  has_cert = not (is_none s.gigachat_cert_file) && not (is_none s.gigachat_key_file);
}

unfoldable pub with_token : Settings → Option String → PlannerKind
unfolding manager_of
with_token s none = managed (manager_of s)
with_token s (some token) = fixed_token token

-- `_build_planner`
unfoldable pub build_planner : Settings → PlannerKind
unfolding with_token
build_planner s =
    if gigachat_enabled s then with_token s (given s.gigachat_access_token) else unavailable

-- `JsonCatalogSource.load`
unfoldable pub load_file : World → String → Loaded
load_file world version = elim world.file [
  | none ↦ raised world.problem
  | some document ↦
      if document.version == version then loaded (from_mapping document) else raised world.problem
]

-- `PostgresCatalogSource.load`, its `KeyError` as text.
unfoldable pub load_release : World → String → Loaded
load_release world version = elim (Releases.load version world.releases) [
  | none ↦ raised world.problem
  | some b ↦ loaded b
]

-- `refresh` while no other thread uses the cache.
unfoldable pub refresh_alone : String → Loaded → Cache → RefreshResult × Cache
refresh_alone version outcome c =
    let (begun, c') = begin_refresh version c in
    elim begun [
      | hit r ↦ (r, c')
      | load event ↦ finish_refresh version event outcome c'
      | wait event ↦ (woken_result version c', c')
    ]

-- The first half of `build_runtime`: a version with the outcome of loading it, or an early end.
pub data Chosen : Type 0 where
  chosen : String → Loaded → Chosen
  ended : Startup → Chosen

unfoldable pub or_active : Option String → Option String → Option String
or_active none active = active
or_active (some version) active = some version

unfoldable pub choose_release : World → Option String → Chosen
unfolding load_release
choose_release world none = ended no_active_release
choose_release world (some version) = chosen version (load_release world version)

unfoldable pub choose_file : World → Option String → Option String → Chosen
unfolding load_file
choose_file world (some path) (some version) = chosen version (load_file world version)
choose_file world none version = ended no_catalog_file
choose_file world (some path) none = ended no_catalog_file

unfoldable pub choose : Settings → World → Chosen
unfolding choose_release choose_file or_active
choose s world =
    if s.catalog_backend == "postgres"
    then (if Catalog.verify_ready world.catalog_schema
        then choose_release world
            (or_active (given s.catalog_version) (active_version world.releases))
        else ended catalog_not_ready)
    else choose_file world s.catalog_path s.catalog_version

-- The test behind `refresh`, and what follows it.
unfoldable pub finish_startup : Settings → World → RefreshResult × Cache → Startup
unfolding build_planner
finish_startup s world (r, c) =
    if not r.activated && is_none c.status.active_version
    then not_loaded r.error
    else if Runtime.verify_ready world.runtime_schema
    then started c (build_planner s)
    else runtime_not_ready

unfoldable pub start_with : Settings → World → Chosen → Startup
unfolding refresh_alone finish_startup
start_with s world (ended e) = e
start_with s world (chosen version outcome) =
    finish_startup s world (refresh_alone version outcome init)

-- `validate_isolation` raises, or the start goes on.
unfoldable pub unless_collisions : List Collision → Startup → Startup
unless_collisions [] next = next
unless_collisions (problem ∷ problems) next = not_isolated (problem ∷ problems)

-- `build_runtime`, with `Path.resolve`.
unfoldable pub build_runtime : (String → String) → Settings → World → Startup
unfolding choose start_with unless_collisions
build_runtime resolve s world =
    unless_collisions (collisions resolve s) (start_with s world (choose s world))
