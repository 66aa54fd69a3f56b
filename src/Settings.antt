-- ===== src/Settings.antt =====
-- `Settings` of app/config.py. The home directory, `expanduser`, `resolve`, `int` and `float` are
-- those of the system and of Python, and are parameters; numbers are not negative but for the
-- refresh interval, which is a float.
pub mod Laws
use Prim.Native.Char.{code}
use mathlib.Core.Option
use role_model_helper_v.Prelude.{
  ◌>>=◌, ℕ, ◌<>◌, String, Bool, true, false, not, ◌&&◌, ◌||◌, Option, none, some, List, [], ◌∷◌,
  ◌++◌, ◌==◌, nat_eq, list_eq, string_eq, contains, if◌then◌else◌,
}
use role_model_helper_v.Prelude.Dict
use role_model_helper_v.Prelude.Dict.{Dict}
use role_model_helper_v.Score.{Float, nan, minus, plus}
use role_model_helper_v.Text.{Text, codes, strip, lower, is_prefix}
use role_model_helper_v.Text.Chars.{text_string}

pub record Settings : Type 0 where
  pub host : String
  pub port : ℕ
  pub install_dir : String
  pub service_name : String
  pub database_dsn : String
  pub migration_dsn : Option String
  pub database_app_role : Option String
  pub state_schema : String
  pub v1_port : ℕ
  pub v1_install_dir : String
  pub v1_service_name : String
  pub v1_state_schema : String
  pub tls_verify : Bool
  pub catalog_backend : String
  pub catalog_dsn : Option String
  pub catalog_schema : String
  pub catalog_reader_role : Option String
  pub catalog_writer_role : Option String
  pub catalog_import_dsn : Option String
  pub v1_catalog_schema : String
  pub catalog_path : Option String
  pub catalog_version : Option String
  pub catalog_refresh_seconds : Float
  pub gigachat_endpoint : String
  pub gigachat_auth_url : String
  pub gigachat_scope : String
  pub gigachat_model : String
  pub gigachat_access_token : Option String
  pub gigachat_auth_key : Option String
  pub gigachat_client_id : Option String
  pub gigachat_client_secret : Option String
  pub gigachat_cert_file : Option String
  pub gigachat_key_file : Option String
  pub gigachat_ca_bundle : Option String
  pub planner_deadline_ms : ℕ

-- `home` is `str(Path.home())`, and the functions are none where Python raises.
pub record Environment : Type 0 where
  pub home : String
  pub expanduser : String → String
  pub resolve : String → String
  pub int_of : String → Option ℕ
  pub float_of : String → Option Float

-- A text that is not missing and not empty: `value or None`.
abbrev pub given : Option String → Option String
given none = none
given (some s) = if s == "" then none else some s

-- `bool(value)`
abbrev pub is_given : Option String → Bool
is_given none = false
is_given (some s) = not (s == "")

-- `a or b`
abbrev pub or_text : Option String → String → String
or_text none b = b
or_text (some a) b = if a == "" then b else a

-- `_as_bool`
unfoldable pub as_bool : Option String → Bool → Bool
unfolding strip lower codes list_eq nat_eq
as_bool none default = default
as_bool (some value) default =
    contains (codes "1" ∷ codes "true" ∷ codes "yes" ∷ codes "on" ∷ [])
      (lower (codes (strip value)))

module _ (env : Environment) (values : Dict String String) where
  abbrev text : String → String → String
  text key default = Dict.get_or values key default

  abbrev optional : String → Option String
  optional key = given (Dict.get values key)

  abbrev path : String → Option String
  path key = Option.map env.expanduser (optional key)

  -- The settings, once the four numbers are read.
  unfoldable pub settings_with : ℕ → ℕ → Float → ℕ → Settings
  unfolding as_bool strip lower codes text_string
  settings_with port v1_port refresh_seconds deadline = record {
    host = text "APP_HOST" "127.0.0.1";
    port = port;
    install_dir = env.expanduser (text "INSTALL_DIR" (env.home <> "/RoleModelHelperV2"));
    service_name = text "SERVICE_NAME" "rolemodel-helper-v2.service";
    database_dsn = text "DATABASE_DSN" "postgresql:///rolemodel";
    migration_dsn = optional "MIGRATION_DSN";
    database_app_role = optional "DATABASE_APP_ROLE";
    state_schema = text "STATE_SCHEMA" "rolemodel_v2_runtime";
    v1_port = v1_port;
    v1_install_dir = env.expanduser (text "V1_INSTALL_DIR" (env.home <> "/RoleModelHelper2"));
    v1_service_name = text "V1_SERVICE_NAME" "rolemodel-helper.service";
    v1_state_schema = text "V1_STATE_SCHEMA" "public";
    tls_verify = as_bool (Dict.get values "TLS_VERIFY") true;
    catalog_backend = text_string (lower (codes (strip (text "CATALOG_BACKEND" "postgres"))));
    catalog_dsn = optional "CATALOG_DSN";
    catalog_schema = text "CATALOG_SCHEMA" "rolemodel_v2_catalog";
    catalog_reader_role = optional "CATALOG_READER_ROLE";
    catalog_writer_role = optional "CATALOG_WRITER_ROLE";
    catalog_import_dsn = optional "CATALOG_IMPORT_DSN";
    v1_catalog_schema = text "V1_CATALOG_SCHEMA" (text "V1_STATE_SCHEMA" "public");
    catalog_path = path "CATALOG_PATH";
    catalog_version = optional "CATALOG_VERSION";
    catalog_refresh_seconds = refresh_seconds;
    gigachat_endpoint =
        text "GIGACHAT_ENDPOINT" "https://gigachat.devices.sberbank.ru/api/v1/chat/completions";
    gigachat_auth_url =
        text "GIGACHAT_AUTH_URL" "https://ngw.devices.sberbank.ru:9443/api/v2/oauth";
    gigachat_scope = text "GIGACHAT_SCOPE" "GIGACHAT_API_PERS";
    gigachat_model = text "GIGACHAT_MODEL" "GigaChat-2-Max";
    gigachat_access_token = optional "GIGACHAT_ACCESS_TOKEN";
    gigachat_auth_key = optional "GIGACHAT_AUTH_KEY";
    gigachat_client_id = optional "GIGACHAT_CLIENT_ID";
    gigachat_client_secret = optional "GIGACHAT_CLIENT_SECRET";
    gigachat_cert_file = path "GIGACHAT_CERT_FILE";
    gigachat_key_file = path "GIGACHAT_KEY_FILE";
    gigachat_ca_bundle = path "GIGACHAT_CA_BUNDLE";
    planner_deadline_ms = deadline;
  }

  -- `from_mapping`, or none where a number cannot be read.
  unfoldable pub from_mapping : Option Settings
  unfolding settings_with
  from_mapping = do
    port ← env.int_of (text "APP_PORT" "8001")
    v1_port ← env.int_of (text "V1_APP_PORT" "8000")
    refresh_seconds ← env.float_of (text "CATALOG_REFRESH_SECONDS" "5")
    deadline ← env.int_of (text "PLANNER_DEADLINE_MS" "12000")
    some (settings_with port v1_port refresh_seconds deadline)

-- What `validate_isolation` complains of.
pub data Collision : Type 0 where
  same_port same_service same_directory : Collision
  same_state_schema catalog_in_v1_state catalog_in_v1_catalog catalog_in_state : Collision
  bad_database_dsn bad_migration_dsn bad_catalog_dsn bad_import_dsn : Collision
  unsupported_backend missing_json_catalog bad_refresh_interval : Collision

-- `dsn.startswith(("postgresql://", "postgres://"))`
unfoldable pub is_postgres : String → Bool
unfolding is_prefix codes
is_postgres dsn =
    is_prefix (codes "postgresql://") (codes dsn) || is_prefix (codes "postgres://") (codes dsn)

-- `dsn and not dsn.startswith(…)`
abbrev pub is_bad_dsn : Option String → Bool
is_bad_dsn none = false
is_bad_dsn (some dsn) = not (dsn == "") && not (is_postgres dsn)

-- `value <= 0`
abbrev pub not_positive : Float → Bool
not_positive nan = false
not_positive (minus a) = true
not_positive (plus a) = a.num == 0

abbrev pub is_none : Option String → Bool
is_none none = true
is_none (some s) = false

abbrev pub effective_migration_dsn : Settings → String
effective_migration_dsn s = or_text s.migration_dsn s.database_dsn

abbrev pub effective_catalog_dsn : Settings → String
effective_catalog_dsn s = or_text s.catalog_dsn s.database_dsn

unfoldable pub gigachat_enabled : Settings → Bool
gigachat_enabled s =
    is_given s.gigachat_access_token
    || is_given s.gigachat_auth_key
    || is_given s.gigachat_client_id && is_given s.gigachat_client_secret
    || not (is_none s.gigachat_cert_file) && not (is_none s.gigachat_key_file)

abbrev pub when : Bool → Collision → List Collision
when true c = c ∷ []
when false c = []

unfoldable pub backend_collisions : Settings → List Collision
unfolding is_postgres
backend_collisions s =
    if s.catalog_backend == "postgres"
    then when (not (is_postgres (effective_catalog_dsn s))) bad_catalog_dsn
      ++ when (is_bad_dsn s.catalog_import_dsn) bad_import_dsn
    else when (is_none s.catalog_path || is_none s.catalog_version) missing_json_catalog

-- `validate_isolation`: it raises unless there is nothing to complain of.
unfoldable pub collisions : (String → String) → Settings → List Collision
unfolding backend_collisions is_postgres
collisions resolve s =
    when (s.port == s.v1_port) same_port
    ++ (when (s.service_name == s.v1_service_name) same_service
        ++ (when (resolve s.install_dir == resolve s.v1_install_dir) same_directory
            ++ (when (s.state_schema == s.v1_state_schema) same_state_schema
                ++ (when (s.catalog_schema == s.v1_state_schema) catalog_in_v1_state
                    ++ (when (s.catalog_schema == s.v1_catalog_schema) catalog_in_v1_catalog
                        ++ (when (s.catalog_schema == s.state_schema) catalog_in_state
                            ++ (when (not (is_postgres s.database_dsn)) bad_database_dsn
                                ++ (when (is_bad_dsn s.migration_dsn) bad_migration_dsn
                                    ++ (when
                                          (not
                                            (contains ("postgres" ∷ "json" ∷ []) s.catalog_backend))
                                          unsupported_backend
                                        ++ (backend_collisions s
                                            ++ when (not_positive s.catalog_refresh_seconds)
                                                bad_refresh_interval))))))))))

-- `from_env`: the variables with the prefix `RMV2_`, without it.
unfoldable pub without_prefix : String → String → Option String
without_prefix String.[] key = some key
without_prefix (String.◌∷◌ c p) String.[] = none
without_prefix (String.◌∷◌ c p) (String.◌∷◌ d key) =
    let rest = without_prefix p key in if code c == code d then rest else none

unfoldable pub own_values : Dict String String → Dict String String
unfolding without_prefix nat_eq
own_values [] = []
own_values ((key, value) ∷ variables) = elim (without_prefix "RMV2_" key) [
  | none ↦ own_values variables
  | some k ↦ (k, value) ∷ own_values variables
]

unfoldable pub from_env : Environment → Dict String String → Option Settings
unfolding own_values from_mapping
from_env env variables = from_mapping env (own_values variables)
