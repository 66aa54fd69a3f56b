-- ===== src/Tests/Settings.antt =====
-- The settings of an empty environment, in a home directory.
use role_model_helper_v.Prelude.{
  ℕ, ◌≡◌, refl, ◌↔◌, none, some, [], ◌∷◌, String, Option, string_eq, list_eq, nat_eq, true,
  if◌then◌else◌, ◌==◌,
}
use role_model_helper_v.Prelude.Dict
use role_model_helper_v.Score.{plus, fraction}
use role_model_helper_v.Text.{codes}
use role_model_helper_v.Settings.{Settings, Environment, from_env, collisions}
use role_model_helper_v.Settings.Laws.{IsPermitted, collisions-nil}

abbrev environment : Environment
environment = record {
  home = "/home/v2";
  expanduser = λ s. s;
  resolve = λ s. s;
  int_of = λ s. some 8001;
  float_of = λ s. some (plus (fraction 5 1));
}

abbrev pub settings : Settings
settings = record {
  host = "127.0.0.1";
  port = 8001;
  install_dir = "/home/v2/RoleModelHelperV2";
  service_name = "rolemodel-helper-v2.service";
  database_dsn = "postgresql:///rolemodel";
  migration_dsn = none;
  database_app_role = none;
  state_schema = "rolemodel_v2_runtime";
  v1_port = 8000;
  v1_install_dir = "/home/v2/RoleModelHelper2";
  v1_service_name = "rolemodel-helper.service";
  v1_state_schema = "public";
  tls_verify = true;
  catalog_backend = "postgres";
  catalog_dsn = none;
  catalog_schema = "rolemodel_v2_catalog";
  catalog_reader_role = none;
  catalog_writer_role = none;
  catalog_import_dsn = none;
  v1_catalog_schema = "public";
  catalog_path = none;
  catalog_version = none;
  catalog_refresh_seconds = plus (fraction 5 1);
  gigachat_endpoint = "https://gigachat.devices.sberbank.ru/api/v1/chat/completions";
  gigachat_auth_url = "https://ngw.devices.sberbank.ru:9443/api/v2/oauth";
  gigachat_scope = "GIGACHAT_API_PERS";
  gigachat_model = "GigaChat-2-Max";
  gigachat_access_token = none;
  gigachat_auth_key = none;
  gigachat_client_id = none;
  gigachat_client_secret = none;
  gigachat_cert_file = none;
  gigachat_key_file = none;
  gigachat_ca_bundle = none;
  planner_deadline_ms = 12000;
}

default_int : String → Option ℕ
default_int text =
    if text == "8001" then some 8001 else if text == "8000" then some 8000 else some 12000

default_settings :
    from_env
      (record environment { int_of = default_int })
      (("RMV2_TLS_VERIFY", "yes") ∷ ("HOME", "/") ∷ [])
    ≡ some settings
unfolding from_env default_int string_eq list_eq nat_eq codes Dict.get
default_settings = refl

settings_isolated : collisions (λ s. s) settings ≡ []
unfolding collisions string_eq nat_eq codes
settings_isolated = refl

collisions-nil_example : (collisions (λ s. s) settings ≡ []) ↔ IsPermitted (λ s. s) settings
collisions-nil_example = collisions-nil settings (λ s. s)
