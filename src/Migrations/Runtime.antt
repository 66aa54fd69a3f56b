-- ===== src/Migrations/Runtime.antt =====
-- `PostgresMigrator` of app/runtime/postgres.py, and `verify_ready` of `PostgresStateStore`. The
-- tables are those that the statements of the two versions make; of a message only the columns that
-- version 2 computes with are kept.
pub mod Again
pub mod Backfill
use mathlib.Core.Option
use role_model_helper_v.Prelude.{
  ℕ, zero, suc, String, Bool, true, false, not, ◌&&◌, ◌||◌, Option, none, some, List, [], ◌∷◌, ◌++◌,
  ◌==◌, nat_eq, string_eq, leb, contains, all, map, if◌then◌else◌,
}
use role_model_helper_v.Score.{Float, nan, minus, plus, fraction}
use role_model_helper_v.Migrations.{
  Schema, Steps, Migration, migrated, not_migrated, run, granted, with_role, is_ready,
}

-- The diagnostics of a stored response: what `#>>` finds, or null.
pub record StoredDiagnostics : Type 0 where
  pub route : Option String
  pub outcome : Option String
  pub gigachat_calls : Option ℕ
  pub total : Option Float
  pub gigachat : Option Float

-- The columns of version 2.
pub record Columns : Type 0 where
  pub route : String
  pub outcome : String
  pub gigachat_calls : ℕ
  pub total_ms : Float
  pub gigachat_ms : Float

pub record MessageRow : Type 0 where
  pub session_id : String
  pub request_id : String
  pub diagnostics : StoredDiagnostics
  pub columns : Option Columns

-- `turn_message`, if it is there, and the roles that may use the tables.
pub record Content : Type 0 where
  pub messages : Option (List MessageRow)
  pub observed : Bool
  pub granted : List String

-- `_apply_version_1`: the tables must not be there.
unfoldable pub apply_version_1 : Content → Option Content
apply_version_1 c = elim c.messages [
  | some rows ↦ none
  | none ↦ some (record c { messages = some []; observed = false })
]

abbrev zero_ms : Float
zero_ms = plus (fraction 0 1)

-- The `UPDATE` with its `coalesce`s.
unfoldable pub columns_of : StoredDiagnostics → Columns
columns_of d = record {
  route = Option.get_or d.route "DETERMINISTIC";
  outcome = Option.get_or d.outcome "HANDLED";
  gigachat_calls = Option.get_or d.gigachat_calls 0;
  total_ms = Option.get_or d.total zero_ms;
  gigachat_ms = Option.get_or d.gigachat zero_ms;
}

-- `x >= 0`, where PostgreSQL takes NaN for the greatest value.
abbrev pub not_negative : Float → Bool
not_negative nan = true
not_negative (minus a) = a.num == 0
not_negative (plus a) = true

-- The `CHECK` constraints.
unfoldable pub fits : Columns → Bool
fits c =
    contains ("DETERMINISTIC" ∷ "GIGACHAT_FALLBACK" ∷ []) c.route
    && (contains ("HANDLED" ∷ "NEEDS_CLARIFICATION" ∷ "PROVIDER_FAILURE" ∷ []) c.outcome
        && (leb c.gigachat_calls 1 && (not_negative c.total_ms && not_negative c.gigachat_ms)))

unfoldable pub backfill : MessageRow → MessageRow
unfolding columns_of
backfill row = record row { columns = some (columns_of row.diagnostics) }

-- `_apply_version_2`: the table must be there without the columns, and every row must pass.
unfoldable pub apply_version_2 : Content → Option Content
unfolding backfill fits columns_of
apply_version_2 c = elim c.messages [
  | none ↦ none
  | some rows ↦
      if c.observed || not (all (λ (row : MessageRow). fits (columns_of row.diagnostics)) rows)
      then none
      else some (record c { messages = some (map backfill rows); observed = true })
]

-- `LATEST_SCHEMA_VERSION`
abbrev pub latest_schema_version : ℕ
latest_schema_version = 2

unfoldable pub steps : Steps Content
unfolding apply_version_1 apply_version_2
steps = (1, apply_version_1) ∷ (2, apply_version_2) ∷ []

-- `_grant_runtime_permissions`, for a role that has a name
unfoldable pub grant : Option String → Schema Content → Schema Content
unfolding with_role
grant role s = record s {
  content = record s.content { granted = with_role role s.content.granted };
}

-- `migrate`: the grants are part of the transaction.
unfoldable pub migrate : String → String → Option String → Schema Content → Migration Content
unfolding steps run grant granted
migrate name v1_name app_role s =
    granted (grant app_role) (run latest_schema_version steps name v1_name s)

-- `PostgresStateStore.verify_ready`
unfoldable pub verify_ready : Schema Content → Bool
unfolding is_ready
verify_ready = is_ready latest_schema_version
