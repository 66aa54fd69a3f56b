-- ===== src/Tests/Migrations.antt =====
-- The migrations of the runtime from nothing and from version 1.
use role_model_helper_v.Prelude.{
  true, false, ◌≡◌, refl, none, some, [], ◌∷◌, map, All, string_eq, list_eq, nat_eq,
}
use role_model_helper_v.Migrations.{Schema, migrated}
use role_model_helper_v.Migrations.Runtime.{MessageRow, Content, migrate, verify_ready}
use role_model_helper_v.Migrations.Runtime.Again.{migrate_again}
use role_model_helper_v.Migrations.Runtime.Backfill.{expected, IsBackfilled, migrate_backfills}

abbrev nothing : Schema Content
nothing = record {
  versions = [];
  content = record { messages = none; observed = false; granted = [] };
}

abbrev pub latest : Schema Content
latest = record {
  versions = 2 ∷ 1 ∷ [];
  content = record { messages = some []; observed = true; granted = "app" ∷ [] };
}

from_nothing : migrate "v2" "public" (some "app") nothing ≡ migrated latest (1 ∷ 2 ∷ [])
unfolding migrate string_eq nat_eq
from_nothing = refl

migrate_again_example :
    (verify_ready latest ≡ true) × (migrate "v2" "public" (some "app") latest ≡ migrated latest [])
migrate_again_example =
    migrate_again "v2" "public" (some "app") nothing latest (1 ∷ 2 ∷ []) from_nothing

-- A message whose response has no durations.
abbrev old_message : MessageRow
old_message = record {
  session_id = "s1";
  request_id = "q1";
  diagnostics = record {
    route = some "GIGACHAT_FALLBACK";
    outcome = none;
    gigachat_calls = some 1;
    total = none;
    gigachat = none;
  };
  columns = none;
}

abbrev old_content : Content
old_content = record { messages = some (old_message ∷ []); observed = false; granted = [] }

abbrev upgraded : Schema Content
upgraded = record {
  versions = 2 ∷ 1 ∷ [];
  content = record {
    messages = some (map expected (old_message ∷ []));
    observed = true;
    granted = [];
  };
}

from_version_1 :
    migrate "v2" "public" none (record { versions = 1 ∷ []; content = old_content })
    ≡ migrated upgraded (2 ∷ [])
unfolding migrate string_eq nat_eq
from_version_1 = refl

migrate_backfills_example :
    (upgraded.content.messages ≡ some (map expected (old_message ∷ [])))
    × All IsBackfilled (map expected (old_message ∷ []))
migrate_backfills_example =
    migrate_backfills "v2" "public" none old_content (old_message ∷ []) upgraded (2 ∷ []) refl
      from_version_1
