-- ===== src/Catalog/Bundle.antt =====
-- `CatalogBundle` of app/catalog/cache.py. A document is read as the records below: a field that
-- the program reads by `.get` is an `Option`, and a list that may be missing is the empty list.
pub mod Laws
use role_model_helper_v.Prelude.{
  ℕ, String, Bool, true, false, all, Option, none, some, List, [], ◌∷◌, ◌++◌, map, string_eq, ◌==◌,
  if◌then◌else◌,
}
use role_model_helper_v.Prelude.Dict
use role_model_helper_v.Prelude.Dict.{Dict}
use role_model_helper_v.Text.{Text, codes}
use role_model_helper_v.Catalog.Normalization.{normalize_query, parse_department_number}
use mathlib.Core.Option.{get_or}

pub record Alias : Type 0 where
  pub value : String
  pub safety : Option String

-- The access level of a role: missing or empty, a number for `int`, or a value that `int` refuses.
pub data AccessLevel : Type 0 where
  no_level unreadable : AccessLevel
  at_level : ℕ → AccessLevel

abbrev pub is_readable : AccessLevel → Bool
is_readable no_level = true
is_readable (at_level n) = true
is_readable unreadable = false

pub record Role : Type 0 where
  pub id : String
  pub name : String
  pub access_level : AccessLevel

abbrev pub has_levels : List Role → Bool
has_levels = all (λ (r : Role). is_readable r.access_level)

pub record System : Type 0 where
  pub id : String
  pub name : String
  pub aliases : List Alias
  pub roles : List Role

pub record Access : Type 0 where
  pub system_id : String
  pub role_ids : List String

pub record Instruction : Type 0 where
  pub id : String
  pub title : Option String
  pub system_id : Option String
  pub citation : Option String

-- The parts of a catalog document that the bundle completes.
pub record DepartmentEntry : Type 0 where
  pub id : String
  pub name : String
  pub city : Option String
  pub aliases : List Alias

pub record PositionEntry : Type 0 where
  pub id : String
  pub name : String
  pub aliases : List Alias

pub record ProfileEntry : Type 0 where
  pub id : String
  pub name : Option String
  pub city : Option String
  pub department_ids : List String
  pub position_ids : List String
  pub access : List Access

pub record Document : Type 0 where
  pub version : String
  pub systems : List System
  pub departments : List DepartmentEntry
  pub positions : List PositionEntry
  pub profiles : List ProfileEntry
  pub instructions : List Instruction

pub record Department : Type 0 where
  pub id : String
  pub name : String
  pub city : String
  pub normalized_name : Text
  pub normalized_city : Text
  pub number : Option ℕ
  pub aliases : List Alias

pub record Position : Type 0 where
  pub id : String
  pub name : String
  pub normalized_name : Text
  pub aliases : List Alias

pub record Profile : Type 0 where
  pub id : String
  pub name : String
  pub city : String
  pub normalized_city : Text
  pub department_ids : List String
  pub position_ids : List String
  pub access : List Access

pub record CatalogBundle : Type 0 where
  pub version : String
  pub systems : Dict String System
  pub departments : List Department
  pub positions : List Position
  pub profiles : Dict String Profile
  pub instructions : List Instruction
  pub role_ids : List String

-- `str(x or "")`
abbrev pub or_empty : Option String → String
or_empty none = ""
or_empty (some s) = s

unfoldable pub department_of : DepartmentEntry → Department
department_of raw =
    let city = or_empty raw.city in
    record {
      id = raw.id;
      name = raw.name;
      city = city;
      normalized_name = normalize_query (codes raw.name);
      normalized_city = normalize_query (codes city);
      number = parse_department_number (codes raw.name);
      aliases = raw.aliases;
    }

unfoldable pub position_of : PositionEntry → Position
position_of raw = record {
  id = raw.id;
  name = raw.name;
  normalized_name = normalize_query (codes raw.name);
  aliases = raw.aliases;
}

-- `raw_profile.get("name") or raw_profile["id"]`
or_id : Option String → String → String
or_id none id = id
or_id (some name) id = if name == "" then id else name

unfoldable pub profile_of : ProfileEntry → Profile
unfolding or_id
profile_of raw =
    let city = or_empty raw.city in
    record {
      id = raw.id;
      name = or_id raw.name raw.id;
      city = city;
      normalized_city = normalize_query (codes city);
      department_ids = raw.department_ids;
      position_ids = raw.position_ids;
      access = raw.access;
    }

-- The loops over `systems` and `profiles`: a later entry with the same id takes the place.
unfoldable pub index_systems : Dict String System → List System → Dict String System
index_systems d [] = d
index_systems d (s ∷ systems) = index_systems (Dict.insert s.id s d) systems

unfoldable pub index_profiles : Dict String Profile → List ProfileEntry → Dict String Profile
unfolding profile_of
index_profiles d [] = d
index_profiles d (raw ∷ profiles) =
    let profile = profile_of raw in index_profiles (Dict.insert profile.id profile d) profiles

unfoldable pub all_role_ids : List System → List String
all_role_ids [] = []
all_role_ids (s ∷ systems) = map (λ (r : Role). r.id) s.roles ++ all_role_ids systems

-- `CatalogBundle.from_mapping`. The set of role ids is a list, which may name one twice.
unfoldable pub from_mapping : Document → CatalogBundle
unfolding department_of position_of index_systems index_profiles all_role_ids
from_mapping payload = record {
  version = payload.version;
  systems = index_systems [] payload.systems;
  departments = map department_of payload.departments;
  positions = map position_of payload.positions;
  profiles = index_profiles [] payload.profiles;
  instructions = payload.instructions;
  role_ids = all_role_ids payload.systems;
}
