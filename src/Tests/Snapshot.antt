-- ===== src/Tests/Snapshot.antt =====
-- The extraction of a small snapshot.
use role_model_helper_v.Prelude.{
  true, false, ◌≡◌, refl, none, some, List, [], ◌∷◌, ◌↔◌, String, nat_eq, list_eq, string_eq,
  option_eq, pair_eq,
}
use role_model_helper_v.Catalog.Bundle.{at_level}
use role_model_helper_v.Prelude.Dict
use role_model_helper_v.Prelude.Dict.{Dict}
use role_model_helper_v.Text.{Text, codes, lower, strip}
use role_model_helper_v.Catalog.Normalization.{normalize_query}
use role_model_helper_v.Catalog.Validation.{role_owners, references_fit, unique_from, add_roles}
use role_model_helper_v.Catalog.Snapshot.Rows.{AliasRow, Snapshot}
use role_model_helper_v.Catalog.Snapshot.City.{named_city, extract_city, is_city_letter}
use role_model_helper_v.Catalog.Snapshot.City.Search.{city_after_letter, city_from_lem}
use role_model_helper_v.Catalog.Snapshot.City.{city_from}
use role_model_helper_v.Catalog.Snapshot.City.Laws.{extract_city_lem}
use role_model_helper_v.Catalog.Snapshot.Access.{Accesses}
use role_model_helper_v.Catalog.Snapshot.Aliases.{system_aliases}
use role_model_helper_v.Catalog.Snapshot.Aliases.Laws.{alias_at, is_safe}
use role_model_helper_v.Catalog.Snapshot.Aliases.Safe.{IsSafeRow, system_aliases-is_safe}
use role_model_helper_v.Catalog.Snapshot.Errors.{flaw_of}
use role_model_helper_v.Catalog.Snapshot.References.{
  build_document_of_accesses, build_document-references,
}
use role_model_helper_v.Catalog.Snapshot.{
  ExtractedCatalog, extracted, document_of, accesses_of, build_document, version_of,
}

abbrev aliases_read : List AliasRow
aliases_read =
    record { system_id = 7; alias_text = "Крм"; alias_class = some "ambiguous" }
    ∷ record { system_id = 7; alias_text = "КРМ"; alias_class = some "safe" }
    ∷ record { system_id = 7; alias_text = "все"; alias_class = some "unsafe" }
    ∷ []

abbrev snapshot : Snapshot
snapshot = record {
  id = 3;
  source_sha256 = "00ff";
  systems = record { id = 7; system_name_raw = "CRM"; ci_code = some "CI 7" } ∷ [];
  aliases = aliases_read;
  department_aliases = [];
  profiles = record { id = 1; profile_code = some "P1"; profile_name = "Менеджер" } ∷ [];
  segments = record { profile_id = 1; segment_name = some "г. Томск" } ∷ [];
  departments =
      record { profile_id = 1; department_name = "Отдел"; department_code = some "D1" } ∷ [];
  positions = record { profile_id = 1; position_name = "Руководитель"; position_code = none } ∷ [];
  accesses =
      record {
        profile_id = 1;
        access_level = 2;
        entitlement_id = 5;
        source_col = 14;
        entitlement_type = none;
        entitlement_name = some " Чтение ";
        system_id = 7;
      }
      ∷ [];
}

abbrev digest : Text → Text
digest s = codes "00112233445566778899aabb"

abbrev accesses : Accesses
accesses = record {
  role_ids = ((7, (5, 2)), "role:system:ci-7:14:level:2") ∷ [];
  systems =
      record {
        id = "system:ci-7";
        name = "CRM";
        aliases = record { value = "КРМ"; safety = some "SAFE" } ∷ [];
        roles =
            record {
              id = "role:system:ci-7:14:level:2";
              name = "Чтение";
              access_level = at_level 2;
            }
            ∷ [];
      }
      ∷ [];
  by_profile = (1, ("system:ci-7", "role:system:ci-7:14:level:2" ∷ []) ∷ []) ∷ [];
}

accesses_of-snapshot : accesses_of digest snapshot ≡ some accesses
unfolding accesses_of codes list_eq nat_eq string_eq option_eq pair_eq Dict.insert Dict.values
accesses_of-snapshot = refl

version_of-snapshot : version_of snapshot ≡ "v1-snapshot-3-00ff"
unfolding version_of codes list_eq nat_eq
version_of-snapshot = refl

extract_city_dotted : extract_city (codes "г. санкт-петербург, офис") ≡ codes "Санкт-Петербург"
unfolding extract_city codes list_eq lower is_city_letter
extract_city_dotted = refl

extract_city_group : extract_city (codes "Группа продаж") ≡ codes "Руппа"
unfolding extract_city codes list_eq lower is_city_letter
extract_city_group = refl

extract_city_number : extract_city (codes "Отдел 4") ≡ []
unfolding extract_city codes list_eq lower
extract_city_number = refl

named_city_gorod : named_city (codes "ород") ≡ codes "Ород"
unfolding named_city codes lower nat_eq
named_city_gorod = refl

-- The word город is not skipped: its other letters are taken for the name.
extract_gorod : extract_city (codes "город Москва") ≡ named_city (codes "ород")
unfolding codes lower nat_eq list_eq is_city_letter
extract_gorod =
    extract_city_lem [] 0x43E (codes "род") (codes " Москва") tt (refl, (refl, (refl, (refl, tt))))
      refl 0x433 false refl

city_from_lem_example :
    city_from false (codes "Территориальный банк, г. Самара")
    ≡ city_after_letter false (codes "Территориальный банк, г. Самара")
city_from_lem_example = city_from_lem false (codes "Территориальный банк, г. Самара")

system_aliases-is_safe_example :
    (is_safe (alias_at (system_aliases [] aliases_read) 7 (normalize_query (codes "КРМ"))) ≡ true)
    ↔ ((r : AliasRow) × IsSafeRow aliases_read 7 (normalize_query (codes "КРМ")) r)
system_aliases-is_safe_example =
    system_aliases-is_safe aliases_read 7 (normalize_query (codes "КРМ"))

flaw_of-snapshot : flaw_of (some snapshot) ≡ none
unfolding nat_eq string_eq strip
flaw_of-snapshot = refl

abbrev catalog : ExtractedCatalog
catalog = record {
  document = document_of digest snapshot accesses;
  source_sha256 = "00ff";
  snapshot_id = 3;
}

build_document_of_snapshot : build_document digest snapshot ≡ extracted catalog
build_document_of_snapshot =
    build_document_of_accesses digest snapshot accesses accesses_of-snapshot

abbrev owners : Dict String String
owners = ("role:system:ci-7:14:level:2", "system:ci-7") ∷ []

role_owners_of_catalog : role_owners catalog.document.systems [] ≡ some owners
unfolding role_owners document_of string_eq strip unique_from add_roles
role_owners_of_catalog = refl

build_document-references_example : references_fit catalog.document owners ≡ true
build_document-references_example =
    build_document-references digest snapshot catalog owners build_document_of_snapshot
      role_owners_of_catalog
