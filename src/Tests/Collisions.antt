-- ===== src/Tests/Collisions.antt =====
-- The aliases of a small catalog in the tables of a release, and a document that only the validation
-- takes.
use role_model_helper_v.Prelude.{
  ◌≡◌, refl, none, some, [], ◌∷◌, inl, inr, string_eq, list_eq, nat_eq, option_eq,
}
use role_model_helper_v.Prelude.Dict
use role_model_helper_v.Text.{codes, strip, upper}
use role_model_helper_v.Catalog.Bundle.{System, Document, unreadable, from_mapping}
use role_model_helper_v.Agent.Answers.{roles_answer}
use role_model_helper_v.Catalog.Normalization.{normalize_query}
use role_model_helper_v.Catalog.Validation.{
  validate_catalog, entries_fit, references_fit, aliases_fit, role_owners, add_roles, unique_from,
  profile_fits, access_fits, alias_fits,
}
use role_model_helper_v.Catalog.Releases.{refused, publish}
use role_model_helper_v.Catalog.Releases.Laws.{no_releases}
use role_model_helper_v.Catalog.Releases.Rows.{AliasRow, alias_rows, has_repeats}
use role_model_helper_v.Catalog.Releases.Rows.Laws.{StandsAlone, alias_rows-StandsAlone}
use role_model_helper_v.Catalog.Releases.Rows.Repeats.{publish_repeated_alias}
use role_model_helper_v.Tests.Data.{document, crm}

-- Two spellings of one alias.
abbrev twice : System
twice = record crm {
  aliases =
      record { value = "ab"; safety = some "SAFE" }
      ∷ record { value = "Ab"; safety = some "SAFE" }
      ∷ [];
}

abbrev repeating : Document
repeating = record document { systems = twice ∷ [] }

-- The document passes the validation, but cannot be published.
repeating_valid : validate_catalog repeating ≡ some repeating
unfolding validate_catalog entries_fit references_fit aliases_fit role_owners add_roles unique_from
    profile_fits access_fits alias_fits strip upper codes normalize_query Dict.get Dict.insert
    string_eq list_eq nat_eq option_eq
repeating_valid = refl

publish_repeated_alias_example : publish "sha" repeating no_releases ≡ (refused "v1", no_releases)
unfolding Dict.get has_repeats normalize_query codes strip string_eq list_eq nat_eq
publish_repeated_alias_example =
    publish_repeated_alias "sha" repeating no_releases refl (inr (inr (twice, inl refl, refl)))

abbrev once : System
once = record crm { aliases = record { value = "ab"; safety = some "SAFE" } ∷ [] }

abbrev aliased : Document
aliased = record document { systems = once ∷ [] }

abbrev row : AliasRow
row = record {
  entity_type = "system";
  entity_id = "crm";
  alias_raw = "ab";
  alias_normalized = 97 ∷ 98 ∷ [];
  safety = 83 ∷ 65 ∷ 70 ∷ 69 ∷ [];
  collision_count = 1;
}

alias_rows-StandsAlone_example : StandsAlone aliased row
unfolding alias_rows codes strip string_eq list_eq nat_eq normalize_query upper
alias_rows-StandsAlone_example = alias_rows-StandsAlone aliased row (inl refl) refl

-- A document with an access level that is no number passes the validation, but an answer about the
-- roles of its system raises.
abbrev unreadable_crm : System
unreadable_crm = record crm {
  roles = record { id = "r1"; name = "viewer"; access_level = unreadable } ∷ [];
}

abbrev unreadable_document : Document
unreadable_document = record document { systems = unreadable_crm ∷ [] }

unreadable_valid : validate_catalog unreadable_document ≡ some unreadable_document
unfolding validate_catalog entries_fit references_fit aliases_fit role_owners add_roles unique_from
    profile_fits access_fits alias_fits strip upper codes normalize_query Dict.get Dict.insert
    string_eq list_eq nat_eq option_eq
unreadable_valid = refl

unreadable_raises : roles_answer (from_mapping unreadable_document) "crm" ≡ none
unfolding roles_answer from_mapping Dict.get Dict.insert string_eq
unreadable_raises = refl
