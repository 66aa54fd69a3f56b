-- ===== src/Catalog/Snapshot/References.antt =====
-- What is extracted from a snapshot passes the tests of references that `_validate_catalog` of
-- app/catalog/postgres.py makes.
use role_model_helper_v.Prelude.{
  ℕ, ◌≡◌, refl, String, Bool, true, some, List, [], ◌∷◌, map, nat_eq, string_eq, contains, all,
  all_mono, Option-cases, inl, inr, ap, option_eq, arith,
}
use role_model_helper_v.Prelude.Dict
use role_model_helper_v.Prelude.Dict.{Dict}
use role_model_helper_v.Prelude.Dict.Laws.{get_or-All}
use role_model_helper_v.Text.{Text}
use role_model_helper_v.Catalog.Bundle.{DepartmentEntry, PositionEntry, System, Document}
use role_model_helper_v.Catalog.Validation.{
  role_owners, references_fit, profile_fits, access_fits, refers,
}
use role_model_helper_v.Catalog.Validation.Owners.{role_owners-owns, holds_role}
use role_model_helper_v.Catalog.Snapshot.Rows.{ProfileRow, Snapshot}
use role_model_helper_v.Catalog.Snapshot.Access.{Accesses}
use role_model_helper_v.Catalog.Snapshot.Access.Laws.{
  Granted, AllGranted, IsGranted, add_accesses-IsGranted,
}
use role_model_helper_v.Catalog.Snapshot.Entries.{Departments, Positions}
use role_model_helper_v.Catalog.Snapshot.Entries.Laws.{
  IsListed, ids-Keyed, add_departments-IsListed, add_positions-IsListed, system_ids-known,
}
use role_model_helper_v.Catalog.Snapshot.{
  ExtractedCatalog, extracted, access_of, profile_entry, departments_of, positions_of, accesses_of,
  document_of, cities_of, build_document,
}

module _ (ss : List System) (owners : Dict String String)
    (made : role_owners ss [] ≡ some owners) where
  abbrev system_ids_of : List String
  system_ids_of = map (λ (s : System). s.id) ss

  access_fits-Granted :
      (sid : String) (ids : List String)
      → Granted ss sid ids
      → access_fits system_ids_of owners (record { system_id = sid; role_ids = ids }) ≡ true
  unfolding access_fits
  access_fits-Granted sid ids (there, held) = rw there (
      all_mono (λ id. holds_role sid id ss) _ ids
        (λ id h. ground (arith, role_owners-owns ss [] owners sid id h made)) held)

  all-access_of :
      (granted : Dict String (List String))
      → AllGranted ss granted
      → all (access_fits system_ids_of owners) (access_of granted) ≡ true
  unfolding access_of
  all-access_of [] h = refl
  all-access_of ((sid, ids) ∷ granted) (p, h) =
      rw (access_fits-Granted sid ids p, all-access_of granted h)

module _ (digest : Text → Text) (raw : Snapshot) (accesses : Accesses)
    (made : accesses_of digest raw ≡ some accesses) where
  accesses-IsGranted : IsGranted accesses.systems accesses.by_profile
  unfolding accesses_of
  accesses-IsGranted =
      add_accesses-IsGranted _ _ raw.accesses (system_ids-known digest _ raw.systems) tt made

  abbrev departments : Departments
  departments = departments_of digest raw

  abbrev positions : Positions
  positions = positions_of digest raw

  departments-IsListed :
      IsListed (λ (e : DepartmentEntry). e.id) departments.entries departments.by_profile
  unfolding departments_of
  departments-IsListed =
      add_departments-IsListed digest _ _ _ raw.departments (record { keyed = tt; listed = tt })

  positions-IsListed : IsListed (λ (e : PositionEntry). e.id) positions.entries positions.by_profile
  unfolding positions_of
  positions-IsListed =
      add_positions-IsListed digest _ raw.positions (record { keyed = tt; listed = tt })

  collected :
      {V : Type 0} (ident : V → String) (entries : Dict String V)
      (by_profile : Dict ℕ (List String)) (id : ℕ)
      → IsListed ident entries by_profile
      → refers (map ident (Dict.values entries)) (Dict.get_or by_profile id []) ≡ true
  collected ident entries by_profile id l = rw (ids-Keyed ident entries l.keyed) (
      get_or-All (λ _ ids. all (contains (Dict.keys entries)) ids ≡ true) by_profile id [] l.listed
        refl)

  module _ (owners : Dict String String)
      (owned : role_owners accesses.systems [] ≡ some owners) where
    abbrev fits : ProfileRow → Bool
    fits row =
        profile_fits (map (λ (e : DepartmentEntry). e.id) (Dict.values departments.entries))
          (map (λ (e : PositionEntry). e.id) (Dict.values positions.entries))
          (map (λ (s : System). s.id) accesses.systems) owners
          (profile_entry digest (cities_of raw) departments positions accesses row)

    profile_entry_fits : (row : ProfileRow) → fits row ≡ true
    unfolding profile_fits profile_entry
    profile_entry_fits row =
        rw
          (
            collected (λ (e : DepartmentEntry). e.id) departments.entries departments.by_profile
                row.id departments-IsListed,
            collected (λ (e : PositionEntry). e.id) positions.entries positions.by_profile row.id
                positions-IsListed,
          )
          (all-access_of accesses.systems owners owned (Dict.get_or accesses.by_profile row.id []) (
            get_or-All (λ _ v. AllGranted accesses.systems v) accesses.by_profile row.id []
              accesses-IsGranted tt))

    all_fit :
        (rows : List ProfileRow)
        → all
            (profile_fits
              (map (λ (e : DepartmentEntry). e.id) (Dict.values departments.entries))
              (map (λ (e : PositionEntry). e.id) (Dict.values positions.entries))
              (map (λ (s : System). s.id) accesses.systems)
              owners)
            (map (profile_entry digest (cities_of raw) departments positions accesses) rows)
          ≡ true
    all_fit [] = refl
    all_fit (row ∷ rows) = rw (profile_entry_fits row, all_fit rows)

    document_of-references : references_fit (document_of digest raw accesses) owners ≡ true
    unfolding references_fit document_of
    document_of-references = rw (all_fit raw.profiles)

pub build_document_of_accesses :
    (digest : Text → Text) (raw : Snapshot) (accesses : Accesses)
    → accesses_of digest raw ≡ some accesses
    → build_document digest raw
      ≡ extracted (record {
        document = document_of digest raw accesses;
        source_sha256 = raw.source_sha256;
        snapshot_id = raw.id;
      })
unfolding build_document
build_document_of_accesses digest raw accesses made = rw (made, build_document)

-- Where the roles of an extracted document pass the validation's own test of roles (each has an id
-- and a name that are not blank, and no id is there twice), the document passes every test of
-- references of the validation: the departments, positions and systems of each profile are there,
-- and each granted role is one of the system under which it is granted.
pub build_document-references :
    (digest : Text → Text) (raw : Snapshot) (c : ExtractedCatalog) (owners : Dict String String)
    → build_document digest raw ≡ extracted c
    → role_owners c.document.systems [] ≡ some owners
    → references_fit c.document owners ≡ true
unfolding build_document document_of
build_document-references digest raw c owners e owned =
    elim (Option-cases (accesses_of digest raw)) [
      | inl missing ↦ cc (rw (missing, build_document) at e)
      | inr (accesses, made) ↦
          let same : c.document ≡ document_of digest raw accesses = ground (arith, made) in
          rw same (
            document_of-references digest raw accesses made owners
              (rw (ap (λ (d : Document). d.systems) same) at owned))
    ]
