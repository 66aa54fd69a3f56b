-- ===== src/Catalog/Snapshot/Errors.antt =====
-- When the extraction of a snapshot fails.
use role_model_helper_v.Prelude.{
  ℕ, ◌≡◌, refl, String, Bool, true, false, ◌||◌, Option, none, some, List, [], ◌∷◌, ◌==◌, nat_eq,
  string_eq, ==-cases, if◌then◌else◌, ◌∙◌, map, contains, all, Option-cases, inl, inr, arith,
}
use role_model_helper_v.Prelude.Dict
use role_model_helper_v.Prelude.Dict.{Dict}
use role_model_helper_v.Text.{Text, strip}
use role_model_helper_v.Catalog.Snapshot.Rows.{SystemRow, AccessRow, Snapshot}
use role_model_helper_v.Catalog.Snapshot.Access.{Accesses, add_access, add_accesses}
use role_model_helper_v.Catalog.Snapshot.Entries.{system_ids, system_id_of}
use role_model_helper_v.Catalog.Snapshot.{
  ExtractionError, no_active_snapshot, no_source_hash, missing_system, Extraction, extracted,
  failed, accesses_of, build_document, extract,
}

-- The rows of access name systems of the snapshot.
abbrev pub names_systems : Snapshot → Bool
names_systems raw =
    all (λ (row : AccessRow). contains (map (λ (s : SystemRow). s.id) raw.systems) row.system_id)
      raw.accesses

is_found {ℓ} : {A : Type ℓ} → Option A → Bool
is_found none = false
is_found (some _) = true

module _ (digest : Text → Text) where
  system_ids-is_found :
      (ids : Dict ℕ String) (rows : List SystemRow) (k : ℕ)
      → is_found (Dict.get (system_ids digest ids rows) k)
        ≡ (is_found (Dict.get ids k) || contains (map (λ (s : SystemRow). s.id) rows) k)
  unfolding system_ids is_found
  system_ids-is_found ids [] k = ground arith
  system_ids-is_found ids (row ∷ rows) k = ground (
    arith,
    system_ids-is_found (Dict.insert row.id (system_id_of digest row) ids) rows k,
    Dict.get-insert ids row.id k (system_id_of digest row),
  )

add_accesses-is_found :
    (ids : Dict ℕ String) (made : Accesses) (rows : List AccessRow)
    → is_found (add_accesses ids made rows)
      ≡ all (λ (row : AccessRow). is_found (Dict.get ids row.system_id)) rows
unfolding add_accesses is_found
add_accesses-is_found ids made [] = refl
add_accesses-is_found ids made (row ∷ rows) = elim (Option-cases (Dict.get ids row.system_id)) [
  | inl missing ↦ rw (missing, add_accesses, is_found)
  | inr (sid, found) ↦
      rw (found, add_accesses, is_found) (add_accesses-is_found ids (add_access sid row made) rows)
]

abbrev pub error_of : Extraction → Option ExtractionError
error_of (extracted c) = none
error_of (failed e) = some e

-- What is wrong with the active snapshot, in the order in which it is looked at.
abbrev pub flaw_of : Option Snapshot → Option ExtractionError
flaw_of none = some no_active_snapshot
flaw_of (some raw) =
    if strip raw.source_sha256 == ""
    then some no_source_hash
    else if names_systems raw
    then none
    else some missing_system

module _ (digest : Text → Text) where
  all-is_found :
      (raw : Snapshot) (rows : List AccessRow)
      → all
          (λ (row : AccessRow).
            is_found (Dict.get (system_ids digest [] raw.systems) row.system_id))
          rows
        ≡ all
            (λ (row : AccessRow).
              contains (map (λ (s : SystemRow). s.id) raw.systems) row.system_id)
            rows
  unfolding is_found Dict.get
  all-is_found raw [] = refl
  all-is_found raw (row ∷ rows) =
      rw (all-is_found raw rows, system_ids-is_found digest [] raw.systems row.system_id)

  accesses_of-is_found : (raw : Snapshot) → is_found (accesses_of digest raw) ≡ names_systems raw
  unfolding accesses_of
  accesses_of-is_found raw =
      add_accesses-is_found (system_ids digest [] raw.systems) _ raw.accesses
      ∙ all-is_found raw raw.accesses

  build_document-error :
      (raw : Snapshot)
      → error_of (build_document digest raw)
        ≡ (if names_systems raw then none else some missing_system)
  unfolding build_document is_found
  build_document-error raw = elim (Option-cases (accesses_of digest raw)) [
    | inl missing ↦ rw (← accesses_of-is_found raw) (rw (missing, build_document))
    | inr (made, found) ↦ rw (← accesses_of-is_found raw) (rw (found, build_document))
  ]

-- The extraction fails with no active snapshot, with a blank hash of its source, or with an access
-- row that names no system of the snapshot, whichever comes first, and otherwise succeeds.
pub extract-error :
    (digest : Text → Text) (active : Option Snapshot)
    → error_of (extract digest active) ≡ flaw_of active
unfolding extract
extract-error digest none = refl
extract-error digest (some raw) = elim (==-cases (strip raw.source_sha256) "") [
  | inl (same, blank) ↦ rw (blank, extract)
  | inr there ↦
      rw there
        (build_document-error digest (record raw { source_sha256 = strip raw.source_sha256 }))
]
