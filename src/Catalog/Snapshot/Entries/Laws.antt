-- ===== src/Catalog/Snapshot/Entries/Laws.antt =====
-- The departments and the positions that the profiles of a snapshot are given are entries, and the
-- ids of the systems are found.
use role_model_helper_v.Prelude.{
  ℕ, ◌≡◌, refl, ap, String, true, List, [], ◌∷◌, map, nat_eq, string_eq, contains, all, All,
  all_mono, All_mono, arith,
}
use role_model_helper_v.Prelude.Dict
use role_model_helper_v.Prelude.Dict.{Dict}
use role_model_helper_v.Prelude.Dict.Laws.{
  insert-All, set_default-All, contains-keys-set_default, contains-keys-set_default_other,
}
use role_model_helper_v.Text.{Text}
use role_model_helper_v.Catalog.Bundle.{Alias, DepartmentEntry, PositionEntry, System}
use role_model_helper_v.Catalog.Snapshot.Rows.{SystemRow, DepartmentRow, PositionRow, append_unique}
use role_model_helper_v.Catalog.Snapshot.Rows.Laws.{append_unique-All}
use role_model_helper_v.Catalog.Snapshot.Access.{has_system}
use role_model_helper_v.Catalog.Snapshot.Entries.{
  Departments, Positions, add_department, add_departments, add_position, add_positions,
  system_id_of, system_ids, bare_systems,
}

-- Every id that a profile has collected is the key of an entry.
abbrev pub Listed {ℓ} : {V : Type ℓ} → Dict String V → Dict ℕ (List String) → Type 0
Listed entries = All (λ b. all (contains (Dict.keys entries)) b.1 ≡ true)

module _ {ℓ} {V : Type ℓ} (entries : Dict String V) (by_profile : Dict ℕ (List String))
    (id : String) (v : V) where
  Listed-append_unique :
      (profile : ℕ)
      → Listed entries by_profile
      → Listed (Dict.set_default id v entries) (append_unique by_profile profile id)
  Listed-append_unique profile h =
      append_unique-All (contains (Dict.keys (Dict.set_default id v entries))) by_profile profile id
        (All_mono _ _ by_profile
          (λ b. all_mono _ _ b.1 (λ j. contains-keys-set_default_other entries id j v)) h)
        (contains-keys-set_default entries id v)

-- An entry stands under its own id.
abbrev pub Keyed {ℓ} : {V : Type ℓ} → (V → String) → Dict String V → Type 0
Keyed ident = All (λ b. ident b.1 ≡ b.0)

pub ids-Keyed {ℓ} :
    {V : Type ℓ} (ident : V → String) (d : Dict String V)
    → Keyed ident d
    → map ident (Dict.values d) ≡ Dict.keys d
unfolding Dict.values Dict.keys
ids-Keyed ident [] h = refl
ids-Keyed ident ((j, w) ∷ d) (e, h) = rw (e, ids-Keyed ident d h)

pub record IsListed {ℓ} {V : Type ℓ} (ident : V → String) (entries : Dict String V)
    (by_profile : Dict ℕ (List String)) : Type 0 where
  pub keyed : Keyed ident entries
  pub listed : Listed entries by_profile

module _ (digest : Text → Text) where
  pub add_departments-IsListed :
      (cities : Dict ℕ String) (aliases : Dict String (Dict Text Alias)) (made : Departments)
      (rows : List DepartmentRow)
      → IsListed (λ (e : DepartmentEntry). e.id) made.entries made.by_profile
      → let out = add_departments digest cities aliases made rows in
        IsListed (λ (e : DepartmentEntry). e.id) out.entries out.by_profile
  unfolding add_departments add_department
  add_departments-IsListed cities aliases made [] h = h
  add_departments-IsListed cities aliases made (row ∷ rows) h =
      add_departments-IsListed cities aliases (add_department digest cities aliases row made) rows
        (record {
          keyed =
              set_default-All (λ j (e : DepartmentEntry). e.id ≡ j) made.entries _ _ h.keyed refl;
          listed = Listed-append_unique made.entries made.by_profile _ _ row.profile_id h.listed;
        })

  pub add_positions-IsListed :
      (made : Positions) (rows : List PositionRow)
      → IsListed (λ (e : PositionEntry). e.id) made.entries made.by_profile
      → let out = add_positions digest made rows in
        IsListed (λ (e : PositionEntry). e.id) out.entries out.by_profile
  unfolding add_positions add_position
  add_positions-IsListed made [] h = h
  add_positions-IsListed made (row ∷ rows) h =
      add_positions-IsListed (add_position digest row made) rows (record {
        keyed = set_default-All (λ j (e : PositionEntry). e.id ≡ j) made.entries _ _ h.keyed refl;
        listed = Listed-append_unique made.entries made.by_profile _ _ row.profile_id h.listed;
      })

  -- The id of every row is the id of a system.
  abbrev RowsKnown : List String → List SystemRow → Type 0
  RowsKnown ids = All (λ row. contains ids (system_id_of digest row) ≡ true)

  RowsKnown-cons :
      (ids : List String) (id : String) (rows : List SystemRow)
      → RowsKnown ids rows
      → RowsKnown (id ∷ ids) rows
  RowsKnown-cons ids id rows = All_mono _ _ rows λ row h. ground (arith, h)

  RowsKnown-self : (rows : List SystemRow) → RowsKnown (map (system_id_of digest) rows) rows
  RowsKnown-self [] = tt
  RowsKnown-self (row ∷ rows) = (ground arith, RowsKnown-cons _ _ rows (RowsKnown-self rows))

  bare_systems-ids :
      (aliases : Dict ℕ (Dict Text Alias)) (rows : List SystemRow)
      → map (λ (s : System). s.id) (bare_systems digest aliases rows)
        ≡ map (system_id_of digest) rows
  unfolding bare_systems
  bare_systems-ids aliases [] = refl
  bare_systems-ids aliases (row ∷ rows) =
      ap (λ ids. system_id_of digest row ∷ ids) (bare_systems-ids aliases rows)

  system_ids-All :
      (known : List String) (ids : Dict ℕ String) (rows : List SystemRow)
      → RowsKnown known rows
      → All (λ b. contains known b.1 ≡ true) ids
      → All (λ b. contains known b.1 ≡ true) (system_ids digest ids rows)
  unfolding system_ids
  system_ids-All known ids [] r h = h
  system_ids-All known ids (row ∷ rows) (p, r) h =
      system_ids-All known (Dict.insert row.id (system_id_of digest row) ids) rows r
        (insert-All (λ _ id. contains known id ≡ true) ids row.id _ h p)

  -- Every id that a row is given is the id of a system.
  pub system_ids-known :
      (aliases : Dict ℕ (Dict Text Alias)) (rows : List SystemRow)
      → All
          (λ b. has_system b.1 (bare_systems digest aliases rows) ≡ true)
          (system_ids digest [] rows)
  system_ids-known aliases rows =
      rw (bare_systems-ids aliases rows) (system_ids-All _ [] rows (RowsKnown-self rows) tt)
