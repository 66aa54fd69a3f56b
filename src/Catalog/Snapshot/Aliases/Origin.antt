-- ===== src/Catalog/Snapshot/Aliases/Origin.antt =====
-- Where the aliases of a system come from.
use role_model_helper_v.Prelude.{
  ℕ, ◌≡◌, refl, false, some, List, [], ◌∷◌, ◌==◌, nat_eq, list_eq, string_eq, Option-cases,
  Bool-cases, inl, inr, Among, All, All-Among, option_eq, if-holds,
}
use role_model_helper_v.Prelude.Dict
use role_model_helper_v.Prelude.Dict.{Dict}
use role_model_helper_v.Prelude.Dict.Laws.{insert-All, get_or-All}
use role_model_helper_v.Text.{Text, codes}
use role_model_helper_v.Catalog.Normalization.{normalize_query}
use role_model_helper_v.Catalog.Bundle.{Alias}
use role_model_helper_v.Catalog.Snapshot.Rows.{AliasRow}
use role_model_helper_v.Catalog.Snapshot.Aliases.{
  alias_of, is_dropped, keep_alias, add_alias, system_aliases,
}

module _ (P : ℕ → Text → Alias → Type 0) where
  abbrev AllAliases : Dict ℕ (Dict Text Alias) → Type 0
  AllAliases = All (λ b. All (λ c. P b.0 c.0 c.1) b.1)

  -- What holds of the alias that a kept row makes.
  abbrev Makes : AliasRow → Type 0
  Makes row =
      is_dropped row.alias_text row.alias_class ≡ false
      → P row.system_id (normalize_query (codes row.alias_text))
          (alias_of row.alias_text row.alias_class)

  keep_alias-All :
      (sid : ℕ) (words : Text) (a : Alias) (d : Dict Text Alias)
      → All (λ c. P sid c.0 c.1) d
      → P sid words a
      → All (λ c. P sid c.0 c.1) (keep_alias words a d)
  unfolding keep_alias
  keep_alias-All sid words a d h p = elim (Option-cases (Dict.get d words)) [
    | inl missing ↦ rw (missing, keep_alias) (insert-All (P sid) d words a h p)
    | inr (b, found) ↦
        rw (found, keep_alias)
          (if-holds (All (λ c. P sid c.0 c.1)) (a.safety == some "SAFE")
            (insert-All (P sid) d words a h p) h)
  ]

  add_alias-All :
      (row : AliasRow) (made : Dict ℕ (Dict Text Alias))
      → Makes row
      → AllAliases made
      → AllAliases (add_alias row made)
  unfolding add_alias
  add_alias-All row made makes h = elim (Bool-cases (is_dropped row.alias_text row.alias_class)) [
    | inl dropped ↦ rw dropped h
    | inr kept ↦ rw kept (
        insert-All (λ k v. All (λ c. P k c.0 c.1) v) made row.system_id _ h
          (keep_alias-All row.system_id _ _ _
            (get_or-All (λ k v. All (λ c. P k c.0 c.1) v) made row.system_id [] h tt) (makes kept)))
  ]

  system_aliases-All :
      (rows : List AliasRow) (made : Dict ℕ (Dict Text Alias))
      → All Makes rows
      → AllAliases made
      → AllAliases (system_aliases made rows)
  unfolding system_aliases
  system_aliases-All [] made m h = h
  system_aliases-All (row ∷ rows) made (makes, m) h =
      system_aliases-All rows (add_alias row made) m (add_alias-All row made makes h)

-- An alias is made of a row of its system that is not dropped, and stands under the row's words.
abbrev pub FromRow : List AliasRow → ℕ → Text → Alias → Type 0
FromRow rows sid words a =
    (row : AliasRow) × (Among row rows)
    × (row.system_id ≡ sid)
    × (is_dropped row.alias_text row.alias_class ≡ false)
    × (normalize_query (codes row.alias_text) ≡ words)
    × (a ≡ alias_of row.alias_text row.alias_class)

-- Every alias is made of a row of its system that is not dropped (its class is not UNSAFE and its
-- text has words), and stands under the words of that row.
pub system_aliases-FromRow :
    (rows : List AliasRow)
    → All (λ b. All (λ c. FromRow rows b.0 c.0 c.1) b.1) (system_aliases [] rows)
system_aliases-FromRow rows =
    system_aliases-All (FromRow rows) rows []
      (All-Among (Makes (FromRow rows)) rows λ row m kept. (row, m, refl, kept, refl, refl)) tt
