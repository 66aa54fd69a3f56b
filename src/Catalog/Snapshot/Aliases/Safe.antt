-- ===== src/Catalog/Snapshot/Aliases/Safe.antt =====
-- Which aliases of a system are SAFE.
use role_model_helper_v.Prelude.{
  ℕ, ◌≡◌, ◌≢◌, sym, ap, ◌∙◌, ◌↔◌, true, false, Option, some, String, List, [], ◌==◌, ==-cases,
  nat_eq, list_eq, string_eq, option_eq, Option-cases, inl, inr, Among, All, arith,
}
use mathlib.Core.Option.{some-injective}
use mathlib.Core.Path.{subst}
use role_model_helper_v.Prelude.Dict
use role_model_helper_v.Prelude.Dict.{Dict}
use role_model_helper_v.Prelude.Dict.Laws.{get-All_binding, get_or-All}
use role_model_helper_v.Text.{Text, codes}
use role_model_helper_v.Catalog.Normalization.{normalize_query}
use role_model_helper_v.Catalog.Bundle.{Alias}
use role_model_helper_v.Catalog.Snapshot.Rows.{AliasRow}
use role_model_helper_v.Catalog.Snapshot.Aliases.{
  class_of, alias_of, is_dropped, safety_of_class, system_aliases,
}
use role_model_helper_v.Catalog.Snapshot.Aliases.Laws.{
  alias_at, is_safe, system_aliases-is_safe_row,
}
use role_model_helper_v.Catalog.Snapshot.Aliases.Origin.{FromRow, system_aliases-FromRow}

-- A row of the class SAFE that gives the system these words, which are not none.
abbrev pub IsSafeRow : List AliasRow → ℕ → Text → AliasRow → Type 0
IsSafeRow rows sid words row =
    Among row rows
    × (row.system_id ≡ sid)
    × (normalize_query (codes row.alias_text) ≡ words)
    × (words ≢ [])
    × (class_of row.alias_class ≡ codes "SAFE")

not_safe : {A : Type 0} → ◌≡◌ {A = String} "AMBIGUOUS" "SAFE" → A
unfolding string_eq
not_safe e = absurd (ground (arith, ap (λ (s : String). s == "SAFE") e))

safety_of_class-safe : (c : Text) → safety_of_class c ≡ "SAFE" → c ≡ codes "SAFE"
unfolding safety_of_class
safety_of_class-safe c h = elim (==-cases c (codes "SAFE")) [
  | inl (e, p) ↦ e
  | inr n ↦ not_safe (rw (n, safety_of_class) at h)
]

alias_at-FromRow :
    (rows : List AliasRow) (sid : ℕ) (words : Text) (a : Alias)
    → alias_at (system_aliases [] rows) sid words ≡ some a
    → FromRow rows sid words a
unfolding Dict.get
alias_at-FromRow rows sid words a h =
    get-All_binding (FromRow rows sid) _ words
      (get_or-All (λ k v. All (λ c. FromRow rows k c.0 c.1) v) (system_aliases [] rows) sid []
        (system_aliases-FromRow rows) tt)
      h

kept_words :
    (raw : String) (c : Option String) → is_dropped raw c ≡ false → normalize_query (codes raw) ≢ []
unfolding is_dropped
kept_words raw c h e = ground (arith, h, e)

safe_kept :
    (raw : String) (c : Option String)
    → class_of c ≡ codes "SAFE"
    → normalize_query (codes raw) ≢ []
    → is_dropped raw c ≡ false
unfolding is_dropped codes
safe_kept raw c safe words = ground (arith, safe, words)

is_safe-safety : (a : Alias) → is_safe (some a) ≡ true → a.safety ≡ some "SAFE"
is_safe-safety a h = elim (==-cases a.safety (some "SAFE")) [
  | inl (e, p) ↦ e
  | inr n ↦ absurd (ground (arith, n, h))
]

safe_row :
    (rows : List AliasRow) (sid : ℕ) (words : Text)
    → is_safe (alias_at (system_aliases [] rows) sid words) ≡ true
    → (row : AliasRow) × IsSafeRow rows sid words row
unfolding alias_of
safe_row rows sid words h = elim (Option-cases (alias_at (system_aliases [] rows) sid words)) [
  | inl missing ↦ absurd (ground (arith, missing, h))
  | inr (a, found) ↦
      let (row, m, same, kept, w, made) = alias_at-FromRow rows sid words a found in
      let safety = is_safe-safety a (subst (λ o. is_safe o ≡ true) found h) in
      (
        row,
        (
          m,
          same,
          w,
          subst (λ x. x ≢ []) w (kept_words row.alias_text row.alias_class kept),
          safety_of_class-safe _
              (some-injective _ _ (ap (λ (x : Alias). x.safety) (sym made) ∙ safety)),
        ),
      )
]

row_safe :
    (rows : List AliasRow) (sid : ℕ) (words : Text) (row : AliasRow)
    → IsSafeRow rows sid words row
    → is_safe (alias_at (system_aliases [] rows) sid words) ≡ true
row_safe rows sid words row (m, same, w, some_words, safe) =
    subst (λ k. is_safe (alias_at (system_aliases [] rows) k words) ≡ true) same
      (subst (λ x. is_safe (alias_at (system_aliases [] rows) row.system_id x) ≡ true) w
        (system_aliases-is_safe_row rows [] row m safe
          (safe_kept row.alias_text row.alias_class safe (λ e. some_words (sym w ∙ e)))))

-- A system has a SAFE alias under some words exactly if the words are not none and a row of the
-- class SAFE gives the system a text with these words, whatever the other rows say of it and in
-- whatever order they come.
pub system_aliases-is_safe :
    (rows : List AliasRow) (sid : ℕ) (words : Text)
    → (is_safe (alias_at (system_aliases [] rows) sid words) ≡ true)
      ↔ ((row : AliasRow) × IsSafeRow rows sid words row)
system_aliases-is_safe rows sid words =
    (safe_row rows sid words, λ (row, h). row_safe rows sid words row h)
