-- ===== src/Catalog/Snapshot/Aliases/Laws.antt =====
-- Which aliases of a system are kept: none of an UNSAFE row, and a SAFE one before the others.
use role_model_helper_v.Prelude.{
  ℕ, ◌≡◌, String, Bool, true, false, Option, none, some, List, [], ◌∷◌, ◌==◌, ==-cases, ==-refl,
  nat_eq, list_eq, string_eq, option_eq, if◌then◌else◌, Bool-cases, inl, inr, Among, arith,
}
use mathlib.Core.Path.{subst}
use role_model_helper_v.Prelude.Dict
use role_model_helper_v.Prelude.Dict.{Dict}
use role_model_helper_v.Text.{Text, codes}
use role_model_helper_v.Catalog.Normalization.{normalize_query}
use role_model_helper_v.Catalog.Bundle.{Alias}
use role_model_helper_v.Catalog.Snapshot.Rows.{AliasRow}
use role_model_helper_v.Catalog.Snapshot.Aliases.{
  class_of, alias_of, is_dropped, keep_alias, add_alias, system_aliases, safety_of_class,
}

abbrev pub alias_at : Dict ℕ (Dict Text Alias) → ℕ → Text → Option Alias
alias_at made sid words = Dict.get (Dict.get_or made sid []) words

get-keep_alias :
    (words w : Text) (a : Alias) (d : Dict Text Alias)
    → Dict.get (keep_alias words a d) w ≡ (
        if w == words
        then elim (Dict.get d words) [
          | none ↦ some a
          | some b ↦ (if a.safety == some "SAFE" then some a else some b)
        ]
        else Dict.get d w)
unfolding keep_alias
get-keep_alias words w a d = ground (arith, Dict.get-insert d words w a)

alias_at-insert :
    (made : Dict ℕ (Dict Text Alias)) (k sid : ℕ) (d : Dict Text Alias) (w : Text)
    → alias_at (Dict.insert k d made) sid w
      ≡ (if sid == k then Dict.get d w else alias_at made sid w)
alias_at-insert made k sid d w = ground (arith, Dict.get-insert made k sid d)

-- A safe alias stands under the words.
abbrev pub is_safe : Option Alias → Bool
is_safe none = false
is_safe (some a) = a.safety == some "SAFE"

is_safe-keep_alias :
    (words w : Text) (a : Alias) (d : Dict Text Alias)
    → is_safe (Dict.get d w) ≡ true
    → is_safe (Dict.get (keep_alias words a d) w) ≡ true
is_safe-keep_alias words w a d h = ground (arith, get-keep_alias words w a d)

is_safe-keep_alias_new :
    (words : Text) (a : Alias) (d : Dict Text Alias)
    → a.safety ≡ some "SAFE"
    → is_safe (Dict.get (keep_alias words a d) words) ≡ true
is_safe-keep_alias_new words a d h = rw (get-keep_alias words words a d) (ground (arith, h))

alias_of-safe :
    (raw : String) (c : Option String)
    → class_of c ≡ codes "SAFE"
    → (alias_of raw c).safety ≡ some "SAFE"
unfolding alias_of safety_of_class
alias_of-safe raw c h = rw h (ground arith)

is_safe-add_alias :
    (row : AliasRow) (made : Dict ℕ (Dict Text Alias)) (sid : ℕ) (w : Text)
    → is_safe (alias_at made sid w) ≡ true
    → is_safe (alias_at (add_alias row made) sid w) ≡ true
unfolding add_alias
is_safe-add_alias row made sid w h = elim (Bool-cases (is_dropped row.alias_text row.alias_class)) [
  | inl dropped ↦ rw dropped h
  | inr kept ↦ rw kept (elim (==-cases sid row.system_id) [
    | inl (same, hit) ↦
        rw (alias_at-insert made row.system_id sid _ w, hit)
          (is_safe-keep_alias _ w _ _ (subst (λ i. is_safe (alias_at made i w) ≡ true) same h))
    | inr miss ↦ rw (alias_at-insert made row.system_id sid _ w, miss) h
  ])
]

is_safe-system_aliases :
    (rows : List AliasRow) (made : Dict ℕ (Dict Text Alias)) (sid : ℕ) (w : Text)
    → is_safe (alias_at made sid w) ≡ true
    → is_safe (alias_at (system_aliases made rows) sid w) ≡ true
unfolding system_aliases
is_safe-system_aliases [] made sid w h = h
is_safe-system_aliases (row ∷ rows) made sid w h =
    is_safe-system_aliases rows (add_alias row made) sid w (is_safe-add_alias row made sid w h)

add_alias-is_safe :
    (row : AliasRow) (made : Dict ℕ (Dict Text Alias))
    → class_of row.alias_class ≡ codes "SAFE"
    → is_dropped row.alias_text row.alias_class ≡ false
    → is_safe (alias_at (add_alias row made) row.system_id (normalize_query (codes row.alias_text)))
      ≡ true
unfolding add_alias alias_of
add_alias-is_safe row made safe kept =
    rw
      (
        kept,
        alias_at-insert made row.system_id row.system_id _ (normalize_query (codes row.alias_text)),
        ==-refl row.system_id,
      )
      (is_safe-keep_alias_new (normalize_query (codes row.alias_text)) _ _
        (alias_of-safe row.alias_text row.alias_class safe))

-- A row of the class SAFE whose text has words makes the alias of its system with these words SAFE,
-- whatever the other rows say of it and in whatever order they come.
pub system_aliases-is_safe_row :
    (rows : List AliasRow) (made : Dict ℕ (Dict Text Alias)) (row : AliasRow)
    → Among row rows
    → class_of row.alias_class ≡ codes "SAFE"
    → is_dropped row.alias_text row.alias_class ≡ false
    → is_safe
        (alias_at (system_aliases made rows) row.system_id (normalize_query (codes row.alias_text)))
      ≡ true
unfolding system_aliases
system_aliases-is_safe_row [] made row m safe kept = absurd m
system_aliases-is_safe_row (first ∷ rows) made row (inl e) safe kept =
    is_safe-system_aliases rows (add_alias first made) row.system_id _ (
      subst
        (λ r.
          is_safe
            (alias_at (add_alias r made) row.system_id (normalize_query (codes row.alias_text)))
          ≡ true)
        e (add_alias-is_safe row made safe kept))
system_aliases-is_safe_row (first ∷ rows) made row (inr m) safe kept =
    system_aliases-is_safe_row rows (add_alias first made) row m safe kept
