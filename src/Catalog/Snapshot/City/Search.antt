-- ===== src/Catalog/Snapshot/City/Search.antt =====
-- The search of `_extract_city`, without the alternative город of its pattern.
use role_model_helper_v.Prelude.{
  ◌≡◌, refl, Bool, true, false, Option, none, some, [], ◌∷◌, ap, ◌∙◌, if◌then◌else◌,
}
use role_model_helper_v.Text.{Text, codes}
use role_model_helper_v.Catalog.Snapshot.City.{is_word, after_literal, city_from, group_after}
use role_model_helper_v.Catalog.Snapshot.City.Laws.{city_here_lem}

-- A search for the single letter alone, and letters behind it: the pattern without город.
unfoldable pub city_after_letter : Bool → Text → Option Text
unfolding after_literal group_after codes
city_after_letter after_word [] = none
city_after_letter after_word (c ∷ s) =
    elim (if after_word then none else group_after (after_literal (codes "г") (c ∷ s))) [
      | some city ↦ some city
      | none ↦ city_after_letter (is_word c) s
    ]

abbrev or_next : Option Text → Option Text → Option Text
or_next o rest = elim o [ some city ↦ some city | none ↦ rest ]

-- The search for a city finds in every text what a search finds whose pattern has the single letter
-- г only (behind the beginning of a word, with or without a full stop and spaces, and letters
-- behind it): the alternative город decides nothing, at no place of the text.
pub city_from_lem :
    (after_word : Bool) (s : Text) → city_from after_word s ≡ city_after_letter after_word s
unfolding city_from city_after_letter
city_from_lem after_word [] = refl
city_from_lem true (c ∷ s) = city_from_lem (is_word c) s
city_from_lem false (c ∷ s) =
    ap (λ (o : Option Text). or_next o (city_from (is_word c) s)) (city_here_lem (c ∷ s))
    ∙ ap (or_next (group_after (after_literal (codes "г") (c ∷ s)))) (city_from_lem (is_word c) s)
