-- ===== src/Catalog/Snapshot/City.antt =====
-- `_CITY_PATTERN` and `_extract_city` of app/catalog/v1_snapshot.py: the pattern
-- `\b(?:г|город)\.?\s*([a-zA-Zа-яА-ЯёЁ-]+)` without regard to case.
pub mod Laws
pub mod Search
use role_model_helper_v.Prelude.{
  ℕ, zero, suc, Bool, true, false, not, ◌&&◌, ◌||◌, Option, none, some, List, [], ◌∷◌, ◌++◌, ◌==◌,
  nat_eq, list_eq, if◌then◌else◌,
}
use role_model_helper_v.Text.{Text, codes, between, is_space, lower, upper}
use role_model_helper_v.Catalog.Normalization.{is_word}

-- `[a-zA-Zа-яА-ЯёЁ-]` without regard to case. The last three lines are the letters that share a
-- lower case with one of the class.
unfoldable pub is_city_letter : ℕ → Bool
unfolding nat_eq
is_city_letter c =
    between b'a' b'z' c
    || between b'A' b'Z' c
    || between 0x410 0x44F c
    || c == 0x401
    || c == 0x451
    || c == b'-'
    || between 0x130 0x131 c
    || c == 0x17F
    || c == 0x212A
    || between 0x1C80 0x1C86 c

-- `[…]+`, as many letters as there are
unfoldable pub letters : Text → Text
letters [] = []
letters (c ∷ s) = let more = letters s in if is_city_letter c then c ∷ more else []

-- `\.?`
unfoldable pub skip_dot : Text → Text
unfolding nat_eq
skip_dot [] = []
skip_dot (c ∷ s) = if c == b'.' then s else c ∷ s

-- `\s*`
unfoldable pub skip_spaces : Text → Text
unfolding is_space
skip_spaces [] = []
skip_spaces (c ∷ s) = let rest = skip_spaces s in if is_space c then rest else c ∷ s

-- `\.?\s*([…]+)`: the group, or none. The three classes have no character in common, so the
-- pattern never gives a character back.
unfoldable pub group : Text → Option Text
unfolding skip_dot skip_spaces letters
group s = elim (letters (skip_spaces (skip_dot s))) [ [] ↦ none | c ∷ cs ↦ some (c ∷ cs) ]

-- A literal without regard to case: the rest of the text behind it.
unfoldable pub after_literal : Text → Text → Option Text
after_literal [] s = some s
after_literal (c ∷ p) [] = none
after_literal (c ∷ p) (d ∷ s) =
    let rest = after_literal p s in if lower (d ∷ []) == c ∷ [] then rest else none

unfoldable pub group_after : Option Text → Option Text
unfolding group
group_after none = none
group_after (some rest) = group rest

-- The pattern behind `\b`, at the head of a text: the first alternative, or else the second.
unfoldable pub city_here : Text → Option Text
unfolding after_literal group_after codes
city_here s = elim (group_after (after_literal (codes "г") s)) [
  | some city ↦ some city
  | none ↦ group_after (after_literal (codes "город") s)
]

-- `search`: the flag says whether the character before is one of `\w`, where no name begins.
unfoldable pub city_from : Bool → Text → Option Text
unfolding city_here nat_eq
city_from after_word [] = none
city_from after_word (c ∷ s) = elim (if after_word then none else city_here (c ∷ s)) [
  | some city ↦ some city
  | none ↦ city_from (is_word c) s
]

-- `value.strip("-")`
strip_left : Text → Text
unfolding nat_eq
strip_left [] = []
strip_left (c ∷ s) = let rest = strip_left s in if c == b'-' then rest else c ∷ s

strip_right : Text → Text
unfolding nat_eq
strip_right [] = []
strip_right (c ∷ s) =
    let rest = strip_right s in
    elim rest [ [] ↦ (if c == b'-' then [] else c ∷ []) | d ∷ ds ↦ c ∷ d ∷ ds ]

-- `part.capitalize()`, for ASCII and the Cyrillic block
unfoldable pub capitalize : Text → Text
unfolding lower upper
capitalize [] = []
capitalize (c ∷ s) = upper (c ∷ []) ++ lower s

-- `"-".join(part.capitalize() for part in value.split("-"))`, from a part that has been read
capitalize_parts : Text → Text → Text
unfolding capitalize nat_eq
capitalize_parts part [] = capitalize part
capitalize_parts part (c ∷ s) =
    let next = capitalize part ++ b'-' ∷ capitalize_parts [] s in
    let longer = capitalize_parts (part ++ c ∷ []) s in if c == b'-' then next else longer

unfoldable pub named_city : Text → Text
unfolding strip_left strip_right capitalize_parts
named_city found = capitalize_parts [] (strip_right (strip_left found))

unfoldable pub extract_city : Text → Text
unfolding city_from named_city
extract_city value = elim (city_from false value) [ none ↦ [] | some found ↦ named_city found ]
