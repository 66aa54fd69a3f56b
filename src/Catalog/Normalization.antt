-- ===== src/Catalog/Normalization.antt =====
-- app/catalog/normalization.py
pub mod Laws
use mathlib.Core.Option
use role_model_helper_v.Prelude.{
  ℕ, zero, suc, ◌-◌, String, Bool, true, false, ◌&&◌, ◌||◌, not, Option, none, some,
}
use role_model_helper_v.Prelude.{
  List, [], ◌∷◌, ◌++◌, map, leb, ◌==◌, nat_eq, list_eq, length, find, contains, if◌then◌else◌,
}
use role_model_helper_v.Prelude.Dict
use role_model_helper_v.Prelude.Dict.{Dict}
use role_model_helper_v.Text.{Text, codes, between, is_digit, lower, replace, all_digits, int_of}
use role_model_helper_v.Text.Words.{split, join}

-- `_ORDINALS`
unfoldable pub ordinals : Dict Text ℕ
unfolding codes
ordinals =
    (codes "первый", 1)
    ∷ (codes "первого", 1)
    ∷ (codes "второй", 2)
    ∷ (codes "второго", 2)
    ∷ (codes "третий", 3)
    ∷ (codes "третьего", 3)
    ∷ (codes "четвертый", 4)
    ∷ (codes "четвертого", 4)
    ∷ (codes "пятый", 5)
    ∷ (codes "пятого", 5)
    ∷ (codes "шестой", 6)
    ∷ (codes "шестого", 6)
    ∷ (codes "седьмой", 7)
    ∷ (codes "седьмого", 7)
    ∷ (codes "восьмой", 8)
    ∷ (codes "восьмого", 8)
    ∷ (codes "девятый", 9)
    ∷ (codes "девятого", 9)
    ∷ (codes "десятый", 10)
    ∷ (codes "десятого", 10)
    ∷ (codes "одиннадцатый", 11)
    ∷ (codes "двенадцатый", 12)
    ∷ (codes "тринадцатый", 13)
    ∷ (codes "четырнадцатый", 14)
    ∷ (codes "пятнадцатый", 15)
    ∷ (codes "шестнадцатый", 16)
    ∷ (codes "семнадцатый", 17)
    ∷ (codes "восемнадцатый", 18)
    ∷ (codes "девятнадцатый", 19)
    ∷ (codes "двадцатый", 20)
    ∷ []

-- `\w`, for ASCII and the Cyrillic block.
abbrev pub is_word : ℕ → Bool
is_word c =
    is_digit c
    || between b'a' b'z' c
    || between b'A' b'Z' c
    || c == b'_'
    || between 0x400 0x481 c
    || between 0x48A 0x52F c

-- `\b` after a letter
at_boundary : Text → Bool
at_boundary [] = true
at_boundary (c ∷ s) = not (is_word c)

-- `(?:й|ый|ой)\b` at the head of a text: how many characters it takes.
ending : Text → Option ℕ
unfolding at_boundary nat_eq
ending [] = none
ending (c ∷ []) = if c == 0x439 then some 1 else none
ending (c ∷ d ∷ s) =
    if c == 0x439 && at_boundary (d ∷ s)
    then some 1
    else if (c == 0x44B || c == 0x43E) && (d == 0x439 && at_boundary s)
    then some 2
    else none

abbrev is_dash : ℕ → Bool
is_dash c = c == b'-' || between 0x2010 0x2011 c || between 0x2013 0x2014 c

-- `[-‐‑–—]?(?:й|ый|ой)\b` at the head of a text.
ordinal_ending : Text → Option ℕ
unfolding ending
ordinal_ending [] = none
ordinal_ending (c ∷ s) = if is_dash c then Option.map suc (ending s) else ending (c ∷ s)

-- `re.sub(r"(?<=\d)[-‐‑–—]?(?:й|ый|ой)\b", " ", s)`. The number says how many characters of a
-- match are still to be passed over; the flag says whether the character before is a digit.
drop_ordinal_endings : ℕ → Bool → Text → Text
drop_ordinal_endings skip after [] = []
drop_ordinal_endings (suc skip) after (c ∷ s) = drop_ordinal_endings skip false s
drop_ordinal_endings zero after (c ∷ s) = elim (if after then ordinal_ending (c ∷ s) else none) [
  | none ↦ c ∷ drop_ordinal_endings zero (is_digit c) s
  | some n ↦ b' ' ∷ drop_ordinal_endings (n - 1) false s
]

-- `[0-9a-zа-я]`
unfoldable pub is_query_letter : ℕ → Bool
is_query_letter c = is_digit c || between b'a' b'z' c || between 0x430 0x44F c

-- `re.sub("[^…]+", " ", s)`, up to the number of blanks, which `split` does not see.
unfoldable pub blank_others : (ℕ → Bool) → Text → Text
blank_others keep = map (λ c. if keep c then c else b' ')

-- The text of a query before all but its letters and digits is blanked.
unfoldable pub query_text : Text → Text
unfolding codes lower replace drop_ordinal_endings ordinal_ending
query_text value =
    drop_ordinal_endings 0 false
      (replace 0x2116 (codes " номер ") (replace 0x451 (0x435 ∷ []) (lower value)))

-- The words of `normalize_query(value)`.
unfoldable pub query_words : Text → List Text
unfolding query_text blank_others is_query_letter split
query_words value = split (blank_others is_query_letter (query_text value))

-- `normalize_query`. The empty text, or a missing one, has no words.
unfoldable pub normalize_query : Text → Text
unfolding query_words join
normalize_query value = join (query_words value)

-- A token that `\b(\d{1,4})\b` matches. In a normalised text, whose words stand between single
-- blanks, the first match is the first such token, with or without "номер" before it.
is_number_token : Text → Bool
is_number_token w = all_digits w && leb (length w) 4

first_ordinal : List Text → Option ℕ
first_ordinal [] = none
first_ordinal (w ∷ ws) = elim (Dict.get ordinals w) [ some n ↦ some n | none ↦ first_ordinal ws ]

unfoldable pub parse_department_number : Text → Option ℕ
unfolding normalize_query first_ordinal is_number_token all_digits int_of ordinals list_eq nat_eq
    Dict.get
parse_department_number value =
    let tokens = split (normalize_query value) in
    elim (first_ordinal tokens) [
      | some n ↦ some n
      | none ↦ elim (find is_number_token tokens) [ some w ↦ some (int_of w) | none ↦ none ]
    ]

-- The words of a list, each once.
unfoldable pub distinct : List Text → List Text
unfolding list_eq nat_eq
distinct [] = []
distinct (w ∷ ws) = let rest = distinct ws in if contains rest w then rest else w ∷ rest

-- `normalized_tokens`: a set, here a list with each of its members once.
unfoldable pub normalized_tokens : Text → List Text
unfolding normalize_query distinct
normalized_tokens value = distinct (split (normalize_query value))
