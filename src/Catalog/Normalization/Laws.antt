-- ===== src/Catalog/Normalization/Laws.antt =====
-- What a normalised query looks like, and the range of a department's number.
use role_model_helper_v.Prelude.{ℕ, ◌<◌, ◌≡◌, ◌≢◌, true, some, arith}
use role_model_helper_v.Prelude.{List, [], ◌∷◌, All, find, Option-cases, inl, inr, nat_eq, list_eq}
use role_model_helper_v.Prelude.Dict
use role_model_helper_v.Catalog.Normalization.{
  parse_department_number, normalize_query, query_words, query_text, blank_others, is_query_letter,
  ordinals, first_ordinal, is_number_token,
}
use role_model_helper_v.Text.{Text, all_digits, int_of}
use role_model_helper_v.Text.Words.{split, IsWord, split-join, split-All}

blank_others-All :
    (s : Text) → All (λ c. c ≢ b' ' → is_query_letter c ≡ true) (blank_others is_query_letter s)
unfolding blank_others is_query_letter
blank_others-All [] = tt
blank_others-All (c ∷ s) = (λ n. ground arith, blank_others-All s)

abbrev pub IsQueryWord : Text → Type 0
IsQueryWord w = IsWord w × All (λ c. is_query_letter c ≡ true) w

-- Every word of a normalised query is a non-empty run of digits and of Latin and Russian letters.
pub query_words-All : (value : Text) → All IsQueryWord (query_words value)
unfolding query_words
query_words-All value =
    split-All (λ c. is_query_letter c ≡ true) (blank_others is_query_letter (query_text value))
      (blank_others-All (query_text value))

All-IsWord : (ws : List Text) → All IsQueryWord ws → All IsWord ws
All-IsWord [] h = tt
All-IsWord (w ∷ ws) (p, h) = (p.0, All-IsWord ws h)

-- Cutting a normalised query into words gives the words that it was joined from: nothing is
-- merged, lost or cut by the way through the text.
pub split-normalize_query : (value : Text) → split (normalize_query value) ≡ query_words value
unfolding normalize_query
split-normalize_query value =
    split-join (query_words value) (All-IsWord (query_words value) (query_words-All value))

int_of-lt : (w : Text) → is_number_token w ≡ true → int_of w < 10000
unfolding is_number_token all_digits int_of
int_of-lt [] h = cc
int_of-lt (a ∷ []) h = ground arith
int_of-lt (a ∷ b ∷ []) h = ground arith
int_of-lt (a ∷ b ∷ c ∷ []) h = ground arith
int_of-lt (a ∷ b ∷ c ∷ d ∷ []) h = ground arith
int_of-lt (a ∷ b ∷ c ∷ d ∷ e ∷ w) h = ground arith

find-holds :
    (ws : List Text) (w : Text) → find is_number_token ws ≡ some w → is_number_token w ≡ true
find-holds [] w h = cc
find-holds (v ∷ ws) w h = ground (arith, find-holds ws w)

ordinals_small : All (λ b. b.1 < 10000) ordinals
unfolding ordinals
ordinals_small = omega arith

first_ordinal-lt : (ws : List Text) (n : ℕ) → first_ordinal ws ≡ some n → n < 10000
unfolding first_ordinal
first_ordinal-lt [] n h = cc
first_ordinal-lt (w ∷ ws) n h = elim (Option-cases (Dict.get ordinals w)) [
  | inl miss ↦ first_ordinal-lt ws n (rw (miss, first_ordinal) at h)
  | inr (m, hit) ↦ ground (arith, Dict.get-All (λ k. k < 10000) ordinals w ordinals_small hit)
]

-- A department's number, where a query names one, has at most four digits.
pub parse_department_number-lt :
    (value : Text) (n : ℕ) → parse_department_number value ≡ some n → n < 10000
unfolding parse_department_number
parse_department_number-lt value n h =
    elim (Option-cases (first_ordinal (split (normalize_query value)))) [
      | inr (m, hit) ↦ ground (arith, first_ordinal-lt (split (normalize_query value)) m hit)
      | inl miss ↦ elim (Option-cases (find is_number_token (split (normalize_query value)))) [
        | inl gone ↦ ground arith
        | inr (w, hit) ↦
            ground (arith, int_of-lt w (find-holds (split (normalize_query value)) w hit))
      ]
    ]
