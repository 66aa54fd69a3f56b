-- ===== src/Agent/Phrases.antt =====
-- `_normalize`, `_contains_phrase` and the word searches of app/agent/service.py
use role_model_helper_v.Prelude.{ℕ, ◌-◌, Bool, false, ◌&&◌, ◌||◌, not, [], ◌∷◌}
use role_model_helper_v.Prelude.{◌==◌, leb, contains, nat_eq, list_eq, length, take, drop, any}
use role_model_helper_v.Text.{Text, between, is_digit, lower, replace, is_prefix}
use role_model_helper_v.Text.Words.{split, join}
use role_model_helper_v.Catalog.Normalization.{is_word, blank_others}

-- `[0-9a-zа-яё]`
is_letter : ℕ → Bool
unfolding nat_eq
is_letter c = is_digit c || between b'a' b'z' c || between 0x430 0x44F c || c == 0x451

-- `_normalize`
unfoldable pub normalize : Text → Text
unfolding is_letter lower replace blank_others split join
normalize text = join (split (blank_others is_letter (replace 0x451 (0x435 ∷ []) (lower text))))

starts_word : Text → Bool
unfolding nat_eq
starts_word [] = false
starts_word (c ∷ s) = is_word c

-- `re.search(rf"(?<!\w){re.escape(phrase)}(?!\w)", text)`; the flag says whether the character
-- before the text is of a word.
phrase_from : Bool → Text → Text → Bool
unfolding starts_word is_prefix
phrase_from inside phrase [] = not inside && is_prefix phrase []
phrase_from inside phrase (c ∷ s) =
    not inside && (is_prefix phrase (c ∷ s) && not (starts_word (drop (length phrase) (c ∷ s))))
    || phrase_from (is_word c) phrase s

unfoldable pub has_phrase : Text → Text → Bool
unfolding phrase_from nat_eq
has_phrase text phrase = phrase_from false phrase text

-- `_contains_phrase`
unfoldable pub contains_phrase : Text → Text → Bool
unfolding has_phrase is_prefix split list_eq nat_eq
contains_phrase text phrase =
    not (phrase == [])
    && (has_phrase text phrase
        || not (contains phrase b' ')
          && leb 5 (length phrase)
          && any (is_prefix (take (length phrase - 1) phrase)) (split text))
