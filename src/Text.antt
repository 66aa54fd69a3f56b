-- ===== src/Text.antt =====
-- Python's `str`, as the program uses it. Ids, names and messages are native strings; where the
-- program walks a text or cuts it into words, the text is the list of its code points.
pub mod Words
pub mod Chars
use Prim.Native.Char.{Char, code}
use role_model_helper_v.Prelude.{
  ℕ, zero, suc, ◌+◌, ◌*◌, ◌-◌, String, Bool, true, false, ◌&&◌, ◌||◌, not,
}
use role_model_helper_v.Prelude.{
  List, [], ◌∷◌, ◌++◌, leb, ltb, ◌==◌, nat_eq, list_eq, string_eq, any, all, length, map,
  if◌then◌else◌,
}

abbrev pub Text : Type 0
Text = List ℕ

unfoldable pub codes : String → Text
codes String.[] = []
codes (String.◌∷◌ c s) = code c ∷ codes s

abbrev pub between : ℕ → ℕ → ℕ → Bool
between lo hi c = leb lo c && leb c hi

-- `str.isspace`, for one character.
unfoldable pub is_space : ℕ → Bool
is_space c =
    between 9 13 c
    || between 28 32 c
    || c == 133
    || c == 160
    || c == 5760
    || between 8192 8202 c
    || c == 8232
    || c == 8233
    || c == 8239
    || c == 8287
    || c == 12288

lstrip : String → String
lstrip String.[] = ""
lstrip (String.◌∷◌ c s) = let rest = lstrip s in if is_space (code c) then rest else String.◌∷◌ c s

rstrip : String → String
rstrip String.[] = ""
rstrip (String.◌∷◌ c s) =
    let rest = rstrip s in if is_space (code c) && rest == "" then "" else String.◌∷◌ c rest

-- `str.strip`
unfoldable pub strip : String → String
unfolding lstrip rstrip is_space string_eq
strip s = rstrip (lstrip s)

-- `not s.strip()`
unfoldable pub is_blank : String → Bool
unfolding strip
is_blank s = strip s == ""

abbrev pub is_digit : ℕ → Bool
is_digit c = between b'0' b'9' c

-- `str.lower`, for ASCII and the Cyrillic block and for the two other characters whose lower case
-- has an ASCII letter (U+0130 and U+212A). The program drops all else after lowering.
unfoldable pub lower_code : ℕ → Text
lower_code c =
    if between b'A' b'Z' c || between 0x410 0x42F c
    then (c + 32) ∷ []
    else if between 0x400 0x40F c
    then (c + 80) ∷ []
    else if c == 0x130
    then b'i' ∷ 0x307 ∷ []
    else if c == 0x212A
    then b'k' ∷ []
    else c ∷ []

unfoldable pub lower : Text → Text
unfolding lower_code nat_eq
lower [] = []
lower (c ∷ s) = lower_code c ++ lower s

-- `str.upper`, for ASCII and the Cyrillic block.
unfoldable pub upper : Text → Text
upper = map λ c.
    if between b'a' b'z' c || between 0x430 0x44F c
    then c - 32
    else if between 0x450 0x45F c
    then c - 80
    else c

-- `s.replace(c, t)` for a single character `c`.
unfoldable pub replace : ℕ → Text → Text → Text
unfolding nat_eq
replace c t [] = []
replace c t (d ∷ s) = (if d == c then t else d ∷ []) ++ replace c t s

-- `s.startswith(p)`
unfoldable pub is_prefix : Text → Text → Bool
unfolding nat_eq
is_prefix [] s = true
is_prefix (c ∷ p) [] = false
is_prefix (c ∷ p) (d ∷ s) = c == d && is_prefix p s

-- `p in s`
unfoldable pub is_in : Text → Text → Bool
unfolding is_prefix
is_in p [] = is_prefix p []
is_in p (d ∷ s) = is_prefix p (d ∷ s) || is_in p s

-- `s.isdigit()`, where `s` has ASCII digits only
unfoldable pub all_digits : Text → Bool
all_digits [] = false
all_digits (c ∷ s) = is_digit c && all is_digit s

-- `int(s)` of ASCII digits
unfoldable pub int_from : ℕ → Text → ℕ
int_from n [] = n
int_from n (c ∷ s) = int_from (n * 10 + (c - b'0')) s

unfoldable pub int_of : Text → ℕ
unfolding int_from
int_of s = int_from 0 s

-- `any(marker in text for marker in markers)`
unfoldable pub has_marker : Text → List String → Bool
unfolding is_in codes
has_marker s markers = any (λ m. is_in (codes m) s) markers
