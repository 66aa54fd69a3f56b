-- ===== src/Text/Chars.antt =====
-- Texts as strings again, and numbers as texts.
use Prim.Native.Char.{Char, char, nul, IsScalar}
use mathlib.Core.Logic.{dite}
use native.Mathlib.Decide.{dec_lt}
use role_model_helper_v.Prelude.{
  ℕ, zero, suc, ◌+◌, ◌/◌, ◌%◌, ◌<◌, String, List, [], ◌∷◌, ltb, if◌then◌else◌, arith,
}

scalar_of_lt : (n : ℕ) → n < 55296 → IsScalar n
scalar_of_lt n h = ground arith

-- The character with a code below the surrogates, where every letter of the program's texts lies.
unfoldable pub chr : ℕ → Char
unfolding dec_lt scalar_of_lt
chr n = dite (dec_lt n 55296) (λ h. char n (scalar_of_lt n h)) (λ _. nul)

unfoldable pub text_string : List ℕ → String
unfolding chr
text_string [] = ""
text_string (c ∷ s) = String.◌∷◌ (chr c) (text_string s)

-- `str(n)`, the digits of a number before those that were made.
digits_before : ℕ → ℕ → List ℕ → List ℕ
digits_before zero n made = made
digits_before (suc fuel) n made =
    let digit = b'0' + n % 10 in
    let longer = digits_before fuel (n / 10) (digit ∷ made) in
    if ltb n 10 then digit ∷ made else longer

-- A number has fewer digits than its successor counts.
unfoldable pub decimal : ℕ → List ℕ
unfolding digits_before
decimal n = digits_before (suc n) n []

-- `str(n)` as a string
unfoldable pub str : ℕ → String
unfolding decimal text_string
str n = text_string (decimal n)
