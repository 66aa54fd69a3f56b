-- ===== src/Catalog/Snapshot/City/Laws.antt =====
-- Where a city is found in the name of a segment, and where another word is taken for one.
use role_model_helper_v.Prelude.{
  ℕ, ◌≡◌, refl, ◌≢◌, Bool, true, false, Option, none, some, [], ◌∷◌, ◌++◌, ◌∙◌, ap, All, ◌⊎◌, inl,
  inr, ◌≤◌, Bool-cases, nat_eq, list_eq, ◌==◌, if◌then◌else◌, arith,
}
use role_model_helper_v.Text.{Text, codes, lower, is_space}
use role_model_helper_v.Catalog.Snapshot.City.{
  is_city_letter, letters, skip_dot, skip_spaces, group, after_literal, city_here, city_from,
  group_after, named_city, extract_city,
}

-- Where the white space lies, and where the letters do.
abbrev SpaceRange : ℕ → Type 0
SpaceRange c = (c ≤ 32) ⊎ (c ≡ 133) ⊎ (c ≡ 160) ⊎ (c ≡ 5760) ⊎ (8192 ≤ c) × (c ≤ 8287) ⊎ (c ≡ 12288)

SpaceRange-of_space : (c : ℕ) → is_space c ≡ true → SpaceRange c
unfolding is_space nat_eq
SpaceRange-of_space c h = ground arith

letter_not-SpaceRange : (c : ℕ) → is_city_letter c ≡ true → SpaceRange c → ⊥
unfolding is_city_letter nat_eq
letter_not-SpaceRange c h (inl r) = ground arith
letter_not-SpaceRange c h (inr (inl r)) = ground arith
letter_not-SpaceRange c h (inr (inr (inl r))) = ground arith
letter_not-SpaceRange c h (inr (inr (inr (inl r)))) = ground arith
letter_not-SpaceRange c h (inr (inr (inr (inr (inl r))))) = ground arith
letter_not-SpaceRange c h (inr (inr (inr (inr (inr r))))) = ground arith

letter_not_space : (c : ℕ) → is_city_letter c ≡ true → is_space c ≡ false
letter_not_space c h = elim (Bool-cases (is_space c)) [
  | inl space ↦ absurd (letter_not-SpaceRange c h (SpaceRange-of_space c space))
  | inr other ↦ other
]

letter_not_dot : (c : ℕ) → is_city_letter c ≡ true → (c == b'.') ≡ false
unfolding is_city_letter nat_eq
letter_not_dot c h = ground arith

space_not_dot : (c : ℕ) → is_space c ≡ true → (c == b'.') ≡ false
unfolding is_space nat_eq
space_not_dot c h = ground arith

abbrev IsLetter : ℕ → Type 0
IsLetter c = is_city_letter c ≡ true

-- The text ends, or goes on with a character that is no letter of a city's name.
abbrev pub Stops : Text → Type 0
Stops [] = Unit
Stops (c ∷ s) = is_city_letter c ≡ false

skip_spaces_letter : (c : ℕ) (s : Text) → IsLetter c → skip_spaces (c ∷ s) ≡ c ∷ s
unfolding skip_spaces
skip_spaces_letter c s h = rw (letter_not_space c h)

letters-append : (w rest : Text) → All IsLetter w → Stops rest → letters (w ++ rest) ≡ w
unfolding letters
letters-append [] [] h stop = refl
letters-append [] (c ∷ rest) h stop = rw stop
letters-append (c ∷ w) rest (p, h) stop = rw (p, letters-append w rest h stop)

skip_spaces-append :
    (blanks s : Text)
    → All (λ c. is_space c ≡ true) blanks
    → skip_spaces (blanks ++ s) ≡ skip_spaces s
unfolding skip_spaces
skip_spaces-append [] s h = refl
skip_spaces-append (c ∷ blanks) s (p, h) = rw p (skip_spaces-append blanks s h)

after_g :
    (g : ℕ) (s : Text) → lower (g ∷ []) ≡ codes "г" → after_literal (codes "г") (g ∷ s) ≡ some s
unfolding after_literal codes
after_g g s e = elim (list_eq.dec (lower (g ∷ [])) (codes "г")) [
  | yes same ↦ ground (arith, same)
  | no differ ↦ absurd (differ e)
]

city_here_of_group :
    (g : ℕ) (s found : Text)
    → lower (g ∷ []) ≡ codes "г"
    → group s ≡ some found
    → city_here (g ∷ s) ≡ some found
unfolding city_here group_after
city_here_of_group g s found e h = rw (after_g g s e, city_here, group_after, h)

extract_city_of_group :
    (g : ℕ) (s found : Text)
    → lower (g ∷ []) ≡ codes "г"
    → group s ≡ some found
    → extract_city (g ∷ s) ≡ named_city found
unfolding extract_city city_from
extract_city_of_group g s found e h = rw (city_here_of_group g s found e h, extract_city, city_from)

group_of_letters :
    (s : Text) (c : ℕ) (w : Text)
    → letters (skip_spaces (skip_dot s)) ≡ c ∷ w
    → group s ≡ some (c ∷ w)
unfolding group
group_of_letters s c w e = rw (e, group)

-- A letter at the head is a group.
group_letter : (c : ℕ) (s : Text) → IsLetter c → group (c ∷ s) ≡ some (c ∷ letters s)
unfolding skip_dot letters nat_eq
group_letter c s l = group_of_letters (c ∷ s) c (letters s) (
    ap (λ t. letters (skip_spaces t)) (rw (letter_not_dot c l, skip_dot))
    ∙ (ap letters (skip_spaces_letter c s l) ∙ rw (l, letters)))

module _ (blanks : Text) (c : ℕ) (w rest : Text) (spaces : All (λ d. is_space d ≡ true) blanks)
    (name : All IsLetter (c ∷ w)) (stop : Stops rest) where
  abbrev behind : Text
  behind = blanks ++ (c ∷ w ++ rest)

  letters-behind : letters (skip_spaces behind) ≡ c ∷ w
  letters-behind =
      ap letters (skip_spaces-append blanks (c ∷ w ++ rest) spaces)
      ∙ (ap letters (skip_spaces_letter c (w ++ rest) name.0)
          ∙ letters-append (c ∷ w) rest name stop)

  skip_dot_behind :
      (bs : Text)
      → All (λ d. is_space d ≡ true) bs
      → skip_dot (bs ++ (c ∷ w ++ rest)) ≡ bs ++ (c ∷ w ++ rest)
  unfolding skip_dot nat_eq
  skip_dot_behind [] h = rw (letter_not_dot c name.0)
  skip_dot_behind (b ∷ bs) (p, h) = rw (space_not_dot b p)

  group-behind :
      (dotted : Bool) → group ((if dotted then b'.' ∷ [] else []) ++ behind) ≡ some (c ∷ w)
  unfolding skip_dot nat_eq
  group-behind true = group_of_letters (b'.' ∷ behind) c w letters-behind
  group-behind false =
      group_of_letters behind c w
        (ap (λ s. letters (skip_spaces s)) (skip_dot_behind blanks spaces) ∙ letters-behind)

  -- A text that begins with the letter г, in either case, then perhaps a dot, white space and a run
  -- of the pattern's letters, up to a character that is none of them, has that run as its city.
  pub extract_city_lem :
      (g : ℕ) (dotted : Bool)
      → lower (g ∷ []) ≡ codes "г"
      → extract_city (g ∷ (if dotted then b'.' ∷ [] else []) ++ behind) ≡ named_city (c ∷ w)
  extract_city_lem g dotted e =
      extract_city_of_group g ((if dotted then b'.' ∷ [] else []) ++ behind) (c ∷ w) e
        (group-behind dotted)

-- The letter о in either case is a letter of a city's name.
o_is_letter : (d : ℕ) → lower (d ∷ []) ≡ codes "о" → is_city_letter d ≡ true
unfolding lower codes is_city_letter nat_eq
o_is_letter d e = ground arith

after_orod :
    (s : Text) → (after_literal (codes "ород") s ≡ none) ⊎ ((found : Text) × (group s ≡ some found))
unfolding after_literal codes
after_orod [] = inl refl
after_orod (d ∷ s) = elim (list_eq.dec (lower (d ∷ [])) (codes "о")) [
  | yes e ↦ inr (d ∷ letters s, group_letter d s (o_is_letter d e))
  | no differ ↦ inl (ground arith)
]

abbrev first : Text → Option Text
first s = group_after (after_literal (codes "г") s)

abbrev second : Text → Option Text
second s = group_after (after_literal (codes "город") s)

no_group : (o : Option Text) → o ≡ none → group_after o ≡ none
unfolding group_after
no_group o e = rw e

after_gorod :
    (c : ℕ) (s : Text)
    → after_literal (codes "ород") s ≡ none
    → after_literal (codes "город") (c ∷ s) ≡ none
unfolding after_literal codes
after_gorod c s e = ground arith

after_other :
    (c : ℕ) (s : Text) → lower (c ∷ []) ≢ codes "г" → after_literal (codes "город") (c ∷ s) ≡ none
unfolding after_literal codes
after_other c s differ = ground arith

-- Where the second alternative finds something, the first has found something.
second_idle : (s : Text) → (second s ≡ none) ⊎ ((found : Text) × (first s ≡ some found))
unfolding after_literal group_after codes
second_idle [] = inl refl
second_idle (c ∷ s) = elim (list_eq.dec (lower (c ∷ [])) (codes "г")) [
  | yes same ↦ elim (after_orod s) [
    | inl gone ↦ inl (no_group _ (after_gorod c s gone))
    | inr (found, h) ↦ inr (found, rw (after_g c s same) h)
  ]
  | no differ ↦ inl (no_group _ (after_other c s differ))
]

or_else :
    (a b : Option Text)
    → (b ≡ none) ⊎ ((found : Text) × (a ≡ some found))
    → (elim a [ some city ↦ some city | none ↦ b ]) ≡ a
or_else none b (inl e) = e
or_else none b (inr (found, e)) = cc
or_else (some found) b h = refl

-- The alternative город of the pattern decides nothing: at each place the pattern finds what its
-- first alternative, the single letter, finds, and nothing where that finds nothing.
pub city_here_lem : (s : Text) → city_here s ≡ group_after (after_literal (codes "г") s)
unfolding city_here
city_here_lem s = or_else (first s) (second s) (second_idle s)
