-- ===== src/Score.antt =====
-- The floats of the program. Scores and confidences are fractions of natural numbers, compared by
-- cross multiplication: the quotients that the program forms are ordered as their roundings are.
use role_model_helper_v.Prelude.{
  ℕ, ◌*◌, ◌+◌, ◌/◌, ◌%◌, Bool, false, ltb, leb, ◌==◌, nat_eq, if◌then◌else◌,
}

pub record Score : Type 0 where
  pub num : ℕ
  pub den : ℕ

abbrev pub fraction : ℕ → ℕ → Score
fraction n d = record { num = n; den = d }

-- `a < b`
abbrev pub lt_score : Score → Score → Bool
lt_score a b = ltb (a.num * b.den) (b.num * a.den)

-- `a <= b`
abbrev pub le_score : Score → Score → Bool
le_score a b = leb (a.num * b.den) (b.num * a.den)

-- `max(a, b)` and `min(a, b)`: the first of two equal values.
unfoldable pub max_score : Score → Score → Score
max_score a b = if lt_score a b then b else a

unfoldable pub min_score : Score → Score → Score
min_score a b = if lt_score b a then b else a

-- `round(a, 4)`, which takes a tie to the even neighbour.
unfoldable pub round4 : Score → Score
unfolding nat_eq
round4 a =
    let scaled = a.num * 10000 in
    let down = scaled / a.den in
    let rest = 2 * (scaled % a.den) in
    if ltb a.den rest
    then fraction (down + 1) 10000
    else if rest == a.den
    then fraction (down + down % 2) 10000
    else fraction down 10000

-- A float that a model returned: not a number, below zero, or not below zero. An infinity is a
-- fraction over zero.
pub data Float : Type 0 where
  nan : Float
  minus plus : Score → Float

-- `0.0 <= x <= 1.0`. Minus zero is `plus`.
unfoldable pub in_unit : Float → Bool
in_unit nan = false
in_unit (minus a) = false
in_unit (plus a) = le_score a (fraction 1 1)

-- `x < a`, for `x` in the unit interval
unfoldable pub below : Float → Score → Bool
below nan a = false
below (minus x) a = Bool.true
below (plus x) a = lt_score x a
