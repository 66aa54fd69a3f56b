-- ===== src/Difflib.antt =====
-- `difflib.SequenceMatcher(None, a, b).ratio()` of the standard library, by its documented
-- algorithm: the longest match, extended over popular elements, and the same on both sides of it.
use role_model_helper_v.Prelude.{ℕ, zero, suc, ◌+◌, ◌-◌, ◌*◌, ◌/◌, Bool, not, ◌&&◌, List, [], ◌∷◌}
use role_model_helper_v.Prelude.{◌==◌, ltb, leb, nat_eq, if◌then◌else◌, length, take, drop}
use mathlib.Core.List.{reverse}
use role_model_helper_v.Score.{Score, fraction}
use role_model_helper_v.Text.{Text}

count : ℕ → Text → ℕ
unfolding nat_eq
count c [] = 0
count c (d ∷ s) = if c == d then suc (count c s) else count c s

-- An element that `b2j` drops: `b` has 200 elements or more, and more than 1 % of them are it.
unfoldable pub is_popular : Text → ℕ → Bool
unfolding count
is_popular b c = let n = length b in leb 200 n && ltb (n / 100 + 1) (count c b)

-- The lengths of the matches that end at each position of `b`, after one more element of `a`.
next_row : (ℕ → Bool) → ℕ → Text → ℕ → List ℕ → List ℕ
unfolding nat_eq
next_row popular c [] diagonal row = []
next_row popular c (d ∷ b) diagonal [] =
    (if c == d && not (popular c) then suc diagonal else 0) ∷ next_row popular c b 0 []
next_row popular c (d ∷ b) diagonal (r ∷ row) =
    (if c == d && not (popular c) then suc diagonal else 0) ∷ next_row popular c b r row

pub record Match : Type 0 where
  pub at_a : ℕ
  pub at_b : ℕ
  pub size : ℕ

best_in_row : ℕ → ℕ → List ℕ → Match → Match
best_in_row i j [] best = best
best_in_row i j (k ∷ row) best =
    best_in_row i (suc j) row
      (if ltb best.size k then record { at_a = suc i - k; at_b = suc j - k; size = k } else best)

longest_from : (ℕ → Bool) → ℕ → Text → Text → List ℕ → Match → Match
unfolding next_row best_in_row
longest_from popular i [] b row best = best
longest_from popular i (c ∷ a) b row best =
    let next = next_row popular c b 0 row in
    longest_from popular (suc i) a b next (best_in_row i 0 next best)

-- The length of the longest common prefix.
common : Text → Text → ℕ
unfolding nat_eq
common [] b = 0
common (c ∷ a) [] = 0
common (c ∷ a) (d ∷ b) = if c == d then suc (common a b) else 0

-- `find_longest_match`, on the two segments that are left.
unfoldable pub find_longest_match : (ℕ → Bool) → Text → Text → Match
unfolding longest_from common
find_longest_match popular a b =
    let best = longest_from popular 0 a b [] (record { at_a = 0; at_b = 0; size = 0 }) in
    let back = common (reverse (take best.at_a a)) (reverse (take best.at_b b)) in
    let on = common (drop (best.at_a + best.size) a) (drop (best.at_b + best.size) b) in
    record { at_a = best.at_a - back; at_b = best.at_b - back; size = back + best.size + on }

-- The sum of the sizes of `get_matching_blocks`. A match shortens `a`, whose length is fuel enough.
matches : (ℕ → Bool) → ℕ → Text → Text → ℕ
unfolding find_longest_match nat_eq
matches popular zero a b = 0
matches popular (suc fuel) a b =
    let m = find_longest_match popular a b in
    let left = matches popular fuel (take m.at_a a) (take m.at_b b) in
    let right = matches popular fuel (drop (m.at_a + m.size) a) (drop (m.at_b + m.size) b) in
    if m.size == 0 then 0 else left + m.size + right

unfoldable pub ratio : Text → Text → Score
unfolding matches is_popular nat_eq
ratio a b =
    let total = length a + length b in
    if total == 0 then fraction 1 1 else fraction (2 * matches (is_popular b) (length a) a b) total
