-- ===== src/Text/Words.antt =====
-- `str.split` and `" ".join`, and that cutting up a joined text gives the words back.
use role_model_helper_v.Prelude.{ℕ, ◌≡◌, refl, ap, sym, ◌∙◌, ◌≢◌, List, [], ◌∷◌, ◌++◌, All, arith}
use role_model_helper_v.Prelude.{◌==◌, list_eq, nat_eq, if◌then◌else◌}
use mathlib.Core.Logic.{if_pos, if_neg}
use role_model_helper_v.Prelude.{All-append}
use mathlib.Core.List.{append_assoc, append-nil}

abbrev Letters : Type 0
Letters = List ℕ

-- A word that has been read is kept, unless it is empty.
unfoldable pub push_word : Letters → List Letters → List Letters
push_word [] ws = ws
push_word (c ∷ w) ws = (c ∷ w) ∷ ws

split_from : Letters → Letters → List Letters
split_from word [] = push_word word []
split_from word (c ∷ s) =
    let closed = push_word word (split_from [] s) in
    let longer = split_from (word ++ c ∷ []) s in if c == b' ' then closed else longer

-- `s.split()` of a text whose only white space is the blank.
unfoldable pub split : Letters → List Letters
unfolding split_from push_word nat_eq
split s = split_from [] s

-- `" ".join(words)`
unfoldable pub join : List Letters → Letters
join [] = []
join (w ∷ []) = w
join (w ∷ v ∷ ws) = w ++ b' ' ∷ join (v ∷ ws)

abbrev pub IsWord : Letters → Type 0
IsWord w = (w ≢ []) × All (λ c. c ≢ b' ') w

push_word-of_ne : (w : Letters) (ws : List Letters) → w ≢ [] → push_word w ws ≡ w ∷ ws
unfolding push_word
push_word-of_ne [] ws h = absurd (h refl)
push_word-of_ne (c ∷ w) ws h = refl

append-cons-ne-nil : (w : Letters) (c : ℕ) → w ++ c ∷ [] ≢ []
append-cons-ne-nil [] c e = cc
append-cons-ne-nil (d ∷ w) c e = cc

-- Letters that are no blanks are read into the current word.
split_from-append :
    (word w s : Letters)
    → All (λ c. c ≢ b' ') w
    → split_from word (w ++ s) ≡ split_from (word ++ w) s
unfolding split_from
split_from-append word [] s h = rw append-nil
split_from-append word (c ∷ w) s (p, h) =
    ground (arith, split_from-append (word ++ c ∷ []) w s h, append_assoc word (c ∷ []) w)

split_from-blank : (w s : Letters) → w ≢ [] → split_from w (b' ' ∷ s) ≡ w ∷ split_from [] s
unfolding split_from
split_from-blank w s h = ground (arith, push_word-of_ne w (split_from [] s) h)

-- Joining words by blanks and splitting again changes nothing.
pub split-join : (ws : List Letters) → All IsWord ws → split (join ws) ≡ ws
unfolding split join
split-join [] h = refl
split-join (w ∷ []) ((ne, letters), h) = rw (← append-nil w) (
    split_from-append [] w [] letters
    ∙ push_word-of_ne w [] ne
    ∙ ap (λ t. t ∷ []) (sym (append-nil w)))
split-join (w ∷ v ∷ ws) ((ne, letters), h) =
    rw
      (split_from-append [] w (b' ' ∷ join (v ∷ ws)) letters, split_from-blank w (join (v ∷ ws)) ne)
      (ap (λ t. w ∷ t) (split-join (v ∷ ws) h))

-- What holds of every letter of a text but the blanks holds of every letter of its words.
module _ (P : ℕ → Type 0) where
  push_word-All :
      (w : Letters) (ws : List Letters)
      → All P w
      → All (λ c. c ≢ b' ') w
      → All (λ v. IsWord v × All P v) ws
      → All (λ v. IsWord v × All P v) (push_word w ws)
  unfolding push_word
  push_word-All [] ws p n h = h
  push_word-All (c ∷ w) ws p n h = (((λ e. cc, n), p), h)

  split_from-All :
      (w s : Letters)
      → All P w
      → All (λ c. c ≢ b' ') w
      → All (λ c. c ≢ b' ' → P c) s
      → All (λ v. IsWord v × All P v) (split_from w s)
  unfolding split_from
  split_from-All w [] p n h = push_word-All w [] p n tt
  split_from-All w (c ∷ s) p n (q, h) = elim (nat_eq.dec c b' ') [
    | yes e ↦ rw (if_pos _ e) (push_word-All w (split_from [] s) p n (split_from-All [] s tt tt h))
    | no e ↦ rw (if_neg _ e) (
        split_from-All (w ++ c ∷ []) s (All-append P w (c ∷ []) p (q e, tt))
          (All-append _ w (c ∷ []) n (e, tt)) h)
  ]

  pub split-All :
      (s : Letters) → All (λ c. c ≢ b' ' → P c) s → All (λ v. IsWord v × All P v) (split s)
  unfolding split
  split-All s h = split_from-All [] s tt tt h
