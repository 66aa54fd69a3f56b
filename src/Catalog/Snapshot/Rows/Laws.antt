-- ===== src/Catalog/Snapshot/Rows/Laws.antt =====
-- What holds of all values that are collected without repetition.
use role_model_helper_v.Prelude.{
  ℕ, ◌≡◌, refl, String, Bool, true, List, [], ◌∷◌, ◌++◌, nat_eq, string_eq, contains, all, All,
  if◌then◌else◌, Bool-cases, inl, inr, all-append_last,
}
use role_model_helper_v.Prelude.Dict
use role_model_helper_v.Prelude.Dict.{Dict}
use role_model_helper_v.Prelude.Dict.Laws.{insert-All, get_or-All}
use role_model_helper_v.Catalog.Snapshot.Rows.{append_unique}

pub all-append_new :
    (p : String → Bool) (ids : List String) (id : String)
    → all p ids ≡ true
    → p id ≡ true
    → all p (if contains ids id then ids else ids ++ id ∷ []) ≡ true
all-append_new p ids id h e = elim (Bool-cases (contains ids id)) [
  | inl old ↦ rw old h
  | inr new ↦ rw new (all-append_last p ids id h e)
]

pub append_unique-All :
    (p : String → Bool) (d : Dict ℕ (List String)) (key : ℕ) (value : String)
    → All (λ b. all p b.1 ≡ true) d
    → p value ≡ true
    → All (λ b. all p b.1 ≡ true) (append_unique d key value)
unfolding append_unique
append_unique-All p d key value h e =
    insert-All (λ _ ids. all p ids ≡ true) d key _ h
      (all-append_new p (Dict.get_or d key []) value
        (get_or-All (λ _ ids. all p ids ≡ true) d key [] h refl) e)
