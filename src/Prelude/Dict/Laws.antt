-- ===== src/Prelude/Dict/Laws.antt =====
-- What holds of every binding of a dict, and which keys it has, as it is written.
use mathlib.Core.Path.{◌≡◌, sym, subst}
use mathlib.Core.Bool.{true}
use mathlib.Core.Option.{some, some-injective}
use mathlib.Core.List.{[], ◌∷◌}
use mathlib.Core.Logic.{inl, inr}
use native.Mathlib.Omega.{arith}
use role_model_helper_v.Prelude.Lists.{All}
use role_model_helper_v.Prelude.Equality.{Eq, ==-cases, contains, Option-cases}
use role_model_helper_v.Prelude.Dict.{Dict, get, get_or, insert, set_default, keys}

module _ {ℓ κ} {K : Type ℓ} {V : Type κ} ⦃e : Eq K⦄ where
  module _ {μ} (P : K → V → Type μ) where
    pub insert-All :
        (d : Dict K V) (k : K) (v : V)
        → All (λ b. P b.0 b.1) d
        → P k v
        → All (λ b. P b.0 b.1) (insert k v d)
    unfolding insert
    insert-All [] k v h p = (p, tt)
    insert-All ((j, w) ∷ d) k v (q, h) p = elim (==-cases k j) [
      | inl (same, hit) ↦ rw hit (subst (λ i. P i v) same p, h)
      | inr miss ↦ rw miss (q, insert-All d k v h p)
    ]

    pub get_or-All :
        (d : Dict K V) (k : K) (v : V) → All (λ b. P b.0 b.1) d → P k v → P k (get_or d k v)
    unfolding get
    get_or-All [] k v h p = p
    get_or-All ((j, w) ∷ d) k v (q, h) p = elim (==-cases k j) [
      | inl (same, hit) ↦ rw hit (subst (λ i. P i w) (sym same) q)
      | inr miss ↦ rw miss (get_or-All d k v h p)
    ]

    pub get-All_binding :
        (d : Dict K V) (k : K) {v : V} → All (λ b. P b.0 b.1) d → get d k ≡ some v → P k v
    unfolding get
    get-All_binding [] k h found = cc
    get-All_binding ((j, w) ∷ d) k (q, h) found = elim (==-cases k j) [
      | inl (same, hit) ↦
          subst (P k) (some-injective _ _ (rw hit at found)) (subst (λ i. P i w) (sym same) q)
      | inr miss ↦ get-All_binding d k h (rw miss at found)
    ]

  pub contains-keys-insert :
      (d : Dict K V) (k : K) (v : V) → contains (keys (insert k v d)) k ≡ true
  unfolding insert keys
  contains-keys-insert [] k v = ground arith
  contains-keys-insert ((j, w) ∷ d) k v = ground (arith, contains-keys-insert d k v)

  pub contains-keys-insert_other :
      (d : Dict K V) (k j : K) (v : V)
      → contains (keys d) j ≡ true
      → contains (keys (insert k v d)) j ≡ true
  unfolding insert keys
  contains-keys-insert_other [] k j v h = cc
  contains-keys-insert_other ((i, w) ∷ d) k j v h =
      ground (arith, contains-keys-insert_other d k j v)

  pub contains-keys_of_get :
      (d : Dict K V) (k : K) {v : V} → get d k ≡ some v → contains (keys d) k ≡ true
  unfolding get keys
  contains-keys_of_get [] k h = cc
  contains-keys_of_get ((j, w) ∷ d) k {v} h = ground (arith, contains-keys_of_get d k {v = v})

  pub contains-keys-set_default :
      (d : Dict K V) (k : K) (v : V) → contains (keys (set_default k v d)) k ≡ true
  unfolding set_default
  contains-keys-set_default d k v = elim (Option-cases (get d k)) [
    | inl missing ↦ rw (missing, set_default) (contains-keys-insert d k v)
    | inr (w, found) ↦ rw (found, set_default) (contains-keys_of_get d k found)
  ]

  pub contains-keys-set_default_other :
      (d : Dict K V) (k j : K) (v : V)
      → contains (keys d) j ≡ true
      → contains (keys (set_default k v d)) j ≡ true
  unfolding set_default
  contains-keys-set_default_other d k j v h = elim (Option-cases (get d k)) [
    | inl missing ↦ rw (missing, set_default) (contains-keys-insert_other d k j v h)
    | inr (w, found) ↦ rw (found, set_default) h
  ]

  pub set_default-All {μ} :
      (P : K → V → Type μ) (d : Dict K V) (k : K) (v : V)
      → All (λ b. P b.0 b.1) d
      → P k v
      → All (λ b. P b.0 b.1) (set_default k v d)
  unfolding set_default
  set_default-All P d k v h p = elim (Option-cases (get d k)) [
    | inl missing ↦ rw (missing, set_default) (insert-All P d k v h p)
    | inr (w, found) ↦ rw (found, set_default) h
  ]
