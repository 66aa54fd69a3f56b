-- ===== src/Prelude/Dict.antt =====
-- Python's `dict`, in insertion order: a key that is written again keeps its place.
pub mod Laws
use mathlib.Core.Path.{◌≡◌, refl}
use mathlib.Core.Option.{Option, none, some}
use mathlib.Core.Option
use mathlib.Core.List.{List, [], ◌∷◌, map}
use native.Mathlib.Omega.{arith}
use role_model_helper_v.Prelude.Lists.{All}
use mathlib.Core.Path.{subst}
use mathlib.Core.Option.{some-injective}
use mathlib.Core.Logic.{inl, inr}
use role_model_helper_v.Prelude.Equality.{Bool-cases, Eq, ◌==◌, if◌then◌else◌, string_eq}

abbrev pub Dict {ℓ κ} : Type ℓ → Type κ → Type (ℓ ⊔ κ)
Dict K V = List (K × V)

module _ {ℓ κ} {K : Type ℓ} {V : Type κ} ⦃e : Eq K⦄ where
  -- `d.get(k)`
  unfoldable pub get : Dict K V → K → Option V
  get [] k = none
  get ((j, v) ∷ d) k = if k == j then some v else get d k

  -- `d[k] = v`
  unfoldable pub insert : K → V → Dict K V → Dict K V
  insert k v [] = (k, v) ∷ []
  insert k v ((j, w) ∷ d) = if k == j then (j, v) ∷ d else (j, w) ∷ insert k v d

  -- `d.get(k, v)`, and the value of `d.setdefault(k, v)`
  abbrev pub get_or : Dict K V → K → V → V
  get_or d k v = Option.get_or (get d k) v

  -- The dict after `d.setdefault(k, v)`.
  unfoldable pub set_default : K → V → Dict K V → Dict K V
  unfolding get
  set_default k v d = elim (get d k) [ some _ ↦ d | none ↦ insert k v d ]

  -- `d.pop(k, None)`
  unfoldable pub erase : K → Dict K V → Dict K V
  erase k [] = []
  erase k ((j, w) ∷ d) = let rest = erase k d in if k == j then rest else (j, w) ∷ rest

  -- `{**d, **m}`
  unfoldable pub update : Dict K V → Dict K V → Dict K V
  update d [] = d
  update d ((k, v) ∷ m) = update (insert k v d) m

  pub get-insert :
      (d : Dict K V) (k j : K) (v : V) → get (insert k v d) j ≡ (if j == k then some v else get d j)
  unfolding insert get
  get-insert [] k j v = refl
  get-insert ((i, w) ∷ d) k j v = ground (arith, get-insert d k j v)

  pub get-erase : (d : Dict K V) (k j : K) → get (erase k d) j ≡ (if j == k then none else get d j)
  unfolding erase get
  get-erase [] k j = ground arith
  get-erase ((i, w) ∷ d) k j = ground (arith, get-erase d k j)

-- What holds of every value holds of a value that is found.
pub get-All {ℓ κ μ} :
    {K : Type ℓ} {V : Type κ} ⦃e : Eq K⦄ (P : V → Type μ) (d : Dict K V) (k : K) {v : V}
    → All (λ b. P b.1) d
    → get d k ≡ some v
    → P v
unfolding get
get-All P [] k h q = cc
get-All P ((j, w) ∷ d) k (p, h) q = elim (Bool-cases (k == j)) [
  | inl hit ↦ subst P (some-injective _ _ (rw hit at q)) p
  | inr miss ↦ get-All P d k h (rw miss at q)
]

unfoldable pub values {ℓ κ} : {K : Type ℓ} {V : Type κ} → Dict K V → List V
values = map (λ (k, v). v)

unfoldable pub keys {ℓ κ} : {K : Type ℓ} {V : Type κ} → Dict K V → List K
keys = map (λ (k, v). k)

pub ruleset dict_laws = (get-insert, get-erase)
