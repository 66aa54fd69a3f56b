-- ===== src/Migrations/Runtime/Backfill.antt =====
-- What a run of the runtime migrations guarantees to the store, and what it makes of old rows.
use mathlib.Core.Option
use mathlib.Core.Option.{some-injective}
use mathlib.Core.Path.{subst}
use role_model_helper_v.Score.{Float, nan, minus, plus, fraction}
use role_model_helper_v.Prelude.{
  ℕ, ◌≡◌, refl, ap, sym, ◌∙◌, String, Bool, true, not, ◌||◌, Option, some, List, [], ◌∷◌, map, all,
  All, nat_eq, ◌≤◌, ◌⊎◌, ==-cases, contains, string_eq, Bool-cases, Option-cases, inl, inr, arith,
}
use role_model_helper_v.Migrations.{Schema, migrated, run, apply_missing}
use role_model_helper_v.Migrations.Laws.{granted-inv, run-IsRun}
use role_model_helper_v.Migrations.Runtime.{
  MessageRow, Columns, Content, not_negative, apply_version_2, columns_of, fits, backfill, steps,
  grant, latest_schema_version, migrate,
}

-- The columns that a row should get: what its diagnostics say, and where they are silent a handled
-- deterministic turn without calls and times.
abbrev pub expected : MessageRow → MessageRow
expected row = record row {
  columns = some (record {
    route = Option.get_or row.diagnostics.route "DETERMINISTIC";
    outcome = Option.get_or row.diagnostics.outcome "HANDLED";
    gigachat_calls = Option.get_or row.diagnostics.gigachat_calls 0;
    total_ms = Option.get_or row.diagnostics.total (plus (fraction 0 1));
    gigachat_ms = Option.get_or row.diagnostics.gigachat (plus (fraction 0 1));
  });
}

-- Not below zero, as PostgreSQL compares, for which NaN is the greatest value.
abbrev pub IsNonnegative : Float → Type 0
IsNonnegative nan = Unit
IsNonnegative (minus a) = a.num ≡ 0
IsNonnegative (plus a) = Unit

-- Columns that the constraints of version 2 allow.
abbrev pub IsAllowed : Columns → Type 0
IsAllowed c =
    ((c.route ≡ "DETERMINISTIC") ⊎ (c.route ≡ "GIGACHAT_FALLBACK"))
    × ((c.outcome ≡ "HANDLED")
        ⊎ ((c.outcome ≡ "NEEDS_CLARIFICATION") ⊎ (c.outcome ≡ "PROVIDER_FAILURE")))
    × (c.gigachat_calls ≤ 1)
    × IsNonnegative c.total_ms
    × IsNonnegative c.gigachat_ms

-- A row with columns that are allowed.
abbrev pub IsBackfilled : MessageRow → Type 0
IsBackfilled row = (c : Columns) × (row.columns ≡ some c) × IsAllowed c

not_negative-IsNonnegative : (x : Float) → not_negative x ≡ true → IsNonnegative x
unfolding nat_eq
not_negative-IsNonnegative nan h = tt
not_negative-IsNonnegative (minus a) h = ground arith
not_negative-IsNonnegative (plus a) h = tt

one_of_two : (x a b : String) → contains (a ∷ b ∷ []) x ≡ true → (x ≡ a) ⊎ (x ≡ b)
one_of_two x a b h = elim (==-cases x a) [
  | inl (e, p) ↦ inl e
  | inr p ↦ elim (==-cases x b) [ inl (e, q) ↦ inr e | inr q ↦ absurd (ground (arith, p, q)) ]
]

one_of_three :
    (x a b c : String) → contains (a ∷ b ∷ c ∷ []) x ≡ true → (x ≡ a) ⊎ ((x ≡ b) ⊎ (x ≡ c))
one_of_three x a b c h = elim (==-cases x a) [
  | inl (e, p) ↦ inl e
  | inr p ↦ inr (one_of_two x b c (ground (arith, p)))
]

fits-IsAllowed : (c : Columns) → fits c ≡ true → IsAllowed c
unfolding fits
fits-IsAllowed c h = (
  one_of_two _ _ _ (ground arith),
  one_of_three _ _ _ _ (ground arith),
  ground arith,
  not_negative-IsNonnegative c.total_ms (ground arith),
  not_negative-IsNonnegative c.gigachat_ms (ground arith),
)

all-IsBackfilled :
    (rows : List MessageRow)
    → all (λ (row : MessageRow). fits (columns_of row.diagnostics)) rows ≡ true
    → All IsBackfilled (map backfill rows)
unfolding backfill
all-IsBackfilled [] h = tt
all-IsBackfilled (row ∷ rows) h = (
  (
    columns_of row.diagnostics,
    refl,
    fits-IsAllowed (columns_of row.diagnostics) (ground (arith, h)),
  ),
  all-IsBackfilled rows (ground (arith, h)),
)

map-expected : (rows : List MessageRow) → map backfill rows ≡ map expected rows
unfolding backfill columns_of
map-expected [] = refl
map-expected (row ∷ rows) = ap (λ (rest : List MessageRow). expected row ∷ rest) (map-expected rows)

abbrev fit_all : List MessageRow → Bool
fit_all = all (λ (row : MessageRow). fits (columns_of row.diagnostics))

apply_version_2-some :
    (c c' : Content) (rows : List MessageRow)
    → c.messages ≡ some rows
    → apply_version_2 c ≡ some c'
    → (c'.messages ≡ some (map backfill rows))
      × (all (λ (row : MessageRow). fits (columns_of row.diagnostics)) rows ≡ true)
unfolding apply_version_2
apply_version_2-some c c' rows there e = elim (Bool-cases (c.observed || not (fit_all rows))) [
  | inl refused ↦ cc (rw (there, refused, apply_version_2) at e)
  | inr passed ↦ (
    sym (
        ap (λ (d : Content). d.messages)
          (some-injective _ _ (rw (there, passed, apply_version_2) at e))),
    ground (arith, passed),
  )
]

grant-messages :
    (role : Option String) (s : Schema Content)
    → (grant role s).content.messages ≡ s.content.messages
unfolding grant
grant-messages role s = refl

apply_missing-second :
    (c : Content) (t : Schema Content) (rows : List MessageRow) (applied : List ℕ)
    → c.messages ≡ some rows
    → apply_missing steps (1 ∷ []) (record { versions = 1 ∷ []; content = c }) []
      ≡ some (t, applied)
    → (t.content.messages ≡ some (map backfill rows)) × (fit_all rows ≡ true)
unfolding apply_missing steps nat_eq
apply_missing-second c t rows applied there e = elim (Option-cases (apply_version_2 c)) [
  | inl failed ↦ cc (rw (failed, apply_missing) at e)
  | inr (c', made) ↦
      let (messages, fit) = apply_version_2-some c c' rows there made in
      let same = some-injective _ _ (rw (made, apply_missing) at e) in
      (sym (ap (λ (p : Schema Content × List ℕ). p.0.content.messages) same) ∙ messages, fit)
]

-- A run on a schema of version 1 gives every message the columns of version 2: each is what the
-- diagnostics of the message say, or its default where they are silent (a handled deterministic
-- turn without calls and times), and all are values that the constraints of version 2 allow.
pub migrate_backfills :
    (name v1_name : String) (app_role : Option String) (c : Content) (rows : List MessageRow)
    (s' : Schema Content) (applied : List ℕ)
    → c.messages ≡ some rows
    → migrate name v1_name app_role (record { versions = 1 ∷ []; content = c })
      ≡ migrated s' applied
    → (s'.content.messages ≡ some (map expected rows)) × All IsBackfilled (map expected rows)
unfolding migrate
migrate_backfills name v1_name app_role c rows s' applied there e =
    let start : Schema Content = record { versions = 1 ∷ []; content = c } in
    let (t, ran, same) =
      granted-inv (grant app_role) (run latest_schema_version steps name v1_name start) s' applied
        e in
    let h = run-IsRun latest_schema_version steps name v1_name start t applied ran in
    let (messages, fit) = apply_missing-second c t rows applied there h.made in
    (
      ap (λ (u : Schema Content). u.content.messages) same
          ∙ (grant-messages app_role t ∙ (messages ∙ ap some (map-expected rows))),
      subst (All IsBackfilled) (map-expected rows) (all-IsBackfilled rows fit),
    )
