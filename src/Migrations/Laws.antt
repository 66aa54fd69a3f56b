-- ===== src/Migrations/Laws.antt =====
-- What a run of the migrations leaves behind.
use role_model_helper_v.Prelude.{
  ℕ, ◌≤◌, ◌≡◌, refl, ap, sym, ◌∙◌, String, Bool, true, false, ◌||◌, Option, none, some, List, [],
  ◌∷◌, ◌++◌, ◌==◌, ==-cases, ==-refl, nat_eq, string_eq, ltb, contains, any, all, map, Option-cases,
  Bool-cases, inl, inr, arith,
}
use mathlib.Core.Path.{subst}
use mathlib.Core.Option.{some-injective}
use role_model_helper_v.Text.{strip}
use role_model_helper_v.Migrations.{
  Schema, Migration, migrated, not_migrated, Steps, newest, apply_missing, run, granted, with_role,
  is_ready,
}

newest_bound : (latest : ℕ) (vs : List ℕ) → any (ltb latest) vs ≡ false → newest vs ≤ latest
unfolding newest
newest_bound latest [] h = omega arith
newest_bound latest (v ∷ vs) h = ground (arith, newest_bound latest vs)

contains-le_newest : (v : ℕ) (vs : List ℕ) → contains vs v ≡ true → v ≤ newest vs
unfolding newest nat_eq
contains-le_newest v [] h = cc
contains-le_newest v (w ∷ vs) h = ground (arith, contains-le_newest v vs)

-- No version is newer than the latest.
abbrev pub IsSupported : ℕ → List ℕ → Type 0
IsSupported latest vs = any (ltb latest) vs ≡ false

module _ {ℓ} {D : Type ℓ} where
  abbrev versions_of : Steps D → List ℕ
  versions_of = map (λ s. s.0)

  abbrev with_version : Schema D → ℕ → D → Schema D
  with_version s w content = record { versions = w ∷ s.versions; content = content }

  -- A step is passed over, or is applied before the others.
  data FirstStep (w : ℕ) (step : D → Option D) (steps : Steps D) (existing : List ℕ) (s : Schema D)
      (applied : List ℕ) (out : Option (Schema D × List ℕ)) : Type ℓ where
    passed :
        contains existing w ≡ true
        → apply_missing steps existing s applied ≡ out
        → FirstStep w step steps existing s applied out
    taken :
        (content : D)
        → contains existing w ≡ false
        → step s.content ≡ some content
        → apply_missing steps existing (with_version s w content) (applied ++ w ∷ []) ≡ out
        → FirstStep w step steps existing s applied out

  first_step :
      (w : ℕ) (step : D → Option D) (steps : Steps D) (existing : List ℕ) (s : Schema D)
      (applied : List ℕ) (r : Schema D × List ℕ)
      → apply_missing ((w, step) ∷ steps) existing s applied ≡ some r
      → FirstStep w step steps existing s applied (some r)
  unfolding apply_missing
  first_step w step steps existing s applied r e = elim (Bool-cases (contains existing w)) [
    | inl there ↦ passed there (rw there at e)
    | inr missing ↦ elim (Option-cases (step s.content)) [
      | inl stuck ↦ cc (rw (missing, stuck, apply_missing) at e)
      | inr (content, made) ↦ taken content missing made (rw (missing, made, apply_missing) at e)
    ]
  ]

  apply_missing-kept :
      (v : ℕ) (steps : Steps D) (existing : List ℕ) (s : Schema D) (applied : List ℕ)
      (r : Schema D × List ℕ)
      → apply_missing steps existing s applied ≡ some r
      → contains s.versions v ≡ true
      → contains r.0.versions v ≡ true
  unfolding apply_missing
  apply_missing-kept v [] existing s applied r e h =
      subst (λ (q : Schema D × List ℕ). contains q.0.versions v ≡ true) (some-injective _ _ e) h
  apply_missing-kept v ((w, step) ∷ steps) existing s applied r e h =
      elim (first_step w step steps existing s applied r e) [
        | passed there q ↦ apply_missing-kept v steps existing s applied r q h
        | taken content missing made q ↦
            apply_missing-kept v steps existing (with_version s w content) (applied ++ w ∷ []) r q
              (ground (arith, h))
      ]

  -- The version of every step that was missing is there.
  apply_missing-added :
      (v : ℕ) (steps : Steps D) (existing : List ℕ) (s : Schema D) (applied : List ℕ)
      (r : Schema D × List ℕ)
      → apply_missing steps existing s applied ≡ some r
      → contains (versions_of steps) v ≡ true
      → contains existing v ≡ false
      → contains r.0.versions v ≡ true
  unfolding apply_missing
  apply_missing-added v [] existing s applied r e h missing = cc
  apply_missing-added v ((w, step) ∷ steps) existing s applied r e h new =
      elim (first_step w step steps existing s applied r e) [
        | passed there q ↦
            apply_missing-added v steps existing s applied r q (ground (arith, there)) new
        | taken content missing made q ↦ elim (==-cases v w) [
          | inl (same, hit) ↦
              apply_missing-kept v steps existing (with_version s w content) (applied ++ w ∷ []) r q
                (ground (arith, hit))
          | inr other ↦
              apply_missing-added v steps existing (with_version s w content) (applied ++ w ∷ []) r
                q (ground (arith, other)) new
        ]
      ]

  apply_missing-IsSupported :
      (latest : ℕ) (steps : Steps D) (existing : List ℕ) (s : Schema D) (applied : List ℕ)
      (r : Schema D × List ℕ)
      → apply_missing steps existing s applied ≡ some r
      → IsSupported latest (versions_of steps)
      → IsSupported latest s.versions
      → IsSupported latest r.0.versions
  unfolding apply_missing
  apply_missing-IsSupported latest [] existing s applied r e k h =
      subst (λ (q : Schema D × List ℕ). IsSupported latest q.0.versions) (some-injective _ _ e) h
  apply_missing-IsSupported latest ((w, step) ∷ steps) existing s applied r e k h =
      elim (first_step w step steps existing s applied r e) [
        | passed there q ↦
            apply_missing-IsSupported latest steps existing s applied r q (ground (arith, k)) h
        | taken content missing made q ↦
            apply_missing-IsSupported latest steps existing (with_version s w content)
              (applied ++ w ∷ []) r q (ground (arith, k)) (ground (arith, k, h))
      ]

  -- Where no step is missing, nothing happens.
  apply_missing-none :
      (steps : Steps D) (existing : List ℕ) (s : Schema D) (applied : List ℕ)
      → all (contains existing) (versions_of steps) ≡ true
      → apply_missing steps existing s applied ≡ some (s, applied)
  unfolding apply_missing
  apply_missing-none [] existing s applied h = refl
  apply_missing-none ((w, step) ∷ steps) existing s applied h =
      elim (Bool-cases (contains existing w)) [
        | inl there ↦ rw there (apply_missing-none steps existing s applied (rw there at h))
        | inr missing ↦ cc (rw missing at h)
      ]

all_of_contains :
    (p : ℕ → Bool) (vs : List ℕ) → ((v : ℕ) → contains vs v ≡ true → p v ≡ true) → all p vs ≡ true
all_of_contains p [] h = refl
all_of_contains p (v ∷ vs) h =
    rw (h v (ground arith), all_of_contains p vs (λ w m. h w (ground (arith, m))))

abbrev outcome {ℓ} : {D : Type ℓ} → Migration D → Option (Schema D × List ℕ)
outcome (migrated s applied) = some (s, applied)
outcome (not_migrated e) = none

-- A run that succeeds passed every guard, and applied what was missing.
pub record IsRun {ℓ} {D : Type ℓ} (latest : ℕ) (steps : Steps D) (name v1_name : String)
    (s s' : Schema D) (applied : List ℕ) : Type ℓ where
  pub named : (strip name == "") ≡ false
  pub apart : (name == v1_name) ≡ false
  pub supported : IsSupported latest s.versions
  pub made : apply_missing steps s.versions s [] ≡ some (s', applied)

module _ {ℓ} {D : Type ℓ} (latest : ℕ) (steps : Steps D) (name v1_name : String) (s s' : Schema D)
    (applied : List ℕ) where
  pub run-IsRun :
      run latest steps name v1_name s ≡ migrated s' applied
      → IsRun latest steps name v1_name s s' applied
  unfolding run
  run-IsRun e = elim (Bool-cases (strip name == "")) [
    | inl blank ↦ cc (rw (blank, run) at e)
    | inr named ↦ elim (Bool-cases (name == v1_name)) [
      | inl same ↦ cc (rw (named, same, run) at e)
      | inr apart ↦ elim (Bool-cases (any (ltb latest) s.versions)) [
        | inl newer ↦ cc (rw (named, apart, newer, run) at e)
        | inr supported ↦ elim (Option-cases (apply_missing steps s.versions s [])) [
          | inl stuck ↦ cc (rw (named, apart, supported, stuck, run) at e)
          | inr (r, made) ↦ record {
            named = named;
            apart = apart;
            supported = supported;
            made = made ∙ ap outcome (rw (named, apart, supported, made, run) at e);
          }
        ]
      ]
    ]
  ]

  IsRun-run :
      IsRun latest steps name v1_name s s' applied
      → run latest steps name v1_name s ≡ migrated s' applied
  unfolding run
  IsRun-run h = rw (h.named, h.apart, h.supported, h.made, run)

module _ {ℓ} {D : Type ℓ} (latest : ℕ) (steps : Steps D) (name v1_name : String) (s s' : Schema D)
    (applied : List ℕ) (last : contains (versions_of steps) latest ≡ true)
    (known : IsSupported latest (versions_of steps))
    (h : IsRun latest steps name v1_name s s' applied) where
  run-contains : (v : ℕ) → contains (versions_of steps) v ≡ true → contains s'.versions v ≡ true
  run-contains v there = elim (Bool-cases (contains s.versions v)) [
    | inl old ↦ apply_missing-kept v steps s.versions s [] (s', applied) h.made old
    | inr new ↦ apply_missing-added v steps s.versions s [] (s', applied) h.made there new
  ]

  run-IsSupported : IsSupported latest s'.versions
  run-IsSupported =
      apply_missing-IsSupported latest steps s.versions s [] (s', applied) h.made known h.supported

  newest_after : newest s'.versions ≡ latest
  newest_after = omega (
    arith,
    newest_bound latest s'.versions run-IsSupported,
    contains-le_newest latest s'.versions (run-contains latest last),
  )

  -- A run on a schema with the versions that a run left applies nothing.
  run_again :
      (t : Schema D) → t.versions ≡ s'.versions → run latest steps name v1_name t ≡ migrated t []
  run_again t e = IsRun-run latest steps name v1_name t t [] (record {
    named = h.named;
    apart = h.apart;
    supported = rw e run-IsSupported;
    made =
        apply_missing-none steps t.versions t []
          (rw e (all_of_contains (contains s'.versions) (versions_of steps) run-contains));
  })

pub granted-inv {ℓ} :
    {D : Type ℓ} (grant : Schema D → Schema D) (m : Migration D) (s' : Schema D) (applied : List ℕ)
    → granted grant m ≡ migrated s' applied
    → (s : Schema D) × (m ≡ migrated s applied) × (s' ≡ grant s)
unfolding granted
granted-inv {D} grant (migrated s applied') s' applied e =
    let same = ap outcome e in
    let pair : ◌≡◌ {A = Schema D × List ℕ} (grant s, applied') (s', applied) =
      some-injective _ _ same in
    (
      s,
      ap (λ (a : List ℕ). migrated s a) (ap (λ (p : Schema D × List ℕ). p.1) pair),
      sym (ap (λ (p : Schema D × List ℕ). p.0) pair),
    )
granted-inv grant (not_migrated x) s' applied e = absurd (ground arith)

-- Where the steps end with the latest version and the grants change no version and need not be
-- made twice, the schema is ready after a run, and a second run changes nothing.
pub granted_run {ℓ} :
    {D : Type ℓ} (latest : ℕ) (steps : Steps D) (name v1_name : String)
    (grant : Schema D → Schema D) (s s' : Schema D) (applied : List ℕ)
    → contains (versions_of steps) latest ≡ true
    → IsSupported latest (versions_of steps)
    → ((t : Schema D) → (grant t).versions ≡ t.versions)
    → ((t : Schema D) → grant (grant t) ≡ grant t)
    → granted grant (run latest steps name v1_name s) ≡ migrated s' applied
    → (is_ready latest s' ≡ true)
      × (granted grant (run latest steps name v1_name s') ≡ migrated s' [])
unfolding is_ready granted
granted_run {D} latest steps name v1_name grant s s' applied last known keeps once e =
    let (t, ran, same) = granted-inv grant (run latest steps name v1_name s) s' applied e in
    let h = run-IsRun latest steps name v1_name s t applied ran in
    let versions : s'.versions ≡ t.versions = ap (λ (u : Schema D). u.versions) same ∙ keeps t in
    (
      rw (versions, newest_after latest steps name v1_name s t applied last known h)
          (==-refl latest),
      rw (run_again latest steps name v1_name s t applied last known h s' versions)
          (ap (λ (u : Schema D). migrated u []) (ap grant same ∙ (once t ∙ sym same))),
    )

contains-append_last : (xs : List String) (x : String) → contains (xs ++ x ∷ []) x ≡ true
contains-append_last [] x = ground arith
contains-append_last (y ∷ xs) x = ground (arith, contains-append_last xs x)

with_role-done :
    (role : String) (xs : List String)
    → (role == "" || contains xs role) ≡ true
    → with_role (some role) xs ≡ xs
unfolding with_role
with_role-done role xs h = rw h

with_role-fresh :
    (role : String) (xs : List String)
    → (role == "" || contains xs role) ≡ false
    → with_role (some role) xs ≡ xs ++ role ∷ []
unfolding with_role
with_role-fresh role xs h = rw h

pub with_role_again :
    (role : Option String) (xs : List String)
    → with_role role (with_role role xs) ≡ with_role role xs
unfolding with_role
with_role_again none xs = refl
with_role_again (some role) xs = elim (Bool-cases (role == "" || contains xs role)) [
  | inl done ↦ ap (with_role (some role)) (with_role-done role xs done)
  | inr fresh ↦
      let e = with_role-fresh role xs fresh in
      ap (with_role (some role)) e
      ∙ (with_role-done role (xs ++ role ∷ []) (ground (arith, contains-append_last xs role))
          ∙ sym e)
]
