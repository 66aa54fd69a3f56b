-- ===== src/Bootstrap/Laws.antt =====
-- What holds of the program once it has started.
use role_model_helper_v.Prelude.{
  String, ◌≡◌, ◌≢◌, ◌⊎◌, inl, inr, refl, Bool, true, false, none, some, List, [], ◌∷◌, string_eq,
  arith, ==-cases, ◌==◌, not, sym, ap, ◌∙◌,
}
use role_model_helper_v.Prelude.Dict
use role_model_helper_v.Catalog.Bundle.{CatalogBundle}
use role_model_helper_v.Catalog.Cache.{
  Cache, Loaded, loaded, raised, init, current, begin_refresh, finish_refresh, RefreshResult,
}
use role_model_helper_v.Gigachat.Token.{authorization, is_set}
use role_model_helper_v.Settings.{Settings, Collision, collisions, gigachat_enabled}
use role_model_helper_v.Migrations.Runtime
use role_model_helper_v.Bootstrap.{
  World, PlannerKind, unavailable, fixed_token, managed, Startup, started, Chosen, chosen, ended,
  choose, refresh_alone, finish_startup, start_with, unless_collisions, build_runtime,
  build_planner, manager_of, with_token, choose_release, choose_file,
}

-- The new cache holds the bundle that was loaded, or has no version.
refresh_alone-init :
    (version : String) (outcome : Loaded)
    → ((b : CatalogBundle) × (outcome ≡ loaded b
          × (b.version ≡ version × current (refresh_alone version outcome init).1 ≡ some b)))
      ⊎ (((refresh_alone version outcome init).0.activated ≡ false)
          × ((refresh_alone version outcome init).1.status.active_version ≡ none))
unfolding refresh_alone begin_refresh finish_refresh current Dict.get
refresh_alone-init version (raised e) = inr (refl, refl)
refresh_alone-init version (loaded b) = elim (==-cases b.version version) [
  | inl (e, p) ↦ inl (b, (refl, (e, rw p refl)))
  | inr p ↦ inr (rw p refl, rw p refl)
]

-- Whether a planner is off, has a token, or has the means to ask for one.
unfoldable pub can_authorize : (String → String) → PlannerKind → Bool
can_authorize encode unavailable = true
can_authorize encode (fixed_token token) = not (token == "")
can_authorize encode (managed m) = elim (authorization encode m) [ none ↦ false | some h ↦ true ]

build_planner-can_authorize :
    (encode : String → String) (s : Settings) → can_authorize encode (build_planner s) ≡ true
unfolding build_planner can_authorize authorization gigachat_enabled is_set manager_of with_token
build_planner-can_authorize encode s = ground arith

finish_startup-started :
    (s : Settings) (world : World) (x : RefreshResult × Cache) (c : Cache) (planner : PlannerKind)
    → finish_startup s world x ≡ started c planner
    → (x.1 ≡ c)
      × ((Runtime.verify_ready world.runtime_schema ≡ true)
          × ((planner ≡ build_planner s)
              × ((x.0.activated ≡ false) → x.1.status.active_version ≢ none)))
unfolding finish_startup
finish_startup-started s world (r, d) c planner h =
    (ground arith, (ground arith, (ground arith, λ a e. ground arith)))

choose-ended :
    (s : Settings) (world : World) (c : Cache) (planner : PlannerKind)
    → choose s world ≢ ended (started c planner)
unfolding choose choose_release choose_file
choose-ended s world c planner h = ground arith

-- What a started program has: settings in which the check of the isolation finds nothing, the bundle of the version that was chosen, as the
-- source loaded it, a migrated store, and a planner that is off, has a token, or has the means to ask for one.
abbrev pub IsRunning :
    (String → String) → (String → String) → Settings → World → Cache → PlannerKind → Type 0
IsRunning resolve encode s world c planner =
    (collisions resolve s ≡ [])
    × (((b : CatalogBundle) × (choose s world ≡ chosen b.version (loaded b) × current c ≡ some b))
        × ((Runtime.verify_ready world.runtime_schema ≡ true)
            × (can_authorize encode planner ≡ true)))

running :
    (resolve encode : String → String) (s : Settings) (world : World) (x : Chosen) (c : Cache)
    (planner : PlannerKind)
    → collisions resolve s ≡ []
    → choose s world ≡ x
    → start_with s world x ≡ started c planner
    → IsRunning resolve encode s world c planner
unfolding start_with
running resolve encode s world (ended e) c planner apart q h =
    absurd (choose-ended s world c planner (q ∙ ap ended h))
running resolve encode s world (chosen version outcome) c planner apart q h =
    let done = finish_startup-started s world (refresh_alone version outcome init) c planner h in
    elim (refresh_alone-init version outcome) [
      | inr (idle, bare) ↦ absurd (done.1.1.1 idle bare)
      | inl (b, (made, (same, held))) ↦ (
        apart,
        (
          (
            b,
            (
              q ∙ ap (chosen version) made ∙ ap (λ v. chosen v (loaded b)) (sym same),
              ap current (sym done.0) ∙ held,
            ),
          ),
          (done.1.0, rw (done.1.1.0) (build_planner-can_authorize encode s)),
        ),
      )
    ]

unless_collisions-started :
    (xs : List Collision) (next : Startup) (c : Cache) (planner : PlannerKind)
    → unless_collisions xs next ≡ started c planner
    → (xs ≡ []) × (next ≡ started c planner)
unfolding unless_collisions
unless_collisions-started [] next c planner h = (refl, h)
unless_collisions-started (x ∷ xs) next c planner h = absurd (ground arith)

-- Whenever `build_runtime` succeeds, the check of the isolation finds nothing in the settings, the cache holds the bundle that the
-- chosen source gives for the chosen version, which is the version of the bundle, the schema of the
-- store is migrated, and the planner is off, has a token, or has the means to ask for one.
pub build_runtime-IsRunning :
    (resolve encode : String → String) (s : Settings) (world : World) (c : Cache)
    (planner : PlannerKind)
    → build_runtime resolve s world ≡ started c planner
    → IsRunning resolve encode s world c planner
unfolding build_runtime
build_runtime-IsRunning resolve encode s world c planner h =
    let (apart, h') = unless_collisions-started (collisions resolve s) _ c planner h in
    running resolve encode s world (choose s world) c planner apart refl h'
