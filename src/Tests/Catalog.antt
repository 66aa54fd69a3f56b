-- ===== src/Tests/Catalog.antt =====
-- The catalog, its cache and the tools on a small catalog.
use role_model_helper_v.Prelude.{
  ℕ, true, ◌≡◌, refl, ◌≢◌, ◌⊎◌, none, some, All, string_eq, nat_eq, list_eq, option_eq,
}
use role_model_helper_v.Prelude.Dict
use role_model_helper_v.Text.{codes}
use role_model_helper_v.Catalog.Normalization.{parse_department_number}
use role_model_helper_v.Catalog.Cache.{
  init, begin_refresh, finish_refresh, is_fired, loaded, raised, is_active,
}
use role_model_helper_v.Catalog.Cache.Threads.{
  Pc, loading, Shared, pick, Reach, begin, later, start, finish, pc_of, update,
}
use role_model_helper_v.Catalog.Cache.Safety.{
  single_flight, waiter_has_loader, last_good, finish_refresh_outcome, Published, Kept,
}
use role_model_helper_v.Tools.Search.{ToolCandidate, search_departments}
use role_model_helper_v.Tools.Search.Laws.{search_departments_number}
use role_model_helper_v.Tests.Data.{bundle, cache}

-- The first thread begins a load of a version, then the second asks for the same version.
abbrev one_loads : Shared
one_loads = record {
  cache = (begin_refresh "v1" init).1;
  pc = update (λ i. Pc.idle) 0 (pc_of "v1" (begin_refresh "v1" init).0);
}

abbrev pub one_waits : Shared
one_waits = record {
  cache = (begin_refresh "v1" one_loads.cache).1;
  pc = update one_loads.pc 1 (pc_of "v1" (begin_refresh "v1" one_loads.cache).0);
}

one_loads-Reach : Reach one_loads
one_loads-Reach = later begin (pick 0 (start "v1"))

pub one_waits-Reach : Reach one_waits
unfolding nat_eq
one_waits-Reach = later one_loads-Reach (pick 1 (start "v1"))

abbrev first_thread : ℕ
first_thread = 0

single_flight_example : first_thread ≡ first_thread
unfolding begin_refresh pc_of nat_eq string_eq is_active Dict.get Dict.insert
single_flight_example = single_flight one_waits-Reach first_thread first_thread "v1" 0 0 refl refl

waiter_has_loader_example :
    (is_fired 0 one_waits.cache ≡ true) ⊎ ((j : ℕ) × (one_waits.pc j ≡ loading "v1" 0))
unfolding begin_refresh pc_of nat_eq string_eq is_active Dict.get Dict.insert
waiter_has_loader_example = waiter_has_loader one_waits-Reach 1 "v1" 0 refl

abbrev active_loads : Shared
active_loads = record { cache = cache; pc = λ i. loading "v2" 0 }

abbrev active_failed : Shared
active_failed = record {
  cache = (finish_refresh "v2" 0 (raised "down") cache).1;
  pc = update active_loads.pc 0 (Pc.returned (finish_refresh "v2" 0 (raised "down") cache).0);
}

last_good_example : active_failed.cache.active ≢ none
last_good_example =
    last_good {s = active_loads} {t = active_failed} (pick 0 (finish (raised "down"))) (λ e. cc)

finish_refresh_outcome_example :
    (Published "v1" (loaded bundle) (finish_refresh "v1" 0 (loaded bundle) init)
      ⊎ Kept init (finish_refresh "v1" 0 (loaded bundle) init))
    × (Dict.get (finish_refresh "v1" 0 (loaded bundle) init).1.loading "v1" ≡ none)
    × (is_fired 0 (finish_refresh "v1" 0 (loaded bundle) init).1 ≡ true)
finish_refresh_outcome_example = finish_refresh_outcome "v1" 0 (loaded bundle) init

search_departments_number_example :
    All
      (λ (c : ToolCandidate). c.context.number ≡ some 2)
      (search_departments bundle "sales 2" none 5).candidates
unfolding parse_department_number codes nat_eq list_eq
search_departments_number_example = search_departments_number bundle "sales 2" none 5 2 refl
