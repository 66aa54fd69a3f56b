-- ===== src/Catalog/Cache/Threads.antt =====
-- Any number of threads in `refresh` and `refresh_active`, in any order. The source is free: a
-- load may return any bundle or fail with any error, at any time after it began.
use role_model_helper_v.Prelude.{ℕ, String, ◌≡◌, true, ◌==◌, nat_eq, if◌then◌else◌}
use role_model_helper_v.Catalog.Cache.{
  Cache, RefreshResult, Begun, hit, load, wait, Loaded, init, begin_refresh, finish_refresh,
  woken_result, record_source_error, is_fired,
}

-- Where a thread stands in `refresh`.
pub data Pc : Type 0 where
  idle : Pc
  loading : String → ℕ → Pc
  waiting : String → ℕ → Pc
  returned : RefreshResult → Pc

unfoldable pub pc_of : String → Begun → Pc
pc_of version (hit r) = returned r
pc_of version (load event) = loading version event
pc_of version (wait event) = waiting version event

-- One step of a thread. `refresh_active` begins a refresh of the version that its source points
-- to, or records the source's error.
pub data Move (c : Cache) : Pc → Cache → Pc → Type 0 where
  start :
      (version : String)
      → Move c idle (begin_refresh version c).1 (pc_of version (begin_refresh version c).0)
  finish :
      {version : String} {event : ℕ} (outcome : Loaded)
      → Move c
          (loading version event)
          (finish_refresh version event outcome c).1
          (returned (finish_refresh version event outcome c).0)
  wake :
      {version : String} {event : ℕ}
      → is_fired event c ≡ true
      → Move c (waiting version event) c (returned (woken_result version c))
  no_pointer : (error : String) → Move c idle (record_source_error error c) idle
  again : {r : RefreshResult} → Move c (returned r) c idle

abbrev pub update : (ℕ → Pc) → ℕ → Pc → ℕ → Pc
update pc i p j = if i == j then p else pc j

pub record Shared : Type 0 where
  pub cache : Cache
  pub pc : ℕ → Pc

pub data Step (s : Shared) : Shared → Type 0 where
  pick :
      (i : ℕ) {c : Cache} {p : Pc}
      → Move s.cache (s.pc i) c p
      → Step s (record { cache = c; pc = update s.pc i p })

abbrev pub start_state : Shared
start_state = record { cache = init; pc = λ i. idle }

pub data Reach : Shared → Type 0 where
  begin : Reach start_state
  later : {s t : Shared} → Reach s → Step s t → Reach t
