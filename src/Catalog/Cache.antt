-- ===== src/Catalog/Cache.antt =====
-- `CatalogCache` of app/catalog/cache.py. Each function below is one critical section under
-- `_lock`; what a thread does between two of them (loading, waiting) is in Cache/Threads.
pub mod Threads
pub mod Safety
use role_model_helper_v.Prelude.{
  ℕ, suc, String, Bool, true, false, ◌&&◌, Option, none, some, List, [], ◌∷◌,
}
use role_model_helper_v.Prelude.{◌==◌, contains, nat_eq, string_eq, if◌then◌else◌, ◌<>◌}
use mathlib.Core.Option
use role_model_helper_v.Prelude.Dict
use role_model_helper_v.Prelude.Dict.{Dict}
use role_model_helper_v.Catalog.Bundle.{CatalogBundle}

pub data Freshness : Type 0 where
  empty ready degraded : Freshness

pub record CacheStatus : Type 0 where
  pub freshness : Freshness
  pub active_version : Option String
  pub last_error : Option String

pub record RefreshResult : Type 0 where
  pub version : String
  pub activated : Bool
  pub cache_hit : Bool
  pub error : Option String

-- `_loading` maps a version to its `threading.Event`, here a number; `fired` has the events that
-- are set, and `next_event` has not been used.
pub record Cache : Type 0 where
  pub active : Option CatalogBundle
  pub status : CacheStatus
  pub loading : Dict String ℕ
  pub fired : List ℕ
  pub next_event : ℕ

abbrev pub init : Cache
init = record {
  active = none;
  status = record { freshness = empty; active_version = none; last_error = none };
  loading = [];
  fired = [];
  next_event = 0;
}

abbrev pub active_version_of : Option CatalogBundle → Option String
active_version_of none = none
active_version_of (some b) = some b.version

-- `self._active is not None and self._active.version == version`
unfoldable pub is_active : Option CatalogBundle → String → Bool
is_active none version = false
is_active (some b) version = b.version == version

-- `get`; `none` stands for `CatalogUnavailable`.
unfoldable pub current : Cache → Option CatalogBundle
current c = c.active

pub data Begun : Type 0 where
  hit : RefreshResult → Begun
  load wait : ℕ → Begun

-- The first section of `refresh`: a hit, or the part of the loader or of a waiter.
unfoldable pub begin_refresh : String → Cache → Begun × Cache
unfolding is_active
begin_refresh version c =
    if is_active c.active version
    then (
      hit (record { version = version; activated = false; cache_hit = true; error = none }),
      record c {
        status = record { freshness = ready; active_version = some version; last_error = none };
      },
    )
    else elim (Dict.get c.loading version) [
      | none ↦ (
        load c.next_event,
        record c {
          loading = Dict.insert version c.next_event c.loading;
          next_event = suc c.next_event;
        },
      )
      | some event ↦ (wait event, c)
    ]

-- `self._status.last_error or f"Catalog {version} was not activated"`
waiter_error : Option String → String → String
waiter_error none version = "Catalog " <> version <> " was not activated"
waiter_error (some e) version = if e == "" then "Catalog " <> version <> " was not activated" else e

-- What a waiter returns after `event.wait()`.
unfoldable pub woken_result : String → Cache → RefreshResult
unfolding is_active waiter_error
woken_result version c =
    if is_active c.active version
    then record { version = version; activated = false; cache_hit = true; error = none }
    else record {
      version = version;
      activated = false;
      cache_hit = false;
      error = some (waiter_error c.status.last_error version);
    }

-- `CacheStatus(DEGRADED if active else EMPTY, …, error)`
unfoldable pub error_status : Option CatalogBundle → String → CacheStatus
error_status active error = record {
  freshness = elim active [ none ↦ empty | some b ↦ degraded ];
  active_version = active_version_of active;
  last_error = some error;
}

-- What the source's `load` gives: a bundle, or an exception with its text.
pub data Loaded : Type 0 where
  loaded : CatalogBundle → Loaded
  raised : String → Loaded

-- The section after an exception, and the result that is returned behind it.
unfoldable pub fail_refresh : String → ℕ → String → Cache → RefreshResult × Cache
unfolding error_status
fail_refresh version event error c = (
  record { version = version; activated = false; cache_hit = false; error = some error },
  record c {
    status = error_status c.active error;
    loading = Dict.erase version c.loading;
    fired = event ∷ c.fired;
  },
)

-- The last section of `refresh`: the bundle is published.
unfoldable pub publish_refresh : String → ℕ → CatalogBundle → Cache → RefreshResult × Cache
publish_refresh version event bundle c = (
  record { version = version; activated = true; cache_hit = false; error = none },
  record c {
    active = some bundle;
    status = record { freshness = ready; active_version = some bundle.version; last_error = none };
    loading = Dict.erase version c.loading;
    fired = event ∷ c.fired;
  },
)

-- What the loader does with the outcome of `load`; a bundle of another version is an error,
-- whose text has each version between quotes (`!r`, without its escapes).
unfoldable pub finish_refresh : String → ℕ → Loaded → Cache → RefreshResult × Cache
unfolding fail_refresh publish_refresh
finish_refresh version event (raised error) c = fail_refresh version event error c
finish_refresh version event (loaded bundle) c =
    if bundle.version == version
    then publish_refresh version event bundle c
    else fail_refresh version event
        ("Loaded catalog version '" <> bundle.version <> "', expected '" <> version <> "'") c

-- `_record_source_error`
unfoldable pub record_source_error : String → Cache → Cache
unfolding error_status
record_source_error error c = record c { status = error_status c.active error }

unfoldable pub is_fired : ℕ → Cache → Bool
unfolding nat_eq
is_fired event c = contains c.fired event
