-- ===== src/Catalog/Cache/Safety.antt =====
-- What holds in every reachable state of the cache and its threads.
use role_model_helper_v.Prelude.{
  ℕ, String, ◌≡◌, refl, ◌≢◌, ◌⊎◌, inl, inr, true, false, Option, none, some, arith,
}
use role_model_helper_v.Prelude.{nat_eq, string_eq, list_eq, Option-cases}
use role_model_helper_v.Prelude.Dict
use mathlib.Core.Option.{none-ne-some}
use role_model_helper_v.Catalog.Bundle.{CatalogBundle}
use role_model_helper_v.Catalog.Cache.{
  Cache, RefreshResult, Freshness, empty, ready, Loaded, loaded, raised, begin_refresh,
  finish_refresh, woken_result, record_source_error, is_fired, active_version_of,
}
use role_model_helper_v.Catalog.Cache.Threads.{
  Pc, idle, loading, waiting, returned, pc_of, Move, start, finish, wake, no_pointer, again, update,
  Shared, Step, pick, Reach, begin, later,
}

-- `EMPTY` as long as nothing was loaded, and never after.
abbrev FreshnessFits : Option CatalogBundle → Freshness → Type 0
FreshnessFits none f = f ≡ empty
FreshnessFits (some b) f = f ≢ empty

pub record StatusFits (c : Cache) : Type 0 where
  pub version : c.status.active_version ≡ active_version_of c.active
  pub freshness : FreshnessFits c.active c.status.freshness
  pub ready_has_no_error : c.status.freshness ≡ ready → c.status.last_error ≡ none

record_source_error-StatusFits :
    (e : String) (c : Cache) → StatusFits c → StatusFits (record_source_error e c)
unfolding record_source_error
record_source_error-StatusFits e c h = record {
  version = refl;
  freshness = ground arith;
  ready_has_no_error = ground arith;
}

begin_refresh-StatusFits :
    (v : String) (c : Cache) → StatusFits c → StatusFits (begin_refresh v c).1
unfolding begin_refresh
begin_refresh-StatusFits v c h = record {
  version = ground arith;
  freshness = ground arith;
  ready_has_no_error = ground arith;
}

finish_refresh-StatusFits :
    (v : String) (e : ℕ) (l : Loaded) (c : Cache)
    → StatusFits c
    → StatusFits (finish_refresh v e l c).1
unfolding finish_refresh
finish_refresh-StatusFits v e l c h = record {
  version = ground arith;
  freshness = ground arith;
  ready_has_no_error = ground arith;
}

Move-StatusFits : {c c' : Cache} {p q : Pc} → Move c p c' q → StatusFits c → StatusFits c'
Move-StatusFits {c} (start v) h = begin_refresh-StatusFits v c h
Move-StatusFits {c} (finish {version = v} {event = e} l) h = finish_refresh-StatusFits v e l c h
Move-StatusFits (wake f) h = h
Move-StatusFits {c} (no_pointer e) h = record_source_error-StatusFits e c h
Move-StatusFits again h = h

-- The part of the loader of a version is held by exactly one thread while it is in `_loading`, and
-- who waits is woken or waits for such a thread.
pub record Coordinated (c : Cache) (pc : ℕ → Pc) : Type 0 where
  pub owner : (i : ℕ) (v : String) (e : ℕ) → pc i ≡ loading v e → Dict.get c.loading v ≡ some e
  pub unique : (i j : ℕ) (v : String) (e f : ℕ) → pc i ≡ loading v e → pc j ≡ loading v f → i ≡ j
  pub owned : (v : String) (e : ℕ) → Dict.get c.loading v ≡ some e → (i : ℕ) × (pc i ≡ loading v e)
  pub waiter :
      (i : ℕ) (v : String) (e : ℕ)
      → pc i ≡ waiting v e
      → (is_fired e c ≡ true) ⊎ (Dict.get c.loading v ≡ some e)

module _ {c : Cache} {pc : ℕ → Pc} (inv : Coordinated c pc) (i : ℕ) where
  open inv use {owner, unique, owned, waiter}

  start-Coordinated :
      (w : String)
      → pc i ≡ idle
      → Coordinated (begin_refresh w c).1 (update pc i (pc_of w (begin_refresh w c).0))
  unfolding begin_refresh pc_of is_fired
  start-Coordinated w here = record {
    owner = λ j v e q. ground (arith, owner j v e, Dict.get-insert c.loading w v c.next_event);
    unique = λ a b v e f p q. ground (arith, unique a b v e f, owner a v e, owner b v f);
    owned = λ v e q. elim (Option-cases (Dict.get c.loading v)) [
      | inr (d, old) ↦
          let (j, held) = owned v d old in
          (j, ground (arith, Dict.get-insert c.loading w v c.next_event))
      | inl fresh ↦ (i, ground (arith, Dict.get-insert c.loading w v c.next_event))
    ];
    waiter = λ j v e q. ground (arith, waiter j v e, Dict.get-insert c.loading w v c.next_event);
  }

  finish-Coordinated :
      (w : String) (d : ℕ) (l : Loaded)
      → pc i ≡ loading w d
      → Coordinated (finish_refresh w d l c).1 (update pc i (returned (finish_refresh w d l c).0))
  unfolding finish_refresh is_fired
  finish-Coordinated w d l here = record {
    owner = λ j v e q. ground (arith, owner j v e, unique i j v d e, Dict.get-erase c.loading w v);
    unique = λ a b v e f p q. ground (arith, unique a b v e f);
    owned = λ v e q.
        let (j, held) = owned v e (ground (arith, Dict.get-erase c.loading w v)) in
        (j, ground (arith, Dict.get-erase c.loading w v));
    waiter = λ j v e q. ground (arith, waiter j v e, owner i w d, Dict.get-erase c.loading w v);
  }

  -- A thread that leaves `refresh`, or stays outside, while the events stay as they are.
  leave-Coordinated :
      (c' : Cache) (p : Pc)
      → c'.loading ≡ c.loading
      → c'.fired ≡ c.fired
      → ((v : String) (e : ℕ) → pc i ≢ loading v e)
      → ((v : String) (e : ℕ) → p ≢ loading v e)
      → ((v : String) (e : ℕ) → p ≢ waiting v e)
      → Coordinated c' (update pc i p)
  unfolding is_fired
  leave-Coordinated c' p same_loading same_fired before out unwaiting = record {
    owner = λ j v e q. ground (arith, owner j v e, out v e);
    unique = λ a b v e f p q. ground (arith, unique a b v e f, out v e, out v f);
    owned = λ v e q. let (j, held) = owned v e (ground arith) in (j, ground (arith, before v e));
    waiter = λ j v e q. ground (arith, waiter j v e, unwaiting v e);
  }

  Move-Coordinated :
      {p q : Pc} {c' : Cache} → pc i ≡ p → Move c p c' q → Coordinated c' (update pc i q)
  unfolding record_source_error
  Move-Coordinated here (start w) = start-Coordinated w here
  Move-Coordinated here (finish {version = w} {event = d} l) = finish-Coordinated w d l here
  Move-Coordinated here (wake {version = w} {event = d} f) =
      leave-Coordinated c (returned (woken_result w c)) refl refl (λ v e q. cc) (λ v e q. cc)
        (λ v e q. cc)
  Move-Coordinated here (no_pointer error) =
      leave-Coordinated (record_source_error error c) idle refl refl (λ v e q. cc) (λ v e q. cc)
        (λ v e q. cc)
  Move-Coordinated here again =
      leave-Coordinated c idle refl refl (λ v e q. cc) (λ v e q. cc) (λ v e q. cc)

Reach-Coordinated : {s : Shared} → Reach s → Coordinated s.cache s.pc
unfolding Dict.get
Reach-Coordinated begin = record {
  owner = λ i v e q. cc;
  unique = λ i j v e f p q. cc;
  owned = λ v e q. absurd (none-ne-some e q);
  waiter = λ i v e q. cc;
}
Reach-Coordinated (later r (pick i move)) = Move-Coordinated (Reach-Coordinated r) i refl move

-- Single flight: in every reachable state at most one thread is loading a given version.
pub single_flight :
    {s : Shared} (reach : Reach s) (i j : ℕ) (v : String) (e f : ℕ)
    → s.pc i ≡ loading v e
    → s.pc j ≡ loading v f
    → i ≡ j
single_flight reach = (Reach-Coordinated reach).unique

-- Nobody waits for ever on a load that nobody makes: a thread that waits has been woken, or some
-- thread is loading the version with the event that it waits for.
pub waiter_has_loader :
    {s : Shared} (reach : Reach s) (i : ℕ) (v : String) (e : ℕ)
    → s.pc i ≡ waiting v e
    → (is_fired e s.cache ≡ true) ⊎ ((j : ℕ) × (s.pc j ≡ loading v e))
waiter_has_loader reach i v e q = elim ((Reach-Coordinated reach).waiter i v e q) [
  | inl f ↦ inl f
  | inr g ↦ inr ((Reach-Coordinated reach).owned v e g)
]

Reach-StatusFits : {s : Shared} → Reach s → StatusFits s.cache
Reach-StatusFits begin = record { version = refl; freshness = refl; ready_has_no_error = λ q. refl }
Reach-StatusFits (later r (pick i move)) = Move-StatusFits move (Reach-StatusFits r)

-- The status that clients read is the state: in every reachable state its version is that of the
-- active bundle, it is `EMPTY` exactly while no bundle is active, and with `READY` goes no error.
pub status_fits : {s : Shared} → Reach s → StatusFits s.cache
status_fits = Reach-StatusFits

Move-keeps_active : {c c' : Cache} {p q : Pc} → Move c p c' q → c.active ≢ none → c'.active ≢ none
unfolding begin_refresh finish_refresh record_source_error
Move-keeps_active (start v) h = ground arith
Move-keeps_active (finish l) h = ground arith
Move-keeps_active (wake f) h = h
Move-keeps_active (no_pointer e) h = h
Move-keeps_active again h = h

-- Last-good fallback: once a bundle is active, no step of any thread leaves the cache without one.
pub last_good : {s t : Shared} → Step s t → s.cache.active ≢ none → t.cache.active ≢ none
last_good (pick i move) h = Move-keeps_active move h

abbrev pub Published : String → Loaded → RefreshResult × Cache → Type 0
Published v l r =
    (b : CatalogBundle) × (l ≡ loaded b)
    × (b.version ≡ v)
    × (r.1.active ≡ some b)
    × (r.0.activated ≡ true)

abbrev pub Kept : Cache → RefreshResult × Cache → Type 0
Kept c r = (r.1.active ≡ c.active) × (r.0.activated ≡ false) × (r.0.error ≢ none)

-- The outcome of a load: either it gave a bundle of the version that was asked for, which is now
-- the active one and reported as activated, or the active bundle stays and the result has an
-- error. In both cases the version is no longer loading and the event of its waiters is set.
pub finish_refresh_outcome :
    (v : String) (e : ℕ) (l : Loaded) (c : Cache)
    → (Published v l (finish_refresh v e l c) ⊎ Kept c (finish_refresh v e l c))
      × (Dict.get (finish_refresh v e l c).1.loading v ≡ none)
      × (is_fired e (finish_refresh v e l c).1 ≡ true)
unfolding finish_refresh is_fired
finish_refresh_outcome v e (raised m) c =
    (inr (refl, refl, λ q. cc), ground (arith, Dict.get-erase c.loading v v), ground arith)
finish_refresh_outcome v e (loaded b) c = (
  elim (string_eq.dec b.version v) [
    | yes p ↦ inl (b, refl, p, ground arith, ground arith)
    | no p ↦ inr (ground arith, ground arith, λ q. ground arith)
  ],
  ground (arith, Dict.get-erase c.loading v v),
  ground arith,
)
