-- ===== src/Telemetry.antt =====
-- app/telemetry.py. The clock is a function from the number of a reading to its value; a trace
-- counts the readings that were taken. `time.perf_counter` never goes back, so a difference of two
-- readings is the truncated one.
use role_model_helper_v.Prelude.{ℕ, suc, ◌+◌, ◌-◌, String, Bool}
use role_model_helper_v.Agent.Models.{RouteSource, Outcome, Durations, TurnDiagnostics}

abbrev pub Clock : Type 0
Clock = ℕ → ℕ

-- `_COMPONENTS`
pub data Component : Type 0 where
  state_read retrieval agent gigachat state_write : Component

pub record TurnTrace : Type 0 where
  pub readings : ℕ
  pub started : ℕ
  pub trace_id : String
  pub request_id : String
  pub catalog_version : String
  pub cache_hit : Bool
  pub durations : Durations

abbrev no_durations : Durations
no_durations = record {
  state_read = 0;
  retrieval = 0;
  agent = 0;
  gigachat = 0;
  state_write = 0;
  total = 0;
}

module _ (clock : Clock) where
  -- `TurnTrace.start`, the first reading of the clock
  unfoldable pub start : String → String → String → Bool → TurnTrace
  start trace_id request_id catalog_version cache_hit = record {
    readings = 1;
    started = clock 0;
    trace_id = trace_id;
    request_id = request_id;
    catalog_version = catalog_version;
    cache_hit = cache_hit;
    durations = no_durations;
  }

  -- `component`, up to `yield`: the reading, and the trace after it.
  unfoldable pub enter : TurnTrace → ℕ × TurnTrace
  enter t = (clock t.readings, record t { readings = suc t.readings })

  add_duration : Component → ℕ → Durations → Durations
  add_duration state_read n d = record d { state_read = d.state_read + n }
  add_duration retrieval n d = record d { retrieval = d.retrieval + n }
  add_duration agent n d = record d { agent = d.agent + n }
  add_duration gigachat n d = record d { gigachat = d.gigachat + n }
  add_duration state_write n d = record d { state_write = d.state_write + n }

  -- The `finally` of `component`.
  unfoldable pub leave : Component → ℕ → TurnTrace → TurnTrace
  unfolding add_duration
  leave component started t = record t {
    readings = suc t.readings;
    durations = add_duration component (clock t.readings - started) t.durations;
  }

  -- `finish` reads the clock and copies the durations.
  unfoldable pub finish : RouteSource → Outcome → ℕ → TurnTrace → TurnDiagnostics
  finish route outcome gigachat_calls t = record {
    trace_id = t.trace_id;
    request_id = t.request_id;
    route = route;
    outcome = outcome;
    catalog_version = t.catalog_version;
    cache_hit = t.cache_hit;
    gigachat_calls = gigachat_calls;
    durations = record t.durations { total = clock t.readings - t.started };
  }
