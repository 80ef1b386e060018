-- ===== src/Metadata/Settings.antt =====
-- The settings of pkg/metadata/client.go that a `sync.Once` guards: `IsEnabled`, `IsCacheEnabled`
-- and the timeouts of the two queries. The environment may change between the calls. A `Once` lets
-- one caller in at a time, so that the calls of several goroutines are a sequence.
pub mod Frozen
use istio_llm_filter.Common.{
  ◌≡◌, refl, ap, ◌∙◌, String, Bool, true, false, not, Option, none, some, List, [], ◌∷◌, map,
  str_eq, if◌then◌else◌, arith,
}
use istio_llm_filter.Common.Int.{ℤ, pos}
use istio_llm_filter.Metadata.Environment.{Env, get_env_int}

-- A variable with its `sync.Once`, and `Do` with the body that sets the variable.
pub record Once (A : Type 0) : Type 0 where
  pub is_done : Bool
  pub value : A

abbrev pub do_once : {A : Type 0} → A → Once A → Once A
do_once v o = if o.is_done then o else record { is_done = true; value = v }

pub record Vars : Type 0 where
  pub enabled : Once Bool
  pub cache_enabled : Once Bool
  pub fetch_metric_timeout : Once ℤ
  pub fetch_cache_timeout : Once ℤ

abbrev pub initial : Vars
initial = record {
  enabled = record { is_done = false; value = false };
  cache_enabled = record { is_done = false; value = false };
  fetch_metric_timeout = record { is_done = false; value = pos 100 };
  fetch_cache_timeout = record { is_done = false; value = pos 100 };
}

-- `IsEnabled`
unfoldable pub is_enabled : Env → Vars → Vars × Bool
is_enabled env s =
    let once = do_once (not (str_eq (env "METADATA_CENTER_HOST") "")) s.enabled in
    (record s { enabled = once }, once.value)

-- `IsCacheEnabled`, whose `Do` calls `IsEnabled`.
unfoldable pub is_cache_enabled : Env → Vars → Vars × Bool
unfolding is_enabled
is_cache_enabled env s =
    if s.cache_enabled.is_done
    then (s, s.cache_enabled.value)
    else (let (s', b) = is_enabled env s in
        (record s' { cache_enabled = record { is_done = true; value = b } }, b))

-- The timeouts of `QueryLoad` and `QueryKVCache`, in milliseconds.
unfoldable pub metric_timeout : Env → Vars → Vars × ℤ
metric_timeout env s =
    let once =
      do_once (get_env_int env "METADATA_CENTER_FETCH_METRIC_TIMEOUT" (pos 100))
        s.fetch_metric_timeout in
    (record s { fetch_metric_timeout = once }, once.value)

unfoldable pub cache_timeout : Env → Vars → Vars × ℤ
cache_timeout env s =
    let once =
      do_once (get_env_int env "METADATA_CENTER_FETCH_CACHE_TIMEOUT" (pos 100))
        s.fetch_cache_timeout in
    (record s { fetch_cache_timeout = once }, once.value)

pub data Setting : Type 0 where
  enabled : Setting
  cache_enabled : Setting
  fetch_metric_timeout : Setting
  fetch_cache_timeout : Setting

pub data Answer : Type 0 where
  switch : Bool → Answer
  timeout : ℤ → Answer

abbrev pub switched : Vars × Bool → Vars × Answer
switched (s, b) = (s, switch b)

abbrev pub timed : Vars × ℤ → Vars × Answer
timed (s, t) = (s, timeout t)

unfoldable pub read : Setting → Env → Vars → Vars × Answer
unfolding is_enabled is_cache_enabled metric_timeout cache_timeout
read enabled env s = switched (is_enabled env s)
read cache_enabled env s = switched (is_cache_enabled env s)
read fetch_metric_timeout env s = timed (metric_timeout env s)
read fetch_cache_timeout env s = timed (cache_timeout env s)

-- A sequence of reads, each in the environment of its moment.
unfoldable pub answers : List (Setting × Env) → Vars → List Answer
answers [] s = []
answers ((r, env) ∷ es) s = let (s', a) = read r env s in a ∷ answers es s'
