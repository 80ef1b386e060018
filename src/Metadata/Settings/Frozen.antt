-- ===== src/Metadata/Settings/Frozen.antt =====
-- The guarded settings of pkg/metadata/client.go against settings that are read once and for all.
use mathlib.Core.Path.{fun_ext}
use istio_llm_filter.Common.{
  ◌≡◌, refl, ap, ◌∙◌, Bool, true, false, not, List, [], ◌∷◌, map, str_eq, if◌then◌else◌, arith,
}
use istio_llm_filter.Common.Int.{pos}
use istio_llm_filter.Metadata.Environment.{Env, get_env_int}
use istio_llm_filter.Metadata.Settings.{
  Vars, initial, Setting, enabled, cache_enabled, fetch_metric_timeout, fetch_cache_timeout, Answer,
  switch, timeout, read, answers,
}

-- What an environment says of a setting.
unfoldable pub stated : Env → Setting → Answer
stated env enabled = switch (not (str_eq (env "METADATA_CENTER_HOST") ""))
stated env cache_enabled = switch (not (str_eq (env "METADATA_CENTER_HOST") ""))
stated env fetch_metric_timeout =
    timeout (get_env_int env "METADATA_CENTER_FETCH_METRIC_TIMEOUT" (pos 100))
stated env fetch_cache_timeout =
    timeout (get_env_int env "METADATA_CENTER_FETCH_CACHE_TIMEOUT" (pos 100))

-- Whether two settings come from one variable of the environment.
unfoldable pub shares : Setting → Setting → Bool
shares enabled enabled = true
shares enabled cache_enabled = true
shares cache_enabled enabled = true
shares cache_enabled cache_enabled = true
shares fetch_metric_timeout fetch_metric_timeout = true
shares fetch_cache_timeout fetch_cache_timeout = true
shares q r = false

-- The environment of the first read that decides a setting.
unfoldable pub first_env : Setting → List (Setting × Env) → Env
first_env r [] = λ key. ""
first_env r ((q, env) ∷ es) = if shares q r then env else first_env r es

record IsSettled (s : Vars) : Type 0 where
  host_done : s.cache_enabled.is_done ≡ true → s.enabled.is_done ≡ true
  same : s.cache_enabled.is_done ≡ true → s.cache_enabled.value ≡ s.enabled.value

initial-IsSettled : IsSettled initial
initial-IsSettled = record { host_done = λ h. absurd (cc h); same = λ h. absurd (cc h) }

-- What a setting will be, in variables of which some are set, over the reads to come.
expected : Vars → List (Setting × Env) → Setting → Answer
expected s es enabled =
    if s.enabled.is_done then switch s.enabled.value else stated (first_env enabled es) enabled
expected s es cache_enabled =
    if s.enabled.is_done
    then switch s.enabled.value
    else stated (first_env cache_enabled es) cache_enabled
expected s es fetch_metric_timeout =
    if s.fetch_metric_timeout.is_done
    then timeout s.fetch_metric_timeout.value
    else stated (first_env fetch_metric_timeout es) fetch_metric_timeout
expected s es fetch_cache_timeout =
    if s.fetch_cache_timeout.is_done
    then timeout s.fetch_cache_timeout.value
    else stated (first_env fetch_cache_timeout es) fetch_cache_timeout

read-IsSettled : (r : Setting) (env : Env) (s : Vars) → IsSettled s → IsSettled (read r env s).0
unfolding read
read-IsSettled enabled env s v = ground arith
read-IsSettled cache_enabled env s v = ground arith
read-IsSettled fetch_metric_timeout env s v = ground arith
read-IsSettled fetch_cache_timeout env s v = ground arith

read-expected :
    (r : Setting) (env : Env) (es : List (Setting × Env)) (s : Vars)
    → IsSettled s
    → (read r env s).1 ≡ expected s ((r, env) ∷ es) r
unfolding read expected stated first_env shares
read-expected enabled env es s v = ground arith
read-expected cache_enabled env es s v = ground arith
read-expected fetch_metric_timeout env es s v = ground arith
read-expected fetch_cache_timeout env es s v = ground arith

-- A read changes nothing in what is expected.
read_keeps :
    (q : Setting) (env : Env) (es : List (Setting × Env)) (s : Vars) (r : Setting)
    → IsSettled s
    → expected (read q env s).0 es r ≡ expected s ((q, env) ∷ es) r
unfolding read expected stated first_env shares
read_keeps enabled env es s r v = ground arith
read_keeps cache_enabled env es s r v = ground arith
read_keeps fetch_metric_timeout env es s r v = ground arith
read_keeps fetch_cache_timeout env es s r v = ground arith

answers-expected :
    (es : List (Setting × Env)) (s : Vars)
    → IsSettled s
    → answers es s ≡ map (λ e. expected s es e.0) es
unfolding answers
answers-expected [] s v = refl
answers-expected ((r, env) ∷ es) s v =
    let s' = (read r env s).0 in
    rw
      (
        read-expected r env es s v,
        answers-expected es s' (read-IsSettled r env s v),
        fun_ext (λ (e : Setting × Env). read_keeps r env es s e.0 v),
      )
      refl

expected-initial :
    (es : List (Setting × Env)) (r : Setting) → expected initial es r ≡ stated (first_env r es) r
unfolding expected
expected-initial es enabled = refl
expected-initial es cache_enabled = refl
expected-initial es fetch_metric_timeout = refl
expected-initial es fetch_cache_timeout = refl

-- From the start of the process, over any sequence of reads of the settings and whatever becomes of the
-- environment between them: each read answers what the environment said at the first read that
-- concerned its variable. So a setting never changes, and `IsCacheEnabled` always agrees with
-- `IsEnabled`, whichever of them comes first.
pub answers_frozen :
    (es : List (Setting × Env)) → answers es initial ≡ map (λ e. stated (first_env e.0 es) e.0) es
answers_frozen es =
    answers-expected es initial initial-IsSettled
    ∙ ap (λ (f : Setting × Env → Answer). map f es)
        (fun_ext (λ (e : Setting × Env). expected-initial es e.0))
