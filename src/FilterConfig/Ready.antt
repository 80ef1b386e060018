-- ===== src/FilterConfig/Ready.antt =====
-- What `ConfigParser.Parse` of pkg/filter/config.go guarantees.
use istio_llm_filter.Common.{
  ℕ, ◌≡◌, ◌≢◌, refl, sym, ap, ◌∙◌, List, [], ◌∷◌, Result, ok, err, panic, >>=-eq-ok, subst,
}
use istio_llm_filter.Common.Sort.{Sorting}
use istio_llm_filter.Config.{LlmProxyConfig, Store, protocol_required, parse}
use istio_llm_filter.Config.Init.{init}
use istio_llm_filter.Config.Routing.{IsFresh}
use istio_llm_filter.Config.Ready.{IsReady, parse-IsReady}
use istio_llm_filter.FilterConfig.{
  ConfigError, invalid, malformed, map_err, Unmarshal, decoded, parse_config,
}

pub map_err-eq-ok :
    {E F A : Type 0} (f : E → F) (r : Result E A) {a : A} → map_err f r ≡ ok a → r ≡ ok a
map_err-eq-ok f (ok b) h = cc
map_err-eq-ok f (err e) h = absurd (cc h)
map_err-eq-ok f panic h = absurd (cc h)

-- The document, if it maps no models, does not fill in the mappings either, which the code means to
-- compute: it has no key `ModelMappings`.
abbrev pub NamesNoMappings : Unmarshal → List ℕ → Type 0
NamesNoMappings unmarshal bytes =
    (c : LlmProxyConfig) (s : Store) → unmarshal bytes ≡ ok (c, s) → IsFresh c

-- How an accepted configuration came about.
pub record IsAccepted (S : Sorting) (c' : LlmProxyConfig) (store' : Store) : Type 0 where
  pub cfg : LlmProxyConfig
  pub store : Store
  pub fresh : IsFresh cfg
  pub inited : init S store cfg ≡ ok c'
  pub parsed : parse c' store ≡ ok store'

module _ (S : Sorting) (unmarshal : Unmarshal) where
  decoded-IsFresh :
      (bytes : List ℕ) (c : LlmProxyConfig) (s : Store)
      → NamesNoMappings unmarshal bytes
      → decoded S unmarshal bytes ≡ ok (c, s)
      → IsFresh c
  decoded-IsFresh [] c s names h unmapped = sym (
      ap
        (λ (r : Result ConfigError (LlmProxyConfig × Store)). elim r [
          | ok p ↦ p.0.model_mappings
          | err e ↦ []
          | panic ↦ []
        ])
        h)
  decoded-IsFresh (b ∷ bytes) c s names h unmapped =
      names c s (map_err-eq-ok malformed (unmarshal (b ∷ bytes)) h) unmapped

  pub parse_config-IsAccepted :
      (bytes : List ℕ) (c' : LlmProxyConfig) (store' : Store)
      → NamesNoMappings unmarshal bytes
      → parse_config S unmarshal bytes ≡ ok (c', store')
      → IsAccepted S c' store'
  unfolding parse_config
  parse_config-IsAccepted bytes c' store' names h =
      let ((cfg, store), e1, h1) = >>=-eq-ok (decoded S unmarshal bytes) _ h in
      let (cfg1, e2, h2) = >>=-eq-ok (map_err invalid (init S store cfg)) _ h1 in
      let (store1, e3, h3) = >>=-eq-ok (map_err invalid (parse cfg1 store)) _ h2 in
      let same_c : cfg1 ≡ c' = cc in
      let same_s : store1 ≡ store' = cc in
      record {
        cfg = cfg;
        store = store;
        fresh = decoded-IsFresh bytes cfg store names e1;
        inited = map_err-eq-ok invalid (init S store cfg) e2 ∙ ap ok same_c;
        parsed =
            subst (λ x. parse x store ≡ ok store') same_c
              (map_err-eq-ok invalid (parse cfg1 store) e3 ∙ ap ok same_s);
      }

  parse_config_empty : parse_config S unmarshal [] ≡ err (invalid protocol_required)
  unfolding parse_config init parse
  parse_config_empty = refl

  -- A configuration that `ConfigParser.Parse` returns is ready, provided that its document does not,
  -- mapping no models, fill in the computed mappings itself: it names a protocol, and each model that
  -- has a mapping has one rule or more, no nil pointer among them, all of one cluster and one known
  -- backend; and the bytes were not empty.
  pub parse_config-IsReady :
      (bytes : List ℕ) (c' : LlmProxyConfig) (store' : Store)
      → NamesNoMappings unmarshal bytes
      → parse_config S unmarshal bytes ≡ ok (c', store')
      → IsReady store' c' × (bytes ≢ [])
  parse_config-IsReady bytes c' store' names h =
      let v = parse_config-IsAccepted bytes c' store' names h in
      (
        parse-IsReady S v.store v.cfg c' store' v.fresh v.inited v.parsed,
        λ e. cc (sym (ap (parse_config S unmarshal) e ∙ parse_config_empty) ∙ h),
      )
