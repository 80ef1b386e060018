-- ===== src/Config/Ready.antt =====
-- A configuration that `Init` and `Parse` of pkg/config/config.go accept is ready to select rules.
use istio_llm_filter.Common.{
  ◌≡◌, ◌≢◌, refl, sym, ap, ◌∙◌, subst, String, Option, none, some, List, [], ◌∷◌, map, ok, lookup,
  length, arith,
}
use istio_llm_filter.Common.Sort.{Member, Sorting, Member-perm, length-perm}
use istio_llm_filter.Config.{
  Rules, Store, RulePtr, Tuple, Mapping, LlmProxyConfig, get_rules, parse,
}
use istio_llm_filter.Config.Defaults.{Resolved}
use istio_llm_filter.Config.Init.{more_headers, to_tuple, init}
use istio_llm_filter.Config.Parse.{IsServed, parse_sound}
use istio_llm_filter.Config.Routing.{init_fields, init-IsBuilt, Member-to_tuple, IsFresh}

-- The tuples of a model: there is one, and each points to a rule of one cluster and of one backend,
-- which is known.
pub record IsUsable (store : Store) (ts : List Tuple) : Type 0 where
  pub not_empty : ts ≢ []
  pub cluster : String
  pub backend : String
  pub backend_known : backend ≢ ""
  pub resolved : (t : Tuple) → Member t ts → Resolved cluster backend store t.target_model

-- What requests rely on.
pub record IsReady (store : Store) (c : LlmProxyConfig) : Type 0 where
  pub protocol_known : c.protocol ≢ ""
  pub usable :
      (name : String) (m : Mapping)
      → lookup name c.model_mappings ≡ some m
      → IsUsable store m.tuples

ne_nil_of_length : {A : Type 0} (xs ys : List A) → length xs ≡ length ys → ys ≢ [] → xs ≢ []
ne_nil_of_length xs [] h n = absurd (n refl)
ne_nil_of_length [] (y ∷ ys) h n = absurd (omega arith)
ne_nil_of_length (x ∷ xs) (y ∷ ys) h n = λ e. cc e

map-ne-nil : (ps : List RulePtr) → ps ≢ [] → map to_tuple ps ≢ []
map-ne-nil [] n = absurd (n refl)
map-ne-nil (p ∷ ps) n = λ e. cc e

IsServed-IsUsable :
    (S : Sorting) (store0 store : Store) (r : Option Rules) (ts : List Tuple)
    → ts ≡ S.sort (more_headers store0) (map to_tuple (get_rules r))
    → IsServed store r
    → IsUsable store ts
unfolding get_rules
IsServed-IsUsable S store0 store none ts e v = absurd (cc v.present)
IsServed-IsUsable S store0 store (some rs) ts e v =
    let less = more_headers store0 in
    let same : rs.rules ≡ v.entry.rules = ap get_rules v.present in
    let perm = S.sort-perm less (map to_tuple rs.rules) in
    record {
      not_empty =
          ne_nil_of_length ts (map to_tuple rs.rules) (ap length e ∙ length-perm perm)
            (map-ne-nil rs.rules (λ h. v.not_empty (sym same ∙ h)));
      cluster = v.cluster;
      backend = v.backend;
      backend_known = v.backend_known;
      resolved = λ t m. v.resolved t.target_model (
          subst (λ x. Member t.target_model x) same
            (Member-to_tuple t rs.rules (Member-perm t perm (subst (λ x. Member t x) e m))));
    }

module _ (S : Sorting) (store : Store) where
  -- A configuration that has no computed mappings yet, or maps models, and that `Init` and then `Parse` accept, has a
  -- protocol, and each model that has a mapping has one rule or more, no nil pointer among them, all
  -- of one cluster and one backend that is not empty.
  pub parse-IsReady :
      (c c' : LlmProxyConfig) (store' : Store)
      → IsFresh c
      → init S store c ≡ ok c'
      → parse c' store ≡ ok store'
      → IsReady store' c'
  parse-IsReady c c' store' fresh inited parsed =
      let (named, d, all) = parse_sound c' store parsed in
      record {
        protocol_known = named;
        usable = λ name m found.
            (let (r, listed, sorted) = init-IsBuilt S store c c' fresh inited name m found in
              IsServed-IsUsable S store store' r m.tuples sorted (
                all name r (
                  subst (λ x. Member (name, r) x) (sym (init_fields S store c c' inited).0)
                    listed)));
      }
