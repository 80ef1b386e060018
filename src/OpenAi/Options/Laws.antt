-- ===== src/OpenAi/Options/Laws.antt =====
-- What `buildLbOptions` of pkg/transcoder/openai/transcoder.go takes from a rule, and when it panics.
use istio_llm_filter.Common.{
  ◌≡◌, ◌⊎◌, inl, inr, refl, sym, ap, ◌∙◌, String, Bool, true, false, Option, none, some, List, [],
  ◌∷◌, Dict, ok, panic, lookup, insert, lookup-insert, str_eq, if◌then◌else◌,
}
use istio_llm_filter.Config.{HeaderValue, Subset, Rule}
use istio_llm_filter.Config.Select.{NoNulls}
use istio_llm_filter.Types.Request.{LbOptions}
use istio_llm_filter.OpenAi.Options.{put_headers, put_labels, put_subsets, build_lb_options}

-- The value that a list of maps gives to a key, the last map that names it winning.
abbrev pub or_else : Option String → Option String → Option String
or_else (some v) o = some v
or_else none o = o

-- A JSON object names a key once, so its labels are read front to back or back to front alike: the
-- last value of a key.
abbrev pub last_value : String → Dict String → Option String
last_value k [] = none
last_value k ((j, v) ∷ m) = or_else (last_value k m) (if str_eq j k then some v else none)

-- A null names nothing.
abbrev pub last_label : String → List (Option Subset) → Option String
last_label k [] = none
last_label k (none ∷ ss) = last_label k ss
last_label k (some s ∷ ss) = or_else (last_label k ss) (last_value k s.labels)

abbrev pub last_header : String → List (Option HeaderValue) → Option String
last_header k [] = none
last_header k (none ∷ hs) = last_header k hs
last_header k (some h ∷ hs) =
    or_else (last_header k hs) (if str_eq h.key k then some h.value else none)

-- The last adapter that is named.
abbrev pub last_lora : String → List (Option Subset) → String
last_lora before [] = before
last_lora before (none ∷ ss) = last_lora before ss
last_lora before (some s ∷ ss) = last_lora (if str_eq s.lora "" then before else s.lora) ss

or_else_assoc : (a b c : Option String) → or_else (or_else a b) c ≡ or_else a (or_else b c)
or_else_assoc none b c = refl
or_else_assoc (some v) b c = refl

or_else_if :
    (b : Bool) (v : String) (o : Option String)
    → (if b then some v else o) ≡ or_else (if b then some v else none) o
or_else_if true v o = refl
or_else_if false v o = refl

lookup-put_labels :
    (k : String) (labels m : Dict String)
    → lookup k (put_labels labels m) ≡ or_else (last_value k labels) (lookup k m)
unfolding put_labels
lookup-put_labels k [] m = refl
lookup-put_labels k ((j, v) ∷ labels) m =
    lookup-put_labels k labels (insert j v m)
    ∙ ap (or_else (last_value k labels))
        (lookup-insert j k v m ∙ or_else_if (str_eq j k) v (lookup k m))
    ∙ sym (or_else_assoc (last_value k labels) (if str_eq j k then some v else none) (lookup k m))

or_else-none : (a : Option String) → or_else a none ≡ a
or_else-none none = refl
or_else-none (some v) = refl

put_headers_lem :
    (hs : List (Option HeaderValue)) (m : Dict String)
    → NoNulls hs
    → (out : Dict String) × (put_headers hs m ≡ ok out)
      × ((k : String) → lookup k out ≡ or_else (last_header k hs) (lookup k m))
unfolding put_headers
put_headers_lem [] m n = (m, refl, λ k. refl)
put_headers_lem (none ∷ hs) m n = absurd n
put_headers_lem (some h ∷ hs) m n =
    let (out, e, all) = put_headers_lem hs (insert h.key h.value m) n in
    (
      out,
      e,
      λ k.
          all k
          ∙ ap (or_else (last_header k hs))
              (lookup-insert h.key k h.value m ∙ or_else_if (str_eq h.key k) h.value (lookup k m))
          ∙ sym (
              or_else_assoc (last_header k hs) (if str_eq h.key k then some h.value else none)
                (lookup k m)),
    )

-- What the loop over the subsets makes of the options before it.
record IsPut (ss : List (Option Subset)) (opts out : LbOptions) : Type 0 where
  lora : out.lora_id ≡ last_lora opts.lora_id ss
  route : out.route_name ≡ opts.route_name
  headers : out.headers ≡ opts.headers
  labels : (k : String) → lookup k out.selector ≡ or_else (last_label k ss) (lookup k opts.selector)

put_subsets_lem :
    (ss : List (Option Subset)) (opts : LbOptions)
    → NoNulls ss
    → (out : LbOptions) × (put_subsets ss opts ≡ ok out) × IsPut ss opts out
unfolding put_subsets
put_subsets_lem [] opts n =
    (opts, refl, record { lora = refl; route = refl; headers = refl; labels = λ k. refl })
put_subsets_lem (none ∷ ss) opts n = absurd n
put_subsets_lem (some s ∷ ss) opts n =
    let (out, e, v) = put_subsets_lem ss _ n in
    (
      out,
      e,
      record {
        lora = v.lora;
        route = v.route;
        headers = v.headers;
        labels = λ k.
            v.labels k
            ∙ ap (or_else (last_label k ss)) (lookup-put_labels k s.labels opts.selector)
            ∙ sym
                (or_else_assoc (last_label k ss) (last_value k s.labels) (lookup k opts.selector));
      },
    )

-- One nil is enough for a panic, wherever it stands.
put_headers_null :
    (hs : List (Option HeaderValue)) (m : Dict String) → ¬ NoNulls hs → put_headers hs m ≡ panic
unfolding put_headers
put_headers_null [] m n = absurd (n tt)
put_headers_null (none ∷ hs) m n = refl
put_headers_null (some h ∷ hs) m n = put_headers_null hs (insert h.key h.value m) n

put_subsets_null :
    (ss : List (Option Subset)) (opts : LbOptions) → ¬ NoNulls ss → put_subsets ss opts ≡ panic
unfolding put_subsets
put_subsets_null [] opts n = absurd (n tt)
put_subsets_null (none ∷ ss) opts n = refl
put_subsets_null (some s ∷ ss) opts n = put_subsets_null ss _ n

-- The options of a rule: its route name, the last adapter that a subset names, and of each header and
-- of each label the last value that the rule gives it.
pub record IsOptions (rule : Rule) (opts : LbOptions) : Type 0 where
  pub route : opts.route_name ≡ rule.route_name
  pub lora : opts.lora_id ≡ last_lora "" rule.subset
  pub headers : (k : String) → lookup k opts.headers ≡ last_header k rule.headers
  pub labels : (k : String) → lookup k opts.selector ≡ last_label k rule.subset

module _ (rule : Rule) where
  start : Dict String → LbOptions
  start headers = record {
    route_name = rule.route_name;
    lora_id = "";
    headers = headers;
    selector = [];
  }

  pub build_lb_options_total :
      NoNulls rule.headers
      → NoNulls rule.subset
      → (opts : LbOptions) × (build_lb_options (some rule) ≡ ok (some opts)) × IsOptions rule opts
  unfolding build_lb_options start
  build_lb_options_total nh ns =
      let (headers, eh, all) = put_headers_lem rule.headers [] nh in
      let (opts, es, v) = put_subsets_lem rule.subset (start headers) ns in
      (
        opts,
        rw (eh, es) refl,
        record {
          route = v.route;
          lora = v.lora;
          headers =
              λ k. ap (lookup k) v.headers ∙ all k ∙ or_else-none (last_header k rule.headers);
          labels = λ k. v.labels k ∙ or_else-none (last_label k rule.subset);
        },
      )

  null_header : ¬ NoNulls rule.headers → build_lb_options (some rule) ≡ panic
  unfolding build_lb_options
  null_header n = rw (put_headers_null rule.headers [] n) refl

  null_subset : NoNulls rule.headers → ¬ NoNulls rule.subset → build_lb_options (some rule) ≡ panic
  unfolding build_lb_options start
  null_subset nh n =
      let (headers, eh, all) = put_headers_lem rule.headers [] nh in
      rw (eh, put_subsets_null rule.subset (start headers) n) refl

NoNulls-cases : {A : Type 0} (xs : List (Option A)) → NoNulls xs ⊎ (¬ NoNulls xs)
NoNulls-cases [] = inl tt
NoNulls-cases (none ∷ xs) = inr (λ n. n)
NoNulls-cases (some x ∷ xs) = NoNulls-cases xs

-- A rule without a null among its headers and its subsets has options; they carry the rule's route
-- name and the last adapter that a subset names, and the value of each header and of each label is the
-- last one that the rule gives it. A rule with a null among them makes `buildLbOptions` panic.
pub build_lb_options_lem :
    (rule : Rule)
    → (NoNulls rule.headers
        × NoNulls rule.subset
        × ((opts : LbOptions) × (build_lb_options (some rule) ≡ ok (some opts))
            × IsOptions rule opts))
      ⊎ ((¬ (NoNulls rule.headers × NoNulls rule.subset)) × (build_lb_options (some rule) ≡ panic))
build_lb_options_lem rule = elim (NoNulls-cases rule.headers) [
  | inr nh ↦ inr ((λ n. nh n.0), null_header rule nh)
  | inl nh ↦ elim (NoNulls-cases rule.subset) [
    | inr ns ↦ inr ((λ n. ns n.1), null_subset rule nh ns)
    | inl ns ↦ inl (nh, ns, build_lb_options_total rule nh ns)
  ]
]
