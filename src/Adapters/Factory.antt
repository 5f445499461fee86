-- ===== src/Adapters/Factory.antt =====
-- pkg/adapters/factory.go: `New` and the constructors of the three kinds of adapter. A missing key of
-- the configuration reads as the empty string, and `json.Unmarshal` into a map is a parameter.
use kedastral.Base.{
  ◌≡◌, refl, sym, ap, ◌∙◌, inl, inr, Bool-cases, String, Bool, true, false, not, Option, none, some,
  [], if◌then◌else◌, ◌&&◌, ◌||◌, str_eq, arith,
}
use kedastral.Base.Int.{ℤ}
use kedastral.Base.Dict.{Dict, lookup}
use kedastral.Base.Result.{Result, ok, err, ◌>>=◌}
use kedastral.Adapters.Collect.{RangeAdapter}

-- `HTTPAdapter`, less the HTTP client.
pub record HttpAdapter : Type 0 where
  pub url : String
  pub method : String
  pub headers : Dict String
  pub body : String
  pub value_path : String
  pub timestamp_path : String
  pub timestamp_format : String
  pub step_seconds : ℤ
  pub template_vars : Dict String

pub data Adapter : Type 0 where
  prometheus : RangeAdapter → Adapter
  victoria_metrics : RangeAdapter → Adapter
  http : HttpAdapter → Adapter

pub data FactoryError : Type 0 where
  unknown_kind : String → FactoryError
  requires : String → FactoryError
  invalid_json : String → FactoryError

-- `config[key]`
abbrev pub get : Dict String → String → String
get config key = elim (lookup key config) [ none ↦ "" | some v ↦ v ]

abbrev pub or_else : String → String → String
or_else s fallback = if str_eq s "" then fallback else s

unfoldable pub new_prometheus : Dict String → ℤ → Result FactoryError Adapter
new_prometheus config step =
    if str_eq (get config "query") ""
    then err (requires "query")
    else ok (
        prometheus record {
          server_url = or_else (get config "url") "http://localhost:9090";
          query = get config "query";
          step_seconds = step;
        })

unfoldable pub new_victoria_metrics : Dict String → ℤ → Result FactoryError Adapter
new_victoria_metrics config step =
    if str_eq (get config "query") ""
    then err (requires "query")
    else ok (
        victoria_metrics record {
          server_url = or_else (get config "url") "http://localhost:8428";
          query = get config "query";
          step_seconds = step;
        })

-- The required fields are there.
abbrev pub is_configured : Adapter → Bool
is_configured (prometheus a) = not (str_eq a.server_url "") && not (str_eq a.query "")
is_configured (victoria_metrics a) = not (str_eq a.server_url "") && not (str_eq a.query "")
is_configured (http a) =
    not (str_eq a.url "") && (not (str_eq a.value_path "") && not (str_eq a.timestamp_path ""))

-- An adapter that is made is configured.
abbrev makes_configured : Result FactoryError Adapter → Bool
makes_configured (err e) = true
makes_configured (ok a) = is_configured a

if_configured :
    (b : Bool) (r s : Result FactoryError Adapter)
    → makes_configured r ≡ true
    → (b ≡ false → makes_configured s ≡ true)
    → makes_configured (if b then r else s) ≡ true
if_configured true r s h k = h
if_configured false r s h k = k refl

>>=_configured :
    (r : Result FactoryError (Dict String)) (f : Dict String → Result FactoryError Adapter)
    → ((d : Dict String) → makes_configured (f d) ≡ true)
    → makes_configured (r >>= f) ≡ true
>>=_configured (ok d) f h = h d
>>=_configured (err e) f h = refl

all_set : (u p q : Bool) → u ≡ false → (p || q) ≡ false → (not u && (not p && not q)) ≡ true
all_set u p q h k = ground arith

or_else_nonempty :
    (s fallback : String) → str_eq fallback "" ≡ false → str_eq (or_else s fallback) "" ≡ false
or_else_nonempty s fallback h = elim (Bool-cases (str_eq s "")) [
  | inl e ↦ rw e h
  | inr e ↦ rw (e, e) refl
]

new_prometheus_lem :
    (config : Dict String) (step : ℤ) → makes_configured (new_prometheus config step) ≡ true
unfolding new_prometheus
new_prometheus_lem config step = elim (Bool-cases (str_eq (get config "query") "")) [
  | inl e ↦ rw e refl
  | inr e ↦ rw (e, e, or_else_nonempty (get config "url") "http://localhost:9090" refl) refl
]

new_victoria_metrics_lem :
    (config : Dict String) (step : ℤ) → makes_configured (new_victoria_metrics config step) ≡ true
unfolding new_victoria_metrics
new_victoria_metrics_lem config step = elim (Bool-cases (str_eq (get config "query") "")) [
  | inl e ↦ rw e refl
  | inr e ↦ rw (e, e, or_else_nonempty (get config "url") "http://localhost:8428" refl) refl
]

module _ (unmarshal : String → Option (Dict String)) where
  -- A JSON object of strings at `key`, if there is one.
  abbrev pub json_field : Dict String → String → Result FactoryError (Dict String)
  json_field config key =
      if str_eq (get config key) ""
      then ok []
      else elim (unmarshal (get config key)) [ none ↦ err (invalid_json key) | some d ↦ ok d ]

  unfoldable pub new_http : Dict String → ℤ → Result FactoryError Adapter
  new_http config step =
      if str_eq (get config "url") ""
      then err (requires "url")
      else if str_eq (get config "valuePath") "" || str_eq (get config "timestampPath") ""
      then err (requires "valuePath")
      else json_field config "headers" >>= (λ (headers : Dict String).
        json_field config "templateVars" >>= (λ (vars : Dict String). ok (
          http record {
            url = get config "url";
            method = or_else (get config "method") "GET";
            headers = headers;
            body = get config "body";
            value_path = get config "valuePath";
            timestamp_path = get config "timestampPath";
            timestamp_format = or_else (get config "timestampFormat") "rfc3339";
            step_seconds = step;
            template_vars = vars;
          })))

  unfoldable pub new : String → Dict String → ℤ → Result FactoryError Adapter
  unfolding new_http
  new kind config step =
      if str_eq kind "prometheus"
      then new_prometheus config step
      else if str_eq kind "victoriametrics"
      then new_victoria_metrics config step
      else if str_eq kind "http"
      then new_http config step
      else err (unknown_kind kind)

  new_http_lem : (config : Dict String) (step : ℤ) → makes_configured (new_http config step) ≡ true
  unfolding new_http
  new_http_lem config step =
      if_configured (str_eq (get config "url") "") _ _ refl
        (λ (u : str_eq (get config "url") "" ≡ false).
          if_configured
            (str_eq (get config "valuePath") "" || str_eq (get config "timestampPath") "") _ _ refl
            (λ (v : (str_eq (get config "valuePath") "" || str_eq (get config "timestampPath") "")
                ≡ false).
              >>=_configured (json_field config "headers") _ (λ (headers : Dict String).
                >>=_configured (json_field config "templateVars") _ (λ (vars : Dict String).
                  all_set (str_eq (get config "url") "") (str_eq (get config "valuePath") "")
                    (str_eq (get config "timestampPath") "") u v))))

  new_lem :
      (kind : String) (config : Dict String) (step : ℤ)
      → makes_configured (new kind config step) ≡ true
  unfolding new
  new_lem kind config step =
      if_configured (str_eq kind "prometheus") _ _ (new_prometheus_lem config step)
        (λ (p : str_eq kind "prometheus" ≡ false).
          if_configured (str_eq kind "victoriametrics") _ _ (new_victoria_metrics_lem config step)
            (λ (v : str_eq kind "victoriametrics" ≡ false).
              if_configured (str_eq kind "http") _ _ (new_http_lem config step)
                (λ (h : str_eq kind "http" ≡ false). refl)))

  -- An adapter that `New` makes has every field that its kind requires.
  new-is_configured :
      (kind : String) (config : Dict String) (step : ℤ) (a : Adapter)
      → new kind config step ≡ ok a
      → is_configured a ≡ true
  new-is_configured kind config step a h = sym (ap makes_configured h) ∙ new_lem kind config step
