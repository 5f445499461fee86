-- ===== src/Adapters/Collect.antt =====
-- `Collect` of pkg/adapters/prometheus.go and of pkg/adapters/victoria_metrics.go, which differ in
-- the name they report. The server, JSON and the sorting are parameters.
use kedastral.Base.{
  ℕ, ◌/◌, ◌^◌, ◌==◌, String, Bool, not, Option, none, some, List, [], ◌∷◌, if◌then◌else◌, ◌||◌,
  str_eq,
}
use kedastral.Base.Int.{ℤ, pos, negsuc, leb_ℤ, ◌+ℤ◌, ◌-ℤ◌, ◌*ℤ◌, wrap64}
use kedastral.Base.Buckets.{Buckets}
use kedastral.Base.Result.{Result, ok, err}
use kedastral.Base.Time.{second}
use kedastral.Float64.{Float64}
use kedastral.Features.{float64, text, DataFrame}
use kedastral.Adapters.Range.{RangeError, Serie, Numbers, aggregate_range_result}

-- `PrometheusAdapter` and `VictoriaMetricsAdapter`, less the HTTP client.
pub record RangeAdapter : Type 0 where
  pub server_url : String
  pub query : String
  pub step_seconds : ℤ

pub data CollectError : Type 0 where
  missing_config : CollectError
  invalid_url : CollectError
  no_answer : CollectError
  http_status : ℕ → CollectError
  undecodable : CollectError
  query_status : String → CollectError
  bad_result : RangeError → CollectError

-- `query`, `start`, `end` and `step` of `/api/v1/query_range`
pub record RangeQuery : Type 0 where
  pub query : String
  pub start : ℤ
  pub end : ℤ
  pub step : ℤ

-- `PrometheusRangeResponse`
pub record RangeResponse {ℓ} (F : Type ℓ) : Type ℓ where
  pub status : String
  pub result : List (Serie F)

-- `url.Parse` succeeds; the status and the decoded body that the server answers, if it does; the rows
-- in the order of `sort.Slice`; and a time in seconds as RFC 3339.
pub record Server {ℓ} (F : Type ℓ) : Type ℓ where
  pub parses : String → Bool
  pub get : String → RangeQuery → Option (ℕ × Option (RangeResponse F))
  pub sort_by_ts : Buckets F → Buckets F
  pub rfc3339 : ℤ → String

abbrev pub step_or_default : ℤ → ℤ
step_or_default step = if leb_ℤ step (pos 0) then pos 60 else step

-- `t.Unix()`, for a time in nanoseconds from the epoch
abbrev pub unix : ℤ → ℤ
unix (pos n) = pos (n / 10 ^ 9)
unix (negsuc n) = negsuc (n / 10 ^ 9)

-- The query of the last `window` seconds up to `now`, whose `Truncate(time.Second)` rounds down.
unfoldable pub window_query : RangeAdapter → ℤ → ℤ → RangeQuery
window_query a now window =
    let end_ns = unix now *ℤ second in
    let start_ns = end_ns +ℤ wrap64 ((pos 0 -ℤ window) *ℤ second) in
    record {
      query = a.query;
      start = unix start_ns;
      end = unix end_ns;
      step = step_or_default a.step_seconds;
    }

module _ {ℓ} {F : Type ℓ} ⦃fl : Float64 F⦄ where
  module _ (server : Server F) (numbers : Numbers F) where
    unfoldable pub format_rows : Buckets F → DataFrame F ℤ
    format_rows [] = []
    format_rows ((ts, v) ∷ rows) =
        (("ts", text (server.rfc3339 ts)) ∷ ("value", float64 v) ∷ []) ∷ format_rows rows

    unfoldable pub read_response : RangeResponse F → Result CollectError (DataFrame F ℤ)
    unfolding format_rows
    read_response pr =
        if str_eq pr.status "success"
        then elim (aggregate_range_result numbers pr.result) [
          | err e ↦ err (bad_result e)
          | ok rows ↦ ok (format_rows (server.sort_by_ts rows))
        ]
        else err (query_status pr.status)

    unfoldable pub collect : RangeAdapter → ℤ → ℤ → Result CollectError (DataFrame F ℤ)
    unfolding read_response window_query
    collect a now window =
        if str_eq a.server_url "" || str_eq a.query ""
        then err missing_config
        else if not (server.parses a.server_url)
        then err invalid_url
        else elim (server.get a.server_url (window_query a now window)) [
          | none ↦ err no_answer
          | some (status, body) ↦
              if not (status == 200)
              then err (http_status status)
              else elim body [ none ↦ err undecodable | some pr ↦ read_response pr ]
        ]
