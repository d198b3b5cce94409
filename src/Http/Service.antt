-- ===== src/Http/Service.antt =====
-- internal/httpapi/version.go, health.go and the ping handler of cmd/svm/main.go: the JSON answers.
pub mod Answers
use svm_go.Prelude.{
  ℕ, Bool, true, false, not, Option, none, some, List, [], ◌∷◌, ◌++◌, Str, Assoc, codes, str_eq,
  insert, is_empty, ◌==◌, if◌then◌else◌,
}
use svm_go.Platform.{Platform}
use svm_go.Text.{equal_fold}
use svm_go.Text.Decimal.{decimal}
use svm_go.Version.{
  Request, Response, CacheStatus, bypass, hit, miss, revalidated, Body, payload, error_response,
  api_error,
}
use svm_go.Version.Handle.{handle}
use svm_go.Version.Store.{CacheStore}
use svm_go.Version.World.{Config, World, Outside}
use svm_go.Http.{HttpRequest, HttpResponse, RequestHandler, set_header, write}

pub record HealthDependency : Type 0 where
  pub status : Str
  pub error : Str

pub record HealthResponse : Type 0 where
  pub status : Str
  pub dependencies : Assoc HealthDependency

pub record PingResponse : Type 0 where
  pub status : Str
  pub message : Str

-- What `json.NewEncoder(ctx).Encode` writes for each kind of value, empty where it fails.
pub record Encoder : Type 0 where
  pub encode : Body → Str
  pub encode_health : HealthResponse → Str
  pub encode_ping : PingResponse → Str

-- A `Response` of the service with its cache status as a text, which may be empty.
pub record Answer : Type 0 where
  pub status_code : ℕ
  pub body : Body
  pub cache_status : Str
  pub cache_key : Str
  pub upstream_status : ℕ

abbrev pub cache_status_text : CacheStatus → Str
cache_status_text bypass = codes "BYPASS"
cache_status_text hit = codes "HIT"
cache_status_text miss = codes "MISS"
cache_status_text revalidated = codes "REVALIDATED"

abbrev pub answer_of : Response → Answer
answer_of r = record {
  status_code = r.status_code;
  body = r.body;
  cache_status = cache_status_text r.cache_status;
  cache_key = r.cache_key;
  upstream_status = r.upstream_status;
}

abbrev pub json_type : Str
json_type = codes "application/json"

-- `setUpstreamStatusHeader`; the header of a response is never nil.
unfoldable pub set_upstream_status_header : ℕ → HttpResponse → HttpResponse
set_upstream_status_header status resp =
    if status == 0
    then set_header (codes "X-Upstream-Status") (codes "0") resp
    else set_header (codes "X-Upstream-Status") (decimal status) resp

module _ (enc : Encoder) where
  -- Only a payload is a `json.RawMessage`.
  unfoldable pub write_json : ℕ → Body → HttpResponse → HttpResponse
  write_json status (payload []) resp =
      write (enc.encode (payload [])) (record resp { status_code = status })
  write_json status (payload (c ∷ body)) resp =
      write (b'\n' ∷ []) (write (c ∷ body) (record resp { status_code = status }))
  write_json status (error_response error detail) resp =
      write (enc.encode (error_response error detail)) (record resp { status_code = status })
  write_json status (api_error decoded message) resp =
      write (enc.encode (api_error decoded message)) (record resp { status_code = status })

  -- The answer of the service, written out.
  unfoldable pub write_answer : Answer → HttpResponse → HttpResponse
  unfolding write_json set_upstream_status_header
  write_answer a resp =
      let cache_status = if is_empty a.cache_status then codes "BYPASS" else a.cache_status in
      write_json (if a.status_code == 0 then 200 else a.status_code) a.body (
        set_upstream_status_header a.upstream_status (
          set_header (codes "X-Cache-Key") a.cache_key
            (set_header (codes "X-Cache") cache_status resp)))

  module _ {ℓ} {W : Type ℓ} where
    -- `handleVersion`; the client address that it resolves is only logged.
    unfoldable pub handle_version : Platform → Option (Request → W → Answer × W) → RequestHandler W
    unfolding write_answer
    handle_version pl none req resp w = (
      write_json 503
          (error_response (codes "Service unavailable") (codes "version service is not configured"))
          (record resp { content_type = json_type }),
      w,
    )
    handle_version pl (some service) req resp w =
        let (a, w') =
          service
            (record {
              raw_url = req.url;
              force_refresh = equal_fold pl.unicode req.refresh (codes "true");
            })
            w in
        (write_answer a (record resp { content_type = json_type }), w')

    -- `NewHealthHandler`; `check` may be nil.
    unfoldable pub is_request_serving : Option (W → Bool) → W → Bool
    is_request_serving none w = true
    is_request_serving (some check) w = check w

    unfoldable pub health_handler : Option (W → Bool) → RequestHandler W
    unfolding is_request_serving
    health_handler check req resp w =
        let serving = is_request_serving check w in
        (
          write
              (enc.encode_health (record {
                status = if not serving then codes "unhealthy" else codes "healthy";
                dependencies =
                    (
                      codes "request_path",
                      if not serving
                          then record {
                            status = codes "down";
                            error = codes "request path is not ready";
                          }
                          else record { status = codes "up"; error = [] },
                    )
                    ∷ [];
              }))
              (record resp {
                content_type = json_type;
                status_code = if not serving then 503 else 200;
              }),
          w,
        )

    -- `pingHandler`
    unfoldable pub ping_handler : RequestHandler W
    ping_handler req resp w = (
      write
          (enc.encode_ping
            (record { status = codes "ok"; message = codes "Service is up and running" }))
          (record resp { content_type = json_type }),
      w,
    )

-- `Service.Handle` as the handler calls it.
unfoldable pub version_service :
    (pl : Platform) (store : CacheStore)
    → Config
    → Bool
    → Outside
    → ℕ
    → Request
    → World store.State
    → Answer × World store.State
version_service pl store cfg canceled out now request w =
    let (r, w') = handle pl store cfg canceled out now request w in (answer_of r, w')
