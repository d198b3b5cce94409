-- ===== src/Http.antt =====
-- internal/httpapi: what the handlers read of a request and write of a response (the request context of
-- fasthttp), and router.go with handlers.go: which handler a request reaches.
pub mod Routes
pub mod Service
pub mod Counters
use svm_go.Prelude.{
  ℕ, Bool, true, false, not, Option, none, some, List, [], ◌∷◌, ◌++◌, Str, Assoc, codes, str_eq,
  insert, if◌then◌else◌,
}

-- `method` and `path` as fasthttp gives them, the query parameters `url` and `refresh` (empty where
-- they are missing), and what the access log reads.
pub record HttpRequest : Type 0 where
  pub method : Str
  pub path : Str
  pub url : Str
  pub refresh : Str
  pub protocol : Str
  pub remote_addr : Option Str
  pub forwarded_for : Str

-- The response that a handler writes; a status of 0 is one that is not set.
pub record HttpResponse : Type 0 where
  pub status_code : ℕ
  pub content_type : Str
  pub headers : Assoc Str
  pub body : Str

-- `ctx.IsGet()`
abbrev pub is_get : HttpRequest → Bool
is_get req = str_eq req.method (codes "GET")

-- `ctx.Response.Header.Set`
abbrev pub set_header : Str → Str → HttpResponse → HttpResponse
set_header name value resp = record resp { headers = insert name value resp.headers }

-- `ctx.Write`
abbrev pub write : Str → HttpResponse → HttpResponse
write text resp = record resp { body = resp.body ++ text }

-- A handler reads the request, and changes the response and what it shares with others.
abbrev pub RequestHandler {ℓ} : Type ℓ → Type ℓ
RequestHandler W = HttpRequest → HttpResponse → W → HttpResponse × W

abbrev pub version_path : Str
version_path = codes "/version"

abbrev pub ping_path : Str
ping_path = codes "/ping"

abbrev pub health_path : Str
health_path = codes "/healthz"

abbrev pub metrics_path : Str
metrics_path = codes "/metrics"

pub record Handlers {ℓ} (W : Type ℓ) : Type ℓ where
  pub version : RequestHandler W
  pub ping : RequestHandler W
  pub health : RequestHandler W
  pub metrics : RequestHandler W

unfoldable pub write_method_not_allowed : HttpResponse → HttpResponse
write_method_not_allowed resp = record (set_header (codes "Allow") (codes "GET") resp) {
  status_code = 405;
  body = codes "Method Not Allowed";
}

module _ {ℓ} {W : Type ℓ} where
  -- The guard that each route has.
  unfoldable pub get_only : RequestHandler W → RequestHandler W
  get_only handler req resp w =
      if not (is_get req) then (write_method_not_allowed resp, w) else handler req resp w

  -- `NewRouter`; `not_found` is the method of fasthttp.
  unfoldable pub new_router : (HttpResponse → HttpResponse) → Handlers W → RequestHandler W
  unfolding get_only
  new_router not_found routes req resp w =
      if str_eq req.path version_path
      then get_only routes.version req resp w
      else if str_eq req.path ping_path
      then get_only routes.ping req resp w
      else if str_eq req.path health_path
      then get_only routes.health req resp w
      else if str_eq req.path metrics_path
      then get_only routes.metrics req resp w
      else (not_found resp, w)

  -- `WithAccessLog`; a hook that is nil is none.
  unfoldable pub with_access_log :
      RequestHandler W → Option (HttpRequest → HttpResponse → W → W) → RequestHandler W
  with_access_log next none = next
  with_access_log next (some hook) =
      λ req resp w. let (resp', w') = next req resp w in (resp', hook req resp' w')
