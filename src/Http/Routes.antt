-- ===== src/Http/Routes.antt =====
-- Which handler a request reaches in the router of internal/httpapi/router.go.
use svm_go.Prelude.{
  inr, inl, Bool-cases, ◌≡◌, refl, true, Option, none, some, [], ◌∷◌, Str, Assoc, lookup, insert,
  codes, str_eq, str_eq_iff, arith, if◌then◌else◌,
}
use svm_go.Http.{
  HttpRequest, HttpResponse, is_get, RequestHandler, version_path, ping_path, health_path,
  metrics_path, Handlers, write_method_not_allowed, get_only, new_router,
}

str_eq_sym : (s t : Str) → str_eq s t ≡ str_eq t s
str_eq_sym s t = ground (arith, str_eq_iff s t, str_eq_iff t s)

module _ {ℓ} {W : Type ℓ} where
  -- The routes by their path.
  abbrev pub route_table : Handlers W → Assoc (RequestHandler W)
  route_table routes =
      (codes "/version", routes.version)
      ∷ (codes "/ping", routes.ping)
      ∷ (codes "/healthz", routes.health)
      ∷ (codes "/metrics", routes.metrics)
      ∷ []

  -- What becomes of a request with a route or without one.
  abbrev pub by_route : (HttpResponse → HttpResponse) → Option (RequestHandler W) → RequestHandler W
  by_route not_found none req resp w = (not_found resp, w)
  by_route not_found (some handler) req resp w = if is_get req then handler req resp w else (
    record {
      status_code = 405;
      content_type = resp.content_type;
      headers = insert (codes "Allow") (codes "GET") resp.headers;
      body = codes "Method Not Allowed";
    },
    w,
  )

  -- A request for a path of the table reaches the handler of that path with the method GET, and is
  -- answered 405 with `Allow: GET` and a short body with any other; every other path is not found. No handler runs
  -- and nothing shared changes in the last two cases.
  pub new_router-route_table :
      (not_found : HttpResponse → HttpResponse) (routes : Handlers W) (req : HttpRequest)
      (resp : HttpResponse) (w : W)
      → new_router not_found routes req resp w
        ≡ by_route not_found (lookup req.path (route_table routes)) req resp w
  unfolding new_router get_only lookup write_method_not_allowed
  new_router-route_table not_found routes req resp w =
      rw
        (
          str_eq_sym req.path version_path,
          str_eq_sym req.path ping_path,
          str_eq_sym req.path health_path,
          str_eq_sym req.path metrics_path,
        )
        (ground arith)

  -- What holds of a rejected request, of a path that is not found and of each handler holds of the
  -- router.
  pub new_router_cases {κ} :
      (P : HttpResponse × W → Type κ) (not_found : HttpResponse → HttpResponse)
      (routes : Handlers W) (req : HttpRequest) (resp : HttpResponse) (w : W)
      → P (write_method_not_allowed resp, w)
      → P (not_found resp, w)
      → (req.path ≡ version_path → is_get req ≡ true → P (routes.version req resp w))
      → P (routes.ping req resp w)
      → P (routes.health req resp w)
      → P (routes.metrics req resp w)
      → P (new_router not_found routes req resp w)
  unfolding new_router
  new_router_cases P not_found routes req resp w rejected missing version ping health metrics =
      elim (Bool-cases (str_eq req.path version_path)) [
        | inl v ↦ rw v (guarded routes.version (version ((str_eq_iff req.path version_path).0 v)))
        | inr nv ↦ rw nv (elim (Bool-cases (str_eq req.path ping_path)) [
          | inl p ↦ rw p (guarded routes.ping (λ _. ping))
          | inr np ↦ rw np (elim (Bool-cases (str_eq req.path health_path)) [
            | inl h ↦ rw h (guarded routes.health (λ _. health))
            | inr nh ↦ rw nh (elim (Bool-cases (str_eq req.path metrics_path)) [
              | inl m ↦ rw m (guarded routes.metrics (λ _. metrics))
              | inr nm ↦ rw nm missing
            ])
          ])
        ])
      ]
    where
      guarded :
          (handler : RequestHandler W)
          → (is_get req ≡ true → P (handler req resp w))
          → P (get_only handler req resp w)
      guarded handler run = elim (Bool-cases (is_get req)) [
        | inl get ↦ rw (get_only, get) (run get)
        | inr other ↦ rw (get_only, other) rejected
      ]

  pub new_router-version :
      (not_found : HttpResponse → HttpResponse) (routes : Handlers W) (req : HttpRequest)
      (resp : HttpResponse) (w : W)
      → req.path ≡ version_path
      → is_get req ≡ true
      → new_router not_found routes req resp w ≡ routes.version req resp w
  unfolding new_router get_only
  new_router-version not_found routes req resp w path get =
      let here : str_eq req.path version_path ≡ true = (str_eq_iff req.path version_path).1 path in
      rw (here, get) refl
