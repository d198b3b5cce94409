-- ===== src/App/Server/Requests.antt =====
-- What a request to the server of cmd/svm/main.go can do, whatever its method and its path.
use svm_go.Prelude.{
  is_empty, ◌≡◌, ◌⊎◌, ◌∙◌, inl, inr, refl, sym, ap, Bool, Option, none, some, List, [], ◌∷◌, ◌++◌,
  codes, lookup, str_eq_iff, arith, if◌then◌else◌,
}
use svm_go.App.AccessLog.{RequestLogs, enqueue_client_request_log, request_log_entry}
use svm_go.App.Clients.{Net}
use svm_go.App.Server.{
  service_of, version_handler, App, RunningApp, access_log_hook, app_handlers, serve,
}
use svm_go.Cache.Clock.{Time}
use svm_go.Http.Routes.{new_router_cases, new_router-version}
use svm_go.Http.{HttpRequest, HttpResponse, version_path, new_router, with_access_log}
use svm_go.Http.Counters.{metrics_handler}
use svm_go.Http.Service.{
  json_type, Encoder, answer_of, cache_status_text, handle_version, health_handler, ping_handler,
  version_service,
}
use svm_go.Http.Service.Answers.{write_answer-Tells}
use svm_go.Platform.{Platform}
use svm_go.Text.{equal_fold}
use svm_go.Version.{Request, CacheStatus, bypass, hit, miss, revalidated}
use svm_go.Version.Handle.{handle}
use svm_go.Version.Handle.Accounts.{handle-Account, refused, served, sent}
use svm_go.Version.Handle.Quiet.{handle-IsQuiet}
use svm_go.Version.Store.Memory.{memory_store}
use svm_go.Version.World.{Sent, Outside}

module _ (pl : Platform) (net : Net) (enc : Encoder) (not_found : HttpResponse → HttpResponse)
    (app : App) (canceled : Bool) (out : Outside) (now : Time) where
  abbrev after : HttpRequest → HttpResponse → RunningApp → RunningApp
  after req resp w = (serve pl net enc not_found app canceled out now req resp w).1

  -- What a request may have sent: nothing, or one request to upstream for a GET of /version.
  abbrev pub SentFor : HttpRequest → List Sent → List Sent → Type 0
  SentFor req before then_ =
      (then_ ≡ before)
      ⊎ ((req.path ≡ version_path)
          × (req.method ≡ codes "GET")
          × (s : Sent) × (then_ ≡ before ++ s ∷ []))

  hook-sent :
      (req : HttpRequest) (resp : HttpResponse) (w : RunningApp)
      → (access_log_hook pl net app req resp w).world.sent ≡ w.world.sent
  unfolding access_log_hook
  hook-sent req resp w = go _ refl
    where
      go :
          (o : Option RequestLogs)
          → enqueue_client_request_log
              (request_log_entry pl net app.trusted_networks req resp)
              (record w.logs { metrics = w.world.metrics })
            ≡ o
          → (access_log_hook pl net app req resp w).world.sent ≡ w.world.sent
      go none e = rw (access_log_hook, e) refl
      go (some logs) e = rw (access_log_hook, e) refl

  version-sent :
      (req : HttpRequest) (resp : HttpResponse) (w : RunningApp)
      → let then_ = ((app_handlers pl enc app canceled out now).version req resp w).1.world.sent in
        (then_ ≡ w.world.sent) ⊎ ((s : Sent) × (then_ ≡ w.world.sent ++ s ∷ []))
  unfolding app_handlers version_handler handle_version version_service
  version-sent req resp w =
      elim (handle-Account pl memory_store (service_of pl app) canceled out now _ w.world) [
        | refused _ e ↦ inl e.sent
        | served _ _ e ↦ inl e.sent
        | sent _ _ e ↦ inr (e.request, e.sent)
      ]

  router-sent :
      (req : HttpRequest) (resp : HttpResponse) (w : RunningApp)
      → SentFor req w.world.sent
          (new_router not_found (app_handlers pl enc app canceled out now) req resp w).1.world.sent
  router-sent req resp w =
      new_router_cases (λ res. SentFor req w.world.sent res.1.world.sent) not_found
        (app_handlers pl enc app canceled out now) req resp w (inl refl) (inl refl)
        (λ path get. elim (version-sent req resp w) [
          | inl same ↦ inl same
          | inr (s, more) ↦ inr (path, (str_eq_iff req.method (codes "GET")).0 get, s, more)
        ])
        (inl (unfold app_handlers in unfold ping_handler in refl))
        (inl (unfold app_handlers in unfold health_handler in refl))
        (inl (unfold app_handlers in unfold metrics_handler in refl))

  -- A request to the server sends at most one request to upstream, and none unless it is a GET of
  -- /version: no other path and no other method reaches upstream.
  pub serve-SentFor :
      (req : HttpRequest) (resp : HttpResponse) (w : RunningApp)
      → SentFor req w.world.sent (after req resp w).world.sent
  unfolding serve with_access_log
  serve-SentFor req resp w =
      let (resp', w') =
        new_router not_found (app_handlers pl enc app canceled out now) req resp w in
      rw (hook-sent req resp' w') (router-sent req resp w)

  shown_hit :
      (status : CacheStatus)
      → (if is_empty (cache_status_text status) then codes "BYPASS" else cache_status_text status)
        ≡ codes "HIT"
      → status ≡ hit
  shown_hit bypass e = absurd (cc e)
  shown_hit hit e = refl
  shown_hit miss e = absurd (cc e)
  shown_hit revalidated e = absurd (cc e)

  version_hit-sent :
      (req : HttpRequest) (resp : HttpResponse) (w : RunningApp)
      → let res = (app_handlers pl enc app canceled out now).version req resp w in
        lookup (codes "X-Cache") res.0.headers ≡ some (codes "HIT")
        → res.1.world.sent ≡ w.world.sent
  unfolding app_handlers version_handler handle_version version_service
  version_hit-sent req resp w e =
      let request : Request = record {
        raw_url = req.url;
        force_refresh = equal_fold pl.unicode req.refresh (codes "true");
      } in
      let answer = handle pl memory_store (service_of pl app) canceled out now request w.world in
      let told =
        write_answer-Tells enc (answer_of answer.0) (record resp { content_type = json_type }) in
      handle-IsQuiet pl memory_store (service_of pl app) canceled out now request w.world
        (shown_hit answer.0.cache_status (ground (arith, told.cache, e)))

  -- A GET of /version that is answered with `X-Cache: HIT` has sent nothing to upstream.
  pub serve_hit-sent :
      (req : HttpRequest) (resp : HttpResponse) (w : RunningApp)
      → req.path ≡ version_path
      → req.method ≡ codes "GET"
      → lookup
          (codes "X-Cache")
          (serve pl net enc not_found app canceled out now req resp w).0.headers
        ≡ some (codes "HIT")
      → (after req resp w).world.sent ≡ w.world.sent
  unfolding serve with_access_log
  serve_hit-sent req resp w path get e =
      let routes = app_handlers pl enc app canceled out now in
      let routed =
        new_router-version not_found routes req resp w path
          ((str_eq_iff req.method (codes "GET")).1 get) in
      let (resp', w') = new_router not_found routes req resp w in
      hook-sent req resp' w'
      ∙ ap (λ res. res.1.world.sent) routed
      ∙ version_hit-sent req resp w
          (ap (λ res. lookup (codes "X-Cache") res.0.headers) (sym routed) ∙ e)
