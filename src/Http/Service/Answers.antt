-- ===== src/Http/Service/Answers.antt =====
-- What a client reads of an answer that internal/httpapi/version.go has written.
use svm_go.Prelude.{
  ℕ, zero, suc, ◌≡◌, refl, some, [], ◌∷◌, Str, lookup, insert, lookup-insert, str_eq, codes,
  is_empty, ◌==◌, ◌++◌, ◌∙◌, append_assoc, arith, if◌then◌else◌,
}
use svm_go.Text.Numbers.{digits_from, unsigned}
use svm_go.Text.Decimal.{decimal, unsigned-decimal}
use svm_go.Http.{Assoc, HttpResponse, set_header}
use svm_go.Http.Service.{Answer, Encoder, set_upstream_status_header, write_json, write_answer}
use svm_go.Version.{Body, payload, error_response, api_error}

-- What is written of a body: the bytes of a payload that is not empty, and a line feed; any other body
-- as it is encoded.
abbrev pub body_text : Encoder → Body → Str
body_text enc (payload []) = enc.encode (payload [])
body_text enc (payload (c ∷ s)) = (c ∷ s) ++ b'\n' ∷ []
body_text enc (error_response error detail) = enc.encode (error_response error detail)
body_text enc (api_error decoded message) = enc.encode (api_error decoded message)

-- The response tells of the answer: its status, 200 where the service sets none, its body behind what
-- was written before, its cache status, BYPASS where the service sets none, its key, and a number that
-- is its upstream status.
pub record Tells (enc : Encoder) (a : Answer) (before resp : HttpResponse) : Type 0 where
  pub status : resp.status_code ≡ (if a.status_code == 0 then 200 else a.status_code)
  pub body : resp.body ≡ before.body ++ body_text enc a.body
  pub cache :
      lookup (codes "X-Cache") resp.headers
      ≡ some (if is_empty a.cache_status then codes "BYPASS" else a.cache_status)
  pub key : lookup (codes "X-Cache-Key") resp.headers ≡ some a.cache_key
  pub upstream :
      (text : Str) × (lookup (codes "X-Upstream-Status") resp.headers ≡ some text)
      × (unsigned text ≡ some a.upstream_status)

upstream_text :
    (status : ℕ) (resp : HttpResponse)
    → (text : Str) × (set_upstream_status_header status resp
        ≡ set_header (codes "X-Upstream-Status") text resp)
      × (unsigned text ≡ some status)
unfolding set_upstream_status_header
upstream_text zero resp = (codes "0", refl, unfold unsigned in unfold digits_from in refl)
upstream_text (suc n) resp = (decimal (suc n), ground arith, unsigned-decimal (suc n))

module _ (upstream key cache : Str) (headers : Assoc Str) where
  abbrev three_headers : Assoc Str
  three_headers =
      insert (codes "X-Upstream-Status") upstream
        (insert (codes "X-Cache-Key") key (insert (codes "X-Cache") cache headers))

  three_headers-lookup :
      (name : Str)
      → lookup name three_headers ≡ (
          if str_eq (codes "X-Upstream-Status") name
          then some upstream
          else if str_eq (codes "X-Cache-Key") name
          then some key
          else if str_eq (codes "X-Cache") name
          then some cache
          else lookup name headers)
  three_headers-lookup name =
      rw
        (
          lookup-insert (codes "X-Upstream-Status") name upstream
              (insert (codes "X-Cache-Key") key (insert (codes "X-Cache") cache headers)),
          lookup-insert (codes "X-Cache-Key") name key (insert (codes "X-Cache") cache headers),
          lookup-insert (codes "X-Cache") name cache headers,
        )
        refl

module _ (enc : Encoder) where
  write_json_keeps :
      (status : ℕ) (body : Body) (resp : HttpResponse)
      → ((write_json enc status body resp).headers ≡ resp.headers)
        × ((write_json enc status body resp).status_code ≡ status)
        × ((write_json enc status body resp).body ≡ resp.body ++ body_text enc body)
  unfolding write_json
  write_json_keeps status (payload []) resp = (refl, refl, refl)
  write_json_keeps status (payload (c ∷ s)) resp =
      (refl, refl, append_assoc resp.body (c ∷ s) (b'\n' ∷ []))
  write_json_keeps status (error_response e d) resp = (refl, refl, refl)
  write_json_keeps status (api_error d m) resp = (refl, refl, refl)

  -- Whatever the service answers, the response tells of it, its body included, over any headers that
  -- were set before.
  pub write_answer-Tells :
      (a : Answer) (resp : HttpResponse) → Tells enc a resp (write_answer enc a resp)
  unfolding write_answer str_eq
  write_answer-Tells a resp =
      let cache = if is_empty a.cache_status then codes "BYPASS" else a.cache_status in
      let status = if a.status_code == 0 then 200 else a.status_code in
      let before : HttpResponse =
        set_header (codes "X-Cache-Key") a.cache_key (set_header (codes "X-Cache") cache resp) in
      let after = set_upstream_status_header a.upstream_status before in
      let (text, shape, reads) = upstream_text a.upstream_status before in
      let (headers, code, body) = write_json_keeps status a.body after in
      let found = three_headers-lookup text a.cache_key cache resp.headers in
      record {
        status = code;
        body = body ∙ rw shape refl;
        cache = rw (headers, shape) (found (codes "X-Cache"));
        key = rw (headers, shape) (found (codes "X-Cache-Key"));
        upstream = (text, rw (headers, shape) (found (codes "X-Upstream-Status")), reads);
      }
