-- ===== src/Http/Counters/Samples.antt =====
-- The text of internal/httpapi/metrics.go, read back.
use svm_go.Prelude.{
  map, All, ℕ, ◌≡◌, ◌∙◌, refl, ap, Bool, true, false, Option, some, List, [], ◌∷◌, ◌++◌, Str, codes,
  ◌==◌, arith, append_assoc, if◌then◌else◌,
}
use svm_go.Http.Counters.{Counter, counter_calls, write_counters, write_counter, metrics_text}
use svm_go.Metrics.{Metrics}
use svm_go.Text.{contains_byte}
use svm_go.Text.Decimal.{decimal, unsigned-decimal, contains_byte-decimal}
use svm_go.Text.Lines.{cut, lines, cut-append, lines-append, contains_byte-append}
use svm_go.Text.Numbers.{unsigned}

-- A line with a sample has a name and a value; a comment or an empty line has none.
abbrev is_sample : Str → Bool
is_sample [] = false
is_sample (c ∷ s) = if c == b'#' then false else true

abbrev sample : Str → Str × Option ℕ
sample line = let parts = cut b' ' line in (parts.0, unsigned parts.1)

unfoldable samples : List Str → List (Str × Option ℕ)
samples [] = []
samples (line ∷ rest) =
    let more = samples rest in if is_sample line then sample line ∷ more else more

-- The samples of a Prometheus text, with the values that are numbers.
unfoldable pub read_samples : Str → List (Str × Option ℕ)
unfolding samples
read_samples text = samples (lines text)

-- A name as metrics have it.
abbrev IsName : Str → Type 0
IsName name =
    (is_sample name ≡ true) × (contains_byte b'\n' name ≡ false) × (contains_byte b' ' name ≡ false)

lines-line :
    (s t rest : Str)
    → contains_byte b'\n' s ≡ false
    → lines ((s ++ b'\n' ∷ t) ++ rest) ≡ s ∷ lines (t ++ rest)
lines-line s t rest h = rw (append_assoc s (b'\n' ∷ t) rest) (lines-append s (t ++ rest) h)

lines-write_counter :
    (name help : Str) (value : ℕ) (rest : Str)
    → IsName name
    → contains_byte b'\n' help ≡ false
    → lines (write_counter name help value ++ rest)
      ≡ (codes "# HELP " ++ (name ++ b' ' ∷ help))
        ∷ (codes "# TYPE " ++ (name ++ codes " counter"))
        ∷ (name ++ b' ' ∷ decimal value)
        ∷ lines rest
unfolding write_counter contains_byte
lines-write_counter name help value rest h k =
    let comment = codes "# HELP " ++ (name ++ b' ' ∷ help) in
    let kind = codes "# TYPE " ++ (name ++ codes " counter") in
    let value_line = name ++ b' ' ∷ decimal value in
    lines-line comment (kind ++ b'\n' ∷ (value_line ++ b'\n' ∷ [])) rest
      (contains_byte-append b'\n' name (b' ' ∷ help) h.1 k)
    ∙ ap (λ l. comment ∷ l)
        (lines-line kind (value_line ++ b'\n' ∷ []) rest
          (contains_byte-append b'\n' name (codes " counter") h.1 refl))
    ∙ ap (λ l. comment ∷ kind ∷ l)
        (lines-line value_line [] rest (
          contains_byte-append b'\n' name (b' ' ∷ decimal value) h.1
            (contains_byte-decimal b'\n' value refl)))

is_sample-append : (s t : Str) → is_sample s ≡ true → is_sample (s ++ t) ≡ true
is_sample-append [] t h = absurd (cc h)
is_sample-append (c ∷ s) t h = h

read_samples-write_counter :
    (name help : Str) (value : ℕ) (rest : Str)
    → IsName name
    → contains_byte b'\n' help ≡ false
    → read_samples (write_counter name help value ++ rest) ≡ (name, some value) ∷ read_samples rest
unfolding read_samples samples
read_samples-write_counter name help value rest h k =
    rw
      (
        lines-write_counter name help value rest h k,
        is_sample-append name (b' ' ∷ decimal value) h.0,
        cut-append b' ' name (decimal value) h.2,
        unsigned-decimal value,
      )
      refl

abbrev IsWritable : Counter → Type 0
IsWritable c = IsName c.name × (contains_byte b'\n' c.help ≡ false)

read_samples-write_counters :
    (cs : List Counter)
    → All IsWritable cs
    → read_samples (write_counters cs) ≡ map (λ c. (c.name, some c.value)) cs
unfolding write_counters
read_samples-write_counters [] h = unfold read_samples in unfold samples in unfold lines in refl
read_samples-write_counters (c ∷ cs) h =
    read_samples-write_counter c.name c.help c.value (write_counters cs) h.0.0 h.0.1
    ∙ ap (λ l. (c.name, some c.value) ∷ l) (read_samples-write_counters cs h.1)

-- Every counter of the text is read back, under its name and with its value, and nothing else.
pub read_samples-metrics_text :
    (m : Metrics)
    → read_samples (metrics_text m)
      ≡ (codes "svm_cache_hits_total", some m.cache_hits)
        ∷ (codes "svm_cache_misses_total", some m.cache_misses)
        ∷ (codes "svm_revalidate_runs_total", some m.revalidate_runs)
        ∷ (codes "svm_upstream_requests_total", some m.upstream_requests)
        ∷ (codes "svm_upstream_errors_total", some m.upstream_errors)
        ∷ (codes "svm_refresh_updated_total", some m.refresh_updated)
        ∷ (codes "svm_refresh_not_modified_total", some m.refresh_not_mod)
        ∷ (codes "svm_refresh_skipped_total", some m.refresh_skipped)
        ∷ (codes "svm_refresh_failed_total", some m.refresh_failed)
        ∷ (codes "svm_refresh_processed_total", some m.refresh_processed)
        ∷ (codes "svm_access_log_dropped_total", some m.access_log_dropped)
        ∷ []
unfolding metrics_text counter_calls contains_byte
read_samples-metrics_text m = read_samples-write_counters (counter_calls m) (ground arith)
