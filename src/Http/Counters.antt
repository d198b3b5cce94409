-- ===== src/Http/Counters.antt =====
-- internal/httpapi/metrics.go: the counters as Prometheus text.
pub mod Samples
use svm_go.Prelude.{ℕ, Option, List, [], ◌∷◌, ◌++◌, Str, codes}
use svm_go.Http.{HttpRequest, HttpResponse, RequestHandler, write}
use svm_go.Metrics.{Metrics, snapshot}
use svm_go.Text.Decimal.{decimal}

abbrev pub prometheus_text_content_type : Str
prometheus_text_content_type = codes "text/plain; version=0.0.4; charset=utf-8"

-- What `writeCounter` appends: two lines of comments and the sample.
unfoldable pub write_counter : Str → Str → ℕ → Str
write_counter name help value =
    (codes "# HELP " ++ (name ++ b' ' ∷ help))
    ++ b'\n'
      ∷ ((codes "# TYPE " ++ (name ++ codes " counter"))
          ++ b'\n' ∷ ((name ++ b' ' ∷ decimal value) ++ b'\n' ∷ []))

pub record Counter : Type 0 where
  pub name : Str
  pub help : Str
  pub value : ℕ

-- The arguments of the calls of `writeCounter`, in their order.
unfoldable pub counter_calls : Metrics → List Counter
counter_calls m =
    record {
      name = codes "svm_cache_hits_total";
      help = codes "Total number of cache hits.";
      value = m.cache_hits;
    }
    ∷ record {
      name = codes "svm_cache_misses_total";
      help = codes "Total number of cache misses.";
      value = m.cache_misses;
    }
    ∷ record {
      name = codes "svm_revalidate_runs_total";
      help = codes "Total number of revalidation runs.";
      value = m.revalidate_runs;
    }
    ∷ record {
      name = codes "svm_upstream_requests_total";
      help = codes "Total number of upstream requests.";
      value = m.upstream_requests;
    }
    ∷ record {
      name = codes "svm_upstream_errors_total";
      help = codes "Total number of upstream errors.";
      value = m.upstream_errors;
    }
    ∷ record {
      name = codes "svm_refresh_updated_total";
      help = codes "Total number of background refreshes that updated cache records.";
      value = m.refresh_updated;
    }
    ∷ record {
      name = codes "svm_refresh_not_modified_total";
      help = codes "Total number of background refreshes resolved by 304 Not Modified.";
      value = m.refresh_not_mod;
    }
    ∷ record {
      name = codes "svm_refresh_skipped_total";
      help = codes "Total number of background refreshes skipped without an upstream call.";
      value = m.refresh_skipped;
    }
    ∷ record {
      name = codes "svm_refresh_failed_total";
      help = codes "Total number of background refreshes that failed.";
      value = m.refresh_failed;
    }
    ∷ record {
      name = codes "svm_refresh_processed_total";
      help = codes "Total number of background refresh queue jobs processed by workers.";
      value = m.refresh_processed;
    }
    ∷ record {
      name = codes "svm_access_log_dropped_total";
      help = codes "Total number of access-log entries dropped due to queue backpressure.";
      value = m.access_log_dropped;
    }
    ∷ []

-- The calls, one after the other.
unfoldable pub write_counters : List Counter → Str
unfolding write_counter
write_counters [] = []
write_counters (c ∷ cs) = write_counter c.name c.help c.value ++ write_counters cs

unfoldable pub metrics_text : Metrics → Str
unfolding counter_calls write_counters
metrics_text m = write_counters (counter_calls m)

-- `NewMetricsHandler`; `metrics` reads the counters of what the handlers share.
unfoldable pub metrics_handler {ℓ} : {W : Type ℓ} → (W → Option Metrics) → RequestHandler W
unfolding metrics_text
metrics_handler metrics req resp w = (
  write (metrics_text (snapshot (metrics w)))
      (record resp { status_code = 200; content_type = prometheus_text_content_type }),
  w,
)
