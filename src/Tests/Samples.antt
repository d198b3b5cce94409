-- ===== src/Tests/Samples.antt =====
-- A platform, a configuration and a world for the tests of internal/service/version.
use svm_go.Prelude.{
  true, false, none, some, [], ◌∷◌, ◌++◌, Str, codes, pos, str_eq, str_lt, lookup, delete, insert,
  if◌then◌else◌,
}
use svm_go.Cache.Clock.{Time}
use svm_go.Cache.Key
use svm_go.Cache.Policy.{default_policy}
use svm_go.L1
use svm_go.L1.{Cache}
use svm_go.Metrics.{new_metrics}
use svm_go.Platform.{Platform, Url}
use svm_go.Security
use svm_go.Text
use svm_go.Upstream.Client
use svm_go.Upstream.Tokens
use svm_go.Version.{Request}
use svm_go.Version.Activity
use svm_go.Version.Activity.{ActivityTracker}
use svm_go.Version.Cached
use svm_go.Version.Respond
use svm_go.Version.Handle
use svm_go.Version.Prep
use svm_go.Version.Status
use svm_go.Version.Store.Memory
use svm_go.Version.World.{Config, World, UpstreamResponse, fetched, fetch_error, Outside}

unfoldable pub program : Unit {0}
unfolding L1.get L1.get_readonly L1.set L1.new_cache_with_max_bytes L1.len L1.remove_element
    L1.element_value L1.move_to_front L1.back L1.evict_loop L1.evict_to_budget L1.evict_oldest
    L1.replace L1.add_entry L1.estimate_entry_usage L1.clone_record lookup delete insert str_eq
    str_lt Text.trim_space Text.to_lower Text.equal_fold Text.contains_byte Security.split_port
    Security.strip_brackets Security.hostname Security.port Security.check_https
    Security.parse_https_url Security.any_host Security.host_allowed
    Security.parse_https_url_with_allowlist Key.format_host Key.normalize_host Key.insert_sorted
    Key.sort_strings Key.values_of Key.insert_key Key.sorted_keys Key.encode_values
    Key.join_ampersand Key.encode_keys Key.encode_sorted Key.normalized_url Key.normalize_parsed_url
    Key.key_from_normalized_url Key.key_from_parsed_url Tokens.add_tokens Tokens.new_token_provider
    Tokens.new_threshold_token_provider Tokens.has_token Tokens.is_in_cooldown Tokens.is_preferred
    Tokens.first_from Tokens.choose Tokens.next_token Tokens.observe_token_remaining
    Tokens.observe_rate_limited_token Client.is_rate_limited_status Client.observe_rate_limit
    Activity.record_activity Prep.add_hosts Prep.build_allowed_host_set Prep.is_allowed_host
    Prep.prepare_url Prep.prepare_request Prep.new_request_prep_cache Prep.get_or_prepare
    Status.is_negative_cacheable_status Status.should_serve_negative_cached_record
    Status.is_hard_expired Status.hard_expires_at Status.should_bypass_cache_write
    Status.parse_rate_limit_remaining Status.read_bounded_body Memory.store_get
    Memory.store_get_readonly Memory.store_set Cached.serve_record Cached.serve_cached
    Cached.conditional_candidate Respond.error_message Respond.respond_not_modified
    Respond.respond_ok Respond.store_negative Respond.respond_error Respond.respond
    Handle.observe_response Handle.sent_request Handle.send Handle.fetch_upstream Handle.handle_with
    Handle.handle_uncoalesced Handle.do_alone Handle.handle
program = tt

abbrev pub url_text : Str
url_text = codes "https://api.github.com/r"

abbrev pub url : Url
url = record {
  scheme = codes "https";
  opaque = [];
  user = none;
  host = codes "api.github.com";
  path = codes "/r";
  raw_path = [];
  omit_host = false;
  raw_query = [];
  force_query = false;
  fragment = [];
  raw_fragment = [];
}

-- It reads every URL as the one above and takes every text for valid JSON.
abbrev pub platform : Platform
platform = record {
  unicode = record { trim = λ s. s; lower = λ s. s; fold = str_eq };
  parse_url = λ s. some url;
  url_string = λ u. u.scheme ++ (codes "://" ++ (u.host ++ (u.path ++ u.raw_query)));
  parse_query = λ s.
      if str_eq s (codes "b=2&a=1")
      then (codes "b", codes "2") ∷ (codes "a", codes "1") ∷ []
      else if str_eq s (codes "a=1&b=2")
      then (codes "a", codes "1") ∷ (codes "b", codes "2") ∷ []
      else [];
  query_escape = λ s. s;
  sha256_hex = λ s. codes "hash";
  json_valid = λ s. true;
  json_decode = λ s. some s;
  marshal_error = λ error decoded message. some message;
}

abbrev pub config : Config
config = record { policy = default_policy; allowed_host_set = [] }

abbrev pub response : UpstreamResponse
response = record {
  status_code = 200;
  status = codes "OK";
  etag = codes "e2";
  remaining = codes "7";
  body = record { bytes = codes "{}"; failure = none };
}

-- Upstream answers with `response`.
abbrev pub answering : Time → Outside
answering now = record {
  now = now;
  choosing_at = now;
  observing_at = now;
  upstream = λ s. fetched response;
  ctx_done = false;
}

-- Upstream cannot be reached.
abbrev pub silent : Time → Outside
silent now = record (answering now) { upstream = λ s. fetch_error; ctx_done = false }

abbrev pub fresh_world : World Memory.memory_store.State
fresh_world = record {
  store = some (L1.new_cache_with_max_bytes (pos 100000));
  request_prep = Prep.new_request_prep_cache (pos 2);
  hit_recorder = some Activity.new_activity_tracker;
  tokens = Tokens.new_threshold_token_provider (codes "t1" ∷ codes "t2" ∷ []) (pos 0);
  metrics = some new_metrics;
  sent = [];
}

abbrev pub request : Request
request = record { raw_url = url_text; force_refresh = false }

abbrev pub key : Str
key = codes "v1:hash"
