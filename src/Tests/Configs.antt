-- ===== src/Tests/Configs.antt =====
-- internal/config/config.go at a concrete environment.
use svm_go.Prelude.{
  ◌*◌, ◌≡◌, refl, none, some, [], ◌∷◌, Str, codes, pos, str_eq, lookup, insert, delete,
  if◌then◌else◌,
}
use svm_go.Cache.Clock.{hour}
use svm_go.Config
use svm_go.Config.{Parsers, Configuration, loaded, load_error, no_token, load}
use svm_go.Config.Checked.{Checked, load-Checked}
use svm_go.Text
use svm_go.Text.Numbers
use svm_go.Cache.Policy.{default_policy}

unfoldable pub program : Unit {0}
unfolding Config.lower_trim_parts Config.parse_csv_lower_trim Config.deduplicated_parts
    Config.parse_csv_trim_deduplicated Config.load_allowed_upstream_hosts Config.validate_port
    Config.parse_duration Config.parse_env Config.parse_env_positive_float Config.and_then
    Config.load_cache_policy Config.load Text.trim_space Text.to_lower Text.split_comma
    Text.split_comma_from Numbers.atoi Numbers.parse_uint Numbers.unsigned Numbers.digits_from
    str_eq lookup insert delete
program = tt

-- Every duration is two hours.
abbrev pub parsers : Parsers
parsers = record {
  unicode = record { trim = λ s. s; lower = λ s. s; fold = str_eq };
  days = λ s. some (pos (48 * hour));
  duration = λ s. some (pos (2 * hour));
  gigabytes = λ s. none;
}

abbrev pub environment : Str → Str
environment name =
    if str_eq name (codes "GITHUB_PATS")
    then codes " t1,t2 ,,t1"
    else if str_eq name (codes "API_USAGE_THRESHOLD")
    then codes "10"
    else if str_eq name (codes "CACHE_HARD_TTL")
    then codes "2D"
    else if str_eq name (codes "ALLOWED_UPSTREAM_HOSTS")
    then codes "API.github.com, "
    else []

abbrev pub expected : Configuration
expected = record {
  github_pats = codes "t1" ∷ codes "t2" ∷ [];
  api_usage_threshold = pos 10;
  forwarded_allow_ips = [];
  allowed_upstream_hosts = codes "api.github.com" ∷ [];
  cache_policy = record default_policy { hard_ttl = pos (48 * hour) };
  port = codes "8000";
}

loads : load parsers environment ≡ loaded expected
unfolding program
loads = refl

load-Checked_example : Checked parsers expected
load-Checked_example = load-Checked parsers environment expected loads
