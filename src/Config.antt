-- ===== src/Config.antt =====
-- internal/config/config.go: the configuration from the environment. `getenv` is os.Getenv; a
-- variable that is not set is empty. Errors are told apart by their variable and their kind. The
-- floating-point numbers and time.ParseDuration are parameters.
pub mod Lists
pub mod Checked
use svm_go.Prelude.{
  ◌==◌, ℕ, zero, suc, Bool, true, false, not, ◌||◌, ◌==◌, Option, none, some, List, [], ◌∷◌, Str,
  Assoc, ℤ, pos, negsuc, positive, codes, is_empty, lookup, insert, length, ltb, leb, if◌then◌else◌,
}
use mathlib.Core.List.{reverse}
use svm_go.Cache.Clock.{Duration}
use svm_go.Cache.Policy.{Policy, default_policy}
use svm_go.Text.{Unicode, trim_space, to_lower, split_comma}
use svm_go.Text.Numbers.{atoi, parse_uint}

-- `days` is strconv.ParseFloat with its conversion to a number of days, `duration` is
-- time.ParseDuration, and `gigabytes` is strconv.ParseFloat: whether the value is at most 0, and the
-- number of bytes that the program makes of it for the cache.
pub record Parsers : Type 0 where
  pub unicode : Unicode
  pub days : Str → Option Duration
  pub duration : Str → Option Duration
  pub gigabytes : Str → Option (Bool × ℤ)

pub data LoadError : Type 0 where
  not_set no_token no_host bad_port negative_threshold : LoadError
  invalid not_positive : Str → LoadError

pub data Loaded {ℓ} (A : Type ℓ) : Type ℓ where
  loaded : A → Loaded A
  load_error : LoadError → Loaded A

pub record Configuration : Type 0 where
  pub github_pats : List Str
  pub api_usage_threshold : ℤ
  pub forwarded_allow_ips : Str
  pub allowed_upstream_hosts : List Str
  pub cache_policy : Policy
  pub port : Str

abbrev pub default_allowed_upstream_hosts : List Str
default_allowed_upstream_hosts =
    codes "api.github.com"
    ∷ codes "uploads.github.com"
    ∷ codes "raw.githubusercontent.com"
    ∷ codes "codeload.github.com"
    ∷ codes "objects.githubusercontent.com"
    ∷ codes "github-releases.githubusercontent.com"
    ∷ []

-- `if err != nil { return …, err }`
unfoldable pub and_then {ℓ κ} : {A : Type ℓ} {B : Type κ} → Loaded A → (A → Loaded B) → Loaded B
and_then (loaded a) f = f a
and_then (load_error e) f = load_error e

module _ (ps : Parsers) where
  -- The loop of `parseCSVLowerTrim`.
  unfoldable pub lower_trim_parts : List Str → List Str
  lower_trim_parts [] = []
  lower_trim_parts (part ∷ parts) =
      let trimmed = to_lower ps.unicode (trim_space ps.unicode part) in
      let rest = lower_trim_parts parts in if is_empty trimmed then rest else trimmed ∷ rest

  unfoldable pub parse_csv_lower_trim : Str → List Str
  unfolding lower_trim_parts
  parse_csv_lower_trim value = lower_trim_parts (split_comma value)

  -- The loop of `parseCSVTrimDeduplicated`, with what was seen.
  unfoldable pub deduplicated_parts : Assoc (Unit {0}) → List Str → List Str
  deduplicated_parts seen [] = []
  deduplicated_parts seen (part ∷ parts) =
      let token = trim_space ps.unicode part in
      let same = deduplicated_parts seen parts in
      let rest = deduplicated_parts (insert token tt seen) parts in
      if is_empty token
      then same
      else elim (lookup token seen) [ some _ ↦ same | none ↦ token ∷ rest ]

  unfoldable pub parse_csv_trim_deduplicated : Str → List Str
  unfolding deduplicated_parts
  parse_csv_trim_deduplicated value = deduplicated_parts [] (split_comma value)

  unfoldable pub load_allowed_upstream_hosts : (Str → Str) → List Str
  unfolding parse_csv_lower_trim
  load_allowed_upstream_hosts getenv =
      let raw = trim_space ps.unicode (getenv (codes "ALLOWED_UPSTREAM_HOSTS")) in
      if is_empty raw then default_allowed_upstream_hosts else parse_csv_lower_trim raw

  -- Whether `validatePort` gives no error.
  unfoldable pub validate_port : Str → Bool
  validate_port raw = elim (parse_uint 16 (trim_space ps.unicode raw)) [
    | none ↦ false
    | some zero ↦ false
    | some (suc n) ↦ true
  ]

  -- A text that ends in the byte, without it.
  abbrev pub cut_suffix : ℕ → Str → Option Str
  cut_suffix b s = elim (reverse s) [
    | [] ↦ none
    | c ∷ t ↦ if c == b then some (reverse t) else none
  ]

  unfoldable pub parse_duration : Str → Option Duration
  parse_duration raw =
      let value = trim_space ps.unicode (to_lower ps.unicode raw) in
      elim (cut_suffix b'd' value) [
        | some before ↦ ps.days (trim_space ps.unicode before)
        | none ↦ ps.duration value
      ]

  -- What three of the functions `parseEnv…` share: they differ in how they read a value.
  unfoldable pub parse_env : (Str → Option ℤ) → (Str → Str) → Str → ℤ → Loaded ℤ
  parse_env parse getenv name default_value =
      let raw = trim_space ps.unicode (getenv name) in
      if is_empty raw then loaded default_value else elim (parse raw) [
        | none ↦ load_error (invalid name)
        | some value ↦ if not (positive value) then load_error (not_positive name) else loaded value
      ]

  -- An int and an int64 are read alike.
  abbrev pub parse_env_positive_int : (Str → Str) → Str → ℤ → Loaded ℤ
  parse_env_positive_int = parse_env atoi

  abbrev pub parse_env_positive_int64 : (Str → Str) → Str → ℤ → Loaded ℤ
  parse_env_positive_int64 = parse_env atoi

  abbrev pub parse_env_duration : (Str → Str) → Str → Duration → Loaded Duration
  parse_env_duration = parse_env parse_duration

  unfoldable pub parse_env_positive_float : (Str → Str) → Str → ℤ → Loaded ℤ
  parse_env_positive_float getenv name default_value =
      let raw = trim_space ps.unicode (getenv name) in
      if is_empty raw then loaded default_value else elim (ps.gigabytes raw) [
        | none ↦ load_error (invalid name)
        | some (not_above, value) ↦
            if not_above then load_error (not_positive name) else loaded value
      ]

  unfoldable pub load_cache_policy : (Str → Str) → Loaded Policy
  unfolding parse_env parse_duration parse_env_positive_float
  load_cache_policy getenv =
      let d = default_policy in
      and_then (parse_env_duration getenv (codes "CACHE_HARD_TTL") d.hard_ttl) (λ hard_ttl.
        and_then (parse_env_duration getenv (codes "CACHE_NEGATIVE_TTL") d.negative_ttl)
          (λ negative_ttl.
            and_then (parse_env_duration getenv (codes "REVALIDATE_INTERVAL") d.revalidate_interval)
              (λ interval.
                and_then
                  (parse_env_duration getenv (codes "REVALIDATE_LOOKBACK") d.revalidate_lookback)
                  (λ lookback.
                    and_then
                      (parse_env_positive_int getenv (codes "REVALIDATE_WORKERS")
                        d.revalidate_workers)
                      (λ workers.
                        and_then
                          (parse_env_positive_int getenv (codes "REVALIDATE_PER_WORKER_RPS")
                            d.revalidate_per_worker_rps)
                          (λ rps.
                            and_then
                              (parse_env_positive_int getenv (codes "REFRESH_QUEUE_SIZE")
                                d.refresh_queue_size)
                              (λ queue_size.
                                and_then
                                  (parse_env_positive_float getenv (codes "CACHE_L1_MAX_GB")
                                    d.l1_max_bytes)
                                  (λ l1_max_bytes.
                                    and_then
                                      (parse_env_positive_int64 getenv
                                        (codes "MAX_UPSTREAM_RESPONSE_BYTES")
                                        d.max_upstream_response_bytes)
                                      (λ max_bytes.
                                        and_then
                                          (parse_env_duration getenv (codes "SHUTDOWN_TIMEOUT")
                                            d.shutdown_timeout)
                                          (λ shutdown_timeout. loaded (record {
                                            hard_ttl = hard_ttl;
                                            negative_ttl = negative_ttl;
                                            revalidate_interval = interval;
                                            revalidate_lookback = lookback;
                                            revalidate_workers = workers;
                                            revalidate_per_worker_rps = rps;
                                            refresh_queue_size = queue_size;
                                            l1_max_bytes = l1_max_bytes;
                                            max_upstream_response_bytes = max_bytes;
                                            shutdown_timeout = shutdown_timeout;
                                          })))))))))))

  -- `Load` once both required variables are set and there is a token.
  abbrev pub load_rest : (Str → Str) → List Str → Loaded Configuration
  load_rest getenv pats =
      elim (atoi (trim_space ps.unicode (getenv (codes "API_USAGE_THRESHOLD")))) [
        | none ↦ load_error (invalid (codes "API_USAGE_THRESHOLD"))
        | some (negsuc n) ↦ load_error negative_threshold
        | some (pos threshold) ↦
            let hosts = load_allowed_upstream_hosts getenv in
            if leb (length hosts) 0
            then load_error no_host
            else and_then (load_cache_policy getenv) (λ policy.
              let raw = trim_space ps.unicode (getenv (codes "PORT")) in
              let port = if is_empty raw then codes "8000" else raw in
              if not (validate_port port)
              then load_error bad_port
              else loaded (record {
                github_pats = pats;
                api_usage_threshold = pos threshold;
                forwarded_allow_ips = getenv (codes "FORWARDED_ALLOW_IPS");
                allowed_upstream_hosts = hosts;
                cache_policy = policy;
                port = port;
              }))
      ]

  unfoldable pub load : (Str → Str) → Loaded Configuration
  unfolding parse_csv_trim_deduplicated load_allowed_upstream_hosts load_cache_policy validate_port
      and_then
  load getenv =
      if is_empty (getenv (codes "GITHUB_PATS")) || is_empty (getenv (codes "API_USAGE_THRESHOLD"))
      then load_error not_set
      else let pats = parse_csv_trim_deduplicated (getenv (codes "GITHUB_PATS")) in
        if leb (length pats) 0 then load_error no_token else load_rest getenv pats
