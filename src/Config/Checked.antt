-- ===== src/Config/Checked.antt =====
-- What a configuration that internal/config/config.go loads is sure of.
use svm_go.Prelude.{
  ℕ, ◌<◌, ◌≡◌, ◌^◌, refl, true, false, Option, none, some, List, [], Str, ℤ, pos, negsuc, positive,
  codes, is_empty, length, leb, arith, if◌then◌else◌,
}
use mathlib.Core.Path.{subst}
use svm_go.Cache.Policy.{Policy}
use svm_go.Config.{
  Parsers, Loaded, loaded, load_error, Configuration, parse_env, parse_duration, and_then,
  load_cache_policy, load_rest, load, deduplicated_parts, parse_csv_trim_deduplicated,
  load_allowed_upstream_hosts, validate_port,
}
use svm_go.Config.Lists.{
  IsNamed, IsUnique, load_allowed_upstream_hosts-IsNamed, deduplicated_parts-Good,
}
use svm_go.Text.{trim_space, split_comma}
use svm_go.Text.Numbers.{atoi, parse_uint}

-- Every duration and number of a policy is positive; the size of the cache is read elsewhere.
pub record IsPositive (p : Policy) : Type 0 where
  pub hard_ttl : positive p.hard_ttl ≡ true
  pub negative_ttl : positive p.negative_ttl ≡ true
  pub revalidate_interval : positive p.revalidate_interval ≡ true
  pub revalidate_lookback : positive p.revalidate_lookback ≡ true
  pub revalidate_workers : positive p.revalidate_workers ≡ true
  pub revalidate_per_worker_rps : positive p.revalidate_per_worker_rps ≡ true
  pub refresh_queue_size : positive p.refresh_queue_size ≡ true
  pub max_upstream_response_bytes : positive p.max_upstream_response_bytes ≡ true
  pub shutdown_timeout : positive p.shutdown_timeout ≡ true

module _ (ps : Parsers) where
  parse_env-positive :
      (parse : Str → Option ℤ) (getenv : Str → Str) (name : Str) (d v : ℤ)
      → positive d ≡ true
      → parse_env ps parse getenv name d ≡ loaded v
      → positive v ≡ true
  unfolding parse_env
  parse_env-positive parse getenv name d v p h = ground (arith, p, h)

  loaded_inj : {A : Type 0} {a b : A} → loaded a ≡ loaded b → a ≡ b
  loaded_inj h = cc h

  -- A result that is loaded is sure to have a property.
  record Sure {A : Type 0} (P : A → Type 0) (l : Loaded A) : Type 0 where
    pub sure : (a : A) → l ≡ loaded a → P a

  loaded-Sure : {A : Type 0} (P : A → Type 0) (a : A) → P a → Sure P (loaded a)
  loaded-Sure P a p = record { sure = λ b h. subst P (loaded_inj h) p }

  and_then-Sure :
      {A B : Type 0} (P : B → Type 0) (l : Loaded A) (f : A → Loaded B)
      → ((a : A) → l ≡ loaded a → Sure P (f a))
      → Sure P (and_then l f)
  unfolding and_then
  and_then-Sure P (loaded a) f h = h a refl
  and_then-Sure P (load_error e) f h = record { sure = λ b k. absurd (cc k) }

  load_cache_policy-IsPositive :
      (getenv : Str → Str) → Sure IsPositive (load_cache_policy ps getenv)
  unfolding load_cache_policy
  load_cache_policy-IsPositive getenv = and_then-Sure IsPositive _ _ (λ v0 e0.
      and_then-Sure IsPositive _ _ (λ v1 e1. and_then-Sure IsPositive _ _ (λ v2 e2.
        and_then-Sure IsPositive _ _ (λ v3 e3. and_then-Sure IsPositive _ _ (λ v4 e4.
          and_then-Sure IsPositive _ _ (λ v5 e5. and_then-Sure IsPositive _ _ (λ v6 e6.
            and_then-Sure IsPositive _ _ (λ v7 e7. and_then-Sure IsPositive _ _ (λ v8 e8.
              and_then-Sure IsPositive _ _ (λ v9 e9. loaded-Sure IsPositive _ (record {
                hard_ttl = parse_env-positive (parse_duration ps) getenv _ _ v0 refl e0;
                negative_ttl = parse_env-positive (parse_duration ps) getenv _ _ v1 refl e1;
                revalidate_interval = parse_env-positive (parse_duration ps) getenv _ _ v2 refl e2;
                revalidate_lookback = parse_env-positive (parse_duration ps) getenv _ _ v3 refl e3;
                revalidate_workers = parse_env-positive atoi getenv _ _ v4 refl e4;
                revalidate_per_worker_rps = parse_env-positive atoi getenv _ _ v5 refl e5;
                refresh_queue_size = parse_env-positive atoi getenv _ _ v6 refl e6;
                max_upstream_response_bytes = parse_env-positive atoi getenv _ _ v8 refl e8;
                shutdown_timeout = parse_env-positive (parse_duration ps) getenv _ _ v9 refl e9;
              })))))))))))

  -- What is sure of a configuration that was loaded.
  pub record Checked (c : Configuration) : Type 0 where
    pub has_token : 0 < length c.github_pats
    pub tokens_named : IsNamed c.github_pats
    pub tokens_unique : IsUnique c.github_pats
    pub threshold : (n : ℕ) × (c.api_usage_threshold ≡ pos n)
    pub has_host : 0 < length c.allowed_upstream_hosts
    pub hosts_named : IsNamed c.allowed_upstream_hosts
    pub policy : IsPositive c.cache_policy
    pub port :
        (n : ℕ) × (parse_uint 16 (trim_space ps.unicode c.port) ≡ some n) × (0 < n) × (n < 2 ^ 16)

  validate_port_inv :
      (raw : Str)
      → validate_port ps raw ≡ true
      → (n : ℕ) × (parse_uint 16 (trim_space ps.unicode raw) ≡ some n) × (0 < n) × (n < 2 ^ 16)
  unfolding validate_port parse_uint
  validate_port_inv raw h = ground arith

  -- The port that is checked.
  abbrev port_or_default : (Str → Str) → Str
  port_or_default getenv =
      let raw = trim_space ps.unicode (getenv (codes "PORT")) in
      if is_empty raw then codes "8000" else raw

  abbrev configuration : (Str → Str) → List Str → ℕ → Policy → Configuration
  configuration getenv pats threshold policy = record {
    github_pats = pats;
    api_usage_threshold = pos threshold;
    forwarded_allow_ips = getenv (codes "FORWARDED_ALLOW_IPS");
    allowed_upstream_hosts = load_allowed_upstream_hosts ps getenv;
    cache_policy = policy;
    port = port_or_default getenv;
  }

  -- What was read where the rest of a configuration is loaded.
  record Rest (getenv : Str → Str) (pats : List Str) (c : Configuration) : Type 0 where
    pub threshold : ℕ
    pub policy : Policy
    pub some_host : leb (length (load_allowed_upstream_hosts ps getenv)) 0 ≡ false
    pub loaded_policy : load_cache_policy ps getenv ≡ loaded policy
    pub port_ok : validate_port ps (port_or_default getenv) ≡ true
    pub same : configuration getenv pats threshold policy ≡ c

  load_rest-Rest :
      (getenv : Str → Str) (pats : List Str) (c : Configuration)
      → load_rest ps getenv pats ≡ loaded c
      → Rest getenv pats c
  unfolding and_then
  load_rest-Rest getenv pats c h =
      go (atoi (trim_space ps.unicode (getenv (codes "API_USAGE_THRESHOLD")))) refl
        (load_cache_policy ps getenv) refl
    where
      go :
          (o : Option ℤ)
          → atoi (trim_space ps.unicode (getenv (codes "API_USAGE_THRESHOLD"))) ≡ o
          → (l : Loaded Policy) → load_cache_policy ps getenv ≡ l
          → Rest getenv pats c
      go none e l e' = absurd (ground (arith, h, e))
      go (some (negsuc n)) e l e' = absurd (ground (arith, h, e))
      go (some (pos n)) e (load_error x) e' = absurd (ground (arith, h, e, e'))
      go (some (pos n)) e (loaded p) e' = record {
        threshold = n;
        policy = p;
        some_host = ground (arith, h, e, e');
        loaded_policy = e';
        port_ok = ground (arith, h, e, e');
        same = ground (arith, h, e, e');
      }

  load_rest-Checked :
      (getenv : Str → Str) (pats : List Str) (c : Configuration)
      → load_rest ps getenv pats ≡ loaded c
      → 0 < length pats
      → IsNamed pats
      → IsUnique pats
      → Checked c
  load_rest-Checked getenv pats c h some_pat named unique =
      let r : Rest getenv pats c = load_rest-Rest getenv pats c h in
      subst Checked r.same (record {
        has_token = some_pat;
        tokens_named = named;
        tokens_unique = unique;
        threshold = (r.threshold, refl);
        has_host = ground (arith, r.some_host);
        hosts_named = load_allowed_upstream_hosts-IsNamed ps getenv;
        policy = (load_cache_policy-IsPositive getenv).sure r.policy r.loaded_policy;
        port = validate_port_inv (port_or_default getenv) r.port_ok;
      })

  -- A configuration that is loaded has a token and a host, none of them blank and no token twice; a
  -- threshold that is not negative; a port from 1 to 65535; and a policy whose times and numbers are
  -- all positive, the size of the cache aside.
  pub load-Checked :
      (getenv : Str → Str) (c : Configuration) → load ps getenv ≡ loaded c → Checked c
  unfolding load parse_csv_trim_deduplicated
  load-Checked getenv c h =
      let (unique, named, _) =
        deduplicated_parts-Good ps [] (split_comma (getenv (codes "GITHUB_PATS"))) in
      load_rest-Checked getenv
        (deduplicated_parts ps [] (split_comma (getenv (codes "GITHUB_PATS")))) c
        (ground (arith, h)) (ground (arith, h)) named unique
