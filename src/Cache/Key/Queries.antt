-- ===== src/Cache/Key/Queries.antt =====
-- The key of internal/cache/key.go does not see the order of the query, the fragment, the case of the
-- scheme and the host, or an empty path.
use svm_go.Prelude.{
  ◌≡◌, ◌∙◌, refl, sym, ap, false, List, [], ◌∷◌, Str, arith, if◌then◌else◌, Bool-cases, inl, inr,
  is_empty, ◌&&◌, ◌||◌, str_eq, str_eq_iff, str_lt_asymm, str_lt_trans_not, str_lt_total, codes,
}
use mathlib.Core.List.{Permᴰ}
use svm_go.Cache.Key.{
  join_host_port, format_host, ok, insert_sorted, sort_strings, values_of, insert_key, sorted_keys,
  encode_keys, encode_sorted, normalize_host, normalized_url, normalize_parsed_url,
  key_from_parsed_url, key_from_normalized_url,
}
use svm_go.Platform.{Platform, Url}
use svm_go.Security.{hostname, port}
use svm_go.Text.{to_lower}

insert_sorted-insert_sorted :
    (s t : Str) (l : List Str)
    → insert_sorted s (insert_sorted t l) ≡ insert_sorted t (insert_sorted s l)
unfolding insert_sorted
insert_sorted-insert_sorted s t [] =
    ground (arith, str_lt_asymm s t, str_lt_asymm t s, str_lt_total s t)
insert_sorted-insert_sorted s t (x ∷ l) = ground (
  arith,
  insert_sorted-insert_sorted s t l,
  str_lt_asymm s t,
  str_lt_asymm t s,
  str_lt_asymm x s,
  str_lt_asymm x t,
  str_lt_asymm s x,
  str_lt_asymm t x,
  str_lt_trans_not s x t,
  str_lt_trans_not t x s,
  str_lt_total s t,
)

insert_key-insert_key :
    (s t : Str) (l : List Str) → insert_key s (insert_key t l) ≡ insert_key t (insert_key s l)
unfolding insert_key
insert_key-insert_key s t [] =
    ground
      (arith, str_lt_asymm s t, str_lt_asymm t s, str_lt_total s t, str_eq_iff s t, str_eq_iff t s)
insert_key-insert_key s t (x ∷ l) = ground (
  arith,
  insert_key-insert_key s t l,
  str_lt_asymm s t,
  str_lt_asymm t s,
  str_lt_asymm x s,
  str_lt_asymm x t,
  str_lt_asymm s x,
  str_lt_asymm t x,
  str_lt_trans_not s x t,
  str_lt_trans_not t x s,
  str_lt_trans_not s t x,
  str_lt_trans_not t s x,
  str_lt_total s t,
  str_lt_total s x,
  str_lt_total t x,
  str_eq_iff s t,
  str_eq_iff t s,
  str_eq_iff s x,
  str_eq_iff t x,
)

-- Two parsed queries whose pairs are the same, in any order.
values_of-sorted :
    (k : Str) {q q' : List (Str × Str)}
    → Permᴰ q q'
    → sort_strings (values_of k q) ≡ sort_strings (values_of k q')
unfolding values_of sort_strings
values_of-sorted k Permᴰ.nil = refl
values_of-sorted k (Permᴰ.cons {a = (j, v)} {b = b} {l₁ = l} {l₂ = m} e p) =
    rw (← e) (elim (Bool-cases (str_eq j k)) [
      | inl same ↦ rw same (ap (insert_sorted v) (values_of-sorted k p))
      | inr ne ↦ rw ne (values_of-sorted k p)
    ])
values_of-sorted k (Permᴰ.swap {a = (i, v)} {b = (j, w)} {l = l} e e') =
    rw (← e, ← e') (ground (arith, insert_sorted-insert_sorted v w (sort_strings (values_of k l))))
values_of-sorted k (Permᴰ.trans p p') = values_of-sorted k p ∙ values_of-sorted k p'

sorted_keys-Perm : {q q' : List (Str × Str)} → Permᴰ q q' → sorted_keys q ≡ sorted_keys q'
unfolding sorted_keys
sorted_keys-Perm Permᴰ.nil = refl
sorted_keys-Perm (Permᴰ.cons {a = (j, v)} e p) = rw (← e) (ap (insert_key j) (sorted_keys-Perm p))
sorted_keys-Perm (Permᴰ.swap {a = (i, v)} {b = (j, w)} {l = l} e e') =
    rw (← e, ← e') (insert_key-insert_key i j (sorted_keys l))
sorted_keys-Perm (Permᴰ.trans p p') = sorted_keys-Perm p ∙ sorted_keys-Perm p'

module _ (pl : Platform) where
  encode_keys-Perm :
      {q q' : List (Str × Str)} (ks : List Str)
      → Permᴰ q q'
      → encode_keys pl q ks ≡ encode_keys pl q' ks
  unfolding encode_keys
  encode_keys-Perm [] p = refl
  encode_keys-Perm (k ∷ ks) p = rw (values_of-sorted k p, encode_keys-Perm ks p) refl

  encode_sorted-Perm :
      {q q' : List (Str × Str)} → Permᴰ q q' → encode_sorted pl q ≡ encode_sorted pl q'
  unfolding encode_sorted
  encode_sorted-Perm {q = q} {q' = q'} p =
      rw (sorted_keys-Perm p, encode_keys-Perm (sorted_keys q') p) refl

  -- The port, where it is not that of the scheme.
  abbrev pub other_port : Str → Str → Str
  other_port scheme p =
      if (str_eq scheme (codes "https") && str_eq p (codes "443"))
        || (str_eq scheme (codes "http") && str_eq p (codes "80"))
      then []
      else p

  normalize_host-other_port :
      (scheme host p : Str)
      → normalize_host pl scheme host p ≡ (
          if is_empty (other_port scheme p)
          then format_host (to_lower pl.unicode host)
          else join_host_port (to_lower pl.unicode host) (other_port scheme p))
  unfolding normalize_host
  normalize_host-other_port scheme host p = ground arith

  -- An empty path is the root.
  abbrev pub path_or_root : Str → Str
  path_or_root path = if is_empty path then codes "/" else path

  -- Two URLs that name one resource: they differ at most in the case of the scheme and the host, in a
  -- port that is the scheme's own, in an empty path for the root, in the order of the parameters of
  -- the query, and in the fragment.
  pub record SameResource (u v : Url) : Type 0 where
    pub complete_u : (is_empty u.scheme ≡ false) × (is_empty u.host ≡ false)
    pub complete_v : (is_empty v.scheme ≡ false) × (is_empty v.host ≡ false)
    pub same_scheme : to_lower pl.unicode u.scheme ≡ to_lower pl.unicode v.scheme
    pub same_host : to_lower pl.unicode (hostname u) ≡ to_lower pl.unicode (hostname v)
    pub same_port :
        other_port (to_lower pl.unicode u.scheme) (port u)
        ≡ other_port (to_lower pl.unicode v.scheme) (port v)
    pub same_path : path_or_root u.path ≡ path_or_root v.path
    pub same_query : Permᴰ (pl.parse_query u.raw_query) (pl.parse_query v.raw_query)
    pub same_rest :
        record u { scheme = []; host = []; path = []; raw_query = []; fragment = [] }
        ≡ record v { scheme = []; host = []; path = []; raw_query = []; fragment = [] }

  -- A URL with the parts that the key normalizes.
  abbrev with_parts : Url → (scheme host path raw_query : Str) → Url
  with_parts u s h p q = record u { scheme = s; host = h; path = p; raw_query = q; fragment = [] }

  normalized_url-SameResource :
      (u v : Url) → SameResource u v → normalized_url pl u ≡ normalized_url pl v
  unfolding normalized_url
  normalized_url-SameResource u v s =
      let same_host : normalize_host pl (to_lower pl.unicode u.scheme) (hostname u) (port u)
          ≡ normalize_host pl (to_lower pl.unicode v.scheme) (hostname v) (port v) =
        normalize_host-other_port (to_lower pl.unicode u.scheme) (hostname u) (port u)
        ∙ rw (s.same_port, s.same_host) refl
        ∙ sym (normalize_host-other_port (to_lower pl.unicode v.scheme) (hostname v) (port v)) in
      cc (s.same_rest, s.same_scheme, same_host, s.same_path, encode_sorted-Perm s.same_query)

  -- Two URLs that name one resource have one cache key.
  pub key_from_parsed_url-SameResource :
      (u v : Url) → SameResource u v → key_from_parsed_url pl u ≡ key_from_parsed_url pl v
  unfolding key_from_parsed_url normalize_parsed_url
  key_from_parsed_url-SameResource u v s =
      rw (s.complete_u.0, s.complete_u.1, s.complete_v.0, s.complete_v.1)
        (ap (λ w. ok (key_from_normalized_url pl (pl.url_string w)))
          (normalized_url-SameResource u v s))
