-- ===== src/Cache/Key.antt =====
-- internal/cache/key.go: the canonical form of a URL, and the key that is made of it.
pub mod Queries
use svm_go.Prelude.{
  ℕ, Bool, true, false, ◌&&◌, ◌||◌, Option, none, some, List, [], ◌∷◌, ◌++◌, Str, Assoc, codes,
  is_empty, str_eq, str_lt, lookup, insert, if◌then◌else◌,
}
use svm_go.Text.{trim_space, to_lower, contains_byte}
use svm_go.Platform.{Platform, Url}
use svm_go.Security.{hostname, port}

pub data KeyError : Type 0 where
  cache_url_required cache_url_invalid : KeyError

pub data Keyed : Type 0 where
  ok : Str → Keyed
  err : KeyError → Keyed

unfoldable pub format_host : Str → Str
format_host host = if contains_byte b':' host then codes "[" ++ (host ++ codes "]") else host

-- `net.JoinHostPort`
abbrev pub join_host_port : Str → Str → Str
join_host_port host port =
    if contains_byte b':' host
    then codes "[" ++ (host ++ (codes "]:" ++ port))
    else host ++ (codes ":" ++ port)

unfoldable pub normalize_host : Platform → Str → Str → Str → Str
unfolding format_host
normalize_host pl scheme hostname port =
    let host = to_lower pl.unicode hostname in
    if is_empty port
    then format_host host
    else if (str_eq scheme (codes "https") && str_eq port (codes "443"))
        || (str_eq scheme (codes "http") && str_eq port (codes "80"))
    then format_host host
    else join_host_port host port

-- `sort.Strings`, which leaves equal strings as they are.
unfoldable pub insert_sorted : Str → List Str → List Str
insert_sorted s [] = s ∷ []
insert_sorted s (t ∷ ts) =
    let rest = insert_sorted s ts in if str_lt t s then t ∷ rest else s ∷ t ∷ ts

unfoldable pub sort_strings : List Str → List Str
unfolding insert_sorted
sort_strings [] = []
sort_strings (s ∷ ts) = insert_sorted s (sort_strings ts)

-- The values of a key in the query, in their order: `query[key]`.
unfoldable pub values_of : Str → List (Str × Str) → List Str
values_of k [] = []
values_of k ((j, v) ∷ q) = let rest = values_of k q in if str_eq j k then v ∷ rest else rest

-- The keys of the query, each once.
unfoldable pub insert_key : Str → List Str → List Str
insert_key k [] = k ∷ []
insert_key k (j ∷ ks) =
    let rest = insert_key k ks in
    if str_eq k j then j ∷ ks else if str_lt j k then j ∷ rest else k ∷ j ∷ ks

-- The keys in the order in which `Encode` writes them.
unfoldable pub sorted_keys : List (Str × Str) → List Str
unfolding insert_key
sorted_keys [] = []
sorted_keys ((k, v) ∷ q) = insert_key k (sorted_keys q)

-- One `key=value` for each value, joined by `&`.
unfoldable pub encode_values : Platform → Str → List Str → List Str → List Str
encode_values pl key [] parts = parts
encode_values pl key (v ∷ vs) parts =
    (pl.query_escape key ++ (codes "=" ++ pl.query_escape v)) ∷ encode_values pl key vs parts

unfoldable pub join_ampersand : List Str → Str
join_ampersand [] = []
join_ampersand (p ∷ []) = p
join_ampersand (p ∷ q ∷ ps) = p ++ (codes "&" ++ join_ampersand (q ∷ ps))

-- `Encode` of the query whose values are sorted.
unfoldable pub encode_keys : Platform → List (Str × Str) → List Str → List Str
unfolding encode_values
encode_keys pl q [] = []
encode_keys pl q (k ∷ ks) = encode_values pl k (sort_strings (values_of k q)) (encode_keys pl q ks)

unfoldable pub encode_sorted : Platform → List (Str × Str) → Str
unfolding encode_keys join_ampersand
encode_sorted pl q = join_ampersand (encode_keys pl q (sorted_keys q))

-- The URL whose text the key is made of.
unfoldable pub normalized_url : Platform → Url → Url
unfolding normalize_host encode_sorted
normalized_url pl u =
    let scheme = to_lower pl.unicode u.scheme in
    record u {
      scheme = scheme;
      host = normalize_host pl scheme (hostname u) (port u);
      fragment = [];
      path = if is_empty u.path then codes "/" else u.path;
      raw_query = encode_sorted pl (pl.parse_query u.raw_query);
    }

unfoldable pub normalize_parsed_url : Platform → Url → Str
unfolding normalized_url
normalize_parsed_url pl u = pl.url_string (normalized_url pl u)

unfoldable pub key_from_normalized_url : Platform → Str → Str
key_from_normalized_url pl normalized = codes "v1:" ++ pl.sha256_hex normalized

unfoldable pub key_from_parsed_url : Platform → Url → Keyed
key_from_parsed_url pl u =
    if is_empty u.scheme || is_empty u.host
    then err cache_url_invalid
    else ok (key_from_normalized_url pl (normalize_parsed_url pl u))

unfoldable pub normalize_url : Platform → Str → Keyed
normalize_url pl raw_url =
    let trimmed = trim_space pl.unicode raw_url in
    if is_empty trimmed then err cache_url_required else elim (pl.parse_url trimmed) [
      | none ↦ err cache_url_invalid
      | some parsed ↦
          if is_empty parsed.scheme || is_empty parsed.host
          then err cache_url_invalid
          else ok (normalize_parsed_url pl parsed)
    ]

unfoldable pub key_from_url : Platform → Str → Keyed
unfolding normalize_url
key_from_url pl raw_url = elim (normalize_url pl raw_url) [
  | err e ↦ err e
  | ok normalized ↦ ok (key_from_normalized_url pl normalized)
]
