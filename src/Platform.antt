-- ===== src/Platform.antt =====
-- `url.URL` as the program uses it, and the standard packages that are not modelled: they are
-- functions that the definitions take as a parameter, with no law assumed of them.
use svm_go.Prelude.{Bool, true, false, Option, none, some, List, Str}
use svm_go.Text.{Unicode}

-- `user` is none where `User` is nil. The program reads and writes no `opaque`, `raw_path`,
-- `raw_fragment` or `omit_host`.
pub record Url : Type 0 where
  pub scheme : Str
  pub opaque : Str
  pub user : Option Str
  pub host : Str
  pub path : Str
  pub raw_path : Str
  pub omit_host : Bool
  pub raw_query : Str
  pub force_query : Bool
  pub fragment : Str
  pub raw_fragment : Str

-- `u.User != nil`
abbrev pub has_user : Url → Bool
has_user u = elim u.user [ none ↦ false | some _ ↦ true ]

-- net/url, crypto/sha256 with encoding/hex, and encoding/json. `json_decode` is the value that
-- `json.Unmarshal` makes of a text, none for an error or `null`; a value is given as a text.
-- `marshal_error` is `json.Marshal` of the map with the keys `error` and `message`.
pub record Platform : Type 0 where
  pub unicode : Unicode
  pub parse_url : Str → Option Url
  pub url_string : Url → Str
  pub parse_query : Str → List (Str × Str)
  pub query_escape : Str → Str
  pub sha256_hex : Str → Str
  pub json_valid : Str → Bool
  pub json_decode : Str → Option Str
  pub marshal_error : Str → Bool → Str → Option Str
