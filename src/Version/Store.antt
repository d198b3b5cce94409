-- ===== src/Version/Store.antt =====
-- The interface `CacheStore` of internal/service/version/service.go, and what a store promises.
pub mod Memory
use svm_go.Prelude.{◌≡◌, ◌⊎◌, Bool, false, Option, none, some, Str, is_empty, str_eq}
use svm_go.Cache.{Record}

-- What a read returns: the record of a hit, and whether there was an error.
pub record Lookup : Type 0 where
  pub found : Option Record
  pub failed : Bool

-- `read` is `GetReadonly` where the store has it, and `get` otherwise: `getFromCache` takes it.
pub record CacheStore : Type 1 where
  pub State : Type 0
  pub get : Str → State → Lookup × State
  pub read : Str → State → Lookup × State
  pub set : Str → Record → State → State

-- A store gives back what was last written under a key, or nothing.
pub record Contract (s : CacheStore) : Type 1 where
  pub IsValid : s.State → Type 0
  pub read_valid : (k : Str) (t : s.State) → IsValid t → IsValid (s.read k t).1
  pub set_valid : (k : Str) (r : Record) (t : s.State) → IsValid t → IsValid (s.set k r t)
  pub read_set_self :
      (k : Str) (r : Record) (t : s.State)
      → IsValid t
      → ((s.read k (s.set k r t)).0.found ≡ none) ⊎ ((s.read k (s.set k r t)).0.found ≡ some r)
  pub read_set_ne :
      (k j : Str) (r : Record) (t : s.State)
      → IsValid t
      → str_eq k j ≡ false
      → ((s.read j (s.set k r t)).0.found ≡ none)
        ⊎ ((s.read j (s.set k r t)).0.found ≡ (s.read j t).0.found)
  pub read_read :
      (k j : Str) (t : s.State)
      → IsValid t
      → (s.read j (s.read k t).1).0.found ≡ (s.read j t).0.found
  pub get_valid : (k : Str) (t : s.State) → IsValid t → IsValid (s.get k t).1
  pub get_get : (k j : Str) (t : s.State) → IsValid t → (s.get j (s.get k t).1).0 ≡ (s.get j t).0
