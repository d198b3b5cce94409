-- ===== src/Version/Store/Memory.antt =====
-- internal/cache/l1/store.go: the in-memory cache as a store. A nil store or a nil cache is `none`.
use svm_go.Prelude.{ap, ◌≡◌, ◌⊎◌, refl, false, Option, none, some, Str, str_eq, inl}
use svm_go.Cache.{Record}
use svm_go.L1
use svm_go.L1.{Cache}
use svm_go.L1.Valid.{IsValid}
use svm_go.L1.Refines.{set-Writes}
use svm_go.L1.Runs.{get_readonly-get}
use svm_go.L1.Reads.{get-IsValid, get-set_or_none, get-set_ne, get-get}
use svm_go.Version.Store.{Lookup, CacheStore, Contract}

unfoldable pub store_get : Str → Option Cache → Lookup × Option Cache
store_get key none = (record { found = none; failed = false }, none)
store_get key (some c) =
    let (r, c') = L1.get key c in (record { found = r; failed = false }, some c')

unfoldable pub store_get_readonly : Str → Option Cache → Lookup × Option Cache
store_get_readonly key none = (record { found = none; failed = false }, none)
store_get_readonly key (some c) =
    let (r, c') = L1.get_readonly key c in (record { found = r; failed = false }, some c')

unfoldable pub store_set : Str → Record → Option Cache → Option Cache
store_set key r none = none
store_set key r (some c) = some (L1.set key r c)

abbrev pub memory_store : CacheStore
memory_store = record {
  State = Option Cache;
  get = store_get;
  read = store_get_readonly;
  set = store_set;
}

-- The invariant of the cache, where there is one.
abbrev pub IsValidStore : Option Cache → Type 0
IsValidStore none = Unit
IsValidStore (some c) = IsValid c

-- The in-memory store gives back what was last written under a key, or nothing, and a read changes
-- nothing that a later read can tell.
unfoldable pub memory_store-Contract : Contract memory_store
unfolding store_get store_get_readonly store_set
memory_store-Contract = record {
  IsValid = IsValidStore;
  read_valid = read_valid;
  set_valid = set_valid;
  read_set_self = read_set_self;
  read_set_ne = read_set_ne;
  read_read = read_read;
  get_valid = get_valid;
  get_get = get_get;
}
  where
    read_valid :
        (k : Str) (t : Option Cache) → IsValidStore t → IsValidStore (memory_store.read k t).1
    read_valid k none v = v
    read_valid k (some c) v = rw get_readonly-get (get-IsValid k c v)

    set_valid :
        (k : Str) (r : Record) (t : Option Cache)
        → IsValidStore t
        → IsValidStore (memory_store.set k r t)
    set_valid k r none v = v
    set_valid k r (some c) v = (set-Writes k r c v).valid

    read_set_self :
        (k : Str) (r : Record) (t : Option Cache)
        → IsValidStore t
        → ((memory_store.read k (memory_store.set k r t)).0.found ≡ none)
          ⊎ ((memory_store.read k (memory_store.set k r t)).0.found ≡ some r)
    read_set_self k r none v = inl refl
    read_set_self k r (some c) v = rw get_readonly-get (get-set_or_none k r c v)

    read_set_ne :
        (k j : Str) (r : Record) (t : Option Cache)
        → IsValidStore t
        → str_eq k j ≡ false
        → ((memory_store.read j (memory_store.set k r t)).0.found ≡ none)
          ⊎ ((memory_store.read j (memory_store.set k r t)).0.found
              ≡ (memory_store.read j t).0.found)
    read_set_ne k j r none v ne = inl refl
    read_set_ne k j r (some c) v ne =
        rw (get_readonly-get, get_readonly-get) (get-set_ne k j r c v ne)

    read_read :
        (k j : Str) (t : Option Cache)
        → IsValidStore t
        → (memory_store.read j (memory_store.read k t).1).0.found ≡ (memory_store.read j t).0.found
    read_read k j none v = refl
    read_read k j (some c) v =
        rw (get_readonly-get, get_readonly-get, get_readonly-get) (get-get k j c v)

    get_valid :
        (k : Str) (t : Option Cache) → IsValidStore t → IsValidStore (memory_store.get k t).1
    get_valid k none v = v
    get_valid k (some c) v = get-IsValid k c v

    get_get :
        (k j : Str) (t : Option Cache)
        → IsValidStore t
        → (memory_store.get j (memory_store.get k t).1).0 ≡ (memory_store.get j t).0
    get_get k j none v = refl
    get_get k j (some c) v = ap (λ r. record { found = r; failed = false }) (get-get k j c v)
