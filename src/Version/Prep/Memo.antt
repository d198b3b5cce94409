-- ===== src/Version/Prep/Memo.antt =====
-- The memo of internal/service/version/request_prep_cache.go changes no answer and stays bounded.
use svm_go.Prelude.{
  ◌+◌, ◌≤◌, ◌≡◌, refl, none, some, Str, arith, lookup, insert, delete_absent, lookup-insert,
  str_eq_iff, length, ltb, Bool-cases, Option-cases, inl, inr,
}
use svm_go.Version.Prep.{Prepared, RequestPrepCache, get_or_prepare}

-- The memo holds results of `prepare`, at most `max_entries` of them.
pub record IsMemo (prepare : Str → Prepared) (c : RequestPrepCache) : Type 0 where
  pub holds :
      (raw_url : Str) (p : Prepared) → lookup raw_url c.entries ≡ some p → p ≡ prepare raw_url
  pub bounded : length c.entries ≤ c.max_entries

length-insert_new :
    (k : Str) (p : Prepared) (c : RequestPrepCache)
    → lookup k c.entries ≡ none
    → length (insert k p c.entries) ≡ length c.entries + 1
unfolding insert
length-insert_new k p c h = rw (delete_absent k c.entries h) (omega arith)

-- Whatever other calls left in the memo between the two locks, the answer is that of `prepare`, and
-- the memo stays one, within its bound.
pub get_or_prepare-IsMemo :
    (prepare : Str → Prepared) (c between : RequestPrepCache) (raw_url : Str)
    → IsMemo prepare c
    → IsMemo prepare between
    → ((get_or_prepare c between raw_url prepare).0 ≡ prepare raw_url)
      × IsMemo prepare (get_or_prepare c between raw_url prepare).1
unfolding get_or_prepare
get_or_prepare-IsMemo prepare c between raw_url m n =
    elim (Option-cases (lookup raw_url c.entries)) [
      | inr (p, found) ↦ rw (found, get_or_prepare) (m.holds raw_url p found, m)
      | inl miss ↦ elim (Option-cases (lookup raw_url between.entries)) [
        | inr (p, found) ↦ rw (miss, found, get_or_prepare) (n.holds raw_url p found, n)
        | inl miss' ↦ elim (Bool-cases (ltb (length between.entries) between.max_entries)) [
          | inr full ↦ rw (miss, miss', full, get_or_prepare) (refl, n)
          | inl room ↦
              rw (miss, miss', room, get_or_prepare)
                (
                  refl,
                  record {
                    holds = λ j p h. ground (
                      arith,
                      lookup-insert raw_url j (prepare raw_url) between.entries,
                      str_eq_iff raw_url j,
                      n.holds j p,
                    );
                    bounded =
                        ground (arith, length-insert_new raw_url (prepare raw_url) between miss');
                  },
                )
        ]
      ]
    ]
