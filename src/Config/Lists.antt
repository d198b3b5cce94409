-- ===== src/Config/Lists.antt =====
-- The lists of tokens and hosts of internal/config/config.go.
use svm_go.Prelude.{
  ◌≡◌, ◌⊎◌, refl, true, false, none, some, List, [], ◌∷◌, Str, Assoc, codes, is_empty, lookup,
  insert, lookup-insert, arith, Bool-cases, Option-cases, inl, inr, All, str_eq,
}
use svm_go.Config.{
  to_lower, Parsers, deduplicated_parts, lower_trim_parts, parse_csv_lower_trim,
  load_allowed_upstream_hosts,
}
use svm_go.Text.{trim_space, split_comma}

abbrev pub IsNamed : List Str → Type 0
IsNamed l = All (λ s. is_empty s ≡ false) l

-- No text stands twice.
abbrev pub IsUnique : List Str → Type 0
IsUnique [] = Unit
IsUnique (s ∷ l) = All (λ t. str_eq s t ≡ false) l × IsUnique l

module _ (ps : Parsers) where
  lower_trim_parts-IsNamed : (parts : List Str) → IsNamed (lower_trim_parts ps parts)
  unfolding lower_trim_parts
  lower_trim_parts-IsNamed [] = tt
  lower_trim_parts-IsNamed (part ∷ parts) =
      elim (Bool-cases (is_empty (to_lower ps.unicode (trim_space ps.unicode part)))) [
        | inl blank ↦ rw blank (lower_trim_parts-IsNamed parts)
        | inr named ↦ rw named (named, lower_trim_parts-IsNamed parts)
      ]

  pub load_allowed_upstream_hosts-IsNamed :
      (getenv : Str → Str) → IsNamed (load_allowed_upstream_hosts ps getenv)
  unfolding load_allowed_upstream_hosts parse_csv_lower_trim
  load_allowed_upstream_hosts-IsNamed getenv =
      elim (Bool-cases
        (is_empty (trim_space ps.unicode (getenv (codes "ALLOWED_UPSTREAM_HOSTS"))))) [
          | inl unset ↦ rw unset (refl, (refl, (refl, (refl, (refl, (refl, tt))))))
          | inr set ↦ rw set (
              lower_trim_parts-IsNamed
                (split_comma (trim_space ps.unicode (getenv (codes "ALLOWED_UPSTREAM_HOSTS")))))
        ]

  -- Nothing that was seen comes again.
  abbrev pub Unseen : Assoc (Unit {0}) → List Str → Type 0
  Unseen seen l = All (λ t. lookup t seen ≡ none) l

  Unseen-insert :
      (token : Str) (seen : Assoc (Unit {0})) (l : List Str)
      → Unseen (insert token tt seen) l
      → Unseen seen l × All (λ t. str_eq token t ≡ false) l
  Unseen-insert token seen [] u = (tt, tt)
  Unseen-insert token seen (t ∷ l) u =
      let (a, b) = Unseen-insert token seen l u.1 in
      elim (Bool-cases (str_eq token t)) [
        | inl same ↦ absurd (ground (arith, u.0, same, lookup-insert token t (tt {0}) seen))
        | inr ne ↦ ((ground (arith, u.0, ne, lookup-insert token t (tt {0}) seen), a), (ne, b))
      ]

  abbrev pub Good : Assoc (Unit {0}) → List Str → Type 0
  Good seen l = IsUnique l × IsNamed l × Unseen seen l

  pub deduplicated_parts-Good :
      (seen : Assoc (Unit {0})) (parts : List Str) → Good seen (deduplicated_parts ps seen parts)
  unfolding deduplicated_parts
  deduplicated_parts-Good seen [] = (tt, tt, tt)
  deduplicated_parts-Good seen (part ∷ parts) =
      go (Bool-cases (is_empty token)) (Option-cases (lookup token seen))
        (deduplicated_parts-Good seen parts) (deduplicated_parts-Good (insert token tt seen) parts)
    where
      token : Str
      token = trim_space ps.unicode part

      go :
          ((is_empty token ≡ true) ⊎ (is_empty token ≡ false))
          → ((lookup token seen ≡ none) ⊎ ((u : Unit {0}) × (lookup token seen ≡ some u)))
          → Good seen (deduplicated_parts ps seen parts)
          → Good (insert token tt seen) (deduplicated_parts ps (insert token tt seen) parts)
          → Good seen (deduplicated_parts ps seen (part ∷ parts))
      go (inl blank) o same rest = rw blank same
      go (inr named) (inr (_, old)) same rest = rw (named, old) same
      go (inr named) (inl new) same (unique, names, unseen) =
          let (a, b) =
            Unseen-insert token seen (deduplicated_parts ps (insert token tt seen) parts) unseen in
          rw (named, new) ((b, unique), (named, names), (new, a))
