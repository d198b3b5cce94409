-- ===== src/Text.antt =====
-- What the program uses of Go's `strings` and `bytes`, on lists of bytes. ASCII text is handled
-- here. For text with other bytes the packages read the tables of `unicode`, which are generated:
-- they are the functions of `Unicode`, which the definitions take as a parameter.
pub mod Numbers
pub mod Decimal
pub mod Lines
use svm_go.Prelude.{
  ℕ, ◌+◌, ◌-◌, Bool, true, false, ◌&&◌, ◌||◌, Option, none, some, List, [], ◌∷◌, map, Str, str_eq,
  leb, ltb, ◌==◌, if◌then◌else◌,
}
use mathlib.Core.List.{reverse}

pub record Unicode : Type 0 where
  pub trim : Str → Str
  pub lower : Str → Str
  pub fold : Str → Str → Bool

abbrev pub is_ascii : Str → Bool
is_ascii [] = true
is_ascii (c ∷ s) = ltb c 128 && is_ascii s

-- Tab, line feed, vertical tab, form feed, carriage return and space.
abbrev pub is_space : ℕ → Bool
is_space c = (leb 9 c && leb c 13) || (c == 32)

abbrev pub lower_byte : ℕ → ℕ
lower_byte c = if leb b'A' c && leb c b'Z' then c + 32 else c

abbrev pub trim_left : Str → Str
trim_left [] = []
trim_left (c ∷ s) = let rest = trim_left s in if is_space c then rest else c ∷ s

-- `strings.Split(s, ",")`: the parts are one more than the commas.
unfoldable pub split_comma_from : Str → Str → List Str
split_comma_from part [] = reverse part ∷ []
split_comma_from part (c ∷ s) =
    if c == b',' then reverse part ∷ split_comma_from [] s else split_comma_from (c ∷ part) s

unfoldable pub split_comma : Str → List Str
unfolding split_comma_from
split_comma s = split_comma_from [] s

-- `strings.Contains(s, c)` for a text of one byte.
unfoldable pub contains_byte : ℕ → Str → Bool
contains_byte c [] = false
contains_byte c (d ∷ s) = (c == d) || contains_byte c s

module _ (u : Unicode) where
  -- `strings.TrimSpace`
  unfoldable pub trim_space : Str → Str
  trim_space s = if is_ascii s then reverse (trim_left (reverse (trim_left s))) else u.trim s

  -- `strings.ToLower`
  unfoldable pub to_lower : Str → Str
  to_lower s = if is_ascii s then map lower_byte s else u.lower s

  -- `strings.EqualFold`, `bytes.EqualFold`
  unfoldable pub equal_fold : Str → Str → Bool
  equal_fold s t =
      if is_ascii s && is_ascii t then str_eq (map lower_byte s) (map lower_byte t) else u.fold s t
