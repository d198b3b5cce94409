-- ===== src/Text/Lines.antt =====
-- Texts that are read piece by piece: the part before a separator, and the lines of a text.
use svm_go.Prelude.{ℕ, ◌≡◌, false, List, [], ◌∷◌, ◌++◌, Str, ◌==◌, arith, if◌then◌else◌}
use svm_go.Text.{contains_byte}

-- The text before the first separator and the text behind it, which is empty where there is none.
unfoldable pub cut : ℕ → Str → Str × Str
cut sep [] = ([], [])
cut sep (c ∷ s) = let rest = cut sep s in if c == sep then ([], s) else (c ∷ rest.0, rest.1)

abbrev pub extend_first : ℕ → List Str → List Str
extend_first c [] = []
extend_first c (line ∷ rest) = (c ∷ line) ∷ rest

-- The parts between line feeds; the last one is empty for a text that ends with one.
unfoldable pub lines : Str → List Str
lines [] = [] ∷ []
lines (c ∷ s) = let rest = lines s in if c == b'\n' then [] ∷ rest else extend_first c rest

pub cut-append :
    (sep : ℕ) (s t : Str) → contains_byte sep s ≡ false → cut sep (s ++ sep ∷ t) ≡ (s, t)
unfolding cut contains_byte
cut-append sep [] t h = ground arith
cut-append sep (c ∷ s) t h = ground (arith, cut-append sep s t)

pub lines-append :
    (s t : Str) → contains_byte b'\n' s ≡ false → lines (s ++ b'\n' ∷ t) ≡ s ∷ lines t
unfolding lines contains_byte
lines-append [] t h = ground arith
lines-append (c ∷ s) t h = ground (arith, lines-append s t)

pub contains_byte-append :
    (c : ℕ) (s t : Str)
    → contains_byte c s ≡ false
    → contains_byte c t ≡ false
    → contains_byte c (s ++ t) ≡ false
unfolding contains_byte
contains_byte-append c [] t h k = k
contains_byte-append c (d ∷ s) t h k = ground (arith, contains_byte-append c s t)
