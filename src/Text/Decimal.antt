-- ===== src/Text/Decimal.antt =====
-- What the program uses of Go's `strconv.AppendInt` and of `%d`, on numbers that are not negative.
use svm_go.Prelude.{
  false, ap, ◌∙◌, inr, true, inl, Bool-cases, All, ◌-◌, ℕ, zero, suc, ◌+◌, ◌*◌, ◌/◌, ◌%◌, ◌<◌, ◌≡◌,
  refl, some, [], ◌∷◌, Str, ltb, arith, if◌then◌else◌,
}
use svm_go.Text.{contains_byte}
use svm_go.Text.Numbers.{is_digit, digits_from, unsigned}

-- The digits of a number in front of a text, the last digit first; a round takes one digit.
unfoldable pub prepend_decimal : ℕ → ℕ → Str → Str
prepend_decimal zero n s = s
prepend_decimal (suc fuel) n s =
    let more = prepend_decimal fuel (n / 10) ((b'0' + n % 10) ∷ s) in
    if ltb n 10 then (b'0' + n) ∷ s else more

unfoldable pub decimal : ℕ → Str
unfolding prepend_decimal
decimal n = prepend_decimal (suc n) n []

digits_from_digit :
    (m d : ℕ) (s : Str) → d < 10 → digits_from m ((b'0' + d) ∷ s) ≡ digits_from (m * 10 + d) s
unfolding digits_from
digits_from_digit m d s h =
    let value : m * 10 + ((b'0' + d) - b'0') ≡ m * 10 + d = omega arith in rw value (ground arith)

digits_from-prepend_decimal :
    (fuel n : ℕ) (s : Str) → n < fuel → digits_from 0 (prepend_decimal fuel n s) ≡ digits_from n s
unfolding prepend_decimal
digits_from-prepend_decimal zero n s h = absurd (omega arith)
digits_from-prepend_decimal (suc fuel) n s h = elim (Bool-cases (ltb n 10)) [
  | inl small ↦
      rw small (digits_from_digit 0 n s (ground arith) ∙ ap (λ m. digits_from m s) (omega arith))
  | inr large ↦
      let value : n / 10 * 10 + n % 10 ≡ n = omega arith in
      rw large (
        digits_from-prepend_decimal fuel (n / 10) ((b'0' + n % 10) ∷ s) (ground arith)
        ∙ digits_from_digit (n / 10) (n % 10) s (omega arith)
        ∙ ap (λ m. digits_from m s) value)
]

prepend_decimal_nonempty :
    (fuel n : ℕ) (s : Str) → (c : ℕ) × (t : Str) × (prepend_decimal (suc fuel) n s ≡ c ∷ t)
unfolding prepend_decimal
prepend_decimal_nonempty zero n s = elim (Bool-cases (ltb n 10)) [
  | inl small ↦ (b'0' + n, s, ground arith)
  | inr large ↦ (b'0' + n % 10, s, ground arith)
]
prepend_decimal_nonempty (suc fuel) n s = elim (Bool-cases (ltb n 10)) [
  | inl small ↦ (b'0' + n, s, ground arith)
  | inr large ↦
      let (c, t, shape) = prepend_decimal_nonempty fuel (n / 10) ((b'0' + n % 10) ∷ s) in
      (c, t, ground arith)
]

-- A text that reads as a number has no byte but digits.
pub All-is_digit :
    (m : ℕ) (s : Str) {n : ℕ} → digits_from m s ≡ some n → All (λ c. is_digit c ≡ true) s
unfolding digits_from
All-is_digit m [] e = tt
All-is_digit m (c ∷ s) {n = k} e = elim (Bool-cases (is_digit c)) [
  | inl digit ↦ (digit, All-is_digit (m * 10 + (c - b'0')) s {n = k} (ground arith))
  | inr other ↦ absurd (ground arith)
]

-- A printed number reads as that number.
pub unsigned-decimal : (n : ℕ) → unsigned (decimal n) ≡ some n
unfolding unsigned decimal
unsigned-decimal n =
    let (c, t, shape) = prepend_decimal_nonempty n n [] in
    let reads : digits_from 0 (prepend_decimal (suc n) n []) ≡ some n =
      digits_from-prepend_decimal (suc n) n [] (omega arith) in
    rw shape (rw shape at reads)

lacks_of_digits :
    (c : ℕ) (s : Str)
    → is_digit c ≡ false
    → All (λ d. is_digit d ≡ true) s
    → contains_byte c s ≡ false
unfolding contains_byte
lacks_of_digits c [] h digits = refl
lacks_of_digits c (d ∷ s) h digits = ground (arith, lacks_of_digits c s h digits.1)

unsigned_digits : (s : Str) {n : ℕ} → unsigned s ≡ some n → All (λ c. is_digit c ≡ true) s
unfolding unsigned
unsigned_digits [] e = tt
unsigned_digits (c ∷ s) {n = n} e = All-is_digit 0 (c ∷ s) {n = n} e

-- A printed number has no byte but digits.
pub contains_byte-decimal : (c n : ℕ) → is_digit c ≡ false → contains_byte c (decimal n) ≡ false
contains_byte-decimal c n h =
    lacks_of_digits c (decimal n) h (unsigned_digits (decimal n) (unsigned-decimal n))
