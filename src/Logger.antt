-- ===== src/Logger.antt =====
-- internal/observability/logger.go: the fields of a log line. Formatting the time is left to Go's
-- package; `ts` is the formatted time.
pub mod Writing
use svm_go.Prelude.{
  lookup-insert, ap, ◌∙◌, inr, inl, Bool-cases, ◌≡◌, refl, Option, none, some, List, [], ◌∷◌, Str,
  Assoc, ℤ, codes, lookup, insert, lookup-insert, is_empty, str_eq, if◌then◌else◌,
}

-- The value of a field. `Any` and `Float64` make fields with other values than strings and ints: `raw`
-- holds the JSON text of such a value.
pub data Value : Type 0 where
  string : Str → Value
  int : ℤ → Value
  raw : Str → Value

pub record Field : Type 0 where
  pub key : Str
  pub value : Value

abbrev pub string_field : Str → Str → Field
string_field key value = record { key = key; value = string value }

abbrev pub int_field : Str → ℤ → Field
int_field key value = record { key = key; value = int value }

pub data Level : Type 0 where
  info warn error : Level

abbrev pub level_text : Level → Str
level_text info = codes "info"
level_text warn = codes "warn"
level_text error = codes "error"

-- The loop over the fields.
unfoldable pub add_fields : List Field → Assoc Value → Assoc Value
add_fields [] record_ = record_
add_fields (f ∷ fs) record_ =
    add_fields fs (if is_empty f.key then record_ else insert f.key f.value record_)

-- The map that `log` encodes.
unfoldable pub log_record : Str → Level → Str → List Field → Assoc Value
unfolding add_fields
log_record ts level message fields = add_fields fields (
    (codes "ts", string ts)
    ∷ (codes "level", string (level_text level))
    ∷ (codes "msg", string message)
    ∷ [])

-- The value of the last field with a key, and what stood there before.
abbrev pub last_value : Str → List Field → Option Value → Option Value
last_value key [] before = before
last_value key (f ∷ fs) before =
    last_value key fs
      (if is_empty f.key then before else if str_eq f.key key then some f.value else before)

lookup-add_fields :
    (key : Str) (fields : List Field) (m : Assoc Value)
    → lookup key (add_fields fields m) ≡ last_value key fields (lookup key m)
unfolding add_fields
lookup-add_fields key [] m = refl
lookup-add_fields key (f ∷ fs) m = elim (Bool-cases (is_empty f.key)) [
  | inl unnamed ↦ rw unnamed (lookup-add_fields key fs m)
  | inr named ↦ rw named (
      lookup-add_fields key fs (insert f.key f.value m)
      ∙ ap (last_value key fs) (lookup-insert f.key key f.value m))
]

-- A log line has under a key the value of the last field with that key, whatever the fields are;
-- without such a field it has the time, the level or the message under their keys and nothing under
-- another.
pub lookup-log_record :
    (ts : Str) (level : Level) (message : Str) (fields : List Field) (key : Str)
    → lookup key (log_record ts level message fields)
      ≡ last_value key fields (
          if str_eq (codes "ts") key
          then some (string ts)
          else if str_eq (codes "level") key
          then some (string (level_text level))
          else if str_eq (codes "msg") key
          then some (string message)
          else none)
unfolding log_record lookup
lookup-log_record ts level message fields key = lookup-add_fields key fields _
