-- ===== src/Tests/Logs.antt =====
-- internal/observability/logger.go at concrete calls.
use svm_go.Prelude.{
  ◌≡◌, refl, false, Bool-cases, inl, inr, Option, none, some, List, [], ◌∷◌, ◌++◌, map, Str, Assoc,
  codes, lookup, insert, str_eq, ◌==◌, arith, if◌then◌else◌, ◌⊎◌, ap, ◌≢◌,
}
use mathlib.Core.Path.{subst}
use svm_go.Logger
use svm_go.Logger.{Value, string, raw, string_field, info, warn, error}
use svm_go.Logger.Writing.{Printer, received, discard, new_logger, LogCall, write_all, log}
use svm_go.Logger.Writing.OneLine.{line_of, write_all-line_of}
use svm_go.Text.{contains_byte}
use svm_go.Text.Lines.{lines}

-- A text with its line feeds as the two bytes of the escape.
unfoldable escape : Str → Str
escape [] = []
escape (c ∷ s) = let rest = escape s in if c == b'\n' then b'\\' ∷ b'n' ∷ rest else c ∷ rest

escape_lacks : (s : Str) → contains_byte b'\n' (escape s) ≡ false
unfolding escape contains_byte
escape_lacks [] = refl
escape_lacks (c ∷ s) = ground (arith, escape_lacks s)

abbrev quoted : Option Value → Str
quoted none = codes "null"
quoted (some (string s)) = escape s
quoted (some _) = codes "other"

abbrev encoded_after : Option Value → Assoc Value → Str ⊎ Str
encoded_after none m = inl (quoted (lookup (codes "msg") m))
encoded_after (some v) m = inr (codes "unsupported\nvalue")

-- A printer that writes the message of a line, and fails on a field with the key `bad`.
abbrev printer : Printer
printer = record { marshal = λ m. encoded_after (lookup (codes "bad") m) m; quoted = quoted }

quoted_lacks : (v : Option Value) → contains_byte b'\n' (quoted v) ≡ false
unfolding contains_byte
quoted_lacks none = refl
quoted_lacks (some (string s)) = escape_lacks s
quoted_lacks (some (Logger.int n)) = refl
quoted_lacks (some (raw s)) = refl

encoded_after_lacks :
    (o : Option Value) (m : Assoc Value) (encoded : Str)
    → encoded_after o m ≡ inl encoded
    → contains_byte b'\n' encoded ≡ false
encoded_after_lacks none m encoded e =
    subst (λ s. contains_byte b'\n' s ≡ false) (cc e) (quoted_lacks (lookup (codes "msg") m))
encoded_after_lacks (some v) m encoded e = absurd (cc e)

marshal_lacks :
    (m : Assoc Value) (encoded : Str)
    → printer.marshal m ≡ inl encoded
    → contains_byte b'\n' encoded ≡ false
marshal_lacks m encoded e = encoded_after_lacks (lookup (codes "bad") m) m encoded e

-- A message of two lines, and a line that is not encoded.
abbrev calls : List LogCall
calls =
    record { ts = codes "now"; level = info; message = codes "two\nlines"; fields = [] }
    ∷ record {
      ts = codes "later";
      level = error;
      message = codes "failed";
      fields = string_field (codes "bad") [] ∷ [];
    }
    ∷ []

write_all-calls :
    write_all printer calls (some (new_logger (some (received []))))
    ≡ some (record {
      base = some (
          received (
            codes
              "two\\nlines\n{\"ts\":later,\"level\":\"error\",\"msg\":\"log encoding error\",\"error\":unsupported\\nvalue}\n"));
    })
unfolding write_all new_logger escape lookup str_eq insert svm_go.Prelude.delete
write_all-calls = refl

log_discard :
    log printer [] warn [] [] (some (new_logger none)) ≡ some (record { base = some discard })
unfolding log new_logger
log_discard = refl

write_all-line_of_example :
    (text : Str) × (write_all printer calls (some (new_logger (some (received []))))
      ≡ some (record { base = some (received text) }))
    × (lines text ≡ map (line_of printer) calls ++ [] ∷ [])
write_all-line_of_example = write_all-line_of printer marshal_lacks quoted_lacks calls
