-- ===== src/Logger/Writing.antt =====
-- What the logger of internal/observability/logger.go writes to its sink.
pub mod OneLine
use svm_go.Prelude.{
  Bool, false, inl, inr, Option, none, some, List, [], ◌∷◌, ◌++◌, Str, Assoc, codes, ◌==◌,
  if◌then◌else◌, ◌⊎◌,
}
use svm_go.Logger.{Field, Value, string, Level, info, warn, error, level_text, log_record, lookup}

-- What Go's packages make of a line: `json.Marshal` gives its bytes or the text of its error, and the
-- verb %q quotes a value.
pub record Printer : Type 0 where
  pub marshal : Assoc Value → Str ⊎ Str
  pub quoted : Option Value → Str

-- `io.Discard`, or a sink with the text that it has received.
pub data Sink : Type 0 where
  discard : Sink
  received : Str → Sink

pub record Logger : Type 0 where
  pub base : Option Sink

unfoldable pub new_logger : Option Sink → Logger
new_logger none = record { base = some discard }
new_logger (some w) = record { base = some w }

unfoldable ends_line : Str → Bool
ends_line [] = false
ends_line (c ∷ []) = c == b'\n'
ends_line (c ∷ d ∷ s) = ends_line (d ∷ s)

-- What a `log.Logger` does with a text: it ends the line where the text does not.
unfoldable pub output : Str → Sink → Sink
unfolding ends_line
output s discard = discard
output s (received t) = received (t ++ (if ends_line s then s else s ++ b'\n' ∷ []))

-- The text that `log` prints for an encoded line and for an error.
unfoldable pub printed : Printer → Level → Assoc Value → Str ⊎ Str → Str
printed pr level record_ (inl encoded) = encoded ++ b'\n' ∷ []
printed pr level record_ (inr err) =
    codes "{\"ts\":"
    ++ (pr.quoted (lookup (codes "ts") record_)
        ++ (codes ",\"level\":\""
            ++ (level_text level
                ++ (codes "\",\"msg\":\"log encoding error\",\"error\":"
                    ++ (pr.quoted (some (string err)) ++ codes "}")))))

unfoldable pub log : Printer → Str → Level → Str → List Field → Option Logger → Option Logger
unfolding log_record output printed
log pr ts level message fields none = none
log pr ts level message fields (some l) = some (elim l.base [
  | none ↦ l
  | some sink ↦
      let record_ = log_record ts level message fields in
      record { base = some (output (printed pr level record_ (pr.marshal record_)) sink) }
])

unfoldable pub write_info : Printer → Str → Str → List Field → Option Logger → Option Logger
unfolding log
write_info pr ts = log pr ts info

unfoldable pub write_warn : Printer → Str → Str → List Field → Option Logger → Option Logger
unfolding log
write_warn pr ts = log pr ts warn

unfoldable pub write_error : Printer → Str → Str → List Field → Option Logger → Option Logger
unfolding log
write_error pr ts = log pr ts error

-- A call of a logger, with the time of the call.
pub record LogCall : Type 0 where
  pub ts : Str
  pub level : Level
  pub message : Str
  pub fields : List Field

-- The method for a level.
unfoldable pub write : Printer → LogCall → Option Logger → Option Logger
unfolding write_info write_warn write_error
write pr x = elim x.level [
  | info ↦ write_info pr x.ts x.message x.fields
  | warn ↦ write_warn pr x.ts x.message x.fields
  | error ↦ write_error pr x.ts x.message x.fields
]

-- Calls from any goroutines, one after the other, as the lock of `log.Logger` orders them.
unfoldable pub write_all : Printer → List LogCall → Option Logger → Option Logger
unfolding write
write_all pr [] l = l
write_all pr (x ∷ xs) l = write_all pr xs (write pr x l)
