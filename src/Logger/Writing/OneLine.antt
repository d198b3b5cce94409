-- ===== src/Logger/Writing/OneLine.antt =====
-- Each call of the logger of internal/observability/logger.go is one line of its sink.
use svm_go.Prelude.{
  ◌≡◌, refl, ap, ◌∙◌, true, false, inl, inr, Option, some, List, [], ◌∷◌, ◌++◌, map, Str, Assoc,
  codes, arith, append_assoc, append-nil, lookup, ◌⊎◌,
}
use svm_go.Logger.{lookup, Field, Value, string, Level, info, warn, error, level_text, log_record}
use svm_go.Logger.Writing.{
  write_error, write_warn, write_info, Printer, received, Logger, new_logger, ends_line, output,
  printed, log, LogCall, write, write_all,
}
use svm_go.Text.{contains_byte}
use svm_go.Text.Lines.{lines, lines-append, contains_byte-append}

-- The line that an encoded record is, or the error in its place.
abbrev pub text_of : Printer → Level → Assoc Value → Str ⊎ Str → Str
text_of pr level record_ (inl encoded) = encoded
text_of pr level record_ (inr err) = printed pr level record_ (inr err)

-- The line of a call.
abbrev pub line_of : Printer → LogCall → Str
line_of pr x =
    let record_ = log_record x.ts x.level x.message x.fields in
    text_of pr x.level record_ (pr.marshal record_)

ends_line-append : (s : Str) → ends_line (s ++ b'\n' ∷ []) ≡ true
unfolding ends_line
ends_line-append [] = refl
ends_line-append (c ∷ []) = refl
ends_line-append (c ∷ d ∷ s) = ends_line-append (d ∷ s)

ends_line_lacks : (s : Str) → contains_byte b'\n' s ≡ false → ends_line s ≡ false
unfolding ends_line contains_byte
ends_line_lacks [] h = refl
ends_line_lacks (c ∷ []) h = ground arith
ends_line_lacks (c ∷ d ∷ s) h = ends_line_lacks (d ∷ s) (ground arith)

level_text_lacks : (level : Level) → contains_byte b'\n' (level_text level) ≡ false
unfolding contains_byte
level_text_lacks info = refl
level_text_lacks warn = refl
level_text_lacks error = refl

write-log :
    (pr : Printer) (ts : Str) (level : Level) (message : Str) (fields : List Field)
    (l : Option Logger)
    → write pr (record { ts = ts; level = level; message = message; fields = fields }) l
      ≡ log pr ts level message fields l
unfolding write write_info write_warn write_error
write-log pr ts info message fields l = refl
write-log pr ts warn message fields l = refl
write-log pr ts error message fields l = refl

-- The lines of calls, each with its end.
abbrev lines_of : Printer → List LogCall → Str
lines_of pr [] = []
lines_of pr (x ∷ xs) = line_of pr x ++ b'\n' ∷ lines_of pr xs

module _ (pr : Printer)
    (marshal_lacks : (m : Assoc Value) (encoded : Str)
      → pr.marshal m ≡ inl encoded
      → contains_byte b'\n' encoded ≡ false)
    (quoted_lacks : (v : Option Value) → contains_byte b'\n' (pr.quoted v) ≡ false) where
  printed_lacks :
      (level : Level) (m : Assoc Value) (err : Str)
      → contains_byte b'\n' (printed pr level m (inr err)) ≡ false
  unfolding printed contains_byte
  printed_lacks level m err =
      let message = codes "\",\"msg\":\"log encoding error\",\"error\":" in
      let error_part = pr.quoted (some (string err)) ++ codes "}" in
      let level_part = level_text level ++ (message ++ error_part) in
      contains_byte-append b'\n' (pr.quoted (lookup (codes "ts") m))
        (codes ",\"level\":\"" ++ level_part) (quoted_lacks _)
        (contains_byte-append b'\n' (level_text level) (message ++ error_part)
          (level_text_lacks level)
          (contains_byte-append b'\n' (pr.quoted (some (string err))) (codes "}") (quoted_lacks _)
            refl))

  text_of_lacks :
      (level : Level) (m : Assoc Value) (r : Str ⊎ Str)
      → pr.marshal m ≡ r
      → contains_byte b'\n' (text_of pr level m r) ≡ false
  text_of_lacks level m (inl encoded) e = marshal_lacks m encoded e
  text_of_lacks level m (inr err) e = printed_lacks level m err

  output-printed :
      (level : Level) (m : Assoc Value) (r : Str ⊎ Str) (t : Str)
      → output (printed pr level m r) (received t)
        ≡ received (t ++ (text_of pr level m r ++ b'\n' ∷ []))
  unfolding output
  output-printed level m (inl encoded) t = unfold printed in rw (ends_line-append encoded) refl
  output-printed level m (inr err) t =
      rw (ends_line_lacks (printed pr level m (inr err)) (printed_lacks level m err)) refl

  write-line :
      (x : LogCall) (t : Str)
      → write pr x (some (record { base = some (received t) }))
        ≡ some (record { base = some (received (t ++ (line_of pr x ++ b'\n' ∷ []))) })
  unfolding log
  write-line x t =
      let m = log_record x.ts x.level x.message x.fields in
      write-log pr x.ts x.level x.message x.fields (some (record { base = some (received t) }))
      ∙ ap (λ sink. some (record { base = some sink })) (output-printed x.level m (pr.marshal m) t)

  write_all-lines_of :
      (xs : List LogCall) (t : Str)
      → write_all pr xs (some (record { base = some (received t) }))
        ≡ some (record { base = some (received (t ++ lines_of pr xs)) })
  unfolding write_all
  write_all-lines_of [] t = rw (append-nil t) refl
  write_all-lines_of (x ∷ xs) t = rw (write-line x t) (
      write_all-lines_of xs (t ++ (line_of pr x ++ b'\n' ∷ []))
      ∙ ap (λ s. some (record { base = some (received s) }))
          (append_assoc t (line_of pr x ++ b'\n' ∷ []) (lines_of pr xs)
            ∙ ap (λ s. t ++ s) (append_assoc (line_of pr x) (b'\n' ∷ []) (lines_of pr xs))))

  lines-lines_of : (xs : List LogCall) → lines (lines_of pr xs) ≡ map (line_of pr) xs ++ [] ∷ []
  lines-lines_of [] = unfold lines in refl
  lines-lines_of (x ∷ xs) =
      let m = log_record x.ts x.level x.message x.fields in
      lines-append (line_of pr x) (lines_of pr xs) (text_of_lacks x.level m (pr.marshal m) refl)
      ∙ ap (λ l. line_of pr x ∷ l) (lines-lines_of xs)

-- Where neither an encoded record nor a quoted value has a line feed, the sink of a new logger
-- receives exactly one line for each call, in the order of the calls: the encoded record, or the
-- error in its place. No message and no field ends a line or begins one.
pub write_all-line_of :
    (pr : Printer)
    (marshal_lacks : (m : Assoc Value) (encoded : Str)
      → pr.marshal m ≡ inl encoded
      → contains_byte b'\n' encoded ≡ false)
    (quoted_lacks : (v : Option Value) → contains_byte b'\n' (pr.quoted v) ≡ false)
    (xs : List LogCall)
    → (text : Str) × (write_all pr xs (some (new_logger (some (received []))))
        ≡ some (record { base = some (received text) }))
      × (lines text ≡ map (line_of pr) xs ++ [] ∷ [])
unfolding new_logger
write_all-line_of pr marshal_lacks quoted_lacks xs = (
  lines_of pr xs,
  write_all-lines_of pr marshal_lacks quoted_lacks xs [],
  lines-lines_of pr marshal_lacks quoted_lacks xs,
)
