-- ===== src/Tests/LoggerExamples.antt =====
-- A line of the logger with one pair, a blank value and a key without a value.
use Prim.Native.String
use kratos_layout_monolith.Prelude.{ℕ, String, Option, none, some, List, [], ◌∷◌, ◌≡◌, refl}
use kratos_layout_monolith.Errors.{ok}
use kratos_layout_monolith.Logger.{
  Value, nil, text, other, Output, log, log-Writes, fill, store, padded, write_line,
}

abbrev show : Value ℕ → String
show nil = "<nil>"
show (text s) = s
show (other n) = "?"

-- The fields "level", "msg" and "id" of a line, one after the other.
abbrev shown : Option (Value ℕ) → String
shown none = "-"
shown (some v) = show v

abbrev output : Output
output = record {
  V = ℕ;
  Level = ℕ;
  Writer = List String;
  sprint = show;
  level_key = "level";
  level_string = λ n. "INFO";
  marshal = λ fields. ok (
      String.◌++◌ (shown (fields "level"))
        (String.◌++◌ (shown (fields "msg")) (shown (fields "id"))));
  write = λ line w. (ok tt, line ∷ w);
}

abbrev keyvals : List (Value ℕ)
keyvals = text "msg" ∷ text "a" ∷ text "msg" ∷ text "b" ∷ text "msg" ∷ nil ∷ text "id" ∷ []

test_line : log output 0 keyvals [] ≡ (ok tt, "INFObKEYVALS UNPAIRED\n" ∷ [])
unfolding log fill store padded write_line
test_line = refl

log-Writes_example : log output 0 keyvals [] ≡ (ok tt, "INFObKEYVALS UNPAIRED\n" ∷ [])
log-Writes_example = log-Writes output 0 keyvals []
