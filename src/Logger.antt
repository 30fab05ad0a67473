-- ===== src/Logger.antt =====
-- internal/pkg/logger/logger.go: the JSON lines of JSONLogger. The mutex around the writer is held for
-- the one write of a line.
use Prim.Native.String
use kratos_layout_monolith.Prelude.{
  ℕ, ◌+◌, ◌%◌, String, Bool, true, false, not, ◌&&◌, Option, none, some, List, [], ◌∷◌, ◌++◌, ◌≡◌,
  ◌==◌, refl, ap, ◌∙◌, arith, str_eq, length, if◌then◌else◌,
}
use kratos_layout_monolith.Errors.{panic, Result, ok, err, Done}

-- A value of type any: nil, a string, or a value `V` of another type.
pub data Value (V : Type 0) : Type 0 where
  nil : Value V
  text : String → Value V
  other : V → Value V

-- `value == "" || value == nil`
abbrev pub is_blank : {V : Type 0} → Value V → Bool
is_blank nil = true
is_blank (text s) = str_eq s ""
is_blank (other v) = false

-- What Log calls: fmt.Sprint, Level.String, json.Marshal of a map, and the writer; and log.LevelKey.
pub record Output : Type 1 where
  pub V : Type 0
  pub Level : Type 0
  pub Writer : Type 0
  pub sprint : Value V → String
  pub level_key : String
  pub level_string : Level → String
  pub marshal : (String → Option (Value V)) → Result String
  pub write : String → Writer → Done × Writer

abbrev unpaired : String
unpaired = "KEYVALS UNPAIRED"

abbrev or_else : {A : Type 0} → Option A → Option A → Option A
or_else (some a) b = some a
or_else none b = b

two_more : (n : ℕ) → ((n + 2) % 2) ≡ n % 2
two_more n = omega arith

module _ (o : Output) where
  -- A map from strings, `map[string]any`.
  abbrev pub Fields : Type 0
  Fields = String → Option (Value o.V)

  -- `fields[key] = value`
  abbrev insert : String → Value o.V → Fields → Fields
  insert key value m k = if str_eq key k then some value else m k

  -- One round of the loop.
  unfoldable pub store : Value o.V → Value o.V → Fields → Fields
  store key value m = if is_blank value then m else insert (o.sprint key) value m

  -- The loop over the keys and values, two at a time.
  unfoldable pub fill : List (Value o.V) → Fields → Result Fields
  unfolding store
  fill [] m = ok m
  fill (key ∷ []) m = err (panic "runtime error: index out of range")
  fill (key ∷ value ∷ rest) m = fill rest (store key value m)

  unfoldable pub padded : List (Value o.V) → List (Value o.V)
  padded keyvals = if (length keyvals % 2) == 0 then keyvals else keyvals ++ (text unpaired ∷ [])

  -- Log once the fields are set.
  unfoldable pub write_line : Result Fields → o.Writer → Done × o.Writer
  write_line (err e) w = (err e, w)
  write_line (ok fields) w = elim (o.marshal fields) [
    | err e ↦ (err e, w)
    | ok line ↦ o.write (String.◌++◌ line "\n") w
  ]

  unfoldable pub log : o.Level → List (Value o.V) → o.Writer → Done × o.Writer
  unfolding fill padded write_line
  log level [] w = (ok tt, w)
  log level (key ∷ rest) w =
      let first : Fields = insert o.level_key (text (o.level_string level)) (λ k. none) in
      write_line (fill (padded (key ∷ rest)) first) w

  -- The keys with their values, where an odd one out has a value that says so.
  abbrev pub pairs : List (Value o.V) → List (Value o.V × Value o.V)
  pairs [] = []
  pairs (key ∷ []) = (key, text unpaired) ∷ []
  pairs (key ∷ value ∷ rest) = (key, value) ∷ pairs rest

  -- The last value under a key that is not blank.
  abbrev pub last_value : String → List (Value o.V × Value o.V) → Option (Value o.V)
  last_value k [] = none
  last_value k ((key, value) ∷ rest) =
      or_else (last_value k rest)
        (if str_eq (o.sprint key) k && not (is_blank value) then some value else none)

  -- The fields of a line: under each key the last value that is not blank, and else the level under
  -- the level's key.
  abbrev pub line_fields : o.Level → List (Value o.V) → Fields
  line_fields level keyvals k =
      or_else (last_value k (pairs keyvals))
        (if str_eq o.level_key k then some (text (o.level_string level)) else none)

  padded-two :
      (key value : Value o.V) (rest : List (Value o.V))
      → padded (key ∷ value ∷ rest) ≡ key ∷ value ∷ padded rest
  unfolding padded
  padded-two key value rest = ground (arith, two_more (length rest))

  store-fields :
      (key value : Value o.V) (rest : Option (Value o.V)) (m : Fields) (k : String)
      → or_else rest (store key value m k)
        ≡ or_else
            (or_else rest
              (if str_eq (o.sprint key) k && not (is_blank value) then some value else none))
            (m k)
  unfolding store
  store-fields key value rest m k = ground arith

  -- The loop never runs out of values, and keeps the last value of each key.
  fill-padded :
      (keyvals : List (Value o.V)) (m : Fields)
      → fill (padded keyvals) m ≡ ok (λ k. or_else (last_value k (pairs keyvals)) (m k))
  unfolding fill padded
  fill-padded [] m = refl
  fill-padded (key ∷ []) m = ap ok (λ i k. store-fields key (text unpaired) none m k i)
  fill-padded (key ∷ value ∷ rest) m =
      ap (λ kvs. fill kvs m) (padded-two key value rest)
      ∙ fill-padded rest (store key value m)
      ∙ ap ok (λ i k. store-fields key value (last_value k (pairs rest)) m k i)

  -- Log of nothing writes nothing. Log of any number of keys and values, an odd one included, does
  -- not panic: it marshals a map that has under each key the last value that is neither nil nor
  -- empty, an odd key with a text that says so, and the level under its key where no pair sets that;
  -- then it writes that line, or returns the error of the marshaller and writes nothing.
  pub log-Writes :
      (level : o.Level) (keyvals : List (Value o.V)) (w : o.Writer)
      → log level keyvals w ≡ elim keyvals [
        | [] ↦ (ok tt, w)
        | key ∷ rest ↦ elim (o.marshal (line_fields level (key ∷ rest))) [
          | err e ↦ (err e, w)
          | ok line ↦ o.write (String.◌++◌ line "\n") w
        ]
      ]
  unfolding log write_line
  log-Writes level [] w = refl
  log-Writes level (key ∷ rest) w = ap (λ fields. write_line fields w) (fill-padded (key ∷ rest) _)
