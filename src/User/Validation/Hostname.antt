-- ===== src/User/Validation/Hostname.antt =====
-- api/user/v1/user.pb.validate.go: _validateHostname and what it uses of package strings, on code
-- points. A byte is a hyphen only as a character of its own.
use Prim.Native.String
use kratos_layout_monolith.Prelude.{
  ℕ, String, Bool, ◌||◌, ◌&&◌, not, Option, none, some, List, [], ◌∷◌, map, get_or, ltb, ◌==◌, ◌+◌,
  if◌then◌else◌,
}
use kratos_layout_monolith.External.Text.{Texts}

abbrev pub dot : ℕ
dot = 46

abbrev pub hyphen : ℕ
hyphen = 45

-- The bytes of a character, and of a text, in UTF-8.
abbrev pub rune_len : ℕ → ℕ
rune_len c = if ltb c 128 then 1 else if ltb c 2048 then 2 else if ltb c 65536 then 3 else 4

unfoldable pub utf8_len : List ℕ → ℕ
utf8_len [] = 0
utf8_len (c ∷ cs) = rune_len c + utf8_len cs

-- strings.Split
abbrev pub push : ℕ → List (List ℕ) → List (List ℕ)
push c [] = (c ∷ []) ∷ []
push c (p ∷ ps) = (c ∷ p) ∷ ps

unfoldable pub split : ℕ → List ℕ → List (List ℕ)
split d [] = [] ∷ []
split d (c ∷ cs) = let rest = split d cs in if c == d then [] ∷ rest else push c rest

-- strings.TrimSuffix(host, ".")
unfoldable pub trim_dot : List ℕ → List ℕ
trim_dot [] = []
trim_dot (c ∷ []) = if c == dot then [] else c ∷ []
trim_dot (c ∷ d ∷ cs) = c ∷ trim_dot (d ∷ cs)

unfoldable pub last : List ℕ → ℕ
last [] = 0
last (c ∷ []) = c
last (c ∷ d ∷ cs) = last (d ∷ cs)

-- (r < low || r > high)
abbrev pub outside : ℕ → ℕ → ℕ → Bool
outside low high r = ltb r low || ltb high r

abbrev pub not_host_char : ℕ → Bool
not_host_char r = outside 97 122 r && outside 48 57 r && not (r == hyphen)

module _ (t : Texts) where
  -- The loop over the characters of a part.
  unfoldable pub chars_error : List ℕ → Option String
  chars_error [] = none
  chars_error (r ∷ rs) =
      let rest = chars_error rs in
      if not_host_char r
      then some (
          String.◌++◌ "hostname parts can only contain alphanumeric characters or hyphens, got "
            (t.quote r))
      else rest

  unfoldable pub part_error : List ℕ → Option String
  part_error part =
      if utf8_len part == 0 || ltb 63 (utf8_len part)
      then some "hostname part must be non-empty and cannot exceed 63 characters"
      else if get_or part 0 0 == hyphen
      then some "hostname parts cannot begin with hyphens"
      else if last part == hyphen
      then some "hostname parts cannot end with hyphens"
      else chars_error part

  -- The loop over the parts.
  unfoldable pub parts_error : List (List ℕ) → Option String
  parts_error [] = none
  parts_error (p ∷ ps) =
      let rest = parts_error ps in elim (part_error p) [ none ↦ rest | some e ↦ some e ]

  unfoldable pub validate_hostname : List ℕ → Option String
  validate_hostname host =
      let s = map t.to_lower (trim_dot host) in
      if ltb 253 (utf8_len host)
      then some "hostname cannot exceed 253 characters"
      else parts_error (split dot s)
