-- ===== src/Cache/Paging/Sums.antt =====
-- internal/pkg/cache/cached_db.go: FindSum, which writes a field name into the text of a query.
use Prim.Native.String
use kratos_layout_monolith.Prelude.{
  ℕ, String, Bool, true, false, ◌||◌, ◌&&◌, List, [], ◌∷◌, ◌==◌, ◌≤◌, ◌≡◌, ◌⊎◌, inl, inr, refl,
  arith, if◌then◌else◌, Bool-cases, Every, Every-append, map-Every,
}
use kratos_layout_monolith.Prelude.Patterns.{between, all_chars, all_chars_iff}
use kratos_layout_monolith.Prelude.Text.{codes, codes-append}
use kratos_layout_monolith.Errors.{Result, err, opaque}
use kratos_layout_monolith.External.Gorm.{Statement}
use kratos_layout_monolith.Cache.Paging.{Build, new_statement, apply_build}

-- [a-zA-Z_]
abbrev pub is_field_start : ℕ → Bool
is_field_start c = between 97 122 c || between 65 90 c || c == 95

-- [a-zA-Z0-9_]
abbrev pub is_field_char : ℕ → Bool
is_field_char c = is_field_start c || between 48 57 c

-- fieldNamePattern: ^[a-zA-Z_][a-zA-Z0-9_]*$
abbrev pub matches_field : List ℕ → Bool
matches_field [] = false
matches_field (c ∷ cs) = is_field_start c && all_chars is_field_char cs

abbrev pub sum_of : String → String
sum_of field = String.◌++◌ "COALESCE(SUM(" (String.◌++◌ field "), 0)")

-- FindSum; `scan` is Select(text).Scan(&sum) of gorm on a statement.
unfoldable pub find_sum :
    {F D : Type 0} → (String → Statement → D → Result F × D) → String → Build → D → Result F × D
find_sum scan field build d =
    if matches_field (codes field)
    then scan (sum_of field) (apply_build build new_statement) d
    else (err (opaque "invalid sum field"), d)

-- A letter, a digit, an underscore, a parenthesis, a comma or a space.
abbrev pub IsHarmless : ℕ → Type 0
IsHarmless c =
    ((97 ≤ c) × (c ≤ 122))
    ⊎ (((65 ≤ c) × (c ≤ 90))
        ⊎ (((48 ≤ c) × (c ≤ 57)) ⊎ ((c ≡ 95) ⊎ ((c ≡ 40) ⊎ ((c ≡ 41) ⊎ ((c ≡ 44) ⊎ (c ≡ 32)))))))

abbrev IsFieldChar : ℕ → Type 0
IsFieldChar c = is_field_char c ≡ true

field-IsHarmless : (cs : List ℕ) → matches_field cs ≡ true → Every IsHarmless cs
field-IsHarmless [] h = tt
field-IsHarmless (c ∷ cs) h =
    let every =
      (all_chars_iff is_field_char IsFieldChar (λ b. (λ p. p, λ p. p)) cs).0 (ground arith) in
    (ground arith, map-Every IsFieldChar IsHarmless (λ b p. ground arith) cs every)

before-IsHarmless : Every IsHarmless (codes "COALESCE(SUM(")
before-IsHarmless = ground arith

behind-IsHarmless : Every IsHarmless (codes "), 0)")
behind-IsHarmless = ground arith

sum_of-IsHarmless :
    (field : String) → matches_field (codes field) ≡ true → Every IsHarmless (codes (sum_of field))
sum_of-IsHarmless field h =
    rw (codes-append "COALESCE(SUM(" (String.◌++◌ field "), 0)"), codes-append field "), 0)")
      (Every-append IsHarmless (codes "COALESCE(SUM(") _ before-IsHarmless (
        Every-append IsHarmless (codes field) _ (field-IsHarmless (codes field) h)
          behind-IsHarmless))

-- Whatever the field, FindSum depends on the database only through texts of letters, digits,
-- underscores, parentheses, commas and spaces: two databases that agree on those give the same.
pub find_sum_harmless :
    {F D : Type 0} (scan scan' : String → Statement → D → Result F × D) (field : String)
    (build : Build) (d : D)
    → ((text : String)
        → Every IsHarmless (codes text)
        → (q : Statement) (e : D) → scan text q e ≡ scan' text q e)
    → find_sum scan field build d ≡ find_sum scan' field build d
unfolding find_sum
find_sum_harmless scan scan' field build d agree = elim (Bool-cases (matches_field (codes field))) [
  | inl fine ↦
      rw fine
        (agree (sum_of field) (sum_of-IsHarmless field fine) (apply_build build new_statement) d)
  | inr refused ↦ rw refused refl
]
