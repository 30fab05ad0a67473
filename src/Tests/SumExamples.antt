-- ===== src/Tests/SumExamples.antt =====
-- FindSum over two databases.
use kratos_layout_monolith.Prelude.{
  ℕ, String, none, ◌≡◌, inl, inr, refl, subst, str_eq, eq_iff, if◌then◌else◌, arith, Bool-cases,
  Every,
}
use kratos_layout_monolith.Prelude.Text.{codes}
use kratos_layout_monolith.Errors.{not_found, opaque, Result, ok, err}
use kratos_layout_monolith.External.Gorm.{Statement}
use kratos_layout_monolith.Cache.Paging.Sums.{IsHarmless, find_sum, find_sum_harmless}

-- Two databases that differ on the text ";" alone.
abbrev sums : String → Statement → Unit {0} → Result ℕ × Unit {0}
sums text q d = (ok 3, d)

abbrev sums_but_one : String → Statement → Unit {0} → Result ℕ × Unit {0}
sums_but_one text q d = if str_eq text ";" then (err not_found, d) else (ok 3, d)

sums_agree :
    (text : String)
    → Every IsHarmless (codes text)
    → (q : Statement) (d : Unit {0}) → sums text q d ≡ sums_but_one text q d
sums_agree text harmless q d = elim (Bool-cases (str_eq text ";")) [
  | inl same ↦
      let one : Every IsHarmless (codes ";") =
        subst (λ t. Every IsHarmless (codes t)) ((eq_iff text ";").0 same) harmless in
      absurd (ground (arith, one.0))
  | inr other ↦ rw other refl
]

find_sum_harmless_example : find_sum sums "age" none tt ≡ find_sum sums_but_one "age" none tt
find_sum_harmless_example = find_sum_harmless sums sums_but_one "age" none tt sums_agree

test_field :
    find_sum sums "age); DROP TABLE users; --" none tt ≡ (err (opaque "invalid sum field"), tt)
unfolding find_sum
test_field = refl
