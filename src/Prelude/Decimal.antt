-- ===== src/Prelude/Decimal.antt =====
-- fmt's %d, and that it tells numbers apart.
use Prim.Native.String
use Prim.Native.String.{String}
use kratos_layout_monolith.Prelude.{
  ℕ, zero, suc, ◌+◌, ◌-◌, ◌*◌, ◌/◌, ◌%◌, ◌≤◌, ◌<◌, ◌≡◌, refl, ap, sym, ◌∙◌, List, [], ◌∷◌, ◌++◌,
  arith, ltb, if◌then◌else◌, Bool-cases, inl, inr,
}
use kratos_layout_monolith.Prelude.Int.{ℤ, pos, negsuc}
use kratos_layout_monolith.Prelude.Text.{codes, codes-append}

-- The digit `n` below ten.
unfoldable pub digit : ℕ → String
digit zero = "0"
digit (suc zero) = "1"
digit (suc (suc zero)) = "2"
digit (suc (suc (suc zero))) = "3"
digit (suc (suc (suc (suc zero)))) = "4"
digit (suc (suc (suc (suc (suc zero))))) = "5"
digit (suc (suc (suc (suc (suc (suc zero)))))) = "6"
digit (suc (suc (suc (suc (suc (suc (suc zero))))))) = "7"
digit (suc (suc (suc (suc (suc (suc (suc (suc zero)))))))) = "8"
digit _ = "9"

-- With fuel: `n` rounds are enough for `n`.
unfoldable pub digits : ℕ → ℕ → String
unfolding digit
digits zero n = digit n
digits (suc f) n =
    let high = digits f (n / 10) in if ltb n 10 then digit n else String.◌++◌ high (digit (n % 10))

unfoldable pub decimal : ℤ → String
unfolding digits
decimal (pos n) = digits n n
decimal (negsuc n) = String.◌++◌ "-" (digits (suc n) (suc n))

-- The number that a text of digits stands for.
read : ℕ → List ℕ → ℕ
read acc [] = acc
read acc (c ∷ cs) = read (acc * 10 + (c - 48)) cs

read-append : (acc : ℕ) (xs ys : List ℕ) → read acc (xs ++ ys) ≡ read (read acc xs) ys
unfolding read
read-append acc [] ys = refl
read-append acc (c ∷ xs) ys = read-append (acc * 10 + (c - 48)) xs ys

read-digit : (acc n : ℕ) → n < 10 → read acc (codes (digit n)) ≡ acc * 10 + n
unfolding read digit
read-digit acc zero h = omega arith
read-digit acc (suc zero) h = omega arith
read-digit acc (suc (suc zero)) h = omega arith
read-digit acc (suc (suc (suc zero))) h = omega arith
read-digit acc (suc (suc (suc (suc zero)))) h = omega arith
read-digit acc (suc (suc (suc (suc (suc zero))))) h = omega arith
read-digit acc (suc (suc (suc (suc (suc (suc zero)))))) h = omega arith
read-digit acc (suc (suc (suc (suc (suc (suc (suc zero))))))) h = omega arith
read-digit acc (suc (suc (suc (suc (suc (suc (suc (suc zero)))))))) h = omega arith
read-digit acc (suc (suc (suc (suc (suc (suc (suc (suc (suc zero))))))))) h = omega arith
read-digit acc n h = absurd (omega arith)

read-digits : (f n : ℕ) → n ≤ f → read 0 (codes (digits f n)) ≡ n
unfolding digits
read-digits zero n h = read-digit 0 n (omega arith) ∙ omega arith
read-digits (suc f) n h = elim (Bool-cases (ltb n 10)) [
  | inl small ↦ rw small (read-digit 0 n (ground arith) ∙ omega arith)
  | inr big ↦
      rw (big, codes-append (digits f (n / 10)) (digit (n % 10)))
        (read-append 0 (codes (digits f (n / 10))) (codes (digit (n % 10)))
          ∙ read-digit _ (n % 10) (omega arith)
          ∙ omega (arith, read-digits f (n / 10) (ground arith)))
]

-- Two numbers with the same decimal text are the same.
pub decimal_injective : (a b : ℕ) → decimal (pos a) ≡ decimal (pos b) → a ≡ b
unfolding decimal
decimal_injective a b h =
    sym (read-digits a a (omega arith))
    ∙ ap (λ s. read 0 (codes s)) h
    ∙ read-digits b b (omega arith)
