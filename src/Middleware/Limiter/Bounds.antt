-- ===== src/Middleware/Limiter/Bounds.antt =====
-- internal/middleware/ratelimit/ratelimit.go: the bounds of the bucket.
use kratos_layout_monolith.Prelude.{true, false, List, [], ◌∷◌, ◌≡◌, inl, inr, Bool-cases}
use kratos_layout_monolith.Prelude.Int.{ℤ, pos}
use kratos_layout_monolith.External.Float.{Floats}
use kratos_layout_monolith.Middleware.Limiter.{Limiter, new_limiter, allow, add_tokens}

-- Of float64: the comparisons are false of NaN.
pub record FloatLaws (fl : Floats) : Type 0 where
  pub irreflexive : (a : fl.F) → fl.lt a a ≡ false
  pub one_less :
      (a : fl.F)
      → fl.lt a (fl.of_int (pos 1)) ≡ false
      → fl.lt (fl.minus a (fl.of_int (pos 1))) (fl.of_int (pos 0)) ≡ false
  pub less_is_below :
      (cap a : fl.F) → fl.lt cap a ≡ false → fl.lt cap (fl.minus a (fl.of_int (pos 1))) ≡ false
  pub more_is_above :
      (a e r : fl.F)
      → fl.lt a (fl.of_int (pos 0)) ≡ false
      → fl.lt (fl.of_int (pos 0)) e ≡ true
      → fl.lt r (fl.of_int (pos 0)) ≡ false
      → fl.lt (fl.plus a (fl.times e r)) (fl.of_int (pos 0)) ≡ false

-- A call of Allow, or of AddTokens at a time.
pub data Call (fl : Floats) : Type 0 where
  allow_one : Call fl
  add_at : fl.F → Call fl

abbrev pub after : (fl : Floats) → List (Call fl) → Limiter fl → Limiter fl
after fl [] l = l
after fl (allow_one ∷ calls) l = after fl calls (allow fl l).1
after fl (add_at now ∷ calls) l = after fl calls (add_tokens fl now l)

abbrev pub IsBounded : (fl : Floats) → Limiter fl → Type 0
IsBounded fl l =
    (fl.lt l.rate (fl.of_int (pos 0)) ≡ false)
    × (fl.lt (fl.of_int l.burst) (fl.of_int (pos 0)) ≡ false)
    × (fl.lt l.tokens (fl.of_int (pos 0)) ≡ false)
    × (fl.lt (fl.of_int l.burst) l.tokens ≡ false)

module _ {fl : Floats} (laws : FloatLaws fl) where
  allow-IsBounded : (l : Limiter fl) → IsBounded fl l → IsBounded fl (allow fl l).1
  unfolding allow
  allow-IsBounded l (rate, burst, low, high) =
      elim (Bool-cases (fl.lt l.tokens (fl.of_int (pos 1)))) [
        | inl few ↦ rw (few, allow) (rate, burst, laws.irreflexive (fl.of_int (pos 0)), burst)
        | inr enough ↦
            rw (enough, allow)
              (
                rate,
                burst,
                laws.one_less l.tokens enough,
                laws.less_is_below (fl.of_int l.burst) l.tokens high,
              )
      ]

  add_tokens-IsBounded :
      (now : fl.F) (l : Limiter fl) → IsBounded fl l → IsBounded fl (add_tokens fl now l)
  unfolding add_tokens
  add_tokens-IsBounded now l (rate, burst, low, high) =
      let elapsed = fl.minus now l.last in
      let more = fl.plus l.tokens (fl.times elapsed l.rate) in
      elim (Bool-cases (fl.lt (fl.of_int (pos 0)) elapsed)) [
        | inr none_passed ↦ rw (none_passed, add_tokens) (rate, burst, low, high)
        | inl passed ↦ elim (Bool-cases (fl.lt (fl.of_int l.burst) more)) [
          | inl over ↦
              rw (passed, over, add_tokens)
                (rate, burst, burst, laws.irreflexive (fl.of_int l.burst))
          | inr under ↦
              rw (passed, under, add_tokens)
                (rate, burst, laws.more_is_above l.tokens elapsed l.rate low passed rate, under)
        ]
      ]

  after-IsBounded :
      (calls : List (Call fl)) (l : Limiter fl) → IsBounded fl l → IsBounded fl (after fl calls l)
  after-IsBounded [] l h = h
  after-IsBounded (allow_one ∷ calls) l h = after-IsBounded calls _ (allow-IsBounded l h)
  after-IsBounded (add_at now ∷ calls) l h = after-IsBounded calls _ (add_tokens-IsBounded now l h)

  -- After any calls of Allow and AddTokens, a new limiter whose rate and burst are not negative holds
  -- no less than zero tokens and no more than its burst.
  pub new_limiter-IsBounded :
      (rate : fl.F) (burst : ℤ) (calls : List (Call fl))
      → fl.lt rate (fl.of_int (pos 0)) ≡ false
      → fl.lt (fl.of_int burst) (fl.of_int (pos 0)) ≡ false
      → IsBounded fl (after fl calls (new_limiter fl rate burst))
  new_limiter-IsBounded rate burst calls r b =
      after-IsBounded calls (new_limiter fl rate burst)
        (r, b, laws.irreflexive (fl.of_int (pos 0)), b)
