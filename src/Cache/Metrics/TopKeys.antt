-- ===== src/Cache/Metrics/TopKeys.antt =====
-- internal/pkg/cache/per_key_metrics.go: TopKeys, over sort.Slice.
use Prim.Native.Nat.{min}
use kratos_layout_monolith.Prelude.{
  ℕ, zero, suc, Bool, true, false, List, [], ◌∷◌, ◌++◌, map, take, drop, length, ltb, ◌≤◌, ◌≡◌, ◌⊎◌,
  inl, inr, ◌↔◌, refl, sym, ap, ◌∙◌, subst, arith, Bool-cases, if◌then◌else◌, take-append-drop,
  length-take,
}
use kratos_layout_monolith.Prelude.Int.{ℤ, pos, ltb_ℤ, pos_part, ◌+ℤ◌, ◌≤ℤ◌}
use kratos_layout_monolith.Prelude.Word.{wrap_64}
use kratos_layout_monolith.Errors.{Result, ok, err, panic}
use kratos_layout_monolith.Cache.Metrics.PerKey.{KeyStats, PerKeyMetrics, key_stats}

-- sort.Slice, by a test of two elements.
abbrev pub Sort : Type 0
Sort = (KeyStats → KeyStats → Bool) → List KeyStats → List KeyStats

-- The sum of two int64.
unfoldable pub lookups : KeyStats → ℤ
lookups s = wrap_64 (s.hits +ℤ s.misses)

unfoldable pub more_lookups : KeyStats → KeyStats → Bool
unfolding lookups
more_lookups a b = ltb_ℤ (lookups b) (lookups a)

-- stats[:n] where n is below the length, which panics where n is negative.
abbrev pub first_keys : ℤ → List KeyStats → Result (List KeyStats)
first_keys n stats =
    if ltb_ℤ n (pos (length stats))
    then if ltb_ℤ n (pos 0)
      then err (panic "slice bounds out of range")
      else ok (take (pos_part n) stats)
    else ok stats

unfoldable pub top_keys : Sort → ℤ → PerKeyMetrics → Result (List KeyStats)
top_keys sort n p = first_keys n (sort more_lookups (map key_stats p.keys))

abbrev pub Listed : KeyStats → List KeyStats → Type 0
Listed a [] = ⊥
Listed a (b ∷ l) = (a ≡ b) ⊎ Listed a l

-- What sort.Slice promises for a test that orders: the elements that it was given, in a sequence in
-- which none goes before the one next to it.
pub record SortLaws (sort : Sort) : Type 0 where
  pub same_length :
      (less : KeyStats → KeyStats → Bool) (l : List KeyStats) → length (sort less l) ≡ length l
  pub same_elements :
      (less : KeyStats → KeyStats → Bool) (l : List KeyStats) (a : KeyStats)
      → Listed a (sort less l) ↔ Listed a l
  pub in_order :
      (less : KeyStats → KeyStats → Bool)
      → ((a b : KeyStats) → less a b ≡ true → less b a ≡ false)
      → ((a b c : KeyStats) → less b a ≡ false → less c b ≡ false → less c a ≡ false)
      → (l : List KeyStats) → (xs : List KeyStats) (a b : KeyStats) (ys : List KeyStats)
      → sort less l ≡ xs ++ (a ∷ b ∷ ys)
      → less b a ≡ false

-- The sum of the hits and the misses of `b` is no more than that of `a`.
abbrev pub NoMore : KeyStats → KeyStats → Type 0
NoMore a b = wrap_64 (b.hits +ℤ b.misses) ≤ℤ wrap_64 (a.hits +ℤ a.misses)

pub more_asym : (a b : KeyStats) → more_lookups a b ≡ true → more_lookups b a ≡ false
unfolding more_lookups
more_asym a b h = ground arith

pub not_more_trans :
    (a b c : KeyStats)
    → more_lookups b a ≡ false
    → more_lookups c b ≡ false
    → more_lookups c a ≡ false
unfolding more_lookups
not_more_trans a b c h k = ground arith

not_more_NoMore : (a b : KeyStats) → more_lookups b a ≡ false → NoMore a b
unfolding more_lookups lookups
not_more_NoMore a b h = ground arith

-- Neighbours in order, after some elements.
abbrev Ordered : List KeyStats → Type 0
Ordered l =
    (xs : List KeyStats) (a b : KeyStats) (ys : List KeyStats)
    → l ≡ xs ++ (a ∷ b ∷ ys)
    → more_lookups b a ≡ false

Ordered-tail : (c : KeyStats) (l : List KeyStats) → Ordered (c ∷ l) → Ordered l
Ordered-tail c l h xs a b ys e = h (c ∷ xs) a b ys (ap (λ r. c ∷ r) e)

-- The first of a list in order goes before all that follow.
first_before :
    (a : KeyStats) (l : List KeyStats)
    → Ordered (a ∷ l)
    → (b : KeyStats) → Listed b l
    → more_lookups b a ≡ false
first_before a [] h b i = absurd i
first_before a (c ∷ l) h b (inl e) = rw e (h [] a c l refl)
first_before a (c ∷ l) h b (inr i) =
    not_more_trans a c b (h [] a c l refl) (first_before c l (Ordered-tail a (c ∷ l) h) b i)

Listed-append : (xs ys : List KeyStats) (b : KeyStats) → Listed b ys → Listed b (xs ++ ys)
Listed-append [] ys b h = h
Listed-append (x ∷ xs) ys b h = inr (Listed-append xs ys b h)

before_after :
    (xs ys : List KeyStats)
    → Ordered (xs ++ ys)
    → (a b : KeyStats) → Listed a xs
    → Listed b ys
    → more_lookups b a ≡ false
before_after [] ys h a b la lb = absurd la
before_after (x ∷ xs) ys h a b (inl e) lb =
    rw e (first_before x (xs ++ ys) h b (Listed-append xs ys b lb))
before_after (x ∷ xs) ys h a b (inr la) lb =
    before_after xs ys (Ordered-tail x (xs ++ ys) h) a b la lb

take_all : (n : ℕ) (l : List KeyStats) → length l ≤ n → take n l ≡ l
take_all zero [] h = refl
take_all zero (a ∷ l) h = absurd (omega (arith, h))
take_all (suc n) [] h = refl
take_all (suc n) (a ∷ l) h = ap (λ r. a ∷ r) (take_all n l (omega (arith, h)))

first_keys-eq : (n : ℕ) (l : List KeyStats) → first_keys (pos n) l ≡ ok (take n l)
first_keys-eq n l = elim (Bool-cases (ltb n (length l))) [
  | inl shorter ↦ ground arith
  | inr longer ↦ let all = take_all n l (ground arith) in ground (arith, all)
]

-- TopKeys of a number that is not negative returns that many of the keys, or all where there are
-- fewer; with those left out they are the keys that were counted, and the hits and misses of one that
-- is left out sum, as an int64, to no more than those of one that is returned.
pub top_keys_greatest :
    (sort : Sort) (laws : SortLaws sort) (n : ℕ) (p : PerKeyMetrics)
    → let all = map key_stats p.keys in
      (l : List KeyStats) × (rest : List KeyStats) × (top_keys sort (pos n) p ≡ ok l)
      × (length l ≡ min n (length all))
      × ((a : KeyStats) → Listed a (l ++ rest) ↔ Listed a all)
      × ((a b : KeyStats) → Listed a l → Listed b rest → NoMore a b)
unfolding top_keys
top_keys_greatest sort laws n p =
    let all = map key_stats p.keys in
    let sorted = sort more_lookups all in
    let whole = take-append-drop n sorted in
    let order : Ordered sorted = laws.in_order more_lookups more_asym not_more_trans all in
    (
      take n sorted,
      drop n sorted,
      first_keys-eq n sorted,
      length-take n sorted ∙ ap (min n) (laws.same_length more_lookups all),
      (λ a.
          subst (λ r. Listed a r ↔ Listed a all) (sym whole)
            (laws.same_elements more_lookups all a)),
      λ a b la lb. not_more_NoMore a b (
          before_after (take n sorted) (drop n sorted) (subst Ordered (sym whole) order) a b la lb),
    )
