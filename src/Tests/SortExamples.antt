-- ===== src/Tests/SortExamples.antt =====
-- TopKeys with a sort by insertion.
use Prim.Native.Nat.{min}
use kratos_layout_monolith.Prelude.{
  suc, Bool, true, false, List, [], ◌∷◌, ◌++◌, map, length, ◌≡◌, ◌⊎◌, ◌↔◌, inl, inr, refl, ap, ◌∙◌,
  subst, Bool-cases, if◌then◌else◌,
}
use kratos_layout_monolith.Prelude.Int.{pos}
use kratos_layout_monolith.Errors.{ok}
use kratos_layout_monolith.Cache.Metrics.PerKey.{
  KeyStats, PerKeyMetrics, new_per_key_metrics, key_stats, hit, miss,
}
use kratos_layout_monolith.Cache.Metrics.TopKeys.{
  Sort, NoMore, Listed, SortLaws, top_keys, top_keys_greatest,
}

module _ (less : KeyStats → KeyStats → Bool) where
  abbrev insert : KeyStats → List KeyStats → List KeyStats
  insert a [] = a ∷ []
  insert a (b ∷ l) = let rest = insert a l in if less b a then b ∷ rest else a ∷ b ∷ l

  abbrev sorted : List KeyStats → List KeyStats
  sorted [] = []
  sorted (a ∷ l) = insert a (sorted l)

  abbrev IsSorted : List KeyStats → Type 0
  IsSorted [] = Unit
  IsSorted (a ∷ l) = ((b : KeyStats) → Listed b l → less b a ≡ false) × IsSorted l

  length-insert : (a : KeyStats) (l : List KeyStats) → length (insert a l) ≡ suc (length l)
  length-insert a [] = refl
  length-insert a (b ∷ l) = elim (Bool-cases (less b a)) [
    | inl more ↦ rw more (ap suc (length-insert a l))
    | inr other ↦ rw other refl
  ]

  length-sorted : (l : List KeyStats) → length (sorted l) ≡ length l
  length-sorted [] = refl
  length-sorted (a ∷ l) = length-insert a (sorted l) ∙ ap suc (length-sorted l)

  Listed-insert :
      (a c : KeyStats) (l : List KeyStats) → Listed c (insert a l) ↔ ((c ≡ a) ⊎ Listed c l)
  Listed-insert a c [] = (λ h. h, λ h. h)
  Listed-insert a c (b ∷ l) =
      let (to, from) = Listed-insert a c l in
      elim (Bool-cases (less b a)) [
        | inl more ↦ rw more (
          (λ h. elim h [
            | inl e ↦ inr (inl e)
            | inr r ↦ elim (to r) [ inl e ↦ inl e | inr k ↦ inr (inr k) ]
          ]),
          λ h. elim h [
            | inl e ↦ inr (from (inl e))
            | inr r ↦ elim r [ inl e ↦ inl e | inr k ↦ inr (from (inr k)) ]
          ],
        )
        | inr other ↦ rw other (λ h. h, λ h. h)
      ]

  Listed-sorted : (c : KeyStats) (l : List KeyStats) → Listed c (sorted l) ↔ Listed c l
  Listed-sorted c [] = (λ h. h, λ h. h)
  Listed-sorted c (a ∷ l) =
      let (to, from) = Listed-insert a c (sorted l) in
      let (out, back) = Listed-sorted c l in
      (
        (λ h. elim (to h) [ inl e ↦ inl e | inr k ↦ inr (out k) ]),
        λ h. from (elim h [ inl e ↦ inl e | inr k ↦ inr (back k) ]),
      )

  module _ (asym : (a b : KeyStats) → less a b ≡ true → less b a ≡ false)
      (trans : (a b c : KeyStats) → less b a ≡ false → less c b ≡ false → less c a ≡ false) where
    insert-IsSorted : (a : KeyStats) (l : List KeyStats) → IsSorted l → IsSorted (insert a l)
    insert-IsSorted a [] h = ((λ b k. absurd k), tt)
    insert-IsSorted a (b ∷ l) (first, rest) = elim (Bool-cases (less b a)) [
      | inl more ↦ rw more (
        (λ c k. elim ((Listed-insert a c l).0 k) [
          | inl e ↦ rw e (asym b a more)
          | inr r ↦ first c r
        ]),
        insert-IsSorted a l rest,
      )
      | inr other ↦ rw other (
        (λ c k. elim k [ inl e ↦ rw e other | inr r ↦ trans a b c other (first c r) ]),
        (first, rest),
      )
    ]

    sorted-IsSorted : (l : List KeyStats) → IsSorted (sorted l)
    sorted-IsSorted [] = tt
    sorted-IsSorted (a ∷ l) = insert-IsSorted a (sorted l) (sorted-IsSorted l)

  neighbours :
      (xs : List KeyStats) (a b : KeyStats) (ys : List KeyStats)
      → IsSorted (xs ++ (a ∷ b ∷ ys))
      → less b a ≡ false
  neighbours [] a b ys (first, rest) = first b (inl refl)
  neighbours (x ∷ xs) a b ys (first, rest) = neighbours xs a b ys rest

abbrev by_insertion : Sort
by_insertion less l = sorted less l

sorted_laws : SortLaws by_insertion
sorted_laws = record {
  same_length = λ less l. length-sorted less l;
  same_elements = λ less l a. Listed-sorted less a l;
  in_order = λ less asym trans l xs a b ys e.
      neighbours less xs a b ys (subst (IsSorted less) e (sorted-IsSorted less asym trans l));
}

abbrev counted : PerKeyMetrics
counted = miss "b" (hit "b" (hit "a" new_per_key_metrics))

top_keys_greatest_example :
    let all = map key_stats counted.keys in
    (l : List KeyStats) × (rest : List KeyStats) × (top_keys by_insertion (pos 1) counted ≡ ok l)
    × (length l ≡ min 1 (length all))
    × ((a : KeyStats) → Listed a (l ++ rest) ↔ Listed a all)
    × ((a b : KeyStats) → Listed a l → Listed b rest → NoMore a b)
top_keys_greatest_example = top_keys_greatest by_insertion sorted_laws 1 counted
