-- ===== src/User/Validation/Labels.antt =====
-- api/user/v1/user.pb.validate.go: which host names _validateHostname accepts.
use kratos_layout_monolith.Prelude.{
  Every, map-Every, ℕ, false, none, List, [], ◌∷◌, ◌++◌, map, get_or, length, ◌==◌, ◌≤◌, ◌≡◌, ◌≢◌,
  ◌↔◌, ◌⊎◌, inl, inr, refl, sym, subst, ap, ◌∙◌, arith, ==_iff, Bool-cases, Option-cases,
}
use kratos_layout_monolith.External.Text.{Texts}
use kratos_layout_monolith.User.Validation.Hostname.{
  dot, hyphen, rune_len, utf8_len, split, trim_dot, last, not_host_char, chars_error, part_error,
  parts_error, validate_hostname,
}

-- The parts with the separator between them.
unfoldable pub join : ℕ → List (List ℕ) → List ℕ
join d [] = []
join d (p ∷ []) = p
join d (p ∷ q ∷ ps) = p ++ (d ∷ join d (q ∷ ps))

split-ne : (d : ℕ) (cs : List ℕ) → (p : List ℕ) × (ps : List (List ℕ)) × (split d cs ≡ p ∷ ps)
unfolding split
split-ne d [] = ([], [], refl)
split-ne d (c ∷ cs) =
    let (p, ps, e) = split-ne d cs in
    elim (Bool-cases (c == d)) [
      | inl same ↦ ([], p ∷ ps, rw (same, e) refl)
      | inr other ↦ (c ∷ p, ps, rw (other, e) refl)
    ]

join-push :
    (d c : ℕ) (p : List ℕ) (ps : List (List ℕ)) → join d ((c ∷ p) ∷ ps) ≡ c ∷ join d (p ∷ ps)
unfolding join
join-push d c p [] = refl
join-push d c p (q ∷ ps) = refl

-- What is split and joined is as it was.
pub join-split : (d : ℕ) (cs : List ℕ) → join d (split d cs) ≡ cs
unfolding split join
join-split d [] = refl
join-split d (c ∷ cs) =
    let (p, ps, e) = split-ne d cs in
    let back : join d (p ∷ ps) ≡ cs = ap (join d) (sym e) ∙ join-split d cs in
    elim (Bool-cases (c == d)) [
      | inl same ↦ rw (same, e) (cc ((==_iff c d).0 same, back))
      | inr other ↦ rw (other, e) (join-push d c p ps ∙ ap (λ r. c ∷ r) back)
    ]

split-free : (d : ℕ) (p : List ℕ) → Every (λ c. c ≢ d) p → split d p ≡ p ∷ []
unfolding split
split-free d [] h = refl
split-free d (c ∷ p) h = elim (Bool-cases (c == d)) [
  | inl same ↦ absurd (h.0 ((==_iff c d).0 same))
  | inr other ↦ rw (other, split-free d p h.1) refl
]

split-append :
    (d : ℕ) (p cs : List ℕ) → Every (λ c. c ≢ d) p → split d (p ++ (d ∷ cs)) ≡ p ∷ split d cs
unfolding split
split-append d [] cs h = rw ((==_iff d d).1 refl) refl
split-append d (c ∷ p) cs h = elim (Bool-cases (c == d)) [
  | inl same ↦ absurd (h.0 ((==_iff c d).0 same))
  | inr other ↦ rw (other, split-append d p cs h.1) refl
]

-- Parts without the separator that are joined and split are as they were.
pub split-join :
    (d : ℕ) (p : List ℕ) (ps : List (List ℕ))
    → Every (Every (λ c. c ≢ d)) (p ∷ ps)
    → split d (join d (p ∷ ps)) ≡ p ∷ ps
unfolding join
split-join d p [] h = split-free d p h.0
split-join d p (q ∷ ps) h =
    split-append d p (join d (q ∷ ps)) h.0 ∙ ap (λ r. p ∷ r) (split-join d q ps h.1)

-- A lower case letter, a digit or a hyphen.
abbrev pub IsHostChar : ℕ → Type 0
IsHostChar c = ((97 ≤ c) × (c ≤ 122)) ⊎ (((48 ≤ c) × (c ≤ 57)) ⊎ (c ≡ hyphen))

abbrev pub IsLabel : List ℕ → Type 0
IsLabel p =
    Every IsHostChar p
    × (1 ≤ length p)
    × (length p ≤ 63)
    × (get_or p 0 0 ≢ hyphen)
    × (last p ≢ hyphen)

utf8_len_ascii : (p : List ℕ) → Every IsHostChar p → utf8_len p ≡ length p
unfolding utf8_len
utf8_len_ascii [] h = refl
utf8_len_ascii (c ∷ p) h =
    let one : rune_len c ≡ 1 = ground (arith, h.0) in rw (one, utf8_len_ascii p h.1) omega arith

host_char : (c : ℕ) → (not_host_char c ≡ false) ↔ IsHostChar c
host_char c = ground arith

module _ (t : Texts) where
  chars_error_iff : (p : List ℕ) → (chars_error t p ≡ none) ↔ Every IsHostChar p
  unfolding chars_error
  chars_error_iff [] = (λ _. tt, λ _. refl)
  chars_error_iff (c ∷ p) =
      let (to, from) = chars_error_iff p in
      elim (Bool-cases (not_host_char c)) [
        | inl bad ↦ ((λ h. ground arith), λ h. absurd (ground (arith, (host_char c).1 h.0)))
        | inr good ↦ rw good ((λ h. ((host_char c).0 good, to h)), λ h. from h.1)
      ]

  part_error_iff : (p : List ℕ) → (part_error t p ≡ none) ↔ IsLabel p
  unfolding part_error
  part_error_iff p =
      let (to, from) = chars_error_iff p in
      (
        (λ h.
            let every = to (ground arith) in
            let same = utf8_len_ascii p every in
            (every, ground arith, ground arith, ground arith, ground arith)),
        λ h. let same = utf8_len_ascii p h.0 in let fine = from h.0 in ground arith,
      )

  parts_error_iff : (ps : List (List ℕ)) → (parts_error t ps ≡ none) ↔ Every IsLabel ps
  unfolding parts_error
  parts_error_iff [] = (λ _. tt, λ _. refl)
  parts_error_iff (p ∷ ps) =
      let (to, from) = parts_error_iff ps in
      elim (Option-cases (part_error t p)) [
        | inl good ↦
            rw (good, parts_error) ((λ h. ((part_error_iff p).0 good, to h)), λ h. from h.1)
        | inr (e, bad) ↦
            rw (bad, parts_error) ((λ h. cc), λ h. absurd (cc (bad, (part_error_iff p).1 h.0)))
      ]

  -- A host name of at most 253 bytes that is, in lower case and without a last dot, a list of labels
  -- with dots between them.
  abbrev pub IsHostname : List ℕ → Type 0
  IsHostname host =
      (utf8_len host ≤ 253)
      × (p : List ℕ) × (ps : List (List ℕ)) × (map t.to_lower (trim_dot host) ≡ join dot (p ∷ ps))
      × Every IsLabel (p ∷ ps)

  free_of_dots : (ps : List (List ℕ)) → Every IsLabel ps → Every (Every (λ c. c ≢ dot)) ps
  free_of_dots =
      map-Every IsLabel (Every (λ c. c ≢ dot))
        (λ p h. map-Every IsHostChar (λ c. c ≢ dot) (λ c one. ground arith) p h.0)

  -- _validateHostname returns no error exactly for a host name of at most 253 bytes that is, in lower
  -- case and without a last dot, labels of 1 to 63 letters, digits and inner hyphens with dots between
  -- them.
  pub validate_hostname_iff : (host : List ℕ) → (validate_hostname t host ≡ none) ↔ IsHostname host
  unfolding validate_hostname
  validate_hostname_iff host =
      let s = map t.to_lower (trim_dot host) in
      let (p, ps, e) = split-ne dot s in
      let (to, from) = parts_error_iff (split dot s) in
      (
        (λ h.
            let every : Every IsLabel (p ∷ ps) = subst (Every IsLabel) e (to (ground arith)) in
            (ground arith, p, ps, sym (join-split dot s) ∙ ap (join dot) e, every)),
        λ h.
            let (short, q, qs, joined, every) = h in
            let parts : split dot s ≡ q ∷ qs =
              ap (split dot) joined ∙ split-join dot q qs (free_of_dots (q ∷ qs) every) in
            let fine = from (subst (Every IsLabel) (sym parts) every) in ground arith,
      )
