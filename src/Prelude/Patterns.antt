-- ===== src/Prelude/Patterns.antt =====
-- Character classes of regular expressions, on code points.
use kratos_layout_monolith.Prelude.{
  ℕ, Bool, true, ◌&&◌, List, [], ◌∷◌, leb, ◌≡◌, ◌↔◌, refl, arith, Every,
}

abbrev pub between : ℕ → ℕ → ℕ → Bool
between low high c = leb low c && leb c high

abbrev pub all_chars : (ℕ → Bool) → List ℕ → Bool
all_chars f [] = true
all_chars f (c ∷ cs) = f c && all_chars f cs

pub all_chars_iff :
    (f : ℕ → Bool) (P : ℕ → Type 0)
    → ((c : ℕ) → (f c ≡ true) ↔ P c)
    → (cs : List ℕ) → (all_chars f cs ≡ true) ↔ Every P cs
all_chars_iff f P iff [] = (λ _. tt, λ _. refl)
all_chars_iff f P iff (c ∷ cs) =
    let (to, from) = all_chars_iff f P iff cs in
    (
      (λ h. ((iff c).0 (ground arith), to (ground arith))),
      λ h. let a = (iff c).1 h.0 in let b = from h.1 in ground arith,
    )
