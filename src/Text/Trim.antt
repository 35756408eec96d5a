-- ===== src/Text/Trim.antt =====
-- strings.TrimSpace.
use mathlib.Core.List.{reverse, reverse-append, reverse-reverse}
use mentor_ia_worker.Prelude.{
  ℕ, zero, suc, ◌≡◌, refl, sym, ap, subst, ◌∙◌, ◌-◌, inl, inr, [], ◌∷◌, ◌++◌, arith, ◌==◌,
  Bool-cases,
}
use mentor_ia_worker.Text.{
  Bytes, leading_space, trailing_space, strip, trim_left, trim_right, trim_space,
}

-- What is left has no space at its front.
strip_done :
    (width : Bytes → ℕ) (skip : ℕ) (s : Bytes) → width [] ≡ 0 → width (strip width skip s) ≡ 0
unfolding strip
strip_done width skip [] h = h
strip_done width (suc skip) (x ∷ xs) h = strip_done width skip xs h
strip_done width zero (x ∷ xs) h = ground (arith, strip_done width (width (x ∷ xs) - 1) xs h)

-- A suffix is left.
strip_suffix :
    (width : Bytes → ℕ) (skip : ℕ) (s : Bytes) → (u : Bytes) × (s ≡ u ++ strip width skip s)
unfolding strip
strip_suffix width skip [] = ([], refl)
strip_suffix width (suc skip) (x ∷ xs) =
    let (u, e) = strip_suffix width skip xs in (x ∷ u, ap (◌∷◌ x) e)
strip_suffix width zero (x ∷ xs) = elim (Bool-cases (width (x ∷ xs) == 0)) [
  | inl e ↦ ([], rw e)
  | inr e ↦ let (u, q) = strip_suffix width (width (x ∷ xs) - 1) xs in (x ∷ u, rw e (ap (◌∷◌ x) q))
]

strip-of_done : (width : Bytes → ℕ) (s : Bytes) → width s ≡ 0 → strip width 0 s ≡ s
unfolding strip
strip-of_done width [] h = refl
strip-of_done width (x ∷ xs) h = ground arith

leading_space-prefix : (p u : Bytes) → leading_space (p ++ u) ≡ 0 → leading_space p ≡ 0
unfolding leading_space
leading_space-prefix [] u h = refl
leading_space-prefix (x ∷ []) [] h = h
leading_space-prefix (x ∷ []) (y ∷ []) h = ground arith
leading_space-prefix (x ∷ []) (y ∷ z ∷ u) h = ground arith
leading_space-prefix (x ∷ y ∷ []) [] h = h
leading_space-prefix (x ∷ y ∷ []) (z ∷ u) h = ground arith
leading_space-prefix (x ∷ y ∷ z ∷ p) u h = h

-- A text without its trailing spaces is a prefix of it.
trim_right_prefix : (s : Bytes) → (u : Bytes) × (s ≡ trim_right s ++ u)
unfolding trim_right
trim_right_prefix s =
    let (u, e) = strip_suffix trailing_space 0 (reverse s) in
    (reverse u, sym (reverse-reverse s) ∙ ap reverse e ∙ reverse-append u _)

-- No space is left at either end.
pub trim_space_ends :
    (s : Bytes) → (leading_space (trim_space s) ≡ 0) × (trailing_space (reverse (trim_space s)) ≡ 0)
unfolding trim_space
trim_space_ends s = (front, back)
  where
    front : leading_space (trim_right (trim_left s)) ≡ 0
    front =
        let (u, e) = trim_right_prefix (trim_left s) in
        leading_space-prefix (trim_right (trim_left s)) u
          (subst (λ t. leading_space t ≡ 0) e (strip_done leading_space 0 s refl))

    back : trailing_space (reverse (trim_right (trim_left s))) ≡ 0
    back = rw (reverse-reverse) (strip_done trailing_space 0 (reverse (trim_left s)) refl)

-- A second trim changes nothing.
pub trim_space_idem : (s : Bytes) → trim_space (trim_space s) ≡ trim_space s
trim_space_idem s = fixed (trim_space s) (trim_space_ends s)
  where
    fixed :
        (t : Bytes) → (leading_space t ≡ 0) × (trailing_space (reverse t) ≡ 0) → trim_space t ≡ t
    fixed t h =
        unfold trim_space in
        rw (strip-of_done leading_space t h.0)
          (rw (strip-of_done trailing_space (reverse t) h.1) (reverse-reverse t))
