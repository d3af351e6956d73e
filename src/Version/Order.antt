-- ===== src/Version/Order.antt =====
-- compareNormalizedVersions of src/version.ts, component by component.
use clideck_mcp.Prelude.{
  ℕ, zero, suc, ◌<◌, List, [], ◌∷◌, ◌≡◌, refl, sym, ◌∙◌, inl, inr, arith, ltb, ◌==◌, Bool-cases,
}
use clideck_mcp.Version.{Comparison, less, equal, greater, sign_of, compare_normalized_versions}

-- The component at an index, 0 behind the end.
abbrev pub component_at : ℕ → List ℕ → ℕ
component_at i [] = 0
component_at zero (a ∷ rest) = a
component_at (suc i) (a ∷ rest) = component_at i rest

-- At the first component in which they differ, the one has the lower value.
abbrev pub IsBelow : List ℕ → List ℕ → Type 0
IsBelow xs ys =
    (i : ℕ) × ((j : ℕ) → j < i → component_at j xs ≡ component_at j ys)
    × (component_at i xs < component_at i ys)

abbrev pub Decides : List ℕ → List ℕ → Comparison → Type 0
Decides xs ys less = IsBelow xs ys
Decides xs ys equal = (i : ℕ) → component_at i xs ≡ component_at i ys
Decides xs ys greater = IsBelow ys xs

-- A version by its first component and the others.
abbrev Extends : List ℕ → ℕ → List ℕ → Type 0
Extends xs a rest =
    (component_at 0 xs ≡ a) × ((i : ℕ) → component_at (suc i) xs ≡ component_at i rest)

IsBelow-later :
    (xs ys : List ℕ) (a b : ℕ) (as' bs : List ℕ)
    → Extends xs a as'
    → Extends ys b bs
    → a ≡ b
    → IsBelow as' bs
    → IsBelow xs ys
IsBelow-later xs ys a b as' bs (x0, xs') (y0, ys') e (i, same, low) =
    (suc i, before, rw (xs' i, ys' i) low)
  where
    before : (j : ℕ) → j < suc i → component_at j xs ≡ component_at j ys
    before zero h = x0 ∙ e ∙ sym y0
    before (suc j) h = xs' j ∙ same j (omega arith) ∙ sym (ys' j)

IsBelow-now :
    (xs ys : List ℕ) (a b : ℕ) (as' bs : List ℕ)
    → Extends xs a as'
    → Extends ys b bs
    → a < b
    → IsBelow xs ys
IsBelow-now xs ys a b as' bs (x0, _) (y0, _) h = (0, (λ j k. absurd (omega arith)), rw (x0, y0) h)

sign_of-Decides :
    (xs ys : List ℕ) (a b : ℕ) (as' bs : List ℕ) (c : Comparison)
    → Extends xs a as'
    → Extends ys b bs
    → Decides as' bs c
    → Decides xs ys (sign_of a b c)
sign_of-Decides xs ys a b as' bs c x y d = elim (Bool-cases (a == b)) [
  | inl same ↦ let e : a ≡ b = ground arith in rw same (later c e d)
  | inr differ ↦ elim (Bool-cases (ltb a b)) [
    | inl low ↦ rw (differ, low) (IsBelow-now xs ys a b as' bs x y (ground arith))
    | inr high ↦ rw (differ, high) (IsBelow-now ys xs b a bs as' y x (ground arith))
  ]
]
  where
    later : (k : Comparison) → a ≡ b → Decides as' bs k → Decides xs ys k
    later less e d = IsBelow-later xs ys a b as' bs x y e d
    later greater e d = IsBelow-later ys xs b a bs as' y x (sym e) d
    later equal e d = at
      where
        at : (i : ℕ) → component_at i xs ≡ component_at i ys
        at zero = x.0 ∙ e ∙ sym y.0
        at (suc i) = x.1 i ∙ d i ∙ sym (y.1 i)

-- compareNormalizedVersions says `less` only if, in the first component in which the two versions
-- differ, the left one has the lower value, `greater` only if the right one has, and `equal` only
-- if all components agree, where a missing component counts as 0.
pub compare_normalized_versions-Decides :
    (xs ys : List ℕ) → Decides xs ys (compare_normalized_versions xs ys)
unfolding compare_normalized_versions
compare_normalized_versions-Decides [] [] = λ i. refl
compare_normalized_versions-Decides [] (b ∷ bs) =
    sign_of-Decides [] (b ∷ bs) 0 b [] bs _ (refl, (λ i. refl)) (refl, (λ i. refl))
      (compare_normalized_versions-Decides [] bs)
compare_normalized_versions-Decides (a ∷ rest) [] =
    sign_of-Decides (a ∷ rest) [] a 0 rest [] _ (refl, (λ i. refl)) (refl, (λ i. refl))
      (compare_normalized_versions-Decides rest [])
compare_normalized_versions-Decides (a ∷ rest) (b ∷ bs) =
    sign_of-Decides (a ∷ rest) (b ∷ bs) a b rest bs _ (refl, (λ i. refl)) (refl, (λ i. refl))
      (compare_normalized_versions-Decides rest bs)
