-- ===== src/Prelude/Table/Best.antt =====
-- What `ORDER BY … LIMIT 1` selects.
use mathlib.Core.Path.{◌≡◌, refl, subst}
use mathlib.Core.Logic.{◌⊎◌, inl, inr}
use mathlib.Core.Bool.{Bool, true, false}
use mathlib.Core.List.{List, [], ◌∷◌}
use mathlib.Core.Option.{Option, none, some}
use clideck_mcp.Prelude.Tests.{Bool-cases}
use clideck_mcp.Prelude.Lists.{All}
use clideck_mcp.Prelude.Table.{earlier, best_row, In}

-- No row that passes the test precedes the selected one; where none is selected, none passes.
abbrev pub IsFirst : {A : Type 0} → (A → Bool) → (A → A → Bool) → List A → Option A → Type 0
IsFirst test precedes rows none = All (λ r. test r ≡ false) rows
IsFirst test precedes rows (some c) = All (λ r. test r ≡ true → precedes r c ≡ false) rows

-- An order by keys: `precedes` is irreflexive, asymmetric, and its failure is transitive.
pub record IsOrder {A : Type 0} (precedes : A → A → Bool) : Type 0 where
  pub irrefl : (a : A) → precedes a a ≡ false
  pub asym : (a b : A) → precedes a b ≡ true → precedes b a ≡ false
  pub cotrans : (a b c : A) → precedes a b ≡ false → precedes b c ≡ false → precedes a c ≡ false

module _ {A : Type 0} (test : A → Bool) (precedes : A → A → Bool) where
  earlier_either :
      (r : A) (best : Option A)
      → (earlier precedes r best ≡ r) ⊎ (best ≡ some (earlier precedes r best))
  earlier_either r none = inl refl
  earlier_either r (some b) = elim (Bool-cases (precedes b r)) [
    | inl first ↦ rw first (inr refl)
    | inr later ↦ rw later (inl refl)
  ]

  pub best_row-In :
      (rows : List A) {r : A} → best_row test precedes rows ≡ some r → In r rows × (test r ≡ true)
  unfolding best_row
  best_row-In [] e = cc
  best_row-In (s ∷ rows) {r} e = elim (Bool-cases (test s)) [
    | inr miss ↦
        let (later, holds) = best_row-In rows (rw (miss, best_row) at e) in (inr later, holds)
    | inl hit ↦
        let best = best_row test precedes rows in
        let chosen : some (earlier precedes s best) ≡ some r = rw (hit, best_row) at e in
        let same : earlier precedes s best ≡ r = cc in
        elim (earlier_either s best) [
          | inl mine ↦ let at_head : s ≡ r = cc in (inl at_head, rw (← at_head) hit)
          | inr other ↦
              let (later, holds) = best_row-In rows (rw same at other) in (inr later, holds)
        ]
  ]

  behind :
      IsOrder precedes
      → (a b : A) (rows : List A) → precedes a b ≡ false
      → IsFirst test precedes rows (some a)
      → IsFirst test precedes rows (some b)
  behind o a b [] h k = tt
  behind o a b (r ∷ rows) h (p, k) = (λ passes. o.cotrans r a b (p passes) h, behind o a b rows h k)

  none_passes :
      (b : A) (rows : List A)
      → IsFirst test precedes rows none
      → IsFirst test precedes rows (some b)
  none_passes b [] k = tt
  none_passes b (r ∷ rows) (p, k) = (λ passes. cc, none_passes b rows k)

  earlier-IsFirst :
      IsOrder precedes
      → (s : A) (rows : List A) (best : Option A) → IsFirst test precedes rows best
      → IsFirst test precedes (s ∷ rows) (some (earlier precedes s best))
  earlier-IsFirst o s rows none k = (λ _. o.irrefl s, none_passes s rows k)
  earlier-IsFirst o s rows (some b) k = elim (Bool-cases (precedes b s)) [
    | inl first ↦
        let e : b ≡ earlier precedes s (some b) = rw first refl in
        subst (λ c. IsFirst test precedes (s ∷ rows) (some c)) e ((λ _. o.asym b s first), k)
    | inr later ↦
        let e : s ≡ earlier precedes s (some b) = rw later refl in
        subst (λ c. IsFirst test precedes (s ∷ rows) (some c)) e
          ((λ _. o.irrefl s), behind o b s rows later k)
  ]

  miss-IsFirst :
      (r : A) (rows : List A) (best : Option A)
      → test r ≡ false
      → IsFirst test precedes rows best
      → IsFirst test precedes (r ∷ rows) best
  miss-IsFirst r rows none miss h = (miss, h)
  miss-IsFirst r rows (some b) miss h = ((λ passes. cc), h)

  pub best_row-IsFirst :
      IsOrder precedes → (rows : List A) → IsFirst test precedes rows (best_row test precedes rows)
  unfolding best_row
  best_row-IsFirst o [] = tt
  best_row-IsFirst o (s ∷ rows) =
      let k = best_row-IsFirst o rows in
      elim (Bool-cases (test s)) [
        | inl hit ↦ rw hit (earlier-IsFirst o s rows (best_row test precedes rows) k)
        | inr miss ↦ rw miss (miss-IsFirst s rows (best_row test precedes rows) miss k)
      ]
