-- ===== src/Prelude/Table.antt =====
-- Tables as lists of rows: the statements that read and change rows, and lemmas on them.
pub mod Best
pub mod Pairs
pub mod Keys
use Prim.Native.Nat.{ℕ, zero, suc, ◌+◌, ◌≤◌}
use mathlib.Core.Path.{◌≡◌, refl, sym, ap, ◌∙◌, subst}
use mathlib.Core.Logic.{◌≢◌, ◌⊎◌, inl, inr}
use mathlib.Core.Bool.{Bool, true, false}
use mathlib.Core.List.{List, [], ◌∷◌, ◌++◌}
use mathlib.Core.Option.{Option, none, some}
use native.Mathlib.Omega.{arith}
use clideck_mcp.Prelude.Tests.{if◌then◌else◌, Bool-cases, ◌==◌, ==_iff}
use clideck_mcp.Prelude.Lists.{All, All-append, any}

module _ {A : Type 0} where
  -- `UPDATE … SET … WHERE …`.
  unfoldable pub update_rows : (A → Bool) → (A → A) → List A → List A
  update_rows test set [] = []
  update_rows test set (r ∷ rows) = (if test r then set r else r) ∷ update_rows test set rows

  -- `SELECT … WHERE …`, and `RETURNING`.
  unfoldable pub select_rows : (A → Bool) → List A → List A
  select_rows test [] = []
  select_rows test (r ∷ rows) =
      let rest = select_rows test rows in if test r then r ∷ rest else rest

  -- `SELECT … WHERE … LIMIT 1`.
  unfoldable pub first_row : (A → Bool) → List A → Option A
  first_row test [] = none
  first_row test (r ∷ rows) = if test r then some r else first_row test rows

  -- `SELECT count(*) … WHERE …`.
  unfoldable pub count_rows : (A → Bool) → List A → ℕ
  count_rows test [] = 0
  count_rows test (r ∷ rows) = (if test r then 1 else 0) + count_rows test rows

  -- `SELECT … WHERE … ORDER BY … LIMIT 1`: of rows that neither precedes, the first.
  abbrev pub earlier : (A → A → Bool) → A → Option A → A
  earlier precedes r none = r
  earlier precedes r (some b) = if precedes b r then b else r

  unfoldable pub best_row : (A → Bool) → (A → A → Bool) → List A → Option A
  best_row test precedes [] = none
  best_row test precedes (r ∷ rows) =
      let rest = best_row test precedes rows in
      if test r then some (earlier precedes r rest) else rest

  abbrev pub In : A → List A → Type 0
  In r [] = ⊥
  In r (s ∷ rows) = (s ≡ r) ⊎ In r rows

  -- Row by row: none is lost and none is added.
  abbrev pub Related : (A → A → Type 0) → List A → List A → Type 0
  Related R [] [] = Unit
  Related R [] (s ∷ after) = ⊥
  Related R (r ∷ before) [] = ⊥
  Related R (r ∷ before) (s ∷ after) = R r s × Related R before after

  pub All-In : (P : A → Type 0) (rows : List A) (r : A) → In r rows → All P rows → P r
  All-In P [] r i h = absurd i
  All-In P (s ∷ rows) r (inl e) (p, h) = subst P e p
  All-In P (s ∷ rows) r (inr i) (p, h) = All-In P rows r i h

  pub first_row-In :
      (test : A → Bool) (rows : List A) {r : A}
      → first_row test rows ≡ some r
      → In r rows × (test r ≡ true)
  unfolding first_row
  first_row-In test [] e = cc
  first_row-In test (s ∷ rows) {r} e = elim (Bool-cases (test s)) [
    | inl hit ↦ let same : s ≡ r = ground arith in (inl same, rw (← same) hit)
    | inr miss ↦
        let (later, holds) = first_row-In test rows (rw (miss, first_row) at e) in
        (inr later, holds)
  ]

  pub first_row-none :
      (test : A → Bool) (rows : List A)
      → first_row test rows ≡ none
      → All (λ r. test r ≡ false) rows
  unfolding first_row
  first_row-none test [] e = tt
  first_row-none test (s ∷ rows) e = elim (Bool-cases (test s)) [
    | inl hit ↦ absurd (let no_row : some s ≡ none = rw (hit, first_row) at e in cc)
    | inr miss ↦ (miss, first_row-none test rows (rw (miss, first_row) at e))
  ]

  -- What holds of every row the statement sets, and of the rows it leaves, holds after it.
  pub update_rows-All :
      (P : A → Type 0) (test : A → Bool) (set : A → A) (rows : List A)
      → All (λ r. (test r ≡ true → P (set r)) × (test r ≡ false → P r)) rows
      → All P (update_rows test set rows)
  unfolding update_rows
  update_rows-All P test set [] h = tt
  update_rows-All P test set (r ∷ rows) ((p, q), h) =
      let rest = update_rows-All P test set rows h in
      elim (Bool-cases (test r)) [
        | inl hit ↦ rw hit (p hit, rest)
        | inr miss ↦ rw miss (q miss, rest)
      ]

  pub In-append : (t : A) (xs ys : List A) → In t xs → In t (xs ++ ys)
  In-append t [] ys i = absurd i
  In-append t (x ∷ xs) ys (inl e) = inl e
  In-append t (x ∷ xs) ys (inr i) = inr (In-append t xs ys i)

  pub select_rows-In :
      (test : A → Bool) (rows : List A) (r : A)
      → In r (select_rows test rows)
      → In r rows × (test r ≡ true)
  unfolding select_rows
  select_rows-In test [] r i = absurd i
  select_rows-In test (s ∷ rows) r i =
      let later = select_rows-In test rows r in
      elim (Bool-cases (test s)) [
        | inl hit ↦ either hit later (rw hit at i)
        | inr miss ↦ let (j, h) = later (rw miss at i) in (inr j, h)
      ]
    where
      either :
          test s ≡ true
          → (In r (select_rows test rows) → In r rows × (test r ≡ true))
          → In r (s ∷ select_rows test rows)
          → In r (s ∷ rows) × (test r ≡ true)
      either hit later (inl e) = (inl e, subst (λ x. test x ≡ true) e hit)
      either hit later (inr j) = let (k, h) = later j in (inr k, h)

  pub In-select_rows :
      (test : A → Bool) (rows : List A) (r : A)
      → In r rows
      → test r ≡ true
      → In r (select_rows test rows)
  unfolding select_rows
  In-select_rows test [] r i h = absurd i
  In-select_rows test (s ∷ rows) r (inl e) h =
      let hit : test s ≡ true = subst (λ x. test x ≡ true) (sym e) h in rw hit (inl e)
  In-select_rows test (s ∷ rows) r (inr i) h =
      let later = In-select_rows test rows r i h in
      elim (Bool-cases (test s)) [ inl hit ↦ rw hit (inr later) | inr miss ↦ rw miss later ]

  pub In-update_rows :
      (test : A → Bool) (set : A → A) (rows : List A) (r : A)
      → In r rows
      → test r ≡ true
      → In (set r) (update_rows test set rows)
  unfolding update_rows
  In-update_rows test set [] r i h = absurd i
  In-update_rows test set (s ∷ rows) r (inl e) h =
      let hit : test s ≡ true = subst (λ x. test x ≡ true) (sym e) h in rw hit (inl (ap set e))
  In-update_rows test set (s ∷ rows) r (inr i) h = inr (In-update_rows test set rows r i h)

  pub any-none :
      (test : A → Bool) (rows : List A) → any test rows ≡ false → All (λ r. test r ≡ false) rows
  any-none test [] h = tt
  any-none test (r ∷ rows) h = (ground arith, any-none test rows (ground arith))

  pub none-any :
      (test : A → Bool) (rows : List A) → All (λ r. test r ≡ false) rows → any test rows ≡ false
  none-any test [] h = refl
  none-any test (r ∷ rows) (p, h) = rw p (none-any test rows h)

  pub In-any :
      (test : A → Bool) (rows : List A) (r : A) → In r rows → test r ≡ true → any test rows ≡ true
  In-any test [] r i h = absurd i
  In-any test (s ∷ rows) r (inl e) h =
      let hit : test s ≡ true = subst (λ x. test x ≡ true) (sym e) h in rw hit refl
  In-any test (s ∷ rows) r (inr i) h =
      let later = In-any test rows r i h in
      elim (Bool-cases (test s)) [ inl hit ↦ rw hit refl | inr miss ↦ rw miss later ]

  pub any-In :
      (test : A → Bool) (rows : List A)
      → any test rows ≡ true
      → (r : A) × In r rows × (test r ≡ true)
  any-In test [] h = cc
  any-In test (r ∷ rows) h = elim (Bool-cases (test r)) [
    | inl hit ↦ (r, inl refl, hit)
    | inr miss ↦ let (s, i, p) = any-In test rows (rw miss at h) in (s, inr i, p)
  ]

  pub All-each : (P : A → Type 0) → ((r : A) → P r) → (rows : List A) → All P rows
  All-each P h [] = tt
  All-each P h (r ∷ rows) = (h r, All-each P h rows)

  pub All-map :
      (P Q : A → Type 0) → ((r : A) → P r → Q r) → (rows : List A) → All P rows → All Q rows
  All-map P Q h [] k = tt
  All-map P Q h (r ∷ rows) (p, k) = (h r p, All-map P Q h rows k)

module _ {A : Type 0} (R : A → A → Type 0) where
  pub Related-refl : ((r : A) → R r r) → (rows : List A) → Related R rows rows
  Related-refl R-refl [] = tt
  Related-refl R-refl (r ∷ rows) = (R-refl r, Related-refl R-refl rows)

  pub Related-trans :
      ((a b c : A) → R a b → R b c → R a c)
      → (xs ys zs : List A) → Related R xs ys
      → Related R ys zs
      → Related R xs zs
  Related-trans t [] [] zs p q = q
  Related-trans t [] (y ∷ ys) zs p q = absurd p
  Related-trans t (x ∷ xs) [] zs p q = absurd p
  Related-trans t (x ∷ xs) (y ∷ ys) [] p q = absurd q
  Related-trans t (x ∷ xs) (y ∷ ys) (z ∷ zs) (p, ps) (q, qs) =
      (t x y z p q, Related-trans t xs ys zs ps qs)

  -- An UPDATE relates each row as its SET does, or to itself.
  pub update_rows-Related :
      ((r : A) → R r r)
      → (test : A → Bool) (set : A → A) (rows : List A)
      → All (λ r. test r ≡ true → R r (set r)) rows
      → Related R rows (update_rows test set rows)
  unfolding update_rows
  update_rows-Related R-refl test set [] h = tt
  update_rows-Related R-refl test set (r ∷ rows) (p, h) =
      let rest = update_rows-Related R-refl test set rows h in
      elim (Bool-cases (test r)) [
        | inl hit ↦ rw hit (p hit, rest)
        | inr miss ↦ rw miss (R-refl r, rest)
      ]

  pub Related-All :
      (P : A → Type 0)
      → ((a b : A) → R a b → P a → P b)
      → (xs ys : List A) → Related R xs ys
      → All P xs
      → All P ys
  Related-All P keep [] [] p h = tt
  Related-All P keep [] (y ∷ ys) p h = absurd p
  Related-All P keep (x ∷ xs) [] p h = absurd p
  Related-All P keep (x ∷ xs) (y ∷ ys) (p, ps) (h, hs) =
      (keep x y p h, Related-All P keep xs ys ps hs)

  pub Related-In : (xs ys : List A) (t : A) → Related R xs ys → In t xs → (u : A) × In u ys × R t u
  Related-In [] ys t p i = absurd i
  Related-In (x ∷ xs) [] t p i = absurd p
  Related-In (x ∷ xs) (y ∷ ys) t (p, ps) (inl e) = (y, inl refl, rw (← e) p)
  Related-In (x ∷ xs) (y ∷ ys) t (p, ps) (inr i) =
      let (u, j, q) = Related-In xs ys t ps i in (u, inr j, q)

  -- What the relation says of the row after.
  pub Related-after :
      (P : A → Type 0) → ((a b : A) → R a b → P b) → (xs ys : List A) → Related R xs ys → All P ys
  Related-after P h [] [] p = tt
  Related-after P h [] (y ∷ ys) p = absurd p
  Related-after P h (x ∷ xs) [] p = absurd p
  Related-after P h (x ∷ xs) (y ∷ ys) (p, ps) = (h x y p, Related-after P h xs ys ps)
