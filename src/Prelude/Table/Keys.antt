-- ===== src/Prelude/Table/Keys.antt =====
-- Tables with a primary key.
use Prim.Native.Nat.{ℕ, ◌+◌, ◌≤◌}
use mathlib.Core.Path.{◌≡◌, refl, sym, ap, ◌∙◌}
use mathlib.Core.Logic.{◌≢◌, inl, inr}
use mathlib.Core.Bool.{Bool, true, false}
use mathlib.Core.List.{List, [], ◌∷◌}
use native.Mathlib.Omega.{arith}
use clideck_mcp.Prelude.Tests.{Bool-cases, ◌==◌, ==_iff, if◌then◌else◌}
use clideck_mcp.Prelude.Lists.{All}
use clideck_mcp.Prelude.Table.{update_rows, count_rows, In, Related, update_rows-Related}

module _ {A : Type 0} (key : A → ℕ) where
  abbrev pub HasDistinctKeys : List A → Type 0
  HasDistinctKeys [] = Unit
  HasDistinctKeys (r ∷ rows) = All (λ (s : A). key s ≢ key r) rows × HasDistinctKeys rows

  no_clash : (r t : A) (rows : List A) → All (λ s. key s ≢ key r) rows → In t rows → key r ≢ key t
  no_clash r t [] h j same = j
  no_clash r t (s ∷ rows) (p, h) (inl e) same = p (ap key e ∙ sym same)
  no_clash r t (s ∷ rows) (p, h) (inr j) same = no_clash r t rows h j same

  all_others :
      (s t : A) (rows : List A)
      → s ≡ t
      → All (λ r. key r ≢ key s) rows
      → All (λ r. key r ≡ key t → r ≡ t) rows
  all_others s t [] e h = tt
  all_others s t (r ∷ rows) e (p, h) =
      (λ same. absurd (p (same ∙ ap key (sym e))), all_others s t rows e h)

  -- Two rows with one key are one row.
  pub In-unique :
      (rows : List A) (t : A)
      → HasDistinctKeys rows
      → In t rows
      → All (λ r. key r ≡ key t → r ≡ t) rows
  In-unique [] t d i = absurd i
  In-unique (s ∷ rows) t (fresh, d) (inl e) = (λ _. e, all_others s t rows e fresh)
  In-unique (s ∷ rows) t (fresh, d) (inr i) =
      (λ same. absurd (no_clash s t rows fresh i same), In-unique rows t d i)

  only_there :
      (R : A → A → Type 0) (set : A → A) (t : A)
      → R t (set t)
      → (rows : List A) → All (λ r. key r ≡ key t → r ≡ t) rows
      → All (λ r. (key r == key t) ≡ true → R r (set r)) rows
  only_there R set t p [] h = tt
  only_there R set t p (r ∷ rows) (u, h) = (
    (λ hit. let same : r ≡ t = u ((==_iff (key r) (key t)).0 hit) in rw same p),
    only_there R set t p rows h,
  )

  -- An UPDATE by primary key touches the one row.
  pub update_by_key-Related :
      (R : A → A → Type 0)
      → ((r : A) → R r r)
      → (set : A → A) (rows : List A) (t : A) → HasDistinctKeys rows
      → In t rows
      → R t (set t)
      → Related R rows (update_rows (λ r. key r == key t) set rows)
  update_by_key-Related R R-refl set rows t d i p =
      update_rows-Related R R-refl (λ r. key r == key t) set rows
        (only_there R set t p rows (In-unique rows t d i))

  count-others :
      (k : ℕ) (r : A) (rows : List A)
      → All (λ s. key s ≢ key r) rows
      → key r ≡ k
      → count_rows (λ s. key s == k) rows ≡ 0
  unfolding count_rows
  count-others k r [] h e = refl
  count-others k r (s ∷ rows) (p, h) e =
      let miss : (key s == k) ≡ false = not_same (key s) k (λ q. p (q ∙ sym e)) in
      rw miss (rw (count-others k r rows h e) refl)
    where
      not_same : (a b : ℕ) → a ≢ b → (a == b) ≡ false
      not_same a b n = elim (Bool-cases (a == b)) [
        | inl same ↦ absurd (n ((==_iff a b).0 same))
        | inr other ↦ other
      ]

  count-key_le :
      (k : ℕ) (rows : List A) → HasDistinctKeys rows → count_rows (λ s. key s == k) rows ≤ 1
  unfolding count_rows
  count-key_le k [] d = omega arith
  count-key_le k (r ∷ rows) (fresh, d) = elim (Bool-cases (key r == k)) [
    | inl hit ↦
        let none_else = count-others k r rows fresh ((==_iff (key r) k).0 hit) in
        rw hit (omega (arith, none_else))
    | inr miss ↦ rw miss (omega (arith, count-key_le k rows d))
  ]

  count-update_le :
      (test hit : A → Bool) (set : A → A) (rows : List A)
      → count_rows test (update_rows hit set rows) ≤ count_rows test rows + count_rows hit rows
  unfolding count_rows update_rows
  count-update_le test hit set [] = omega arith
  count-update_le test hit set (r ∷ rows) =
      let rest = count-update_le test hit set rows in
      elim (Bool-cases (hit r)) [
        | inl h ↦ rw h (omega (arith, rest, at_most_one (test (set r))))
        | inr h ↦ rw h (omega (arith, rest))
      ]
    where
      at_most_one : (b : Bool) → (if b then 1 else 0) ≤ 1
      at_most_one true = omega arith
      at_most_one false = omega arith

  -- An UPDATE by primary key makes one row more that passes a test, at most.
  pub count-update_by_key :
      (test : A → Bool) (k : ℕ) (set : A → A) (rows : List A)
      → HasDistinctKeys rows
      → count_rows test (update_rows (λ s. key s == k) set rows) ≤ count_rows test rows + 1
  count-update_by_key test k set rows d =
      omega (arith, count-update_le test (λ s. key s == k) set rows, count-key_le k rows d)
