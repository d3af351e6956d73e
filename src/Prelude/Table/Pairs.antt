-- ===== src/Prelude/Table/Pairs.antt =====
-- What holds of every two rows of a table.
use mathlib.Core.List.{List, [], ◌∷◌, ◌++◌}
use clideck_mcp.Prelude.Lists.{All, All-append}
use clideck_mcp.Prelude.Table.{Related}

abbrev pub Pairwise : {A : Type 0} → (A → A → Type 0) → List A → Type 0
Pairwise P [] = Unit
Pairwise P (r ∷ rows) = All (P r) rows × Pairwise P rows

module _ {A : Type 0} where
  pub Pairwise-map :
      (P Q : A → A → Type 0)
      → ((r s : A) → P r s → Q r s)
      → (rows : List A) → Pairwise P rows
      → Pairwise Q rows
  Pairwise-map P Q h [] k = tt
  Pairwise-map P Q h (r ∷ rows) (p, k) = (each rows p, Pairwise-map P Q h rows k)
    where
      each : (rs : List A) → All (P r) rs → All (Q r) rs
      each [] q = tt
      each (s ∷ rs) (q, qs) = (h r s q, each rs qs)

  others-append :
      (P : A → A → Type 0) (x r : A) (rows : List A)
      → All (P x) rows
      → P x r
      → All (P x) (rows ++ r ∷ [])
  others-append P x r rows h p = All-append (P x) rows (r ∷ []) h (p, tt)

  pub Pairwise-append :
      (P : A → A → Type 0) (rows : List A) (r : A)
      → Pairwise P rows
      → All (λ s. P s r) rows
      → Pairwise P (rows ++ r ∷ [])
  Pairwise-append P [] r d h = (tt, tt)
  Pairwise-append P (x ∷ rows) r (p, d) (q, h) =
      (others-append P x r rows p q, Pairwise-append P rows r d h)

  -- A change of the rows one by one that keeps every two of them so.
  module _ (R : A → A → Type 0) (P : A → A → Type 0)
      (keep : (a b c d : A) → R a c → R b d → P a b → P c d) where
    others_kept : (x y : A) (xs ys : List A) → R x y → Related R xs ys → All (P x) xs → All (P y) ys
    others_kept x y [] [] s p h = tt
    others_kept x y [] (b ∷ ys) s p h = absurd p
    others_kept x y (a ∷ xs) [] s p h = absurd p
    others_kept x y (a ∷ xs) (b ∷ ys) s (p, ps) (h, hs) =
        (keep x a y b s p h, others_kept x y xs ys s ps hs)

    pub Related-Pairwise : (xs ys : List A) → Related R xs ys → Pairwise P xs → Pairwise P ys
    Related-Pairwise [] [] p h = tt
    Related-Pairwise [] (y ∷ ys) p h = absurd p
    Related-Pairwise (x ∷ xs) [] p h = absurd p
    Related-Pairwise (x ∷ xs) (y ∷ ys) (p, ps) (h, hs) =
        (others_kept x y xs ys p ps h, Related-Pairwise xs ys ps hs)
