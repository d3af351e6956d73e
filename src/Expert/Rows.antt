-- ===== src/Expert/Rows.antt =====
-- Lemmas on the statements that read and write rows of `expert_tasks`.
use clideck_mcp.Prelude.{
  Bool, true, some, List, [], ◌∷◌, ◌++◌, ◌≡◌, ◌≢◌, sym, ap, ◌∙◌, inl, inr, arith, All, All-append,
  Bool-cases, ==_iff,
}
pub use clideck_mcp.Prelude.Table.{
  In, Related, All-In, Related-refl, Related-trans, Related-All, Related-In, In-append,
}
use clideck_mcp.Expert.Store.{TaskRow, update_where, first_where, has_id}

-- The primary key.
abbrev pub HasDistinctIds : List TaskRow → Type 0
HasDistinctIds [] = Unit
HasDistinctIds (r ∷ rows) = All (λ (s : TaskRow). s.id ≢ r.id) rows × HasDistinctIds rows

pub first_where-In :
    (test : TaskRow → Bool) (rows : List TaskRow) {r : TaskRow}
    → first_where test rows ≡ some r
    → In r rows × (test r ≡ true)
unfolding first_where
first_where-In test [] e = cc
first_where-In test (s ∷ rows) {r} e = elim (Bool-cases (test s)) [
  | inl hit ↦ let same : s ≡ r = ground arith in (inl same, rw (← same) hit)
  | inr miss ↦
      let (later, holds) = first_where-In test rows (rw (miss, first_where) at e) in
      (inr later, holds)
]

-- Two rows with one id are one row.
pub In-unique :
    (rows : List TaskRow) (t : TaskRow)
    → HasDistinctIds rows
    → In t rows
    → All (λ (r : TaskRow). r.id ≡ t.id → r ≡ t) rows
In-unique [] t d i = absurd i
In-unique (s ∷ rows) t (fresh, d) (inl e) = (λ _. e, others rows fresh)
  where
    others :
        (rs : List TaskRow)
        → All (λ (r : TaskRow). r.id ≢ s.id) rs
        → All (λ (r : TaskRow). r.id ≡ t.id → r ≡ t) rs
    others [] h = tt
    others (r ∷ rs) (p, h) =
        (λ same. absurd (p (same ∙ ap (λ (x : TaskRow). x.id) (sym e))), others rs h)
In-unique (s ∷ rows) t (fresh, d) (inr i) =
    (λ same. absurd (clash rows fresh i same), In-unique rows t d i)
  where
    clash : (rs : List TaskRow) → All (λ (r : TaskRow). r.id ≢ s.id) rs → In t rs → s.id ≡ t.id → ⊥
    clash [] h j same = j
    clash (r ∷ rs) (p, h) (inl e) same = p (ap (λ (x : TaskRow). x.id) e ∙ sym same)
    clash (r ∷ rs) (p, h) (inr j) same = clash rs h j same

module _ (R : TaskRow → TaskRow → Type 0) (R-refl : (r : TaskRow) → R r r) where
  -- An UPDATE relates each row as its SET does, or to itself.
  pub update_where-Related :
      (test : TaskRow → Bool) (set : TaskRow → TaskRow) (rows : List TaskRow)
      → All (λ r. test r ≡ true → R r (set r)) rows
      → Related R rows (update_where test set rows)
  unfolding update_where
  update_where-Related test set [] h = tt
  update_where-Related test set (r ∷ rows) (p, h) =
      let rest = update_where-Related test set rows h in
      elim (Bool-cases (test r)) [
        | inl hit ↦ rw hit (p hit, rest)
        | inr miss ↦ rw miss (R-refl r, rest)
      ]

  -- An UPDATE by primary key touches the one row.
  pub update_by_id-Related :
      (set : TaskRow → TaskRow) (rows : List TaskRow) (t : TaskRow)
      → HasDistinctIds rows
      → In t rows
      → R t (set t)
      → Related R rows (update_where (has_id t.id) set rows)
  update_by_id-Related set rows t d i p =
      update_where-Related (has_id t.id) set rows (go rows (In-unique rows t d i))
    where
      go :
          (rs : List TaskRow)
          → All (λ (r : TaskRow). r.id ≡ t.id → r ≡ t) rs
          → All (λ r. has_id t.id r ≡ true → R r (set r)) rs
      go [] h = tt
      go (r ∷ rs) (u, h) =
          (λ hit. let same : r ≡ t = u ((==_iff r.id t.id).0 hit) in rw same p, go rs h)

-- A relation that keeps the primary key keeps it distinct.
pub Related-HasDistinctIds :
    (R : TaskRow → TaskRow → Type 0)
    → ((a b : TaskRow) → R a b → b.id ≡ a.id)
    → (xs ys : List TaskRow) → Related R xs ys
    → HasDistinctIds xs
    → HasDistinctIds ys
Related-HasDistinctIds R keep [] [] p d = tt
Related-HasDistinctIds R keep [] (y ∷ ys) p d = absurd p
Related-HasDistinctIds R keep (x ∷ xs) [] p d = absurd p
Related-HasDistinctIds R keep (x ∷ xs) (y ∷ ys) (p, ps) (fresh, d) = (
  Related-All R (λ (r : TaskRow). r.id ≢ y.id)
      (λ a b step apart same. apart (sym (keep a b step) ∙ same)) xs ys ps (rename xs fresh),
  Related-HasDistinctIds R keep xs ys ps d,
)
  where
    rename :
        (rs : List TaskRow)
        → All (λ (r : TaskRow). r.id ≢ x.id) rs
        → All (λ (r : TaskRow). r.id ≢ y.id) rs
    rename [] h = tt
    rename (r ∷ rs) (h, hs) = (λ same. h (same ∙ keep x y p), rename rs hs)

pub HasDistinctIds-append :
    (xs : List TaskRow) (r : TaskRow)
    → HasDistinctIds xs
    → All (λ (s : TaskRow). s.id ≢ r.id) xs
    → HasDistinctIds (xs ++ r ∷ [])
HasDistinctIds-append [] r d fresh = (tt, tt)
HasDistinctIds-append (x ∷ xs) r (apart, d) (p, fresh) = (
  All-append (λ (s : TaskRow). s.id ≢ x.id) xs (r ∷ []) apart ((λ same. p (sym same)), tt),
  HasDistinctIds-append xs r d fresh,
)
