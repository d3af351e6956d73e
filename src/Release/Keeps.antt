-- ===== src/Release/Keeps.antt =====
-- What becomes of the state of an older release when a release is added or activated.
use clideck_mcp.Prelude.{
  ℕ, Bool, true, false, Option, none, some, List, [], ◌∷◌, ◌++◌, map, ◌==◌, ◌≡◌, ◌≢◌, refl, ap, ◌∙◌,
  inl, inr, arith, All, Bool-cases, if◌then◌else◌,
}
use clideck_mcp.Release.Tables.{Release, Entry, Change, Tables, rows_of, rows_for, revision_of}
use clideck_mcp.Release.Publish.{supersede}
use clideck_mcp.Release.Activate.{
  ancestry, desired_state, is_base, option_map, forward, switch_status,
}

-- No row refers to the id: it comes from `gen_random_uuid()`, and the other tables refer to
-- `releases`.
abbrev pub IsFresh : ℕ → Tables → Type 0
IsFresh id t =
    All (λ (r : Release). r.id ≢ id) t.releases
    × All (λ (row : ℕ × Entry). row.0 ≢ id) t.release_items
    × All (λ (row : ℕ × Change). row.0 ≢ id) t.release_changes

-- Replaying the ancestry of the release gives each item the revision that `state` says.
abbrev pub Restores : Tables → ℕ → (ℕ → Option ℕ) → Type 0
Restores t id state =
    (d : List Entry) × (desired_state t (ancestry (some id) t.releases) ≡ some d)
    × ((item : ℕ) → revision_of item d ≡ state item)

abbrev pub Agrees : Tables → Tables → Release → Type 0
Agrees t t' r =
    (rows_of r.id t'.release_items ≡ rows_of r.id t.release_items)
    × (rows_of r.id t'.release_changes ≡ rows_of r.id t.release_changes)

-- A statement on `releases` that leaves the ids, the parents and the modes.
abbrev KeepsLinks : (Release → Release) → Type 0
KeepsLinks f =
    (r : Release)
    → ((f r).id ≡ r.id)
      × ((f r).parent_release_id ≡ r.parent_release_id)
      × ((f r).release_mode ≡ r.release_mode)

pub supersede-KeepsLinks : (current : Option ℕ) → KeepsLinks (supersede current)
supersede-KeepsLinks none r = (refl, refl, refl)
supersede-KeepsLinks (some current) r = (ground arith, ground arith, ground arith)

pub switch_status-KeepsLinks : (id : ℕ) → KeepsLinks (switch_status id)
switch_status-KeepsLinks id r = (ground arith, ground arith, ground arith)

pub ancestry_own :
    (id : ℕ) (r : Release) (rs : List Release)
    → (r.id == id) ≡ true
    → ancestry (some id) (r ∷ rs) ≡ r ∷ ancestry r.parent_release_id rs
unfolding ancestry
ancestry_own id r rs hit = rw hit refl

pub ancestry_other :
    (id : ℕ) (r : Release) (rs : List Release)
    → (r.id == id) ≡ false
    → ancestry (some id) (r ∷ rs) ≡ ancestry (some id) rs
unfolding ancestry
ancestry_other id r rs miss = rw miss refl

if_map :
    (f : Release → Release) (b c : Bool) (xs ys : List Release) {xs' ys' : List Release}
    → b ≡ c
    → xs' ≡ map f xs
    → ys' ≡ map f ys
    → (if b then xs' else ys') ≡ map f (if c then xs else ys)
if_map f b true xs ys e p q = rw e p
if_map f b false xs ys e p q = rw e q

ancestry-map :
    (f : Release → Release) (o : Option ℕ) (rs : List Release)
    → KeepsLinks f
    → ancestry o (map f rs) ≡ map f (ancestry o rs)
unfolding ancestry
ancestry-map f none rs keep = refl
ancestry-map f (some id) [] keep = refl
ancestry-map f (some id) (r ∷ rs) keep =
    let (same_id, parent, _) = keep r in
    if_map f _ _ _ _ (ap (λ x. x == id) same_id)
      (ap (λ xs. f r ∷ xs)
        (ap (λ o. ancestry o (map f rs)) parent ∙ ancestry-map f r.parent_release_id rs keep))
      (ancestry-map f (some id) rs keep)

ancestry-All :
    (P : Release → Type 0) (o : Option ℕ) (rs : List Release) → All P rs → All P (ancestry o rs)
unfolding ancestry
ancestry-All P none rs h = tt
ancestry-All P (some id) [] h = tt
ancestry-All P (some id) (r ∷ rs) (p, h) = elim (Bool-cases (r.id == id)) [
  | inl hit ↦ rw hit (p, ancestry-All P r.parent_release_id rs h)
  | inr miss ↦ rw miss (ancestry-All P (some id) rs h)
]

pub desired_state_cons :
    (t : Tables) (r : Release) (rs : List Release)
    → desired_state t (r ∷ rs) ≡ (
        if is_base r.release_mode
        then some (rows_of r.id t.release_items)
        else option_map (forward (rows_of r.id t.release_changes)) (desired_state t rs))
unfolding desired_state
desired_state_cons t r rs = refl

desired_state-map :
    (t : Tables) (f : Release → Release) (l : List Release)
    → KeepsLinks f
    → desired_state t (map f l) ≡ desired_state t l
unfolding desired_state
desired_state-map t f [] keep = refl
desired_state-map t f (r ∷ rs) keep =
    let (same_id, _, mode) = keep r in rw (same_id, mode, desired_state-map t f rs keep) refl

desired_state-Agrees :
    (t t' : Tables) (l : List Release)
    → All (Agrees t t') l
    → desired_state t' l ≡ desired_state t l
unfolding desired_state
desired_state-Agrees t t' [] h = refl
desired_state-Agrees t t' (r ∷ rs) ((items, changes), h) =
    rw (items, changes, desired_state-Agrees t t' rs h) refl

-- Both together: the state of a release after such a statement.
pub state_kept :
    (t t' : Tables) (f : Release → Release) (o : Option ℕ)
    → KeepsLinks f
    → All (Agrees t t') t.releases
    → desired_state t' (ancestry o (map f t.releases)) ≡ desired_state t (ancestry o t.releases)
state_kept t t' f o keep agree =
    ap (desired_state t') (ancestry-map f o t.releases keep)
    ∙ desired_state-map t' f (ancestry o t.releases) keep
    ∙ desired_state-Agrees t t' _ (ancestry-All (Agrees t t') o t.releases agree)

pub Agrees-refl :
    (t t' : Tables)
    → t'.release_items ≡ t.release_items
    → t'.release_changes ≡ t.release_changes
    → (rs : List Release) → All (Agrees t t') rs
Agrees-refl t t' items changes [] = tt
Agrees-refl t t' items changes (r ∷ rs) =
    ((ap (rows_of r.id) items, ap (rows_of r.id) changes), Agrees-refl t t' items changes rs)

-- The rows of one release in a table that another one's rows were added to.
pub rows_of-append_other :
    {A : Type 0} (id new : ℕ) (rows : List (ℕ × A)) (xs : List A)
    → id ≢ new
    → rows_of id (rows ++ rows_for new xs) ≡ rows_of id rows
unfolding rows_of
rows_of-append_other id new [] [] apart = refl
rows_of-append_other id new [] (x ∷ xs) apart =
    let miss : (new == id) ≡ false = ground arith in
    rw miss (rows_of-append_other id new [] xs apart)
rows_of-append_other id new ((at, y) ∷ rows) xs apart =
    let rest = rows_of-append_other id new rows xs apart in rw rest refl

pub rows_of-append_new :
    {A : Type 0} (new : ℕ) (rows : List (ℕ × A)) (xs : List A)
    → All (λ (row : ℕ × A). row.0 ≢ new) rows
    → rows_of new (rows ++ rows_for new xs) ≡ xs
unfolding rows_of
rows_of-append_new new [] [] h = refl
rows_of-append_new new [] (x ∷ xs) h =
    let hit : (new == new) ≡ true = ground arith in
    rw hit (ap (λ ys. x ∷ ys) (rows_of-append_new new [] xs tt))
rows_of-append_new new ((at, y) ∷ rows) xs (apart, h) =
    let miss : (at == new) ≡ false = ground arith in rw miss (rows_of-append_new new rows xs h)
