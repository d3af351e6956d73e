-- ===== src/Release/History.antt =====
-- Sequences of publications, compensations and activations. Each is a transaction under the
-- advisory lock `clideck-mcp-release-publication`, so they do not interleave.
use clideck_mcp.Prelude.{
  ℕ, false, Option, none, some, List, [], ◌∷◌, map, ◌==◌, ◌≡◌, ◌≢◌, refl, ◌∙◌, inl, inr, arith, All,
  Bool-cases,
}
use clideck_mcp.Release.Tables.{Release, Entry, Tables, entry_of, revision_of, find_release}
use clideck_mcp.Release.Publish.{released, publish_knowledge_batch, publish_compensating_changes}
use clideck_mcp.Release.Activate.{
  switched, release_checkpoint_not_found, activate_knowledge_release, ancestry, desired_state,
  activated, switch_status, activate_found, switch_to,
}
use clideck_mcp.Release.Keeps.{IsFresh, Restores, state_kept, switch_status-KeepsLinks, Agrees-refl}
use clideck_mcp.Release.Distinct.{HasDistinctWanted}

pub data Step (t : Tables) : Tables → Type 0 where
  publishes :
      (id : ℕ) (items : List Entry) {sequence : ℕ} {t' : Tables}
      → IsFresh id t
      → publish_knowledge_batch id items t ≡ released id sequence t'
      → Step t t'
  compensates :
      (id : ℕ) (wanted : List (ℕ × Option ℕ)) {sequence : ℕ} {t' : Tables}
      → IsFresh id t
      → HasDistinctWanted wanted
      → publish_compensating_changes id wanted t ≡ released id sequence t'
      → Step t t'
  activates :
      (id : ℕ) {target : Release} {count : ℕ} {t' : Tables}
      → activate_knowledge_release id t ≡ switched target count t'
      → Step t t'

pub data Reach (t : Tables) : Tables → Type 0 where
  here : Reach t t
  next : {t' t'' : Tables} → Reach t t' → Step t' t'' → Reach t t''

-- A release that is not there restores nothing.
no_ancestry :
    (id : ℕ) (rs : List Release) → All (λ (r : Release). r.id ≢ id) rs → ancestry (some id) rs ≡ []
unfolding ancestry
no_ancestry id [] h = refl
no_ancestry id (r ∷ rs) (apart, h) =
    let miss : (r.id == id) ≡ false = ground arith in rw miss (no_ancestry id rs h)

pub not_found :
    (id : ℕ) (rs : List Release) → find_release id rs ≡ none → ancestry (some id) rs ≡ []
unfolding ancestry find_release
not_found id [] e = refl
not_found id (r ∷ rs) e = elim (Bool-cases (r.id == id)) [
  | inl hit ↦ absurd (clash (rw (hit, find_release) at e))
  | inr miss ↦ rw miss (not_found id rs (rw (miss, find_release) at e))
]
  where
    clash : some r ≡ none → ⊥
    clash e = cc

pub restores_nothing :
    (t : Tables) (d : List Entry) (l : List Release) → l ≡ [] → desired_state t l ≡ some d → ⊥
unfolding desired_state
restores_nothing t d l e h = clash (rw (e, desired_state) at h)
  where
    clash : none ≡ some d → ⊥
    clash e = cc

pub Restores-fresh :
    (t : Tables) (id new : ℕ) (state : ℕ → Option ℕ)
    → Restores t id state
    → IsFresh new t
    → id ≢ new
Restores-fresh t id new state (d, e, _) fresh same =
    restores_nothing t d _ (no_ancestry id t.releases (rw (← same) at fresh.0)) e

-- What an activation makes of the tables.
abbrev pub switched_tables : ℕ → Tables → List Entry → Tables
switched_tables id t desired = record t {
  releases = map (switch_status id) t.releases;
  active_knowledge_state = map (activated id) desired;
  active_release = some id;
}

pub revision_of-activated :
    (id item : ℕ) (d : List Entry)
    → revision_of item (map entry_of (map (activated id) d)) ≡ revision_of item d
unfolding revision_of
revision_of-activated id item [] = refl
revision_of-activated id item (e ∷ es) = rw (revision_of-activated id item es) refl

pub switched-Restores :
    (id old : ℕ) (t : Tables) (desired : List Entry) (state : ℕ → Option ℕ)
    → Restores t old state
    → Restores (switched_tables id t desired) old state
switched-Restores id old t desired state (d, e, same) = (
  d,
  state_kept t (switched_tables id t desired) (switch_status id) (some old)
        (switch_status-KeepsLinks id)
        (Agrees-refl t (switched_tables id t desired) refl refl t.releases)
      ∙ e,
  same,
)

-- An activation that succeeds went by the target's desired state.
pub activation_inv :
    (id : ℕ) (t t' : Tables) (target : Release) (count : ℕ)
    → activate_knowledge_release id t ≡ switched target count t'
    → (d : List Entry) × (desired_state t (ancestry (some id) t.releases) ≡ some d)
      × (t' ≡ switched_tables id t d)
unfolding activate_knowledge_release
activation_inv id t t' target count e = go (find_release id t.releases) _ refl e
  where
    go :
        (found : Option Release) (o : Option (List Entry))
        → desired_state t (ancestry (some id) t.releases) ≡ o
        → activate_found id t found ≡ switched target count t'
        → (d : List Entry) × (desired_state t (ancestry (some id) t.releases) ≡ some d)
          × (t' ≡ switched_tables id t d)
    go none o p h = cc
    go (some r) none p h = absurd (clash (rw p at h))
      where
        clash : release_checkpoint_not_found ≡ switched target count t' → ⊥
        clash h = cc
    go (some r) (some d) p h = (d, p, tables_of (rw p at h))
      where
        tables_of :
            switch_to id t r (some d) ≡ switched target count t' → t' ≡ switched_tables id t d
        tables_of h = cc
