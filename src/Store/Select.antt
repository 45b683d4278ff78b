-- ===== src/Store/Select.antt =====
-- The selection after a snapshot and after an update.
use hackz_megalo.Base.{
  ◌≡◌, ◌↔◌, refl, true, false, List, [], ◌∷◌, Option, none, some, Text, eq_Text, text_eq_iff, arith,
  lookup, insert, lookup-insert, has, truthy, ◌||◌, includes, map, subst, sym,
}
use hackz_megalo.Types.{SlaveState, SessionMeta, SessionMetrics}
use hackz_megalo.Store.{GameStore, emit}
use hackz_megalo.Store.Pods.{from_entries, hydrated_selection, hydrate_snapshot, first_id}

abbrev pub ids : List SlaveState → List Text
ids = map (λ (p : SlaveState). p.slave_id)

has-from_entries :
    (ps : List SlaveState) (m : List (Text × SlaveState)) (id : Text)
    → has (from_entries ps m) id ≡ (includes (ids ps) id || has m id)
unfolding from_entries includes
has-from_entries [] m id = refl
has-from_entries (p ∷ ps) m id =
    ground (arith, has-from_entries ps (insert p.slave_id p m) id, lookup-insert p.slave_id id p m)

first_id-includes :
    (ps : List SlaveState) (id : Text) → first_id ps ≡ some id → includes (ids ps) id ≡ true
unfolding includes
first_id-includes [] id e = absurd (cc)
first_id-includes (p ∷ ps) id e = ground (arith, text_eq_iff p.slave_id id)

first_id-eq-none : (ps : List SlaveState) → (first_id ps ≡ none) ↔ (ps ≡ [])
first_id-eq-none [] = (λ e. refl, λ e. refl)
first_id-eq-none (p ∷ ps) = (λ e. absurd (cc), λ e. absurd (cc))

module _ (pods : List SlaveState) where
  known : (id : Text) → has (from_entries pods []) id ≡ includes (ids pods) id
  unfolding lookup
  known id = ground (arith, has-from_entries pods [] id)

  selection_known :
      (o : Option Text) (id : Text)
      → hydrated_selection o pods (from_entries pods []) ≡ some id
      → includes (ids pods) id ≡ true
  selection_known none id e = first_id-includes pods id e
  selection_known (some old) id e = ground (arith, known old, first_id-includes pods id)

  selection_kept :
      (o : Option Text) (id : Text)
      → o ≡ some id
      → truthy id ≡ true
      → includes (ids pods) id ≡ true
      → hydrated_selection o pods (from_entries pods []) ≡ some id
  selection_kept o id e t h = rw e (ground (arith, known id))

  none_known : (id : Text) → pods ≡ [] → includes (ids pods) id ≡ false
  unfolding includes
  none_known id e = subst (λ ps. includes (ids ps) id ≡ false) (sym e) refl

  selection_none :
      (o : Option Text) → (hydrated_selection o pods (from_entries pods []) ≡ none) ↔ (pods ≡ [])
  selection_none none = first_id-eq-none pods
  selection_none (some old) = (
    λ e. (first_id-eq-none pods).0 (ground arith),
    λ e. ground (arith, known old, none_known old e, (first_id-eq-none pods).1 e),
  )

-- After a snapshot there are exactly the snapshot's pods; a selected pod that is still there stays
-- selected, and else the first pod of the snapshot is, or none where there is none. So the selected
-- pod is one of the snapshot's.
pub hydrate_snapshot-selection :
    (session : SessionMeta) (metrics : SessionMetrics) (pods : List SlaveState) (s : GameStore)
    → let g = (hydrate_snapshot session metrics pods s).state in
      ((id : Text) → has g.pods_by_id id ≡ includes (ids pods) id)
      × ((id : Text) → g.selected_pod_id ≡ some id → includes (ids pods) id ≡ true)
      × ((id : Text)
          → s.state.selected_pod_id ≡ some id
          → truthy id ≡ true
          → includes (ids pods) id ≡ true
          → g.selected_pod_id ≡ some id)
      × ((g.selected_pod_id ≡ none) ↔ (pods ≡ []))
unfolding hydrate_snapshot emit
hydrate_snapshot-selection session metrics pods s = (
  known pods,
  selection_known pods s.state.selected_pod_id,
  selection_kept pods s.state.selected_pod_id,
  selection_none pods s.state.selected_pod_id,
)
