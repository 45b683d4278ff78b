-- ===== src/Scene/Hands/Pointing.antt =====
-- apps/frontend-webxr/src/scene.ts: the pod that a finger points at, `findPointingTarget` and
-- `findNearestLivePodId`.
use hackz_megalo.Base.{
  ℕ, ◌&&◌, Option, none, some, List, [], ◌∷◌, Text, if◌then◌else◌, lookup, eq_Text,
}
use hackz_megalo.Scene.{Numbers, Vector, Hand, Scene}
use hackz_megalo.Scene.Pods.{is_pod_interactable}

module _ ⦃n : Numbers⦄ where
  -- `physicsEntry.body.translation() ?? entry.group.position`
  abbrev pub place_of : (ℕ → Vector) → Text → Vector → Scene → Vector
  place_of positions id position s = elim (lookup id s.pod_physics_by_id) [
    | none ↦ position
    | some p ↦ positions p.handle
  ]

  abbrev pub apart : Vector → Vector → n.F
  apart v w = n.hypot3 (n.sub v.x w.x) (n.sub v.y w.y) (n.sub v.z w.z)

  -- The loop of `findNearestLivePodId` with a point, from the best so far.
  unfoldable pub nearest_from :
      (ℕ → Vector) → List Text → Vector → (best : Option Text) → (limit : n.F) → Scene → Option Text
  unfolding lookup
  nearest_from positions [] point best limit s = best
  nearest_from positions (id ∷ ids) point best limit s = elim (lookup id s.mesh_by_id) [
    | none ↦ nearest_from positions ids point best limit s
    | some m ↦
        let away = apart (place_of positions id m.position s) point in
        let wins = is_pod_interactable id s && n.gt limit away in
        nearest_from positions ids point (if wins then some id else best)
          (if wins then away else limit) s
  ]

  -- `findPointingTarget`
  unfoldable pub find_pointing_target : (ℕ → Vector) → List Text → Hand → Scene → Option Text
  unfolding nearest_from
  find_pointing_target positions candidates h s = elim h.index_tip_local [
    | none ↦ none
    | some point ↦ nearest_from positions candidates point none n.infinity s
  ]
