-- ===== src/Scene/Pods/Handles.antt =====
-- The map from colliders to pods against the map from pods to bodies.
use hackz_megalo.Base.{
  List, [], ◌∷◌, ℕ, not, ◌||◌, ◌≡◌, ◌↔◌, Option, none, some, Text, Option-cases, Bool-cases, arith,
  lookup, lookup-remove, lookup-insert, eq_Text, eq_ℕ, text_eq_iff, nat_eq_iff, has, inl, inr,
}
use hackz_megalo.Scene.{Numbers, Scene, PodPhysics}
use hackz_megalo.Scene.Grabs.{Reading}
use hackz_megalo.Scene.Pods.{create_pod_physics, new_physics, remove_pod_physics}

module _ ⦃n : Numbers⦄ where
  abbrev pub handle_of : Option PodPhysics → Option ℕ
  handle_of none = none
  handle_of (some p) = some p.handle

  -- A collider belongs to a pod just where it is that of the pod's body.
  pub record IsTracked (s : Scene) : Type 0 where
    pub agrees :
        (handle : ℕ) (id : Text)
        → (lookup handle s.pod_id_by_collider_handle ≡ some id)
          ↔ (handle_of (lookup id s.pod_physics_by_id) ≡ some handle)

  removed_agrees :
      (id : Text) (s : Scene)
      → IsTracked s
      → (h : ℕ) (j : Text)
      → (lookup h (remove_pod_physics id s).pod_id_by_collider_handle ≡ some j)
        ↔ (handle_of (lookup j (remove_pod_physics id s).pod_physics_by_id) ≡ some h)
  unfolding remove_pod_physics
  removed_agrees id s w h j = elim (Option-cases (lookup id s.pod_physics_by_id)) [
    | inl e ↦ rw (e, remove_pod_physics) (w.agrees h j)
    | inr (p, e) ↦
        rw (e, remove_pod_physics)
          (ground (
            arith,
            e,
            w.agrees h j,
            w.agrees p.handle id,
            w.agrees p.handle j,
            w.agrees h id,
            text_eq_iff id j,
            nat_eq_iff p.handle h,
            lookup-remove id j s.pod_physics_by_id,
            lookup-remove p.handle h s.pod_id_by_collider_handle,
          ))
  ]

  created_agrees :
      (r : Reading) (handle : ℕ) (id : Text) (s : Scene)
      → lookup handle s.pod_id_by_collider_handle ≡ none
      → IsTracked s
      → (h : ℕ) (j : Text)
      → (lookup h (create_pod_physics r handle id s).pod_id_by_collider_handle ≡ some j)
        ↔ (handle_of (lookup j (create_pod_physics r handle id s).pod_physics_by_id) ≡ some h)
  unfolding create_pod_physics
  created_agrees r handle id s fresh w h j =
      elim (Bool-cases (not s.has_world || has s.pod_physics_by_id id)) [
        | inl e ↦ rw (e, create_pod_physics) (w.agrees h j)
        | inr e ↦
            rw (e, create_pod_physics)
              (ground (
                arith,
                e,
                fresh,
                w.agrees h j,
                w.agrees handle j,
                w.agrees h id,
                text_eq_iff id j,
                nat_eq_iff handle h,
                lookup-insert id j (new_physics r handle) s.pod_physics_by_id,
                lookup-insert handle h id s.pod_id_by_collider_handle,
              ))
      ]

  -- Removing a pod's body keeps the two maps in step.
  remove_pod_physics-IsTracked :
      (id : Text) (s : Scene) → IsTracked s → IsTracked (remove_pod_physics id s)
  remove_pod_physics-IsTracked id s w = record { agrees = removed_agrees id s w }

  -- Making a body keeps the two maps in step, where the engine's new collider has no pod yet.
  create_pod_physics-IsTracked :
      (r : Reading) (handle : ℕ) (id : Text) (s : Scene)
      → lookup handle s.pod_id_by_collider_handle ≡ none
      → IsTracked s
      → IsTracked (create_pod_physics r handle id s)
  create_pod_physics-IsTracked r handle id s fresh w = record {
    agrees = created_agrees r handle id s fresh w;
  }

  pub data BodyCall : Type 0 where
    makes : Reading → (handle : ℕ) → Text → BodyCall
    takes_away : Text → BodyCall

  unfoldable pub run_bodies : List BodyCall → Scene → Scene
  run_bodies [] s = s
  run_bodies (makes r handle id ∷ cs) s = run_bodies cs (create_pod_physics r handle id s)
  run_bodies (takes_away id ∷ cs) s = run_bodies cs (remove_pod_physics id s)

  -- The engine makes a collider with a handle that no pod has.
  abbrev pub HaveFreshHandles : List BodyCall → Scene → Type 0
  HaveFreshHandles [] s = Unit
  HaveFreshHandles (makes r handle id ∷ cs) s =
      (lookup handle s.pod_id_by_collider_handle ≡ none)
      × HaveFreshHandles cs (create_pod_physics r handle id s)
  HaveFreshHandles (takes_away id ∷ cs) s = HaveFreshHandles cs (remove_pod_physics id s)

  -- Through any makings and removals of bodies, where the engine gives a new collider a handle that no
  -- pod has, a collider belongs to a pod just where it is that of the pod's body.
  pub run_bodies-IsTracked :
      (cs : List BodyCall) (s : Scene)
      → HaveFreshHandles cs s
      → IsTracked s
      → IsTracked (run_bodies cs s)
  unfolding run_bodies
  run_bodies-IsTracked [] s fresh w = w
  run_bodies-IsTracked (makes r handle id ∷ cs) s fresh w =
      run_bodies-IsTracked cs (create_pod_physics r handle id s) fresh.1
        (create_pod_physics-IsTracked r handle id s fresh.0 w)
  run_bodies-IsTracked (takes_away id ∷ cs) s fresh w =
      run_bodies-IsTracked cs (remove_pod_physics id s) fresh (remove_pod_physics-IsTracked id s w)
