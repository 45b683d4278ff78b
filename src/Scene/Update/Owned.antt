-- ===== src/Scene/Update/Owned.antt =====
-- apps/frontend-webxr/src/scene.ts: `update` and `reset` against which hand holds which pod.
use hackz_megalo.Scene.Grabs.Holds.{Rule, Obeys}
use hackz_megalo.Base.{
  true, ◌≡◌, ◌≢◌, ◌↔◌, refl, sym, ap, ◌∙◌, subst, List, [], ◌∷◌, none, some, Text, if_cases,
  Option-cases, Bool-cases, inl, inr, includes, lookup, eq_Text, arith, keys,
}
use hackz_megalo.Types.{SlaveState}
use hackz_megalo.Scene.{Numbers, Handedness, left, right, Mesh, Scene}
use hackz_megalo.Scene.Grabs.{Reading, clear_hand_state, named}
use hackz_megalo.Scene.Grabs.Grips.{dropped-IsOwned, Grip, IsOwned, held, dropped, named-none}
use hackz_megalo.Scene.Grabs.Owners.{
  grip_of, held_by, clear_hand_state-Obeys, clear_hand_state-dropped,
}
use hackz_megalo.Scene.Meshes.{create_pod_mesh, spawned, recycle_pod_entry}
use hackz_megalo.Scene.Pods.{remove_pod_physics, remove_pod_entry}
use hackz_megalo.Scene.Pods.Owned.{
  create_pod_physics-grip, remove_pod_entry-Obeys, remove_pod_physics-grip,
}
use hackz_megalo.Scene.Simulation.Owned.{clear_gusts-grip}
use hackz_megalo.Scene.Update.{
  Supply, View, is_out, active_pod_ids, remove_inactive, put_mesh, dress, equip, update_pod,
  update_pods, update_pointing_highlights, update, recycle_all, remove_all_physics, calmed, reset,
}

no_owner :
    (g : Grip) (id : Text) (hand : Handedness)
    → g.in_left ≡ none
    → g.in_right ≡ none
    → (lookup id [] ≡ some hand) ↔ (held (record g { owners = [] }) hand ≡ some id)
unfolding lookup
no_owner g id left p q = ground (arith, p)
no_owner g id right p q = ground (arith, q)

no_name :
    (g : Grip) (hand : Handedness)
    → g.in_left ≡ none
    → g.in_right ≡ none
    → held (record g { owners = [] }) hand ≢ some []
no_name g left p q t = ground (arith, p, t)
no_name g right p q t = ground (arith, q, t)

module _ ⦃n : Numbers⦄ where
  remove_inactive-Obeys :
      {a : Rule} (r : Reading) (active : List Text) (ms : List (Text × Mesh)) (s : Scene)
      → Obeys a (grip_of s)
      → Obeys a (grip_of (remove_inactive r active ms s))
  unfolding remove_inactive
  remove_inactive-Obeys {a} r active [] s w = w
  remove_inactive-Obeys {a} r active ((id, m) ∷ ms) s w = remove_inactive-Obeys r active ms _ (
      if_cases (λ x. Obeys a (grip_of x)) (includes active id) s (remove_pod_entry r id m s)
        (λ e. w) (λ e. remove_pod_entry-Obeys r id m s w))

  equip-grip : (u : Supply) (id : Text) (s : Scene) → grip_of (equip u id s) ≡ grip_of s
  equip-grip u id s = elim (Option-cases (lookup id s.mesh_by_id)) [
    | inl e ↦
        let made = create_pod_mesh id u.base_min_y (u.random id 0) s.pod_mesh_cache in
        rw (e, equip)
          (create_pod_physics-grip u.reading (u.handles id) id (
            put_mesh id (spawned (u.random id 1) (u.random id 2) (u.random id 3) made.0)
              (record s { pod_mesh_cache = made.1 })))
    | inr (m, e) ↦ rw (e, equip) (create_pod_physics-grip u.reading (u.handles id) id s)
  ]

  dress-grip : (v : View) (pod : SlaveState) (s : Scene) → grip_of (dress v pod s) ≡ grip_of s
  dress-grip v pod s = elim (Option-cases (lookup pod.slave_id s.mesh_by_id)) [
    | inl e ↦ rw (e, dress) refl
    | inr (m, e) ↦ rw (e, dress) refl
  ]

  update_pod-Obeys :
      {a : Rule} (u : Supply) (v : View) (pod : SlaveState) (s : Scene)
      → Obeys a (grip_of s)
      → Obeys a (grip_of (update_pod u v pod s))
  unfolding update_pod
  update_pod-Obeys {a} u v pod s w = elim (Bool-cases (is_out v pod)) [
    | inl e ↦ elim (Option-cases (lookup pod.slave_id s.mesh_by_id)) [
      | inl q ↦ rw (update_pod, e, q) w
      | inr (m, q) ↦ rw (update_pod, e, q) (remove_pod_entry-Obeys u.reading pod.slave_id m s w)
    ]
    | inr e ↦
        rw (update_pod, e)
          (subst (Obeys a)
            (sym (dress-grip v pod (equip u pod.slave_id s) ∙ equip-grip u pod.slave_id s)) w)
  ]

  update_pods-Obeys :
      {a : Rule} (u : Supply) (v : View) (pods : List SlaveState) (s : Scene)
      → Obeys a (grip_of s)
      → Obeys a (grip_of (update_pods u v pods s))
  unfolding update_pods
  update_pods-Obeys {a} u v [] s w = w
  update_pods-Obeys {a} u v (pod ∷ pods) s w =
      update_pods-Obeys u v pods (update_pod u v pod s) (update_pod-Obeys u v pod s w)

  pub update-Obeys :
      {a : Rule} (u : Supply) (v : View) (s : Scene)
      → Obeys a (grip_of s)
      → Obeys a (grip_of (update u v s))
  unfolding update update_pointing_highlights
  update-Obeys {a} u v s w =
      update_pods-Obeys u v v.pods (remove_inactive u.reading (active_pod_ids v) s.mesh_by_id s)
        (remove_inactive-Obeys u.reading (active_pod_ids v) s.mesh_by_id s w)

  recycle_all-grip : (ms : List (Text × Mesh)) (s : Scene) → grip_of (recycle_all ms s) ≡ grip_of s
  unfolding recycle_all recycle_pod_entry
  recycle_all-grip [] s = refl
  recycle_all-grip ((id, m) ∷ ms) s = recycle_all-grip ms (recycle_pod_entry m s)

  remove_all_physics-grip :
      (ids : List Text) (s : Scene) → grip_of (remove_all_physics ids s) ≡ grip_of s
  unfolding remove_all_physics
  remove_all_physics-grip [] s = refl
  remove_all_physics-grip (id ∷ ids) s =
      remove_all_physics-grip ids (remove_pod_physics id s) ∙ remove_pod_physics-grip id s

  hand_left-dropped : (g : Grip) → IsOwned g → (dropped left g).in_left ≡ none
  hand_left-dropped g w = elim (Option-cases (named g.in_left)) [
    | inl e ↦ rw (dropped, e) (named-none g.in_left (w.is_named left) e)
    | inr (id, e) ↦ rw (dropped, e) refl
  ]

  hand_right-dropped :
      (g : Grip)
      → IsOwned g
      → ((dropped right g).in_left ≡ g.in_left) × ((dropped right g).in_right ≡ none)
  hand_right-dropped g w = elim (Option-cases (named g.in_right)) [
    | inl e ↦ rw (dropped, e) (refl, named-none g.in_right (w.is_named right) e)
    | inr (id, e) ↦ rw (dropped, e) (refl, refl)
  ]

  -- The empty map of owners suits empty hands.
  pub empty-IsOwned :
      (g : Grip) → g.in_left ≡ none → g.in_right ≡ none → IsOwned (record g { owners = [] })
  empty-IsOwned g p q = record {
    agrees = λ id hand. no_owner g id hand p q;
    is_named = λ hand. no_name g hand p q;
  }

  calmed-grip : (s : Scene) → grip_of (calmed s) ≡ grip_of s
  unfolding calmed
  calmed-grip s =
      let bare = record (recycle_all s.mesh_by_id s) { mesh_by_id = [] } in
      clear_gusts-grip (remove_all_physics (keys bare.pod_physics_by_id) bare)
      ∙ remove_all_physics-grip (keys bare.pod_physics_by_id) bare
      ∙ recycle_all-grip s.mesh_by_id s

  -- After `reset` both hands are empty.
  pub reset-empties :
      (r : Reading) (s : Scene)
      → IsOwned (grip_of s)
      → (held_by (reset r s).left_hand ≡ none) × (held_by (reset r s).right_hand ≡ none)
  unfolding reset
  reset-empties r s w =
      let b = clear_hand_state r left true (calmed s) in
      let u = subst IsOwned (sym (calmed-grip s)) w in
      let x =
        subst IsOwned (sym (clear_hand_state-dropped r left true (calmed s) u))
          (dropped-IsOwned left (grip_of (calmed s)) u) in
      let e = clear_hand_state-dropped r right true b x in
      let d = hand_right-dropped (grip_of b) x in
      (
        ap (λ (g : Grip). g.in_left) e
            ∙ d.0
            ∙ ap (λ (g : Grip). g.in_left) (clear_hand_state-dropped r left true (calmed s) u)
            ∙ hand_left-dropped (grip_of (calmed s)) u,
        ap (λ (g : Grip). g.in_right) e ∙ d.1,
      )

  pub reset-Obeys :
      {a : Rule} (r : Reading) (s : Scene) → Obeys a (grip_of s) → Obeys a (grip_of (reset r s))
  unfolding reset
  reset-Obeys {a} r s w =
      let b = clear_hand_state r left true (calmed s) in
      let e = reset-empties r s w.owned in
      let u = subst (Obeys a) (sym (calmed-grip s)) w in
      record {
        owned = empty-IsOwned (grip_of (clear_hand_state r right true b)) e.0 e.1;
        rule =
            (clear_hand_state-Obeys r right true b
              (clear_hand_state-Obeys r left true (calmed s) u)).rule;
      }
