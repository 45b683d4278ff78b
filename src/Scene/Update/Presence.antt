-- ===== src/Scene/Update/Presence.antt =====
-- apps/frontend-webxr/src/scene.ts: which pods have a mesh and a body after `update`.
use hackz_megalo.Base.{
  ℕ, Bool, true, false, not, ◌&&◌, ◌||◌, ◌≡◌, inl, inr, refl, sym, ap, ◌∙◌, Option, List, [], ◌∷◌,
  map, Text, if◌then◌else◌, lookup, has, keep_if, includes, keys, eq_Text, text_eq, text_eq_iff,
  lookup-insert, Option-cases, Bool-cases, arith, IsDistinct, includes-keys,
}
use hackz_megalo.Types.{SlaveState}
use hackz_megalo.Scene.{Numbers, Mesh, Scene}
use hackz_megalo.Scene.Grabs.{Reading}
use hackz_megalo.Scene.Meshes.{spawned, dressed, create_pod_mesh}
use hackz_megalo.Scene.Pods.{create_pod_physics, remove_pod_entry, new_physics}
use hackz_megalo.Scene.Update.{
  current_aim_target_id, progress_of, active_of, Supply, View, is_out, active_pod_ids,
  remove_inactive, put_mesh, added, dress, equip, update_pod, update_pods, highlighted,
  update_pointing_highlights, update, progress_of,
}
use hackz_megalo.Scene.Update.Losses.{remove_pod_entry-IsWithout, is_shown, is_embodied}

module _ ⦃n : Numbers⦄ where
  create_pod_physics-meshes :
      (r : Reading) (handle : ℕ) (id : Text) (s : Scene)
      → (create_pod_physics r handle id s).mesh_by_id ≡ s.mesh_by_id
  unfolding create_pod_physics
  create_pod_physics-meshes r handle id s = ground arith

  pub create_pod_physics-bodies :
      (r : Reading) (handle : ℕ) (id : Text) (s : Scene) (j : Text)
      → is_embodied (create_pod_physics r handle id s) j ≡ (text_eq id j || is_embodied s j)
  unfolding create_pod_physics
  create_pod_physics-bodies r handle id s j =
      elim (Bool-cases (not s.has_world || has s.pod_physics_by_id id)) [
        | inl e ↦
            rw (e, create_pod_physics)
              (ground (arith, e, text_eq_iff id j, ap (λ k. lookup k s.pod_physics_by_id)))
        | inr e ↦
            rw (e, create_pod_physics)
              (ground (arith, lookup-insert id j (new_physics r handle) s.pod_physics_by_id))
      ]

  -- The pod `id` is there, with its body, and for the others nothing has changed.
  record IsWith (id : Text) (before after : Scene) : Type 0 where
    meshes : (j : Text) → is_shown after j ≡ (text_eq id j || is_shown before j)
    bodies : (j : Text) → is_embodied after j ≡ (text_eq id j || is_embodied before j)

  added-IsWith : (u : Supply) (id : Text) (s : Scene) → IsWith id s (added u id s)
  added-IsWith u id s =
      let made = create_pod_mesh id u.base_min_y (u.random id 0) s.pod_mesh_cache in
      let m = spawned (u.random id 1) (u.random id 2) (u.random id 3) made.0 in
      let b = put_mesh id m (record s { pod_mesh_cache = made.1 }) in
      record {
        meshes = λ j.
            ap (λ k. has k j) (create_pod_physics-meshes u.reading (u.handles id) id b)
            ∙ ground (arith, lookup-insert id j m s.mesh_by_id);
        bodies = λ j. create_pod_physics-bodies u.reading (u.handles id) id b j;
      }

  equip-IsWith : (u : Supply) (id : Text) (s : Scene) → IsWith id s (equip u id s)
  equip-IsWith u id s = elim (Option-cases (lookup id s.mesh_by_id)) [
    | inl e ↦ rw (e, equip) (added-IsWith u id s)
    | inr (m, e) ↦
        rw (e, equip)
          (record {
            meshes = λ j.
                ap (λ k. has k j) (create_pod_physics-meshes u.reading (u.handles id) id s)
                ∙ ground (arith, e, text_eq_iff id j, ap (λ k. lookup k s.mesh_by_id));
            bodies = λ j. create_pod_physics-bodies u.reading (u.handles id) id s j;
          })
  ]

  dress-shown :
      (v : View) (pod : SlaveState) (s : Scene) (j : Text)
      → is_shown (dress v pod s) j ≡ is_shown s j
  dress-shown v pod s j = elim (Option-cases (lookup pod.slave_id s.mesh_by_id)) [
    | inl e ↦ rw (e, dress) refl
    | inr (m, e) ↦
        rw (e, dress)
          (ground (
            arith,
            lookup-insert pod.slave_id j
                (dressed v.selected v.hovered (progress_of pod.slave_id s) pod m) s.mesh_by_id,
            e,
            text_eq_iff pod.slave_id j,
            ap (λ k. lookup k s.mesh_by_id),
          ))
  ]

  dress-embodied :
      (v : View) (pod : SlaveState) (s : Scene) (j : Text)
      → is_embodied (dress v pod s) j ≡ is_embodied s j
  dress-embodied v pod s j = elim (Option-cases (lookup pod.slave_id s.mesh_by_id)) [
    | inl e ↦ rw (e, dress) refl
    | inr (m, e) ↦ rw (e, dress) refl
  ]

  -- A round of the second loop: the pod is there just where it is not out, with its body.
  record IsServed (v : View) (pod : SlaveState) (before after : Scene) : Type 0 where
    meshes :
        (j : Text)
        → is_shown after j
          ≡ (if text_eq pod.slave_id j then not (is_out v pod) else is_shown before j)
    bodies :
        (j : Text)
        → (text_eq pod.slave_id j && is_out v pod) ≡ false
        → is_embodied after j ≡ (text_eq pod.slave_id j || is_embodied before j)

  update_pod-IsServed :
      (u : Supply) (v : View) (pod : SlaveState) (s : Scene)
      → IsServed v pod s (update_pod u v pod s)
  unfolding update_pod
  update_pod-IsServed u v pod s = elim (Bool-cases (is_out v pod)) [
    | inl e ↦ elim (Option-cases (lookup pod.slave_id s.mesh_by_id)) [
      | inl q ↦
          rw (update_pod, e, q)
            (record {
              meshes = λ j.
                  ground (arith, e, q, text_eq_iff pod.slave_id j, ap (λ k. lookup k s.mesh_by_id));
              bodies = λ j t. ground (arith, e, t);
            })
      | inr (m, q) ↦
          let w = remove_pod_entry-IsWithout u.reading pod.slave_id m s in
          rw (update_pod, e, q)
            (record {
              meshes = λ j. w.meshes j ∙ ground (arith, e);
              bodies = λ j t. ground (arith, e, t, w.bodies j, w.world);
            })
    ]
    | inr e ↦
        let w = equip-IsWith u pod.slave_id s in
        rw (update_pod, e)
          (record {
            meshes =
                λ j. dress-shown v pod (equip u pod.slave_id s) j ∙ w.meshes j ∙ ground (arith, e);
            bodies = λ j t. dress-embodied v pod (equip u pod.slave_id s) j ∙ w.bodies j;
          })
  ]

  abbrev pub ids_of : List SlaveState → List Text
  ids_of pods = map (λ (pod : SlaveState). pod.slave_id) pods

  active_within :
      (v : View) (pods : List SlaveState) (j : Text)
      → includes (ids_of pods) j ≡ false
      → includes (active_of v pods) j ≡ false
  unfolding active_of includes keep_if
  active_within v [] j t = refl
  active_within v (pod ∷ pods) j t = ground (arith, t, active_within v pods j)

  -- The second loop.
  update_pods-shown :
      (u : Supply) (v : View) (pods : List SlaveState) (s : Scene) (j : Text)
      → IsDistinct (ids_of pods)
      → is_shown (update_pods u v pods s) j
        ≡ (if includes (ids_of pods) j then includes (active_of v pods) j else is_shown s j)
  unfolding update_pods active_of includes keep_if
  update_pods-shown u v [] s j d = refl
  update_pods-shown u v (pod ∷ pods) s j d =
      let w = update_pod-IsServed u v pod s in
      update_pods-shown u v pods (update_pod u v pod s) j d.1
      ∙ ground (
        arith,
        w.meshes j,
        d.0,
        active_within v pods j,
        text_eq_iff pod.slave_id j,
        ap (includes (ids_of pods)),
      )

  update_pods-embodied :
      (u : Supply) (v : View) (pods : List SlaveState) (s : Scene) (j : Text)
      → IsDistinct (ids_of pods)
      → (includes (ids_of pods) j ≡ false
          → is_embodied (update_pods u v pods s) j ≡ is_embodied s j)
        × (includes (active_of v pods) j ≡ true → is_embodied (update_pods u v pods s) j ≡ true)
  unfolding update_pods active_of includes keep_if
  update_pods-embodied u v [] s j d = (λ t. refl, λ t. ground (arith, t))
  update_pods-embodied u v (pod ∷ pods) s j d =
      let w = update_pod-IsServed u v pod s in
      let rest = update_pods-embodied u v pods (update_pod u v pod s) j d.1 in
      (
        λ t. rest.0 (ground (arith, t)) ∙ w.bodies j (ground (arith, t)) ∙ ground (arith, t),
        λ t. elim (Bool-cases (text_eq pod.slave_id j)) [
          | inl e ↦
              let notin =
                ap (includes (ids_of pods)) (sym ((text_eq_iff pod.slave_id j).0 e)) ∙ d.0 in
              rest.0 notin
              ∙ w.bodies j (ground (arith, t, e, active_within v pods j notin))
              ∙ ground (arith, e)
          | inr e ↦ rest.1 (ground (arith, t, e))
        ],
      )

  -- The first loop.
  remove_inactive-shown :
      (r : Reading) (active : List Text) (ms : List (Text × Mesh)) (s : Scene) (j : Text)
      → is_shown (remove_inactive r active ms s) j
        ≡ (is_shown s j && not (includes (keys ms) j && not (includes active j)))
  unfolding remove_inactive includes
  remove_inactive-shown r active [] s j = ground arith
  remove_inactive-shown r active ((id, m) ∷ ms) s j = elim (Bool-cases (includes active id)) [
    | inl e ↦
        rw (e, remove_inactive)
          (remove_inactive-shown r active ms s j
            ∙ ground (arith, e, text_eq_iff id j, ap (includes active)))
    | inr e ↦
        rw (e, remove_inactive)
          (remove_inactive-shown r active ms (remove_pod_entry r id m s) j
            ∙ ground (
              arith,
              e,
              text_eq_iff id j,
              ap (includes active),
              (remove_pod_entry-IsWithout r id m s).meshes j,
            ))
  ]

  has-highlighted :
      (target : Option Text) (s : Scene) (ms : List (Text × Mesh)) (j : Text)
      → has (map (highlighted target s) ms) j ≡ has ms j
  unfolding lookup
  has-highlighted target s [] j = refl
  has-highlighted target s ((id, m) ∷ ms) j = ground (arith, has-highlighted target s ms j)

  highlights-shown :
      (presenting : Bool) (s : Scene) (j : Text)
      → is_shown (update_pointing_highlights presenting s) j ≡ is_shown s j
  unfolding update_pointing_highlights
  highlights-shown presenting s j =
      has-highlighted (current_aim_target_id presenting s) s s.mesh_by_id j

  -- After `update`, where the pods of the page have different ids, a pod has a mesh just where it is
  -- one of the page's that has not left and is not eliminated, and, where there is a world, such a pod
  -- has a body.
  pub update-shows :
      (u : Supply) (v : View) (s : Scene) (j : Text)
      → IsDistinct (ids_of v.pods)
      → (is_shown (update u v s) j ≡ includes (active_pod_ids v) j)
        × (includes (active_pod_ids v) j ≡ true → is_embodied (update u v s) j ≡ true)
  unfolding update update_pointing_highlights
  update-shows u v s j d =
      let active = active_pod_ids v in
      let pruned = remove_inactive u.reading active s.mesh_by_id s in
      (
        highlights-shown u.presenting (update_pods u v v.pods pruned) j
            ∙ update_pods-shown u v v.pods pruned j d
            ∙ ground (
              arith,
              remove_inactive-shown u.reading active s.mesh_by_id s j,
              active_within v v.pods j,
              includes-keys s.mesh_by_id j,
            ),
        (update_pods-embodied u v v.pods pruned j d).1,
      )
