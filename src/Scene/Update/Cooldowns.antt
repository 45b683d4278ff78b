-- ===== src/Scene/Update/Cooldowns.antt =====
-- apps/frontend-webxr/src/scene.ts: crushes, palms, updates and frames keep the times before which the
-- hands send no gust.
use hackz_megalo.Base.{
  ℕ, not, ◌≡◌, inl, inr, refl, ◌∙◌, Option, none, some, List, [], ◌∷◌, ◌++◌, Text, Option-cases,
  Bool-cases, arith, lookup, remove, if_cases, includes, add_to, eq_Text,
}
use hackz_megalo.Types.{SlaveState, is_gone}
use hackz_megalo.Scene.{Numbers, Handedness, Vector, PodPhysics, Mesh, Hand, Scene, hand_of}
use hackz_megalo.Scene.Grabs.{Reading, clear_palm_contacts, prefix_of, update_physics}
use hackz_megalo.Scene.Meshes.{create_pod_mesh, spawned, recycle_pod_entry}
use hackz_megalo.Scene.Pods.{
  release_owner, start_pod_crush, create_pod_physics, remove_pod_physics, remove_pod_entry,
  forget_pod, clear_palm_contacts_by_slave_id, forget_targets, process_open_palm_contacts,
  touch_all, without_candidate, touch, strike, crushing, palm_strikes, collect_pod_intersections,
  is_pod_interactable,
}
use hackz_megalo.Scene.Gusts.{Frame, advance_gusts}
use hackz_megalo.Scene.Gusts.Rounds.{advance_gusts-keeps, blow_cases}
use hackz_megalo.Scene.Gusts.Triggers.{cooldown_of}
use hackz_megalo.Scene.Gusts.Cooldowns.{cooldowns, release_grab-cooldowns}
use hackz_megalo.Scene.Simulation.{prepare_all, frame_round, update_simulation}
use hackz_megalo.Scene.Update.{
  Supply, View, is_out, active_pod_ids, remove_inactive, put_mesh, dress, equip, update_pod,
  update_pods, update_pointing_highlights, update,
}

module _ ⦃n : Numbers⦄ where
  release_owner-cooldowns :
      (r : Reading) (id : Text) (s : Scene) → cooldowns (release_owner r id s) ≡ cooldowns s
  unfolding release_owner
  release_owner-cooldowns r id s = elim (Option-cases (lookup id s.pod_grab_owner_by_id)) [
    | inl e ↦ rw (e, release_owner) refl
    | inr (hand, e) ↦ rw (e, release_owner) (release_grab-cooldowns r hand s)
  ]

  update_physics-cooldowns :
      (id : Text) (f : PodPhysics → PodPhysics) (s : Scene)
      → cooldowns (update_physics id f s) ≡ cooldowns s
  update_physics-cooldowns id f s = ground arith

  pub start_pod_crush-cooldowns :
      (r : Reading) (positions : ℕ → Vector) (id : Text) (s : Scene)
      → cooldowns (start_pod_crush r positions id s) ≡ cooldowns s
  unfolding start_pod_crush
  start_pod_crush-cooldowns r positions id s = elim (Option-cases (lookup id s.pod_physics_by_id)) [
    | inl e ↦ rw (e, start_pod_crush) refl
    | inr (p, e) ↦
        rw (e, start_pod_crush)
          (if_cases (λ x. cooldowns x ≡ cooldowns s) (is_pod_interactable id s)
            (update_physics id (crushing (positions p.handle)) (release_owner r id s)) s
            (λ y.
              update_physics-cooldowns id (crushing (positions p.handle)) (release_owner r id s)
              ∙ release_owner-cooldowns r id s)
            (λ y. refl))
  ]

  pub create_pod_physics-cooldowns :
      (r : Reading) (handle : ℕ) (id : Text) (s : Scene)
      → cooldowns (create_pod_physics r handle id s) ≡ cooldowns s
  unfolding create_pod_physics
  create_pod_physics-cooldowns r handle id s = ground arith

  remove_pod_physics-cooldowns :
      (id : Text) (s : Scene) → cooldowns (remove_pod_physics id s) ≡ cooldowns s
  unfolding remove_pod_physics
  remove_pod_physics-cooldowns id s = ground arith

  without-cooldown :
      (id : Text) (o : Option Hand) → cooldown_of (without_candidate id o) ≡ cooldown_of o
  without-cooldown id none = refl
  without-cooldown id (some h) = ground arith

  forgotten-cooldowns :
      (id : Text) (s : Scene)
      → cooldowns (forget_targets id (clear_palm_contacts_by_slave_id id s)) ≡ cooldowns s
  unfolding forget_targets clear_palm_contacts_by_slave_id
  forgotten-cooldowns id s =
      rw (without-cooldown id s.left_hand, without-cooldown id s.right_hand) refl

  remove_pod_entry-cooldowns :
      (r : Reading) (id : Text) (entry : Mesh) (s : Scene)
      → cooldowns (remove_pod_entry r id entry s) ≡ cooldowns s
  unfolding remove_pod_entry forget_pod recycle_pod_entry
  remove_pod_entry-cooldowns r id entry s =
      let released = release_owner r id s in
      let b = record released { mesh_by_id = remove id released.mesh_by_id } in
      let c = remove_pod_physics id b in
      forgotten-cooldowns id (record c { pod_grab_owner_by_id = remove id c.pod_grab_owner_by_id })
      ∙ remove_pod_physics-cooldowns id b
      ∙ release_owner-cooldowns r id s

  strike-cooldowns :
      (r : Reading) (positions : ℕ → Vector) (key id : Text) (s : Scene)
      → cooldowns (strike r positions key id s) ≡ cooldowns s
  strike-cooldowns r positions key id s =
      let struck = record s { active_palm_contacts = s.active_palm_contacts ++ key ∷ [] } in
      if_cases (λ x. cooldowns x ≡ cooldowns s) (includes s.active_palm_contacts key) s
        (start_pod_crush r positions id struck) (λ y. refl)
        (λ y. start_pod_crush-cooldowns r positions id struck)

  touch-cooldowns :
      (r : Reading) (positions : ℕ → Vector) (hand : Handedness) (id : Text) (b : List Text × Scene)
      → cooldowns (touch r positions hand id b).1 ≡ cooldowns b.1
  touch-cooldowns r positions hand id b = elim (Option-cases (lookup id (b.1).mesh_by_id)) [
    | inl e ↦ rw (e, touch) refl
    | inr (pod, e) ↦
        rw (e, touch)
          (if_cases (λ (x : List Text × Scene). cooldowns x.1 ≡ cooldowns b.1)
            (is_gone pod.user_data.status) b
            (add_to b.0 (prefix_of hand ++ id), strike r positions (prefix_of hand ++ id) id b.1)
            (λ y. refl) (λ y. strike-cooldowns r positions (prefix_of hand ++ id) id b.1))
  ]

  touch_all-cooldowns :
      (r : Reading) (positions : ℕ → Vector) (hand : Handedness) (ids : List Text)
      (b : List Text × Scene)
      → cooldowns (touch_all r positions hand ids b).1 ≡ cooldowns b.1
  unfolding touch_all
  touch_all-cooldowns r positions hand [] b = refl
  touch_all-cooldowns r positions hand (id ∷ ids) b =
      touch_all-cooldowns r positions hand ids (touch r positions hand id b)
      ∙ touch-cooldowns r positions hand id b

  pub process-cooldowns :
      (r : Reading) (positions : ℕ → Vector) (handles : List ℕ) (hand : Handedness) (s : Scene)
      → cooldowns (process_open_palm_contacts r positions handles hand s) ≡ cooldowns s
  unfolding process_open_palm_contacts clear_palm_contacts
  process-cooldowns r positions handles hand s =
      elim (Option-cases (palm_strikes (hand_of s hand))) [
        | inl e ↦ rw (e, process_open_palm_contacts) refl
        | inr (h, e) ↦
            rw (e, process_open_palm_contacts)
              (touch_all-cooldowns r positions hand (collect_pod_intersections handles [] s)
                ([], s))
      ]

  remove_inactive-cooldowns :
      (r : Reading) (active : List Text) (ms : List (Text × Mesh)) (s : Scene)
      → cooldowns (remove_inactive r active ms s) ≡ cooldowns s
  unfolding remove_inactive
  remove_inactive-cooldowns r active [] s = refl
  remove_inactive-cooldowns r active ((id, m) ∷ ms) s =
      remove_inactive-cooldowns r active ms _
      ∙ if_cases (λ (x : Scene). cooldowns x ≡ cooldowns s) (includes active id) s
          (remove_pod_entry r id m s) (λ e. refl) (λ e. remove_pod_entry-cooldowns r id m s)

  equip-cooldowns : (u : Supply) (id : Text) (s : Scene) → cooldowns (equip u id s) ≡ cooldowns s
  equip-cooldowns u id s = elim (Option-cases (lookup id s.mesh_by_id)) [
    | inl e ↦
        let made = create_pod_mesh id u.base_min_y (u.random id 0) s.pod_mesh_cache in
        rw (e, equip)
          (create_pod_physics-cooldowns u.reading (u.handles id) id (
            put_mesh id (spawned (u.random id 1) (u.random id 2) (u.random id 3) made.0)
              (record s { pod_mesh_cache = made.1 })))
    | inr (m, e) ↦ rw (e, equip) (create_pod_physics-cooldowns u.reading (u.handles id) id s)
  ]

  dress-cooldowns :
      (v : View) (pod : SlaveState) (s : Scene) → cooldowns (dress v pod s) ≡ cooldowns s
  dress-cooldowns v pod s = elim (Option-cases (lookup pod.slave_id s.mesh_by_id)) [
    | inl e ↦ rw (e, dress) refl
    | inr (m, e) ↦ rw (e, dress) refl
  ]

  update_pod-cooldowns :
      (u : Supply) (v : View) (pod : SlaveState) (s : Scene)
      → cooldowns (update_pod u v pod s) ≡ cooldowns s
  unfolding update_pod
  update_pod-cooldowns u v pod s = elim (Bool-cases (is_out v pod)) [
    | inl e ↦ elim (Option-cases (lookup pod.slave_id s.mesh_by_id)) [
      | inl q ↦ rw (update_pod, e, q) refl
      | inr (m, q) ↦ rw (update_pod, e, q) (remove_pod_entry-cooldowns u.reading pod.slave_id m s)
    ]
    | inr e ↦
        rw (update_pod, e)
          (dress-cooldowns v pod (equip u pod.slave_id s) ∙ equip-cooldowns u pod.slave_id s)
  ]

  update_pods-cooldowns :
      (u : Supply) (v : View) (pods : List SlaveState) (s : Scene)
      → cooldowns (update_pods u v pods s) ≡ cooldowns s
  unfolding update_pods
  update_pods-cooldowns u v [] s = refl
  update_pods-cooldowns u v (pod ∷ pods) s =
      update_pods-cooldowns u v pods (update_pod u v pod s) ∙ update_pod-cooldowns u v pod s

  pub update-cooldowns :
      (u : Supply) (v : View) (s : Scene) → cooldowns (update u v s) ≡ cooldowns s
  unfolding update update_pointing_highlights
  update-cooldowns u v s =
      update_pods-cooldowns u v v.pods (remove_inactive u.reading (active_pod_ids v) s.mesh_by_id s)
      ∙ remove_inactive-cooldowns u.reading (active_pod_ids v) s.mesh_by_id s

  advance_gusts-cooldowns : (f : Frame) (s : Scene) → cooldowns (advance_gusts f s) ≡ cooldowns s
  advance_gusts-cooldowns f s =
      advance_gusts-keeps (λ x. cooldowns x ≡ cooldowns s) f (λ x gusts pool w. w)
        (λ d id x w. blow_cases (λ y. cooldowns y ≡ cooldowns s) f d id x w (λ p l e t. w)) s refl

  pub update_simulation-cooldowns :
      (f : Frame) (s : Scene) → cooldowns (update_simulation f s) ≡ cooldowns s
  unfolding update_simulation frame_round
  update_simulation-cooldowns f s =
      if_cases (λ x. cooldowns x ≡ cooldowns s) (not s.has_world) s (frame_round f s) (λ e. refl)
        (λ e.
          advance_gusts-cooldowns f
            (record s { pod_physics_by_id = (prepare_all f s.mesh_by_id s.pod_physics_by_id).0 }))
