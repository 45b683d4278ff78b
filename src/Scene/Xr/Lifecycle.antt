-- ===== src/Scene/Xr/Lifecycle.antt =====
-- apps/frontend-webxr/src/scene.ts: `initializePhysics` past its `await`, and `dispose`.
use hackz_megalo.Base.{
  ℕ, true, false, ◌||◌, ◌≡◌, refl, ◌∙◌, inl, inr, none, some, List, [], ◌∷◌, Text, keys, includes,
  includes-keys, has, if_cases, if◌then◌else◌, Option-cases, arith, eq_Text,
}
use hackz_megalo.Scene.{Numbers, Handedness, left, right, Hand, Scene, put_hand}
use hackz_megalo.Scene.Grabs.{Reading}
use hackz_megalo.Scene.Grabs.Owners.{grip_of}
use hackz_megalo.Scene.Pods.{create_pod_physics}
use hackz_megalo.Scene.Pods.Owned.{create_pod_physics-grip}
use hackz_megalo.Scene.Gusts.{clear_gusts}
use hackz_megalo.Scene.Hands.Sampling.{ensure_hand_physics}
use hackz_megalo.Scene.Hands.Owned.{put_hand-grip, ensured_held}
use hackz_megalo.Scene.Update.{remove_all_physics}
use hackz_megalo.Scene.Update.Losses.{is_shown, is_embodied}
use hackz_megalo.Scene.Update.Presence.{create_pod_physics-bodies}
use hackz_megalo.Scene.Desktop.{set_desktop_target_pod}
use hackz_megalo.Scene.Desktop.Keys.{rested}
use hackz_megalo.Scene.Xr.{Xr, scene_of, with_scene, free_board}

module _ ⦃n : Numbers⦄ where
  abbrev pub make_hand : Handedness → Scene → Scene
  make_hand hand s = elim (ensure_hand_physics hand s) [ none ↦ s | some h ↦ put_hand hand h s ]

  -- The loop over the meshes. `handles` are the colliders that the engine makes.
  unfoldable pub embody_all : Reading → (handles : Text → ℕ) → List Text → Scene → Scene
  unfolding create_pod_physics
  embody_all r handles [] s = s
  embody_all r handles (id ∷ ids) s =
      embody_all r handles ids (create_pod_physics r (handles id) id s)

  abbrev pub with_hands : Scene → Scene
  with_hands s = make_hand right (make_hand left (record s { has_world = true }))

  unfoldable pub initialize_physics : Reading → (handles : Text → ℕ) → Scene → Scene
  unfolding embody_all
  initialize_physics r handles s =
      if s.has_world then s else embody_all r handles (keys s.mesh_by_id) (with_hands s)

  -- The meshes and textures, the renderer and the engine that are let go are left out.
  abbrev pub emptied : Scene → Scene
  emptied s =
      let bare = record s { mesh_by_id = []; pod_mesh_cache = [] } in
      record (clear_gusts (remove_all_physics (keys bare.pod_physics_by_id) bare)) {
        gust_pool = [];
        left_hand = none;
        right_hand = none;
        pod_grab_owner_by_id = [];
        has_world = false;
      }

  unfoldable pub dispose : Xr → Xr
  unfolding set_desktop_target_pod clear_gusts remove_all_physics
  dispose x =
      let b = record x { controls = rested x.controls } in
      free_board (with_scene (emptied (scene_of b)) b)

  make_hand-grip : (hand : Handedness) (s : Scene) → grip_of (make_hand hand s) ≡ grip_of s
  make_hand-grip hand s = elim (Option-cases (ensure_hand_physics hand s)) [
    | inl e ↦ rw (e, make_hand) refl
    | inr (h, e) ↦ rw (e, make_hand) (put_hand-grip hand h s (ensured_held hand s h e))
  ]

  embody_all-grip :
      (r : Reading) (handles : Text → ℕ) (ids : List Text) (s : Scene)
      → grip_of (embody_all r handles ids s) ≡ grip_of s
  unfolding embody_all
  embody_all-grip r handles [] s = refl
  embody_all-grip r handles (id ∷ ids) s =
      embody_all-grip r handles ids (create_pod_physics r (handles id) id s)
      ∙ create_pod_physics-grip r (handles id) id s

  pub initialize-grip :
      (r : Reading) (handles : Text → ℕ) (s : Scene)
      → grip_of (initialize_physics r handles s) ≡ grip_of s
  unfolding initialize_physics
  initialize-grip r handles s =
      let b = record s { has_world = true } in
      if_cases (λ x. grip_of x ≡ grip_of s) s.has_world s _ (λ e. refl)
        (λ e.
          embody_all-grip r handles (keys s.mesh_by_id) (with_hands s)
          ∙ make_hand-grip right (make_hand left b)
          ∙ make_hand-grip left b)

  embody_all-bodies :
      (r : Reading) (handles : Text → ℕ) (ids : List Text) (s : Scene) (j : Text)
      → is_embodied (embody_all r handles ids s) j ≡ (includes ids j || is_embodied s j)
  unfolding embody_all includes
  embody_all-bodies r handles [] s j = refl
  embody_all-bodies r handles (id ∷ ids) s j = ground (
    arith,
    embody_all-bodies r handles ids (create_pod_physics r (handles id) id s) j,
    create_pod_physics-bodies r (handles id) id s j,
  )

  put_hand-world :
      (hand : Handedness) (h : Hand) (s : Scene) → (put_hand hand h s).has_world ≡ s.has_world
  put_hand-world left h s = refl
  put_hand-world right h s = refl

  make_hand-world : (hand : Handedness) (s : Scene) → (make_hand hand s).has_world ≡ s.has_world
  make_hand-world hand s = elim (Option-cases (ensure_hand_physics hand s)) [
    | inl e ↦ rw (e, make_hand) refl
    | inr (h, e) ↦ rw (e, make_hand) (put_hand-world hand h s)
  ]

  embody_all-world :
      (r : Reading) (handles : Text → ℕ) (ids : List Text) (s : Scene)
      → (embody_all r handles ids s).has_world ≡ s.has_world
  unfolding embody_all create_pod_physics
  embody_all-world r handles [] s = refl
  embody_all-world r handles (id ∷ ids) s =
      ground (arith, embody_all-world r handles ids (create_pod_physics r (handles id) id s))

  with_hands-world : (s : Scene) → (with_hands s).has_world ≡ true
  with_hands-world s =
      let b = record s { has_world = true } in
      make_hand-world right (make_hand left b) ∙ make_hand-world left b

  -- Once the engine is there, the scene has a world and each pod that has a mesh has a body, where it
  -- had one before if there was a world before.
  pub initialize-embodies :
      (r : Reading) (handles : Text → ℕ) (s : Scene) (id : Text)
      → (s.has_world ≡ true → has s.pod_physics_by_id id ≡ true)
      → is_shown s id ≡ true
      → let b = initialize_physics r handles s in
        (b.has_world ≡ true) × (has b.pod_physics_by_id id ≡ true)
  unfolding initialize_physics
  initialize-embodies r handles s id before shown =
      if_cases (λ (b : Scene). (b.has_world ≡ true) × (has b.pod_physics_by_id id ≡ true))
        s.has_world s _ (λ e. (e, before e))
        (λ e.
          let b = embody_all r handles (keys s.mesh_by_id) (with_hands s) in
          let world =
            embody_all-world r handles (keys s.mesh_by_id) (with_hands s) ∙ with_hands-world s in
          (
            world,
            ground (
              arith,
              world,
              embody_all-bodies r handles (keys s.mesh_by_id) (with_hands s) id,
              includes-keys s.mesh_by_id id,
              shown,
            ),
          ))
