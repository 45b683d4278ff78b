-- ===== src/Scene/Update/Losses.antt =====
-- apps/frontend-webxr/src/scene.ts: what the removal of a pod takes from the scene, and what it leaves.
use hackz_megalo.Base.{
  Bool, not, ◌&&◌, ◌||◌, ◌≡◌, inl, inr, refl, ap, ◌∙◌, List, Text, lookup, remove, has, eq_Text,
  text_eq, text_eq_iff, lookup-insert, lookup-remove, Option-cases, arith,
}
use hackz_megalo.Scene.{
  Numbers, Handedness, left, right, Mesh, Scene, PodPhysics, Hand, hand_of, put_hand,
}
use hackz_megalo.Scene.Grabs.{Reading, named, freed, empty_grab, release_grab, update_physics}
use hackz_megalo.Scene.Meshes.{recycle_pod_entry}
use hackz_megalo.Scene.Pods.{
  remove_pod_physics, remove_pod_entry, forget_pod, release_owner, forget_targets,
  clear_palm_contacts_by_slave_id,
}

module _ ⦃n : Numbers⦄ where
  -- Whether a pod has a mesh, a body where there is a world, and the world.
  abbrev pub is_shown : Scene → Text → Bool
  is_shown s id = has s.mesh_by_id id

  abbrev pub is_embodied : Scene → Text → Bool
  is_embodied s id = not s.has_world || has s.pod_physics_by_id id

  -- What the removal of a pod keeps of the others.
  pub record IsUntouched (before after : Scene) : Type 0 where
    pub meshes : after.mesh_by_id ≡ before.mesh_by_id
    pub world : after.has_world ≡ before.has_world
    pub bodies : (id : Text) → has after.pod_physics_by_id id ≡ has before.pod_physics_by_id id
    pub gusts : after.gusts ≡ before.gusts
    pub contacts : after.active_palm_contacts ≡ before.active_palm_contacts

  untouched : (s : Scene) → IsUntouched s s
  untouched s = record {
    meshes = refl;
    world = refl;
    bodies = λ j. refl;
    gusts = refl;
    contacts = refl;
  }

  update_physics-IsUntouched :
      (id : Text) (f : PodPhysics → PodPhysics) (s : Scene) → IsUntouched s (update_physics id f s)
  update_physics-IsUntouched id f s = elim (Option-cases (lookup id s.pod_physics_by_id)) [
    | inl e ↦
        rw (update_physics, e)
          (record {
            meshes = refl;
            world = refl;
            bodies = λ j. refl;
            gusts = refl;
            contacts = refl;
          })
    | inr (p, e) ↦
        rw (update_physics, e)
          (record {
            meshes = refl;
            world = refl;
            gusts = refl;
            contacts = refl;
            bodies = λ j. ground (
              arith,
              lookup-insert id j (f p) s.pod_physics_by_id,
              e,
              text_eq_iff id j,
              ap (λ k. lookup k s.pod_physics_by_id),
            );
          })
  ]

  put_hand-IsUntouched :
      (hand : Handedness) (h : Hand) (before s : Scene)
      → IsUntouched before s
      → IsUntouched before (put_hand hand h s)
  put_hand-IsUntouched left h before s w = record {
    meshes = w.meshes;
    world = w.world;
    bodies = w.bodies;
    gusts = w.gusts;
    contacts = w.contacts;
  }
  put_hand-IsUntouched right h before s w = record {
    meshes = w.meshes;
    world = w.world;
    bodies = w.bodies;
    gusts = w.gusts;
    contacts = w.contacts;
  }

  pub release_grab-IsUntouched :
      (r : Reading) (hand : Handedness) (s : Scene) → IsUntouched s (release_grab r hand s)
  unfolding release_grab
  release_grab-IsUntouched r hand s = elim (Option-cases (hand_of s hand)) [
    | inl e ↦ rw (e, release_grab) (untouched s)
    | inr (h, e) ↦ elim (Option-cases (named h.grabbed_pod_id)) [
      | inl q ↦ rw (e, q, release_grab) (untouched s)
      | inr (id, q) ↦
          let u = update_physics-IsUntouched id (freed r) s in
          rw (e, q, release_grab)
            (put_hand-IsUntouched hand (empty_grab h) s _ (record {
              meshes = u.meshes;
              world = u.world;
              bodies = u.bodies;
              gusts = u.gusts;
              contacts = u.contacts;
            }))
    ]
  ]

  release_owner-IsUntouched :
      (r : Reading) (id : Text) (s : Scene) → IsUntouched s (release_owner r id s)
  unfolding release_owner
  release_owner-IsUntouched r id s = elim (Option-cases (lookup id s.pod_grab_owner_by_id)) [
    | inl e ↦ rw (release_owner, e) (untouched s)
    | inr (hand, e) ↦ rw (release_owner, e) (release_grab-IsUntouched r hand s)
  ]

  -- The removal of the pod `id` takes away its mesh and its body, and those of no other.
  pub record IsWithout (id : Text) (before after : Scene) : Type 0 where
    pub meshes : (j : Text) → is_shown after j ≡ (not (text_eq id j) && is_shown before j)
    pub world : after.has_world ≡ before.has_world
    pub bodies :
        (j : Text)
        → has after.pod_physics_by_id j ≡ (not (text_eq id j) && has before.pod_physics_by_id j)

  has-remove :
      {V : Type 0} (id j : Text) (m : List (Text × V))
      → has (remove id m) j ≡ (not (text_eq id j) && has m j)
  has-remove id j m = ground (arith, lookup-remove id j m)

  pub remove_pod_physics-has :
      (id j : Text) (s : Scene)
      → has (remove_pod_physics id s).pod_physics_by_id j
        ≡ (not (text_eq id j) && has s.pod_physics_by_id j)
  unfolding remove_pod_physics
  remove_pod_physics-has id j s =
      ground (arith, lookup-remove id j s.pod_physics_by_id, text_eq_iff id j)

  pub remove_pod_physics-kept :
      (id : Text) (s : Scene)
      → ((remove_pod_physics id s).mesh_by_id ≡ s.mesh_by_id)
        × ((remove_pod_physics id s).has_world ≡ s.has_world)
  unfolding remove_pod_physics
  remove_pod_physics-kept id s = ground arith

  pub remove_pod_entry-IsWithout :
      (r : Reading) (id : Text) (entry : Mesh) (s : Scene)
      → IsWithout id s (remove_pod_entry r id entry s)
  unfolding remove_pod_entry forget_pod recycle_pod_entry forget_targets
      clear_palm_contacts_by_slave_id
  remove_pod_entry-IsWithout r id entry s =
      let u = release_owner-IsUntouched r id s in
      let released = release_owner r id s in
      let b = record released { mesh_by_id = remove id released.mesh_by_id } in
      record {
        meshes = λ j.
            ap (λ m. has m j) (remove_pod_physics-kept id b).0
            ∙ has-remove id j released.mesh_by_id
            ∙ ap (λ m. not (text_eq id j) && has m j) u.meshes;
        world = (remove_pod_physics-kept id b).1 ∙ u.world;
        bodies =
            λ j. remove_pod_physics-has id j b ∙ ap (λ k. not (text_eq id j) && k) (u.bodies j);
      }
