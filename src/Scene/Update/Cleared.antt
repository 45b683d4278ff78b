-- ===== src/Scene/Update/Cleared.antt =====
-- apps/frontend-webxr/src/scene.ts: what is left after `reset`.
use hackz_megalo.Base.{
  true, false, not, ◌&&◌, ◌≡◌, refl, ap, ◌∙◌, List, [], ◌∷◌, none, Text, Option-cases, inl, inr,
  includes, has, eq_Text, arith, keys, includes-keys, keep_if,
}
use hackz_megalo.Scene.{Numbers, Handedness, left, right, Hand, Gust, Scene, hand_of, put_hand}
use hackz_megalo.Scene.Grabs.{
  Reading, clear_hand, clear_hand_state, clear_palm_contacts, release_grab, cleared,
}
use hackz_megalo.Scene.Grabs.Grips.{IsOwned}
use hackz_megalo.Scene.Grabs.Owners.{grip_of, held_by}
use hackz_megalo.Scene.Pods.{remove_pod_physics}
use hackz_megalo.Scene.Gusts.{clear_gusts, clear_from, remove_gust}
use hackz_megalo.Scene.Gusts.Pool.{clear_gusts-none}
use hackz_megalo.Scene.Update.{recycle_all, remove_all_physics, calmed, reset}
use hackz_megalo.Scene.Update.Losses.{
  release_grab-IsUntouched, remove_pod_physics-has, remove_pod_physics-kept,
}
use hackz_megalo.Scene.Update.Owned.{reset-empties}

module _ ⦃n : Numbers⦄ where
  -- No pod is on the board, no gust blows and no palm is in contact.
  pub record IsBare (s : Scene) : Type 0 where
    pub meshes : s.mesh_by_id ≡ []
    pub bodies : (id : Text) → has s.pod_physics_by_id id ≡ false
    pub gusts : s.gusts ≡ []
    pub contacts : s.active_palm_contacts ≡ []

  put_hand-IsBare :
      (hand : Handedness) (h : Hand) (s : Scene) → IsBare s → IsBare (put_hand hand h s)
  put_hand-IsBare left h s w = record {
    meshes = w.meshes;
    bodies = w.bodies;
    gusts = w.gusts;
    contacts = w.contacts;
  }
  put_hand-IsBare right h s w = record {
    meshes = w.meshes;
    bodies = w.bodies;
    gusts = w.gusts;
    contacts = w.contacts;
  }

  release_grab-IsBare :
      (r : Reading) (hand : Handedness) (s : Scene) → IsBare s → IsBare (release_grab r hand s)
  release_grab-IsBare r hand s w =
      let u = release_grab-IsUntouched r hand s in
      record {
        meshes = u.meshes ∙ w.meshes;
        bodies = λ id. u.bodies id ∙ w.bodies id;
        gusts = u.gusts ∙ w.gusts;
        contacts = u.contacts ∙ w.contacts;
      }

  clear_palm_contacts-IsBare :
      (hand : Handedness) (s : Scene) → IsBare s → IsBare (clear_palm_contacts hand [] s)
  unfolding clear_palm_contacts keep_if
  clear_palm_contacts-IsBare hand s w = record {
    meshes = w.meshes;
    bodies = w.bodies;
    gusts = w.gusts;
    contacts = rw w.contacts refl;
  }

  clear_hand-IsBare : (hand : Handedness) (s : Scene) → IsBare s → IsBare (clear_hand hand s)
  clear_hand-IsBare hand s w = elim (Option-cases (hand_of s hand)) [
    | inl e ↦ rw (clear_hand, e) w
    | inr (h, e) ↦ rw (clear_hand, e) (put_hand-IsBare hand (cleared h) s w)
  ]

  clear_hand_state-IsBare :
      (r : Reading) (hand : Handedness) (s : Scene)
      → IsBare s
      → IsBare (clear_hand_state r hand true s)
  unfolding clear_hand_state
  clear_hand_state-IsBare r hand s w =
      clear_palm_contacts-IsBare hand (clear_hand hand (release_grab r hand s))
        (clear_hand-IsBare hand (release_grab r hand s) (release_grab-IsBare r hand s w))

  remove_all_physics-has :
      (ids : List Text) (s : Scene) (j : Text)
      → has (remove_all_physics ids s).pod_physics_by_id j
        ≡ (not (includes ids j) && has s.pod_physics_by_id j)
  unfolding remove_all_physics includes
  remove_all_physics-has [] s j = refl
  remove_all_physics-has (id ∷ ids) s j =
      remove_all_physics-has ids (remove_pod_physics id s) j
      ∙ ground (arith, remove_pod_physics-has id j s)

  remove_all_physics-meshes :
      (ids : List Text) (s : Scene) → (remove_all_physics ids s).mesh_by_id ≡ s.mesh_by_id
  unfolding remove_all_physics
  remove_all_physics-meshes [] s = refl
  remove_all_physics-meshes (id ∷ ids) s =
      remove_all_physics-meshes ids (remove_pod_physics id s) ∙ (remove_pod_physics-kept id s).0

  clear_from-pods :
      (gs : List Gust) (s : Scene)
      → ((clear_from gs s).mesh_by_id ≡ s.mesh_by_id)
        × ((clear_from gs s).pod_physics_by_id ≡ s.pod_physics_by_id)
  unfolding clear_from remove_gust
  clear_from-pods [] s = (refl, refl)
  clear_from-pods (g ∷ gs) s = clear_from-pods gs s

  calmed-IsBare : (s : Scene) → IsBare (calmed s)
  unfolding calmed clear_gusts
  calmed-IsBare s =
      let bare = record (recycle_all s.mesh_by_id s) { mesh_by_id = [] } in
      let ids = keys bare.pod_physics_by_id in
      let b = remove_all_physics ids bare in
      record {
        meshes = (clear_from-pods b.gusts b).0 ∙ remove_all_physics-meshes ids bare;
        bodies = λ id.
            ap (λ m. has m id) (clear_from-pods b.gusts b).1
            ∙ remove_all_physics-has ids bare id
            ∙ ground (arith, includes-keys bare.pod_physics_by_id id);
        gusts = clear_gusts-none b;
        contacts = refl;
      }

  -- After `reset`, no pod has a mesh or a body, no gust blows, no palm is in contact with a pod, no pod
  -- has an owner and neither hand holds one, where before it the owners and the hands told the same.
  pub reset-clears :
      (r : Reading) (s : Scene)
      → IsOwned (grip_of s)
      → IsBare (reset r s)
        × ((reset r s).pod_grab_owner_by_id ≡ [])
        × (held_by (reset r s).left_hand ≡ none)
        × (held_by (reset r s).right_hand ≡ none)
  unfolding reset
  reset-clears r s w =
      let u =
        clear_hand_state-IsBare r right _ (clear_hand_state-IsBare r left _ (calmed-IsBare s)) in
      let e = reset-empties r s w in
      (
        record { meshes = u.meshes; bodies = u.bodies; gusts = u.gusts; contacts = u.contacts },
        refl,
        e.0,
        e.1,
      )
