-- ===== src/Scene/Pods/Owned.antt =====
-- What the methods on bodies and contacts do to the owners of the pods.
use hackz_megalo.Base.{
  ℕ, ◌≡◌, inl, inr, refl, sym, ap, ◌∙◌, subst, Option, none, some, List, [], ◌∷◌, Text,
  Option-cases, arith, lookup, remove, if_cases, ◌++◌, includes, add_to, eq_Text,
}
use hackz_megalo.Scene.Meshes.{recycle_pod_entry}
use hackz_megalo.Types.{is_gone}
use hackz_megalo.Scene.{Numbers, Handedness, Vector, Scene, PodPhysics, Mesh, Hand, hand_of}
use hackz_megalo.Scene.Grabs.{Reading, prefix_of, update_physics, clear_palm_contacts}
use hackz_megalo.Scene.Grabs.Owners.{grip_of, held_by, release_grab-Obeys, release_grab-dropped}
use hackz_megalo.Scene.Grabs.Grips.{IsOwned, Grip, dropped_owners}
use hackz_megalo.Scene.Pods.{
  release_owner, start_pod_crush, create_pod_physics, remove_pod_physics, remove_pod_entry,
  forget_pod, clear_palm_contacts_by_slave_id, forget_targets, process_open_palm_contacts,
  touch_all, without_candidate, touch, strike, crushing, palm_strikes, collect_pod_intersections,
  is_pod_interactable,
}
use hackz_megalo.Scene.Grabs.Holds.{Rule, Obeys, removed-Obeys, holds_of}
use hackz_megalo.Scene.Grabs.Steps.{LetsGo, dropped-LetsGo}

module _ ⦃n : Numbers⦄ where
  release_owner-Obeys :
      {a : Rule} (r : Reading) (id : Text) (s : Scene)
      → Obeys a (grip_of s)
      → Obeys a (grip_of (release_owner r id s))
  unfolding release_owner
  release_owner-Obeys {a} r id s w = elim (Option-cases (lookup id s.pod_grab_owner_by_id)) [
    | inl e ↦ rw (e, release_owner) w
    | inr (hand, e) ↦ rw (e, release_owner) (release_grab-Obeys r hand s w)
  ]

  update_physics-grip :
      (id : Text) (f : PodPhysics → PodPhysics) (s : Scene)
      → grip_of (update_physics id f s) ≡ grip_of s
  update_physics-grip id f s = ground arith

  pub start_pod_crush-Obeys :
      {a : Rule} (r : Reading) (positions : ℕ → Vector) (id : Text) (s : Scene)
      → Obeys a (grip_of s)
      → Obeys a (grip_of (start_pod_crush r positions id s))
  unfolding start_pod_crush
  start_pod_crush-Obeys {a} r positions id s w =
      elim (Option-cases (lookup id s.pod_physics_by_id)) [
        | inl e ↦ rw (e, start_pod_crush) w
        | inr (p, e) ↦
            rw (e, start_pod_crush)
              (if_cases (λ x. Obeys a (grip_of x)) (is_pod_interactable id s)
                (update_physics id (crushing (positions p.handle)) (release_owner r id s)) s
                (λ y.
                  rw (update_physics-grip id (crushing (positions p.handle)) (release_owner r id s))
                    (release_owner-Obeys r id s w))
                (λ y. w))
      ]

  release_owner-LetsGo :
      (r : Reading) (id : Text) (s : Scene)
      → IsOwned (grip_of s)
      → LetsGo id (holds_of (grip_of s)) (holds_of (grip_of (release_owner r id s)))
  unfolding release_owner
  release_owner-LetsGo r id s w = elim (Option-cases (lookup id s.pod_grab_owner_by_id)) [
    | inl e ↦ rw (e, release_owner) (λ h. inl refl)
    | inr (hand, e) ↦
        rw (e, release_owner)
          (subst (λ (g : Grip). LetsGo id (holds_of (grip_of s)) (holds_of g))
            (sym (release_grab-dropped r hand s)) (dropped-LetsGo hand id (grip_of s) w e))
  ]

  -- A pod that is crushed is let go, and no other.
  pub start_pod_crush-LetsGo :
      (r : Reading) (positions : ℕ → Vector) (id : Text) (s : Scene)
      → IsOwned (grip_of s)
      → LetsGo id (holds_of (grip_of s)) (holds_of (grip_of (start_pod_crush r positions id s)))
  unfolding start_pod_crush
  start_pod_crush-LetsGo r positions id s w = elim (Option-cases (lookup id s.pod_physics_by_id)) [
    | inl e ↦ rw (e, start_pod_crush) (λ h. inl refl)
    | inr (p, e) ↦
        rw (e, start_pod_crush)
          (if_cases (λ x. LetsGo id (holds_of (grip_of s)) (holds_of (grip_of x)))
            (is_pod_interactable id s)
            (update_physics id (crushing (positions p.handle)) (release_owner r id s)) s
            (λ y.
              subst (λ (g : Grip). LetsGo id (holds_of (grip_of s)) (holds_of g))
                (sym
                  (update_physics-grip id (crushing (positions p.handle)) (release_owner r id s)))
                (release_owner-LetsGo r id s w))
            (λ y h. inl refl))
  ]

  pub create_pod_physics-grip :
      (r : Reading) (handle : ℕ) (id : Text) (s : Scene)
      → grip_of (create_pod_physics r handle id s) ≡ grip_of s
  unfolding create_pod_physics
  create_pod_physics-grip r handle id s = ground arith

  pub remove_pod_physics-grip :
      (id : Text) (s : Scene) → grip_of (remove_pod_physics id s) ≡ grip_of s
  unfolding remove_pod_physics
  remove_pod_physics-grip id s = ground arith

  strike-Obeys :
      {a : Rule} (r : Reading) (positions : ℕ → Vector) (key id : Text) (s : Scene)
      → Obeys a (grip_of s)
      → Obeys a (grip_of (strike r positions key id s))
  strike-Obeys {a} r positions key id s w =
      if_cases (λ x. Obeys a (grip_of x)) (includes s.active_palm_contacts key) s
        (start_pod_crush r positions id
          (record s { active_palm_contacts = s.active_palm_contacts ++ key ∷ [] }))
        (λ y. w)
        (λ y.
          start_pod_crush-Obeys r positions id
            (record s { active_palm_contacts = s.active_palm_contacts ++ key ∷ [] }) w)

  touch-Obeys :
      {a : Rule} (r : Reading) (positions : ℕ → Vector) (hand : Handedness) (id : Text)
      (b : List Text × Scene)
      → Obeys a (grip_of b.1)
      → Obeys a (grip_of (touch r positions hand id b).1)
  touch-Obeys {a} r positions hand id b w = elim (Option-cases (lookup id (b.1).mesh_by_id)) [
    | inl e ↦ rw (e, touch) w
    | inr (pod, e) ↦
        rw (e, touch)
          (if_cases (λ (x : List Text × Scene). Obeys a (grip_of x.1))
            (is_gone pod.user_data.status) b
            (add_to b.0 (prefix_of hand ++ id), strike r positions (prefix_of hand ++ id) id b.1)
            (λ y. w) (λ y. strike-Obeys r positions (prefix_of hand ++ id) id b.1 w))
  ]

  touch_all-Obeys :
      {a : Rule} (r : Reading) (positions : ℕ → Vector) (hand : Handedness) (ids : List Text)
      (b : List Text × Scene)
      → Obeys a (grip_of b.1)
      → Obeys a (grip_of (touch_all r positions hand ids b).1)
  unfolding touch_all
  touch_all-Obeys {a} r positions hand [] b w = w
  touch_all-Obeys {a} r positions hand (id ∷ ids) b w =
      touch_all-Obeys r positions hand ids (touch r positions hand id b)
        (touch-Obeys r positions hand id b w)

  freed_owner :
      (r : Reading) (id : Text) (s : Scene)
      → IsOwned (grip_of s)
      → lookup id (release_owner r id s).pod_grab_owner_by_id ≡ none
  unfolding release_owner
  freed_owner r id s w = elim (Option-cases (lookup id s.pod_grab_owner_by_id)) [
    | inl e ↦ rw (e, release_owner) e
    | inr (hand, e) ↦
        rw (e, release_owner)
          (ap (λ (g : Grip). lookup id g.owners) (release_grab-dropped r hand s)
            ∙ dropped_owners hand (grip_of s) id w e)
  ]

  without-held : (id : Text) (o : Option Hand) → held_by (without_candidate id o) ≡ held_by o
  without-held id none = refl
  without-held id (some h) = ground arith

  forgotten-grip :
      (id : Text) (s : Scene)
      → grip_of (forget_targets id (clear_palm_contacts_by_slave_id id s)) ≡ grip_of s
  unfolding forget_targets clear_palm_contacts_by_slave_id
  forgotten-grip id s = rw (without-held id s.left_hand, without-held id s.right_hand) refl

  pub remove_pod_entry-Obeys :
      {a : Rule} (r : Reading) (id : Text) (entry : Mesh) (s : Scene)
      → Obeys a (grip_of s)
      → Obeys a (grip_of (remove_pod_entry r id entry s))
  unfolding remove_pod_entry forget_pod recycle_pod_entry
  remove_pod_entry-Obeys {a} r id entry s w =
      let released = release_owner r id s in
      let b = record released { mesh_by_id = remove id released.mesh_by_id } in
      rw (forgotten-grip id _) (
        subst (λ (g : Grip). Obeys a (record g { owners = remove id g.owners }))
          (sym (remove_pod_physics-grip id b))
          (removed-Obeys (grip_of released) id (release_owner-Obeys r id s w)
            (freed_owner r id s w.owned)))

  pub process-Obeys :
      {a : Rule} (r : Reading) (positions : ℕ → Vector) (handles : List ℕ) (hand : Handedness)
      (s : Scene)
      → Obeys a (grip_of s)
      → Obeys a (grip_of (process_open_palm_contacts r positions handles hand s))
  unfolding process_open_palm_contacts clear_palm_contacts
  process-Obeys {a} r positions handles hand s w =
      elim (Option-cases (palm_strikes (hand_of s hand))) [
        | inl e ↦ rw (e, process_open_palm_contacts) w
        | inr (h, e) ↦
            rw (e, process_open_palm_contacts)
              (touch_all-Obeys r positions hand (collect_pod_intersections handles [] s) ([], s) w)
      ]
