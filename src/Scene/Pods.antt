-- ===== src/Scene/Pods.antt =====
-- apps/frontend-webxr/src/scene.ts: the bodies of the pods, their crushing and their removal, and the
-- contacts of open palms. What the engine is told to make or remove is left out.
pub mod Handles
pub mod Owned
pub mod Removal
use hackz_megalo.Base.{
  ℕ, Bool, true, false, not, ◌&&◌, ◌||◌, Option, none, some, List, [], ◌∷◌, ◌++◌, Text, text,
  if◌then◌else◌, eq_Text, eq_ℕ, lookup, insert, remove, keep_if, includes, ends_with, has, add_to,
  eq_Option, option_beq, text_eq,
}
use hackz_megalo.Types.{is_gone}
use hackz_megalo.Scene.{
  Numbers, Handedness, left, right, dynamic, kinematic, Vector, sets_translation,
  sets_next_translation, PodPhysics, Mesh, Hand, Scene, hand_of, put_hand,
}
use hackz_megalo.Scene.Meshes.{recycle_pod_entry}
use hackz_megalo.Scene.Grabs.{
  Reading, tell, halt, release_grab, clear_palm_contacts, prefix_of, named, update_physics,
}

module _ ⦃n : Numbers⦄ where
  -- `physicsEntry.crushProgress > 0 || physicsEntry.crushReported`
  abbrev pub is_crushed : PodPhysics → Bool
  is_crushed p = n.gt p.crush_progress (n.of 0) || p.crush_reported

  unfoldable pub is_pod_interactable : Text → Scene → Bool
  unfolding lookup
  is_pod_interactable id s = elim (lookup id s.mesh_by_id) [
    | none ↦ false
    | some mesh ↦
        if is_gone mesh.user_data.status
        then false
        else elim (lookup id s.pod_physics_by_id) [ none ↦ true | some p ↦ not (is_crushed p) ]
  ]

  -- `if (owner) { this.releaseGrab(owner); }`
  unfoldable pub release_owner : Reading → Text → Scene → Scene
  unfolding lookup
  release_owner r id s = elim (lookup id s.pod_grab_owner_by_id) [
    | none ↦ s
    | some owner ↦ release_grab r owner s
  ]

  -- `position` is where the engine has the body.
  abbrev pub crushing : Vector → PodPhysics → PodPhysics
  crushing position p =
      record (tell
        (halt kinematic ++ sets_translation position ∷ sets_next_translation position ∷ []) p) {
          kind = kinematic;
          crush_progress = n.epsilon;
          crush_reported = false;
          next_impulse_at = n.infinity;
        }

  unfoldable pub start_pod_crush : Reading → (ℕ → Vector) → Text → Scene → Scene
  unfolding lookup insert
  start_pod_crush r positions id s = elim (lookup id s.pod_physics_by_id) [
    | none ↦ s
    | some p ↦
        if is_pod_interactable id s
        then update_physics id (crushing (positions p.handle)) (release_owner r id s)
        else s
  ]

  abbrev pub new_physics : Reading → ℕ → PodPhysics
  new_physics r handle = record {
    handle = handle;
    kind = dynamic;
    calls = [];
    next_impulse_at = n.add (n.add r.now (n.of 900)) (n.mul r.random (n.of 1400));
    fall_reported = false;
    crush_progress = n.of 0;
    crush_reported = false;
    gust_boost_until = n.of 0;
  }

  -- `handle` is the collider that the engine makes.
  unfoldable pub create_pod_physics : Reading → (handle : ℕ) → Text → Scene → Scene
  unfolding insert lookup
  create_pod_physics r handle id s =
      if not s.has_world || has s.pod_physics_by_id id then s else record s {
        pod_physics_by_id = insert id (new_physics r handle) s.pod_physics_by_id;
        pod_id_by_collider_handle = insert handle id s.pod_id_by_collider_handle;
      }

  unfoldable pub remove_pod_physics : Text → Scene → Scene
  unfolding lookup remove
  remove_pod_physics id s = elim (lookup id s.pod_physics_by_id) [
    | none ↦ s
    | some p ↦ record s {
      pod_id_by_collider_handle = remove p.handle s.pod_id_by_collider_handle;
      pod_physics_by_id = remove id s.pod_physics_by_id;
    }
  ]

  unfoldable pub clear_palm_contacts_by_slave_id : Text → Scene → Scene
  unfolding keep_if ends_with
  clear_palm_contacts_by_slave_id id s = record s {
    active_palm_contacts =
        keep_if (λ (key : Text). not (ends_with key (text ":" ++ id))) s.active_palm_contacts;
  }

  abbrev pub without_candidate : Text → Option Hand → Option Hand
  without_candidate id none = none
  without_candidate id (some h) =
      if option_beq h.pinch_candidate_id (some id)
      then some (record h { pinch_candidate_id = none })
      else some h

  -- The loop over the two hands, and the target of the desktop.
  unfoldable pub forget_targets : Text → Scene → Scene
  forget_targets id s = record s {
    left_hand = without_candidate id s.left_hand;
    right_hand = without_candidate id s.right_hand;
    desktop_target_pod_id =
        if option_beq s.desktop_target_pod_id (some id) then none else s.desktop_target_pod_id;
  }

  -- The removal of a pod, up to what becomes of its mesh.
  unfoldable pub forget_pod : Reading → Text → Scene → Scene
  unfolding remove
  forget_pod r id s =
      let released = release_owner r id s in
      let removed =
        remove_pod_physics id (record released { mesh_by_id = remove id released.mesh_by_id }) in
      forget_targets id (
        clear_palm_contacts_by_slave_id id
          (record removed { pod_grab_owner_by_id = remove id removed.pod_grab_owner_by_id }))

  unfoldable pub remove_pod_entry : Reading → Text → (entry : Mesh) → Scene → Scene
  remove_pod_entry r id entry s = recycle_pod_entry entry (forget_pod r id s)

  -- The first contact with a pod crushes it.
  abbrev pub strike : Reading → (ℕ → Vector) → (key id : Text) → Scene → Scene
  strike r positions key id s =
      if includes s.active_palm_contacts key
      then s
      else start_pod_crush r positions id
          (record s { active_palm_contacts = s.active_palm_contacts ++ key ∷ [] })

  -- One round of the loop of `processOpenPalmContacts`, with the keys touched so far.
  abbrev pub touch :
      Reading → (ℕ → Vector) → Handedness → Text → List Text × Scene → List Text × Scene
  touch r positions hand id b = elim (lookup id (b.1).mesh_by_id) [
    | none ↦ b
    | some mesh ↦
        let key = prefix_of hand ++ id in
        if is_gone mesh.user_data.status then b else (add_to b.0 key, strike r positions key id b.1)
  ]

  unfoldable pub touch_all :
      Reading → (ℕ → Vector) → Handedness → List Text → List Text × Scene → List Text × Scene
  unfolding lookup includes
  touch_all r positions hand [] s = s
  touch_all r positions hand (id ∷ ids) s =
      touch_all r positions hand ids (touch r positions hand id s)

  -- `collectPodIntersections`: the pods of the colliders that the engine reports.
  unfoldable pub collect_pod_intersections : List ℕ → List Text → Scene → List Text
  unfolding lookup includes
  collect_pod_intersections [] touched s = touched
  collect_pod_intersections (handle ∷ handles) touched s =
      elim (if s.has_world then named (lookup handle s.pod_id_by_collider_handle) else none) [
        | none ↦ collect_pod_intersections handles touched s
        | some id ↦ collect_pod_intersections handles (add_to touched id) s
      ]

  abbrev pub palm_strikes : Option Hand → Option Hand
  palm_strikes none = none
  palm_strikes (some h) = elim (named h.grabbed_pod_id) [
    | none ↦ if not h.open_palm || h.gust_pose_active then none else some h
    | some id ↦ none
  ]

  -- `handles` are the colliders that the palm's collider meets.
  unfoldable pub process_open_palm_contacts :
      Reading → (ℕ → Vector) → (handles : List ℕ) → Handedness → Scene → Scene
  unfolding collect_pod_intersections
  process_open_palm_contacts r positions handles hand s = elim (palm_strikes (hand_of s hand)) [
    | none ↦ clear_palm_contacts hand [] s
    | some h ↦
        let b = touch_all r positions hand (collect_pod_intersections handles [] s) ([], s) in
        clear_palm_contacts hand b.0 b.1
  ]

  -- The first pod that thumb and index touch, before it the first that the middle finger touches too.
  abbrev pinched :
      (List Text → Text → Bool) → (thumb index middle : List Text) → Scene → Option Text
  pinched asks [] index middle s = none
  pinched asks (id ∷ ids) index middle s =
      if includes index id && is_pod_interactable id s && asks middle id
      then some id
      else pinched asks ids index middle s

  unfoldable pub find_pinch_candidate : (thumb index middle : List ℕ) → Scene → Option Text
  unfolding includes
  find_pinch_candidate thumb index middle s =
      let t = collect_pod_intersections thumb [] s in
      let i = collect_pod_intersections index [] s in
      let m = collect_pod_intersections middle [] s in
      elim (pinched (λ ids id. includes ids id) t i m s) [
        | none ↦ pinched (λ ids id. true) t i m s
        | some id ↦ some id
      ]
