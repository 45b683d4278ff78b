-- ===== src/Scene/Grabs.antt =====
-- apps/frontend-webxr/src/scene.ts: `updateGrabInteraction`, `releaseGrab`, `clearHandState`.
pub mod Grips
pub mod Holds
pub mod Owners
pub mod Steps
use hackz_megalo.Base.{
  ℕ, Bool, true, false, not, ◌&&◌, ◌||◌, Option, none, some, List, [], ◌∷◌, ◌++◌, Text, text,
  if◌then◌else◌, eq_Text, lookup, insert, remove, truthy, keep_if, includes, starts_with,
}
use hackz_megalo.Scene.{
  Numbers, Handedness, left, right, BodyType, dynamic, kinematic, Vector, origin, Call, wakes,
  turns, sets_linvel, sets_angvel, sets_translation, sets_next_translation, sets_rotation,
  sets_next_rotation, PodPhysics, HandBodies, Hand, Scene, hand_of, put_hand,
}

abbrev pub same_hand : Handedness → Handedness → Bool
same_hand left left = true
same_hand right right = true
same_hand _ _ = false

-- `currentOwner && currentOwner !== handedness`
abbrev pub is_others : Handedness → Option Handedness → Bool
is_others hand none = false
is_others hand (some owner) = not (same_hand owner hand)

-- An id where JavaScript takes it for true.
abbrev pub named : Option Text → Option Text
named none = none
named (some []) = none
named (some (c ∷ cs)) = some (c ∷ cs)

module _ ⦃n : Numbers⦄ where
  -- What is read from outside: `performance.now()`, `Math.random()`, and the rotation of a body.
  pub record Reading : Type 0 where
    pub now : n.F
    pub random : n.F
    pub rotation : ℕ → n.Quaternion

  abbrev pub tell : List Call → PodPhysics → PodPhysics
  tell cs p = record p { calls = p.calls ++ cs }

  abbrev pub halt : BodyType → List Call
  halt t = wakes ∷ turns t ∷ sets_linvel origin ∷ sets_angvel origin ∷ []

  abbrev pub freed : Reading → PodPhysics → PodPhysics
  freed r p = record (tell (halt dynamic) p) {
    kind = dynamic;
    next_impulse_at = n.add (n.add r.now (n.of 1200)) (n.mul r.random (n.of 1800));
  }

  abbrev pub update_physics : Text → (PodPhysics → PodPhysics) → Scene → Scene
  update_physics id f s = elim (lookup id s.pod_physics_by_id) [
    | none ↦ s
    | some p ↦ record s { pod_physics_by_id = insert id (f p) s.pod_physics_by_id }
  ]

  abbrev pub empty_grab : Hand → Hand
  empty_grab h = record h {
    grabbed_pod_id = none;
    last_grab_point_local = none;
    last_grab_at = n.of 0;
    grab_rotation_offset = none;
  }

  abbrev let_go : Reading → Handedness → Hand → Text → Scene → Scene
  let_go r hand h id s = put_hand hand (empty_grab h) (
      let b = update_physics id (freed r) s in
      record b { pod_grab_owner_by_id = remove id b.pod_grab_owner_by_id })

  unfoldable pub release_grab : Reading → Handedness → Scene → Scene
  unfolding lookup insert remove
  release_grab r hand s = elim (hand_of s hand) [
    | none ↦ s
    | some h ↦ elim (named h.grabbed_pod_id) [ none ↦ s | some id ↦ let_go r hand h id s ]
  ]

  -- `clearPalmContacts(handedness, keep)`
  abbrev pub prefix_of : Handedness → Text
  prefix_of left = text "left:"
  prefix_of right = text "right:"

  unfoldable pub clear_palm_contacts : Handedness → List Text → Scene → Scene
  unfolding keep_if includes starts_with
  clear_palm_contacts hand keep s = record s {
    active_palm_contacts =
        keep_if (λ (key : Text). not (starts_with key (prefix_of hand)) || includes keep key)
          s.active_palm_contacts;
  }

  abbrev parked : List Call
  parked =
      sets_translation (record { x = n.of 0; y = n.neg (n.of 9); z = n.of 0 })
      ∷ sets_linvel origin
      ∷ sets_angvel origin
      ∷ []

  -- The fields that `clearHandState` sets, past its release.
  abbrev pub cleared : Hand → Hand
  cleared h = record {
    bodies = record {
      palm = h.bodies.palm ++ parked;
      thumb = h.bodies.thumb ++ parked;
      index = h.bodies.index ++ parked;
      middle = h.bodies.middle ++ parked;
    };
    open_palm = false;
    pointing_active = false;
    pinch_active = false;
    pinch_midpoint_local = none;
    pinch_midpoint_world = none;
    pinch_candidate_id = none;
    fingertip_target_id = none;
    grabbed_pod_id = none;
    index_tip_local = none;
    last_grab_point_local = none;
    last_grab_at = n.of 0;
    palm_center_world = none;
    palm_normal_world = none;
    palm_lateral_world = none;
    hand_up_world = none;
    palm_velocity_world = none;
    last_palm_center_world = none;
    last_palm_sample_at = n.of 0;
    sweep_speed = n.of 0;
    gust_pose_active = false;
    gust_motion_latch = false;
    gust_cooldown_until = n.of 0;
    grip_rotation_local = none;
    grab_rotation_offset = none;
  }

  abbrev pub clear_hand : Handedness → Scene → Scene
  clear_hand hand s = elim (hand_of s hand) [ none ↦ s | some h ↦ put_hand hand (cleared h) s ]

  unfoldable pub clear_hand_state : Reading → Handedness → Bool → Scene → Scene
  clear_hand_state r hand clear_contacts s =
      let b = clear_hand hand (release_grab r hand s) in
      if clear_contacts then clear_palm_contacts hand [] b else b

  abbrev told_next : Option Vector → List Call
  told_next none = []
  told_next (some v) = sets_next_translation v ∷ []

  -- While the pinch is lost for a moment, the pod is held where it is.
  abbrev pub hold : Reading → Hand → Text → PodPhysics → Scene → Scene
  hold r h id p s = record s {
    pod_physics_by_id =
        insert id
          (tell (told_next h.last_grab_point_local ++ sets_next_rotation (r.rotation p.handle) ∷ [])
            p)
          s.pod_physics_by_id;
  }

  abbrev dragged_rotation : Hand → List Call
  dragged_rotation h = elim h.grip_rotation_local [
    | none ↦ []
    | some q ↦
        sets_next_rotation (elim h.grab_rotation_offset [ none ↦ q | some o ↦ n.multiply q o ]) ∷ []
  ]

  abbrev pub drag : Reading → Handedness → Hand → Text → PodPhysics → Vector → Scene → Scene
  drag r hand h id p target s =
      put_hand hand (record h { last_grab_point_local = some target; last_grab_at = r.now })
        (record s {
          pod_physics_by_id =
              insert id (tell (wakes ∷ sets_next_translation target ∷ dragged_rotation h) p)
                s.pod_physics_by_id;
        })

  -- The pinch's midpoint, while the hand pinches.
  abbrev pub pinched_at : Hand → Option Vector
  pinched_at h = if h.pinch_active then h.pinch_midpoint_local else none

  abbrev pub keep_hold : Reading → Handedness → Hand → Text → Scene → Scene
  keep_hold r hand h id s = elim (lookup id s.pod_physics_by_id) [
    | none ↦ release_grab r hand s
    | some p ↦ elim (pinched_at h) [
      | none ↦
          if n.gt (n.sub r.now h.last_grab_at) (n.of 180)
          then release_grab r hand s
          else hold r h id p s
      | some target ↦ drag r hand h id p target s
    ]
  ]

  -- The offset that keeps the pod's rotation under the hand's.
  abbrev offset_of : Reading → Hand → PodPhysics → Option n.Quaternion
  offset_of r h p = elim h.grip_rotation_local [
    | none ↦ none
    | some q ↦ some (n.multiply (n.invert q) (r.rotation p.handle))
  ]

  abbrev taken_rotation : Reading → Hand → PodPhysics → List Call
  taken_rotation r h p = elim h.grip_rotation_local [
    | none ↦ []
    | some q ↦
        let turned = n.multiply q (n.multiply (n.invert q) (r.rotation p.handle)) in
        sets_rotation turned ∷ sets_next_rotation turned ∷ []
  ]

  abbrev pub take_hold : Reading → Handedness → Hand → Text → PodPhysics → Vector → Scene → Scene
  take_hold r hand h id p target s =
      put_hand hand
        (record h {
          grab_rotation_offset = offset_of r h p;
          grabbed_pod_id = some id;
          last_grab_point_local = some target;
          last_grab_at = r.now;
        })
        (record s {
          pod_physics_by_id =
              insert id
                (record (tell
                  (halt kinematic
                    ++ sets_translation target
                      ∷ sets_next_translation target
                      ∷ taken_rotation r h p)
                  p) { kind = kinematic })
                s.pod_physics_by_id;
          pod_grab_owner_by_id = insert id hand s.pod_grab_owner_by_id;
        })

  abbrev pub try_to_grab : Reading → Handedness → Hand → Scene → Scene
  try_to_grab r hand h s = elim (pinched_at h) [
    | none ↦ s
    | some target ↦ elim (named h.pinch_candidate_id) [
      | none ↦ s
      | some id ↦
          if is_others hand (lookup id s.pod_grab_owner_by_id)
          then s
          else elim (lookup id s.pod_physics_by_id) [
            | none ↦ s
            | some p ↦ take_hold r hand h id p target s
          ]
    ]
  ]

  abbrev pub slides : Handedness → Scene → Bool
  slides hand s = elim s.hud_slider_active_hand [ none ↦ false | some h ↦ same_hand h hand ]

  abbrev pub grab_or_keep : Reading → Handedness → Hand → Scene → Scene
  grab_or_keep r hand h s = elim (named h.grabbed_pod_id) [
    | none ↦ try_to_grab r hand h s
    | some id ↦ keep_hold r hand h id s
  ]

  unfoldable pub update_grab_interaction : Reading → Handedness → Scene → Scene
  unfolding lookup insert
  update_grab_interaction r hand s = elim (hand_of s hand) [
    | none ↦ s
    | some h ↦ if slides hand s then release_grab r hand s else grab_or_keep r hand h s
  ]
