-- ===== src/Scene/Hands/Sampling.antt =====
-- apps/frontend-webxr/src/scene.ts: a hand's state from its joints, `updateHandPhysicsFromJoints` and
-- `ensureHandPhysics`.
use hackz_megalo.Base.{
  Bool, true, false, Option, none, some, List, [], ◌∷◌, ◌++◌, if◌then◌else◌, eq_Text,
}
use hackz_megalo.Scene.{
  Numbers, Handedness, Vector, origin, scaled, minus, dot, frac, Call, sets_translation,
  sets_linvel, sets_angvel, Hand, Scene, hand_of, put_hand,
}
use hackz_megalo.Scene.Grabs.{Reading, clear_hand_state}
use hackz_megalo.Scene.Gusts.Triggers.{is_hand_in_gust_pose}
use hackz_megalo.Scene.Hands.{
  HandReading, Skeleton, skeleton_of, is_open_palm, is_pointing, is_pinching, palm_center,
  pinch_midpoint, hand_up, palm_lateral, palm_normal, grip_rotation,
}

module _ ⦃n : Numbers⦄ where
  -- `handPhysics.lastPalmCenterWorld && handPhysics.lastPalmSampleAt > 0`
  abbrev pub last_sample : Hand → Option Vector
  last_sample h = if n.gt h.last_palm_sample_at (n.of 0) then h.last_palm_center_world else none

  abbrev pub elapsed_seconds : n.F → Hand → n.F
  elapsed_seconds now h = n.max (frac 1 120) (n.div (n.sub now h.last_palm_sample_at) (n.of 1000))

  abbrev pub palm_velocity : n.F → Skeleton → Hand → Option Vector
  palm_velocity now k h = elim (last_sample h) [
    | none ↦ none
    | some last ↦
        some (scaled (minus (palm_center k) last) (n.div (n.of 1) (elapsed_seconds now h)))
  ]

  abbrev pub sweep : Skeleton → Option Vector → n.F
  sweep k none = n.of 0
  sweep k (some v) = n.abs (dot v (palm_lateral k))

  -- `setHandBodyPosition`
  abbrev pub placed : Vector → List Call
  placed point = sets_translation point ∷ sets_linvel origin ∷ sets_angvel origin ∷ []

  -- The fields but for the pose of a gust, which reads the others.
  abbrev pub posed : HandReading → Skeleton → Hand → Hand
  posed r k h =
      let to_board = r.bearings.to_board in
      let velocity = palm_velocity r.now k h in
      record h {
        open_palm = is_open_palm k;
        pointing_active = is_pointing k;
        bodies = record {
          palm = h.bodies.palm ++ placed (to_board (palm_center k));
          thumb = h.bodies.thumb ++ placed (to_board k.thumb);
          index = h.bodies.index ++ placed (to_board k.index);
          middle = h.bodies.middle ++ placed (to_board k.middle);
        };
        pinch_active = is_pinching k;
        pinch_midpoint_local = if is_pinching k then some (to_board (pinch_midpoint k)) else none;
        pinch_midpoint_world = if is_pinching k then some (pinch_midpoint k) else none;
        pinch_candidate_id = none;
        fingertip_target_id = none;
        index_tip_local = some (to_board k.index);
        palm_center_world = some (palm_center k);
        palm_normal_world = some (palm_normal r);
        palm_lateral_world = some (palm_lateral k);
        hand_up_world = some (hand_up k);
        palm_velocity_world = velocity;
        last_palm_center_world = some (palm_center k);
        last_palm_sample_at = r.now;
        sweep_speed = sweep k velocity;
        grip_rotation_local = some (r.rotation_to_board (grip_rotation r k));
      }

  unfoldable pub sampled : HandReading → Skeleton → Hand → Hand
  unfolding is_hand_in_gust_pose
  sampled r k h =
      let p = posed r k h in record p { gust_pose_active = is_hand_in_gust_pose r.bearings p }

  abbrev pub new_hand : Hand
  new_hand = record {
    bodies = record { palm = []; thumb = []; index = []; middle = [] };
    open_palm = false;
    pointing_active = false;
    pinch_active = false;
    pinch_midpoint_local = none;
    pinch_midpoint_world = none;
    pinch_candidate_id = none;
    fingertip_target_id = none;
    grabbed_pod_id = none;
    index_tip_local = none;
    last_grab_point_local = none;
    last_grab_at = n.of 0;
    palm_center_world = none;
    palm_normal_world = none;
    palm_lateral_world = none;
    hand_up_world = none;
    palm_velocity_world = none;
    last_palm_center_world = none;
    last_palm_sample_at = n.of 0;
    sweep_speed = n.of 0;
    gust_pose_active = false;
    gust_motion_latch = false;
    gust_cooldown_until = n.of 0;
    grip_rotation_local = none;
    grab_rotation_offset = none;
  }

  abbrev pub ensure_hand_physics : Handedness → Scene → Option Hand
  ensure_hand_physics hand s = elim (hand_of s hand) [
    | none ↦ if s.has_world then some new_hand else none
    | some h ↦ some h
  ]

  -- `HandJointTracking`
  pub record Tracking : Type 0 where
    pub has_wrist : Bool
    pub thumb_world : Option Vector
    pub index_world : Option Vector

  abbrev pub lost : Tracking
  lost = record { has_wrist = false; thumb_world = none; index_world = none }

  abbrev pub tracked : Skeleton → Tracking
  tracked k = record { has_wrist = true; thumb_world = some k.thumb; index_world = some k.index }

  unfoldable pub update_hand_physics_from_joints :
      HandReading → Reading → Handedness → Scene → Tracking × Scene
  unfolding skeleton_of sampled clear_hand_state
  update_hand_physics_from_joints r reading hand s = elim (skeleton_of r.pose) [
    | none ↦ (lost, clear_hand_state reading hand true s)
    | some k ↦ elim (ensure_hand_physics hand s) [
      | none ↦ (tracked k, s)
      | some h ↦ (tracked k, put_hand hand (sampled r k h) s)
    ]
  ]
