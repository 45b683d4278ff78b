-- ===== src/Scene/Xr/Sources.antt =====
-- apps/frontend-webxr/src/scene.ts: the sources of a session, the first loop of `updateWristHud`.
use hackz_megalo.Base.{
  ℕ, Bool, true, false, not, ◌&&◌, ◌||◌, Option, none, some, List, [], ◌∷◌, if◌then◌else◌,
}
use hackz_megalo.Scene.{Numbers, Handedness, left, right, Vector, distance, frac, Scene}
use hackz_megalo.Scene.Grabs.{Reading, same_hand}
use hackz_megalo.Scene.Gusts.Triggers.{Bearings}
use hackz_megalo.Scene.Hands.{HandReading, pinch_threshold}
use hackz_megalo.Scene.Hands.Sampling.{Tracking, update_hand_physics_from_joints}
use hackz_megalo.Scene.Xr.{Xr, scene_of, with_scene}
use hackz_megalo.Scene.Xr.Moves.{Pose}

pub data Part : Type 0 where
  thumb index middle palm : Part

module _ ⦃n : Numbers⦄ where
  -- An input source of the session.
  pub record Source : Type 0 where
    pub has_hand : Bool
    pub handedness : Option Handedness
    pub joints : HandReading
    pub reading : Reading

  -- What a frame in XR reads. `is_ready` is whether there are a session, a frame, a space and a way to
  -- get joints; `readings` are those of the calls that clear or move a hand's pod, and `colliders` those
  -- that a collider of a hand meets.
  pub record XrFrame : Type 0 where
    pub is_ready : Bool
    pub features : Bool
    pub creates : Bool
    pub anchor_pose : ℕ → Option Pose
    pub sources : List Source
    pub disconnect_button : Vector
    pub move_button : Vector
    pub to_hud : Vector → Vector
    pub facing : Vector → Vector → n.Quaternion
    pub viewer : Vector
    pub colliders : Part → Handedness → List ℕ
    pub pointing_places : ℕ → Vector
    pub palm_places : Handedness → ℕ → Vector
    pub clearing : Handedness → Reading
    pub grabbing : Handedness → Reading
    pub striking : Handedness → Reading
    pub releasing : Reading
    pub bearings : Handedness → Bearings
    pub gust_handle : Handedness → ℕ
    pub now : n.F

  -- What the loop over the sources finds.
  pub record Seen : Type 0 where
    pub wrist : Bool
    pub disconnect : Bool
    pub move : Bool
    pub pinch : Bool
    pub left_tracked : Bool
    pub right_tracked : Bool

  abbrev pub nothing_seen : Seen
  nothing_seen = record {
    wrist = false;
    disconnect = false;
    move = false;
    pinch = false;
    left_tracked = false;
    right_tracked = false;
  }

  abbrev pub tracks : Seen → Handedness → Bool
  tracks e left = e.left_tracked
  tracks e right = e.right_tracked

  abbrev pub see_hand : Handedness → Seen → Seen
  see_hand left e = record e { left_tracked = true }
  see_hand right e = record e { right_tracked = true }

  -- The finger is at a button, the fingers touch.
  abbrev pub see_fingers : XrFrame → Tracking → Seen → Seen
  see_fingers f t e = elim t.index_world [
    | none ↦ e
    | some i ↦ elim t.thumb_world [
      | none ↦ e
      | some th ↦ record e {
        pinch = e.pinch || n.gt pinch_threshold (distance i th);
        disconnect = e.disconnect || n.gt (frac 4 100) (distance i f.disconnect_button);
        move = e.move || n.gt (frac 4 100) (distance i f.move_button);
      }
    ]
  ]

  abbrev pub see_wrist : Handedness → Tracking → Seen → Seen
  see_wrist hand t e = record e { wrist = e.wrist || same_hand hand left && t.has_wrist }

  abbrev pub show_wrist : Handedness → Tracking → Xr → Xr
  show_wrist hand t x = record x {
    wrist_visible = x.wrist_visible || same_hand hand left && t.has_wrist;
  }

  abbrev pub see_tracking : XrFrame → Handedness → Tracking × Scene → Seen × Xr → Seen × Xr
  see_tracking f hand b seen = (
    see_fingers f b.0 (see_wrist hand b.0 (see_hand hand seen.0)),
    show_wrist hand b.0 (with_scene b.1 seen.1),
  )

  abbrev pub source_hand : Source → Option Handedness
  source_hand i = if not i.has_hand then none else i.handedness

  unfoldable pub see_source : XrFrame → Source → Seen × Xr → Seen × Xr
  unfolding update_hand_physics_from_joints
  see_source f i seen = elim (source_hand i) [
    | none ↦ seen
    | some hand ↦
        see_tracking f hand
          (update_hand_physics_from_joints i.joints i.reading hand (scene_of seen.1)) seen
  ]

  unfoldable pub see_sources : XrFrame → List Source → Seen × Xr → Seen × Xr
  see_sources f [] seen = seen
  see_sources f (i ∷ is) seen = see_sources f is (see_source f i seen)
