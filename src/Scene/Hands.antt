-- ===== src/Scene/Hands.antt =====
-- apps/frontend-webxr/src/scene.ts: the joints of a hand and what `updateHandPhysicsFromJoints` tells
-- from them.
pub mod Sampling
pub mod Pointing
pub mod Owned
pub mod Aims
pub mod Nearest
use hackz_megalo.Base.{
  ℕ, Bool, true, false, not, ◌&&◌, Option, none, some, List, [], ◌∷◌, ◌++◌, Text, if◌then◌else◌,
  ◌>>=◌, lookup, eq_Text,
}
use hackz_megalo.Scene.{
  Numbers, Handedness, Vector, origin, add_scaled, scaled, length_sq, plus, minus, cross, dot,
  normalized, distance, frac, Call, sets_translation, sets_linvel, sets_angvel, HandBodies, Hand,
  Scene, hand_of, put_hand,
}
use hackz_megalo.Scene.Grabs.{Reading, clear_hand_state}
use hackz_megalo.Scene.Pods.{is_pod_interactable}
use hackz_megalo.Scene.Gusts.{is_flat}
use hackz_megalo.Scene.Gusts.Triggers.{Bearings, is_hand_in_gust_pose}

-- The joints that the scene asks for.
pub data Joint : Type 0 where
  wrist index_tip middle_tip ring_tip pinky_tip thumb_tip : Joint
  index_knuckle middle_knuckle ring_knuckle pinky_knuckle : Joint

module _ ⦃n : Numbers⦄ where
  -- What is read of a hand: where the browser has each joint and how the wrist is turned; what turns a
  -- vector, and makes a rotation of three axes and takes one to the board.
  pub record HandReading : Type 0 where
    pub now : n.F
    pub pose : Joint → Option Vector
    pub wrist_rotation : n.Quaternion
    pub turned : n.Quaternion → Vector → Vector
    pub of_basis : (x y z : Vector) → n.Quaternion
    pub rotation_to_board : n.Quaternion → n.Quaternion
    pub bearings : Bearings

  pub record Knuckles : Type 0 where
    pub index : Vector
    pub middle : Vector
    pub ring : Vector
    pub pinky : Vector

  pub record Skeleton : Type 0 where
    pub wrist : Vector
    pub index : Vector
    pub middle : Vector
    pub ring : Vector
    pub pinky : Vector
    pub thumb : Vector
    pub knuckles : Knuckles

  -- Every joint, where the browser has each of them.
  unfoldable pub skeleton_of : (Joint → Option Vector) → Option Skeleton
  skeleton_of pose = do
    w ← pose wrist
    i ← pose index_tip
    m ← pose middle_tip
    r ← pose ring_tip
    p ← pose pinky_tip
    t ← pose thumb_tip
    ik ← pose index_knuckle
    mk ← pose middle_knuckle
    rk ← pose ring_knuckle
    pk ← pose pinky_knuckle
    some (record {
      wrist = w;
      index = i;
      middle = m;
      ring = r;
      pinky = p;
      thumb = t;
      knuckles = record { index = ik; middle = mk; ring = rk; pinky = pk };
    })

  -- `PINCH_THRESHOLD`
  abbrev pub pinch_threshold : n.F
  pinch_threshold = frac 25 1000

  abbrev pub reaches : Skeleton → Vector → n.F → Bool
  reaches k tip limit = n.gt (distance tip k.wrist) limit

  abbrev pub index_extended : Skeleton → Bool
  index_extended k = reaches k k.index (frac 9 100)

  abbrev pub middle_extended : Skeleton → Bool
  middle_extended k = reaches k k.middle (frac 85 1000)

  abbrev pub ring_extended : Skeleton → Bool
  ring_extended k = reaches k k.ring (frac 8 100)

  abbrev pub pinky_extended : Skeleton → Bool
  pinky_extended k = reaches k k.pinky (frac 78 1000)

  abbrev pub thumb_extended : Skeleton → Bool
  thumb_extended k = reaches k k.thumb (frac 7 100)

  abbrev pub pinch_distance : Skeleton → n.F
  pinch_distance k = distance k.index k.thumb

  abbrev pub is_open_palm : Skeleton → Bool
  is_open_palm k =
      index_extended k
      && middle_extended k
      && ring_extended k
      && pinky_extended k
      && thumb_extended k

  abbrev pub is_pointing : Skeleton → Bool
  is_pointing k =
      index_extended k
      && not (middle_extended k)
      && not (ring_extended k)
      && not (pinky_extended k)
      && n.gt (pinch_distance k) (n.mul pinch_threshold (frac 14 10))

  abbrev pub is_pinching : Skeleton → Bool
  is_pinching k = n.gt pinch_threshold (pinch_distance k)

  abbrev pub knuckle_center : Knuckles → Vector
  knuckle_center k =
      scaled (plus (plus (plus (plus origin k.index) k.middle) k.ring) k.pinky) (frac 1 4)

  abbrev pub palm_center : Skeleton → Vector
  palm_center k = scaled (plus (knuckle_center k.knuckles) k.wrist) (frac 5 10)

  abbrev pub pinch_midpoint : Skeleton → Vector
  pinch_midpoint k = scaled (plus k.index k.thumb) (frac 5 10)

  abbrev pub hand_up : Skeleton → Vector
  hand_up k = normalized (minus (knuckle_center k.knuckles) k.wrist)

  abbrev pub palm_lateral : Skeleton → Vector
  palm_lateral k = normalized (minus k.knuckles.pinky k.knuckles.index)

  abbrev pub palm_normal : HandReading → Vector
  palm_normal r =
      normalized (r.turned r.wrist_rotation (record { x = n.of 0; y = n.neg (n.of 1); z = n.of 0 }))

  abbrev pub pinch_axis : Skeleton → Vector
  pinch_axis k = normalized (minus k.index k.thumb)

  -- `gripUpWorld` at its first test, and after it.
  abbrev pub across : Skeleton → Vector
  across k =
      let v = minus k.wrist (pinch_midpoint k) in
      add_scaled v (pinch_axis k) (n.neg (dot v (pinch_axis k)))

  abbrev pub first_grip_up : Skeleton → Vector
  first_grip_up k =
      if is_flat (across k) then scaled (hand_up k) (n.neg (n.of 1)) else normalized (across k)

  abbrev pub grip_forward : HandReading → Skeleton → Vector
  grip_forward r k =
      let v = cross (pinch_axis k) (first_grip_up k) in
      if is_flat v then palm_normal r else normalized v

  abbrev pub grip_rotation : HandReading → Skeleton → n.Quaternion
  grip_rotation r k =
      let forward = grip_forward r k in
      r.of_basis (pinch_axis k) (normalized (cross forward (pinch_axis k))) forward
