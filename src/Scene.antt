-- ===== src/Scene.antt =====
-- apps/frontend-webxr/src/scene.ts: the pods of the board, their bodies, and the player's hands. The
-- page's numbers, three.js's quaternions and the bodies of the physics engine are parameters: a body
-- is known by its handle, and what it is told is a list of calls.
pub mod Grabs
pub mod Meshes
pub mod Pods
pub mod Hud
pub mod Gusts
pub mod Simulation
pub mod Desktop
pub mod Hands
pub mod Anchors
pub mod Xr
pub mod Gpu
pub mod Update
pub mod Calls
pub mod Tests
use hackz_megalo.Base.{
  if◌then◌else◌, ℕ, Bool, true, false, Option, none, some, List, [], ◌∷◌, ◌++◌, Text,
}
use hackz_megalo.Types.{SlaveStatus}

-- What the scene computes with.
pub record Numbers : Type 1 where
  pub F : Type 0
  pub of : ℕ → F
  pub neg : F → F
  -- `Number.EPSILON` and `Number.POSITIVE_INFINITY`
  pub epsilon : F
  pub infinity : F
  pub add : F → F → F
  pub sub : F → F → F
  pub mul : F → F → F
  pub div : F → F → F
  -- 0 and NaN, which JavaScript takes for false
  pub is_falsy : F → Bool
  -- `Math.abs`, `Math.min`, `Math.max`, `Math.sqrt`, `Math.pow`, `Math.hypot` of two and of three numbers, `Math.sin`,
  -- `Math.cos`, `Math.PI`
  pub abs : F → F
  pub min : F → F → F
  pub max : F → F → F
  pub sqrt : F → F
  pub pow : F → F → F
  pub hypot : F → F → F
  pub hypot3 : F → F → F → F
  pub sin : F → F
  pub cos : F → F
  pub pi : F
  -- `>` and `>=`
  pub gt : F → F → Bool
  pub ge : F → F → Bool
  pub Quaternion : Type 0
  pub identity : Quaternion
  -- The rotation about the y axis by an angle, as `Euler` gives it.
  pub turned : F → Quaternion
  pub multiply : Quaternion → Quaternion → Quaternion
  pub invert : Quaternion → Quaternion

pub data Handedness : Type 0 where
  left right : Handedness

pub data BodyType : Type 0 where
  dynamic kinematic : BodyType

module _ ⦃n : Numbers⦄ where
  pub record Vector : Type 0 where
    pub x : n.F
    pub y : n.F
    pub z : n.F

  abbrev pub origin : Vector
  origin = record { x = n.of 0; y = n.of 0; z = n.of 0 }

  -- The methods of `THREE.Vector3`: `addScaledVector`, `multiplyScalar`, `lengthSq`, `add`, `sub`,
  -- `crossVectors`, `dot`, `normalize`, `distanceTo`.
  abbrev pub add_scaled : Vector → Vector → n.F → Vector
  add_scaled v w k = record {
    x = n.add v.x (n.mul w.x k);
    y = n.add v.y (n.mul w.y k);
    z = n.add v.z (n.mul w.z k);
  }

  abbrev pub scaled : Vector → n.F → Vector
  scaled v k = record { x = n.mul v.x k; y = n.mul v.y k; z = n.mul v.z k }

  abbrev pub length_sq : Vector → n.F
  length_sq v = n.add (n.add (n.mul v.x v.x) (n.mul v.y v.y)) (n.mul v.z v.z)

  abbrev pub plus : Vector → Vector → Vector
  plus v w = record { x = n.add v.x w.x; y = n.add v.y w.y; z = n.add v.z w.z }

  abbrev pub minus : Vector → Vector → Vector
  minus v w = record { x = n.sub v.x w.x; y = n.sub v.y w.y; z = n.sub v.z w.z }

  abbrev pub cross : Vector → Vector → Vector
  cross v w = record {
    x = n.sub (n.mul v.y w.z) (n.mul v.z w.y);
    y = n.sub (n.mul v.z w.x) (n.mul v.x w.z);
    z = n.sub (n.mul v.x w.y) (n.mul v.y w.x);
  }

  abbrev pub dot : Vector → Vector → n.F
  dot v w = n.add (n.add (n.mul v.x w.x) (n.mul v.y w.y)) (n.mul v.z w.z)

  abbrev pub or_one : n.F → n.F
  or_one k = if n.is_falsy k then n.of 1 else k

  abbrev pub normalized : Vector → Vector
  normalized v = scaled v (n.div (n.of 1) (or_one (n.sqrt (length_sq v))))

  abbrev pub distance : Vector → Vector → n.F
  distance v w = n.sqrt (length_sq (minus v w))

  -- A decimal fraction of the source: division rounds to the number nearest to it, as its literal does.
  abbrev pub frac : ℕ → ℕ → n.F
  frac a b = n.div (n.of a) (n.of b)

  -- `THREE.MathUtils.clamp` and `THREE.MathUtils.lerp`
  abbrev pub clamp : n.F → n.F → n.F → n.F
  clamp x lo hi = n.max lo (n.min hi x)

  abbrev pub lerp : n.F → n.F → n.F → n.F
  lerp a b t = n.add (n.mul (n.sub (n.of 1) t) a) (n.mul t b)

  -- A call of a method of a rigid body.
  pub data Call : Type 0 where
    wakes : Call
    turns : BodyType → Call
    sets_linvel sets_angvel sets_translation sets_next_translation applies_impulse : Vector → Call
    sets_rotation sets_next_rotation : n.Quaternion → Call

  -- `PodPhysicsEntry`, without the mesh of the collider's debug view. `kind` is the type that its
  -- body was last given.
  pub record PodPhysics : Type 0 where
    pub handle : ℕ
    pub kind : BodyType
    pub calls : List Call
    pub next_impulse_at : n.F
    pub fall_reported : Bool
    pub crush_progress : n.F
    pub crush_reported : Bool
    pub gust_boost_until : n.F

  -- What `group.userData` holds.
  pub record UserData : Type 0 where
    pub slave_id : Text
    pub stress : ℕ
    pub fear : ℕ
    pub status : SlaveStatus
    pub infected : Bool
    pub firewall : Bool

  -- The scale of a mesh's root, of which x and z are one, and its height.
  pub record Squash : Type 0 where
    pub scale_xz : n.F
    pub scale_y : n.F
    pub position_y : n.F

  -- `PodMeshEntry`, by the fields that change.
  pub record Mesh : Type 0 where
    pub user_data : UserData
    pub position : Vector
    pub rotation : n.Quaternion
    pub scale : n.F
    pub color : Text
    pub emissive : Text
    pub emissive_intensity : n.F
    pub shield_visible : Bool
    pub shield_opacity : n.F
    pub outline_visible : Bool
    pub squash : Squash
    pub phase : n.F
    pub base_min_y : n.F

  -- `GustEntry`, without its meshes.
  pub record Gust : Type 0 where
    pub handle : ℕ
    pub calls : List Call
    pub direction_local : Vector
    pub remaining : n.F
    pub hit_pod_ids : List Text

  pub data GustSource : Type 0 where
    by_hand : Handedness → GustSource
    by_desktop : GustSource

  -- A call of a callback of the page.
  pub data Callback : Type 0 where
    hits falls : Text → Callback
    changes_xr : Bool → Callback
    disconnects : Callback

  -- The calls that the four bodies of a hand have received.
  pub record HandBodies : Type 0 where
    pub palm : List Call
    pub thumb : List Call
    pub index : List Call
    pub middle : List Call

  -- `HandPhysicsState`
  pub record Hand : Type 0 where
    pub bodies : HandBodies
    pub open_palm : Bool
    pub pointing_active : Bool
    pub pinch_active : Bool
    pub pinch_midpoint_local : Option Vector
    pub pinch_midpoint_world : Option Vector
    pub pinch_candidate_id : Option Text
    pub fingertip_target_id : Option Text
    pub grabbed_pod_id : Option Text
    pub index_tip_local : Option Vector
    pub last_grab_point_local : Option Vector
    pub last_grab_at : n.F
    pub palm_center_world : Option Vector
    pub palm_normal_world : Option Vector
    pub palm_lateral_world : Option Vector
    pub hand_up_world : Option Vector
    pub palm_velocity_world : Option Vector
    pub last_palm_center_world : Option Vector
    pub last_palm_sample_at : n.F
    pub sweep_speed : n.F
    pub gust_pose_active : Bool
    pub gust_motion_latch : Bool
    pub gust_cooldown_until : n.F
    pub grip_rotation_local : Option n.Quaternion
    pub grab_rotation_offset : Option n.Quaternion

  -- The fields of `PodScene` that hold its pods, hands and gusts, and the calls of its callbacks.
  pub record Scene : Type 0 where
    pub has_world : Bool
    pub mesh_by_id : List (Text × Mesh)
    -- The last that was put back stands first.
    pub pod_mesh_cache : List Mesh
    pub pod_physics_by_id : List (Text × PodPhysics)
    pub pod_id_by_collider_handle : List (ℕ × Text)
    pub pod_grab_owner_by_id : List (Text × Handedness)
    pub active_palm_contacts : List Text
    pub left_hand : Option Hand
    pub right_hand : Option Hand
    pub hud_slider_active_hand : Option Handedness
    pub desktop_target_pod_id : Option Text
    pub gusts : List Gust
    -- The last that was put back stands first.
    pub gust_pool : List Gust
    pub last_gust_source : Option GustSource
    pub desktop_gust_cooldown_until : n.F
    pub callbacks : List Callback

  -- `this.handPhysics.get(handedness)`
  abbrev pub hand_of : Scene → Handedness → Option Hand
  hand_of s left = s.left_hand
  hand_of s right = s.right_hand

  -- The hand after its fields are set; the object is that of the map.
  abbrev pub put_hand : Handedness → Hand → Scene → Scene
  put_hand left h s = record s { left_hand = some h }
  put_hand right h s = record s { right_hand = some h }
