-- ===== src/Scene/Tests.antt =====
-- The scene's theorems at concrete inputs, with numbers that are natural.
mod Gusts
mod Rounds
mod Signals
mod Tables
use hackz_megalo.Scene.Update.{Supply, View}
use hackz_megalo.Scene.Gusts.{Frame}
use hackz_megalo.Scene.Gusts.Triggers.{Bearings}
use hackz_megalo.Types.{live, gone, reason_unspecified, SlaveStatus, SlaveState}
use hackz_megalo.Base.{
  ◌/◌, not, if◌then◌else◌, length, Option, text_eq, ◌≤◌, ℕ, ◌+◌, ◌-◌, ◌*◌, ◌≡◌, ◌≢◌, ◌↔◌, refl,
  true, false, ltb, none, some, List, [], ◌∷◌, Text, text, arith, lookup, eq_ℕ, eq_Text,
}
use hackz_megalo.Scene.{Numbers, Handedness, left, right, origin, Hand, Mesh, Scene}
use hackz_megalo.Scene.Grabs.{Reading}
use hackz_megalo.Scene.Grabs.Holds.{holds_of}
use hackz_megalo.Scene.Grabs.Owners.{grip_of}
use hackz_megalo.Scene.Grabs.Grips.{held, IsOwned}
use hackz_megalo.Scene.Pods.{
  is_pod_interactable, remove_pod_entry, create_pod_physics, remove_pod_physics,
}
use hackz_megalo.Scene.Pods.Handles.{
  handle_of, IsTracked, BodyCall, makes, takes_away, run_bodies, HaveFreshHandles,
  run_bodies-IsTracked,
}
use hackz_megalo.Scene.Pods.Removal.{IsForgotten, remove_pod_entry-IsForgotten}
use hackz_megalo.View.{join}
use hackz_megalo.Scene.Hud.{truncate_text, format_hud_id, split_hud_lines}
use hackz_megalo.Scene.Hud.Fits.{length-truncate_text, length-format_hud_id, split_hud_lines_lem}
use hackz_megalo.Scene.Desktop.{
  Desktop, first_aim, resolve_pod_id_from_object, update_desktop_targeting,
}
use hackz_megalo.Scene.Desktop.Aims.{IsAimed, aim_of, update_desktop_targeting-IsAimed}
use hackz_megalo.Scene.Calls.{
  perform_all-Steps, Steps, SceneCall, Moment, grabs, crushes, creates, updates, resets, frames,
  gusts, touches, perform_all, perform_all-IsOwned,
}

instance abbrev pub natural : Numbers
natural = record {
  F = ℕ;
  of = λ i. i;
  neg = λ i. 0;
  epsilon = 1;
  infinity = 1000000;
  add = λ i j. i + j;
  sub = λ i j. i - j;
  mul = λ i j. i * j;
  div = λ i j. i / j;
  min = λ i j. if ltb i j then i else j;
  max = λ i j. if ltb i j then j else i;
  is_falsy = λ i. not (ltb 0 i);
  sqrt = λ i. i;
  abs = λ i. i;
  pow = λ i j. i * i * i;
  hypot = λ i j. i + j;
  hypot3 = λ i j k. i + j + k;
  sin = λ i. 0;
  cos = λ i. 1;
  pi = 3;
  gt = λ i j. ltb j i;
  ge = λ i j. not (ltb i j);
  Quaternion = ℕ;
  identity = 0;
  turned = λ i. i;
  multiply = λ i j. i + j;
  invert = λ i. i;
}

abbrev pub a_reading : Reading
a_reading = record { now = 1000; random = 0; rotation = λ h. h }

abbrev pub idle_hand : Hand
idle_hand = record {
  bodies = record { palm = []; thumb = []; index = []; middle = [] };
  open_palm = false;
  pointing_active = false;
  pinch_active = true;
  pinch_midpoint_local = some origin;
  pinch_midpoint_world = none;
  pinch_candidate_id = some (text "s1");
  fingertip_target_id = none;
  grabbed_pod_id = none;
  index_tip_local = none;
  last_grab_point_local = none;
  last_grab_at = 0;
  palm_center_world = none;
  palm_normal_world = none;
  palm_lateral_world = none;
  hand_up_world = none;
  palm_velocity_world = none;
  last_palm_center_world = none;
  last_palm_sample_at = 0;
  sweep_speed = 0;
  gust_pose_active = false;
  gust_motion_latch = false;
  gust_cooldown_until = 0;
  grip_rotation_local = some 3;
  grab_rotation_offset = none;
}

abbrev pub a_mesh : Text → Mesh
a_mesh id = record {
  user_data = record {
    slave_id = id;
    stress = 1;
    fear = 2;
    status = live;
    infected = false;
    firewall = true;
  };
  position = origin;
  rotation = 0;
  scale = 1;
  color = [];
  emissive = [];
  emissive_intensity = 0;
  shield_visible = false;
  shield_opacity = 0;
  outline_visible = false;
  squash = record { scale_xz = 1; scale_y = 1; position_y = 0 };
  phase = 0;
  base_min_y = 0;
}

-- Two hands pinch at one pod.
abbrev pub table : Scene
table = record {
  has_world = true;
  mesh_by_id = (text "s1", a_mesh (text "s1")) ∷ (text "s2", a_mesh (text "s2")) ∷ [];
  pod_mesh_cache = [];
  pod_physics_by_id = [];
  pod_id_by_collider_handle = [];
  pod_grab_owner_by_id = [];
  active_palm_contacts = [];
  left_hand = some idle_hand;
  right_hand = some idle_hand;
  hud_slider_active_hand = none;
  desktop_target_pod_id = some (text "s2");
  gusts = [];
  gust_pool = [];
  last_gust_source = none;
  desktop_gust_cooldown_until = 0;
  callbacks = [];
}

abbrev pub a_pod : Text → SlaveStatus → SlaveState
a_pod id status = record {
  session_id = [];
  slave_id = id;
  k8s_pod_name = [];
  k8s_pod_uid = [];
  pod_ip = [];
  status = status;
  death_reason = reason_unspecified;
  turns_lived = 1;
  remaining_turns = 2;
  stress = 3;
  fear = 4;
  infected = true;
  firewall = false;
  observed_at = [];
  source = [];
}

-- One pod is there, one has left and one is eliminated.
abbrev pub view_of_one : View
view_of_one = record {
  pods = a_pod (text "s1") live ∷ a_pod (text "s2") gone ∷ a_pod (text "s3") live ∷ [];
  selected = some (text "s1");
  hovered = none;
  eliminated = text "s3" ∷ [];
}

abbrev pub supply_for : Supply
supply_for = record {
  reading = a_reading;
  handles = λ id. 5;
  base_min_y = 0;
  random = λ id draw. draw;
  presenting = false;
}

abbrev pub frame : Frame
frame = record {
  now = 2000;
  delta = 1;
  random = λ p draw. draw;
  velocity_before = λ p. origin;
  velocity = λ handle. origin;
  position = λ handle. origin;
  rotation = λ handle. 0;
  gust_position = λ handle. origin;
  meets = λ handle. 5 ∷ [];
}

abbrev pub bearings : Bearings
bearings = record { now = 1000; to_board = λ v. v; direction_to_board = λ v. v; board_top = origin }

abbrev moment : SceneCall → Moment
moment x = record { reading = a_reading; positions = λ h. origin; call = x }

abbrev moments : List Moment
moments =
    moment (creates 7 (text "s1"))
    ∷ moment (grabs left)
    ∷ moment (grabs right)
    ∷ moment (crushes (text "s1"))
    ∷ moment (touches (7 ∷ []) right)
    ∷ moment (updates supply_for view_of_one)
    ∷ moment resets
    ∷ moment (frames frame)
    ∷ moment (gusts bearings 9 left)
    ∷ []

pub none_not_some : {id : Text} → none ≢ some id
none_not_some p = ground (arith, p)

table_agrees :
    (id : Text) (hand : Handedness)
    → (lookup id (grip_of table).owners ≡ some hand) ↔ (held (grip_of table) hand ≡ some id)
unfolding lookup
table_agrees id left = ground arith
table_agrees id right = ground arith

table_named : (hand : Handedness) → held (grip_of table) hand ≢ some []
table_named left p = none_not_some p
table_named right p = none_not_some p

pub table-IsOwned : IsOwned (grip_of table)
table-IsOwned = record { agrees = table_agrees; is_named = table_named }

perform_all-IsOwned_example : IsOwned (grip_of (perform_all moments table))
perform_all-IsOwned_example = perform_all-IsOwned moments table table-IsOwned

table_tracks :
    (h : ℕ) (id : Text)
    → (lookup h table.pod_id_by_collider_handle ≡ some id)
      ↔ (handle_of (lookup id table.pod_physics_by_id) ≡ some h)
unfolding lookup
table_tracks h id = ground arith

table-IsTracked : IsTracked table
table-IsTracked = record { agrees = table_tracks }

abbrev body_calls : List BodyCall
body_calls =
    makes a_reading 7 (text "s1") ∷ takes_away (text "s1") ∷ makes a_reading 8 (text "s1") ∷ []

body_calls-HaveFreshHandles : HaveFreshHandles body_calls table
unfolding lookup create_pod_physics remove_pod_physics text_eq
body_calls-HaveFreshHandles = (refl, (refl, tt))

run_bodies-IsTracked_example : IsTracked (run_bodies body_calls table)
run_bodies-IsTracked_example =
    run_bodies-IsTracked body_calls table body_calls-HaveFreshHandles table-IsTracked

perform_all-Steps_example :
    Steps moments (holds_of (grip_of table)) (holds_of (grip_of (perform_all moments table)))
perform_all-Steps_example = perform_all-Steps moments table table-IsOwned

remove_pod_entry-IsForgotten_example :
    IsForgotten
      (text "s1")
      (perform_all moments table)
      (remove_pod_entry a_reading (text "s1") (a_mesh (text "s1")) (perform_all moments table))
remove_pod_entry-IsForgotten_example =
    remove_pod_entry-IsForgotten a_reading (text "s1") (a_mesh (text "s1"))
      (perform_all moments table)

-- The desktop looks at the first pod through one that has left.
abbrev pub looking : Desktop
looking = record {
  scene = table;
  input_active = true;
  presenting = false;
  look_active = false;
  pointer_locked = false;
  hovers = [];
  selections = [];
}

abbrev on_ray : List (List (Option Text))
on_ray = (none ∷ some (text "old") ∷ []) ∷ (none ∷ some (text "s1") ∷ []) ∷ []

aims_at_first : aim_of on_ray looking ≡ some (text "s1")
unfolding first_aim resolve_pod_id_from_object is_pod_interactable lookup text_eq
aims_at_first = refl

-- A limit of ten is one too few for `formatHudId`.
formats_ten : length (format_hud_id (text "0123456789ab") 10) ≡ 11
unfolding format_hud_id
formats_ten = refl
