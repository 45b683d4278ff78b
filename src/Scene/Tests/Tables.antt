-- ===== src/Scene/Tests/Tables.antt =====
-- The theorems on the table's move and the menu of the wrist at concrete inputs, with numbers that
-- count ten-thousandths.
use hackz_megalo.Base.{
  ◌≡◌, ◌≢◌, ◌↔◌, refl, ℕ, true, false, not, none, some, List, [], ◌∷◌, Text, arith, lookup, eq_Text,
  ltb, eq_ℕ, keep_if, ◌+◌, ◌-◌, ◌*◌, ◌/◌, if◌then◌else◌,
}
use hackz_megalo.Scene.{Numbers, Handedness, left, right, Vector, origin, Scene}
use hackz_megalo.Scene.Grabs.{
  Reading, release_grab, clear_hand_state, clear_palm_contacts, update_grab_interaction,
}
use hackz_megalo.Scene.Grabs.Grips.{held}
use hackz_megalo.Scene.Grabs.Owners.{grip_of}
use hackz_megalo.Scene.Gusts.{Frame}
use hackz_megalo.Scene.Gusts.Triggers.{Bearings, try_trigger_hand_gust, is_hand_in_gust_pose}
use hackz_megalo.Scene.Pods.{
  collect_pod_intersections, find_pinch_candidate, process_open_palm_contacts,
}
use hackz_megalo.Scene.Update.{update_pointing_highlights}
use hackz_megalo.Scene.Hands.{index_tip, HandReading, skeleton_of}
use hackz_megalo.Scene.Hands.Sampling.{sampled, update_hand_physics_from_joints}
use hackz_megalo.Scene.Hands.Pointing.{find_pointing_target}
use hackz_megalo.Scene.Xr.{Xr, scene_of}
use hackz_megalo.Scene.Xr.Moves.{
  sync_board_pose_from_anchor, update_table_move_interaction, update_table_move_preview_pose,
}
use hackz_megalo.Scene.Xr.Sliders.{update_table_height_slider_interaction}
use hackz_megalo.Scene.Xr.Sources.{Source, XrFrame, Seen, nothing_seen, see_source, see_sources}
use hackz_megalo.Scene.Xr.Frames.{
  PageFrame, anchored, settled_hands, acted, pressed, handled, update_wrist_hud,
}
use hackz_megalo.Scene.Xr.Steady.{IsSteady}
use hackz_megalo.Scene.Xr.Histories.{
  XrEvent, renders, leaves, presents, xr_steps, xr_steps-IsSteady,
}
use hackz_megalo.Scene.Xr.Apart.{disconnects_apart}
use hackz_megalo.Scene.Xr.Pinches.{Shows}
use hackz_megalo.Scene.Xr.Confirms.{move_ends}
use hackz_megalo.Scene.Tests.Signals.{a_board}

instance abbrev fixed : Numbers
fixed = record {
  F = ℕ;
  of = λ i. i * 10000;
  neg = λ i. 0;
  epsilon = 1;
  infinity = 1000000000;
  add = λ i j. i + j;
  sub = λ i j. i - j;
  mul = λ i j. i * j / 10000;
  div = λ i j. i * 10000 / j;
  min = λ i j. if ltb i j then i else j;
  max = λ i j. if ltb i j then j else i;
  is_falsy = λ i. not (ltb 0 i);
  sqrt = λ i. i;
  abs = λ i. i;
  pow = λ i j. i;
  hypot = λ i j. i + j;
  hypot3 = λ i j k. i + j + k;
  sin = λ i. 0;
  cos = λ i. 10000;
  pi = 31416;
  gt = λ i j. ltb j i;
  ge = λ i j. not (ltb i j);
  Quaternion = ℕ;
  identity = 0;
  turned = λ i. i;
  multiply = λ i j. i + j;
  invert = λ i. i;
}

abbrev a_reading : Reading
a_reading = record { now = 10000; random = 0; rotation = λ h. h }

abbrev bearings : Bearings
bearings = record {
  now = 10000;
  to_board = λ v. v;
  direction_to_board = λ v. v;
  board_top = origin;
}

abbrev aside : Vector
aside = record { x = 10000; y = 0; z = 0 }

abbrev far_off : Vector
far_off = record { x = 20000; y = 0; z = 0 }

-- The joints of a hand whose index is where it is, and the others at one place.
abbrev joints : Vector → HandReading
joints tip = record {
  now = 10000;
  pose = λ j. elim j [ index_tip ↦ some tip | _ ↦ some aside ];
  wrist_rotation = 0;
  turned = λ q v. v;
  of_basis = λ x y z. 0;
  rotation_to_board = λ q. q;
  bearings = bearings;
}

abbrev right_source : Vector → Source
right_source tip = record {
  has_hand = true;
  handedness = some right;
  joints = joints tip;
  reading = a_reading;
}

abbrev a_frame : List Source → ℕ → XrFrame
a_frame sources now = record {
  is_ready = true;
  features = false;
  creates = false;
  anchor_pose = λ k. none;
  sources = sources;
  disconnect_button = origin;
  move_button = origin;
  to_hud = λ v. v;
  facing = λ v w. 0;
  viewer = origin;
  colliders = λ p hand. [];
  pointing_places = λ h. origin;
  palm_places = λ hand h. origin;
  clearing = λ hand. a_reading;
  grabbing = λ hand. a_reading;
  striking = λ hand. a_reading;
  releasing = a_reading;
  bearings = λ hand. bearings;
  gust_handle = λ hand. 9;
  now = now;
}

abbrev empty_scene : Scene
empty_scene = record {
  has_world = true;
  mesh_by_id = [];
  pod_mesh_cache = [];
  pod_physics_by_id = [];
  pod_id_by_collider_handle = [];
  pod_grab_owner_by_id = [];
  active_palm_contacts = [];
  left_hand = none;
  right_hand = none;
  hud_slider_active_hand = none;
  desktop_target_pod_id = none;
  gusts = [];
  gust_pool = [];
  last_gust_source = none;
  desktop_gust_cooldown_until = 0;
  callbacks = [];
}

-- The table is moved, and the pinch that began it is not over.
abbrev moving : Xr
moving = record {
  controls = record {
    desktop = record {
      scene = empty_scene;
      input_active = false;
      presenting = true;
      look_active = false;
      pointer_locked = false;
      hovers = [];
      selections = [];
    };
    pressed_keys = [];
    yaw = 0;
    pitch = 0;
    camera = origin;
    asks = [];
    bindings = [];
  };
  wrist_visible = false;
  pinch_latch = true;
  table_move_mode = true;
  awaits_release = true;
  last_disconnect_at = 0;
  surface_height = 3000;
  board_position = origin;
  board_rotation = 0;
  anchors_supported = false;
  board = a_board;
}

simulated : Frame
simulated = record {
  now = 20000;
  delta = 100;
  random = λ p draw. draw;
  velocity_before = λ p. origin;
  velocity = λ handle. origin;
  position = λ handle. origin;
  rotation = λ handle. 0;
  gust_position = λ handle. origin;
  meets = λ handle. [];
}

abbrev page_frame : Vector → ℕ → PageFrame
page_frame tip now = record {
  simulation = simulated;
  session = a_frame (right_source tip ∷ []) now;
  direction = origin;
  up = origin;
  objects = [];
}

nothing_held :
    (id : Text) (hand : Handedness)
    → (lookup id (grip_of empty_scene).owners ≡ some hand)
      ↔ (held (grip_of empty_scene) hand ≡ some id)
unfolding lookup
nothing_held id left = ground arith
nothing_held id right = ground arith

nothing_named : (hand : Handedness) → held (grip_of empty_scene) hand ≢ some []
nothing_named left p = ground (arith, p)
nothing_named right p = ground (arith, p)

moving-IsSteady : IsSteady moving
moving-IsSteady = record {
  obeys = record {
    owned = record { agrees = nothing_held; is_named = nothing_named };
    rule = λ on. refl;
  };
  awaits = λ on. refl;
}

abbrev xr_events : List XrEvent
xr_events =
    renders (page_frame far_off 20000)
    ∷ renders (page_frame aside 30000)
    ∷ leaves
    ∷ presents false
    ∷ renders (page_frame aside 40000)
    ∷ []

xr_steps-IsSteady_example : IsSteady (xr_steps xr_events moving)
xr_steps-IsSteady_example = xr_steps-IsSteady xr_events moving moving-IsSteady

-- The fingers touch, at the button that disconnects.
abbrev at_button : Seen
at_button = record nothing_seen { disconnect = true; pinch = true }

abbrev idle : Xr
idle = record moving { table_move_mode = false; awaits_release = false; pinch_latch = false }

disconnected :
    (scene_of (pressed (a_frame [] 20000000) at_button idle)).callbacks ≢ empty_scene.callbacks
unfolding pressed
disconnected p = ground (arith, p)

disconnects_apart_example :
    let y =
      xr_steps
        (renders (page_frame far_off 25000000) ∷ [])
        (pressed (a_frame [] 20000000) at_button idle) in
    (scene_of (pressed (a_frame [] 30000000) at_button y)).callbacks ≡ (scene_of y).callbacks
disconnects_apart_example =
    disconnects_apart (a_frame [] 20000000) (a_frame [] 30000000) at_button at_button
      (renders (page_frame far_off 25000000) ∷ []) idle disconnected (refl, tt) refl

rests : Shows false (a_frame (right_source far_off ∷ []) 20000) moving
unfolding see_sources see_source update_hand_physics_from_joints skeleton_of sampled anchored
    sync_board_pose_from_anchor is_hand_in_gust_pose
rests = record { is_ready = refl; tracked = refl; pinch = refl; away = refl }

abbrev rested : Xr
rested = update_wrist_hud (a_frame (right_source far_off ∷ []) 20000) moving

pinches : Shows true (a_frame (right_source aside ∷ []) 30000) rested
unfolding see_sources see_source update_hand_physics_from_joints skeleton_of sampled anchored
    sync_board_pose_from_anchor is_hand_in_gust_pose update_wrist_hud handled settled_hands acted
    pressed update_table_height_slider_interaction update_table_move_interaction
    update_table_move_preview_pose clear_hand_state clear_palm_contacts release_grab
    update_grab_interaction try_trigger_hand_gust process_open_palm_contacts
    update_pointing_highlights collect_pod_intersections find_pinch_candidate find_pointing_target
    keep_if lookup
pinches = record { is_ready = refl; tracked = refl; pinch = refl; away = refl }

move_ends_example :
    (update_wrist_hud (a_frame (right_source aside ∷ []) 30000) rested).table_move_mode ≡ false
move_ends_example =
    move_ends (a_frame (right_source far_off ∷ []) 20000) (a_frame (right_source aside ∷ []) 30000)
      moving rests pinches
