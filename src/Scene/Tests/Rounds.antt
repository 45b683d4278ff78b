-- ===== src/Scene/Tests/Rounds.antt =====
-- The theorems on gusts, frames, updates and resets at concrete inputs.
use hackz_megalo.Base.{
  Text, ◌≡◌, text_eq, count_if, keep_if, refl, true, false, none, some, List, [], ◌∷◌, text, arith,
  lookup, eq_Text,
}
use hackz_megalo.Scene.{left, origin, kinematic, Hand, PodPhysics, Scene, by_desktop}
use hackz_megalo.Scene.Grabs.Owners.{held_by}
use hackz_megalo.Scene.Desktop.Keys.{Controls, Key, Input, types, aims, activates, take_inputs}
use hackz_megalo.Scene.Desktop.Keys.Quiet.{IsQuiet, take_inputs-IsQuiet}
use hackz_megalo.Scene.Tests.{
  looking, natural, a_reading, idle_hand, table, table-IsOwned, frame, bearings,
}
use hackz_megalo.Scene.Pods.{is_pod_interactable, collect_pod_intersections}
use hackz_megalo.Scene.Gusts.{
  advance_gusts, launch_gust, gust_round, blow_all, blow_pods, remove_all, remove_gust, splice_gust,
}
use hackz_megalo.Scene.Gusts.Rounds.{is_still, advance_gusts-still}
use hackz_megalo.Scene.Gusts.Pool.{IsPooled}
use hackz_megalo.Scene.Gusts.Triggers.{try_trigger_hand_gust}
use hackz_megalo.Scene.Gusts.Histories.{
  GustCall, advances, clears, tries, launches, run_gust, run_gusts, AreFresh, run_gusts-IsPooled,
}
use hackz_megalo.Scene.Simulation.{update_simulation}
use hackz_megalo.Scene.Simulation.Reports.{IsTold, update_simulation-IsTold}
use hackz_megalo.Scene.Update.{reset}
use hackz_megalo.Scene.Update.Cleared.{IsBare, reset-clears}

-- The hand sweeps, and blows the pod of the collider 5, which is being crushed.
abbrev pub sweeping : Hand
sweeping = record idle_hand {
  pinch_active = false;
  gust_pose_active = true;
  sweep_speed = 1;
  palm_center_world = some origin;
  palm_normal_world = some origin;
}

abbrev pub a_body : PodPhysics
a_body = record {
  handle = 5;
  kind = kinematic;
  calls = [];
  next_impulse_at = 0;
  fall_reported = false;
  crush_progress = 1;
  crush_reported = false;
  gust_boost_until = 0;
}

abbrev pub windy : Scene
windy = record table {
  left_hand = some sweeping;
  pod_physics_by_id = (text "s1", a_body) ∷ [];
  pod_id_by_collider_handle = (5, text "s1") ∷ [];
}

abbrev gusty : Scene
gusty = try_trigger_hand_gust bearings 9 left windy

crushed_is_still : is_still (text "s1") gusty ≡ true
unfolding try_trigger_hand_gust launch_gust lookup is_pod_interactable text_eq
crushed_is_still = refl

advance_gusts-still_example :
    lookup (text "s1") (advance_gusts frame gusty).pod_physics_by_id
    ≡ lookup (text "s1") gusty.pod_physics_by_id
advance_gusts-still_example = advance_gusts-still frame (text "s1") gusty crushed_is_still

abbrev gust_calls : List GustCall
gust_calls =
    tries bearings 9 left ∷ advances frame ∷ launches 10 origin origin by_desktop ∷ clears ∷ []

gust_calls-AreFresh : AreFresh gust_calls windy
unfolding count_if try_trigger_hand_gust launch_gust advance_gusts gust_round blow_all blow_pods
    remove_all remove_gust splice_gust run_gust keep_if collect_pod_intersections
gust_calls-AreFresh = (refl, (tt, (refl, (tt, tt))))

windy-IsPooled : IsPooled windy
unfolding IsPooled count_if
windy-IsPooled h = omega arith

run_gusts-IsPooled_example : IsPooled (run_gusts gust_calls windy)
run_gusts-IsPooled_example = run_gusts-IsPooled gust_calls windy gust_calls-AreFresh windy-IsPooled

update_simulation-IsTold_example : IsTold frame windy (update_simulation frame windy) (text "s1")
update_simulation-IsTold_example = update_simulation-IsTold frame windy (text "s1")

reset-clears_example :
    IsBare (reset a_reading table)
    × ((reset a_reading table).pod_grab_owner_by_id ≡ [])
    × (held_by (reset a_reading table).left_hand ≡ none)
    × (held_by (reset a_reading table).right_hand ≡ none)
reset-clears_example = reset-clears a_reading table table-IsOwned

abbrev controls : Controls
controls = record {
  desktop = record looking { scene = record table { desktop_target_pod_id = none } };
  pressed_keys = [];
  yaw = 0;
  pitch = 0;
  camera = origin;
  asks = [];
  bindings = [];
}

abbrev a_key : Text → Key
a_key code = record {
  code = code;
  repeats = false;
  meta = false;
  ctrl = false;
  alt = false;
  target = record {
    is_element = false;
    is_editable = false;
    is_input = false;
    is_text_area = false;
    is_select = false;
  };
}

abbrev inputs : List Input
inputs =
    types bearings (record { position = origin; direction = origin }) 9 (a_key (text "KeyW"))
    ∷ types bearings (record { position = origin; direction = origin }) 9 (a_key (text "KeyE"))
    ∷ aims ((some (text "s1") ∷ []) ∷ [])
    ∷ activates false
    ∷ []

controls-IsQuiet : IsQuiet controls
controls-IsQuiet = record { keys = λ e. refl; looks = λ e. refl; target = λ e. refl }

take_inputs-IsQuiet_example : IsQuiet (take_inputs inputs controls)
take_inputs-IsQuiet_example = take_inputs-IsQuiet inputs controls controls-IsQuiet
