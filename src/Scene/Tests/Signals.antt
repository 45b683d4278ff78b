-- ===== src/Scene/Tests/Signals.antt =====
-- The theorems on the board's anchor, the GPU's timer, the HUD and the pointing finger at concrete
-- inputs.
use hackz_megalo.Base.{
  ◌≡◌, ◌≢◌, refl, sym, ℕ, true, false, none, some, [], ◌∷◌, ◌++◌, Text, text, arith, text_eq,
  lookup, includes, eq_Text, eq_ℕ, count_if, true_not_false,
}
use hackz_megalo.Scene.{origin, Hand}
use hackz_megalo.Scene.Tests.{natural, idle_hand, table}
use hackz_megalo.Scene.Anchors.{
  BoardAnchor, ready, anchor_made, clear_board_anchor, create_board_anchor,
}
use hackz_megalo.Scene.Anchors.Histories.{
  clears, asks, makes, anchor_step, anchor_steps, IsAccounted, IsTimed, anchor_steps-IsAccounted,
  late_anchor,
}
use hackz_megalo.Scene.Gpu.{GpuReading, FrameStats}
use hackz_megalo.Scene.Gpu.Queries.{begins, finishes, IsSettled, gpu_steps, gpu_steps-IsSettled}
use hackz_megalo.Scene.Pods.{is_pod_interactable}
use hackz_megalo.Scene.Hands.Pointing.{find_pointing_target, nearest_from}
use hackz_megalo.Scene.Hands.Nearest.{IsStrict}
use hackz_megalo.Scene.Hands.Aims.{reach, find_pointing_target_lem}
use hackz_megalo.Scene.Hud.{track_lost}
use hackz_megalo.Scene.Hud.Debug.{HudData, HudDebugData, Hud, refresh_hud}
use hackz_megalo.Scene.Hud.Redraws.{tells, hud_steps, drawn_signature, hud_steps-shows}

abbrev pub a_board : BoardAnchor
a_board = record {
  anchor = none;
  status = ready;
  request_id = 0;
  pending = [];
  made = [];
  deleted = [];
}

none_made : IsAccounted 7 a_board
unfolding count_if
none_made = refl

-- The anchor 7 is made for the first request, and given up.
anchor_steps-IsAccounted_example :
    IsAccounted 7 (anchor_steps (asks true ∷ makes true true 1 7 ∷ clears true true ∷ []) a_board)
anchor_steps-IsAccounted_example =
    anchor_steps-IsAccounted 7 (asks true ∷ makes true true 1 7 ∷ clears true true ∷ []) a_board
      none_made

none_pending : IsTimed a_board
unfolding includes
none_pending request p = absurd (true_not_false (sym p))

first_pending : includes (anchor_steps (asks true ∷ []) a_board).pending 1 ≡ true
unfolding anchor_steps anchor_step create_board_anchor includes
first_pending = refl

-- The first request is answered after the second was made.
late_anchor_example :
    let a =
      anchor_steps
        (asks true ∷ [])
        (clear_board_anchor true true true (anchor_steps (asks true ∷ []) a_board)) in
    ((anchor_made true true 1 7 a).anchor ≡ a.anchor)
    × ((anchor_made true true 1 7 a).deleted ≡ a.deleted ++ 7 ∷ [])
late_anchor_example =
    late_anchor true true true true 1 7 (asks true ∷ []) (asks true ∷ []) a_board none_pending
      first_pending

abbrev a_gpu : GpuReading
a_gpu = record {
  webgl2 = true;
  offers = true;
  disjoint = false;
  available = λ q. true;
  elapsed = λ q. 2000000;
  is_finite = λ x. true;
}

abbrev pub no_stats : FrameStats
no_stats = record {
  fps = 0;
  cpu_ms = 0;
  gpu_ms = none;
  extension = false;
  active = none;
  pending = [];
  made = [];
  deleted = [];
}

none_asked : IsSettled 3 no_stats
unfolding count_if
none_asked = refl

gpu_steps-IsSettled_example : IsSettled 3 (
    gpu_steps
      ((a_gpu, begins (some 3)) ∷ (a_gpu, finishes) ∷ (a_gpu, begins (some 4)) ∷ [])
      no_stats)
gpu_steps-IsSettled_example =
    gpu_steps-IsSettled 3
      ((a_gpu, begins (some 3)) ∷ (a_gpu, finishes) ∷ (a_gpu, begins (some 4)) ∷ []) no_stats
      none_asked

is_strict : IsStrict
is_strict = record {
  irreflexive = λ a. ground arith;
  transitive = λ a b c p q. ground (arith, p, q);
}

abbrev pointing : Hand
pointing = record idle_hand { pointing_active = true; index_tip_local = some origin }

points_at : find_pointing_target (λ h. origin) (text "s2" ∷ []) pointing table ≡ some (text "s2")
unfolding find_pointing_target nearest_from lookup is_pod_interactable text_eq
points_at = refl

find_pointing_target_lem_example :
    let r = reach (λ h. origin) origin table in
    (includes (text "s2" ∷ []) (text "s2") ≡ true)
    × ((d : ℕ) × (r (text "s2") ≡ some d)
        × ((j : Text) (e : ℕ)
            → includes (text "s2" ∷ []) j ≡ true
            → r j ≡ some e
            → natural.gt d e ≡ false))
find_pointing_target_lem_example =
    find_pointing_target_lem is_strict (λ h. origin) (text "s2" ∷ []) pointing origin table
      (text "s2") refl points_at

abbrev some_data : HudData
some_data = record {
  session_id = text "game";
  live = 3;
  gone = 0;
  connection = text "LIVE";
  xr_active = true;
}

abbrev some_debug : HudDebugData
some_debug = record {
  left_tracked = false;
  right_tracked = false;
  left_gesture = track_lost;
  right_gesture = track_lost;
  fps_text = text "--";
  cpu_frame_text = text "--";
  gpu_frame_text = text "N/A";
  targets = record {
    pinch_target_id = none;
    grab_target_id = none;
    fingertip_hand = none;
    fingertip_target_id = none;
  };
  gust_status = text "READY";
  table_height_cm = 30;
  table_adjusting_hand = none;
  table_move_status = text "IDLE";
  anchor_status = ready;
}

abbrev a_hud : Hud
a_hud = record {
  hud_data = some_data;
  hud_debug_data = some_debug;
  last_signature = [];
  last_draw_at = 0;
  drawn = [];
}

abbrev a_signature : HudData → HudDebugData → Text
a_signature d b = text "[" ++ d.session_id ++ b.gust_status

is_filled : (d : HudData) (b : HudDebugData) → a_signature d b ≢ []
is_filled d b p = ground (arith, p)

hud_steps-shows_example :
    let g = hud_steps a_signature (tells 10 some_data ∷ []) a_hud in
    drawn_signature a_signature (refresh_hud a_signature 20 true g)
    ≡ some (a_signature g.hud_data g.hud_debug_data)
hud_steps-shows_example =
    hud_steps-shows a_signature (tells 10 some_data ∷ []) 20 a_hud is_filled refl
