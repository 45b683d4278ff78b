-- ===== src/Scene/Hud/Debug.antt =====
-- apps/frontend-webxr/src/scene.ts: what the HUD says of the hands, the frames and the table,
-- `updateHudDebugState` to `describeGustStatus`, and when it is drawn, `refreshHud`.
use hackz_megalo.Base.{
  ℕ, Bool, true, false, not, ◌&&◌, Option, none, some, List, ◌∷◌, ◌++◌, Text, text, if◌then◌else◌,
  is_some, text_eq,
}
use hackz_megalo.Scene.{Numbers, Handedness, left, right, GustSource, by_hand, by_desktop, Scene}
use hackz_megalo.Scene.Anchors.{AnchorStatus}
use hackz_megalo.Scene.Gusts.Triggers.{cooldown_of}
use hackz_megalo.Scene.Gpu.{FrameStats}
use hackz_megalo.Scene.Xr.{Xr, scene_of}
use hackz_megalo.Scene.Hud.{
  HandGesture, track_lost, describe_hand_gesture, describe_table_move_status, HudTargets,
  hud_targets,
}

-- `HudData`
pub record HudData : Type 0 where
  pub session_id : Text
  pub live : ℕ
  pub gone : ℕ
  pub connection : Text
  pub xr_active : Bool

module _ ⦃n : Numbers⦄ where
  -- `Math.round`, and a number as a text, whole and by `toFixed(1)`.
  pub record Formats : Type 0 where
    pub round : n.F → n.F
    pub whole : n.F → Text
    pub tenths : n.F → Text

  -- `HudDebugData`
  pub record HudDebugData : Type 0 where
    pub left_tracked : Bool
    pub right_tracked : Bool
    pub left_gesture : HandGesture
    pub right_gesture : HandGesture
    pub fps_text : Text
    pub cpu_frame_text : Text
    pub gpu_frame_text : Text
    pub targets : HudTargets
    pub gust_status : Text
    pub table_height_cm : n.F
    pub table_adjusting_hand : Option Handedness
    pub table_move_status : Text
    pub anchor_status : AnchorStatus

  abbrev pub describe_frame_rate : Formats → FrameStats → Text
  describe_frame_rate w s =
      if n.ge (n.of 0) s.fps then text "--" else w.whole (w.round s.fps) ++ text " fps"

  abbrev pub describe_cpu_frame_time : Formats → FrameStats → Text
  describe_cpu_frame_time w s =
      if n.ge (n.of 0) s.cpu_ms then text "--" else w.tenths s.cpu_ms ++ text " ms"

  abbrev pub describe_gpu_frame_time : Formats → FrameStats → Text
  describe_gpu_frame_time w s =
      if not s.extension
      then text "N/A"
      else elim s.gpu_ms [ none ↦ text "..." | some ms ↦ w.tenths ms ++ text " ms" ]

  -- What is left of a cooldown.
  abbrev pub cooldown_left : (now until : n.F) → n.F
  cooldown_left now until = n.max (n.of 0) (n.sub until now)

  abbrev pub cooldown_source : (left_left right_left desktop_left : n.F) → Text
  cooldown_source l r d =
      if n.ge d l && n.ge d r then text "D" else if n.ge l r then text "L" else text "R"

  abbrev pub ready_status : Option GustSource → Text
  ready_status none = text "READY"
  ready_status (some by_desktop) = text "DESKTOP READY"
  ready_status (some (by_hand left)) = text "LEFT READY"
  ready_status (some (by_hand right)) = text "RIGHT READY"

  unfoldable pub describe_gust_status : Formats → (now : n.F) → Scene → Text
  describe_gust_status w now s =
      let l = cooldown_left now (cooldown_of s.left_hand) in
      let r = cooldown_left now (cooldown_of s.right_hand) in
      let d = cooldown_left now s.desktop_gust_cooldown_until in
      let most = n.max (n.max l r) d in
      if n.gt most (n.of 0)
      then text "CD "
        ++ cooldown_source l r d
        ++ text " "
        ++ w.tenths (n.div most (n.of 1000))
        ++ text "s"
      else ready_status s.last_gust_source

  unfoldable pub hud_debug_state :
      Formats → (now : n.F) → (wrist_tracked right_tracked : Bool) → FrameStats → Xr → HudDebugData
  unfolding describe_gust_status describe_hand_gesture hud_targets describe_table_move_status
  hud_debug_state w now wrist_tracked right_tracked stats x = record {
    left_tracked = wrist_tracked;
    right_tracked = right_tracked;
    left_gesture = describe_hand_gesture (scene_of x).left_hand wrist_tracked;
    right_gesture = describe_hand_gesture (scene_of x).right_hand right_tracked;
    fps_text = describe_frame_rate w stats;
    cpu_frame_text = describe_cpu_frame_time w stats;
    gpu_frame_text = describe_gpu_frame_time w stats;
    targets = hud_targets (scene_of x);
    gust_status = describe_gust_status w now (scene_of x);
    table_height_cm = w.round (n.mul x.surface_height (n.of 100));
    table_adjusting_hand = (scene_of x).hud_slider_active_hand;
    table_move_status =
        describe_table_move_status x.table_move_mode (is_some (scene_of x).hud_slider_active_hand)
          right_tracked x.awaits_release;
    anchor_status = x.board.status;
  }

  -- What `resetHudDebugData` writes.
  abbrev pub reset_hud_debug_state : Formats → Xr → HudDebugData
  reset_hud_debug_state w x = record {
    left_tracked = false;
    right_tracked = false;
    left_gesture = track_lost;
    right_gesture = track_lost;
    fps_text = text "--";
    cpu_frame_text = text "--";
    gpu_frame_text = text "N/A";
    targets = record {
      pinch_target_id = none;
      grab_target_id = none;
      fingertip_hand = none;
      fingertip_target_id = none;
    };
    gust_status = text "READY";
    table_height_cm = w.round (n.mul x.surface_height (n.of 100));
    table_adjusting_hand = none;
    table_move_status = text "IDLE";
    anchor_status = x.board.status;
  }

  -- The HUD, and what it has drawn, the last first: the two records that `drawHud` is given. It also
  -- reads whether the table is moved and where the slider stands, which are not kept here.
  pub record Hud : Type 0 where
    pub hud_data : HudData
    pub hud_debug_data : HudDebugData
    pub last_signature : Text
    pub last_draw_at : n.F
    pub drawn : List (HudData × HudDebugData)

  -- `signature` is `JSON.stringify`.
  unfoldable pub refresh_hud :
      (signature : HudData → HudDebugData → Text) → (now : n.F) → (immediate : Bool) → Hud → Hud
  unfolding text_eq
  refresh_hud signature now immediate h =
      let now_signature = signature h.hud_data h.hud_debug_data in
      if text_eq now_signature h.last_signature
      then h
      else if not immediate && n.gt (n.of 80) (n.sub now h.last_draw_at)
      then h
      else record h {
        last_signature = now_signature;
        last_draw_at = now;
        drawn = (h.hud_data, h.hud_debug_data) ∷ h.drawn;
      }

  unfoldable pub set_hud_data :
      (signature : HudData → HudDebugData → Text) → (now : n.F) → HudData → Hud → Hud
  unfolding refresh_hud
  set_hud_data signature now to h = refresh_hud signature now true (record h { hud_data = to })

  unfoldable pub update_hud_debug_state :
      (signature : HudData → HudDebugData → Text)
      → Formats
      → (now : n.F) → (wrist_tracked right_tracked : Bool) → FrameStats
      → Xr
      → Hud
      → Hud
  unfolding hud_debug_state refresh_hud
  update_hud_debug_state signature w now wrist_tracked right_tracked stats x h =
      refresh_hud signature now false
        (record h { hud_debug_data = hud_debug_state w now wrist_tracked right_tracked stats x })

  unfoldable pub reset_hud_debug_data :
      (signature : HudData → HudDebugData → Text) → Formats → (now : n.F) → Xr → Hud → Hud
  unfolding refresh_hud
  reset_hud_debug_data signature w now x h =
      refresh_hud signature now true (record h { hud_debug_data = reset_hud_debug_state w x })
