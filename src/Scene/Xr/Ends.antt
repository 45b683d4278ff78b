-- ===== src/Scene/Xr/Ends.antt =====
-- apps/frontend-webxr/src/scene.ts: into XR and out of it, `enterXR`, `exitXR`, `handleXREnd`, and
-- the whole of `reset`.
use hackz_megalo.Base.{Bool, true, false, ◌&&◌, none, if◌then◌else◌}
use hackz_megalo.Scene.{Numbers, left, right, Vector, frac, Scene, changes_xr}
use hackz_megalo.Scene.Grabs.{Reading, clear_hand_state}
use hackz_megalo.Scene.Desktop.{set_desktop_target_pod}
use hackz_megalo.Scene.Desktop.Keys.{Controls, look, let_keys_go, rested}
use hackz_megalo.Scene.Update.{reset}
use hackz_megalo.Scene.Anchors.{ready, unavailable}
use hackz_megalo.Scene.Xr.{
  Xr, scene_of, with_scene, slide, tell_page, place_board_for_xr, reset_board_placement, free_board,
  spatial_anchors_enabled,
}

module _ ⦃n : Numbers⦄ where
  abbrev pub hide_wrist : Xr → Xr
  hide_wrist x = record x { wrist_visible = false }

  abbrev pub still_table : Xr → Xr
  still_table x = record x { table_move_mode = false; awaits_release = false }

  -- `exitXR` past its `await`, and the whole of it where there is no session.
  unfoldable pub exited : Xr → Xr
  exited x = free_board (
      still_table
        (slide none (reset_board_placement (hide_wrist (tell_page (changes_xr false) x)))))

  -- The desktop's keys, look and target are let go.
  abbrev pub let_desktop_go : Controls → Controls
  let_desktop_go c =
      let b = look false (let_keys_go c) in
      record b { desktop = set_desktop_target_pod none false b.desktop }

  abbrev pub clear_hands : Reading → Reading → (contacts : Bool) → Scene → Scene
  clear_hands r q contacts s =
      clear_hand_state q right contacts (clear_hand_state r left contacts s)

  unfoldable pub handle_xr_end : Reading → Reading → Xr → Xr
  unfolding set_desktop_target_pod clear_hand_state
  handle_xr_end r q x =
      let b = hide_wrist (tell_page (changes_xr false) x) in
      let c =
        still_table
          (slide none (record b { controls = let_desktop_go b.controls; pinch_latch = false })) in
      reset_board_placement (free_board (with_scene (clear_hands r q true (scene_of c)) c))

  -- `enterXR` up to the request of a session, where there is none.
  unfoldable pub entering : Xr → Xr
  unfolding set_desktop_target_pod
  entering x = record x { controls = rested x.controls }

  -- `enterXR` past its last `await`. `features` is whether the session has anchors.
  unfoldable pub entered :
      (features : Bool)
      → (facing : Vector → Vector → n.Quaternion) → (position direction : Vector) → Xr
      → Xr
  unfolding place_board_for_xr
  entered features facing position direction x =
      let supported = spatial_anchors_enabled && features in
      tell_page (changes_xr true) (
        place_board_for_xr facing position direction (record x {
          anchors_supported = supported;
          board = record (x.board) { status = if supported then ready else unavailable };
        }))

  abbrev pub reset_desktop_camera : Controls → Controls
  reset_desktop_camera c = record c {
    yaw = n.of 0;
    pitch = n.neg (frac 24 100);
    camera = record { x = n.of 0; y = frac 36 100; z = frac 82 100 };
  }

  -- `reset`, with the scene's part of it.
  unfoldable pub reset_all : Reading → Xr → Xr
  unfolding set_desktop_target_pod
  reset_all r x =
      let b = with_scene (reset r (scene_of x)) x in
      free_board (
        still_table (
          reset_board_placement (record b {
            wrist_visible = false;
            controls = rested (reset_desktop_camera b.controls);
            pinch_latch = false;
            last_disconnect_at = n.of 0;
          })))
