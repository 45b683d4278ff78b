-- ===== src/Scene/Xr.antt =====
-- apps/frontend-webxr/src/scene.ts: the board while the page is in XR, with the fields of the scene
-- that XR uses.
pub mod Moves
pub mod Sliders
pub mod Ends
pub mod Sources
pub mod Frames
pub mod Steady
pub mod Lifecycle
pub mod Stages
pub mod Rounds
pub mod Histories
pub mod Kept
pub mod Apart
pub mod Pinches
pub mod Confirms
pub mod Inputs
use hackz_megalo.Base.{
  ℕ, suc, Bool, true, false, not, ◌&&◌, ◌||◌, Option, none, some, List, [], ◌∷◌, ◌++◌,
  if◌then◌else◌, is_some, or_else, ◌>>=◌,
}
use hackz_megalo.Scene.{
  Numbers, Handedness, left, right, Vector, origin, add_scaled, length_sq, normalized, frac, clamp,
  lerp, Hand, Scene, Callback, changes_xr, hand_of, put_hand,
}
use hackz_megalo.Scene.Grabs.{Reading, release_grab, clear_hand_state, named, same_hand}
use hackz_megalo.Scene.Grabs.Owners.{held_by}
use hackz_megalo.Scene.Gusts.{ahead, board_top_y}
use hackz_megalo.Scene.Gusts.Triggers.{level}
use hackz_megalo.Scene.Desktop.{set_desktop_target_pod}
use hackz_megalo.Scene.Desktop.Keys.{Controls, look, let_keys_go, exit_pointer_lock, rested}
use hackz_megalo.Scene.Update.{reset}
use hackz_megalo.Scene.Anchors.{
  BoardAnchor, locking, ready, unavailable, clear_board_anchor, create_board_anchor,
}

-- `SPATIAL_ANCHORS_ENABLED`
unfoldable pub spatial_anchors_enabled : Bool
spatial_anchors_enabled = false

module _ ⦃n : Numbers⦄ where
  -- The fields of `PodScene` that XR uses, with those of the desktop, which hold the scene.
  pub record Xr : Type 0 where
    pub controls : Controls
    pub wrist_visible : Bool
    pub pinch_latch : Bool
    pub table_move_mode : Bool
    pub awaits_release : Bool
    pub last_disconnect_at : n.F
    pub surface_height : n.F
    pub board_position : Vector
    pub board_rotation : n.Quaternion
    pub anchors_supported : Bool
    pub board : BoardAnchor

  abbrev pub scene_of : Xr → Scene
  scene_of x = x.controls.desktop.scene

  abbrev pub is_presenting : Xr → Bool
  is_presenting x = x.controls.desktop.presenting

  abbrev pub with_scene : Scene → Xr → Xr
  with_scene s x = record x {
    controls = record (x.controls) { desktop = record (x.controls.desktop) { scene = s } };
  }

  abbrev pub slide : Option Handedness → Xr → Xr
  slide hand x = with_scene (record (scene_of x) { hud_slider_active_hand = hand }) x

  abbrev pub tell_page : Callback → Xr → Xr
  tell_page c x =
      with_scene (record (scene_of x) { callbacks = (scene_of x).callbacks ++ c ∷ [] }) x

  abbrev pub min_surface_height : n.F
  min_surface_height = frac 22 100

  abbrev pub max_surface_height : n.F
  max_surface_height = n.of 1

  -- The rotation that `lookAt` gives at a place to look at another, turned by half a turn, is `facing`.
  abbrev pub board_at :
      (facing : Vector → Vector → n.Quaternion) → (viewer point : Vector) → Xr → Xr
  board_at facing viewer point x =
      let place = record point { y = n.sub x.surface_height board_top_y } in
      record x {
        board_position = place;
        board_rotation = facing place (record viewer { y = place.y });
      }

  abbrev pub forward : Vector → Vector
  forward direction =
      if n.gt (frac 1 1000000) (length_sq (level direction))
      then ahead
      else normalized (level direction)

  -- `position` and `direction` are those of the XR camera.
  unfoldable pub place_board_for_xr :
      (facing : Vector → Vector → n.Quaternion) → (position direction : Vector) → Xr → Xr
  place_board_for_xr facing position direction x =
      board_at facing position (add_scaled position (forward direction) (frac 45 100)) x

  abbrev pub reset_board_placement : Xr → Xr
  reset_board_placement x = record x { board_position = origin; board_rotation = n.identity }

  abbrev pub apply_current_board_height : Xr → Xr
  apply_current_board_height x = if not (is_presenting x) then x else record x {
    board_position = record (x.board_position) { y = n.sub x.surface_height board_top_y };
  }

  -- `clearBoardAnchor()`
  abbrev pub free_board : Xr → Xr
  free_board x = record x {
    board = clear_board_anchor (is_presenting x) x.anchors_supported true x.board;
  }
