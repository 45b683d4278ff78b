-- ===== src/Scene/Xr/Moves.antt =====
-- apps/frontend-webxr/src/scene.ts: the player moves the table with the right hand,
-- `startTableMoveMode` to `syncBoardPoseFromAnchor`.
use hackz_megalo.Base.{
  ℕ, Bool, true, false, not, ◌&&◌, ◌||◌, Option, none, some, if◌then◌else◌, or_else, ◌>>=◌,
}
use hackz_megalo.Scene.{Numbers, right, Vector, clamp, Hand, Scene, put_hand}
use hackz_megalo.Scene.Grabs.{Reading, release_grab, named}
use hackz_megalo.Scene.Grabs.Owners.{held_by}
use hackz_megalo.Scene.Gusts.{board_top_y}
use hackz_megalo.Scene.Anchors.{locking, unavailable, create_board_anchor}
use hackz_megalo.Scene.Xr.{
  Xr, scene_of, is_presenting, with_scene, slide, min_surface_height, max_surface_height, board_at,
  free_board, spatial_anchors_enabled,
}

module _ ⦃n : Numbers⦄ where
  -- A pose, and how the browser gives that of an anchor.
  pub record Pose : Type 0 where
    pub position : Vector
    pub rotation : n.Quaternion

  abbrev pub let_right_go : Reading → Scene → Scene
  let_right_go r s = elim (named (held_by s.right_hand)) [
    | none ↦ s
    | some id ↦ release_grab r right s
  ]

  unfoldable pub start_table_move_mode : Reading → Xr → Xr
  unfolding release_grab
  start_table_move_mode r x =
      if not (is_presenting x)
      then x
      else let b = slide none (record x { table_move_mode = true; awaits_release = true }) in
        free_board (with_scene (let_right_go r (scene_of b)) b)

  unfoldable pub update_table_move_preview_pose :
      (facing : Vector → Vector → n.Quaternion) → (viewer target : Vector) → Xr → Xr
  update_table_move_preview_pose facing viewer target x =
      board_at facing viewer target
        (record x { surface_height = clamp target.y min_surface_height max_surface_height })

  abbrev pub aimless : Hand → Hand
  aimless h = record h { pinch_candidate_id = none; fingertip_target_id = none }

  -- The board is put down: the end of `updateTableMoveInteraction`. `creates` is whether the frame has
  -- `createAnchor`.
  unfoldable pub put_down : (creates : Bool) → Xr → Xr
  unfolding create_board_anchor
  put_down creates x =
      let b = record x { table_move_mode = false; awaits_release = false } in
      record b {
        board =
            if spatial_anchors_enabled && b.anchors_supported && creates
            then create_board_anchor creates (record (b.board) { status = locking })
            else record (b.board) { status = unavailable };
      }

  abbrev pub confirm : (creates pinches : Bool) → Xr → Xr
  confirm creates pinches x =
      if not pinches
      then record x { awaits_release = false }
      else if x.awaits_release
      then x
      else put_down creates x

  abbrev pub move_table :
      (facing : Vector → Vector → n.Quaternion)
      → (viewer : Vector) → (creates : Bool) → Hand
      → (center : Vector) → Xr
      → Xr
  move_table facing viewer creates h center x = confirm creates h.pinch_active (
      update_table_move_preview_pose facing viewer (or_else h.pinch_midpoint_world center)
        (with_scene (put_hand right (aimless h) (scene_of x)) x))

  -- The right hand and the middle of its palm, where it has one.
  abbrev pub right_palm : Scene → Option (Hand × Vector)
  right_palm s = do h ← s.right_hand; center ← h.palm_center_world; some (h, center)

  unfoldable pub update_table_move_interaction :
      (facing : Vector → Vector → n.Quaternion)
      → (viewer : Vector) → (creates right_tracked : Bool) → Xr
      → Xr
  unfolding update_table_move_preview_pose put_down
  update_table_move_interaction facing viewer creates right_tracked x =
      if not x.table_move_mode || not right_tracked then x else elim (right_palm (scene_of x)) [
        | none ↦ x
        | some (h, center) ↦ move_table facing viewer creates h center x
      ]

  unfoldable pub sync_board_pose_from_anchor : (pose : ℕ → Option Pose) → Xr → Xr
  sync_board_pose_from_anchor pose x = elim (x.board.anchor >>= pose) [
    | none ↦ x
    | some p ↦ record x {
      board_position = p.position;
      board_rotation = p.rotation;
      surface_height = n.add p.position.y board_top_y;
    }
  ]
