-- ===== src/Scene/Xr/Frames.antt =====
-- apps/frontend-webxr/src/scene.ts: a frame, `renderFrame` and `updateWristHud`.
use hackz_megalo.Base.{
  Bool, true, false, not, ◌&&◌, ◌||◌, Option, none, some, List, [], Text, if◌then◌else◌,
}
use hackz_megalo.Scene.{
  Numbers, Handedness, left, right, Vector, Hand, Scene, disconnects, hand_of, put_hand,
}
use hackz_megalo.Scene.Grabs.{update_grab_interaction, clear_hand_state, clear_palm_contacts}
use hackz_megalo.Scene.Pods.{
  collect_pod_intersections, process_open_palm_contacts, find_pinch_candidate,
}
use hackz_megalo.Scene.Gusts.{Frame}
use hackz_megalo.Scene.Gusts.Triggers.{try_trigger_hand_gust}
use hackz_megalo.Scene.Hands.Pointing.{find_pointing_target}
use hackz_megalo.Scene.Simulation.{update_simulation}
use hackz_megalo.Scene.Desktop.{update_desktop_targeting}
use hackz_megalo.Scene.Desktop.Keys.{update_desktop_movement}
use hackz_megalo.Scene.Update.{update_pointing_highlights}
use hackz_megalo.Scene.Xr.{
  Xr, scene_of, is_presenting, with_scene, slide, tell_page, spatial_anchors_enabled,
}
use hackz_megalo.Scene.Xr.Moves.{
  start_table_move_mode, update_table_move_interaction, sync_board_pose_from_anchor,
}
use hackz_megalo.Scene.Xr.Sliders.{update_table_height_slider_interaction}
use hackz_megalo.Scene.Xr.Ends.{hide_wrist, still_table, clear_hands}
use hackz_megalo.Scene.Xr.Sources.{
  thumb, index, middle, palm, XrFrame, Seen, nothing_seen, tracks, see_sources,
}

module _ ⦃n : Numbers⦄ where
  -- The board follows its anchor, but while it is moved.
  unfoldable pub anchored : XrFrame → Xr → Xr
  unfolding sync_board_pose_from_anchor
  anchored f x =
      let b = record x {
        anchors_supported =
            spatial_anchors_enabled && (x.anchors_supported || f.features || f.creates);
      } in
      if b.table_move_mode then b else sync_board_pose_from_anchor f.anchor_pose b

  abbrev pub clear_untracked : XrFrame → Seen → Handedness → Scene → Scene
  clear_untracked f e hand s =
      if tracks e hand then s else clear_hand_state (f.clearing hand) hand true s

  abbrev pub hide_untracked : Seen → Xr → Xr
  hide_untracked e x = if e.wrist then x else slide none (hide_wrist x)

  abbrev pub aimed_hand : XrFrame → Handedness → Scene → Hand → Hand
  aimed_hand f hand s h = record h {
    pinch_candidate_id =
        if h.pinch_active
        then find_pinch_candidate (f.colliders thumb hand) (f.colliders index hand)
            (f.colliders middle hand) s
        else none;
    fingertip_target_id =
        if h.pointing_active
        then find_pointing_target f.pointing_places
            (collect_pod_intersections (f.colliders index hand) [] s) h s
        else none;
  }

  abbrev pub aim_hand : XrFrame → Handedness → Scene → Scene
  aim_hand f hand s = elim (hand_of s hand) [
    | none ↦ s
    | some h ↦ put_hand hand (aimed_hand f hand s h) s
  ]

  -- After the sources: the hands that are not tracked are cleared, the others aim.
  unfoldable pub settled_hands : XrFrame → Seen → Xr → Xr
  unfolding clear_hand_state collect_pod_intersections find_pinch_candidate find_pointing_target
  settled_hands f e x =
      let b = hide_untracked e x in
      with_scene
        (aim_hand f right
          (aim_hand f left (clear_untracked f e right (clear_untracked f e left (scene_of b)))))
        b

  -- What the right hand does but while it moves the table.
  abbrev pub unless_moving : Xr → (Scene → Scene) → Scene → Scene
  unless_moving x act s = if x.table_move_mode then s else act s

  abbrev pub touch_right : XrFrame → Xr → Scene → Scene
  touch_right f x s =
      if not x.table_move_mode
      then process_open_palm_contacts (f.striking right) (f.palm_places right)
          (f.colliders palm right) right s
      else clear_palm_contacts right [] s

  -- The hands grab, send gusts, point and strike.
  unfoldable pub acted : XrFrame → Xr → Xr
  unfolding update_grab_interaction try_trigger_hand_gust update_pointing_highlights
      process_open_palm_contacts clear_palm_contacts
  acted f x =
      let a =
        unless_moving x (update_grab_interaction (f.grabbing right) right)
          (update_grab_interaction (f.grabbing left) left (scene_of x)) in
      let b =
        unless_moving x (try_trigger_hand_gust (f.bearings right) (f.gust_handle right) right)
          (try_trigger_hand_gust (f.bearings left) (f.gust_handle left) left a) in
      let c =
        process_open_palm_contacts (f.striking left) (f.palm_places left) (f.colliders palm left)
          left (update_pointing_highlights (is_presenting x) b) in
      with_scene (touch_right f x c) x

  abbrev pub disconnected : n.F → Xr → Xr
  disconnected now x = tell_page disconnects (record x { last_disconnect_at = now })

  abbrev pub is_disconnect_due : n.F → Xr → Bool
  is_disconnect_due now x = n.gt (n.sub now x.last_disconnect_at) (n.of 1200)

  -- The buttons of the wrist's menu.
  unfoldable pub pressed : XrFrame → Seen → Xr → Xr
  unfolding start_table_move_mode
  pressed f e x =
      let fresh = e.pinch && not x.pinch_latch in
      let b =
        if e.move && fresh
        then start_table_move_mode f.releasing x
        else if e.disconnect && fresh && is_disconnect_due f.now x
        then disconnected f.now x
        else x in
      record b { pinch_latch = (e.disconnect || e.move) && e.pinch }

  -- From the slider on.
  unfoldable pub handled : XrFrame → Seen → Xr → Xr
  unfolding update_table_height_slider_interaction update_table_move_interaction
  handled f e x = pressed f e (
      acted f (
        update_table_move_interaction f.facing f.viewer f.creates e.right_tracked
          (update_table_height_slider_interaction f.to_hud e.wrist (tracks e) x)))

  abbrev pub after_sources : XrFrame → Seen × Xr → Xr
  after_sources f seen = handled f seen.0 (settled_hands f seen.0 seen.1)

  unfoldable pub update_wrist_hud : XrFrame → Xr → Xr
  unfolding clear_hand_state
  update_wrist_hud f x =
      if not f.is_ready
      then with_scene (clear_hands (f.clearing left) (f.clearing right) true (scene_of x))
          (hide_wrist x)
      else after_sources f (see_sources f f.sources (nothing_seen, anchored f x))

  -- What a frame reads: the engine, the session, and for the desktop the camera's direction and up, and
  -- the objects that the ray meets.
  pub record PageFrame : Type 0 where
    pub simulation : Frame
    pub session : XrFrame
    pub direction : Vector
    pub up : Vector
    pub objects : List (List (Option Text))

  abbrev pub quiet_hands : XrFrame → Scene → Scene
  quiet_hands f s =
      clear_hands (f.clearing left) (f.clearing right) false
        (clear_palm_contacts right [] (clear_palm_contacts left [] s))

  abbrev pub on_desktop : PageFrame → Xr → Xr
  on_desktop f x =
      let c = update_desktop_movement f.simulation.delta f.direction f.up x.controls in
      record x { controls = record c { desktop = update_desktop_targeting f.objects c.desktop } }

  -- A frame out of XR, past the simulation.
  unfoldable pub desktop_frame : PageFrame → Xr → Xr
  unfolding clear_palm_contacts clear_hand_state update_desktop_movement update_desktop_targeting
  desktop_frame f x =
      let b = still_table (hide_wrist (record x { pinch_latch = false })) in
      on_desktop f (with_scene (quiet_hands f.session (scene_of b)) b)

  unfoldable pub render_frame : PageFrame → Xr → Xr
  unfolding update_simulation
  render_frame f x =
      let b = with_scene (update_simulation f.simulation (scene_of x)) x in
      if not (is_presenting b) then desktop_frame f b else update_wrist_hud f.session b
