-- ===== src/Scene/Xr/Rounds.antt =====
-- A frame keeps what the table's move asks of the right hand.
use hackz_megalo.Base.{Bool, true, false, not, ◌≡◌, refl, [], if_cases, ◌&&◌}
use hackz_megalo.Scene.{Numbers, Handedness, left, right, Scene}
use hackz_megalo.Scene.Grabs.{
  Reading, clear_hand_state, clear_palm_contacts, update_grab_interaction,
}
use hackz_megalo.Scene.Grabs.Owners.{grip_of, clear_hand_state-Obeys, update_grab_interaction-Obeys}
use hackz_megalo.Scene.Grabs.Holds.{Rule, Obeys}
use hackz_megalo.Scene.Pods.{process_open_palm_contacts}
use hackz_megalo.Scene.Pods.Owned.{process-Obeys}
use hackz_megalo.Scene.Gusts.Triggers.{try_trigger_hand_gust}
use hackz_megalo.Scene.Simulation.Owned.{try_trigger_hand_gust-grip}
use hackz_megalo.Scene.Update.{update_pointing_highlights}
use hackz_megalo.Scene.Xr.{Xr, scene_of, with_scene, is_presenting}
use hackz_megalo.Scene.Xr.Sliders.{update_table_height_slider_interaction}
use hackz_megalo.Scene.Xr.Ends.{clear_hands, hide_wrist}
use hackz_megalo.Scene.Xr.Sources.{palm, XrFrame, Seen, see_sources, tracks, nothing_seen}
use hackz_megalo.Scene.Xr.Frames.{
  anchored, settled_hands, unless_moving, touch_right, acted, pressed, disconnected,
  is_disconnect_due, handled, update_wrist_hud,
}
use hackz_megalo.Scene.Xr.Moves.{start_table_move_mode, update_table_move_interaction}
use hackz_megalo.Scene.Xr.Steady.{
  IsSteady, same-IsSteady, scene-IsSteady, start-IsSteady, move_interaction-IsSteady,
  left-AllowsTaking, right-AllowsTaking,
}
use hackz_megalo.Scene.Xr.Stages.{
  slider-IsSteady, see_sources-IsSteady, anchored-IsSteady, settled_hands-IsSteady,
}

module _ ⦃n : Numbers⦄ where
  unless_moving-Obeys :
      {a : Rule} (x : Xr) (act : Scene → Scene) (s : Scene)
      → (x.table_move_mode ≡ false → Obeys a (grip_of s) → Obeys a (grip_of (act s)))
      → Obeys a (grip_of s)
      → Obeys a (grip_of (unless_moving x act s))
  unless_moving-Obeys {a} x act s h w =
      if_cases (λ y. Obeys a (grip_of y)) x.table_move_mode s (act s) (λ e. w) (λ e. h e w)

  highlights-grip :
      (presenting : Bool) (s : Scene)
      → grip_of (update_pointing_highlights presenting s) ≡ grip_of s
  unfolding update_pointing_highlights
  highlights-grip presenting s = refl

  contacts-grip :
      (hand : Handedness) (s : Scene) → grip_of (clear_palm_contacts hand [] s) ≡ grip_of s
  unfolding clear_palm_contacts
  contacts-grip hand s = refl

  touch_right-Obeys :
      {a : Rule} (f : XrFrame) (x : Xr) (s : Scene)
      → Obeys a (grip_of s)
      → Obeys a (grip_of (touch_right f x s))
  touch_right-Obeys {a} f x s w =
      if_cases (λ y. Obeys a (grip_of y)) (not x.table_move_mode) _ (clear_palm_contacts right [] s)
        (λ e.
          process-Obeys (f.striking right) (f.palm_places right) (f.colliders palm right) right s w)
        (λ e. rw (contacts-grip right s) w)

  acted-IsSteady : (f : XrFrame) (x : Xr) → IsSteady x → IsSteady (acted f x)
  unfolding acted
  acted-IsSteady f x =
      let m = x.table_move_mode in
      let grab = update_grab_interaction (f.grabbing right) right in
      let a = update_grab_interaction (f.grabbing left) left (scene_of x) in
      let blow = try_trigger_hand_gust (f.bearings right) (f.gust_handle right) right in
      let b = unless_moving x grab a in
      let c = try_trigger_hand_gust (f.bearings left) (f.gust_handle left) left b in
      let d = unless_moving x blow c in
      let e = update_pointing_highlights (is_presenting x) d in
      let g =
        process_open_palm_contacts (f.striking left) (f.palm_places left) (f.colliders palm left)
          left e in
      scene-IsSteady x (touch_right f x g) (λ o. touch_right-Obeys f x g (
        process-Obeys (f.striking left) (f.palm_places left) (f.colliders palm left) left e (
          rw (highlights-grip (is_presenting x) d) (
            unless_moving-Obeys x blow c
              (λ off p.
                rw (try_trigger_hand_gust-grip (f.bearings right) (f.gust_handle right) right c) p)
              (rw (try_trigger_hand_gust-grip (f.bearings left) (f.gust_handle left) left b) (
                unless_moving-Obeys x grab a
                  (λ off p.
                    update_grab_interaction-Obeys (f.grabbing right) right a
                      (right-AllowsTaking m off) p)
                  (update_grab_interaction-Obeys (f.grabbing left) left (scene_of x)
                    (left-AllowsTaking m) o)))))))

  pressed-IsSteady : (f : XrFrame) (e : Seen) (x : Xr) → IsSteady x → IsSteady (pressed f e x)
  unfolding pressed
  pressed-IsSteady f e x w =
      let fresh = e.pinch && not x.pinch_latch in
      same-IsSteady _ (pressed f e x) refl refl refl (
        if_cases IsSteady (e.move && fresh) (start_table_move_mode f.releasing x) _
          (λ p. start-IsSteady f.releasing x w)
          (λ p.
            if_cases IsSteady (e.disconnect && fresh && is_disconnect_due f.now x)
              (disconnected f.now x) x
              (λ q. same-IsSteady x (disconnected f.now x) refl refl refl w) (λ q. w)))

  pub clear_hands-Obeys :
      {a : Rule} (r q : Reading) (contacts : Bool) (s : Scene)
      → Obeys a (grip_of s)
      → Obeys a (grip_of (clear_hands r q contacts s))
  clear_hands-Obeys r q contacts s w =
      clear_hand_state-Obeys q right contacts (clear_hand_state r left contacts s)
        (clear_hand_state-Obeys r left contacts s w)

  -- In XR.
  pub wrist_hud-IsSteady : (f : XrFrame) (x : Xr) → IsSteady x → IsSteady (update_wrist_hud f x)
  unfolding update_wrist_hud handled
  wrist_hud-IsSteady f x w =
      let seen = see_sources f f.sources (nothing_seen, anchored f x) in
      let e = seen.0 in
      let b = settled_hands f e seen.1 in
      let c = update_table_height_slider_interaction f.to_hud e.wrist (tracks e) b in
      let d = update_table_move_interaction f.facing f.viewer f.creates e.right_tracked c in
      if_cases IsSteady (not f.is_ready)
        (with_scene (clear_hands (f.clearing left) (f.clearing right) true (scene_of x))
          (hide_wrist x))
        _
        (λ p.
          scene-IsSteady (hide_wrist x) _
            (λ o. clear_hands-Obeys (f.clearing left) (f.clearing right) true (scene_of x) o)
            (same-IsSteady x (hide_wrist x) refl refl refl w))
        (λ p. pressed-IsSteady f e (acted f d) (
          acted-IsSteady f d (
            move_interaction-IsSteady f.facing f.viewer f.creates e.right_tracked c (
              slider-IsSteady f.to_hud e.wrist (tracks e) b (
                settled_hands-IsSteady f e seen.1 (
                  see_sources-IsSteady f f.sources nothing_seen (anchored f x)
                    (anchored-IsSteady f x w)))))))
