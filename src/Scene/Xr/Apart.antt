-- ===== src/Scene/Xr/Apart.antt =====
-- Disconnections by the button of the wrist's menu lie more than 1200 milliseconds apart.
use hackz_megalo.Base.{
  true_not_false, Bool, true, false, not, ◌≡◌, ◌≢◌, refl, sym, ap, ◌∙◌, inl, inr, none, List, [],
  ◌∷◌, Option-cases, if_cases, arith, All, ◌⊎◌,
}
use hackz_megalo.Scene.{Numbers, Vector, Scene}
use hackz_megalo.Scene.Grabs.{Reading, release_grab, named}
use hackz_megalo.Scene.Grabs.Owners.{held_by}
use hackz_megalo.Scene.Xr.{Xr, scene_of, with_scene, is_presenting, place_board_for_xr}
use hackz_megalo.Scene.Xr.Moves.{
  start_table_move_mode, let_right_go, update_table_move_interaction, right_palm,
  update_table_move_preview_pose, put_down,
}
use hackz_megalo.Scene.Xr.Sliders.{update_table_height_slider_interaction}
use hackz_megalo.Scene.Xr.Ends.{exited, handle_xr_end, entering, entered}
use hackz_megalo.Scene.Xr.Sources.{XrFrame, Seen, see_sources, tracks, nothing_seen}
use hackz_megalo.Scene.Xr.Frames.{
  anchored, settled_hands, acted, pressed, is_disconnect_due, handled, update_wrist_hud,
  desktop_frame, render_frame, PageFrame,
}
use hackz_megalo.Scene.Simulation.{update_simulation}
use hackz_megalo.Scene.Xr.Lifecycle.{dispose}
use hackz_megalo.Scene.Xr.Histories.{
  loads, disposes, XrEvent, renders, shows, takes, resets, starts_entering, leaves, enters, ends,
  answers, refuses, presents, xr_step, xr_steps,
}
use hackz_megalo.Scene.Xr.Kept.{
  slider-kept, see_sources-kept, anchored-kept, settled_hands-kept, acted-kept,
}

module _ ⦃n : Numbers⦄ where
  move-last :
      (facing : Vector → Vector → n.Quaternion) (viewer : Vector) (creates tracked : Bool) (x : Xr)
      → (update_table_move_interaction facing viewer creates tracked x).last_disconnect_at
        ≡ x.last_disconnect_at
  unfolding update_table_move_interaction update_table_move_preview_pose put_down
  move-last facing viewer creates tracked x = elim (Option-cases (right_palm (scene_of x))) [
    | inl e ↦ ground (arith, e)
    | inr ((h, center), e) ↦ ground (arith, e)
  ]

  pressed-last :
      (f : XrFrame) (e : Seen) (x : Xr)
      → is_disconnect_due f.now x ≡ false
      → (pressed f e x).last_disconnect_at ≡ x.last_disconnect_at
  unfolding pressed start_table_move_mode
  pressed-last f e x due = ground (arith, due)

  handled-last :
      (f : XrFrame) (e : Seen) (x : Xr)
      → is_disconnect_due f.now x ≡ false
      → (handled f e x).last_disconnect_at ≡ x.last_disconnect_at
  unfolding handled
  handled-last f e x due =
      let a = update_table_height_slider_interaction f.to_hud e.wrist (tracks e) x in
      let b = update_table_move_interaction f.facing f.viewer f.creates e.right_tracked a in
      let same =
        ap (λ (k : n.F × Bool × Bool). k.0) (acted-kept f b)
        ∙ move-last f.facing f.viewer f.creates e.right_tracked a
        ∙ ap (λ (k : n.F × Bool × Bool). k.0) (slider-kept f.to_hud e.wrist (tracks e) x) in
      pressed-last f e (acted f b) (ap (λ t. n.gt (n.sub f.now t) (n.of 1200)) same ∙ due) ∙ same

  wrist_hud-last :
      (f : XrFrame) (x : Xr)
      → is_disconnect_due f.now x ≡ false
      → (update_wrist_hud f x).last_disconnect_at ≡ x.last_disconnect_at
  unfolding update_wrist_hud
  wrist_hud-last f x due =
      let seen = see_sources f f.sources (nothing_seen, anchored f x) in
      let same =
        ap (λ (k : n.F × Bool × Bool). k.0)
          (settled_hands-kept f seen.0 seen.1
            ∙ see_sources-kept f f.sources (nothing_seen, anchored f x)
            ∙ anchored-kept f x) in
      if_cases (λ (y : Xr). y.last_disconnect_at ≡ x.last_disconnect_at) (not f.is_ready) _ _
        (λ e. refl)
        (λ e.
          handled-last f seen.0 (settled_hands f seen.0 seen.1)
            (ap (λ t. n.gt (n.sub f.now t) (n.of 1200)) same ∙ due)
          ∙ same)

  -- What happens no later than 1200 milliseconds after a time, the page's reset apart.
  abbrev pub is_within : n.F → XrEvent → Bool
  is_within t (renders f) = not (n.gt (n.sub f.session.now t) (n.of 1200))
  is_within t (shows supply view) = true
  is_within t (takes i) = true
  is_within t (resets r) = false
  is_within t starts_entering = true
  is_within t leaves = true
  is_within t (enters features facing position direction) = true
  is_within t (ends r q) = true
  is_within t (answers request k) = true
  is_within t (refuses request) = true
  is_within t (loads r handles) = true
  is_within t disposes = true
  is_within t (presents b) = true

  frame-last :
      (f : PageFrame) (x : Xr)
      → is_disconnect_due f.session.now x ≡ false
      → (render_frame f x).last_disconnect_at ≡ x.last_disconnect_at
  unfolding render_frame desktop_frame
  frame-last f x due =
      let b = with_scene (update_simulation f.simulation (scene_of x)) x in
      if_cases (λ (y : Xr). y.last_disconnect_at ≡ x.last_disconnect_at) (not (is_presenting b))
        (desktop_frame f b) (update_wrist_hud f.session b) (λ e. refl)
        (λ e. wrist_hud-last f.session b due)

  step-last :
      (e : XrEvent) (x : Xr)
      → is_within x.last_disconnect_at e ≡ true
      → (xr_step e x).last_disconnect_at ≡ x.last_disconnect_at
  unfolding dispose xr_step exited handle_xr_end entering entered place_board_for_xr
  step-last (renders f) x w = frame-last f x (ground (arith, w))
  step-last (shows supply view) x w = refl
  step-last (takes i) x w = refl
  step-last (resets r) x w = absurd (ground (arith, w))
  step-last starts_entering x w = refl
  step-last leaves x w = refl
  step-last (enters features facing position direction) x w = refl
  step-last (ends r q) x w = refl
  step-last (answers request k) x w = refl
  step-last (refuses request) x w = refl
  step-last (loads r handles) x w = refl
  step-last disposes x w = refl
  step-last (presents b) x w = refl

  steps-last :
      (es : List XrEvent) (t : n.F) (x : Xr)
      → x.last_disconnect_at ≡ t
      → All (λ e. is_within t e ≡ true) es
      → (xr_steps es x).last_disconnect_at ≡ t
  unfolding xr_steps
  steps-last [] t x same w = same
  steps-last (e ∷ es) t x same w =
      steps-last es t (xr_step e x) (step-last e x (ap (λ u. is_within u e) same ∙ w.0) ∙ same) w.1

  let_right_go-callbacks : (r : Reading) (s : Scene) → (let_right_go r s).callbacks ≡ s.callbacks
  unfolding release_grab
  let_right_go-callbacks r s = elim (Option-cases (named (held_by s.right_hand))) [
    | inl e ↦ ground (arith, e)
    | inr (id, e) ↦ ground (arith, e)
  ]

  start-callbacks :
      (r : Reading) (x : Xr)
      → (scene_of (start_table_move_mode r x)).callbacks ≡ (scene_of x).callbacks
  unfolding start_table_move_mode
  start-callbacks r x =
      ground
        (arith, let_right_go-callbacks r (record (scene_of x) { hud_slider_active_hand = none }))

  -- The menu calls the page only where it takes the time.
  pressed_cases :
      (f : XrFrame) (e : Seen) (x : Xr)
      → ((scene_of (pressed f e x)).callbacks ≡ (scene_of x).callbacks)
        ⊎ ((is_disconnect_due f.now x ≡ true) × ((pressed f e x).last_disconnect_at ≡ f.now))
  unfolding pressed
  pressed_cases f e x = ground (arith, start-callbacks f.releasing x)

  -- After the menu of the wrist told the page to disconnect, it does not tell the page so again within
  -- 1200 milliseconds, where the frames between are within them too and the page is not reset between.
  pub disconnects_apart :
      (f g : XrFrame) (seen now_seen : Seen) (es : List XrEvent) (x : Xr)
      → (scene_of (pressed f seen x)).callbacks ≢ (scene_of x).callbacks
      → All (λ e. is_within f.now e ≡ true) es
      → n.gt (n.sub g.now f.now) (n.of 1200) ≡ false
      → let y = xr_steps es (pressed f seen x) in
        (scene_of (pressed g now_seen y)).callbacks ≡ (scene_of y).callbacks
  disconnects_apart f g seen now_seen es x sent within soon =
      let y = xr_steps es (pressed f seen x) in
      elim (pressed_cases f seen x) [
        | inl e ↦ absurd (sent e)
        | inr (due, e) ↦ elim (pressed_cases g now_seen y) [
          | inl same ↦ same
          | inr (again, k) ↦ absurd (
              true_not_false (
                sym again
                ∙ ap (λ t. n.gt (n.sub g.now t) (n.of 1200))
                    (steps-last es f.now (pressed f seen x) e within)
                ∙ soon))
        ]
      ]
