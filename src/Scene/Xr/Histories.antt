-- ===== src/Scene/Xr/Histories.antt =====
-- Histories of the page with XR: frames in it and out of it, the page's updates and resets, the inputs
-- of the desktop, the ways into XR and out of it, and the answers to requests for anchors.
use hackz_megalo.Base.{
  ℕ, Text, Bool, true, false, not, none, ◌≡◌, refl, sym, ◌∙◌, subst, arith, List, [], ◌∷◌, if_cases,
}
use hackz_megalo.Scene.{Numbers, Vector, Scene, left, right, changes_xr}
use hackz_megalo.Scene.Grabs.{Reading, clear_palm_contacts}
use hackz_megalo.Scene.Grabs.Owners.{grip_of}
use hackz_megalo.Scene.Grabs.Grips.{IsOwned}
use hackz_megalo.Scene.Grabs.Holds.{Rule, Obeys}
use hackz_megalo.Scene.Simulation.{update_simulation}
use hackz_megalo.Scene.Simulation.Owned.{update_simulation-grip}
use hackz_megalo.Scene.Update.{Supply, View, update, reset}
use hackz_megalo.Scene.Update.Owned.{update-Obeys, reset-Obeys, empty-IsOwned}
use hackz_megalo.Scene.Desktop.{set_desktop_target_pod}
use hackz_megalo.Scene.Desktop.Keys.{
  Controls, look, let_keys_go, Input, take_input, update_desktop_movement, rested,
}
use hackz_megalo.Scene.Anchors.Histories.{makes, fails, anchor_step}
use hackz_megalo.Scene.Xr.{
  slide, tell_page, Xr, scene_of, with_scene, is_presenting, place_board_for_xr,
}
use hackz_megalo.Scene.Xr.Ends.{
  hide_wrist, still_table, reset_desktop_camera, exited, handle_xr_end, entering, entered,
  reset_all, let_desktop_go,
}
use hackz_megalo.Scene.Xr.Frames.{
  PageFrame, render_frame, desktop_frame, update_wrist_hud, quiet_hands, on_desktop,
}
use hackz_megalo.Scene.Xr.Steady.{
  IsSteady, while_moving, same-IsSteady, scene-IsSteady, put_down-IsSteady,
}
use hackz_megalo.Scene.Xr.Lifecycle.{initialize_physics, dispose, initialize-grip}
use hackz_megalo.Scene.Xr.Rounds.{wrist_hud-IsSteady, clear_hands-Obeys}
use hackz_megalo.Scene.Xr.Inputs.{input-Obeys, target-grip, targeting-grip, movement-grip}

module _ ⦃n : Numbers⦄ where
  pub data XrEvent : Type 0 where
    renders : PageFrame → XrEvent
    shows : Supply → View → XrEvent
    takes : Input → XrEvent
    resets : Reading → XrEvent
    starts_entering leaves : XrEvent
    enters :
        (features : Bool)
        → (facing : Vector → Vector → n.Quaternion) → (position direction : Vector) → XrEvent
    ends : Reading → Reading → XrEvent
    -- A request for an anchor is answered, or fails.
    answers : (request k : ℕ) → XrEvent
    refuses : (request : ℕ) → XrEvent
    loads : Reading → (handles : Text → ℕ) → XrEvent
    disposes : XrEvent
    -- The renderer begins or ends to present.
    presents : Bool → XrEvent

  unfoldable pub xr_step : XrEvent → Xr → Xr
  unfolding initialize_physics dispose render_frame update reset_all entering exited entered
      handle_xr_end anchor_step take_input
  xr_step (renders f) x = render_frame f x
  xr_step (shows supply view) x =
      with_scene (update (record supply { presenting = is_presenting x }) view (scene_of x)) x
  xr_step (takes i) x = record x { controls = take_input i x.controls }
  xr_step (resets r) x = reset_all r x
  xr_step starts_entering x = entering x
  xr_step leaves x = exited x
  xr_step (enters features facing position direction) x =
      entered features facing position direction x
  xr_step (ends r q) x = handle_xr_end r q x
  xr_step (answers request k) x = record x {
    board = anchor_step (makes (is_presenting x) x.anchors_supported request k) x.board;
  }
  xr_step (refuses request) x = record x { board = anchor_step (fails request) x.board }
  xr_step (loads r handles) x = with_scene (initialize_physics r handles (scene_of x)) x
  xr_step disposes x = dispose x
  xr_step (presents b) x = record x {
    controls = record (x.controls) { desktop = record (x.controls.desktop) { presenting = b } };
  }

  unfoldable pub xr_steps : List XrEvent → Xr → Xr
  xr_steps [] x = x
  xr_steps (e ∷ es) x = xr_steps es (xr_step e x)

  controls-IsSteady :
      (i : Input) (x : Xr) → IsSteady x → IsSteady (record x { controls = take_input i x.controls })
  controls-IsSteady i x w = record { obeys = input-Obeys i x.controls w.obeys; awaits = w.awaits }

  quiet_hands-Obeys :
      {a : Rule} (f : PageFrame) (s : Scene)
      → Obeys a (grip_of s)
      → Obeys a (grip_of (quiet_hands f.session s))
  unfolding clear_palm_contacts
  quiet_hands-Obeys f s w =
      clear_hands-Obeys (f.session.clearing left) (f.session.clearing right) false
        (clear_palm_contacts right [] (clear_palm_contacts left [] s)) w

  on_desktop-grip :
      (f : PageFrame) (x : Xr) → grip_of (scene_of (on_desktop f x)) ≡ grip_of (scene_of x)
  on_desktop-grip f x =
      let c = update_desktop_movement f.simulation.delta f.direction f.up x.controls in
      targeting-grip f.objects c.desktop
      ∙ movement-grip f.simulation.delta f.direction f.up x.controls

  desktop_frame-IsSteady : (f : PageFrame) (x : Xr) → IsSteady x → IsSteady (desktop_frame f x)
  unfolding desktop_frame
  desktop_frame-IsSteady f x w =
      let b = still_table (hide_wrist (record x { pinch_latch = false })) in
      let c = with_scene (quiet_hands f.session (scene_of b)) b in
      put_down-IsSteady (desktop_frame f x)
        (subst IsOwned (sym (on_desktop-grip f c)) (quiet_hands-Obeys f (scene_of b) w.obeys).owned)
        refl refl

  rested-grip : (c : Controls) → grip_of (rested c).desktop.scene ≡ grip_of c.desktop.scene
  unfolding set_desktop_target_pod
  rested-grip c = ground arith

  let_desktop_go-grip :
      (c : Controls) → grip_of (let_desktop_go c).desktop.scene ≡ grip_of c.desktop.scene
  let_desktop_go-grip c = target-grip none false (look false (let_keys_go c)).desktop

  frame-IsSteady : (f : PageFrame) (x : Xr) → IsSteady x → IsSteady (render_frame f x)
  unfolding render_frame
  frame-IsSteady f x w =
      let b = with_scene (update_simulation f.simulation (scene_of x)) x in
      let v = same-IsSteady x b (update_simulation-grip f.simulation (scene_of x)) refl refl w in
      if_cases IsSteady (not (is_presenting b)) (desktop_frame f b) (update_wrist_hud f.session b)
        (λ e. desktop_frame-IsSteady f b v) (λ e. wrist_hud-IsSteady f.session b v)

  reset-IsSteady : (r : Reading) (x : Xr) → IsSteady x → IsSteady (reset_all r x)
  unfolding reset_all
  reset-IsSteady r x w =
      let b = with_scene (reset r (scene_of x)) x in
      put_down-IsSteady (reset_all r x)
        (subst IsOwned (sym (rested-grip (reset_desktop_camera b.controls)))
          (reset-Obeys r (scene_of x) w.obeys).owned)
        refl refl

  end-IsSteady : (r q : Reading) (x : Xr) → IsSteady x → IsSteady (handle_xr_end r q x)
  unfolding handle_xr_end
  end-IsSteady r q x w =
      let b = hide_wrist (tell_page (changes_xr false) x) in
      let c =
        still_table
          (slide none (record b { controls = let_desktop_go b.controls; pinch_latch = false })) in
      put_down-IsSteady (handle_xr_end r q x)
        (clear_hands-Obeys r q true (scene_of c) (
          subst (λ g. Obeys (while_moving x.table_move_mode) g)
            (sym (let_desktop_go-grip b.controls)) w.obeys)).owned
        refl refl

  step-IsSteady : (e : XrEvent) (x : Xr) → IsSteady x → IsSteady (xr_step e x)
  unfolding dispose xr_step exited entering entered place_board_for_xr
  step-IsSteady (renders f) x w = frame-IsSteady f x w
  step-IsSteady (shows supply view) x w =
      let u = record supply { presenting = is_presenting x } in
      scene-IsSteady x (update u view (scene_of x)) (update-Obeys u view (scene_of x)) w
  step-IsSteady (takes i) x w = controls-IsSteady i x w
  step-IsSteady (resets r) x w = reset-IsSteady r x w
  step-IsSteady starts_entering x w =
      same-IsSteady x (entering x) (rested-grip x.controls) refl refl w
  step-IsSteady leaves x w = put_down-IsSteady (exited x) w.obeys.owned refl refl
  step-IsSteady (enters features facing position direction) x w =
      same-IsSteady x (entered features facing position direction x) refl refl refl w
  step-IsSteady (ends r q) x w = end-IsSteady r q x w
  step-IsSteady (answers request k) x w = same-IsSteady x _ refl refl refl w
  step-IsSteady (refuses request) x w = same-IsSteady x _ refl refl refl w
  step-IsSteady (loads r handles) x w =
      same-IsSteady x (with_scene (initialize_physics r handles (scene_of x)) x)
        (initialize-grip r handles (scene_of x)) refl refl w
  step-IsSteady disposes x w = record {
    obeys = record {
      owned = empty-IsOwned (grip_of (scene_of (dispose x))) refl refl;
      rule = λ on. refl;
    };
    awaits = w.awaits;
  }
  step-IsSteady (presents b) x w = same-IsSteady x _ refl refl refl w

  -- Through any history of the page, in XR and out of it, from a steady page: while the player moves the
  -- table the right hand holds no pod, the table waits for the pinch to end only while it is moved, and
  -- the map of owners and the hands tell the same.
  pub xr_steps-IsSteady : (es : List XrEvent) (x : Xr) → IsSteady x → IsSteady (xr_steps es x)
  unfolding xr_steps
  xr_steps-IsSteady [] x w = w
  xr_steps-IsSteady (e ∷ es) x w = xr_steps-IsSteady es (xr_step e x) (step-IsSteady e x w)
