-- ===== src/Scene/Xr/Sliders.antt =====
-- apps/frontend-webxr/src/scene.ts: the slider of the table's height,
-- `updateTableHeightSliderInteraction` and `isTableSliderHit`.
use hackz_megalo.Base.{
  Bool, false, not, ◌&&◌, ◌||◌, Option, none, some, List, [], ◌∷◌, if◌then◌else◌, ◌>>=◌,
}
use hackz_megalo.Scene.{
  Numbers, Handedness, left, right, Vector, frac, clamp, lerp, Scene, hand_of, put_hand,
}
use hackz_megalo.Scene.Grabs.{same_hand}
use hackz_megalo.Scene.Xr.{
  Xr, scene_of, with_scene, slide, min_surface_height, max_surface_height,
  apply_current_board_height,
}

module _ ⦃n : Numbers⦄ where
  abbrev pub half : n.F → n.F
  half k = n.mul k (frac 1 2)

  abbrev pub slider_center_x : n.F
  slider_center_x = frac 43 1000

  abbrev pub slider_width : n.F
  slider_width = frac 7 100

  unfoldable pub is_table_slider_hit : Vector → (drags : Bool) → Bool
  is_table_slider_hit point drags =
      let margin = if drags then frac 18 1000 else n.of 0 in
      let side = if drags then n.mul (frac 18 1000) (frac 3 2) else n.of 0 in
      n.ge (frac 5 100) (n.abs point.z)
      && n.ge (n.add (half (frac 26 1000)) margin) (n.abs (n.sub point.y (n.neg (frac 5 100))))
      && n.ge point.x (n.sub (n.sub slider_center_x (half slider_width)) side)
      && n.ge (n.add (n.add slider_center_x (half slider_width)) side) point.x

  -- Where a hand that pinches is on the wrist's menu.
  abbrev pub slider_point : (to_hud : Vector → Vector) → Handedness → Scene → Option Vector
  slider_point to_hud hand s = do
    h ← hand_of s hand
    point ← if h.pinch_active then h.pinch_midpoint_world else none
    some (to_hud point)

  abbrev pub slides_with : Handedness → Scene → Bool
  slides_with hand s = elim s.hud_slider_active_hand [ none ↦ false | some h ↦ same_hand h hand ]

  abbrev pub slider_value : Vector → n.F
  slider_value point =
      clamp (n.div (n.sub point.x (n.sub slider_center_x (half slider_width))) slider_width)
        (n.of 0) (n.of 1)

  abbrev pub without_aim : Handedness → Scene → Scene
  without_aim hand s = elim (hand_of s hand) [
    | none ↦ s
    | some h ↦ put_hand hand (record h { pinch_candidate_id = none }) s
  ]

  unfoldable pub slide_to : Handedness → Vector → Xr → Xr
  slide_to hand point x =
      let b = slide (some hand) x in
      apply_current_board_height (record (with_scene (without_aim hand (scene_of b)) b) {
        surface_height = lerp min_surface_height max_surface_height (slider_value point);
      })

  -- The loop over the hands.
  unfoldable pub slide_first : (to_hud : Vector → Vector) → List Handedness → Xr → Xr
  unfolding is_table_slider_hit slide_to
  slide_first to_hud [] x = slide none x
  slide_first to_hud (hand ∷ hands) x = elim (slider_point to_hud hand (scene_of x)) [
    | none ↦ slide_first to_hud hands x
    | some point ↦
        if is_table_slider_hit point (slides_with hand (scene_of x))
        then slide_to hand point x
        else slide_first to_hud hands x
  ]

  -- The slider is let go by a hand that is not tracked.
  abbrev pub tracked_slider : (tracks : Handedness → Bool) → Option Handedness → Option Handedness
  tracked_slider tracks none = none
  tracked_slider tracks (some hand) = if tracks hand then some hand else none

  abbrev pub hand_order : Option Handedness → List Handedness
  hand_order none = right ∷ left ∷ []
  hand_order (some hand) = hand ∷ []

  abbrev pub slide_on :
      (to_hud : Vector → Vector) → (tracks : Handedness → Bool) → Option Handedness → Xr → Xr
  slide_on to_hud tracks active x =
      let hand = tracked_slider tracks active in slide_first to_hud (hand_order hand) (slide hand x)

  unfoldable pub update_table_height_slider_interaction :
      (to_hud : Vector → Vector) → (wrist_tracked : Bool) → (tracks : Handedness → Bool) → Xr → Xr
  unfolding slide_first
  update_table_height_slider_interaction to_hud wrist_tracked tracks x =
      if x.table_move_mode
      then slide none x
      else if not wrist_tracked || not x.wrist_visible
      then slide none x
      else slide_on to_hud tracks (scene_of x).hud_slider_active_hand x
