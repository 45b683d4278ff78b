-- ===== src/Scene/Xr/Kept.antt =====
-- The parts of a frame that leave the table's move and the time of the last disconnection as they are.
use hackz_megalo.Base.{
  Bool, ◌≡◌, refl, ◌∙◌, inl, inr, List, [], ◌∷◌, Option-cases, if_cases, arith, ◌>>=◌,
}
use hackz_megalo.Scene.{Numbers, Handedness, Vector}
use hackz_megalo.Scene.Xr.{Xr, scene_of, slide}
use hackz_megalo.Scene.Xr.Moves.{sync_board_pose_from_anchor}
use hackz_megalo.Scene.Xr.Sliders.{
  update_table_height_slider_interaction, slide_first, slide_to, slider_point, is_table_slider_hit,
  slides_with, tracked_slider, hand_order,
}
use hackz_megalo.Scene.Xr.Sources.{XrFrame, Source, Seen, see_source, see_sources, source_hand}
use hackz_megalo.Scene.Xr.Frames.{anchored, settled_hands, acted}

module _ ⦃n : Numbers⦄ where
  -- What the table's move and the last disconnection are.
  abbrev pub kept_of : Xr → n.F × Bool × Bool
  kept_of x = (x.last_disconnect_at, x.table_move_mode, x.awaits_release)

  slide_first-kept :
      (to_hud : Vector → Vector) (hands : List Handedness) (x : Xr)
      → kept_of (slide_first to_hud hands x) ≡ kept_of x
  unfolding slide_first slide_to
  slide_first-kept to_hud [] x = refl
  slide_first-kept to_hud (hand ∷ hands) x =
      elim (Option-cases (slider_point to_hud hand (scene_of x))) [
        | inl e ↦ rw (e, slide_first) (slide_first-kept to_hud hands x)
        | inr (point, e) ↦
            rw (e, slide_first)
              (if_cases (λ y. kept_of y ≡ kept_of x)
                (is_table_slider_hit point (slides_with hand (scene_of x))) (slide_to hand point x)
                (slide_first to_hud hands x) (λ h. ground arith)
                (λ h. slide_first-kept to_hud hands x))
      ]

  pub slider-kept :
      (to_hud : Vector → Vector) (wrist : Bool) (tracked : Handedness → Bool) (x : Xr)
      → kept_of (update_table_height_slider_interaction to_hud wrist tracked x) ≡ kept_of x
  unfolding update_table_height_slider_interaction
  slider-kept to_hud wrist tracked x =
      let hand = tracked_slider tracked (scene_of x).hud_slider_active_hand in
      ground (arith, slide_first-kept to_hud (hand_order hand) (slide hand x))

  see_source-kept :
      (f : XrFrame) (i : Source) (seen : Seen × Xr)
      → kept_of (see_source f i seen).1 ≡ kept_of seen.1
  unfolding see_source
  see_source-kept f i seen = elim (Option-cases (source_hand i)) [
    | inl e ↦ ground (arith, e)
    | inr (hand, e) ↦ ground (arith, e)
  ]

  pub see_sources-kept :
      (f : XrFrame) (is : List Source) (seen : Seen × Xr)
      → kept_of (see_sources f is seen).1 ≡ kept_of seen.1
  unfolding see_sources
  see_sources-kept f [] seen = refl
  see_sources-kept f (i ∷ is) seen =
      see_sources-kept f is (see_source f i seen) ∙ see_source-kept f i seen

  pub anchored-kept : (f : XrFrame) (x : Xr) → kept_of (anchored f x) ≡ kept_of x
  unfolding anchored sync_board_pose_from_anchor
  anchored-kept f x = elim (Option-cases (x.board.anchor >>= f.anchor_pose)) [
    | inl e ↦ ground (arith, e)
    | inr (p, e) ↦ ground (arith, e)
  ]

  pub settled_hands-kept :
      (f : XrFrame) (e : Seen) (x : Xr) → kept_of (settled_hands f e x) ≡ kept_of x
  unfolding settled_hands
  settled_hands-kept f e x = ground arith

  pub acted-kept : (f : XrFrame) (x : Xr) → kept_of (acted f x) ≡ kept_of x
  unfolding acted
  acted-kept f x = refl
