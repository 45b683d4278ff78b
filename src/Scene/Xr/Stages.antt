-- ===== src/Scene/Xr/Stages.antt =====
-- What a frame does before the hands act keeps what the table's move asks of the right hand.
use hackz_megalo.Base.{
  Bool, true, false, not, ◌≡◌, refl, ap, inl, inr, none, some, List, [], ◌∷◌, Option-cases,
  if_cases, arith, ◌||◌, ◌>>=◌,
}
use hackz_megalo.Scene.{Numbers, Handedness, left, right, Vector, Scene, hand_of}
use hackz_megalo.Scene.Grabs.Owners.{held_by, grip_of, clear_hand_state-Obeys}
use hackz_megalo.Scene.Grabs.Holds.{Rule, Obeys}
use hackz_megalo.Scene.Hands.Sampling.{update_hand_physics_from_joints}
use hackz_megalo.Scene.Hands.Owned.{put_hand-grip, joints-Obeys}
use hackz_megalo.Scene.Xr.{Xr, scene_of, with_scene, slide}
use hackz_megalo.Scene.Xr.Moves.{sync_board_pose_from_anchor}
use hackz_megalo.Scene.Xr.Sliders.{
  update_table_height_slider_interaction, slide_first, slide_to, slider_point, is_table_slider_hit,
  slides_with, without_aim, hand_order, tracked_slider,
}
use hackz_megalo.Scene.Xr.Sources.{
  XrFrame, Source, Seen, see_source, see_sources, source_hand, tracks,
}
use hackz_megalo.Scene.Xr.Frames.{
  anchored, clear_untracked, hide_untracked, aim_hand, aimed_hand, settled_hands,
}
use hackz_megalo.Scene.Xr.Steady.{IsSteady, same-IsSteady, scene-IsSteady}

module _ ⦃n : Numbers⦄ where
  without_aim-grip : (hand : Handedness) (s : Scene) → grip_of (without_aim hand s) ≡ grip_of s
  without_aim-grip hand s = elim (Option-cases (hand_of s hand)) [
    | inl e ↦ rw (e, without_aim) refl
    | inr (h, e) ↦
        rw (e, without_aim)
          (put_hand-grip hand (record h { pinch_candidate_id = none }) s (ap held_by e))
  ]

  slide_to-IsSteady :
      (hand : Handedness) (point : Vector) (x : Xr) → IsSteady x → IsSteady (slide_to hand point x)
  unfolding slide_to
  slide_to-IsSteady hand point x =
      same-IsSteady x (slide_to hand point x)
        (ground (arith, without_aim-grip hand (scene_of (slide (some hand) x)))) (ground arith)
        (ground arith)

  slide_first-IsSteady :
      (to_hud : Vector → Vector) (hands : List Handedness) (x : Xr)
      → IsSteady x
      → IsSteady (slide_first to_hud hands x)
  unfolding slide_first
  slide_first-IsSteady to_hud [] x w = same-IsSteady x (slide none x) refl refl refl w
  slide_first-IsSteady to_hud (hand ∷ hands) x w =
      elim (Option-cases (slider_point to_hud hand (scene_of x))) [
        | inl e ↦ rw (e, slide_first) (slide_first-IsSteady to_hud hands x w)
        | inr (point, e) ↦
            rw (e, slide_first)
              (if_cases IsSteady (is_table_slider_hit point (slides_with hand (scene_of x)))
                (slide_to hand point x) (slide_first to_hud hands x)
                (λ h. slide_to-IsSteady hand point x w)
                (λ h. slide_first-IsSteady to_hud hands x w))
      ]

  pub slider-IsSteady :
      (to_hud : Vector → Vector) (wrist : Bool) (tracked : Handedness → Bool) (x : Xr)
      → IsSteady x
      → IsSteady (update_table_height_slider_interaction to_hud wrist tracked x)
  unfolding update_table_height_slider_interaction
  slider-IsSteady to_hud wrist tracked x w =
      let off = same-IsSteady x (slide none x) refl refl refl w in
      let hand = tracked_slider tracked (scene_of x).hud_slider_active_hand in
      if_cases IsSteady x.table_move_mode (slide none x) _ (λ e. off)
        (λ e.
          if_cases IsSteady (not wrist || not x.wrist_visible) (slide none x) _ (λ f. off)
            (λ f.
              slide_first-IsSteady to_hud (hand_order hand) (slide hand x)
                (same-IsSteady x (slide hand x) refl refl refl w)))

  see_source-IsSteady :
      (f : XrFrame) (i : Source) (e : Seen) (x : Xr)
      → IsSteady x
      → IsSteady (see_source f i (e, x)).1
  unfolding see_source
  see_source-IsSteady f i e x w = elim (Option-cases (source_hand i)) [
    | inl o ↦ rw (o, see_source) w
    | inr (hand, o) ↦
        rw (o, see_source)
          (same-IsSteady
            (with_scene (update_hand_physics_from_joints i.joints i.reading hand (scene_of x)).1 x)
            _ refl refl refl
            (scene-IsSteady x _ (joints-Obeys i.joints i.reading hand (scene_of x)) w))
  ]

  pub see_sources-IsSteady :
      (f : XrFrame) (is : List Source) (e : Seen) (x : Xr)
      → IsSteady x
      → IsSteady (see_sources f is (e, x)).1
  unfolding see_sources
  see_sources-IsSteady f [] e x w = w
  see_sources-IsSteady f (i ∷ is) e x w =
      let b = see_source f i (e, x) in
      see_sources-IsSteady f is b.0 b.1 (see_source-IsSteady f i e x w)

  pub anchored-IsSteady : (f : XrFrame) (x : Xr) → IsSteady x → IsSteady (anchored f x)
  unfolding anchored sync_board_pose_from_anchor
  anchored-IsSteady f x w = elim (Option-cases (x.board.anchor >>= f.anchor_pose)) [
    | inl e ↦
        same-IsSteady x (anchored f x) (ground (arith, e)) (ground (arith, e)) (ground (arith, e)) w
    | inr (p, e) ↦
        same-IsSteady x (anchored f x) (ground (arith, e)) (ground (arith, e)) (ground (arith, e)) w
  ]

  clear_untracked-Obeys :
      {a : Rule} (f : XrFrame) (e : Seen) (hand : Handedness) (s : Scene)
      → Obeys a (grip_of s)
      → Obeys a (grip_of (clear_untracked f e hand s))
  clear_untracked-Obeys {a} f e hand s w =
      if_cases (λ y. Obeys a (grip_of y)) (tracks e hand) s _ (λ p. w)
        (λ p. clear_hand_state-Obeys (f.clearing hand) hand true s w)

  aim_hand-grip :
      (f : XrFrame) (hand : Handedness) (s : Scene) → grip_of (aim_hand f hand s) ≡ grip_of s
  aim_hand-grip f hand s = elim (Option-cases (hand_of s hand)) [
    | inl e ↦ rw (e, aim_hand) refl
    | inr (h, e) ↦ rw (e, aim_hand) (put_hand-grip hand (aimed_hand f hand s h) s (ap held_by e))
  ]

  pub settled_hands-IsSteady :
      (f : XrFrame) (e : Seen) (x : Xr) → IsSteady x → IsSteady (settled_hands f e x)
  unfolding settled_hands
  settled_hands-IsSteady f e x w =
      let b = hide_untracked e x in
      let c = clear_untracked f e left (scene_of b) in
      let d = clear_untracked f e right c in
      scene-IsSteady b _
        (λ o.
          rw (aim_hand-grip f right (aim_hand f left d), aim_hand-grip f left d)
            (clear_untracked-Obeys f e right c (clear_untracked-Obeys f e left (scene_of b) o)))
        (if_cases IsSteady e.wrist x (slide none (record x { wrist_visible = false })) (λ p. w)
          (λ p. same-IsSteady x (slide none (record x { wrist_visible = false })) refl refl refl w))
