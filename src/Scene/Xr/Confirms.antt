-- ===== src/Scene/Xr/Confirms.antt =====
-- The move of the table comes to an end.
use hackz_megalo.Base.{Bool, true, false, ◌≡◌, refl, ap, ◌∙◌, inl, inr, Bool-cases, arith}
use hackz_megalo.Scene.{Numbers}
use hackz_megalo.Scene.Xr.{Xr, scene_of}
use hackz_megalo.Scene.Xr.Moves.{update_table_move_interaction}
use hackz_megalo.Scene.Xr.Sliders.{update_table_height_slider_interaction}
use hackz_megalo.Scene.Xr.Sources.{XrFrame, Seen, tracks, nothing_seen}
use hackz_megalo.Scene.Xr.Frames.{
  anchored, settled_hands, acted, pressed, handled, update_wrist_hud,
}
use hackz_megalo.Scene.Xr.Kept.{
  kept_of, slider-kept, see_sources-kept, anchored-kept, settled_hands-kept, acted-kept,
}
use hackz_megalo.Scene.Xr.Pinches.{
  right_pinch, seen_of, Shows, settled_hands-pinch, slider_off, move_open, move_closed, move_idle,
}

module _ ⦃n : Numbers⦄ where
  pressed-mode :
      (f : XrFrame) (e : Seen) (x : Xr)
      → e.move ≡ false
      → (pressed f e x).table_move_mode ≡ x.table_move_mode
  unfolding pressed
  pressed-mode f e x away = ground (arith, away)

  pressed-awaits :
      (f : XrFrame) (e : Seen) (x : Xr)
      → e.move ≡ false
      → (pressed f e x).awaits_release ≡ x.awaits_release
  unfolding pressed
  pressed-awaits f e x away = ground (arith, away)

  -- The frame where there is a session, up to the slider.
  abbrev settled_of : XrFrame → Xr → Xr
  settled_of f x = settled_hands f (seen_of f x).0 (seen_of f x).1

  settled_of-kept : (f : XrFrame) (x : Xr) → kept_of (settled_of f x) ≡ kept_of x
  settled_of-kept f x =
      settled_hands-kept f (seen_of f x).0 (seen_of f x).1
      ∙ see_sources-kept f f.sources (nothing_seen, anchored f x)
      ∙ anchored-kept f x

  ready_hud :
      (f : XrFrame) (x : Xr)
      → f.is_ready ≡ true
      → update_wrist_hud f x ≡ handled f (seen_of f x).0 (settled_of f x)
  unfolding update_wrist_hud
  ready_hud f x ready = rw (ready, update_wrist_hud) refl

  abbrev slid_of : XrFrame → Xr → Xr
  slid_of f x =
      let e = (seen_of f x).0 in
      update_table_height_slider_interaction f.to_hud e.wrist (tracks e) (settled_of f x)

  slid_of-kept : (f : XrFrame) (x : Xr) → kept_of (slid_of f x) ≡ kept_of x
  slid_of-kept f x =
      let e = (seen_of f x).0 in
      slider-kept f.to_hud e.wrist (tracks e) (settled_of f x) ∙ settled_of-kept f x

  abbrev moved_of : XrFrame → Xr → Xr
  moved_of f x =
      update_table_move_interaction f.facing f.viewer f.creates (seen_of f x).0.right_tracked
        (slid_of f x)

  hud-mode :
      (f : XrFrame) (x : Xr)
      → f.is_ready ≡ true
      → (seen_of f x).0.move ≡ false
      → (update_wrist_hud f x).table_move_mode ≡ (moved_of f x).table_move_mode
  unfolding handled
  hud-mode f x ready away =
      ap (λ (y : Xr). y.table_move_mode) (ready_hud f x ready)
      ∙ pressed-mode f (seen_of f x).0 (acted f (moved_of f x)) away
      ∙ ap (λ (k : n.F × Bool × Bool). k.1) (acted-kept f (moved_of f x))

  hud-awaits :
      (f : XrFrame) (x : Xr)
      → f.is_ready ≡ true
      → (seen_of f x).0.move ≡ false
      → (update_wrist_hud f x).awaits_release ≡ (moved_of f x).awaits_release
  unfolding handled
  hud-awaits f x ready away =
      ap (λ (y : Xr). y.awaits_release) (ready_hud f x ready)
      ∙ pressed-awaits f (seen_of f x).0 (acted f (moved_of f x)) away
      ∙ ap (λ (k : n.F × Bool × Bool). k.2) (acted-kept f (moved_of f x))

  slid-mode : (f : XrFrame) (x : Xr) → (slid_of f x).table_move_mode ≡ x.table_move_mode
  slid-mode f x = ap (λ (k : n.F × Bool × Bool). k.1) (slid_of-kept f x)

  slid-awaits : (f : XrFrame) (x : Xr) → (slid_of f x).awaits_release ≡ x.awaits_release
  slid-awaits f x = ap (λ (k : n.F × Bool × Bool). k.2) (slid_of-kept f x)

  -- In the mode the slider leaves the hands as they are.
  slid-pinch :
      (f : XrFrame) (x : Xr)
      → (seen_of f x).0.right_tracked ≡ true
      → x.table_move_mode ≡ true
      → right_pinch (scene_of (slid_of f x)) ≡ right_pinch (scene_of (seen_of f x).1)
  slid-pinch f x tracked on =
      ap (λ y. right_pinch (scene_of y))
        (slider_off f (seen_of f x).0 (settled_of f x)
          (ap (λ (k : n.F × Bool × Bool). k.1) (settled_of-kept f x) ∙ on))
      ∙ settled_hands-pinch f (seen_of f x).0 (seen_of f x).1 tracked

  -- Without a finger at the button, no move starts.
  idle_frame :
      (b : Bool) (f : XrFrame) (x : Xr)
      → Shows b f x
      → x.table_move_mode ≡ false
      → (update_wrist_hud f x).table_move_mode ≡ false
  idle_frame b f x w off =
      hud-mode f x w.is_ready w.away
      ∙ ap (λ (y : Xr). y.table_move_mode)
          (move_idle f.facing f.viewer f.creates (seen_of f x).0.right_tracked (slid_of f x)
            (slid-mode f x ∙ off))
      ∙ slid-mode f x
      ∙ off

  -- A right hand that does not pinch.
  rests_frame :
      (f : XrFrame) (x : Xr)
      → Shows false f x
      → x.table_move_mode ≡ true
      → (update_wrist_hud f x).awaits_release ≡ false
  rests_frame f x w on =
      hud-awaits f x w.is_ready w.away
      ∙ ap
          (λ t.
            (update_table_move_interaction f.facing f.viewer f.creates t
              (slid_of f x)).awaits_release)
          w.tracked
      ∙ move_open f.facing f.viewer f.creates (slid_of f x) (slid-mode f x ∙ on)
          (slid-pinch f x w.tracked on ∙ w.pinch)

  -- One that does.
  pinches_frame :
      (f : XrFrame) (x : Xr)
      → Shows true f x
      → x.awaits_release ≡ false
      → (update_wrist_hud f x).table_move_mode ≡ false
  pinches_frame f x w off = elim (Bool-cases x.table_move_mode) [
    | inl on ↦
        hud-mode f x w.is_ready w.away
        ∙ ap
            (λ t.
              (update_table_move_interaction f.facing f.viewer f.creates t
                (slid_of f x)).table_move_mode)
            w.tracked
        ∙ move_closed f.facing f.viewer f.creates (slid_of f x) (slid-mode f x ∙ on)
            (slid-awaits f x ∙ off) (slid-pinch f x w.tracked on ∙ w.pinch)
    | inr out ↦ idle_frame true f x w out
  ]

  -- The move of the table ends: after a frame that has the joints of a right hand that does not pinch,
  -- and a next one of a right hand that does, both with no finger at the button of the move, the table
  -- is not moved any more.
  pub move_ends :
      (f g : XrFrame) (x : Xr)
      → Shows false f x
      → Shows true g (update_wrist_hud f x)
      → (update_wrist_hud g (update_wrist_hud f x)).table_move_mode ≡ false
  move_ends f g x rests pinches = elim (Bool-cases x.table_move_mode) [
    | inl on ↦ pinches_frame g (update_wrist_hud f x) pinches (rests_frame f x rests on)
    | inr off ↦ idle_frame true g (update_wrist_hud f x) pinches (idle_frame false f x rests off)
  ]
