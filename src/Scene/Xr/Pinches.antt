-- ===== src/Scene/Xr/Pinches.antt =====
-- The right hand, while the table is moved, pinches or does not.
use hackz_megalo.Base.{
  Bool, true, false, ◌≡◌, refl, ap, ◌∙◌, inl, inr, Option, none, some, Option-cases, if_cases,
  arith, ◌>>=◌,
}
use hackz_megalo.Scene.{Numbers, left, right, Vector, Hand, Scene}
use hackz_megalo.Scene.Grabs.{Reading, release_grab, clear_hand_state, clear_palm_contacts}
use hackz_megalo.Scene.Xr.{Xr, scene_of, slide}
use hackz_megalo.Scene.Xr.Moves.{
  update_table_move_interaction, update_table_move_preview_pose, put_down,
}
use hackz_megalo.Scene.Xr.Sliders.{update_table_height_slider_interaction}
use hackz_megalo.Scene.Xr.Sources.{XrFrame, Seen, see_sources, tracks, nothing_seen}
use hackz_megalo.Scene.Xr.Frames.{
  anchored, settled_hands, hide_untracked, clear_untracked, aim_hand,
}

module _ ⦃n : Numbers⦄ where
  abbrev pub pinch_of : Option Hand → Option Bool
  pinch_of hand = do h ← hand; center ← h.palm_center_world; some h.pinch_active

  -- Whether the right hand pinches, where it has a palm.
  abbrev pub right_pinch : Scene → Option Bool
  right_pinch s = pinch_of s.right_hand

  abbrev pub seen_of : XrFrame → Xr → Seen × Xr
  seen_of f x = see_sources f f.sources (nothing_seen, anchored f x)

  -- The frame has the joints of a right hand that pinches or does not, and no finger is at the button
  -- of the move.
  pub record Shows (pinches : Bool) (f : XrFrame) (x : Xr) : Type 0 where
    pub is_ready : f.is_ready ≡ true
    pub tracked : (seen_of f x).0.right_tracked ≡ true
    pub pinch : right_pinch (scene_of (seen_of f x).1) ≡ some pinches
    pub away : (seen_of f x).0.move ≡ false

  clear_left-right_hand :
      (r : Reading) (s : Scene) → (clear_hand_state r left true s).right_hand ≡ s.right_hand
  unfolding clear_hand_state clear_palm_contacts release_grab
  clear_left-right_hand r s = ground arith

  aim_left-right_hand : (f : XrFrame) (s : Scene) → (aim_hand f left s).right_hand ≡ s.right_hand
  aim_left-right_hand f s = ground arith

  aim_right-pinch : (f : XrFrame) (s : Scene) → right_pinch (aim_hand f right s) ≡ right_pinch s
  aim_right-pinch f s = elim (Option-cases s.right_hand) [
    | inl e ↦ ground (arith, e)
    | inr (h, e) ↦ ground (arith, e)
  ]

  hidden-right_hand :
      (e : Seen) (x : Xr) → (scene_of (hide_untracked e x)).right_hand ≡ (scene_of x).right_hand
  hidden-right_hand e x = ground arith

  untracked_left-right_hand :
      (f : XrFrame) (e : Seen) (s : Scene) → (clear_untracked f e left s).right_hand ≡ s.right_hand
  untracked_left-right_hand f e s =
      if_cases (λ (y : Scene). y.right_hand ≡ s.right_hand) e.left_tracked s _ (λ p. refl)
        (λ p. clear_left-right_hand (f.clearing left) s)

  tracked_right-right_hand :
      (f : XrFrame) (e : Seen) (s : Scene)
      → e.right_tracked ≡ true
      → (clear_untracked f e right s).right_hand ≡ s.right_hand
  tracked_right-right_hand f e s p = ground (arith, p)

  pub settled_hands-pinch :
      (f : XrFrame) (e : Seen) (x : Xr)
      → e.right_tracked ≡ true
      → right_pinch (scene_of (settled_hands f e x)) ≡ right_pinch (scene_of x)
  unfolding settled_hands
  settled_hands-pinch f e x tracked =
      let b = scene_of (hide_untracked e x) in
      let c = clear_untracked f e left b in
      let d = clear_untracked f e right c in
      aim_right-pinch f (aim_hand f left d)
      ∙ ap pinch_of (
          aim_left-right_hand f d
          ∙ tracked_right-right_hand f e c tracked
          ∙ untracked_left-right_hand f e b
          ∙ hidden-right_hand e x)

  pub slider_off :
      (f : XrFrame) (e : Seen) (x : Xr)
      → x.table_move_mode ≡ true
      → update_table_height_slider_interaction f.to_hud e.wrist (tracks e) x ≡ slide none x
  unfolding update_table_height_slider_interaction
  slider_off f e x on = rw (on, update_table_height_slider_interaction) refl

  -- A right hand that does not pinch ends the wait.
  pub move_open :
      (facing : Vector → Vector → n.Quaternion) (viewer : Vector) (creates : Bool) (x : Xr)
      → x.table_move_mode ≡ true
      → right_pinch (scene_of x) ≡ some false
      → (update_table_move_interaction facing viewer creates true x).awaits_release ≡ false
  unfolding update_table_move_interaction update_table_move_preview_pose
  move_open facing viewer creates x on rests = elim (Option-cases (scene_of x).right_hand) [
    | inl e ↦ absurd (ground (arith, e, rests))
    | inr (h, e) ↦ elim (Option-cases h.palm_center_world) [
      | inl q ↦ absurd (ground (arith, e, q, rests))
      | inr (v, q) ↦ ground (arith, e, q, rests, on)
    ]
  ]

  -- One that pinches puts the table down.
  pub move_closed :
      (facing : Vector → Vector → n.Quaternion) (viewer : Vector) (creates : Bool) (x : Xr)
      → x.table_move_mode ≡ true
      → x.awaits_release ≡ false
      → right_pinch (scene_of x) ≡ some true
      → (update_table_move_interaction facing viewer creates true x).table_move_mode ≡ false
  unfolding update_table_move_interaction update_table_move_preview_pose put_down
  move_closed facing viewer creates x on off pinch = elim (Option-cases (scene_of x).right_hand) [
    | inl e ↦ absurd (ground (arith, e, pinch))
    | inr (h, e) ↦ elim (Option-cases h.palm_center_world) [
      | inl q ↦ absurd (ground (arith, e, q, pinch))
      | inr (v, q) ↦ ground (arith, e, q, pinch, on, off)
    ]
  ]

  pub move_idle :
      (facing : Vector → Vector → n.Quaternion) (viewer : Vector) (creates tracked : Bool) (x : Xr)
      → x.table_move_mode ≡ false
      → update_table_move_interaction facing viewer creates tracked x ≡ x
  unfolding update_table_move_interaction
  move_idle facing viewer creates tracked x off = rw (off, update_table_move_interaction) refl
