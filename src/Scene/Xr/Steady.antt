-- ===== src/Scene/Xr/Steady.antt =====
-- While the player moves the table the right hand holds no pod, and only then does the table wait for
-- the pinch to end.
use hackz_megalo.Base.{
  true_not_false, Bool, true, false, not, ◌≡◌, refl, sym, ap, ◌∙◌, inl, inr, none, some, ◌||◌,
  Option-cases, if_cases, if◌then◌else◌, arith,
}
use hackz_megalo.Scene.{Numbers, Handedness, left, right, Vector, Hand, Scene}
use hackz_megalo.Scene.Grabs.{Reading, named}
use hackz_megalo.Scene.Grabs.Grips.{IsOwned, named-none}
use hackz_megalo.Scene.Grabs.Owners.{held_by, grip_of, release_grab-Obeys, release_grab-dropped}
use hackz_megalo.Scene.Grabs.Holds.{Holds, Rule, AllowsTaking, Obeys, put_in}
use hackz_megalo.Scene.Hands.Owned.{put_hand-grip}
use hackz_megalo.Scene.Xr.{Xr, scene_of, with_scene, is_presenting}
use hackz_megalo.Scene.Xr.Moves.{
  start_table_move_mode, let_right_go, update_table_move_interaction, right_palm, aimless, confirm,
  put_down, update_table_move_preview_pose,
}

pub right_stays_empty :
    (moving : Bool) (hand : Handedness) (b : Holds)
    → (moving ≡ true → b.in_right ≡ none)
    → moving ≡ true
    → (put_in hand none b).in_right ≡ none
right_stays_empty moving left b w e = w e
right_stays_empty moving right b w e = refl

abbrev pub while_moving : (moving : Bool) → Rule
while_moving moving = record {
  says = λ b. moving ≡ true → b.in_right ≡ none;
  dropping = right_stays_empty moving;
}

pub left-AllowsTaking : (moving : Bool) → AllowsTaking (while_moving moving) left
left-AllowsTaking moving id b e o w = w

pub right-AllowsTaking : (moving : Bool) → moving ≡ false → AllowsTaking (while_moving moving) right
right-AllowsTaking moving off id b e o w on = absurd (true_not_false (sym on ∙ off))

module _ ⦃n : Numbers⦄ where
  pub record IsSteady (x : Xr) : Type 0 where
    pub obeys : Obeys (while_moving x.table_move_mode) (grip_of (scene_of x))
    pub awaits : x.awaits_release ≡ true → x.table_move_mode ≡ true

  pub same-IsSteady :
      (x y : Xr)
      → grip_of (scene_of y) ≡ grip_of (scene_of x)
      → y.table_move_mode ≡ x.table_move_mode
      → y.awaits_release ≡ x.awaits_release
      → IsSteady x
      → IsSteady y
  same-IsSteady x y g m a w = record {
    obeys = rw (g, m) w.obeys;
    awaits = ground (arith, a, m, w.awaits);
  }

  -- The scene of the page, after what keeps each rule that the right hand's grabs may break.
  pub scene-IsSteady :
      (x : Xr) (s : Scene)
      → (Obeys (while_moving x.table_move_mode) (grip_of (scene_of x))
          → Obeys (while_moving x.table_move_mode) (grip_of s))
      → IsSteady x
      → IsSteady (with_scene s x)
  scene-IsSteady x s f w = record { obeys = f w.obeys; awaits = w.awaits }

  -- A table that is put down.
  pub put_down-IsSteady :
      (y : Xr)
      → IsOwned (grip_of (scene_of y))
      → y.table_move_mode ≡ false
      → y.awaits_release ≡ false
      → IsSteady y
  put_down-IsSteady y w m a = record {
    obeys = record { owned = w; rule = λ on. absurd (true_not_false (sym on ∙ m)) };
    awaits = λ on. absurd (true_not_false (sym on ∙ a));
  }

  let_right_go-empty :
      (r : Reading) (s : Scene) → IsOwned (grip_of s) → held_by (let_right_go r s).right_hand ≡ none
  let_right_go-empty r s w = elim (Option-cases (named (held_by s.right_hand))) [
    | inl e ↦ rw (e, let_right_go) (named-none _ (w.is_named right) e)
    | inr (id, e) ↦
        rw (e, let_right_go)
          (ap (λ g. g.in_right) (release_grab-dropped r right s) ∙ ground (arith, e))
  ]

  let_right_go-Obeys :
      {a : Rule} (r : Reading) (s : Scene)
      → Obeys a (grip_of s)
      → Obeys a (grip_of (let_right_go r s))
  let_right_go-Obeys r s w = elim (Option-cases (named (held_by s.right_hand))) [
    | inl e ↦ rw (e, let_right_go) w
    | inr (id, e) ↦ rw (e, let_right_go) (release_grab-Obeys r right s w)
  ]

  let_right_go-while_moving :
      (r : Reading) (s : Scene)
      → IsOwned (grip_of s)
      → Obeys (while_moving true) (grip_of (let_right_go r s))
  let_right_go-while_moving r s w = record {
    owned =
        (let_right_go-Obeys {a = while_moving false} r s
          (record { owned = w; rule = λ on. absurd (true_not_false (sym on)) })).owned;
    rule = λ on. let_right_go-empty r s w;
  }

  -- The mode starts with an empty right hand.
  pub start-IsSteady : (r : Reading) (x : Xr) → IsSteady x → IsSteady (start_table_move_mode r x)
  unfolding start_table_move_mode
  start-IsSteady r x w =
      if_cases IsSteady (not (is_presenting x)) x _ (λ e. w)
        (λ e. record {
          obeys =
              let_right_go-while_moving r (record (scene_of x) { hud_slider_active_hand = none })
                w.obeys.owned;
          awaits = λ on. refl;
        })

  confirm-IsSteady :
      (creates pinches : Bool) (x : Xr) → IsSteady x → IsSteady (confirm creates pinches x)
  unfolding put_down
  confirm-IsSteady creates pinches x w =
      if_cases IsSteady (not pinches) (record x { awaits_release = false })
        (if x.awaits_release then x else put_down creates x)
        (λ e. record { obeys = w.obeys; awaits = λ on. absurd (true_not_false (sym on)) })
        (λ e.
          if_cases IsSteady x.awaits_release x (put_down creates x) (λ f. w)
            (λ f. put_down-IsSteady (put_down creates x) w.obeys.owned refl refl))

  right_palm-hand :
      (s : Scene) (h : Hand) (center : Vector)
      → right_palm s ≡ some (h, center)
      → s.right_hand ≡ some h
  right_palm-hand s h center e = elim (Option-cases s.right_hand) [
    | inl f ↦ absurd (ground (arith, e, f))
    | inr (g, f) ↦ elim (Option-cases g.palm_center_world) [
      | inl q ↦ absurd (ground (arith, e, f, q))
      | inr (v, q) ↦ ground (arith, e, f, q)
    ]
  ]

  -- The mode goes on or ends with the frame's move.
  pub move_interaction-IsSteady :
      (facing : Vector → Vector → n.Quaternion) (viewer : Vector) (creates tracked : Bool) (x : Xr)
      → IsSteady x
      → IsSteady (update_table_move_interaction facing viewer creates tracked x)
  unfolding update_table_move_interaction update_table_move_preview_pose
  move_interaction-IsSteady facing viewer creates tracked x w =
      if_cases IsSteady (not x.table_move_mode || not tracked) x _ (λ e. w)
        (λ e. elim (Option-cases (right_palm (scene_of x))) [
          | inl f ↦ rw f w
          | inr ((h, center), f) ↦ rw f (
              confirm-IsSteady creates h.pinch_active _ (
                same-IsSteady x _
                  (put_hand-grip right (aimless h) (scene_of x)
                    (ap held_by (right_palm-hand (scene_of x) h center f)))
                  refl refl w))
        ])
