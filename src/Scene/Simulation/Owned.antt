-- ===== src/Scene/Simulation/Owned.antt =====
-- apps/frontend-webxr/src/scene.ts: a frame and a gust leave alone which hand holds which pod.
use hackz_megalo.Base.{ℕ, not, ◌≡◌, refl, sym, ap, ◌∙◌, List, [], ◌∷◌, some, if_cases}
use hackz_megalo.Scene.{
  Numbers, Handedness, left, right, Vector, Hand, Gust, GustSource, by_hand, Scene, hand_of,
  put_hand,
}
use hackz_megalo.Scene.Grabs.Owners.{grip_of, held_by}
use hackz_megalo.Scene.Gusts.{
  Frame, advance_gusts, launched_from, clear_gusts, clear_from, remove_gust,
}
use hackz_megalo.Scene.Gusts.Rounds.{advance_gusts-keeps, blow_cases}
use hackz_megalo.Scene.Gusts.Triggers.{
  Bearings, try_trigger_hand_gust, try_cases, fired, unlatched, unlatched-grab,
}
use hackz_megalo.Scene.Simulation.{prepare_all, frame_round, update_simulation}

module _ ⦃n : Numbers⦄ where
  advance_gusts-grip : (f : Frame) (s : Scene) → grip_of (advance_gusts f s) ≡ grip_of s
  advance_gusts-grip f s =
      advance_gusts-keeps (λ x. grip_of x ≡ grip_of s) f (λ x gusts pool w. w)
        (λ d id x w. blow_cases (λ y. grip_of y ≡ grip_of s) f d id x w (λ p l e t. w)) s refl

  pub update_simulation-grip : (f : Frame) (s : Scene) → grip_of (update_simulation f s) ≡ grip_of s
  unfolding update_simulation frame_round
  update_simulation-grip f s =
      if_cases (λ x. grip_of x ≡ grip_of s) (not s.has_world) s (frame_round f s) (λ e. refl)
        (λ e.
          advance_gusts-grip f
            (record s { pod_physics_by_id = (prepare_all f s.mesh_by_id s.pod_physics_by_id).0 }))

  put_hand-grip :
      (hand : Handedness) (h k : Hand) (s : Scene)
      → hand_of s hand ≡ some h
      → k.grabbed_pod_id ≡ h.grabbed_pod_id
      → grip_of (put_hand hand k s) ≡ grip_of s
  put_hand-grip left h k s e q =
      ap (λ o. record (grip_of s) { in_left = o }) (q ∙ ap held_by (sym e))
  put_hand-grip right h k s e q =
      ap (λ o. record (grip_of s) { in_right = o }) (q ∙ ap held_by (sym e))

  put_launched-grip :
      (hand : Handedness) (k : Hand) (handle : ℕ) (v d : Vector) (source : GustSource) (s : Scene)
      → grip_of (put_hand hand k (launched_from handle v d source s).1)
        ≡ grip_of (put_hand hand k s)
  put_launched-grip left k handle v d source s = refl
  put_launched-grip right k handle v d source s = refl

  pub try_trigger_hand_gust-grip :
      (b : Bearings) (handle : ℕ) (hand : Handedness) (s : Scene)
      → grip_of (try_trigger_hand_gust b handle hand s) ≡ grip_of s
  try_trigger_hand_gust-grip b handle hand s =
      try_cases (λ x. grip_of x ≡ grip_of s) b handle hand s refl
        (λ h k e q c. put_hand-grip hand h k s e q)
        (λ h v d e t.
          put_launched-grip hand (fired b.now (unlatched h)) handle v d (by_hand hand) s
          ∙ put_hand-grip hand h (fired b.now (unlatched h)) s e (unlatched-grab h))

  clear_from-grip : (gs : List Gust) (s : Scene) → grip_of (clear_from gs s) ≡ grip_of s
  unfolding clear_from remove_gust
  clear_from-grip [] s = refl
  clear_from-grip (g ∷ gs) s = clear_from-grip gs s

  pub clear_gusts-grip : (s : Scene) → grip_of (clear_gusts s) ≡ grip_of s
  unfolding clear_gusts
  clear_gusts-grip s = clear_from-grip s.gusts s
