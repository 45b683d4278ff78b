-- ===== src/Scene/Gusts/Cooldowns.antt =====
-- apps/frontend-webxr/src/scene.ts: what keeps the times before which the hands send no gust.
use hackz_megalo.Base.{
  ◌≡◌, inl, inr, refl, sym, ap, some, Text, Option-cases, Bool-cases, arith, lookup, if_cases,
  eq_Text,
}
use hackz_megalo.Scene.{
  Numbers, Handedness, left, right, Vector, PodPhysics, Hand, Scene, hand_of, put_hand,
}
use hackz_megalo.Scene.Grabs.{
  Reading, release_grab, update_grab_interaction, named, drag, hold, keep_hold, try_to_grab,
  take_hold, pinched_at, is_others, slides, grab_or_keep,
}
use hackz_megalo.Scene.Gusts.Triggers.{cooldown_of}

module _ ⦃n : Numbers⦄ where
  -- The times of both hands.
  abbrev pub cooldowns : Scene → n.F × n.F
  cooldowns s = (cooldown_of s.left_hand, cooldown_of s.right_hand)

  pub time_of :
      (hand : Handedness) (a b : Scene)
      → cooldowns a ≡ cooldowns b
      → cooldown_of (hand_of a hand) ≡ cooldown_of (hand_of b hand)
  time_of left a b e = ap (λ x. x.0) e
  time_of right a b e = ap (λ x. x.1) e

  pub put_hand-cooldowns :
      (hand : Handedness) (h : Hand) (s : Scene)
      → cooldown_of (hand_of s hand) ≡ h.gust_cooldown_until
      → cooldowns (put_hand hand h s) ≡ cooldowns s
  put_hand-cooldowns left h s e = ap (λ t. (t, cooldown_of s.right_hand)) (sym e)
  put_hand-cooldowns right h s e = ap (λ t. (cooldown_of s.left_hand, t)) (sym e)

  pub release_grab-cooldowns :
      (r : Reading) (hand : Handedness) (s : Scene)
      → cooldowns (release_grab r hand s) ≡ cooldowns s
  unfolding release_grab
  release_grab-cooldowns r left s = ground arith
  release_grab-cooldowns r right s = ground arith

  drag-cooldowns :
      (r : Reading) (hand : Handedness) (h : Hand) (id : Text) (p : PodPhysics) (v : Vector)
      (s : Scene)
      → hand_of s hand ≡ some h
      → cooldowns (drag r hand h id p v s) ≡ cooldowns s
  drag-cooldowns r left h id p v s e = ground (arith, e)
  drag-cooldowns r right h id p v s e = ground (arith, e)

  take_hold-cooldowns :
      (r : Reading) (hand : Handedness) (h : Hand) (id : Text) (p : PodPhysics) (v : Vector)
      (s : Scene)
      → hand_of s hand ≡ some h
      → cooldowns (take_hold r hand h id p v s) ≡ cooldowns s
  take_hold-cooldowns r left h id p v s e = ground (arith, e)
  take_hold-cooldowns r right h id p v s e = ground (arith, e)

  keep_hold-cooldowns :
      (r : Reading) (hand : Handedness) (h : Hand) (id : Text) (s : Scene)
      → hand_of s hand ≡ some h
      → cooldowns (keep_hold r hand h id s) ≡ cooldowns s
  keep_hold-cooldowns r hand h id s e = elim (Option-cases (lookup id s.pod_physics_by_id)) [
    | inl f ↦ rw (f, keep_hold) (release_grab-cooldowns r hand s)
    | inr (p, f) ↦ elim (Option-cases (pinched_at h)) [
      | inl g ↦
          rw (f, g, keep_hold)
            (if_cases (λ x. cooldowns x ≡ cooldowns s)
              (n.gt (n.sub r.now h.last_grab_at) (n.of 180)) (release_grab r hand s)
              (hold r h id p s) (λ late. release_grab-cooldowns r hand s) (λ early. refl))
      | inr (v, g) ↦ rw (f, g, keep_hold) (drag-cooldowns r hand h id p v s e)
    ]
  ]

  try_to_grab-cooldowns :
      (r : Reading) (hand : Handedness) (h : Hand) (s : Scene)
      → hand_of s hand ≡ some h
      → cooldowns (try_to_grab r hand h s) ≡ cooldowns s
  try_to_grab-cooldowns r hand h s e = elim (Option-cases (pinched_at h)) [
    | inl f ↦ rw (f, try_to_grab) refl
    | inr (v, f) ↦ elim (Option-cases (named h.pinch_candidate_id)) [
      | inl g ↦ rw (f, g, try_to_grab) refl
      | inr (id, g) ↦ elim (Bool-cases (is_others hand (lookup id s.pod_grab_owner_by_id))) [
        | inl o ↦ rw (f, g, o, try_to_grab) refl
        | inr o ↦ elim (Option-cases (lookup id s.pod_physics_by_id)) [
          | inl q ↦ rw (f, g, o, q, try_to_grab) refl
          | inr (p, q) ↦ rw (f, g, o, q, try_to_grab) (take_hold-cooldowns r hand h id p v s e)
        ]
      ]
    ]
  ]

  pub update_grab_interaction-cooldowns :
      (r : Reading) (hand : Handedness) (s : Scene)
      → cooldowns (update_grab_interaction r hand s) ≡ cooldowns s
  unfolding update_grab_interaction
  update_grab_interaction-cooldowns r hand s = elim (Option-cases (hand_of s hand)) [
    | inl e ↦ rw (e, update_grab_interaction) refl
    | inr (h, e) ↦
        rw (e, update_grab_interaction)
          (if_cases (λ x. cooldowns x ≡ cooldowns s) (slides hand s) (release_grab r hand s)
            (grab_or_keep r hand h s) (λ y. release_grab-cooldowns r hand s)
            (λ y. elim (Option-cases (named h.grabbed_pod_id)) [
              | inl f ↦ rw (f, grab_or_keep) (try_to_grab-cooldowns r hand h s e)
              | inr (id, f) ↦ rw (f, grab_or_keep) (keep_hold-cooldowns r hand h id s e)
            ]))
  ]
