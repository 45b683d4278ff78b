-- ===== src/Scene/Calls/Cooldowns.antt =====
-- apps/frontend-webxr/src/scene.ts: what a hand does keeps the time before which the other hand sends
-- no gust, and so do the readings of the joints, the aims and the early tries of a hand itself.
use hackz_megalo.Base.{
  true_not_false, ℕ, Bool, true, false, not, ◌||◌, ◌≡◌, inl, inr, refl, sym, ap, ◌∙◌, some, [],
  is_some, eq_Text, if_cases, Option-cases, arith,
}
use hackz_megalo.Scene.{
  Numbers, Handedness, left, right, Vector, Hand, Scene, by_hand, hand_of, put_hand,
}
use hackz_megalo.Scene.Grabs.{
  Reading, same_hand, release_grab, clear_hand, clear_hand_state, clear_palm_contacts,
}
use hackz_megalo.Scene.Gusts.{launched_from}
use hackz_megalo.Scene.Gusts.Triggers.{
  Bearings, try_trigger_hand_gust, try_cases, cooldown_of, fired, unlatched,
}
use hackz_megalo.Scene.Gusts.Cooldowns.{time_of, put_hand-cooldowns, release_grab-cooldowns}
use hackz_megalo.Scene.Hands.{HandReading, Skeleton, skeleton_of}
use hackz_megalo.Scene.Hands.Sampling.{
  sampled, ensure_hand_physics, update_hand_physics_from_joints,
}
use hackz_megalo.Scene.Xr.Sources.{XrFrame}
use hackz_megalo.Scene.Xr.Frames.{aimed_hand, aim_hand}

module _ ⦃n : Numbers⦄ where
  -- The time before which the hand sends no gust.
  abbrev pub time_in : Handedness → Scene → n.F
  time_in hand s = cooldown_of (hand_of s hand)

  put_other :
      (h hand : Handedness) (k : Hand) (s : Scene)
      → same_hand h hand ≡ false
      → hand_of (put_hand h k s) hand ≡ hand_of s hand
  put_other left left k s e = ground (arith, e)
  put_other left right k s e = refl
  put_other right left k s e = refl
  put_other right right k s e = ground (arith, e)

  clear_other :
      (h hand : Handedness) (s : Scene)
      → same_hand h hand ≡ false
      → hand_of (clear_hand h s) hand ≡ hand_of s hand
  clear_other h hand s e = elim (Option-cases (hand_of s h)) [
    | inl f ↦ rw (f, clear_hand) refl
    | inr (k, f) ↦ rw (f, clear_hand) (put_other h hand _ s e)
  ]

  contacts-hand :
      (h hand : Handedness) (s : Scene) → hand_of (clear_palm_contacts h [] s) hand ≡ hand_of s hand
  unfolding clear_palm_contacts
  contacts-hand h left s = refl
  contacts-hand h right s = refl

  pub clear_hand_state-time :
      (r : Reading) (h hand : Handedness) (contacts : Bool) (s : Scene)
      → same_hand h hand ≡ false
      → time_in hand (clear_hand_state r h contacts s) ≡ time_in hand s
  unfolding clear_hand_state
  clear_hand_state-time r h hand contacts s e =
      let b = clear_hand h (release_grab r h s) in
      let same : time_in hand b ≡ time_in hand s =
        ap cooldown_of (clear_other h hand (release_grab r h s) e)
        ∙ time_of hand (release_grab r h s) s (release_grab-cooldowns r h s) in
      if_cases (λ (x : Scene). time_in hand x ≡ time_in hand s) contacts
        (clear_palm_contacts h [] b) b (λ t. ap cooldown_of (contacts-hand h hand b) ∙ same)
        (λ t. same)

  launched-hand :
      (hand : Handedness) (handle : ℕ) (v d : Vector) (h : Handedness) (s : Scene)
      → hand_of (launched_from handle v d (by_hand h) s).1 hand ≡ hand_of s hand
  launched-hand left handle v d h s = refl
  launched-hand right handle v d h s = refl

  pub try_other-time :
      (b : Bearings) (handle : ℕ) (h hand : Handedness) (s : Scene)
      → same_hand h hand ≡ false
      → time_in hand (try_trigger_hand_gust b handle h s) ≡ time_in hand s
  try_other-time b handle h hand s e =
      try_cases (λ x. time_in hand x ≡ time_in hand s) b handle h s refl
        (λ g k q p c. ap cooldown_of (put_other h hand k s e))
        (λ g v d q t. ap cooldown_of (
          put_other h hand (fired b.now (unlatched g)) (launched_from handle v d (by_hand h) s).1 e
          ∙ launched-hand hand handle v d h s))

  pub try_early-time :
      (b : Bearings) (handle : ℕ) (h hand : Handedness) (s : Scene)
      → n.gt (cooldown_of (hand_of s h)) b.now ≡ true
      → time_in hand (try_trigger_hand_gust b handle h s) ≡ time_in hand s
  try_early-time b handle h hand s w =
      try_cases (λ x. time_in hand x ≡ time_in hand s) b handle h s refl
        (λ g k q p c.
          time_of hand (put_hand h k s) s (put_hand-cooldowns h k s (ap cooldown_of q ∙ sym c)))
        (λ g v d q t. absurd (true_not_false (sym w ∙ ap (λ o. n.gt (cooldown_of o) b.now) q ∙ t)))

  ensured-time :
      (hand : Handedness) (s : Scene) (h : Hand)
      → ensure_hand_physics hand s ≡ some h
      → cooldown_of (hand_of s hand) ≡ h.gust_cooldown_until
  ensured-time hand s h e = elim (Option-cases (hand_of s hand)) [
    | inl f ↦ ground (arith, e, f)
    | inr (g, f) ↦ ground (arith, e, f)
  ]

  sampled-time :
      (r : HandReading) (k : Skeleton) (h : Hand)
      → (sampled r k h).gust_cooldown_until ≡ h.gust_cooldown_until
  unfolding sampled
  sampled-time r k h = refl

  -- Where the joints of a hand are read, it loses its time only if it is cleared.
  pub joints-time :
      (r : HandReading) (reading : Reading) (h hand : Handedness) (s : Scene)
      → (not (same_hand h hand) || is_some (skeleton_of r.pose)) ≡ true
      → time_in hand (update_hand_physics_from_joints r reading h s).1 ≡ time_in hand s
  unfolding update_hand_physics_from_joints
  joints-time r reading h hand s w = elim (Option-cases (skeleton_of r.pose)) [
    | inl e ↦
        rw (e, update_hand_physics_from_joints)
          (clear_hand_state-time reading h hand true s (ground (arith, w, e)))
    | inr (k, e) ↦ elim (Option-cases (ensure_hand_physics h s)) [
      | inl f ↦ rw (e, f, update_hand_physics_from_joints) refl
      | inr (g, f) ↦
          rw (e, f, update_hand_physics_from_joints)
            (time_of hand (put_hand h (sampled r k g) s) s (
              put_hand-cooldowns h (sampled r k g) s
                (ensured-time h s g f ∙ sym (sampled-time r k g))))
    ]
  ]

  pub aim_hand-time :
      (f : XrFrame) (h hand : Handedness) (s : Scene)
      → time_in hand (aim_hand f h s) ≡ time_in hand s
  aim_hand-time f h hand s = elim (Option-cases (hand_of s h)) [
    | inl e ↦ rw (e, aim_hand) refl
    | inr (g, e) ↦
        rw (e, aim_hand)
          (time_of hand (put_hand h (aimed_hand f h s g) s) s
            (put_hand-cooldowns h (aimed_hand f h s g) s (ap cooldown_of e)))
  ]
