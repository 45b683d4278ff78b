-- ===== src/Scene/Hands/Owned.antt =====
-- What the hands hold does not change where a hand moves or aims.
use hackz_megalo.Base.{◌≡◌, refl, inl, inr, ◌∙◌, sym, some, Option-cases, true, arith}
use hackz_megalo.Scene.{Numbers, Handedness, left, right, Hand, Scene, hand_of, put_hand}
use hackz_megalo.Scene.Grabs.{Reading}
use hackz_megalo.Scene.Grabs.Owners.{held_by, grip_of, clear_hand_state-Obeys}
use hackz_megalo.Scene.Grabs.Holds.{Rule, Obeys}
use hackz_megalo.Scene.Hands.{HandReading, Skeleton, skeleton_of}
use hackz_megalo.Scene.Hands.Sampling.{
  sampled, ensure_hand_physics, update_hand_physics_from_joints,
}

module _ ⦃n : Numbers⦄ where
  pub put_hand-grip :
      (hand : Handedness) (h : Hand) (s : Scene)
      → held_by (hand_of s hand) ≡ h.grabbed_pod_id
      → grip_of (put_hand hand h s) ≡ grip_of s
  put_hand-grip left h s e = ground (arith, e)
  put_hand-grip right h s e = ground (arith, e)

  pub ensured_held :
      (hand : Handedness) (s : Scene) (h : Hand)
      → ensure_hand_physics hand s ≡ some h
      → held_by (hand_of s hand) ≡ h.grabbed_pod_id
  ensured_held hand s h e = elim (Option-cases (hand_of s hand)) [
    | inl f ↦ ground (arith, e, f)
    | inr (g, f) ↦ ground (arith, e, f)
  ]

  sampled_held :
      (r : HandReading) (k : Skeleton) (h : Hand)
      → (sampled r k h).grabbed_pod_id ≡ h.grabbed_pod_id
  unfolding sampled
  sampled_held r k h = refl

  -- A reading of the joints keeps what the hands hold, or lets the pod of that hand go.
  pub joints-Obeys :
      {a : Rule} (r : HandReading) (reading : Reading) (hand : Handedness) (s : Scene)
      → Obeys a (grip_of s)
      → Obeys a (grip_of (update_hand_physics_from_joints r reading hand s).1)
  unfolding update_hand_physics_from_joints
  joints-Obeys {a} r reading hand s w = elim (Option-cases (skeleton_of r.pose)) [
    | inl e ↦ rw (e, update_hand_physics_from_joints) (clear_hand_state-Obeys reading hand true s w)
    | inr (k, e) ↦ elim (Option-cases (ensure_hand_physics hand s)) [
      | inl f ↦ rw (e, f, update_hand_physics_from_joints) w
      | inr (h, f) ↦
          rw
            (
              e,
              f,
              update_hand_physics_from_joints,
              put_hand-grip hand (sampled r k h) s
                  (ensured_held hand s h f ∙ sym (sampled_held r k h)),
            )
            w
    ]
  ]
