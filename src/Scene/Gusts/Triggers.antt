-- ===== src/Scene/Gusts/Triggers.antt =====
-- apps/frontend-webxr/src/scene.ts: when a hand sends a gust, from `tryTriggerHandGust` to
-- `handFacesBoard`.
use hackz_megalo.Base.{
  true_not_false, ℕ, Bool, true, false, not, ◌&&◌, ◌||◌, ◌≡◌, ◌⊎◌, inl, inr, refl, sym, ap, ◌∙◌,
  Option, none, some, Option-cases, arith, is_some, if◌then◌else◌, if_cases,
}
use hackz_megalo.Scene.{
  dot, Numbers, Handedness, left, right, Vector, normalized, frac, Hand, by_hand, Scene, hand_of,
  put_hand,
}
use hackz_megalo.Scene.Grabs.{named}
use hackz_megalo.Scene.Gusts.{launch_gust, launched_from, is_flat}

module _ ⦃n : Numbers⦄ where
  -- What is read from outside: the time, the board's own coordinates, and the world's coordinates of
  -- the middle of the board's top.
  pub record Bearings : Type 0 where
    pub now : n.F
    pub to_board : Vector → Vector
    pub direction_to_board : Vector → Vector
    pub board_top : Vector

  abbrev pub level : Vector → Vector
  level v = record v { y = n.of 0 }

  abbrev pub to_middle : Bearings → Vector → Vector
  to_middle b center = record {
    x = n.sub b.board_top.x center.x;
    y = n.of 0;
    z = n.sub b.board_top.z center.z;
  }

  abbrev pub faces : Vector → Vector → Bool
  faces v w =
      not (is_flat v) && not (is_flat w) && n.ge (dot (normalized v) (normalized w)) (frac 12 100)

  unfoldable pub hand_faces_board : Bearings → Hand → Bool
  hand_faces_board b h = elim h.palm_center_world [
    | none ↦ false
    | some center ↦ elim h.palm_normal_world [
      | none ↦ false
      | some normal ↦ faces (to_middle b center) (level normal)
    ]
  ]

  abbrev pub is_upright : Vector → Vector → Bool
  is_upright normal up = n.ge (frac 68 100) (n.abs normal.y) && n.ge (n.abs up.y) (frac 34 100)

  unfoldable pub is_hand_in_gust_pose : Bearings → Hand → Bool
  is_hand_in_gust_pose b h = elim h.palm_normal_world [
    | none ↦ false
    | some normal ↦ elim h.hand_up_world [
      | none ↦ false
      | some up ↦
          h.open_palm && is_some h.palm_center_world && is_upright normal up && hand_faces_board b h
    ]
  ]

  abbrev pub latch : Bool → Hand → Hand
  latch b h = record h { gust_motion_latch = b }

  -- The hand, once the latch is off where its sweep is slow.
  abbrev pub unlatched : Hand → Hand
  unlatched h = if n.ge (frac 7 100) h.sweep_speed then latch false h else h

  abbrev pub is_ready : n.F → Hand → Bool
  is_ready now h =
      not (n.gt h.gust_cooldown_until now)
      && not h.gust_motion_latch
      && not (n.gt (frac 17 100) h.sweep_speed)

  abbrev pub after_launch : Handedness → n.F → Hand → Bool × Scene → Scene
  after_launch hand now h (launched, s) =
      if launched
      then put_hand hand
          (record h { gust_motion_latch = true; gust_cooldown_until = n.add now (n.of 680) }) s
      else put_hand hand h s

  abbrev pub launch_by_hand : Bearings → ℕ → Handedness → Hand → Scene → Scene
  launch_by_hand b handle hand h s = elim h.palm_center_world [
    | none ↦ put_hand hand h s
    | some center ↦ elim h.palm_normal_world [
      | none ↦ put_hand hand h s
      | some normal ↦
          after_launch hand b.now h
            (launch_gust handle (b.to_board center) (b.direction_to_board normal) (by_hand hand) s)
    ]
  ]

  abbrev pub is_busy : Hand → Bool
  is_busy h = not h.gust_pose_active || is_some (named h.grabbed_pod_id) || h.pinch_active

  unfoldable pub try_trigger_hand_gust : Bearings → (handle : ℕ) → Handedness → Scene → Scene
  try_trigger_hand_gust b handle hand s = elim (hand_of s hand) [
    | none ↦ s
    | some h ↦
        if is_busy h
        then put_hand hand (latch false h) s
        else if is_ready b.now (unlatched h)
        then launch_by_hand b handle hand (unlatched h) s
        else put_hand hand (unlatched h) s
  ]

  abbrev pub cooldown_of : Option Hand → n.F
  cooldown_of none = n.of 0
  cooldown_of (some h) = h.gust_cooldown_until

  same_gusts : (hand : Handedness) (h : Hand) (s : Scene) → (put_hand hand h s).gusts ≡ s.gusts
  same_gusts left h s = refl
  same_gusts right h s = refl

  put_there : (hand : Handedness) (h : Hand) (s : Scene) → hand_of (put_hand hand h s) hand ≡ some h
  put_there left h s = refl
  put_there right h s = refl

  abbrev pub fired : n.F → Hand → Hand
  fired now h = record h { gust_motion_latch = true; gust_cooldown_until = n.add now (n.of 680) }

  launch_cases {ℓ} :
      (P : Scene → Type ℓ) (b : Bearings) (handle : ℕ) (hand : Handedness) (h : Hand) (s : Scene)
      → P (put_hand hand h s)
      → ((v d : Vector)
          → P (put_hand hand (fired b.now h) (launched_from handle v d (by_hand hand) s).1))
      → P (launch_by_hand b handle hand h s)
  unfolding launch_gust
  launch_cases P b handle hand h s stays fires = elim (Option-cases h.palm_center_world) [
    | inl e ↦ rw (e, launch_by_hand) stays
    | inr (center, e) ↦ elim (Option-cases h.palm_normal_world) [
      | inl q ↦ rw (e, q, launch_by_hand) stays
      | inr (normal, q) ↦
          rw (e, q, launch_by_hand)
            (if_cases (λ x. P (after_launch hand b.now h x)) (not s.has_world) (false, s)
              (launched_from handle (b.to_board center) (b.direction_to_board normal) (by_hand hand)
                s)
              (λ t. stays) (λ t. fires (b.to_board center) (b.direction_to_board normal)))
    ]
  ]

  pub unlatched-grab : (h : Hand) → (unlatched h).grabbed_pod_id ≡ h.grabbed_pod_id
  unlatched-grab h = ground arith

  unlatched-cooldown : (h : Hand) → (unlatched h).gust_cooldown_until ≡ h.gust_cooldown_until
  unlatched-cooldown h = ground arith

  -- A try changes only the hand, or sends a gust.
  pub try_cases {ℓ} :
      (P : Scene → Type ℓ) (b : Bearings) (handle : ℕ) (hand : Handedness) (s : Scene)
      → P s
      → ((h k : Hand)
          → hand_of s hand ≡ some h
          → k.grabbed_pod_id ≡ h.grabbed_pod_id
          → k.gust_cooldown_until ≡ h.gust_cooldown_until
          → P (put_hand hand k s))
      → ((h : Hand) (v d : Vector)
          → hand_of s hand ≡ some h
          → n.gt h.gust_cooldown_until b.now ≡ false
          → P (
              put_hand hand
                (fired b.now (unlatched h))
                (launched_from handle v d (by_hand hand) s).1))
      → P (try_trigger_hand_gust b handle hand s)
  unfolding try_trigger_hand_gust
  try_cases P b handle hand s idle stays fires = elim (Option-cases (hand_of s hand)) [
    | inl e ↦ rw (e, try_trigger_hand_gust) idle
    | inr (h, e) ↦
        rw (e, try_trigger_hand_gust)
          (if_cases P (is_busy h) (put_hand hand (latch false h) s)
            (if is_ready b.now (unlatched h)
              then launch_by_hand b handle hand (unlatched h) s
              else put_hand hand (unlatched h) s)
            (λ t. stays h (latch false h) e refl refl)
            (λ t.
              if_cases P (is_ready b.now (unlatched h))
                (launch_by_hand b handle hand (unlatched h) s) (put_hand hand (unlatched h) s)
                (λ u.
                  launch_cases P b handle hand (unlatched h) s
                    (stays h (unlatched h) e (unlatched-grab h) (unlatched-cooldown h))
                    (λ v d. fires h v d e (ground (arith, u))))
                (λ u. stays h (unlatched h) e (unlatched-grab h) (unlatched-cooldown h))))
  ]

  -- A try leaves the gusts, or sets the time before which the hand sends no other.
  pub try_cools :
      (b : Bearings) (handle : ℕ) (hand : Handedness) (s : Scene)
      → ((try_trigger_hand_gust b handle hand s).gusts ≡ s.gusts)
        ⊎ (cooldown_of (hand_of (try_trigger_hand_gust b handle hand s) hand)
            ≡ n.add b.now (n.of 680))
  unfolding try_trigger_hand_gust
  try_cools b handle hand s =
      try_cases (λ x. (x.gusts ≡ s.gusts) ⊎ (cooldown_of (hand_of x hand) ≡ n.add b.now (n.of 680)))
        b handle hand s (inl refl) (λ h k e q c. inl (same_gusts hand k s))
        (λ h v d e t. inr (ap cooldown_of (put_there hand _ _)))

  pub try_waits :
      (b : Bearings) (handle : ℕ) (hand : Handedness) (s : Scene)
      → n.gt (cooldown_of (hand_of s hand)) b.now ≡ true
      → (try_trigger_hand_gust b handle hand s).gusts ≡ s.gusts
  unfolding try_trigger_hand_gust
  try_waits b handle hand s w =
      try_cases (λ x. x.gusts ≡ s.gusts) b handle hand s refl (λ h k e q c. same_gusts hand k s)
        (λ h v d e t. absurd (true_not_false (sym w ∙ ap (λ o. n.gt (cooldown_of o) b.now) e ∙ t)))
