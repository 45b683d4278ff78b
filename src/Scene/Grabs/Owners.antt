-- ===== src/Scene/Grabs/Owners.antt =====
-- Which hand holds which pod is written twice, in `podGrabOwnerById` and in the hands. Both tell the
-- same.
use hackz_megalo.Base.{
  Bool, ◌≡◌, inl, inr, refl, ap, ◌∙◌, Option, none, some, Text, if_cases, eq_Text, lookup,
  Option-cases, Bool-cases, arith,
}
use hackz_megalo.Scene.{Numbers, Handedness, left, right, Hand, Scene, PodPhysics, Vector, hand_of}
use hackz_megalo.Scene.Grabs.{
  Reading, release_grab, update_grab_interaction, clear_hand_state, clear_palm_contacts, named,
  drag, hold, keep_hold, try_to_grab, take_hold, pinched_at, is_others, slides, grab_or_keep,
}
use hackz_megalo.Scene.Grabs.Grips.{
  Grip, held, IsOwned, dropped, taken, named_filled, named-none, free_of,
}
use hackz_megalo.Scene.Grabs.Holds.{Rule, AllowsTaking, Obeys, dropped-Obeys}
use hackz_megalo.Scene.Grabs.Steps.{Grabbed, kept, let_go, took, grabbed-Obeys}

module _ ⦃n : Numbers⦄ where
  abbrev pub held_by : Option Hand → Option Text
  held_by none = none
  held_by (some h) = h.grabbed_pod_id

  abbrev pub grip_of : Scene → Grip
  grip_of s = record {
    in_left = held_by s.left_hand;
    in_right = held_by s.right_hand;
    owners = s.pod_grab_owner_by_id;
  }

  pub release_grab-dropped :
      (r : Reading) (hand : Handedness) (s : Scene)
      → grip_of (release_grab r hand s) ≡ dropped hand (grip_of s)
  unfolding release_grab
  release_grab-dropped r left s = ground arith
  release_grab-dropped r right s = ground arith

  pub clear_hand_state-dropped :
      (r : Reading) (hand : Handedness) (b : Bool) (s : Scene)
      → IsOwned (grip_of s)
      → grip_of (clear_hand_state r hand b s) ≡ dropped hand (grip_of s)
  unfolding clear_hand_state clear_palm_contacts release_grab
  clear_hand_state-dropped r left b s w = ground (arith, w.is_named left)
  clear_hand_state-dropped r right b s w = ground (arith, w.is_named right)

  drag-grip :
      (r : Reading) (hand : Handedness) (h : Hand) (id : Text) (p : PodPhysics) (v : Vector)
      (s : Scene)
      → hand_of s hand ≡ some h
      → grip_of (drag r hand h id p v s) ≡ grip_of s
  drag-grip r left h id p v s e = ground (arith, e)
  drag-grip r right h id p v s e = ground (arith, e)

  take_hold-grip :
      (r : Reading) (hand : Handedness) (h : Hand) (id : Text) (p : PodPhysics) (v : Vector)
      (s : Scene)
      → grip_of (take_hold r hand h id p v s) ≡ taken hand id (grip_of s)
  take_hold-grip r left h id p v s = refl
  take_hold-grip r right h id p v s = refl

  held_hand :
      (hand : Handedness) (s : Scene) (h : Hand)
      → hand_of s hand ≡ some h
      → held (grip_of s) hand ≡ h.grabbed_pod_id
  held_hand left s h e = ground (arith, e)
  held_hand right s h e = ground (arith, e)

  pub release_grab-Obeys :
      {a : Rule} (r : Reading) (hand : Handedness) (s : Scene)
      → Obeys a (grip_of s)
      → Obeys a (grip_of (release_grab r hand s))
  release_grab-Obeys {a} r hand s w =
      rw (release_grab-dropped r hand s) (dropped-Obeys hand (grip_of s) w)

  release_grab-Grabbed :
      (r : Reading) (hand : Handedness) (s : Scene)
      → Grabbed hand (grip_of s) (grip_of (release_grab r hand s))
  release_grab-Grabbed r hand s = rw (release_grab-dropped r hand s) let_go

  keep_hold-Grabbed :
      (r : Reading) (hand : Handedness) (h : Hand) (id : Text) (s : Scene)
      → hand_of s hand ≡ some h
      → Grabbed hand (grip_of s) (grip_of (keep_hold r hand h id s))
  keep_hold-Grabbed r hand h id s e = elim (Option-cases (lookup id s.pod_physics_by_id)) [
    | inl f ↦ rw (f, keep_hold) (release_grab-Grabbed r hand s)
    | inr (p, f) ↦ elim (Option-cases (pinched_at h)) [
      | inl g ↦
          rw (f, g, keep_hold)
            (if_cases (λ x. Grabbed hand (grip_of s) (grip_of x))
              (n.gt (n.sub r.now h.last_grab_at) (n.of 180)) (release_grab r hand s)
              (hold r h id p s) (λ late. release_grab-Grabbed r hand s) (λ early. kept))
      | inr (v, g) ↦ rw (f, g, keep_hold, drag-grip r hand h id p v s e) kept
    ]
  ]

  try_to_grab-Grabbed :
      (r : Reading) (hand : Handedness) (h : Hand) (s : Scene)
      → hand_of s hand ≡ some h
      → named h.grabbed_pod_id ≡ none
      → IsOwned (grip_of s)
      → Grabbed hand (grip_of s) (grip_of (try_to_grab r hand h s))
  try_to_grab-Grabbed r hand h s e idle w = elim (Option-cases (pinched_at h)) [
    | inl f ↦ rw (f, try_to_grab) kept
    | inr (v, f) ↦ elim (Option-cases (named h.pinch_candidate_id)) [
      | inl g ↦ rw (f, g, try_to_grab) kept
      | inr (id, g) ↦ elim (Bool-cases (is_others hand (lookup id s.pod_grab_owner_by_id))) [
        | inl o ↦ rw (f, g, o, try_to_grab) kept
        | inr o ↦ elim (Option-cases (lookup id s.pod_physics_by_id)) [
          | inl q ↦ rw (f, g, o, q, try_to_grab) kept
          | inr (p, q) ↦
              rw (f, g, o, q, try_to_grab, take_hold-grip r hand h id p v s)
                (took id
                  (named-none _ (w.is_named hand) (ap (λ o. named o) (held_hand hand s h e) ∙ idle))
                  (free_of hand _ o) (named_filled h.pinch_candidate_id g))
        ]
      ]
    ]
  ]

  pub update_grab_interaction-Grabbed :
      (r : Reading) (hand : Handedness) (s : Scene)
      → IsOwned (grip_of s)
      → Grabbed hand (grip_of s) (grip_of (update_grab_interaction r hand s))
  unfolding update_grab_interaction
  update_grab_interaction-Grabbed r hand s w = elim (Option-cases (hand_of s hand)) [
    | inl e ↦ rw (e, update_grab_interaction) kept
    | inr (h, e) ↦
        rw (e, update_grab_interaction)
          (if_cases (λ x. Grabbed hand (grip_of s) (grip_of x)) (slides hand s)
            (release_grab r hand s) (grab_or_keep r hand h s) (λ y. release_grab-Grabbed r hand s)
            (λ y. elim (Option-cases (named h.grabbed_pod_id)) [
              | inl f ↦ rw (f, grab_or_keep) (try_to_grab-Grabbed r hand h s e f w)
              | inr (id, f) ↦ rw (f, grab_or_keep) (keep_hold-Grabbed r hand h id s e)
            ]))
  ]

  pub update_grab_interaction-Obeys :
      {a : Rule} (r : Reading) (hand : Handedness) (s : Scene)
      → AllowsTaking a hand
      → Obeys a (grip_of s)
      → Obeys a (grip_of (update_grab_interaction r hand s))
  update_grab_interaction-Obeys {a} r hand s allows w =
      grabbed-Obeys allows w (update_grab_interaction-Grabbed r hand s w.owned)

  pub clear_hand_state-Obeys :
      {a : Rule} (r : Reading) (hand : Handedness) (b : Bool) (s : Scene)
      → Obeys a (grip_of s)
      → Obeys a (grip_of (clear_hand_state r hand b s))
  clear_hand_state-Obeys {a} r hand b s w =
      rw (clear_hand_state-dropped r hand b s w.owned) (dropped-Obeys hand (grip_of s) w)
