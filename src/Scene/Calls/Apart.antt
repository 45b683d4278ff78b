-- ===== src/Scene/Calls/Apart.antt =====
-- apps/frontend-webxr/src/scene.ts: histories of the hands between two gusts. Besides the calls of
-- Scene/Calls, the joints of a hand are read and a hand aims.
use hackz_megalo.Base.{
  true_not_false, ℕ, Bool, true, false, not, ◌||◌, ◌≡◌, ◌≢◌, inl, inr, refl, sym, ap, ◌∙◌, List, [],
  ◌∷◌, All, is_some, eq_Text, Bool-cases, arith,
}
use hackz_megalo.Scene.{Numbers, Handedness, left, right, Scene, hand_of}
use hackz_megalo.Scene.Grabs.{Reading, same_hand, release_grab, update_grab_interaction}
use hackz_megalo.Scene.Gusts.Triggers.{
  Bearings, try_trigger_hand_gust, try_cools, try_waits, cooldown_of,
}
use hackz_megalo.Scene.Gusts.Cooldowns.{
  time_of, release_grab-cooldowns, update_grab_interaction-cooldowns,
}
use hackz_megalo.Scene.Update.Cooldowns.{
  start_pod_crush-cooldowns, create_pod_physics-cooldowns, process-cooldowns, update-cooldowns,
  update_simulation-cooldowns,
}
use hackz_megalo.Scene.Hands.{HandReading, skeleton_of}
use hackz_megalo.Scene.Hands.Sampling.{update_hand_physics_from_joints}
use hackz_megalo.Scene.Xr.Sources.{XrFrame}
use hackz_megalo.Scene.Xr.Frames.{aim_hand}
use hackz_megalo.Scene.Pods.{start_pod_crush, create_pod_physics, process_open_palm_contacts}
use hackz_megalo.Scene.Simulation.{update_simulation}
use hackz_megalo.Scene.Update.{update}
use hackz_megalo.Scene.Calls.{
  SceneCall, grabs, releases, clears, crushes, creates, updates, resets, frames, gusts, touches,
  Moment, perform,
}
use hackz_megalo.Scene.Calls.Cooldowns.{
  time_in, clear_hand_state-time, try_other-time, try_early-time, joints-time, aim_hand-time,
}

module _ ⦃n : Numbers⦄ where
  -- What changes the hands.
  pub data HandCall : Type 0 where
    calls : Moment → HandCall
    samples : HandReading → Reading → Handedness → HandCall
    aims : XrFrame → Handedness → HandCall

  unfoldable pub run_hand : HandCall → Scene → Scene
  unfolding perform update_hand_physics_from_joints
  run_hand (calls m) s = perform m s
  run_hand (samples r reading hand) s = (update_hand_physics_from_joints r reading hand s).1
  run_hand (aims f hand) s = aim_hand f hand s

  unfoldable pub run_hands : List HandCall → Scene → Scene
  run_hands [] s = s
  run_hands (c ∷ cs) s = run_hands cs (run_hand c s)

  -- The call does not clear the hand, and is no try of that hand after the time `until`.
  abbrev pub is_calm : Handedness → n.F → SceneCall → Bool
  is_calm hand until (clears h contacts) = not (same_hand h hand)
  is_calm hand until resets = false
  is_calm hand until (gusts b handle h) = not (same_hand h hand) || n.gt until b.now
  is_calm hand until c = true

  -- The same, where the joints of that hand are all seen when they are read.
  abbrev pub is_within : Handedness → n.F → HandCall → Bool
  is_within hand until (calls m) = is_calm hand until m.call
  is_within hand until (samples r reading h) =
      not (same_hand h hand) || is_some (skeleton_of r.pose)
  is_within hand until (aims f h) = true

  same-hand_of :
      (h hand : Handedness) (s : Scene) → same_hand h hand ≡ true → hand_of s h ≡ hand_of s hand
  same-hand_of left left s e = refl
  same-hand_of left right s e = ground (arith, e)
  same-hand_of right left s e = ground (arith, e)
  same-hand_of right right s e = refl

  try-time :
      (b : Bearings) (handle : ℕ) (h hand : Handedness) (s : Scene)
      → (not (same_hand h hand) || n.gt (time_in hand s) b.now) ≡ true
      → time_in hand (try_trigger_hand_gust b handle h s) ≡ time_in hand s
  try-time b handle h hand s w = elim (Bool-cases (same_hand h hand)) [
    | inl e ↦
        try_early-time b handle h hand s
          (ap (λ o. n.gt (cooldown_of o) b.now) (same-hand_of h hand s e) ∙ ground (arith, w, e))
    | inr e ↦ try_other-time b handle h hand s e
  ]

  perform-time :
      (hand : Handedness) (m : Moment) (s : Scene)
      → is_calm hand (time_in hand s) m.call ≡ true
      → time_in hand (perform m s) ≡ time_in hand s
  unfolding perform
  perform-time hand m s =
      elim m.call
        as (λ c.
          is_calm hand (time_in hand s) c ≡ true
          → time_in hand (perform (record m { call = c }) s) ≡ time_in hand s) [
            | grabs h ↦ λ w.
                time_of hand (update_grab_interaction m.reading h s) s
                  (update_grab_interaction-cooldowns m.reading h s)
            | releases h ↦ λ w.
                time_of hand (release_grab m.reading h s) s (release_grab-cooldowns m.reading h s)
            | clears h contacts ↦
                λ w. clear_hand_state-time m.reading h hand contacts s (ground (arith, w))
            | crushes id ↦ λ w.
                time_of hand (start_pod_crush m.reading m.positions id s) s
                  (start_pod_crush-cooldowns m.reading m.positions id s)
            | creates handle id ↦ λ w.
                time_of hand (create_pod_physics m.reading handle id s) s
                  (create_pod_physics-cooldowns m.reading handle id s)
            | updates supply view ↦
                λ w. time_of hand (update supply view s) s (update-cooldowns supply view s)
            | resets ↦ λ w. absurd (true_not_false (sym w))
            | frames frame ↦ λ w.
                time_of hand (update_simulation frame s) s (update_simulation-cooldowns frame s)
            | gusts b handle h ↦ λ w. try-time b handle h hand s w
            | touches handles h ↦ λ w.
                time_of hand (process_open_palm_contacts m.reading m.positions handles h s) s
                  (process-cooldowns m.reading m.positions handles h s)
          ]

  run_hand-time :
      (hand : Handedness) (c : HandCall) (s : Scene)
      → is_within hand (time_in hand s) c ≡ true
      → time_in hand (run_hand c s) ≡ time_in hand s
  unfolding run_hand
  run_hand-time hand (calls m) s w = perform-time hand m s w
  run_hand-time hand (samples r reading h) s w = joints-time r reading h hand s w
  run_hand-time hand (aims f h) s w = aim_hand-time f h hand s

  run_hands-time :
      (hand : Handedness) (until : n.F) (cs : List HandCall) (s : Scene)
      → time_in hand s ≡ until
      → All (λ c. is_within hand until c ≡ true) cs
      → time_in hand (run_hands cs s) ≡ until
  unfolding run_hands
  run_hands-time hand until [] s e w = e
  run_hands-time hand until (c ∷ cs) s e w =
      run_hands-time hand until cs (run_hand c s)
        (run_hand-time hand c s (ap (λ t. is_within hand t c) e ∙ w.0) ∙ e) w.1

  -- A hand that has sent a gust sends no other before 680 ms have passed, as long as it is not cleared,
  -- as where its tracking is lost, and the scene is not reset. In between, in any order and number,
  -- both hands grab, let go, strike, are read, aim and try to send gusts, the other hand may be cleared,
  -- and pods are made, crushed, updated and moved. Where every try of that hand in between is at a time
  -- before the end of the 680 ms, one more try of it before that end leaves the gusts as they are.
  pub try_trigger_hand_gust-apart :
      (b c : Bearings) (i j : ℕ) (hand : Handedness) (cs : List HandCall) (s : Scene)
      → (try_trigger_hand_gust b i hand s).gusts ≢ s.gusts
      → All (λ d. is_within hand (n.add b.now (n.of 680)) d ≡ true) cs
      → n.gt (n.add b.now (n.of 680)) c.now ≡ true
      → let after = run_hands cs (try_trigger_hand_gust b i hand s) in
        (try_trigger_hand_gust c j hand after).gusts ≡ after.gusts
  try_trigger_hand_gust-apart b c i j hand cs s sent within early =
      let fired_once = try_trigger_hand_gust b i hand s in
      let until = n.add b.now (n.of 680) in
      elim (try_cools b i hand s) [
        | inl e ↦ absurd (sent e)
        | inr e ↦
            try_waits c j hand (run_hands cs fired_once)
              (ap (λ k. n.gt k c.now) (run_hands-time hand until cs fired_once e within) ∙ early)
      ]
