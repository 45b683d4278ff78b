-- ===== src/Scene/Calls.antt =====
-- The calls of the scene's methods that hold, release, crush, make, remove, show or move pods, in any
-- order.
pub mod Apart
pub mod Cooldowns
use hackz_megalo.Base.{ℕ, Bool, ◌≡◌, refl, ap, ◌∙◌, none, List, [], ◌∷◌, Text, eq_Text}
use hackz_megalo.Scene.{Numbers, Handedness, Vector, Scene}
use hackz_megalo.Scene.Grabs.{Reading, release_grab, update_grab_interaction, clear_hand_state}
use hackz_megalo.Scene.Grabs.Owners.{
  grip_of, release_grab-Obeys, update_grab_interaction-Grabbed, clear_hand_state-Obeys,
  release_grab-dropped, clear_hand_state-dropped,
}
use hackz_megalo.Scene.Grabs.Grips.{Grip, IsOwned}
use hackz_megalo.Scene.Grabs.Holds.{Holds, holds_of, put_in}
use hackz_megalo.Scene.Grabs.Steps.{
  Grabs, Loses, LetsGo, grabbed-IsOwned, grabbed-Grabs, dropped-holds, starting,
}
use hackz_megalo.Scene.Pods.Owned.{
  start_pod_crush-Obeys, start_pod_crush-LetsGo, create_pod_physics-grip, process-Obeys,
}
use hackz_megalo.Scene.Pods.{start_pod_crush, create_pod_physics, process_open_palm_contacts}
use hackz_megalo.Scene.Gusts.{Frame}
use hackz_megalo.Scene.Gusts.Triggers.{Bearings, try_trigger_hand_gust}
use hackz_megalo.Scene.Simulation.{update_simulation}
use hackz_megalo.Scene.Simulation.Owned.{update_simulation-grip, try_trigger_hand_gust-grip}
use hackz_megalo.Scene.Update.{Supply, View, update, reset}
use hackz_megalo.Scene.Update.Owned.{update-Obeys, reset-Obeys, reset-empties}

module _ ⦃n : Numbers⦄ where
  pub data SceneCall : Type 0 where
    grabs : Handedness → SceneCall
    releases : Handedness → SceneCall
    clears : Handedness → Bool → SceneCall
    crushes : Text → SceneCall
    creates : (handle : ℕ) → Text → SceneCall
    updates : Supply → View → SceneCall
    resets : SceneCall
    frames : Frame → SceneCall
    gusts : Bearings → (handle : ℕ) → Handedness → SceneCall
    touches : (handles : List ℕ) → Handedness → SceneCall

  -- Every call has a reading and the places of the bodies at its time.
  pub record Moment : Type 0 where
    pub reading : Reading
    pub positions : ℕ → Vector
    pub call : SceneCall

  unfoldable pub perform : Moment → Scene → Scene
  perform m s = elim m.call [
    | grabs hand ↦ update_grab_interaction m.reading hand s
    | releases hand ↦ release_grab m.reading hand s
    | clears hand contacts ↦ clear_hand_state m.reading hand contacts s
    | crushes id ↦ start_pod_crush m.reading m.positions id s
    | creates handle id ↦ create_pod_physics m.reading handle id s
    | updates supply view ↦ update supply view s
    | resets ↦ reset m.reading s
    | frames frame ↦ update_simulation frame s
    | gusts bearings handle hand ↦ try_trigger_hand_gust bearings handle hand s
    | touches handles hand ↦ process_open_palm_contacts m.reading m.positions handles hand s
  ]

  unfoldable pub perform_all : List Moment → Scene → Scene
  perform_all [] s = s
  perform_all (m ∷ ms) s = perform_all ms (perform m s)

  -- What the call does to the two hands.
  abbrev pub IsStep : SceneCall → (a b : Holds) → Type 0
  IsStep (grabs hand) a b = Grabs hand a b
  IsStep (releases hand) a b = b ≡ put_in hand none a
  IsStep (clears hand contacts) a b = b ≡ put_in hand none a
  IsStep (crushes id) a b = LetsGo id a b
  IsStep (creates handle id) a b = b ≡ a
  IsStep (updates supply view) a b = Loses a b
  IsStep resets a b = b ≡ record { in_left = none; in_right = none }
  IsStep (frames frame) a b = b ≡ a
  IsStep (gusts bearings handle hand) a b = b ≡ a
  IsStep (touches handles hand) a b = Loses a b

  -- The two hands through calls, a step for each call.
  pub data Steps : List Moment → (a b : Holds) → Type 0 where
    stops : {a : Holds} → Steps [] a a
    goes :
        {a b c : Holds} {m : Moment} {ms : List Moment}
        → IsStep m.call a b
        → Steps ms b c
        → Steps (m ∷ ms) a c

  both_empty :
      (g : Grip)
      → g.in_left ≡ none
      → g.in_right ≡ none
      → holds_of g ≡ record { in_left = none; in_right = none }
  both_empty g p q = rw (p, q) refl

  perform-IsOwned : (m : Moment) (s : Scene) → IsOwned (grip_of s) → IsOwned (grip_of (perform m s))
  unfolding perform
  perform-IsOwned m s w =
      let o = starting (grip_of s) w in
      elim m.call as (λ c. IsOwned (grip_of (perform (record m { call = c }) s))) [
        | grabs hand ↦ grabbed-IsOwned w (update_grab_interaction-Grabbed m.reading hand s w)
        | releases hand ↦ (release_grab-Obeys m.reading hand s o).owned
        | clears hand contacts ↦ (clear_hand_state-Obeys m.reading hand contacts s o).owned
        | crushes id ↦ (start_pod_crush-Obeys m.reading m.positions id s o).owned
        | creates handle id ↦ rw (create_pod_physics-grip m.reading handle id s) w
        | updates supply view ↦ (update-Obeys supply view s o).owned
        | resets ↦ (reset-Obeys m.reading s o).owned
        | frames frame ↦ rw (update_simulation-grip frame s) w
        | gusts bearings handle hand ↦ rw (try_trigger_hand_gust-grip bearings handle hand s) w
        | touches handles hand ↦ (process-Obeys m.reading m.positions handles hand s o).owned
      ]

  perform-IsStep :
      (m : Moment) (s : Scene)
      → IsOwned (grip_of s)
      → IsStep m.call (holds_of (grip_of s)) (holds_of (grip_of (perform m s)))
  unfolding perform
  perform-IsStep m s w =
      let o = starting (grip_of s) w in
      elim m.call
        as (λ c.
          IsStep c (holds_of (grip_of s))
            (holds_of (grip_of (perform (record m { call = c }) s)))) [
              | grabs hand ↦ grabbed-Grabs w (update_grab_interaction-Grabbed m.reading hand s w)
              | releases hand ↦
                  ap (λ g. holds_of g) (release_grab-dropped m.reading hand s)
                  ∙ dropped-holds hand (grip_of s) w
              | clears hand contacts ↦
                  ap (λ g. holds_of g) (clear_hand_state-dropped m.reading hand contacts s w)
                  ∙ dropped-holds hand (grip_of s) w
              | crushes id ↦ start_pod_crush-LetsGo m.reading m.positions id s w
              | creates handle id ↦
                  ap (λ g. holds_of g) (create_pod_physics-grip m.reading handle id s)
              | updates supply view ↦ (update-Obeys supply view s o).rule
              | resets ↦
                  let e = reset-empties m.reading s w in
                  both_empty (grip_of (reset m.reading s)) e.0 e.1
              | frames frame ↦ ap (λ g. holds_of g) (update_simulation-grip frame s)
              | gusts bearings handle hand ↦
                  ap (λ g. holds_of g) (try_trigger_hand_gust-grip bearings handle hand s)
              | touches handles hand ↦ (process-Obeys m.reading m.positions handles hand s o).rule
            ]

  -- Through any calls, the map of owners and the hands tell the same: the map names a hand as the
  -- owner of a pod just where that hand holds the pod, so that no pod is in two hands.
  pub perform_all-IsOwned :
      (ms : List Moment) (s : Scene) → IsOwned (grip_of s) → IsOwned (grip_of (perform_all ms s))
  unfolding perform_all
  perform_all-IsOwned [] s w = w
  perform_all-IsOwned (m ∷ ms) s w = perform_all-IsOwned ms (perform m s) (perform-IsOwned m s w)

  -- Where the map of owners and the hands tell the same at first, what the hands hold goes through any
  -- calls by one step for each of them, as a machine without that map does. A hand that is released or
  -- cleared holds none, and the other keeps its pod. A hand that grabs keeps its pod, drops it, or takes
  -- one where it holds none and the other hand does not hold that one, and the other keeps its own. A
  -- crush takes no pod but the crushed one out of the hands. An update with pods and the contacts of a
  -- palm only take pods away from the hands; a new body, a frame and a gust leave both hands; after a
  -- reset both are empty.
  pub perform_all-Steps :
      (ms : List Moment) (s : Scene)
      → IsOwned (grip_of s)
      → Steps ms (holds_of (grip_of s)) (holds_of (grip_of (perform_all ms s)))
  unfolding perform_all
  perform_all-Steps [] s w = stops
  perform_all-Steps (m ∷ ms) s w =
      goes (perform-IsStep m s w) (perform_all-Steps ms (perform m s) (perform-IsOwned m s w))
