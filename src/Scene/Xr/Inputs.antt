-- ===== src/Scene/Xr/Inputs.antt =====
-- The desktop's inputs change what the hands hold by a click on a pod alone.
use hackz_megalo.Base.{
  ℕ, Bool, true, false, ◌≡◌, refl, inl, inr, Option, none, some, List, Text, ◌⊎◌, subst,
  Option-cases, arith,
}
use hackz_megalo.Scene.{Numbers, Vector}
use hackz_megalo.Scene.Grabs.{Reading, named}
use hackz_megalo.Scene.Grabs.Owners.{grip_of}
use hackz_megalo.Scene.Grabs.Holds.{Rule, Obeys}
use hackz_megalo.Scene.Pods.{start_pod_crush}
use hackz_megalo.Scene.Pods.Owned.{start_pod_crush-Obeys}
use hackz_megalo.Scene.Gusts.{launch_gust}
use hackz_megalo.Scene.Gusts.Triggers.{Bearings}
use hackz_megalo.Scene.Desktop.{
  Desktop, handle_desktop_pointer_down, update_desktop_targeting, set_desktop_target_pod, target_of,
}
use hackz_megalo.Scene.Desktop.Keys.{
  Controls, Camera, Key, Input, take_input, set_desktop_active, trigger_desktop_gust,
  handle_desktop_key_down, handle_desktop_key_up, handle_pointer_lock_change,
  handle_desktop_window_blur, handle_desktop_pointer_move, handle_desktop_pointer_up,
  request_pointer_lock, update_desktop_movement, activates, changes_lock, aims, clicks,
  double_clicks, blurs, points, lets_go, types, lifts, moves,
}

module _ ⦃n : Numbers⦄ where
  pub target-grip :
      (id : Option Text) (notify : Bool) (d : Desktop)
      → grip_of (set_desktop_target_pod id notify d).scene ≡ grip_of d.scene
  unfolding set_desktop_target_pod
  target-grip id notify d = ground arith

  pub targeting-grip :
      (objects : List (List (Option Text))) (d : Desktop)
      → grip_of (update_desktop_targeting objects d).scene ≡ grip_of d.scene
  unfolding update_desktop_targeting set_desktop_target_pod
  targeting-grip objects d = ground arith

  gust-grip :
      (b : Bearings) (camera : Camera) (handle : ℕ) (c : Controls)
      → grip_of (trigger_desktop_gust b camera handle c).desktop.scene ≡ grip_of c.desktop.scene
  unfolding trigger_desktop_gust launch_gust
  gust-grip b camera handle c = ground arith

  pub movement-grip :
      (delta : n.F) (direction up : Vector) (c : Controls)
      → grip_of (update_desktop_movement delta direction up c).desktop.scene
        ≡ grip_of c.desktop.scene
  unfolding update_desktop_movement
  movement-grip delta direction up c = ground arith

  click_outcome :
      (button : ℕ) (r : Reading) (positions : ℕ → Vector) (d : Desktop) (id : Text)
      → named (target_of d) ≡ some id
      → ((handle_desktop_pointer_down button r positions d).scene ≡ d.scene)
        ⊎ ((handle_desktop_pointer_down button r positions d).scene
            ≡ start_pod_crush r positions id d.scene)
  unfolding handle_desktop_pointer_down
  click_outcome button r positions d id e = ground (arith, e)

  click_without :
      (button : ℕ) (r : Reading) (positions : ℕ → Vector) (d : Desktop)
      → named (target_of d) ≡ none
      → (handle_desktop_pointer_down button r positions d).scene ≡ d.scene
  unfolding handle_desktop_pointer_down
  click_without button r positions d e = ground (arith, e)

  click-Obeys :
      {a : Rule} (button : ℕ) (r : Reading) (positions : ℕ → Vector) (d : Desktop)
      → Obeys a (grip_of d.scene)
      → Obeys a (grip_of (handle_desktop_pointer_down button r positions d).scene)
  click-Obeys {a} button r positions d w = elim (Option-cases (named (target_of d))) [
    | inl e ↦ rw (click_without button r positions d e) w
    | inr (id, e) ↦ elim (click_outcome button r positions d id e) [
      | inl f ↦ rw f w
      | inr f ↦ rw f (start_pod_crush-Obeys r positions id d.scene w)
    ]
  ]

  inactive-grip :
      (b : Bool) (c : Controls)
      → grip_of (set_desktop_active b c).desktop.scene ≡ grip_of c.desktop.scene
  unfolding set_desktop_active set_desktop_target_pod
  inactive-grip true c = refl
  inactive-grip false c = ground arith

  key-grip :
      (b : Bearings) (camera : Camera) (handle : ℕ) (k : Key) (c : Controls)
      → grip_of (handle_desktop_key_down b camera handle k c).desktop.scene
        ≡ grip_of c.desktop.scene
  unfolding handle_desktop_key_down
  key-grip b camera handle k c = ground (arith, gust-grip b camera handle c)

  -- An input of the desktop keeps what is not lost where a hand drops its pod.
  pub input-Obeys :
      {a : Rule} (i : Input) (c : Controls)
      → Obeys a (grip_of c.desktop.scene)
      → Obeys a (grip_of (take_input i c).desktop.scene)
  unfolding take_input handle_pointer_lock_change request_pointer_lock handle_desktop_window_blur
      handle_desktop_pointer_move handle_desktop_pointer_up handle_desktop_key_up
  input-Obeys {a} (activates b) c w = rw (inactive-grip b c) w
  input-Obeys {a} (changes_lock b) c w = subst (λ g. Obeys a g) (ground arith) w
  input-Obeys {a} (aims objects) c w = rw (targeting-grip objects c.desktop) w
  input-Obeys {a} (clicks button r positions) c w = click-Obeys button r positions c.desktop w
  input-Obeys {a} double_clicks c w = subst (λ g. Obeys a g) (ground arith) w
  input-Obeys {a} blurs c w = subst (λ g. Obeys a g) (ground arith) w
  input-Obeys {a} (points x y) c w = subst (λ g. Obeys a g) (ground arith) w
  input-Obeys {a} (lets_go button) c w = subst (λ g. Obeys a g) (ground arith) w
  input-Obeys {a} (types b camera handle k) c w = rw (key-grip b camera handle k c) w
  input-Obeys {a} (lifts k) c w = subst (λ g. Obeys a g) (ground arith) w
  input-Obeys {a} (moves delta direction up) c w = rw (movement-grip delta direction up c) w
