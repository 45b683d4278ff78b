-- ===== src/Scene/Desktop/Keys/Quiet.antt =====
-- The desktop's input that is off has no effect that lasts.
use hackz_megalo.Base.{
  true_not_false, ℕ, Bool, true, false, ◌≡◌, refl, sym, subst, ◌∙◌, inl, inr, Bool-cases, Option,
  none, List, [], ◌∷◌, Text, eq_Text, eq_Option, arith,
}
use hackz_megalo.Scene.{Vector, Numbers, Vector}
use hackz_megalo.Scene.Grabs.{Reading}
use hackz_megalo.Scene.Gusts.Triggers.{Bearings}
use hackz_megalo.Scene.Desktop.{
  set_desktop_target_pod, target_of, update_desktop_targeting, handle_desktop_pointer_down,
}
use hackz_megalo.Scene.Desktop.Keys.{
  update_desktop_movement, moves, Controls, Input, take_input, take_inputs, set_desktop_active,
  handle_desktop_key_down, handle_desktop_key_up, handle_desktop_window_blur,
  handle_pointer_lock_change, Key, Camera, trigger_desktop_gust, request_pointer_lock,
  handle_desktop_pointer_move, handle_desktop_pointer_up, is_active, activates, changes_lock, aims,
  clicks, double_clicks, blurs, points, lets_go, types, lifts,
}

module _ ⦃n : Numbers⦄ where
  -- Where the desktop's input is off, no key is held, the camera does not follow the pointer and no pod
  -- is the target.
  pub record IsQuiet (c : Controls) : Type 0 where
    pub keys : c.desktop.input_active ≡ false → c.pressed_keys ≡ []
    pub looks : c.desktop.input_active ≡ false → c.desktop.look_active ≡ false
    pub target : c.desktop.input_active ≡ false → target_of c.desktop ≡ none

  set_desktop_active-IsQuiet :
      (b : Bool) (c : Controls) → IsQuiet c → IsQuiet (set_desktop_active b c)
  unfolding set_desktop_active set_desktop_target_pod
  set_desktop_active-IsQuiet true c w = record {
    keys = λ e. ground (arith, e);
    looks = λ e. ground (arith, e);
    target = λ e. ground (arith, e);
  }
  set_desktop_active-IsQuiet false c w = record {
    keys = λ e. ground (arith, e, w.keys);
    looks = λ e. ground (arith, e, w.looks);
    target = λ e. ground (arith, e, w.target);
  }

  on_not_off : (c : Controls) → c.desktop.input_active ≡ true → IsQuiet c
  on_not_off c on = record {
    keys = λ off. absurd (true_not_false (sym on ∙ off));
    looks = λ off. absurd (true_not_false (sym on ∙ off));
    target = λ off. absurd (true_not_false (sym on ∙ off));
  }

  -- A handler that does nothing where the desktop is not active, and leaves its input on or off.
  guarded-IsQuiet :
      (c b : Controls)
      → (is_active c ≡ false → b ≡ c)
      → b.desktop.input_active ≡ c.desktop.input_active
      → IsQuiet c
      → IsQuiet b
  guarded-IsQuiet c b idle same w = elim (Bool-cases (is_active c)) [
    | inl e ↦ on_not_off b (same ∙ ground (arith, e))
    | inr e ↦ subst IsQuiet (sym (idle e)) w
  ]

  key_down-IsQuiet :
      (b : Bearings) (camera : Camera) (handle : ℕ) (k : Key) (c : Controls)
      → IsQuiet c
      → IsQuiet (handle_desktop_key_down b camera handle k c)
  unfolding handle_desktop_key_down trigger_desktop_gust
  key_down-IsQuiet b camera handle k c =
      guarded-IsQuiet c (handle_desktop_key_down b camera handle k c)
        (λ e. rw (e, handle_desktop_key_down) refl) (ground arith)

  key_up-IsQuiet : (k : Key) (c : Controls) → IsQuiet c → IsQuiet (handle_desktop_key_up k c)
  unfolding handle_desktop_key_up
  key_up-IsQuiet k c =
      guarded-IsQuiet c (handle_desktop_key_up k c) (λ e. rw (e, handle_desktop_key_up) refl)
        (ground arith)

  pointer_move-IsQuiet :
      (x y : n.F) (c : Controls) → IsQuiet c → IsQuiet (handle_desktop_pointer_move x y c)
  unfolding handle_desktop_pointer_move
  pointer_move-IsQuiet x y c =
      guarded-IsQuiet c (handle_desktop_pointer_move x y c)
        (λ e. rw (e, handle_desktop_pointer_move) refl) (ground arith)

  request-IsQuiet : (c : Controls) → IsQuiet c → IsQuiet (request_pointer_lock c)
  unfolding request_pointer_lock
  request-IsQuiet c =
      guarded-IsQuiet c (request_pointer_lock c) (λ e. rw (e, request_pointer_lock) refl)
        (ground arith)

  click-IsQuiet :
      (button : ℕ) (r : Reading) (positions : ℕ → Vector) (c : Controls)
      → IsQuiet c
      → IsQuiet (record c { desktop = handle_desktop_pointer_down button r positions c.desktop })
  unfolding handle_desktop_pointer_down
  click-IsQuiet button r positions c =
      guarded-IsQuiet c
        (record c { desktop = handle_desktop_pointer_down button r positions c.desktop })
        (λ e. rw (e, handle_desktop_pointer_down) refl) (ground arith)

  aim-IsQuiet :
      (objects : List (List (Option Text))) (c : Controls)
      → IsQuiet c
      → IsQuiet (record c { desktop = update_desktop_targeting objects c.desktop })
  unfolding update_desktop_targeting set_desktop_target_pod
  aim-IsQuiet objects c w = record {
    keys = λ e. ground (arith, e, w.keys);
    looks = λ e. ground (arith, e, w.looks);
    target = λ e. ground (arith, e, w.target);
  }

  pointer_up-IsQuiet :
      (button : ℕ) (c : Controls) → IsQuiet c → IsQuiet (handle_desktop_pointer_up button c)
  unfolding handle_desktop_pointer_up
  pointer_up-IsQuiet button c w = record {
    keys = λ e. ground (arith, e, w.keys);
    looks = λ e. ground (arith, e, w.looks);
    target = λ e. ground (arith, e, w.target);
  }

  blur-IsQuiet : (c : Controls) → IsQuiet c → IsQuiet (handle_desktop_window_blur c)
  unfolding handle_desktop_window_blur
  blur-IsQuiet c w = record {
    keys = λ e. ground (arith, e, w.keys);
    looks = λ e. ground (arith, e, w.looks);
    target = λ e. ground (arith, e, w.target);
  }

  lock-IsQuiet : (b : Bool) (c : Controls) → IsQuiet c → IsQuiet (handle_pointer_lock_change b c)
  unfolding handle_pointer_lock_change
  lock-IsQuiet b c w = record {
    keys = λ e. ground (arith, e, w.keys);
    looks = λ e. ground (arith, e, w.looks);
    target = λ e. ground (arith, e, w.target);
  }

  movement-IsQuiet :
      (delta : n.F) (direction up : Vector) (c : Controls)
      → IsQuiet c
      → IsQuiet (update_desktop_movement delta direction up c)
  unfolding update_desktop_movement
  movement-IsQuiet delta direction up c =
      guarded-IsQuiet c (update_desktop_movement delta direction up c)
        (λ e. rw (e, update_desktop_movement) refl) (ground arith)

  take_input-IsQuiet : (i : Input) (c : Controls) → IsQuiet c → IsQuiet (take_input i c)
  unfolding take_input
  take_input-IsQuiet (activates b) c w = set_desktop_active-IsQuiet b c w
  take_input-IsQuiet (changes_lock b) c w = lock-IsQuiet b c w
  take_input-IsQuiet (aims objects) c w = aim-IsQuiet objects c w
  take_input-IsQuiet (clicks button r positions) c w = click-IsQuiet button r positions c w
  take_input-IsQuiet double_clicks c w = request-IsQuiet c w
  take_input-IsQuiet blurs c w = blur-IsQuiet c w
  take_input-IsQuiet (points x y) c w = pointer_move-IsQuiet x y c w
  take_input-IsQuiet (lets_go button) c w = pointer_up-IsQuiet button c w
  take_input-IsQuiet (types b camera handle k) c w = key_down-IsQuiet b camera handle k c w
  take_input-IsQuiet (lifts k) c w = key_up-IsQuiet k c w
  take_input-IsQuiet (moves delta direction up) c w = movement-IsQuiet delta direction up c w

  -- Through any input, where the desktop's input is off no key is held, the camera does not follow the
  -- pointer and no pod is the target, if it was so at first.
  pub take_inputs-IsQuiet :
      (is : List Input) (c : Controls) → IsQuiet c → IsQuiet (take_inputs is c)
  unfolding take_inputs
  take_inputs-IsQuiet [] c w = w
  take_inputs-IsQuiet (i ∷ is) c w =
      take_inputs-IsQuiet is (take_input i c) (take_input-IsQuiet i c w)
