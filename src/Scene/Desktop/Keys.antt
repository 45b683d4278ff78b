-- ===== src/Scene/Desktop/Keys.antt =====
-- apps/frontend-webxr/src/scene.ts: the desktop's keys, its pointer lock and its camera, from
-- `setDesktopActive` to `handlePointerLockChange`, and `triggerDesktopGust`.
pub mod Quiet
use hackz_megalo.Base.{
  ℕ, Bool, true, false, not, ◌&&◌, ◌||◌, Option, none, some, List, [], ◌∷◌, ◌++◌, Text, text,
  if◌then◌else◌, nat_eq, text_eq, eq_Text, add_to, without, includes, keep_if,
}
use hackz_megalo.Scene.{
  plus, minus, cross, Numbers, Vector, origin, length_sq, normalized, scaled, frac, clamp, Scene,
  by_desktop,
}
use hackz_megalo.Scene.Grabs.{Reading}
use hackz_megalo.Scene.Gusts.{launch_gust, level_direction, is_flat}
use hackz_megalo.Scene.Gusts.Triggers.{Bearings, level}
use hackz_megalo.Scene.Hud.{KeyTarget, should_ignore_keyboard_event}
use hackz_megalo.Scene.Desktop.{
  Desktop, is_desktop_scene_active, set_desktop_target_pod, set_desktop_look_active, target_of,
  update_desktop_targeting, handle_desktop_pointer_down,
}

-- A key that is pressed or let go.
pub record Key : Type 0 where
  pub code : Text
  pub repeats : Bool
  pub meta : Bool
  pub ctrl : Bool
  pub alt : Bool
  pub target : KeyTarget

abbrev pub is_ignored : Key → Bool
is_ignored k = should_ignore_keyboard_event k.meta k.ctrl k.alt k.target

-- `code === "KeyW" || code === "KeyA" || code === "KeyS" || code === "KeyD"`
abbrev pub is_move_key : Text → Bool
is_move_key code =
    text_eq code (text "KeyW")
    || text_eq code (text "KeyA")
    || text_eq code (text "KeyS")
    || text_eq code (text "KeyD")

module _ ⦃n : Numbers⦄ where
  -- The desktop with its keys, the turn of its camera and its place, what the browser was asked of the pointer
  -- (`true` to lock it), and the calls of `onDesktopBinding`.
  pub record Controls : Type 0 where
    pub desktop : Desktop
    pub pressed_keys : List Text
    pub yaw : n.F
    pub pitch : n.F
    pub camera : Vector
    pub asks : List Bool
    pub bindings : List (Text × Option Text)

  abbrev pub is_active : Controls → Bool
  is_active c = is_desktop_scene_active c.desktop

  unfoldable pub request_pointer_lock : Controls → Controls
  request_pointer_lock c =
      if not (is_active c) || c.desktop.pointer_locked
      then c
      else record c { asks = c.asks ++ true ∷ [] }

  abbrev pub exit_pointer_lock : Controls → Controls
  exit_pointer_lock c =
      if not c.desktop.pointer_locked then c else record c { asks = c.asks ++ false ∷ [] }

  abbrev pub look : Bool → Controls → Controls
  look b c = record c { desktop = set_desktop_look_active b c.desktop }

  abbrev pub let_keys_go : Controls → Controls
  let_keys_go c = record c { pressed_keys = [] }

  abbrev pub switched : Bool → Controls → Controls
  switched active c = record c { desktop = record (c.desktop) { input_active = active } }

  abbrev pub rested : Controls → Controls
  rested c =
      let b = look false (let_keys_go (exit_pointer_lock c)) in
      record b { desktop = set_desktop_target_pod none false b.desktop }

  -- The focus and the size of the canvas are left out.
  unfoldable pub set_desktop_active : Bool → Controls → Controls
  unfolding set_desktop_target_pod
  set_desktop_active true c = switched true c
  set_desktop_active false c = if not c.desktop.input_active then c else rested (switched false c)

  unfoldable pub handle_desktop_pointer_move : (movement_x movement_y : n.F) → Controls → Controls
  handle_desktop_pointer_move x y c =
      if not (is_active c) || (not c.desktop.look_active && not c.desktop.pointer_locked)
      then c
      else record c {
        yaw = n.sub c.yaw (n.mul x (frac 24 10000));
        pitch =
            clamp (n.sub c.pitch (n.mul y (frac 24 10000))) (n.mul (n.neg n.pi) (frac 48 100))
              (n.mul n.pi (frac 48 100));
      }

  unfoldable pub handle_desktop_pointer_up : (button : ℕ) → Controls → Controls
  handle_desktop_pointer_up button c =
      if not (nat_eq button 2) || c.desktop.pointer_locked then c else look false c

  -- What `triggerDesktopGust` reads: the camera's place and direction.
  pub record Camera : Type 0 where
    pub position : Vector
    pub direction : Vector

  abbrev pub after_desktop_launch : n.F → Bool × Scene → Scene → Scene
  after_desktop_launch now (launched, after) before =
      if launched
      then record after { desktop_gust_cooldown_until = n.add now (n.of 680) }
      else before

  abbrev pub source_of : Bearings → Camera → Vector
  source_of b camera = record (camera.position) { y = n.add b.board_top.y (frac 8 100) }

  unfoldable pub trigger_desktop_gust : Bearings → Camera → (handle : ℕ) → Controls → Controls
  unfolding launch_gust
  trigger_desktop_gust b camera handle c =
      if not (is_active c) || n.gt c.desktop.scene.desktop_gust_cooldown_until b.now
      then c
      else record c {
        desktop = record (c.desktop) {
          scene =
              after_desktop_launch b.now
                (launch_gust handle (b.to_board (source_of b camera))
                  (b.direction_to_board (level_direction (level camera.direction))) by_desktop
                  c.desktop.scene)
                c.desktop.scene;
        };
      }

  abbrev pub escaped : Controls → Controls
  escaped c =
      if c.desktop.pointer_locked
      then exit_pointer_lock c
      else if c.desktop.look_active
      then look false c
      else c

  unfoldable pub handle_desktop_key_down :
      Bearings → Camera → (handle : ℕ) → Key → Controls → Controls
  unfolding trigger_desktop_gust includes
  handle_desktop_key_down b camera handle k c =
      if not (is_active c) || is_ignored k
      then c
      else if text_eq k.code (text "Escape")
      then escaped c
      else if is_move_key k.code
      then record c { pressed_keys = add_to c.pressed_keys k.code }
      else if text_eq k.code (text "KeyE") && not k.repeats
      then trigger_desktop_gust b camera handle c
      else if text_eq k.code (text "KeyR") && not k.repeats
      then record c { bindings = c.bindings ++ (k.code, target_of c.desktop) ∷ [] }
      else c

  unfoldable pub handle_desktop_key_up : Key → Controls → Controls
  unfolding keep_if
  handle_desktop_key_up k c =
      if not (is_active c) || is_ignored k
      then c
      else if is_move_key k.code
      then record c { pressed_keys = without k.code c.pressed_keys }
      else c

  unfoldable pub handle_desktop_window_blur : Controls → Controls
  handle_desktop_window_blur c = exit_pointer_lock (look false (let_keys_go c))

  unfoldable pub handle_pointer_lock_change : (locked : Bool) → Controls → Controls
  handle_pointer_lock_change locked c =
      let b = record c { desktop = record (c.desktop) { pointer_locked = locked } } in
      if locked then look false b else let_keys_go (look false b)

  abbrev pub rightward : Vector → Vector → Vector
  rightward direction up =
      let v = cross direction up in if n.gt (length_sq v) (frac 1 1000000) then normalized v else v

  abbrev pub stepped : List Text → Text → (Vector → Vector → Vector) → Vector → Vector → Vector
  stepped pressed code op way v = if includes pressed code then op v way else v

  unfoldable pub movement : List Text → (ahead beside : Vector) → Vector
  unfolding includes
  movement pressed ahead beside = stepped pressed (text "KeyA") minus beside (
      stepped pressed (text "KeyD") plus beside (
        stepped pressed (text "KeyS") minus ahead
          (stepped pressed (text "KeyW") plus ahead origin)))

  abbrev pub presses_none : Controls → Bool
  presses_none c = elim c.pressed_keys [ [] ↦ true | k ∷ ks ↦ false ]

  -- `direction` and `up` are those of the camera.
  unfoldable pub update_desktop_movement :
      (delta : n.F) → (direction up : Vector) → Controls → Controls
  unfolding movement
  update_desktop_movement delta direction up c =
      let ahead = normalized direction in
      let way = movement c.pressed_keys ahead (rightward ahead up) in
      if not (is_active c) || presses_none c || is_flat way
      then c
      else record c { camera = plus c.camera (scaled (normalized way) (n.mul (frac 6 10) delta)) }

  pub data Input : Type 0 where
    activates changes_lock : Bool → Input
    aims : List (List (Option Text)) → Input
    clicks : (button : ℕ) → Reading → (ℕ → Vector) → Input
    double_clicks blurs : Input
    points : (movement_x movement_y : n.F) → Input
    lets_go : (button : ℕ) → Input
    types : Bearings → Camera → (handle : ℕ) → Key → Input
    lifts : Key → Input
    moves : (delta : n.F) → (direction up : Vector) → Input

  unfoldable pub take_input : Input → Controls → Controls
  take_input (activates b) c = set_desktop_active b c
  take_input (changes_lock b) c = handle_pointer_lock_change b c
  take_input (aims objects) c = record c { desktop = update_desktop_targeting objects c.desktop }
  take_input (clicks button r positions) c = record c {
    desktop = handle_desktop_pointer_down button r positions c.desktop;
  }
  take_input double_clicks c = request_pointer_lock c
  take_input blurs c = handle_desktop_window_blur c
  take_input (points x y) c = handle_desktop_pointer_move x y c
  take_input (lets_go button) c = handle_desktop_pointer_up button c
  take_input (types b camera handle k) c = handle_desktop_key_down b camera handle k c
  take_input (lifts k) c = handle_desktop_key_up k c
  take_input (moves delta direction up) c = update_desktop_movement delta direction up c

  unfoldable pub take_inputs : List Input → Controls → Controls
  take_inputs [] c = c
  take_inputs (i ∷ is) c = take_inputs is (take_input i c)
