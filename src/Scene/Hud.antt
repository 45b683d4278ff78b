-- ===== src/Scene/Hud.antt =====
-- apps/frontend-webxr/src/scene.ts: what the HUD says of the hands, the texts that it cuts to fit, and
-- the keys that the page leaves alone.
pub mod Fits
pub mod Debug
pub mod Redraws
use hackz_megalo.Base.{
  ℕ, ◌+◌, ◌-◌, ◌*◌, ◌/◌, max, Bool, true, false, not, ◌&&◌, ◌||◌, Option, none, some, List, [], ◌∷◌,
  ◌++◌, Text, text, if◌then◌else◌, leb, ltb, length, take, drop, or_option,
}
use hackz_megalo.Scene.{Numbers, Handedness, left, right, Hand, Scene}
use hackz_megalo.Scene.Grabs.{named}

-- Every limit in the source is a natural number.
unfoldable pub truncate_text : Text → ℕ → Text
unfolding take
truncate_text value limit =
    if leb (length value) limit then value else take (limit - 3) value ++ text "..."

-- `value.slice(-n)` for a positive `n`
abbrev pub last_of : ℕ → Text → Text
last_of n value = drop (length value - n) value

abbrev pub head_length : ℕ → ℕ
head_length max_length = max 4 ((max_length - 2) * 65 / 100)

abbrev pub tail_length : ℕ → ℕ
tail_length max_length = max 4 (max_length - head_length max_length - 2)

unfoldable pub format_hud_id : Text → ℕ → Text
unfolding take drop
format_hud_id value max_length =
    if leb (length value) max_length
    then value
    else take (head_length max_length) value ++ text ".." ++ last_of (tail_length max_length) value

unfoldable pub split_hud_lines : Text → ℕ → List Text
unfolding take drop
split_hud_lines value line_length =
    if leb (length value) line_length
    then value ∷ []
    else take line_length value ∷ drop line_length value ∷ []

-- Where a key was pressed; only elements of the page are told apart.
pub record KeyTarget : Type 0 where
  pub is_element : Bool
  pub is_editable : Bool
  pub is_input : Bool
  pub is_text_area : Bool
  pub is_select : Bool

unfoldable pub should_ignore_keyboard_event : (meta ctrl alt : Bool) → KeyTarget → Bool
should_ignore_keyboard_event meta ctrl alt t =
    if meta || ctrl || alt
    then true
    else if not t.is_element
    then false
    else t.is_editable || t.is_input || t.is_text_area || t.is_select

pub data HandGesture : Type 0 where
  track_lost idle open_hand point pinch grab : HandGesture

unfoldable pub describe_table_move_status :
    (move_mode slider_held right_tracked awaits_release : Bool) → Text
describe_table_move_status move_mode slider_held right_tracked awaits_release =
    if not move_mode
    then (if slider_held then text "HEIGHT DRAG" else text "IDLE")
    else if not right_tracked
    then text "TRACK RIGHT"
    else if awaits_release
    then text "RELEASE PINCH"
    else text "PREVIEW PINCH"

module _ ⦃n : Numbers⦄ where
  abbrev posture : Hand → HandGesture
  posture h =
      if h.pinch_active
      then pinch
      else if h.pointing_active
      then point
      else if h.open_palm
      then open_hand
      else idle

  unfoldable pub describe_hand_gesture : Option Hand → (tracked : Bool) → HandGesture
  describe_hand_gesture none tracked = track_lost
  describe_hand_gesture (some h) tracked =
      if not tracked
      then track_lost
      else elim (named h.grabbed_pod_id) [ none ↦ posture h | some id ↦ grab ]

  -- What `updateHudDebugState` writes of the hands' targets.
  pub record HudTargets : Type 0 where
    pub pinch_target_id : Option Text
    pub grab_target_id : Option Text
    pub fingertip_hand : Option Handedness
    pub fingertip_target_id : Option Text

  abbrev pub fingertip_of : Option Hand → Option Text
  fingertip_of none = none
  fingertip_of (some h) = named h.fingertip_target_id

  abbrev pub candidate_in : Option Hand → Option Text
  candidate_in none = none
  candidate_in (some h) = h.pinch_candidate_id

  abbrev pub grabbed_in : Option Hand → Option Text
  grabbed_in none = none
  grabbed_in (some h) = h.grabbed_pod_id

  abbrev pub pointing_hand : Option Text → Option Text → Option Handedness
  pointing_hand (some i) j = some left
  pointing_hand none (some j) = some right
  pointing_hand none none = none

  unfoldable pub hud_targets : Scene → HudTargets
  hud_targets s = record {
    pinch_target_id = or_option (candidate_in s.left_hand) (candidate_in s.right_hand);
    grab_target_id = or_option (grabbed_in s.left_hand) (grabbed_in s.right_hand);
    fingertip_hand = pointing_hand (fingertip_of s.left_hand) (fingertip_of s.right_hand);
    fingertip_target_id = or_option (fingertip_of s.left_hand) (fingertip_of s.right_hand);
  }
