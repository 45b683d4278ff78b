-- ===== src/Scene/Desktop.antt =====
-- apps/frontend-webxr/src/scene.ts: what the pointer of a desktop aims at, and the click on it. What
-- the ray meets is a list of objects, each with the ids that it and its ancestors carry.
pub mod Aims
pub mod Keys
use hackz_megalo.Base.{
  ℕ, Bool, true, false, not, ◌&&◌, ◌||◌, Option, none, some, List, [], ◌∷◌, ◌++◌, Text,
  if◌then◌else◌, eq_Text, eq_Option, option_beq, nat_eq,
}
use hackz_megalo.Scene.{Numbers, Vector, Scene}
use hackz_megalo.Scene.Grabs.{Reading, named}
use hackz_megalo.Scene.Pods.{is_pod_interactable, start_pod_crush}

module _ ⦃n : Numbers⦄ where
  -- The scene with the flags of the desktop's input, and the calls of `onHover` and `onSelect`.
  pub record Desktop : Type 0 where
    pub scene : Scene
    pub input_active : Bool
    pub presenting : Bool
    pub look_active : Bool
    pub pointer_locked : Bool
    pub hovers : List (Option Text)
    pub selections : List Text

  abbrev pub is_desktop_scene_active : Desktop → Bool
  is_desktop_scene_active d = d.input_active && not d.presenting

  abbrev pub target_of : Desktop → Option Text
  target_of d = d.scene.desktop_target_pod_id

  unfoldable pub set_desktop_target_pod : Option Text → (notify : Bool) → Desktop → Desktop
  set_desktop_target_pod id notify d = if option_beq (target_of d) id then d else record d {
    scene = record (d.scene) { desktop_target_pod_id = id };
    hovers = if notify then d.hovers ++ id ∷ [] else d.hovers;
  }

  -- The first id on the way up that is a text and not empty.
  unfoldable pub resolve_pod_id_from_object : List (Option Text) → Option Text
  resolve_pod_id_from_object [] = none
  resolve_pod_id_from_object (id ∷ ids) = elim (named id) [
    | none ↦ resolve_pod_id_from_object ids
    | some found ↦ some found
  ]

  -- The loop over the intersections.
  unfoldable pub first_aim : List (List (Option Text)) → Scene → Option Text
  unfolding resolve_pod_id_from_object
  first_aim [] s = none
  first_aim (object ∷ objects) s = elim (resolve_pod_id_from_object object) [
    | none ↦ first_aim objects s
    | some id ↦ if is_pod_interactable id s then some id else first_aim objects s
  ]

  abbrev pub has_meshes : Scene → Bool
  has_meshes s = elim s.mesh_by_id [ [] ↦ false | x ∷ xs ↦ true ]

  unfoldable pub update_desktop_targeting : List (List (Option Text)) → Desktop → Desktop
  update_desktop_targeting objects d =
      if not (is_desktop_scene_active d)
      then set_desktop_target_pod none true d
      else if not (has_meshes d.scene)
      then set_desktop_target_pod none true d
      else set_desktop_target_pod (first_aim objects d.scene) true d

  -- `setDesktopLookActive` in so far as it keeps the flag.
  abbrev pub set_desktop_look_active : Bool → Desktop → Desktop
  set_desktop_look_active b d = record d { look_active = b }

  -- The focus, and what the browser is told of the event and of the pointer, are left out.
  unfoldable pub handle_desktop_pointer_down :
      (button : ℕ) → Reading → (ℕ → Vector) → Desktop → Desktop
  handle_desktop_pointer_down button r positions d =
      if not (is_desktop_scene_active d)
      then d
      else if nat_eq button 2
      then (if d.pointer_locked then d else set_desktop_look_active true d)
      else if not (nat_eq button 0) || (d.look_active && not d.pointer_locked)
      then d
      else elim (named (target_of d)) [
        | none ↦ d
        | some id ↦ if not (is_pod_interactable id d.scene) then d else record d {
          selections = d.selections ++ id ∷ [];
          scene = start_pod_crush r positions id d.scene;
        }
      ]
