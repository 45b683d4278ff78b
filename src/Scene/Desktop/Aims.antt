-- ===== src/Scene/Desktop/Aims.antt =====
-- The desktop aims at pods that can be hit, and says so when its aim changes.
use hackz_megalo.Base.{
  true, ◌≡◌, inl, inr, refl, Option, none, some, List, [], ◌∷◌, ◌++◌, Text, Option-cases,
  Bool-cases, if◌then◌else◌, option_beq, option_beq_iff, eq_Text,
}
use hackz_megalo.Scene.{Numbers, Scene}
use hackz_megalo.Scene.Pods.{is_pod_interactable}
use hackz_megalo.Scene.Desktop.{
  Desktop, target_of, set_desktop_target_pod, first_aim, update_desktop_targeting,
  resolve_pod_id_from_object, is_desktop_scene_active, has_meshes,
}

module _ ⦃n : Numbers⦄ where
  -- No aim, or a pod that can be hit.
  abbrev pub IsAim : Scene → Option Text → Type 0
  IsAim s none = Unit
  IsAim s (some id) = is_pod_interactable id s ≡ true

  -- What a new aim `id` comes to: it is the target, and is told where it is another than before.
  pub record IsAimed (id : Option Text) (d b : Desktop) : Type 0 where
    pub target : target_of b ≡ id
    pub aim : IsAim d.scene id
    pub told : b.hovers ≡ (if option_beq (target_of d) id then d.hovers else d.hovers ++ id ∷ [])

  first_aim-IsAim :
      (objects : List (List (Option Text))) (s : Scene) → IsAim s (first_aim objects s)
  unfolding first_aim
  first_aim-IsAim [] s = tt
  first_aim-IsAim (object ∷ objects) s = elim (Option-cases (resolve_pod_id_from_object object)) [
    | inl e ↦ rw (e, first_aim) (first_aim-IsAim objects s)
    | inr (id, e) ↦ elim (Bool-cases (is_pod_interactable id s)) [
      | inl y ↦ rw (e, y, first_aim) y
      | inr y ↦ rw (e, y, first_aim) (first_aim-IsAim objects s)
    ]
  ]

  set-IsAimed :
      (id : Option Text) (d : Desktop)
      → IsAim d.scene id
      → IsAimed id d (set_desktop_target_pod id true d)
  unfolding set_desktop_target_pod
  set-IsAimed id d h = elim (Bool-cases (option_beq (target_of d) id)) [
    | inl e ↦
        rw (e, set_desktop_target_pod)
          (record { target = (option_beq_iff (target_of d) id).0 e; aim = h; told = rw (e) refl })
    | inr e ↦ rw (e, set_desktop_target_pod) (record { target = refl; aim = h; told = rw (e) refl })
  ]

  -- Where the desktop is not in use, or shows no pod, it aims at nothing.
  abbrev pub aim_of : List (List (Option Text)) → Desktop → Option Text
  aim_of objects d =
      if is_desktop_scene_active d
      then (if has_meshes d.scene then first_aim objects d.scene else none)
      else none

  -- The desktop's target becomes the first pod on the ray that can be hit, if the desktop is in use and
  -- there is one, and nothing otherwise; the page is told once, if the target is another than before.
  pub update_desktop_targeting-IsAimed :
      (objects : List (List (Option Text))) (d : Desktop)
      → IsAimed (aim_of objects d) d (update_desktop_targeting objects d)
  unfolding update_desktop_targeting
  update_desktop_targeting-IsAimed objects d = elim (Bool-cases (is_desktop_scene_active d)) [
    | inl e ↦ elim (Bool-cases (has_meshes d.scene)) [
      | inl f ↦
          rw (e, f, update_desktop_targeting)
            (set-IsAimed (first_aim objects d.scene) d (first_aim-IsAim objects d.scene))
      | inr f ↦ rw (e, f, update_desktop_targeting) (set-IsAimed none d tt)
    ]
    | inr e ↦ rw (e, update_desktop_targeting) (set-IsAimed none d tt)
  ]
