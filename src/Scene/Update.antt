-- ===== src/Scene/Update.antt =====
-- apps/frontend-webxr/src/scene.ts: `update`, which the page calls with its pods, and `reset`.
pub mod Cleared
pub mod Cooldowns
pub mod Losses
pub mod Owned
pub mod Presence
use hackz_megalo.Base.{
  ℕ, Bool, true, false, not, ◌&&◌, ◌||◌, Option, none, some, List, [], ◌∷◌, map, Text,
  if◌then◌else◌, or_option, lookup, insert, remove, has, keep_if, includes, keys, eq_Text,
  option_beq,
}
use hackz_megalo.Types.{SlaveState, is_gone}
use hackz_megalo.Scene.{Numbers, left, right, PodPhysics, Mesh, Hand, Scene}
use hackz_megalo.Scene.Grabs.{Reading, named, clear_hand_state}
use hackz_megalo.Scene.Meshes.{create_pod_mesh, spawned, dressed, recycle_pod_entry}
use hackz_megalo.Scene.Pods.{
  is_pod_interactable, create_pod_physics, remove_pod_physics, remove_pod_entry,
}
use hackz_megalo.Scene.Gusts.{clear_gusts}

module _ ⦃n : Numbers⦄ where
  -- What `update` reads from outside: the collider that the engine makes for a pod, the least y of the
  -- geometry of a mesh, random numbers, and whether the page is in XR.
  pub record Supply : Type 0 where
    pub reading : Reading
    pub handles : Text → ℕ
    pub base_min_y : n.F
    pub random : Text → (draw : ℕ) → n.F
    pub presenting : Bool

  -- The arguments of `update`.
  pub record View : Type 0 where
    pub pods : List SlaveState
    pub selected : Option Text
    pub hovered : Option Text
    pub eliminated : List Text

  abbrev pub is_out : View → SlaveState → Bool
  is_out v pod = is_gone pod.status || includes v.eliminated pod.slave_id

  -- The ids of the pods of a list that are to be there; `activePodIds` is those of all pods.
  unfoldable pub active_of : View → List SlaveState → List Text
  unfolding keep_if includes
  active_of v pods =
      map (λ (pod : SlaveState). pod.slave_id) (keep_if (λ pod. not (is_out v pod)) pods)

  abbrev pub active_pod_ids : View → List Text
  active_pod_ids v = active_of v v.pods

  -- The first loop, over the meshes.
  unfoldable pub remove_inactive :
      Reading → (active : List Text) → List (Text × Mesh) → Scene → Scene
  unfolding includes
  remove_inactive r active [] s = s
  remove_inactive r active ((id, entry) ∷ ms) s =
      remove_inactive r active ms (if includes active id then s else remove_pod_entry r id entry s)

  abbrev pub put_mesh : Text → Mesh → Scene → Scene
  put_mesh id m s = record s { mesh_by_id = insert id m s.mesh_by_id }

  -- The new mesh of a pod, and its body.
  abbrev pub added : Supply → Text → Scene → Scene
  added u id s =
      let made = create_pod_mesh id u.base_min_y (u.random id 0) s.pod_mesh_cache in
      create_pod_physics u.reading (u.handles id) id (
        put_mesh id (spawned (u.random id 1) (u.random id 2) (u.random id 3) made.0)
          (record s { pod_mesh_cache = made.1 }))

  abbrev pub progress_of : Text → Scene → n.F
  progress_of id s = elim (lookup id s.pod_physics_by_id) [
    | none ↦ n.of 0
    | some p ↦ p.crush_progress
  ]

  abbrev pub dress : View → SlaveState → Scene → Scene
  dress v pod s = elim (lookup pod.slave_id s.mesh_by_id) [
    | none ↦ s
    | some m ↦
        put_mesh pod.slave_id (dressed v.selected v.hovered (progress_of pod.slave_id s) pod m) s
  ]

  -- The mesh and the body of a pod that is there, made where they are missing. `createPodPhysics` does
  -- nothing where there is no world or the pod has a body.
  abbrev pub equip : Supply → Text → Scene → Scene
  equip u id s = elim (lookup id s.mesh_by_id) [
    | none ↦ added u id s
    | some m ↦ create_pod_physics u.reading (u.handles id) id s
  ]

  -- One round of the second loop.
  unfoldable pub update_pod : Supply → View → SlaveState → Scene → Scene
  unfolding lookup insert includes
  update_pod u v pod s =
      if is_out v pod
      then elim (lookup pod.slave_id s.mesh_by_id) [
        | none ↦ s
        | some entry ↦ remove_pod_entry u.reading pod.slave_id entry s
      ]
      else dress v pod (equip u pod.slave_id s)

  unfoldable pub update_pods : Supply → View → List SlaveState → Scene → Scene
  update_pods u v [] s = s
  update_pods u v (pod ∷ pods) s = update_pods u v pods (update_pod u v pod s)

  abbrev pub fingertip_of : Option Hand → Option Text
  fingertip_of none = none
  fingertip_of (some h) = h.fingertip_target_id

  abbrev pub current_aim_target_id : (presenting : Bool) → Scene → Option Text
  current_aim_target_id presenting s =
      if presenting
      then or_option (fingertip_of s.left_hand) (fingertip_of s.right_hand)
      else s.desktop_target_pod_id

  abbrev pub highlighted : Option Text → Scene → Text × Mesh → Text × Mesh
  highlighted target s (id, m) = (
    id,
    record m { outline_visible = option_beq (named target) (some id) && is_pod_interactable id s },
  )

  unfoldable pub update_pointing_highlights : (presenting : Bool) → Scene → Scene
  update_pointing_highlights presenting s = record s {
    mesh_by_id = map (highlighted (current_aim_target_id presenting s) s) s.mesh_by_id;
  }

  unfoldable pub update : Supply → View → Scene → Scene
  update u v s =
      update_pointing_highlights u.presenting
        (update_pods u v v.pods (remove_inactive u.reading (active_pod_ids v) s.mesh_by_id s))

  unfoldable pub recycle_all : List (Text × Mesh) → Scene → Scene
  unfolding recycle_pod_entry
  recycle_all [] s = s
  recycle_all ((id, entry) ∷ ms) s = recycle_all ms (recycle_pod_entry entry s)

  unfoldable pub remove_all_physics : List Text → Scene → Scene
  unfolding remove_pod_physics
  remove_all_physics [] s = s
  remove_all_physics (id ∷ ids) s = remove_all_physics ids (remove_pod_physics id s)

  -- `reset` up to the hands.
  unfoldable pub calmed : Scene → Scene
  calmed s =
      let bare = record (recycle_all s.mesh_by_id s) { mesh_by_id = [] } in
      record (clear_gusts (remove_all_physics (keys bare.pod_physics_by_id) bare)) {
        desktop_target_pod_id = none;
        desktop_gust_cooldown_until = n.of 0;
        last_gust_source = none;
        hud_slider_active_hand = none;
        active_palm_contacts = [];
      }

  -- `reset` in so far as it changes the fields of the scene that are modelled.
  unfoldable pub reset : Reading → Scene → Scene
  reset r s = record (clear_hand_state r right true (clear_hand_state r left true (calmed s))) {
    pod_grab_owner_by_id = [];
  }
