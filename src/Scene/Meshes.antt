-- ===== src/Scene/Meshes.antt =====
-- apps/frontend-webxr/src/scene.ts: the mesh of a pod, from `createPodMesh` to `recyclePodEntry`, and
-- what `update` shows of a pod on it. Geometries and materials are left out, but for what changes.
use hackz_megalo.Base.{
  false, Option, some, List, [], ◌∷◌, Text, text, if◌then◌else◌, option_beq, eq_Text,
}
use hackz_megalo.Types.{SlaveState, status_unspecified, is_gone, is_terminating}
use hackz_megalo.Scene.{Numbers, origin, frac, clamp, lerp, Squash, Mesh, Scene}

module _ ⦃n : Numbers⦄ where
  abbrev pub unsquashed : Squash
  unsquashed = record { scale_xz = n.of 1; scale_y = n.of 1; position_y = n.of 0 }

  -- `applyPodCrushVisual`
  unfoldable pub apply_pod_crush_visual : n.F → Mesh → Mesh
  apply_pod_crush_visual progress m =
      let clamped = clamp progress (n.of 0) (n.of 1) in
      if n.ge (n.of 0) clamped
      then record m { squash = unsquashed }
      else (let eased = n.sub (n.of 1) (n.pow (n.sub (n.of 1) clamped) (n.of 3)) in
          let squash_y = lerp (n.of 1) (frac 22 100) eased in
          record m {
            squash = record {
              scale_xz = lerp (n.of 1) (frac 162 100) eased;
              scale_y = squash_y;
              position_y = n.mul m.base_min_y (n.sub (n.of 1) squash_y);
            };
          })

  -- What `createPodMesh` sets on a mesh that was kept, and `recyclePodEntry` on one to keep.
  abbrev renewed : Text → Mesh → Mesh
  renewed id m = apply_pod_crush_visual (n.of 0) (record m {
    user_data = record (m.user_data) { slave_id = id };
    position = origin;
    rotation = n.identity;
    scale = n.of 1;
    color = text "#00add8";
    emissive = text "#0b5d78";
    emissive_intensity = frac 18 100;
    shield_visible = false;
    shield_opacity = frac 88 100;
    outline_visible = false;
  })

  unfoldable pub recycle_pod_entry : Mesh → Scene → Scene
  unfolding apply_pod_crush_visual
  recycle_pod_entry m s = record s { pod_mesh_cache = renewed [] m ∷ s.pod_mesh_cache }

  -- `Math.random() * Math.PI * 2`
  abbrev turn : n.F → n.F
  turn random = n.mul (n.mul random n.pi) (n.of 2)

  -- A mesh with the least y of its geometry. What it holds of the pod, but the id, is set before it is
  -- read.
  abbrev new_mesh : Text → (base_min_y random : n.F) → Mesh
  new_mesh id base_min_y random = record {
    user_data = record {
      slave_id = id;
      stress = 0;
      fear = 0;
      status = status_unspecified;
      infected = false;
      firewall = false;
    };
    position = origin;
    rotation = n.identity;
    scale = n.of 1;
    color = text "#00add8";
    emissive = text "#0b5d78";
    emissive_intensity = n.of 1;
    shield_visible = false;
    shield_opacity = frac 88 100;
    outline_visible = false;
    squash = unsquashed;
    phase = turn random;
    base_min_y = base_min_y;
  }

  -- The mesh, and what is left of those that were kept.
  unfoldable pub create_pod_mesh : Text → (base_min_y random : n.F) → List Mesh → Mesh × List Mesh
  unfolding apply_pod_crush_visual
  create_pod_mesh id base_min_y random [] = (new_mesh id base_min_y random, [])
  create_pod_mesh id base_min_y random (m ∷ cache) =
      (renewed id (record m { phase = turn random }), cache)

  -- `THREE.MathUtils.randFloatSpread`
  abbrev spread : n.F → n.F → n.F
  spread range random = n.mul range (n.sub (frac 1 2) random)

  abbrev half_width : n.F
  half_width = n.max (frac 5 100) (
      n.sub (n.sub (n.mul (frac 5 10) (frac 5 10)) (n.mul (frac 34 1000) (frac 145 100)))
        (frac 1 100))

  abbrev half_depth : n.F
  half_depth = n.max (frac 4 100) (
      n.sub (n.sub (n.mul (frac 3 10) (frac 5 10)) (n.mul (frac 34 1000) (frac 145 100)))
        (frac 1 100))

  abbrev spawn_y : n.F
  spawn_y =
      n.add (n.add (n.add (frac 25 1000) (frac 1 100)) (n.mul (frac 34 1000) (frac 145 100)))
        (frac 12 1000)

  -- Where `spawnPod` puts the group of a mesh, with three random numbers.
  unfoldable pub spawned : (x z around : n.F) → Mesh → Mesh
  spawned x z around m = record m {
    position = record {
      x = spread (n.mul half_width (n.of 2)) x;
      y = spawn_y;
      z = spread (n.mul half_depth (n.of 2)) z;
    };
    rotation = n.turned (turn around);
  }

  unfoldable pub status_color : SlaveState → Text
  status_color pod =
      if is_gone pod.status
      then text "#aab5c0"
      else if is_terminating pod.status
      then text "#95a3af"
      else if pod.infected
      then text "#7897a5"
      else if pod.firewall
      then text "#35c5e8"
      else text "#00add8"

  abbrev emissive_color : SlaveState → Text
  emissive_color pod =
      if is_terminating pod.status
      then text "#485866"
      else if pod.infected
      then text "#415562"
      else text "#0b5d78"

  abbrev focus_scale : Text → (selected hovered : Option Text) → n.F
  focus_scale id selected hovered =
      if option_beq (some id) selected
      then frac 116 100
      else if option_beq (some id) hovered
      then frac 108 100
      else n.of 1

  -- The second part of the loop of `update`, after which the mesh shows the pod.
  unfoldable pub dressed :
      (selected hovered : Option Text) → (progress : n.F) → SlaveState → Mesh → Mesh
  unfolding apply_pod_crush_visual status_color
  dressed selected hovered progress pod m = apply_pod_crush_visual progress (record m {
    user_data = record {
      slave_id = pod.slave_id;
      stress = pod.stress;
      fear = pod.fear;
      status = pod.status;
      infected = pod.infected;
      firewall = pod.firewall;
    };
    color = status_color pod;
    emissive = emissive_color pod;
    emissive_intensity = frac 18 100;
    shield_visible = pod.firewall;
    shield_opacity = if pod.firewall then frac 88 100 else n.of 0;
    scale = focus_scale pod.slave_id selected hovered;
  })
