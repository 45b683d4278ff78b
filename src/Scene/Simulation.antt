-- ===== src/Scene/Simulation.antt =====
-- apps/frontend-webxr/src/scene.ts: `updateSimulation`, one frame of the pods.
pub mod Owned
pub mod Reports
pub mod Told
use hackz_megalo.Base.{
  ℕ, Bool, true, false, not, ◌&&◌, Option, none, some, List, [], ◌∷◌, ◌++◌, map, Text, Option-cases,
  if◌then◌else◌, lookup, insert, eq_Text,
}
use hackz_megalo.Types.{is_gone}
use hackz_megalo.Scene.{
  Numbers, Vector, frac, clamp, lerp, Call, sets_linvel, applies_impulse, PodPhysics, Squash, Mesh,
  Scene, Callback, hits, falls,
}
use hackz_megalo.Scene.Grabs.{tell}
use hackz_megalo.Scene.Meshes.{apply_pod_crush_visual}
use hackz_megalo.Scene.Gusts.{Frame, is_dynamic, advance_gusts}

module _ ⦃n : Numbers⦄ where
  abbrev pub is_growing : PodPhysics → Bool
  is_growing p = n.gt p.crush_progress (n.of 0) && not p.crush_reported

  abbrev pub grown : Frame → PodPhysics → PodPhysics
  grown f p =
      let progress = n.min (n.of 1) (n.add p.crush_progress (n.div f.delta (frac 22 100))) in
      record p {
        crush_progress = progress;
        crush_reported = if n.ge progress (n.of 1) then true else p.crush_reported;
      }

  abbrev pub is_due : Frame → PodPhysics → Bool
  is_due f p =
      n.ge (n.of 0) p.crush_progress
      && not p.crush_reported
      && is_dynamic p
      && n.ge f.now p.next_impulse_at

  abbrev pub impulse_magnitude : Frame → Mesh → PodPhysics → n.F
  impulse_magnitude f m p = n.add (frac 8 10000) (
      n.min (frac 32 10000) (
        n.add
          (n.add (n.mul (n.of m.user_data.stress) (frac 1 100000))
            (n.mul (n.of m.user_data.fear) (frac 1 100000)))
          (n.mul (f.random p 0) (frac 6 10000))))

  abbrev pub nudged : Frame → Mesh → PodPhysics → PodPhysics
  nudged f m p =
      let magnitude = impulse_magnitude f m p in
      let angle = n.mul (n.mul (f.random p 1) n.pi) (n.of 2) in
      record (tell
        (applies_impulse (record {
          x = n.mul (n.cos angle) magnitude;
          y = n.of 0;
          z = n.mul (n.sin angle) magnitude;
        })
          ∷ [])
        p) { next_impulse_at = n.add (n.add f.now (n.of 1200)) (n.mul (f.random p 2) (n.of 1800)) }

  -- One round of the first loop, for a pod with a mesh: the body, and whether its crush is complete.
  abbrev pub prepared : Frame → Mesh → PodPhysics → PodPhysics
  prepared f m p =
      if is_gone m.user_data.status
      then p
      else (let q = if is_growing p then grown f p else p in if is_due f q then nudged f m q else q)

  abbrev pub completes : Frame → Mesh → PodPhysics → Bool
  completes f m p = not (is_gone m.user_data.status) && is_growing p && (grown f p).crush_reported

  -- The first loop: the bodies, and the completed crushes.
  unfoldable pub prepare_all :
      Frame
      → (meshes : List (Text × Mesh)) → List (Text × PodPhysics)
      → List (Text × PodPhysics) × List Text
  unfolding lookup
  prepare_all f meshes [] = ([], [])
  prepare_all f meshes ((id, p) ∷ ps) =
      let rest = prepare_all f meshes ps in
      elim (lookup id meshes) [
        | none ↦ ((id, p) ∷ rest.0, rest.1)
        | some m ↦ ((id, prepared f m p) ∷ rest.0, if completes f m p then id ∷ rest.1 else rest.1)
      ]

  abbrev pub speed_limit : Frame → PodPhysics → n.F
  speed_limit f p = if n.gt p.gust_boost_until f.now then frac 183 100 else frac 6 100

  abbrev pub slowed : Vector → n.F → Vector
  slowed v scale = record { x = n.mul v.x scale; y = v.y; z = n.mul v.z scale }

  abbrev pub limited : Frame → PodPhysics → PodPhysics
  limited f p =
      let v = f.velocity p.handle in
      let speed = n.hypot v.x v.z in
      if is_dynamic p && n.gt speed (speed_limit f p)
      then tell (sets_linvel (slowed v (n.div (speed_limit f p) speed)) ∷ []) p
      else p

  abbrev pub glow : Frame → Mesh → n.F
  glow f m =
      if m.user_data.infected
      then n.add (frac 22 100)
          (n.mul (n.sin (n.add (n.mul f.now (frac 6 1000)) m.phase)) (frac 4 100))
      else frac 18 100

  -- What the second loop does to the mesh of a pod.
  abbrev pub shown : Frame → PodPhysics → Mesh → Mesh
  shown f p m =
      record (apply_pod_crush_visual p.crush_progress
        (record m { position = f.position p.handle; rotation = f.rotation p.handle })) {
          emissive_intensity = glow f m;
        }

  abbrev pub drops : Frame → PodPhysics → Bool
  drops f p = n.gt (n.neg (frac 1 2)) (f.position p.handle).y && not p.fall_reported

  abbrev pub settled : Frame → PodPhysics → PodPhysics
  settled f p = let q = limited f p in if drops f q then record q { fall_reported = true } else q

  -- The second loop: the bodies, the meshes, and the pods whose fall is told.
  unfoldable pub settle_all :
      Frame
      → (meshes : List (Text × Mesh)) → List (Text × PodPhysics)
      → List (Text × PodPhysics) × List (Text × Mesh) × List Text
  unfolding lookup insert
  settle_all f meshes [] = ([], meshes, [])
  settle_all f meshes ((id, p) ∷ ps) = elim (lookup id meshes) [
    | none ↦ let rest = settle_all f meshes ps in ((id, p) ∷ rest.0, rest.1, rest.2)
    | some m ↦
        let rest = settle_all f (insert id (shown f p m) meshes) ps in
        ((id, settled f p) ∷ rest.0, rest.1, if drops f p then id ∷ rest.2 else rest.2)
  ]

  -- The two loops, and the round of gusts between them. The callbacks are listed in the order of their
  -- calls, the falls inside the second loop and the hits after it. In the source the page acts at once,
  -- inside the call: its `scene.update` may remove a body before the second loop comes to the next one.
  -- Here each call is only listed, and what the page does to the scene is a later call of its own.
  unfoldable pub frame_round : Frame → Scene → Scene
  unfolding prepare_all settle_all
  frame_round f s =
      let first = prepare_all f s.mesh_by_id s.pod_physics_by_id in
      let after = advance_gusts f (record s { pod_physics_by_id = first.0 }) in
      let second = settle_all f after.mesh_by_id after.pod_physics_by_id in
      record after {
        pod_physics_by_id = second.0;
        mesh_by_id = second.1;
        callbacks = after.callbacks ++ map (λ id. falls id) second.2 ++ map (λ id. hits id) first.1;
      }

  unfoldable pub update_simulation : Frame → Scene → Scene
  update_simulation f s = if not s.has_world then s else frame_round f s
