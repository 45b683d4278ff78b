-- ===== src/Scene/Simulation/Told.antt =====
-- apps/frontend-webxr/src/scene.ts: which crushes end and which pods fall in a frame, told apart from
-- the loops of `updateSimulation`.
use hackz_megalo.Base.{
  Bool, true, false, not, ◌&&◌, ◌≡◌, inl, inr, refl, ◌∙◌, List, [], ◌∷◌, Text, text_eq, text_eq_iff,
  Option-cases, arith, has, lookup, insert, lookup-insert, eq_Text, none, some, count_if,
  count_if-insert,
}
use hackz_megalo.Types.{is_gone}
use hackz_megalo.Scene.{Numbers, frac, PodPhysics, Mesh, Scene, Vector}
use hackz_megalo.Scene.Gusts.{Frame, advance_gusts, blown}
use hackz_megalo.Scene.Gusts.Rounds.{advance_gusts-keeps, blow_cases}
use hackz_megalo.Scene.Simulation.{prepare_all, completes, settle_all, shown}

module _ ⦃n : Numbers⦄ where
  -- The body is that of a crush which began and was not told, of a pod that is shown and not gone, and
  -- the 220 ms of the crush are over with this frame.
  unfoldable pub ends_crush : Frame → Scene → Text × PodPhysics → Bool
  unfolding lookup
  ends_crush f s (id, p) = elim (lookup id s.mesh_by_id) [
    | none ↦ false
    | some m ↦
        s.has_world
        && not (is_gone m.user_data.status)
        && n.gt p.crush_progress (n.of 0)
        && not p.crush_reported
        && n.ge (n.min (n.of 1) (n.add p.crush_progress (n.div f.delta (frac 22 100)))) (n.of 1)
  ]

  -- The body is under the table, its pod is shown, and its fall was not told.
  unfoldable pub falls_off : Frame → Scene → Text × PodPhysics → Bool
  unfolding lookup
  falls_off f s (id, p) =
      s.has_world
      && has s.mesh_by_id id
      && n.gt (n.neg (frac 1 2)) (f.position p.handle).y
      && not p.fall_reported

  has_kept :
      (j i : Text) (m o : Mesh) (ms : List (Text × Mesh))
      → lookup j ms ≡ some o
      → has (insert j m ms) i ≡ has ms i
  has_kept j i m o ms e = ground (arith, e, lookup-insert j i m ms, text_eq_iff j i)

  ends-completes :
      (f : Frame) (s : Scene) (id : Text) (p : PodPhysics) (m : Mesh)
      → s.has_world ≡ true
      → lookup id s.mesh_by_id ≡ some m
      → ends_crush f s (id, p) ≡ completes f m p
  unfolding ends_crush
  ends-completes f s id p m w e = ground (arith, w, e)

  pub prepare_all-ends :
      (f : Frame) (s : Scene) (ps : List (Text × PodPhysics)) (id : Text)
      → s.has_world ≡ true
      → count_if (λ j. text_eq j id) (prepare_all f s.mesh_by_id ps).1
        ≡ count_if (λ b. text_eq b.0 id && ends_crush f s b) ps
  unfolding prepare_all count_if ends_crush
  prepare_all-ends f s [] id w = refl
  prepare_all-ends f s ((j, p) ∷ ps) id w = elim (Option-cases (lookup j s.mesh_by_id)) [
    | inl e ↦ rw (e, prepare_all) (ground (arith, prepare_all-ends f s ps id w))
    | inr (m, e) ↦
        rw (e, prepare_all)
          (rw (ends-completes f s j p m w e) (ground (arith, prepare_all-ends f s ps id w)))
  ]

  -- A body that the first loop has changed falls like the one before.
  pub prepare_all-falls_off :
      (f : Frame) (s : Scene) (ps : List (Text × PodPhysics)) (id : Text)
      → count_if (λ b. text_eq b.0 id && falls_off f s b) (prepare_all f s.mesh_by_id ps).0
        ≡ count_if (λ b. text_eq b.0 id && falls_off f s b) ps
  unfolding prepare_all count_if falls_off
  prepare_all-falls_off f s [] id = refl
  prepare_all-falls_off f s ((j, p) ∷ ps) id = elim (Option-cases (lookup j s.mesh_by_id)) [
    | inl e ↦ rw (e, prepare_all) (ground (arith, prepare_all-falls_off f s ps id))
    | inr (m, e) ↦ rw (e, prepare_all) (ground (arith, prepare_all-falls_off f s ps id))
  ]

  pub settle_all-falls_off :
      (f : Frame) (s : Scene) (ms : List (Text × Mesh)) (ps : List (Text × PodPhysics)) (id : Text)
      → s.has_world ≡ true
      → ((j : Text) → has ms j ≡ has s.mesh_by_id j)
      → count_if (λ j. text_eq j id) (settle_all f ms ps).2
        ≡ count_if (λ b. text_eq b.0 id && falls_off f s b) ps
  unfolding settle_all count_if falls_off
  settle_all-falls_off f s ms [] id w k = refl
  settle_all-falls_off f s ms ((j, p) ∷ ps) id w k = elim (Option-cases (lookup j ms)) [
    | inl e ↦ rw (e, settle_all) (ground (arith, settle_all-falls_off f s ms ps id w k, k j, e))
    | inr (m, e) ↦
        let ns = insert j (shown f p m) ms in
        rw (e, settle_all)
          (ground (
            arith,
            settle_all-falls_off f s ns ps id w (λ i. has_kept j i (shown f p m) m ms e ∙ k i),
            k j,
            e,
            w,
          ))
  ]

  -- How many bodies of the pod `id` fall, and the meshes: what a round of gusts leaves.
  pub record FallsAs (f : Frame) (s before after : Scene) : Type 0 where
    pub meshes : after.mesh_by_id ≡ before.mesh_by_id
    pub count :
        (id : Text)
        → count_if (λ b. text_eq b.0 id && falls_off f s b) after.pod_physics_by_id
          ≡ count_if (λ b. text_eq b.0 id && falls_off f s b) before.pod_physics_by_id

  blown-falls :
      (f : Frame) (s : Scene) (d : Vector) (id j : Text) (p : PodPhysics)
      → (text_eq j id && falls_off f s (j, blown f d p)) ≡ (text_eq j id && falls_off f s (j, p))
  unfolding falls_off
  blown-falls f s d id j p = refl

  pub advance_gusts-FallsAs :
      (f : Frame) (s before : Scene) → FallsAs f s before (advance_gusts f before)
  advance_gusts-FallsAs f s before =
      advance_gusts-keeps (FallsAs f s before) f
        (λ t gusts pool w. record { meshes = w.meshes; count = w.count })
        (λ d j t w. blow_cases (FallsAs f s before) f d j t w (λ p l e u. record {
          meshes = w.meshes;
          count = λ id.
              count_if-insert (λ b. text_eq b.0 id && falls_off f s b) j (blown f d p) p
                t.pod_physics_by_id l (blown-falls f s d id j p)
              ∙ w.count id;
        }))
        before (record { meshes = refl; count = λ id. refl })

  pub no_ends :
      (f : Frame) (s : Scene) (ps : List (Text × PodPhysics)) (id : Text)
      → s.has_world ≡ false
      → count_if (λ b. text_eq b.0 id && ends_crush f s b) ps ≡ 0
  unfolding count_if ends_crush
  no_ends f s [] id w = refl
  no_ends f s ((j, p) ∷ ps) id w = ground (arith, no_ends f s ps id w, w)

  pub no_falls :
      (f : Frame) (s : Scene) (ps : List (Text × PodPhysics)) (id : Text)
      → s.has_world ≡ false
      → count_if (λ b. text_eq b.0 id && falls_off f s b) ps ≡ 0
  unfolding count_if falls_off
  no_falls f s [] id w = refl
  no_falls f s ((j, p) ∷ ps) id w = ground (arith, no_falls f s ps id w, w)
