-- ===== src/Scene/Simulation/Reports.antt =====
-- apps/frontend-webxr/src/scene.ts: what `updateSimulation` tells the page.
use hackz_megalo.Base.{
  ℕ, suc, Bool, true, false, not, ◌&&◌, ◌+◌, ◌≡◌, inl, inr, refl, ap, ◌∙◌, List, [], ◌∷◌, ◌++◌, map,
  Text, text_eq, Option-cases, arith, lookup, insert, eq_Text, if◌then◌else◌, if_cases, count_if,
  has, count_if-append, count_if-map, count_if-insert,
}
use hackz_megalo.Scene.{Numbers, Callback, hits, falls, PodPhysics, Mesh, Scene, Vector}
use hackz_megalo.Scene.Gusts.{Frame, advance_gusts, apply_gust_to_pod, blown}
use hackz_megalo.Scene.Gusts.Rounds.{advance_gusts-keeps, blow_cases}
use hackz_megalo.Scene.Simulation.Told.{
  ends_crush, falls_off, prepare_all-ends, prepare_all-falls_off, settle_all-falls_off,
  advance_gusts-FallsAs, no_ends, no_falls,
}
use hackz_megalo.Scene.Simulation.{
  prepare_all, prepared, completes, settle_all, settled, drops, update_simulation, frame_round,
  shown,
}

module _ ⦃n : Numbers⦄ where
  -- The calls of `onHit` and of `onPodFall` for a pod.
  abbrev pub is_hit : Text → Callback → Bool
  is_hit id (hits j) = text_eq j id
  is_hit id c = false

  abbrev pub is_fall : Text → Callback → Bool
  is_fall id (falls j) = text_eq j id
  is_fall id c = false

  -- The marks on the body of a pod that its crush, or its fall, was told.
  abbrev pub is_told_hit : Text → Text × PodPhysics → Bool
  is_told_hit id b = text_eq b.0 id && (b.1).crush_reported

  abbrev pub is_told_fall : Text → Text × PodPhysics → Bool
  is_told_fall id b = text_eq b.0 id && (b.1).fall_reported

  -- The mark goes up just where the list of the frame has the pod.
  abbrev Rises : (told before after : Bool) → Type 0
  Rises told before after =
      (told ≡ true → (before ≡ false) × (after ≡ true)) × (told ≡ false → before ≡ after)

  completes-Rises :
      (f : Frame) (m : Mesh) (p : PodPhysics)
      → Rises (completes f m p) p.crush_reported (prepared f m p).crush_reported
  completes-Rises f m p = ground arith

  prepared-fall :
      (f : Frame) (m : Mesh) (p : PodPhysics) → (prepared f m p).fall_reported ≡ p.fall_reported
  prepared-fall f m p = ground arith

  drops-Rises :
      (f : Frame) (p : PodPhysics) → Rises (drops f p) p.fall_reported (settled f p).fall_reported
  drops-Rises f p = ground arith

  settled-hit : (f : Frame) (p : PodPhysics) → (settled f p).crush_reported ≡ p.crush_reported
  settled-hit f p = ground arith

  counted :
      (j id : Text) (told before after : Bool) (xs : List Text) (b c : ℕ)
      → Rises told before after
      → count_if (λ i. text_eq i id) xs + b ≡ c
      → count_if (λ i. text_eq i id) (if told then j ∷ xs else xs)
          + (if text_eq j id && before then suc b else b)
        ≡ (if text_eq j id && after then suc c else c)
  unfolding count_if
  counted j id told before after xs b c r e = ground (arith, e, r)

  prepare_all-hits :
      (f : Frame) (ms : List (Text × Mesh)) (ps : List (Text × PodPhysics)) (id : Text)
      → count_if (λ j. text_eq j id) (prepare_all f ms ps).1 + count_if (is_told_hit id) ps
        ≡ count_if (is_told_hit id) (prepare_all f ms ps).0
  unfolding prepare_all count_if
  prepare_all-hits f ms [] id = refl
  prepare_all-hits f ms ((j, p) ∷ ps) id = elim (Option-cases (lookup j ms)) [
    | inl e ↦ rw (e, prepare_all) (ground (arith, prepare_all-hits f ms ps id))
    | inr (m, e) ↦
        rw (e, prepare_all)
          (counted j id (completes f m p) p.crush_reported (prepared f m p).crush_reported
            (prepare_all f ms ps).1 (count_if (is_told_hit id) ps)
            (count_if (is_told_hit id) (prepare_all f ms ps).0) (completes-Rises f m p)
            (prepare_all-hits f ms ps id))
  ]

  prepare_all-falls :
      (f : Frame) (ms : List (Text × Mesh)) (ps : List (Text × PodPhysics)) (id : Text)
      → count_if (is_told_fall id) (prepare_all f ms ps).0 ≡ count_if (is_told_fall id) ps
  unfolding prepare_all count_if
  prepare_all-falls f ms [] id = refl
  prepare_all-falls f ms ((j, p) ∷ ps) id = elim (Option-cases (lookup j ms)) [
    | inl e ↦ rw (e, prepare_all) (ground (arith, prepare_all-falls f ms ps id))
    | inr (m, e) ↦ rw (e, prepare_all) (rw (prepared-fall f m p, prepare_all-falls f ms ps id) refl)
  ]

  settle_all-falls :
      (f : Frame) (ms : List (Text × Mesh)) (ps : List (Text × PodPhysics)) (id : Text)
      → count_if (λ j. text_eq j id) (settle_all f ms ps).2 + count_if (is_told_fall id) ps
        ≡ count_if (is_told_fall id) (settle_all f ms ps).0
  unfolding settle_all count_if
  settle_all-falls f ms [] id = refl
  settle_all-falls f ms ((j, p) ∷ ps) id = elim (Option-cases (lookup j ms)) [
    | inl e ↦ rw (e, settle_all) (ground (arith, settle_all-falls f ms ps id))
    | inr (m, e) ↦
        rw (e, settle_all)
          (let ns = insert j (shown f p m) ms in
            counted j id (drops f p) p.fall_reported (settled f p).fall_reported
              (settle_all f ns ps).2 (count_if (is_told_fall id) ps)
              (count_if (is_told_fall id) (settle_all f ns ps).0) (drops-Rises f p)
              (settle_all-falls f ns ps id))
  ]

  settle_all-hits :
      (f : Frame) (ms : List (Text × Mesh)) (ps : List (Text × PodPhysics)) (id : Text)
      → count_if (is_told_hit id) (settle_all f ms ps).0 ≡ count_if (is_told_hit id) ps
  unfolding settle_all count_if
  settle_all-hits f ms [] id = refl
  settle_all-hits f ms ((j, p) ∷ ps) id = elim (Option-cases (lookup j ms)) [
    | inl e ↦ rw (e, settle_all) (ground (arith, settle_all-hits f ms ps id))
    | inr (m, e) ↦
        rw (e, settle_all)
          (rw (settled-hit f p, settle_all-hits f (insert j (shown f p m) ms) ps id) refl)
  ]

  -- The marks and the calls of a scene.
  pub record IsToldAs (before after : Scene) : Type 0 where
    pub callbacks : after.callbacks ≡ before.callbacks
    pub hit_marks :
        (id : Text)
        → count_if (is_told_hit id) after.pod_physics_by_id
          ≡ count_if (is_told_hit id) before.pod_physics_by_id
    pub fall_marks :
        (id : Text)
        → count_if (is_told_fall id) after.pod_physics_by_id
          ≡ count_if (is_told_fall id) before.pod_physics_by_id

  blown-IsToldAs :
      (f : Frame) (before : Scene) (d : Vector) (j : Text) (s : Scene)
      → IsToldAs before s
      → IsToldAs before (apply_gust_to_pod f d j s)
  blown-IsToldAs f before d j s w = blow_cases (IsToldAs before) f d j s w (λ p l e t. record {
    callbacks = w.callbacks;
    hit_marks = λ id.
        count_if-insert (is_told_hit id) j (blown f d p) p s.pod_physics_by_id l refl
        ∙ w.hit_marks id;
    fall_marks = λ id.
        count_if-insert (is_told_fall id) j (blown f d p) p s.pod_physics_by_id l refl
        ∙ w.fall_marks id;
  })

  advance_gusts-IsToldAs : (f : Frame) (s : Scene) → IsToldAs s (advance_gusts f s)
  advance_gusts-IsToldAs f s =
      advance_gusts-keeps (IsToldAs s) f
        (λ t gusts pool w. record {
          callbacks = w.callbacks;
          hit_marks = w.hit_marks;
          fall_marks = w.fall_marks;
        })
        (λ d j t w. blown-IsToldAs f s d j t w) s
        (record { callbacks = refl; hit_marks = λ id. refl; fall_marks = λ id. refl })

  -- The calls for the pod `id` are as many as the crushes that end and the falls, and each of these is
  -- marked.
  unfoldable pub IsTold : Frame → (before after : Scene) (id : Text) → Type 0
  IsTold f before after id =
      (count_if (is_hit id) after.callbacks
        ≡ count_if (is_hit id) before.callbacks
          + count_if (λ b. text_eq b.0 id && ends_crush f before b) before.pod_physics_by_id)
      × (count_if (is_fall id) after.callbacks
          ≡ count_if (is_fall id) before.callbacks
            + count_if (λ b. text_eq b.0 id && falls_off f before b) before.pod_physics_by_id)
      × (count_if (is_told_hit id) after.pod_physics_by_id
          ≡ count_if (is_told_hit id) before.pod_physics_by_id
            + count_if (λ b. text_eq b.0 id && ends_crush f before b) before.pod_physics_by_id)
      × (count_if (is_told_fall id) after.pod_physics_by_id
          ≡ count_if (is_told_fall id) before.pod_physics_by_id
            + count_if (λ b. text_eq b.0 id && falls_off f before b) before.pod_physics_by_id)

  no_hit : (id : Text) (ids : List Text) → count_if (λ j. is_hit id (falls j)) ids ≡ 0
  unfolding count_if
  no_hit id [] = refl
  no_hit id (j ∷ ids) = no_hit id ids

  no_fall : (id : Text) (ids : List Text) → count_if (λ j. is_fall id (hits j)) ids ≡ 0
  unfolding count_if
  no_fall id [] = refl
  no_fall id (j ∷ ids) = no_fall id ids

  count-calls :
      (p : Callback → Bool) (cs : List Callback) (ids js : List Text)
      → count_if p (cs ++ map (λ i. falls i) ids ++ map (λ i. hits i) js)
        ≡ count_if p cs + (count_if (λ j. p (falls j)) ids + count_if (λ j. p (hits j)) js)
  count-calls p cs ids js = omega (
    arith,
    count_if-append p cs (map (λ i. falls i) ids),
    count_if-append p (cs ++ map (λ i. falls i) ids) (map (λ i. hits i) js),
    count_if-map p (λ i. falls i) ids,
    count_if-map p (λ i. hits i) js,
  )

  frame-IsTold :
      (f : Frame) (s : Scene) (id : Text) → s.has_world ≡ true → IsTold f s (frame_round f s) id
  unfolding IsTold frame_round
  frame-IsTold f s id world =
      let first = prepare_all f s.mesh_by_id s.pod_physics_by_id in
      let start = record s { pod_physics_by_id = first.0 } in
      let b = advance_gusts f start in
      let w = advance_gusts-IsToldAs f start in
      let second = settle_all f b.mesh_by_id b.pod_physics_by_id in
      let ends = prepare_all-ends f s s.pod_physics_by_id id world in
      let fallen = advance_gusts-FallsAs f s start in
      let drop =
        settle_all-falls_off f s b.mesh_by_id b.pod_physics_by_id id world
          (λ j. ap (λ ms. has ms j) fallen.meshes)
        ∙ fallen.count id
        ∙ prepare_all-falls_off f s s.pod_physics_by_id id in
      (
        omega (
          arith,
          count-calls (is_hit id) b.callbacks second.2 first.1,
          ap (count_if (is_hit id)) w.callbacks,
          no_hit id second.2,
          ends,
        ),
        omega (
          arith,
          count-calls (is_fall id) b.callbacks second.2 first.1,
          ap (count_if (is_fall id)) w.callbacks,
          no_fall id first.1,
          drop,
        ),
        omega (
          arith,
          prepare_all-hits f s.mesh_by_id s.pod_physics_by_id id,
          w.hit_marks id,
          settle_all-hits f b.mesh_by_id b.pod_physics_by_id id,
          ends,
        ),
        omega (
          arith,
          prepare_all-falls f s.mesh_by_id s.pod_physics_by_id id,
          w.fall_marks id,
          settle_all-falls f b.mesh_by_id b.pod_physics_by_id id,
          drop,
        ),
      )

  unmoved-IsTold : (f : Frame) (s : Scene) (id : Text) → s.has_world ≡ false → IsTold f s s id
  unfolding IsTold
  unmoved-IsTold f s id w =
      let p = no_ends f s s.pod_physics_by_id id w in
      let q = no_falls f s s.pod_physics_by_id id w in
      (omega (arith, p), omega (arith, q), omega (arith, p), omega (arith, q))

  -- In a frame the page is told of each crush that ends and of each fall, once, and of no other. For
  -- every id, the calls of `onHit` go up by the number of the bodies of that id, before the frame, whose
  -- crush had begun and was not told, whose pod is shown and not gone, and whose progress comes to 1
  -- with the time of the frame; the calls of `onPodFall` by the number of those that the engine has below
  -- a height of -0.5, whose pod is shown and whose fall was not told; and the bodies marked as told go
  -- up by the same numbers. Without a world there are no such bodies.
  pub update_simulation-IsTold :
      (f : Frame) (s : Scene) (id : Text) → IsTold f s (update_simulation f s) id
  unfolding update_simulation
  update_simulation-IsTold f s id =
      if_cases (λ x. IsTold f s x id) (not s.has_world) s (frame_round f s)
        (λ e. unmoved-IsTold f s id (ground (arith, e)))
        (λ e. frame-IsTold f s id (ground (arith, e)))
