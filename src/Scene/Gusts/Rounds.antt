-- ===== src/Scene/Gusts/Rounds.antt =====
-- apps/frontend-webxr/src/scene.ts: what a round of `advanceGusts` keeps of the pods.
use hackz_megalo.Base.{
  has, Bool, true, false, ◌≡◌, ◌≢◌, text_eq, inl, inr, refl, sym, ap, ◌∙◌, none, some, List, [],
  ◌∷◌, ◌++◌, Text, Option-cases, Bool-cases, arith, lookup, insert, lookup-insert, if_cases,
  includes, eq_Text, text_eq_iff, map, not, ◌||◌, keep_if,
}
use hackz_megalo.Types.{is_gone}
use hackz_megalo.Scene.{Numbers, Vector, PodPhysics, Gust, Scene}
use hackz_megalo.Scene.Grabs.{update_physics}
use hackz_megalo.Scene.Pods.{is_pod_interactable, collect_pod_intersections}
use hackz_megalo.Scene.Gusts.{
  Frame, is_dynamic, is_sheltered, is_over, apply_gust_to_pod, blow_pods, blow, blow_all,
  remove_gust, remove_all, advance_gusts, blown, advanced, gust_round,
}

true_not_false : true ≢ false
true_not_false p = ground (arith, p)

module _ ⦃n : Numbers⦄ where
  -- What the blows on single pods keep, and changes of the gusts and of the pool keep, a round keeps.
  module _ {ℓ} (P : Scene → Type ℓ) (f : Frame)
      (blows : (d : Vector) (id : Text) (s : Scene) → P s → P (apply_gust_to_pod f d id s)) where
    blow_pods-keeps : (ids : List Text) (g : Gust) (s : Scene) → P s → P (blow_pods f ids g s).1
    unfolding blow_pods
    blow_pods-keeps [] g s w = w
    blow_pods-keeps (id ∷ ids) g s w = elim (Bool-cases (includes g.hit_pod_ids id)) [
      | inl e ↦ rw (e, blow_pods) (blow_pods-keeps ids g s w)
      | inr e ↦
          rw (e, blow_pods)
            (blow_pods-keeps ids (record g { hit_pod_ids = g.hit_pod_ids ++ id ∷ [] })
              (apply_gust_to_pod f g.direction_local id s) (blows g.direction_local id s w))
    ]

    pub blow_all-keeps : (gs : List Gust) (s : Scene) → P s → P (blow_all f gs s).1
    unfolding blow_all
    blow_all-keeps [] s w = w
    blow_all-keeps (g ∷ gs) s w = blow_all-keeps gs (blow f g s).1 (
        if_cases (λ (x : Gust × Scene). P x.1) (is_over g) (g, s)
          (blow_pods f (collect_pod_intersections (f.meets g.handle) [] s) g s) (λ e. w)
          (λ e. blow_pods-keeps (collect_pod_intersections (f.meets g.handle) [] s) g s w))

  module _ {ℓ} (P : Scene → Type ℓ)
      (moves : (s : Scene) (gusts pool : List Gust)
        → P s
        → P (record s { gusts = gusts; gust_pool = pool })) where
    remove_all-keeps : (gs : List Gust) (s : Scene) → P s → P (remove_all gs s)
    unfolding remove_all remove_gust
    remove_all-keeps [] s w = w
    remove_all-keeps (g ∷ gs) s w =
        remove_all-keeps gs (remove_gust g s)
          (moves s (remove_gust g s).gusts (remove_gust g s).gust_pool w)

  pub advance_gusts-keeps {ℓ} :
      (P : Scene → Type ℓ) (f : Frame)
      → ((s : Scene) (gusts pool : List Gust)
          → P s
          → P (record s { gusts = gusts; gust_pool = pool }))
      → ((d : Vector) (id : Text) (s : Scene) → P s → P (apply_gust_to_pod f d id s))
      → (s : Scene) → P s
      → P (advance_gusts f s)
  unfolding advance_gusts gust_round
  advance_gusts-keeps P f moves blows s w =
      let moved = map (advanced f) s.gusts in
      let after = blow_all f moved s in
      if_cases P (not s.has_world) s (gust_round f s) (λ e. w)
        (λ e.
          remove_all-keeps P moves (keep_if is_over moved) (record (after.1) { gusts = after.0 })
            (moves (after.1) after.0 (after.1).gust_pool (blow_all-keeps P f blows moved s w)))

  update_found :
      (id : Text) (g : PodPhysics → PodPhysics) (s : Scene) (p : PodPhysics)
      → lookup id s.pod_physics_by_id ≡ some p
      → update_physics id g s ≡ record s { pod_physics_by_id = insert id (g p) s.pod_physics_by_id }
  update_found id g s p q = rw (update_physics, q) refl

  -- A blow on a pod does nothing, or pushes a body that is free to move.
  pub blow_cases {ℓ} :
      (P : Scene → Type ℓ) (f : Frame) (d : Vector) (id : Text) (s : Scene)
      → P s
      → ((p : PodPhysics)
          → lookup id s.pod_physics_by_id ≡ some p
          → is_sheltered id s ≡ false
          → is_dynamic p ≡ true
          → P (record s { pod_physics_by_id = insert id (blown f d p) s.pod_physics_by_id }))
      → P (apply_gust_to_pod f d id s)
  unfolding apply_gust_to_pod
  blow_cases P f d id s w pushes = elim (Bool-cases (is_sheltered id s)) [
    | inl e ↦ rw (e, apply_gust_to_pod) w
    | inr e ↦ elim (Option-cases (lookup id s.pod_physics_by_id)) [
      | inl q ↦ rw (e, q, apply_gust_to_pod) w
      | inr (p, q) ↦ elim (Bool-cases (is_dynamic p)) [
        | inl t ↦
            rw (e, q, t, apply_gust_to_pod, update_found id (blown f d) s p q) (pushes p q e t)
        | inr t ↦ rw (e, q, t, apply_gust_to_pod) w
      ]
    ]
  ]

  -- The pod is shown no more, or has left.
  abbrev pub is_away : Text → Scene → Bool
  is_away id s = elim (lookup id s.mesh_by_id) [ none ↦ true | some m ↦ is_gone m.user_data.status ]

  -- A pod that a gust does not move.
  abbrev pub is_still : Text → Scene → Bool
  is_still id s = elim (lookup id s.pod_physics_by_id) [
    | none ↦ true
    | some p ↦
        is_away id s
        || n.gt p.crush_progress (n.of 0)
        || p.crush_reported
        || has s.pod_grab_owner_by_id id
        || not (is_dynamic p)
  ]

  -- What decides whether the pod `id` is moved, and its body.
  record IsAsBefore (id : Text) (before after : Scene) : Type 0 where
    body : lookup id after.pod_physics_by_id ≡ lookup id before.pod_physics_by_id
    meshes : after.mesh_by_id ≡ before.mesh_by_id
    owners : after.pod_grab_owner_by_id ≡ before.pod_grab_owner_by_id

  still_is_still :
      (before s : Scene) (id : Text) → IsAsBefore id before s → is_still id s ≡ is_still id before
  unfolding is_pod_interactable
  still_is_still before s id w =
      ground (arith, w.body, ap (λ m. lookup id m) w.meshes, ap (λ m. lookup id m) w.owners)

  still_moved :
      (s : Scene) (id : Text) (p : PodPhysics)
      → lookup id s.pod_physics_by_id ≡ some p
      → is_sheltered id s ≡ false
      → is_dynamic p ≡ true
      → is_still id s ≡ false
  unfolding is_pod_interactable
  still_moved s id p q e t = ground (arith, q, e, t)

  elsewhere :
      (s : Scene) (id j : Text) (p q : PodPhysics)
      → is_still id s ≡ true
      → is_still j s ≡ false
      → lookup id (insert j q s.pod_physics_by_id) ≡ lookup id s.pod_physics_by_id
  elsewhere s id j p q a b =
      lookup-insert j id q s.pod_physics_by_id
      ∙ if_cases (λ x. x ≡ lookup id s.pod_physics_by_id) (text_eq j id) (some q)
          (lookup id s.pod_physics_by_id)
          (λ e.
            absurd
              (true_not_false (sym a ∙ ap (λ k. is_still k s) (sym ((text_eq_iff j id).0 e)) ∙ b)))
          (λ e. refl)

  still_step :
      (f : Frame) (before : Scene) (id : Text) (d : Vector) (j : Text) (s : Scene)
      → is_still id before ≡ true
      → IsAsBefore id before s
      → IsAsBefore id before (apply_gust_to_pod f d j s)
  still_step f before id d j s q w = blow_cases (IsAsBefore id before) f d j s w (λ p l e t.
      record {
        body =
            elsewhere s id j p (blown f d p) (still_is_still before s id w ∙ q)
              (still_moved s j p l e t)
            ∙ w.body;
        meshes = w.meshes;
        owners = w.owners;
      })

  -- A round of gusts leaves the body of a pod as it is that is not shown or has left, is being crushed or is crushed,
  -- is held by a hand, or has a body that is not dynamic.
  pub advance_gusts-still :
      (f : Frame) (id : Text) (s : Scene)
      → is_still id s ≡ true
      → lookup id (advance_gusts f s).pod_physics_by_id ≡ lookup id s.pod_physics_by_id
  advance_gusts-still f id s q =
      (advance_gusts-keeps (IsAsBefore id s) f
        (λ t gusts pool w. record { body = w.body; meshes = w.meshes; owners = w.owners })
        (λ d j t w. still_step f s id d j t q w) s
        (record { body = refl; meshes = refl; owners = refl })).body
