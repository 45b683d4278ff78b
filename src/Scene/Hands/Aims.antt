-- ===== src/Scene/Hands/Aims.antt =====
-- The pod that a finger points at is the nearest of those that it touches.
use hackz_megalo.Base.{
  true_not_false, none_not_some, ℕ, Bool, true, false, ◌&&◌, ◌≡◌, ◌≢◌, inl, inr, refl, sym, ◌∙◌,
  Option, none, some, List, [], ◌∷◌, Text, eq_Text, lookup, includes, Option-cases, Bool-cases,
  if◌then◌else◌, arith,
}
use hackz_megalo.Scene.{Numbers, Vector, Mesh, Hand, Scene}
use hackz_megalo.Scene.Pods.{is_pod_interactable}
use hackz_megalo.Scene.Hands.Pointing.{place_of, apart, nearest_from, find_pointing_target}
use hackz_megalo.Scene.Hands.Nearest.{IsStrict, IsNearest, skips, takes}

module _ ⦃n : Numbers⦄ where
  -- How far a pod is from a point, where it can be used.
  unfoldable pub reach : (ℕ → Vector) → Vector → Scene → Text → Option n.F
  unfolding lookup
  reach positions point s id = elim (lookup id s.mesh_by_id) [
    | none ↦ none
    | some m ↦
        if is_pod_interactable id s
        then some (apart (place_of positions id m.position s) point)
        else none
  ]

  reach-none :
      (positions : ℕ → Vector) (point : Vector) (s : Scene) (id : Text) (e : n.F)
      → lookup id s.mesh_by_id ≡ none
      → reach positions point s id ≢ some e
  unfolding reach
  reach-none positions point s id e f p = ground (arith, f, p)

  reach_far :
      (positions : ℕ → Vector) (point : Vector) (s : Scene) (id : Text) (m : Mesh) (limit e : n.F)
      → lookup id s.mesh_by_id ≡ some m
      → (is_pod_interactable id s && n.gt limit (apart (place_of positions id m.position s) point))
        ≡ false
      → reach positions point s id ≡ some e
      → n.gt limit e ≡ false
  unfolding reach
  reach_far positions point s id m limit e f loses q =
      elim (Bool-cases (is_pod_interactable id s)) [
        | inl b ↦ ground (arith, f, b, q, loses)
        | inr b ↦ absurd (ground (arith, f, b, q))
      ]

  reach_near :
      (positions : ℕ → Vector) (point : Vector) (s : Scene) (id : Text) (m : Mesh) (limit : n.F)
      → lookup id s.mesh_by_id ≡ some m
      → (is_pod_interactable id s && n.gt limit (apart (place_of positions id m.position s) point))
        ≡ true
      → reach positions point s id ≡ some (apart (place_of positions id m.position s) point)
  unfolding reach
  reach_near positions point s id m limit f wins = ground (arith, f, wins)

  loop_none :
      (positions : ℕ → Vector) (head : Text) (ids : List Text) (point : Vector) (best : Option Text)
      (limit : n.F) (s : Scene)
      → lookup head s.mesh_by_id ≡ none
      → nearest_from positions (head ∷ ids) point best limit s
        ≡ nearest_from positions ids point best limit s
  unfolding nearest_from
  loop_none positions head ids point best limit s f = rw (f, nearest_from) refl

  loop_some :
      (positions : ℕ → Vector) (head : Text) (ids : List Text) (point : Vector) (best : Option Text)
      (limit : n.F) (s : Scene) (m : Mesh) (wins : Bool)
      → lookup head s.mesh_by_id ≡ some m
      → (is_pod_interactable head s
          && n.gt limit (apart (place_of positions head m.position s) point))
        ≡ wins
      → nearest_from positions (head ∷ ids) point best limit s
        ≡ nearest_from positions ids point
            (if wins then some head else best)
            (if wins then apart (place_of positions head m.position s) point else limit)
            s
  unfolding nearest_from
  loop_some positions head ids point best limit s m wins f e = rw (f, e, nearest_from) refl

  nearest_from_lem :
      (o : IsStrict) (positions : ℕ → Vector) (ids : List Text) (point : Vector)
      (best : Option Text) (limit : n.F) (s : Scene) (id : Text)
      → nearest_from positions ids point best limit s ≡ some id
      → (d : n.F) × IsNearest (reach positions point s) ids best limit id d
  unfolding nearest_from includes
  nearest_from_lem o positions [] point best limit s id e =
      (limit, record { chosen = inl (e, refl); least = λ j a i q. absurd (true_not_false (sym i)) })
  nearest_from_lem o positions (head ∷ ids) point best limit s id e =
      let r = reach positions point s in
      elim (Option-cases (lookup head s.mesh_by_id)) [
        | inl f ↦
            let b =
              nearest_from_lem o positions ids point best limit s id
                (sym (loop_none positions head ids point best limit s f) ∙ e) in
            (
              b.0,
              skips o r head ids best limit id b.0
                  (λ a q. absurd (reach-none positions point s head a f q)) b.1,
            )
        | inr (m, f) ↦
            let away = apart (place_of positions head m.position s) point in
            elim (Bool-cases (is_pod_interactable head s && n.gt limit away)) [
              | inl w ↦
                  let b =
                    nearest_from_lem o positions ids point (some head) away s id
                      (sym (loop_some positions head ids point best limit s m true f w) ∙ e) in
                  (
                    b.0,
                    takes o r head ids best limit away id b.0
                        (reach_near positions point s head m limit f w) (ground (arith, w)) b.1,
                  )
              | inr w ↦
                  let b =
                    nearest_from_lem o positions ids point best limit s id
                      (sym (loop_some positions head ids point best limit s m false f w) ∙ e) in
                  (
                    b.0,
                    skips o r head ids best limit id b.0
                        (λ a q. reach_far positions point s head m limit a f w q) b.1,
                  )
            ]
      ]

  none_nearest :
      (r : Text → Option n.F) (ids : List Text) (id : Text) (d : n.F)
      → IsNearest r ids none n.infinity id d
      → (r id ≡ some d) × (includes ids id ≡ true)
  none_nearest r ids id d w = elim w.chosen [
    | inl (q, same) ↦ absurd (none_not_some q)
    | inr (q, i, near) ↦ (q, i)
  ]

  tipped :
      (positions : ℕ → Vector) (ids : List Text) (h : Hand) (point : Vector) (s : Scene) (id : Text)
      → h.index_tip_local ≡ some point
      → find_pointing_target positions ids h s ≡ some id
      → nearest_from positions ids point none n.infinity s ≡ some id
  unfolding find_pointing_target
  tipped positions ids h point s id tip e = ground (arith, tip, e)

  -- The pod that a finger points at is one of those that it touches and that can be used, and none of
  -- these is nearer to the tip of the finger, where `>` is a strict order.
  pub find_pointing_target_lem :
      (o : IsStrict) (positions : ℕ → Vector) (ids : List Text) (h : Hand) (point : Vector)
      (s : Scene) (id : Text)
      → h.index_tip_local ≡ some point
      → find_pointing_target positions ids h s ≡ some id
      → let r = reach positions point s in
        (includes ids id ≡ true)
        × ((d : n.F) × (r id ≡ some d)
            × ((j : Text) (e : n.F) → includes ids j ≡ true → r j ≡ some e → n.gt d e ≡ false))
  find_pointing_target_lem o positions ids h point s id tip e =
      let b =
        nearest_from_lem o positions ids point none n.infinity s id
          (tipped positions ids h point s id tip e) in
      let c = none_nearest (reach positions point s) ids id b.0 b.1 in (c.1, (b.0, c.0, b.1.least))
