-- ===== src/Scene/Gusts/Pool.antt =====
-- apps/frontend-webxr/src/scene.ts: the gusts that blow, and those kept for later use.
use hackz_megalo.Base.{
  ℕ, Bool, false, not, ◌+◌, ◌≤◌, ◌≡◌, inl, inr, refl, ap, ◌∙◌, List, [], ◌∷◌, ◌++◌, map, Text,
  nat_eq, nat_eq_iff, eq_Text, Bool-cases, arith, keep_if, includes, if◌then◌else◌, if_cases,
  count_if, count_if-append,
}
use hackz_megalo.Scene.{Numbers, Vector, Gust, GustSource, Scene}
use hackz_megalo.Scene.Gusts.{
  Frame, is_over, advanced, blow_pods, blow, blow_all, splice_gust, remove_gust, remove_all,
  advance_gusts, gust_round, clear_from, clear_gusts, acquire_gust, launch_gust, apply_gust_to_pod,
  started, launched_from, gust_start, normalize_gust_direction,
}
use hackz_megalo.Scene.Pods.{collect_pod_intersections}
use hackz_megalo.Scene.Gusts.Rounds.{blow_cases, blow_all-keeps}

module _ ⦃n : Numbers⦄ where
  abbrev pub tally : ℕ → List Gust → ℕ
  tally h gs = count_if (λ g. nat_eq g.handle h) gs

  -- The places where the gust of a handle stands.
  abbrev pub total : ℕ → Scene → ℕ
  total h s = tally h s.gusts + tally h s.gust_pool

  -- No gust stands in two places.
  unfoldable pub IsPooled : Scene → Type 0
  IsPooled s = (h : ℕ) → total h s ≤ 1

  abbrev pub bit : Bool → ℕ
  bit b = if b then 1 else 0

  tally-splice_gust :
      (h i : ℕ) (gs : List Gust)
      → 1 ≤ tally i gs
      → tally h (splice_gust i gs) + bit (nat_eq i h) ≡ tally h gs
  unfolding splice_gust count_if
  tally-splice_gust h i [] p = absurd (omega arith)
  tally-splice_gust h i (g ∷ gs) p = elim (Bool-cases (nat_eq g.handle i)) [
    | inl e ↦ ground (arith, e)
    | inr e ↦ ground (arith, e, p, tally-splice_gust h i gs)
  ]

  -- Removing what is there moves it to the pool.
  tally-remove_gust :
      (h : ℕ) (g : Gust) (s : Scene)
      → 1 ≤ tally g.handle s.gusts
      → (tally h (remove_gust g s).gusts + bit (nat_eq g.handle h) ≡ tally h s.gusts)
        × (tally h (remove_gust g s).gust_pool ≡ tally h s.gust_pool + bit (nat_eq g.handle h))
  unfolding remove_gust count_if
  tally-remove_gust h g s p = (tally-splice_gust h g.handle s.gusts p, ground arith)

  first_there : (g : Gust) (gs : List Gust) (k : ℕ) → tally g.handle (g ∷ gs) ≤ k → 1 ≤ k
  unfolding count_if
  first_there g gs k p = ground (arith, p, nat_eq_iff g.handle g.handle)

  rest_there :
      (g : Gust) (gs : List Gust) (s : Scene)
      → ((i : ℕ) → tally i (g ∷ gs) ≤ tally i s.gusts)
      → (i : ℕ) → tally i gs ≤ tally i (remove_gust g s).gusts
  unfolding count_if
  rest_there g gs s p i = ground (
    arith,
    p i,
    (tally-remove_gust i g s (first_there g gs (tally g.handle s.gusts) (p g.handle))).0,
  )

  remove_all-total :
      (gs : List Gust) (s : Scene) (h : ℕ)
      → ((i : ℕ) → tally i gs ≤ tally i s.gusts)
      → total h (remove_all gs s) ≡ total h s
  unfolding remove_all
  remove_all-total [] s h p = refl
  remove_all-total (g ∷ gs) s h p =
      remove_all-total gs (remove_gust g s) h (rest_there g gs s p)
      ∙ omega
          (arith, tally-remove_gust h g s (first_there g gs (tally g.handle s.gusts) (p g.handle)))

  blow_pods-handle :
      (f : Frame) (ids : List Text) (g : Gust) (s : Scene)
      → (blow_pods f ids g s).0.handle ≡ g.handle
  unfolding blow_pods
  blow_pods-handle f [] g s = refl
  blow_pods-handle f (id ∷ ids) g s = elim (Bool-cases (includes g.hit_pod_ids id)) [
    | inl e ↦ rw (e, blow_pods) (blow_pods-handle f ids g s)
    | inr e ↦
        rw (e, blow_pods)
          (blow_pods-handle f ids (record g { hit_pod_ids = g.hit_pod_ids ++ id ∷ [] })
            (apply_gust_to_pod f g.direction_local id s))
  ]

  blow-handle : (f : Frame) (g : Gust) (s : Scene) → (blow f g s).0.handle ≡ g.handle
  blow-handle f g s =
      let ids = collect_pod_intersections (f.meets g.handle) [] s in
      if_cases (λ (x : Gust × Scene). x.0.handle ≡ g.handle) (is_over g) (g, s)
        (blow_pods f ids g s) (λ e. refl) (λ e. blow_pods-handle f ids g s)

  tally-blow_all :
      (h : ℕ) (f : Frame) (gs : List Gust) (s : Scene) → tally h (blow_all f gs s).0 ≡ tally h gs
  unfolding blow_all count_if
  tally-blow_all h f [] s = refl
  tally-blow_all h f (g ∷ gs) s = rw (blow-handle f g s, tally-blow_all h f gs (blow f g s).1) refl

  tally-keep_if : (h : ℕ) (p : Gust → Bool) (gs : List Gust) → tally h (keep_if p gs) ≤ tally h gs
  unfolding count_if keep_if
  tally-keep_if h p [] = omega arith
  tally-keep_if h p (g ∷ gs) = ground (arith, tally-keep_if h p gs)

  advanced-handle : (f : Frame) (g : Gust) → (advanced f g).handle ≡ g.handle
  advanced-handle f g = ground arith

  tally-advanced : (h : ℕ) (f : Frame) (gs : List Gust) → tally h (map (advanced f) gs) ≡ tally h gs
  unfolding count_if
  tally-advanced h f [] = refl
  tally-advanced h f (g ∷ gs) = rw (advanced-handle f g, tally-advanced h f gs) refl

  blow_all-pool :
      (f : Frame) (gs : List Gust) (s : Scene) → (blow_all f gs s).1.gust_pool ≡ s.gust_pool
  blow_all-pool f gs s =
      blow_all-keeps (λ x. x.gust_pool ≡ s.gust_pool) f
        (λ d id x w. blow_cases (λ y. y.gust_pool ≡ s.gust_pool) f d id x w (λ p l e t. w)) gs s
        refl

  gust_round-total : (f : Frame) (s : Scene) (h : ℕ) → total h (gust_round f s) ≡ total h s
  unfolding gust_round
  gust_round-total f s h =
      let moved = map (advanced f) s.gusts in
      let after = blow_all f moved s in
      remove_all-total (keep_if is_over moved) (record (after.1) { gusts = after.0 }) h
        (λ i. omega (arith, tally-keep_if i is_over moved, tally-blow_all i f moved s))
      ∙ omega (
        arith,
        tally-blow_all h f moved s,
        tally-advanced h f s.gusts,
        ap (tally h) (blow_all-pool f moved s),
      )

  -- A round moves gusts to the pool, and neither makes nor loses one.
  pub advance_gusts-total :
      (f : Frame) (s : Scene) (h : ℕ) → total h (advance_gusts f s) ≡ total h s
  unfolding advance_gusts
  advance_gusts-total f s h =
      if_cases (λ x. total h x ≡ total h s) (not s.has_world) s (gust_round f s) (λ e. refl)
        (λ e. gust_round-total f s h)

  tail_there :
      (g : Gust) (gs : List Gust) (s : Scene)
      → ((i : ℕ) → tally i (g ∷ gs) ≤ tally i s.gusts)
      → (i : ℕ) → tally i gs ≤ tally i s.gusts
  unfolding count_if
  tail_there g gs s p i = ground (arith, p i)

  cleared_there :
      (g : Gust) (gs : List Gust) (s t : Scene)
      → tally g.handle (g ∷ gs) ≤ tally g.handle s.gusts
      → tally g.handle t.gusts + tally g.handle gs ≡ tally g.handle s.gusts
      → 1 ≤ tally g.handle t.gusts
  unfolding count_if
  cleared_there g gs s t p q = ground (arith, p, q, nat_eq_iff g.handle g.handle)

  tally-clear_from :
      (gs : List Gust) (s : Scene) (h : ℕ)
      → ((i : ℕ) → tally i gs ≤ tally i s.gusts)
      → (tally h (clear_from gs s).gusts + tally h gs ≡ tally h s.gusts)
        × (total h (clear_from gs s) ≡ total h s)
  unfolding clear_from count_if
  tally-clear_from [] s h p = (omega arith, refl)
  tally-clear_from (g ∷ gs) s h p =
      let t = clear_from gs s in
      let there =
        cleared_there g gs s t (p g.handle)
          (tally-clear_from gs s g.handle (tail_there g gs s p)).0 in
      let here = tally-clear_from gs s h (tail_there g gs s p) in
      let gone = tally-remove_gust h g t there in
      (ground (arith, here.0, gone.0), omega (arith, here.1, gone))

  pub clear_gusts-total : (s : Scene) (h : ℕ) → total h (clear_gusts s) ≡ total h s
  unfolding clear_gusts
  clear_gusts-total s h = (tally-clear_from s.gusts s h (λ i. omega arith)).1

  tally-acquire_gust :
      (handle h : ℕ) (pool : List Gust)
      → bit (nat_eq (acquire_gust handle pool).0.handle h) + tally h (acquire_gust handle pool).1
        ≤ tally h pool + bit (nat_eq handle h)
  unfolding count_if
  tally-acquire_gust handle h [] = ground arith
  tally-acquire_gust handle h (g ∷ pool) = ground arith

  tally-one : (h : ℕ) (g : Gust) → tally h (g ∷ []) ≡ bit (nat_eq g.handle h)
  unfolding count_if
  tally-one h g = refl

  -- A launch takes a gust from the pool, and makes that of `handle` where the pool is empty.
  pub launched_from-total :
      (handle : ℕ) (v d : Vector) (source : GustSource) (s : Scene) (h : ℕ)
      → total h (launched_from handle v d source s).1 ≤ total h s + bit (nat_eq handle h)
  launched_from-total handle v d source s h =
      let direction = normalize_gust_direction d in
      let acquired = acquire_gust handle s.gust_pool in
      let g = started (gust_start v direction) direction acquired.0 in
      omega (
        arith,
        count_if-append (λ x. nat_eq x.handle h) s.gusts (g ∷ []),
        tally-one h g,
        tally-acquire_gust handle h s.gust_pool,
      )

  pub launch_gust-total :
      (handle : ℕ) (v d : Vector) (source : GustSource) (s : Scene) (h : ℕ)
      → total h (launch_gust handle v d source s).1 ≤ total h s + bit (nat_eq handle h)
  unfolding launch_gust
  launch_gust-total handle v d source s h =
      if_cases (λ (x : Bool × Scene). total h x.1 ≤ total h s + bit (nat_eq handle h))
        (not s.has_world) (false, s) (launched_from handle v d source s) (λ e. omega arith)
        (λ e. launched_from-total handle v d source s h)

  none_there : (gs : List Gust) → ((h : ℕ) → tally h gs ≡ 0) → gs ≡ []
  unfolding count_if
  none_there [] p = refl
  none_there (g ∷ gs) p = absurd (ground (arith, p g.handle, nat_eq_iff g.handle g.handle))

  pub clear_gusts-none : (s : Scene) → (clear_gusts s).gusts ≡ []
  unfolding clear_gusts
  clear_gusts-none s =
      none_there (clear_from s.gusts s).gusts
        (λ h. omega (arith, (tally-clear_from s.gusts s h (λ i. omega arith)).0))
