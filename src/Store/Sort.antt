-- ===== src/Store/Sort.antt =====
-- The list of pods that the page shows: `getPods` sorts, and loses and adds nothing; where the
-- service has sent no metrics, the two counts add up to the number of pods.
use Prim.Native.Nat.{Ordering}
use mathlib.Core.List.{Perm}
use mathlib.Core.List.Perm
use hackz_megalo.Base.{
  ◌+◌, ◌≡◌, ◌≢◌, refl, Bool, not, List, [], ◌∷◌, none, some, arith, values, length, keep_if,
  Bool-cases, inl, inr, All,
}
use hackz_megalo.Types.{SlaveState, is_gone, SessionMetrics}
use hackz_megalo.Store.{GameState}
use hackz_megalo.Store.Pods.{
  Collation, IsCollation, is_gt, insert_sorted, to_sorted, get_pods, get_effective_counts,
}

module _ ⦃c : Collation⦄ where
  insert_sorted-perm : (p : SlaveState) (qs : List SlaveState) → Perm (insert_sorted p qs) (p ∷ qs)
  unfolding insert_sorted
  insert_sorted-perm p [] = Perm.refl _
  insert_sorted-perm p (q ∷ qs) =
      elim (Bool-cases (is_gt (c.locale_compare p.k8s_pod_name q.k8s_pod_name))) [
        | inl after ↦
            rw after (Perm.trans (Perm.cons q (insert_sorted-perm p qs)) (Perm.swap p q qs))
        | inr before ↦ rw before (Perm.refl _)
      ]

  to_sorted-perm : (ps : List SlaveState) → Perm (to_sorted ps) ps
  unfolding to_sorted
  to_sorted-perm [] = Perm.refl _
  to_sorted-perm (p ∷ ps) =
      Perm.trans (insert_sorted-perm p (to_sorted ps)) (Perm.cons p (to_sorted-perm ps))

  -- No name stands after one that the locale puts behind it.
  abbrev pub NotAfter : SlaveState → SlaveState → Type 0
  NotAfter p q = c.locale_compare p.k8s_pod_name q.k8s_pod_name ≢ Ordering.gt

  abbrev pub IsSorted : List SlaveState → Type 0
  IsSorted [] = Unit
  IsSorted (p ∷ ps) = All (λ q. NotAfter p q) ps × IsSorted ps

  insert_sorted-All :
      (P : SlaveState → Type 0) (p : SlaveState) (qs : List SlaveState)
      → P p
      → All P qs
      → All P (insert_sorted p qs)
  unfolding insert_sorted
  insert_sorted-All P p [] h k = (h, tt)
  insert_sorted-All P p (q ∷ qs) h k = ground (arith, insert_sorted-All P p qs h k.1)

module _ ⦃c : Collation⦄ (laws : IsCollation c) where
  NotAfter-of_gt :
      (p q : SlaveState)
      → is_gt (c.locale_compare p.k8s_pod_name q.k8s_pod_name) ≡ Bool.true
      → NotAfter q p
  NotAfter-of_gt p q h = ground (arith, laws.flip p.k8s_pod_name q.k8s_pod_name)

  All-NotAfter-trans :
      (p q : SlaveState) (qs : List SlaveState)
      → NotAfter p q
      → All (λ r. NotAfter q r) qs
      → All (λ r. NotAfter p r) qs
  All-NotAfter-trans p q [] h k = tt
  All-NotAfter-trans p q (r ∷ qs) h k = (
    laws.trans p.k8s_pod_name q.k8s_pod_name r.k8s_pod_name h k.0,
    All-NotAfter-trans p q qs h k.1,
  )

  insert_sorted-IsSorted :
      (p : SlaveState) (qs : List SlaveState) → IsSorted qs → IsSorted (insert_sorted p qs)
  unfolding insert_sorted
  insert_sorted-IsSorted p [] h = (tt, tt)
  insert_sorted-IsSorted p (q ∷ qs) h =
      elim (Bool-cases (is_gt (c.locale_compare p.k8s_pod_name q.k8s_pod_name))) [
        | inl after ↦ rw after (
          insert_sorted-All (λ r. NotAfter q r) p qs (NotAfter-of_gt p q after) h.0,
          insert_sorted-IsSorted p qs h.1,
        )
        | inr before ↦
            let here : NotAfter p q = ground arith in
            rw before ((here, All-NotAfter-trans p q qs here h.0), h)
      ]

  to_sorted-IsSorted : (ps : List SlaveState) → IsSorted (to_sorted ps)
  unfolding to_sorted
  to_sorted-IsSorted [] = tt
  to_sorted-IsSorted (p ∷ ps) = insert_sorted-IsSorted p (to_sorted ps) (to_sorted-IsSorted ps)

  -- Where `localeCompare` is a consistent order, `getPods` gives exactly the pods of the state, in
  -- the order of their names.
  pub get_pods-sorts :
      (g : GameState) → IsSorted (get_pods g) × Perm (get_pods g) (values g.pods_by_id)
  unfolding get_pods
  get_pods-sorts g =
      (to_sorted-IsSorted (values g.pods_by_id), to_sorted-perm (values g.pods_by_id))

length-split :
    (ps : List SlaveState)
    → length (keep_if (λ p. not (is_gone p.status)) ps)
        + length (keep_if (λ p. is_gone p.status) ps)
      ≡ length ps
unfolding keep_if
length-split [] = omega arith
length-split (p ∷ ps) = ground (arith, length-split ps)

module _ ⦃c : Collation⦄ where
  length-insert_sorted :
      (p : SlaveState) (qs : List SlaveState) → length (insert_sorted p qs) ≡ length qs + 1
  unfolding insert_sorted
  length-insert_sorted p [] = omega arith
  length-insert_sorted p (q ∷ qs) = ground (arith, length-insert_sorted p qs)

  length-to_sorted : (ps : List SlaveState) → length (to_sorted ps) ≡ length ps
  unfolding to_sorted
  length-to_sorted [] = refl
  length-to_sorted (p ∷ ps) =
      omega (arith, length-insert_sorted p (to_sorted ps), length-to_sorted ps)

  -- The counts are those of the service once it has sent any; before that the two counts add up to
  -- the number of pods in the state.
  pub get_effective_counts_lem :
      (g : GameState)
      → ((m : SessionMetrics)
          → g.metrics ≡ some m
          → ((get_effective_counts g).live ≡ m.live_slaves)
            × ((get_effective_counts g).gone ≡ m.gone_slaves))
        × (g.metrics ≡ none
            → (get_effective_counts g).live + (get_effective_counts g).gone
              ≡ length (values g.pods_by_id))
  unfolding get_effective_counts get_pods
  get_effective_counts_lem g = (
    λ m e. ground arith,
    λ e. rw e (
        omega (
          arith,
          length-split (to_sorted (values g.pods_by_id)),
          length-to_sorted (values g.pods_by_id),
        )),
  )
