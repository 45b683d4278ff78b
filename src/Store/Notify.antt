-- ===== src/Store/Notify.antt =====
-- Who is told what: `subscribe`, and the calls of the listeners after each operation.
use hackz_megalo.Base.{
  ℕ, ◌≡◌, ◌⊎◌, refl, true, false, [], ◌∷◌, ◌++◌, map, eq_ℕ, eq_Text, arith, includes, Bool-cases,
  inl, inr, includes-keep_if, nat_eq_iff, not, ◌==◌, includes-add_to,
}
use hackz_megalo.Store.{
  GameStore, emit, patch, reset_to_disconnected, set_selected_pod, set_hovered_pod, set_metrics,
  set_action_in_flight, set_xr_support, set_xr_active, mark_xr_pod_eliminated, log, subscribe,
  unsubscribe,
}
use hackz_megalo.Store.Pods.{Collation, hydrate_snapshot, upsert_pod}
use hackz_megalo.Store.Invariant.{Call, subscribes, unsubscribes, marks, step}

-- Each listener is called once, with the state that the operation leaves.
abbrev pub TellsAll : GameStore → GameStore → Type 0
TellsAll s t =
    (t.listeners ≡ s.listeners) × (t.calls ≡ s.calls ++ map (λ l. (l, t.state)) s.listeners)

-- What a call of the store tells, and to whom.
abbrev pub Tells : GameStore → GameStore → Call → Type 0
Tells s t (subscribes l) =
    (t.state ≡ s.state) × (t.calls ≡ s.calls ++ (l, s.state) ∷ []) × (includes t.listeners l ≡ true)
Tells s t (unsubscribes l) =
    (t.state ≡ s.state) × (t.calls ≡ s.calls) × (includes t.listeners l ≡ false)
Tells s t (marks id) =
    ((includes s.state.xr_eliminated_pod_ids id ≡ true) × (t ≡ s))
    ⊎ ((includes s.state.xr_eliminated_pod_ids id ≡ false) × TellsAll s t)
Tells s t _ = TellsAll s t

subscribe-includes : (l : ℕ) (s : GameStore) → includes (subscribe l s).listeners l ≡ true
unfolding subscribe
subscribe-includes l s = includes-add_to s.listeners l

module _ ⦃c : Collation⦄ where
  -- A new listener is called at once, alone, with the current state, and is on the list after it;
  -- one that leaves is off the list and nobody is called; eliminating a pod that is eliminated
  -- changes nothing and calls nobody; every other operation calls each listener of the list once, in
  -- the order of the list, with the state that it leaves.
  pub step-Tells : (s : GameStore) (x : Call) → Tells s (step s x) x
  unfolding step subscribe unsubscribe patch reset_to_disconnected hydrate_snapshot upsert_pod
      set_selected_pod set_hovered_pod set_metrics set_action_in_flight set_xr_support set_xr_active
      log emit mark_xr_pod_eliminated
  step-Tells s (subscribes l) = (refl, refl, subscribe-includes l s)
  step-Tells s (unsubscribes l) = (
    refl,
    refl,
    ground (arith, includes-keep_if (λ x. not (x == l)) s.listeners l, nat_eq_iff l l),
  )
  step-Tells s (marks id) = elim (Bool-cases (includes s.state.xr_eliminated_pod_ids id)) [
    | inl old ↦ inl (old, rw old)
    | inr new ↦ inr (new, rw new (refl, refl))
  ]
  step-Tells s _ = (refl, refl)
