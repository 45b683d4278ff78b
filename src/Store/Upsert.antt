-- ===== src/Store/Upsert.antt =====
-- What an update of a pod does to the store, and when it brings back a pod that the player removed.
use Prim.Native.Nat.{Ordering}
use hackz_megalo.Base.{
  ◌≡◌, ◌≢◌, ◌↔◌, refl, true, false, not, ◌&&◌, List, [], ◌∷◌, Option, none, some, Text, eq_Text,
  text_eq, text_eq_iff, arith, if◌then◌else◌, ◌==◌, lookup, insert, lookup-insert, insert_idem,
  includes, includes-keep_if, All, inl, inr, Bool-cases, ap, ◌∙◌,
}
use hackz_megalo.Types.{SlaveState, is_gone, gone}
use hackz_megalo.Store.{GameState, GameStore, emit}
use hackz_megalo.Store.Pods.{Collation, eliminated_after, should_restore_eliminated_pod, upsert_pod}

module _ ⦃c : Collation⦄ where
  -- An update writes the pod under its id and leaves all the others.
  pub lookup-upsert_pod :
      (pod : SlaveState) (s : GameStore) (id : Text)
      → lookup id (upsert_pod pod s).state.pods_by_id
        ≡ (if pod.slave_id == id then some pod else lookup id s.state.pods_by_id)
  unfolding upsert_pod emit
  lookup-upsert_pod pod s id = lookup-insert pod.slave_id id pod s.state.pods_by_id

  -- Why the record `next` speaks for a pod that is there again after the record `previous`: it is
  -- the first record, that of another pod under the same id, or one that was observed no earlier
  -- than a report of the pod's end.
  pub data IsReason (previous : Option SlaveState) (next : SlaveState) : Type 0 where
    first : previous ≡ none → IsReason previous next
    other_pod :
        (p : SlaveState)
        → previous ≡ some p
        → p.k8s_pod_uid ≢ next.k8s_pod_uid
        → IsReason previous next
    later :
        (p : SlaveState)
        → previous ≡ some p
        → p.status ≡ gone
        → c.locale_compare next.observed_at p.observed_at ≢ Ordering.lt
        → IsReason previous next

  restore_sound :
      (o : Option SlaveState) (next : SlaveState)
      → should_restore_eliminated_pod o next ≡ true
      → IsReason o next
  unfolding should_restore_eliminated_pod
  restore_sound none next h = first refl
  restore_sound (some p) next h = elim (Bool-cases (text_eq p.k8s_pod_uid next.k8s_pod_uid)) [
    | inl same ↦ later p refl (ground arith) (ground arith)
    | inr other ↦ other_pod p refl (ground (arith, text_eq_iff p.k8s_pod_uid next.k8s_pod_uid))
  ]

  restore_complete :
      (o : Option SlaveState) (next : SlaveState)
      → IsReason o next
      → should_restore_eliminated_pod o next ≡ true
  unfolding should_restore_eliminated_pod
  restore_complete o next (first e) = rw e
  restore_complete o next (other_pod p e n) =
      rw e (ground (arith, text_eq_iff p.k8s_pod_uid next.k8s_pod_uid))
  restore_complete o next (later p e g n) = rw e (ground arith)

  includes-eliminated_after :
      (g : GameState) (pod : SlaveState) (id : Text)
      → includes (eliminated_after g pod) id ≡ (
          includes g.xr_eliminated_pod_ids id
          && not (
              pod.slave_id == id
              && (not (is_gone pod.status)
                  && should_restore_eliminated_pod (lookup pod.slave_id g.pods_by_id) pod)))
  unfolding eliminated_after
  includes-eliminated_after g pod id = ground (
    arith,
    includes-keep_if (λ x. not (x == pod.slave_id)) g.xr_eliminated_pod_ids id,
    text_eq_iff pod.slave_id id,
    text_eq_iff id pod.slave_id,
  )

  -- An update takes an id off the list of eliminated pods exactly when it is the id of the pod that
  -- the update is about, the update does not report the pod's end, and there is a reason to take the
  -- pod for one that is there again.
  pub upsert_pod-restores_iff :
      (pod : SlaveState) (s : GameStore) (id : Text)
      → includes s.state.xr_eliminated_pod_ids id ≡ true
      → (includes (upsert_pod pod s).state.xr_eliminated_pod_ids id ≡ false) ↔ (
          (pod.slave_id ≡ id)
          × (pod.status ≢ gone)
          × IsReason (lookup pod.slave_id s.state.pods_by_id) pod)
  unfolding upsert_pod emit
  upsert_pod-restores_iff pod s id h = (to, from)
    where
      o : Option SlaveState
      o = lookup pod.slave_id s.state.pods_by_id

      to :
          includes (eliminated_after s.state pod) id ≡ false
          → (pod.slave_id ≡ id) × (pod.status ≢ gone) × IsReason o pod
      to e =
          let k = includes-eliminated_after s.state pod id in
          (
            ground (arith, k, text_eq_iff pod.slave_id id),
            ground (arith, k),
            restore_sound o pod (ground (arith, k)),
          )

      from :
          (pod.slave_id ≡ id) × (pod.status ≢ gone) × IsReason o pod
          → includes (eliminated_after s.state pod) id ≡ false
      from (same, alive, reason) = ground (
        arith,
        includes-eliminated_after s.state pod id,
        text_eq_iff pod.slave_id id,
        restore_complete o pod reason,
      )

  -- No update puts an id on the list of eliminated pods.
  eliminated_after_le :
      (g : GameState) (pod : SlaveState) (id : Text)
      → includes g.xr_eliminated_pod_ids id ≡ false
      → includes (eliminated_after g pod) id ≡ false
  eliminated_after_le g pod id h = ground (arith, includes-eliminated_after g pod id)

  eliminated_after_settled :
      (g : GameState) (pod : SlaveState)
      → lookup pod.slave_id g.pods_by_id ≡ some pod
      → eliminated_after g pod ≡ g.xr_eliminated_pod_ids
  unfolding eliminated_after
  eliminated_after_settled g pod h = ground (arith, h, text_eq_iff pod.k8s_pod_uid pod.k8s_pod_uid)

  lookup-insert_self :
      (k : Text) (pod : SlaveState) (m : List (Text × SlaveState))
      → lookup k (insert k pod m) ≡ some pod
  lookup-insert_self k pod m = ground (arith, lookup-insert k k pod m, text_eq_iff k k)

  -- A second copy of an update changes nothing in the state.
  pub upsert_pod_idem :
      (pod : SlaveState) (s : GameStore)
      → (upsert_pod pod (upsert_pod pod s)).state ≡ (upsert_pod pod s).state
  unfolding upsert_pod emit
  upsert_pod_idem pod s =
      let once = (upsert_pod pod s).state in
      let settled =
        eliminated_after_settled once pod
          (lookup-insert_self pod.slave_id pod s.state.pods_by_id) in
      let written = insert_idem pod.slave_id pod s.state.pods_by_id in
      λ i. record once { pods_by_id = written i; xr_eliminated_pod_ids = settled i }

  still_eliminated :
      (q : SlaveState) (s : GameStore) (id uid : Text) (p : SlaveState)
      → lookup id s.state.pods_by_id ≡ some p
      → p.k8s_pod_uid ≡ uid
      → p.status ≢ gone
      → includes s.state.xr_eliminated_pod_ids id ≡ true
      → (q.slave_id ≡ id) × (q.k8s_pod_uid ≡ uid) × (q.status ≢ gone)
      → includes (upsert_pod q s).state.xr_eliminated_pod_ids id ≡ true
  unfolding upsert_pod emit should_restore_eliminated_pod
  still_eliminated q s id uid p found same alive h (own, pod, well) = ground (
    arith,
    includes-eliminated_after s.state q id,
    ap (λ k. lookup k s.state.pods_by_id) own ∙ found,
    text_eq_iff p.k8s_pod_uid q.k8s_pod_uid,
  )

  -- A history of updates for one pod, none of which reports its end.
  abbrev AreAlive : Text → Text → List SlaveState → Type 0
  AreAlive id uid =
      All λ (p : SlaveState). (p.slave_id ≡ id) × (p.k8s_pod_uid ≡ uid) × (p.status ≢ gone)

  pub upsert_all : List SlaveState → GameStore → GameStore
  upsert_all [] s = s
  upsert_all (p ∷ ps) s = upsert_all ps (upsert_pod p s)

  -- Once the record of an eliminated pod is one that does not report its end, such as a report that
  -- was late, no later report on the same pod takes it off the list, as long as none reports the end
  -- again.
  pub upsert_all-stays_eliminated :
      (ps : List SlaveState) (s : GameStore) (id uid : Text) (p : SlaveState)
      → lookup id s.state.pods_by_id ≡ some p
      → p.k8s_pod_uid ≡ uid
      → p.status ≢ gone
      → includes s.state.xr_eliminated_pod_ids id ≡ true
      → AreAlive id uid ps
      → includes (upsert_all ps s).state.xr_eliminated_pod_ids id ≡ true
  unfolding upsert_all
  upsert_all-stays_eliminated [] s id uid p found same alive h a = h
  upsert_all-stays_eliminated (q ∷ ps) s id uid p found same alive h a =
      upsert_all-stays_eliminated ps (upsert_pod q s) id uid q
        (ground (arith, lookup-upsert_pod q s id, text_eq_iff q.slave_id id)) a.0.1 a.0.2
        (still_eliminated q s id uid p found same alive h a.0) a.1
