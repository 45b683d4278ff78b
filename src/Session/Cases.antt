-- ===== src/Session/Cases.antt =====
-- `reportPodGone` by cases: it does nothing, or it eliminates a pod that its guards have found.
use hackz_megalo.Base.{ℕ, ◌≡◌, some, inl, inr, Option-cases, arith}
use hackz_megalo.Types.{SlaveState, SessionMeta}
use hackz_megalo.Store.{Stamp}
use hackz_megalo.Store.Pods.{Collation}
use hackz_megalo.Session.{App, state_of}
use hackz_megalo.Session.Report.{
  Report, report_pod_gone, eliminate_pod, alive, report_target, target_id,
}

-- What the guards of `reportPodGone` have found.
pub record IsFound (r : Report) (a : App) (k : ℕ) (session : SessionMeta) (pod : SlaveState)
    : Type 0 where
  pub in_session : (state_of a).session ≡ some session
  pub in_use : a.socket ≡ some k
  pub target : alive (report_target (state_of a) r.explicit_slave_id) ≡ some pod

module _ ⦃c : Collation⦄ where
  pub report_found :
      (r : Report) (t : Stamp) (a : App) (k : ℕ) (session : SessionMeta) (pod : SlaveState)
      → IsFound r a k session pod
      → report_pod_gone r t a
        ≡ eliminate_pod (target_id (state_of a) r.explicit_slave_id) k session pod r t a
  unfolding report_pod_gone
  report_found r t a k session pod f = ground (arith, f.in_session, f.in_use, f.target)

  pub report_cases {ℓ} :
      (P : App → Type ℓ) (r : Report) (t : Stamp) (a : App)
      → P a
      → ((k : ℕ) (session : SessionMeta) (pod : SlaveState)
          → IsFound r a k session pod
          → P (eliminate_pod (target_id (state_of a) r.explicit_slave_id) k session pod r t a))
      → P (report_pod_gone r t a)
  unfolding report_pod_gone
  report_cases P r t a same found = elim (Option-cases (state_of a).session) [
    | inl e ↦ rw (e, report_pod_gone) same
    | inr (session, e) ↦ elim (Option-cases a.socket) [
      | inl f ↦ rw (e, f, report_pod_gone) same
      | inr (k, f) ↦ elim (Option-cases (alive (report_target (state_of a) r.explicit_slave_id))) [
        | inl g ↦ rw (e, f, g, report_pod_gone) same
        | inr (pod, g) ↦
            rw
              (report_found r t a k session pod (record { in_session = e; in_use = f; target = g }))
              (found k session pod (record { in_session = e; in_use = f; target = g }))
      ]
    ]
  ]
