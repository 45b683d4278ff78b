-- ===== src/Session/Hits.antt =====
-- `reportPodGone`: what a hit does to the game and what it tells the service.
use hackz_megalo.Base.{
  ℕ, ◌≡◌, ◌⊎◌, inl, inr, refl, sym, ap, truthy, append-nil, All-lookup, or_else, ◌∙◌, subst, Bool,
  true, false, List, [], ◌∷◌, Option, none, some, arith, eq_ℕ, eq_Text, lookup, insert,
  lookup-insert, Text, Bool-cases, Option-cases, includes, ◌++◌, text, includes-add_to, add_to,
}
use hackz_megalo.Types.{SlaveState, SessionMeta, gone}
use hackz_megalo.Store.{
  Stamp, GameState, emit, patch, log, set_action_in_flight, mark_xr_pod_eliminated, GameStore,
}
use hackz_megalo.Store.Pods.{Collation, upsert_pod}
use hackz_megalo.Session.{App, with_store, clear_timer, state_of, Effect, sends}
use hackz_megalo.Session.Start.{is_open_socket}
use hackz_megalo.Session.Report.{
  Report, report_pod_gone, eliminate_pod, send_report, schedule_metrics_refresh, report_target,
  alive, target_id, gone_record,
}
use hackz_megalo.Session.Cases.{report_found, IsFound}
use hackz_megalo.Store.Invariant.{IsKeyed}
use hackz_megalo.Store.Pods.{eliminated_after}

-- The message of `sendPodStateUpdate`, if the socket is open.
abbrev pub sent : Bool → ℕ → SessionMeta → SlaveState → Report → List Effect
sent true k session pod r = sends k session.session_id pod.slave_id r.death_reason ∷ []
sent false k session pod r = []

abbrev pub complaint : Bool → Option Text → Option Text
complaint true old = old
complaint false old = some (text "WebSocket が開いていません。")

-- What `b` is after a hit on the pod `pod` in `a`, found under `id`.
pub record IsHit (id : Text) (k : ℕ) (session : SessionMeta) (pod : SlaveState) (r : Report)
    (a b : App) : Type 0 where
  pub pods :
      (state_of b).pods_by_id
      ≡ insert pod.slave_id
          (record pod {
            status = gone;
            death_reason = r.death_reason;
            observed_at = r.observed_at;
            source = text "frontend-webxr";
          })
          (state_of a).pods_by_id
  pub eliminated : includes (state_of b).xr_eliminated_pod_ids id ≡ true
  pub idle : (state_of b).action_in_flight ≡ false
  pub told : b.effects ≡ a.effects ++ sent (is_open_socket a k) k session pod r
  pub message :
      (state_of b).error_message ≡ complaint (is_open_socket a k) (state_of a).error_message
  pub session_kept : (state_of b).session ≡ (state_of a).session
  pub socket_kept : b.socket ≡ a.socket
  pub phase_kept : (state_of b).phase ≡ (state_of a).phase

marked_state :
    (id : Text) (s : GameStore)
    → (mark_xr_pod_eliminated id s).state
      ≡ record (s.state) { xr_eliminated_pod_ids = add_to s.state.xr_eliminated_pod_ids id }
unfolding mark_xr_pod_eliminated emit
marked_state id s = elim (Bool-cases (includes s.state.xr_eliminated_pod_ids id)) [
  | inl e ↦ rw (e) refl
  | inr e ↦ rw (e) refl
]

-- What `send_report` does.
record IsSent (k : ℕ) (session : SessionMeta) (pod : SlaveState) (r : Report) (up : Bool)
    (a b : App) : Type 0 where
  pods : (state_of b).pods_by_id ≡ (state_of a).pods_by_id
  eliminated : (state_of b).xr_eliminated_pod_ids ≡ (state_of a).xr_eliminated_pod_ids
  idle : (state_of b).action_in_flight ≡ false
  told : b.effects ≡ a.effects ++ sent up k session pod r
  message : (state_of b).error_message ≡ complaint up (state_of a).error_message
  session_kept : (state_of b).session ≡ (state_of a).session
  socket_kept : b.socket ≡ a.socket
  phase_kept : (state_of b).phase ≡ (state_of a).phase

send_report-IsSent :
    (k : ℕ) (session : SessionMeta) (pod : SlaveState) (r : Report) (t : Stamp) (a : App) (b : Bool)
    → is_open_socket a k ≡ b
    → IsSent k session pod r b a (send_report k session pod r t a)
unfolding send_report with_store emit patch log schedule_metrics_refresh clear_timer
    set_action_in_flight
send_report-IsSent k session pod r t a true e =
    rw (e, send_report)
      (record {
        pods = ground arith;
        eliminated = ground arith;
        idle = refl;
        told = ground arith;
        message = ground arith;
        session_kept = ground arith;
        socket_kept = ground arith;
        phase_kept = ground arith;
      })
send_report-IsSent k session pod r t a false e =
    rw (e, send_report)
      (record {
        pods = refl;
        eliminated = refl;
        idle = refl;
        told = sym (append-nil a.effects);
        message = refl;
        session_kept = refl;
        socket_kept = refl;
        phase_kept = refl;
      })

module _ ⦃c : Collation⦄ where
  eliminated_after-gone :
      (g : GameState) (pod : SlaveState)
      → pod.status ≡ gone
      → eliminated_after g pod ≡ g.xr_eliminated_pod_ids
  unfolding eliminated_after
  eliminated_after-gone g pod e = ground arith

  -- The page when the report goes out.
  abbrev ready_to_send : Text → SlaveState → Report → App → App
  ready_to_send id pod r a =
      with_store (upsert_pod (gone_record pod r))
        (with_store (mark_xr_pod_eliminated id) (with_store (set_action_in_flight true) a))

  ready_state :
      (id : Text) (pod : SlaveState) (r : Report) (a : App)
      → state_of (ready_to_send id pod r a) ≡ record (state_of a) {
        action_in_flight = true;
        pods_by_id = insert pod.slave_id (gone_record pod r) (state_of a).pods_by_id;
        selected_pod_id = some (or_else (state_of a).selected_pod_id pod.slave_id);
        xr_eliminated_pod_ids = add_to (state_of a).xr_eliminated_pod_ids id;
      }
  unfolding with_store upsert_pod emit eliminated_after set_action_in_flight
  ready_state id pod r a = rw (marked_state id) refl

  pub eliminated-IsHit :
      (id : Text) (k : ℕ) (session : SessionMeta) (pod : SlaveState) (r : Report) (t : Stamp)
      (a : App)
      → IsHit id k session pod r a (eliminate_pod id k session pod r t a)
  unfolding eliminate_pod with_store is_open_socket
  eliminated-IsHit id k session pod r t a =
      let b = ready_to_send id pod r a in
      let s = send_report-IsSent k session pod r t b (is_open_socket a k) refl in
      let e = ready_state id pod r a in
      record {
        pods = s.pods ∙ ap (λ g. g.pods_by_id) e;
        eliminated = rw (s.eliminated, e) (includes-add_to (state_of a).xr_eliminated_pod_ids id);
        idle = s.idle;
        told = s.told;
        message = s.message ∙ ap (λ g. complaint (is_open_socket a k) g.error_message) e;
        session_kept = s.session_kept ∙ ap (λ g. g.session) e;
        socket_kept = s.socket_kept;
        phase_kept = s.phase_kept ∙ ap (λ g. g.phase) e;
      }

  -- When the guards of `reportPodGone` find a pod, then afterwards the pod is gone for the reason
  -- given, its id is eliminated, no action is in flight, and the service has been told if the socket
  -- is open; otherwise the player reads an error. Session, socket and phase are as before.
  pub report_pod_gone-IsHit :
      (r : Report) (t : Stamp) (a : App) (k : ℕ) (session : SessionMeta) (pod : SlaveState)
      → IsFound r a k session pod
      → IsHit (target_id (state_of a) r.explicit_slave_id) k session pod r a (report_pod_gone r t a)
  report_pod_gone-IsHit r t a k session pod f =
      rw (report_found r t a k session pod f)
        (eliminated-IsHit (target_id (state_of a) r.explicit_slave_id) k session pod r t a)

  report_none :
      (r : Report) (t : Stamp) (a : App)
      → alive (report_target (state_of a) r.explicit_slave_id) ≡ none
      → report_pod_gone r t a ≡ a
  unfolding report_pod_gone
  report_none r t a e = ground (arith, e)

  alive-some : (o : Option SlaveState) {pod : SlaveState} → alive o ≡ some pod → o ≡ some pod
  alive-some none e = e
  alive-some (some p) e = ground (arith, e)

  target_lookup :
      (g : GameState) (id : Text) {pod : SlaveState}
      → report_target g (some id) ≡ some pod
      → (truthy id ≡ true) × (lookup id g.pods_by_id ≡ some pod)
  unfolding report_target
  target_lookup g id e = elim (Bool-cases (truthy id)) [
    | inl y ↦ (y, ground (arith, e, y))
    | inr n ↦ absurd (ground (arith, e, n))
  ]

  -- A pod that is named, and known under its name, is gone when it has been hit.
  hit-report_target :
      (id : Text) (k : ℕ) (session : SessionMeta) (pod : SlaveState) (r : Report) (a b : App)
      → IsKeyed (state_of a).pods_by_id
      → alive (report_target (state_of a) (some id)) ≡ some pod
      → IsHit id k session pod r a b
      → alive (report_target (state_of b) (some id)) ≡ none
  unfolding report_target
  hit-report_target id k session pod r a b w e h =
      let f = target_lookup (state_of a) id (alive-some _ e) in
      let key =
        All-lookup (λ (x : Text × SlaveState). x.1.slave_id ≡ x.0) id (state_of a).pods_by_id w
          f.1 in
      ground (
        arith,
        h.pods,
        key,
        f.0,
        eq_Text.beq_iff id id,
        lookup-insert pod.slave_id id (gone_record pod r) (state_of a).pods_by_id,
      )

  report_idle :
      (r : Report) (t : Stamp) (a : App)
      → ((state_of a).session ≡ none) ⊎ (a.socket ≡ none)
      → report_pod_gone r t a ≡ a
  unfolding report_pod_gone
  report_idle r t a (inl e) = ground (arith, e)
  report_idle r t a (inr e) = ground (arith, e)

  -- Where every pod stands under its own id, a second report on one named pod does nothing.
  pub report_pod_gone_twice :
      (r s : Report) (t u : Stamp) (id : Text) (a : App)
      → IsKeyed (state_of a).pods_by_id
      → r.explicit_slave_id ≡ some id
      → s.explicit_slave_id ≡ some id
      → report_pod_gone s u (report_pod_gone r t a) ≡ report_pod_gone r t a
  report_pod_gone_twice r s t u id a w er es =
      elim (Option-cases (alive (report_target (state_of a) (some id)))) [
        | inl e ↦ rw (report_none r t a (rw (er) e)) (report_none s u a (rw (es) e))
        | inr (pod, e) ↦ elim (Option-cases (state_of a).session) [
          | inl f ↦ rw (report_idle r t a (inl f)) (report_idle s u a (inl f))
          | inr (session, f) ↦ elim (Option-cases a.socket) [
            | inl g ↦ rw (report_idle r t a (inr g)) (report_idle s u a (inr g))
            | inr (k, g) ↦ report_none s u (report_pod_gone r t a) (
                rw (es) (
                  hit-report_target id k session pod r a (report_pod_gone r t a) w e (
                    subst
                      (λ (o : Option Text).
                        IsHit (target_id (state_of a) o) k session pod r a (report_pod_gone r t a))
                      er
                      (report_pod_gone-IsHit r t a k session pod
                        (record { in_session = f; in_use = g; target = rw (er) e })))))
          ]
        ]
      ]
