-- ===== src/Session/Timers.antt =====
-- The refresh of the metrics is held back: however many pods report, one timer is pending at most.
use hackz_megalo.Session.Cases.{report_cases}
use hackz_megalo.Base.{
  ℕ, ◌<◌, ◌≡◌, ◌⊎◌, inl, inr, refl, Bool, false, List, [], ◌∷◌, Option, some, arith, eq_ℕ, Text,
  Bool-cases,
}
use hackz_megalo.Types.{SlaveState, SessionMeta}
use hackz_megalo.Store.{Stamp}
use hackz_megalo.Store.Pods.{Collation}
use hackz_megalo.Session.{
  App, Socket, Task, Promise, pending, resolved, rejected, opening, syncing, exiting, new_app,
  with_store, clear_timer, remove_timer, end_task,
}
use hackz_megalo.Session.Start.{
  start_session, start_failed, socket_connected, snapshot_arrived, finish_disconnect,
  disconnect_session, drop_socket, is_open_socket,
}
use hackz_megalo.Session.Sockets.{on_open, on_message, on_close, on_error}
use hackz_megalo.Session.Report.{
  Report, report_pod_gone, eliminate_pod, send_report, timer_fired, metrics_arrived, enter_xr_mode,
  xr_entered, xr_failed, probe_xr_support, handle_pod_update, schedule_metrics_refresh,
}
use hackz_megalo.Session.Events.{
  Event, Happening, Outcome, history, happen, resume, resume_opening, promise_of, receives, settled,
  done, failed,
}
use hackz_megalo.Session.Induct.{IsKept, history_keeps, AnyEvent, All-AnyEvent}

-- The pending timers are none, or the one that the page remembers.
pub record IsDebounced (a : App) : Type 0 where
  pub one :
      (a.timers ≡ []) ⊎ ((a.timers ≡ a.metrics_refresh_timer ∷ []) × (0 < a.metrics_refresh_timer))
  pub next : 0 < a.next_timer

clear_timer-timers : (a : App) → IsDebounced a → (clear_timer a).timers ≡ []
unfolding clear_timer remove_timer
clear_timer-timers a d = ground arith

schedule-IsDebounced : (a : App) → IsDebounced a → IsDebounced (schedule_metrics_refresh a)
unfolding schedule_metrics_refresh clear_timer remove_timer
schedule-IsDebounced a d = ground arith

-- What leaves the timers alone.
again :
    {a b : App}
    → IsDebounced a
    → (b.timers ≡ a.timers)
      × (b.metrics_refresh_timer ≡ a.metrics_refresh_timer)
      × (b.next_timer ≡ a.next_timer)
    → IsDebounced b
again d e = ground arith

fired-IsDebounced : (n : ℕ) (a : App) → IsDebounced a → IsDebounced (timer_fired n a)
unfolding timer_fired
fired-IsDebounced n a d = ground arith

start-IsDebounced : (a : App) → IsDebounced a → IsDebounced (start_session a)
unfolding start_session with_store clear_timer
start-IsDebounced a d = ground arith

drop-IsDebounced : (b : Bool) (a : App) → IsDebounced a → IsDebounced (drop_socket b a)
unfolding drop_socket
drop-IsDebounced b a d = ground arith

failed-IsDebounced :
    (n : ℕ) (m : Option Text) (a : App) → IsDebounced a → IsDebounced (start_failed n m a)
unfolding start_failed with_store
failed-IsDebounced n m a d = ground (arith, drop-IsDebounced false a d)

disconnect-IsDebounced :
    (m : Text) (b : Bool) (t : Stamp) (a : App)
    → IsDebounced a
    → IsDebounced (disconnect_session m b t a)
unfolding disconnect_session finish_disconnect with_store clear_timer drop_socket remove_timer
disconnect-IsDebounced m b t a d = ground arith

module _ ⦃c : Collation⦄ where
  update-IsDebounced :
      (p : SlaveState) (t : Stamp) (a : App) → IsDebounced a → IsDebounced (handle_pod_update p t a)
  unfolding handle_pod_update with_store
  update-IsDebounced p t a d = schedule-IsDebounced _ (ground arith)

  happen-IsDebounced :
      (k : ℕ) (s : Socket) (x : Happening) (a : App) → IsDebounced a → IsDebounced (happen k s x a)
  unfolding happen on_open on_error on_message on_close with_store
  happen-IsDebounced k s (receives p t) a d = ground (arith, update-IsDebounced p t a d)
  happen-IsDebounced k s _ a d = ground arith

  resume_opening-IsDebounced :
      (i n k : ℕ) (p : Promise) (a : App) → IsDebounced a → IsDebounced (resume_opening i n k p a)
  unfolding resume_opening end_task socket_connected with_store
  resume_opening-IsDebounced i n k pending a d = d
  resume_opening-IsDebounced i n k resolved a d = ground arith
  resume_opening-IsDebounced i n k (rejected m) a d =
      failed-IsDebounced n (some m) (end_task i a) (ground arith)

  resume-IsDebounced :
      (i : ℕ) (x : Task) (o : Outcome) (a : App) → IsDebounced a → IsDebounced (resume i x o a)
  unfolding resume end_task xr_entered xr_failed metrics_arrived with_store snapshot_arrived
      finish_disconnect drop_socket
  resume-IsDebounced i (opening n k) settled a d =
      resume_opening-IsDebounced i n k (promise_of k a) a d
  resume-IsDebounced i (syncing n) (failed m) a d =
      failed-IsDebounced n m (end_task i a) (ground arith)
  resume-IsDebounced i (exiting m) (done t) a d = ground arith
  resume-IsDebounced i _ _ a d = ground arith

  sent-IsDebounced :
      (k : ℕ) (session : SessionMeta) (pod : SlaveState) (r : Report) (t : Stamp) (a : App)
      → IsDebounced a
      → IsDebounced (send_report k session pod r t a)
  unfolding send_report with_store
  sent-IsDebounced k session pod r t a d = elim (Bool-cases (is_open_socket a k)) [
    | inl up ↦
        rw up (again (schedule-IsDebounced _ (again d (refl, refl, refl))) (refl, refl, refl))
    | inr down ↦ rw down (again d (refl, refl, refl))
  ]

  reported-IsDebounced :
      (r : Report) (t : Stamp) (a : App) → IsDebounced a → IsDebounced (report_pod_gone r t a)
  unfolding eliminate_pod with_store
  reported-IsDebounced r t a d =
      report_cases IsDebounced r t a d
        λ k session pod f. sent-IsDebounced k session pod r t _ (again d (refl, refl, refl))

  kept : IsKept AnyEvent IsDebounced
  unfolding with_store enter_xr_mode probe_xr_support
  kept = record {
    start = start-IsDebounced;
    enter_xr = λ a d. ground arith;
    disconnect = λ m b t a q. disconnect-IsDebounced m b t a;
    happened = λ k s x a e. happen-IsDebounced k s x a;
    resumed = λ i x o a e. resume-IsDebounced i x o a;
    fired = fired-IsDebounced;
    reported = reported-IsDebounced;
    probed = λ o a d. ground arith;
    xr_changed = λ b a d. ground arith;
    selected = λ id a d. ground arith;
    hovered = λ id a d. ground arith;
  }

  -- After any history of the page at most one refresh timer is pending, and it is the one that the
  -- page remembers, which a disconnect or the next pod's report clears.
  pub history-IsDebounced : (xr : Bool) (xs : List Event) → IsDebounced (history xs (new_app xr))
  unfolding new_app
  history-IsDebounced xr xs =
      history_keeps kept xs (new_app xr) (All-AnyEvent xs)
        (record { one = inl refl; next = omega arith })
