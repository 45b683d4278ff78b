-- ===== src/Session/Button.antt =====
-- The start button of the page.
use hackz_megalo.Session.Induct.{IsKept, history_keeps, AnyEvent, All-AnyEvent}
use hackz_megalo.Base.{ℕ, ◌≡◌, refl, Bool, true, false, List, Option, none, some, arith, eq_ℕ, Text}
use hackz_megalo.Types.{SlaveState}
use hackz_megalo.Store.{Stamp, emit, patch}
use hackz_megalo.Store.Pods.{Collation}
use hackz_megalo.View.Page.{is_connecting}
use hackz_megalo.Session.{
  App, Socket, Task, opening, syncing, exiting, entering, refreshing, new_app, with_store,
  clear_timer, end_task, Promise, pending, resolved, rejected,
}
use hackz_megalo.Session.Start.{
  Snapshot, start_session, start_failed, socket_connected, snapshot_arrived, finish_disconnect,
  disconnect_session,
}
use hackz_megalo.Session.Sockets.{on_open, on_message, on_close, on_error}
use hackz_megalo.Session.Report.{
  Report, report_pod_gone, eliminate_pod, send_report, timer_fired, metrics_arrived, enter_xr_mode,
  xr_entered, xr_failed, probe_xr_support, handle_pod_update, schedule_metrics_refresh,
}
use hackz_megalo.Session.Events.{
  Event, Happening, Outcome, history, happen, resume, resume_opening, receives, closes_with,
  settled, snapshot, fetched, done, failed, promise_of,
}

-- The button is disabled exactly while a session is being started.
abbrev pub HasTrueButton : App → Type 0
HasTrueButton a = a.start_disabled ≡ is_connecting a.store.state.phase

start_session-HasTrueButton : (a : App) → HasTrueButton a → HasTrueButton (start_session a)
unfolding start_session patch emit
start_session-HasTrueButton a h = ground arith

start_failed-HasTrueButton :
    (n : ℕ) (m : Option Text) (a : App) → HasTrueButton a → HasTrueButton (start_failed n m a)
unfolding start_failed patch emit
start_failed-HasTrueButton n m a h = ground arith

socket_connected-HasTrueButton :
    (n k : ℕ) (a : App) → HasTrueButton a → HasTrueButton (socket_connected n k a)
unfolding socket_connected
socket_connected-HasTrueButton n k a h = ground arith

snapshot_arrived-HasTrueButton :
    (n : ℕ) (x : Snapshot) (t : Stamp) (a : App)
    → HasTrueButton a
    → HasTrueButton (snapshot_arrived n x t a)
unfolding snapshot_arrived emit
snapshot_arrived-HasTrueButton n x t a h = ground arith

finish_disconnect-HasTrueButton :
    (m : Text) (t : Stamp) (a : App) → HasTrueButton (finish_disconnect m t a)
unfolding finish_disconnect emit
finish_disconnect-HasTrueButton m t a = refl

on_close-HasTrueButton :
    (k : ℕ) (s : Socket) (t : Stamp) (a : App) → HasTrueButton a → HasTrueButton (on_close k s t a)
unfolding on_close emit
on_close-HasTrueButton k s t a h = ground arith

module _ ⦃c : Collation⦄ where
  handle_pod_update-HasTrueButton :
      (p : SlaveState) (t : Stamp) (a : App) → HasTrueButton (handle_pod_update p t a)
  unfolding handle_pod_update with_store schedule_metrics_refresh clear_timer
  handle_pod_update-HasTrueButton p t a = ground arith

  happen-HasTrueButton :
      (k : ℕ) (s : Socket) (x : Happening) (a : App)
      → HasTrueButton a
      → HasTrueButton (happen k s x a)
  unfolding happen on_open on_error on_message
  happen-HasTrueButton k s (closes_with t) a h = on_close-HasTrueButton k s t a h
  happen-HasTrueButton k s (receives p t) a h =
      ground (arith, handle_pod_update-HasTrueButton p t a)
  happen-HasTrueButton k s _ a h = ground arith

  resume_opening-HasTrueButton :
      (i n k : ℕ) (p : Promise) (a : App)
      → HasTrueButton a
      → HasTrueButton (resume_opening i n k p a)
  unfolding resume_opening end_task
  resume_opening-HasTrueButton i n k pending a h = h
  resume_opening-HasTrueButton i n k resolved a h =
      socket_connected-HasTrueButton n k (end_task i a) h
  resume_opening-HasTrueButton i n k (rejected m) a h =
      start_failed-HasTrueButton n (some m) (end_task i a) h

  resume-HasTrueButton :
      (i : ℕ) (x : Task) (o : Outcome) (a : App) → HasTrueButton a → HasTrueButton (resume i x o a)
  unfolding resume end_task xr_entered xr_failed metrics_arrived
  resume-HasTrueButton i (opening n k) settled a h =
      resume_opening-HasTrueButton i n k (promise_of k a) a h
  resume-HasTrueButton i (syncing n) (snapshot x t) a h =
      snapshot_arrived-HasTrueButton n x t (end_task i a) h
  resume-HasTrueButton i (syncing n) (failed m) a h =
      start_failed-HasTrueButton n m (end_task i a) h
  resume-HasTrueButton i (exiting m) (done t) a h =
      finish_disconnect-HasTrueButton m t (end_task i a)
  resume-HasTrueButton i entering (done t) a h = refl
  resume-HasTrueButton i entering (failed m) a h = refl
  resume-HasTrueButton i refreshing (fetched m) a h = refl
  resume-HasTrueButton i _ _ a h = h

  disconnect-HasTrueButton :
      (m : Text) (b : Bool) (t : Stamp) (a : App)
      → HasTrueButton a
      → HasTrueButton (disconnect_session m b t a)
  unfolding disconnect_session clear_timer
  disconnect-HasTrueButton m true t a h = h
  disconnect-HasTrueButton m false t a h = finish_disconnect-HasTrueButton m t _

  probed-HasTrueButton : (o : Option (Option Bool)) (a : App) → HasTrueButton (probe_xr_support o a)
  unfolding probe_xr_support with_store
  probed-HasTrueButton none a = refl
  probed-HasTrueButton (some none) a = refl
  probed-HasTrueButton (some (some b)) a = refl

  report_pod_gone-HasTrueButton :
      (r : Report) (t : Stamp) (a : App) → HasTrueButton a → HasTrueButton (report_pod_gone r t a)
  unfolding report_pod_gone eliminate_pod send_report with_store
  report_pod_gone-HasTrueButton r t a h = ground arith

  kept : IsKept AnyEvent HasTrueButton
  unfolding with_store enter_xr_mode timer_fired probe_xr_support disconnect_session clear_timer
  kept = record {
    start = start_session-HasTrueButton;
    enter_xr = λ a h. ground arith;
    disconnect = λ m b t a q. disconnect-HasTrueButton m b t a;
    happened = λ k s x a e. happen-HasTrueButton k s x a;
    resumed = λ i x o a e. resume-HasTrueButton i x o a;
    fired = λ n a h. ground arith;
    reported = report_pod_gone-HasTrueButton;
    probed = λ o a h. probed-HasTrueButton o a;
    xr_changed = λ b a h. refl;
    selected = λ id a h. refl;
    hovered = λ id a h. refl;
  }

  -- After any history of the page the start button is disabled exactly while a session is being
  -- started.
  pub history-HasTrueButton :
      (xr : Bool) (xs : List Event) → HasTrueButton (history xs (new_app xr))
  unfolding new_app
  history-HasTrueButton xr xs = history_keeps kept xs (new_app xr) (All-AnyEvent xs) refl
