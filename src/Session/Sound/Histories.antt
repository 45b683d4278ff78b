-- ===== src/Session/Sound/Histories.antt =====
-- The socket in use and the attempts of the sockets, through every event of the page.
use hackz_megalo.Base.{
  ℕ, ◌≡◌, refl, Bool, not, ◌||◌, List, some, arith, eq_ℕ, eq_Text, lookup, nat_eq, if_cases,
}
use hackz_megalo.Types.{SlaveState}
use hackz_megalo.Store.{Stamp}
use hackz_megalo.Store.Pods.{Collation}
use hackz_megalo.Session.{
  App, Socket, Task, Promise, pending, resolved, rejected, opening, syncing, exiting, entering,
  refreshing, new_app, with_store, clear_timer, end_task,
}
use hackz_megalo.Session.Start.{socket_connected, snapshot_arrived}
use hackz_megalo.Session.Sockets.{on_message, is_current, is_in_use}
use hackz_megalo.Session.Report.{
  Report, report_pod_gone, eliminate_pod, send_report, timer_fired, metrics_arrived, enter_xr_mode,
  xr_entered, xr_failed, probe_xr_support, handle_pod_update, schedule_metrics_refresh,
}
use hackz_megalo.Session.Events.{
  Event, Happening, Outcome, history, happen, resume, resume_opening, promise_of, opens, errors,
  receives, receives_garbage, closes_with, becomes, settled, snapshot, fetched, done, failed,
}
use hackz_megalo.Session.Induct.{IsKept, history_keeps, AnyEvent, All-AnyEvent}
use hackz_megalo.Session.Cases.{report_cases}
use hackz_megalo.Session.Sound.{
  IsSound, put-IsSound, still, opened-IsSound, closed-IsSound, failed_socket-IsSound,
  start_failed-IsSound, finished-IsSound, started-IsSound, disconnected-IsSound,
}

module _ ⦃c : Collation⦄ where
  updated-IsSound :
      (p : SlaveState) (t : Stamp) (a : App) → IsSound a → IsSound (handle_pod_update p t a)
  unfolding handle_pod_update schedule_metrics_refresh with_store clear_timer
  updated-IsSound p t a h = still h (ground arith)

  happened-IsSound :
      (k : ℕ) (s : Socket) (x : Happening) (a : App)
      → lookup k a.sockets ≡ some s
      → IsSound a
      → IsSound (happen k s x a)
  unfolding happen on_message
  happened-IsSound k s opens a found h = opened-IsSound k s a h found
  happened-IsSound k s errors a found h = failed_socket-IsSound k s a h found
  happened-IsSound k s (receives p t) a found h =
      if_cases IsSound (not (is_current a s) || not (is_in_use a k)) _ _ (λ _. h)
        λ _. updated-IsSound p t a h
  happened-IsSound k s receives_garbage a found h = failed_socket-IsSound k s a h found
  happened-IsSound k s (closes_with t) a found h = closed-IsSound k s t a h found
  happened-IsSound k s (becomes r) a found h = put-IsSound k s _ a h found refl (λ e. e)

  ended : (i : ℕ) (a : App) → IsSound a → IsSound (end_task i a)
  unfolding end_task
  ended i a h = still h (refl, refl, refl, refl)

  resume_opening-IsSound :
      (i n k : ℕ) (p : Promise) (a : App) → IsSound a → IsSound (resume_opening i n k p a)
  unfolding resume_opening socket_connected with_store
  resume_opening-IsSound i n k pending a h = h
  resume_opening-IsSound i n k resolved a h =
      if_cases IsSound (not (nat_eq n (end_task i a).connection_attempt_id)) _ _
        (λ _. still (ended i a h) (refl, refl, refl, refl))
        λ _. still (ended i a h) (refl, refl, refl, refl)
  resume_opening-IsSound i n k (rejected m) a h = start_failed-IsSound n (some m) _ (ended i a h)

  resumed-IsSound :
      (i : ℕ) (x : Task) (o : Outcome) (a : App) → IsSound a → IsSound (resume i x o a)
  unfolding resume snapshot_arrived xr_entered xr_failed metrics_arrived with_store
  resumed-IsSound i (opening n k) settled a h = resume_opening-IsSound i n k (promise_of k a) a h
  resumed-IsSound i (syncing n) (snapshot x t) a h =
      if_cases IsSound (not (nat_eq n (end_task i a).connection_attempt_id)) _ _ (λ _. ended i a h)
        λ _. still (ended i a h) (refl, refl, refl, refl)
  resumed-IsSound i (syncing n) (failed m) a h = start_failed-IsSound n m _ (ended i a h)
  resumed-IsSound i (exiting m) (done t) a h = finished-IsSound m t _ (ended i a h)
  resumed-IsSound i (exiting m) (failed t) a h = ended i a h
  resumed-IsSound i entering (done t) a h = still (ended i a h) (refl, refl, refl, refl)
  resumed-IsSound i entering (failed m) a h = still (ended i a h) (refl, refl, refl, refl)
  resumed-IsSound i refreshing (fetched m) a h = still (ended i a h) (refl, refl, refl, refl)
  resumed-IsSound i refreshing (failed m) a h = ended i a h
  resumed-IsSound i _ _ a h = h

  reported-IsSound :
      (r : Report) (t : Stamp) (a : App) → IsSound a → IsSound (report_pod_gone r t a)
  unfolding eliminate_pod send_report with_store schedule_metrics_refresh clear_timer
  reported-IsSound r t a h = report_cases IsSound r t a h λ k session pod f. still h (ground arith)

  kept : IsKept AnyEvent IsSound
  unfolding with_store enter_xr_mode probe_xr_support timer_fired
  kept = record {
    start = started-IsSound;
    enter_xr = λ a h. still h (ground arith);
    disconnect = λ m b t a q. disconnected-IsSound m b t a;
    happened = happened-IsSound;
    resumed = λ i x o a e. resumed-IsSound i x o a;
    fired = λ n a h. still h (ground arith);
    reported = reported-IsSound;
    probed = λ o a h. still h (ground arith);
    xr_changed = λ b a h. still h (refl, refl, refl, refl);
    selected = λ id a h. still h (refl, refl, refl, refl);
    hovered = λ id a h. still h (refl, refl, refl, refl);
  }

  -- After any history of the page the socket in use, if there is one, is a socket that has opened,
  -- and no socket belongs to an attempt that is still to come.
  pub history-IsSound : (xr : Bool) (xs : List Event) → IsSound (history xs (new_app xr))
  unfolding new_app lookup
  history-IsSound xr xs = history_keeps kept xs (new_app xr) (All-AnyEvent xs) (record {
    bounded = λ k s e. absurd (cc);
    fresh = λ k s e. absurd (cc);
    in_use = λ k e. absurd (cc);
  })
