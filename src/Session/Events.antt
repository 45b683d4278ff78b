-- ===== src/Session/Events.antt =====
-- What the browser, the player and the scene can do to the page, as events; a history is a list of
-- events. An event that names a socket, a task or a timer that is not there does nothing, and the
-- browser is not held to any order of a socket's events.
use hackz_megalo.Base.{ℕ, Bool, Option, none, some, List, [], ◌∷◌, Text, eq_ℕ, lookup}
use hackz_megalo.Types.{SlaveState, SessionMetrics}
use hackz_megalo.Store.{Stamp, set_xr_active, set_selected_pod, set_hovered_pod}
use hackz_megalo.Store.Pods.{Collation}
use hackz_megalo.Session.{
  App, Socket, ReadyState, Promise, pending, resolved, rejected, Task, opening, syncing, exiting,
  entering, refreshing, end_task, with_store,
}
use hackz_megalo.Session.Start.{
  Snapshot, start_session, start_failed, socket_connected, snapshot_arrived, finish_disconnect,
  disconnect_session,
}
use hackz_megalo.Session.Sockets.{put_socket, on_open, on_message, on_close, on_error}
use hackz_megalo.Session.Report.{
  Report, report_pod_gone, timer_fired, metrics_arrived, enter_xr_mode, xr_entered, xr_failed,
  probe_xr_support,
}

-- What a socket's events bring.
pub data Happening : Type 0 where
  opens errors : Happening
  receives : SlaveState → Stamp → Happening
  -- a message that is no JSON
  receives_garbage : Happening
  closes_with : Stamp → Happening
  -- `readyState` changes
  becomes : ReadyState → Happening

-- How what a task waits for ends. `thrown` is the message where it ends with an `Error`.
pub data Outcome : Type 0 where
  -- `openSocket` has settled
  settled : Outcome
  snapshot : Snapshot → Stamp → Outcome
  fetched : SessionMetrics → Outcome
  done : Stamp → Outcome
  failed : (thrown : Option Text) → Outcome

pub data Event : Type 0 where
  clicks_start clicks_enter_xr : Event
  clicks_disconnect : Text → (presenting : Bool) → Stamp → Event
  on_socket : ℕ → Happening → Event
  resumes : ℕ → Outcome → Event
  timer_fires : ℕ → Event
  reports : Report → Stamp → Event
  probes : Option (Option Bool) → Event
  xr_changes : Bool → Event
  selects hovers : Option Text → Event

module _ ⦃c : Collation⦄ where
  unfoldable pub happen : ℕ → Socket → Happening → App → App
  happen k s opens a = on_open k s a
  happen k s errors a = on_error k s a
  happen k s (receives pod stamp) a = on_message k s pod stamp a
  happen k s receives_garbage a = on_error k s a
  happen k s (closes_with stamp) a = on_close k s stamp a
  happen k s (becomes r) a = put_socket k (record s { ready = r }) a

  -- The task that waits for a socket goes on when the promise has settled.
  unfoldable pub resume_opening : ℕ → ℕ → ℕ → Promise → App → App
  resume_opening i attempt k pending a = a
  resume_opening i attempt k resolved a = socket_connected attempt k (end_task i a)
  resume_opening i attempt k (rejected m) a = start_failed attempt (some m) (end_task i a)

  unfoldable pub promise_of : ℕ → App → Promise
  unfolding lookup
  promise_of k a = elim (lookup k a.sockets) [ none ↦ pending | some s ↦ s.promise ]

  unfoldable pub resume : ℕ → Task → Outcome → App → App
  resume i (opening attempt k) settled a = resume_opening i attempt k (promise_of k a) a
  resume i (syncing attempt) (snapshot x stamp) a = snapshot_arrived attempt x stamp (end_task i a)
  resume i (syncing attempt) (failed thrown) a = start_failed attempt thrown (end_task i a)
  resume i (exiting message) (done stamp) a = finish_disconnect message stamp (end_task i a)
  resume i (exiting message) (failed thrown) a = end_task i a
  resume i entering (done stamp) a = xr_entered stamp (end_task i a)
  resume i entering (failed thrown) a = xr_failed thrown (end_task i a)
  resume i refreshing (fetched m) a = metrics_arrived m (end_task i a)
  resume i refreshing (failed thrown) a = end_task i a
  resume i t o a = a

  unfoldable pub handle : Event → App → App
  unfolding lookup
  handle clicks_start a = start_session a
  handle clicks_enter_xr a = enter_xr_mode a
  handle (clicks_disconnect message presenting stamp) a =
      disconnect_session message presenting stamp a
  handle (on_socket k h) a = elim (lookup k a.sockets) [ none ↦ a | some s ↦ happen k s h a ]
  handle (resumes i o) a = elim (lookup i a.tasks) [ none ↦ a | some t ↦ resume i t o a ]
  handle (timer_fires t) a = timer_fired t a
  handle (reports r stamp) a = report_pod_gone r stamp a
  handle (probes answer) a = probe_xr_support answer a
  handle (xr_changes active) a = with_store (set_xr_active active) a
  handle (selects id) a = with_store (set_selected_pod id) a
  handle (hovers id) a = with_store (set_hovered_pod id) a

  unfoldable pub history : List Event → App → App
  history [] a = a
  history (x ∷ xs) a = history xs (handle x a)
