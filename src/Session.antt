-- ===== src/Session.antt =====
-- apps/frontend-webxr/src/main.ts: the session of the page. A socket is known by the number of its
-- creation. What the page does at once after an `await` is a task that an event resumes; a promise
-- of `openSocket` is a field of its socket. What the scene and the browser are told is `effects`.
pub mod Start
pub mod Sockets
pub mod Report
pub mod Events
pub mod Induct
pub mod Cases
pub mod Button
pub mod Timers
pub mod Sound
pub mod Stale
pub mod Hits
pub mod Ends
pub mod Races
pub mod Tests
use hackz_megalo.Base.{
  ℕ, suc, ◌+◌, Bool, true, false, Option, none, some, List, [], ◌∷◌, ◌++◌, Text, text, eq_ℕ, lookup,
  insert, remove, if◌then◌else◌, nat_eq, keep_if, without,
}
use hackz_megalo.Types.{DeathReason, ActivityKind}
use hackz_megalo.Store.{GameState, GameStore, new_store, subscribe, LogEntry, Stamp}
use hackz_megalo.View.Page.{is_connecting}

-- `socket.readyState`, which the browser sets.
pub data ReadyState : Type 0 where
  socket_connecting socket_open socket_closing socket_closed : ReadyState

-- The promise that `openSocket` returns.
pub data Promise : Type 0 where
  pending resolved : Promise
  rejected : Text → Promise

pub record Socket : Type 0 where
  pub attempt : ℕ
  pub opened : Bool
  pub promise : Promise
  pub ready : ReadyState

-- Where an asynchronous function of the page waits.
pub data Task : Type 0 where
  -- `startSession`, for `openSocket(attemptId)`
  opening : (attempt socket : ℕ) → Task
  -- `startSession`, for `waitForSessionSnapshot()`
  syncing : (attempt : ℕ) → Task
  -- `disconnectSession`, for `scene.exitXR()`
  exiting : Text → Task
  -- `enterXRMode`, for `scene.enterXR()`
  entering : Task
  -- the timer of `scheduleMetricsRefresh`, for `fetchSessionMetrics()`
  refreshing : Task

pub data Effect : Type 0 where
  scene_reset scene_exit_xr : Effect
  -- `socket.close(code, reason)`
  closes : ℕ → Option (ℕ × Text) → Effect
  -- `socket.send(JSON.stringify({ type: "pod_state_update", ... }))`
  sends : (socket : ℕ) (session_id slave_id : Text) → DeathReason → Effect

pub record App : Type 0 where
  pub store : GameStore
  pub start_disabled : Bool
  pub socket : Option ℕ
  pub metrics_refresh_timer : ℕ
  pub connection_attempt_id : ℕ
  pub sockets : List (ℕ × Socket)
  pub next_socket : ℕ
  pub tasks : List (ℕ × Task)
  pub next_task : ℕ
  pub timers : List ℕ
  pub next_timer : ℕ
  pub effects : List Effect

-- The page when its script has run: the store has one listener, which renders. Timers count from 1.
unfoldable pub new_app : Bool → App
unfolding new_store subscribe
new_app xr = record {
  store = subscribe 0 (new_store xr);
  start_disabled = false;
  socket = none;
  metrics_refresh_timer = 0;
  connection_attempt_id = 0;
  sockets = [];
  next_socket = 0;
  tasks = [];
  next_task = 0;
  timers = [];
  next_timer = 1;
  effects = [];
}

-- An operation of the store, after which the listener has set the button. It is set here also where the
-- operation emits nothing, as for a pod that is marked already; the phase is then as it was before.
unfoldable pub with_store : (GameStore → GameStore) → App → App
with_store f a =
    let s = f a.store in record a { store = s; start_disabled = is_connecting s.state.phase }

abbrev pub state_of : App → GameState
state_of a = a.store.state

abbrev pub set_start_disabled : Bool → App → App
set_start_disabled b a = record a { start_disabled = b }

abbrev pub set_socket : Option ℕ → App → App
set_socket k a = record a { socket = k }

abbrev pub do_effect : Effect → App → App
do_effect e a = record a { effects = a.effects ++ e ∷ [] }

abbrev pub add_task : Task → App → App
add_task t a = record a { tasks = (a.next_task, t) ∷ a.tasks; next_task = suc a.next_task }

unfoldable pub end_task : ℕ → App → App
unfolding remove
end_task i a = record a { tasks = remove i a.tasks }

unfoldable pub remove_timer : ℕ → List ℕ → List ℕ
unfolding keep_if
remove_timer t = without t

-- `window.clearTimeout(metricsRefreshTimer)`; no timer is numbered 0.
unfoldable pub clear_timer : App → App
unfolding remove_timer
clear_timer a = record a { timers = remove_timer a.metrics_refresh_timer a.timers }

abbrev pub entry : ActivityKind → Text → LogEntry
entry kind message = record { kind = kind; message = message }
