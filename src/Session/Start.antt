-- ===== src/Session/Start.antt =====
-- apps/frontend-webxr/src/main.ts: `startSession` with `openSocket` up to its first wait, and its two
-- continuations; `disconnectSession`; `closeSessionSocket` of api.ts.
use hackz_megalo.Base.{
  ℕ, suc, Bool, true, false, not, Option, none, some, List, [], ◌++◌, Text, text, if◌then◌else◌,
  nat_eq, eq_ℕ, lookup, insert, or_else, take,
}
use hackz_megalo.Types.{SessionMeta, SessionMetrics, SlaveState, system}
use hackz_megalo.Store.{
  Stamp, Update, no_update, patch, log, reset_to_disconnected, connecting, error,
}
use hackz_megalo.Store.Pods.{hydrate_snapshot}
use hackz_megalo.View.Page.{is_connecting}
use hackz_megalo.Session.{
  App, Socket, ReadyState, socket_open, socket_connecting, pending, opening, syncing, exiting,
  closes, scene_reset, with_store, state_of, set_start_disabled, set_socket, do_effect, add_task,
  clear_timer, entry,
}

abbrev pub is_open : ReadyState → Bool
is_open socket_open = true
is_open _ = false

-- `closeSessionSocket(socket, explicit)`
abbrev pub close_session_socket : ℕ → Bool → App → App
close_session_socket k explicit =
    do_effect (closes k (if explicit then some (4000, text "session_end") else none))

-- `if (socket) { const closingSocket = socket; socket = null; closeSessionSocket(closingSocket, explicit); }`
unfoldable pub drop_socket : Bool → App → App
drop_socket explicit a = elim a.socket [
  | none ↦ a
  | some k ↦ close_session_socket k explicit (set_socket none a)
]

abbrev pub starting_update : Update
starting_update = record no_update {
  phase = some connecting;
  session = some none;
  metrics = some none;
  pods_by_id = some [];
  selected_pod_id = some none;
  hovered_pod_id = some none;
  error_message = some none;
  action_in_flight = some false;
  xr_active = some false;
  xr_eliminated_pod_ids = some [];
  connection_message = some (text "Starting session...");
}

unfoldable pub prepare_session_initialization : App → App
unfolding clear_timer with_store patch
prepare_session_initialization a =
    with_store (patch starting_update)
      (do_effect scene_reset (record (clear_timer a) { metrics_refresh_timer = 0 }))

abbrev pub new_socket : ℕ → Socket
new_socket attempt = record {
  attempt = attempt;
  opened = false;
  promise = pending;
  ready = socket_connecting;
}

-- `connectSessionSocket` makes the socket; its promise is pending.
unfoldable pub open_socket : ℕ → App → App
open_socket attempt a = add_task (opening attempt a.next_socket) (record a {
  sockets = insert a.next_socket (new_socket attempt) a.sockets;
  next_socket = suc a.next_socket;
})

-- `socket.readyState === WebSocket.OPEN`
unfoldable pub is_open_socket : App → ℕ → Bool
unfolding lookup
is_open_socket a k = elim (lookup k a.sockets) [ none ↦ false | some s ↦ is_open s.ready ]

-- `socket && socket.readyState === WebSocket.OPEN`
unfoldable pub has_open_socket : App → Bool
unfolding is_open_socket
has_open_socket a = elim a.socket [ none ↦ false | some k ↦ is_open_socket a k ]

unfoldable pub start_session : App → App
unfolding prepare_session_initialization open_socket has_open_socket
start_session a =
    if is_connecting (state_of a).phase
    then a
    else if has_open_socket a
    then a
    else let attempt = suc a.connection_attempt_id in
      open_socket attempt (
        set_start_disabled true
          (prepare_session_initialization (record a { connection_attempt_id = attempt })))

-- The `catch` and `finally` of `startSession`. `thrown` is the message where an `Error` was thrown.
unfoldable pub start_failed : ℕ → Option Text → App → App
unfolding drop_socket with_store patch
start_failed attempt thrown a =
    if not (nat_eq attempt a.connection_attempt_id)
    then a
    else set_start_disabled false (
        with_store
          (patch (record no_update {
            phase = some error;
            error_message = some (some (text "セッション開始に失敗しました。"));
            connection_message = some (or_else thrown (text "セッションを開始できませんでした。"));
          }))
          (drop_socket false a))

-- After `await openSocket(attemptId)`.
unfoldable pub socket_connected : ℕ → ℕ → App → App
unfolding with_store patch
socket_connected attempt k a =
    if not (nat_eq attempt a.connection_attempt_id)
    then do_effect (closes k none) a
    else add_task (syncing attempt) (
        with_store (patch (record no_update { connection_message = some (text "Initial sync...") }))
          a)

pub record Snapshot : Type 0 where
  pub session : SessionMeta
  pub metrics : SessionMetrics
  pub states : List SlaveState

-- After `await waitForSessionSnapshot()`.
unfoldable pub snapshot_arrived : ℕ → Snapshot → Stamp → App → App
unfolding with_store hydrate_snapshot log take
snapshot_arrived attempt snapshot stamp a =
    if not (nat_eq attempt a.connection_attempt_id)
    then a
    else set_start_disabled false (
        with_store
          (log stamp (
            entry system
              (text "session " ++ take 8 snapshot.session.session_id ++ text " started")))
          (with_store (hydrate_snapshot snapshot.session snapshot.metrics snapshot.states) a))

-- `disconnectSession` after its wait for the scene.
unfoldable pub finish_disconnect : Text → Stamp → App → App
unfolding drop_socket with_store log reset_to_disconnected
finish_disconnect message stamp a = set_start_disabled false (
    with_store (reset_to_disconnected (text "セッション開始待機中"))
      (with_store (log stamp (entry system message)) (drop_socket true (do_effect scene_reset a))))

unfoldable pub disconnect_session : Text → (presenting : Bool) → Stamp → App → App
unfolding clear_timer
disconnect_session message presenting stamp a =
    let left = record (clear_timer a) {
      metrics_refresh_timer = 0;
      connection_attempt_id = suc a.connection_attempt_id;
    } in
    if presenting then add_task (exiting message) left else finish_disconnect message stamp left
