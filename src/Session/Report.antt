-- ===== src/Session/Report.antt =====
-- apps/frontend-webxr/src/main.ts: what a pod's news and the player's hits do: `handlePodUpdate`,
-- `scheduleMetricsRefresh`, `reportPodGone`; `enterXRMode` and `probeXRSupport`; with
-- `sendPodStateUpdate` of api.ts.
use hackz_megalo.Base.{
  ℕ, suc, Bool, true, false, not, Option, none, some, [], ◌∷◌, ◌++◌, Text, text, if◌then◌else◌,
  nat_eq, eq_ℕ, eq_Text, lookup, or_else, or_option, truthy, includes,
}
use hackz_megalo.Types.{
  SlaveState, SessionMetrics, SessionMeta, DeathReason, system, action, state, gone, is_gone,
  same_status,
}
use hackz_megalo.Store.{
  GameState, Stamp, no_update, patch, log, set_metrics, set_action_in_flight, set_xr_support,
  mark_xr_pod_eliminated,
}
use hackz_megalo.Store.Pods.{Collation, upsert_pod}
use hackz_megalo.View.{humanize_status}
use hackz_megalo.Session.{
  App, sends, with_store, state_of, do_effect, add_task, clear_timer, entry, refreshing, entering,
  remove_timer,
}
use hackz_megalo.Session.Start.{is_open_socket}

unfoldable pub schedule_metrics_refresh : App → App
unfolding clear_timer
schedule_metrics_refresh a =
    let b = if nat_eq a.metrics_refresh_timer 0 then a else clear_timer a in
    record b {
      metrics_refresh_timer = b.next_timer;
      timers = b.next_timer ∷ b.timers;
      next_timer = suc b.next_timer;
    }

-- The timer's function, up to its wait for `fetchSessionMetrics`.
unfoldable pub timer_fired : ℕ → App → App
unfolding includes remove_timer
timer_fired t a =
    if includes a.timers t
    then add_task refreshing (record a { timers = remove_timer t a.timers })
    else a

unfoldable pub metrics_arrived : SessionMetrics → App → App
unfolding with_store set_metrics
metrics_arrived m = with_store (set_metrics m)

-- `!previous || previous.status !== pod.status`
abbrev pub is_news : Option SlaveState → SlaveState → Bool
is_news none pod = true
is_news (some previous) pod = not (same_status previous.status pod.status)

abbrev pub log_news : Option SlaveState → SlaveState → Stamp → App → App
log_news previous pod stamp a =
    if is_news previous pod
    then with_store
        (log stamp (entry state (pod.k8s_pod_name ++ text " -> " ++ humanize_status pod.status))) a
    else a

unfoldable pub handle_pod_update : ⦃c : Collation⦄ → SlaveState → Stamp → App → App
handle_pod_update pod stamp a = schedule_metrics_refresh (
    log_news (lookup pod.slave_id (state_of a).pods_by_id) pod stamp
      (with_store (upsert_pod pod) a))

pub record Report : Type 0 where
  pub death_reason : DeathReason
  pub explicit_slave_id : Option Text
  pub message_suffix : Text
  -- `new Date().toISOString()`
  pub observed_at : Text

abbrev pub gone_record : SlaveState → Report → SlaveState
gone_record pod r = record pod {
  status = gone;
  death_reason = r.death_reason;
  observed_at = r.observed_at;
  source = text "frontend-webxr";
}

-- The `try`, `catch` and `finally` of `reportPodGone`: `sendPodStateUpdate` throws unless the socket
-- is open.
unfoldable pub send_report : ℕ → SessionMeta → SlaveState → Report → Stamp → App → App
unfolding with_store patch log schedule_metrics_refresh set_action_in_flight is_open_socket
send_report k session pod r stamp a = with_store (set_action_in_flight false) (
    if is_open_socket a k
    then schedule_metrics_refresh (
        with_store (log stamp (entry action (pod.k8s_pod_name ++ text " " ++ r.message_suffix)))
          (do_effect (sends k session.session_id pod.slave_id r.death_reason) a))
    else with_store
        (patch (record no_update { error_message = some (some (text "WebSocket が開いていません。")) })) a)

-- `explicitSlaveId ?? state.selectedPodId`, if it is truthy and names a pod that is not gone.
unfoldable pub report_target : GameState → Option Text → Option SlaveState
unfolding lookup
report_target g explicit = elim (or_option explicit g.selected_pod_id) [
  | none ↦ none
  | some id ↦ if truthy id then lookup id g.pods_by_id else none
]

abbrev pub alive : Option SlaveState → Option SlaveState
alive none = none
alive (some pod) = if is_gone pod.status then none else some pod

-- The id that the pod was found by.
abbrev pub target_id : GameState → Option Text → Text
target_id g explicit = or_else (or_option explicit g.selected_pod_id) []

-- `reportPodGone` past its guards.
unfoldable pub eliminate_pod :
    ⦃c : Collation⦄ → Text → ℕ → SessionMeta → SlaveState → Report → Stamp → App → App
eliminate_pod id k session pod r stamp a = send_report k session pod r stamp (
    with_store (upsert_pod (gone_record pod r))
      (with_store (mark_xr_pod_eliminated id) (with_store (set_action_in_flight true) a)))

unfoldable pub report_pod_gone : ⦃c : Collation⦄ → Report → Stamp → App → App
report_pod_gone r stamp a = elim (state_of a).session [
  | none ↦ a
  | some session ↦ elim a.socket [
    | none ↦ a
    | some k ↦ elim (alive (report_target (state_of a) r.explicit_slave_id)) [
      | none ↦ a
      | some pod ↦
          eliminate_pod (target_id (state_of a) r.explicit_slave_id) k session pod r stamp a
    ]
  ]
]

unfoldable pub enter_xr_mode : App → App
unfolding with_store patch
enter_xr_mode a =
    if not (state_of a).xr_supported
    then with_store
        (patch (record no_update {
          error_message = some (some (text "このブラウザでは immersive WebXR を開始できません。"));
        }))
        a
    else add_task entering a

-- After `await scene.enterXR()`.
unfoldable pub xr_entered : Stamp → App → App
unfolding with_store log
xr_entered stamp = with_store (log stamp (entry system (text "webxr active")))

unfoldable pub xr_failed : Option Text → App → App
unfolding with_store patch
xr_failed thrown = with_store (
    patch (record no_update {
      error_message = some (some (or_else thrown (text "WebXR の開始に失敗しました。")));
    }))

-- `probeXRSupport`: no `navigator.xr`, its answer, or its failure.
unfoldable pub probe_xr_support : Option (Option Bool) → App → App
unfolding with_store set_xr_support
probe_xr_support none = with_store (set_xr_support false)
probe_xr_support (some none) = with_store (set_xr_support false)
probe_xr_support (some (some supported)) = with_store (set_xr_support supported)
