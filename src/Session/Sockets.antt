-- ===== src/Session/Sockets.antt =====
-- apps/frontend-webxr/src/main.ts: the four handlers that `openSocket` gives to a socket, which know
-- the attempt that the socket was made for; the message listener of `connectSessionSocket`.
use hackz_megalo.Base.{
  ℕ, Bool, true, false, not, ◌||◌, none, some, text, if◌then◌else◌, nat_eq, eq_ℕ, eq_Option,
  option_beq, insert,
}
use hackz_megalo.Types.{SlaveState, system}
use hackz_megalo.Store.{Stamp, no_update, patch, log, reset_to_disconnected}
use hackz_megalo.Store.Pods.{Collation}
use hackz_megalo.Session.{
  App, Socket, Promise, pending, resolved, rejected, closes, scene_reset, scene_exit_xr, with_store,
  set_start_disabled, set_socket, do_effect, entry,
}
use hackz_megalo.Session.Report.{handle_pod_update}

abbrev pub put_socket : ℕ → Socket → App → App
put_socket k s a = record a { sockets = insert k s a.sockets }

-- A promise settles once.
abbrev pub settle : Promise → Promise → Promise
settle pending p = p
settle resolved p = resolved
settle (rejected m) p = rejected m

abbrev pub is_current : App → Socket → Bool
is_current a s = nat_eq s.attempt a.connection_attempt_id

abbrev pub is_in_use : App → ℕ → Bool
is_in_use a k = option_beq a.socket (some k)

unfoldable pub on_open : ℕ → Socket → App → App
unfolding with_store patch insert
on_open k s a =
    if not (is_current a s)
    then put_socket k
        (record s { promise = settle s.promise (rejected (text "stale socket attempt")) })
        (do_effect (closes k none) a)
    else with_store (patch (record no_update { connection_message = some (text "Connected") })) (
        set_socket (some k)
          (put_socket k (record s { opened = true; promise = settle s.promise resolved }) a))

unfoldable pub on_message : ⦃c : Collation⦄ → ℕ → Socket → SlaveState → Stamp → App → App
on_message k s pod stamp a =
    if not (is_current a s) || not (is_in_use a k) then a else handle_pod_update pod stamp a

unfoldable pub on_close : ℕ → Socket → Stamp → App → App
unfolding with_store log reset_to_disconnected insert
on_close k s stamp a =
    if not (is_current a s)
    then a
    else if not s.opened
    then put_socket k
        (record s {
          promise = settle s.promise (rejected (text "socket closed before session start"));
        })
        a
    else if not (is_in_use a k)
    then a
    else do_effect scene_exit_xr (
        do_effect scene_reset (
          set_start_disabled false (
            set_socket none (
              with_store (reset_to_disconnected (text "Session ended"))
                (with_store (log stamp (entry system (text "session closed"))) a)))))

unfoldable pub on_error : ℕ → Socket → App → App
unfolding with_store patch insert
on_error k s a =
    if not (is_current a s)
    then a
    else if not s.opened
    then put_socket k (record s { promise = settle s.promise (rejected (text "socket error")) }) a
    else if not (is_in_use a k)
    then a
    else with_store
        (patch (record no_update { connection_message = some (text "Connection issue") })) a
