-- ===== src/Session/Tests.antt =====
-- The session's theorems at concrete inputs: histories of a page.
use hackz_megalo.Base.{
  ◌≡◌, ◌≢◌, refl, true, false, none, some, List, [], ◌∷◌, ◌++◌, text, text_eq, arith, lookup,
  insert, eq_ℕ,
}
use hackz_megalo.Types.{user_action}
use hackz_megalo.Store.{playing, emit, new_store, subscribe, patch, log}
use hackz_megalo.Store.Pods.{hydrate_snapshot, from_entries}
use hackz_megalo.Store.Invariant.{IsKeyed}
use hackz_megalo.Store.Tests.{by_first, a_session, some_metrics, alpha, beta, a_stamp}
use hackz_megalo.View.Page.{is_connecting}
use hackz_megalo.Session.{
  App, Socket, new_app, state_of, syncing, refreshing, with_store, resolved, socket_open, end_task,
}
use hackz_megalo.Session.Start.{
  Snapshot, start_session, has_open_socket, open_socket, prepare_session_initialization,
  socket_connected, snapshot_arrived, is_open_socket,
}
use hackz_megalo.Session.Sockets.{on_open}
use hackz_megalo.Session.Report.{Report, report_pod_gone, target_id, report_target}
use hackz_megalo.Session.Events.{
  Event, handle, history, clicks_start, clicks_disconnect, on_socket, resumes, opens, closes_with,
  becomes, settled, snapshot, receives, happen, resume, resume_opening, promise_of,
}
use hackz_megalo.Session.Cases.{IsFound}
use hackz_megalo.Session.Button.{HasTrueButton, history-HasTrueButton}
use hackz_megalo.Session.Timers.{IsDebounced, history-IsDebounced}
use hackz_megalo.Session.Sound.{IsSound}
use hackz_megalo.Session.Sound.Histories.{history-IsSound}
use hackz_megalo.Session.Stale.{IsUntouched, stale_socket, stale_task, disconnect_silences}
use hackz_megalo.Session.Hits.{IsHit, report_pod_gone-IsHit, report_pod_gone_twice}
use hackz_megalo.Session.Races.{closed_then_synced, close_before_snapshot}

abbrev a_snapshot : Snapshot
a_snapshot = record { session = a_session; metrics = some_metrics; states = beta ∷ alpha ∷ [] }

-- The player starts, and the socket opens.
abbrev connecting_events : List Event
connecting_events =
    clicks_start ∷ on_socket 0 (becomes socket_open) ∷ on_socket 0 opens ∷ resumes 0 settled ∷ []

abbrev playing_events : List Event
playing_events = connecting_events ++ resumes 1 (snapshot a_snapshot a_stamp) ∷ []

abbrev events : List Event
events = playing_events ++ on_socket 0 (receives alpha a_stamp) ∷ []

history-HasTrueButton_example : HasTrueButton (history events (new_app false))
history-HasTrueButton_example = history-HasTrueButton false events

history-IsDebounced_example : IsDebounced (history events (new_app false))
history-IsDebounced_example = history-IsDebounced false events

history-IsSound_example : IsSound (history events (new_app false))
history-IsSound_example = history-IsSound false events

-- A socket that opened for the first attempt, when the second is current.
abbrev old_socket : Socket
old_socket = record { attempt = 1; opened = true; promise = resolved; ready = socket_open }

abbrev second_attempt : App
second_attempt = record (new_app false) {
  connection_attempt_id = 2;
  sockets = (0, old_socket) ∷ [];
  tasks = (0, syncing 1) ∷ [];
}

one_is_not_two : old_socket.attempt ≢ second_attempt.connection_attempt_id
one_is_not_two e = absurd (omega arith)

old_is_known : lookup 0 second_attempt.sockets ≡ some old_socket
unfolding lookup
old_is_known = refl

old_waits : lookup 0 second_attempt.tasks ≡ some (syncing 1)
unfolding lookup
old_waits = refl

stale_socket_example :
    IsUntouched second_attempt (handle (on_socket 0 (closes_with a_stamp)) second_attempt)
stale_socket_example =
    stale_socket 0 old_socket (closes_with a_stamp) second_attempt old_is_known one_is_not_two

stale_task_example :
    IsUntouched second_attempt (handle (resumes 0 (snapshot a_snapshot a_stamp)) second_attempt)
stale_task_example =
    stale_task 0 1 (syncing 1) (snapshot a_snapshot a_stamp) second_attempt old_waits refl
      one_is_not_two

abbrev left : App
left =
    handle (clicks_disconnect (text "manual disconnect") true a_stamp)
      (history events (new_app false))

disconnect_silences_example : IsUntouched left (handle (on_socket 0 (closes_with a_stamp)) left)
disconnect_silences_example =
    disconnect_silences false events (text "manual disconnect") true a_stamp 0 (closes_with a_stamp)

abbrev in_play : App
in_play = record second_attempt {
  store =
      hydrate_snapshot a_session some_metrics (beta ∷ alpha ∷ []) (subscribe 0 (new_store false));
  socket = some 0;
  connection_attempt_id = 1;
  tasks = (0, syncing 1) ∷ (1, refreshing) ∷ [];
}

abbrev a_hit : Report
a_hit = record {
  death_reason = user_action;
  explicit_slave_id = some (text "s1");
  message_suffix = text "hit";
  observed_at = text "2026-03-20T10:00:01Z";
}

hit-IsFound : IsFound a_hit in_play 0 a_session alpha
unfolding hydrate_snapshot new_store emit subscribe lookup text_eq report_target
hit-IsFound = record { in_session = refl; in_use = refl; target = refl }

report_pod_gone-IsHit_example :
    IsHit
      (target_id (state_of in_play) (some (text "s1")))
      0
      a_session
      alpha
      a_hit
      in_play
      (report_pod_gone a_hit a_stamp in_play)
report_pod_gone-IsHit_example =
    report_pod_gone-IsHit a_hit a_stamp in_play 0 a_session alpha hit-IsFound

in_play-IsKeyed : IsKeyed (state_of in_play).pods_by_id
unfolding hydrate_snapshot new_store emit subscribe from_entries insert text_eq
in_play-IsKeyed = (refl, (refl, tt))

report_pod_gone_twice_example :
    report_pod_gone a_hit a_stamp (report_pod_gone a_hit a_stamp in_play)
    ≡ report_pod_gone a_hit a_stamp in_play
report_pod_gone_twice_example =
    report_pod_gone_twice a_hit a_hit a_stamp a_stamp (text "s1") in_play in_play-IsKeyed refl refl

open_in_play : has_open_socket in_play ≡ true
unfolding has_open_socket is_open_socket lookup
open_in_play = refl

not_connecting : is_connecting (state_of second_attempt).phase ≡ false
unfolding new_app new_store subscribe
not_connecting = refl

none_open : has_open_socket second_attempt ≡ false
unfolding has_open_socket new_app
none_open = refl

sync_waits : lookup 0 in_play.tasks ≡ some (syncing 1)
unfolding lookup
sync_waits = refl

known_in_play : lookup 0 in_play.sockets ≡ some old_socket
unfolding lookup
known_in_play = refl

close_before_snapshot_example :
    ((state_of (closed_then_synced 0 0 a_snapshot a_stamp a_stamp in_play)).phase ≡ playing)
    × ((closed_then_synced 0 0 a_snapshot a_stamp a_stamp in_play).socket ≡ none)
close_before_snapshot_example =
    close_before_snapshot in_play 0 0 old_socket a_snapshot a_stamp a_stamp known_in_play refl refl
      refl sync_waits

-- The events of a start do start.
starts : (state_of (history playing_events (new_app false))).phase ≡ playing
unfolding history handle start_session prepare_session_initialization open_socket has_open_socket
    with_store patch emit happen on_open resume resume_opening promise_of socket_connected
    snapshot_arrived hydrate_snapshot log new_app new_store subscribe lookup insert end_task
starts = refl
