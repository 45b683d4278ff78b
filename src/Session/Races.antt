-- ===== src/Session/Races.antt =====
-- Two orders of events that the handlers of a session do not guard against.
use hackz_megalo.Base.{
  ℕ, ◌≡◌, sym, ◌∙◌, true, false, none, some, arith, eq_ℕ, eq_Text, lookup, nat_eq_iff, Text,
}
use hackz_megalo.Types.{SessionMetrics}
use hackz_megalo.Store.{Stamp, playing, emit, patch, log}
use hackz_megalo.Store.Pods.{Collation, hydrate_snapshot}
use hackz_megalo.Session.{App, Socket, syncing, with_store, end_task, state_of}
use hackz_megalo.Session.Start.{snapshot_arrived, Snapshot}
use hackz_megalo.Session.Sockets.{on_close}
use hackz_megalo.Session.Events.{
  handle, happen, resume, closes_with, snapshot, fetched, clicks_disconnect, on_socket, resumes,
}
use hackz_megalo.Session.Induct.{handle_socket, handle_task}

module _ ⦃c : Collation⦄ where
  closed :
      (k : ℕ) (s : Socket) (t : Stamp) (a : App)
      → s.opened ≡ true
      → s.attempt ≡ a.connection_attempt_id
      → a.socket ≡ some k
      → ((on_close k s t a).tasks ≡ a.tasks)
        × ((on_close k s t a).connection_attempt_id ≡ a.connection_attempt_id)
        × ((on_close k s t a).socket ≡ none)
  unfolding on_close with_store
  closed k s t a o at h =
      ground (arith, o, at, h, nat_eq_iff s.attempt a.connection_attempt_id, nat_eq_iff k k)

  synced :
      (n : ℕ) (x : Snapshot) (u : Stamp) (a : App)
      → n ≡ a.connection_attempt_id
      → ((state_of (snapshot_arrived n x u a)).phase ≡ playing)
        × ((snapshot_arrived n x u a).socket ≡ a.socket)
  unfolding snapshot_arrived with_store log hydrate_snapshot emit patch
  synced n x u a e = ground (arith, e, nat_eq_iff n a.connection_attempt_id)

  -- The socket `k` closes, then the wait `i` for the snapshot ends.
  abbrev pub closed_then_synced : (k i : ℕ) → Snapshot → (t u : Stamp) → App → App
  closed_then_synced k i x t u a =
      handle (resumes i (snapshot x u)) (handle (on_socket k (closes_with t)) a)

  -- When the socket in use closes while `startSession` waits for its snapshot, the snapshot still
  -- puts the game in the phase `playing`, with no socket.
  pub close_before_snapshot :
      (a : App) (k i : ℕ) (s : Socket) (x : Snapshot) (t u : Stamp)
      → lookup k a.sockets ≡ some s
      → s.opened ≡ true
      → s.attempt ≡ a.connection_attempt_id
      → a.socket ≡ some k
      → lookup i a.tasks ≡ some (syncing a.connection_attempt_id)
      → ((state_of (closed_then_synced k i x t u a)).phase ≡ playing)
        × ((closed_then_synced k i x t u a).socket ≡ none)
  unfolding end_task handle happen resume snapshot_arrived
  close_before_snapshot a k i s x t u e o at h sync =
      let b = closed k s t a o at h in
      let n = a.connection_attempt_id in
      rw
        (
          handle_socket k s (closes_with t) a e,
          handle_task i (syncing n) (snapshot x u) (on_close k s t a) (rw (b.0) sync),
        )
        (let p = synced n x u (end_task i (on_close k s t a)) (sym b.1) in (p.0, p.1 ∙ b.2))

  -- The player disconnects, then the metrics that `i` waits for arrive.
  abbrev pub left_then_fetched : ℕ → Text → SessionMetrics → Stamp → App → App
  left_then_fetched i m x t a =
      handle (resumes i (fetched x)) (handle (clicks_disconnect m false t) a)
