-- ===== src/Session/Stale.antt =====
-- What is left of an attempt that is over: nothing that its socket or its wait brings reaches the
-- game.
use hackz_megalo.Base.{
  ℕ, suc, ◌≡◌, ◌≢◌, inl, inr, refl, sym, subst, Bool, true, false, List, some, arith, eq_ℕ, eq_Text,
  lookup, nat_eq, Text, Option-cases,
}
use hackz_megalo.Store.{Stamp}
use hackz_megalo.Store.Pods.{Collation}
use hackz_megalo.Session.{
  App, Socket, Task, Promise, pending, resolved, rejected, opening, syncing, exiting, entering,
  refreshing, new_app, with_store, clear_timer, end_task,
}
use hackz_megalo.Session.Start.{
  start_failed, socket_connected, snapshot_arrived, finish_disconnect, disconnect_session,
  drop_socket,
}
use hackz_megalo.Session.Sockets.{on_open, on_message, on_close, on_error}
use hackz_megalo.Session.Events.{
  Event, Happening, Outcome, handle, history, happen, resume, resume_opening, promise_of, opens,
  errors, receives, receives_garbage, closes_with, becomes, settled, snapshot, failed,
  clicks_disconnect, on_socket, resumes,
}
use hackz_megalo.Session.Induct.{handle_socket, handle_task}
use hackz_megalo.Session.Sound.Histories.{history-IsSound}

-- The game, the socket in use, the button, the timers and the attempt are as they were.
abbrev pub IsUntouched : App → App → Type 0
IsUntouched a b =
    (b.store ≡ a.store)
    × (b.socket ≡ a.socket)
    × (b.start_disabled ≡ a.start_disabled)
    × (b.timers ≡ a.timers)
    × (b.connection_attempt_id ≡ a.connection_attempt_id)

module _ ⦃c : Collation⦄ where
  stale_happen :
      (k : ℕ) (s : Socket) (x : Happening) (a : App)
      → nat_eq s.attempt a.connection_attempt_id ≡ false
      → IsUntouched a (happen k s x a)
  unfolding happen on_open on_close on_error on_message
  stale_happen k s opens a h = rw h (refl, refl, refl, refl, refl)
  stale_happen k s errors a h = rw h (refl, refl, refl, refl, refl)
  stale_happen k s (receives p t) a h = rw h (refl, refl, refl, refl, refl)
  stale_happen k s receives_garbage a h = rw h (refl, refl, refl, refl, refl)
  stale_happen k s (closes_with t) a h = rw h (refl, refl, refl, refl, refl)
  stale_happen k s (becomes r) a h = (refl, refl, refl, refl, refl)

  -- What a socket of another attempt than the current one brings, changes nothing of the game.
  pub stale_socket :
      (k : ℕ) (s : Socket) (x : Happening) (a : App)
      → lookup k a.sockets ≡ some s
      → s.attempt ≢ a.connection_attempt_id
      → IsUntouched a (handle (on_socket k x) a)
  unfolding handle
  stale_socket k s x a found h =
      subst (IsUntouched a) (sym (handle_socket k s x a found))
        (stale_happen k s x a (ground arith))

  resumes_stale :
      (i n k : ℕ) (p : Promise) (a : App)
      → nat_eq n a.connection_attempt_id ≡ false
      → IsUntouched a (resume_opening i n k p a)
  unfolding resume_opening socket_connected start_failed end_task
  resumes_stale i n k pending a h = (refl, refl, refl, refl, refl)
  resumes_stale i n k resolved a h = rw h (refl, refl, refl, refl, refl)
  resumes_stale i n k (rejected m) a h = rw h (refl, refl, refl, refl, refl)

  -- The attempt that a task of `startSession` belongs to.
  abbrev pub IsOfAttempt : ℕ → Task → Type 0
  IsOfAttempt n (opening m k) = m ≡ n
  IsOfAttempt n (syncing m) = m ≡ n
  IsOfAttempt n _ = ⊥

  resume_stale :
      (i n : ℕ) (x : Task) (o : Outcome) (a : App)
      → IsOfAttempt n x
      → nat_eq n a.connection_attempt_id ≡ false
      → IsUntouched a (resume i x o a)
  unfolding resume snapshot_arrived start_failed end_task
  resume_stale i n (opening m k) settled a own h =
      resumes_stale i m k (promise_of k a) a
        (subst (λ j. nat_eq j a.connection_attempt_id ≡ false) (sym own) h)
  resume_stale i n (syncing m) (snapshot x t) a own h = rw (own, h) (refl, refl, refl, refl, refl)
  resume_stale i n (syncing m) (failed e) a own h = rw (own, h) (refl, refl, refl, refl, refl)
  resume_stale i n (exiting m) _ a own h = absurd own
  resume_stale i n entering _ a own h = absurd own
  resume_stale i n refreshing _ a own h = absurd own
  resume_stale i n _ _ a own h = (refl, refl, refl, refl, refl)

  -- However a wait of `startSession` for another attempt than the current one ends, it changes
  -- nothing of the game.
  pub stale_task :
      (i n : ℕ) (x : Task) (o : Outcome) (a : App)
      → lookup i a.tasks ≡ some x
      → IsOfAttempt n x
      → n ≢ a.connection_attempt_id
      → IsUntouched a (handle (resumes i o) a)
  stale_task i n x o a found own h =
      subst (IsUntouched a) (sym (handle_task i x o a found))
        (resume_stale i n x o a own (ground arith))

  dropped_sockets :
      (b : Bool) (a : App)
      → ((drop_socket b a).sockets ≡ a.sockets)
        × ((drop_socket b a).connection_attempt_id ≡ a.connection_attempt_id)
  unfolding drop_socket
  dropped_sockets b a = ground arith

  disconnect_sockets :
      (m : Text) (b : Bool) (t : Stamp) (a : App)
      → ((disconnect_session m b t a).sockets ≡ a.sockets)
        × ((disconnect_session m b t a).connection_attempt_id ≡ suc a.connection_attempt_id)
  unfolding disconnect_session finish_disconnect with_store clear_timer
  disconnect_sockets m true t a = (refl, refl)
  disconnect_sockets m false t a = dropped_sockets true _

  -- Once the player has disconnected, after any history of the page and also while the XR session
  -- still ends, the next event of a socket, whatever it brings, changes nothing of the game.
  pub disconnect_silences :
      (xr : Bool) (xs : List Event) (m : Text) (presenting : Bool) (t : Stamp) (k : ℕ)
      (x : Happening)
      → let b = handle (clicks_disconnect m presenting t) (history xs (new_app xr)) in
        IsUntouched b (handle (on_socket k x) b)
  unfolding handle
  disconnect_silences xr xs m presenting t k x =
      let a = history xs (new_app xr) in
      let b = disconnect_session m presenting t a in
      let (same, next) = disconnect_sockets m presenting t a in
      elim (Option-cases (lookup k b.sockets)) [
        | inl e ↦ rw (e, handle) (refl, refl, refl, refl, refl)
        | inr (s, e) ↦
            let old =
              (history-IsSound xr xs).bounded k s (subst (λ l. lookup k l ≡ some s) same e) in
            stale_socket k s x b e (omega arith)
      ]
