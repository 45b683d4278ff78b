-- ===== src/Session/Ends.antt =====
-- What starting a session and disconnecting leave behind.
use hackz_megalo.Base.{
  ℕ, suc, ◌≡◌, ◌⊎◌, inl, inr, refl, ap, append-nil, ◌∙◌, true, false, List, [], ◌∷◌, Option, none,
  some, arith, eq_ℕ, eq_Text, lookup, lookup-insert, Text, Option-cases, ◌++◌, text,
}
use hackz_megalo.Store.{Stamp, connecting, emit, patch, log, reset_to_disconnected, initial_state}
use hackz_megalo.View.Page.{is_connecting}
use hackz_megalo.Session.{
  App, opening, with_store, clear_timer, state_of, Effect, scene_reset, do_effect, closes,
}
use hackz_megalo.Session.Start.{
  start_session, finish_disconnect, disconnect_session, drop_socket, open_socket,
  prepare_session_initialization, new_socket, has_open_socket,
}

-- The page after a start that was not refused: `a` is the page before.
pub record IsStarting (a b : App) : Type 0 where
  pub phase : (state_of b).phase ≡ connecting
  pub session : (state_of b).session ≡ none
  pub pods : (state_of b).pods_by_id ≡ []
  pub eliminated : (state_of b).xr_eliminated_pod_ids ≡ []
  pub disabled : b.start_disabled ≡ true
  pub attempt : b.connection_attempt_id ≡ suc a.connection_attempt_id
  pub waits :
      lookup a.next_task b.tasks ≡ some (opening (suc a.connection_attempt_id) a.next_socket)
  pub opens : lookup a.next_socket b.sockets ≡ some (new_socket (suc a.connection_attempt_id))
  pub scene : b.effects ≡ a.effects ++ scene_reset ∷ []

-- A start while the page connects, or has an open socket, changes nothing.
pub start_session_lem :
    (a : App)
    → (is_connecting (state_of a).phase ≡ true) ⊎ (has_open_socket a ≡ true)
    → start_session a ≡ a
unfolding start_session
start_session_lem a (inl e) = ground (arith, e)
start_session_lem a (inr e) = ground (arith, e)

-- Any other start clears the game, disables the button, makes a socket for a new attempt, and awaits
-- it; the only effect is that the scene is reset.
pub start_session-IsStarting :
    (a : App)
    → is_connecting (state_of a).phase ≡ false
    → has_open_socket a ≡ false
    → IsStarting a (start_session a)
unfolding start_session prepare_session_initialization open_socket with_store patch clear_timer emit
start_session-IsStarting a e f =
    rw (e, f, start_session)
      (record {
        phase = refl;
        session = refl;
        pods = refl;
        eliminated = refl;
        disabled = refl;
        attempt = refl;
        waits = ground (arith, eq_ℕ.beq_iff a.next_task a.next_task);
        opens =
            rw
              (lookup-insert a.next_socket a.next_socket (new_socket (suc a.connection_attempt_id))
                a.sockets)
              (ground (arith, eq_ℕ.beq_iff a.next_socket a.next_socket));
        scene = refl;
      })

-- The closing of the socket in use.
abbrev pub goodbye : Option ℕ → List Effect
goodbye none = []
goodbye (some k) = closes k (some (4000, text "session_end")) ∷ []

pub record IsReset (a b : App) : Type 0 where
  pub state :
      record (state_of b) { activity = []; connection_message = [] }
      ≡ record (initial_state (state_of a).xr_supported) { activity = []; connection_message = [] }
  pub socket : b.socket ≡ none
  pub enabled : b.start_disabled ≡ false
  pub attempt : b.connection_attempt_id ≡ suc a.connection_attempt_id
  pub timer : b.metrics_refresh_timer ≡ 0
  pub told : b.effects ≡ a.effects ++ scene_reset ∷ goodbye a.socket

dropped :
    (a : App)
    → ((drop_socket true a).store ≡ a.store)
      × ((drop_socket true a).socket ≡ none)
      × ((drop_socket true a).connection_attempt_id ≡ a.connection_attempt_id)
      × ((drop_socket true a).metrics_refresh_timer ≡ a.metrics_refresh_timer)
      × ((drop_socket true a).effects ≡ a.effects ++ goodbye a.socket)
unfolding drop_socket
dropped a = elim (Option-cases a.socket) [
  | inl e ↦ ground (arith, e, append-nil a.effects)
  | inr (k, e) ↦ ground (arith, e)
]

append_both : (xs ys : List Effect) (x : Effect) → (xs ++ x ∷ []) ++ ys ≡ xs ++ x ∷ ys
append_both [] ys x = refl
append_both (y ∷ xs) ys x = ap (λ zs. y ∷ zs) (append_both xs ys x)

-- A disconnect outside XR leaves the initial game, but for the activity and the connection message
-- and with what is known of XR kept; no socket and no timer; the attempt's number one higher; and its only effects are that the scene is reset and the socket closed as ended.
pub disconnect_session-IsReset :
    (m : Text) (t : Stamp) (a : App) → IsReset a (disconnect_session m false t a)
unfolding disconnect_session finish_disconnect with_store clear_timer reset_to_disconnected log
    patch emit
disconnect_session-IsReset m t a =
    let left = do_effect scene_reset (record (clear_timer a) {
      metrics_refresh_timer = 0;
      connection_attempt_id = suc a.connection_attempt_id;
    }) in
    let d = dropped left in
    record {
      state = rw (d.0) refl;
      socket = d.1;
      enabled = refl;
      attempt = d.2;
      timer = d.3;
      told = d.4 ∙ append_both a.effects (goodbye a.socket) scene_reset;
    }
