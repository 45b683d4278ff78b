-- ===== src/Session/Sound.antt =====
-- The sockets of the page: the one in use has opened, and none is of an attempt to come. So after a
-- disconnect every socket that there is speaks in vain.
pub mod Histories
use mathlib.Core.Option.{some-injective}
use hackz_megalo.Base.{
  ℕ, suc, ◌<◌, ◌≤◌, ◌≡◌, ◌⊎◌, inl, inr, refl, sym, ◌∙◌, subst, Bool, true, false, not, ◌||◌, List,
  Option, none, some, arith, eq_ℕ, eq_Text, lookup, lookup-insert, nat_eq, nat_eq_iff, Text,
  Bool-cases, Option-cases, if_cases,
}
use hackz_megalo.Types.{SlaveState}
use hackz_megalo.Store.{Stamp}
use hackz_megalo.Store.Pods.{Collation}
use hackz_megalo.View.Page.{is_connecting}
use hackz_megalo.Session.{
  App, Socket, Task, Promise, pending, resolved, rejected, opening, syncing, exiting, entering,
  refreshing, new_app, with_store, clear_timer, end_task, state_of, set_socket,
}
use hackz_megalo.Session.Start.{
  start_session, start_failed, socket_connected, snapshot_arrived, finish_disconnect,
  disconnect_session, drop_socket, open_socket, prepare_session_initialization, new_socket,
  has_open_socket,
}
use hackz_megalo.Session.Sockets.{
  on_open, on_message, on_close, on_error, put_socket, is_current, is_in_use, settle,
}
use hackz_megalo.Session.Report.{
  Report, report_pod_gone, eliminate_pod, send_report, timer_fired, metrics_arrived, enter_xr_mode,
  xr_entered, xr_failed, probe_xr_support, handle_pod_update, schedule_metrics_refresh,
}
use hackz_megalo.Session.Events.{
  Event, Happening, Outcome, history, happen, resume, resume_opening, promise_of, opens, errors,
  receives, receives_garbage, closes_with, becomes, settled, snapshot, fetched, done, failed,
}
use hackz_megalo.Session.Induct.{IsKept, history_keeps, AnyEvent, All-AnyEvent}
use hackz_megalo.Session.Cases.{report_cases}

pub record IsSound (a : App) : Type 0 where
  pub bounded :
      (k : ℕ) (s : Socket) → lookup k a.sockets ≡ some s → s.attempt ≤ a.connection_attempt_id
  pub fresh : (k : ℕ) (s : Socket) → lookup k a.sockets ≡ some s → k < a.next_socket
  pub in_use :
      (k : ℕ) → a.socket ≡ some k → (s : Socket) × (lookup k a.sockets ≡ some s) × (s.opened ≡ true)

-- What leaves the sockets alone, and may let the one in use go.
record IsSame (a b : App) : Type 0 where
  sockets : b.sockets ≡ a.sockets
  next : b.next_socket ≡ a.next_socket
  later : a.connection_attempt_id ≤ b.connection_attempt_id
  used : (b.socket ≡ a.socket) ⊎ (b.socket ≡ none)

same-IsSound : {a b : App} → IsSound a → IsSame a b → IsSound b
same-IsSound {a} {b} h e = record {
  bounded = λ k s q.
      let old = h.bounded k s (subst (λ m. lookup k m ≡ some s) e.sockets q) in
      omega (arith, e.later);
  fresh = λ k s q.
      let old = h.fresh k s (subst (λ m. lookup k m ≡ some s) e.sockets q) in omega (arith, e.next);
  in_use = λ k q. elim e.used [
    | inl p ↦
        let (s, found, up) = h.in_use k (sym p ∙ q) in
        (s, subst (λ m. lookup k m ≡ some s) (sym e.sockets) found, up)
    | inr p ↦ absurd (cc)
  ];
}

-- A new record of a socket that there is, which forgets no opening.
pub put-IsSound :
    (k : ℕ) (s t : Socket) (a : App)
    → IsSound a
    → lookup k a.sockets ≡ some s
    → t.attempt ≡ s.attempt
    → (s.opened ≡ true → t.opened ≡ true)
    → IsSound (put_socket k t a)
put-IsSound k s t a h found same opened = record {
  bounded =
      λ j r q. ground (arith, lookup-insert k j t a.sockets, h.bounded k s found, h.bounded j r);
  fresh = λ j r q.
      ground (arith, lookup-insert k j t a.sockets, nat_eq_iff k j, h.fresh k s found, h.fresh j r);
  in_use = λ j q.
      let (r, old, up) = h.in_use j q in
      elim (Bool-cases (nat_eq k j)) [
        | inl hit ↦
            let e : k ≡ j = (nat_eq_iff k j).0 hit in
            let here : lookup j a.sockets ≡ some s =
              subst (λ n. lookup n a.sockets ≡ some s) e found in
            (t, ground (arith, lookup-insert k j t a.sockets), opened (ground arith))
        | inr miss ↦ (r, ground (arith, lookup-insert k j t a.sockets), up)
      ];
}

-- A new socket stands under a number that none has.
open-IsSound :
    (n : ℕ) (a : App) → IsSound a → n ≤ a.connection_attempt_id → IsSound (open_socket n a)
unfolding open_socket
open-IsSound n a h le = record {
  bounded = λ j r q.
      ground (arith, lookup-insert a.next_socket j (new_socket n) a.sockets, h.bounded j r);
  fresh = λ j r q. ground (
    arith,
    lookup-insert a.next_socket j (new_socket n) a.sockets,
    nat_eq_iff a.next_socket j,
    h.fresh j r,
  );
  in_use = λ j q.
      let (r, old, up) = h.in_use j q in
      (
        r,
        ground (
          arith,
          lookup-insert a.next_socket j (new_socket n) a.sockets,
          nat_eq_iff a.next_socket j,
          h.fresh j r old,
        ),
        up,
      );
}

use-IsSound :
    (k : ℕ) (t : Socket) (a : App)
    → IsSound a
    → lookup k a.sockets ≡ some t
    → t.opened ≡ true
    → IsSound (set_socket (some k) a)
use-IsSound k t a h found up = record {
  bounded = h.bounded;
  fresh = h.fresh;
  in_use = λ j q. (t, subst (λ n. lookup n a.sockets ≡ some t) (some-injective _ _ q) found, up);
}

pub still :
    {a b : App}
    → IsSound a
    → (b.sockets ≡ a.sockets)
      × (b.next_socket ≡ a.next_socket)
      × (b.connection_attempt_id ≡ a.connection_attempt_id)
      × (b.socket ≡ a.socket)
    → IsSound b
still h (s, n, c, u) =
    same-IsSound h (record { sockets = s; next = n; later = omega arith; used = inl u })

let_go :
    {a b : App}
    → IsSound a
    → (b.sockets ≡ a.sockets)
      × (b.next_socket ≡ a.next_socket)
      × (a.connection_attempt_id ≤ b.connection_attempt_id)
      × (b.socket ≡ none)
    → IsSound b
let_go h (s, n, c, u) = same-IsSound h (record { sockets = s; next = n; later = c; used = inr u })

lookup-put : (k : ℕ) (t : Socket) (a : App) → lookup k (put_socket k t a).sockets ≡ some t
lookup-put k t a = ground (arith, lookup-insert k k t a.sockets, nat_eq_iff k k)

-- `onOpen` puts a socket in use that has opened.
pub opened-IsSound :
    (k : ℕ) (s : Socket) (a : App)
    → IsSound a
    → lookup k a.sockets ≡ some s
    → IsSound (on_open k s a)
unfolding on_open with_store
opened-IsSound k s a h found = elim (Bool-cases (is_current a s)) [
  | inl now ↦
      let t : Socket = record s { opened = true; promise = settle s.promise resolved } in
      let put : IsSound (put_socket k t a) = put-IsSound k s t a h found refl (λ e. refl) in
      rw now (
        still (use-IsSound k t (put_socket k t a) put (lookup-put k t a) refl)
          (refl, refl, refl, refl))
  | inr stale ↦
      rw stale (put-IsSound k s _ _ (still h (refl, refl, refl, refl)) found refl (λ e. e))
]

pub closed-IsSound :
    (k : ℕ) (s : Socket) (t : Stamp) (a : App)
    → IsSound a
    → lookup k a.sockets ≡ some s
    → IsSound (on_close k s t a)
unfolding on_close with_store
closed-IsSound k s t a h found =
    if_cases IsSound (not (is_current a s)) _ _ (λ _. h)
      λ _.
        if_cases IsSound (not s.opened) _ _ (λ _. put-IsSound k s _ a h found refl (λ e. e))
          λ _.
            if_cases IsSound (not (is_in_use a k)) _ _ (λ _. h)
              λ _. let_go h (refl, refl, omega arith, refl)

pub failed_socket-IsSound :
    (k : ℕ) (s : Socket) (a : App)
    → IsSound a
    → lookup k a.sockets ≡ some s
    → IsSound (on_error k s a)
unfolding on_error with_store
failed_socket-IsSound k s a h found =
    if_cases IsSound (not (is_current a s)) _ _ (λ _. h)
      λ _.
        if_cases IsSound (not s.opened) _ _ (λ _. put-IsSound k s _ a h found refl (λ e. e))
          λ _.
            if_cases IsSound (not (is_in_use a k)) _ _ (λ _. h)
              λ _. still h (refl, refl, refl, refl)

dropped-IsSound : (b : Bool) (a : App) → IsSound a → IsSound (drop_socket b a)
unfolding drop_socket
dropped-IsSound b a h = elim (Option-cases a.socket) [
  | inl e ↦ rw (e, drop_socket) h
  | inr (k, e) ↦ rw (e, drop_socket) (let_go h (refl, refl, omega arith, refl))
]

pub start_failed-IsSound :
    (n : ℕ) (m : Option Text) (a : App) → IsSound a → IsSound (start_failed n m a)
unfolding start_failed with_store
start_failed-IsSound n m a h =
    if_cases IsSound (not (nat_eq n a.connection_attempt_id)) _ _ (λ _. h)
      λ _. still (dropped-IsSound false a h) (refl, refl, refl, refl)

pub finished-IsSound :
    (m : Text) (t : Stamp) (a : App) → IsSound a → IsSound (finish_disconnect m t a)
unfolding finish_disconnect with_store
finished-IsSound m t a h =
    still (dropped-IsSound true _ (still h (refl, refl, refl, refl))) (refl, refl, refl, refl)

pub started-IsSound : (a : App) → IsSound a → IsSound (start_session a)
unfolding start_session prepare_session_initialization with_store clear_timer
started-IsSound a h =
    if_cases IsSound (is_connecting (state_of a).phase) _ _ (λ _. h)
      λ _.
        if_cases IsSound (has_open_socket a) _ _ (λ _. h)
          λ _.
            open-IsSound (suc a.connection_attempt_id) _
              (same-IsSound h
                (record { sockets = refl; next = refl; later = omega arith; used = inl refl }))
              (omega arith)

pub disconnected-IsSound :
    (m : Text) (b : Bool) (t : Stamp) (a : App) → IsSound a → IsSound (disconnect_session m b t a)
unfolding disconnect_session clear_timer
disconnected-IsSound m b t a h =
    if_cases IsSound b _ _
      (λ _.
        same-IsSound h
          (record { sockets = refl; next = refl; later = omega arith; used = inl refl }))
      λ _. finished-IsSound m t _ (
        same-IsSound h
          (record { sockets = refl; next = refl; later = omega arith; used = inl refl }))
