-- ===== src/Session/Induct.antt =====
-- Invariants of the page: what every kind of event keeps holds after every history.
use hackz_megalo.Base.{
  ℕ, ◌≡◌, List, [], ◌∷◌, Bool, Option, some, inl, inr, Option-cases, eq_ℕ, lookup, Text, All,
}
use hackz_megalo.Store.{Stamp, set_xr_active, set_selected_pod, set_hovered_pod}
use hackz_megalo.Store.Pods.{Collation}
use hackz_megalo.Session.{App, Socket, Task, with_store}
use hackz_megalo.Session.Start.{start_session, disconnect_session}
use hackz_megalo.Session.Report.{
  Report, report_pod_gone, timer_fired, enter_xr_mode, probe_xr_support,
}
use hackz_megalo.Session.Events.{
  Event, Happening, Outcome, handle, history, happen, resume, clicks_start, clicks_enter_xr,
  clicks_disconnect, on_socket, resumes, timer_fires, reports, probes, xr_changes, selects, hovers,
}

module _ ⦃c : Collation⦄ where
  pub handle_socket :
      (k : ℕ) (s : Socket) (x : Happening) (a : App)
      → lookup k a.sockets ≡ some s
      → handle (on_socket k x) a ≡ happen k s x a
  unfolding handle
  handle_socket k s x a e = rw (e, handle)

  pub handle_task :
      (i : ℕ) (x : Task) (o : Outcome) (a : App)
      → lookup i a.tasks ≡ some x
      → handle (resumes i o) a ≡ resume i x o a
  unfolding handle
  handle_task i x o a e = rw (e, handle)

  -- Every event that `Q` allows keeps `P`. `Q` is asked of disconnects alone.
  pub record IsKept (Q : Event → Type 0) (P : App → Type 0) : Type 0 where
    pub start : (a : App) → P a → P (start_session a)
    pub enter_xr : (a : App) → P a → P (enter_xr_mode a)
    pub disconnect :
        (m : Text) (b : Bool) (t : Stamp) (a : App)
        → Q (clicks_disconnect m b t)
        → P a
        → P (disconnect_session m b t a)
    pub happened :
        (k : ℕ) (s : Socket) (x : Happening) (a : App)
        → lookup k a.sockets ≡ some s
        → P a
        → P (happen k s x a)
    pub resumed :
        (i : ℕ) (x : Task) (o : Outcome) (a : App)
        → lookup i a.tasks ≡ some x
        → P a
        → P (resume i x o a)
    pub fired : (n : ℕ) (a : App) → P a → P (timer_fired n a)
    pub reported : (r : Report) (t : Stamp) (a : App) → P a → P (report_pod_gone r t a)
    pub probed : (o : Option (Option Bool)) (a : App) → P a → P (probe_xr_support o a)
    pub xr_changed : (b : Bool) (a : App) → P a → P (with_store (set_xr_active b) a)
    pub selected : (id : Option Text) (a : App) → P a → P (with_store (set_selected_pod id) a)
    pub hovered : (id : Option Text) (a : App) → P a → P (with_store (set_hovered_pod id) a)

  module _ {Q : Event → Type 0} {P : App → Type 0} (keep : IsKept Q P) where
    handle_keeps : (x : Event) (a : App) → Q x → P a → P (handle x a)
    unfolding handle
    handle_keeps clicks_start a q h = keep.start a h
    handle_keeps clicks_enter_xr a q h = keep.enter_xr a h
    handle_keeps (clicks_disconnect m b t) a q h = keep.disconnect m b t a q h
    handle_keeps (on_socket k x) a q h = elim (Option-cases (lookup k a.sockets)) [
      | inl e ↦ rw (e, handle) h
      | inr (s, e) ↦ rw (e, handle) (keep.happened k s x a e h)
    ]
    handle_keeps (resumes i o) a q h = elim (Option-cases (lookup i a.tasks)) [
      | inl e ↦ rw (e, handle) h
      | inr (x, e) ↦ rw (e, handle) (keep.resumed i x o a e h)
    ]
    handle_keeps (timer_fires n) a q h = keep.fired n a h
    handle_keeps (reports r t) a q h = keep.reported r t a h
    handle_keeps (probes o) a q h = keep.probed o a h
    handle_keeps (xr_changes b) a q h = keep.xr_changed b a h
    handle_keeps (selects id) a q h = keep.selected id a h
    handle_keeps (hovers id) a q h = keep.hovered id a h

    pub history_keeps : (xs : List Event) (a : App) → All Q xs → P a → P (history xs a)
    unfolding history
    history_keeps [] a q h = h
    history_keeps (x ∷ xs) a q h = history_keeps xs (handle x a) q.1 (handle_keeps x a q.0 h)

-- Any event at all.
abbrev pub AnyEvent : Event → Type 0
AnyEvent x = Unit

pub All-AnyEvent : (xs : List Event) → All AnyEvent xs
All-AnyEvent [] = tt
All-AnyEvent (x ∷ xs) = (tt, All-AnyEvent xs)
