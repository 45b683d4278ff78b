-- ===== src/Store.antt =====
-- apps/frontend-webxr/src/store.ts: the state of the game and the class that holds it.
-- `podsById` is an association list in order of insertion: ids are taken not to be array indices
-- nor names of `Object.prototype`, which a plain object would treat apart. A listener is known by
-- its identity; `calls` is the record of the calls that the store has made, the oldest first.
pub mod Tests
pub mod Pods
pub mod Sort
pub mod Invariant
pub mod Upsert
pub mod Notify
pub mod Select
pub mod Activity
use hackz_megalo.Base.{
  ℕ, Bool, true, false, not, ◌&&◌, Option, none, some, List, [], ◌∷◌, ◌++◌, map, Text, text, truthy,
  ◌==◌, if◌then◌else◌, or_else, on_some, is_some, take, includes, without, add_to, keep_if, length,
  lookup, insert, has, values, eq_ℕ, eq_Text,
}
use hackz_megalo.Types.{
  SlaveState, SessionMeta, SessionMetrics, ActivityEntry, ActivityKind, is_gone,
}

pub data GamePhase : Type 0 where
  idle connecting playing error : GamePhase

pub record GameState : Type 0 where
  pub phase : GamePhase
  pub session : Option SessionMeta
  pub metrics : Option SessionMetrics
  pub pods_by_id : List (Text × SlaveState)
  pub selected_pod_id : Option Text
  pub hovered_pod_id : Option Text
  pub connection_message : Text
  pub error_message : Option Text
  pub action_in_flight : Bool
  pub activity : List ActivityEntry
  pub xr_supported : Bool
  pub xr_active : Bool
  pub xr_eliminated_pod_ids : List Text

pub record GameStore : Type 0 where
  pub state : GameState
  pub listeners : List ℕ
  pub calls : List (ℕ × GameState)

unfoldable pub initial_state : Bool → GameState
initial_state xr_supported = record {
  phase = idle;
  session = none;
  metrics = none;
  pods_by_id = [];
  selected_pod_id = none;
  hovered_pod_id = none;
  connection_message = text "セッション開始待機中";
  error_message = none;
  action_in_flight = false;
  activity = [];
  xr_supported = xr_supported;
  xr_active = false;
  xr_eliminated_pod_ids = [];
}

-- `new GameStore()`; the argument is the probe of `navigator`.
unfoldable pub new_store : Bool → GameStore
unfolding initial_state
new_store xr = record { state = initial_state xr; listeners = []; calls = [] }

unfoldable pub emit : GameStore → GameStore
emit s = record s { calls = s.calls ++ map (λ l. (l, s.state)) s.listeners }

-- The new state, told to every listener.
abbrev pub commit : GameStore → GameState → GameStore
commit s g = emit (record s { state = g })

unfoldable pub subscribe : ℕ → GameStore → GameStore
unfolding includes
subscribe l s = record s { listeners = add_to s.listeners l; calls = s.calls ++ (l, s.state) ∷ [] }

-- The function that `subscribe` returns.
unfoldable pub unsubscribe : ℕ → GameStore → GameStore
unfolding keep_if
unsubscribe l s = record s { listeners = without l s.listeners }

-- `Partial<GameState>`: a field is there or not.
pub record Update : Type 0 where
  pub phase : Option GamePhase
  pub session : Option (Option SessionMeta)
  pub metrics : Option (Option SessionMetrics)
  pub pods_by_id : Option (List (Text × SlaveState))
  pub selected_pod_id : Option (Option Text)
  pub hovered_pod_id : Option (Option Text)
  pub connection_message : Option Text
  pub error_message : Option (Option Text)
  pub action_in_flight : Option Bool
  pub activity : Option (List ActivityEntry)
  pub xr_supported : Option Bool
  pub xr_active : Option Bool
  pub xr_eliminated_pod_ids : Option (List Text)

abbrev pub no_update : Update
no_update = record {
  phase = none;
  session = none;
  metrics = none;
  pods_by_id = none;
  selected_pod_id = none;
  hovered_pod_id = none;
  connection_message = none;
  error_message = none;
  action_in_flight = none;
  activity = none;
  xr_supported = none;
  xr_active = none;
  xr_eliminated_pod_ids = none;
}

-- `{ ...state, ...update }`
abbrev pub merge : GameState → Update → GameState
merge g u = record {
  phase = or_else u.phase g.phase;
  session = or_else u.session g.session;
  metrics = or_else u.metrics g.metrics;
  pods_by_id = or_else u.pods_by_id g.pods_by_id;
  selected_pod_id = or_else u.selected_pod_id g.selected_pod_id;
  hovered_pod_id = or_else u.hovered_pod_id g.hovered_pod_id;
  connection_message = or_else u.connection_message g.connection_message;
  error_message = or_else u.error_message g.error_message;
  action_in_flight = or_else u.action_in_flight g.action_in_flight;
  activity = or_else u.activity g.activity;
  xr_supported = or_else u.xr_supported g.xr_supported;
  xr_active = or_else u.xr_active g.xr_active;
  xr_eliminated_pod_ids = or_else u.xr_eliminated_pod_ids g.xr_eliminated_pod_ids;
}

unfoldable pub patch : Update → GameStore → GameStore
patch u s = commit s (merge s.state u)

unfoldable pub reset_to_disconnected : Text → GameStore → GameStore
unfolding initial_state
reset_to_disconnected message s =
    commit s (record (initial_state s.state.xr_supported) { connection_message = message })

unfoldable pub set_selected_pod : Option Text → GameStore → GameStore
set_selected_pod id s = commit s (record (s.state) { selected_pod_id = id })

unfoldable pub set_hovered_pod : Option Text → GameStore → GameStore
set_hovered_pod id s = commit s (record (s.state) { hovered_pod_id = id })

unfoldable pub set_metrics : SessionMetrics → GameStore → GameStore
set_metrics m s = commit s (record (s.state) { metrics = some m })

unfoldable pub set_action_in_flight : Bool → GameStore → GameStore
set_action_in_flight b s = commit s (record (s.state) { action_in_flight = b })

unfoldable pub set_xr_support : Bool → GameStore → GameStore
set_xr_support b s = commit s (record (s.state) { xr_supported = b })

unfoldable pub set_xr_active : Bool → GameStore → GameStore
set_xr_active b s = commit s (record (s.state) { xr_active = b })

unfoldable pub mark_xr_pod_eliminated : Text → GameStore → GameStore
unfolding includes
mark_xr_pod_eliminated id s =
    if includes s.state.xr_eliminated_pod_ids id
    then s
    else commit s
        (record (s.state) { xr_eliminated_pod_ids = s.state.xr_eliminated_pod_ids ++ id ∷ [] })

-- What the caller of `log` gives, and what `log` takes from the clock and from `Math.random`.
pub record LogEntry : Type 0 where
  pub kind : ActivityKind
  pub message : Text

pub record Stamp : Type 0 where
  pub id : Text
  pub created_at : Text

abbrev pub stamped : Stamp → LogEntry → ActivityEntry
stamped t e = record { id = t.id; kind = e.kind; message = e.message; created_at = t.created_at }

unfoldable pub log : Stamp → LogEntry → GameStore → GameStore
unfolding take
log t e s = commit s (record (s.state) { activity = take 8 (stamped t e ∷ s.state.activity) })
