-- ===== src/Store/Invariant.antt =====
-- What every operation of the store keeps, and so what holds after any history of calls.
use hackz_megalo.Base.{
  ℕ, ◌≤◌, ◌≡◌, refl, Bool, List, [], ◌∷◌, Option, none, some, Text, eq_Text, arith, All, IsDistinct,
  IsDistinct-append_one, IsDistinct-keep_if, keys, length, length-take, insert, insert-IsDistinct,
  All-insert, includes, Bool-cases, inl, inr, not, ◌==◌, or_else,
}
use hackz_megalo.Types.{SlaveState, SessionMeta, SessionMetrics}
use hackz_megalo.Store.{
  GameState, GameStore, Update, LogEntry, Stamp, merge, stamped, initial_state, new_store, emit,
  patch, reset_to_disconnected, set_selected_pod, set_hovered_pod, set_metrics,
  set_action_in_flight, set_xr_support, set_xr_active, mark_xr_pod_eliminated, log, subscribe,
  unsubscribe,
}
use hackz_megalo.Store.Pods.{
  Collation, from_entries, hydrate_snapshot, eliminated_after, upsert_pod,
}

-- A pod stands under its own id.
abbrev pub IsKeyed : List (Text × SlaveState) → Type 0
IsKeyed m = All (λ (b : Text × SlaveState). b.1.slave_id ≡ b.0) m

pub record IsWellFormed (g : GameState) : Type 0 where
  pub keyed : IsKeyed g.pods_by_id
  pub distinct : IsDistinct (keys g.pods_by_id)
  pub recent : length g.activity ≤ 8
  pub hidden : IsDistinct g.xr_eliminated_pod_ids

-- The calls that the rest of the program makes on the store.
pub data Call : Type 0 where
  subscribes unsubscribes : ℕ → Call
  patches : Update → Call
  resets : Text → Call
  hydrates : SessionMeta → SessionMetrics → List SlaveState → Call
  upserts : SlaveState → Call
  selects hovers : Option Text → Call
  measures : SessionMetrics → Call
  acts supports activates : Bool → Call
  marks : Text → Call
  logs : Stamp → LogEntry → Call

module _ ⦃c : Collation⦄ where
  unfoldable pub step : GameStore → Call → GameStore
  step s (subscribes l) = subscribe l s
  step s (unsubscribes l) = unsubscribe l s
  step s (patches u) = patch u s
  step s (resets m) = reset_to_disconnected m s
  step s (hydrates session metrics pods) = hydrate_snapshot session metrics pods s
  step s (upserts pod) = upsert_pod pod s
  step s (selects id) = set_selected_pod id s
  step s (hovers id) = set_hovered_pod id s
  step s (measures m) = set_metrics m s
  step s (acts b) = set_action_in_flight b s
  step s (supports b) = set_xr_support b s
  step s (activates b) = set_xr_active b s
  step s (marks id) = mark_xr_pod_eliminated id s
  step s (logs t e) = log t e s

  unfoldable pub run : GameStore → List Call → GameStore
  run s [] = s
  run s (x ∷ xs) = run (step s x) xs

-- The patches of main.ts clear the pods and the eliminated ids or leave them, and leave the log.
abbrev pub IsClearing {ℓ} : {A : Type ℓ} → Option (List A) → Type 0
IsClearing none = Unit
IsClearing (some []) = Unit
IsClearing (some (x ∷ xs)) = ⊥

pub record IsSound (u : Update) : Type 0 where
  pub pods : IsClearing u.pods_by_id
  pub hidden : IsClearing u.xr_eliminated_pod_ids
  pub log : u.activity ≡ none

abbrev pub IsSoundCall : Call → Type 0
IsSoundCall (patches u) = IsSound u
IsSoundCall _ = Unit

initial_state-IsWellFormed : (xr : Bool) → IsWellFormed (initial_state xr)
unfolding initial_state
initial_state-IsWellFormed xr = record {
  keyed = tt;
  distinct = tt;
  recent = omega arith;
  hidden = tt;
}

from_entries-IsKeyed :
    (ps : List SlaveState) (m : List (Text × SlaveState)) → IsKeyed m → IsKeyed (from_entries ps m)
unfolding from_entries
from_entries-IsKeyed [] m h = h
from_entries-IsKeyed (p ∷ ps) m h =
    from_entries-IsKeyed ps (insert p.slave_id p m) (All-insert _ p.slave_id p m refl h)

from_entries-IsDistinct :
    (ps : List SlaveState) (m : List (Text × SlaveState))
    → IsDistinct (keys m)
    → IsDistinct (keys (from_entries ps m))
unfolding from_entries
from_entries-IsDistinct [] m h = h
from_entries-IsDistinct (p ∷ ps) m h =
    from_entries-IsDistinct ps (insert p.slave_id p m) (insert-IsDistinct p.slave_id p m h)

eliminated_after-IsDistinct :
    ⦃c : Collation⦄ (g : GameState) (pod : SlaveState)
    → IsDistinct g.xr_eliminated_pod_ids
    → IsDistinct (eliminated_after g pod)
unfolding eliminated_after
eliminated_after-IsDistinct g pod h =
    ground (arith, IsDistinct-keep_if (λ x. not (x == pod.slave_id)) g.xr_eliminated_pod_ids h)

merge-IsWellFormed :
    (g : GameState) (u : Update) → IsSound u → IsWellFormed g → IsWellFormed (merge g u)
merge-IsWellFormed g u h w = record {
  keyed = keyed_after u.pods_by_id h.pods;
  distinct = distinct_after u.pods_by_id h.pods;
  recent = rw h.log w.recent;
  hidden = hidden_after u.xr_eliminated_pod_ids h.hidden;
}
  where
    keyed_after :
        (o : Option (List (Text × SlaveState))) → IsClearing o → IsKeyed (or_else o g.pods_by_id)
    keyed_after none k = w.keyed
    keyed_after (some []) k = tt
    keyed_after (some (x ∷ xs)) k = absurd k

    distinct_after :
        (o : Option (List (Text × SlaveState)))
        → IsClearing o
        → IsDistinct (keys (or_else o g.pods_by_id))
    distinct_after none k = w.distinct
    distinct_after (some []) k = tt
    distinct_after (some (x ∷ xs)) k = absurd k

    hidden_after :
        (o : Option (List Text)) → IsClearing o → IsDistinct (or_else o g.xr_eliminated_pod_ids)
    hidden_after none k = w.hidden
    hidden_after (some []) k = tt
    hidden_after (some (x ∷ xs)) k = absurd k

mark-IsDistinct :
    (id : Text) (s : GameStore)
    → IsWellFormed s.state
    → IsWellFormed (mark_xr_pod_eliminated id s).state
unfolding mark_xr_pod_eliminated emit
mark-IsDistinct id s w = elim (Bool-cases (includes s.state.xr_eliminated_pod_ids id)) [
  | inl old ↦ rw old w
  | inr new ↦ rw new (record {
    keyed = w.keyed;
    distinct = w.distinct;
    recent = w.recent;
    hidden = IsDistinct-append_one s.state.xr_eliminated_pod_ids id w.hidden new;
  })
]

module _ ⦃c : Collation⦄ where
  step-IsWellFormed :
      (s : GameStore) (x : Call)
      → IsSoundCall x
      → IsWellFormed s.state
      → IsWellFormed (step s x).state
  unfolding step subscribe unsubscribe patch reset_to_disconnected hydrate_snapshot upsert_pod
      set_selected_pod set_hovered_pod set_metrics set_action_in_flight set_xr_support set_xr_active
      log emit
  step-IsWellFormed s (patches u) h w = merge-IsWellFormed s.state u h w
  step-IsWellFormed s (resets m) h w =
      let v = initial_state-IsWellFormed s.state.xr_supported in
      record { keyed = v.keyed; distinct = v.distinct; recent = v.recent; hidden = v.hidden }
  step-IsWellFormed s (hydrates session metrics pods) h w = record {
    keyed = from_entries-IsKeyed pods [] tt;
    distinct = from_entries-IsDistinct pods [] tt;
    recent = w.recent;
    hidden = tt;
  }
  step-IsWellFormed s (upserts pod) h w = record {
    keyed = All-insert _ pod.slave_id pod s.state.pods_by_id refl w.keyed;
    distinct = insert-IsDistinct pod.slave_id pod s.state.pods_by_id w.distinct;
    recent = w.recent;
    hidden = eliminated_after-IsDistinct s.state pod w.hidden;
  }
  step-IsWellFormed s (marks id) h w = mark-IsDistinct id s w
  step-IsWellFormed s (logs t e) h w = record {
    keyed = w.keyed;
    distinct = w.distinct;
    recent = omega (arith, length-take 8 (stamped t e ∷ s.state.activity));
    hidden = w.hidden;
  }
  step-IsWellFormed s _ h w = record {
    keyed = w.keyed;
    distinct = w.distinct;
    recent = w.recent;
    hidden = w.hidden;
  }

  run-IsWellFormed :
      (s : GameStore) (xs : List Call)
      → All IsSoundCall xs
      → IsWellFormed s.state
      → IsWellFormed (run s xs).state
  unfolding run
  run-IsWellFormed s [] h w = w
  run-IsWellFormed s (x ∷ xs) h w = run-IsWellFormed (step s x) xs h.1 (step-IsWellFormed s x h.0 w)

  -- After any history of calls on a new store, every pod stands under its own id, no id twice, the
  -- log has at most 8 entries, and no id is eliminated twice, where each `patch` of the history clears
  -- the pods and the eliminated ids or leaves them, and leaves the log.
  pub run-new_store-IsWellFormed :
      (xr : Bool) (xs : List Call) → All IsSoundCall xs → IsWellFormed (run (new_store xr) xs).state
  unfolding new_store
  run-new_store-IsWellFormed xr xs h =
      run-IsWellFormed (new_store xr) xs h (initial_state-IsWellFormed xr)
