-- ===== src/Store/Tests.antt =====
-- The store's theorems at concrete inputs, and runs of the store.
use Prim.Native.Nat.{Ordering}
use mathlib.Core.List.{Perm, reverse}
use hackz_megalo.Base.{
  text_eq, ℕ, ◌≡◌, ◌≢◌, ◌↔◌, refl, true, false, ltb, if◌then◌else◌, List, [], ◌∷◌, ◌++◌, some, Text,
  text, arith, lookup, includes, ◌==◌, eq_Text, values, take,
}
use hackz_megalo.Types.{
  SlaveState, SessionMeta, SessionMetrics, SlaveStatus, live, gone, reason_unspecified, system,
}
use hackz_megalo.Store.{
  GameStore, new_store, no_update, LogEntry, Stamp, mark_xr_pod_eliminated, emit,
}
use hackz_megalo.Store.Pods.{Collation, IsCollation, get_pods, upsert_pod, hydrate_snapshot}
use hackz_megalo.Store.Invariant.{
  Call, run, step, IsWellFormed, subscribes, patches, hydrates, upserts, marks, logs,
}
use hackz_megalo.Store.Sort.{get_pods-sorts, IsSorted}
use hackz_megalo.Store.Invariant.{run-new_store-IsWellFormed}
use hackz_megalo.Store.Upsert.{
  IsReason, lookup-upsert_pod, upsert_pod-restores_iff, upsert_all, upsert_all-stays_eliminated,
}
use hackz_megalo.Store.Notify.{Tells, step-Tells}
use hackz_megalo.Store.Activity.{entries, log_all, log_all_lem}

-- Texts by their first characters.
abbrev first_char : Text → ℕ
first_char [] = 0
first_char (c ∷ cs) = c

abbrev compare_first : ℕ → ℕ → Ordering
compare_first i j = if ltb i j then Ordering.lt else if ltb j i then Ordering.gt else Ordering.eq

instance abbrev pub by_first : Collation
by_first = record { locale_compare = λ a b. compare_first (first_char a) (first_char b) }

pub by_first-IsCollation : IsCollation by_first
by_first-IsCollation = record {
  refl_eq = λ a. ground arith;
  flip = λ a b e. ground (arith, e);
  trans = λ a b d e f. ground (arith, e, f);
}

abbrev pub a_pod : Text → Text → SlaveStatus → SlaveState
a_pod id name status = record {
  session_id = text "session-1";
  slave_id = id;
  k8s_pod_name = name;
  k8s_pod_uid = text "u" ++ id;
  pod_ip = text "10.0.0.1";
  status = status;
  death_reason = reason_unspecified;
  turns_lived = 3;
  remaining_turns = 4;
  stress = 10;
  fear = 0;
  infected = false;
  firewall = true;
  observed_at = text "2026-03-20T10:00:00Z";
  source = text "controller";
}

abbrev pub beta : SlaveState
beta = a_pod (text "s2") (text "beta") live

abbrev pub alpha : SlaveState
alpha = a_pod (text "s1") (text "alpha") live

abbrev pub alpha_gone : SlaveState
alpha_gone = a_pod (text "s1") (text "alpha") gone

abbrev pub a_session : SessionMeta
a_session = record { session_id = text "session-1"; started_at = text "2026-03-20T09:00:00Z" }

abbrev pub some_metrics : SessionMetrics
some_metrics = record {
  session_id = text "session-1";
  live_slaves = 2;
  gone_slaves = 5;
  updated_at = text "2026-03-20T10:00:00Z";
}

abbrev pub a_stamp : Stamp
a_stamp = record { id = text "1"; created_at = text "2026-03-20T10:00:00Z" }

abbrev an_entry : LogEntry
an_entry = record { kind = system; message = text "session closed" }

abbrev some_calls : List Call
some_calls =
    subscribes 0
    ∷ hydrates a_session some_metrics (beta ∷ alpha ∷ [])
    ∷ marks (text "s1")
    ∷ upserts alpha_gone
    ∷ logs a_stamp an_entry
    ∷ patches no_update
    ∷ []

abbrev played : GameStore
played = run (new_store false) some_calls

abbrev pub hydrated : GameStore
hydrated = hydrate_snapshot a_session some_metrics (beta ∷ alpha ∷ []) (new_store false)

abbrev hidden : GameStore
hidden = mark_xr_pod_eliminated (text "s1") hydrated

-- Beta came first, and is listed second.
sorts_names : get_pods hydrated.state ≡ alpha ∷ beta ∷ []
unfolding get_pods hydrate_snapshot new_store emit text_eq
sorts_names = refl

get_pods-sorts_example :
    IsSorted (get_pods hydrated.state)
    × Perm (get_pods hydrated.state) (values hydrated.state.pods_by_id)
get_pods-sorts_example = get_pods-sorts by_first-IsCollation hydrated.state

run-new_store-IsWellFormed_example : IsWellFormed (run (new_store false) some_calls).state
run-new_store-IsWellFormed_example =
    run-new_store-IsWellFormed false some_calls
      (tt, (tt, (tt, (tt, (tt, (record { pods = tt; hidden = tt; log = refl }, tt))))))

lookup-upsert_pod_example : lookup (text "s1") (upsert_pod alpha_gone hydrated).state.pods_by_id ≡ (
    if text "s1" == text "s1"
    then some alpha_gone
    else lookup (text "s1") hydrated.state.pods_by_id)
lookup-upsert_pod_example = lookup-upsert_pod alpha_gone hydrated (text "s1")

hides : includes hidden.state.xr_eliminated_pod_ids (text "s1") ≡ true
unfolding mark_xr_pod_eliminated hydrate_snapshot includes new_store emit text_eq
hides = refl

finds : lookup (text "s1") hidden.state.pods_by_id ≡ some alpha
unfolding mark_xr_pod_eliminated hydrate_snapshot lookup includes new_store emit text_eq
finds = refl

is_alive : live ≢ gone
is_alive e = ground (arith, e)

upsert_pod-restores_iff_example :
    (includes (upsert_pod alpha hidden).state.xr_eliminated_pod_ids (text "s1") ≡ false) ↔ (
      (text "s1" ≡ text "s1")
      × (live ≢ gone)
      × IsReason (lookup (text "s1") hidden.state.pods_by_id) alpha)
upsert_pod-restores_iff_example = upsert_pod-restores_iff alpha hidden (text "s1") hides

upsert_all-stays_eliminated_example :
    includes (upsert_all (alpha ∷ alpha ∷ []) hidden).state.xr_eliminated_pod_ids (text "s1") ≡ true
upsert_all-stays_eliminated_example =
    upsert_all-stays_eliminated (alpha ∷ alpha ∷ []) hidden (text "s1") (text "us1") alpha finds
      refl is_alive hides ((refl, refl, is_alive), ((refl, refl, is_alive), tt))

step-Tells_example : Tells hydrated (step hydrated (marks (text "s1"))) (marks (text "s1"))
step-Tells_example = step-Tells hydrated (marks (text "s1"))

log_all_example :
    (log_all ((a_stamp, an_entry) ∷ []) hydrated).state.activity
    ≡ take 8 (reverse (entries ((a_stamp, an_entry) ∷ [])) ++ hydrated.state.activity)
unfolding hydrate_snapshot new_store emit
log_all_example = log_all_lem ((a_stamp, an_entry) ∷ []) hydrated (omega arith)

pub hydrated-IsWellFormed : IsWellFormed hydrated.state
unfolding run step
hydrated-IsWellFormed =
    run-new_store-IsWellFormed false (hydrates a_session some_metrics (beta ∷ alpha ∷ []) ∷ [])
      (tt, tt)
