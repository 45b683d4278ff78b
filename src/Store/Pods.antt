-- ===== src/Store/Pods.antt =====
-- apps/frontend-webxr/src/store.ts: the operations of the store that read or write the pods.
-- `localeCompare` depends on the browser's locale and is a parameter, `Collation`.
use Prim.Native.Nat.{Ordering}
use hackz_megalo.Base.{
  ℕ, Bool, true, false, not, ◌&&◌, ◌≡◌, ◌≢◌, Option, none, some, List, [], ◌∷◌, Text, text, truthy,
  ◌==◌, if◌then◌else◌, or_else, on_some, includes, without, keep_if, length, lookup, insert, has,
  values, eq_Text,
}
use hackz_megalo.Types.{SlaveState, SessionMeta, SessionMetrics, is_gone}
use hackz_megalo.Store.{GameState, GameStore, commit, playing}

-- `localeCompare`: the sign of its answer. The order depends on the browser's locale.
pub record Collation : Type 0 where
  pub locale_compare : Text → Text → Ordering

-- What the language's documentation says of `localeCompare`.
pub record IsCollation (c : Collation) : Type 0 where
  pub refl_eq : (a : Text) → c.locale_compare a a ≡ Ordering.eq
  pub flip : (a b : Text) → c.locale_compare a b ≡ Ordering.gt → c.locale_compare b a ≡ Ordering.lt
  pub trans :
      (a b d : Text)
      → c.locale_compare a b ≢ Ordering.gt
      → c.locale_compare b d ≢ Ordering.gt
      → c.locale_compare a d ≢ Ordering.gt

abbrev pub is_gt : Ordering → Bool
is_gt Ordering.gt = true
is_gt _ = false

abbrev pub is_lt : Ordering → Bool
is_lt Ordering.lt = true
is_lt _ = false

-- `Object.fromEntries(pods.map((pod) => [pod.slave_id, pod]))`
unfoldable pub from_entries : List SlaveState → List (Text × SlaveState) → List (Text × SlaveState)
unfolding insert
from_entries [] m = m
from_entries (p ∷ ps) m = from_entries ps (insert p.slave_id p m)

-- `pods[0]?.slave_id ?? null`
abbrev pub first_id : List SlaveState → Option Text
first_id [] = none
first_id (p ∷ ps) = some p.slave_id

abbrev pub hydrated_selection :
    Option Text → List SlaveState → List (Text × SlaveState) → Option Text
hydrated_selection none pods m = first_id pods
hydrated_selection (some id) pods m = if truthy id && has m id then some id else first_id pods

unfoldable pub hydrate_snapshot :
    SessionMeta → SessionMetrics → List SlaveState → GameStore → GameStore
unfolding from_entries lookup
hydrate_snapshot session metrics pods s =
    let pods_by_id = from_entries pods [] in
    commit s (record (s.state) {
      phase = playing;
      session = some session;
      metrics = some metrics;
      pods_by_id = pods_by_id;
      selected_pod_id = hydrated_selection s.state.selected_pod_id pods pods_by_id;
      error_message = none;
      connection_message = text "接続中";
      xr_eliminated_pod_ids = [];
    })

unfoldable pub should_restore_eliminated_pod :
    ⦃c : Collation⦄ → Option SlaveState → SlaveState → Bool
should_restore_eliminated_pod none next = true
should_restore_eliminated_pod ⦃c⦄ (some previous) next =
    if not (previous.k8s_pod_uid == next.k8s_pod_uid)
    then true
    else is_gone previous.status
      && not (is_lt (c.locale_compare next.observed_at previous.observed_at))

-- The list of eliminated ids after an update.
unfoldable pub eliminated_after : ⦃c : Collation⦄ → GameState → SlaveState → List Text
unfolding includes lookup keep_if should_restore_eliminated_pod
eliminated_after g pod =
    if not (is_gone pod.status)
      && includes g.xr_eliminated_pod_ids pod.slave_id
      && should_restore_eliminated_pod (lookup pod.slave_id g.pods_by_id) pod
    then without pod.slave_id g.xr_eliminated_pod_ids
    else g.xr_eliminated_pod_ids

unfoldable pub upsert_pod : ⦃c : Collation⦄ → SlaveState → GameStore → GameStore
unfolding insert eliminated_after
upsert_pod pod s = commit s (record (s.state) {
  pods_by_id = insert pod.slave_id pod s.state.pods_by_id;
  selected_pod_id = some (or_else s.state.selected_pod_id pod.slave_id);
  xr_eliminated_pod_ids = eliminated_after s.state pod;
})

-- One step of a stable sort by `localeCompare` of the pods' names.
unfoldable pub insert_sorted : ⦃c : Collation⦄ → SlaveState → List SlaveState → List SlaveState
insert_sorted p [] = p ∷ []
insert_sorted ⦃c⦄ p (q ∷ qs) =
    if is_gt (c.locale_compare p.k8s_pod_name q.k8s_pod_name)
    then q ∷ insert_sorted p qs
    else p ∷ q ∷ qs

unfoldable pub to_sorted : ⦃c : Collation⦄ → List SlaveState → List SlaveState
unfolding insert_sorted
to_sorted [] = []
to_sorted (p ∷ ps) = insert_sorted p (to_sorted ps)

unfoldable pub get_pods : ⦃c : Collation⦄ → GameState → List SlaveState
unfolding to_sorted
get_pods g = to_sorted (values g.pods_by_id)

pub record Counts : Type 0 where
  pub live : ℕ
  pub gone : ℕ

unfoldable pub get_effective_counts : ⦃c : Collation⦄ → GameState → Counts
unfolding get_pods keep_if
get_effective_counts g =
    let pods = get_pods g in
    record {
      live =
          or_else (on_some g.metrics (λ m. m.live_slaves))
            (length (keep_if (λ p. not (is_gone p.status)) pods));
      gone =
          or_else (on_some g.metrics (λ m. m.gone_slaves))
            (length (keep_if (λ p. is_gone p.status) pods));
    }
