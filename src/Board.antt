-- ===== src/Board.antt =====
-- apps/frontend-webxr/src/main.ts: what the store's listener hands to the scene, and so which pods
-- stand on the board.
pub mod Tests
use mathlib.Core.Path.{ap₂}
use hackz_megalo.Base.{
  ℕ, Bool, true, false, not, ◌&&◌, ◌||◌, ◌≡◌, refl, sym, ap, subst, Option-cases, ◌∙◌, Option, none,
  some, List, [], ◌∷◌, Text, if◌then◌else◌, lookup, includes, keys, values, has, includes-keys,
  eq_Text, text_eq, text_eq_iff, arith, IsDistinct, map, All, All-lookup, keep_if, Bool-cases, inl,
  inr,
}
use hackz_megalo.Types.{SlaveState, is_gone}
use hackz_megalo.Store.{GameState}
use hackz_megalo.Store.Pods.{Collation, is_gt, insert_sorted, to_sorted, get_pods}
use hackz_megalo.Store.Invariant.{IsKeyed, IsWellFormed}
use hackz_megalo.Scene.{Numbers, Scene}
use hackz_megalo.Scene.Update.{Supply, View, is_out, active_of, active_pod_ids, update}
use hackz_megalo.Scene.Update.Losses.{is_shown}
use hackz_megalo.Scene.Update.Presence.{ids_of, update-shows}

-- The arguments of `scene.update`.
abbrev pub view_of : ⦃c : Collation⦄ ⦃n : Numbers⦄ → GameState → View
view_of g = record {
  pods = get_pods g;
  selected = g.selected_pod_id;
  hovered = g.hovered_pod_id;
  eliminated = g.xr_eliminated_pod_ids;
}

unfoldable pub show : ⦃c : Collation⦄ ⦃n : Numbers⦄ → Supply → GameState → Scene → Scene
show u g s = update u (view_of g) s

-- Whether the state has a pod of the id that is on the board: not gone and not eliminated.
unfoldable pub is_on_board : GameState → Text → Bool
unfolding lookup includes
is_on_board g id = elim (lookup id g.pods_by_id) [
  | none ↦ false
  | some pod ↦ not (is_gone pod.status || includes g.xr_eliminated_pod_ids id)
]

module _ ⦃c : Collation⦄ ⦃n : Numbers⦄ where
  includes-insert_sorted :
      (p : SlaveState) (qs : List SlaveState) (j : Text)
      → includes (ids_of (insert_sorted p qs)) j ≡ (text_eq p.slave_id j || includes (ids_of qs) j)
  unfolding insert_sorted includes
  includes-insert_sorted p [] j = refl
  includes-insert_sorted p (q ∷ qs) j = ground (arith, includes-insert_sorted p qs j)

  insert_sorted-IsDistinct :
      (p : SlaveState) (qs : List SlaveState)
      → IsDistinct (ids_of qs)
      → includes (ids_of qs) p.slave_id ≡ false
      → IsDistinct (ids_of (insert_sorted p qs))
  unfolding insert_sorted includes
  insert_sorted-IsDistinct p [] d t = (refl, tt)
  insert_sorted-IsDistinct p (q ∷ qs) d t =
      elim (Bool-cases (is_gt (c.locale_compare p.k8s_pod_name q.k8s_pod_name))) [
        | inl e ↦
            rw (insert_sorted, e)
              (
                ground (
                  arith,
                  includes-insert_sorted p qs q.slave_id,
                  d.0,
                  t,
                  text_eq_iff p.slave_id q.slave_id,
                  text_eq_iff q.slave_id p.slave_id,
                ),
                insert_sorted-IsDistinct p qs d.1 (ground (arith, t)),
              )
        | inr e ↦ rw (insert_sorted, e) (t, d)
      ]

  includes-to_sorted :
      (ps : List SlaveState) (j : Text)
      → includes (ids_of (to_sorted ps)) j ≡ includes (ids_of ps) j
  unfolding to_sorted includes
  includes-to_sorted [] j = refl
  includes-to_sorted (p ∷ ps) j =
      ground (arith, includes-insert_sorted p (to_sorted ps) j, includes-to_sorted ps j)

  to_sorted-IsDistinct :
      (ps : List SlaveState) → IsDistinct (ids_of ps) → IsDistinct (ids_of (to_sorted ps))
  unfolding to_sorted
  to_sorted-IsDistinct [] d = tt
  to_sorted-IsDistinct (p ∷ ps) d =
      insert_sorted-IsDistinct p (to_sorted ps) (to_sorted-IsDistinct ps d.1)
        (includes-to_sorted ps p.slave_id ∙ d.0)

  module _ (v : View) where
    active-insert_sorted :
        (p : SlaveState) (qs : List SlaveState) (j : Text)
        → includes (active_of v (insert_sorted p qs)) j
          ≡ ((not (is_out v p) && text_eq p.slave_id j) || includes (active_of v qs) j)
    unfolding insert_sorted active_of keep_if includes
    active-insert_sorted p [] j = ground arith
    active-insert_sorted p (q ∷ qs) j = ground (arith, active-insert_sorted p qs j)

    active-to_sorted :
        (ps : List SlaveState) (j : Text)
        → includes (active_of v (to_sorted ps)) j ≡ includes (active_of v ps) j
    unfolding to_sorted active_of keep_if includes
    active-to_sorted [] j = refl
    active-to_sorted (p ∷ ps) j =
        ground (arith, active-insert_sorted p (to_sorted ps) j, active-to_sorted ps j)

    unlisted :
        (m : List (Text × SlaveState)) (j : Text)
        → IsKeyed m
        → includes (keys m) j ≡ false
        → includes (active_of v (values m)) j ≡ false
    unfolding active_of keep_if includes
    unlisted [] j w t = refl
    unlisted ((i, p) ∷ m) j w t =
        ground (arith, t, w.0, unlisted m j w.1, ap (λ k. text_eq k j) w.0)

    listed :
        (m : List (Text × SlaveState)) (j : Text)
        → IsKeyed m
        → IsDistinct (keys m)
        → includes (active_of v (values m)) j
          ≡ (elim (lookup j m) [ none ↦ false | some p ↦ not (is_out v p) ])
    unfolding active_of keep_if includes lookup
    listed [] j w d = refl
    listed ((i, p) ∷ m) j w d = elim (Bool-cases (text_eq i j)) [
      | inl e ↦
          let t = unlisted m j w.1 (ap (includes (keys m)) (sym ((text_eq_iff i j).0 e)) ∙ d.0) in
          rw e (ground (arith, e, t, w.0, ap (λ k. text_eq k j) w.0))
      | inr e ↦ rw e (ground (arith, e, listed m j w.1 d.1, ap (λ k. text_eq k j) w.0))
    ]

  ids-values : (m : List (Text × SlaveState)) → IsKeyed m → ids_of (values m) ≡ keys m
  ids-values [] w = refl
  ids-values ((i, p) ∷ m) w = ap₂ (λ k ks. k ∷ ks) w.0 (ids-values m w.1)

  get_pods-IsDistinct : (g : GameState) → IsWellFormed g → IsDistinct (ids_of (get_pods g))
  unfolding get_pods
  get_pods-IsDistinct g w =
      to_sorted-IsDistinct (values g.pods_by_id)
        (subst IsDistinct (sym (ids-values g.pods_by_id w.keyed)) w.distinct)

  off_board : (g : GameState) (j : Text) → lookup j g.pods_by_id ≡ none → is_on_board g j ≡ false
  unfolding is_on_board
  off_board g j e = rw (is_on_board, e) refl

  on_board :
      (g : GameState) (j : Text)
      → IsWellFormed g
      → includes (active_pod_ids (view_of g)) j ≡ is_on_board g j
  unfolding get_pods is_on_board
  on_board g j w =
      active-to_sorted (view_of g) (values g.pods_by_id) j
      ∙ listed (view_of g) g.pods_by_id j w.keyed w.distinct
      ∙ elim (Option-cases (lookup j g.pods_by_id)) [
        | inl e ↦ rw e (sym (off_board g j e))
        | inr (p, e) ↦
            rw (is_on_board, e)
              (ap (λ k. not (is_gone p.status || includes g.xr_eliminated_pod_ids k))
                (All-lookup (λ (b : Text × SlaveState). b.1.slave_id ≡ b.0) j g.pods_by_id w.keyed
                  e))
      ]

  -- Once the listener has told the scene of a well-formed state, a pod has a mesh just where the state
  -- has it under its id and it is neither gone nor eliminated, whatever the scene held before.
  pub show-shows :
      (u : Supply) (g : GameState) (s : Scene) (j : Text)
      → IsWellFormed g
      → is_shown (show u g s) j ≡ is_on_board g j
  unfolding show
  show-shows u g s j w =
      (update-shows u (view_of g) s j (get_pods-IsDistinct g w)).0 ∙ on_board g j w
