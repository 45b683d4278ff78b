-- ===== src/Scene/Gusts/Histories.antt =====
-- apps/frontend-webxr/src/scene.ts: histories of launches, rounds and clearings of gusts.
use hackz_megalo.Base.{
  ℕ, ◌+◌, ◌≤◌, ◌≡◌, inl, inr, refl, ap, List, [], ◌∷◌, nat_eq, nat_eq_iff, eq_Text, Bool-cases,
  arith,
}
use hackz_megalo.Scene.{
  left, right, Numbers, Vector, GustSource, by_hand, Scene, Handedness, Hand, put_hand,
}
use hackz_megalo.Scene.Gusts.{Frame, advance_gusts, clear_gusts, launch_gust, launched_from}
use hackz_megalo.Scene.Gusts.Triggers.{Bearings, try_trigger_hand_gust, try_cases, fired, unlatched}
use hackz_megalo.Scene.Gusts.Pool.{
  total, bit, IsPooled, advance_gusts-total, clear_gusts-total, launched_from-total,
  launch_gust-total,
}

module _ ⦃n : Numbers⦄ where
  put_hand-total :
      (hand : Handedness) (x : Hand) (s : Scene) (h : ℕ) → total h (put_hand hand x s) ≡ total h s
  put_hand-total left x s h = refl
  put_hand-total right x s h = refl

  try_trigger_hand_gust-total :
      (b : Bearings) (handle : ℕ) (hand : Handedness) (s : Scene) (h : ℕ)
      → total h (try_trigger_hand_gust b handle hand s) ≤ total h s + bit (nat_eq handle h)
  try_trigger_hand_gust-total b handle hand s h =
      try_cases (λ x. total h x ≤ total h s + bit (nat_eq handle h)) b handle hand s (omega arith)
        (λ x k e q c. omega (arith, put_hand-total hand k s h))
        (λ x v d e t. omega (
          arith,
          launched_from-total handle v d (by_hand hand) s h,
          put_hand-total hand (fired b.now (unlatched x))
              (launched_from handle v d (by_hand hand) s).1 h,
        ))

  -- What makes, moves and puts away gusts.
  pub data GustCall : Type 0 where
    advances : Frame → GustCall
    clears : GustCall
    tries : Bearings → (handle : ℕ) → Handedness → GustCall
    launches : (handle : ℕ) → (source_local direction_local : Vector) → GustSource → GustCall

  unfoldable pub run_gust : GustCall → Scene → Scene
  run_gust (advances f) s = advance_gusts f s
  run_gust clears s = clear_gusts s
  run_gust (tries b handle hand) s = try_trigger_hand_gust b handle hand s
  run_gust (launches handle v d source) s = (launch_gust handle v d source s).1

  unfoldable pub run_gusts : List GustCall → Scene → Scene
  run_gusts [] s = s
  run_gusts (c ∷ cs) s = run_gusts cs (run_gust c s)

  -- The engine gives a new collider a handle that no gust has.
  abbrev IsFresh : GustCall → Scene → Type 0
  IsFresh (tries b handle hand) s = total handle s ≡ 0
  IsFresh (launches handle v d source) s = total handle s ≡ 0
  IsFresh c s = Unit

  abbrev pub AreFresh : List GustCall → Scene → Type 0
  AreFresh [] s = Unit
  AreFresh (c ∷ cs) s = IsFresh c s × AreFresh cs (run_gust c s)

  grows_once :
      (handle h k : ℕ) (s : Scene)
      → total handle s ≡ 0
      → total h s ≤ 1
      → k ≤ total h s + bit (nat_eq handle h)
      → k ≤ 1
  grows_once handle h k s fresh w p = elim (Bool-cases (nat_eq handle h)) [
    | inl e ↦
        let t = ap (λ i. total i s) ((nat_eq_iff handle h).0 e) in ground (arith, e, p, t, fresh)
    | inr e ↦ ground (arith, e, p, w)
  ]

  run_gust-IsPooled :
      (c : GustCall) (s : Scene) → IsFresh c s → IsPooled s → IsPooled (run_gust c s)
  unfolding run_gust IsPooled
  run_gust-IsPooled (advances f) s fresh w h = omega (arith, w h, advance_gusts-total f s h)
  run_gust-IsPooled clears s fresh w h = omega (arith, w h, clear_gusts-total s h)
  run_gust-IsPooled (tries b handle hand) s fresh w h =
      grows_once handle h (total h (try_trigger_hand_gust b handle hand s)) s fresh (w h)
        (try_trigger_hand_gust-total b handle hand s h)
  run_gust-IsPooled (launches handle v d source) s fresh w h =
      grows_once handle h (total h (launch_gust handle v d source s).1) s fresh (w h)
        (launch_gust-total handle v d source s h)

  -- Through any launches, rounds and clearings, where the engine gives a new gust a handle that no
  -- gust has, no gust stands twice among those that blow and those kept for later use.
  pub run_gusts-IsPooled :
      (cs : List GustCall) (s : Scene) → AreFresh cs s → IsPooled s → IsPooled (run_gusts cs s)
  unfolding run_gusts
  run_gusts-IsPooled [] s fresh w = w
  run_gusts-IsPooled (c ∷ cs) s fresh w =
      run_gusts-IsPooled cs (run_gust c s) fresh.1 (run_gust-IsPooled c s fresh.0 w)
