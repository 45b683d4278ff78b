-- ===== src/View/Peek.antt =====
-- apps/frontend-webxr/src/main.ts: the gopher that peeks beside the element under the pointer. An
-- element is a number; what the browser answers of places and sizes is read.
use hackz_megalo.Base.{
  ℕ, Bool, true, false, not, ◌≡◌, refl, Option, none, some, List, [], ◌∷◌, if◌then◌else◌, is_some,
  arith, if_cases,
}
use hackz_megalo.Scene.{Numbers, frac}

module _ ⦃n : Numbers⦄ where
  -- `visible` is the class of the follower, `place` its last left and top.
  pub record Peek : Type 0 where
    pub target : Option ℕ
    pub pointer_x : n.F
    pub pointer_y : n.F
    pub visible : Bool
    pub place : Option (n.F × n.F)

  -- The sizes of the follower and of the window.
  pub record Sizes : Type 0 where
    pub width : n.F
    pub height : n.F
    pub inner_width : n.F
    pub inner_height : n.F

  -- `clamp` of main.ts
  abbrev pub clamped : (value lo hi : n.F) → n.F
  clamped value lo hi = n.min (n.max value lo) hi

  abbrev pub or_number : n.F → n.F → n.F
  or_number a b = if n.is_falsy a then b else a

  -- An event's target, where it is an element, by the closest element around it that the gopher peeks
  -- at.
  abbrev pub find_gopher_peek_target : Option (Option ℕ) → Option ℕ
  find_gopher_peek_target none = none
  find_gopher_peek_target (some closest) = closest

  unfoldable pub update_gopher_peek_position : Sizes → Peek → Peek
  update_gopher_peek_position z p =
      if not (is_some p.target)
      then p
      else let width = or_number z.width (n.of 40) in
        let height = or_number z.height (n.mul width (frac 457 336)) in
        record p {
          place = some (
            clamped (n.add p.pointer_x (n.of 12)) (n.of 8)
                (n.sub (n.sub z.inner_width width) (n.of 8)),
            clamped (n.sub p.pointer_y (n.mul height (frac 72 100))) (n.of 8)
                (n.sub (n.sub z.inner_height height) (n.of 8)),
          );
        }

  unfoldable pub show_gopher_peek : Sizes → (target : ℕ) → Peek → Peek
  unfolding update_gopher_peek_position
  show_gopher_peek z target p =
      update_gopher_peek_position z (record p { target = some target; visible = true })

  abbrev pub hide_gopher_peek : Peek → Peek
  hide_gopher_peek p = record p { target = none; visible = false }

  -- The listeners: `under` is the event's target, or what stands at the pointer after the page has
  -- moved.
  pub data PeekEvent : Type 0 where
    points : Sizes → (under : Option (Option ℕ)) → (x y : n.F) → PeekEvent
    leaves : PeekEvent
    scrolls : Sizes → (under : Option (Option ℕ)) → PeekEvent
    resizes : Sizes → PeekEvent

  abbrev pub pointed : Sizes → (x y : n.F) → Option ℕ → Peek → Peek
  pointed z x y none p = if is_some p.target then hide_gopher_peek p else p
  pointed z x y (some t) p = show_gopher_peek z t (record p { pointer_x = x; pointer_y = y })

  abbrev pub scrolled : Sizes → Option ℕ → Peek → Peek
  scrolled z none p = hide_gopher_peek p
  scrolled z (some t) p = show_gopher_peek z t p

  unfoldable pub peek : PeekEvent → Peek → Peek
  unfolding show_gopher_peek update_gopher_peek_position
  peek (points z under x y) p = pointed z x y (find_gopher_peek_target under) p
  peek leaves p = if is_some p.target then hide_gopher_peek p else p
  peek (scrolls z under) p =
      if not (is_some p.target) then p else scrolled z (find_gopher_peek_target under) p
  peek (resizes z) p = if is_some p.target then update_gopher_peek_position z p else p

  unfoldable pub peeks : List PeekEvent → Peek → Peek
  peeks [] p = p
  peeks (e ∷ es) p = peeks es (peek e p)

  -- The gopher is there just while it has a target, and then it has a place.
  pub record IsPeeking (p : Peek) : Type 0 where
    pub shows : p.visible ≡ is_some p.target
    pub placed : p.visible ≡ true → is_some p.place ≡ true

  position-IsPeeking :
      (z : Sizes) (p : Peek)
      → p.visible ≡ is_some p.target
      → (p.visible ≡ true → is_some p.target ≡ true)
      → IsPeeking (update_gopher_peek_position z p)
  unfolding update_gopher_peek_position
  position-IsPeeking z p same on = record {
    shows = ground (arith, same);
    placed = λ e. ground (arith, same, e);
  }

  hide-IsPeeking : (p : Peek) → IsPeeking (hide_gopher_peek p)
  hide-IsPeeking p = record { shows = refl; placed = λ e. ground (arith, e) }

  show-IsPeeking : (z : Sizes) (t : ℕ) (p : Peek) → IsPeeking (show_gopher_peek z t p)
  unfolding show_gopher_peek
  show-IsPeeking z t p =
      position-IsPeeking z (record p { target = some t; visible = true }) refl (λ e. refl)

  peek-IsPeeking : (e : PeekEvent) (p : Peek) → IsPeeking p → IsPeeking (peek e p)
  unfolding peek
  peek-IsPeeking (points z none x y) p w =
      if_cases IsPeeking (is_some p.target) (hide_gopher_peek p) p (λ e. hide-IsPeeking p) (λ e. w)
  peek-IsPeeking (points z (some none) x y) p w =
      if_cases IsPeeking (is_some p.target) (hide_gopher_peek p) p (λ e. hide-IsPeeking p) (λ e. w)
  peek-IsPeeking (points z (some (some t)) x y) p w =
      show-IsPeeking z t (record p { pointer_x = x; pointer_y = y })
  peek-IsPeeking leaves p w =
      if_cases IsPeeking (is_some p.target) (hide_gopher_peek p) p (λ e. hide-IsPeeking p) (λ e. w)
  peek-IsPeeking (scrolls z under) p w =
      if_cases IsPeeking (not (is_some p.target)) p (scrolled z (find_gopher_peek_target under) p)
        (λ e. w)
        (λ e. elim under as (λ u. IsPeeking (scrolled z (find_gopher_peek_target u) p)) [
          | none ↦ hide-IsPeeking p
          | some closest ↦ elim closest as (λ u. IsPeeking (scrolled z u p)) [
            | none ↦ hide-IsPeeking p
            | some t ↦ show-IsPeeking z t p
          ]
        ])
  peek-IsPeeking (resizes z) p w =
      if_cases IsPeeking (is_some p.target) (update_gopher_peek_position z p) p
        (λ e. position-IsPeeking z p w.shows (λ f. e)) (λ e. w)

  -- Through any history of the pointer, of scrolls and of sizes, the gopher is visible just while it has
  -- a target, and then it has a place.
  pub peeks-IsPeeking : (es : List PeekEvent) (p : Peek) → IsPeeking p → IsPeeking (peeks es p)
  unfolding peeks
  peeks-IsPeeking [] p w = w
  peeks-IsPeeking (e ∷ es) p w = peeks-IsPeeking es (peek e p) (peek-IsPeeking e p w)
