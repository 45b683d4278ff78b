-- ===== src/Scene/Anchors/Histories.antt =====
-- Histories of the board's anchor: the board is released, anchors are asked for, and the browser
-- answers, in any order and each request at most once.
use hackz_megalo.Base.{
  ℕ, Bool, true, ◌+◌, ◌≤◌, ◌<◌, ◌≡◌, Option, none, some, List, [], ◌∷◌, ◌++◌, if◌then◌else◌, nat_eq,
  includes, keep_if, count_if, count_if-append, if_cases, not, includes-keep_if, eq_ℕ, arith,
}
use hackz_megalo.Scene.Anchors.{
  BoardAnchor, clear_board_anchor, create_board_anchor, anchor_made, anchor_failed, delete_anchor,
}

pub data AnchorEvent : Type 0 where
  clears : (presenting supported : Bool) → AnchorEvent
  asks : (creates : Bool) → AnchorEvent
  makes : (presenting supported : Bool) → (request k : ℕ) → AnchorEvent
  fails : (request : ℕ) → AnchorEvent

unfoldable pub anchor_step : AnchorEvent → BoardAnchor → BoardAnchor
unfolding includes
anchor_step (clears presenting supported) b = clear_board_anchor presenting supported true b
anchor_step (asks creates) b = create_board_anchor creates b
anchor_step (makes presenting supported request k) b =
    if includes b.pending request then anchor_made presenting supported request k b else b
anchor_step (fails request) b = if includes b.pending request then anchor_failed request b else b

unfoldable pub anchor_steps : List AnchorEvent → BoardAnchor → BoardAnchor
anchor_steps [] b = b
anchor_steps (e ∷ es) b = anchor_steps es (anchor_step e b)

abbrev pub times : ℕ → List ℕ → ℕ
times k ks = count_if (nat_eq k) ks

abbrev pub kept : ℕ → Option ℕ → ℕ
kept k none = 0
kept k (some j) = if nat_eq k j then 1 else 0

-- As often as the browser made the anchor `k`, it was asked to delete it, but for the one that the
-- board has.
abbrev pub IsAccounted : ℕ → BoardAnchor → Type 0
IsAccounted k b = times k b.made ≡ times k b.deleted + kept k b.anchor

pub times-append_one :
    (k j : ℕ) (ks : List ℕ) → times k (ks ++ j ∷ []) ≡ times k ks + (if nat_eq k j then 1 else 0)
unfolding count_if
times-append_one k j ks = ground (arith, count_if-append (nat_eq k) ks (j ∷ []))

times-delete_anchor :
    (k : ℕ) (o : Option ℕ) (ks : List ℕ) → times k (delete_anchor o ks) ≡ times k ks + kept k o
times-delete_anchor k none ks = omega arith
times-delete_anchor k (some j) ks = times-append_one k j ks

clear-IsAccounted :
    (k : ℕ) (presenting supported increments : Bool) (b : BoardAnchor)
    → IsAccounted k b
    → IsAccounted k (clear_board_anchor presenting supported increments b)
unfolding clear_board_anchor
clear-IsAccounted k presenting supported increments b w =
    ground (arith, w, times-delete_anchor k b.anchor b.deleted)

made-IsAccounted :
    (k : ℕ) (presenting supported : Bool) (request j : ℕ) (b : BoardAnchor)
    → IsAccounted k b
    → IsAccounted k (anchor_made presenting supported request j b)
unfolding anchor_made clear_board_anchor
made-IsAccounted k presenting supported request j b w = ground (
  arith,
  w,
  times-append_one k j b.made,
  times-append_one k j b.deleted,
  times-delete_anchor k b.anchor b.deleted,
)

step-IsAccounted :
    (k : ℕ) (e : AnchorEvent) (b : BoardAnchor) → IsAccounted k b → IsAccounted k (anchor_step e b)
unfolding anchor_step create_board_anchor anchor_failed
step-IsAccounted k (clears presenting supported) b w =
    clear-IsAccounted k presenting supported true b w
step-IsAccounted k (asks creates) b w = ground (arith, w)
step-IsAccounted k (makes presenting supported request j) b w =
    if_cases (λ x. IsAccounted k x) (includes b.pending request)
      (anchor_made presenting supported request j b) b
      (λ e. made-IsAccounted k presenting supported request j b w) (λ e. w)
step-IsAccounted k (fails request) b w = ground (arith, w)

-- Through any history of the board's anchor, each anchor that the browser makes is deleted as often
-- as it is made, but for one time while it is the board's: none is lost and none is deleted twice,
-- where that was so at first.
pub anchor_steps-IsAccounted :
    (k : ℕ) (es : List AnchorEvent) (b : BoardAnchor)
    → IsAccounted k b
    → IsAccounted k (anchor_steps es b)
unfolding anchor_steps
anchor_steps-IsAccounted k [] b w = w
anchor_steps-IsAccounted k (e ∷ es) b w =
    anchor_steps-IsAccounted k es (anchor_step e b) (step-IsAccounted k e b w)

-- The requests that wait are no later than the last.
abbrev pub IsTimed : BoardAnchor → Type 0
IsTimed b = (request : ℕ) → includes b.pending request ≡ true → request ≤ b.request_id

step-request_id : (e : AnchorEvent) (b : BoardAnchor) → b.request_id ≤ (anchor_step e b).request_id
unfolding anchor_step clear_board_anchor create_board_anchor anchor_made anchor_failed
step-request_id (clears presenting supported) b = ground arith
step-request_id (asks creates) b = ground arith
step-request_id (makes presenting supported request j) b = ground arith
step-request_id (fails request) b = ground arith

steps-request_id :
    (es : List AnchorEvent) (b : BoardAnchor) → b.request_id ≤ (anchor_steps es b).request_id
unfolding anchor_steps
steps-request_id [] b = omega arith
steps-request_id (e ∷ es) b =
    ground (arith, step-request_id e b, steps-request_id es (anchor_step e b))

stale_anchor :
    (presenting supported : Bool) (request k : ℕ) (b : BoardAnchor)
    → request < b.request_id
    → ((anchor_made presenting supported request k b).anchor ≡ b.anchor)
      × ((anchor_made presenting supported request k b).deleted ≡ b.deleted ++ k ∷ [])
unfolding anchor_made
stale_anchor presenting supported request k b w = ground (arith, w)

step-IsTimed : (e : AnchorEvent) (b : BoardAnchor) → IsTimed b → IsTimed (anchor_step e b)
unfolding anchor_step clear_board_anchor create_board_anchor anchor_made anchor_failed includes
    keep_if
step-IsTimed (clears presenting supported) b w request p = ground (arith, w request, p)
step-IsTimed (asks creates) b w request p = ground (arith, w request, p)
step-IsTimed (makes presenting supported q j) b w request p =
    ground (arith, w request, p, includes-keep_if (λ x. not (nat_eq x q)) b.pending request)
step-IsTimed (fails q) b w request p =
    ground (arith, w request, p, includes-keep_if (λ x. not (nat_eq x q)) b.pending request)

pub anchor_steps-IsTimed :
    (es : List AnchorEvent) (b : BoardAnchor) → IsTimed b → IsTimed (anchor_steps es b)
unfolding anchor_steps
anchor_steps-IsTimed [] b w = w
anchor_steps-IsTimed (e ∷ es) b w = anchor_steps-IsTimed es (anchor_step e b) (step-IsTimed e b w)

-- From a board none of whose requests is later than the last: an anchor that was asked for before the
-- board's anchor was given up does not become the board's, whatever happened before and between; it
-- is deleted.
pub late_anchor :
    (presenting supported now_presenting now_supported : Bool) (request k : ℕ)
    (before after : List AnchorEvent) (b : BoardAnchor)
    → IsTimed b
    → includes (anchor_steps before b).pending request ≡ true
    → let a =
        anchor_steps after (clear_board_anchor presenting supported true (anchor_steps before b)) in
      ((anchor_made now_presenting now_supported request k a).anchor ≡ a.anchor)
      × ((anchor_made now_presenting now_supported request k a).deleted ≡ a.deleted ++ k ∷ [])
unfolding clear_board_anchor
late_anchor presenting supported now_presenting now_supported request k before after b w p =
    let c = clear_board_anchor presenting supported true (anchor_steps before b) in
    stale_anchor now_presenting now_supported request k (anchor_steps after c)
      (ground (arith, anchor_steps-IsTimed before b w request p, steps-request_id after c))
