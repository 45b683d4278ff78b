-- ===== src/Scene/Anchors.antt =====
-- apps/frontend-webxr/src/scene.ts: the anchor of the board, `createBoardAnchor` to `clearBoardAnchor`.
-- An anchor is known by the number that the browser gives it. A call of `createAnchor` is a request
-- that the browser answers later, in any order.
pub mod Histories
use hackz_megalo.Base.{
  ℕ, suc, Bool, true, false, not, Option, none, some, List, [], ◌∷◌, ◌++◌, if◌then◌else◌, nat_eq,
  includes, without, keep_if, eq_ℕ,
}

pub data AnchorStatus : Type 0 where
  no_xr unavailable ready locking locked failed : AnchorStatus

-- `pending` are the requests that wait for their answer; `made` and `deleted` are the anchors that the
-- browser has made, and those that it was asked to delete.
pub record BoardAnchor : Type 0 where
  pub anchor : Option ℕ
  pub status : AnchorStatus
  pub request_id : ℕ
  pub pending : List ℕ
  pub made : List ℕ
  pub deleted : List ℕ

abbrev pub delete_anchor : Option ℕ → List ℕ → List ℕ
delete_anchor none deleted = deleted
delete_anchor (some k) deleted = deleted ++ k ∷ []

abbrev pub cleared_status : (presenting supported : Bool) → AnchorStatus
cleared_status presenting supported =
    if not presenting then no_xr else if not supported then unavailable else ready

unfoldable pub clear_board_anchor :
    (presenting supported increments : Bool) → BoardAnchor → BoardAnchor
clear_board_anchor presenting supported increments b = record b {
  request_id = if increments then suc b.request_id else b.request_id;
  deleted = delete_anchor b.anchor b.deleted;
  anchor = none;
  status = cleared_status presenting supported;
}

-- Up to its `await`. `creates` is whether the frame has `createAnchor`.
unfoldable pub create_board_anchor : (creates : Bool) → BoardAnchor → BoardAnchor
create_board_anchor creates b =
    if not creates
    then record b { status = unavailable }
    else record b { request_id = suc b.request_id; pending = suc b.request_id ∷ b.pending }

abbrev pub answered : ℕ → BoardAnchor → BoardAnchor
answered request b = record b { pending = without request b.pending }

-- After the `await`: the anchor `k` was made, or none.
unfoldable pub anchor_made :
    (presenting supported : Bool) → (request k : ℕ) → BoardAnchor → BoardAnchor
unfolding clear_board_anchor keep_if
anchor_made presenting supported request k b =
    let a = record (answered request b) { made = b.made ++ k ∷ [] } in
    if not (nat_eq request a.request_id)
    then record a { deleted = a.deleted ++ k ∷ [] }
    else record (clear_board_anchor presenting supported false a) {
      anchor = some k;
      status = locked;
    }

unfoldable pub anchor_failed : (request : ℕ) → BoardAnchor → BoardAnchor
unfolding keep_if
anchor_failed request b =
    let a = answered request b in
    if not (nat_eq request a.request_id) then a else record a { status = failed }
