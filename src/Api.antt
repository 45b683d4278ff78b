-- ===== src/Api.antt =====
-- apps/frontend-webxr/src/api.ts: the addresses of the service, `requestJSON`, and the wait for the
-- first snapshot of a session. The sending and the closing on a socket are in Session.
pub mod Addresses
pub mod Waiting
pub mod Tests
use hackz_megalo.Base.{
  ℕ, zero, suc, ◌+◌, Bool, true, false, ◌&&◌, Option, none, some, List, [], ◌∷◌, ◌++◌, Text, text,
  if◌then◌else◌, nat_eq, or_else, truthy, truthy_option, text_eq,
}
use hackz_megalo.Types.{SlaveState, SessionMeta, SessionMetrics}
use hackz_megalo.Session.Start.{Snapshot}
use hackz_megalo.View.{decimal}

abbrev slash : ℕ
slash = 47

-- A character before what is left of the rest.
abbrev pub put_before : ℕ → Text → Text
put_before c [] = if nat_eq c slash then [] else c ∷ []
put_before c (d ∷ ds) = c ∷ d ∷ ds

-- `value.replace(/\/+$/, "")`
unfoldable pub trim_trailing_slash : Text → Text
trim_trailing_slash [] = []
trim_trailing_slash (c ∷ cs) = put_before c (trim_trailing_slash cs)

abbrev pub api_base_url : Option Text → Text
api_base_url configured = trim_trailing_slash (or_else configured [])

-- `configured` is `VITE_WS_URL`; `protocol` and `host` are of `window.location`.
unfoldable pub ws_url : (configured : Option Text) (protocol host : Text) → Text
ws_url configured protocol host =
    if truthy_option configured
    then or_else configured []
    else (if text_eq protocol (text "https:") then text "wss:" else text "ws:")
      ++ text "//"
      ++ host
      ++ text "/ws"

-- What a promise settles with. A rejection has a message where it is an `Error`.
pub data Settled {ℓ} (A : Type ℓ) : Type ℓ where
  value : A → Settled A
  thrown : Option Text → Settled A

-- What `fetch` answers, with what reading its body gives.
pub record Response {ℓ} (A : Type ℓ) : Type ℓ where
  pub ok : Bool
  pub status : ℕ
  pub body : Settled Text
  pub json : Settled A

abbrev refusal {ℓ} : {A : Type ℓ} → ℕ → Settled Text → Settled A
refusal status (thrown e) = thrown e
refusal status (value m) =
    thrown (some (if truthy m then m else text "request failed: " ++ decimal status))

-- `requestJSON`, from what the call of `fetch` settles with.
unfoldable pub request_json {ℓ} : {A : Type ℓ} → Settled (Response A) → Settled A
request_json (thrown e) = thrown e
request_json (value r) = if r.ok then r.json else refusal r.status r.body

-- The three requests of one attempt, and the rejection that comes first where there are several.
pub record Attempt : Type 0 where
  pub meta : Settled (Response SessionMeta)
  pub metrics : Settled (Response SessionMetrics)
  pub states : Settled (Response (List SlaveState))
  pub earliest : List (Option Text) → Option Text

abbrev pub rejections {ℓ} : {A : Type ℓ} → Settled A → List (Option Text)
rejections (value x) = []
rejections (thrown e) = e ∷ []

-- `Promise.all` of the three.
unfoldable pub all_settled :
    (List (Option Text) → Option Text)
    → Settled SessionMeta
    → Settled SessionMetrics
    → Settled (List SlaveState)
    → Settled Snapshot
all_settled f (value a) (value b) (value c) =
    value (record { session = a; metrics = b; states = c })
all_settled f x y z = thrown (f (rejections x ++ rejections y ++ rejections z))

unfoldable pub attempt_snapshot : Attempt → Settled Snapshot
unfolding request_json all_settled
attempt_snapshot a =
    all_settled a.earliest (request_json a.meta) (request_json a.metrics) (request_json a.states)

-- How `waitForSessionSnapshot` ends, and how many times it has slept for 200 ms.
pub record Waited : Type 0 where
  pub outcome : Settled Snapshot
  pub sleeps : ℕ

abbrev pub give_up : Option Text → Settled Snapshot
give_up last = thrown (some (or_else last (text "session snapshot unavailable")))

-- The loop, with `n` attempts left, from the attempt `k`.
unfoldable pub wait_from : (n k : ℕ) → (ℕ → Settled Snapshot) → Option Text → Waited
wait_from zero k f last = record { outcome = give_up last; sleeps = k }
wait_from (suc n) k f last = elim (f k) [
  | value x ↦ record { outcome = value x; sleeps = k }
  | thrown e ↦ wait_from n (suc k) f e
]

abbrev pub attempts : ℕ
attempts = 40

-- `attempt k` is what the service does in the attempt `k`.
unfoldable pub wait_for_session_snapshot : (ℕ → Attempt) → Waited
unfolding wait_from
wait_for_session_snapshot attempt = wait_from attempts 0 (λ k. attempt_snapshot (attempt k)) none
