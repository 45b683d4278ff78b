-- ===== src/Api/Tests.antt =====
-- The theorems on api.ts at concrete inputs, and runs of it.
use hackz_megalo.Base.{
  ℕ, zero, suc, ◌<◌, ◌≡◌, refl, true, false, text_eq, Option, none, some, List, [], ◌∷◌, Text, text,
  arith,
}
use hackz_megalo.Session.Start.{Snapshot}
use hackz_megalo.Store.Tests.{a_session, some_metrics, alpha}
use hackz_megalo.Api.{
  Attempt, Settled, value, thrown, Response, attempt_snapshot, wait_for_session_snapshot, ws_url,
  request_json, all_settled,
}
use hackz_megalo.View.{decimal}
use hackz_megalo.Api.Waiting.{
  IsThrown, wait_for_session_snapshot-value, wait_for_session_snapshot-thrown,
}

abbrev answer {ℓ} : {A : Type ℓ} → A → Settled (Response A)
answer x = value (record { ok = true; status = 200; body = value []; json = value x })

abbrev first_of : List (Option Text) → Option Text
first_of [] = none
first_of (e ∷ es) = e

abbrev good : Attempt
good = record {
  meta = answer a_session;
  metrics = answer some_metrics;
  states = answer (alpha ∷ []);
  earliest = first_of;
}

-- The service is not there yet.
abbrev bad : Attempt
bad = record good { meta = thrown (some (text "Failed to fetch")) }

abbrev third_time : ℕ → Attempt
third_time zero = bad
third_time (suc zero) = bad
third_time (suc (suc n)) = good

abbrev a_snapshot : Snapshot
a_snapshot = record { session = a_session; metrics = some_metrics; states = alpha ∷ [] }

two_fail : (i : ℕ) → i < 2 → IsThrown (attempt_snapshot (third_time i))
unfolding attempt_snapshot request_json all_settled
two_fail zero l = tt
two_fail (suc zero) l = tt
two_fail (suc (suc n)) l = absurd (omega arith)

third_succeeds : attempt_snapshot (third_time 2) ≡ value a_snapshot
unfolding attempt_snapshot request_json all_settled
third_succeeds = refl

wait_for_session_snapshot-value_example :
    wait_for_session_snapshot third_time ≡ record { outcome = value a_snapshot; sleeps = 2 }
wait_for_session_snapshot-value_example =
    wait_for_session_snapshot-value third_time 2 a_snapshot (omega arith) two_fail third_succeeds

bad_fails : (i : ℕ) → i < 39 → IsThrown (attempt_snapshot bad)
unfolding attempt_snapshot request_json all_settled
bad_fails i l = tt

bad_error : attempt_snapshot bad ≡ thrown (some (text "Failed to fetch"))
unfolding attempt_snapshot request_json all_settled
bad_error = refl

wait_for_session_snapshot-thrown_example :
    wait_for_session_snapshot (λ i. bad)
    ≡ record { outcome = thrown (some (text "Failed to fetch")); sleeps = 40 }
wait_for_session_snapshot-thrown_example =
    wait_for_session_snapshot-thrown (λ i. bad) (some (text "Failed to fetch")) bad_fails bad_error

-- Without a configured address the socket's is that of the page's host.
ws_url_default : ws_url none (text "https:") (text "a.example") ≡ text "wss://a.example/ws"
unfolding ws_url text_eq
ws_url_default = refl

ws_url_configured : ws_url (some (text "wss://b/ws")) (text "https:") (text "a") ≡ text "wss://b/ws"
unfolding ws_url
ws_url_configured = refl

refusal_text :
    request_json
      (value (record { ok = false; status = 503; body = value []; json = value a_session }))
    ≡ thrown (some (text "request failed: 503"))
unfolding request_json decimal
refusal_text = refl
