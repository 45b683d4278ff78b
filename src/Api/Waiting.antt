-- ===== src/Api/Waiting.antt =====
-- `waitForSessionSnapshot` against the plain reading of its loop.
use hackz_megalo.Base.{
  ℕ, zero, suc, ◌<◌, ◌≤◌, ◌+◌, ◌≡◌, refl, subst, sym, ap, ◌∙◌, Option, none, some, or_else, arith,
  text, Bool-cases, nat_eq, nat_eq_iff, inl, inr, Text,
}
use hackz_megalo.Session.Start.{Snapshot}
use hackz_megalo.Api.{
  Settled, value, thrown, wait_from, give_up, Attempt, attempt_snapshot, wait_for_session_snapshot,
}

abbrev pub IsThrown : Settled Snapshot → Type 0
IsThrown (value x) = ⊥
IsThrown (thrown e) = Unit

thrown_of : (o : Settled Snapshot) → IsThrown o → (e : Option Text) × (o ≡ thrown e)
thrown_of (value x) h = absurd h
thrown_of (thrown e) h = (e, refl)

step_value :
    (n k : ℕ) (f : ℕ → Settled Snapshot) (last : Option Text) (x : Snapshot)
    → f k ≡ value x
    → wait_from (suc n) k f last ≡ record { outcome = value x; sleeps = k }
unfolding wait_from
step_value n k f last x e = rw (e, wait_from)

step_thrown :
    (n k : ℕ) (f : ℕ → Settled Snapshot) (last e : Option Text)
    → f k ≡ thrown e
    → wait_from (suc n) k f last ≡ wait_from n (suc k) f e
unfolding wait_from
step_thrown n k f last e t = rw (t, wait_from)

waits-value :
    (n k j : ℕ) (f : ℕ → Settled Snapshot) (last : Option Text) (x : Snapshot)
    → k ≤ j
    → j < k + n
    → ((i : ℕ) → k ≤ i → i < j → IsThrown (f i))
    → f j ≡ value x
    → wait_from n k f last ≡ record { outcome = value x; sleeps = j }
unfolding wait_from
waits-value zero k j f last x l u before here = absurd (omega arith)
waits-value (suc n) k j f last x l u before here = elim (Bool-cases (nat_eq k j)) [
  | inl e ↦
      let p = (nat_eq_iff k j).0 e in
      step_value n k f last x (subst (λ i. f i ≡ value x) (sym p) here)
      ∙ ap (λ i. record { outcome = value x; sleeps = i }) p
  | inr e ↦
      let (m, t) = thrown_of (f k) (before k (omega arith) (ground (arith, nat_eq_iff k j))) in
      step_thrown n k f last m t
      ∙ waits-value n (suc k) j f m x (ground (arith, nat_eq_iff k j)) (omega arith)
          (λ i a b. before i (omega arith) b) here
]

waits-thrown :
    (n k j : ℕ) (f : ℕ → Settled Snapshot) (last e : Option Text)
    → j ≡ k + n
    → ((i : ℕ) → k ≤ i → i < j → IsThrown (f i))
    → f j ≡ thrown e
    → wait_from (suc n) k f last ≡ record { outcome = give_up e; sleeps = suc j }
unfolding wait_from
waits-thrown zero k j f last e at before here =
    step_thrown 0 k f last e (subst (λ i. f i ≡ thrown e) (omega arith) here)
    ∙ ap (λ i. record { outcome = give_up e; sleeps = i }) (omega arith)
waits-thrown (suc n) k j f last e at before here =
    let (m, t) = thrown_of (f k) (before k (omega arith) (omega arith)) in
    step_thrown (suc n) k f last m t
    ∙ waits-thrown n (suc k) j f m e (omega arith) (λ i a b. before i (omega arith) b) here

-- The first attempt that succeeds ends the wait, after one sleep for every attempt before it.
pub wait_for_session_snapshot-value :
    (attempt : ℕ → Attempt) (j : ℕ) (x : Snapshot)
    → j < 40
    → ((i : ℕ) → i < j → IsThrown (attempt_snapshot (attempt i)))
    → attempt_snapshot (attempt j) ≡ value x
    → wait_for_session_snapshot attempt ≡ record { outcome = value x; sleeps = j }
unfolding wait_for_session_snapshot
wait_for_session_snapshot-value attempt j x l before here =
    waits-value 40 0 j (λ k. attempt_snapshot (attempt k)) none x (omega arith) (omega arith)
      (λ i a b. before i b) here

-- When all forty attempts fail, the wait fails, after forty sleeps, with the last attempt's error, or
-- with a message of its own where what was thrown was no `Error`.
pub wait_for_session_snapshot-thrown :
    (attempt : ℕ → Attempt) (e : Option Text)
    → ((i : ℕ) → i < 39 → IsThrown (attempt_snapshot (attempt i)))
    → attempt_snapshot (attempt 39) ≡ thrown e
    → wait_for_session_snapshot attempt ≡ record {
      outcome = thrown (some (or_else e (text "session snapshot unavailable")));
      sleeps = 40;
    }
unfolding wait_for_session_snapshot
wait_for_session_snapshot-thrown attempt e before here =
    waits-thrown 39 0 39 (λ k. attempt_snapshot (attempt k)) none e (omega arith)
      (λ i a b. before i b) here
