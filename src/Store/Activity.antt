-- ===== src/Store/Activity.antt =====
-- The log of the game: the newest entry first, eight at most.
use mathlib.Core.List.{reverse, reverse-cons, append_assoc}
use hackz_megalo.Base.{
  ◌≤◌, ◌≡◌, refl, sym, ◌∙◌, List, [], ◌∷◌, ◌++◌, map, arith, take, length, take_of_length-le,
  take-append_take, length-take,
}
use hackz_megalo.Types.{ActivityEntry}
use hackz_megalo.Store.{GameStore, LogEntry, Stamp, stamped, log, emit}

-- A run of calls of `log`.
pub log_all : List (Stamp × LogEntry) → GameStore → GameStore
log_all [] s = s
log_all ((t, e) ∷ rest) s = log_all rest (log t e s)

abbrev pub entries : List (Stamp × LogEntry) → List ActivityEntry
entries = map (λ (x : Stamp × LogEntry). stamped x.0 x.1)

-- After any run of entries the log holds the newest eight of those and of what it held before, the
-- newest first.
pub log_all_lem :
    (xs : List (Stamp × LogEntry)) (s : GameStore)
    → length s.state.activity ≤ 8
    → (log_all xs s).state.activity ≡ take 8 (reverse (entries xs) ++ s.state.activity)
unfolding log_all log emit
log_all_lem [] s h = sym (take_of_length-le 8 s.state.activity h)
log_all_lem ((t, e) ∷ rest) s h =
    let old = s.state.activity in
    let new = stamped t e in
    log_all_lem rest (log t e s) (omega (arith, length-take 8 (new ∷ old)))
    ∙ take-append_take 8 8 (reverse (entries rest)) (new ∷ old) (omega arith)
    ∙ rw (reverse-cons, append_assoc) refl
