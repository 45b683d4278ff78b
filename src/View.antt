-- ===== src/View.antt =====
-- apps/frontend-webxr/src/main.ts: the words, class names and markup that the page shows.
-- The markup is the text that the source assigns to `innerHTML`, byte for byte. Numbers of a pod
-- are natural numbers.
pub mod Tests
pub mod Markup
pub mod Page
pub mod Escape
pub mod Tags
pub mod Selection
pub mod Peek
use hackz_megalo.Base.{
  ℕ, zero, suc, ◌+◌, ◌/◌, ◌%◌, Bool, true, false, List, [], ◌∷◌, ◌++◌, Text, text, if◌then◌else◌,
  leb, ltb, nat_eq, length, take, truthy, keep_if,
}
use hackz_megalo.Types.{
  is_terminating, SlaveState, SlaveStatus, status_unspecified, live, terminating, gone, DeathReason,
  reason_unspecified, lifespan, disease, process_down, pod_down, user_action, is_gone,
}

unfoldable pub humanize_status : SlaveStatus → Text
humanize_status live = text "live"
humanize_status terminating = text "terminating"
humanize_status gone = text "gone"
humanize_status status_unspecified = text "unknown"

unfoldable pub humanize_death_reason : DeathReason → Text
humanize_death_reason pod_down = text "fell"
humanize_death_reason user_action = text "hand"
humanize_death_reason disease = text "disease"
humanize_death_reason lifespan = text "lifespan"
humanize_death_reason process_down = text "process"
humanize_death_reason reason_unspecified = text "unspecified"

unfoldable pub status_tone_class : SlaveState → Text
status_tone_class pod =
    if is_gone pod.status
    then text "tone-gone"
    else if is_terminating pod.status
    then text "tone-warn"
    else if pod.infected
    then text "tone-muted"
    else if pod.firewall
    then text "tone-accent"
    else text "tone-live"

unfoldable pub short_id : Text → ℕ → Text
unfolding take
short_id value len = if leb (length value) len then value else take len value

-- `value.replaceAll(c, by)` for a pattern of one unit.
unfoldable pub replace_all : ℕ → Text → Text → Text
replace_all c by [] = []
replace_all c by (x ∷ xs) =
    let rest = replace_all c by xs in if nat_eq x c then by ++ rest else x ∷ rest

unfoldable pub escape_html : Text → Text
unfolding replace_all
escape_html value = replace_all b'"' (text "&quot;") (
    replace_all b'>' (text "&gt;")
      (replace_all b'<' (text "&lt;") (replace_all b'&' (text "&amp;") value)))

-- A number in a template literal: its decimal digits. The fuel is more than there are digits.
unfoldable pub digits_from : ℕ → ℕ → Text
digits_from zero n = []
digits_from (suc f) n =
    let rest = digits_from f (n / 10) in
    if ltb n 10 then (b'0' + n) ∷ [] else rest ++ (b'0' + n % 10) ∷ []

unfoldable pub decimal : ℕ → Text
unfolding digits_from
decimal n = digits_from (suc n) n

-- The parts of a template literal.
unfoldable pub join : List Text → Text
join [] = []
join (t ∷ ts) = t ++ join ts

-- `[...].filter(Boolean).join(" ")`
unfoldable pub join_words : List Text → Text
join_words [] = []
join_words (t ∷ []) = t
join_words (t ∷ ts) = t ++ text " " ++ join_words ts

unfoldable pub avatar_words : Bool → Bool → Bool → Text
unfolding join_words keep_if
avatar_words is_gone_pod firewall infected = join_words (
    keep_if truthy (
      text "pod-avatar"
      ∷ (if is_gone_pod then text "is-gone" else [])
      ∷ (if firewall then text "has-firewall" else [])
      ∷ (if infected then text "is-infected" else [])
      ∷ []))

unfoldable pub avatar_classes : SlaveState → Text
unfolding avatar_words
avatar_classes pod = avatar_words (is_gone pod.status) pod.firewall pod.infected
