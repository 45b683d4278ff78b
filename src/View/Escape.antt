-- ===== src/View/Escape.antt =====
-- `escapeHTML`: one pass over the text, no markup in the result, and nothing lost.
use mathlib.Core.List.{append_assoc}
use hackz_megalo.Base.{
  ℕ, zero, suc, ◌+◌, ◌<◌, ◌≡◌, refl, ◌∙◌, [], ◌∷◌, ◌++◌, Text, text, arith, if◌then◌else◌, nat_eq,
  length, starts_with, drop, Bool-cases, inl, inr, ◌⊎◌,
}
use hackz_megalo.View.{replace_all, escape_html}

replace_all-append :
    (c : ℕ) (by xs ys : Text)
    → replace_all c by (xs ++ ys) ≡ replace_all c by xs ++ replace_all c by ys
unfolding replace_all
replace_all-append c by [] ys = refl
replace_all-append c by (x ∷ xs) ys = elim (Bool-cases (nat_eq x c)) [
  | inl hit ↦ rw (hit, replace_all-append c by xs ys) (rw append_assoc)
  | inr miss ↦ rw (miss, replace_all-append c by xs ys)
]

-- The reference: every character by itself.
abbrev pub escape_char : ℕ → Text
escape_char c =
    if nat_eq c b'&'
    then text "&amp;"
    else if nat_eq c b'<'
    then text "&lt;"
    else if nat_eq c b'>'
    then text "&gt;"
    else if nat_eq c b'"'
    then text "&quot;"
    else c ∷ []

unfoldable pub escape_each : Text → Text
escape_each [] = []
escape_each (c ∷ s) = escape_char c ++ escape_each s

escape_html-append : (s t : Text) → escape_html (s ++ t) ≡ escape_html s ++ escape_html t
unfolding escape_html
escape_html-append s t = simp replace_all-append

escape_html-one : (c : ℕ) → escape_html (c ∷ []) ≡ escape_char c
unfolding escape_html replace_all
escape_html-one c = ground arith

-- The four replacements, one after the other, are one pass that replaces each character by itself:
-- what one of them writes is left alone by the next ones.
pub escape_html-escape_each : (s : Text) → escape_html s ≡ escape_each s
unfolding escape_each escape_html replace_all
escape_html-escape_each [] = refl
escape_html-escape_each (c ∷ s) =
    escape_html-append (c ∷ []) s ∙ rw (escape_html-one c, escape_html-escape_each s) refl

unfoldable pub count : ℕ → Text → ℕ
count c [] = 0
count c (x ∷ xs) = if nat_eq x c then suc (count c xs) else count c xs

pub count-append : (c : ℕ) (xs ys : Text) → count c (xs ++ ys) ≡ count c xs + count c ys
unfolding count
count-append c [] ys = omega arith
count-append c (x ∷ xs) ys = ground (arith, count-append c xs ys)

-- The characters that would open or close a tag or an attribute.
abbrev pub IsMarkup : ℕ → Type 0
IsMarkup c = (c ≡ b'<') ⊎ (c ≡ b'>') ⊎ (c ≡ b'"')

count-escape_char : (m c : ℕ) → IsMarkup m → count m (escape_char c) ≡ 0
unfolding count
count-escape_char m c h = ground arith

count-escape_each : (m : ℕ) (s : Text) → IsMarkup m → count m (escape_each s) ≡ 0
unfolding escape_each count
count-escape_each m [] h = refl
count-escape_each m (c ∷ s) h = omega (
  arith,
  count-append m (escape_char c) (escape_each s),
  count-escape_char m c h,
  count-escape_each m s h,
)

-- No `<`, `>` or `"` is left in an escaped text.
pub count-escape_html : (m : ℕ) (s : Text) → IsMarkup m → count m (escape_html s) ≡ 0
count-escape_html m s h = rw escape_html-escape_each (count-escape_each m s h)

-- How a browser reads the four entities, on fuel for the characters that it gives.
unfoldable pub read_html : ℕ → Text → Text
unfolding starts_with drop
read_html zero s = []
read_html (suc f) [] = []
read_html (suc f) (c ∷ s) =
    let amp = b'&' ∷ read_html f (drop 4 s) in
    let lt = b'<' ∷ read_html f (drop 3 s) in
    let gt = b'>' ∷ read_html f (drop 3 s) in
    let quot = b'"' ∷ read_html f (drop 5 s) in
    let plain = c ∷ read_html f s in
    if nat_eq c b'&'
    then if starts_with s (text "amp;")
      then amp
      else if starts_with s (text "lt;")
      then lt
      else if starts_with s (text "gt;")
      then gt
      else if starts_with s (text "quot;")
      then quot
      else plain
    else plain

read_html-escape_each : (f : ℕ) (s : Text) → length s < f → read_html f (escape_each s) ≡ s
unfolding read_html escape_each starts_with drop
read_html-escape_each zero s h = absurd (omega arith)
read_html-escape_each (suc f) [] h = refl
read_html-escape_each (suc f) (c ∷ s) h = ground (arith, read_html-escape_each f s (omega arith))

-- Reading the escaped text gives the text back, so no two texts are shown alike.
pub read_html-escape_html : (f : ℕ) (s : Text) → length s < f → read_html f (escape_html s) ≡ s
read_html-escape_html f s h = rw escape_html-escape_each (read_html-escape_each f s h)
