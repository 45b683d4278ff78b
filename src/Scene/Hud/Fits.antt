-- ===== src/Scene/Hud/Fits.antt =====
-- The texts of the HUD fit, and what is cut in lines is all there.
use hackz_megalo.Base.{
  ℕ, ◌+◌, ◌-◌, ◌≤◌, ◌≡◌, ap, ◌∙◌, List, [], ◌∷◌, ◌++◌, Text, text, arith, length, take, drop, leb,
  if_cases, append-nil, length-take, length-drop, take-append-drop,
}
use hackz_megalo.View.{join}
use hackz_megalo.Scene.Hud.{
  truncate_text, format_hud_id, split_hud_lines, head_length, tail_length, last_of,
}

length-append : (s t : Text) → length (s ++ t) ≡ length s + length t
length-append [] t = omega arith
length-append (c ∷ s) t = omega (arith, length-append s t)

-- A cut text has at most as many characters as its limit, where the limit leaves room for the dots.
pub length-truncate_text :
    (value : Text) (limit : ℕ) → 3 ≤ limit → length (truncate_text value limit) ≤ limit
unfolding truncate_text
length-truncate_text value limit h =
    if_cases (λ (s : Text). length s ≤ limit) (leb (length value) limit) value
      (take (limit - 3) value ++ text "...") (λ e. ground (arith, e))
      (λ e.
        omega (
          arith,
          length-append (take (limit - 3) value) (text "..."),
          length-take (limit - 3) value,
        ))

-- A shortened id has at most as many characters as its limit, where the limit is at least eleven.
pub length-format_hud_id :
    (value : Text) (limit : ℕ) → 11 ≤ limit → length (format_hud_id value limit) ≤ limit
unfolding format_hud_id
length-format_hud_id value limit h =
    if_cases (λ (s : Text). length s ≤ limit) (leb (length value) limit) value
      (take (head_length limit) value ++ text ".." ++ last_of (tail_length limit) value)
      (λ e. ground (arith, e))
      (λ e. omega (
        arith,
        length-append (take (head_length limit) value ++ text "..")
            (last_of (tail_length limit) value),
        length-append (take (head_length limit) value) (text ".."),
        length-take (head_length limit) value,
        length-drop (length value - tail_length limit) value,
      ))

-- The lines that a text is cut in are together the text.
pub split_hud_lines_lem : (value : Text) (line : ℕ) → join (split_hud_lines value line) ≡ value
unfolding split_hud_lines join
split_hud_lines_lem value line =
    if_cases (λ (l : List Text). join l ≡ value) (leb (length value) line) (value ∷ [])
      (take line value ∷ drop line value ∷ []) (λ e. append-nil value)
      (λ e.
        ap (λ l. take line value ++ l) (append-nil (drop line value)) ∙ take-append-drop line value)
