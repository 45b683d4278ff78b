-- ===== src/View/Tags.antt =====
-- The texts of a pod cannot add markup to the page.
use hackz_megalo.Base.{
  ℕ, zero, suc, ◌+◌, ◌/◌, ◌%◌, ◌≡◌, refl, Bool, true, false, List, [], ◌∷◌, map, Text, arith,
  if◌then◌else◌, nat_eq,
}
use hackz_megalo.Types.{
  is_terminating, SlaveState, SlaveStatus, DeathReason, live, is_gone, pod_down,
}
use hackz_megalo.View.{
  humanize_status, humanize_death_reason, status_tone_class, escape_html, decimal, digits_from,
  join, avatar_classes, avatar_words,
}
use hackz_megalo.View.Markup.{render_pod_avatar_markup, selected_markup, chip_markup}
use hackz_megalo.View.Escape.{IsMarkup, count, count-append, count-escape_html}

sum : List ℕ → ℕ
sum [] = 0
sum (n ∷ ns) = n + sum ns

is_plain : Text → Bool
is_plain [] = true
is_plain (c ∷ t) =
    if nat_eq c b'<'
    then false
    else if nat_eq c b'>'
    then false
    else if nat_eq c b'"'
    then false
    else is_plain t

humanize_status-is_plain : (s : SlaveStatus) → is_plain (humanize_status s) ≡ true
unfolding humanize_status is_plain
humanize_status-is_plain live = refl
humanize_status-is_plain _ = refl

humanize_death_reason-is_plain : (r : DeathReason) → is_plain (humanize_death_reason r) ≡ true
unfolding humanize_death_reason is_plain
humanize_death_reason-is_plain pod_down = refl
humanize_death_reason-is_plain _ = refl

is_plain-if :
    (b : Bool) (s t : Text)
    → is_plain s ≡ true
    → is_plain t ≡ true
    → is_plain (if b then s else t) ≡ true
is_plain-if true s t h k = h
is_plain-if false s t h k = k

status_tone_class-is_plain : (pod : SlaveState) → is_plain (status_tone_class pod) ≡ true
unfolding status_tone_class is_plain
status_tone_class-is_plain pod = is_plain-if (is_gone pod.status) _ _ refl (
    is_plain-if (is_terminating pod.status) _ _ refl
      (is_plain-if pod.infected _ _ refl (is_plain-if pod.firewall _ _ refl refl)))

avatar_words-is_plain : (g f i : Bool) → is_plain (avatar_words g f i) ≡ true
unfolding avatar_words is_plain
avatar_words-is_plain true true true = refl
avatar_words-is_plain true true _ = refl
avatar_words-is_plain true _ true = refl
avatar_words-is_plain true _ _ = refl
avatar_words-is_plain _ true true = refl
avatar_words-is_plain _ true _ = refl
avatar_words-is_plain _ _ true = refl
avatar_words-is_plain _ _ _ = refl

avatar_classes-is_plain : (pod : SlaveState) → is_plain (avatar_classes pod) ≡ true
unfolding avatar_classes
avatar_classes-is_plain pod = avatar_words-is_plain (is_gone pod.status) pod.firewall pod.infected

module _ (m : ℕ) (h : IsMarkup m) where
  count-join : (ts : List Text) → count m (join ts) ≡ sum (map (count m) ts)
  unfolding join count sum
  count-join [] = refl
  count-join (t ∷ ts) = omega (arith, count-append m t (join ts), count-join ts)

  count_escaped : (s : Text) → count m (escape_html s) ≡ 0
  count_escaped s = count-escape_html m s h

  count-digits_from : (f n : ℕ) → count m (digits_from f n) ≡ 0
  unfolding digits_from count
  count-digits_from zero n = refl
  count-digits_from (suc f) n = ground (
    arith,
    count-append m (digits_from f (n / 10)) ((b'0' + n % 10) ∷ []),
    count-digits_from f (n / 10),
  )

  count-decimal : (n : ℕ) → count m (decimal n) ≡ 0
  unfolding decimal
  count-decimal n = count-digits_from (suc n) n

  count-plain : (t : Text) → is_plain t ≡ true → count m t ≡ 0
  unfolding count is_plain
  count-plain [] e = refl
  count-plain (c ∷ t) e = ground (arith, count-plain t)

  count-humanize_status : (s : SlaveStatus) → count m (humanize_status s) ≡ 0
  count-humanize_status s = count-plain (humanize_status s) (humanize_status-is_plain s)

  count-humanize_death_reason : (r : DeathReason) → count m (humanize_death_reason r) ≡ 0
  count-humanize_death_reason r =
      count-plain (humanize_death_reason r) (humanize_death_reason-is_plain r)

  count-status_tone_class : (pod : SlaveState) → count m (status_tone_class pod) ≡ 0
  count-status_tone_class pod = count-plain (status_tone_class pod) (status_tone_class-is_plain pod)

  count-avatar_classes : (pod : SlaveState) → count m (avatar_classes pod) ≡ 0
  count-avatar_classes pod = count-plain (avatar_classes pod) (avatar_classes-is_plain pod)

  count-avatar :
      (p q : SlaveState)
      → count m (render_pod_avatar_markup p) ≡ count m (render_pod_avatar_markup q)
  unfolding render_pod_avatar_markup
  count-avatar p q = simp (count-join, count-avatar_classes)

  -- Two pods with the same flags are shown with the same number of `<`, of `>` and of `"` in the
  -- panel of the selected pod, whatever their names, ids and sources are: no text of a pod adds a
  -- tag or an attribute.
  pub count-selected_markup :
      (p q : SlaveState)
      → p.firewall ≡ q.firewall
      → p.infected ≡ q.infected
      → count m (selected_markup p) ≡ count m (selected_markup q)
  unfolding selected_markup
  count-selected_markup p q firewall infected = simp (
    count-join,
    count_escaped,
    count-decimal,
    count-humanize_status,
    count-humanize_death_reason,
    count-status_tone_class,
    count-avatar p q,
    firewall,
    infected,
  )

  -- The same of the chip of any two pods, whatever their flags are.
  pub count-chip_markup : (p q : SlaveState) → count m (chip_markup p) ≡ count m (chip_markup q)
  unfolding chip_markup
  count-chip_markup p q = simp (
    count-join,
    count_escaped,
    count-decimal,
    count-humanize_status,
    count-status_tone_class,
    count-avatar p q,
  )
