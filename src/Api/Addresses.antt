-- ===== src/Api/Addresses.antt =====
-- `trimTrailingSlash` takes off all slashes at the end, and nothing else.
use hackz_megalo.Base.{
  ℕ, zero, suc, ◌≡◌, ◌≢◌, refl, ap, ◌∙◌, [], ◌∷◌, ◌++◌, Text, nat_eq, nat_eq_iff, arith, Bool-cases,
  inl, inr,
}
use hackz_megalo.Api.{trim_trailing_slash, put_before}

abbrev pub slashes : ℕ → Text
slashes zero = []
slashes (suc n) = 47 ∷ slashes n

-- The last character is not a slash.
abbrev pub IsTrimmed : Text → Type 0
IsTrimmed [] = Unit
IsTrimmed (c ∷ []) = c ≢ 47
IsTrimmed (c ∷ d ∷ s) = IsTrimmed (d ∷ s)

put-IsTrimmed : (c : ℕ) (s : Text) → IsTrimmed s → IsTrimmed (put_before c s)
put-IsTrimmed c [] h = elim (Bool-cases (nat_eq c 47)) [
  | inl e ↦ rw (e) tt
  | inr e ↦ rw (e) (λ p. absurd (ground (arith, p, nat_eq_iff c 47)))
]
put-IsTrimmed c (d ∷ s) h = h

pub trim_trailing_slash-IsTrimmed : (s : Text) → IsTrimmed (trim_trailing_slash s)
unfolding trim_trailing_slash
trim_trailing_slash-IsTrimmed [] = tt
trim_trailing_slash-IsTrimmed (c ∷ s) =
    put-IsTrimmed c (trim_trailing_slash s) (trim_trailing_slash-IsTrimmed s)

put-slashes : (c n : ℕ) (t : Text) → (k : ℕ) × (c ∷ t ++ slashes n ≡ put_before c t ++ slashes k)
put-slashes c n [] = elim (Bool-cases (nat_eq c 47)) [
  | inl e ↦ (suc n, rw (e, (nat_eq_iff c 47).0 e) refl)
  | inr e ↦ (n, rw (e) refl)
]
put-slashes c n (d ∷ t) = (n, refl)

-- What was taken off are slashes.
pub trim_trailing_slash-rest : (s : Text) → (n : ℕ) × (s ≡ trim_trailing_slash s ++ slashes n)
unfolding trim_trailing_slash
trim_trailing_slash-rest [] = (0, refl)
trim_trailing_slash-rest (c ∷ s) =
    let (n, e) = trim_trailing_slash-rest s in
    let (k, p) = put-slashes c n (trim_trailing_slash s) in (k, ap (λ t. c ∷ t) e ∙ p)

-- Without its slashes at the end, a text ends in no slash, and is the given one up to these slashes.
pub trim_trailing_slash_lem :
    (s : Text)
    → IsTrimmed (trim_trailing_slash s) × ((n : ℕ) × (s ≡ trim_trailing_slash s ++ slashes n))
trim_trailing_slash_lem s = (trim_trailing_slash-IsTrimmed s, trim_trailing_slash-rest s)
