-- ===== src/Scene/Hands/Nearest.antt =====
-- A loop that finds the least of some distances, with the pod that has it.
use hackz_megalo.Base.{
  true_not_false, some_injective, true, false, ◌≡◌, ◌⊎◌, inl, inr, sym, ap, ◌∙◌, subst, Option,
  some, List, ◌∷◌, Text, eq_Text, includes, Bool-cases, arith, ◌==◌,
}
use hackz_megalo.Scene.{Numbers}

beq-same : (a b : Text) → (a == b) ≡ true → a ≡ b
beq-same a b e = ground (arith, eq_Text.beq_iff a b, e)

module _ ⦃n : Numbers⦄ where
  -- `>` is transitive and holds of no number and itself.
  pub record IsStrict : Type 0 where
    pub irreflexive : (a : n.F) → n.gt a a ≡ false
    pub transitive : (a b c : n.F) → n.gt a b ≡ true → n.gt b c ≡ true → n.gt a c ≡ true

  -- `d` is the least distance of the loop over `ids` from a limit, and `id` the pod that has it.
  pub record IsNearest (r : Text → Option n.F) (ids : List Text) (best : Option Text) (limit : n.F)
      (id : Text) (d : n.F) : Type 0 where
    pub chosen :
        ((best ≡ some id) × (d ≡ limit))
        ⊎ ((r id ≡ some d) × (includes ids id ≡ true) × (n.gt limit d ≡ true))
    pub least : (j : Text) (e : n.F) → includes ids j ≡ true → r j ≡ some e → n.gt d e ≡ false

  -- A chosen distance is not above what is not below the limit.
  below :
      (o : IsStrict) (r : Text → Option n.F) (ids : List Text) (best : Option Text) (limit e : n.F)
      (id : Text) (d : n.F)
      → n.gt limit e ≡ false
      → IsNearest r ids best limit id d
      → n.gt d e ≡ false
  below o r ids best limit e id d far w = elim w.chosen [
    | inl (q, same) ↦ ap (λ x. n.gt x e) same ∙ far
    | inr (q, i, near) ↦ elim (Bool-cases (n.gt d e)) [
      | inl up ↦ absurd (true_not_false (sym (o.transitive limit d e near up) ∙ far))
      | inr up ↦ up
    ]
  ]

  -- The least for one more pod.
  least_more :
      (r : Text → Option n.F) (head : Text) (ids : List Text) (best : Option Text) (limit : n.F)
      (id : Text) (d : n.F)
      → ((e : n.F) → r head ≡ some e → n.gt d e ≡ false)
      → IsNearest r ids best limit id d
      → (j : Text) (e : n.F) → includes (head ∷ ids) j ≡ true
      → r j ≡ some e
      → n.gt d e ≡ false
  unfolding includes
  least_more r head ids best limit id d far w j e i q = elim (Bool-cases (head == j)) [
    | inl same ↦ far e (ap r (beq-same head j same) ∙ q)
    | inr other ↦ w.least j e (ground (arith, i, other)) q
  ]

  more_includes :
      (head : Text) (ids : List Text) (id : Text)
      → includes ids id ≡ true
      → includes (head ∷ ids) id ≡ true
  unfolding includes
  more_includes head ids id i = ground (arith, i)

  head_includes : (head : Text) (ids : List Text) → includes (head ∷ ids) head ≡ true
  unfolding includes
  head_includes head ids = ground (arith, eq_Text.beq_iff head head)

  -- A round that leaves the best as it is.
  pub skips :
      (o : IsStrict) (r : Text → Option n.F) (head : Text) (ids : List Text) (best : Option Text)
      (limit : n.F) (id : Text) (d : n.F)
      → ((e : n.F) → r head ≡ some e → n.gt limit e ≡ false)
      → IsNearest r ids best limit id d
      → IsNearest r (head ∷ ids) best limit id d
  skips o r head ids best limit id d far w = record {
    chosen = elim w.chosen [
      | inl c ↦ inl c
      | inr (q, i, near) ↦ inr (q, more_includes head ids id i, near)
    ];
    least =
        least_more r head ids best limit id d (λ e q. below o r ids best limit e id d (far e q) w)
          w;
  }

  -- A round that takes the pod.
  pub takes :
      (o : IsStrict) (r : Text → Option n.F) (head : Text) (ids : List Text) (best : Option Text)
      (limit away : n.F) (id : Text) (d : n.F)
      → r head ≡ some away
      → n.gt limit away ≡ true
      → IsNearest r ids (some head) away id d
      → IsNearest r (head ∷ ids) best limit id d
  takes o r head ids best limit away id d near wins w = record {
    chosen = elim w.chosen [
      | inl (same, q) ↦ inr (
        subst (λ x. r x ≡ some d) (some_injective same) (near ∙ ap (λ x. some x) (sym q)),
        subst (λ x. includes (head ∷ ids) x ≡ true) (some_injective same) (head_includes head ids),
        ap (λ x. n.gt limit x) q ∙ wins,
      )
      | inr (q, i, nearer) ↦
          inr (q, more_includes head ids id i, o.transitive limit away d wins nearer)
    ];
    least =
        least_more r head ids (some head) away id d
          (λ e q.
            below o r ids (some head) away e id d
              (ap (λ x. n.gt away x) (some_injective (sym q ∙ near)) ∙ o.irreflexive away) w)
          w;
  }
