-- ===== src/Scene/Grabs/Grips.antt =====
-- Which hand holds which pod, as `podGrabOwnerById` and as the hands tell it, apart from the scene.
use hackz_megalo.Base.{
  false, ◌≡◌, ◌≢◌, ◌↔◌, ◌⊎◌, inl, inr, refl, sym, ap, ◌∙◌, subst, Option, none, some, List, [], ◌∷◌,
  Text, eq_Text, text_eq_iff, lookup, insert, remove, lookup-insert, lookup-remove, Option-cases,
  arith,
}
use hackz_megalo.Scene.{Handedness, left, right}
use hackz_megalo.Scene.Grabs.{named, is_others}

-- The pods in the two hands, and the map of owners.
pub record Grip : Type 0 where
  pub in_left : Option Text
  pub in_right : Option Text
  pub owners : List (Text × Handedness)

abbrev pub held : Grip → Handedness → Option Text
held g left = g.in_left
held g right = g.in_right

-- The map says that a hand owns a pod just where that hand holds it, and no hand holds the empty id.
pub record IsOwned (g : Grip) : Type 0 where
  pub agrees :
      (id : Text) (hand : Handedness) → (lookup id g.owners ≡ some hand) ↔ (held g hand ≡ some id)
  pub is_named : (hand : Handedness) → held g hand ≢ some []

abbrev put_held : Handedness → Option Text → Grip → Grip
put_held left o g = record g { in_left = o }
put_held right o g = record g { in_right = o }

-- One hand and the map of owners changed.
abbrev pub regrip : Handedness → Option Text → List (Text × Handedness) → Grip → Grip
regrip hand o owners g = record (put_held hand o g) { owners = owners }

abbrev pub dropped : Handedness → Grip → Grip
dropped hand g = elim (named (held g hand)) [
  | none ↦ g
  | some id ↦ regrip hand none (remove id g.owners) g
]

abbrev pub taken : Handedness → Text → Grip → Grip
taken hand id g = regrip hand (some id) (insert id hand g.owners) g

none_not_some : {id : Text} → none ≢ some id
none_not_some p = ground (arith, p)

some_injective : {i j : Text} → some i ≡ some j → i ≡ j
some_injective p = ground (arith, p)

named-some : (o : Option Text) {id : Text} → named o ≡ some id → o ≡ some id
named-some none e = e
named-some (some []) e = absurd (cc)
named-some (some (c ∷ cs)) e = e

let_go_agrees :
    (hand h : Handedness) (g : Grip) (id j : Text)
    → IsOwned g
    → held g hand ≡ some id
    → (lookup j (remove id g.owners) ≡ some h)
      ↔ (held (regrip hand none (remove id g.owners) g) h ≡ some j)
let_go_agrees left left g id j w e =
    ground
      (arith, e, w.agrees j left, w.agrees id left, text_eq_iff id j, lookup-remove id j g.owners)
let_go_agrees left right g id j w e = ground (
  arith,
  e,
  w.agrees j right,
  w.agrees id left,
  w.agrees id right,
  text_eq_iff id j,
  lookup-remove id j g.owners,
)
let_go_agrees right left g id j w e = ground (
  arith,
  e,
  w.agrees j left,
  w.agrees id left,
  w.agrees id right,
  text_eq_iff id j,
  lookup-remove id j g.owners,
)
let_go_agrees right right g id j w e =
    ground
      (arith, e, w.agrees j right, w.agrees id right, text_eq_iff id j, lookup-remove id j g.owners)

filled_named : (o : Option Text) {id : Text} → o ≡ some id → id ≢ [] → named o ≡ some id
filled_named none e t = e
filled_named (some []) e t = absurd (t (sym (some_injective e)))
filled_named (some (c ∷ cs)) e t = e

pub dropped_owners :
    (hand : Handedness) (g : Grip) (id : Text)
    → IsOwned g
    → lookup id g.owners ≡ some hand
    → lookup id (dropped hand g).owners ≡ none
dropped_owners hand g id w e =
    let h = (w.agrees id hand).0 e in
    let t = filled_named (held g hand) h (λ p. w.is_named hand (h ∙ ap (λ i. some i) p)) in
    rw (t, dropped) (lookup-remove id id g.owners ∙ ground (arith, text_eq_iff id id))

held_alone :
    (h : Handedness) (g : Grip) (m : List (Text × Handedness))
    → held (record g { owners = m }) h ≡ held g h
held_alone left g m = refl
held_alone right g m = refl

removed_agrees :
    (g : Grip) (id j : Text) (h : Handedness)
    → IsOwned g
    → lookup id g.owners ≡ none
    → (lookup j (remove id g.owners) ≡ some h) ↔ (held g h ≡ some j)
removed_agrees g id j h w e =
    ground (arith, e, w.agrees j h, w.agrees id h, text_eq_iff id j, lookup-remove id j g.owners)

pub removed-IsOwned :
    (g : Grip) (id : Text)
    → IsOwned g
    → lookup id g.owners ≡ none
    → IsOwned (record g { owners = remove id g.owners })
removed-IsOwned g id w e = record {
  agrees = λ j h.
      subst (λ o. (lookup j (remove id g.owners) ≡ some h) ↔ (o ≡ some j))
        (sym (held_alone h g (remove id g.owners))) (removed_agrees g id j h w e);
  is_named =
      λ h. subst (λ o. o ≢ some []) (sym (held_alone h g (remove id g.owners))) (w.is_named h);
}

take_agrees :
    (hand h : Handedness) (g : Grip) (id j : Text)
    → IsOwned g
    → held g hand ≡ none
    → (lookup id g.owners ≡ none) ⊎ (lookup id g.owners ≡ some hand)
    → (lookup j (insert id hand g.owners) ≡ some h) ↔ (held (taken hand id g) h ≡ some j)
take_agrees left left g id j w e o = ground (
  arith,
  e,
  w.agrees j left,
  w.agrees id left,
  text_eq_iff id j,
  lookup-insert id j left g.owners,
)
take_agrees left right g id j w e o = ground (
  arith,
  e,
  o,
  w.agrees j right,
  w.agrees id left,
  w.agrees id right,
  text_eq_iff id j,
  lookup-insert id j left g.owners,
)
take_agrees right left g id j w e o = ground (
  arith,
  e,
  o,
  w.agrees j left,
  w.agrees id left,
  w.agrees id right,
  text_eq_iff id j,
  lookup-insert id j right g.owners,
)
take_agrees right right g id j w e o = ground (
  arith,
  e,
  w.agrees j right,
  w.agrees id right,
  text_eq_iff id j,
  lookup-insert id j right g.owners,
)

put_named :
    (hand h : Handedness) (o : Option Text) (m : List (Text × Handedness)) (g : Grip)
    → IsOwned g
    → o ≢ some []
    → held (regrip hand o m g) h ≢ some []
put_named left left o m g w t = t
put_named left right o m g w t = w.is_named right
put_named right left o m g w t = w.is_named left
put_named right right o m g w t = t

pub named_filled : (o : Option Text) {id : Text} → named o ≡ some id → id ≢ []
named_filled none e = absurd (none_not_some e)
named_filled (some []) e = absurd (none_not_some e)
named_filled (some (c ∷ cs)) {id} e = λ p. ground (arith, e, p)

pub named-none : (o : Option Text) → o ≢ some [] → named o ≡ none → o ≡ none
named-none none t e = refl
named-none (some []) t e = absurd (t refl)
named-none (some (c ∷ cs)) t e = absurd (none_not_some (sym e))

pub free_of :
    (hand : Handedness) (o : Option Handedness)
    → is_others hand o ≡ false
    → (o ≡ none) ⊎ (o ≡ some hand)
free_of hand none e = inl refl
free_of left (some left) e = inr refl
free_of right (some right) e = inr refl
free_of left (some right) e = absurd (ground (arith, e))
free_of right (some left) e = absurd (ground (arith, e))

-- Letting go of the pod `id`, and taking it.
let_go-IsOwned :
    (hand : Handedness) (g : Grip) (id : Text)
    → IsOwned g
    → held g hand ≡ some id
    → IsOwned (regrip hand none (remove id g.owners) g)
let_go-IsOwned hand g id w e = record {
  agrees = λ j h. let_go_agrees hand h g id j w e;
  is_named = λ h. put_named hand h none (remove id g.owners) g w (λ p. none_not_some p);
}

pub dropped-IsOwned : (hand : Handedness) (g : Grip) → IsOwned g → IsOwned (dropped hand g)
dropped-IsOwned hand g w = elim (Option-cases (named (held g hand))) [
  | inl e ↦ rw (e, dropped) w
  | inr (id, e) ↦ rw (e, dropped) (let_go-IsOwned hand g id w (named-some (held g hand) e))
]

pub take-IsOwned :
    (hand : Handedness) (g : Grip) (id : Text)
    → IsOwned g
    → held g hand ≡ none
    → (lookup id g.owners ≡ none) ⊎ (lookup id g.owners ≡ some hand)
    → id ≢ []
    → IsOwned (taken hand id g)
take-IsOwned hand g id w e o t = record {
  agrees = λ j h. take_agrees hand h g id j w e o;
  is_named =
      λ h. put_named hand h (some id) (insert id hand g.owners) g w (λ p. t (some_injective p));
}
