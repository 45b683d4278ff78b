-- ===== src/Scene/Grabs/Holds.antt =====
-- What the two hands hold, apart from the map of owners, and rules on it that a hand keeps where it
-- drops its pod, or takes one where it holds none and the other hand does not hold that one.
use hackz_megalo.Base.{
  ◌≡◌, ◌≢◌, ◌⊎◌, inl, inr, refl, sym, ◌∙◌, subst, Option, none, some, List, [], Text, eq_Text,
  lookup, insert, remove, Option-cases, arith,
}
use hackz_megalo.Scene.{Handedness, left, right}
use hackz_megalo.Scene.Grabs.{named}
use hackz_megalo.Scene.Grabs.Grips.{
  Grip, held, IsOwned, dropped, taken, regrip, dropped-IsOwned, take-IsOwned, removed-IsOwned,
}

pub record Holds : Type 0 where
  pub in_left : Option Text
  pub in_right : Option Text

abbrev pub holds_of : Grip → Holds
holds_of g = record { in_left = g.in_left; in_right = g.in_right }

abbrev pub held_in : Holds → Handedness → Option Text
held_in a left = a.in_left
held_in a right = a.in_right

abbrev pub other : Handedness → Handedness
other left = right
other right = left

abbrev pub put_in : Handedness → Option Text → Holds → Holds
put_in left o a = record a { in_left = o }
put_in right o a = record a { in_right = o }

-- What is said of the hands and is not lost where a hand drops its pod.
pub record Rule : Type 1 where
  pub says : Holds → Type 0
  pub dropping : (hand : Handedness) (b : Holds) → says b → says (put_in hand none b)

-- A rule that is not lost where a hand takes a pod.
abbrev pub AllowsTaking : Rule → Handedness → Type 0
AllowsTaking a hand =
    (id : Text) (b : Holds)
    → held_in b hand ≡ none
    → held_in b (other hand) ≢ some id
    → a.says b
    → a.says (put_in hand (some id) b)

-- The map of owners and the hands tell the same, and the hands obey the rule.
pub record Obeys (a : Rule) (g : Grip) : Type 0 where
  pub owned : IsOwned g
  pub rule : a.says (holds_of g)

pub regrip-holds :
    (hand : Handedness) (o : Option Text) (m : List (Text × Handedness)) (g : Grip)
    → holds_of (regrip hand o m g) ≡ put_in hand o (holds_of g)
regrip-holds left o m g = refl
regrip-holds right o m g = refl

pub held_of : (hand : Handedness) (g : Grip) → held_in (holds_of g) hand ≡ held g hand
held_of left g = refl
held_of right g = refl

dropped-says :
    (a : Rule) (hand : Handedness) (g : Grip)
    → a.says (holds_of g)
    → a.says (holds_of (dropped hand g))
dropped-says a hand g p = elim (Option-cases (named (held g hand))) [
  | inl e ↦ rw (e, dropped) p
  | inr (id, e) ↦
      rw (e, dropped)
        (subst a.says (sym (regrip-holds hand none (remove id g.owners) g))
          (a.dropping hand (holds_of g) p))
]

pub dropped-Obeys : {a : Rule} (hand : Handedness) (g : Grip) → Obeys a g → Obeys a (dropped hand g)
dropped-Obeys {a} hand g w = record {
  owned = dropped-IsOwned hand g w.owned;
  rule = dropped-says a hand g w.rule;
}

pub other_hand :
    (hand : Handedness) (g : Grip) (id : Text)
    → IsOwned g
    → (lookup id g.owners ≡ none) ⊎ (lookup id g.owners ≡ some hand)
    → held_in (holds_of g) (other hand) ≢ some id
other_hand left g id w o e = ground (arith, o, e, w.agrees id right)
other_hand right g id w o e = ground (arith, o, e, w.agrees id left)

pub take-Obeys :
    {a : Rule} (hand : Handedness) (g : Grip) (id : Text)
    → AllowsTaking a hand
    → Obeys a g
    → held g hand ≡ none
    → (lookup id g.owners ≡ none) ⊎ (lookup id g.owners ≡ some hand)
    → id ≢ []
    → Obeys a (taken hand id g)
take-Obeys {a} hand g id allows w e o t = record {
  owned = take-IsOwned hand g id w.owned e o t;
  rule =
      subst a.says (sym (regrip-holds hand (some id) (insert id hand g.owners) g))
        (allows id (holds_of g) (held_of hand g ∙ e) (other_hand hand g id w.owned o) w.rule);
}

pub removed-Obeys :
    {a : Rule} (g : Grip) (id : Text)
    → Obeys a g
    → lookup id g.owners ≡ none
    → Obeys a (record g { owners = remove id g.owners })
removed-Obeys g id w e = record { owned = removed-IsOwned g id w.owned e; rule = w.rule }
