-- ===== src/Scene/Grabs/Steps.antt =====
-- What one call does to the pods in the hands, apart from the map of owners.
use hackz_megalo.Base.{
  ◌≡◌, ◌≢◌, ◌⊎◌, inl, inr, refl, sym, ap, ◌∙◌, subst, none, some, [], Text, eq_Text, lookup, insert,
  remove, Option-cases,
}
use hackz_megalo.Scene.{Handedness, left, right}
use hackz_megalo.Scene.Grabs.{named}
use hackz_megalo.Scene.Grabs.Grips.{
  Grip, held, IsOwned, dropped, taken, named-none, dropped-IsOwned, take-IsOwned,
}
use hackz_megalo.Scene.Grabs.Holds.{
  Holds, holds_of, held_in, other, put_in, Rule, AllowsTaking, Obeys, dropped-Obeys, take-Obeys,
  regrip-holds, held_of, other_hand,
}

-- A hand that grabs keeps what it holds, drops it, or takes a pod that the other hand does not hold
-- where it holds none; the other hand keeps what it holds.
pub data Grabs (hand : Handedness) (a : Holds) : Holds → Type 0 where
  keeps : Grabs hand a a
  drops : Grabs hand a (put_in hand none a)
  takes :
      (id : Text)
      → held_in a hand ≡ none
      → held_in a (other hand) ≢ some id
      → Grabs hand a (put_in hand (some id) a)

-- Each hand keeps what it holds or holds none.
abbrev pub Loses : (a b : Holds) → Type 0
Loses a b = (hand : Handedness) → (held_in b hand ≡ held_in a hand) ⊎ (held_in b hand ≡ none)

-- Each hand keeps what it holds, but for the pod `id`, which it may let go.
abbrev pub LetsGo : (id : Text) (a b : Holds) → Type 0
LetsGo id a b =
    (hand : Handedness)
    → (held_in b hand ≡ held_in a hand) ⊎ ((held_in a hand ≡ some id) × (held_in b hand ≡ none))

-- The same of a grab, with the map of owners.
pub data Grabbed (hand : Handedness) (g : Grip) : Grip → Type 0 where
  kept : Grabbed hand g g
  let_go : Grabbed hand g (dropped hand g)
  took :
      (id : Text)
      → held g hand ≡ none
      → (lookup id g.owners ≡ none) ⊎ (lookup id g.owners ≡ some hand)
      → id ≢ []
      → Grabbed hand g (taken hand id g)

pub grabbed-Obeys :
    {a : Rule} {hand : Handedness} {g h : Grip}
    → AllowsTaking a hand
    → Obeys a g
    → Grabbed hand g h
    → Obeys a h
grabbed-Obeys allows w kept = w
grabbed-Obeys {hand = hand} {g = g} allows w let_go = dropped-Obeys hand g w
grabbed-Obeys {hand = hand} {g = g} allows w (took id e o t) = take-Obeys hand g id allows w e o t

pub grabbed-IsOwned : {hand : Handedness} {g h : Grip} → IsOwned g → Grabbed hand g h → IsOwned h
grabbed-IsOwned w kept = w
grabbed-IsOwned {hand = hand} {g = g} w let_go = dropped-IsOwned hand g w
grabbed-IsOwned {hand = hand} {g = g} w (took id e o t) = take-IsOwned hand g id w e o t

put_same : (hand : Handedness) (a : Holds) → held_in a hand ≡ none → a ≡ put_in hand none a
put_same left a e = ap (λ o. put_in left o a) e
put_same right a e = ap (λ o. put_in right o a) e

-- A hand that drops its pod holds none, and the other hand keeps its own.
pub dropped-holds :
    (hand : Handedness) (g : Grip)
    → IsOwned g
    → holds_of (dropped hand g) ≡ put_in hand none (holds_of g)
dropped-holds hand g w = elim (Option-cases (named (held g hand))) [
  | inl e ↦
      rw (e, dropped)
        (put_same hand (holds_of g) (held_of hand g ∙ named-none (held g hand) (w.is_named hand) e))
  | inr (id, e) ↦ rw (e, dropped) (regrip-holds hand none (remove id g.owners) g)
]

pub grabbed-Grabs :
    {hand : Handedness} {g h : Grip}
    → IsOwned g
    → Grabbed hand g h
    → Grabs hand (holds_of g) (holds_of h)
grabbed-Grabs w kept = keeps
grabbed-Grabs {hand = hand} {g = g} w let_go =
    subst (Grabs hand (holds_of g)) (sym (dropped-holds hand g w)) drops
grabbed-Grabs {hand = hand} {g = g} w (took id e o t) =
    subst (Grabs hand (holds_of g)) (sym (regrip-holds hand (some id) (insert id hand g.owners) g))
      (takes id (held_of hand g ∙ e) (other_hand hand g id w o))

pub put_in-Loses :
    {a : Holds} (hand : Handedness) (b : Holds) → Loses a b → Loses a (put_in hand none b)
put_in-Loses left b p left = inr refl
put_in-Loses left b p right = p right
put_in-Loses right b p left = p left
put_in-Loses right b p right = inr refl

-- The rule of a call that only loses pods.
abbrev pub lost_from : Holds → Rule
lost_from a = record { says = λ b. Loses a b; dropping = λ hand b p h. put_in-Loses hand b p h }

pub starting : (g : Grip) → IsOwned g → Obeys (lost_from (holds_of g)) g
starting g w = record { owned = w; rule = λ h. inl refl }

put-LetsGo :
    (hand : Handedness) (id : Text) (a : Holds)
    → held_in a hand ≡ some id
    → LetsGo id a (put_in hand none a)
put-LetsGo left id a e left = inr (e, refl)
put-LetsGo left id a e right = inl refl
put-LetsGo right id a e left = inl refl
put-LetsGo right id a e right = inr (e, refl)

pub dropped-LetsGo :
    (hand : Handedness) (id : Text) (g : Grip)
    → IsOwned g
    → lookup id g.owners ≡ some hand
    → LetsGo id (holds_of g) (holds_of (dropped hand g))
dropped-LetsGo hand id g w e =
    subst (LetsGo id (holds_of g)) (sym (dropped-holds hand g w))
      (put-LetsGo hand id (holds_of g) (held_of hand g ∙ (w.agrees id hand).0 e))
