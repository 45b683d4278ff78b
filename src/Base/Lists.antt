-- ===== src/Base/Lists.antt =====
-- Lists over the native numbers, and the array and set operations of the language that the program
-- calls: `includes`, `filter`, `slice`, and a `Set` as a list in order of insertion.
use Prim.Native.Nat.{ℕ, zero, suc, ◌+◌, ◌-◌, ◌≤◌, min}
use mathlib.Core.Path.{◌≡◌, refl, ap}
use mathlib.Core.Bool.{Bool, false, not, ◌&&◌, ◌||◌, true}
use mathlib.Core.List.{List, [], ◌∷◌, ◌++◌, map}
use native.Mathlib.Omega.{arith}
use hackz_megalo.Base.Tests.{Eq, ◌==◌, if◌then◌else◌}

module _ {ℓ} {A : Type ℓ} where
  abbrev pub length : List A → ℕ
  length [] = 0
  length (y ∷ l) = suc (length l)

  unfoldable pub take : ℕ → List A → List A
  take zero l = []
  take (suc k) [] = []
  take (suc k) (y ∷ l) = y ∷ take k l

  unfoldable pub drop : ℕ → List A → List A
  drop zero xs = xs
  drop (suc n) [] = []
  drop (suc n) (x ∷ xs) = drop n xs

  pub take-append-drop : (n : ℕ) (xs : List A) → take n xs ++ drop n xs ≡ xs
  unfolding take drop
  take-append-drop zero xs = refl
  take-append-drop (suc n) [] = refl
  take-append-drop (suc n) (x ∷ xs) = ap (◌∷◌ x) (take-append-drop n xs)

  pub length-take : (n : ℕ) (xs : List A) → length (take n xs) ≡ min n (length xs)
  unfolding take
  length-take zero xs = omega arith
  length-take (suc n) [] = omega arith
  length-take (suc n) (x ∷ xs) = omega (arith, length-take n xs)

  pub take_of_length-le : (k : ℕ) (l : List A) → length l ≤ k → take k l ≡ l
  unfolding take
  take_of_length-le zero [] h = refl
  take_of_length-le zero (y ∷ l) h = absurd (omega arith)
  take_of_length-le (suc k) [] h = refl
  take_of_length-le (suc k) (y ∷ l) h = ap (◌∷◌ y) (take_of_length-le k l (omega arith))

  -- A prefix needs only a prefix of what it is cut from.
  pub take-append_take :
      (n m : ℕ) (xs ys : List A) → n ≤ m → take n (xs ++ take m ys) ≡ take n (xs ++ ys)
  unfolding take
  take-append_take zero m xs ys h = refl
  take-append_take (suc n) m (x ∷ xs) ys h = ap (◌∷◌ x) (take-append_take n m xs ys (omega arith))
  take-append_take (suc n) (suc m) [] [] h = refl
  take-append_take (suc n) (suc m) [] (y ∷ ys) h =
      ap (◌∷◌ y) (take-append_take n m [] ys (omega arith))
  take-append_take (suc n) zero [] ys h = absurd (omega arith)

  pub length-append : (xs ys : List A) → length (xs ++ ys) ≡ length xs + length ys
  length-append [] ys = omega arith
  length-append (x ∷ xs) ys = omega (arith, length-append xs ys)

  pub length-drop : (n : ℕ) (xs : List A) → length (drop n xs) ≡ length xs - n
  unfolding drop
  length-drop zero xs = omega arith
  length-drop (suc n) [] = omega arith
  length-drop (suc n) (x ∷ xs) = omega (arith, length-drop n xs)

  unfoldable pub keep_if : (A → Bool) → List A → List A
  keep_if p [] = []
  keep_if p (x ∷ xs) = let rest = keep_if p xs in if p x then x ∷ rest else rest

  pub length-keep_if-le : (p : A → Bool) (xs : List A) → length (keep_if p xs) ≤ length xs
  unfolding keep_if
  length-keep_if-le p [] = omega arith
  length-keep_if-le p (x ∷ xs) = ground (arith, length-keep_if-le p xs)

module _ {ℓ} {A : Type ℓ} where
  unfoldable pub count_if : (A → Bool) → List A → ℕ
  count_if p [] = 0
  count_if p (x ∷ xs) = let rest = count_if p xs in if p x then suc rest else rest

  pub count_if-append :
      (p : A → Bool) (xs ys : List A) → count_if p (xs ++ ys) ≡ count_if p xs + count_if p ys
  unfolding count_if
  count_if-append p [] ys = omega arith
  count_if-append p (x ∷ xs) ys = ground (arith, count_if-append p xs ys)

pub count_if-map {ℓ κ} :
    {A : Type ℓ} {B : Type κ} (p : B → Bool) (f : A → B) (xs : List A)
    → count_if p (map f xs) ≡ count_if (λ x. p (f x)) xs
unfolding count_if
count_if-map p f [] = refl
count_if-map p f (x ∷ xs) = ground (arith, count_if-map p f xs)

abbrev pub All {ℓ κ} : {A : Type ℓ} → (A → Type κ) → List A → Type κ
All P [] = Unit
All P (x ∷ xs) = P x × All P xs

module _ {ℓ} {A : Type ℓ} ⦃e : Eq A⦄ where
  unfoldable pub includes : List A → A → Bool
  includes [] a = false
  includes (x ∷ xs) a = x == a || includes xs a

  -- `filter((x) => x !== a)`
  abbrev pub without : A → List A → List A
  without a = keep_if (λ x. not (x == a))

  -- `Set.add`
  abbrev pub add_to : List A → A → List A
  add_to xs a = if includes xs a then xs else xs ++ a ∷ []

  pub includes-append :
      (xs ys : List A) (a : A) → includes (xs ++ ys) a ≡ (includes xs a || includes ys a)
  unfolding includes
  includes-append [] ys a = refl
  includes-append (x ∷ xs) ys a = ground (arith, includes-append xs ys a)

  pub includes-add_to : (xs : List A) (a : A) → includes (add_to xs a) a ≡ true
  unfolding includes
  includes-add_to xs a = ground (arith, includes-append xs (a ∷ []) a, e.beq_iff a a)

  pub includes-keep_if :
      (p : A → Bool) (xs : List A) (a : A) → includes (keep_if p xs) a ≡ (p a && includes xs a)
  unfolding includes keep_if
  includes-keep_if p [] a = ground arith
  includes-keep_if p (x ∷ xs) a = ground (arith, e.beq_iff x a, includes-keep_if p xs a)

  -- No value stands twice: what an array used as a set, and a `Set`, keep.
  abbrev pub IsDistinct : List A → Type 0
  IsDistinct [] = Unit
  IsDistinct (x ∷ xs) = (includes xs x ≡ false) × IsDistinct xs

  pub IsDistinct-append_one :
      (xs : List A) (a : A) → IsDistinct xs → includes xs a ≡ false → IsDistinct (xs ++ a ∷ [])
  unfolding includes
  IsDistinct-append_one [] a d h = (refl, tt)
  IsDistinct-append_one (x ∷ xs) a d h = (
    ground (arith, includes-append xs (a ∷ []) x, e.beq_iff a x, e.beq_iff x a),
    IsDistinct-append_one xs a d.1 (ground arith),
  )

  pub IsDistinct-keep_if : (p : A → Bool) (xs : List A) → IsDistinct xs → IsDistinct (keep_if p xs)
  unfolding keep_if
  IsDistinct-keep_if p [] d = tt
  IsDistinct-keep_if p (x ∷ xs) d =
      ground (arith, IsDistinct-keep_if p xs d.1, includes-keep_if p xs x)
