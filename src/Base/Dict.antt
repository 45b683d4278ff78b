-- ===== src/Base/Dict.antt =====
-- A `Map` or a plain object as an association list in order of insertion.
use mathlib.Core.Logic.{inl, inr}
use Prim.Native.Nat.{suc}
use mathlib.Core.Path.{ap, ◌≡◌, refl, subst, sym, ap₂}
use mathlib.Core.Bool.{Bool, true, ◌&&◌, ◌||◌, not}
use mathlib.Core.List.{List, [], ◌∷◌, map}
use mathlib.Core.Option.{Option, none, some}
use native.Mathlib.Omega.{arith}
use hackz_megalo.Base.Tests.{Eq, ◌==◌, if◌then◌else◌, is_some, Bool-cases}
use hackz_megalo.Base.Lists.{count_if, includes, IsDistinct, All}

module _ {ℓ κ} {K : Type ℓ} {V : Type κ} where
  abbrev pub keys : List (K × V) → List K
  keys = map (λ b. b.0)

  abbrev pub values : List (K × V) → List V
  values = map (λ b. b.1)

module _ {ℓ κ} {K : Type ℓ} ⦃e : Eq K⦄ {V : Type κ} where
  unfoldable pub lookup : K → List (K × V) → Option V
  lookup k [] = none
  lookup k ((j, v) ∷ m) = if j == k then some v else lookup k m

  -- An old key keeps its place, a new one goes to the end.
  unfoldable pub insert : K → V → List (K × V) → List (K × V)
  insert k v [] = (k, v) ∷ []
  insert k v ((j, w) ∷ m) = if j == k then (j, v) ∷ m else (j, w) ∷ insert k v m

  unfoldable pub remove : K → List (K × V) → List (K × V)
  remove k [] = []
  remove k ((j, w) ∷ m) = let rest = remove k m in if j == k then rest else (j, w) ∷ rest

  abbrev pub has : List (K × V) → K → Bool
  has m k = is_some (lookup k m)

  pub lookup-insert :
      (i k : K) (x : V) (d : List (K × V))
      → lookup k (insert i x d) ≡ (if i == k then some x else lookup k d)
  unfolding lookup insert
  lookup-insert i k x [] = refl
  lookup-insert i k x ((j, y) ∷ d) =
      ground (arith, e.beq_iff j i, e.beq_iff j k, e.beq_iff i k, lookup-insert i k x d)

  pub lookup-remove :
      (k j : K) (m : List (K × V)) → lookup j (remove k m) ≡ (if k == j then none else lookup j m)
  unfolding lookup remove
  lookup-remove k j [] = ground arith
  lookup-remove k j ((i, w) ∷ m) =
      ground (arith, e.beq_iff k j, e.beq_iff i k, e.beq_iff i j, lookup-remove k j m)

  pub includes-keys : (m : List (K × V)) (k : K) → includes (keys m) k ≡ has m k
  unfolding includes lookup
  includes-keys [] k = refl
  includes-keys ((j, v) ∷ m) k = ground (arith, includes-keys m k)

  pub includes-keys-insert :
      (k j : K) (v : V) (m : List (K × V))
      → includes (keys (insert k v m)) j ≡ (k == j || includes (keys m) j)
  unfolding includes insert
  includes-keys-insert k j v [] = refl
  includes-keys-insert k j v ((i, w) ∷ m) =
      ground (arith, e.beq_iff k j, e.beq_iff i k, e.beq_iff i j, includes-keys-insert k j v m)

  pub insert-IsDistinct :
      (k : K) (v : V) (m : List (K × V)) → IsDistinct (keys m) → IsDistinct (keys (insert k v m))
  unfolding insert includes
  insert-IsDistinct k v [] d = ground arith
  insert-IsDistinct k v ((i, w) ∷ m) d = ground (
    arith,
    e.beq_iff i k,
    e.beq_iff k i,
    includes-keys-insert k i v m,
    insert-IsDistinct k v m d.1,
  )

  pub includes-keys-remove :
      (k j : K) (m : List (K × V))
      → includes (keys (remove k m)) j ≡ (not (k == j) && includes (keys m) j)
  unfolding includes remove
  includes-keys-remove k j [] = ground arith
  includes-keys-remove k j ((i, w) ∷ m) =
      ground (arith, e.beq_iff k j, e.beq_iff i k, e.beq_iff i j, includes-keys-remove k j m)

  pub remove-IsDistinct :
      (k : K) (m : List (K × V)) → IsDistinct (keys m) → IsDistinct (keys (remove k m))
  unfolding remove includes
  remove-IsDistinct k [] d = tt
  remove-IsDistinct k ((i, w) ∷ m) d =
      ground (arith, includes-keys-remove k i m, remove-IsDistinct k m d.1)

  pub All-insert {μ} :
      (P : K × V → Type μ) (k : K) (v : V) (m : List (K × V))
      → P (k, v)
      → All P m
      → All P (insert k v m)
  unfolding insert
  All-insert P k v [] p h = (p, tt)
  All-insert P k v ((j, w) ∷ m) p h = elim (Bool-cases (j == k)) [
    | inl same ↦ rw same (subst (λ i. P (i, v)) (sym ((e.beq_iff j k).0 same)) p, h.1)
    | inr other ↦ rw other (h.0, All-insert P k v m p h.1)
  ]

  pub All-lookup {μ} :
      (P : K × V → Type μ) (k : K) (m : List (K × V)) {v : V}
      → All P m
      → lookup k m ≡ some v
      → P (k, v)
  unfolding lookup
  All-lookup P k [] h q = absurd (cc)
  All-lookup P k ((j, w) ∷ m) h q = elim (Bool-cases (j == k)) [
    | inl same ↦
        subst (λ (b : K × V). P b) (ap₂ (λ i x. (i, x)) ((e.beq_iff j k).0 same) (ground arith)) h.0
    | inr other ↦ All-lookup P k m h.1 (ground arith)
  ]

  -- Writing one value twice is writing it once.
  pub insert_idem : (k : K) (v : V) (m : List (K × V)) → insert k v (insert k v m) ≡ insert k v m
  unfolding insert
  insert_idem k v [] = ground (arith, e.beq_iff k k)
  insert_idem k v ((i, w) ∷ m) = ground (arith, e.beq_iff i k, insert_idem k v m)

  told :
      (p : K × V → Bool) (i k : K) (v w x : V) (m : List (K × V))
      → (i == k) ≡ true
      → p (k, v) ≡ p (k, w)
      → lookup k ((i, x) ∷ m) ≡ some w
      → p (i, v) ≡ p (i, x)
  unfolding lookup
  told p i k v w x m same t q =
      subst (λ j. p (j, v) ≡ p (j, x)) (sym ((e.beq_iff i k).0 same))
        (subst (λ y. p (k, v) ≡ p (k, y)) (ground (arith, same, q)) t)

  -- A value written over one that a test does not tell from it leaves the test's count.
  pub count_if-insert :
      (p : K × V → Bool) (k : K) (v w : V) (m : List (K × V))
      → lookup k m ≡ some w
      → p (k, v) ≡ p (k, w)
      → count_if p (insert k v m) ≡ count_if p m
  unfolding count_if insert lookup
  count_if-insert p k v w [] q t = absurd (cc)
  count_if-insert p k v w ((i, x) ∷ m) q t = elim (Bool-cases (i == k)) [
    | inl same ↦
        rw same
          (ap (λ b. if b then suc (count_if p m) else count_if p m) (told p i k v w x m same t q))
    | inr other ↦ rw other (ground (arith, count_if-insert p k v w m (ground arith) t))
  ]
