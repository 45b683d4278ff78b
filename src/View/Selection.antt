-- ===== src/View/Selection.antt =====
-- The strip of pods marks the selected pod, and no other.
use hackz_megalo.Base.{
  ℕ, ◌≡◌, refl, ◌∙◌, Bool, false, List, [], ◌∷◌, Option, none, some, Text, eq_Text, text_eq_iff,
  arith, if◌then◌else◌, option_beq, length, keep_if, values, keys, has, lookup, includes,
  includes-keys, IsDistinct,
}
use hackz_megalo.Types.{SlaveState}
use hackz_megalo.Store.{GameState}
use hackz_megalo.Store.Pods.{Collation, insert_sorted, to_sorted, get_pods}
use hackz_megalo.Store.Invariant.{IsKeyed, IsWellFormed}
use hackz_megalo.View.Markup.{Chip, render_chip, render_pod_strip}
use hackz_megalo.View.Page.{render}

-- How many chips are marked.
abbrev pub marked : List Chip → ℕ
marked cs = length (keep_if (λ c. c.is_selected) cs)

abbrev named : Option Text → List SlaveState → ℕ
named o ps = length (keep_if (λ p. option_beq (some p.slave_id) o) ps)

marked-strip :
    (ps : List SlaveState) (o h : Option Text) → marked (render_pod_strip ps o h) ≡ named o ps
unfolding render_pod_strip render_chip keep_if
marked-strip [] o h = refl
marked-strip (p ∷ ps) o h = ground (arith, marked-strip ps o h)

module _ ⦃c : Collation⦄ where
  named-insert_sorted :
      (o : Option Text) (p : SlaveState) (ps : List SlaveState)
      → named o (insert_sorted p ps) ≡ named o (p ∷ ps)
  unfolding insert_sorted keep_if
  named-insert_sorted o p [] = refl
  named-insert_sorted o p (q ∷ ps) = ground (arith, named-insert_sorted o p ps)

  named-to_sorted : (o : Option Text) (ps : List SlaveState) → named o (to_sorted ps) ≡ named o ps
  unfolding to_sorted keep_if
  named-to_sorted o [] = refl
  named-to_sorted o (p ∷ ps) =
      ground (arith, named-insert_sorted o p (to_sorted ps), named-to_sorted o ps)

named-values :
    (id : Text) (m : List (Text × SlaveState))
    → IsKeyed m
    → IsDistinct (keys m)
    → named (some id) (values m) ≡ (if has m id then 1 else 0)
unfolding keep_if lookup
named-values id [] k d = refl
named-values id ((j, p) ∷ m) k d = ground (
  arith,
  k.0,
  d.0,
  named-values id m k.1 d.1,
  includes-keys m id,
  includes-keys m j,
  text_eq_iff j id,
  text_eq_iff p.slave_id id,
)

named-none : (ps : List SlaveState) → named none ps ≡ 0
unfolding keep_if
named-none [] = refl
named-none (p ∷ ps) = named-none ps

abbrev pub is_of_pod : Option Text → List (Text × SlaveState) → Bool
is_of_pod none m = false
is_of_pod (some id) m = includes (keys m) id

named-is_of_pod :
    (o : Option Text) (m : List (Text × SlaveState))
    → IsKeyed m
    → IsDistinct (keys m)
    → named o (values m) ≡ (if is_of_pod o m then 1 else 0)
named-is_of_pod none m k d = named-none (values m)
named-is_of_pod (some id) m k d = ground (arith, named-values id m k d, includes-keys m id)

-- In a well-formed state the strip marks one chip where the selected id is that of a pod, and none
-- where it is not or nothing is selected.
pub marked-render :
    ⦃c : Collation⦄ (locale_time : Text → Text) (g : GameState)
    → IsWellFormed g
    → marked (render locale_time g).strip
      ≡ (if is_of_pod g.selected_pod_id g.pods_by_id then 1 else 0)
unfolding render get_pods
marked-render ⦃c⦄ locale_time g w =
    marked-strip (to_sorted (values g.pods_by_id)) g.selected_pod_id g.hovered_pod_id
    ∙ named-to_sorted g.selected_pod_id (values g.pods_by_id)
    ∙ named-is_of_pod g.selected_pod_id g.pods_by_id w.keyed w.distinct
