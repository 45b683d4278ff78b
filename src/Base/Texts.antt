-- ===== src/Base/Texts.antt =====
-- A JavaScript string is the list of its UTF-16 code units, which `length` and `slice` count.
use Prim.Native.Nat.{ℕ, ◌-◌}
use Prim.Native.Char.{code}
use Prim.Native.String.{String}
use mathlib.Core.Path.{◌≡◌}
use mathlib.Core.Logic.{◌↔◌}
use mathlib.Core.Bool.{Bool, true, false, ◌&&◌}
use mathlib.Core.List.{List, [], ◌∷◌}
use mathlib.Core.Option.{Option, none, some}
use native.Mathlib.Omega.{arith}
use hackz_megalo.Base.Tests.{Eq, nat_eq}
use hackz_megalo.Base.Lists.{drop, length}

abbrev pub Text : Type 0
Text = List ℕ

-- A literal. All of the source's literals lie in the plane where a code point is one unit.
abbrev pub text : String → Text
text String.[] = []
text (String.◌∷◌ c s) = code c ∷ text s

unfoldable pub text_eq : Text → Text → Bool
text_eq [] [] = true
text_eq (x ∷ xs) (y ∷ ys) = nat_eq x y && text_eq xs ys
text_eq _ _ = false

pub text_eq_iff : (s t : Text) → (text_eq s t ≡ true) ↔ (s ≡ t)
unfolding text_eq
text_eq_iff [] [] = ground arith
text_eq_iff [] (y ∷ ys) = ground arith
text_eq_iff (x ∷ xs) [] = ground arith
text_eq_iff (x ∷ xs) (y ∷ ys) = ground (arith, text_eq_iff xs ys)

instance abbrev pub eq_Text : Eq Text
eq_Text = record { beq = text_eq; beq_iff = text_eq_iff }

-- Truthiness: the empty string is falsy.
abbrev pub truthy : Text → Bool
truthy [] = false
truthy (c ∷ s) = true

abbrev pub truthy_option : Option Text → Bool
truthy_option none = false
truthy_option (some s) = truthy s

unfoldable pub starts_with : Text → Text → Bool
starts_with s [] = true
starts_with [] (p ∷ ps) = false
starts_with (c ∷ s) (p ∷ ps) = nat_eq c p && starts_with s ps

-- `s.endsWith(t)`
unfoldable pub ends_with : Text → Text → Bool
unfolding text_eq drop
ends_with s t = text_eq (drop (length s - length t) s) t
