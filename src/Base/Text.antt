-- ===== src/Base/Text.antt =====
-- `str::ends_with`, and `str::replace` of one character by another.
use Prim.Native.Char.{Char, code}
use Prim.Native.String.{String, [], ◌∷◌, ◌++◌}
use mathlib.Core.Path.{◌≡◌, refl, ap}
use mathlib.Core.Bool.{Bool, true}
use mathlib.Core.Logic.{ite, inl, inr}
use native.Mathlib.Decide.{ℕ_discrete}
use native.Mathlib.Omega.{arith}
use text.Mathlib.Text.{◌==◌}
use text.Mathlib.TextEquality.{eq_iff}
use text.Mathlib.TextPositions.{eq_refl}
use text.Mathlib.TextLemmas.{nil-append, cons-append}
use killjoy.Base.Tests.{if◌then◌else◌, Bool-cases}

-- `s.ends_with(suffix)`
unfoldable pub ends_with : String → String → Bool
ends_with [] suffix = [] == suffix
ends_with (c ∷ s) suffix = if (c ∷ s) == suffix then true else ends_with s suffix

-- `s.replace(from, to)` for a pattern of one character
unfoldable pub replace_char : Char → Char → String → String
unfolding ℕ_discrete
replace_char from to [] = []
replace_char from to (c ∷ s) = ite (ℕ_discrete (code c) (code from)) to c ∷ replace_char from to s

-- Every text ends with its suffix.
pub ends_with-append : (p suffix : String) → ends_with (p ++ suffix) suffix ≡ true
unfolding ends_with
ends_with-append [] [] = refl
ends_with-append [] (c ∷ s) = rw (nil-append, eq_refl)
ends_with-append (c ∷ p) suffix = rw cons-append (ground (arith, ends_with-append p suffix))

-- A text that passes the test splits before the suffix.
pub ends_with-split :
    (s suffix : String) → ends_with s suffix ≡ true → (p : String) × (s ≡ p ++ suffix)
unfolding ends_with
ends_with-split [] suffix h = ([], rw nil-append ((eq_iff [] suffix).0 h))
ends_with-split (c ∷ s) suffix h = elim (Bool-cases ((c ∷ s) == suffix)) [
  | inl e ↦ ([], rw nil-append ((eq_iff (c ∷ s) suffix).0 e))
  | inr e ↦
      let (p, q) = ends_with-split s suffix (ground arith) in
      (c ∷ p, rw cons-append (ap (λ t. c ∷ t) q))
]
