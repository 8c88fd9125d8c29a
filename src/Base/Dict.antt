-- ===== src/Base/Dict.antt =====
-- `HashMap<String, V>`, as an association list.
use Prim.Native.String.{String}
use mathlib.Core.Path.{◌≡◌, refl}
use mathlib.Core.Option.{Option, none, some}
use mathlib.Core.List.{List, [], ◌∷◌}
use native.Mathlib.Omega.{arith}
use text.Mathlib.Text.{◌==◌}
use text.Mathlib.TextEquality.{eq_iff}
use killjoy.Base.Tests.{if◌then◌else◌}

abbrev pub Dict {ℓ} : Type ℓ → Type ℓ
Dict V = List (String × V)

module _ {ℓ} {V : Type ℓ} where
  unfoldable pub lookup : (key : String) → Dict V → Option V
  lookup key [] = none
  lookup key ((other, value) ∷ entries) = if other == key then some value else lookup key entries

  unfoldable pub insert : (key : String) → V → Dict V → Dict V
  insert key new [] = (key, new) ∷ []
  insert key new ((other, value) ∷ entries) =
      if other == key then (key, new) ∷ entries else (other, value) ∷ insert key new entries

  unfoldable pub remove : (key : String) → Dict V → Dict V
  remove key [] = []
  remove key ((other, value) ∷ entries) =
      let rest = remove key entries in if other == key then rest else (other, value) ∷ rest

  pub lookup-insert :
      (key sought : String) (new : V) (entries : Dict V)
      → lookup sought (insert key new entries)
        ≡ (if key == sought then some new else lookup sought entries)
  unfolding insert lookup
  lookup-insert key sought new [] = refl
  lookup-insert key sought new ((other, value) ∷ entries) =
      let ih = lookup-insert key sought new entries in
      ground (arith, eq_iff other key, eq_iff other sought, eq_iff key sought)

  pub lookup-remove :
      (key sought : String) (entries : Dict V)
      → lookup sought (remove key entries) ≡ (if key == sought then none else lookup sought entries)
  unfolding remove lookup
  lookup-remove key sought [] = ground arith
  lookup-remove key sought ((other, value) ∷ entries) =
      let ih = lookup-remove key sought entries in
      ground (arith, eq_iff other key, eq_iff other sought, eq_iff key sought)
