-- ===== src/Settings/Matching.antt =====
-- What the expressions of a rule match.
use killjoy.Base.{String, ◌<>◌, true, ◌≡◌, ◌↔◌, eq_iff, ends_with-append, ends_with-split}
use killjoy.Settings.Regex.{RegexCrate}
use killjoy.Settings.Types.{Expression, regex, unit_name, unit_type, matches}

module _ (R : RegexCrate) where
  -- The meaning of an expression, from the documentation of the settings file.
  abbrev pub Denotes : Expression R → String → Type 0
  Denotes (regex expr) name = RegexCrate.is_match R expr name ≡ true
  Denotes (unit_name expr) name = name ≡ expr
  Denotes (unit_type expr) name = (stem : String) × (name ≡ stem <> expr)

  -- An expression matches a unit name exactly when the name is the expression (unit name), ends
  -- with it (unit type), or is a match of it (regex).
  pub matches_iff : (e : Expression R) (name : String) → (matches R e name ≡ true) ↔ Denotes e name
  unfolding matches
  matches_iff (regex expr) name = (λ h. h, λ h. h)
  matches_iff (unit_name expr) name = eq_iff name expr
  matches_iff (unit_type expr) name =
      (ends_with-split name expr, λ (stem, e). rw e (ends_with-append stem expr))
