-- ===== src/Settings/Regex.antt =====
-- The regex crate, as a parameter: compiling an expression, and searching a text for a match.
use killjoy.Base.{String, Bool}
use killjoy.Error.{ExternResult}

pub record RegexCrate : Type 1 where
  pub Regex : Type 0
  pub compile : String → ExternResult Regex
  pub is_match : Regex → String → Bool
