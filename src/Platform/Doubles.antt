-- ===== src/Platform/Doubles.antt =====
-- The arithmetic of `double` that the geometry uses. No law of it is needed.
use aowis_server_map.Prelude.{Bool}
use aowis_server_map.Prelude.Int.{ℤ}

pub record Doubles : Type 1 where
  pub Double : Type 0
  pub of_int : ℤ → Double
  -- `1e-10` and pi
  pub tiny : Double
  pub pi : Double
  pub is_finite : Double → Bool
  pub lt : Double → Double → Bool
  pub le : Double → Double → Bool
  pub add : Double → Double → Double
  pub sub : Double → Double → Double
  pub mul : Double → Double → Double
  pub div : Double → Double → Double
  pub absolute : Double → Double
  pub smaller : Double → Double → Double
  pub larger : Double → Double → Double
  pub sinh : Double → Double
  pub atan : Double → Double
  -- `qRadiansToDegrees`
  pub to_degrees : Double → Double
