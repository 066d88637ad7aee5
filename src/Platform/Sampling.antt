-- ===== src/Platform/Sampling.antt =====
-- The arithmetic of `double` that the sampling of a tile uses, beside that of the tiles. No law of it is
-- needed.
use aowis_server_map.Prelude.{Bool}
use aowis_server_map.Prelude.Int.{ℤ}
use aowis_server_map.Platform.Floats.{Floats}

pub record Sampling (fl : Floats) : Type 0 where
  pub le : fl.Double → fl.Double → Bool
  pub add : fl.Double → fl.Double → fl.Double
  pub mul : fl.Double → fl.Double → fl.Double
  pub pi : fl.Double
  pub half : fl.Double
  -- `std::numeric_limits<double>::epsilon()`
  pub epsilon : fl.Double
  -- 85.0511287798066
  pub maximum_latitude : fl.Double
  -- `int(std::floor(x))`
  pub floor : fl.Double → ℤ
  pub asinh : fl.Double → fl.Double
  pub tan : fl.Double → fl.Double
