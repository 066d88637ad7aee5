-- ===== src/Terrain/Position.antt =====
-- lib/terrain_data.cpp: the place of a coordinate in the grid of a zoom, and the elevation between the
-- samples of a tile.
use aowis_server_map.Prelude.{
  ℕ, ◌+◌, ◌-◌, ◌*◌, ◌^◌, ◌%◌, min, Bool, not, ◌||◌, ◌&&◌, ◌==◌, Option, none, some, List, [], ◌∷◌,
  get_or, length, if◌then◌else◌,
}
use aowis_server_map.Prelude.Int.{ℤ, pos, negsuc, pos_part, ltb_ℤ}
use aowis_server_map.Platform.Floats.{Floats}
use aowis_server_map.Platform.Sampling.{Sampling}
use aowis_server_map.Tile.Defs.{
  TerrainTile, TerrainTileAddress, sample_count, cell_count, grid_size, maximum_zoom,
}

module _ (fl : Floats) (ar : Sampling fl) where
  open fl use {Double, of_int, is_finite, lt, sub, div, widen}
  open ar use {le, add, mul, pi, half, epsilon, maximum_latitude, floor, asinh, tan}

  pub record TerrainGridPosition : Type 0 where
    pub address : TerrainTileAddress
    pub column : Double
    pub row : Double

  abbrev pub number : ℕ → Double
  number n = of_int (pos n)

  unfoldable pub is_valid_wgs84_coordinate : Double → Double → Bool
  is_valid_wgs84_coordinate latitude longitude =
      is_finite latitude
      && is_finite longitude
      && le (of_int (negsuc 89)) latitude
      && le latitude (number 90)
      && le (of_int (negsuc 179)) longitude
      && le longitude (number 180)

  -- The negated constant is a subtraction from 0.
  unfoldable pub is_outside_mercator : Double → Bool
  is_outside_mercator latitude =
      lt latitude (sub (number 0) maximum_latitude) || lt maximum_latitude latitude

  -- `std::clamp`
  abbrev pub clamp : Double → Double → Double → Double
  clamp x low high = if lt x low then low else if lt high x then high else x

  -- The index and the fraction of a clamped coordinate in a row of `count` tiles, and the 32-bit word of
  -- the index.
  unfoldable pub tile_index : Double → ℕ → ℕ
  tile_index x count = (if le (number count) x then count - 1 else pos_part (floor x)) % 2 ^ 32

  unfoldable pub tile_fraction : Double → ℕ → Double
  tile_fraction x count =
      if le (number count) x then number 1 else sub x (number (pos_part (floor x)))

  unfoldable pub tile_x_of : Double → ℕ → Double
  tile_x_of longitude count =
      clamp (mul (div (add longitude (number 180)) (number 360)) (number count)) (number 0)
        (number count)

  unfoldable pub tile_y_of : Double → ℕ → Double
  tile_y_of latitude count =
      let radians = div (mul latitude pi) (number 180) in
      clamp (mul (mul (sub (number 1) (div (asinh (tan radians)) pi)) half) (number count))
        (number 0) (number count)

  unfoldable pub terrain_grid_position : Double → Double → ℤ → Option TerrainGridPosition
  unfolding is_outside_mercator tile_index tile_fraction tile_x_of tile_y_of
  terrain_grid_position latitude longitude zoom =
      let count = 2 ^ pos_part zoom in
      let x = tile_x_of longitude count in
      let y = tile_y_of latitude count in
      if ltb_ℤ zoom (pos 0) || ltb_ℤ (pos maximum_zoom) zoom
      then none
      else if is_outside_mercator latitude
      then none
      else some (record {
        address = record { zoom = zoom; x = tile_index x count; y = tile_index y count };
        column = mul (tile_fraction x count) (number cell_count);
        row = mul (tile_fraction y count) (number cell_count);
      })

  -- The loop over the four samples with their weights.
  unfoldable pub weigh : TerrainTile fl → List (ℕ × Double) → Double → Option Double
  weigh t [] sum = if is_finite sum then some sum else none
  weigh t ((index, weight) ∷ rest) sum =
      let elevation = widen (get_or t.elevations_m index (fl.quiet_nan)) in
      let skipped = weigh t rest sum in
      let added = weigh t rest (add sum (mul weight elevation)) in
      if le weight epsilon then skipped else if not (is_finite elevation) then none else added

  unfoldable pub bilinear_elevation : TerrainTile fl → Double → Double → Option Double
  unfolding weigh
  bilinear_elevation t column row =
      let column0 = min (pos_part (floor column)) cell_count in
      let row0 = min (pos_part (floor row)) cell_count in
      let column1 = min (column0 + 1) cell_count in
      let row1 = min (row0 + 1) cell_count in
      let column_fraction = sub column (number column0) in
      let row_fraction = sub row (number row0) in
      let column_rest = sub (number 1) column_fraction in
      let row_rest = sub (number 1) row_fraction in
      if not (length t.elevations_m == sample_count)
        || not (is_finite column)
        || not (is_finite row)
        || lt column (number 0)
        || lt (number cell_count) column
        || lt row (number 0)
        || lt (number cell_count) row
      then none
      else weigh t
          ((row0 * grid_size + column0, mul column_rest row_rest)
            ∷ (row0 * grid_size + column1, mul column_fraction row_rest)
            ∷ (row1 * grid_size + column0, mul column_rest row_fraction)
            ∷ (row1 * grid_size + column1, mul column_fraction row_fraction)
            ∷ [])
          (number 0)
