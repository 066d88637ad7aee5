-- ===== src/MapTiles/Range.antt =====
-- lib/maptiles.cpp: `positiveModulo`, `tileXInsideRange`, `parseCanonicalTileKey` and the test of
-- `deleteTiles` for the keys that a range covers. lib/terrain_data.cpp has the first two again.
use aowis_server_map.Prelude.{
  ℕ, suc, ◌-◌, ◌%◌, ◌^◌, Bool, true, false, ◌&&◌, Option, none, some, List, [], ◌∷◌, Text, eqb,
  is_empty, ◌==◌, if◌then◌else◌,
}
use aowis_server_map.Prelude.Int.{ℤ, pos, negsuc, pos_part, ltb_ℤ, leb_ℤ, ◌+ℤ◌, ◌-ℤ◌}
use aowis_server_map.Resume.Search.{split}

-- The divisor is positive. The remainder of a negative number has its sign.
unfoldable pub positive_modulo : ℤ → ℕ → ℕ
positive_modulo (pos n) divisor = n % divisor
positive_modulo (negsuc n) divisor =
    let remainder = suc n % divisor in if remainder == 0 then 0 else divisor - remainder

unfoldable pub tile_x_inside_range : ℤ → ℕ → ℤ → ℤ → Bool
unfolding positive_modulo ◌+ℤ◌ ◌-ℤ◌
tile_x_inside_range tile_x tile_count tile_x_min tile_x_max =
    let range_width = tile_x_max -ℤ tile_x_min +ℤ pos 1 in
    let first_wrapped_x = positive_modulo tile_x_min tile_count in
    let offset = positive_modulo (tile_x -ℤ pos first_wrapped_x) tile_count in
    if leb_ℤ (pos tile_count) range_width then true else ltb_ℤ (pos offset) range_width

pub record TileKey : Type 0 where
  pub provider : Text
  pub zoom : ℤ
  pub x : ℤ
  pub y : ℤ

-- `1 << zoom`; the zoom is not negative.
abbrev pub tile_count_at : ℤ → ℕ
tile_count_at zoom = 2 ^ pos_part zoom

abbrev pub bounded_y_min : ℤ → ℤ
bounded_y_min tile_y_min = if ltb_ℤ tile_y_min (pos 0) then pos 0 else tile_y_min

unfoldable pub bounded_y_max : ℤ → ℤ → ℤ
unfolding ◌-ℤ◌
bounded_y_max zoom tile_y_max =
    let last = pos (tile_count_at zoom) -ℤ pos 1 in
    if ltb_ℤ last tile_y_max then last else tile_y_max

-- `QString::toInt` is given; `none` is its failure.
module _ (to_int : Text → Option ℤ) where
  abbrev pub all_numbers : Text → Option ℤ → Option ℤ → Option ℤ → Option TileKey
  all_numbers provider (some zoom) (some x) (some y) =
      some (record { provider = provider; zoom = zoom; x = x; y = y })
  all_numbers provider zoom x y = none

  abbrev pub four_parts : List Text → Option TileKey
  four_parts (provider ∷ zoom ∷ x ∷ y ∷ []) =
      if is_empty provider then none else all_numbers provider (to_int zoom) (to_int x) (to_int y)
  four_parts parts = none

  unfoldable pub parse_canonical_tile_key : Text → Option TileKey
  unfolding split
  parse_canonical_tile_key key = four_parts (split b'/' key)

  unfoldable pub covers : Text → ℤ → ℤ → ℤ → ℤ → ℤ → Option TileKey → Bool
  unfolding tile_x_inside_range bounded_y_max
  covers provider zoom tile_x_min tile_x_max tile_y_min tile_y_max none = false
  covers provider zoom tile_x_min tile_x_max tile_y_min tile_y_max (some key) =
      eqb key.provider provider
      && leb_ℤ key.zoom zoom
      && leb_ℤ zoom key.zoom
      && leb_ℤ (bounded_y_min tile_y_min) key.y
      && leb_ℤ key.y (bounded_y_max zoom tile_y_max)
      && tile_x_inside_range key.x (tile_count_at zoom) tile_x_min tile_x_max

  -- Whether a cached or running tile lies in the range; the zoom is not negative.
  unfoldable pub range_covers : Text → ℤ → ℤ → ℤ → ℤ → ℤ → Text → Bool
  unfolding parse_canonical_tile_key covers
  range_covers provider zoom tile_x_min tile_x_max tile_y_min tile_y_max key =
      covers provider zoom tile_x_min tile_x_max tile_y_min tile_y_max
        (parse_canonical_tile_key key)
