-- ===== src/Tile/Fixture.antt =====
-- lib/terrain_tile.cpp: a tile for each address, and its file, for the examples.
use aowis_server_map.Prelude.{
  ◌≡◌, refl, false, true, none, List, ◌∷◌, replicate, codes, Bytes, eqb, not, ◌||◌, ltb, ◌+◌,
  length,
}
use aowis_server_map.Prelude.Int.{pos}
use aowis_server_map.Platform.Instances.{small_floats, ascii, Small, f_zero, f_one, f_nan, finite}
use aowis_server_map.Elevation.{TerrainVerticalDatum, is_valid_vertical_datum}
use aowis_server_map.Tile.Defs.{
  TerrainTileAddress, TerrainTile, ok, tile_error, is_valid_address, is_valid_dataset_id,
  scan_samples, finite_float,
}
use aowis_server_map.Tile.Codec.{
  encode_tile, encode_valid, encode_with, low_of, scale_of, minimum_loop, maximum_loop,
  elevation_scale,
}

-- The samples of a grid: one that is missing, one high, and the rest low.
abbrev pub samples : List Small
samples = f_nan ∷ f_one ∷ replicate 4223 f_zero

abbrev pub tile_at : TerrainTileAddress → TerrainTile small_floats
tile_at a = record {
  address = a;
  dataset = codes "copernicus-glo30";
  nominal_resolution_m = finite (pos 1);
  vertical_datum = TerrainVerticalDatum.egm2008;
  elevations_m = samples;
}

tile_at-valid :
    (a : TerrainTileAddress)
    → is_valid_address a ≡ true
    → tile_error small_floats ascii (tile_at a) ≡ none
unfolding tile_error is_valid_dataset_id eqb scan_samples finite_float is_valid_vertical_datum
tile_at-valid a h = rw h refl

abbrev pub file_at : TerrainTileAddress → Bytes
file_at a =
    encode_with small_floats ascii (tile_at a) (low_of small_floats (tile_at a))
      (scale_of small_floats (tile_at a))

encode_ok :
    (t : TerrainTile small_floats)
    → tile_error small_floats ascii t ≡ none
    → not (finite_float small_floats (scale_of small_floats t))
        || small_floats.float_lt (scale_of small_floats t) f_zero
      ≡ false
    → ltb 65535 (64 + length (ascii.to_utf8 t.dataset)) ≡ false
    → encode_tile small_floats ascii t
      ≡ ok (encode_with small_floats ascii t (low_of small_floats t) (scale_of small_floats t))
unfolding encode_tile encode_valid
encode_ok t valid scaled short = rw (valid, scaled, short)

scale_at-valid :
    (a : TerrainTileAddress)
    → not (finite_float small_floats (scale_of small_floats (tile_at a)))
        || small_floats.float_lt (scale_of small_floats (tile_at a)) f_zero
      ≡ false
unfolding minimum_loop maximum_loop elevation_scale finite_float
scale_at-valid a = refl

pub encoded_at :
    (a : TerrainTileAddress)
    → is_valid_address a ≡ true
    → encode_tile small_floats ascii (tile_at a) ≡ ok (file_at a)
encoded_at a h = encode_ok (tile_at a) (tile_at-valid a h) (scale_at-valid a) refl
