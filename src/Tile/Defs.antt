-- ===== src/Tile/Defs.antt =====
-- lib/terrain_tile.cpp: addresses, dataset identifiers and the validity of a tile.
use aowis_server_map.Prelude.{
  ℕ, ◌^◌, Bool, true, false, not, ◌||◌, ◌&&◌, Option, none, some, List, [], ◌∷◌, length, Bytes,
  Text, is_empty, eqb, if◌then◌else◌, ltb, leb, ◌==◌,
}
use aowis_server_map.Prelude.Int.{ℤ, pos, negsuc}
use aowis_server_map.Platform.Strings.{Strings, is_id_byte}
use aowis_server_map.Platform.Floats.{Floats}
use aowis_server_map.Elevation.{TerrainVerticalDatum, is_valid_vertical_datum}

abbrev pub format_version : ℕ
format_version = 1

abbrev pub normalization_revision : ℕ
normalization_revision = 2

abbrev pub grid_size : ℕ
grid_size = 65

abbrev pub cell_count : ℕ
cell_count = 64

abbrev pub sample_count : ℕ
sample_count = 4225

abbrev pub no_data_code : ℕ
no_data_code = 65535

abbrev pub maximum_elevation_code : ℕ
maximum_elevation_code = 65534

abbrev pub maximum_zoom : ℕ
maximum_zoom = 30

abbrev pub maximum_dataset_id_bytes : ℕ
maximum_dataset_id_bytes = 128

-- `zoom` is an `int`; `x` and `y` are 32-bit words.
pub record TerrainTileAddress : Type 0 where
  pub zoom : ℤ
  pub x : ℕ
  pub y : ℕ

pub record TerrainTile (fl : Floats) : Type 0 where
  pub address : TerrainTileAddress
  pub dataset : Text
  pub nominal_resolution_m : fl.Double
  pub vertical_datum : TerrainVerticalDatum
  pub elevations_m : List fl.Float

-- The messages of `error_message`.
pub data TileError : Type 0 where
  invalid_address invalid_dataset invalid_resolution invalid_datum wrong_sample_count : TileError
  infinite_sample no_finite_sample range_not_encodable header_too_large : TileError
  shorter_than_header wrong_magic unsupported_version unsupported_flags reserved_not_zero :
      TileError
  unsupported_encoding wrong_dimensions wrong_header_length wrong_file_length : TileError
  invalid_metadata invalid_datum_code invalid_address_or_dataset crc_mismatch only_no_data :
      TileError

pub data Result {ℓ} (A : Type ℓ) : Type ℓ where
  ok : A → Result A
  err : TileError → Result A

unfoldable pub is_valid_address : TerrainTileAddress → Bool
is_valid_address a = elim a.zoom [
  | negsuc n ↦ false
  | pos zoom ↦ leb zoom maximum_zoom && ltb a.x (2 ^ zoom) && ltb a.y (2 ^ zoom)
]

abbrev pub all_bytes : (ℕ → Bool) → Bytes → Bool
all_bytes test [] = true
all_bytes test (c ∷ rest) = test c && all_bytes test rest

-- The first byte is a letter or a digit.
abbrev pub starts_alphanumeric : Bytes → Bool
starts_alphanumeric [] = false
starts_alphanumeric (c ∷ rest) = (leb b'a' c && leb c b'z') || (leb b'0' c && leb c b'9')

unfoldable pub is_valid_dataset_id : Strings → Text → Bool
is_valid_dataset_id qt dataset =
    not (is_empty dataset)
    && eqb dataset (qt.trimmed dataset)
    && eqb dataset (qt.to_lower dataset)
    && not (is_empty (qt.to_utf8 dataset))
    && leb (length (qt.to_utf8 dataset)) maximum_dataset_id_bytes
    && all_bytes is_id_byte (qt.to_utf8 dataset)
    && starts_alphanumeric (qt.to_utf8 dataset)

module _ (fl : Floats) where
  open fl use {Double, Float, is_finite, is_nan, lt, of_int, widen, float_max}

  unfoldable pub finite_float : Float → Bool
  finite_float f = is_finite (widen f)

  -- The loop over the samples, with `has_finite_sample`.
  unfoldable pub scan_samples : Bool → List Float → Option TileError
  unfolding finite_float
  scan_samples has_finite [] = if has_finite then none else some no_finite_sample
  scan_samples has_finite (e ∷ rest) =
      let more = scan_samples (finite_float e || has_finite) rest in
      if finite_float e then more else if is_nan (widen e) then more else some infinite_sample

  -- `isValidTerrainTile`, where `none` says valid.
  unfoldable pub tile_error : Strings → TerrainTile fl → Option TileError
  tile_error qt t =
      if not (is_valid_address t.address)
      then some invalid_address
      else if not (is_valid_dataset_id qt t.dataset)
      then some invalid_dataset
      else if not (is_finite t.nominal_resolution_m)
          || lt t.nominal_resolution_m (of_int (pos 0))
          || lt float_max t.nominal_resolution_m
      then some invalid_resolution
      else if not (is_valid_vertical_datum t.vertical_datum)
      then some invalid_datum
      else if not (length t.elevations_m == sample_count)
      then some wrong_sample_count
      else scan_samples false t.elevations_m
