-- ===== src/Tile/Codec.antt =====
-- lib/terrain_tile.cpp: `encodeTerrainTile`.
use aowis_server_map.Prelude.{
  ℕ, ◌+◌, ◌%◌, not, ◌||◌, Option, none, some, List, [], ◌∷◌, ◌++◌, length, Bytes, if◌then◌else◌,
  ltb,
}
use aowis_server_map.Prelude.Int.{ℤ, pos, negsuc, pos_part}
use aowis_server_map.Platform.Strings.{Strings}
use aowis_server_map.Platform.Floats.{Floats}
use aowis_server_map.Elevation.{TerrainVerticalDatum}
use aowis_server_map.Tile.Words.{uint16_bytes, uint32_bytes, crc32}
use aowis_server_map.Tile.Defs.{
  format_version, grid_size, sample_count, no_data_code, maximum_elevation_code, TerrainTile,
  TileError, Result, ok, err, finite_float, tile_error, range_not_encodable, header_too_large,
}

abbrev pub fixed_header_bytes : ℕ
fixed_header_bytes = 64

abbrev pub payload_bytes : ℕ
payload_bytes = 8450

-- `TerrainTileMagic`
abbrev pub tile_magic : Bytes
tile_magic = 65 ∷ 79 ∷ 87 ∷ 84 ∷ 82 ∷ 78 ∷ 0 ∷ 0 ∷ []

unfoldable pub vertical_datum_code : TerrainVerticalDatum → ℕ
vertical_datum_code TerrainVerticalDatum.wgs84_ellipsoid = 1
vertical_datum_code TerrainVerticalDatum.egm96 = 2
vertical_datum_code TerrainVerticalDatum.egm2008 = 3
vertical_datum_code TerrainVerticalDatum.local = 4
vertical_datum_code TerrainVerticalDatum.unknown = 0

-- `std::clamp<qint64>(rounded, 0, 65534)`, as a `quint16`.
abbrev pub clamp_code : ℤ → ℕ
clamp_code (negsuc n) = 0
clamp_code (pos n) = if ltb maximum_elevation_code n then maximum_elevation_code else n

module _ (fl : Floats) where
  open fl use {
    Double, Float, is_finite, lt, of_int, sub, div, round, widen, narrow, infinity, neg_infinity,
    quiet_nan, float_zero, float_of, float_lt, float_eq, float_add, float_mul, bits, of_bits,
  }

  -- `std::min` and `std::max`.
  abbrev pub float_min : Float → Float → Float
  float_min a b = if float_lt b a then b else a

  abbrev pub float_greater : Float → Float → Float
  float_greater a b = if float_lt a b then b else a

  -- The loop that finds the extremes of the finite samples.
  unfoldable pub minimum_loop : Float → List Float → Float
  unfolding finite_float
  minimum_loop m [] = m
  minimum_loop m (e ∷ rest) = minimum_loop (if finite_float fl e then float_min m e else m) rest

  unfoldable pub maximum_loop : Float → List Float → Float
  unfolding finite_float
  maximum_loop m [] = m
  maximum_loop m (e ∷ rest) = maximum_loop (if finite_float fl e then float_greater m e else m) rest

  unfoldable pub elevation_scale : Float → Float → Float
  elevation_scale low high =
      if lt (of_int (pos 0)) (sub (widen high) (widen low))
      then narrow (div (sub (widen high) (widen low)) (of_int (pos maximum_elevation_code)))
      else float_zero

  -- The 16-bit code of one sample.
  unfoldable pub sample_code : Float → Float → Float → ℕ
  unfolding finite_float
  sample_code low scale e =
      if not (finite_float fl e)
      then no_data_code
      else if float_eq scale float_zero
      then 0
      else clamp_code (round (div (sub (widen e) (widen low)) (widen scale)))

  unfoldable pub encode_samples : Float → Float → List Float → Bytes
  unfolding sample_code
  encode_samples low scale [] = []
  encode_samples low scale (e ∷ rest) =
      uint16_bytes (sample_code low scale e) ++ encode_samples low scale rest

  -- The header before the dataset identifier.
  unfoldable pub fixed_header : TerrainTile fl → Float → Float → ℕ → Bytes → Bytes
  unfolding vertical_datum_code crc32
  fixed_header t low scale dataset_bytes payload =
      tile_magic
      ++ (uint16_bytes format_version
          ++ (uint16_bytes ((fixed_header_bytes + dataset_bytes) % 65536)
              ++ (uint32_bytes 0
                  ++ (1 ∷ 1 ∷ vertical_datum_code t.vertical_datum ∷ 0 ∷ []
                      ++ (uint16_bytes grid_size
                          ++ (uint16_bytes grid_size
                              ++ ((pos_part t.address.zoom % 256) ∷ 0 ∷ 0 ∷ 0 ∷ []
                                  ++ (uint32_bytes t.address.x
                                      ++ (uint32_bytes t.address.y
                                          ++ (uint32_bytes (bits low)
                                              ++ (uint32_bytes (bits scale)
                                                  ++ (uint32_bytes
                                                        (bits (narrow t.nominal_resolution_m))
                                                      ++ (uint16_bytes (dataset_bytes % 65536)
                                                          ++ (uint16_bytes 0
                                                            ++ (uint32_bytes sample_count
                                                            ++ (uint32_bytes payload_bytes
                                                            ++ uint32_bytes
                                                            (crc32 payload)))))))))))))))))

  -- The whole file, for the extremes of the samples.
  unfoldable pub encode_with : Strings → TerrainTile fl → Float → Float → Bytes
  encode_with qt t low scale =
      let payload = encode_samples low scale t.elevations_m in
      fixed_header t low scale (length (qt.to_utf8 t.dataset)) payload
      ++ (qt.to_utf8 t.dataset ++ payload)

  abbrev pub low_of : TerrainTile fl → Float
  low_of t = minimum_loop infinity t.elevations_m

  abbrev pub high_of : TerrainTile fl → Float
  high_of t = maximum_loop neg_infinity t.elevations_m

  abbrev pub scale_of : TerrainTile fl → Float
  scale_of t = elevation_scale (low_of t) (high_of t)

  -- The encoder after the validity test.
  unfoldable pub encode_valid : Strings → TerrainTile fl → Option TileError → Result Bytes
  encode_valid qt t (some e) = err e
  encode_valid qt t none =
      if not (finite_float fl (scale_of t)) || float_lt (scale_of t) float_zero
      then err range_not_encodable
      else if ltb 65535 (fixed_header_bytes + length (qt.to_utf8 t.dataset))
      then err header_too_large
      else ok (encode_with qt t (low_of t) (scale_of t))

  unfoldable pub encode_tile : Strings → TerrainTile fl → Result Bytes
  encode_tile qt t = encode_valid qt t (tile_error fl qt t)
