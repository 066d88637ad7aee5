-- ===== src/Tile/Parser.antt =====
-- lib/terrain_tile.cpp: `decodeTerrainTile`.
use aowis_server_map.Prelude.{
  ℕ, zero, suc, ◌+◌, ◌*◌, Bool, false, not, ◌||◌, ◌&&◌, Option, none, some, List, [], ◌∷◌, length,
  Bytes, drop, take, eqb, if◌then◌else◌, ltb, ◌==◌,
}
use aowis_server_map.Prelude.Int.{pos}
use aowis_server_map.Platform.Strings.{Strings}
use aowis_server_map.Platform.Floats.{Floats}
use aowis_server_map.Elevation.{TerrainVerticalDatum}
use aowis_server_map.Tile.Words.{byte_at, read_uint16, read_uint32, crc32}
use aowis_server_map.Tile.Defs.{
  format_version, grid_size, sample_count, no_data_code, TerrainTileAddress, TerrainTile, TileError,
  Result, ok, err, is_valid_address, is_valid_dataset_id, finite_float, shorter_than_header,
  wrong_magic, unsupported_version, unsupported_flags, reserved_not_zero, unsupported_encoding,
  wrong_dimensions, wrong_header_length, wrong_file_length, invalid_metadata, invalid_datum_code,
  invalid_address_or_dataset, crc_mismatch, only_no_data,
}
use aowis_server_map.Tile.Codec.{fixed_header_bytes, payload_bytes, tile_magic}

unfoldable pub vertical_datum_from_code : ℕ → Option TerrainVerticalDatum
vertical_datum_from_code code =
    if code == 0
    then some TerrainVerticalDatum.unknown
    else if code == 1
    then some TerrainVerticalDatum.wgs84_ellipsoid
    else if code == 2
    then some TerrainVerticalDatum.egm96
    else if code == 3
    then some TerrainVerticalDatum.egm2008
    else if code == 4
    then some TerrainVerticalDatum.local
    else none

module _ (fl : Floats) where
  open fl use {
    Double, Float, is_finite, lt, of_int, sub, div, round, widen, narrow, infinity, neg_infinity,
    quiet_nan, float_zero, float_of, float_lt, float_eq, float_add, float_mul, bits, of_bits,
  }

  -- The loop over the codes of the payload, from an index on.
  unfoldable pub decode_samples : ℕ → ℕ → Bytes → Float → Float → List Float
  unfolding read_uint16
  decode_samples zero index payload low scale = []
  decode_samples (suc left) index payload low scale =
      (if read_uint16 payload (index * 2) == no_data_code
        then quiet_nan
        else float_add low (float_mul (float_of (read_uint16 payload (index * 2))) scale))
      ∷ decode_samples left (index + 1) payload low scale

  -- `has_finite_sample` after that loop.
  unfoldable pub has_finite_code : ℕ → ℕ → Bytes → Bool
  unfolding read_uint16
  has_finite_code zero index payload = false
  has_finite_code (suc left) index payload =
      not (read_uint16 payload (index * 2) == no_data_code)
      || has_finite_code left (index + 1) payload

  -- The end of the parser: the checksum and the samples.
  unfoldable pub decode_payload :
      TerrainTile fl → ℕ → Bytes → Float → Float → Result (TerrainTile fl)
  decode_payload t checksum payload low scale =
      if not (crc32 payload == checksum)
      then err crc_mismatch
      else if not (has_finite_code sample_count 0 payload)
      then err only_no_data
      else ok (record t { elevations_m = decode_samples sample_count 0 payload low scale })

  abbrev pub header_address : Bytes → TerrainTileAddress
  header_address content = record {
    zoom = pos (byte_at content 24);
    x = read_uint32 content 28;
    y = read_uint32 content 32;
  }

  abbrev pub header_tile : Strings → Bytes → TerrainVerticalDatum → TerrainTile fl
  header_tile qt content datum = record {
    address = header_address content;
    dataset = qt.from_utf8 (take (read_uint16 content 48) (drop fixed_header_bytes content));
    nominal_resolution_m = widen (of_bits (read_uint32 content 44));
    vertical_datum = datum;
    elevations_m = [];
  }

  -- The tests of the address and the dataset.
  unfoldable pub decode_checked : Strings → Bytes → TerrainTile fl → Result (TerrainTile fl)
  decode_checked qt content t =
      if not (is_valid_address t.address)
        || not (is_valid_dataset_id qt t.dataset)
        || not (length (qt.to_utf8 t.dataset) == read_uint16 content 48)
      then err invalid_address_or_dataset
      else decode_payload t (read_uint32 content 60)
          (take (read_uint32 content 56) (drop (read_uint16 content 10) content))
          (of_bits (read_uint32 content 36)) (of_bits (read_uint32 content 40))

  -- The tile before its samples, for the datum's code.
  unfoldable pub decode_metadata :
      Strings → Bytes → Option TerrainVerticalDatum → Result (TerrainTile fl)
  decode_metadata qt content none = err invalid_datum_code
  decode_metadata qt content (some datum) = decode_checked qt content (header_tile qt content datum)

  -- The tests on the numbers of the header, in the order of the parser.
  unfoldable pub header_error : Bytes → Option TileError
  header_error content =
      if ltb (length content) fixed_header_bytes
      then some shorter_than_header
      else if not (eqb (take 8 content) tile_magic)
      then some wrong_magic
      else if not (read_uint16 content 8 == format_version)
      then some unsupported_version
      else if not (read_uint32 content 12 == 0)
      then some unsupported_flags
      else if not (byte_at content 19 == 0)
          || not (byte_at content 25 == 0 && byte_at content 26 == 0 && byte_at content 27 == 0)
          || not (read_uint16 content 50 == 0)
      then some reserved_not_zero
      else if not (byte_at content 16 == 1) || not (byte_at content 17 == 1)
      then some unsupported_encoding
      else if not (read_uint16 content 20 == grid_size)
          || not (read_uint16 content 22 == grid_size)
          || not (read_uint32 content 52 == sample_count)
          || not (read_uint32 content 56 == payload_bytes)
      then some wrong_dimensions
      else if not (read_uint16 content 10 == fixed_header_bytes + read_uint16 content 48)
          || ltb (length content) (read_uint16 content 10)
      then some wrong_header_length
      else if not (read_uint16 content 10 + read_uint32 content 56 == length content)
      then some wrong_file_length
      else if not (finite_float fl (of_bits (read_uint32 content 36)))
          || not (finite_float fl (of_bits (read_uint32 content 40)))
          || float_lt (of_bits (read_uint32 content 40)) float_zero
          || not (finite_float fl (of_bits (read_uint32 content 44)))
          || float_lt (of_bits (read_uint32 content 44)) float_zero
      then some invalid_metadata
      else none

  -- What follows the tests of the header.
  unfoldable pub decode_after : Strings → Bytes → Option TileError → Result (TerrainTile fl)
  decode_after qt content (some e) = err e
  decode_after qt content none =
      decode_metadata qt content (vertical_datum_from_code (byte_at content 18))

  unfoldable pub decode_tile : Strings → Bytes → Result (TerrainTile fl)
  decode_tile qt content = decode_after qt content (header_error content)
