-- ===== src/Tile/Header.antt =====
-- lib/terrain_tile.cpp: what the parser reads in the header that the encoder writes.
use aowis_server_map.Prelude.{
  ℕ, ◌+◌, ◌^◌, ◌≤◌, ◌<◌, ◌≡◌, refl, true, false, none, arith, ◌++◌, length, Bytes, drop, take, eqb,
  ltb, ◌==◌, ==-self,
}
use aowis_server_map.Prelude.Int.{pos_part}
use aowis_server_map.Platform.Floats.{Floats}
use aowis_server_map.Tile.Words.{byte_at, read_uint16, read_uint32, crc32, crc32-word}
use aowis_server_map.Tile.Defs.{TerrainTile, finite_float}
use aowis_server_map.Tile.Codec.{fixed_header, payload_bytes, tile_magic, vertical_datum_code}
use aowis_server_map.Tile.Parser.{header_error}

module _ (fl : Floats) (t : TerrainTile fl) (low scale : fl.Float) (n : ℕ) (payload rest : Bytes)
    (n_small : n ≤ 128) where
  open fl use {Double, Float, bits, of_bits, bits_word, of_bits-bits, narrow, float_lt, float_zero}

  abbrev pub header : Bytes
  header = fixed_header fl t low scale n payload ++ rest

  pub length-header : length header ≡ 64 + length rest
  unfolding fixed_header
  length-header = omega arith

  pub drop-header : drop 64 header ≡ rest
  unfolding fixed_header
  drop-header = refl

  pub header_size : read_uint16 header 10 ≡ 64 + n
  unfolding fixed_header read_uint16
  header_size = omega arith

  pub dataset_size : read_uint16 header 48 ≡ n
  unfolding fixed_header read_uint16
  dataset_size = omega arith

  pub read_x : t.address.x < 2 ^ 32 → read_uint32 header 28 ≡ t.address.x
  unfolding fixed_header read_uint32
  read_x h = omega arith

  pub read_y : t.address.y < 2 ^ 32 → read_uint32 header 32 ≡ t.address.y
  unfolding fixed_header read_uint32
  read_y h = omega arith

  pub read_zoom : pos_part t.address.zoom < 256 → byte_at header 24 ≡ pos_part t.address.zoom
  unfolding fixed_header
  read_zoom h = omega arith

  pub read_datum : byte_at header 18 ≡ vertical_datum_code t.vertical_datum
  unfolding fixed_header
  read_datum = refl

  pub read_low : of_bits (read_uint32 header 36) ≡ low
  unfolding fixed_header read_uint32
  read_low =
      let e : read_uint32 header 36 ≡ bits low = omega (arith, bits_word low) in
      rw e (of_bits-bits low)

  pub read_scale : of_bits (read_uint32 header 40) ≡ scale
  unfolding fixed_header read_uint32
  read_scale =
      let e : read_uint32 header 40 ≡ bits scale = omega (arith, bits_word scale) in
      rw e (of_bits-bits scale)

  pub read_resolution : of_bits (read_uint32 header 44) ≡ narrow t.nominal_resolution_m
  unfolding fixed_header read_uint32
  read_resolution =
      let e : read_uint32 header 44 ≡ bits (narrow t.nominal_resolution_m) =
        omega (arith, bits_word (narrow t.nominal_resolution_m)) in
      rw e (of_bits-bits (narrow t.nominal_resolution_m))

  pub read_checksum : read_uint32 header 60 ≡ crc32 payload
  unfolding fixed_header read_uint32
  read_checksum = omega (arith, crc32-word payload)

  pub read_payload_size : read_uint32 header 56 ≡ payload_bytes
  unfolding fixed_header read_uint32
  read_payload_size = refl

  -- The fields that are the same in every file.
  pub record Constants : Type 0 where
    pub magic : eqb (take 8 header) tile_magic ≡ true
    pub version : read_uint16 header 8 ≡ 1
    pub flags : read_uint32 header 12 ≡ 0
    pub reserved19 : byte_at header 19 ≡ 0
    pub reserved25 : byte_at header 25 ≡ 0
    pub reserved26 : byte_at header 26 ≡ 0
    pub reserved27 : byte_at header 27 ≡ 0
    pub reserved50 : read_uint16 header 50 ≡ 0
    pub projection : byte_at header 16 ≡ 1
    pub encoding : byte_at header 17 ≡ 1
    pub width : read_uint16 header 20 ≡ 65
    pub height : read_uint16 header 22 ≡ 65
    pub samples : read_uint32 header 52 ≡ 4225

  pub constants : Constants
  unfolding fixed_header read_uint16 read_uint32 eqb
  constants = record {
    magic = refl;
    version = refl;
    flags = refl;
    reserved19 = refl;
    reserved25 = refl;
    reserved26 = refl;
    reserved27 = refl;
    reserved50 = refl;
    projection = refl;
    encoding = refl;
    width = refl;
    height = refl;
    samples = refl;
  }

-- The tests of the header pass for such fields, over any content.
pub header_error-none :
    (fl : Floats) (content : Bytes) (n : ℕ)
    → length content ≡ 64 + n + 8450
    → eqb (take 8 content) tile_magic ≡ true
    → read_uint16 content 8 ≡ 1
    → read_uint32 content 12 ≡ 0
    → byte_at content 19 ≡ 0
    → byte_at content 25 ≡ 0
    → byte_at content 26 ≡ 0
    → byte_at content 27 ≡ 0
    → read_uint16 content 50 ≡ 0
    → byte_at content 16 ≡ 1
    → byte_at content 17 ≡ 1
    → read_uint16 content 20 ≡ 65
    → read_uint16 content 22 ≡ 65
    → read_uint32 content 52 ≡ 4225
    → read_uint32 content 56 ≡ 8450
    → read_uint16 content 10 ≡ 64 + n
    → read_uint16 content 48 ≡ n
    → finite_float fl (fl.of_bits (read_uint32 content 36)) ≡ true
    → finite_float fl (fl.of_bits (read_uint32 content 40)) ≡ true
    → fl.float_lt (fl.of_bits (read_uint32 content 40)) fl.float_zero ≡ false
    → finite_float fl (fl.of_bits (read_uint32 content 44)) ≡ true
    → fl.float_lt (fl.of_bits (read_uint32 content 44)) fl.float_zero ≡ false
    → header_error fl content ≡ none
unfolding header_error
header_error-none fl content n size magic version flags r19 r25 r26 r27 r50 projection encoding
      width height samples payload header dataset low scale scale' resolution resolution' =
    let long : ltb (length content) 64 ≡ false = ground (arith, size) in
    let fits : ltb (length content) (64 + n) ≡ false = ground (arith, size) in
    let whole : (64 + n + 8450 == length content) ≡ true = ground (arith, size) in
    rw (
      long,
      magic,
      version,
      flags,
      r19,
      r25,
      r26,
      r27,
      r50,
      projection,
      encoding,
      width,
      height,
      samples,
      header,
      dataset,
      payload,
      ==-self (64 + n),
      fits,
      whole,
      low,
      scale,
      scale',
      resolution,
      resolution',
    )
