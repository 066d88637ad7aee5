-- ===== src/Tile/RoundTrip.antt =====
-- lib/terrain_tile.cpp: what the encoder writes, the parser reads.
use aowis_server_map.Prelude.{
  ◌+◌, ◌≤◌, ◌≡◌, sym, ap, true, false, Option, none, some, arith, [], ◌++◌, length, Bytes, drop,
  take, ==-self, length-append, take-append, drop-append,
}
use aowis_server_map.Prelude.Int.{pos_part}
use aowis_server_map.Platform.Strings.{Strings}
use aowis_server_map.Platform.Floats.{Floats}
use aowis_server_map.Tile.Words.{crc32}
use aowis_server_map.Tile.Defs.{TerrainTile, TileError, ok, finite_float, tile_error}
use aowis_server_map.Tile.Codec.{
  fixed_header_bytes, payload_bytes, encode_with, encode_samples, low_of, scale_of, encode_valid,
  encode_tile,
}
use aowis_server_map.Tile.Parser.{
  header_error, decode_payload, header_address, header_tile, decode_metadata, decode_checked,
  decode_after, decode_tile,
}
use aowis_server_map.Tile.Samples.{
  any_finite, length-encode_samples, decode-encode, scan_samples-finite, minimum-finite,
}
use aowis_server_map.Tile.Header.{
  header, length-header, drop-header, header_size, dataset_size, read_x, read_y, read_zoom,
  read_datum, read_low, read_scale, read_resolution, read_checksum, read_payload_size, constants,
  header_error-none,
}
use aowis_server_map.Tile.Valid.{
  datum_from_code-code, dataset_bytes, address_words, drop-add, take-exact, Valid, tile_error-Valid,
  quantised,
}

module _ (fl : Floats) (qt : Strings) where
  open fl use {
    Double, Float, is_finite, lt, of_int, widen, narrow, float_lt, float_zero, float_max, of_bits,
    narrow_finite, narrow_nonneg,
  }

  module _ (t : TerrainTile fl) (v : Valid fl qt t) where
    abbrev ds : Bytes
    ds = qt.to_utf8 t.dataset

    abbrev low : Float
    low = low_of fl t

    abbrev scale : Float
    scale = scale_of fl t

    abbrev payload : Bytes
    payload = encode_samples fl low scale t.elevations_m

    abbrev content : Bytes
    content =
        header fl t low scale (length ds) payload (ds ++ payload)
          (dataset_bytes qt t.dataset v.dataset).0

    payload-length : length payload ≡ 8450
    payload-length = omega (arith, length-encode_samples fl low scale t.elevations_m, v.samples)

    finite_sample : any_finite fl t.elevations_m ≡ true
    finite_sample = ground (arith, scan_samples-finite fl false t.elevations_m v.scanned)

    content-length : length content ≡ 64 + length ds + 8450
    content-length = omega (
      arith,
      length-header fl t low scale (length ds) payload (ds ++ payload)
          (dataset_bytes qt t.dataset v.dataset).0,
      length-append ds payload,
      payload-length,
    )

    after_header : drop 64 content ≡ ds ++ payload
    after_header =
        drop-header fl t low scale (length ds) payload (ds ++ payload)
          (dataset_bytes qt t.dataset v.dataset).0

    payload_read : take payload_bytes (drop (64 + length ds) content) ≡ payload
    payload_read =
        rw (drop-add 64 (length ds) content, after_header, drop-append ds payload)
          (take-exact 8450 payload payload-length)

    dataset_read : qt.from_utf8 (take (length ds) (drop fixed_header_bytes content)) ≡ t.dataset
    dataset_read =
        rw (after_header, take-append ds payload) (dataset_bytes qt t.dataset v.dataset).1

    module _ (scale_finite : finite_float fl scale ≡ true)
        (scale_nonneg : float_lt scale float_zero ≡ false) where
      abbrev small : length ds ≤ 128
      small = (dataset_bytes qt t.dataset v.dataset).0

      header_none : header_error fl content ≡ none
      header_none =
          let rest = ds ++ payload in
          let n = length ds in
          let k = constants fl t low scale n payload rest small in
          let low_read = read_low fl t low scale n payload rest small in
          let scale_read = read_scale fl t low scale n payload rest small in
          let resolution_read = read_resolution fl t low scale n payload rest small in
          header_error-none fl content n content-length k.magic k.version k.flags k.reserved19
            k.reserved25 k.reserved26 k.reserved27 k.reserved50 k.projection k.encoding k.width
            k.height k.samples (read_payload_size fl t low scale n payload rest small)
            (header_size fl t low scale n payload rest small)
            (dataset_size fl t low scale n payload rest small)
            (rw low_read (minimum-finite fl t.elevations_m finite_sample))
            (rw scale_read scale_finite) (rw scale_read scale_nonneg)
            (rw resolution_read (resolution_finite))
            (rw resolution_read (narrow_nonneg t.nominal_resolution_m v.finite v.nonneg))
        where
          resolution_finite : finite_float fl (narrow t.nominal_resolution_m) ≡ true
          resolution_finite =
              unfold finite_float in
              narrow_finite t.nominal_resolution_m v.finite v.nonneg v.bounded

      address_read : header_address fl content ≡ t.address
      address_read =
          let rest = ds ++ payload in
          let n = length ds in
          let (zoom, z, zoom_small, x, y) = address_words t.address v.address in
          let part : pos_part t.address.zoom ≡ zoom = ap pos_part z in
          let zoom_read =
            read_zoom fl t low scale n payload rest small (omega (arith, part, zoom_small)) in
          rw
            (
              read_x fl t low scale n payload rest small x,
              read_y fl t low scale n payload rest small y,
              zoom_read,
              part,
            )
            (λ i. record { zoom = sym z i; x = t.address.x; y = t.address.y })

      tile_read : header_tile fl qt content t.vertical_datum ≡ record t {
        nominal_resolution_m = widen (narrow t.nominal_resolution_m);
        elevations_m = [];
      }
      tile_read =
          let rest = ds ++ payload in
          let n = length ds in
          rw (
            address_read,
            dataset_size fl t low scale n payload rest small,
            dataset_read,
            read_resolution fl t low scale n payload rest small,
          )

      payload_decoded :
          decode_payload fl
            (record t {
              nominal_resolution_m = widen (narrow t.nominal_resolution_m);
              elevations_m = [];
            })
            (crc32 payload)
            payload
            low
            scale
          ≡ ok (quantised fl qt t)
      unfolding decode_payload
      payload_decoded =
          let (samples, finite) = decode-encode fl low scale t.elevations_m in
          rw (==-self (crc32 payload), ← v.samples, samples, finite, finite_sample)

      checked_decoded :
          decode_checked fl qt content (record t {
            nominal_resolution_m = widen (narrow t.nominal_resolution_m);
            elevations_m = [];
          })
          ≡ ok (quantised fl qt t)
      unfolding decode_checked
      checked_decoded =
          let rest = ds ++ payload in
          let n = length ds in
          let size = dataset_size fl t low scale n payload rest small in
          rw
            (
              v.address,
              v.dataset,
              size,
              ==-self n,
              read_checksum fl t low scale n payload rest small,
              read_payload_size fl t low scale n payload rest small,
              header_size fl t low scale n payload rest small,
              payload_read,
              read_low fl t low scale n payload rest small,
              read_scale fl t low scale n payload rest small,
            )
            payload_decoded

      metadata_decoded :
          decode_metadata fl qt content (some t.vertical_datum) ≡ ok (quantised fl qt t)
      unfolding decode_metadata
      metadata_decoded = rw tile_read checked_decoded

      decode-content : decode_tile fl qt content ≡ ok (quantised fl qt t)
      unfolding decode_tile decode_after
      decode-content =
          let rest = ds ++ payload in
          let n = length ds in
          rw (
            header_none,
            read_datum fl t low scale n payload rest small,
            datum_from_code-code t.vertical_datum,
            metadata_decoded,
          )

  encode_valid-ok :
      (t : TerrainTile fl) (o : Option TileError) (bytes : Bytes)
      → encode_valid fl qt t o ≡ ok bytes
      → (o ≡ none)
        × (finite_float fl (scale_of fl t) ≡ true)
        × (float_lt (scale_of fl t) float_zero ≡ false)
        × (encode_with fl qt t (low_of fl t) (scale_of fl t) ≡ bytes)
  unfolding encode_valid
  encode_valid-ok t (some e) bytes h = ground (arith, h)
  encode_valid-ok t none bytes h = ground (arith, h)

  -- A file that the encoder writes is read: the address, the dataset and the datum come back as they
  -- were, the resolution as a `float`, and each sample as the parser restores it from its code.
  pub decode-encode_tile :
      (t : TerrainTile fl) (bytes : Bytes)
      → encode_tile fl qt t ≡ ok bytes
      → decode_tile fl qt bytes ≡ ok (quantised fl qt t)
  unfolding encode_tile encode_with
  decode-encode_tile t bytes h =
      let (valid, finite, nonneg, written) = encode_valid-ok t (tile_error fl qt t) bytes h in
      rw (← written) (decode-content t (tile_error-Valid fl qt t valid) finite nonneg)
