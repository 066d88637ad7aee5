-- ===== src/Tile/Sound.antt =====
-- lib/terrain_tile.cpp: what every file satisfies that the parser accepts.
use aowis_server_map.Prelude.{
  ℕ, zero, suc, ◌+◌, ◌≡◌, refl, sym, ap, subst, ◌∙◌, true, Option, none, some, arith, length, Bytes,
  drop, take,
}
use aowis_server_map.Platform.Strings.{Strings}
use aowis_server_map.Platform.Floats.{Floats}
use aowis_server_map.Elevation.{TerrainVerticalDatum}
use aowis_server_map.Tile.Words.{byte_at, read_uint16, read_uint32, crc32}
use aowis_server_map.Tile.Defs.{TerrainTile, TileError, ok, is_valid_address, is_valid_dataset_id}
use aowis_server_map.Tile.Parser.{
  vertical_datum_from_code, header_error, decode_payload, decode_samples, header_tile,
  decode_metadata, decode_checked, decode_after, decode_tile,
}

module _ (fl : Floats) (qt : Strings) where
  open fl use {Double, Float, of_bits}

  length-decode_samples :
      (left index : ℕ) (payload : Bytes) (low scale : Float)
      → length (decode_samples fl left index payload low scale) ≡ left
  unfolding decode_samples
  length-decode_samples zero index payload low scale = refl
  length-decode_samples (suc left) index payload low scale =
      ap suc (length-decode_samples left (index + 1) payload low scale)

  header_sizes :
      (content : Bytes)
      → header_error fl content ≡ none
      → (read_uint32 content 56 ≡ 8450)
        × (read_uint16 content 10 ≡ 64 + read_uint16 content 48)
        × (length content ≡ 64 + read_uint16 content 48 + 8450)
  unfolding header_error
  header_sizes content h = ground (arith, h)

  -- An accepted file: a valid address, a valid dataset identifier, the samples of the whole grid, a
  -- size that the identifier decides, and a payload with the checksum of the header.
  pub record Accepted (content : Bytes) (t : TerrainTile fl) : Type 0 where
    pub address : is_valid_address t.address ≡ true
    pub dataset : is_valid_dataset_id qt t.dataset ≡ true
    pub samples : length t.elevations_m ≡ 4225
    pub size : length content ≡ 64 + length (qt.to_utf8 t.dataset) + 8450
    pub checksum :
        crc32 (take 8450 (drop (64 + length (qt.to_utf8 t.dataset)) content))
        ≡ read_uint32 content 60

  payload_ok :
      (t t' : TerrainTile fl) (checksum : ℕ) (payload : Bytes) (low scale : Float)
      → decode_payload fl t checksum payload low scale ≡ ok t'
      → (crc32 payload ≡ checksum)
        × (record t { elevations_m = decode_samples fl 4225 0 payload low scale } ≡ t')
  unfolding decode_payload
  payload_ok t t' checksum payload low scale h = ground (arith, h)

  payload_sound :
      (t t' : TerrainTile fl) (checksum : ℕ) (payload : Bytes) (low scale : Float)
      → decode_payload fl t checksum payload low scale ≡ ok t'
      → (crc32 payload ≡ checksum)
        × (t.address ≡ t'.address)
        × (t.dataset ≡ t'.dataset)
        × (length t'.elevations_m ≡ 4225)
  payload_sound t t' checksum payload low scale h =
      let (crc, same) = payload_ok t t' checksum payload low scale h in
      (
        crc,
        ap (λ u. TerrainTile.address u) same,
        ap (λ u. TerrainTile.dataset u) same,
        ap (λ u. length (TerrainTile.elevations_m u)) (sym same)
            ∙ length-decode_samples 4225 0 payload low scale,
      )

  checked_sound :
      (content : Bytes) (t t' : TerrainTile fl)
      → decode_checked fl qt content t ≡ ok t'
      → (is_valid_address t.address ≡ true)
        × (is_valid_dataset_id qt t.dataset ≡ true)
        × (length (qt.to_utf8 t.dataset) ≡ read_uint16 content 48)
        × (decode_payload fl t
              (read_uint32 content 60)
              (take (read_uint32 content 56) (drop (read_uint16 content 10) content))
              (of_bits (read_uint32 content 36))
              (of_bits (read_uint32 content 40))
            ≡ ok t')
  unfolding decode_checked
  checked_sound content t t' h = ground (arith, h)

  checked-Accepted :
      (content : Bytes) (t t' : TerrainTile fl)
      → header_error fl content ≡ none
      → decode_checked fl qt content t ≡ ok t'
      → Accepted content t'
  checked-Accepted content t t' headed h =
      let (size, start, whole) = header_sizes content headed in
      let (address, dataset, text, payload) = checked_sound content t t' h in
      let (crc, same_address, same_dataset, samples) =
        payload_sound t t' (read_uint32 content 60)
          (take (read_uint32 content 56) (drop (read_uint16 content 10) content))
          (of_bits (read_uint32 content 36)) (of_bits (read_uint32 content 40)) payload in
      let named : length (qt.to_utf8 t'.dataset) ≡ read_uint16 content 48 =
        ap (λ d. length (qt.to_utf8 d)) (sym same_dataset) ∙ text in
      record {
        address = subst (λ a. is_valid_address a ≡ true) same_address address;
        dataset = subst (λ d. is_valid_dataset_id qt d ≡ true) same_dataset dataset;
        samples = samples;
        size = whole ∙ ap (λ n. 64 + n + 8450) (sym named);
        checksum =
            ap (λ n. crc32 (take 8450 (drop (64 + n) content))) named
            ∙ ap (λ n. crc32 (take 8450 (drop n content))) (sym start)
            ∙ ap (λ n. crc32 (take n (drop (read_uint16 content 10) content))) (sym size)
            ∙ crc;
      }

  -- Every content that the parser accepts, whatever its origin, has the size that its identifier
  -- decides and the payload of its checksum, and the tile has a valid address, a valid dataset
  -- identifier and a sample for each point of the grid.
  pub decode_tile-Accepted :
      (content : Bytes) (t : TerrainTile fl) → decode_tile fl qt content ≡ ok t → Accepted content t
  unfolding decode_tile decode_after decode_metadata
  decode_tile-Accepted content t h = after (header_error fl content) refl h
    where
      metadata :
          (datum : Option TerrainVerticalDatum)
          → header_error fl content ≡ none
          → decode_metadata fl qt content datum ≡ ok t
          → Accepted content t
      metadata none headed h = ground (arith, h)
      metadata (some datum) headed h =
          checked-Accepted content (header_tile fl qt content datum) t headed h

      after :
          (e : Option TileError)
          → header_error fl content ≡ e
          → decode_after fl qt content e ≡ ok t
          → Accepted content t
      after none headed h = metadata (vertical_datum_from_code (byte_at content 18)) headed h
      after (some e) headed h = ground (arith, h)
