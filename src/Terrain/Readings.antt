-- ===== src/Terrain/Readings.antt =====
-- lib/terrain_data.cpp: what a reading of the cache accepts, and how a fetch goes on.
use aowis_server_map.Prelude.{
  ◌≡◌, refl, ap, true, false, Bytes, Text, arith, Option, none, some, eqb_self, length, ltb,
}
use aowis_server_map.Platform.Strings.{Strings}
use aowis_server_map.Platform.Floats.{Floats}
use aowis_server_map.Platform.Doubles.{Doubles}
use aowis_server_map.Platform.Storage.{Storage, Found, missing, unreadable, readable}
use aowis_server_map.Elevation.{TerrainDataOrigin}
use aowis_server_map.Tile.Defs.{
  TerrainTile, TerrainTileAddress, Result, ok, err, is_valid_dataset_id,
}
use aowis_server_map.Tile.Codec.{encode_tile}
use aowis_server_map.Tile.Parser.{decode_tile}
use aowis_server_map.Tile.Valid.{quantised, dataset_bytes}
use aowis_server_map.Tile.RoundTrip.{decode-encode_tile}
use aowis_server_map.Tile.Sound.{decode_tile-Accepted}
use aowis_server_map.Terrain.State.{
  TerrainTileLookupStatus, TerrainTileLookupResult, TerrainProviderFetchStatus,
}
use aowis_server_map.Terrain.Lookup.{
  stopped, tile_of, same_address, accept_content, read_found, fetched, is_ready,
  maximum_normalized_tile_bytes,
}

-- What a reading of the cache returns for a content.
abbrev pub cached : Bytes → TerrainTileLookupResult
cached bytes = record {
  status = TerrainTileLookupStatus.ready;
  content = bytes;
  origin = TerrainDataOrigin.cache;
}

same_address_self : (a : TerrainTileAddress) → same_address a a ≡ true
same_address_self a = ground arith

module _ (qt : Strings) (fl : Floats) (fp : Doubles) (st : Storage) where
  open st use {World, look, is_directory, make_directory, save, try_lock, unlock, directory_of}

  accept-ready :
      (dataset : Text) (a : TerrainTileAddress) (bytes : Bytes) (o : Result (TerrainTile fl))
      → (accept_content qt fl fp st dataset a bytes o).status ≡ TerrainTileLookupStatus.ready
      → accept_content qt fl fp st dataset a bytes o ≡ cached bytes
  unfolding accept_content
  accept-ready dataset a bytes (err e) h = ground (arith, h)
  accept-ready dataset a bytes (ok t) h = ground (arith, h)

  pub read-ready :
      (dataset : Text) (a : TerrainTileAddress) (f : Found)
      → (read_found qt fl fp st dataset a f).status ≡ TerrainTileLookupStatus.ready
      → read_found qt fl fp st dataset a f ≡ cached (read_found qt fl fp st dataset a f).content
  unfolding read_found
  read-ready dataset a missing h = ground (arith, h)
  read-ready dataset a unreadable h = ground (arith, h)
  read-ready dataset a (readable bytes) h =
      ground (arith, h, accept-ready dataset a bytes (decode_tile fl qt bytes))

  -- What the encoder writes is accepted for the tile that it encodes.
  pub read-encoded :
      (dataset : Text) (a : TerrainTileAddress) (t : TerrainTile fl) (bytes : Bytes)
      → is_valid_dataset_id qt dataset ≡ true
      → t.dataset ≡ dataset
      → t.address ≡ a
      → encode_tile fl qt t ≡ ok bytes
      → read_found qt fl fp st dataset a (readable bytes) ≡ cached bytes
  unfolding read_found accept_content
  read-encoded dataset a t bytes valid named placed h =
      let decoded = decode-encode_tile fl qt t bytes h in
      let size = (decode_tile-Accepted fl qt bytes (quantised fl qt t) decoded).size in
      let short = (dataset_bytes qt dataset valid).0 in
      let utf8 = ap (λ (d : Text). length (qt.to_utf8 d)) named in
      let small : ltb maximum_normalized_tile_bytes (length bytes) ≡ false =
        ground (arith, size, short, utf8) in
      rw (small, decoded, named, placed, eqb_self dataset, same_address_self a) refl

  pub fetched-stopped :
      (p : TerrainProviderFetchStatus) (o : Option (TerrainTile fl)) (s : TerrainTileLookupStatus)
      → fetched qt fl fp st p o ≡ stopped s
      → is_ready s ≡ false
  unfolding fetched
  fetched-stopped TerrainProviderFetchStatus.ready (some t) s h = ground (arith, h)
  fetched-stopped TerrainProviderFetchStatus.ready none s h = ground (arith, h)
  fetched-stopped _ o s h = ground (arith, h)

  pub fetched-tile :
      (s : TerrainProviderFetchStatus) (o : Option (TerrainTile fl)) (t : TerrainTile fl)
      → fetched qt fl fp st s o ≡ tile_of t
      → (s ≡ TerrainProviderFetchStatus.ready) × (o ≡ some t)
  unfolding fetched
  fetched-tile TerrainProviderFetchStatus.ready (some t') t h = ground (arith, h)
  fetched-tile TerrainProviderFetchStatus.ready none t h = ground (arith, h)
  fetched-tile _ o t h = ground (arith, h)
