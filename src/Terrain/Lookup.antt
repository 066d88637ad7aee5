-- ===== src/Terrain/Lookup.antt =====
-- lib/terrain_data.cpp: `readNormalizedTile`, `fetchAndStoreNormalizedTile` and `terrainTile`.
use aowis_server_map.Prelude.{
  ℕ, ◌+◌, ◌*◌, Bool, true, false, not, ◌||◌, ◌&&◌, ◌==◌, Option, some, List, [], ◌∷◌, Bytes, ◌++◌,
  codes, Text, eqb, is_empty, length, ltb, if◌then◌else◌,
}
use aowis_server_map.Prelude.Int.{pos, leb_ℤ}
use aowis_server_map.Platform.Strings.{Strings}
use aowis_server_map.Platform.Floats.{Floats}
use aowis_server_map.Platform.Doubles.{Doubles}
use aowis_server_map.Platform.Storage.{Storage, Found, missing, unreadable, readable}
use aowis_server_map.Elevation.{TerrainDataOrigin}
use aowis_server_map.Tile.Defs.{
  TerrainTile, TerrainTileAddress, Result, ok, err, sample_count, maximum_dataset_id_bytes,
  is_valid_address, is_valid_dataset_id,
}
use aowis_server_map.Tile.Codec.{encode_tile}
use aowis_server_map.Tile.Parser.{decode_tile}
use aowis_server_map.Coverage.Permits.{permits_tile}
use aowis_server_map.Terrain.State.{
  TerrainTileLookupStatus, TerrainTileLookupResult, TerrainProviderFetchStatus, TerrainProvider,
  TerrainData, failed, normalized_tile_relative_path,
}

abbrev pub maximum_normalized_tile_bytes : ℕ
maximum_normalized_tile_bytes = 64 + maximum_dataset_id_bytes + sample_count * 2

-- How the loop over the providers goes on after a fetch.
pub data Fetched (fl : Floats) : Type 0 where
  next_provider : Fetched fl
  stopped : TerrainTileLookupStatus → Fetched fl
  tile_of : TerrainTile fl → Fetched fl

abbrev pub same_address : TerrainTileAddress → TerrainTileAddress → Bool
same_address a b = leb_ℤ a.zoom b.zoom && leb_ℤ b.zoom a.zoom && a.x == b.x && a.y == b.y

-- Whether a reading is returned as it is: the tile is there, or its file cannot be read.
unfoldable pub is_settled : TerrainTileLookupStatus → Bool
is_settled TerrainTileLookupStatus.ready = true
is_settled TerrainTileLookupStatus.tile_read_error = true
is_settled status = false

abbrev pub is_corrupt : TerrainTileLookupStatus → Bool
is_corrupt TerrainTileLookupStatus.corrupt_tile = true
is_corrupt status = false

abbrev pub is_ready : TerrainTileLookupStatus → Bool
is_ready TerrainTileLookupStatus.ready = true
is_ready status = false

abbrev pub is_missing : Found → Bool
is_missing missing = true
is_missing found = false

abbrev pub lock_file : Text → Text
lock_file path = path ++ codes ".lock"

module _ (qt : Strings) (fl : Floats) (fp : Doubles) (st : Storage) where
  open st use {
    World, look, is_directory, make_directory, save, try_lock, unlock, directory_of, file_path,
  }

  -- The message of a result is left out, and so is that of its decoding.
  unfoldable pub accept_content :
      Text → TerrainTileAddress → Bytes → Result (TerrainTile fl) → TerrainTileLookupResult
  accept_content dataset a bytes (err e) = failed TerrainTileLookupStatus.corrupt_tile
  accept_content dataset a bytes (ok t) =
      if not (eqb t.dataset dataset) || not (same_address t.address a)
      then failed TerrainTileLookupStatus.corrupt_tile
      else record {
        status = TerrainTileLookupStatus.ready;
        content = bytes;
        origin = TerrainDataOrigin.cache;
      }

  unfoldable pub read_found : Text → TerrainTileAddress → Found → TerrainTileLookupResult
  unfolding accept_content decode_tile
  read_found dataset a missing = failed TerrainTileLookupStatus.tile_unavailable
  read_found dataset a unreadable = failed TerrainTileLookupStatus.tile_read_error
  read_found dataset a (readable bytes) =
      if ltb maximum_normalized_tile_bytes (length bytes)
      then failed TerrainTileLookupStatus.corrupt_tile
      else accept_content dataset a bytes (decode_tile fl qt bytes)

  -- A provider's result.
  unfoldable pub fetched : TerrainProviderFetchStatus → Option (TerrainTile fl) → Fetched fl
  fetched TerrainProviderFetchStatus.source_unavailable tile = next_provider
  fetched TerrainProviderFetchStatus.unsupported_address tile = next_provider
  fetched TerrainProviderFetchStatus.network_error tile =
      stopped TerrainTileLookupStatus.remote_fetch_error
  fetched TerrainProviderFetchStatus.cancelled tile =
      stopped TerrainTileLookupStatus.remote_fetch_error
  fetched TerrainProviderFetchStatus.ready (some t) = tile_of t
  fetched _ tile = stopped TerrainTileLookupStatus.provider_error

  -- `ensureNormalizedTileDirectory`.
  unfoldable pub ensure_directory : World → Text → World × Bool
  ensure_directory w path =
      if is_directory w path
      then (w, true)
      else if is_missing (look w path)
      then (let (made, done) = make_directory w path in (made, done || is_directory made path))
      else (w, false)

  module _ (td : TerrainData fl st fp) where
    unfoldable pub normalized_tile_path : Text → TerrainTileAddress → Text
    unfolding normalized_tile_relative_path
    normalized_tile_path dataset a =
        let relative = normalized_tile_relative_path qt st dataset a in
        if is_empty relative then [] else file_path td.normalized relative

    unfoldable pub read_normalized_tile :
        World → Text → TerrainTileAddress → TerrainTileLookupResult
    unfolding read_found normalized_tile_path
    read_normalized_tile w dataset a =
        read_found dataset a (look w (normalized_tile_path dataset a))

    -- The encoded tile is stored and returned.
    unfoldable pub store_encoded :
        World → Text → Bytes → TerrainDataOrigin → World × TerrainTileLookupResult
    unfolding ensure_directory
    store_encoded w path bytes origin =
        let (ensured, is_made) = ensure_directory w (directory_of path) in
        let (saved, is_saved) = save ensured path bytes in
        if not is_made
        then (ensured, failed TerrainTileLookupStatus.tile_read_error)
        else if not is_saved
        then (saved, failed TerrainTileLookupStatus.tile_read_error)
        else (
          saved,
          record { status = TerrainTileLookupStatus.ready; content = bytes; origin = origin },
        )

    unfoldable pub store_tile :
        World → Text → TerrainDataOrigin → Result Bytes → World × TerrainTileLookupResult
    unfolding store_encoded
    store_tile w path origin (err e) = (w, failed TerrainTileLookupStatus.provider_error)
    store_tile w path origin (ok bytes) = store_encoded w path bytes origin

    unfoldable pub may_fetch : TerrainTileAddress → Bool → Bool
    unfolding permits_tile
    may_fetch a allow_remote_fetch =
        allow_remote_fetch
        && td.remote_fetch_enabled
        && permits_tile fp td.download_coverage td.coverage_profile a.zoom (pos a.x) (pos a.y)

    -- What follows a fetch; `later` is the result of the other providers.
    unfoldable pub after_fetch :
        World × TerrainTileLookupResult
        → World
        → Text
        → TerrainTileAddress
        → TerrainDataOrigin
        → Fetched fl
        → World × TerrainTileLookupResult
    unfolding store_tile encode_tile normalized_tile_path
    after_fetch later w dataset a origin next_provider = later
    after_fetch later w dataset a origin (stopped status) = (w, failed status)
    after_fetch later w dataset a origin (tile_of t) =
        store_tile w (normalized_tile_path dataset a) origin (encode_tile fl qt t)

    -- The loop over the providers.
    unfoldable pub fetch_from :
        World
        → Text
        → TerrainTileAddress
        → Bool
        → List (TerrainProvider fl st)
        → World × TerrainTileLookupResult
    unfolding fetched after_fetch may_fetch
    fetch_from w dataset a allow [] = (w, failed TerrainTileLookupStatus.tile_unavailable)
    fetch_from w dataset a allow (p ∷ rest) =
        let skipped = fetch_from w dataset a allow rest in
        let (after, r) = p.fetch_tile w dataset a td.providers_directory (may_fetch a allow) in
        let later = fetch_from after dataset a allow rest in
        if not (p.supports_dataset dataset) || not (p.supports_address dataset a)
        then skipped
        else after_fetch later after dataset a r.origin (fetched r.status r.tile)

    unfoldable pub fetch_and_store_normalized_tile :
        World → Text → TerrainTileAddress → Bool → World × TerrainTileLookupResult
    unfolding fetch_from
    fetch_and_store_normalized_tile w dataset a allow = fetch_from w dataset a allow td.providers

    -- From the locked reading on; the last argument is the first reading.
    unfoldable pub fill_tile :
        World
        → Text
        → TerrainTileAddress
        → Bool
        → TerrainTileLookupResult
        → World × TerrainTileLookupResult
    unfolding read_normalized_tile fetch_and_store_normalized_tile is_settled
    fill_tile w dataset a allow initial =
        let locked = read_normalized_tile w dataset a in
        let (fetched_world, result) = fetch_and_store_normalized_tile w dataset a allow in
        if is_settled locked.status
        then (w, locked)
        else if is_ready result.status
        then (fetched_world, result)
        else if is_corrupt locked.status
        then (fetched_world, locked)
        else if is_corrupt initial.status
        then (fetched_world, initial)
        else (fetched_world, result)

    -- `before_lock` is what others did to the files up to the lock.
    unfoldable pub locked_fill :
        (World → World)
        → World
        → Text
        → TerrainTileAddress
        → Bool
        → TerrainTileLookupResult
        → World × TerrainTileLookupResult
    unfolding ensure_directory normalized_tile_path fill_tile
    locked_fill before_lock w dataset a allow initial =
        let path = normalized_tile_path dataset a in
        let (ensured, is_made) = ensure_directory w (directory_of path) in
        let (locked, is_locked) = try_lock (before_lock ensured) (lock_file path) in
        let (filled, result) = fill_tile locked dataset a allow initial in
        if not is_made
        then (ensured, failed TerrainTileLookupStatus.tile_read_error)
        else if not is_locked
        then (locked, failed TerrainTileLookupStatus.provider_error)
        else (unlock filled (lock_file path), result)

    unfoldable pub terrain_tile :
        (World → World) → World → Text → TerrainTileAddress → Bool → World × TerrainTileLookupResult
    unfolding read_normalized_tile is_settled locked_fill
    terrain_tile before_lock w dataset a allow =
        let initial = read_normalized_tile w dataset a in
        if not td.enabled
        then (w, failed TerrainTileLookupStatus.disabled)
        else if not td.initialized
        then (w, failed TerrainTileLookupStatus.not_initialized)
        else if not (is_valid_dataset_id qt dataset)
        then (w, failed TerrainTileLookupStatus.invalid_dataset)
        else if not (is_valid_address a)
        then (w, failed TerrainTileLookupStatus.invalid_address)
        else if is_settled initial.status
        then (w, initial)
        else locked_fill before_lock w dataset a allow initial
