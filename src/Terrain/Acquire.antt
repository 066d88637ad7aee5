-- ===== src/Terrain/Acquire.antt =====
-- lib/terrain_data.cpp: which requests need a download first, and the downloads of their sources. The
-- cancellation token of a download is the provider's affair.
use aowis_server_map.Prelude.{
  ℕ, zero, suc, Bool, true, false, not, ◌||◌, ◌&&◌, Option, none, some, List, [], ◌∷◌, Text,
  if◌then◌else◌,
}
use aowis_server_map.Prelude.Int.{pos}
use aowis_server_map.Platform.Strings.{Strings}
use aowis_server_map.Platform.Floats.{Floats}
use aowis_server_map.Platform.Doubles.{Doubles}
use aowis_server_map.Platform.Storage.{Storage}
use aowis_server_map.Platform.Sampling.{Sampling}
use aowis_server_map.Elevation.{TerrainDataOrigin}
use aowis_server_map.Tile.Defs.{
  TerrainTileAddress, is_valid_address, is_valid_dataset_id, maximum_zoom,
}
use aowis_server_map.Coverage.Permits.{permits_tile}
use aowis_server_map.Terrain.State.{
  TerrainProviderFetchStatus, TerrainProviderFetchResult, TerrainProvider, TerrainData,
}
use aowis_server_map.Terrain.Lookup.{is_missing, normalized_tile_path}
use aowis_server_map.Terrain.Position.{is_valid_wgs84_coordinate, terrain_grid_position}

module _ (qt : Strings) (fl : Floats) (fp : Doubles) (st : Storage) where
  open st use {World, look}

  -- `result` with the status that the functions start from.
  abbrev pub ready_result : TerrainProviderFetchResult fl
  ready_result = record {
    status = TerrainProviderFetchStatus.ready;
    tile = none;
    origin = TerrainDataOrigin.unknown;
  }

  unfoldable pub supports : TerrainProvider fl st → Text → TerrainTileAddress → Bool
  supports p dataset a = p.supports_dataset dataset && p.supports_address dataset a

  -- The first provider that supports the tile.
  unfoldable pub first_provider :
      List (TerrainProvider fl st) → Text → TerrainTileAddress → Option (TerrainProvider fl st)
  unfolding supports
  first_provider [] dataset a = none
  first_provider (p ∷ rest) dataset a =
      if supports p dataset a then some p else first_provider rest dataset a

  module _ (td : TerrainData fl st fp) where
    abbrev pub permits : TerrainTileAddress → Bool
    permits a = permits_tile fp td.download_coverage td.coverage_profile a.zoom (pos a.x) (pos a.y)

    -- `QFileInfo::exists` of the normalized tile.
    abbrev pub is_cached : World → Text → TerrainTileAddress → Bool
    is_cached w dataset a =
        not (is_missing (look w (normalized_tile_path qt fl fp st td dataset a)))

    unfoldable pub acquire_first :
        Option (TerrainProvider fl st)
        → World
        → Text
        → TerrainTileAddress
        → World × TerrainProviderFetchResult fl
    acquire_first none w dataset a = (w, ready_result)
    acquire_first (some p) w dataset a =
        p.acquire_tile_sources w dataset a td.providers_directory true

    unfoldable pub acquire_tile_sources :
        World → Text → TerrainTileAddress → World × TerrainProviderFetchResult fl
    unfolding permits_tile normalized_tile_path acquire_first first_provider
    acquire_tile_sources w dataset a =
        if not td.initialized || not td.remote_fetch_enabled || not (permits a)
        then (w, ready_result)
        else if is_cached w dataset a
        then (w, ready_result)
        else acquire_first (first_provider td.providers dataset a) w dataset a

    unfoldable pub is_remote_fetch_enabled : Bool
    is_remote_fetch_enabled = td.enabled && td.remote_fetch_enabled

    unfoldable pub is_available_locally :
        List (TerrainProvider fl st) → World → Text → TerrainTileAddress → Bool
    unfolding supports
    is_available_locally [] w dataset a = false
    is_available_locally (p ∷ rest) w dataset a =
        (supports p dataset a && p.available_locally w dataset a td.providers_directory)
        || is_available_locally rest w dataset a

    unfoldable pub tile_needs_remote_acquisition : World → Text → TerrainTileAddress → Bool
    unfolding is_remote_fetch_enabled permits_tile normalized_tile_path is_available_locally
    tile_needs_remote_acquisition w dataset a =
        let is_valid = is_valid_dataset_id qt dataset && is_valid_address a in
        if not is_remote_fetch_enabled
        then false
        else if is_valid && not (permits a)
        then false
        else if is_valid && is_cached w dataset a
        then false
        else not (is_available_locally td.providers w dataset a)

    module _ (ar : Sampling fl) where
      -- The two loops over the zooms below the first argument, which the source writes twice.
      unfoldable pub elevation_needs_from : ℕ → World → Text → fl.Double → fl.Double → Bool
      unfolding terrain_grid_position first_provider tile_needs_remote_acquisition
      elevation_needs_from zero w dataset latitude longitude = true
      elevation_needs_from (suc zoom) w dataset latitude longitude =
          let later = elevation_needs_from zoom w dataset latitude longitude in
          elim (terrain_grid_position fl ar latitude longitude (pos zoom)) [
            | none ↦ later
            | some p ↦ elim (first_provider td.providers dataset p.address) [
              | none ↦ later
              | some q ↦ tile_needs_remote_acquisition w dataset p.address
            ]
          ]

      unfoldable pub elevation_needs_remote_acquisition :
          World → Text → fl.Double → fl.Double → Bool
      unfolding is_remote_fetch_enabled is_valid_wgs84_coordinate elevation_needs_from
      elevation_needs_remote_acquisition w dataset latitude longitude =
          if not is_remote_fetch_enabled
          then false
          else if not (is_valid_wgs84_coordinate fl ar latitude longitude)
          then true
          else elevation_needs_from (suc maximum_zoom) w dataset latitude longitude

      unfoldable pub acquire_elevation_from :
          ℕ → World → Text → fl.Double → fl.Double → World × TerrainProviderFetchResult fl
      unfolding terrain_grid_position first_provider acquire_tile_sources
      acquire_elevation_from zero w dataset latitude longitude = (w, ready_result)
      acquire_elevation_from (suc zoom) w dataset latitude longitude =
          let later = acquire_elevation_from zoom w dataset latitude longitude in
          elim (terrain_grid_position fl ar latitude longitude (pos zoom)) [
            | none ↦ later
            | some p ↦ elim (first_provider td.providers dataset p.address) [
              | none ↦ later
              | some q ↦ acquire_tile_sources w dataset p.address
            ]
          ]

      unfoldable pub acquire_elevation_sources :
          World → Text → fl.Double → fl.Double → World × TerrainProviderFetchResult fl
      unfolding is_valid_wgs84_coordinate acquire_elevation_from
      acquire_elevation_sources w dataset latitude longitude =
          if not td.initialized
            || not td.remote_fetch_enabled
            || not (is_valid_wgs84_coordinate fl ar latitude longitude)
          then (w, ready_result)
          else acquire_elevation_from (suc maximum_zoom) w dataset latitude longitude
