-- ===== src/Terrain/State.antt =====
-- include/aowis/map/terrain_data.h and terrain_provider.h: the members of `TerrainData`, the interface of
-- its providers, and the results. The texts of error messages are left out.
use aowis_server_map.Prelude.{
  ◌++◌, Bool, Option, List, [], Bytes, Text, codes, if◌then◌else◌, not, ◌||◌,
}
use aowis_server_map.Prelude.Int.{pos_part}
use aowis_server_map.Platform.Strings.{Strings}
use aowis_server_map.Platform.Floats.{Floats}
use aowis_server_map.Platform.Doubles.{Doubles}
use aowis_server_map.Platform.Storage.{Storage}
use aowis_server_map.Elevation.{TerrainVerticalDatum, TerrainDataOrigin}
use aowis_server_map.Tile.Defs.{
  TerrainTile, TerrainTileAddress, format_version, normalization_revision, is_valid_address,
  is_valid_dataset_id,
}
use aowis_server_map.Coverage.Permits.{Coverage}

pub data TerrainTileLookupStatus : Type 0 where
  ready disabled not_initialized invalid_dataset invalid_address tile_unavailable :
      TerrainTileLookupStatus
  tile_read_error corrupt_tile remote_fetch_error provider_error : TerrainTileLookupStatus

pub data TerrainElevationLookupStatus : Type 0 where
  ready disabled not_initialized invalid_coordinate invalid_dataset invalid_vertical_datum :
      TerrainElevationLookupStatus
  vertical_datum_conversion_unavailable outside_coverage tile_unavailable tile_read_error :
      TerrainElevationLookupStatus
  corrupt_tile remote_fetch_error provider_error no_data : TerrainElevationLookupStatus

pub data TerrainProviderFetchStatus : Type 0 where
  ready unsupported_dataset unsupported_address source_unavailable network_error :
      TerrainProviderFetchStatus
  source_read_error conversion_error cancelled : TerrainProviderFetchStatus

pub record TerrainTileLookupResult : Type 0 where
  pub status : TerrainTileLookupStatus
  pub content : Bytes
  pub origin : TerrainDataOrigin

-- A result with a status alone.
abbrev pub failed : TerrainTileLookupStatus → TerrainTileLookupResult
failed status = record { status = status; content = []; origin = TerrainDataOrigin.unknown }

module _ (fl : Floats) where
  pub record TerrainProviderFetchResult : Type 0 where
    pub status : TerrainProviderFetchStatus
    pub tile : Option (TerrainTile fl)
    pub origin : TerrainDataOrigin

  pub record TerrainElevationSample : Type 0 where
    pub elevation_m : fl.Double
    pub dataset : Text
    pub nominal_resolution_m : fl.Double
    pub vertical_datum : TerrainVerticalDatum
    pub source_vertical_datum : TerrainVerticalDatum
    pub origin : TerrainDataOrigin

  pub record TerrainElevationLookupResult : Type 0 where
    pub status : TerrainElevationLookupStatus
    pub sample : Option TerrainElevationSample
    pub tile_address : Option TerrainTileAddress
    pub source_vertical_datum : Option TerrainVerticalDatum

  module _ (st : Storage) where
    -- The virtual functions; the text is the directory of the providers, the last Boolean whether the
    -- network may be used. What a provider changes is part of the world.
    pub record TerrainProvider : Type 0 where
      pub supports_dataset : Text → Bool
      pub supports_address : Text → TerrainTileAddress → Bool
      pub available_locally : st.World → Text → TerrainTileAddress → Text → Bool
      pub acquire_tile_sources :
          st.World → Text → TerrainTileAddress → Text → Bool → st.World × TerrainProviderFetchResult
      pub fetch_tile :
          st.World → Text → TerrainTileAddress → Text → Bool → st.World × TerrainProviderFetchResult

    pub record TerrainData (fp : Doubles) : Type 0 where
      pub enabled : Bool
      pub remote_fetch_enabled : Bool
      pub coverage_profile : Text
      pub download_coverage : Coverage fp
      pub initialized : Bool
      -- `storage_paths`
      pub normalized : Text
      pub providers_directory : Text
      pub providers : List TerrainProvider

module _ (qt : Strings) (st : Storage) where
  open st use {number, clean_path, file_path}

  unfoldable pub normalized_tile_relative_path : Text → TerrainTileAddress → Text
  normalized_tile_relative_path dataset a =
      if not (is_valid_dataset_id qt dataset) || not (is_valid_address a)
      then []
      else clean_path (
          codes "v"
          ++ number format_version
          ++ codes "/r"
          ++ number normalization_revision
          ++ codes "/"
          ++ dataset
          ++ codes "/"
          ++ number (pos_part a.zoom)
          ++ codes "/"
          ++ number a.x
          ++ codes "/"
          ++ number a.y
          ++ codes ".aowterrain")
