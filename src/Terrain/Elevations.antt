-- ===== src/Terrain/Elevations.antt =====
-- lib/terrain_data.cpp: `sampleElevation`, and lib/terrain_elevation.cpp: the validity of a sample.
use aowis_server_map.Prelude.{
  ℕ, zero, suc, Bool, true, false, not, ◌||◌, ◌&&◌, Option, none, some, Text, is_empty,
  if◌then◌else◌,
}
use aowis_server_map.Prelude.Int.{pos}
use aowis_server_map.Platform.Strings.{Strings}
use aowis_server_map.Platform.Floats.{Floats}
use aowis_server_map.Platform.Doubles.{Doubles}
use aowis_server_map.Platform.Storage.{Storage}
use aowis_server_map.Platform.Sampling.{Sampling}
use aowis_server_map.Elevation.{
  TerrainVerticalDatum, is_valid_vertical_datum, is_requestable_vertical_datum,
}
use aowis_server_map.Tile.Defs.{
  TerrainTile, TerrainTileAddress, Result, ok, err, is_valid_dataset_id, maximum_zoom,
}
use aowis_server_map.Tile.Parser.{decode_tile}
use aowis_server_map.Terrain.State.{
  TerrainTileLookupStatus, TerrainTileLookupResult, TerrainElevationLookupStatus,
  TerrainElevationLookupResult, TerrainElevationSample, TerrainData,
}
use aowis_server_map.Terrain.Lookup.{terrain_tile}
use aowis_server_map.Terrain.Position.{
  TerrainGridPosition, is_valid_wgs84_coordinate, is_outside_mercator, terrain_grid_position,
  bilinear_elevation,
}

abbrev pub same_datum : TerrainVerticalDatum → TerrainVerticalDatum → Bool
same_datum TerrainVerticalDatum.unknown TerrainVerticalDatum.unknown = true
same_datum TerrainVerticalDatum.wgs84_ellipsoid TerrainVerticalDatum.wgs84_ellipsoid = true
same_datum TerrainVerticalDatum.egm96 TerrainVerticalDatum.egm96 = true
same_datum TerrainVerticalDatum.egm2008 TerrainVerticalDatum.egm2008 = true
same_datum TerrainVerticalDatum.local TerrainVerticalDatum.local = true
same_datum _ _ = false

-- No datum is requested, or one for which the test holds.
abbrev pub none_or : (TerrainVerticalDatum → Bool) → Option TerrainVerticalDatum → Bool
none_or test none = true
none_or test (some datum) = test datum

-- What the loop does after the lookup of one tile: go on, or return.
unfoldable pub failure_of : TerrainTileLookupStatus → Option TerrainElevationLookupStatus
failure_of TerrainTileLookupStatus.ready = none
failure_of TerrainTileLookupStatus.tile_read_error =
    some TerrainElevationLookupStatus.tile_read_error
failure_of TerrainTileLookupStatus.corrupt_tile = some TerrainElevationLookupStatus.corrupt_tile
failure_of TerrainTileLookupStatus.remote_fetch_error =
    some TerrainElevationLookupStatus.remote_fetch_error
failure_of TerrainTileLookupStatus.provider_error = some TerrainElevationLookupStatus.provider_error
failure_of status = some TerrainElevationLookupStatus.tile_unavailable

abbrev pub is_unavailable : TerrainTileLookupStatus → Bool
is_unavailable TerrainTileLookupStatus.tile_unavailable = true
is_unavailable status = false

module _ (qt : Strings) (fl : Floats) (ar : Sampling fl) where
  open fl use {Double, is_finite, lt, of_int}

  unfoldable pub is_valid_sample : TerrainElevationSample fl → Bool
  unfolding is_valid_vertical_datum
  is_valid_sample s =
      if not (is_finite s.elevation_m)
      then false
      else if not (is_finite s.nominal_resolution_m) || lt s.nominal_resolution_m (of_int (pos 0))
      then false
      else if is_empty (qt.trimmed s.dataset)
      then false
      else if not (is_valid_vertical_datum s.vertical_datum)
          || not (is_valid_vertical_datum s.source_vertical_datum)
      then false
      else not (
          same_datum s.source_vertical_datum TerrainVerticalDatum.unknown
          && not (same_datum s.vertical_datum TerrainVerticalDatum.unknown))

  -- A result with a status alone, and one with an address.
  abbrev pub refused : TerrainElevationLookupStatus → TerrainElevationLookupResult fl
  refused status = record {
    status = status;
    sample = none;
    tile_address = none;
    source_vertical_datum = none;
  }

  abbrev pub refused_at :
      TerrainElevationLookupStatus → TerrainTileAddress → TerrainElevationLookupResult fl
  refused_at status a = record {
    status = status;
    sample = none;
    tile_address = some a;
    source_vertical_datum = none;
  }

  abbrev pub sample_of :
      TerrainTile fl → TerrainTileLookupResult → Double → TerrainElevationSample fl
  sample_of t r elevation = record {
    elevation_m = elevation;
    dataset = t.dataset;
    nominal_resolution_m = t.nominal_resolution_m;
    vertical_datum = t.vertical_datum;
    source_vertical_datum = t.vertical_datum;
    origin = r.origin;
  }

  -- The end of a round that has an elevation.
  unfoldable pub sampled :
      Option TerrainVerticalDatum
      → TerrainTileAddress
      → TerrainTileLookupResult
      → TerrainTile fl
      → Double
      → TerrainElevationLookupResult fl
  unfolding is_valid_sample
  sampled requested a r t elevation =
      let sample = sample_of t r elevation in
      if not (none_or (λ datum. same_datum datum t.vertical_datum) requested)
      then record (refused_at TerrainElevationLookupStatus.vertical_datum_conversion_unavailable
          a) { source_vertical_datum = some t.vertical_datum }
      else if not (is_valid_sample sample)
      then record (refused_at TerrainElevationLookupStatus.corrupt_tile a) {
        source_vertical_datum = some t.vertical_datum;
      }
      else record {
        status = TerrainElevationLookupStatus.ready;
        sample = some sample;
        tile_address = some a;
        source_vertical_datum = some t.vertical_datum;
      }

  -- A round with a tile that is ready; `none` says that the tile has no data there.
  unfoldable pub sample_tile :
      Option TerrainVerticalDatum
      → TerrainGridPosition fl ar
      → TerrainTileLookupResult
      → Result (TerrainTile fl)
      → Option (TerrainElevationLookupResult fl)
  unfolding sampled
  sample_tile requested p r (err e) =
      some (refused_at TerrainElevationLookupStatus.corrupt_tile p.address)
  sample_tile requested p r (ok t) = elim (bilinear_elevation fl ar t p.column p.row) [
    | none ↦ none
    | some elevation ↦ some (sampled requested p.address r t elevation)
  ]

  -- After the loop; the argument is `no_data_address`.
  unfoldable pub not_sampled : Option TerrainTileAddress → TerrainElevationLookupResult fl
  not_sampled none = refused TerrainElevationLookupStatus.tile_unavailable
  not_sampled (some a) = refused_at TerrainElevationLookupStatus.no_data a

  -- `no_data_address` is set once.
  abbrev pub first_address :
      Option TerrainTileAddress → TerrainTileAddress → Option TerrainTileAddress
  first_address none a = some a
  first_address (some b) a = some b

  module _ (fp : Doubles) (st : Storage) (td : TerrainData fl st fp) where
    -- The loop, over the zooms below the first argument.
    unfoldable pub sample_below :
        ℕ
        → (st.World → st.World)
        → st.World
        → Text
        → Double
        → Double
        → Option TerrainVerticalDatum
        → Bool
        → Option TerrainTileAddress
        → st.World × TerrainElevationLookupResult fl
    unfolding failure_of not_sampled
    sample_below zero before_lock w dataset latitude longitude requested allow no_data =
        (w, not_sampled no_data)
    sample_below (suc zoom) before_lock w dataset latitude longitude requested allow no_data =
        elim (terrain_grid_position fl ar latitude longitude (pos zoom)) [
          | none ↦
              sample_below zoom before_lock w dataset latitude longitude requested allow no_data
          | some p ↦
              let (after, r) = terrain_tile qt fl fp st td before_lock w dataset p.address allow in
              let skipped =
                sample_below zoom before_lock after dataset latitude longitude requested allow
                  no_data in
              let without_data =
                sample_below zoom before_lock after dataset latitude longitude requested allow
                  (first_address no_data p.address) in
              if is_unavailable r.status then skipped else elim (failure_of r.status) [
                | some status ↦ (after, refused_at status p.address)
                | none ↦ elim (sample_tile requested p r (decode_tile fl qt r.content)) [
                  | some result ↦ (after, result)
                  | none ↦ without_data
                ]
              ]
        ]

    unfoldable pub sample_elevation :
        (st.World → st.World)
        → st.World
        → Text
        → Double
        → Double
        → Option TerrainVerticalDatum
        → Bool
        → st.World × TerrainElevationLookupResult fl
    unfolding is_requestable_vertical_datum is_valid_wgs84_coordinate is_outside_mercator
    sample_elevation before_lock w dataset latitude longitude requested allow =
        if not td.enabled
        then (w, refused TerrainElevationLookupStatus.disabled)
        else if not td.initialized
        then (w, refused TerrainElevationLookupStatus.not_initialized)
        else if not (is_valid_dataset_id qt dataset)
        then (w, refused TerrainElevationLookupStatus.invalid_dataset)
        else if not (none_or is_requestable_vertical_datum requested)
        then (w, refused TerrainElevationLookupStatus.invalid_vertical_datum)
        else if not (is_valid_wgs84_coordinate fl ar latitude longitude)
        then (w, refused TerrainElevationLookupStatus.invalid_coordinate)
        else if is_outside_mercator fl ar latitude
        then (w, refused TerrainElevationLookupStatus.outside_coverage)
        else sample_below (suc maximum_zoom) before_lock w dataset latitude longitude requested
            allow none
