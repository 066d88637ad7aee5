-- ===== src/Terrain/Examples.antt =====
-- lib/terrain_data.cpp on concrete values: a provider of low ground everywhere, and an empty cache.
use aowis_server_map.Prelude.{
  ◌≡◌, refl, sym, ap, ◌∙◌, true, false, ◌⊎◌, none, some, Option, List, [], ◌∷◌, Bytes, Text, codes,
  eqb, length, All,
}
use aowis_server_map.Prelude.Int.{pos}
use aowis_server_map.Platform.Instances.{ascii, small_floats, small_sampling, whole, listed, finite}
use aowis_server_map.Elevation.{
  TerrainVerticalDatum, TerrainDataOrigin, is_valid_vertical_datum, is_requestable_vertical_datum,
}
use aowis_server_map.Tile.Defs.{
  ok, TerrainTile, TerrainTileAddress, is_valid_address, is_valid_dataset_id,
}
use aowis_server_map.Tile.Fixture.{tile_at, file_at, encoded_at}
use aowis_server_map.Coverage.Permits.{permits_tile}
use aowis_server_map.Terrain.State.{
  TerrainTileLookupResult, TerrainTileLookupStatus, TerrainElevationLookupStatus,
  TerrainElevationLookupResult, TerrainProviderFetchStatus, TerrainProvider, TerrainData,
}
use aowis_server_map.Terrain.Lookup.{
  read_found, fetched, ensure_directory, normalized_tile_path, read_normalized_tile, store_encoded,
  store_tile, after_fetch, fetch_from, fetch_and_store_normalized_tile, is_settled, fill_tile,
  locked_fill, terrain_tile,
}
use aowis_server_map.Terrain.Position.{
  TerrainGridPosition, is_valid_wgs84_coordinate, terrain_grid_position, is_outside_mercator,
  bilinear_elevation, weigh,
}
use aowis_server_map.Terrain.Elevations.{
  sample_elevation, sample_below, sample_tile, sampled, is_valid_sample, sample_of,
}
use aowis_server_map.Terrain.Samples.{sample_tile-found}
use aowis_server_map.Terrain.Sampled.{FromCache, sample_below-found, sample_elevation-FromCache}
use aowis_server_map.Tile.Codec.{encode_tile}
use aowis_server_map.Tile.Parser.{decode_tile}
use aowis_server_map.Tile.Valid.{quantised}
use aowis_server_map.Tile.RoundTrip.{decode-encode_tile}
use aowis_server_map.Terrain.Acquire.{
  ready_result, supports, acquire_tile_sources, is_remote_fetch_enabled, is_available_locally,
  tile_needs_remote_acquisition, first_provider, elevation_needs_from,
  elevation_needs_remote_acquisition, acquire_elevation_sources,
}
use aowis_server_map.Terrain.Readings.{cached}
use aowis_server_map.Terrain.Kept.{Faithful, terrain_tile-again}
use aowis_server_map.Terrain.Local.{Elsewhere, elevation_local}

abbrev Files : Type 0
Files = List (Text × Bytes)

abbrev name : Text
name = codes "copernicus-glo30"

abbrev place : TerrainTileAddress
place = record { zoom = pos 3; x = 5; y = 2 }

abbrev lowland : TerrainProvider small_floats listed
lowland = record {
  supports_dataset = eqb name;
  supports_address = λ dataset a. true;
  available_locally = λ w dataset a path. true;
  acquire_tile_sources =
      λ w dataset a path allow. (w, ready_result ascii small_floats whole listed);
  fetch_tile = λ w dataset a path allow. (
    w,
    record {
      status = TerrainProviderFetchStatus.ready;
      tile = some (tile_at a);
      origin = TerrainDataOrigin.remote;
    },
  );
}

abbrev service : TerrainData small_floats listed whole
service = record {
  enabled = true;
  remote_fetch_enabled = true;
  coverage_profile = [];
  download_coverage = record { regions = []; profiles = [] };
  initialized = true;
  normalized = codes "/terrain/normalized/";
  providers_directory = codes "/terrain/providers";
  providers = lowland ∷ [];
}

dataset_of : Option (TerrainTile small_floats) → Text
dataset_of none = []
dataset_of (some t) = t.dataset

address_of : Option (TerrainTile small_floats) → TerrainTileAddress
address_of none = place
address_of (some t) = t.address

service-Faithful :
    (a : TerrainTileAddress)
    → All (Faithful ascii small_floats whole listed service name a) service.providers
unfolding dataset_of address_of
service-Faithful a =
    (λ w path allow t is_done found. (sym (ap dataset_of found), sym (ap address_of found)), tt)

looked-ready :
    (terrain_tile ascii small_floats whole listed service (λ w. w) [] name place true).1.status
    ≡ TerrainTileLookupStatus.ready
unfolding terrain_tile locked_fill fill_tile fetch_and_store_normalized_tile fetch_from after_fetch
    fetched store_tile store_encoded read_normalized_tile read_found is_settled ensure_directory
    is_valid_dataset_id is_valid_address eqb
looked-ready = rw (encoded_at place refl) refl

terrain_tile-again_example :
    let looked = terrain_tile ascii small_floats whole listed service (λ w. w) [] name place true in
    terrain_tile ascii small_floats whole listed service (λ w. w) looked.0 name place false
    ≡ (looked.0, cached looked.1.content)
terrain_tile-again_example =
    terrain_tile-again ascii small_floats whole listed service name place (λ w. w) (λ w. w) [] true
      false (service-Faithful place) looked-ready

point-local :
    elevation_needs_remote_acquisition ascii small_floats whole listed service small_sampling []
      name
      (finite (pos 0))
      (finite (pos 0))
    ≡ false
unfolding elevation_needs_remote_acquisition elevation_needs_from is_remote_fetch_enabled
    is_valid_wgs84_coordinate terrain_grid_position first_provider tile_needs_remote_acquisition
    is_available_locally permits_tile supports eqb is_valid_dataset_id is_valid_address
point-local = refl

elevation_local_example :
    ((acquire_elevation_sources ascii small_floats whole listed service small_sampling [] name
        (finite (pos 0))
        (finite (pos 0))).0
      ≡ [])
    ⊎ ((a : TerrainTileAddress) × (acquire_elevation_sources ascii small_floats whole listed service
            small_sampling [] name
            (finite (pos 0))
            (finite (pos 0))
          ≡ acquire_tile_sources ascii small_floats whole listed service [] name a)
        × Elsewhere ascii small_floats whole listed service [] name a)
elevation_local_example =
    elevation_local ascii small_floats whole listed service [] name small_sampling (finite (pos 0))
      (finite (pos 0)) refl (λ a. ((λ found. refl), tt)) point-local

-- The corner of the coordinate 0, 0 in the largest zoom.
abbrev corner : TerrainTileAddress
corner = record { zoom = pos 30; x = 0; y = 0 }

corner-encoded : encode_tile small_floats ascii (tile_at corner) ≡ ok (file_at corner)
unfolding is_valid_address
corner-encoded = encoded_at corner refl

abbrev corner_found : Files × TerrainTileLookupResult
corner_found = (
  (normalized_tile_path ascii small_floats whole listed service name corner, file_at corner) ∷ [],
  record {
    status = TerrainTileLookupStatus.ready;
    content = file_at corner;
    origin = TerrainDataOrigin.remote;
  },
)

corner-looked :
    terrain_tile ascii small_floats whole listed service (λ w. w) [] name corner true ≡ corner_found
unfolding terrain_tile locked_fill fill_tile fetch_and_store_normalized_tile fetch_from after_fetch
    fetched store_tile store_encoded read_normalized_tile read_found is_settled ensure_directory
    is_valid_dataset_id is_valid_address eqb
corner-looked = rw corner-encoded refl

corner-decoded :
    decode_tile small_floats ascii (file_at corner)
    ≡ ok (quantised small_floats ascii (tile_at corner))
corner-decoded =
    decode-encode_tile small_floats ascii (tile_at corner) (file_at corner) corner-encoded

abbrev position : TerrainGridPosition small_floats small_sampling
position = record { address = corner; column = finite (pos 0); row = finite (pos 0) }

corner-sampled :
    (t : TerrainTile small_floats)
    → length t.elevations_m ≡ 4225
    → bilinear_elevation small_floats small_sampling t (finite (pos 0)) (finite (pos 0))
      ≡ some (finite (pos 0))
unfolding bilinear_elevation weigh
corner-sampled t size = rw size refl

abbrev low_tile : TerrainTile small_floats
low_tile = quantised small_floats ascii (tile_at corner)

low_tile-size : length low_tile.elevations_m ≡ 4225
low_tile-size = refl

abbrev low_sample : TerrainElevationLookupResult small_floats
low_sample = record {
  status = TerrainElevationLookupStatus.ready;
  sample =
      some (sample_of ascii small_floats small_sampling low_tile corner_found.1 (finite (pos 0)));
  tile_address = some corner;
  source_vertical_datum = some TerrainVerticalDatum.egm2008;
}

low_tile-valid :
    sampled ascii small_floats small_sampling
      (some TerrainVerticalDatum.egm2008)
      corner
      corner_found.1
      low_tile
      (finite (pos 0))
    ≡ low_sample
unfolding sampled is_valid_sample is_valid_vertical_datum
low_tile-valid = refl

low_tile-sampled :
    sample_tile ascii small_floats small_sampling
      (some TerrainVerticalDatum.egm2008)
      position
      corner_found.1
      (ok low_tile)
    ≡ some low_sample
low_tile-sampled =
    sample_tile-found ascii small_floats small_sampling (some TerrainVerticalDatum.egm2008) position
      corner_found.1 low_tile (finite (pos 0)) (corner-sampled low_tile low_tile-size)
    ∙ ap some low_tile-valid

position-corner :
    terrain_grid_position small_floats small_sampling (finite (pos 0)) (finite (pos 0)) (pos 30)
    ≡ some position
unfolding terrain_grid_position
position-corner = refl

point-sampled :
    sample_below ascii small_floats small_sampling whole listed service 31
      (λ w. w)
      []
      name
      (finite (pos 0))
      (finite (pos 0))
      (some TerrainVerticalDatum.egm2008)
      true
      none
    ≡ (corner_found.0, low_sample)
point-sampled =
    sample_below-found ascii small_floats small_sampling whole listed service 30 (λ w. w) []
      corner_found.0 name (finite (pos 0)) (finite (pos 0)) (some TerrainVerticalDatum.egm2008) true
      none position corner_found.1 (ok low_tile) low_sample position-corner corner-looked refl
      corner-decoded low_tile-sampled

point-ready :
    (sample_elevation ascii small_floats small_sampling whole listed service
      (λ w. w)
      []
      name
      (finite (pos 0))
      (finite (pos 0))
      (some TerrainVerticalDatum.egm2008)
      true).1.status
    ≡ TerrainElevationLookupStatus.ready
unfolding sample_elevation is_requestable_vertical_datum is_valid_wgs84_coordinate
    is_outside_mercator is_valid_dataset_id eqb
point-ready =
    ap (λ (x : Files × TerrainElevationLookupResult small_floats). x.1.status) point-sampled

sample_elevation-FromCache_example :
    let found =
      sample_elevation ascii small_floats small_sampling whole listed service
        (λ w. w)
        []
        name
        (finite (pos 0))
        (finite (pos 0))
        (some TerrainVerticalDatum.egm2008)
        true in
    FromCache ascii small_floats small_sampling whole listed service name
      (finite (pos 0))
      (finite (pos 0))
      (some TerrainVerticalDatum.egm2008)
      found.0
      found.1
sample_elevation-FromCache_example =
    sample_elevation-FromCache ascii small_floats small_sampling whole listed service (λ w. w) name
      (finite (pos 0)) (finite (pos 0)) (some TerrainVerticalDatum.egm2008) true service-Faithful []
      point-ready
