-- ===== src/Terrain/Samples.antt =====
-- lib/terrain_data.cpp: what a sample of one tile says.
use aowis_server_map.Prelude.{
  split_if, split_option, ◌≡◌, refl, ap, ◌∙◌, subst, true, not, Option, none, some, arith,
}
use aowis_server_map.Platform.Strings.{Strings}
use aowis_server_map.Platform.Floats.{Floats}
use aowis_server_map.Platform.Sampling.{Sampling}
use aowis_server_map.Elevation.{TerrainVerticalDatum}
use aowis_server_map.Tile.Defs.{TerrainTile, Result, ok, err}
use aowis_server_map.Terrain.State.{
  TerrainTileLookupResult, TerrainElevationLookupStatus, TerrainElevationLookupResult,
  TerrainElevationSample,
}
use aowis_server_map.Terrain.Position.{TerrainGridPosition, bilinear_elevation}
use aowis_server_map.Terrain.Elevations.{
  none_or, same_datum, is_valid_sample, sample_of, sampled, sample_tile,
}

module _ (qt : Strings) (fl : Floats) (ar : Sampling fl) where
  open fl use {Double}

  -- A sample of a tile at a position, in the datum that was requested.
  pub record SampleOf (requested : Option TerrainVerticalDatum) (p : TerrainGridPosition fl ar)
      (t : TerrainTile fl) (r : TerrainElevationLookupResult fl) : Type 0 where
    pub sample : TerrainElevationSample fl
    pub is_result : r.sample ≡ some sample
    pub address : r.tile_address ≡ some p.address
    pub elevation : bilinear_elevation fl ar t p.column p.row ≡ some sample.elevation_m
    pub datum : sample.vertical_datum ≡ t.vertical_datum
    pub as_requested : none_or (λ d. same_datum d sample.vertical_datum) requested ≡ true
    pub is_valid : is_valid_sample qt fl ar sample ≡ true

  sampled-SampleOf :
      (requested : Option TerrainVerticalDatum) (p : TerrainGridPosition fl ar)
      (r : TerrainTileLookupResult) (t : TerrainTile fl) (elevation : Double)
      → bilinear_elevation fl ar t p.column p.row ≡ some elevation
      → (sampled qt fl ar requested p.address r t elevation).status
        ≡ TerrainElevationLookupStatus.ready
      → SampleOf requested p t (sampled qt fl ar requested p.address r t elevation)
  unfolding sampled
  sampled-SampleOf requested p r t elevation found =
      let sample = sample_of qt fl ar t r elevation in
      let Ready : TerrainElevationLookupResult fl → Type 0 =
        λ x. x.status ≡ TerrainElevationLookupStatus.ready → SampleOf requested p t x in
      split_if Ready (not (none_or (λ d. same_datum d t.vertical_datum) requested)) _ _
        (λ e h. ground (arith, h))
        (λ e.
          split_if Ready (not (is_valid_sample qt fl ar sample)) _ _ (λ e2 h. ground (arith, h))
            (λ e2 h. record {
              sample = sample;
              is_result = refl;
              address = refl;
              elevation = found;
              datum = refl;
              as_requested = ground (arith, e);
              is_valid = ground (arith, e2);
            }))

  -- A tile with an elevation at the position ends the loop.
  pub sample_tile-found :
      (requested : Option TerrainVerticalDatum) (p : TerrainGridPosition fl ar)
      (r : TerrainTileLookupResult) (t : TerrainTile fl) (elevation : Double)
      → bilinear_elevation fl ar t p.column p.row ≡ some elevation
      → sample_tile qt fl ar requested p r (ok t)
        ≡ some (sampled qt fl ar requested p.address r t elevation)
  unfolding sample_tile
  sample_tile-found requested p r t elevation h = rw (sample_tile, h) refl

  pub tile-SampleOf :
      (requested : Option TerrainVerticalDatum) (p : TerrainGridPosition fl ar)
      (r : TerrainTileLookupResult) (o : Result (TerrainTile fl))
      (x : TerrainElevationLookupResult fl)
      → sample_tile qt fl ar requested p r o ≡ some x
      → x.status ≡ TerrainElevationLookupStatus.ready
      → (t : TerrainTile fl) × (o ≡ ok t) × SampleOf requested p t x
  unfolding sample_tile
  tile-SampleOf requested p r (err e) x = λ h ready. ground (arith, h, ready)
  tile-SampleOf requested p r (ok t) x =
      split_option
        (λ (y : Option (TerrainElevationLookupResult fl)).
          y ≡ some x
          → x.status ≡ TerrainElevationLookupStatus.ready
          → (t' : TerrainTile fl) × (◌≡◌ {A = Result (TerrainTile fl)} (ok t) (ok t'))
            × SampleOf requested p t' x)
        (bilinear_elevation fl ar t p.column p.row) none
        (λ elevation. some (sampled qt fl ar requested p.address r t elevation))
        (λ e h ready. ground (arith, h))
        (λ elevation e h ready.
          let same : sampled qt fl ar requested p.address r t elevation ≡ x = ground (arith, h) in
          (
            t,
            refl,
            subst (SampleOf requested p t) same (
                sampled-SampleOf requested p r t elevation e
                  (ap (λ (y : TerrainElevationLookupResult fl). y.status) same ∙ ready)),
          ))
