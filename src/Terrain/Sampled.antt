-- ===== src/Terrain/Sampled.antt =====
-- lib/terrain_data.cpp: what an elevation that is sampled was sampled from.
use aowis_server_map.Prelude.{
  split_if, split_option, ℕ, zero, suc, ◌≡◌, refl, ap, ◌∙◌, Bool, true, false, if◌then◌else◌,
  Option, none, some, arith, Bytes, Text, All,
}
use aowis_server_map.Prelude.Int.{pos}
use aowis_server_map.Platform.Strings.{Strings}
use aowis_server_map.Platform.Floats.{Floats}
use aowis_server_map.Platform.Doubles.{Doubles}
use aowis_server_map.Platform.Storage.{Storage}
use aowis_server_map.Platform.Sampling.{Sampling}
use aowis_server_map.Elevation.{TerrainVerticalDatum}
use aowis_server_map.Tile.Defs.{TerrainTile, TerrainTileAddress, Result, ok, maximum_zoom}
use aowis_server_map.Tile.Parser.{decode_tile}
use aowis_server_map.Terrain.State.{
  TerrainTileLookupStatus, TerrainTileLookupResult, TerrainElevationLookupStatus,
  TerrainElevationLookupResult, TerrainData,
}
use aowis_server_map.Terrain.Lookup.{read_normalized_tile, terrain_tile, is_ready}
use aowis_server_map.Terrain.Position.{TerrainGridPosition, terrain_grid_position}
use aowis_server_map.Terrain.Elevations.{
  failure_of, is_unavailable, refused, sample_tile, not_sampled, first_address, sample_below,
  sample_elevation,
}
use aowis_server_map.Terrain.Readings.{cached}
use aowis_server_map.Terrain.Kept.{Faithful, ready-Passed, looked-KeptIfReady}
use aowis_server_map.Terrain.Samples.{SampleOf, tile-SampleOf}

-- Where no failure is returned, the tile is ready.
failure_of-none :
    (s : TerrainTileLookupStatus) → failure_of s ≡ none → s ≡ TerrainTileLookupStatus.ready
unfolding failure_of
failure_of-none TerrainTileLookupStatus.ready h = refl
failure_of-none _ h = ground (arith, h)

failure_of-some :
    (s : TerrainTileLookupStatus) → failure_of s ≡ some TerrainElevationLookupStatus.ready → ⊥
unfolding failure_of
failure_of-some TerrainTileLookupStatus.ready h = ground (arith, h)
failure_of-some _ h = ground (arith, h)

module _ (qt : Strings) (fl : Floats) (ar : Sampling fl) where
  open fl use {Double}

  module _ (fp : Doubles) (st : Storage) (td : TerrainData fl st fp) where
    -- So the tile of the largest zoom is taken, if it is ready and has an elevation.
    pub sample_below-found :
        (zoom : ℕ) (before_lock : st.World → st.World) (w after : st.World) (dataset : Text)
        (latitude longitude : Double) (requested : Option TerrainVerticalDatum) (allow : Bool)
        (no_data : Option TerrainTileAddress) (p : TerrainGridPosition fl ar)
        (r : TerrainTileLookupResult) (o : Result (TerrainTile fl))
        (x : TerrainElevationLookupResult fl)
        → terrain_grid_position fl ar latitude longitude (pos zoom) ≡ some p
        → terrain_tile qt fl fp st td before_lock w dataset p.address allow ≡ (after, r)
        → r.status ≡ TerrainTileLookupStatus.ready
        → decode_tile fl qt r.content ≡ o
        → sample_tile qt fl ar requested p r o ≡ some x
        → sample_below qt fl ar fp st td
            (suc zoom)
            before_lock
            w
            dataset
            latitude
            longitude
            requested
            allow
            no_data
          ≡ (after, x)
    unfolding sample_below
    sample_below-found zoom before_lock w after dataset latitude longitude requested allow no_data p
          r o x placed looked ready decoded found =
        rw (sample_below, placed, looked, ready, looked, decoded, found)
          (ap (λ (y : st.World × TerrainTileLookupResult). (y.0, x)) looked)

    -- A result that was sampled from the cache: at the position of the coordinate in some zoom, from the
    -- tile that the cache holds there.
    pub record FromCache (dataset : Text) (latitude longitude : Double)
        (requested : Option TerrainVerticalDatum) (w : st.World)
        (r : TerrainElevationLookupResult fl) : Type 0 where
      pub zoom : ℕ
      pub position : TerrainGridPosition fl ar
      pub bytes : Bytes
      pub tile : TerrainTile fl
      pub is_position : terrain_grid_position fl ar latitude longitude (pos zoom) ≡ some position
      pub is_cached : read_normalized_tile qt fl fp st td w dataset position.address ≡ cached bytes
      pub decoded : decode_tile fl qt bytes ≡ ok tile
      pub is_sample : SampleOf qt fl ar requested position tile r

    module _ (before_lock : st.World → st.World) (dataset : Text) (latitude longitude : Double)
        (requested : Option TerrainVerticalDatum) (allow : Bool)
        (faithful : (a : TerrainTileAddress)
          → All (Faithful qt fl fp st td dataset a) td.providers) where
      abbrev Sound : st.World × TerrainElevationLookupResult fl → Type 0
      Sound x =
          x.1.status ≡ TerrainElevationLookupStatus.ready
          → FromCache dataset latitude longitude requested x.0 x.1

      refused-Sound :
          (w : st.World) (s : TerrainElevationLookupStatus) (a : Option TerrainTileAddress)
          (d : Option TerrainVerticalDatum)
          → (s ≡ TerrainElevationLookupStatus.ready → ⊥)
          → Sound
              (w, record { status = s; sample = none; tile_address = a; source_vertical_datum = d })
      refused-Sound w s a d h e = absurd (h e)

      not_sampled-Sound :
          (w : st.World) (no_data : Option TerrainTileAddress)
          → Sound (w, not_sampled qt fl ar no_data)
      unfolding not_sampled
      not_sampled-Sound w none = refused-Sound w _ _ _ (λ h. ground (arith, h))
      not_sampled-Sound w (some a) = refused-Sound w _ _ _ (λ h. ground (arith, h))

      -- The end of a round with a tile that is ready.
      round-Sound :
          (w : st.World) (zoom : ℕ) (p : TerrainGridPosition fl ar)
          → terrain_grid_position fl ar latitude longitude (pos zoom) ≡ some p
          → let (after, r) = terrain_tile qt fl fp st td before_lock w dataset p.address allow in
            (x : TerrainElevationLookupResult fl)
            → r.status ≡ TerrainTileLookupStatus.ready
            → sample_tile qt fl ar requested p r (decode_tile fl qt r.content) ≡ some x
            → Sound (after, x)
      round-Sound w zoom p placed x ready found is_ready =
          let looked = terrain_tile qt fl fp st td before_lock w dataset p.address allow in
          let passed = ready-Passed qt fl fp st td dataset p.address before_lock w allow ready in
          let (t, decoded, sample) =
            tile-SampleOf qt fl ar requested p looked.1 (decode_tile fl qt looked.1.content) x found
              is_ready in
          record {
            zoom = zoom;
            position = p;
            bytes = looked.1.content;
            tile = t;
            is_position = placed;
            is_cached =
                looked-KeptIfReady qt fl fp st td dataset p.address before_lock w allow passed
                  (faithful p.address) ready;
            decoded = decoded;
            is_sample = sample;
          }

      loop-Sound :
          (n : ℕ) (w : st.World) (no_data : Option TerrainTileAddress)
          → Sound (
              sample_below qt fl ar fp st td n before_lock w dataset latitude longitude requested
                allow no_data)
      unfolding sample_below
      loop-Sound zero w no_data = not_sampled-Sound w no_data
      loop-Sound (suc zoom) w no_data =
          split_option Sound (terrain_grid_position fl ar latitude longitude (pos zoom)) _ _
            (λ e. loop-Sound zoom w no_data)
            (λ p placed.
              let looked = terrain_tile qt fl fp st td before_lock w dataset p.address allow in
              split_if Sound (is_unavailable looked.1.status) _ _
                (λ e. loop-Sound zoom looked.0 no_data)
                (λ e.
                  split_option Sound (failure_of looked.1.status) _ _
                    (λ succeeded.
                      split_option Sound
                        (sample_tile qt fl ar requested p looked.1
                          (decode_tile fl qt looked.1.content))
                        _ _
                        (λ e2. loop-Sound zoom looked.0 (first_address qt fl ar no_data p.address))
                        (λ x found.
                          round-Sound w zoom p placed x (failure_of-none looked.1.status succeeded)
                            found))
                    (λ s failed.
                      refused-Sound looked.0 s (some p.address) none
                        (λ h. failure_of-some looked.1.status (failed ∙ ap some h)))))

      guarded :
          (b : Bool) (w : st.World) (s : TerrainElevationLookupStatus)
          (y : st.World × TerrainElevationLookupResult fl)
          → (s ≡ TerrainElevationLookupStatus.ready → ⊥)
          → Sound y
          → Sound (if b then (w, refused qt fl ar s) else y)
      guarded true w s y h sound = refused-Sound w s none none h
      guarded false w s y h sound = sound

      -- If the providers return the tiles that they are asked for: an elevation that is found has been
      -- interpolated, at the position of the coordinate in some zoom, from the tile that the cache holds
      -- there at the end; it is a valid sample, and in the requested vertical datum if one is requested,
      -- so that no height is ever converted.
      pub sample_elevation-FromCache :
          (w : st.World)
          → let (after, r) =
              sample_elevation qt fl ar fp st td before_lock w dataset latitude longitude requested
                allow in
            r.status ≡ TerrainElevationLookupStatus.ready
            → FromCache dataset latitude longitude requested after r
      unfolding sample_elevation
      sample_elevation-FromCache w =
          let loop = loop-Sound (suc maximum_zoom) w none in
          guarded _ w TerrainElevationLookupStatus.disabled _ (λ h. ground (arith, h))
            (guarded _ w TerrainElevationLookupStatus.not_initialized _ (λ h. ground (arith, h))
              (guarded _ w TerrainElevationLookupStatus.invalid_dataset _ (λ h. ground (arith, h))
                (guarded _ w TerrainElevationLookupStatus.invalid_vertical_datum _
                  (λ h. ground (arith, h))
                  (guarded _ w TerrainElevationLookupStatus.invalid_coordinate _
                    (λ h. ground (arith, h))
                    (guarded _ w TerrainElevationLookupStatus.outside_coverage _
                      (λ h. ground (arith, h)) loop)))))
