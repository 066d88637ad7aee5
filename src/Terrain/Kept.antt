-- ===== src/Terrain/Kept.antt =====
-- lib/terrain_data.cpp: a normalized tile that was returned stays in the cache as it is.
use aowis_server_map.Prelude.{
  ◌≡◌, if◌then◌else◌, ◌||◌, refl, sym, subst, ◌∙◌, Bool, true, false, not, List, [], ◌∷◌, Bytes,
  Text, arith, All, some, split_if,
}
use aowis_server_map.Platform.Strings.{Strings}
use aowis_server_map.Platform.Floats.{Floats}
use aowis_server_map.Platform.Doubles.{Doubles}
use aowis_server_map.Platform.Storage.{Storage}
use aowis_server_map.Elevation.{TerrainDataOrigin}
use aowis_server_map.Tile.Defs.{
  TerrainTile, TerrainTileAddress, Result, ok, err, is_valid_address, is_valid_dataset_id,
}
use aowis_server_map.Tile.Codec.{encode_tile}
use aowis_server_map.Terrain.State.{
  TerrainTileLookupStatus, TerrainTileLookupResult, TerrainProviderFetchStatus, TerrainProvider,
  TerrainData, failed,
}
use aowis_server_map.Terrain.Lookup.{
  lock_file, Fetched, next_provider, stopped, tile_of, fetched, ensure_directory,
  normalized_tile_path, read_normalized_tile, store_encoded, store_tile, may_fetch, after_fetch,
  fetch_from, fetch_and_store_normalized_tile, is_settled, is_ready, is_corrupt, fill_tile,
  locked_fill, terrain_tile,
}
use aowis_server_map.Terrain.Readings.{
  cached, read-ready, read-encoded, fetched-stopped, fetched-tile,
}

pass {ℓ} : {A : Type ℓ} {b : Bool} → b ≡ true → (x y : A) → (if not b then x else y) ≡ y
pass e x y = rw e refl

module _ (qt : Strings) (fl : Floats) (fp : Doubles) (st : Storage) where
  open st use {World, look, is_directory, make_directory, save, try_lock, unlock, directory_of}

  module _ (td : TerrainData fl st fp) (dataset : Text) (a : TerrainTileAddress) where
    -- The cache holds this content for the tile.
    abbrev pub Kept : World → Bytes → Type 0
    Kept w bytes = read_normalized_tile qt fl fp st td w dataset a ≡ cached bytes

    -- A provider returns the tile that it is asked for.
    abbrev pub Faithful : TerrainProvider fl st → Type 0
    Faithful p =
        (w : World) (path : Text) (allow : Bool) (t : TerrainTile fl)
        → (p.fetch_tile w dataset a path allow).1.status ≡ TerrainProviderFetchStatus.ready
        → (p.fetch_tile w dataset a path allow).1.tile ≡ some t
        → (t.dataset ≡ dataset) × (t.address ≡ a)

    abbrev path : Text
    path = normalized_tile_path qt fl fp st td dataset a

    -- A result that is ready is kept.
    abbrev pub KeptIfReady : World × TerrainTileLookupResult → Type 0
    KeptIfReady x = x.1.status ≡ TerrainTileLookupStatus.ready → Kept x.0 x.1.content

    failed-KeptIfReady :
        (w : World) (s : TerrainTileLookupStatus) → is_ready s ≡ false → KeptIfReady (w, failed s)
    failed-KeptIfReady w s h e = ground (arith, h, e)

    stored-KeptIfReady :
        (w : World) (t : TerrainTile fl) (origin : TerrainDataOrigin) (o : Result Bytes)
        → is_valid_dataset_id qt dataset ≡ true
        → (t.dataset ≡ dataset) × (t.address ≡ a)
        → encode_tile fl qt t ≡ o
        → KeptIfReady (store_tile qt fl fp st td w path origin o)
    unfolding store_tile store_encoded read_normalized_tile
    stored-KeptIfReady w t origin (err e) valid same encoded =
        failed-KeptIfReady w TerrainTileLookupStatus.provider_error refl
    stored-KeptIfReady w t origin (ok bytes) valid same encoded =
        let ensured = ensure_directory qt fl fp st w (directory_of path) in
        let saved = save ensured.0 path bytes in
        split_if KeptIfReady (not ensured.1) _ _
          (λ e. failed-KeptIfReady ensured.0 TerrainTileLookupStatus.tile_read_error refl)
          (λ e.
            split_if KeptIfReady (not saved.1) _ _
              (λ e'. failed-KeptIfReady saved.0 TerrainTileLookupStatus.tile_read_error refl)
              (λ e' h.
                rw (st.look_saved ensured.0 path bytes (ground (arith, e')))
                  (read-encoded qt fl fp st dataset a t bytes valid same.0 same.1 encoded)))

    after-KeptIfReady :
        (later : World × TerrainTileLookupResult) (w : World) (origin : TerrainDataOrigin)
        (o : Fetched fl)
        → is_valid_dataset_id qt dataset ≡ true
        → ((t : TerrainTile fl) → o ≡ tile_of t → (t.dataset ≡ dataset) × (t.address ≡ a))
        → ((s : TerrainTileLookupStatus) → o ≡ stopped s → is_ready s ≡ false)
        → KeptIfReady later
        → KeptIfReady (after_fetch qt fl fp st td later w dataset a origin o)
    unfolding after_fetch
    after-KeptIfReady later w origin next_provider valid same stops k = k
    after-KeptIfReady later w origin (stopped s) valid same stops k =
        failed-KeptIfReady w s (stops s refl)
    after-KeptIfReady later w origin (tile_of t) valid same stops k =
        stored-KeptIfReady w t origin (encode_tile fl qt t) valid (same t refl) refl

    fetched-KeptIfReady :
        (w : World) (allow : Bool) (l : List (TerrainProvider fl st))
        → is_valid_dataset_id qt dataset ≡ true
        → All Faithful l
        → KeptIfReady (fetch_from qt fl fp st td w dataset a allow l)
    unfolding fetch_from
    fetched-KeptIfReady w allow [] valid faithful =
        failed-KeptIfReady w TerrainTileLookupStatus.tile_unavailable refl
    fetched-KeptIfReady w allow (p ∷ rest) valid (faithful, others) =
        let may = may_fetch qt fl fp st td a allow in
        let result = p.fetch_tile w dataset a td.providers_directory may in
        let r = result.1 in
        split_if KeptIfReady
          (not (p.supports_dataset dataset) || not (p.supports_address dataset a)) _ _
          (λ e. fetched-KeptIfReady w allow rest valid others)
          (λ e.
            after-KeptIfReady _ result.0 r.origin (fetched qt fl fp st r.status r.tile) valid
              (λ t h.
                let (is_done, found) = fetched-tile qt fl fp st r.status r.tile t h in
                faithful w td.providers_directory may t is_done found)
              (λ s h. fetched-stopped qt fl fp st r.status r.tile s h)
              (fetched-KeptIfReady result.0 allow rest valid others))

    corrupt-KeptIfReady :
        (w : World) (r : TerrainTileLookupResult) → is_corrupt r.status ≡ true → KeptIfReady (w, r)
    corrupt-KeptIfReady w r h e = ground (arith, h, e)

    filled-KeptIfReady :
        (w : World) (allow : Bool) (initial : TerrainTileLookupResult)
        → is_valid_dataset_id qt dataset ≡ true
        → All Faithful td.providers
        → KeptIfReady (fill_tile qt fl fp st td w dataset a allow initial)
    unfolding fill_tile fetch_and_store_normalized_tile read_normalized_tile
    filled-KeptIfReady w allow initial valid faithful =
        let locked = read_normalized_tile qt fl fp st td w dataset a in
        let result = fetch_and_store_normalized_tile qt fl fp st td w dataset a allow in
        let kept = fetched-KeptIfReady w allow td.providers valid faithful in
        split_if KeptIfReady (is_settled locked.status) _ _
          (λ e h. read-ready qt fl fp st dataset a (look w path) h)
          (λ e.
            split_if KeptIfReady (is_ready result.1.status) _ _ (λ ready. kept)
              (λ other.
                split_if KeptIfReady (is_corrupt locked.status) _ _
                  (corrupt-KeptIfReady result.0 locked)
                  (λ whole.
                    split_if KeptIfReady (is_corrupt initial.status) _ _
                      (corrupt-KeptIfReady result.0 initial) (λ missing. kept))))

    locked-KeptIfReady :
        (before_lock : World → World) (w : World) (allow : Bool) (initial : TerrainTileLookupResult)
        → is_valid_dataset_id qt dataset ≡ true
        → All Faithful td.providers
        → KeptIfReady (locked_fill qt fl fp st td before_lock w dataset a allow initial)
    unfolding locked_fill read_normalized_tile
    locked-KeptIfReady before_lock w allow initial valid faithful =
        let ensured = ensure_directory qt fl fp st w (directory_of path) in
        let locked = try_lock (before_lock ensured.0) (lock_file path) in
        let filled = fill_tile qt fl fp st td locked.0 dataset a allow initial in
        split_if KeptIfReady (not ensured.1) _ _
          (λ e. failed-KeptIfReady ensured.0 TerrainTileLookupStatus.tile_read_error refl)
          (λ e.
            split_if KeptIfReady (not locked.1) _ _
              (λ e2. failed-KeptIfReady locked.0 TerrainTileLookupStatus.provider_error refl)
              (λ e2 h.
                rw (st.look_unlocked filled.0 path)
                  (filled-KeptIfReady locked.0 allow initial valid faithful h)))

    settled-cached :
        (w : World) (bytes : Bytes) (r : TerrainTileLookupResult)
        (x : World × TerrainTileLookupResult)
        → r ≡ cached bytes
        → (if is_settled r.status then (w, r) else x) ≡ (w, cached bytes)
    unfolding is_settled
    settled-cached w bytes r x e = rw e refl

    -- A lookup that is ready passed the guards.
    pub record Passed : Type 0 where
      enabled : td.enabled ≡ true
      initialized : td.initialized ≡ true
      valid_dataset : is_valid_dataset_id qt dataset ≡ true
      valid_address : is_valid_address a ≡ true

    pub ready-Passed :
        (before_lock : World → World) (w : World) (allow : Bool)
        → (terrain_tile qt fl fp st td before_lock w dataset a allow).1.status
          ≡ TerrainTileLookupStatus.ready
        → Passed
    unfolding terrain_tile
    ready-Passed before_lock w allow h = record {
      enabled = ground (arith, h);
      initialized = ground (arith, h);
      valid_dataset = ground (arith, h);
      valid_address = ground (arith, h);
    }

    passed-looked :
        (before_lock : World → World) (w : World) (allow : Bool)
        → Passed
        → let initial = read_normalized_tile qt fl fp st td w dataset a in
          terrain_tile qt fl fp st td before_lock w dataset a allow ≡ (
            if is_settled initial.status
            then (w, initial)
            else locked_fill qt fl fp st td before_lock w dataset a allow initial)
    unfolding terrain_tile
    passed-looked before_lock w allow passed =
        pass passed.enabled _ _
        ∙ pass passed.initialized _ _
        ∙ pass passed.valid_dataset _ _
        ∙ pass passed.valid_address _ _

    pub looked-KeptIfReady :
        (before_lock : World → World) (w : World) (allow : Bool)
        → Passed
        → All Faithful td.providers
        → KeptIfReady (terrain_tile qt fl fp st td before_lock w dataset a allow)
    unfolding read_normalized_tile
    looked-KeptIfReady before_lock w allow passed faithful =
        let initial = read_normalized_tile qt fl fp st td w dataset a in
        subst KeptIfReady (sym (passed-looked before_lock w allow passed)) (
          split_if KeptIfReady (is_settled initial.status) _ _
            (λ e h. read-ready qt fl fp st dataset a (look w path) h)
            (λ e. locked-KeptIfReady before_lock w allow initial passed.valid_dataset faithful))

    kept-looked :
        (before_lock : World → World) (w : World) (allow : Bool) (bytes : Bytes)
        → Passed
        → Kept w bytes
        → terrain_tile qt fl fp st td before_lock w dataset a allow ≡ (w, cached bytes)
    kept-looked before_lock w allow bytes passed kept =
        passed-looked before_lock w allow passed
        ∙ settled-cached w bytes (read_normalized_tile qt fl fp st td w dataset a) _ kept

    -- If the providers return the tiles that they are asked for: where a lookup of a tile is ready, the
    -- cache then holds what it returned, so that any later lookup returns the same content from the
    -- cache, without the network, and changes nothing.
    pub terrain_tile-again :
        (before_lock later_lock : World → World) (w : World) (allow later_allow : Bool)
        → All Faithful td.providers
        → let (after, r) = terrain_tile qt fl fp st td before_lock w dataset a allow in
          r.status ≡ TerrainTileLookupStatus.ready
          → terrain_tile qt fl fp st td later_lock after dataset a later_allow
            ≡ (after, cached r.content)
    terrain_tile-again before_lock later_lock w allow later_allow faithful h =
        let looked = terrain_tile qt fl fp st td before_lock w dataset a allow in
        let passed = ready-Passed before_lock w allow h in
        kept-looked later_lock looked.0 later_allow looked.1.content passed
          (looked-KeptIfReady before_lock w allow passed faithful h)
