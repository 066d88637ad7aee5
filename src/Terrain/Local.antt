-- ===== src/Terrain/Local.antt =====
-- lib/terrain_data.cpp: the classification of points beside the acquisition of their sources.
use aowis_server_map.Prelude.{
  ℕ, zero, suc, ◌≡◌, refl, Bool, true, false, not, ◌||◌, ◌&&◌, if◌then◌else◌, Option, none, some,
  Text, arith, ◌⊎◌, inl, inr, List, [], ◌∷◌, All, ap, subst, Bool-cases,
}
use aowis_server_map.Prelude.Searches.{Any, Any-iff, and_iff}
use aowis_server_map.Prelude.Int.{pos}
use aowis_server_map.Platform.Strings.{Strings}
use aowis_server_map.Platform.Floats.{Floats}
use aowis_server_map.Platform.Doubles.{Doubles}
use aowis_server_map.Platform.Storage.{Storage}
use aowis_server_map.Platform.Sampling.{Sampling}
use aowis_server_map.Tile.Defs.{
  TerrainTileAddress, is_valid_address, is_valid_dataset_id, maximum_zoom,
}
use aowis_server_map.Terrain.State.{TerrainProviderFetchResult, TerrainProvider, TerrainData}
use aowis_server_map.Terrain.Position.{is_valid_wgs84_coordinate, terrain_grid_position}
use aowis_server_map.Terrain.Acquire.{
  ready_result, supports, first_provider, acquire_first, permits, is_cached, acquire_tile_sources,
  is_remote_fetch_enabled, is_available_locally, tile_needs_remote_acquisition,
  elevation_needs_from, elevation_needs_remote_acquisition, acquire_elevation_from,
  acquire_elevation_sources,
}

-- The tests of the classification beside those of the acquisition.
tests_agree {ℓ} :
    {A : Type ℓ} (remote initialized permitted cached available is_valid : Bool) (x y : A)
    → (if not remote
        then false
        else if is_valid && not permitted
        then false
        else if is_valid && cached
        then false
        else not available)
      ≡ false
    → ((if not initialized || not remote || not permitted then x else if cached then x else y) ≡ x)
      ⊎ ((available ≡ true)
          × ((if not initialized || not remote || not permitted then x else if cached then x else y)
              ≡ y))
tests_agree remote initialized permitted cached true is_valid x y h =
    elim (Bool-cases (not initialized || not remote || not permitted)) [
      | inl e ↦ rw e (inl refl)
      | inr e ↦
          rw e
            (elim (Bool-cases cached) [ inl f ↦ rw f (inl refl) | inr f ↦ rw f (inr (refl, refl)) ])
    ]
tests_agree remote initialized permitted cached false is_valid x y h = inl (ground (arith, h))

split_option {ℓ} :
    {A B C : Type 0} (P : B → C → Type ℓ) (o : Option A) (x : B) (y : A → B) (x' : C) (y' : A → C)
    → P x x'
    → ((a : A) → P (y a) (y' a))
    → P (elim o [ none ↦ x | some a ↦ y a ]) (elim o [ none ↦ x' | some a ↦ y' a ])
split_option P none x y x' y' f g = f
split_option P (some a) x y x' y' f g = g a

module _ (qt : Strings) (fl : Floats) (fp : Doubles) (st : Storage) (td : TerrainData fl st fp)
    (w : st.World) (dataset : Text) where
  -- A provider that finds the sources of the tile on the disk changes no file when it acquires them.
  abbrev pub Quiet : TerrainTileAddress → TerrainProvider fl st → Type 0
  Quiet a p =
      p.available_locally w dataset a td.providers_directory ≡ true
      → (p.acquire_tile_sources w dataset a td.providers_directory true).0 ≡ w

  -- The provider supports the tile and finds its sources on the disk.
  abbrev pub Has : TerrainTileAddress → TerrainProvider fl st → Type 0
  Has a p =
      ((p.supports_dataset dataset ≡ true) × (p.supports_address dataset a ≡ true))
      × (p.available_locally w dataset a td.providers_directory ≡ true)

  -- A provider that supports the tile has its sources, and the first that supports it has not.
  pub record Elsewhere (a : TerrainTileAddress) : Type 0 where
    pub first : TerrainProvider fl st
    pub is_first : first_provider qt fl fp st td.providers dataset a ≡ some first
    pub lacks : first.available_locally w dataset a td.providers_directory ≡ false
    pub another : Any (Has a) td.providers

  available-Any :
      (a : TerrainTileAddress)
      → is_available_locally qt fl fp st td td.providers w dataset a ≡ true
      → Any (Has a) td.providers
  unfolding is_available_locally supports
  available-Any a h =
      (Any-iff
          (λ p.
            supports qt fl fp st p dataset a
            && p.available_locally w dataset a td.providers_directory)
          (λ l. is_available_locally qt fl fp st td l w dataset a) (Has a) refl (λ p l. refl)
          (λ p. and_iff _ _ (and_iff _ _ (λ h. h, λ h. h) (λ h. h, λ h. h)) (λ h. h, λ h. h))
          td.providers).0
        h

  first-All :
      (P : TerrainProvider fl st → Type 0) (a : TerrainTileAddress)
      (l : List (TerrainProvider fl st)) (q : TerrainProvider fl st)
      → All P l
      → first_provider qt fl fp st l dataset a ≡ some q
      → P q
  unfolding first_provider
  first-All P a [] q ps h = ground (arith, h)
  first-All P a (p ∷ l) q ps h = elim (Bool-cases (supports qt fl fp st p dataset a)) [
    | inl e ↦ subst P (ground (arith, rw e at h)) ps.0
    | inr e ↦ first-All P a l q ps.1 (rw e at h)
  ]

  -- The acquisition by the first provider, if some provider has the sources.
  first_local :
      (a : TerrainTileAddress) (o : Option (TerrainProvider fl st))
      → first_provider qt fl fp st td.providers dataset a ≡ o
      → All (Quiet a) td.providers
      → Any (Has a) td.providers
      → ((acquire_first qt fl fp st td o w dataset a).0 ≡ w) ⊎ Elsewhere a
  unfolding acquire_first
  first_local a none e quiet has = inl refl
  first_local a (some q) e quiet has =
      elim (Bool-cases (q.available_locally w dataset a td.providers_directory)) [
        | inl f ↦ inl (first-All (Quiet a) a td.providers q quiet e f)
        | inr f ↦ inr (record { first = q; is_first = e; lacks = f; another = has })
      ]

  tile_local :
      (a : TerrainTileAddress)
      → td.enabled ≡ true
      → All (Quiet a) td.providers
      → tile_needs_remote_acquisition qt fl fp st td w dataset a ≡ false
      → ((acquire_tile_sources qt fl fp st td w dataset a).0 ≡ w) ⊎ Elsewhere a
  unfolding tile_needs_remote_acquisition acquire_tile_sources is_remote_fetch_enabled
  tile_local a enabled quiet needs =
      elim (tests_agree td.remote_fetch_enabled td.initialized (permits qt fl fp st td a)
        (is_cached qt fl fp st td w dataset a)
        (is_available_locally qt fl fp st td td.providers w dataset a)
        (is_valid_dataset_id qt dataset && is_valid_address a) (w, ready_result qt fl fp st)
        (acquire_first qt fl fp st td (first_provider qt fl fp st td.providers dataset a) w dataset
          a)
        (rw enabled at needs)) [
          | inl nothing ↦ inl (ap (λ (x : st.World × TerrainProviderFetchResult fl). x.0) nothing)
          | inr (available, first) ↦ rw first (
              first_local a (first_provider qt fl fp st td.providers dataset a) refl quiet
                (available-Any a available))
        ]

  module _ (ar : Sampling fl) (latitude longitude : fl.Double) where
    -- What the classification of a point says of its acquisition.
    abbrev Agree : Bool → st.World × TerrainProviderFetchResult fl → Type 0
    Agree needs acquired =
        needs ≡ false
        → (acquired.0 ≡ w)
          ⊎ ((a : TerrainTileAddress) × (acquired ≡ acquire_tile_sources qt fl fp st td w dataset a)
              × Elsewhere a)

    address-Agree :
        (a : TerrainTileAddress)
        → td.enabled ≡ true
        → All (Quiet a) td.providers
        → Agree
            (tile_needs_remote_acquisition qt fl fp st td w dataset a)
            (acquire_tile_sources qt fl fp st td w dataset a)
    address-Agree a enabled quiet h = elim (tile_local a enabled quiet h) [
      | inl nothing ↦ inl nothing
      | inr elsewhere ↦ inr (a, refl, elsewhere)
    ]

    loop-Agree :
        (n : ℕ)
        → td.enabled ≡ true
        → ((a : TerrainTileAddress) → All (Quiet a) td.providers)
        → Agree
            (elevation_needs_from qt fl fp st td ar n w dataset latitude longitude)
            (acquire_elevation_from qt fl fp st td ar n w dataset latitude longitude)
    unfolding elevation_needs_from acquire_elevation_from
    loop-Agree zero enabled quiet = λ h. inl refl
    loop-Agree (suc zoom) enabled quiet =
        split_option Agree (terrain_grid_position fl ar latitude longitude (pos zoom)) _ _ _ _
          (loop-Agree zoom enabled quiet)
          (λ p.
            split_option Agree (first_provider qt fl fp st td.providers dataset p.address) _ _ _ _
              (loop-Agree zoom enabled quiet)
              (λ q. address-Agree p.address enabled (quiet p.address)))

    points-Agree :
        (on remote initialized is_valid : Bool) (needs : Bool)
        (acquired : st.World × TerrainProviderFetchResult fl)
        → on ≡ true
        → Agree needs acquired
        → Agree (if not (on && remote) then false else if not is_valid then true else needs) (
            if not initialized || not remote || not is_valid
            then (w, ready_result qt fl fp st)
            else acquired)
    points-Agree false remote initialized is_valid needs acquired enabled agree h =
        absurd (ground (arith, enabled))
    points-Agree true false true is_valid needs acquired enabled agree h = inl refl
    points-Agree true false false is_valid needs acquired enabled agree h = inl refl
    points-Agree true true false true needs acquired enabled agree h = inl refl
    points-Agree true true true true needs acquired enabled agree h = agree h
    points-Agree true true initialized false needs acquired enabled agree h =
        absurd (ground (arith, h))

    -- Where the terrain service is enabled, each provider that finds the sources of a tile on the disk
    -- changes no file when it acquires them, and a point is classified as one that needs no download:
    -- the acquisition of its sources changes no file, unless it is that of a tile whose sources one
    -- provider that supports it finds on the disk, but the first that supports it does not.
    pub elevation_local :
        td.enabled ≡ true
        → ((a : TerrainTileAddress) → All (Quiet a) td.providers)
        → elevation_needs_remote_acquisition qt fl fp st td ar w dataset latitude longitude ≡ false
        → ((acquire_elevation_sources qt fl fp st td ar w dataset latitude longitude).0 ≡ w)
          ⊎ ((a : TerrainTileAddress) × (acquire_elevation_sources qt fl fp st td ar w dataset
                  latitude longitude
                ≡ acquire_tile_sources qt fl fp st td w dataset a)
              × Elsewhere a)
    unfolding elevation_needs_remote_acquisition acquire_elevation_sources is_remote_fetch_enabled
    elevation_local enabled quiet =
        points-Agree td.enabled td.remote_fetch_enabled td.initialized
          (is_valid_wgs84_coordinate fl ar latitude longitude) _ _ enabled
          (loop-Agree (suc maximum_zoom) enabled quiet)
