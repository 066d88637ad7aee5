-- ===== src/Tile/Valid.antt =====
-- lib/terrain_tile.cpp: the parts of a valid tile.
use aowis_server_map.Prelude.{
  ℕ, zero, suc, ◌+◌, ◌^◌, ◌≤◌, ◌<◌, ◌≡◌, refl, ◌∙◌, true, false, none, some, arith, [], ◌∷◌, length,
  Bytes, Text, drop, take, map, All, take-all, &&-true,
}
use aowis_server_map.Prelude.Int.{ℤ, pos, negsuc}
use native.Mathlib.Nat.{pow-le-pow_right}
use aowis_server_map.Platform.Strings.{Strings, is_id_byte, IsIdByte}
use aowis_server_map.Platform.Floats.{Floats}
use aowis_server_map.Elevation.{TerrainVerticalDatum}
use aowis_server_map.Tile.Defs.{
  TerrainTileAddress, TerrainTile, is_valid_address, is_valid_dataset_id, tile_error, scan_samples,
  all_bytes,
}
use aowis_server_map.Tile.Codec.{vertical_datum_code, low_of, scale_of}
use aowis_server_map.Tile.Parser.{vertical_datum_from_code}
use aowis_server_map.Tile.Samples.{restored}

pub All-all_bytes : (bytes : Bytes) → all_bytes is_id_byte bytes ≡ true → All IsIdByte bytes
All-all_bytes [] h = tt
All-all_bytes (c ∷ bytes) h = let (x, y) = &&-true (is_id_byte c) _ h in (x, All-all_bytes bytes y)

pub datum_from_code-code :
    (datum : TerrainVerticalDatum)
    → vertical_datum_from_code (vertical_datum_code datum) ≡ some datum
unfolding vertical_datum_from_code vertical_datum_code
datum_from_code-code TerrainVerticalDatum.unknown = refl
datum_from_code-code _ = refl

-- The parts of a valid dataset identifier that the codec relies on.
pub dataset_bytes :
    (qt : Strings) (dataset : Text)
    → is_valid_dataset_id qt dataset ≡ true
    → (length (qt.to_utf8 dataset) ≤ 128) × (qt.from_utf8 (qt.to_utf8 dataset) ≡ dataset)
unfolding is_valid_dataset_id
dataset_bytes qt dataset h =
    let ids : all_bytes is_id_byte (qt.to_utf8 dataset) ≡ true = ground (arith, h) in
    let all = All-all_bytes (qt.to_utf8 dataset) ids in
    (ground (arith, h), qt.from_utf8_id (qt.to_utf8 dataset) all ∙ qt.to_utf8_id dataset all)

pub address_words :
    (a : TerrainTileAddress)
    → is_valid_address a ≡ true
    → (zoom : ℕ) × (a.zoom ≡ pos zoom) × (zoom ≤ 30) × (a.x < 2 ^ 32) × (a.y < 2 ^ 32)
unfolding is_valid_address
address_words a h = go a.zoom refl
  where
    go :
        (z : ℤ)
        → a.zoom ≡ z
        → (zoom : ℕ) × (a.zoom ≡ pos zoom) × (zoom ≤ 30) × (a.x < 2 ^ 32) × (a.y < 2 ^ 32)
    go (negsuc n) e = absurd (ground (arith, e, h))
    go (pos zoom) e =
        let (small, x, y) = inside zoom e in
        let grow : 2 ^ zoom ≤ 2 ^ 30 = pow-le-pow_right (omega arith) small in
        (zoom, e, small, omega (arith, x, grow), omega (arith, y, grow))
      where
        inside : (zoom : ℕ) → a.zoom ≡ pos zoom → (zoom ≤ 30) × (a.x < 2 ^ zoom) × (a.y < 2 ^ zoom)
        inside zoom e = ground (arith, e, h)

pub drop-add : (m k : ℕ) (xs : Bytes) → drop (m + k) xs ≡ drop k (drop m xs)
drop-add zero k xs = let e : 0 + k ≡ k = omega arith in rw e
drop-add (suc m) zero [] = let e : suc m + 0 ≡ suc m = omega arith in rw e
drop-add (suc m) (suc k) [] = let e : suc m + suc k ≡ suc (m + suc k) = omega arith in rw e
drop-add (suc m) k (x ∷ xs) =
    let e : suc m + k ≡ suc (m + k) = omega arith in rw e (drop-add m k xs)

pub take-exact : (m : ℕ) (xs : Bytes) → length xs ≡ m → take m xs ≡ xs
take-exact m xs e = rw (← e) (take-all xs)

module _ (fl : Floats) (qt : Strings) where
  open fl use {
    Double, Float, is_finite, lt, of_int, widen, narrow, float_lt, float_zero, float_max, of_bits,
    narrow_finite, narrow_nonneg,
  }

  -- The tests of `isValidTerrainTile`.
  pub record Valid (t : TerrainTile fl) : Type 0 where
    pub address : is_valid_address t.address ≡ true
    pub dataset : is_valid_dataset_id qt t.dataset ≡ true
    pub finite : is_finite t.nominal_resolution_m ≡ true
    pub nonneg : lt t.nominal_resolution_m (of_int (pos 0)) ≡ false
    pub bounded : lt float_max t.nominal_resolution_m ≡ false
    pub samples : length t.elevations_m ≡ 4225
    pub scanned : scan_samples fl false t.elevations_m ≡ none

  pub tile_error-Valid : (t : TerrainTile fl) → tile_error fl qt t ≡ none → Valid t
  unfolding tile_error
  tile_error-Valid t h = ground (arith, h)

  -- A tile after a trip through the file: the resolution as a `float`, and each sample as the
  -- parser restores it from its code.
  abbrev pub quantised : TerrainTile fl → TerrainTile fl
  quantised t = record t {
    nominal_resolution_m = widen (narrow t.nominal_resolution_m);
    elevations_m = map (restored fl (low_of fl t) (scale_of fl t)) t.elevations_m;
  }
