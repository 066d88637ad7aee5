-- ===== src/Coverage/Permits.antt =====
-- lib/download_coverage.cpp: `addRectangle`, `permitsArea` and `permitsTile`.
use aowis_server_map.Prelude.{
  ℕ, suc, ◌+◌, ◌-◌, ◌%◌, ◌^◌, Bool, true, false, not, ◌||◌, ◌&&◌, Option, none, some, List, [], ◌∷◌,
  ◌++◌, Text, codes, eqb, is_empty, if◌then◌else◌,
}
use aowis_server_map.Prelude.Int.{ℤ, pos, negsuc, pos_part, ltb_ℤ, leb_ℤ}
use aowis_server_map.Platform.Strings.{Strings}
use aowis_server_map.Platform.Doubles.{Doubles}
use aowis_server_map.Coverage.Profile.{Tier, DownloadCoverage}
use aowis_server_map.Coverage.Geometry.{
  Bounds, Polygon, Region, valid_bounds, xyz_bounds, intersects, intersects_polygon,
}

-- `value` of a hash; a missing key is `none`.
unfoldable pub value_of {ℓ} : {V : Type ℓ} → Text → List (Text × V) → Option V
value_of name [] = none
value_of name ((n, v) ∷ rest) = if eqb n name then some v else value_of name rest

-- `int((qint64(x) % count + count) % count)`
unfoldable pub wrapped_column : ℤ → ℕ → ℕ
wrapped_column (pos n) count = (n % count + count) % count
wrapped_column (negsuc n) count = (count - suc n % count) % count

module _ (fp : Doubles) where
  abbrev pub Coverage : Type 0
  Coverage = DownloadCoverage (Region fp)

  -- `regions[name].rectangles.append(b)`
  unfoldable pub append_rectangle :
      Text → Bounds fp → List (Text × Region fp) → List (Text × Region fp)
  append_rectangle name b [] = (name, record { rectangles = b ∷ []; polygons = [] }) ∷ []
  append_rectangle name b ((n, region) ∷ rest) =
      if eqb n name
      then (n, record region { rectangles = region.rectangles ++ (b ∷ []) }) ∷ rest
      else (n, region) ∷ append_rectangle name b rest

  unfoldable pub add_rectangle : Strings → Coverage → Text → Bounds fp → Coverage × Bool
  unfolding append_rectangle valid_bounds
  add_rectangle strings c name b =
      if is_empty (strings.trimmed name) || eqb name (codes "world") || not (valid_bounds fp b)
      then (c, false)
      else (record c { regions = append_rectangle name b c.regions }, true)

  unfoldable pub any_rectangle : List (Bounds fp) → Bounds fp → Bool
  unfolding intersects
  any_rectangle [] area = false
  any_rectangle (rectangle ∷ rest) area = intersects fp rectangle area || any_rectangle rest area

  unfoldable pub any_polygon : List (Polygon fp) → Bounds fp → Bool
  unfolding intersects_polygon
  any_polygon [] area = false
  any_polygon (polygon ∷ rest) area = intersects_polygon fp polygon area || any_polygon rest area

  -- A region that is missing is passed over.
  unfoldable pub region_permits : Option (Region fp) → Bounds fp → Bool
  unfolding any_rectangle any_polygon
  region_permits none area = false
  region_permits (some region) area =
      any_rectangle region.rectangles area || any_polygon region.polygons area

  unfoldable pub names_permit : Coverage → List Text → Bounds fp → Bool
  unfolding region_permits value_of
  names_permit c [] area = false
  names_permit c (name ∷ rest) area =
      if eqb name (codes "world")
      then true
      else region_permits (value_of name c.regions) area || names_permit c rest area

  unfoldable pub tiers_permit : Coverage → List Tier → ℤ → Bounds fp → Bool
  unfolding names_permit
  tiers_permit c [] zoom area = false
  tiers_permit c (tier ∷ rest) zoom area =
      (not (ltb_ℤ zoom tier.minimum_zoom || ltb_ℤ tier.maximum_zoom zoom)
        && names_permit c tier.regions area)
      || tiers_permit c rest zoom area

  -- The tiers of a known profile.
  unfoldable pub profile_permits : Coverage → Option (List Tier) → ℤ → Bounds fp → Bool
  unfolding tiers_permit
  profile_permits c none zoom area = false
  profile_permits c (some tiers) zoom area = tiers_permit c tiers zoom area

  unfoldable pub permits_area : Coverage → Text → ℤ → Bounds fp → Bool
  unfolding profile_permits value_of
  permits_area c profile zoom area =
      if is_empty profile
      then true
      else if ltb_ℤ zoom (pos 0) || ltb_ℤ (pos 30) zoom
      then false
      else profile_permits c (value_of profile c.profiles) zoom area

  abbrev pub is_known : Option (List Tier) → Bool
  is_known none = false
  is_known (some tiers) = true

  unfoldable pub permits_tile : Coverage → Text → ℤ → ℤ → ℤ → Bool
  unfolding permits_area xyz_bounds wrapped_column value_of
  permits_tile c profile zoom x y =
      let count = 2 ^ pos_part zoom in
      if is_empty profile
      then true
      else if ltb_ℤ zoom (pos 0)
          || ltb_ℤ (pos 30) zoom
          || not (is_known (value_of profile c.profiles))
      then false
      else if ltb_ℤ y (pos 0) || leb_ℤ (pos count) y
      then false
      else permits_area c profile zoom
          (xyz_bounds fp (pos_part zoom) (wrapped_column x count) (pos_part y))
