-- ===== src/Coverage/Areas.antt =====
-- lib/download_coverage.cpp: which areas a profile permits at a zoom.
use aowis_server_map.Prelude.{
  ◌≡◌, ◌↔◌, refl, subst, true, not, ◌||◌, ◌&&◌, Option, none, some, List, Text, codes, eqb, arith,
  ◌⊎◌,
}
use aowis_server_map.Prelude.Int.{ℤ, ltb_ℤ, ◌≤ℤ◌}
use aowis_server_map.Platform.Doubles.{Doubles}
use aowis_server_map.Coverage.Profile.{Tier}
use aowis_server_map.Coverage.Geometry.{Bounds, Region, intersects, intersects_polygon}
use aowis_server_map.Coverage.Permits.{
  value_of, Coverage, any_rectangle, any_polygon, region_permits, names_permit, tiers_permit,
  profile_permits,
}
use aowis_server_map.Prelude.Searches.{Any, or_iff, and_iff, Any-iff, text_iff}

module _ (fp : Doubles) (c : Coverage fp) where
  -- The rectangles and polygons of a region that meet an area.
  abbrev pub Meets : Region fp → Bounds fp → Type 0
  Meets region area =
      Any (λ r. intersects fp r area ≡ true) region.rectangles
      ⊎ Any (λ p. intersects_polygon fp p area ≡ true) region.polygons

  -- A name that permits the area: the world, or a known region that meets it.
  abbrev pub NamePermits : Bounds fp → Text → Type 0
  NamePermits area name =
      (name ≡ codes "world")
      ⊎ ((region : Region fp) × (value_of name c.regions ≡ some region) × Meets region area)

  abbrev pub TierPermits : ℤ → Bounds fp → Tier → Type 0
  TierPermits zoom area tier =
      (tier.minimum_zoom ≤ℤ zoom)
      × (zoom ≤ℤ tier.maximum_zoom)
      × Any (NamePermits area) tier.regions

  Meets-iff :
      (area : Bounds fp) (region : Region fp)
      → (region_permits fp (some region) area ≡ true) ↔ Meets region area
  unfolding region_permits any_rectangle any_polygon
  Meets-iff area region =
      or_iff (any_rectangle fp region.rectangles area) (any_polygon fp region.polygons area)
        (Any-iff (λ r. intersects fp r area) (λ l. any_rectangle fp l area)
          (λ r. intersects fp r area ≡ true) refl (λ x l. refl) (λ x. (λ h. h, λ h. h))
          region.rectangles)
        (Any-iff (λ p. intersects_polygon fp p area) (λ l. any_polygon fp l area)
          (λ p. intersects_polygon fp p area ≡ true) refl (λ x l. refl) (λ x. (λ h. h, λ h. h))
          region.polygons)

  known_iff :
      (area : Bounds fp) (o : Option (Region fp))
      → (region_permits fp o area ≡ true)
        ↔ ((region : Region fp) × (o ≡ some region) × Meets region area)
  known_iff area none = (
    λ h. absurd (unfold region_permits in ground (arith, h)),
    λ (region, e, m). absurd (ground (arith, e)),
  )
  known_iff area (some region) = (
    λ h. (region, refl, (Meets-iff area region).0 h),
    λ (region', e, m).
        let same : region' ≡ region = ground (arith, e) in
        (Meets-iff area region).1 (subst (λ r. Meets r area) same m),
  )

  names_iff :
      (area : Bounds fp) (names : List Text)
      → (names_permit fp c names area ≡ true) ↔ Any (NamePermits area) names
  unfolding names_permit
  names_iff area =
      Any-iff (λ name. eqb name (codes "world") || region_permits fp (value_of name c.regions) area)
        (λ l. names_permit fp c l area) (NamePermits area) refl (λ name l. ground arith)
        (λ name.
          or_iff (eqb name (codes "world")) (region_permits fp (value_of name c.regions) area)
            (text_iff name (codes "world")) (known_iff area (value_of name c.regions)))

  in_zooms :
      (zoom low high : ℤ)
      → (not (ltb_ℤ zoom low || ltb_ℤ high zoom) ≡ true) ↔ ((low ≤ℤ zoom) × (zoom ≤ℤ high))
  in_zooms zoom low high =
      (λ h. (ground (arith, h), ground (arith, h)), λ (a, b). ground (arith, a, b))

  tier_iff :
      (zoom : ℤ) (area : Bounds fp) (tier : Tier)
      → (not (ltb_ℤ zoom tier.minimum_zoom || ltb_ℤ tier.maximum_zoom zoom)
            && names_permit fp c tier.regions area
          ≡ true)
        ↔ TierPermits zoom area tier
  tier_iff zoom area tier =
      let zooms = in_zooms zoom tier.minimum_zoom tier.maximum_zoom in
      let both =
        and_iff (not (ltb_ℤ zoom tier.minimum_zoom || ltb_ℤ tier.maximum_zoom zoom))
          (names_permit fp c tier.regions area) zooms (names_iff area tier.regions) in
      (λ h. let r = both.0 h in (r.0.0, r.0.1, r.1), λ (low, high, n). both.1 ((low, high), n))

  tiers_iff :
      (zoom : ℤ) (area : Bounds fp) (tiers : List Tier)
      → (tiers_permit fp c tiers zoom area ≡ true) ↔ Any (TierPermits zoom area) tiers
  unfolding tiers_permit
  tiers_iff zoom area =
      Any-iff
        (λ tier.
          not (ltb_ℤ zoom tier.minimum_zoom || ltb_ℤ tier.maximum_zoom zoom)
          && names_permit fp c tier.regions area)
        (λ l. tiers_permit fp c l zoom area) (TierPermits zoom area) refl (λ x l. refl)
        (λ tier. tier_iff zoom area tier)

  -- A profile permits an area at a zoom from 0 to 30: no profile does so always, a known one by its tiers.
  abbrev pub Permits : Text → ℤ → Bounds fp → Type 0
  Permits profile zoom area =
      (tiers : List Tier) × (value_of profile c.profiles ≡ some tiers)
      × Any (TierPermits zoom area) tiers

  pub profile_iff :
      (zoom : ℤ) (area : Bounds fp) (o : Option (List Tier))
      → (profile_permits fp c o zoom area ≡ true)
        ↔ ((tiers : List Tier) × (o ≡ some tiers) × Any (TierPermits zoom area) tiers)
  profile_iff zoom area none = (
    λ h. absurd (unfold profile_permits in ground (arith, h)),
    λ (tiers, e, m). absurd (ground (arith, e)),
  )
  profile_iff zoom area (some tiers) = (
    λ h. (tiers, refl, (tiers_iff zoom area tiers).0 (unfold profile_permits in h)),
    λ (tiers', e, m).
        let same : tiers' ≡ tiers = ground (arith, e) in
        unfold profile_permits in
        (tiers_iff zoom area tiers).1 (subst (λ l. Any (TierPermits zoom area) l) same m),
  )
