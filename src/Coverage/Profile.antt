-- ===== src/Coverage/Profile.antt =====
-- lib/download_coverage.cpp: `hasRegion`, `addProfile` and `hasProfile`. A hash is an association list.
use aowis_server_map.Prelude.{
  ℕ, zero, suc, ◌+◌, ◌-◌, Bool, true, false, not, ◌||◌, ◌&&◌, Option, none, some, List, [], ◌∷◌,
  Text, codes, eqb, is_empty, if◌then◌else◌, ◌==◌,
}
use aowis_server_map.Prelude.Int.{ℤ, pos, pos_part, ltb_ℤ}

pub record Tier : Type 0 where
  pub minimum_zoom : ℤ
  pub maximum_zoom : ℤ
  pub regions : List Text

-- A `Profile` is its tiers.
pub record DownloadCoverage (Region : Type 0) : Type 0 where
  pub regions : List (Text × Region)
  pub profiles : List (Text × List Tier)

-- The messages of `addProfile`.
pub data ProfileError : Type 0 where
  no_zoom_tiers invalid_zoom_range unknown_region overlapping_tiers missing_zoom : ProfileError

-- The array `seen`, as a function of its index, or the message.
pub data Checked : Type 0 where
  seen : (ℕ → Bool) → Checked
  failed : ProfileError → Checked

abbrev pub contains_name {ℓ} : {V : Type ℓ} → Text → List (Text × V) → Bool
contains_name name [] = false
contains_name name ((n, v) ∷ rest) = eqb n name || contains_name name rest

abbrev pub insert_profile : Text → List Tier → List (Text × List Tier) → List (Text × List Tier)
insert_profile name tiers [] = (name, tiers) ∷ []
insert_profile name tiers ((n, t) ∷ rest) =
    if eqb n name then (n, tiers) ∷ rest else (n, t) ∷ insert_profile name tiers rest

-- The loop over the zooms of a tier, from `z` on.
unfoldable pub mark_range : ℕ → ℕ → (ℕ → Bool) → Checked
mark_range zero z s = seen s
mark_range (suc left) z s =
    let rest = mark_range left (z + 1) (λ k. if k == z then true else s k) in
    if s z then failed overlapping_tiers else rest

-- The loop that looks for a zoom that is not seen, over the indices below the bound.
unfoldable pub all_seen : ℕ → (ℕ → Bool) → Bool
all_seen zero s = true
all_seen (suc n) s = all_seen n s && s n

abbrev pub bad_range : Tier → Bool
bad_range t =
    ltb_ℤ t.minimum_zoom (pos 0)
    || ltb_ℤ (pos 30) t.maximum_zoom
    || ltb_ℤ t.maximum_zoom t.minimum_zoom
    || is_empty t.regions

module _ {Region : Type 0} where
  unfoldable pub has_region : DownloadCoverage Region → Text → Bool
  has_region c name = eqb name (codes "world") || contains_name name c.regions

  unfoldable pub has_regions : DownloadCoverage Region → List Text → Bool
  unfolding has_region
  has_regions c [] = true
  has_regions c (name ∷ rest) = has_region c name && has_regions c rest

  -- The tests of one tier, and its zooms.
  unfoldable pub check_tier : DownloadCoverage Region → Tier → (ℕ → Bool) → Checked
  unfolding has_regions mark_range
  check_tier c t s =
      if bad_range t
      then failed invalid_zoom_range
      else if not (has_regions c t.regions)
      then failed unknown_region
      else mark_range (pos_part t.maximum_zoom + 1 - pos_part t.minimum_zoom)
          (pos_part t.minimum_zoom) s

  -- The loop over the tiers.
  unfoldable pub check_tiers : DownloadCoverage Region → List Tier → Checked → Checked
  unfolding check_tier
  check_tiers c tiers (failed e) = failed e
  check_tiers c [] (seen s) = seen s
  check_tiers c (t ∷ rest) (seen s) = check_tiers c rest (check_tier c t s)

  -- The end: every zoom from 0 to 30 is seen.
  unfoldable pub insert_checked :
      DownloadCoverage Region
      → Text
      → List Tier
      → Checked
      → DownloadCoverage Region × Option ProfileError
  unfolding all_seen
  insert_checked c name tiers (failed e) = (c, some e)
  insert_checked c name tiers (seen s) =
      if all_seen 31 s
      then (record c { profiles = insert_profile name tiers c.profiles }, none)
      else (c, some missing_zoom)

  -- `none` is success.
  unfoldable pub add_profile :
      DownloadCoverage Region → Text → List Tier → DownloadCoverage Region × Option ProfileError
  unfolding check_tiers insert_checked
  add_profile c name tiers =
      if is_empty name || is_empty tiers
      then (c, some no_zoom_tiers)
      else insert_checked c name tiers (check_tiers c tiers (seen (λ k. false)))

  unfoldable pub has_profile : DownloadCoverage Region → Text → Bool
  has_profile c name = is_empty name || contains_name name c.profiles
