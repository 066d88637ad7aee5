-- ===== src/Coverage/Examples.antt =====
-- lib/download_coverage.cpp: a profile of two tiers.
use aowis_server_map.Prelude.{◌≡◌, ◌≢◌, ◌↔◌, refl, none, some, [], ◌∷◌, ℕ, codes, eqb, arith}
use aowis_server_map.Prelude.Int.{pos}
use aowis_server_map.Coverage.Profile.{
  Tier, DownloadCoverage, insert_profile, missing_zoom, add_profile, insert_checked, check_tiers,
  check_tier, mark_range, all_seen, has_regions, has_region,
}
use aowis_server_map.Coverage.Zooms.{Partitions, add_profile_iff, add_profile-refused}

abbrev regions : DownloadCoverage ℕ
regions = record { regions = (codes "CH", 0) ∷ []; profiles = [] }

abbrev world_to : ℕ → Tier
world_to z = record { minimum_zoom = pos 0; maximum_zoom = pos z; regions = codes "world" ∷ [] }

abbrev detail : Tier
detail = record { minimum_zoom = pos 9; maximum_zoom = pos 30; regions = codes "CH" ∷ [] }

added : (add_profile regions (codes "p") (world_to 8 ∷ detail ∷ [])).1 ≡ none
unfolding add_profile insert_checked check_tiers check_tier mark_range all_seen has_regions
    has_region eqb
added = refl

refused : (add_profile regions (codes "p") (world_to 7 ∷ detail ∷ [])).1 ≡ some missing_zoom
unfolding add_profile insert_checked check_tiers check_tier mark_range all_seen has_regions
    has_region eqb
refused = refl

add_profile_iff_example :
    let tiers = world_to 8 ∷ detail ∷ [] in
    ((add_profile regions (codes "p") tiers).1 ≡ none ↔ Partitions regions (codes "p") tiers)
    × ((add_profile regions (codes "p") tiers).1 ≡ none
        ↔ add_profile regions (codes "p") tiers ≡ (
          record regions { profiles = insert_profile (codes "p") tiers (regions.profiles) },
          none,
        ))
add_profile_iff_example = add_profile_iff regions (codes "p") (world_to 8 ∷ detail ∷ [])

not_added : (add_profile regions (codes "p") (world_to 7 ∷ detail ∷ [])).1 ≢ none
not_added e = ground (arith, refused, e)

add_profile-refused_example :
    (add_profile regions (codes "p") (world_to 7 ∷ detail ∷ [])).0 ≡ regions
add_profile-refused_example =
    add_profile-refused regions (codes "p") (world_to 7 ∷ detail ∷ []) not_added
