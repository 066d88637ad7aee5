-- ===== src/Coverage/Tiles.antt =====
-- lib/download_coverage.cpp: permitted tiles on concrete values, with integers for doubles.
use aowis_server_map.Prelude.{◌≡◌, ◌↔◌, ◌⊎◌, refl, true, List, [], ◌∷◌, codes, eqb}
use aowis_server_map.Prelude.Int.{pos, negsuc}
use aowis_server_map.Platform.Instances.{whole}
use aowis_server_map.Coverage.Profile.{Tier}
use aowis_server_map.Coverage.Permits.{Coverage, permits_tile}
use aowis_server_map.Coverage.Permitted.{PermittedTile, permits_tile_iff}

abbrev world_profile : List Tier
world_profile =
    record { minimum_zoom = pos 0; maximum_zoom = pos 30; regions = codes "world" ∷ [] } ∷ []

abbrev everything : Coverage whole
everything = record { regions = []; profiles = (codes "p", world_profile) ∷ [] }

permits_tile_iff_example :
    (permits_tile whole everything (codes "p") (pos 2) (negsuc 0) (pos 1) ≡ true)
    ↔ ((codes "p" ≡ []) ⊎ PermittedTile whole everything (codes "p") (pos 2) (negsuc 0) (pos 1))
permits_tile_iff_example = permits_tile_iff whole everything (codes "p") (pos 2) (negsuc 0) (pos 1)

wrapped_permitted : permits_tile whole everything (codes "p") (pos 2) (negsuc 0) (pos 1) ≡ true
unfolding permits_tile eqb
wrapped_permitted = refl
