-- ===== src/Coverage.antt =====
-- lib/download_coverage.cpp and include/aowis/map/download_coverage.h: the profiles of the download
-- coverage, and the tiles and areas that they permit.
pub mod Profile
pub mod Geometry
pub mod Permits
pub mod Areas
pub mod Permitted
pub mod Marks
pub mod Zooms
mod Examples
mod Tiles
