-- ===== src/Terrain.antt =====
-- lib/terrain_data.cpp: the terrain data service, that is the lookup of a normalized tile through the
-- cache and the providers, the sampling of an elevation, and the choice of what needs a download.
pub mod State
pub mod Lookup
pub mod Position
pub mod Elevations
pub mod Acquire
pub mod Readings
pub mod Kept
pub mod Samples
pub mod Sampled
pub mod Local
mod Examples
