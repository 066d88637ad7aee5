-- ===== src/Tile.antt =====
-- lib/terrain_tile.cpp and include/aowis/map/terrain_tile.h: normalized terrain tiles and their
-- binary form. A parse or a validity test returns its error message as a value.
pub mod Defs
pub mod Words
pub mod Codec
pub mod Parser
pub mod Header
pub mod Samples
pub mod Valid
pub mod RoundTrip
pub mod Sound
pub mod Fixture
mod Examples
