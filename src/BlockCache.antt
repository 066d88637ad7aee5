-- ===== src/BlockCache.antt =====
-- lib/copernicus_decoded_block_cache.h: the shared byte budget, the reservations of the decoder,
-- and the cache of decoded blocks that evicts in order of insertion. A call of the budget holds its
-- mutex, so it is one step. Sizes are numbers (a block of `length` bytes); `none` is a `Q_ASSERT`
-- that fails.
pub mod Budget
pub mod Cache
pub mod Spec
pub mod Refines
mod Examples
