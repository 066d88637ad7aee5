-- ===== src/MapTiles.antt =====
-- lib/maptiles.cpp and lib/http_client_tilefetch.cpp: the downloads of map tiles, that is their queue,
-- the requests that wait for them, the treatment of a reply, and the pending writes of the cache.
pub mod Sets
pub mod State
pub mod Downloads
pub mod HttpClient
pub mod Images
pub mod Accepts
pub mod Attempts
pub mod Range
pub mod Columns
pub mod Replies
pub mod Counts
pub mod Invariant
pub mod Starting
pub mod Queue
pub mod Valid
pub mod Ends
pub mod Cancels
pub mod Steps
pub mod Waits
pub mod Delivered
pub mod Answers
pub mod Limits
mod Examples
