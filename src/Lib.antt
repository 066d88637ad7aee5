-- ===== src/Lib.antt =====
-- AOWIS map server: a verification library of its map and terrain services.
--
-- The server (src/server) answers HTTP requests for map and terrain tiles from a library (src/lib,
-- include/aowis/map). A terrain tile that is not cached is normalized from Copernicus source files,
-- which are downloaded, resumed after an interruption, and published under their final name; their
-- decoded blocks are cached within shared budgets, and the jobs and their bytes are admitted by two
-- atomic counters.
--
-- The files, the code they model, and how:
--
-- - Prelude: shared names, Boolean tests and list lemmas over the native numbers; Prelude/Int has the
--   integers, Prelude/Searches what a loop that looks for a member decides.
-- - Platform: what stands outside the repository. Platform/Strings is QString, Platform/Floats the
--   arithmetic of `float` and `double`, both records of operations and laws that the models take as
--   parameters; Platform/Doubles, Storage and Sampling are described below, and Platform/Instances has small instances for the examples.
-- - Admission: src/server/terrain_admission.h (Admission/Jobs) and
--   src/server/terrain_byte_admission.h (Admission/Bytes). Each access of the atomic is one step of
--   a thread, `step`; `run` runs a schedule, in which the weak exchange may fail without cause.
-- - BlockCache: src/lib/copernicus_decoded_block_cache.h. BlockCache/Budget has the shared budget and
--   the temporary reservations, BlockCache/Cache the class with its queue and hash, BlockCache/Spec
--   the bounded list that it implements, BlockCache/Refines the refinement.
-- - Resume: src/lib/copernicus_download_validation.h (Resume/Decimal, Resume/ContentRange,
--   Resume/Classify), src/lib/copernicus_resume_state.h (Resume/Partial, Resume/Append) and
--   src/lib/copernicus_source_publish.h (Resume/Publish). Resume/Files has the files and the number
--   formats, again records of operations and laws: `save` is a QSaveFile that is opened, written and
--   committed, and fails as a whole. The loops that copy in pieces run on fuel, as much as there are
--   bytes to copy, which is enough since each piece has a byte.
-- - Elevation: src/lib/terrain_elevation.cpp, the surface models of src/lib/terrain_dataset.cpp, and
--   their headers.
-- - Tile: src/lib/terrain_tile.cpp. Tile/Defs has tiles and their validity, Tile/Words the
--   little-endian words and the checksum, Tile/Codec the encoder and Tile/Parser the parser, with their
--   errors as values; the proofs are in Tile/Header, Samples, Valid, RoundTrip and Sound.
-- - Terrain: src/lib/terrain_data.cpp. Terrain/State has the members of `TerrainData`, its results and
--   the interface of a provider; Terrain/Lookup `terrainTile` with the reading, the fill and the storing
--   of a normalized tile, where `before_lock` is what others do to the files before the lock is taken;
--   Terrain/Position the place of a coordinate and the interpolation; Terrain/Elevations
--   `sampleElevation`, whose loop is recursion on the zoom; Terrain/Acquire the classification of
--   requests and the acquisition of sources. Files, directories and locks are Platform/Storage, the
--   arithmetic of the sampling Platform/Sampling. The texts of error messages are left out, and so is the
--   requested datum in the result, which is the argument. The proofs are in Terrain/Readings,
--   Kept (the cache), Samples, Sampled (the sampling) and Local (the classification).
-- - Server: the pending terrain requests of src/server/server.cpp, that is `submitTerrainTile`,
--   `submitTerrainElevation`, `submitTerrainGrid`, `submitTerrainJob`, `abandonTerrainWaiters` and the
--   destructor. Server/State has the members of the class, Server/Submit the requests up to the start
--   of a job, Server/Waiters and Server/Work the jobs, their callbacks and the disconnections, with
--   `step` for one event and `run` for a sequence of them. The three registries are one list whose
--   keys begin with the registry; a promise and a cancellation token are numbers given once; what a
--   worker computed, and whether a job needs a download, are given with the event. The proofs are in
--   Server/Counts, Sums, Slots, Waiting, Admits, Invariant, Stages, Runs (the invariant),
--   Server/Attended, Flights, FlightRuns (the job of each key), Server/Moves (the ways in which an
--   event moves the tokens and the jobs, as a relation), Steps, Tokens, Tracks, Stale (the abandoned
--   jobs) and Server/Refused. Server/MapRequests
--   has the requests that wait for a map tile, with its proofs in Server/MapRequests/Answered.
-- - Coverage: src/lib/download_coverage.cpp. Coverage/Profile has `addProfile`, `hasRegion` and
--   `hasProfile`; the array of seen zooms is a function of its index. Coverage/Geometry has the bounds
--   of a tile, rings, segments and polygons, over the double arithmetic of Platform/Doubles, of which no
--   law is used; Coverage/Permits has `addRectangle`, `permitsArea` and `permitsTile`. The proofs are in
--   Coverage/Marks, Zooms, Areas and Permitted.
-- - MapTiles: src/lib/http_client_tilefetch.cpp (MapTiles/HttpClient, with proofs in MapTiles/Images,
--   Accepts and Attempts) and the downloads of src/lib/maptiles.cpp. MapTiles/State has the members of
--   the class and, as the parameter `Qt`, what it uses of URLs, of the memory cache and of numerals;
--   MapTiles/Downloads the queue, from `scheduleMapTileDownload` to `startQueuedDownloads`;
--   MapTiles/Replies the callbacks of `startMapTileDownload`, `cancelUpstreamDownloads` and
--   `deleteTiles` up to its files, with `step` for one event and `run` for a sequence of them; and
--   MapTiles/Range the test of a deletion's range (proofs in MapTiles/Columns). Each critical section of
--   `downloads_mutex` is within one step; clients and writes at work are numbered objects, a reply is
--   given with its event, and the reply of a client that was cancelled is an event of its own. The loop
--   that starts queued downloads has as much fuel as the queue is long, since each round takes one; a
--   request on Windows has two attempts. The proofs are in MapTiles/Counts, Invariant, Starting, Queue,
--   Valid, Ends, Cancels, Steps (the invariant), Waits, Delivered, Answers and
--   Limits (the results).
--
-- The Examples module of each part runs it on concrete values.
--
-- Numbers: sizes and unsigned words are natural numbers, with the wrap of a word written out where
-- it can occur; a signed argument that may be negative is an integer; a negative size is one number
-- with 0 where every test treats them alike.
--
-- Not modelled: the routes and the responses of src/server/server.cpp, the terrain service's analysis
-- grids, deletions and storage directories, the lookup of map tiles and their files, the GeoJSON regions of the coverage, the Copernicus provider and
-- the configuration, which are left for later; libtiff, the network and JSON, which the code only calls.
pub mod Prelude
pub mod Admission
pub mod BlockCache
pub mod Resume
pub mod Platform
pub mod Elevation
pub mod Terrain
pub mod Tile
pub mod Server
pub mod Coverage
pub mod MapTiles
