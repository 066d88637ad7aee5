-- ===== src/MapTiles/State.antt =====
-- include/aowis/map/maptiles.h: the members of `MapTiles` that the downloads and the writes use, and what
-- stands outside the repository.
use aowis_server_map.Prelude.{ℕ, max, Bool, List, [], Bytes, Text, Option}
use aowis_server_map.Prelude.Int.{ℤ, pos_part}

-- The parts of a `QUrl` that the code reads; the port is printed.
pub record UrlParts : Type 0 where
  pub scheme : Text
  pub host : Text
  pub port : Text

-- Qt: how a URL is taken apart, the `QCache` of tiles, and numerals.
pub record Qt : Type 1 where
  pub parse_url : Text → UrlParts
  pub Cache : Type 0
  -- key, bytes, cost
  pub cache_insert : Text → Bytes → ℕ → Cache → Cache
  pub cache_remove : Text → Cache → Cache
  pub cache_keys : Cache → List Text
  -- `QString::toInt`, where `none` is its failure
  pub to_int : Text → Option ℤ

pub record QueuedDownload : Type 0 where
  pub url : Text
  pub path : Text
  pub tile_path : Text
  pub canonical_key : Text
  pub response_key : Text

pub data DownloadScheduleStatus : Type 0 where
  scheduled queue_full : DownloadScheduleStatus

-- A `TileHttpClient` at work, with what its callbacks capture.
pub record Client : Type 0 where
  pub client : ℕ
  pub download : QueuedDownload
  pub cancel_requested : Bool

-- A `QFutureWatcher` of a cache write, with what its callback captures.
pub record CacheWrite : Type 0 where
  pub write_state : ℕ
  pub download : QueuedDownload
  pub content : Bytes
  pub response_keys : List Text

pub record MapTiles (Cache : Type 0) : Type 0 where
  pub tile_memory_cache : Cache
  pub maximum_active_downloads : ℕ
  pub maximum_queued_downloads : ℕ
  pub downloads_active : List Text
  -- `downloads_active_clients`, the clients by their numbers
  pub active_clients : List (Text × ℕ)
  -- `downloads_active_per_origin`
  pub per_origin : List (Text × ℕ)
  pub downloads_invalidated : List Text
  pub downloads_queued : List QueuedDownload
  pub downloads_queued_keys : List Text
  -- `downloads_joined_response_keys`
  pub joined : List (Text × List Text)
  pub pending_cache_writes : ℕ
  pub pending_cache_write_bytes : ℕ
  pub cache_writes_pending_keys : List Text
  -- The states of the writes by their numbers, and which of them are invalidated.
  pub cache_write_states : List (Text × ℕ)
  pub invalidated_writes : List ℕ
  -- The objects at work, and the next number.
  pub clients : List Client
  pub writes : List CacheWrite
  pub fresh : ℕ

-- The constructor.
abbrev pub init : {Cache : Type 0} → Cache → ℤ → ℤ → MapTiles Cache
init cache maximum_active maximum_queued = record {
  tile_memory_cache = cache;
  maximum_active_downloads = max 1 (pos_part maximum_active);
  maximum_queued_downloads = pos_part maximum_queued;
  downloads_active = [];
  active_clients = [];
  per_origin = [];
  downloads_invalidated = [];
  downloads_queued = [];
  downloads_queued_keys = [];
  joined = [];
  pending_cache_writes = 0;
  pending_cache_write_bytes = 0;
  cache_writes_pending_keys = [];
  cache_write_states = [];
  invalidated_writes = [];
  clients = [];
  writes = [];
  fresh = 0;
}

abbrev pub State : Qt → Type 0
State qt = MapTiles qt.Cache
