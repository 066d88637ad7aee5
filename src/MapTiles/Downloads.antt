-- ===== src/MapTiles/Downloads.antt =====
-- lib/maptiles.cpp: `scheduleMapTileDownload`, `startMapTileDownload` up to the request,
-- `startQueuedDownloads`, and their helpers. Each critical section of `downloads_mutex` is a function.
use aowis_server_map.Prelude.{
  ℕ, zero, suc, ◌+◌, ◌-◌, ◌*◌, ◌/◌, max, min, Bool, false, ◌||◌, Option, none, some, List, [], ◌∷◌,
  ◌++◌, Bytes, Text, codes, length, is_empty, ltb, leb, if◌then◌else◌,
}
use aowis_server_map.MapTiles.State.{
  Qt, UrlParts, QueuedDownload, DownloadScheduleStatus, scheduled, queue_full, State,
}
use aowis_server_map.MapTiles.Sets.{contains, insert, remove, value_or, put, drop_key}

abbrev pub maximum_active_downloads_per_origin : ℕ
maximum_active_downloads_per_origin = 6

abbrev pub tile_memory_cache_maximum_cost_kib : ℕ
tile_memory_cache_maximum_cost_kib = 256 * 1024

unfoldable pub tile_memory_cache_cost_kib : Bytes → ℕ
tile_memory_cache_cost_kib content =
    max 1 (min ((length content + 1023) / 1024) tile_memory_cache_maximum_cost_kib)

module _ (qt : Qt) where
  unfoldable pub download_origin : Text → Text
  download_origin url =
      let parts : UrlParts = qt.parse_url url in
      parts.scheme ++ (codes "://" ++ (parts.host ++ (codes ":" ++ parts.port)))

  unfoldable pub can_start_download_locked : State qt → QueuedDownload → Bool
  unfolding value_or download_origin
  can_start_download_locked s d =
      if leb s.maximum_active_downloads (length s.downloads_active)
      then false
      else ltb (value_or (download_origin d.url) 0 s.per_origin) maximum_active_downloads_per_origin

  unfoldable pub mark_download_started_locked : State qt → QueuedDownload → State qt
  unfolding insert put value_or download_origin
  mark_download_started_locked s d =
      let origin = download_origin d.url in
      record s {
        downloads_active = insert d.canonical_key s.downloads_active;
        per_origin = put origin (value_or origin 0 s.per_origin + 1) s.per_origin;
      }

  -- `remaining` is negative only for a missing origin, which is treated like 0.
  unfoldable pub mark_download_finished_locked : State qt → QueuedDownload → State qt
  unfolding remove put drop_key value_or download_origin
  mark_download_finished_locked s d =
      let origin = download_origin d.url in
      let remaining = value_or origin 0 s.per_origin - 1 in
      record s {
        downloads_active = remove d.canonical_key s.downloads_active;
        per_origin =
            if ltb 0 remaining
            then put origin remaining s.per_origin
            else drop_key origin s.per_origin;
      }

  -- The loop over the joined keys.
  unfoldable pub append_missing : List Text → List Text → List Text
  unfolding contains
  append_missing keys [] = keys
  append_missing keys (key ∷ rest) =
      append_missing (if contains key keys then keys else keys ++ (key ∷ [])) rest

  unfoldable pub take_response_keys_locked : State qt → QueuedDownload → State qt × List Text
  unfolding append_missing value_or drop_key
  take_response_keys_locked s d = (
    record s { joined = drop_key d.canonical_key s.joined },
    append_missing (if is_empty d.response_key then [] else d.response_key ∷ [])
        (value_or d.canonical_key [] s.joined),
  )

  -- Up to `rest->get`; the callbacks are the steps of Replies.
  unfoldable pub start_map_tile_download : State qt → QueuedDownload → State qt
  unfolding put
  start_map_tile_download s d = record s {
    active_clients = put d.canonical_key s.fresh s.active_clients;
    clients =
        s.clients ++ (record { client = s.fresh; download = d; cancel_requested = false } ∷ []);
    fresh = s.fresh + 1;
  }

  unfoldable pub join_download : State qt → QueuedDownload → State qt
  unfolding value_or put contains
  join_download s d =
      let keys = value_or d.canonical_key [] s.joined in
      if is_empty d.response_key then s else record s {
        joined =
            put d.canonical_key
              (if contains d.response_key keys then keys else keys ++ (d.response_key ∷ []))
              s.joined;
      }

  unfoldable pub schedule_map_tile_download :
      State qt → QueuedDownload → State qt × DownloadScheduleStatus
  unfolding contains join_download can_start_download_locked start_map_tile_download
      mark_download_started_locked insert
  schedule_map_tile_download s d =
      if contains d.canonical_key s.downloads_active
        || contains d.canonical_key s.downloads_queued_keys
      then (join_download s d, scheduled)
      else if can_start_download_locked s d
      then (start_map_tile_download (mark_download_started_locked s d) d, scheduled)
      else if leb s.maximum_queued_downloads (length s.downloads_queued)
      then (s, queue_full)
      else (
        record s {
          downloads_queued = s.downloads_queued ++ (d ∷ []);
          downloads_queued_keys = insert d.canonical_key s.downloads_queued_keys;
        },
        scheduled,
      )

  -- The loop over the indices and `takeAt`: the first download that can start, and the others.
  unfoldable pub take_eligible :
      State qt → List QueuedDownload → Option (QueuedDownload × List QueuedDownload)
  unfolding can_start_download_locked
  take_eligible s [] = none
  take_eligible s (d ∷ rest) =
      let later = take_eligible s rest in
      if can_start_download_locked s d
      then some (d, rest)
      else elim later [ none ↦ none | some (e, others) ↦ some (e, d ∷ others) ]

  unfoldable pub dequeue : State qt → QueuedDownload → List QueuedDownload → State qt
  unfolding remove mark_download_started_locked
  dequeue s d others =
      mark_download_started_locked
        (record s {
          downloads_queued = others;
          downloads_queued_keys = remove d.canonical_key s.downloads_queued_keys;
        })
        d

  -- The `while` loop, with as much fuel as there are downloads in the queue.
  unfoldable pub take_downloads_to_start : ℕ → State qt → State qt × List QueuedDownload
  unfolding take_eligible dequeue
  take_downloads_to_start zero s = (s, [])
  take_downloads_to_start (suc fuel) s =
      if leb s.maximum_active_downloads (length s.downloads_active)
      then (s, [])
      else elim (take_eligible s s.downloads_queued) [
        | none ↦ (s, [])
        | some (d, others) ↦
            let rest = take_downloads_to_start fuel (dequeue s d others) in (rest.0, d ∷ rest.1)
      ]

  unfoldable pub start_all : State qt → List QueuedDownload → State qt
  unfolding start_map_tile_download
  start_all s [] = s
  start_all s (d ∷ rest) = start_all (start_map_tile_download s d) rest

  unfoldable pub start_queued_downloads : State qt → State qt
  unfolding take_downloads_to_start start_all
  start_queued_downloads s =
      let (taken, downloads) = take_downloads_to_start (length s.downloads_queued) s in
      start_all taken downloads
