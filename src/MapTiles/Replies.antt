-- ===== src/MapTiles/Replies.antt =====
-- lib/maptiles.cpp: the callbacks of `startMapTileDownload`, `cancelUpstreamDownloads`, and what
-- `deleteTiles` does to the downloads, the writes and the memory. Each callback is one step, and its
-- signals `tileReady` and `tileFailed` are returned in order.
use aowis_server_map.Prelude.{
  ℕ, zero, suc, ◌+◌, ◌-◌, ◌*◌, Bool, true, false, not, ◌||◌, Option, none, some, List, [], ◌∷◌,
  ◌++◌, map, Bytes, Text, length, ltb, leb, ◌==◌, if◌then◌else◌,
}
use aowis_server_map.Prelude.Int.{ℤ, pos, ltb_ℤ}
use aowis_server_map.Platform.Strings.{Strings}
use aowis_server_map.MapTiles.Sets.{contains, insert, remove, put, drop_key, values}
use aowis_server_map.MapTiles.HttpClient.{
  Reply, Signal, request_finished, request_error, handle_reply, RequestFailureReason,
}
use aowis_server_map.MapTiles.HttpClient
use aowis_server_map.MapTiles.Range.{range_covers, bounded_y_min, bounded_y_max}
use aowis_server_map.MapTiles.State.{Qt, QueuedDownload, Client, State}
use aowis_server_map.MapTiles.Downloads.{
  tile_memory_cache_cost_kib, mark_download_finished_locked, take_response_keys_locked,
  schedule_map_tile_download, start_queued_downloads,
}

pub data TileFailureReason : Type 0 where
  upstream_error timeout cancelled : TileFailureReason

pub data Response : Type 0 where
  tile_ready : Bytes → Response
  tile_failed : TileFailureReason → Response

abbrev pub maximum_pending_cache_writes : ℕ
maximum_pending_cache_writes = 64

abbrev pub maximum_pending_cache_write_bytes : ℕ
maximum_pending_cache_write_bytes = 64 * 1024 * 1024

unfoldable pub failure_reason : RequestFailureReason → TileFailureReason
failure_reason HttpClient.RequestFailureReason.timeout = timeout
failure_reason HttpClient.RequestFailureReason.cancelled = cancelled
failure_reason reason = upstream_error

abbrev pub respond : Response → List Text → List (Text × Response)
respond response keys = map (λ key. (key, response)) keys

-- The object at a position of a list, and the others.
unfoldable pub take_at {ℓ} : {A : Type ℓ} → ℕ → List A → Option (A × List A)
take_at n [] = none
take_at zero (x ∷ rest) = some (x, rest)
take_at (suc n) (x ∷ rest) = elim (take_at n rest) [
  | none ↦ none
  | some (y, others) ↦ some (y, x ∷ others)
]

unfoldable pub is_in : ℕ → List ℕ → Bool
is_in n [] = false
is_in n (m ∷ ms) = m == n || is_in n ms

unfoldable pub cancel_clients : List ℕ → List Client → List Client
unfolding is_in
cancel_clients ids [] = []
cancel_clients ids (c ∷ rest) =
    (if is_in c.client ids then record c { cancel_requested = true } else c)
    ∷ cancel_clients ids rest

unfoldable pub insert_all : (Text → Bool) → List Text → List Text → List Text
unfolding insert
insert_all covered [] marked = marked
insert_all covered (key ∷ rest) marked =
    insert_all covered rest (if covered key then insert key marked else marked)

unfoldable pub covered_states : (Text → Bool) → List (Text × ℕ) → List ℕ
covered_states covered [] = []
covered_states covered ((key, state) ∷ rest) =
    let states = covered_states covered rest in if covered key then state ∷ states else states

pub data Event : Type 0 where
  requested : QueuedDownload → Event
  reply_of : ℕ → Reply → Event
  write_of : ℕ → Event
  cancelled_all : Event
  deleted : Text → Bool → ℤ → ℤ → ℤ → ℤ → ℤ → Event

module _ (qt : Qt) where
  -- The critical section of both callbacks.
  unfoldable pub finish_download : State qt → QueuedDownload → State qt × List Text
  unfolding mark_download_finished_locked take_response_keys_locked drop_key remove
  finish_download s d =
      let finished = mark_download_finished_locked qt s d in
      take_response_keys_locked qt
        (record finished {
          active_clients = drop_key d.canonical_key finished.active_clients;
          downloads_invalidated = remove d.canonical_key finished.downloads_invalidated;
        })
        d

  -- The tile goes to the memory and to a worker that writes it, if the writes have room.
  unfoldable pub store_tile :
      State qt → QueuedDownload → Bytes → List Text → State qt × List (Text × Response)
  unfolding insert put tile_memory_cache_cost_kib
  store_tile s d content keys =
      if leb maximum_pending_cache_writes s.pending_cache_writes
        || ltb maximum_pending_cache_write_bytes (length content + s.pending_cache_write_bytes)
      then (s, respond (tile_ready content) keys)
      else (
        record s {
          tile_memory_cache =
              qt.cache_insert d.canonical_key content (tile_memory_cache_cost_kib content)
                s.tile_memory_cache;
          pending_cache_writes = s.pending_cache_writes + 1;
          pending_cache_write_bytes = s.pending_cache_write_bytes + length content;
          cache_writes_pending_keys = insert d.canonical_key s.cache_writes_pending_keys;
          cache_write_states = put d.canonical_key s.fresh s.cache_write_states;
          writes =
              s.writes
              ++ (record {
                write_state = s.fresh;
                download = d;
                content = content;
                response_keys = keys;
              }
                  ∷ []);
          fresh = s.fresh + 1;
        },
        [],
      )

  unfoldable pub on_request_finished :
      State qt → QueuedDownload → Bytes → Bool → State qt × List (Text × Response)
  unfolding finish_download start_queued_downloads store_tile contains
  on_request_finished s d content may_store =
      let invalidated = contains d.canonical_key s.downloads_invalidated in
      let (finished, keys) = finish_download s d in
      let started = start_queued_downloads qt finished in
      if invalidated || not may_store
      then (started, respond (tile_ready content) keys)
      else store_tile started d content keys

  unfoldable pub on_request_error :
      State qt → QueuedDownload → RequestFailureReason → State qt × List (Text × Response)
  unfolding finish_download start_queued_downloads failure_reason
  on_request_error s d reason =
      let (finished, keys) = finish_download s d in
      (start_queued_downloads qt finished, respond (tile_failed (failure_reason reason)) keys)

  unfoldable pub on_signal : State qt → QueuedDownload → Signal → State qt × List (Text × Response)
  unfolding on_request_finished on_request_error
  on_signal s d (request_finished content may_store) = on_request_finished s d content may_store
  on_signal s d (request_error reason) = on_request_error s d reason

  -- The reply of the client at a position.
  unfoldable pub replied : Strings → State qt → ℕ → Reply → State qt × List (Text × Response)
  unfolding take_at on_signal handle_reply
  replied strings s n reply = elim (take_at n s.clients) [
    | none ↦ (s, [])
    | some (c, others) ↦
        on_signal (record s { clients = others }) c.download
          (handle_reply strings c.cancel_requested reply true)
  ]

  -- The end of the write at a position; a failure is only logged.
  unfoldable pub written : State qt → ℕ → State qt × List (Text × Response)
  unfolding take_at remove drop_key
  written s n = elim (take_at n s.writes) [
    | none ↦ (s, [])
    | some (w, others) ↦ (
      record s {
        pending_cache_writes = s.pending_cache_writes - 1;
        pending_cache_write_bytes = s.pending_cache_write_bytes - length w.content;
        cache_writes_pending_keys = remove w.download.canonical_key s.cache_writes_pending_keys;
        cache_write_states = drop_key w.download.canonical_key s.cache_write_states;
        downloads_invalidated = remove w.download.canonical_key s.downloads_invalidated;
        writes = others;
      },
      respond (tile_ready w.content) w.response_keys,
    )
  ]

  unfoldable pub drain_queue : State qt → List QueuedDownload → State qt × List Text
  unfolding take_response_keys_locked remove
  drain_queue s [] = (s, [])
  drain_queue s (d ∷ rest) =
      let (taken, keys) = take_response_keys_locked qt s d in
      let (drained, later) =
        drain_queue
          (record taken {
            downloads_invalidated = remove d.canonical_key taken.downloads_invalidated;
          })
          rest in
      (drained, keys ++ later)

  unfoldable pub cancel_upstream_downloads : State qt → State qt × List (Text × Response)
  unfolding drain_queue cancel_clients values
  cancel_upstream_downloads s =
      let (drained, keys) = drain_queue s s.downloads_queued in
      (
        record drained {
          downloads_queued = [];
          downloads_queued_keys = [];
          clients = cancel_clients (values s.active_clients) drained.clients;
        },
        respond (tile_failed cancelled) keys,
      )

  unfoldable pub remove_covered : (Text → Bool) → List Text → qt.Cache → qt.Cache
  remove_covered covered [] cache = cache
  remove_covered covered (key ∷ rest) cache =
      remove_covered covered rest (if covered key then qt.cache_remove key cache else cache)

  unfoldable pub invalidate : State qt → (Text → Bool) → State qt
  unfolding insert_all covered_states remove_covered
  invalidate s covered = record s {
    invalidated_writes = covered_states covered s.cache_write_states ++ s.invalidated_writes;
    downloads_invalidated =
        insert_all covered
          (s.downloads_active ++ (s.downloads_queued_keys ++ s.cache_writes_pending_keys))
          s.downloads_invalidated;
    tile_memory_cache =
        remove_covered covered (qt.cache_keys s.tile_memory_cache) s.tile_memory_cache;
  }

  -- `deleteTiles` up to the files; `known` is whether the provider has a cache path.
  unfoldable pub delete_tiles : State qt → Text → Bool → ℤ → ℤ → ℤ → ℤ → ℤ → State qt
  unfolding invalidate range_covers bounded_y_max
  delete_tiles s provider known zoom tile_x_min tile_x_max tile_y_min tile_y_max =
      if ltb_ℤ zoom (pos 0)
        || ltb_ℤ (pos 30) zoom
        || ltb_ℤ tile_x_max tile_x_min
        || ltb_ℤ tile_y_max tile_y_min
        || not known
      then s
      else if ltb_ℤ (bounded_y_max zoom tile_y_max) (bounded_y_min tile_y_min)
      then s
      else invalidate s
          (range_covers qt.to_int provider zoom tile_x_min tile_x_max tile_y_min tile_y_max)

  unfoldable pub step : Strings → State qt → Event → State qt × List (Text × Response)
  unfolding schedule_map_tile_download replied written cancel_upstream_downloads delete_tiles
  step strings s (requested d) = ((schedule_map_tile_download qt s d).0, [])
  step strings s (reply_of n reply) = replied strings s n reply
  step strings s (write_of n) = written s n
  step strings s cancelled_all = cancel_upstream_downloads s
  step strings s (deleted provider known zoom x_min x_max y_min y_max) =
      (delete_tiles s provider known zoom x_min x_max y_min y_max, [])

  unfoldable pub run : Strings → State qt → List Event → State qt × List (Text × Response)
  unfolding step
  run strings s [] = (s, [])
  run strings s (e ∷ rest) =
      let (next, signals) = step strings s e in
      let (final, later) = run strings next rest in (final, signals ++ later)
