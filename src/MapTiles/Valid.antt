-- ===== src/MapTiles/Valid.antt =====
-- lib/maptiles.cpp: the invariant of the downloads and the writes, and `scheduleMapTileDownload` and the
-- end of a download on it.
use aowis_server_map.Prelude.{
  ℕ, ◌+◌, ◌*◌, ◌≤◌, ◌≡◌, true, false, ◌||◌, List, [], ◌∷◌, ◌++◌, Text, is_empty, if◌then◌else◌,
  arith, length, length-append, leb, Bool-cases, inl, inr, ◌⊎◌, All, All-append,
}
use aowis_server_map.MapTiles.Sets.{contains, insert, value_or, put}
use aowis_server_map.MapTiles.State.{Qt, QueuedDownload, CacheWrite, State}
use aowis_server_map.MapTiles.Downloads.{
  download_origin, can_start_download_locked, mark_download_started_locked, start_map_tile_download,
  join_download, schedule_map_tile_download,
}
use aowis_server_map.MapTiles.Counts.{
  count, count_downloads, contains_iff, count-insert, length-insert, value_or-put,
  count_downloads-append, count_same, value_same,
}
use aowis_server_map.MapTiles.Invariant.{Marked, Joined, mark-Marked, start-Marked}
use aowis_server_map.MapTiles.Starting.{Blocked}

unfoldable pub written_bytes : List CacheWrite → ℕ
written_bytes [] = 0
written_bytes (w ∷ rest) = length w.content + written_bytes rest

module _ (qt : Qt) where
  -- The writes that are pending are counted, within their limits.
  pub record WritesValid (s : State qt) : Type 0 where
    pub pending : s.pending_cache_writes ≡ length s.writes
    pub bytes : s.pending_cache_write_bytes ≡ written_bytes s.writes
    pub pending_bound : s.pending_cache_writes ≤ 64
    pub bytes_bound : s.pending_cache_write_bytes ≤ 64 * 1024 * 1024

  pub record Valid (m q : ℕ) (s : State qt) : Type 0 where
    pub marked : Marked qt m q s []
    pub joined : Joined qt s
    pub blocked : All (Blocked qt s) s.downloads_queued
    pub writes : WritesValid s

  -- Whatever starts, a download that was blocked still is.
  mark-Blocked :
      (s : State qt) (d : QueuedDownload)
      → count d.canonical_key s.downloads_active ≡ 0
      → (l : List QueuedDownload) → All (Blocked qt s) l
      → All (Blocked qt (start_map_tile_download qt (mark_download_started_locked qt s d) d)) l
  unfolding start_map_tile_download mark_download_started_locked
  mark-Blocked s d free [] b = tt
  mark-Blocked s d free (e ∷ l) b =
      let origin = download_origin qt d.url in
      (
        elim b.0 [
          | inl full ↦ inl (omega (arith, length-insert d.canonical_key s.downloads_active free))
          | inr used ↦ inr (
              ground (
                arith,
                used,
                value_same origin (download_origin qt e.url) 0 s.per_origin,
                value_or-put (download_origin qt e.url) origin 0
                    (value_or origin 0 s.per_origin + 1) s.per_origin,
              ))
        ],
        mark-Blocked s d free l b.1,
      )

  module _ {m q : ℕ} (s : State qt) (d : QueuedDownload) (v : Valid m q s) where
    -- Requests that join a tile which is active or queued.
    rejoin-Valid :
        (l : List (Text × List Text))
        → ((k : Text)
            → (value_or k [] l ≡ [])
              ⊎ (1 ≤ count k s.downloads_active + count k s.downloads_queued_keys))
        → Valid m q (record s { joined = l })
    rejoin-Valid l h = record {
      marked = record {
        maximum_active = v.marked.maximum_active;
        maximum_queued = v.marked.maximum_queued;
        active = v.marked.active;
        active_length = v.marked.active_length;
        active_bound = v.marked.active_bound;
        queued = v.marked.queued;
        queued_bound = v.marked.queued_bound;
        once = v.marked.once;
        origins = v.marked.origins;
        origin_bound = v.marked.origin_bound;
      };
      joined = h;
      blocked = v.blocked;
      writes = record {
        pending = v.writes.pending;
        bytes = v.writes.bytes;
        pending_bound = v.writes.pending_bound;
        bytes_bound = v.writes.bytes_bound;
      };
    }

    join-Valid :
        1 ≤ count d.canonical_key s.downloads_active + count d.canonical_key s.downloads_queued_keys
        → Valid m q (join_download qt s d)
    unfolding join_download
    join-Valid here =
        let key = d.canonical_key in
        let keys = value_or key [] s.joined in
        let all = if contains d.response_key keys then keys else keys ++ (d.response_key ∷ []) in
        elim (Bool-cases (is_empty d.response_key)) [
          | inl e ↦ rw e v
          | inr e ↦ rw e (
              rejoin-Valid (put key all s.joined) (λ k. ground (
                arith,
                v.joined k,
                here,
                value_or-put k key [] all s.joined,
                count_same key k s.downloads_active,
                count_same key k s.downloads_queued_keys,
              )))
        ]

    start-Valid :
        can_start_download_locked qt s d ≡ true
        → count d.canonical_key s.downloads_active ≡ 0
        → count d.canonical_key s.downloads_queued_keys ≡ 0
        → Valid m q (start_map_tile_download qt (mark_download_started_locked qt s d) d)
    unfolding start_map_tile_download mark_download_started_locked
    start-Valid can free fresh = record {
      marked = start-Marked qt d (mark-Marked qt d v.marked can free fresh);
      joined = λ k. elim (v.joined k) [
        | inl e ↦ inl e
        | inr h ↦ inr (omega (arith, count-insert k d.canonical_key s.downloads_active free))
      ];
      blocked = mark-Blocked s d free s.downloads_queued v.blocked;
      writes = record {
        pending = v.writes.pending;
        bytes = v.writes.bytes;
        pending_bound = v.writes.pending_bound;
        bytes_bound = v.writes.bytes_bound;
      };
    }

    enqueue-Valid :
        can_start_download_locked qt s d ≡ false
        → count d.canonical_key s.downloads_active ≡ 0
        → count d.canonical_key s.downloads_queued_keys ≡ 0
        → leb s.maximum_queued_downloads (length s.downloads_queued) ≡ false
        → Valid m q (record s {
          downloads_queued = s.downloads_queued ++ (d ∷ []);
          downloads_queued_keys = insert d.canonical_key s.downloads_queued_keys;
        })
    unfolding can_start_download_locked count_downloads
    enqueue-Valid cannot free fresh room =
        let key = d.canonical_key in
        let inserted = λ (k : Text). count-insert k key s.downloads_queued_keys fresh in
        record {
          marked = record {
            maximum_active = v.marked.maximum_active;
            maximum_queued = v.marked.maximum_queued;
            active = v.marked.active;
            active_length = v.marked.active_length;
            active_bound = v.marked.active_bound;
            queued = λ k. omega (
              arith,
              v.marked.queued k,
              inserted k,
              count_downloads-append k s.downloads_queued (d ∷ []),
            );
            queued_bound =
                ground
                  (arith, room, v.marked.maximum_queued, length-append s.downloads_queued (d ∷ []));
            once = λ k. ground (
              arith,
              v.marked.once k,
              inserted k,
              free,
              fresh,
              count_same key k s.downloads_active,
              count_same key k s.downloads_queued_keys,
            );
            origins = v.marked.origins;
            origin_bound = v.marked.origin_bound;
          };
          joined =
              λ k. elim (v.joined k) [ inl e ↦ inl e | inr h ↦ inr (omega (arith, inserted k)) ];
          blocked =
              All-append (Blocked qt s) s.downloads_queued (d ∷ []) v.blocked
                (ground (arith, cannot), tt);
          writes = record {
            pending = v.writes.pending;
            bytes = v.writes.bytes;
            pending_bound = v.writes.pending_bound;
            bytes_bound = v.writes.bytes_bound;
          };
        }

    pub schedule-Valid : Valid m q (schedule_map_tile_download qt s d).0
    unfolding schedule_map_tile_download
    schedule-Valid =
        let key = d.canonical_key in
        let active = contains_iff key s.downloads_active in
        let queued = contains_iff key s.downloads_queued_keys in
        elim (Bool-cases
          (contains key s.downloads_active || contains key s.downloads_queued_keys)) [
            | inl here ↦ rw here (join-Valid (ground (arith, here, active, queued)))
            | inr away ↦
                let free : count key s.downloads_active ≡ 0 = ground (arith, away, active) in
                let fresh : count key s.downloads_queued_keys ≡ 0 = ground (arith, away, queued) in
                elim (Bool-cases (can_start_download_locked qt s d)) [
                  | inl can ↦ rw (away, can) (start-Valid can free fresh)
                  | inr cannot ↦
                      elim (Bool-cases
                        (leb s.maximum_queued_downloads (length s.downloads_queued))) [
                          | inl full ↦ rw (away, cannot, full) v
                          | inr room ↦
                              rw (away, cannot, room) (enqueue-Valid cannot free fresh room)
                        ]
                ]
          ]
