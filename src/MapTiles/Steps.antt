-- ===== src/MapTiles/Steps.antt =====
-- lib/maptiles.cpp: every step keeps the invariant.
use aowis_server_map.Prelude.{
  ℕ, max, ◌+◌, ◌*◌, ◌≡◌, refl, Bool, true, not, ◌||◌, List, [], ◌∷◌, ◌++◌, Bytes, Text, arith,
  length, length-append, ltb, leb, some, Bool-cases, Option-cases, inl, inr,
}
use aowis_server_map.Prelude.Int.{ℤ, pos, pos_part, ltb_ℤ}
use aowis_server_map.Platform.Strings.{Strings}
use aowis_server_map.MapTiles.Sets.{contains, value_or}
use aowis_server_map.MapTiles.State.{Qt, QueuedDownload, Client, CacheWrite, State, init}
use aowis_server_map.MapTiles.HttpClient.{
  Reply, Signal, request_finished, request_error, handle_reply,
}
use aowis_server_map.MapTiles.Range.{bounded_y_min, bounded_y_max}
use aowis_server_map.MapTiles.Replies.{
  take_at, store_tile, on_request_finished, on_request_error, on_signal, replied, written,
  invalidate, delete_tiles, Event, requested, reply_of, write_of, cancelled_all, deleted, step, run,
}
use aowis_server_map.MapTiles.Counts.{count, count_downloads, count_clients}
use aowis_server_map.MapTiles.Invariant.{clients_from, from_origin, Marked}
use aowis_server_map.MapTiles.Valid.{Valid, written_bytes, schedule-Valid}
use aowis_server_map.MapTiles.Cancels.{cancel-Valid}
use aowis_server_map.MapTiles.Ends.{take_at-sum, ended-Valid}

written_bytes-append :
    (xs ys : List CacheWrite) → written_bytes (xs ++ ys) ≡ written_bytes xs + written_bytes ys
unfolding written_bytes
written_bytes-append [] ys = omega arith
written_bytes-append (x ∷ xs) ys = omega (arith, written_bytes-append xs ys)

module _ (qt : Qt) {m q : ℕ} where
  -- Changes of the memory, the invalidations and the writes.
  moved-Marked :
      (s : State qt) (cache : qt.Cache) (invalidated keys : List Text) (states : List (Text × ℕ))
      (marks : List ℕ) (pending bytes fresh : ℕ) (writes : List CacheWrite)
      → Marked qt m q s []
      → Marked qt m q
          (record s {
            tile_memory_cache = cache;
            downloads_invalidated = invalidated;
            pending_cache_writes = pending;
            pending_cache_write_bytes = bytes;
            cache_writes_pending_keys = keys;
            cache_write_states = states;
            invalidated_writes = marks;
            writes = writes;
            fresh = fresh;
          })
          []
  moved-Marked s cache invalidated keys states marks pending bytes fresh writes v = record {
    maximum_active = v.maximum_active;
    maximum_queued = v.maximum_queued;
    active = v.active;
    active_length = v.active_length;
    active_bound = v.active_bound;
    queued = v.queued;
    queued_bound = v.queued_bound;
    once = v.once;
    origins = v.origins;
    origin_bound = v.origin_bound;
  }

  store-Valid :
      (s : State qt) (d : QueuedDownload) (content : Bytes) (keys : List Text)
      → Valid qt m q s
      → Valid qt m q (store_tile qt s d content keys).0
  unfolding store_tile written_bytes
  store-Valid s d content keys v =
      elim (Bool-cases (
        leb 64 s.pending_cache_writes
        || ltb (64 * 1024 * 1024) (length content + s.pending_cache_write_bytes))) [
          | inl full ↦ rw full v
          | inr room ↦ rw room (record {
            marked = moved-Marked s _ _ _ _ _ _ _ _ _ v.marked;
            joined = v.joined;
            blocked = v.blocked;
            writes = record {
              pending = omega (
                arith,
                v.writes.pending,
                length-append s.writes (
                    record {
                      write_state = s.fresh;
                      download = d;
                      content = content;
                      response_keys = keys;
                    }
                    ∷ []),
              );
              bytes = omega (
                arith,
                v.writes.bytes,
                written_bytes-append s.writes (
                    record {
                      write_state = s.fresh;
                      download = d;
                      content = content;
                      response_keys = keys;
                    }
                    ∷ []),
              );
              pending_bound = ground (arith, room);
              bytes_bound = ground (arith, room);
            };
          })
        ]

  signal-Valid :
      (n : ℕ) (s : State qt) (c : Client) (others : List Client) (signal : Signal)
      → Valid qt m q s
      → take_at n s.clients ≡ some (c, others)
      → Valid qt m q (on_signal qt (record s { clients = others }) c.download signal).0
  unfolding on_signal on_request_finished on_request_error
  signal-Valid n s c others (request_error reason) v e = ended-Valid qt n s c others v e
  signal-Valid n s c others (request_finished content may_store) v e =
      let started = ended-Valid qt n s c others v e in
      elim (Bool-cases
        (contains c.download.canonical_key s.downloads_invalidated || not may_store)) [
          | inl skip ↦ rw skip started
          | inr store ↦ rw store (store-Valid _ c.download content _ started)
        ]

  replied-Valid :
      (strings : Strings) (s : State qt) (n : ℕ) (reply : Reply)
      → Valid qt m q s
      → Valid qt m q (replied qt strings s n reply).0
  unfolding replied
  replied-Valid strings s n reply v = elim (Option-cases (take_at n s.clients)) [
    | inl nothing ↦ rw (nothing, replied) v
    | inr ((c, others), found) ↦
        rw (found, replied)
          (signal-Valid n s c others (handle_reply strings c.cancel_requested reply true) v found)
  ]

  written-Valid : (s : State qt) (n : ℕ) → Valid qt m q s → Valid qt m q (written qt s n).0
  unfolding written written_bytes
  written-Valid s n v = elim (Option-cases (take_at n s.writes)) [
    | inl nothing ↦ rw (nothing, written) v
    | inr ((w, others), found) ↦
        let fewer : length s.writes ≡ 1 + length others =
          take_at-sum (λ l. length l) (λ x. 1) (λ x xs. omega arith) n s.writes w others found in
        let less : written_bytes s.writes ≡ length w.content + written_bytes others =
          take_at-sum written_bytes (λ x. length x.content) (λ x xs. refl) n s.writes w others
            found in
        rw (found, written)
          (record {
            marked = moved-Marked s _ _ _ _ _ _ _ _ _ v.marked;
            joined = v.joined;
            blocked = v.blocked;
            writes = record {
              pending = omega (arith, v.writes.pending, fewer);
              bytes = omega (arith, v.writes.bytes, less);
              pending_bound = omega (arith, v.writes.pending_bound);
              bytes_bound = omega (arith, v.writes.bytes_bound);
            };
          })
  ]

  delete-Valid :
      (s : State qt) (provider : Text) (known : Bool) (zoom x_min x_max y_min y_max : ℤ)
      → Valid qt m q s
      → Valid qt m q (delete_tiles qt s provider known zoom x_min x_max y_min y_max)
  unfolding delete_tiles invalidate
  delete-Valid s provider known zoom x_min x_max y_min y_max v =
      elim (Bool-cases (
        ltb_ℤ zoom (pos 0)
        || ltb_ℤ (pos 30) zoom
        || ltb_ℤ x_max x_min
        || ltb_ℤ y_max y_min
        || not known)) [
          | inl refused ↦ rw refused v
          | inr fine ↦ elim (Bool-cases (ltb_ℤ (bounded_y_max zoom y_max) (bounded_y_min y_min))) [
            | inl none_left ↦ rw (fine, none_left) v
            | inr some_left ↦
                rw (fine, some_left)
                  (record {
                    marked = moved-Marked s _ _ _ _ _ _ _ _ _ v.marked;
                    joined = v.joined;
                    blocked = v.blocked;
                    writes = record {
                      pending = v.writes.pending;
                      bytes = v.writes.bytes;
                      pending_bound = v.writes.pending_bound;
                      bytes_bound = v.writes.bytes_bound;
                    };
                  })
          ]
        ]

  pub step-Valid :
      (strings : Strings) (s : State qt) (e : Event)
      → Valid qt m q s
      → Valid qt m q (step qt strings s e).0
  unfolding step
  step-Valid strings s (requested d) v = schedule-Valid qt s d v
  step-Valid strings s (reply_of n reply) v = replied-Valid strings s n reply v
  step-Valid strings s (write_of n) v = written-Valid s n v
  step-Valid strings s cancelled_all v = cancel-Valid qt s v
  step-Valid strings s (deleted provider known zoom x_min x_max y_min y_max) v =
      delete-Valid s provider known zoom x_min x_max y_min y_max v

  pub run_from-Valid :
      (strings : Strings) (s : State qt) (events : List Event)
      → Valid qt m q s
      → Valid qt m q (run qt strings s events).0
  unfolding run
  run_from-Valid strings s [] v = v
  run_from-Valid strings s (e ∷ rest) v =
      run_from-Valid strings (step qt strings s e).0 rest (step-Valid strings s e v)

-- The start.
pub init-Valid :
    (qt : Qt) (cache : qt.Cache) (m q : ℤ)
    → Valid qt (max 1 (pos_part m)) (pos_part q) (init cache m q)
unfolding count count_downloads count_clients clients_from from_origin value_or written_bytes
init-Valid qt cache m q = record {
  marked = record {
    maximum_active = refl;
    maximum_queued = refl;
    active = λ k. refl;
    active_length = refl;
    active_bound = omega arith;
    queued = λ k. refl;
    queued_bound = omega arith;
    once = λ k. omega arith;
    origins = λ o. refl;
    origin_bound = λ o. omega arith;
  };
  joined = λ k. inl refl;
  blocked = tt;
  writes = record {
    pending = refl;
    bytes = refl;
    pending_bound = omega arith;
    bytes_bound = omega arith;
  };
}
