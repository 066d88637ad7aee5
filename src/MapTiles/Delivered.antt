-- ===== src/MapTiles/Delivered.antt =====
-- lib/maptiles.cpp: no reply and no write loses a request.
use aowis_server_map.Prelude.{
  ℕ, ◌+◌, ◌*◌, ◌≤◌, ◌≡◌, refl, ap, Bool, true, false, not, ◌||◌, ◌&&◌, List, [], ◌∷◌, Bytes, Text,
  is_empty, eqb, arith, length, ltb, leb, some, Bool-cases, Option-cases, inl, inr,
}
use aowis_server_map.Platform.Strings.{Strings}
use aowis_server_map.MapTiles.Sets.{contains, value_or}
use aowis_server_map.MapTiles.State.{Qt, QueuedDownload, Client, State}
use aowis_server_map.MapTiles.HttpClient.{
  Reply, Signal, request_finished, request_error, handle_reply,
}
use aowis_server_map.MapTiles.Downloads.{start_queued_downloads}
use aowis_server_map.MapTiles.Replies.{
  Response, tile_ready, tile_failed, failure_reason, respond, take_at, finish_download, store_tile,
  on_request_finished, on_request_error, on_signal, replied, written,
}
use aowis_server_map.MapTiles.Counts.{bit}
use aowis_server_map.MapTiles.Starting.{Started}
use aowis_server_map.MapTiles.Queue.{start_queued-Started}
use aowis_server_map.MapTiles.Valid.{Valid}
use aowis_server_map.MapTiles.Ends.{take_at-sum, finish-Marked}
use aowis_server_map.MapTiles.Waits.{
  writes_asked, writes_asked-append, answered, answered-respond, waits, finish-waits,
}

module _ (qt : Qt) (k j : Text) (h : is_empty k ≡ false) where
  -- What started left alone.
  Started-waits :
      {m q : ℕ} (s t : State qt) → Started qt m q s t [] [] → waits qt k j t ≡ waits qt k j s
  Started-waits s t r = omega (
    arith,
    r.kept.same_asked k j,
    ap (λ l. bit (contains k (value_or j [] l))) r.kept.same_joined,
    ap (writes_asked k j) r.kept.same_writes,
  )

  store-waits :
      (s : State qt) (d : QueuedDownload) (content : Bytes) (keys : List Text)
      → let r = store_tile qt s d content keys in
        waits qt k j s + bit (eqb d.canonical_key j && contains k keys)
        ≤ waits qt k j r.0 + answered k r.1
  unfolding store_tile writes_asked answered
  store-waits s d content keys =
      elim (Bool-cases (
        leb 64 s.pending_cache_writes
        || ltb (64 * 1024 * 1024) (length content + s.pending_cache_write_bytes))) [
          | inl full ↦ rw full (ground (arith, answered-respond k (tile_ready content) keys))
          | inr room ↦ rw room (
              omega (
                arith,
                writes_asked-append k j s.writes (
                    record {
                      write_state = s.fresh;
                      download = d;
                      content = content;
                      response_keys = keys;
                    }
                    ∷ []),
              ))
        ]

  -- The end of a download and the start of others.
  ended-waits :
      {m q : ℕ} (n : ℕ) (s : State qt) (c : Client) (others : List Client)
      → Valid qt m q s
      → take_at n s.clients ≡ some (c, others)
      → 1 ≤ waits qt k j s
      → let finished = finish_download qt (record s { clients = others }) c.download in
        1
        ≤ waits qt k j (start_queued_downloads qt finished.0)
          + bit (eqb c.download.canonical_key j && contains k finished.1)
  ended-waits n s c others v e w =
      let finished = finish_download qt (record s { clients = others }) c.download in
      let started = start_queued-Started qt finished.0 (finish-Marked qt n s c others v.marked e) in
      omega (
        arith,
        finish-waits qt n s c others k j h e w,
        Started-waits finished.0 (start_queued_downloads qt finished.0) started,
      )

  responded :
      (before : ℕ) (covered : Bool) (response : Response) (keys : List Text)
      → 1 ≤ before + bit (covered && contains k keys)
      → 1 ≤ before + answered k (respond response keys)
  responded before covered response keys w = ground (arith, w, answered-respond k response keys)

  -- What waited before a callback waits after it, or is answered by it.
  signal-waits :
      {m q : ℕ} (n : ℕ) (s : State qt) (c : Client) (others : List Client) (signal : Signal)
      → Valid qt m q s
      → take_at n s.clients ≡ some (c, others)
      → 1 ≤ waits qt k j s
      → let r = on_signal qt (record s { clients = others }) c.download signal in
        1 ≤ waits qt k j r.0 + answered k r.1
  unfolding on_signal on_request_finished on_request_error
  signal-waits n s c others (request_error reason) v e w =
      let finished = finish_download qt (record s { clients = others }) c.download in
      responded (waits qt k j (start_queued_downloads qt finished.0))
        (eqb c.download.canonical_key j) (tile_failed (failure_reason reason)) finished.1
        (ended-waits n s c others v e w)
  signal-waits n s c others (request_finished content may_store) v e w =
      let finished = finish_download qt (record s { clients = others }) c.download in
      let started = start_queued_downloads qt finished.0 in
      elim (Bool-cases
        (contains c.download.canonical_key s.downloads_invalidated || not may_store)) [
          | inl skip ↦ rw skip (
              responded (waits qt k j started) (eqb c.download.canonical_key j) (tile_ready content)
                finished.1 (ended-waits n s c others v e w))
          | inr store ↦ rw store (
              omega (
                arith,
                ended-waits n s c others v e w,
                store-waits started c.download content finished.1,
              ))
        ]

  pub replied-waits :
      {m q : ℕ} (strings : Strings) (s : State qt) (n : ℕ) (reply : Reply)
      → Valid qt m q s
      → 1 ≤ waits qt k j s
      → let r = replied qt strings s n reply in 1 ≤ waits qt k j r.0 + answered k r.1
  unfolding replied
  replied-waits strings s n reply v w = elim (Option-cases (take_at n s.clients)) [
    | inl nothing ↦ rw (nothing, replied) (omega (arith, w))
    | inr ((c, others), found) ↦
        rw (found, replied)
          (signal-waits n s c others (handle_reply strings c.cancel_requested reply true) v found w)
  ]

  pub written-waits :
      (s : State qt) (n : ℕ)
      → let r = written qt s n in waits qt k j s ≤ waits qt k j r.0 + answered k r.1
  unfolding written writes_asked
  written-waits s n = elim (Option-cases (take_at n s.writes)) [
    | inl nothing ↦ rw (nothing, written) (omega arith)
    | inr ((w, others), found) ↦
        rw (found, written)
          (ground (
            arith,
            take_at-sum (writes_asked k j)
                (λ x. bit (eqb x.download.canonical_key j && contains k x.response_keys))
                (λ x xs. refl) n s.writes w others found,
            answered-respond k (tile_ready w.content) w.response_keys,
          ))
  ]
