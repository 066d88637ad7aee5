-- ===== src/MapTiles/Limits.antt =====
-- lib/maptiles.cpp: the limits of the downloads and the writes, the use of the slots, and the answers,
-- over any sequence of events from the start.
use aowis_server_map.Prelude.{
  ℕ, max, ◌+◌, ◌*◌, ◌≤◌, ◌≡◌, refl, ap, false, List, [], ◌∷◌, Text, is_empty, arith, length, inl,
  inr, ◌⊎◌, All,
}
use aowis_server_map.Prelude.Int.{ℤ, pos_part}
use aowis_server_map.Platform.Strings.{Strings}
use aowis_server_map.MapTiles.Sets.{contains, value_or}
use aowis_server_map.MapTiles.State.{Qt, QueuedDownload, scheduled, Client, State, init}
use aowis_server_map.MapTiles.Downloads.{download_origin, schedule_map_tile_download}
use aowis_server_map.MapTiles.Replies.{Event, run}
use aowis_server_map.MapTiles.Counts.{bit, count, count_clients, count_downloads}
use aowis_server_map.MapTiles.Invariant.{clients_from, from_origin, Marked}
use aowis_server_map.MapTiles.Starting.{downloads_asked, clients_asked, Blocked}
use aowis_server_map.MapTiles.Valid.{Valid, schedule-Valid, written_bytes}
use aowis_server_map.MapTiles.Steps.{run_from-Valid, init-Valid}
use aowis_server_map.MapTiles.Waits.{writes_asked, answered, waits, schedule-waits}
use aowis_server_map.MapTiles.Answers.{run-waits}

module _ (qt : Qt) where
  -- The limits on what is at work and in the queue.
  pub record Limited (m q : ℕ) (s : State qt) : Type 0 where
    pub downloads : length s.clients ≤ m
    pub origins : (o : Text) → clients_from qt o s.clients ≤ 6
    pub queue : length s.downloads_queued ≤ q
    pub distinct : (k : Text) → count_clients k s.clients + count_downloads k s.downloads_queued ≤ 1
    pub writes : length s.writes ≤ 64
    pub bytes : written_bytes s.writes ≤ 64 * 1024 * 1024

  -- All slots are taken by clients, or all slots of the download's origin are.
  abbrev pub Waits : ℕ → State qt → QueuedDownload → Type 0
  Waits m s d = (length s.clients ≡ m) ⊎ (clients_from qt (download_origin qt d.url) s.clients ≡ 6)

  -- On any sequence of requests, replies, ended writes, cancellations and deletions from the start:
  -- there are never more clients at work than the maximum, nor more than six for one origin; the queue
  -- holds at most its maximum; no tile is downloaded or queued twice at a time; and at most 64 writes
  -- with at most 64 MiB are pending. A maximum of downloads below 1 counts as 1, one of the queue below
  -- 0 as 0.
  pub run-Limited :
      (strings : Strings) (cache : qt.Cache) (m q : ℤ) (events : List Event)
      → Limited (max 1 (pos_part m)) (pos_part q) (run qt strings (init cache m q) events).0
  run-Limited strings cache m q events =
      let v = run_from-Valid qt strings (init cache m q) events (init-Valid qt cache m q) in
      let marked = v.marked in
      record {
        downloads = omega (arith, marked.active_length, marked.active_bound);
        origins = λ o. omega (arith, marked.origins o, marked.origin_bound o);
        queue = marked.queued_bound;
        distinct = λ k. omega (arith, marked.active k, marked.queued k, marked.once k);
        writes = omega (arith, v.writes.pending, v.writes.pending_bound);
        bytes = omega (arith, v.writes.bytes, v.writes.bytes_bound);
      }

  Blocked-Waits :
      {m q : ℕ} (s : State qt) (l : List QueuedDownload)
      → Marked qt m q s []
      → All (Blocked qt s) l
      → All (Waits m s) l
  unfolding from_origin
  Blocked-Waits s [] v b = tt
  Blocked-Waits s (d ∷ l) v b =
      let origin = download_origin qt d.url in
      (
        elim b.0 [
          | inl full ↦ inl (omega (arith, full, v.active_length, v.active_bound, v.maximum_active))
          | inr used ↦ inr (omega (arith, used, v.origins origin, v.origin_bound origin))
        ],
        Blocked-Waits s l v b.1,
      )

  -- On any sequence of events from the start, no download waits without need: for each one in the
  -- queue either the maximum of clients is at work, or six are at work for its origin.
  pub run-Waits :
      (strings : Strings) (cache : qt.Cache) (m q : ℤ) (events : List Event)
      → let s = (run qt strings (init cache m q) events).0 in
        All (Waits (max 1 (pos_part m)) s) s.downloads_queued
  run-Waits strings cache m q events =
      let s = (run qt strings (init cache m q) events).0 in
      let v = run_from-Valid qt strings (init cache m q) events (init-Valid qt cache m q) in
      Blocked-Waits s s.downloads_queued v.marked v.blocked

  empty_queue :
      (m : ℕ) (s : State qt) (l : List QueuedDownload)
      → 1 ≤ m
      → s.clients ≡ []
      → All (Waits m s) l
      → l ≡ []
  unfolding clients_from
  empty_queue m s [] positive idle w = refl
  empty_queue m s (d ∷ l) positive idle w = absurd (elim w.0 [
    | inl full ↦ omega (arith, full, ap (λ (c : List Client). length c) idle)
    | inr used ↦ omega (arith, used, ap (clients_from qt (download_origin qt d.url)) idle)
  ])

  -- Nothing waits where nothing is at work.
  idle-waits :
      {m q : ℕ} (s : State qt) (k j : Text)
      → 1 ≤ m
      → Valid qt m q s
      → s.clients ≡ []
      → s.writes ≡ []
      → waits qt k j s ≡ 0
  unfolding count_clients count_downloads downloads_asked clients_asked writes_asked contains
  idle-waits {m = m} s k j positive v idle done =
      let queue =
        empty_queue m s s.downloads_queued positive idle
          (Blocked-Waits s s.downloads_queued v.marked v.blocked) in
      let no_tiles : count j s.downloads_active + count j s.downloads_queued_keys ≡ 0 = omega (
        arith,
        v.marked.active j,
        v.marked.queued j,
        ap (count_clients j) idle,
        ap (count_downloads j) queue,
      ) in
      let no_joined : value_or j [] s.joined ≡ [] = elim (v.joined j) [
        | inl e ↦ e
        | inr some_left ↦ absurd (omega (arith, no_tiles))
      ] in
      omega (
        arith,
        ap (clients_asked k j) idle,
        ap (downloads_asked k j) queue,
        ap (λ l. bit (contains k l)) no_joined,
        ap (writes_asked k j) done,
      )

  -- A request that is accepted after any sequence of events, with a response key, is answered: after any
  -- further events, once no client and no write is at work, a signal with its response key has been
  -- sent since. Requests that join another download of the tile are no exception, nor are those whose
  -- download failed, was cancelled or was not stored.
  pub run-answered :
      (strings : Strings) (cache : qt.Cache) (m q : ℤ) (before after : List Event)
      (d : QueuedDownload)
      → let accepted = schedule_map_tile_download qt (run qt strings (init cache m q) before).0 d in
        let end = run qt strings accepted.0 after in
        is_empty d.response_key ≡ false
        → accepted.1 ≡ scheduled
        → end.0.clients ≡ []
        → end.0.writes ≡ []
        → 1 ≤ answered d.response_key end.1
  run-answered strings cache m q before after d named taken idle done =
      let s = (run qt strings (init cache m q) before).0 in
      let v = run_from-Valid qt strings (init cache m q) before (init-Valid qt cache m q) in
      let accepted = schedule_map_tile_download qt s d in
      let end = run qt strings accepted.0 after in
      let k = d.response_key in
      let j = d.canonical_key in
      let w =
        run-waits qt k j named strings accepted.0 after (schedule-Valid qt s d v)
          ((schedule-waits qt s d k j).1 named taken) in
      let valid = run_from-Valid qt strings accepted.0 after (schedule-Valid qt s d v) in
      omega (arith, w, idle-waits end.0 k j (omega arith) valid idle done)
