-- ===== src/MapTiles/Queue.antt =====
-- lib/maptiles.cpp: the loop of `startQueuedDownloads`.
use aowis_server_map.Prelude.{
  ℕ, zero, suc, ◌≤◌, ◌≡◌, refl, subst, List, [], ◌∷◌, ◌++◌, append_assoc, append-nil, arith, length,
  leb, some, Bool-cases, Option-cases, inl, inr, All, leb→le,
}
use aowis_server_map.MapTiles.State.{Qt, QueuedDownload, State}
use aowis_server_map.MapTiles.Downloads.{
  start_map_tile_download, take_eligible, dequeue, take_downloads_to_start, start_all,
  start_queued_downloads,
}
use aowis_server_map.MapTiles.Invariant.{Marked, dequeue-Marked, start-Marked, take_eligible-splits}
use aowis_server_map.MapTiles.Starting.{
  Kept-trans, Blocked, take_eligible-none, All-Blocked, dequeue-Kept, start-Kept, Started,
}

module _ (qt : Qt) where
  empty-Blocked : (s : State qt) (l : List QueuedDownload) → length l ≤ 0 → All (Blocked qt s) l
  empty-Blocked s [] h = tt
  empty-Blocked s (d ∷ l) h = absurd (omega arith)

  start-Blocked :
      (t : State qt) (d : QueuedDownload)
      → All (Blocked qt t) t.downloads_queued
      → All (Blocked qt (start_map_tile_download qt t d)) t.downloads_queued
  unfolding start_map_tile_download
  start-Blocked t d b = b

module _ (qt : Qt) {m q : ℕ} where
  -- The loop ends here.
  stops :
      (s : State qt) (starting : List QueuedDownload)
      → Marked qt m q s starting
      → All (Blocked qt s) s.downloads_queued
      → Started qt m q s s starting (starting ++ [])
  stops s starting v b = rw append-nil (record {
    marked = v;
    kept = record {
      same_tiles = λ k. refl;
      same_asked = λ k j. refl;
      same_joined = refl;
      same_writes = refl;
      same_pending = refl;
      same_bytes = refl;
    };
    blocked = b;
  })

  after_dequeue :
      (fuel : ℕ) (s : State qt) (starting : List QueuedDownload) (d : QueuedDownload)
      (others : List QueuedDownload)
      → Marked qt m q s starting
      → take_eligible qt s s.downloads_queued ≡ some (d, others)
      → let next = take_downloads_to_start qt fuel (dequeue qt s d others) in
        Started qt m q
          (dequeue qt s d others)
          next.0
          (starting ++ (d ∷ []))
          ((starting ++ (d ∷ [])) ++ next.1)
        → Started qt m q s next.0 starting (starting ++ (d ∷ next.1))
  after_dequeue fuel s starting d others v found later =
      let next = take_downloads_to_start qt fuel (dequeue qt s d others) in
      subst (λ l. Started qt m q s next.0 starting l) (append_assoc starting (d ∷ []) next.1)
        (record {
          marked = later.marked;
          kept = Kept-trans qt (dequeue-Kept qt d others v found) later.kept;
          blocked = later.blocked;
        })

  take-Started :
      (fuel : ℕ) (s : State qt) (starting : List QueuedDownload)
      → Marked qt m q s starting
      → length s.downloads_queued ≤ fuel
      → Started qt m q s
          (take_downloads_to_start qt fuel s).0
          starting
          (starting ++ (take_downloads_to_start qt fuel s).1)
  unfolding take_downloads_to_start
  take-Started zero s starting v h = stops s starting v (empty-Blocked qt s s.downloads_queued h)
  take-Started (suc fuel) s starting v h =
      elim (Bool-cases (leb s.maximum_active_downloads (length s.downloads_active))) [
        | inl full ↦ rw full (
            stops s starting v (
              All-Blocked qt s s.downloads_queued
                (leb→le s.maximum_active_downloads (length s.downloads_active) full)))
        | inr room ↦ elim (Option-cases (take_eligible qt s s.downloads_queued)) [
          | inl nothing ↦
              rw (room, nothing)
                (stops s starting v (take_eligible-none qt s s.downloads_queued nothing))
          | inr ((d, others), found) ↦
              rw (room, found)
                (after_dequeue fuel s starting d others v found (
                  take-Started fuel (dequeue qt s d others) (starting ++ (d ∷ []))
                    (dequeue-Marked qt d others v found)
                    (omega
                      (arith, (take_eligible-splits qt s s.downloads_queued d others found).1))))
        ]
      ]

  start_all-Started :
      (s t : State qt) (before : List QueuedDownload) (downloads : List QueuedDownload)
      → Started qt m q s t before downloads
      → Started qt m q s (start_all qt t downloads) before []
  unfolding start_all
  start_all-Started s t before [] v = v
  start_all-Started s t before (d ∷ rest) v =
      start_all-Started s (start_map_tile_download qt t d) before rest (record {
        marked = start-Marked qt d v.marked;
        kept = Kept-trans qt v.kept (start-Kept qt t d rest);
        blocked = start-Blocked qt t d v.blocked;
      })

  -- The queue after `startQueuedDownloads`: the invariant holds, nothing is lost, and no download that
  -- still waits could start.
  pub start_queued-Started :
      (s : State qt) → Marked qt m q s [] → Started qt m q s (start_queued_downloads qt s) [] []
  unfolding start_queued_downloads
  start_queued-Started s v =
      let taken = take_downloads_to_start qt (length s.downloads_queued) s in
      start_all-Started s taken.0 [] taken.1
        (take-Started (length s.downloads_queued) s [] v (omega arith))
