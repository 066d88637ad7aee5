-- ===== src/MapTiles/Starting.antt =====
-- lib/maptiles.cpp: `startQueuedDownloads` keeps the invariant and every request, and leaves no download
-- in the queue that could start.
use aowis_server_map.Prelude.{
  ℕ, ◌+◌, ◌≤◌, ◌≡◌, refl, ◌∙◌, Bool, false, ◌&&◌, List, [], ◌∷◌, ◌++◌, Text, eqb, eqb_self, arith,
  length, none, some, Bool-cases, Option-cases, inl, inr, ◌⊎◌, All,
}
use aowis_server_map.MapTiles.Sets.{value_or}
use aowis_server_map.MapTiles.State.{Qt, QueuedDownload, Client, State}
use aowis_server_map.MapTiles.Downloads.{
  download_origin, can_start_download_locked, mark_download_started_locked, start_map_tile_download,
  take_eligible, dequeue,
}
use aowis_server_map.MapTiles.Counts.{bit, count, count-insert, count-remove}
use aowis_server_map.MapTiles.Invariant.{Marked, take_eligible-splits}

-- Whether a download is of the tile `j` and was asked for under the response key `k`, and how many are.
abbrev pub asks : Text → Text → QueuedDownload → Bool
asks k j d = eqb d.canonical_key j && eqb d.response_key k

unfoldable pub downloads_asked : Text → Text → List QueuedDownload → ℕ
downloads_asked k j [] = 0
downloads_asked k j (d ∷ rest) = bit (asks k j d) + downloads_asked k j rest

unfoldable pub clients_asked : Text → Text → List Client → ℕ
clients_asked k j [] = 0
clients_asked k j (c ∷ rest) = bit (asks k j c.download) + clients_asked k j rest

pub downloads_asked-append :
    (k j : Text) (xs ys : List QueuedDownload)
    → downloads_asked k j (xs ++ ys) ≡ downloads_asked k j xs + downloads_asked k j ys
unfolding downloads_asked
downloads_asked-append k j [] ys = omega arith
downloads_asked-append k j (x ∷ xs) ys = omega (arith, downloads_asked-append k j xs ys)

pub clients_asked-append :
    (k j : Text) (xs ys : List Client)
    → clients_asked k j (xs ++ ys) ≡ clients_asked k j xs + clients_asked k j ys
unfolding clients_asked
clients_asked-append k j [] ys = omega arith
clients_asked-append k j (x ∷ xs) ys = omega (arith, clients_asked-append k j xs ys)

module _ (qt : Qt) where
  -- The active and queued downloads of a tile, and those asked for under a response key.
  abbrev pub tiles : Text → State qt → ℕ
  tiles k s = count k s.downloads_active + count k s.downloads_queued_keys

  abbrev pub asked : Text → Text → State qt → List QueuedDownload → ℕ
  asked k j s starting =
      clients_asked k j s.clients
      + downloads_asked k j s.downloads_queued
      + downloads_asked k j starting

  -- What the starting of downloads leaves as it was.
  pub record Kept (s t : State qt) (before after : List QueuedDownload) : Type 0 where
    pub same_tiles : (k : Text) → tiles k t ≡ tiles k s
    pub same_asked : (k j : Text) → asked k j t after ≡ asked k j s before
    pub same_joined : t.joined ≡ s.joined
    pub same_writes : t.writes ≡ s.writes
    pub same_pending : t.pending_cache_writes ≡ s.pending_cache_writes
    pub same_bytes : t.pending_cache_write_bytes ≡ s.pending_cache_write_bytes

  pub Kept-trans :
      {s t u : State qt} {a b c : List QueuedDownload} → Kept s t a b → Kept t u b c → Kept s u a c
  Kept-trans k l = record {
    same_tiles = λ x. l.same_tiles x ∙ k.same_tiles x;
    same_asked = λ x y. l.same_asked x y ∙ k.same_asked x y;
    same_joined = l.same_joined ∙ k.same_joined;
    same_writes = l.same_writes ∙ k.same_writes;
    same_pending = l.same_pending ∙ k.same_pending;
    same_bytes = l.same_bytes ∙ k.same_bytes;
  }

  -- Why a download in the queue cannot start: all slots are taken, or all of its origin are.
  abbrev pub Blocked : State qt → QueuedDownload → Type 0
  Blocked s d =
      (s.maximum_active_downloads ≤ length s.downloads_active)
      ⊎ (6 ≤ value_or (download_origin qt d.url) 0 s.per_origin)

  pub take_eligible-none :
      (s : State qt) (l : List QueuedDownload) → take_eligible qt s l ≡ none → All (Blocked s) l
  unfolding take_eligible can_start_download_locked
  take_eligible-none s [] e = tt
  take_eligible-none s (d ∷ l) e = elim (Option-cases (take_eligible qt s l)) [
    | inl nothing ↦ (ground (arith, e, nothing), take_eligible-none s l nothing)
    | inr (found, more) ↦ absurd (ground (arith, e, more))
  ]

  pub All-Blocked :
      (s : State qt) (l : List QueuedDownload)
      → s.maximum_active_downloads ≤ length s.downloads_active
      → All (Blocked s) l
  All-Blocked s [] h = tt
  All-Blocked s (d ∷ l) h = (inl h, All-Blocked s l h)

  take_eligible-asked :
      (s : State qt) (l : List QueuedDownload) (d : QueuedDownload) (others : List QueuedDownload)
      (k j : Text)
      → take_eligible qt s l ≡ some (d, others)
      → downloads_asked k j l ≡ bit (asks k j d) + downloads_asked k j others
  unfolding take_eligible downloads_asked
  take_eligible-asked s [] d others k j e = ground arith
  take_eligible-asked s (x ∷ l) d others k j e =
      elim (Bool-cases (can_start_download_locked qt s x)) [
        | inl can ↦
            let same : (x ≡ d) × (l ≡ others) = ground (arith, e, can) in
            ground (arith, same.0, same.1)
        | inr cannot ↦ elim (Option-cases (take_eligible qt s l)) [
          | inl nothing ↦ absurd (ground (arith, e, cannot, nothing))
          | inr ((d', others'), found) ↦
              let same : (d' ≡ d) × (x ∷ others' ≡ others) = ground (arith, e, cannot, found) in
              ground (arith, same.0, same.1, take_eligible-asked s l d' others' k j found)
        ]
      ]

  pub dequeue-Kept :
      {m q : ℕ} {s : State qt} {starting : List QueuedDownload} (d : QueuedDownload)
      (others : List QueuedDownload)
      → Marked qt m q s starting
      → take_eligible qt s s.downloads_queued ≡ some (d, others)
      → Kept s (dequeue qt s d others) starting (starting ++ (d ∷ []))
  unfolding dequeue mark_download_started_locked downloads_asked
  dequeue-Kept {m} {q} {s} {starting} d others v e =
      let split = take_eligible-splits qt s s.downloads_queued d others e in
      let key = d.canonical_key in
      let here : count key s.downloads_queued_keys ≡ 1 =
        ground (arith, v.queued key, split.2 key, v.once key, eqb_self key) in
      let free : count key s.downloads_active ≡ 0 = omega (arith, v.once key) in
      record {
        same_tiles = λ k. ground (
          arith,
          v.queued k,
          split.2 k,
          v.once k,
          count-remove k key s.downloads_queued_keys,
          count-insert k key s.downloads_active free,
        );
        same_asked = λ k j. omega (
          arith,
          take_eligible-asked s s.downloads_queued d others k j e,
          downloads_asked-append k j starting (d ∷ []),
        );
        same_joined = refl;
        same_writes = refl;
        same_pending = refl;
        same_bytes = refl;
      }

  pub start-Kept :
      (s : State qt) (d : QueuedDownload) (starting : List QueuedDownload)
      → Kept s (start_map_tile_download qt s d) (d ∷ starting) starting
  unfolding start_map_tile_download downloads_asked clients_asked
  start-Kept s d starting = record {
    same_tiles = λ k. refl;
    same_asked = λ k j. omega (
      arith,
      clients_asked-append k j s.clients
          (record { client = s.fresh; download = d; cancel_requested = false } ∷ []),
    );
    same_joined = refl;
    same_writes = refl;
    same_pending = refl;
    same_bytes = refl;
  }

  -- The state after a loop, beside the one before it.
  pub record Started (m q : ℕ) (s t : State qt) (before after : List QueuedDownload) : Type 0 where
    pub marked : Marked qt m q t after
    pub kept : Kept s t before after
    pub blocked : All (Blocked t) t.downloads_queued
