-- ===== src/MapTiles/Waits.antt =====
-- lib/maptiles.cpp: the requests that wait for a tile, and the operations that keep them waiting or
-- answer them.
use aowis_server_map.Prelude.{
  ℕ, ◌+◌, ◌≤◌, ◌≡◌, refl, ap, true, false, ◌||◌, ◌&&◌, List, [], ◌∷◌, ◌++◌, Text, is_empty, eqb,
  eqb_self, eqb→eq, if◌then◌else◌, arith, length, leb, some, Bool-cases, inl, inr,
}
use aowis_server_map.MapTiles.Sets.{contains, value_or}
use aowis_server_map.MapTiles.State.{Qt, QueuedDownload, scheduled, Client, CacheWrite, State}
use aowis_server_map.MapTiles.Downloads.{
  can_start_download_locked, mark_download_started_locked, start_map_tile_download, join_download,
  schedule_map_tile_download, mark_download_finished_locked, append_missing,
  take_response_keys_locked,
}
use aowis_server_map.MapTiles.Replies.{Response, respond, take_at, finish_download}
use aowis_server_map.MapTiles.Counts.{bit, value_or-put, value_or-drop_key, value_same}
use aowis_server_map.MapTiles.Starting.{
  asks, downloads_asked, clients_asked, downloads_asked-append, clients_asked-append, asked,
}
use aowis_server_map.MapTiles.Ends.{take_at-sum}

-- The writes whose end answers the response key `k` with the tile `j`.
unfoldable pub writes_asked : Text → Text → List CacheWrite → ℕ
writes_asked k j [] = 0
writes_asked k j (w ∷ rest) =
    bit (eqb w.download.canonical_key j && contains k w.response_keys) + writes_asked k j rest

pub writes_asked-append :
    (k j : Text) (xs ys : List CacheWrite)
    → writes_asked k j (xs ++ ys) ≡ writes_asked k j xs + writes_asked k j ys
unfolding writes_asked
writes_asked-append k j [] ys = omega arith
writes_asked-append k j (x ∷ xs) ys = omega (arith, writes_asked-append k j xs ys)

-- How many signals carry the response key.
unfoldable pub answered : Text → List (Text × Response) → ℕ
answered k [] = 0
answered k ((key, response) ∷ rest) = bit (eqb key k) + answered k rest

pub answered-append :
    (k : Text) (xs ys : List (Text × Response))
    → answered k (xs ++ ys) ≡ answered k xs + answered k ys
unfolding answered
answered-append k [] ys = omega arith
answered-append k ((key, response) ∷ xs) ys = omega (arith, answered-append k xs ys)

pub answered-respond :
    (k : Text) (response : Response) (keys : List Text)
    → bit (contains k keys) ≤ answered k (respond response keys)
unfolding contains answered
answered-respond k response [] = omega arith
answered-respond k response (key ∷ keys) = ground (arith, answered-respond k response keys)

pub contains-append :
    (k : Text) (xs ys : List Text) → contains k (xs ++ ys) ≡ contains k xs || contains k ys
unfolding contains
contains-append k [] ys = refl
contains-append k (x ∷ xs) ys = ground (arith, contains-append k xs ys)

contains_same : (j k : Text) (l : List Text) → eqb j k ≡ true → contains j l ≡ contains k l
contains_same j k l h = ap (λ t. contains t l) (eqb→eq j k h)

eqb_empty : (a k : Text) → is_empty a ≡ true → is_empty k ≡ false → eqb a k ≡ false
unfolding eqb
eqb_empty [] [] e h = ground (arith, h)
eqb_empty [] (y ∷ k) e h = refl
eqb_empty (x ∷ a) k e h = ground (arith, e)

module _ (qt : Qt) where
  -- How often the response key `k` waits for the tile `j`: through a client, a queued download, a request
  -- that joined one, or a write.
  abbrev pub waits : Text → Text → State qt → ℕ
  waits k j s =
      asked qt k j s [] + bit (contains k (value_or j [] s.joined)) + writes_asked k j s.writes

  contains-append_missing :
      (k : Text) (keys l : List Text)
      → contains k (append_missing qt keys l) ≡ contains k keys || contains k l
  unfolding append_missing contains
  contains-append_missing k keys [] = ground arith
  contains-append_missing k keys (key ∷ l) = elim (Bool-cases (contains key keys)) [
    | inl old ↦
        rw old (ground (arith, contains-append_missing k keys l, old, contains_same key k keys))
    | inr new ↦ rw new (
        ground (
          arith,
          contains-append_missing k (keys ++ (key ∷ [])) l,
          contains-append k keys (key ∷ []),
        ))
  ]

  -- The response keys that are taken hold all that wait for the tile.
  pub contains-taken :
      (s : State qt) (d : QueuedDownload) (k : Text)
      → is_empty k ≡ false
      → contains k (take_response_keys_locked qt s d).1
        ≡ eqb d.response_key k || contains k (value_or d.canonical_key [] s.joined)
  unfolding take_response_keys_locked contains
  contains-taken s d k h =
      let l = value_or d.canonical_key [] s.joined in
      elim (Bool-cases (is_empty d.response_key)) [
        | inl e ↦
            rw e
              (ground (arith, h, e, contains-append_missing k [] l, eqb_empty d.response_key k e h))
        | inr e ↦ rw e (ground (arith, contains-append_missing k (d.response_key ∷ []) l))
      ]

  -- The end of a download: what waited still waits, or is among the keys that are taken.
  pub finish-waits :
      (n : ℕ) (s : State qt) (c : Client) (others : List Client) (k j : Text)
      → is_empty k ≡ false
      → take_at n s.clients ≡ some (c, others)
      → let finished = finish_download qt (record s { clients = others }) c.download in
        1 ≤ waits k j s
        → 1 ≤ waits k j finished.0 + bit (eqb c.download.canonical_key j && contains k finished.1)
  unfolding finish_download clients_asked downloads_asked mark_download_finished_locked
      take_response_keys_locked
  finish-waits n s c others k j h e w =
      let key = c.download.canonical_key in
      ground (
        arith,
        w,
        take_at-sum (clients_asked k j) (λ x. bit (asks k j x.download)) (λ x xs. refl) n s.clients
            c others e,
        contains-taken s c.download k h,
        value_or-drop_key j key [] s.joined,
        value_same key j [] s.joined,
      )

  join-waits :
      (s : State qt) (d : QueuedDownload) (k j : Text)
      → (waits k j s ≤ waits k j (join_download qt s d))
        × (is_empty d.response_key ≡ false
            → 1 ≤ waits d.response_key d.canonical_key (join_download qt s d))
  unfolding join_download contains
  join-waits s d k j =
      let key = d.canonical_key in
      let keys = value_or key [] s.joined in
      let all = if contains d.response_key keys then keys else keys ++ (d.response_key ∷ []) in
      elim (Bool-cases (is_empty d.response_key)) [
        | inl e ↦ rw e (omega arith, λ h. absurd (ground (arith, h)))
        | inr e ↦ rw e (
          ground (
            arith,
            value_or-put j key [] all s.joined,
            value_same key j [] s.joined,
            contains-append k keys (d.response_key ∷ []),
          ),
          λ h. ground (
            arith,
            value_or-put key key [] all s.joined,
            eqb_self key,
            contains-append d.response_key keys (d.response_key ∷ []),
            eqb_self d.response_key,
          ),
        )
      ]

  start-waits :
      (s : State qt) (d : QueuedDownload) (k j : Text)
      → waits k j (start_map_tile_download qt (mark_download_started_locked qt s d) d)
        ≡ waits k j s + bit (asks k j d)
  unfolding start_map_tile_download mark_download_started_locked clients_asked
  start-waits s d k j = omega (
    arith,
    clients_asked-append k j s.clients
        (record { client = s.fresh; download = d; cancel_requested = false } ∷ []),
  )

  -- A download that is accepted waits, and what waited before still does.
  pub schedule-waits :
      (s : State qt) (d : QueuedDownload) (k j : Text)
      → let r = schedule_map_tile_download qt s d in
        (waits k j s ≤ waits k j r.0)
        × (is_empty d.response_key ≡ false
            → r.1 ≡ scheduled
            → 1 ≤ waits d.response_key d.canonical_key r.0)
  unfolding schedule_map_tile_download downloads_asked
  schedule-waits s d k j =
      let key = d.canonical_key in
      let own : asks d.response_key key d ≡ true =
        ground (arith, eqb_self key, eqb_self d.response_key) in
      elim (Bool-cases (contains key s.downloads_active || contains key s.downloads_queued_keys)) [
        | inl here ↦ rw here (let joined = join-waits s d k j in (joined.0, λ h r. joined.1 h))
        | inr away ↦ elim (Bool-cases (can_start_download_locked qt s d)) [
          | inl can ↦
              rw (away, can)
                (
                  omega (arith, start-waits s d k j),
                  λ h r. ground (arith, own, start-waits s d d.response_key key),
                )
          | inr cannot ↦
              elim (Bool-cases (leb s.maximum_queued_downloads (length s.downloads_queued))) [
                | inl full ↦
                    rw (away, cannot, full) (omega arith, λ h r. absurd (ground (arith, r)))
                | inr room ↦
                    rw (away, cannot, room)
                      (
                        omega (arith, downloads_asked-append k j s.downloads_queued (d ∷ [])),
                        λ h r. ground (
                          arith,
                          own,
                          downloads_asked-append d.response_key key s.downloads_queued (d ∷ []),
                        ),
                      )
              ]
        ]
      ]
