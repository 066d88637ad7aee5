-- ===== src/MapTiles/Answers.antt =====
-- lib/maptiles.cpp: no step loses a request, and when nothing is at work all requests are answered.
use aowis_server_map.Prelude.{
  ℕ, ◌+◌, ◌≤◌, ◌≡◌, refl, ap, Bool, false, not, ◌||◌, List, [], ◌∷◌, Text, is_empty, arith, ltb,
  ltb→lt, Bool-cases, inl, inr,
}
use aowis_server_map.Prelude.Int.{ℤ, pos, ltb_ℤ}
use aowis_server_map.Platform.Strings.{Strings}
use aowis_server_map.MapTiles.Sets.{contains, remove, value_or, drop_key, values}
use aowis_server_map.MapTiles.State.{Qt, QueuedDownload, Client, State}
use aowis_server_map.MapTiles.Downloads.{take_response_keys_locked}
use aowis_server_map.MapTiles.Range.{bounded_y_min, bounded_y_max}
use aowis_server_map.MapTiles.Replies.{
  tile_failed, cancelled, drain_queue, cancel_clients, cancel_upstream_downloads, invalidate,
  delete_tiles, Event, requested, reply_of, write_of, cancelled_all, deleted, step, run,
}
use aowis_server_map.MapTiles.Counts.{bit, value_or-drop_key, value_same}
use aowis_server_map.MapTiles.Starting.{downloads_asked, clients_asked}
use aowis_server_map.MapTiles.Valid.{Valid}
use aowis_server_map.MapTiles.Cancels.{Undrained, drain-Undrained}
use aowis_server_map.MapTiles.Steps.{step-Valid}
use aowis_server_map.MapTiles.Delivered.{replied-waits, written-waits}
use aowis_server_map.MapTiles.Waits.{
  writes_asked, answered, answered-append, answered-respond, contains-append, waits, contains-taken,
  schedule-waits,
}

asked-cancel_clients :
    (k j : Text) (ids : List ℕ) (l : List Client)
    → clients_asked k j (cancel_clients ids l) ≡ clients_asked k j l
unfolding clients_asked cancel_clients
asked-cancel_clients k j ids [] = refl
asked-cancel_clients k j ids (c ∷ l) = ground (arith, asked-cancel_clients k j ids l)

module _ (qt : Qt) (k j : Text) (h : is_empty k ≡ false) where
  -- Draining the queue takes the keys that wait for its tiles.
  drain-waits :
      (s : State qt) (l : List QueuedDownload)
      → let r = drain_queue qt s l in
        1 ≤ downloads_asked k j l + bit (contains k (value_or j [] s.joined))
        → 1 ≤ bit (contains k (value_or j [] r.0.joined)) + bit (contains k r.1)
  unfolding drain_queue downloads_asked take_response_keys_locked
  drain-waits s [] w = omega (arith, w)
  drain-waits s (d ∷ l) w =
      let key = d.canonical_key in
      let keys = (take_response_keys_locked qt s d).1 in
      let next : State qt = record s {
        joined = drop_key key s.joined;
        downloads_invalidated = remove key s.downloads_invalidated;
      } in
      let both = contains-append k keys (drain_queue qt next l).1 in
      elim (Bool-cases (contains k keys)) [
        | inl here ↦ ground (arith, both, here)
        | inr away ↦
            let left : 1 ≤ downloads_asked k j l + bit (contains k (value_or j [] next.joined)) =
              ground (
                arith,
                w,
                away,
                contains-taken qt s d k h,
                value_or-drop_key j key [] s.joined,
                value_same key j [] s.joined,
              ) in
            ground (arith, both, drain-waits next l left)
      ]

  cancel-waits :
      (s : State qt)
      → 1 ≤ waits qt k j s
      → let r = cancel_upstream_downloads qt s in 1 ≤ waits qt k j r.0 + answered k r.1
  unfolding cancel_upstream_downloads downloads_asked
  cancel-waits s w =
      let r = drain_queue qt s s.downloads_queued in
      let u : Undrained qt s r.0 = drain-Undrained qt s s.downloads_queued in
      elim (Bool-cases (
        ltb 0
          (downloads_asked k j s.downloads_queued + bit (contains k (value_or j [] s.joined))))) [
            | inl leaves ↦ ground (
              arith,
              drain-waits s s.downloads_queued (ltb→lt 0 _ leaves),
              answered-respond k (tile_failed cancelled) r.1,
            )
            | inr stays ↦ ground (
              arith,
              w,
              stays,
              ap (clients_asked k j) u.clients,
              ap (writes_asked k j) u.writes,
              asked-cancel_clients k j (values s.active_clients) r.0.clients,
            )
          ]

  delete-waits :
      (s : State qt) (provider : Text) (known : Bool) (zoom x_min x_max y_min y_max : ℤ)
      → waits qt k j (delete_tiles qt s provider known zoom x_min x_max y_min y_max)
        ≡ waits qt k j s
  unfolding delete_tiles invalidate
  delete-waits s provider known zoom x_min x_max y_min y_max =
      elim (Bool-cases (
        ltb_ℤ zoom (pos 0)
        || ltb_ℤ (pos 30) zoom
        || ltb_ℤ x_max x_min
        || ltb_ℤ y_max y_min
        || not known)) [
          | inl refused ↦ rw refused refl
          | inr fine ↦ elim (Bool-cases (ltb_ℤ (bounded_y_max zoom y_max) (bounded_y_min y_min))) [
            | inl nothing ↦ rw (fine, nothing) refl
            | inr some_left ↦ rw (fine, some_left) refl
          ]
        ]

  pub step-waits :
      {m q : ℕ} (strings : Strings) (s : State qt) (e : Event)
      → Valid qt m q s
      → 1 ≤ waits qt k j s
      → let r = step qt strings s e in 1 ≤ waits qt k j r.0 + answered k r.1
  unfolding step
  step-waits strings s (requested d) v w = omega (arith, w, (schedule-waits qt s d k j).0)
  step-waits strings s (reply_of n reply) v w = replied-waits qt k j h strings s n reply v w
  step-waits strings s (write_of n) v w = omega (arith, w, written-waits qt k j h s n)
  step-waits strings s cancelled_all v w = cancel-waits s w
  step-waits strings s (deleted provider known zoom x_min x_max y_min y_max) v w =
      omega (arith, w, delete-waits s provider known zoom x_min x_max y_min y_max)

  pub run-waits :
      {m q : ℕ} (strings : Strings) (s : State qt) (events : List Event)
      → Valid qt m q s
      → 1 ≤ waits qt k j s
      → let r = run qt strings s events in 1 ≤ waits qt k j r.0 + answered k r.1
  unfolding run
  run-waits strings s [] v w = omega (arith, w)
  run-waits strings s (e ∷ rest) v w =
      let r = step qt strings s e in
      let later = run qt strings r.0 rest in
      elim (Bool-cases (ltb 0 (answered k r.1))) [
        | inl here ↦ ground (arith, here, answered-append k r.1 later.1)
        | inr away ↦
            let waiting : 1 ≤ waits qt k j r.0 = ground (arith, away, step-waits strings s e v w) in
            omega (
              arith,
              answered-append k r.1 later.1,
              run-waits strings r.0 rest (step-Valid qt strings s e v) waiting,
            )
      ]
