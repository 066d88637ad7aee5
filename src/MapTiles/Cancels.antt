-- ===== src/MapTiles/Cancels.antt =====
-- lib/maptiles.cpp: `cancelUpstreamDownloads` keeps the invariant.
use aowis_server_map.Prelude.{
  ℕ, ◌+◌, ◌≤◌, ◌≡◌, refl, sym, ap, ◌∙◌, List, [], ◌∷◌, Text, if◌then◌else◌, arith, length, ltb,
  Bool-cases, inl, inr, ◌⊎◌,
}
use aowis_server_map.MapTiles.Sets.{remove, value_or, drop_key, values}
use aowis_server_map.MapTiles.State.{Qt, QueuedDownload, Client, State}
use aowis_server_map.MapTiles.Downloads.{take_response_keys_locked}
use aowis_server_map.MapTiles.Replies.{drain_queue, cancel_clients, cancel_upstream_downloads}
use aowis_server_map.MapTiles.Counts.{count, count_downloads, count_clients, value_or-drop_key}
use aowis_server_map.MapTiles.Invariant.{clients_from}
use aowis_server_map.MapTiles.Valid.{Valid, written_bytes}

-- Cancelling a client changes none of its keys.
module _ (ids : List ℕ) where
  count-cancel_clients :
      (k : Text) (l : List Client) → count_clients k (cancel_clients ids l) ≡ count_clients k l
  unfolding count_clients cancel_clients
  count-cancel_clients k [] = refl
  count-cancel_clients k (c ∷ l) = ground (arith, count-cancel_clients k l)

  from-cancel_clients :
      (qt : Qt) (o : Text) (l : List Client)
      → clients_from qt o (cancel_clients ids l) ≡ clients_from qt o l
  unfolding clients_from cancel_clients
  from-cancel_clients qt o [] = refl
  from-cancel_clients qt o (c ∷ l) = ground (arith, from-cancel_clients qt o l)

  length-cancel_clients : (l : List Client) → length (cancel_clients ids l) ≡ length l
  unfolding cancel_clients
  length-cancel_clients [] = refl
  length-cancel_clients (c ∷ l) = omega (arith, length-cancel_clients l)

module _ (qt : Qt) where
  -- What draining the queue leaves of the joined requests, and of all else.
  drain-joined :
      (s : State qt) (l : List QueuedDownload) (k : Text)
      → value_or k [] (drain_queue qt s l).0.joined
        ≡ (if ltb 0 (count_downloads k l) then [] else value_or k [] s.joined)
  unfolding drain_queue count_downloads take_response_keys_locked
  drain-joined s [] k = refl
  drain-joined s (d ∷ l) k =
      let next : State qt = record s {
        joined = drop_key d.canonical_key s.joined;
        downloads_invalidated = remove d.canonical_key s.downloads_invalidated;
      } in
      ground (arith, drain-joined next l k, value_or-drop_key k d.canonical_key [] s.joined)

  -- The fields that draining the queue leaves alone.
  pub record Undrained (s t : State qt) : Type 0 where
    pub maximum_active : t.maximum_active_downloads ≡ s.maximum_active_downloads
    pub maximum_queued : t.maximum_queued_downloads ≡ s.maximum_queued_downloads
    pub active : t.downloads_active ≡ s.downloads_active
    pub origins : t.per_origin ≡ s.per_origin
    pub clients : t.clients ≡ s.clients
    pub writes : t.writes ≡ s.writes
    pub pending : t.pending_cache_writes ≡ s.pending_cache_writes
    pub bytes : t.pending_cache_write_bytes ≡ s.pending_cache_write_bytes

  pub drain-Undrained :
      (s : State qt) (l : List QueuedDownload) → Undrained s (drain_queue qt s l).0
  unfolding drain_queue take_response_keys_locked
  drain-Undrained s [] = record {
    maximum_active = refl;
    maximum_queued = refl;
    active = refl;
    origins = refl;
    clients = refl;
    writes = refl;
    pending = refl;
    bytes = refl;
  }
  drain-Undrained s (d ∷ l) =
      let next : State qt = record s {
        joined = drop_key d.canonical_key s.joined;
        downloads_invalidated = remove d.canonical_key s.downloads_invalidated;
      } in
      let u = drain-Undrained next l in
      record {
        maximum_active = u.maximum_active;
        maximum_queued = u.maximum_queued;
        active = u.active;
        origins = u.origins;
        clients = u.clients;
        writes = u.writes;
        pending = u.pending;
        bytes = u.bytes;
      }

  cancel-Joined :
      (s t : State qt) (k : Text)
      → (value_or k [] s.joined ≡ [])
        ⊎ (1 ≤ count k s.downloads_active + count k s.downloads_queued_keys)
      → count k s.downloads_queued_keys ≡ count_downloads k s.downloads_queued
      → t.downloads_active ≡ s.downloads_active
      → value_or k [] t.joined
        ≡ (if ltb 0 (count_downloads k s.downloads_queued) then [] else value_or k [] s.joined)
      → (value_or k [] t.joined ≡ []) ⊎ (1 ≤ count k t.downloads_active + 0)
  cancel-Joined s t k joined queued active drained =
      elim (Bool-cases (ltb 0 (count_downloads k s.downloads_queued))) [
        | inl was ↦ inl (rw was at drained)
        | inr wasnt ↦ elim joined [
          | inl e ↦ inl (drained ∙ rw wasnt e)
          | inr here ↦ inr (ground (arith, here, wasnt, queued, ap (count k) active))
        ]
      ]

module _ (qt : Qt) {m q : ℕ} where
  pub cancel-Valid :
      (s : State qt) → Valid qt m q s → Valid qt m q (cancel_upstream_downloads qt s).0
  unfolding cancel_upstream_downloads count count_downloads
  cancel-Valid s v =
      let t = (drain_queue qt s s.downloads_queued).0 in
      let u : Undrained qt s t = drain-Undrained qt s s.downloads_queued in
      let ids = values s.active_clients in
      record {
        marked = record {
          maximum_active = u.maximum_active ∙ v.marked.maximum_active;
          maximum_queued = u.maximum_queued ∙ v.marked.maximum_queued;
          active = λ k. omega (
            arith,
            v.marked.active k,
            ap (count k) u.active,
            ap (count_clients k) u.clients,
            count-cancel_clients ids k t.clients,
          );
          active_length = omega (
            arith,
            v.marked.active_length,
            ap (λ (l : List Text). length l) u.active,
            ap (λ (l : List Client). length l) u.clients,
            length-cancel_clients ids t.clients,
          );
          active_bound =
              omega (arith, v.marked.active_bound, ap (λ (l : List Text). length l) u.active);
          queued = λ k. refl;
          queued_bound = omega arith;
          once = λ k. omega (arith, v.marked.once k, ap (count k) u.active);
          origins = λ o. omega (
            arith,
            v.marked.origins o,
            ap (value_or o 0) u.origins,
            ap (clients_from qt o) u.clients,
            from-cancel_clients ids qt o t.clients,
          );
          origin_bound = λ o. omega (arith, v.marked.origin_bound o, ap (value_or o 0) u.origins);
        };
        joined = λ k.
            cancel-Joined qt s t k (v.joined k) (v.marked.queued k) u.active
              (drain-joined qt s s.downloads_queued k);
        blocked = tt;
        writes = record {
          pending = u.pending ∙ v.writes.pending ∙ ap (λ l. length l) (sym u.writes);
          bytes = u.bytes ∙ v.writes.bytes ∙ ap written_bytes (sym u.writes);
          pending_bound = omega (arith, v.writes.pending_bound, u.pending);
          bytes_bound = omega (arith, v.writes.bytes_bound, u.bytes);
        };
      }
