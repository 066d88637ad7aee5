-- ===== src/MapTiles/Invariant.antt =====
-- lib/maptiles.cpp: the sets, the queue and the clients agree, within the limits; and what marking,
-- starting and taking a download do to that.
use aowis_server_map.Prelude.{
  ℕ, suc, ◌+◌, ◌≤◌, ◌≡◌, subst, true, false, List, [], ◌∷◌, ◌++◌, Text, eqb, eqb_self, arith,
  length, length-append, some, Bool-cases, Option-cases, inl, inr, ◌⊎◌,
}
use aowis_server_map.MapTiles.Sets.{remove, value_or}
use aowis_server_map.MapTiles.State.{Qt, QueuedDownload, Client, State}
use aowis_server_map.MapTiles.Downloads.{
  download_origin, can_start_download_locked, mark_download_started_locked, start_map_tile_download,
  take_eligible, dequeue,
}
use aowis_server_map.MapTiles.Counts.{
  bit, count, count_downloads, count_clients, count-insert, length-insert, count-remove,
  value_or-put, count_downloads-append, count_clients-append, count_same, value_same,
}

module _ (qt : Qt) where
  -- The downloads from one origin.
  unfoldable pub from_origin : Text → List QueuedDownload → ℕ
  from_origin o [] = 0
  from_origin o (d ∷ rest) = bit (eqb (download_origin qt d.url) o) + from_origin o rest

  unfoldable pub clients_from : Text → List Client → ℕ
  clients_from o [] = 0
  clients_from o (c ∷ rest) = bit (eqb (download_origin qt c.download.url) o) + clients_from o rest

  pub from_origin-append :
      (o : Text) (xs ys : List QueuedDownload)
      → from_origin o (xs ++ ys) ≡ from_origin o xs + from_origin o ys
  unfolding from_origin
  from_origin-append o [] ys = omega arith
  from_origin-append o (x ∷ xs) ys = omega (arith, from_origin-append o xs ys)

  pub clients_from-append :
      (o : Text) (xs ys : List Client)
      → clients_from o (xs ++ ys) ≡ clients_from o xs + clients_from o ys
  unfolding clients_from
  clients_from-append o [] ys = omega arith
  clients_from-append o (x ∷ xs) ys = omega (arith, clients_from-append o xs ys)

  -- The keys that are active are those of the clients and of the downloads that are about to start;
  -- the counts of the origins likewise. No key is twice active or queued.
  pub record Marked (m q : ℕ) (s : State qt) (starting : List QueuedDownload) : Type 0 where
    pub maximum_active : s.maximum_active_downloads ≡ m
    pub maximum_queued : s.maximum_queued_downloads ≡ q
    pub active :
        (k : Text)
        → count k s.downloads_active ≡ count_clients k s.clients + count_downloads k starting
    pub active_length : length s.downloads_active ≡ length s.clients + length starting
    pub active_bound : length s.downloads_active ≤ m
    pub queued : (k : Text) → count k s.downloads_queued_keys ≡ count_downloads k s.downloads_queued
    pub queued_bound : length s.downloads_queued ≤ q
    pub once : (k : Text) → count k s.downloads_active + count k s.downloads_queued_keys ≤ 1
    pub origins :
        (o : Text) → value_or o 0 s.per_origin ≡ clients_from o s.clients + from_origin o starting
    pub origin_bound : (o : Text) → value_or o 0 s.per_origin ≤ 6

  -- The keys for which requests have joined are active or queued.
  abbrev pub Joined : State qt → Type 0
  Joined s =
      (k : Text)
      → (value_or k [] s.joined ≡ [])
        ⊎ (1 ≤ count k s.downloads_active + count k s.downloads_queued_keys)

  module _ {m q : ℕ} {s : State qt} {starting : List QueuedDownload} where
    -- A download that can start, and whose key is free, is marked.
    pub mark-Marked :
        (d : QueuedDownload)
        → Marked m q s starting
        → can_start_download_locked qt s d ≡ true
        → count d.canonical_key s.downloads_active ≡ 0
        → count d.canonical_key s.downloads_queued_keys ≡ 0
        → Marked m q (mark_download_started_locked qt s d) (starting ++ (d ∷ []))
    unfolding mark_download_started_locked can_start_download_locked count_downloads from_origin
    mark-Marked d v can free fresh =
        let key = d.canonical_key in
        let origin = download_origin qt d.url in
        let inserted = λ (k : Text). count-insert k key s.downloads_active free in
        let one_more =
          λ (o : Text). value_or-put o origin 0 (value_or origin 0 s.per_origin + 1) s.per_origin in
        record {
          maximum_active = v.maximum_active;
          maximum_queued = v.maximum_queued;
          active = λ k.
              omega (arith, v.active k, inserted k, count_downloads-append k starting (d ∷ []));
          active_length = omega (
            arith,
            v.active_length,
            length-insert key s.downloads_active free,
            length-append starting (d ∷ []),
          );
          active_bound =
              ground (arith, can, v.maximum_active, length-insert key s.downloads_active free);
          queued = v.queued;
          queued_bound = v.queued_bound;
          once = λ k. ground (
            arith,
            v.once k,
            inserted k,
            fresh,
            count_same key k s.downloads_queued_keys,
            count_same key k s.downloads_active,
          );
          origins = λ o. ground (
            arith,
            v.origins o,
            value_same origin o 0 s.per_origin,
            one_more o,
            from_origin-append o starting (d ∷ []),
          );
          origin_bound = λ o. ground (arith, can, v.origin_bound o, one_more o);
        }

    pub start-Marked :
        (d : QueuedDownload)
        → Marked m q s (d ∷ starting)
        → Marked m q (start_map_tile_download qt s d) starting
    unfolding start_map_tile_download count_downloads count_clients from_origin clients_from
    start-Marked d v =
        let client : Client = record { client = s.fresh; download = d; cancel_requested = false } in
        record {
          maximum_active = v.maximum_active;
          maximum_queued = v.maximum_queued;
          active = λ k. omega (arith, v.active k, count_clients-append k s.clients (client ∷ []));
          active_length = omega (arith, v.active_length, length-append s.clients (client ∷ []));
          active_bound = v.active_bound;
          queued = v.queued;
          queued_bound = v.queued_bound;
          once = v.once;
          origins = λ o. omega (arith, v.origins o, clients_from-append o s.clients (client ∷ []));
          origin_bound = v.origin_bound;
        }

  -- The download that is taken, and those that are left.
  pub take_eligible-splits :
      (s : State qt) (l : List QueuedDownload) (d : QueuedDownload) (others : List QueuedDownload)
      → take_eligible qt s l ≡ some (d, others)
      → (can_start_download_locked qt s d ≡ true)
        × (length l ≡ suc (length others))
        × ((k : Text)
            → count_downloads k l ≡ bit (eqb d.canonical_key k) + count_downloads k others)
  unfolding take_eligible count_downloads
  take_eligible-splits s [] d others e = ground arith
  take_eligible-splits s (x ∷ l) d others e = elim (Bool-cases (can_start_download_locked qt s x)) [
    | inl can ↦
        let same : (x ≡ d) × (l ≡ others) = ground (arith, e, can) in
        (
          subst (λ y. can_start_download_locked qt s y ≡ true) same.0 can,
          ground (arith, same.1),
          λ k. ground (arith, same.0, same.1),
        )
    | inr cannot ↦ elim (Option-cases (take_eligible qt s l)) [
      | inl nothing ↦ absurd (ground (arith, e, cannot, nothing))
      | inr ((d', others'), found) ↦
          let split = take_eligible-splits s l d' others' found in
          let same : (d' ≡ d) × (x ∷ others' ≡ others) = ground (arith, e, cannot, found) in
          (
            subst (λ y. can_start_download_locked qt s y ≡ true) same.0 split.0,
            ground (arith, split.1, same.1),
            λ k. ground (arith, split.2 k, same.0, same.1),
          )
    ]
  ]

  -- The state whose queue is without a download.
  abbrev pub without : State qt → QueuedDownload → List QueuedDownload → State qt
  unfolding remove
  without s d others = record s {
    downloads_queued = others;
    downloads_queued_keys = remove d.canonical_key s.downloads_queued_keys;
  }

  pub dequeue-Marked :
      {m q : ℕ} {s : State qt} {starting : List QueuedDownload} (d : QueuedDownload)
      (others : List QueuedDownload)
      → Marked m q s starting
      → take_eligible qt s s.downloads_queued ≡ some (d, others)
      → Marked m q (dequeue qt s d others) (starting ++ (d ∷ []))
  unfolding dequeue can_start_download_locked
  dequeue-Marked {m} {q} {s} {starting} d others v e =
      let split = take_eligible-splits s s.downloads_queued d others e in
      let key = d.canonical_key in
      let here : count key s.downloads_queued_keys ≡ 1 =
        ground (arith, v.queued key, split.2 key, v.once key, eqb_self key) in
      let waiting : Marked m q (without s d others) starting = record {
        maximum_active = v.maximum_active;
        maximum_queued = v.maximum_queued;
        active = v.active;
        active_length = v.active_length;
        active_bound = v.active_bound;
        queued = λ k.
            ground
              (arith, v.queued k, split.2 k, v.once k, count-remove k key s.downloads_queued_keys);
        queued_bound = omega (arith, v.queued_bound, split.1);
        once = λ k. ground (arith, v.once k, count-remove k key s.downloads_queued_keys);
        origins = v.origins;
        origin_bound = v.origin_bound;
      } in
      mark-Marked d waiting split.0 (omega (arith, here, v.once key))
        (ground (arith, count-remove key key s.downloads_queued_keys, eqb_self key))
