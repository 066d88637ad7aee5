-- ===== src/MapTiles/Ends.antt =====
-- lib/maptiles.cpp: the invariant after the callbacks, the cancellation and the deletion.
use aowis_server_map.Prelude.{
  ℕ, zero, suc, ◌+◌, ◌-◌, ◌≡◌, refl, sym, ap, ◌∙◌, List, [], ◌∷◌, Text, eqb, eqb_self,
  if◌then◌else◌, arith, length, ltb, some, Bool-cases, Option-cases, inl, inr,
}
use aowis_server_map.MapTiles.Sets.{value_or, put, drop_key}
use aowis_server_map.MapTiles.State.{Qt, QueuedDownload, Client, State}
use aowis_server_map.MapTiles.Downloads.{download_origin, start_queued_downloads}
use aowis_server_map.MapTiles.Replies.{take_at, finish_download}
use aowis_server_map.MapTiles.Counts.{
  bit, count, count_downloads, count_clients, count-remove, length-remove, value_or-put,
  value_or-drop_key, value_same,
}
use aowis_server_map.MapTiles.Invariant.{clients_from, from_origin, Marked, Joined}
use aowis_server_map.MapTiles.Starting.{Started}
use aowis_server_map.MapTiles.Queue.{start_queued-Started}
use aowis_server_map.MapTiles.Valid.{Valid, WritesValid, written_bytes}

-- What is taken at a position was there.
pub take_at-sum {ℓ} :
    {A : Type ℓ} (f : List A → ℕ) (g : A → ℕ)
    → ((x : A) (xs : List A) → f (x ∷ xs) ≡ g x + f xs)
    → (n : ℕ) (l : List A) (x : A) (others : List A) → take_at n l ≡ some (x, others)
    → f l ≡ g x + f others
unfolding take_at
take_at-sum f g h n [] x others e = ground arith
take_at-sum f g h zero (y ∷ l) x others e =
    let same : (y ≡ x) × (l ≡ others) = ground (arith, e) in
    h y l ∙ ap (λ a. g a + f l) same.0 ∙ ap (λ b. g x + f b) same.1
take_at-sum f g h (suc n) (y ∷ l) x others e = elim (Option-cases (take_at n l)) [
  | inl nothing ↦ absurd (ground (arith, e, nothing))
  | inr ((x', others'), found) ↦
      let same : (x' ≡ x) × (y ∷ others' ≡ others) = ground (arith, e, found) in
      omega (
        arith,
        h y l,
        h y others',
        take_at-sum f g h n l x' others' found,
        ap g same.0,
        ap f same.1,
      )
]

-- The count of an origin after one of its downloads has ended.
origin_after :
    (l : List (Text × ℕ)) (origin o : Text) (left here : ℕ)
    → value_or o 0 l ≡ bit (eqb origin o) + left
    → value_or origin 0 l ≡ suc here
    → value_or o 0 (
        if ltb 0 (value_or origin 0 l - 1)
        then put origin (value_or origin 0 l - 1) l
        else drop_key origin l)
      ≡ left + 0
origin_after l origin o left here e h = elim (Bool-cases (ltb 0 (value_or origin 0 l - 1))) [
  | inl more ↦ rw more (
      ground (
        arith,
        e,
        h,
        more,
        value_or-put o origin 0 (value_or origin 0 l - 1) l,
        value_same origin o 0 l,
      ))
  | inr last ↦
      rw last (ground (arith, e, h, last, value_or-drop_key o origin 0 l, value_same origin o 0 l))
]

module _ (qt : Qt) where
  finish-Joined :
      (s : State qt) (d : QueuedDownload) (others : List Client)
      → Joined qt s
      → Joined qt (finish_download qt (record s { clients = others }) d).0
  unfolding finish_download
  finish-Joined s d others h k =
      let key = d.canonical_key in
      let left = value_or-drop_key k key [] s.joined in
      elim (Bool-cases (eqb key k)) [
        | inl same ↦ inl (rw same at left)
        | inr other ↦ elim (h k) [
          | inl e ↦ inl (left ∙ rw other e)
          | inr here ↦ inr (ground (arith, here, other, count-remove k key s.downloads_active))
        ]
      ]

  finish-WritesValid :
      (s : State qt) (d : QueuedDownload) (others : List Client)
      → WritesValid qt s
      → WritesValid qt (finish_download qt (record s { clients = others }) d).0
  unfolding finish_download
  finish-WritesValid s d others w = record {
    pending = w.pending;
    bytes = w.bytes;
    pending_bound = w.pending_bound;
    bytes_bound = w.bytes_bound;
  }

module _ (qt : Qt) {m q : ℕ} where
  -- The critical section at the end of a download, whose client is taken from the list.
  pub finish-Marked :
      (n : ℕ) (s : State qt) (c : Client) (others : List Client)
      → Marked qt m q s []
      → take_at n s.clients ≡ some (c, others)
      → Marked qt m q (finish_download qt (record s { clients = others }) c.download).0 []
  unfolding finish_download count_downloads count_clients clients_from from_origin
  finish-Marked n s c others v e =
      let key = c.download.canonical_key in
      let origin = download_origin qt c.download.url in
      let count_split = λ (k : Text).
        take_at-sum (count_clients k) (λ x. bit (eqb x.download.canonical_key k)) (λ x xs. refl) n
          s.clients c others e in
      let origin_split = λ (o : Text).
        take_at-sum (clients_from qt o) (λ x. bit (eqb (download_origin qt x.download.url) o))
          (λ x xs. refl) n s.clients c others e in
      let length_split : length s.clients ≡ suc (length others) =
        take_at-sum (λ l. length l) (λ x. 1) (λ x xs. omega arith) n s.clients c others e
        ∙ omega arith in
      let here : count key s.downloads_active ≡ 1 =
        ground (arith, v.active key, count_split key, v.once key, eqb_self key) in
      let after = λ (o : Text).
        origin_after s.per_origin origin o (clients_from qt o others)
          (clients_from qt origin others) (omega (arith, v.origins o, origin_split o))
          (ground (arith, v.origins origin, origin_split origin, eqb_self origin)) in
      record {
        maximum_active = v.maximum_active;
        maximum_queued = v.maximum_queued;
        active = λ k.
            ground
              (arith, v.active k, count_split k, v.once k, count-remove k key s.downloads_active);
        active_length =
            omega
              (arith, v.active_length, length_split, length-remove key s.downloads_active, here);
        active_bound = omega (arith, v.active_bound, length-remove key s.downloads_active);
        queued = v.queued;
        queued_bound = v.queued_bound;
        once = λ k. ground (arith, v.once k, count-remove k key s.downloads_active);
        origins = after;
        origin_bound = λ o. omega (arith, after o, v.origins o, origin_split o, v.origin_bound o);
      }

  Started-Valid :
      (s t : State qt) → Started qt m q s t [] [] → Joined qt s → WritesValid qt s → Valid qt m q t
  Started-Valid s t h j w = record {
    marked = h.marked;
    joined = λ k. elim (j k) [
      | inl e ↦ inl (ap (value_or k []) h.kept.same_joined ∙ e)
      | inr here ↦ inr (omega (arith, h.kept.same_tiles k))
    ];
    blocked = h.blocked;
    writes = record {
      pending = h.kept.same_pending ∙ w.pending ∙ ap (λ l. length l) (sym h.kept.same_writes);
      bytes = h.kept.same_bytes ∙ w.bytes ∙ ap written_bytes (sym h.kept.same_writes);
      pending_bound = omega (arith, h.kept.same_pending, w.pending_bound);
      bytes_bound = omega (arith, h.kept.same_bytes, w.bytes_bound);
    };
  }

  -- The end of a download and the start of others.
  pub ended-Valid :
      (n : ℕ) (s : State qt) (c : Client) (others : List Client)
      → Valid qt m q s
      → take_at n s.clients ≡ some (c, others)
      → Valid qt m q (
          start_queued_downloads qt
            (finish_download qt (record s { clients = others }) c.download).0)
  ended-Valid n s c others v e =
      let finished = (finish_download qt (record s { clients = others }) c.download).0 in
      let started : Started qt m q finished (start_queued_downloads qt finished) [] [] =
        start_queued-Started qt finished (finish-Marked n s c others v.marked e) in
      Started-Valid finished (start_queued_downloads qt finished) started
        (finish-Joined qt s c.download others v.joined)
        (finish-WritesValid qt s c.download others v.writes)
