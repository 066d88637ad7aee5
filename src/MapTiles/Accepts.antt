-- ===== src/MapTiles/Accepts.antt =====
-- lib/http_client_tilefetch.cpp: which replies are accepted as tiles.
use aowis_server_map.Prelude.{
  ◌*◌, ◌≤◌, ◌≡◌, ◌↔◌, refl, sym, ap, ◌∙◌, Bool, true, false, not, ◌||◌, Option, none, some, [],
  ◌++◌, Bytes, Text, codes, length, is_empty, drop, ltb, eqb, eqb→eq, if◌then◌else◌, arith, ◌⊎◌,
  inl, inr, Bool-cases,
}
use aowis_server_map.Prelude.Int.{ℤ, pos, ltb_ℤ, leb_ℤ, ◌≤ℤ◌}
use aowis_server_map.Platform.Strings.{Strings}
use aowis_server_map.Resume.Search.{starts_with, starts_with-append, starts_with-splits}
use aowis_server_map.MapTiles.HttpClient.{
  upstream_error, invalid_response, NetworkError, no_error, timeout_error, operation_canceled_error,
  other_error, Reply, Signal, request_finished, request_error, maximum_tile_size, is_no_error,
  has_supported_image_signature, may_store, refuses_content_type, handle_status, handle_reply,
  normalized_content_type,
}
use aowis_server_map.MapTiles.Images.{IsPng, IsJpeg, IsWebp, image_iff, empty_nil, empty_length}

starts_with_iff : (p xs : Bytes) → (starts_with p xs ≡ true) ↔ ((rest : Bytes) × (xs ≡ p ++ rest))
starts_with_iff p xs = (
  λ h. (drop (length p) xs, starts_with-splits p xs h),
  λ (rest, same). rw (same, starts_with-append p rest) refl,
)

-- The chain of tests of a response.
chosen_iff :
    (failed empty large kind image : Bool) (x : Bytes) (m : Bool) (content : Bytes) (store : Bool)
    → ((if failed
          then request_error upstream_error
          else if empty
          then request_error invalid_response
          else if large
          then request_error invalid_response
          else if kind
          then request_error invalid_response
          else if not image
          then request_error invalid_response
          else request_finished x m)
        ≡ request_finished content store)
      ↔ ((failed ≡ false)
          × (empty ≡ false)
          × (large ≡ false)
          × (kind ≡ false)
          × (image ≡ true)
          × (x ≡ content)
          × (m ≡ store))
chosen_iff failed empty large kind image x m content store =
    (λ h. ground (arith, h), λ h. ground (arith, h))

status_range :
    (status : ℤ)
    → ltb_ℤ status (pos 200) || leb_ℤ (pos 300) status ≡ false
    → (pos 200 ≤ℤ status) × (status ≤ℤ pos 299)
status_range status h = ground (arith, h)

status_in_range :
    (status : ℤ)
    → pos 200 ≤ℤ status
    → status ≤ℤ pos 299
    → ltb_ℤ status (pos 200) || leb_ℤ (pos 300) status ≡ false
status_in_range status low high = ground (arith, low, high)

module _ (strings : Strings) where
  -- A content type that the client accepts: none, the general one of bytes, or one of images.
  abbrev pub IsTileType : Text → Type 0
  IsTileType content_type =
      let kind = normalized_content_type strings content_type in
      (kind ≡ [])
      ⊎ (kind ≡ codes "application/octet-stream")
      ⊎ ((rest : Text) × (kind ≡ codes "image/" ++ rest))

  -- A reply that brings a tile.
  pub record BringsTile (reply : Reply) (content : Bytes) (store : Bool) : Type 0 where
    pub small : reply.too_large ≡ false
    pub in_time : reply.overall_timeout ≡ false
    pub no_failure : reply.error ≡ no_error
    pub status :
        (code : ℤ) × (reply.status_code ≡ some code) × (pos 200 ≤ℤ code) × (code ≤ℤ pos 299)
    pub same : content ≡ reply.content
    pub nonempty : 1 ≤ length reply.content
    pub bounded : length reply.content ≤ 10 * 1024 * 1024
    pub tile_type : IsTileType reply.content_type
    pub image : IsPng reply.content ⊎ IsJpeg reply.content ⊎ IsWebp reply.content
    pub storage : store ≡ may_store reply.cache_control

  type_iff :
      (content_type : Text)
      → (refuses_content_type strings content_type ≡ false) ↔ IsTileType content_type
  unfolding refuses_content_type eqb starts_with
  type_iff content_type = (to, from)
    where
      to : refuses_content_type strings content_type ≡ false → IsTileType content_type
      to h =
          let kind = normalized_content_type strings content_type in
          elim (Bool-cases (is_empty kind)) [
            | inl e ↦ inl (empty_nil kind e)
            | inr a ↦ elim (Bool-cases (eqb kind (codes "application/octet-stream"))) [
              | inl e ↦ inr (inl (eqb→eq kind (codes "application/octet-stream") e))
              | inr b ↦
                  inr (inr ((starts_with_iff (codes "image/") kind).0 (ground (arith, h, a, b))))
            ]
          ]

      from : IsTileType content_type → refuses_content_type strings content_type ≡ false
      from (inl e) = rw e refl
      from (inr (inl e)) = ground (arith, e)
      from (inr (inr image)) =
          let kind = normalized_content_type strings content_type in
          ground (arith, (starts_with_iff (codes "image/") kind).1 image)

  -- The tests of a response, passed.
  abbrev Passes : ℤ → Reply → Bytes → Bool → Type 0
  Passes status reply content store =
      (pos 200 ≤ℤ status)
      × (status ≤ℤ pos 299)
      × (content ≡ reply.content)
      × (1 ≤ length reply.content)
      × (length reply.content ≤ 10 * 1024 * 1024)
      × (refuses_content_type strings reply.content_type ≡ false)
      × (has_supported_image_signature reply.content ≡ true)
      × (store ≡ may_store reply.cache_control)

  status_iff :
      (status : ℤ) (reply : Reply) (content : Bytes) (store : Bool)
      → (handle_status strings (some status) reply true ≡ request_finished content store)
        ↔ Passes status reply content store
  unfolding handle_status
  status_iff status reply content store = (to, from)
    where
      to :
          handle_status strings (some status) reply true ≡ request_finished content store
          → Passes status reply content store
      to h =
          let c =
            (chosen_iff (ltb_ℤ status (pos 200) || leb_ℤ (pos 300) status) (is_empty reply.content)
                (ltb maximum_tile_size (length reply.content))
                (refuses_content_type strings reply.content_type)
                (has_supported_image_signature reply.content) reply.content
                (may_store reply.cache_control) content store).0
              h in
          let range = status_range status c.0 in
          (
            range.0,
            range.1,
            sym c.5,
            ground (arith, c.1, empty_length reply.content),
            ground (arith, c.2),
            c.3,
            c.4,
            sym c.6,
          )

      from :
          Passes status reply content store
          → handle_status strings (some status) reply true ≡ request_finished content store
      from c =
          (chosen_iff (ltb_ℤ status (pos 200) || leb_ℤ (pos 300) status) (is_empty reply.content)
              (ltb maximum_tile_size (length reply.content))
              (refuses_content_type strings reply.content_type)
              (has_supported_image_signature reply.content) reply.content
              (may_store reply.cache_control) content store).1
            (
              status_in_range status c.0 c.1,
              ground (arith, c.3, empty_length reply.content),
              ground (arith, c.4),
              c.5,
              c.6,
              sym c.2,
              sym c.7,
            )

  no_error→ : (e : NetworkError) → is_no_error e ≡ true → e ≡ no_error
  no_error→ no_error h = refl
  no_error→ timeout_error h = ground (arith, h)
  no_error→ operation_canceled_error h = ground (arith, h)
  no_error→ other_error h = ground (arith, h)

  brings :
      (reply : Reply) (status : ℤ) (content : Bytes) (store : Bool)
      → reply.too_large ≡ false
      → reply.overall_timeout ≡ false
      → reply.error ≡ no_error
      → reply.status_code ≡ some status
      → Passes status reply content store
      → BringsTile reply content store
  brings reply status content store small in_time fine found c = record {
    small = small;
    in_time = in_time;
    no_failure = fine;
    status = (status, found, c.0, c.1);
    same = c.2;
    nonempty = c.3;
    bounded = c.4;
    tile_type = (type_iff reply.content_type).0 c.5;
    image = (image_iff reply.content).0 c.6;
    storage = c.7;
  }

  -- The first tests, passed.
  status_reached :
      (cancelled_before : Bool) (reply : Reply) (content : Bytes) (store : Bool)
      → handle_reply strings cancelled_before reply true ≡ request_finished content store
      → (cancelled_before ≡ false)
        × (reply.too_large ≡ false)
        × (reply.overall_timeout ≡ false)
        × (reply.error ≡ no_error)
        × (handle_status strings reply.status_code reply true ≡ request_finished content store)
  unfolding handle_reply
  status_reached cancelled_before reply content store h =
      let tests : (cancelled_before ≡ false)
          × (reply.too_large ≡ false)
          × (reply.overall_timeout ≡ false)
          × (is_no_error reply.error ≡ true)
          × (handle_status strings reply.status_code reply true ≡ request_finished content store) =
        ground (arith, h) in
      (tests.0, tests.1, tests.2, no_error→ reply.error tests.3, tests.4)

  status_some :
      (o : Option ℤ) (reply : Reply) (content : Bytes) (store : Bool)
      → handle_status strings o reply true ≡ request_finished content store
      → (status : ℤ) × (o ≡ some status) × Passes status reply content store
  status_some none reply content store h = absurd (unfold handle_status in ground (arith, h))
  status_some (some status) reply content store h =
      (status, refl, (status_iff status reply content store).0 h)

  status_decides :
      (reply : Reply) (signal : Signal)
      → reply.too_large ≡ false
      → reply.overall_timeout ≡ false
      → reply.error ≡ no_error
      → handle_status strings reply.status_code reply true ≡ signal
      → handle_reply strings false reply true ≡ signal
  unfolding handle_reply
  status_decides reply signal small in_time fine h = ground (arith, small, in_time, fine, h)

  -- A reply is answered with a tile exactly if the client was not cancelled, the reply was neither too
  -- large nor too late and has no error, its status is from 200 to 299, its content has at least one
  -- byte and at most 10 MiB, is announced as an image or as bytes or not at all, and begins like a PNG,
  -- a JPEG or a WebP file; and then the tile is the content, which may be stored as the response says.
  pub handle_reply_iff :
      (cancelled_before : Bool) (reply : Reply) (content : Bytes) (store : Bool)
      → (handle_reply strings cancelled_before reply true ≡ request_finished content store)
        ↔ ((cancelled_before ≡ false) × BringsTile reply content store)
  handle_reply_iff cancelled_before reply content store = (to, from)
    where
      to :
          handle_reply strings cancelled_before reply true ≡ request_finished content store
          → (cancelled_before ≡ false) × BringsTile reply content store
      to h =
          let reached = status_reached cancelled_before reply content store h in
          let passed = status_some reply.status_code reply content store reached.4 in
          (
            reached.0,
            brings reply passed.0 content store reached.1 reached.2 reached.3 passed.1 passed.2,
          )

      from :
          (cancelled_before ≡ false) × BringsTile reply content store
          → handle_reply strings cancelled_before reply true ≡ request_finished content store
      from (before, b) =
          let passes : Passes b.status.0 reply content store = (
            b.status.2,
            b.status.3,
            b.same,
            b.nonempty,
            b.bounded,
            (type_iff reply.content_type).1 b.tile_type,
            (image_iff reply.content).1 b.image,
            b.storage,
          ) in
          rw before (
            status_decides reply (request_finished content store) b.small b.in_time b.no_failure (
              ap (λ o. handle_status strings o reply true) b.status.1
              ∙ (status_iff b.status.0 reply content store).1 passes))
