-- ===== src/Resume/Classify.antt =====
-- lib/copernicus_download_validation.h: `completeCopernicusResponse` and
-- `classifyCopernicusResumeResponse`. A status or a size is a number: every test refuses a negative
-- one as it refuses 0. A declared length may be negative, which says that there is none.
use aowis_server_map.Prelude.{
  ℕ, ◌+◌, ◌-◌, ◌≤◌, ◌<◌, ◌≡◌, ◌≢◌, ◌↔◌, refl, Bool, true, false, not, ◌||◌, ◌&&◌, Option, none,
  some, arith, [], ◌∷◌, Bytes, is_empty, codes, eqb, eqb→eq, eqb_self, if◌then◌else◌, ltb, leb,
  ◌==◌,
}
use aowis_server_map.Prelude.Int.{ℤ, pos, negsuc}
use aowis_server_map.Resume.Search.{starts_with}
use aowis_server_map.Resume.ContentRange.{CopernicusContentRange, parse_content_range, IsRange}
use aowis_server_map.Resume.ContentRange.Exact.{parse_content_range_iff}

unfoldable pub complete_response : ℕ → ℕ → ℤ → Bool
complete_response status downloaded (negsuc n) = status == 200 && ltb 0 downloaded
complete_response status downloaded (pos declared) =
    status == 200 && ltb 0 downloaded && declared == downloaded

pub data CopernicusResumeAction : Type 0 where
  restart_with_full_entity append_verified_range reject_response : CopernicusResumeAction

-- The tests on the range of a partial response.
unfoldable pub classify_range : ℕ → ℕ → ℕ → Option CopernicusContentRange → CopernicusResumeAction
classify_range existing received maximum none = reject_response
classify_range existing received maximum (some r) =
    if not (r.first == existing)
      || ltb maximum r.total
      || not (r.last - r.first + 1 == received)
      || not (r.last + 1 == r.total)
    then reject_response
    else append_verified_range

unfoldable pub classify : ℕ → ℕ → ℕ → Bytes → Bytes → Bytes → ℕ → CopernicusResumeAction
unfolding complete_response
classify status existing received content_range stored_etag response_etag maximum =
    if status == 200 && complete_response status received (negsuc 0) && leb received maximum
    then restart_with_full_entity
    else if not (status == 206)
        || existing == 0
        || received == 0
        || maximum == 0
        || is_empty stored_etag
        || starts_with (codes "W/") stored_etag
        || not (eqb response_etag stored_etag)
    then reject_response
    else classify_range existing received maximum (parse_content_range content_range)

not_empty : (bytes : Bytes) → bytes ≢ [] → is_empty bytes ≡ false
not_empty [] h = absurd (h refl)
not_empty (x ∷ bytes) h = refl

range_never_restarts :
    (existing received maximum : ℕ) (o : Option CopernicusContentRange)
    → classify_range existing received maximum o ≢ restart_with_full_entity
unfolding classify_range
range_never_restarts existing received maximum none = ground arith
range_never_restarts existing received maximum (some r) = ground arith

module _ (status existing received : ℕ) (content_range stored_etag response_etag : Bytes)
    (maximum : ℕ) where
  abbrev verdict : CopernicusResumeAction
  verdict = classify status existing received content_range stored_etag response_etag maximum

  -- What lets a response extend the stored bytes: a 206 response to a strong stored ETag, with the
  -- same ETag, whose Content-Range begins at the first missing byte and ends at the last byte of an
  -- entity of at most the maximum, and which has exactly the missing bytes.
  pub record Extends : Type 0 where
    pub partial : status ≡ 206
    pub stored : 0 < existing
    pub arrived : 0 < received
    pub nonempty : stored_etag ≢ []
    pub strong : starts_with (codes "W/") stored_etag ≡ false
    pub same_entity : response_etag ≡ stored_etag
    pub fits : existing + received ≤ maximum
    pub range :
        parse_content_range content_range
        ≡ some (record {
          first = existing;
          last = existing + received - 1;
          total = existing + received;
        })

  partial_guards :
      verdict ≡ append_verified_range
      → (status ≡ 206)
        × (0 < existing)
        × (0 < received)
        × (is_empty stored_etag ≡ false)
        × (starts_with (codes "W/") stored_etag ≡ false)
        × (eqb response_etag stored_etag ≡ true)
        × (classify_range existing received maximum (parse_content_range content_range)
            ≡ append_verified_range)
  unfolding classify
  partial_guards h = ground arith

  range_numbers :
      (r : CopernicusContentRange)
      → IsRange r
      → classify_range existing received maximum (some r) ≡ append_verified_range
      → (r.first ≡ existing)
        × (r.last + 1 ≡ existing + received)
        × (r.total ≡ existing + received)
        × (existing + received ≤ maximum)
  unfolding classify_range
  range_numbers r ok h = ground (arith, ok.ordered, ok.inside)

  range_read :
      (o : Option CopernicusContentRange)
      → parse_content_range content_range ≡ o
      → classify_range existing received maximum o ≡ append_verified_range
      → (o
          ≡ some (record {
            first = existing;
            last = existing + received - 1;
            total = existing + received;
          }))
        × (existing + received ≤ maximum)
  unfolding classify_range
  range_read none e h = ground (arith, h)
  range_read (some r) e h =
      let (first, last, total, fits) =
        range_numbers r ((parse_content_range_iff content_range r).0 e).1 h in
      (ground (arith, first, last, total), fits)

  -- A response is appended only if it extends the stored bytes: status 206, some bytes stored and
  -- some received, a stored ETag that is strong and equal to the response's, and a Content-Range
  -- that starts at the first missing byte and ends with the entity, whose size is the stored bytes
  -- plus the received ones and at most the maximum.
  pub classify-append : verdict ≡ append_verified_range → Extends
  classify-append h =
      let (partial, stored, arrived, nonempty, strong, same, range) = partial_guards h in
      let (read, fits) = range_read (parse_content_range content_range) refl range in
      record {
        partial = partial;
        stored = stored;
        arrived = arrived;
        nonempty = λ e. ground (arith, nonempty, e);
        strong = strong;
        same_entity = eqb→eq response_etag stored_etag same;
        fits = fits;
        range = read;
      }

  Extends-range :
      Extends
      → classify_range existing received maximum (parse_content_range content_range)
        ≡ append_verified_range
  unfolding classify_range
  Extends-range x = rw x.range (ground (arith, x.fits, x.arrived, x.stored))

  etags_equal : response_etag ≡ stored_etag → eqb response_etag stored_etag ≡ true
  etags_equal e = rw e (eqb_self stored_etag)

  Extends-append : Extends → verdict ≡ append_verified_range
  unfolding classify
  Extends-append x = ground (
    arith,
    x.partial,
    Extends-range x,
    not_empty stored_etag x.nonempty,
    etags_equal x.same_entity,
  )

  -- A response is appended exactly if it extends the stored bytes in that sense.
  pub classify-append_iff : (verdict ≡ append_verified_range) ↔ Extends
  classify-append_iff = (classify-append, Extends-append)

  -- A response replaces what is stored exactly if its status is 200 and it has at least one byte
  -- and at most the maximum; nothing that is stored matters.
  pub classify-restart_iff :
      (verdict ≡ restart_with_full_entity)
      ↔ ((status ≡ 200) × (0 < received) × (received ≤ maximum))
  unfolding classify
  classify-restart_iff = (
    λ h. ground (
      arith,
      range_never_restarts existing received maximum (parse_content_range content_range),
      h,
    ),
    λ h. ground (arith, h),
  )
