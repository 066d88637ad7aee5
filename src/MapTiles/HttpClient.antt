-- ===== src/MapTiles/HttpClient.antt =====
-- lib/http_client_tilefetch.cpp: what a reply is answered with. A reply is what the code reads of a
-- `QNetworkReply`. `handle_reply` is the branch of all systems but Windows, `handle_reply_windows` the
-- branch of Windows.
use aowis_server_map.Prelude.{
  ℕ, zero, suc, ◌+◌, ◌*◌, Bool, true, false, not, ◌||◌, ◌&&◌, Option, none, some, [], ◌∷◌, Bytes,
  Text, codes, length, is_empty, take, drop, get_or, ltb, leb, ◌==◌, eqb, if◌then◌else◌,
}
use aowis_server_map.Prelude.Int.{ℤ, pos, ltb_ℤ, leb_ℤ}
use aowis_server_map.Platform.Strings.{Strings}
use aowis_server_map.Resume.Search.{starts_with}

pub data RequestFailureReason : Type 0 where
  upstream_error timeout invalid_response cancelled : RequestFailureReason

-- `QNetworkReply::NetworkError`, with one constructor for the errors that the code does not name.
pub data NetworkError : Type 0 where
  no_error timeout_error operation_canceled_error other_error : NetworkError

pub record Reply : Type 0 where
  -- The properties that the client sets when it aborts a reply.
  pub too_large : Bool
  pub overall_timeout : Bool
  pub error : NetworkError
  pub status_code : Option ℤ
  pub cache_control : Bytes
  pub content_type : Text
  pub content : Bytes

-- The signals `requestFinished` and `requestError`.
pub data Signal : Type 0 where
  request_finished : Bytes → Bool → Signal
  request_error : RequestFailureReason → Signal

-- On Windows a reply may lead to another attempt, with its number.
pub data Handled : Type 0 where
  signalled : Signal → Handled
  attempted : ℕ → Handled

abbrev pub maximum_tile_size : ℕ
maximum_tile_size = 10 * 1024 * 1024

abbrev pub timeout_retry_count : ℕ
timeout_retry_count = 1

abbrev pub png_signature : Bytes
png_signature = 0x89 ∷ 0x50 ∷ 0x4e ∷ 0x47 ∷ 0x0d ∷ 0x0a ∷ 0x1a ∷ 0x0a ∷ []

unfoldable pub has_supported_image_signature : Bytes → Bool
unfolding starts_with eqb
has_supported_image_signature content =
    let is_png = starts_with png_signature content in
    let is_jpeg =
      leb 3 (length content)
      && get_or content 0 0 == 0xff
      && get_or content 1 0 == 0xd8
      && get_or content 2 0 == 0xff in
    let is_webp =
      leb 12 (length content)
      && starts_with (codes "RIFF") content
      && eqb (take 4 (drop 8 content)) (codes "WEBP") in
    is_png || is_jpeg || is_webp

-- `QByteArray::toLower`, `QByteArray::contains` and `QString::section(';', 0, 0)`
unfoldable pub to_lower : Bytes → Bytes
to_lower [] = []
to_lower (c ∷ rest) = (if leb b'A' c && leb c b'Z' then c + 32 else c) ∷ to_lower rest

unfoldable pub contains_part : Bytes → Bytes → Bool
unfolding starts_with
contains_part part [] = starts_with part []
contains_part part (c ∷ rest) = starts_with part (c ∷ rest) || contains_part part rest

unfoldable pub first_section : Text → Text
first_section [] = []
first_section (c ∷ rest) = if c == b';' then [] else c ∷ first_section rest

unfoldable pub may_store : Bytes → Bool
unfolding to_lower contains_part
may_store cache_control =
    let lowered = to_lower cache_control in
    not (contains_part (codes "no-store") lowered) && not (contains_part (codes "private") lowered)

abbrev pub is_timeout_error : NetworkError → Bool
is_timeout_error timeout_error = true
is_timeout_error e = false

abbrev pub is_no_error : NetworkError → Bool
is_no_error no_error = true
is_no_error e = false

abbrev pub is_canceled_error : NetworkError → Bool
is_canceled_error operation_canceled_error = true
is_canceled_error e = false

module _ (strings : Strings) where
  unfoldable pub normalized_content_type : Text → Text
  unfolding first_section
  normalized_content_type content_type =
      strings.to_lower (strings.trimmed (first_section content_type))

  unfoldable pub refuses_content_type : Text → Bool
  unfolding starts_with normalized_content_type eqb
  refuses_content_type content_type =
      let kind = normalized_content_type content_type in
      not (is_empty kind)
      && not (eqb kind (codes "application/octet-stream"))
      && not (starts_with (codes "image/") kind)

  -- The part that both systems share: the status code, and what stands below it.
  unfoldable pub handle_status : Option ℤ → Reply → Bool → Signal
  unfolding refuses_content_type has_supported_image_signature may_store normalized_content_type
      starts_with eqb
  handle_status none reply validate = request_error invalid_response
  handle_status (some status) reply validate =
      if ltb_ℤ status (pos 200) || leb_ℤ (pos 300) status
      then request_error upstream_error
      else if validate && is_empty reply.content
      then request_error invalid_response
      else if validate && ltb maximum_tile_size (length reply.content)
      then request_error invalid_response
      else if validate && refuses_content_type reply.content_type
      then request_error invalid_response
      else if validate && not (has_supported_image_signature reply.content)
      then request_error invalid_response
      else request_finished reply.content (may_store reply.cache_control)

  unfoldable pub handle_reply : Bool → Reply → Bool → Signal
  unfolding handle_status
  handle_reply cancel_requested reply validate =
      if cancel_requested
      then request_error cancelled
      else if reply.too_large
      then request_error invalid_response
      else if reply.overall_timeout || is_timeout_error reply.error
      then request_error timeout
      else if not (is_no_error reply.error)
      then request_error upstream_error
      else handle_status reply.status_code reply validate

  unfoldable pub handle_reply_windows : Bool → Reply → Bool → ℕ → Handled
  unfolding handle_status
  handle_reply_windows cancel_requested reply validate attempt =
      if cancel_requested
      then signalled (request_error cancelled)
      else if reply.too_large
      then signalled (request_error invalid_response)
      else if reply.overall_timeout || is_timeout_error reply.error || is_canceled_error reply.error
      then (if validate && ltb attempt timeout_retry_count
          then attempted (attempt + 1)
          else signalled (request_error timeout))
      else if not (is_no_error reply.error)
      then signalled (request_error upstream_error)
      else signalled (handle_status reply.status_code reply validate)

  -- `getAttempt`, with the number of attempts that are left as fuel: a reply for each attempt, and
  -- whether the client was cancelled before it was sent and before it was handled.
  unfoldable pub get_attempt : ℕ → (ℕ → Bool) → (ℕ → Bool) → (ℕ → Reply) → ℕ → Option Signal
  unfolding handle_reply_windows
  get_attempt zero cancelled_before cancelled_after replies attempt = none
  get_attempt (suc fuel) cancelled_before cancelled_after replies attempt =
      if cancelled_before attempt
      then some (request_error cancelled)
      else elim (handle_reply_windows (cancelled_after attempt) (replies attempt) true attempt) [
        | signalled signal ↦ some signal
        | attempted next ↦ get_attempt fuel cancelled_before cancelled_after replies next
      ]
