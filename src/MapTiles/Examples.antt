-- ===== src/MapTiles/Examples.antt =====
-- lib/maptiles.cpp and lib/http_client_tilefetch.cpp on concrete values.
use aowis_server_map.Prelude.{
  ℕ, zero, suc, max, ◌≡◌, ◌≤◌, ◌↔◌, ◌⊎◌, refl, true, false, Bool, none, some, List, [], ◌∷◌, Text,
  codes, arith, All,
}
use aowis_server_map.Prelude.Int.{ℤ, pos, negsuc, pos_part, ◌≤ℤ◌}
use aowis_server_map.Platform.Instances.{ascii}
use aowis_server_map.MapTiles.State.{Qt, QueuedDownload, init}
use aowis_server_map.MapTiles.HttpClient.{
  Reply, Signal, no_error, timeout_error, other_error, NetworkError, png_signature, handle_reply,
  request_finished, get_attempt,
}
use aowis_server_map.MapTiles.Downloads.{schedule_map_tile_download}
use aowis_server_map.MapTiles.Range.{tile_x_inside_range}
use aowis_server_map.MapTiles.Replies.{Event, requested, reply_of, write_of, deleted, run}
use aowis_server_map.MapTiles.Columns.{IsSameColumn, tile_x_inside_range_iff}
use aowis_server_map.MapTiles.Accepts.{BringsTile, handle_reply_iff}
use aowis_server_map.MapTiles.Attempts.{TimedOut, BringsAt, get_attempt_iff}
use aowis_server_map.MapTiles.Waits.{answered}
use aowis_server_map.MapTiles.Limits.{Limited, Waits, run-Limited, run-Waits, run-answered}

-- A cache that keeps nothing, one origin, and no numerals.
abbrev simple : Qt
simple = record {
  parse_url = λ url. record { scheme = codes "http"; host = codes "h"; port = codes "80" };
  Cache = Unit {0};
  cache_insert = λ key content cost cache. cache;
  cache_remove = λ key cache. cache;
  cache_keys = λ cache. [];
  to_int = λ text. none;
}

abbrev download : Text → Text → QueuedDownload
download key response = record {
  url = codes "http://h/t";
  path = [];
  tile_path = key;
  canonical_key = key;
  response_key = response;
}

abbrev reply : NetworkError → Reply
reply error = record {
  too_large = false;
  overall_timeout = false;
  error = error;
  status_code = some (pos 200);
  cache_control = [];
  content_type = [];
  content = png_signature;
}

-- One slot: the second tile waits, is joined, starts after the first one failed, and is written.
abbrev before : List Event
before = requested (download (codes "a") (codes "1")) ∷ []

abbrev after : List Event
after =
    requested (download (codes "b") (codes "3"))
    ∷ deleted (codes "p") true (pos 1) (pos 0) (pos 1) (pos 0) (pos 1)
    ∷ reply_of 0 (reply other_error)
    ∷ reply_of 0 (reply no_error)
    ∷ write_of 0
    ∷ []

run-Limited_example :
    Limited simple
      (max 1 (pos_part (pos 1)))
      (pos_part (pos 5))
      (run simple ascii (init tt (pos 1) (pos 5)) after).0
run-Limited_example = run-Limited simple ascii tt (pos 1) (pos 5) after

run-Waits_example :
    let s = (run simple ascii (init tt (pos 1) (pos 5)) before).0 in
    All (Waits simple (max 1 (pos_part (pos 1))) s) s.downloads_queued
run-Waits_example = run-Waits simple ascii tt (pos 1) (pos 5) before

abbrev wanted : QueuedDownload
wanted = download (codes "b") (codes "2")

run-answered_example :
    1
    ≤ answered
        (codes "2")
        (run simple ascii
          (schedule_map_tile_download simple
            (run simple ascii (init tt (pos 1) (pos 5)) before).0
            wanted).0
          after).1
unfolding schedule_map_tile_download run
run-answered_example =
    run-answered simple ascii tt (pos 1) (pos 5) before after wanted refl refl refl refl

handle_reply_iff_example :
    (handle_reply ascii false (reply no_error) true ≡ request_finished png_signature true)
    ↔ ((◌≡◌ {A = Bool} false false) × BringsTile ascii (reply no_error) png_signature true)
handle_reply_iff_example = handle_reply_iff ascii false (reply no_error) png_signature true

abbrev replies : ℕ → Reply
replies zero = reply timeout_error
replies (suc n) = reply no_error

abbrev never : ℕ → Bool
never n = false

get_attempt_iff_example :
    ((signal : Signal) × (get_attempt ascii 2 never never replies 0 ≡ some signal))
    × ((get_attempt ascii 2 never never replies 0 ≡ some (request_finished png_signature true)) ↔ (
        BringsAt ascii never never replies 0 png_signature true
        ⊎ ((never 0 ≡ false)
            × (never 0 ≡ false)
            × TimedOut (replies 0)
            × BringsAt ascii never never replies 1 png_signature true)))
get_attempt_iff_example = get_attempt_iff ascii never never replies png_signature true

-- A range across the antimeridian.
tile_x_inside_range_iff_example :
    (tile_x_inside_range (pos 7) 8 (negsuc 1) (pos 1) ≡ true)
    ↔ ((c : ℤ) × (negsuc 1 ≤ℤ c) × (c ≤ℤ pos 1) × IsSameColumn 8 c (pos 7))
tile_x_inside_range_iff_example =
    tile_x_inside_range_iff 8 (pos 7) (negsuc 1) (pos 1) (omega arith) (omega arith)

finished_tile :
    get_attempt ascii 2 never never replies 0 ≡ some (request_finished png_signature true)
unfolding get_attempt
finished_tile = refl

inside_wrapped : tile_x_inside_range (pos 7) 8 (negsuc 1) (pos 1) ≡ true
unfolding tile_x_inside_range
inside_wrapped = refl
