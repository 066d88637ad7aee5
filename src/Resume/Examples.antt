-- ===== src/Resume/Examples.antt =====
-- lib/copernicus_download_validation.h, lib/copernicus_resume_state.h and
-- lib/copernicus_source_publish.h: runs on concrete responses and disks.
use aowis_server_map.Prelude.{
  ℕ, ◌≤◌, ◌<◌, ◌≡◌, ◌↔◌, ◌⊎◌, refl, true, false, Option, none, some, arith, [], ◌∷◌, ◌++◌, length,
  Bytes, Text, codes, eqb, is_empty, if◌then◌else◌, leb, take,
}
use aowis_server_map.Resume.Decimal.{
  parse_digits, parse_positive_decimal, Spells, parse_positive_decimal_iff, qint64_max,
}
use aowis_server_map.Resume.ContentRange.{
  check_range, parse_range_at, parse_range, CopernicusContentRange, parse_content_range, IsRange,
  Denotes,
}
use aowis_server_map.Resume.ContentRange.Exact.{parse_content_range_iff}
use aowis_server_map.Resume.Classify.{
  complete_response, classify_range, classify, append_verified_range, restart_with_full_entity,
  Extends, classify-append_iff, classify-restart_iff,
}
use aowis_server_map.Resume.Files.{FileSystem, copy_bytes, copy_bytes_lem}
use aowis_server_map.Resume.Instances.{disk_without, decimal_and_hex}
use aowis_server_map.Resume.Search.{index_of, starts_with, contains, split}
use aowis_server_map.Resume.Partial.{
  valid_strong_etag, accept_fields, parse_lines, load_from, CopernicusPartialState,
  valid_partial_state, metadata_of, parse_metadata, save_partial_state, load_partial_state,
}
use aowis_server_map.Resume.Partial.Laws.{parse_metadata-metadata_of}
use aowis_server_map.Resume.Partial.Disk.{load_partial_state_sound, load-save}
use aowis_server_map.Resume.Append.{
  finish_append, save_combined, combine, same_state, extended, append_data, append_partial_suffix,
}
use aowis_server_map.Resume.Append.Crash.{append-stopped, append-fails, append-succeeds}
use aowis_server_map.Resume.Publish.{
  assemble, commit_source, then_append, append_file, append_pieces, publish_source, published,
  publish_source-succeeds, publish_source_lem,
}

parse_positive_decimal_iff_example :
    (parse_positive_decimal (codes "0042") ≡ some 42)
    ↔ (Spells (codes "0042") 42 × (42 ≤ qint64_max))
parse_positive_decimal_iff_example = parse_positive_decimal_iff (codes "0042") 42

abbrev tail_range : Bytes
tail_range = codes "bytes 3-4/5"

abbrev three_to_four : CopernicusContentRange
three_to_four = record { first = 3; last = 4; total = 5 }

parse_content_range_iff_example :
    (parse_content_range tail_range ≡ some three_to_four)
    ↔ (Denotes tail_range three_to_four × IsRange three_to_four)
parse_content_range_iff_example = parse_content_range_iff tail_range three_to_four

abbrev etag : Bytes
etag = b'"' ∷ b'a' ∷ b'"' ∷ []

classify_run : classify 206 3 2 tail_range etag etag 100 ≡ append_verified_range
unfolding classify classify_range complete_response parse_content_range parse_range parse_range_at
    index_of starts_with parse_positive_decimal parse_digits check_range eqb
classify_run = refl

classify-append_iff_example :
    (classify 206 3 2 tail_range etag etag 100 ≡ append_verified_range)
    ↔ Extends 206 3 2 tail_range etag etag 100
classify-append_iff_example = classify-append_iff 206 3 2 tail_range etag etag 100

classify-restart_iff_example :
    let status : ℕ = 200 in
    (classify status 3 5 [] etag etag 100 ≡ restart_with_full_entity)
    ↔ ((status ≡ 200) × (0 < 5) × (5 ≤ 100))
classify-restart_iff_example = classify-restart_iff 200 3 5 [] etag etag 100

copy_bytes_lem_example :
    copy_bytes 3 2 (1 ∷ 2 ∷ 3 ∷ 4 ∷ []) 3 (0 ∷ [])
    ≡ (if leb 3 4 then some ((0 ∷ []) ++ take 3 (1 ∷ 2 ∷ 3 ∷ 4 ∷ [])) else none)
copy_bytes_lem_example =
    copy_bytes_lem 3 2 (1 ∷ 2 ∷ 3 ∷ 4 ∷ []) 3 (0 ∷ []) (omega arith) (omega arith)

-- Three of five bytes are on the disk, with their metadata, and one more has come.
abbrev three_of_five : CopernicusPartialState
three_of_five = record { downloaded_bytes = 3; total_bytes = 5; strong_etag = etag }

three_of_five-valid : valid_partial_state three_of_five 100 ≡ true
unfolding valid_partial_state valid_strong_etag contains
three_of_five-valid = refl

parse_metadata-metadata_of_example :
    parse_metadata decimal_and_hex (metadata_of decimal_and_hex three_of_five) 3 100
    ≡ some three_of_five
parse_metadata-metadata_of_example =
    parse_metadata-metadata_of decimal_and_hex three_of_five 100 (omega arith) three_of_five-valid

abbrev partial_path : Text
partial_path = codes "p"

abbrev metadata_path : Text
metadata_path = codes "m"

abbrev incoming_path : Text
incoming_path = codes "i"

abbrev disk : Text → Option Bytes
disk path =
    if eqb path partial_path
    then some (1 ∷ 2 ∷ 3 ∷ [])
    else if eqb path metadata_path
    then some (metadata_of decimal_and_hex three_of_five)
    else if eqb path incoming_path
    then some (4 ∷ [])
    else none

apart : eqb partial_path metadata_path ≡ false
apart = unfold eqb in refl

abbrev fs : FileSystem
fs = disk_without (codes "x")

-- A disk where the metadata cannot be replaced.
abbrev read_only : FileSystem
read_only = disk_without metadata_path

loaded :
    load_partial_state decimal_and_hex fs disk partial_path metadata_path 100 ≡ some three_of_five
unfolding load_partial_state load_from parse_metadata parse_lines split metadata_of accept_fields
    parse_positive_decimal parse_digits eqb valid_partial_state valid_strong_etag contains
loaded = refl

saved : (save_partial_state decimal_and_hex fs disk metadata_path three_of_five 100).1 ≡ true
unfolding save_partial_state valid_partial_state valid_strong_etag contains eqb
saved = refl

appended :
    (append_partial_suffix decimal_and_hex fs disk partial_path metadata_path incoming_path
      three_of_five 1 100).1
    ≡ true
unfolding append_partial_suffix finish_append append_data save_combined combine copy_bytes
    same_state save_partial_state load_partial_state load_from parse_metadata parse_lines split
    metadata_of accept_fields parse_positive_decimal parse_digits eqb valid_partial_state
    valid_strong_etag contains
appended = refl

not_appended :
    (append_partial_suffix decimal_and_hex read_only disk partial_path metadata_path incoming_path
      three_of_five 1 100).1
    ≡ false
unfolding append_partial_suffix finish_append append_data save_combined combine copy_bytes
    same_state save_partial_state load_partial_state load_from parse_metadata parse_lines split
    metadata_of accept_fields parse_positive_decimal parse_digits eqb valid_partial_state
    valid_strong_etag contains
not_appended = refl

was_published : (publish_source fs disk (codes "f") incoming_path partial_path).1 ≡ true
unfolding publish_source assemble commit_source then_append append_file append_pieces eqb
was_published = refl

load_partial_state_sound_example :
    (valid_partial_state three_of_five 100 ≡ true)
    × (content : Bytes) × (disk partial_path ≡ some content)
    × (length content ≡ three_of_five.downloaded_bytes)
load_partial_state_sound_example =
    load_partial_state_sound decimal_and_hex fs disk partial_path metadata_path 100 three_of_five
      loaded

load-save_example :
    load_partial_state decimal_and_hex fs
      (save_partial_state decimal_and_hex fs disk metadata_path three_of_five 100).0
      partial_path
      metadata_path
      100
    ≡ some three_of_five
load-save_example =
    load-save decimal_and_hex fs disk partial_path metadata_path 100 three_of_five (1 ∷ 2 ∷ 3 ∷ [])
      (omega arith) three_of_five-valid apart (unfold eqb in refl) refl saved

append-stopped_example :
    let after =
      append_data decimal_and_hex fs disk partial_path metadata_path incoming_path three_of_five 1
        100 in
    ((path : Text) → after.0 path ≡ disk path)
    ⊎ (load_partial_state decimal_and_hex fs after.0 partial_path metadata_path 100 ≡ none)
append-stopped_example =
    append-stopped decimal_and_hex fs disk partial_path metadata_path incoming_path three_of_five 1
      100 apart

append-fails_example :
    let after =
      append_partial_suffix decimal_and_hex read_only disk partial_path metadata_path incoming_path
        three_of_five 1 100 in
    ((path : Text) → after.0 path ≡ disk path)
    ⊎ (load_partial_state decimal_and_hex read_only after.0 partial_path metadata_path 100 ≡ none)
append-fails_example =
    append-fails decimal_and_hex read_only disk partial_path metadata_path incoming_path
      three_of_five 1 100 apart not_appended

append-succeeds_example :
    let after =
      append_partial_suffix decimal_and_hex fs disk partial_path metadata_path incoming_path
        three_of_five 1 100 in
    (load_partial_state decimal_and_hex fs disk partial_path metadata_path 100 ≡ some three_of_five)
    × (load_partial_state decimal_and_hex fs after.0 partial_path metadata_path 100
        ≡ some (extended three_of_five 1))
    × (prefix suffix : Bytes) × (disk partial_path ≡ some prefix)
    × (disk incoming_path ≡ some suffix)
    × (length suffix ≡ 1)
    × (after.0 partial_path ≡ some (prefix ++ suffix))
append-succeeds_example =
    append-succeeds decimal_and_hex fs disk partial_path metadata_path incoming_path three_of_five 1
      100 apart (omega arith) appended

publish_source-succeeds_example :
    let after = publish_source fs disk (codes "f") incoming_path partial_path in
    (prefix incoming : Bytes) × ((if is_empty partial_path then some [] else disk partial_path)
      ≡ some prefix)
    × (disk incoming_path ≡ some incoming)
    × (after.0 (codes "f") ≡ some (prefix ++ incoming))
publish_source-succeeds_example =
    publish_source-succeeds fs disk (codes "f") incoming_path partial_path was_published

publish_source_lem_example :
    publish_source fs disk (codes "f") incoming_path (codes "p")
    ≡ published fs disk (codes "f") (disk (codes "p")) (disk incoming_path)
publish_source_lem_example = publish_source_lem fs disk (codes "f") incoming_path (codes "p")
