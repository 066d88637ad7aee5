-- ===== src/Resume/Append.antt =====
-- lib/copernicus_resume_state.h: a further part of an interrupted download is appended. Between the
-- two saves the process may stop, so the first of them is a function of its own.
pub mod Laws
pub mod Crash
use aowis_server_map.Prelude.{
  ℕ, zero, suc, ◌+◌, ◌-◌, ◌*◌, ◌/◌, ◌%◌, ◌^◌, ◌≤◌, ◌<◌, ◌≡◌, ◌≢◌, ◌↔◌, refl, sym, ap, subst, ◌∙◌,
  Bool, true, false, not, ◌||◌, ◌&&◌, Option, none, some, arith, List, [], ◌∷◌, ◌++◌, length, Bytes,
  Text, drop, take, replicate, map, All, All-append, is_empty, codes, eqb, eqb→eq, eqb_self,
  append_assoc, append-nil, get_or, min, max, if◌then◌else◌, ltb, leb, ◌==◌, ==→eq, ==-self, ◌⊎◌,
  inl, inr, Bool-cases, Option-cases, length-append, length-take, length-drop, take-append,
  drop-append, take-all, tests, &&-true, leb→le, ltb→lt, le→leb,
}
use aowis_server_map.Resume.Files.{FileSystem, Format, copy_bytes}
use aowis_server_map.Resume.Partial.{
  CopernicusPartialState, valid_partial_state, save_partial_state, load_partial_state,
}

-- `qint64(64 * 1024)`
abbrev pub append_piece : ℕ
append_piece = 65536

-- `QFileInfo::size`, which is 0 for a file that is not there.
abbrev pub size_of : Option Bytes → ℕ
size_of none = 0
size_of (some content) = length content

-- The stored state is still the one that the caller knows.
unfoldable pub same_state : Option CopernicusPartialState → CopernicusPartialState → Bool
same_state none old = false
same_state (some current) old =
    current.downloaded_bytes == old.downloaded_bytes
    && current.total_bytes == old.total_bytes
    && eqb current.strong_etag old.strong_etag

-- Both copies, into the new file; a file that cannot be opened is a failure.
unfoldable pub combine : Option Bytes → Option Bytes → ℕ → ℕ → Option Bytes
combine none suffix downloaded suffix_bytes = none
combine (some prefix) none downloaded suffix_bytes = none
combine (some prefix) (some suffix) downloaded suffix_bytes =
    elim (copy_bytes downloaded append_piece prefix downloaded []) [
      | none ↦ none
      | some copied ↦ copy_bytes suffix_bytes append_piece suffix suffix_bytes copied
    ]

abbrev pub extended : CopernicusPartialState → ℕ → CopernicusPartialState
extended old suffix_bytes = record old { downloaded_bytes = old.downloaded_bytes + suffix_bytes }

module _ (format : Format) (fs : FileSystem) where
  open fs use {Disk, read, save}

  unfoldable pub save_combined : Disk → Text → Option Bytes → Disk × Bool
  save_combined d path none = (d, false)
  save_combined d path (some combined) = save d path combined

  -- Up to the commit of the longer partial file.
  unfoldable pub append_data :
      Disk → Text → Text → Text → CopernicusPartialState → ℕ → ℕ → Disk × Bool
  unfolding save_combined
  append_data d partial_path metadata_path incoming_path old suffix_bytes maximum =
      if not (valid_partial_state old maximum)
        || suffix_bytes == 0
        || leb (old.total_bytes - old.downloaded_bytes) suffix_bytes
      then (d, false)
      else if not
            (same_state (load_partial_state format fs d partial_path metadata_path maximum) old)
          || not (size_of (read d incoming_path) == suffix_bytes)
      then (d, false)
      else save_combined d partial_path
          (combine (read d partial_path) (read d incoming_path) old.downloaded_bytes suffix_bytes)

  -- And the metadata of the longer file.
  unfoldable pub finish_append : Disk × Bool → Text → CopernicusPartialState → ℕ → Disk × Bool
  finish_append (d, false) metadata_path updated maximum = (d, false)
  finish_append (d, true) metadata_path updated maximum =
      save_partial_state format fs d metadata_path updated maximum

  unfoldable pub append_partial_suffix :
      Disk → Text → Text → Text → CopernicusPartialState → ℕ → ℕ → Disk × Bool
  unfolding finish_append
  append_partial_suffix d partial_path metadata_path incoming_path old suffix_bytes maximum =
      finish_append
        (append_data d partial_path metadata_path incoming_path old suffix_bytes maximum)
        metadata_path (extended old suffix_bytes) maximum
