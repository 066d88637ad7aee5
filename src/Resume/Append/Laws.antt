-- ===== src/Resume/Append/Laws.antt =====
-- lib/copernicus_resume_state.h: what an append leaves on the disk, wherever it stops.
use aowis_server_map.Prelude.{
  ℕ, ◌+◌, ◌-◌, ◌<◌, ◌≡◌, refl, ◌∙◌, Bool, true, false, not, ◌||◌, Option, none, some, arith, [],
  ◌++◌, length, Bytes, Text, eqb→eq, if◌then◌else◌, leb, ◌==◌, ◌⊎◌, inl, inr, take-all,
}
use aowis_server_map.Resume.Files.{FileSystem, Format, copy_bytes, copy_bytes_lem}
use aowis_server_map.Resume.Partial.{
  CopernicusPartialState, valid_partial_state, load_partial_state,
}
use aowis_server_map.Resume.Partial.Disk.{load_partial_state_sound}
use aowis_server_map.Resume.Append.{
  append_piece, size_of, same_state, combine, save_combined, append_data,
}

copy_whole :
    (xs copied : Bytes)
    → copy_bytes (length xs) append_piece xs (length xs) copied ≡ some (copied ++ xs)
copy_whole xs copied =
    copy_bytes_lem (length xs) append_piece xs (length xs) copied (omega arith) (omega arith)
    ∙ rw take-all (ground arith)

combine_lem :
    (prefix suffix : Bytes) (n m : ℕ)
    → length prefix ≡ n
    → length suffix ≡ m
    → combine (some prefix) (some suffix) n m ≡ some (prefix ++ suffix)
unfolding combine
combine_lem prefix suffix n m p s =
    rw (← p, ← s) (ground (arith, copy_whole prefix [], copy_whole suffix prefix))

same_state→eq :
    (o : Option CopernicusPartialState) (old : CopernicusPartialState)
    → same_state o old ≡ true
    → o ≡ some old
unfolding same_state
same_state→eq none old h = cc
same_state→eq (some current) old h = ground (arith, h, eqb→eq current.strong_etag old.strong_etag)

size_of-some :
    (o : Option Bytes) (n : ℕ)
    → 0 < n
    → size_of o ≡ n
    → (xs : Bytes) × (o ≡ some xs) × (length xs ≡ n)
size_of-some none n h e = absurd (omega (arith, e))
size_of-some (some xs) n h e = (xs, refl, e)

-- The two tests before the copy, for any results.
module _ {D : Type 0} (d : D) (k : D × Bool) (v same : Bool) (s t z : ℕ) where
  abbrev guarded : D × Bool
  guarded =
      if not v || s == 0 || leb t s
      then (d, false)
      else if not same || not (z == s)
      then (d, false)
      else k

  guarded-true :
      guarded.1 ≡ true → (v ≡ true) × (0 < s) × (s < t) × (same ≡ true) × (z ≡ s) × (guarded ≡ k)
  guarded-true h = ground (arith, h)

  guarded-either : (guarded ≡ (d, false)) ⊎ (guarded ≡ k)
  guarded-either = ground arith

module _ (format : Format) (fs : FileSystem) (d : fs.Disk)
    (partial_path metadata_path incoming_path : Text) (old : CopernicusPartialState)
    (suffix_bytes maximum : ℕ) where
  open fs use {Disk, read, save, read_saved, read_unsaved}

  abbrev pub load : Disk → Option CopernicusPartialState
  load e = load_partial_state format fs e partial_path metadata_path maximum

  abbrev pub after_data : Disk × Bool
  after_data =
      append_data format fs d partial_path metadata_path incoming_path old suffix_bytes maximum

  -- What a first step that succeeds has found and done.
  pub record Extended : Type 0 where
    pub valid : valid_partial_state old maximum ≡ true
    pub some_bytes : 0 < suffix_bytes
    pub room : old.downloaded_bytes + suffix_bytes < old.total_bytes
    pub loaded : load d ≡ some old
    pub prefix : Bytes
    pub suffix : Bytes
    pub had : read d partial_path ≡ some prefix
    pub prefix_size : length prefix ≡ old.downloaded_bytes
    pub came : read d incoming_path ≡ some suffix
    pub suffix_size : length suffix ≡ suffix_bytes
    pub saved : after_data ≡ save d partial_path (prefix ++ suffix)

  data_guards :
      after_data.1 ≡ true
      → (valid_partial_state old maximum ≡ true)
        × (0 < suffix_bytes)
        × (suffix_bytes < old.total_bytes - old.downloaded_bytes)
        × (same_state (load d) old ≡ true)
        × (size_of (read d incoming_path) ≡ suffix_bytes)
        × (after_data
            ≡ save_combined format fs d partial_path (
                combine
                  (read d partial_path)
                  (read d incoming_path)
                  old.downloaded_bytes
                  suffix_bytes))
  unfolding append_data
  data_guards h =
      guarded-true d
        (save_combined format fs d partial_path
          (combine (read d partial_path) (read d incoming_path) old.downloaded_bytes suffix_bytes))
        (valid_partial_state old maximum) (same_state (load d) old) suffix_bytes
        (old.total_bytes - old.downloaded_bytes) (size_of (read d incoming_path)) h

  combined-saved :
      (p i : Option Bytes) (prefix suffix : Bytes)
      → p ≡ some prefix
      → i ≡ some suffix
      → length prefix ≡ old.downloaded_bytes
      → length suffix ≡ suffix_bytes
      → save_combined format fs d partial_path (combine p i old.downloaded_bytes suffix_bytes)
        ≡ save d partial_path (prefix ++ suffix)
  unfolding save_combined
  combined-saved p i prefix suffix had came n m =
      rw (had, came, combine_lem prefix suffix old.downloaded_bytes suffix_bytes n m)

  pub data-Extended : after_data.1 ≡ true → Extended
  data-Extended h =
      let (valid, some_bytes, room, same, came, done) = data_guards h in
      let loaded = same_state→eq (load d) old same in
      let (_, prefix, had, prefix_size) =
        load_partial_state_sound format fs d partial_path metadata_path maximum old loaded in
      let (suffix, came', suffix_size) =
        size_of-some (read d incoming_path) suffix_bytes some_bytes came in
      record {
        valid = valid;
        some_bytes = some_bytes;
        room = omega arith;
        loaded = loaded;
        prefix = prefix;
        suffix = suffix;
        had = had;
        prefix_size = prefix_size;
        came = came';
        suffix_size = suffix_size;
        saved =
            done
            ∙ combined-saved (read d partial_path) (read d incoming_path) prefix suffix had came'
                prefix_size suffix_size;
      }

  combined_unchanged :
      (path : Text) (o : Option Bytes)
      → (save_combined format fs d partial_path o).1 ≡ false
      → read (save_combined format fs d partial_path o).0 path ≡ read d path
  unfolding save_combined
  combined_unchanged path none h = refl
  combined_unchanged path (some content) h = read_unsaved d partial_path path content h

  -- A first step that fails changes no file.
  pub data-unchanged : (path : Text) → after_data.1 ≡ false → read after_data.0 path ≡ read d path
  unfolding append_data
  data-unchanged path h = elim either [
    | inl e ↦ rw e
    | inr e ↦ rw e (combined_unchanged path _ (rw e at h))
  ]
    where
      either :
          (after_data ≡ (d, false))
          ⊎ (after_data
              ≡ save_combined format fs d partial_path (
                  combine
                    (read d partial_path)
                    (read d incoming_path)
                    old.downloaded_bytes
                    suffix_bytes))
      either =
          guarded-either d
            (save_combined format fs d partial_path (
              combine (read d partial_path) (read d incoming_path) old.downloaded_bytes
                suffix_bytes))
            (valid_partial_state old maximum) (same_state (load d) old) suffix_bytes
            (old.total_bytes - old.downloaded_bytes) (size_of (read d incoming_path))
