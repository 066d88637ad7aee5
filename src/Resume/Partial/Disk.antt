-- ===== src/Resume/Partial/Disk.antt =====
-- lib/copernicus_resume_state.h: the saved state on the disk.
use aowis_server_map.Prelude.{
  ℕ, ◌≤◌, ◌≡◌, refl, sym, true, false, Option, none, some, arith, length, Bytes, Text, eqb,
  eqb_self,
}
use aowis_server_map.Resume.Decimal.{qint64_max}
use aowis_server_map.Resume.Files.{FileSystem, Format}
use aowis_server_map.Resume.Partial.{
  CopernicusPartialState, valid_partial_state, metadata_of, save_partial_state, load_partial_state,
}
use aowis_server_map.Resume.Partial.Laws.{
  Bounds, valid-Bounds, parse_metadata-metadata_of, parse_metadata_sound,
}

module _ (format : Format) where
  module _ (fs : FileSystem) where
    open fs use {Disk, read, save, read_saved}

    -- Whatever is on the disk, a state that is loaded is valid for the maximum, and the partial file
    -- has exactly its downloaded bytes.
    pub load_partial_state_sound :
        (d : Disk) (partial_path metadata_path : Text) (maximum : ℕ)
        (state : CopernicusPartialState)
        → load_partial_state format fs d partial_path metadata_path maximum ≡ some state
        → (valid_partial_state state maximum ≡ true)
          × (content : Bytes) × (read d partial_path ≡ some content)
          × (length content ≡ state.downloaded_bytes)
    unfolding load_partial_state
    load_partial_state_sound d partial_path metadata_path maximum state h =
        go (read d partial_path) (read d metadata_path) refl refl
      where
        go :
            (p m : Option Bytes)
            → read d partial_path ≡ p
            → read d metadata_path ≡ m
            → (valid_partial_state state maximum ≡ true)
              × (content : Bytes) × (read d partial_path ≡ some content)
              × (length content ≡ state.downloaded_bytes)
        go none m p≡ m≡ = absurd (ground (arith, p≡, h))
        go (some content) none p≡ m≡ = absurd (ground (arith, p≡, m≡, h))
        go (some content) (some metadata) p≡ m≡ =
            let (valid, size) =
              parse_metadata_sound format metadata (length content) maximum state
                (ground (arith, p≡, m≡, h)) in
            (valid, content, p≡, sym size)

    -- A valid state that is saved beside a partial file of its downloaded bytes is loaded again, if
    -- the maximum is at most 2 ^ 63 - 1, the paths differ and the save does not fail.
    pub load-save :
        (d : Disk) (partial_path metadata_path : Text) (maximum : ℕ)
        (state : CopernicusPartialState) (content : Bytes)
        → maximum ≤ qint64_max
        → valid_partial_state state maximum ≡ true
        → eqb partial_path metadata_path ≡ false
        → read d partial_path ≡ some content
        → length content ≡ state.downloaded_bytes
        → (save_partial_state format fs d metadata_path state maximum).1 ≡ true
        → load_partial_state format fs
            (save_partial_state format fs d metadata_path state maximum).0
            partial_path
            metadata_path
            maximum
          ≡ some state
    unfolding load_partial_state save_partial_state
    load-save d partial_path metadata_path maximum state content m v apart partial size saved =
        let b : Bounds state maximum = valid-Bounds state maximum v in
        let ok : (save d metadata_path (metadata_of format state)).1 ≡ true = rw v at saved in
        rw
          (
            v,
            read_saved d metadata_path partial_path (metadata_of format state) ok,
            apart,
            partial,
            read_saved d metadata_path metadata_path (metadata_of format state) ok,
            eqb_self metadata_path,
          )
          (ground (
            arith,
            size,
            b.started,
            b.incomplete,
            b.fits,
            parse_metadata-metadata_of format state maximum m v,
          ))
