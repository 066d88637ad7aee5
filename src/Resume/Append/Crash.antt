-- ===== src/Resume/Append/Crash.antt =====
-- lib/copernicus_resume_state.h: an append that fails or stops never leaves a state that is loaded
-- with other bytes than its own.
use aowis_server_map.Prelude.{
  ℕ, ◌≤◌, ◌≡◌, refl, ◌∙◌, Bool, true, false, Option, none, some, arith, List, ◌++◌, length, Bytes,
  Text, eqb, eqb→eq, eqb_self, ◌⊎◌, inl, inr, Bool-cases, Option-cases, length-append,
}
use aowis_server_map.Resume.Decimal.{qint64_max}
use aowis_server_map.Resume.Files.{FileSystem, Format}
use aowis_server_map.Resume.Partial.{
  CopernicusPartialState, valid_partial_state, metadata_of, save_partial_state, load_from,
  load_partial_state,
}
use aowis_server_map.Resume.Partial.Laws.{parse_metadata-one_size}
use aowis_server_map.Resume.Partial.Disk.{load-save}
use aowis_server_map.Resume.Append.{extended, append_data, finish_append, append_partial_suffix}
use aowis_server_map.Resume.Append.Laws.{Extended, data-Extended, data-unchanged}

eqb-flip : (xs ys : List ℕ) → eqb xs ys ≡ false → eqb ys xs ≡ false
eqb-flip xs ys h = elim (Bool-cases (eqb ys xs)) [
  | inl e ↦ absurd (differ (eqb→eq ys xs e))
  | inr e ↦ e
]
  where
    differ : ys ≡ xs → ⊥
    differ e = let same : eqb xs ys ≡ true = rw e (eqb_self xs) in cc

module _ (format : Format) (fs : FileSystem) (d : fs.Disk)
    (partial_path metadata_path incoming_path : Text) (old : CopernicusPartialState)
    (suffix_bytes maximum : ℕ) (apart : eqb partial_path metadata_path ≡ false) where
  open fs use {Disk, read, save, read_saved, read_unsaved}

  abbrev load : Disk → Option CopernicusPartialState
  load e = load_partial_state format fs e partial_path metadata_path maximum

  abbrev after_data : Disk × Bool
  after_data =
      append_data format fs d partial_path metadata_path incoming_path old suffix_bytes maximum

  abbrev after_all : Disk × Bool
  after_all =
      append_partial_suffix format fs d partial_path metadata_path incoming_path old suffix_bytes
        maximum

  abbrev Facts : Type 0
  Facts = Extended format fs d partial_path metadata_path incoming_path old suffix_bytes maximum

  partial_after :
      (x : Facts)
      → after_data.1 ≡ true
      → read after_data.0 partial_path ≡ some (x.prefix ++ x.suffix)
  partial_after x h = rw (
    x.saved,
    read_saved d partial_path partial_path (x.prefix ++ x.suffix) (rw x.saved at h),
    eqb_self partial_path,
  )

  metadata_after :
      (x : Facts) → after_data.1 ≡ true → read after_data.0 metadata_path ≡ read d metadata_path
  metadata_after x h = rw (
    x.saved,
    read_saved d partial_path metadata_path (x.prefix ++ x.suffix) (rw x.saved at h),
    eqb-flip partial_path metadata_path apart,
  )

  load_from-one_size :
      (p p' : Bytes) (m : Option Bytes) (state state' : CopernicusPartialState)
      → load_from format fs (some p) m maximum ≡ some state
      → load_from format fs (some p') m maximum ≡ some state'
      → length p ≡ length p'
  unfolding load_from
  load_from-one_size p p' none state state' h k = ground (arith, h)
  load_from-one_size p p' (some content) state state' h k =
      parse_metadata-one_size format content (length p) (length p') maximum state state'
        (ground (arith, h)) (ground (arith, k))

  load_same_reads :
      (e e' : Disk)
      → read e partial_path ≡ read e' partial_path
      → read e metadata_path ≡ read e' metadata_path
      → load e ≡ load e'
  unfolding load_partial_state
  load_same_reads e e' p m = rw (p, m)

  -- The process stops between the two saves.
  stopped-none : after_data.1 ≡ true → load after_data.0 ≡ none
  unfolding load_partial_state
  stopped-none h = elim (Option-cases (load after_data.0)) [
    | inl e ↦ e
    | inr (state, e) ↦ absurd (impossible state e)
  ]
    where
      x : Facts
      x =
          data-Extended format fs d partial_path metadata_path incoming_path old suffix_bytes
            maximum h

      impossible : (state : CopernicusPartialState) → load after_data.0 ≡ some state → ⊥
      impossible state e = omega (
        arith,
        load_from-one_size (x.prefix ++ x.suffix) x.prefix (read d metadata_path) state old
            (rw (partial_after x h, metadata_after x h) at e) (rw x.had at (x.loaded)),
        length-append x.prefix x.suffix,
        x.suffix_size,
        x.some_bytes,
      )

  finish-false :
      (r : Disk × Bool)
      → r.1 ≡ false
      → finish_append format fs r metadata_path (extended old suffix_bytes) maximum ≡ (r.0, false)
  unfolding finish_append
  finish-false (e, false) h = refl
  finish-false (e, true) h = ground (arith, h)

  finish-true :
      (r : Disk × Bool)
      → r.1 ≡ true
      → finish_append format fs r metadata_path (extended old suffix_bytes) maximum
        ≡ save_partial_state format fs r.0 metadata_path (extended old suffix_bytes) maximum
  unfolding finish_append
  finish-true (e, true) h = refl
  finish-true (e, false) h = ground (arith, h)

  -- A save of a state that fails leaves both files.
  save_fails :
      (e : Disk) (state : CopernicusPartialState) (path : Text)
      → (save_partial_state format fs e metadata_path state maximum).1 ≡ false
      → read (save_partial_state format fs e metadata_path state maximum).0 path ≡ read e path
  unfolding save_partial_state
  save_fails e state path h = elim (Bool-cases (valid_partial_state state maximum)) [
    | inl v ↦ rw v (read_unsaved e metadata_path path (metadata_of format state) (rw v at h))
    | inr v ↦ rw v
  ]

  -- If the process stops after the first save, then either no file has changed, or no state is loaded
  -- from the partial file and the metadata; these have different paths.
  pub append-stopped :
      ((path : Text) → read after_data.0 path ≡ read d path) ⊎ (load after_data.0 ≡ none)
  append-stopped = elim (Bool-cases after_data.1) [
    | inl h ↦ inr (stopped-none h)
    | inr h ↦ inl (λ path.
        data-unchanged format fs d partial_path metadata_path incoming_path old suffix_bytes maximum
          path h)
  ]

  -- If the append fails, at whatever point, then either no file has changed, or no state is loaded
  -- from the partial file and the metadata; these have different paths.
  pub append-fails :
      after_all.1 ≡ false
      → ((path : Text) → read after_all.0 path ≡ read d path) ⊎ (load after_all.0 ≡ none)
  unfolding append_partial_suffix
  append-fails h = elim (Bool-cases after_data.1) [
    | inr e ↦ rw (finish-false after_data e) append-stopped
    | inl e ↦
        let failed = rw (finish-true after_data e) at h in
        inr (
          rw (finish-true after_data e) (
            load_same_reads _ after_data.0
              (save_fails after_data.0 (extended old suffix_bytes) partial_path failed)
              (save_fails after_data.0 (extended old suffix_bytes) metadata_path failed)
            ∙ stopped-none e))
  ]

  -- A save of a state that succeeds has tested it, and leaves the partial file.
  save_succeeds :
      (e : Disk) (state : CopernicusPartialState)
      → (save_partial_state format fs e metadata_path state maximum).1 ≡ true
      → (valid_partial_state state maximum ≡ true)
        × (read (save_partial_state format fs e metadata_path state maximum).0 partial_path
            ≡ read e partial_path)
  unfolding save_partial_state
  save_succeeds e state h = elim (Bool-cases (valid_partial_state state maximum)) [
    | inl v ↦ (
      v,
      rw (v, read_saved e metadata_path partial_path (metadata_of format state) (rw v at h), apart),
    )
    | inr v ↦ absurd (ground (arith, v, h))
  ]

  -- If the append succeeds, the old state was loaded before it, its partial file is now followed by
  -- the incoming bytes, and the state that is loaded counts them too; the partial file and the
  -- metadata have different paths, and the maximum is at most 2 ^ 63 - 1.
  pub append-succeeds :
      maximum ≤ qint64_max
      → after_all.1 ≡ true
      → (load d ≡ some old)
        × (load after_all.0 ≡ some (extended old suffix_bytes))
        × (prefix suffix : Bytes) × (read d partial_path ≡ some prefix)
        × (read d incoming_path ≡ some suffix)
        × (length suffix ≡ suffix_bytes)
        × (read after_all.0 partial_path ≡ some (prefix ++ suffix))
  unfolding append_partial_suffix
  append-succeeds m h = elim (Bool-cases after_data.1) [
    | inr e ↦ absurd (ground (arith, finish-false after_data e, h))
    | inl e ↦
        let x : Facts =
          data-Extended format fs d partial_path metadata_path incoming_path old suffix_bytes
            maximum e in
        let saved = rw (finish-true after_data e) at h in
        let (valid, kept) = save_succeeds after_data.0 (extended old suffix_bytes) saved in
        rw (finish-true after_data e) (
          x.loaded,
          load-save format fs after_data.0 partial_path metadata_path maximum
              (extended old suffix_bytes) (x.prefix ++ x.suffix) m valid apart (partial_after x e)
              (omega (arith, length-append x.prefix x.suffix, x.prefix_size, x.suffix_size)) saved,
          x.prefix,
          x.suffix,
          x.had,
          x.came,
          x.suffix_size,
          kept ∙ partial_after x e,
        )
  ]
