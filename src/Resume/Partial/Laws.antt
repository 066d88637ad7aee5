-- ===== src/Resume/Partial/Laws.antt =====
-- lib/copernicus_resume_state.h: what is saved is loaded again, and what is loaded is valid.
use aowis_server_map.Prelude.{
  ℕ, ◌+◌, ◌%◌, ◌≤◌, ◌<◌, ◌≡◌, refl, sym, ◌∙◌, true, false, Option, none, some, arith, List, [], ◌∷◌,
  ◌++◌, length, Bytes, All, eqb_self, ltb, ◌==◌, ==-self, length-append,
}
use aowis_server_map.Resume.Search.{split, Lacks, split-append}
use aowis_server_map.Resume.Decimal.{
  parse_positive_decimal, parse_positive_decimal_iff, IsDigit, qint64_max,
}
use aowis_server_map.Resume.Files.{Format}
use aowis_server_map.Resume.Partial.{
  CopernicusPartialState, valid_strong_etag, valid_partial_state, magic, metadata_of, accept_fields,
  parse_lines, parse_metadata,
}

-- The conditions of a valid state on its numbers, and its ETag.
pub record Bounds (state : CopernicusPartialState) (maximum : ℕ) : Type 0 where
  pub started : 0 < state.downloaded_bytes
  pub incomplete : state.downloaded_bytes < state.total_bytes
  pub fits : state.total_bytes ≤ maximum
  pub etag : valid_strong_etag state.strong_etag ≡ true

pub valid-Bounds :
    (state : CopernicusPartialState) (maximum : ℕ)
    → valid_partial_state state maximum ≡ true
    → Bounds state maximum
unfolding valid_partial_state
valid-Bounds state maximum h = ground (arith, h)

pub valid_strong_etag-length : (etag : Bytes) → valid_strong_etag etag ≡ true → length etag ≤ 256
unfolding valid_strong_etag
valid_strong_etag-length etag h = ground (arith, h)

digits-lack_newline : (xs : Bytes) → All (λ c. b'0' ≤ c) xs → Lacks 10 xs
digits-lack_newline [] d = tt
digits-lack_newline (x ∷ xs) d = (λ e. omega (arith, d.0, e), digits-lack_newline xs d.1)

digits-above : (xs : Bytes) → All IsDigit xs → All (λ c. b'0' ≤ c) xs
digits-above [] d = tt
digits-above (x ∷ xs) d = (d.0.0, digits-above xs d.1)

magic-Lacks : Lacks 10 magic
magic-Lacks = omega arith

-- Four lines, one after another.
abbrev four_lines : Bytes → Bytes → Bytes → Bytes → Bytes
four_lines a b c d = a ++ (10 ∷ (b ++ (10 ∷ (c ++ (10 ∷ (d ++ (10 ∷ [])))))))

split-lines :
    (a b c d : Bytes)
    → Lacks 10 a
    → Lacks 10 b
    → Lacks 10 c
    → Lacks 10 d
    → split 10 (four_lines a b c d) ≡ a ∷ b ∷ c ∷ d ∷ [] ∷ []
split-lines a b c d la lb lc ld = rw (
  split-append 10 a (b ++ (10 ∷ (c ++ (10 ∷ (d ++ (10 ∷ [])))))) la,
  split-append 10 b (c ++ (10 ∷ (d ++ (10 ∷ [])))) lb,
  split-append 10 c (d ++ (10 ∷ [])) lc,
  split-append 10 d [] ld,
  split-empty,
)
  where
    split-empty : split 10 [] ≡ [] ∷ []
    split-empty = unfold split in refl

length-lines :
    (a b c d : Bytes) → length (four_lines a b c d) ≡ length a + length b + length c + length d + 4
length-lines a b c d = omega (
  arith,
  length-append a (10 ∷ (b ++ (10 ∷ (c ++ (10 ∷ (d ++ (10 ∷ []))))))),
  length-append b (10 ∷ (c ++ (10 ∷ (d ++ (10 ∷ []))))),
  length-append c (10 ∷ (d ++ (10 ∷ []))),
  length-append d (10 ∷ []),
)

module _ (format : Format) where
  open format use {
    number, to_hex, from_hex, number-Spells, length-number, from_hex-to_hex, length-to_hex,
    to_hex-digits,
  }

  number-Lacks : (n : ℕ) → Lacks 10 (number n)
  number-Lacks n = digits-lack_newline (number n) (digits-above _ (number-Spells n).digits)

  parse-number : (n : ℕ) → n ≤ qint64_max → parse_positive_decimal (number n) ≡ some n
  parse-number n h = (parse_positive_decimal_iff (number n) n).1 (number-Spells n, h)

  split-metadata_of :
      (state : CopernicusPartialState)
      → split 10 (metadata_of format state)
        ≡ magic
          ∷ number state.downloaded_bytes
          ∷ number state.total_bytes
          ∷ to_hex state.strong_etag
          ∷ []
          ∷ []
  unfolding metadata_of
  split-metadata_of state =
      split-lines magic (number state.downloaded_bytes) (number state.total_bytes)
        (to_hex state.strong_etag) magic-Lacks (number-Lacks _) (number-Lacks _)
        (digits-lack_newline _ (to_hex-digits _))

  length-metadata_of :
      (state : CopernicusPartialState) (maximum : ℕ)
      → maximum ≤ qint64_max
      → Bounds state maximum
      → length (metadata_of format state) ≤ 1024
  unfolding metadata_of
  length-metadata_of state maximum m b = omega (
    arith,
    length-lines magic (number state.downloaded_bytes) (number state.total_bytes)
        (to_hex state.strong_etag),
    length-number state.downloaded_bytes 18 (omega arith),
    length-number state.total_bytes 18 (omega arith),
    length-to_hex state.strong_etag,
    valid_strong_etag-length state.strong_etag b.etag,
  )

  -- A valid state's metadata is read back, beside a partial file of the downloaded size.
  pub parse_metadata-metadata_of :
      (state : CopernicusPartialState) (maximum : ℕ)
      → maximum ≤ qint64_max
      → valid_partial_state state maximum ≡ true
      → parse_metadata format (metadata_of format state) state.downloaded_bytes maximum ≡ some state
  unfolding parse_metadata parse_lines accept_fields
  parse_metadata-metadata_of state maximum m v =
      let b : Bounds state maximum = valid-Bounds state maximum v in
      let short : ltb 1024 (length (metadata_of format state)) ≡ false =
        ground (arith, length-metadata_of state maximum m b) in
      let even : (length (to_hex state.strong_etag) % 2 == 0) ≡ true =
        ground (arith, length-to_hex state.strong_etag) in
      rw (
        short,
        split-metadata_of state,
        eqb_self magic,
        parse-number state.downloaded_bytes (omega arith),
        parse-number state.total_bytes (omega arith),
        even,
        from_hex-to_hex state.strong_etag,
        eqb_self (to_hex state.strong_etag),
        v,
        ==-self state.downloaded_bytes,
      )

  accept_fields_sound :
      (downloaded total : Option ℕ) (hex : Bytes) (size maximum : ℕ)
      (state : CopernicusPartialState)
      → accept_fields format downloaded total hex size maximum ≡ some state
      → (valid_partial_state state maximum ≡ true) × (state.downloaded_bytes ≡ size)
  unfolding accept_fields
  accept_fields_sound none total hex size maximum state h = ground (arith, h)
  accept_fields_sound (some d) none hex size maximum state h = ground (arith, h)
  accept_fields_sound (some d) (some t) hex size maximum state h = ground (arith, h)

  parse_lines_sound :
      (lines : List Bytes) (size maximum : ℕ) (state : CopernicusPartialState)
      → parse_lines format lines size maximum ≡ some state
      → (valid_partial_state state maximum ≡ true) × (state.downloaded_bytes ≡ size)
  unfolding parse_lines
  parse_lines_sound (a ∷ b ∷ c ∷ d ∷ e ∷ []) size maximum state h =
      accept_fields_sound (parse_positive_decimal b) (parse_positive_decimal c) d size maximum state
        (ground (arith, h))
  parse_lines_sound _ size maximum state h = ground (arith, h)

  -- What the reader accepts.
  pub parse_metadata_sound :
      (content : Bytes) (size maximum : ℕ) (state : CopernicusPartialState)
      → parse_metadata format content size maximum ≡ some state
      → (valid_partial_state state maximum ≡ true) × (state.downloaded_bytes ≡ size)
  unfolding parse_metadata
  parse_metadata_sound content size maximum state h =
      parse_lines_sound (split 10 content) size maximum state (ground (arith, h))

  accept_fields-downloaded :
      (downloaded total : Option ℕ) (hex : Bytes) (size maximum : ℕ)
      (state : CopernicusPartialState)
      → accept_fields format downloaded total hex size maximum ≡ some state
      → downloaded ≡ some size
  unfolding accept_fields
  accept_fields-downloaded none total hex size maximum state h = ground (arith, h)
  accept_fields-downloaded (some d) none hex size maximum state h = ground (arith, h)
  accept_fields-downloaded (some d) (some t) hex size maximum state h = ground (arith, h)

  -- One metadata file fits partial files of one size only.
  parse_lines-one_size :
      (lines : List Bytes) (size size' maximum : ℕ) (state state' : CopernicusPartialState)
      → parse_lines format lines size maximum ≡ some state
      → parse_lines format lines size' maximum ≡ some state'
      → size ≡ size'
  unfolding parse_lines
  parse_lines-one_size (a ∷ b ∷ c ∷ d ∷ e ∷ []) size size' maximum state state' h k =
      let x =
        accept_fields-downloaded (parse_positive_decimal b) (parse_positive_decimal c) d size
          maximum state (ground (arith, h)) in
      let y =
        accept_fields-downloaded (parse_positive_decimal b) (parse_positive_decimal c) d size'
          maximum state' (ground (arith, k)) in
      cc (sym x ∙ y)
  parse_lines-one_size _ size size' maximum state state' h k = ground (arith, h)

  pub parse_metadata-one_size :
      (content : Bytes) (size size' maximum : ℕ) (state state' : CopernicusPartialState)
      → parse_metadata format content size maximum ≡ some state
      → parse_metadata format content size' maximum ≡ some state'
      → size ≡ size'
  unfolding parse_metadata
  parse_metadata-one_size content size size' maximum state state' h k =
      parse_lines-one_size (split 10 content) size size' maximum state state' (ground (arith, h))
        (ground (arith, k))
