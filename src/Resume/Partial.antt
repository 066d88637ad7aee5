-- ===== src/Resume/Partial.antt =====
-- lib/copernicus_resume_state.h: the saved state of an interrupted download. A size is a number: the
-- tests refuse a negative one as they refuse 0.
pub mod Laws
pub mod Disk
use aowis_server_map.Prelude.{
  ℕ, zero, suc, ◌+◌, ◌-◌, ◌*◌, ◌/◌, ◌%◌, ◌^◌, ◌≤◌, ◌<◌, ◌≡◌, ◌≢◌, ◌↔◌, refl, sym, ap, subst, ◌∙◌,
  Bool, true, false, not, ◌||◌, ◌&&◌, Option, none, some, arith, List, [], ◌∷◌, ◌++◌, length, Bytes,
  Text, drop, take, replicate, map, All, All-append, is_empty, codes, eqb, eqb→eq, eqb_self,
  append_assoc, append-nil, get_or, min, max, if◌then◌else◌, ltb, leb, ◌==◌, ==→eq, ==-self, ◌⊎◌,
  inl, inr, Bool-cases, Option-cases, length-append, length-take, length-drop, take-append,
  drop-append, take-all, tests, &&-true, leb→le, ltb→lt, le→leb,
}
use aowis_server_map.Resume.Search.{contains, split}
use aowis_server_map.Resume.Decimal.{parse_positive_decimal}
use aowis_server_map.Resume.Files.{FileSystem, Format}

pub record CopernicusPartialState : Type 0 where
  pub downloaded_bytes : ℕ
  pub total_bytes : ℕ
  pub strong_etag : Bytes

abbrev pub last_or : Bytes → ℕ → ℕ
last_or [] d = d
last_or (x ∷ xs) d = last_or xs x

unfoldable pub valid_strong_etag : Bytes → Bool
valid_strong_etag etag =
    leb 2 (length etag)
    && leb (length etag) 256
    && get_or etag 0 0 == b'"'
    && last_or etag 0 == b'"'
    && not (contains 10 etag)
    && not (contains 13 etag)
    && not (contains 0 etag)

unfoldable pub valid_partial_state : CopernicusPartialState → ℕ → Bool
valid_partial_state state maximum =
    ltb 0 maximum
    && ltb 0 state.downloaded_bytes
    && ltb state.downloaded_bytes state.total_bytes
    && leb state.total_bytes maximum
    && valid_strong_etag state.strong_etag

abbrev pub magic : Bytes
magic = codes "AOWIS-COPERNICUS-PARTIAL-1"

module _ (format : Format) where
  open format use {number, to_hex, from_hex}

  -- The metadata file: four lines, each with its end.
  unfoldable pub metadata_of : CopernicusPartialState → Bytes
  metadata_of state =
      magic
      ++ (10
          ∷ (number state.downloaded_bytes
              ++ (10
                  ∷ (number state.total_bytes ++ (10 ∷ (to_hex state.strong_etag ++ (10 ∷ [])))))))

  -- The last checks, on the three fields.
  unfoldable pub accept_fields : Option ℕ → Option ℕ → Bytes → ℕ → ℕ → Option CopernicusPartialState
  accept_fields none total hex size maximum = none
  accept_fields (some downloaded) none hex size maximum = none
  accept_fields (some downloaded) (some total) hex size maximum =
      let state : CopernicusPartialState = record {
        downloaded_bytes = downloaded;
        total_bytes = total;
        strong_etag = from_hex hex;
      } in
      if not (length hex % 2 == 0)
      then none
      else if not (eqb (to_hex (from_hex hex)) hex)
      then none
      else if not (valid_partial_state state maximum) || not (size == downloaded)
      then none
      else some state

  -- Five parts, of which the last is empty.
  unfoldable pub parse_lines : List Bytes → ℕ → ℕ → Option CopernicusPartialState
  parse_lines (first ∷ downloaded ∷ total ∷ hex ∷ end ∷ []) size maximum =
      if not (eqb first magic) || not (is_empty end)
      then none
      else accept_fields (parse_positive_decimal downloaded) (parse_positive_decimal total) hex size
          maximum
  parse_lines _ size maximum = none

  unfoldable pub parse_metadata : Bytes → ℕ → ℕ → Option CopernicusPartialState
  parse_metadata content size maximum =
      if ltb 1024 (length content) then none else parse_lines (split 10 content) size maximum

  module _ (fs : FileSystem) where
    open fs use {Disk, read, save}

    unfoldable pub save_partial_state : Disk → Text → CopernicusPartialState → ℕ → Disk × Bool
    save_partial_state d metadata_path state maximum =
        if valid_partial_state state maximum
        then save d metadata_path (metadata_of state)
        else (d, false)

    -- The test of the partial file, and then the metadata.
    unfoldable pub load_from : Option Bytes → Option Bytes → ℕ → Option CopernicusPartialState
    load_from none metadata maximum = none
    load_from (some partial) none maximum = none
    load_from (some partial) (some metadata) maximum =
        if length partial == 0 || leb maximum (length partial)
        then none
        else parse_metadata metadata (length partial) maximum

    unfoldable pub load_partial_state : Disk → Text → Text → ℕ → Option CopernicusPartialState
    unfolding load_from
    load_partial_state d partial_path metadata_path maximum =
        load_from (read d partial_path) (read d metadata_path) maximum
