-- ===== src/Resume/Publish.antt =====
-- lib/copernicus_source_publish.h: `publishCopernicusSource`.
use aowis_server_map.Prelude.{
  ℕ, zero, suc, ◌≤◌, ◌<◌, ◌≡◌, refl, sym, ap, ◌∙◌, Bool, true, false, Option, none, some, arith, [],
  ◌∷◌, ◌++◌, length, Bytes, Text, drop, take, is_empty, eqb_self, append_assoc, append-nil,
  if◌then◌else◌, length-drop,
}
use aowis_server_map.Resume.Files.{FileSystem}

-- `256 * 1024`
abbrev pub publish_piece : ℕ
publish_piece = 262144

-- `append_file`: pieces until the end of the input. Each takes a byte at least, so as many rounds as
-- the input has bytes are enough fuel.
unfoldable pub append_pieces : ℕ → ℕ → Bytes → Bytes → Option Bytes
append_pieces zero piece input output = if is_empty input then some output else none
append_pieces (suc fuel) piece input output =
    let chunk = take piece input in
    let rest = append_pieces fuel piece (drop (length chunk) input) (output ++ chunk) in
    if is_empty input then some output else if is_empty chunk then none else rest

unfoldable pub append_file : Option Bytes → Bytes → Option Bytes
unfolding append_pieces
append_file none output = none
append_file (some input) output = append_pieces (length input) publish_piece input output

-- The second file, if the first did not fail.
unfoldable pub then_append : Option Bytes → Option Bytes → Option Bytes
unfolding append_file
then_append none incoming = none
then_append (some output) incoming = append_file incoming output

module _ (fs : FileSystem) where
  open fs use {Disk, read, save}

  -- What the new file is to hold: the prefix, if there is a path for one, and the incoming file.
  unfoldable pub assemble : Disk → Text → Text → Option Bytes
  unfolding append_file then_append
  assemble d incoming_path prefix_path =
      then_append (if is_empty prefix_path then some [] else append_file (read d prefix_path) [])
        (read d incoming_path)

  -- A failed copy cancels the new file.
  unfoldable pub commit_source : Disk → Text → Option Bytes → Disk × Bool
  commit_source d final_path none = (d, false)
  commit_source d final_path (some content) = save d final_path content

  unfoldable pub publish_source : Disk → Text → Text → Text → Disk × Bool
  unfolding assemble commit_source
  publish_source d final_path incoming_path prefix_path =
      commit_source d final_path (assemble d incoming_path prefix_path)

-- What a publication is to do with what the two files hold.
abbrev pub published :
    (fs : FileSystem) → fs.Disk → Text → Option Bytes → Option Bytes → fs.Disk × Bool
published fs d final_path (some prefix) (some incoming) = fs.save d final_path (prefix ++ incoming)
published fs d final_path _ _ = (d, false)

drop-take-join : (n : ℕ) (xs : Bytes) → take n xs ++ drop (length (take n xs)) xs ≡ xs
drop-take-join zero xs = refl
drop-take-join (suc n) [] = refl
drop-take-join (suc n) (x ∷ xs) = ap (◌∷◌ x) (drop-take-join n xs)

-- The loop copies the whole input, in pieces of any positive size.
append_pieces_lem :
    (fuel piece : ℕ) (input output : Bytes)
    → 0 < piece
    → length input ≤ fuel
    → append_pieces fuel piece input output ≡ some (output ++ input)
unfolding append_pieces
append_pieces_lem zero piece [] output p h = simp append-nil
append_pieces_lem zero piece (x ∷ input) output p h = absurd (omega arith)
append_pieces_lem (suc fuel) piece [] output p h = simp append-nil
append_pieces_lem (suc fuel) (suc piece) (x ∷ input) output p h =
    let tail = drop (length (take piece input)) input in
    append_pieces_lem fuel (suc piece) tail (output ++ (x ∷ take piece input)) p
      (omega (arith, length-drop (length (take piece input)) input))
    ∙ ap some (
        append_assoc output (x ∷ take piece input) tail
        ∙ ap (λ z. output ++ (x ∷ z)) (drop-take-join piece input))
append_pieces_lem (suc fuel) zero (x ∷ input) output p h = absurd (omega arith)

append_file_lem : (input output : Bytes) → append_file (some input) output ≡ some (output ++ input)
unfolding append_file
append_file_lem input output =
    append_pieces_lem (length input) publish_piece input output (omega arith) (omega arith)

append_file-start : (o : Option Bytes) → append_file o [] ≡ o
append_file-start none = unfold append_file in refl
append_file-start (some input) = append_file_lem input []

module _ (fs : FileSystem) (d : fs.Disk) (final_path incoming_path prefix_path : Text) where
  open fs use {Disk, read, save, read_saved}

  abbrev after : Disk × Bool
  after = publish_source fs d final_path incoming_path prefix_path

  -- What the prefix file adds: nothing without a path.
  abbrev pub prefix_of : Option Bytes
  prefix_of = if is_empty prefix_path then some [] else read d prefix_path

  prefix_stage :
      (if is_empty prefix_path then some [] else append_file (read d prefix_path) []) ≡ prefix_of
  prefix_stage = rw append_file-start

  then_append-some :
      (p i : Option Bytes) (content : Bytes)
      → then_append p i ≡ some content
      → (prefix incoming : Bytes) × (p ≡ some prefix)
        × (i ≡ some incoming)
        × (content ≡ prefix ++ incoming)
  unfolding then_append append_file
  then_append-some none i content h = ground (arith, h)
  then_append-some (some prefix) none content h = ground (arith, h)
  then_append-some (some prefix) (some incoming) content h =
      (prefix, incoming, refl, refl, ground (arith, h, append_file_lem incoming prefix))

  commit-succeeds :
      (o : Option Bytes)
      → (commit_source fs d final_path o).1 ≡ true
      → (content : Bytes) × (o ≡ some content)
        × (read (commit_source fs d final_path o).0 final_path ≡ some content)
  unfolding commit_source
  commit-succeeds none h = ground (arith, h)
  commit-succeeds (some content) h =
      (content, refl, rw (read_saved d final_path final_path content h, eqb_self final_path))

  -- A publication that succeeds leaves the prefix file's bytes, or none without a path for it, and
  -- after them the incoming file's, under the final path.
  pub publish_source-succeeds :
      after.1 ≡ true
      → (prefix incoming : Bytes) × (prefix_of ≡ some prefix)
        × (read d incoming_path ≡ some incoming)
        × (read after.0 final_path ≡ some (prefix ++ incoming))
  unfolding publish_source assemble
  publish_source-succeeds h =
      let (content, made, written) = commit-succeeds (assemble fs d incoming_path prefix_path) h in
      let (prefix, incoming, p, i, whole) = then_append-some _ _ content made in
      (prefix, incoming, sym prefix_stage ∙ p, i, rw (← whole) written)

  published-stages :
      (p i : Option Bytes)
      → commit_source fs d final_path (then_append p i) ≡ published fs d final_path p i
  unfolding commit_source then_append append_file
  published-stages none i = refl
  published-stages (some prefix) none = refl
  published-stages (some prefix) (some incoming) =
      ap (commit_source fs d final_path) (append_file_lem incoming prefix)

  -- Whatever the files hold: if the prefix file, where there is a path for one, or the incoming file
  -- cannot be read, the publication returns false and leaves the disk as it was, and nothing is
  -- committed; else it is one commit, under the final path, of the prefix file's bytes, or none
  -- without a path for it, and after them the incoming file's, with the result of that commit.
  pub publish_source_lem : after ≡ published fs d final_path prefix_of (read d incoming_path)
  unfolding publish_source assemble
  publish_source_lem = rw prefix_stage (published-stages prefix_of (read d incoming_path))
