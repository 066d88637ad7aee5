-- ===== src/BlockCache/Spec.antt =====
-- lib/copernicus_decoded_block_cache.h: the cache as a bounded list of blocks, oldest first.
use aowis_server_map.Prelude.{
  ℕ, zero, suc, ◌+◌, ◌-◌, ◌≤◌, ◌<◌, ◌≡◌, refl, Bool, true, false, ◌||◌, Option, none, some, arith,
  List, [], ◌∷◌, ◌++◌, length, is_empty, Bytes, drop, if◌then◌else◌, ltb, leb, inl, inr, tests,
  Bool-cases,
}
use aowis_server_map.BlockCache.Budget.{CopernicusDecodedBlockBudget}
use aowis_server_map.BlockCache.Cache.{State, find}

-- How many bytes the blocks have.
abbrev pub total : List (ℕ × Bytes) → ℕ
total [] = 0
total ((k, block) ∷ rest) = length block + total rest

abbrev pub keys : List (ℕ × Bytes) → List ℕ
keys [] = []
keys ((k, block) ∷ rest) = k ∷ keys rest

-- The newest blocks that have at most `capacity` bytes.
unfoldable pub trim : ℕ → List (ℕ × Bytes) → List (ℕ × Bytes)
trim capacity [] = []
trim capacity ((k, block) ∷ rest) =
    if leb (length block + total rest) capacity then (k, block) ∷ rest else trim capacity rest

-- A shared budget: its maximum, and what its other users have reserved.
pub record Share : Type 0 where
  pub limit : ℕ
  pub others : ℕ

pub record Fifo : Type 0 where
  pub capacity : ℕ
  pub blocks : List (ℕ × Bytes)
  pub share : Option Share

abbrev pub budget_at : Option Share → ℕ → Option CopernicusDecodedBlockBudget
budget_at none n = none
budget_at (some b) n = some (record { maximum_bytes = b.limit; reserved_bytes = b.others + n })

-- The state of the class that stands for the list.
abbrev pub concrete : Fifo → State
concrete f = record {
  cache = record {
    maximum_bytes = f.capacity;
    stored_bytes = total f.blocks;
    blocks = f.blocks;
    insertion_order = keys f.blocks;
  };
  shared = budget_at f.share (total f.blocks);
}

-- What the shared budget leaves for this cache.
abbrev pub affordable : Option Share → ℕ → Bool
affordable none n = true
affordable (some b) n = leb (b.others + n) b.limit

unfoldable pub fifo_insert : ℕ → Bytes → Fifo → Fifo × Bool
unfolding trim
fifo_insert key block f =
    if is_empty block || ltb f.capacity (length block)
    then (f, false)
    else elim (find key f.blocks) [
      | some old ↦ (f, false)
      | none ↦
          let kept = trim (f.capacity - length block) f.blocks in
          if affordable f.share (total kept + length block)
          then (record f { blocks = kept ++ ((key, block) ∷ []) }, true)
          else (record f { blocks = kept }, false)
    ]

-- No two blocks have one key.
abbrev pub Distinct : List (ℕ × Bytes) → Type 0
Distinct [] = Unit {0}
Distinct ((k, block) ∷ rest) = (find k rest ≡ none) × Distinct rest

abbrev pub Affords : Option Share → ℕ → Type 0
Affords none n = Unit {0}
Affords (some b) n = b.others + n ≤ b.limit

pub record IsValid (f : Fifo) : Type 0 where
  pub distinct : Distinct f.blocks
  pub bounded : total f.blocks ≤ f.capacity
  pub affords : Affords f.share (total f.blocks)

pub total-append : (xs ys : List (ℕ × Bytes)) → total (xs ++ ys) ≡ total xs + total ys
total-append [] ys = omega arith
total-append ((k, block) ∷ xs) ys = omega (arith, total-append xs ys)

pub trim-le : (capacity : ℕ) (xs : List (ℕ × Bytes)) → total (trim capacity xs) ≤ capacity
unfolding trim
trim-le capacity [] = omega arith
trim-le capacity ((k, block) ∷ xs) = ground (arith, trim-le capacity xs)

pub trim-le_total : (capacity : ℕ) (xs : List (ℕ × Bytes)) → total (trim capacity xs) ≤ total xs
unfolding trim
trim-le_total capacity [] = omega arith
trim-le_total capacity ((k, block) ∷ xs) = ground (arith, trim-le_total capacity xs)

trim-Distinct : (capacity : ℕ) (xs : List (ℕ × Bytes)) → Distinct xs → Distinct (trim capacity xs)
unfolding trim
trim-Distinct capacity [] d = tt
trim-Distinct capacity ((k, block) ∷ xs) d = ground (arith, trim-Distinct capacity xs d.1, d)

find-trim-none :
    (key capacity : ℕ) (xs : List (ℕ × Bytes))
    → find key xs ≡ none
    → find key (trim capacity xs) ≡ none
unfolding trim find
find-trim-none key capacity [] h = h
find-trim-none key capacity ((k, block) ∷ xs) h = ground (arith, find-trim-none key capacity xs)

find-append :
    (key : ℕ) (xs ys : List (ℕ × Bytes)) → find key xs ≡ none → find key (xs ++ ys) ≡ find key ys
unfolding find
find-append key [] ys h = refl
find-append key ((k, block) ∷ xs) ys h = ground (arith, find-append key xs ys)

find-append_some :
    (key : ℕ) (xs ys : List (ℕ × Bytes)) (block : Bytes)
    → find key xs ≡ some block
    → find key (xs ++ ys) ≡ some block
unfolding find
find-append_some key [] ys b h = ground arith
find-append_some key ((k, block) ∷ xs) ys b h = ground (arith, find-append_some key xs ys b)

Distinct-snoc :
    (xs : List (ℕ × Bytes)) (key : ℕ) (block : Bytes)
    → Distinct xs
    → find key xs ≡ none
    → Distinct (xs ++ ((key, block) ∷ []))
unfolding find
Distinct-snoc [] key block d h = (refl, tt)
Distinct-snoc ((k, b) ∷ xs) key block d h = (
  ground (arith, find-append k xs ((key, block) ∷ []), d.0, h),
  Distinct-snoc xs key block d.1 (ground (arith, h)),
)

affordable→Affords : (share : Option Share) (n : ℕ) → affordable share n ≡ true → Affords share n
affordable→Affords none n h = tt
affordable→Affords (some b) n h = ground arith

pub Affords-le : (share : Option Share) (m n : ℕ) → m ≤ n → Affords share n → Affords share m
Affords-le none m n h a = tt
Affords-le (some b) m n h a = omega arith

kept-IsValid :
    (n : ℕ) (f : Fifo) → IsValid f → IsValid (record f { blocks = trim (f.capacity - n) f.blocks })
kept-IsValid n f v = record {
  distinct = trim-Distinct (f.capacity - n) f.blocks v.distinct;
  bounded = omega (arith, trim-le_total (f.capacity - n) f.blocks, v.bounded);
  affords = Affords-le f.share _ _ (trim-le_total (f.capacity - n) f.blocks) v.affords;
}

module _ (key : ℕ) (block : Bytes) (f : Fifo) where
  abbrev kept : List (ℕ × Bytes)
  kept = trim (f.capacity - length block) f.blocks

  total-stored : total (kept ++ ((key, block) ∷ [])) ≡ total kept + length block
  total-stored = omega (arith, total-append kept ((key, block) ∷ []))

  stored-IsValid :
      IsValid f
      → leb (length block) f.capacity ≡ true
      → find key f.blocks ≡ none
      → affordable f.share (total kept + length block) ≡ true
      → IsValid (record f { blocks = kept ++ ((key, block) ∷ []) })
  stored-IsValid v small new paid = record {
    distinct =
        Distinct-snoc kept key block (trim-Distinct _ _ v.distinct)
          (find-trim-none key _ f.blocks new);
    bounded = omega (tests, total-stored, small, trim-le (f.capacity - length block) f.blocks);
    affords = rw total-stored (affordable→Affords f.share _ paid);
  }

-- The list stays valid: distinct keys, within the capacity, and within the shared budget.
pub fifo_insert-IsValid :
    (key : ℕ) (block : Bytes) (f : Fifo) → IsValid f → IsValid (fifo_insert key block f).0
unfolding fifo_insert
fifo_insert-IsValid key block f v =
    ground (arith, kept-IsValid (length block) f v, stored-IsValid key block f v)

-- What an accepted block leaves: the block under its key, at the end of the kept ones.
pub find-fifo_insert :
    (key : ℕ) (block : Bytes) (f : Fifo)
    → (fifo_insert key block f).1 ≡ true
    → find key (fifo_insert key block f).0.blocks ≡ some block
unfolding fifo_insert find
find-fifo_insert key block f h = ground (
  arith,
  find-trim-none key (f.capacity - length block) f.blocks,
  find-append key (trim (f.capacity - length block) f.blocks) ((key, block) ∷ []),
)

-- The blocks that `trim` keeps are what is left after the fewest oldest blocks that have to go: some
-- number of the oldest are dropped, the rest fits, and with any smaller number dropped it would not.
pub trim-shortest :
    (capacity : ℕ) (xs : List (ℕ × Bytes))
    → (n : ℕ) × (trim capacity xs ≡ drop n xs) × ((m : ℕ) → m < n → capacity < total (drop m xs))
unfolding trim
trim-shortest capacity [] = (0, refl, λ m h. absurd (omega arith))
trim-shortest capacity ((k, block) ∷ xs) =
    elim (Bool-cases (leb (length block + total xs) capacity)) [
      | inl e ↦ (0, rw e refl, λ m h. absurd (omega arith))
      | inr e ↦
          let (n, kept, larger) = trim-shortest capacity xs in
          (
            suc n,
            rw e kept,
            elim [ zero ↦ λ h. ground (arith, e) | suc m ↦ λ h. larger m (omega arith) ],
          )
    ]

pub fifo_insert-capacity :
    (key : ℕ) (block : Bytes) (f : Fifo) → (fifo_insert key block f).0.capacity ≡ f.capacity
unfolding fifo_insert
fifo_insert-capacity key block f = ground arith

pub fifo_insert-share :
    (key : ℕ) (block : Bytes) (f : Fifo) → (fifo_insert key block f).0.share ≡ f.share
unfolding fifo_insert
fifo_insert-share key block f = ground arith
