-- ===== src/BlockCache/Cache.antt =====
-- lib/copernicus_decoded_block_cache.h: `CopernicusDecodedBlockCache`. The hash is an association
-- list, which a new key joins at the end; the budget that the cache shares is passed explicitly.
use aowis_server_map.Prelude.{
  ℕ, ◌+◌, ◌-◌, Bool, true, false, ◌||◌, Option, none, some, List, [], ◌∷◌, ◌++◌, length, is_empty,
  Bytes, if◌then◌else◌, ltb, leb, ◌==◌,
}
use aowis_server_map.Prelude.Int.{ℤ, pos, pos_part}
use aowis_server_map.BlockCache.Budget.{CopernicusDecodedBlockBudget, reserve, release}

pub record CopernicusDecodedBlockCache : Type 0 where
  pub maximum_bytes : ℕ
  pub stored_bytes : ℕ
  pub blocks : List (ℕ × Bytes)
  pub insertion_order : List ℕ

-- The cache, and what its pointer `shared_budget` points to; `none` is the null pointer.
pub record State : Type 0 where
  pub cache : CopernicusDecodedBlockCache
  pub shared : Option CopernicusDecodedBlockBudget

unfoldable pub create : ℤ → Option CopernicusDecodedBlockBudget → State
create maximum shared = record {
  cache = record {
    maximum_bytes = pos_part maximum;
    stored_bytes = 0;
    blocks = [];
    insertion_order = [];
  };
  shared = shared;
}

-- `shared_budget->release(bytes)` unless the pointer is null.
unfoldable pub give_back :
    Option CopernicusDecodedBlockBudget → ℕ → Option (Option CopernicusDecodedBlockBudget)
unfolding release
give_back none n = some none
give_back (some b) n = elim (release b (pos n)) [ none ↦ none | some b' ↦ some (some b') ]

-- The destructor.
unfoldable pub destroy : State → Option (Option CopernicusDecodedBlockBudget)
unfolding give_back
destroy s =
    if ltb 0 s.cache.stored_bytes then give_back s.shared s.cache.stored_bytes else some s.shared

unfoldable pub find : ℕ → List (ℕ × Bytes) → Option Bytes
find key [] = none
find key ((k, block) ∷ rest) = if k == key then some block else find key rest

unfoldable pub erase : ℕ → List (ℕ × Bytes) → List (ℕ × Bytes)
erase key [] = []
erase key ((k, block) ∷ rest) = if k == key then rest else (k, block) ∷ erase key rest

-- The body of the loop after the dequeue: drops the block of the key, if there is one.
unfoldable pub drop_block : ℕ → State → Option State
unfolding find erase give_back
drop_block oldest s = elim (find oldest s.cache.blocks) [
  | none ↦ some s
  | some block ↦ elim (give_back s.shared (length block)) [
    | none ↦ none
    | some shared ↦ some (record {
      cache = record {
        maximum_bytes = s.cache.maximum_bytes;
        stored_bytes = s.cache.stored_bytes - length block;
        blocks = erase oldest s.cache.blocks;
        insertion_order = s.cache.insertion_order;
      };
      shared = shared;
    })
  ]
]

abbrev pub with_order : State → List ℕ → State
with_order s order = record s { cache = record (s.cache) { insertion_order = order } }

-- The loop that makes room for `size` bytes; `false` is the early return with an empty queue. The
-- list is the queue.
unfoldable pub evict : ℕ → List ℕ → State → Option (State × Bool)
unfolding drop_block
evict size [] s = some (with_order s [], leb s.cache.stored_bytes (s.cache.maximum_bytes - size))
evict size (oldest ∷ order) s = elim (leb s.cache.stored_bytes (s.cache.maximum_bytes - size)) [
  | true ↦ some (with_order s (oldest ∷ order), true)
  | false ↦ elim (drop_block oldest s) [ none ↦ none | some s' ↦ evict size order s' ]
]

-- `shared_budget->reserve(block.size())`, or no budget to ask.
unfoldable pub charge :
    Option CopernicusDecodedBlockBudget → ℕ → Option CopernicusDecodedBlockBudget × Bool
unfolding reserve
charge none n = (none, true)
charge (some b) n = let (b', granted) = reserve b (pos n) in (some b', granted)

-- The end of `insert`, with room in the cache.
unfoldable pub store : ℕ → Bytes → State → State × Bool
unfolding charge
store key block s =
    let (shared, granted) = charge s.shared (length block) in
    if granted
    then (
      record {
        cache = record {
          maximum_bytes = s.cache.maximum_bytes;
          stored_bytes = s.cache.stored_bytes + length block;
          blocks = s.cache.blocks ++ ((key, block) ∷ []);
          insertion_order = s.cache.insertion_order ++ (key ∷ []);
        };
        shared = shared;
      },
      true,
    )
    else (record s { shared = shared }, false)

abbrev is_some : Option Bytes → Bool
is_some none = false
is_some (some b) = true

unfoldable pub insert : ℕ → Bytes → State → Option (State × Bool)
unfolding find evict store
insert key block s =
    if is_empty block || ltb s.cache.maximum_bytes (length block)
    then some (s, false)
    else if is_some (find key s.cache.blocks)
    then some (s, false)
    else elim (evict (length block) s.cache.insertion_order s) [
      | none ↦ none
      | some (s', false) ↦ some (s', false)
      | some (s', true) ↦ some (store key block s')
    ]

unfoldable pub stored : State → ℕ
stored s = s.cache.stored_bytes

unfoldable pub count : State → ℕ
count s = length s.cache.blocks
