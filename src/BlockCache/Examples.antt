-- ===== src/BlockCache/Examples.antt =====
-- lib/copernicus_decoded_block_cache.h: runs on concrete caches.
use aowis_server_map.Prelude.{◌+◌, ◌≤◌, ◌≡◌, refl, ◌&&◌, some, arith, [], ◌∷◌, ltb, leb}
use aowis_server_map.Prelude.Int.{pos}
use aowis_server_map.BlockCache.Budget.{
  CopernicusDecodedBlockBudget, begin_decode, end_decode, acquired, decode-returns,
}
use aowis_server_map.BlockCache.Cache.{State, find, create, destroy, insert}
use aowis_server_map.BlockCache.Spec.{Fifo, concrete, fifo_insert, budget_at, IsValid}
use aowis_server_map.BlockCache.Refines.{insert_all, insert-refines, insert_all-destroy}

abbrev three_of_ten : CopernicusDecodedBlockBudget
three_of_ten = record { maximum_bytes = 10; reserved_bytes = 3 }

decode-returns_example :
    let (b', r) = begin_decode three_of_ten (pos 7) in
    (end_decode b' r ≡ some three_of_ten)
    × (b'.reserved_bytes ≡ 3 + r.reserved_bytes)
    × (b'.reserved_bytes ≤ 10)
    × (b'.maximum_bytes ≡ 10)
    × (acquired r ≡ (ltb 0 7 && leb (3 + 7) 10))
decode-returns_example = decode-returns three_of_ten (pos 7) (omega arith)

-- Two blocks of 2 and 3 bytes in a cache of 6, beside 4 bytes of others in a budget of 12.
abbrev two_blocks : Fifo
two_blocks = record {
  capacity = 6;
  blocks = (1, 7 ∷ 7 ∷ []) ∷ (2, 8 ∷ 8 ∷ 8 ∷ []) ∷ [];
  share = some (record { limit = 12; others = 4 });
}

two_blocks-IsValid : IsValid two_blocks
two_blocks-IsValid = record {
  distinct = (unfold find in refl, (unfold find in refl, tt));
  bounded = omega arith;
  affords = omega arith;
}

insert-refines_example :
    insert 3 (9 ∷ 9 ∷ []) (concrete two_blocks)
    ≡ some (
      concrete (fifo_insert 3 (9 ∷ 9 ∷ []) two_blocks).0,
      (fifo_insert 3 (9 ∷ 9 ∷ []) two_blocks).1,
    )
insert-refines_example = insert-refines 3 (9 ∷ 9 ∷ []) two_blocks two_blocks-IsValid

insert_all-destroy_example :
    (s : State) × (insert_all
        ((1, 7 ∷ 7 ∷ []) ∷ (2, 8 ∷ 8 ∷ 8 ∷ []) ∷ (3, 9 ∷ 9 ∷ []) ∷ [])
        (create (pos 6) (budget_at (two_blocks.share) 0))
      ≡ some s)
    × (s.cache.stored_bytes ≤ 6)
    × (destroy s ≡ some (budget_at (two_blocks.share) 0))
insert_all-destroy_example =
    insert_all-destroy (pos 6) (two_blocks.share)
      ((1, 7 ∷ 7 ∷ []) ∷ (2, 8 ∷ 8 ∷ 8 ∷ []) ∷ (3, 9 ∷ 9 ∷ []) ∷ []) (omega arith)
