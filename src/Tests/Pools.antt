-- ===== src/Tests/Pools.antt =====
-- A small pool of free blocks, and the theorems on it.
use tkrzw.Base.{◌≡◌, refl, arith, [], ◌∷◌}
use tkrzw.HashDbm.Pool.{
  FreeBlock, Pool, insert_free_block, fetch_free_block, set_capacity, serialize, deserialize,
}
use tkrzw.HashDbm.BestFit.{BestFit, fetch_free_block-BestFit, fetch_free_block-IsPool}
use tkrzw.HashDbm.InOrder.{IsPool, insert_free_block-IsPool}
use tkrzw.HashDbm.PoolRound.{deserialize-serialize}

-- Two blocks, of 16 and 24 bytes, in a pool for two.
abbrev two_blocks : Pool
two_blocks = record {
  capacity = 2;
  blocks = record { offset = 64; size = 16 } ∷ record { offset = 8; size = 24 } ∷ [];
}

two_blocks-IsPool : IsPool two_blocks
unfolding tkrzw.HashDbm.Pool.before
two_blocks-IsPool = record {
  positive = omega arith;
  bounded = omega arith;
  sorted = ((refl, tt), (tt, tt));
}

insert_free_block-IsPool_example : IsPool (insert_free_block two_blocks 128 32)
insert_free_block-IsPool_example = insert_free_block-IsPool two_blocks 128 32 two_blocks-IsPool

fetch_free_block-BestFit_example :
    BestFit 20 two_blocks.blocks
      ((fetch_free_block two_blocks 20).0, (fetch_free_block two_blocks 20).1.blocks)
fetch_free_block-BestFit_example = fetch_free_block-BestFit two_blocks 20 two_blocks-IsPool

fetch_free_block-IsPool_example :
    IsPool (fetch_free_block two_blocks 20).1 × IsPool (set_capacity two_blocks 1)
fetch_free_block-IsPool_example =
    fetch_free_block-IsPool two_blocks 20 1 two_blocks-IsPool (omega arith)

deserialize-serialize_example :
    deserialize two_blocks (serialize two_blocks 4 3 40) 4 3 ≡ two_blocks
deserialize-serialize_example =
    deserialize-serialize 4 3 (omega arith) (omega arith) two_blocks 40 two_blocks-IsPool
      (
        record {
          slot = 8;
          aligned = refl;
          small_slot = omega arith;
          small_offset = omega arith;
          positive = omega arith;
          small_size = omega arith;
        },
        (
          record {
            slot = 1;
            aligned = refl;
            small_slot = omega arith;
            small_offset = omega arith;
            positive = omega arith;
            small_size = omega arith;
          },
          tt,
        ),
      )
      (omega arith)
