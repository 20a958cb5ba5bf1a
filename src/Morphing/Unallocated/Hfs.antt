-- ===== src/Morphing/Unallocated/Hfs.antt =====
-- hfs_functions.c: `BuildHfsBlockMap`.
pub mod Map
use xmount.Base.{
  ℕ, zero, suc, ◌+◌, ◌-◌, ◌*◌, ◌/◌, ◌%◌, ◌^◌, Bool, true, false, none, some, List, [], ◌∷◌,
}
use xmount.Base.{◌==◌, if◌then◌else◌, u32, get_elem?, Result, ok, fault, ◌>>=◌}
use xmount.Morphing.Unallocated.{UnallocatedError}

-- What `BuildHfsBlockMap` uses of `ts_HfsHandle` and its volume header.
pub record HfsHandle : Type 0 where
  pub block_size : ℕ
  pub total_blocks : ℕ
  pub alloc_file : List ℕ

-- Bit `7 - block % 8` of a byte is 0.
unfoldable pub is_free : ℕ → ℕ → Bool
is_free byte block = byte / 2 ^ (7 - block % 8) % 2 == 0

-- The `for` loop at block `cur_block`, with `left` rounds to go: the map from there on. The product
-- is one of 32 bits. A read behind the end of the allocation file is a fault.
unfoldable pub free_blocks : HfsHandle → ℕ → ℕ → Result UnallocatedError (List ℕ)
free_blocks h zero cur_block = ok []
free_blocks h (suc left) cur_block =
    let rest : Result UnallocatedError (List ℕ) = free_blocks h left (cur_block + 1) in
    elim (get_elem? h.alloc_file (cur_block / 8)) [
      | none ↦ fault
      | some byte ↦ rest >>= λ map.
          ok (if is_free byte cur_block then u32 (cur_block * h.block_size) ∷ map else map)
    ]

-- `BuildHfsBlockMap`, where the memory is there: the map, whose length is its size, and the block
-- size.
unfoldable pub build_hfs_block_map : HfsHandle → Result UnallocatedError (List ℕ × ℕ)
build_hfs_block_map h = free_blocks h h.total_blocks 0 >>= λ map. ok (map, h.block_size)
