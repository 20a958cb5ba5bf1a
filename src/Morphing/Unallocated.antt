-- ===== src/Morphing/Unallocated.antt =====
-- libxmount_morphing_unallocated.c: `UnallocatedSize` and `UnallocatedRead`, over the map of free
-- blocks that `UnallocatedMorph` has built.
pub mod Read
pub mod FreeMap
pub mod Hfs
pub mod Fat
mod Tests
use xmount.Base.{
  ℕ, zero, suc, ◌+◌, ◌-◌, ◌*◌, ◌/◌, ◌%◌, Bool, true, false, Option, none, some, List, [], ◌∷◌, ◌++◌,
}
use xmount.Base.{ltb, leb, ◌==◌, if◌then◌else◌, ◌||◌, add64, sub64, mul64, length, get_elem?}
use xmount.Base.{Result, ok, err, fault, ◌>>=◌}
use xmount.Morphing.Images.{InputFunctions}

pub data UnallocatedError : Type 0 where
  read_beyond_end_of_image cannot_read_data : UnallocatedError

-- The part of `ts_UnallocatedHandle` that reads use.
pub record UnallocatedHandle : Type 0 where
  pub input_functions : Option InputFunctions
  pub block_size : ℕ
  pub free_block_map : List ℕ
  pub morphed_image_size : ℕ

-- `UnallocatedSize`
unfoldable pub size : UnallocatedHandle → ℕ
size h = h.morphed_image_size

-- The `while` loop of `UnallocatedRead`.
unfoldable pub read_blocks :
    UnallocatedHandle → InputFunctions → ℕ → ℕ → ℕ → ℕ → Result UnallocatedError (List ℕ)
read_blocks h io zero cur_block cur_block_offset count = if count == 0 then ok [] else fault
read_blocks h io (suc fuel) cur_block cur_block_offset count = elim (count == 0) [
  | true ↦ ok []
  | false ↦ elim (get_elem? h.free_block_map cur_block) [
    | none ↦ fault
    | some free_block ↦
        let cur_image_offset : ℕ = add64 free_block cur_block_offset in
        let cur_count : ℕ =
          if ltb h.block_size (add64 cur_block_offset count)
          then sub64 h.block_size cur_block_offset
          else count in
        elim (io.read 0 (add64 cur_image_offset cur_block_offset) cur_count) [
          | none ↦ err cannot_read_data
          | some bytes ↦ elim (length bytes == cur_count) [
            | false ↦ err cannot_read_data
            | true ↦ read_blocks h io fuel (cur_block + 1) 0 (count - cur_count) >>= λ rest.
                ok (bytes ++ rest)
          ]
        ]
  ]
]

-- `UnallocatedRead`. A round reads at least one byte, so there are at most `count`.
unfoldable pub read : UnallocatedHandle → ℕ → ℕ → Result UnallocatedError (List ℕ)
read h offset count =
    if leb h.morphed_image_size offset || ltb h.morphed_image_size (add64 offset count)
    then err read_beyond_end_of_image
    else elim h.input_functions [
      | none ↦ fault
      | some io ↦
          let cur_block : ℕ = offset / h.block_size in
          read_blocks h io count cur_block (sub64 offset (mul64 cur_block h.block_size)) count
    ]
