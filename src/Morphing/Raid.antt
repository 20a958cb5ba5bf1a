-- ===== src/Morphing/Raid.antt =====
-- libxmount_morphing_raid.c: RAID level 0, the chunks of the images in turn.
pub mod Content
pub mod Capacity
pub mod Read
mod Tests
use xmount.Base.{ℕ, zero, suc, ◌+◌, ◌-◌, ◌*◌, ◌/◌, ◌%◌, Bool, true, false, Option, none, some}
use xmount.Base.{List, [], ◌++◌, ltb, leb, ◌==◌, if◌then◌else◌, ◌||◌, add64, sub64, mul64, length}
use xmount.Base.{Result, ok, err, fault, ◌>>=◌}
use xmount.Morphing.Images.{InputFunctions}

pub data RaidError : Type 0 where
  cannot_get_imagecount cannot_get_imagesize read_beyond_end_of_image cannot_read_data : RaidError

-- `ts_RaidHandle`; the input functions are NULL until `RaidMorph` stores them.
pub record RaidHandle : Type 0 where
  pub debug : Bool
  pub input_images_count : ℕ
  pub chunk_size : ℕ
  pub chunks_per_image : ℕ
  pub input_functions : Option InputFunctions
  pub morphed_image_size : ℕ

abbrev pub default_chunksize : ℕ
default_chunksize = 512 * 1024

-- `RaidCreateHandle`, where the memory is there.
unfoldable pub create_handle : Bool → RaidHandle
create_handle debug = record {
  debug = debug;
  input_images_count = 0;
  chunk_size = default_chunksize;
  chunks_per_image = 0;
  input_functions = none;
  morphed_image_size = 0;
}

-- The body of the `for` loop of `RaidMorph`: the chunks of one more image. 0 stands for "not set".
unfoldable pub fewer_chunks : ℕ → ℕ → ℕ
fewer_chunks so_far chunks =
    if so_far == 0 then chunks else if ltb chunks so_far then chunks else so_far

-- That loop at index `i`, with `left` rounds to go.
unfoldable pub count_chunks : InputFunctions → ℕ → ℕ → ℕ → ℕ → Result RaidError ℕ
count_chunks io chunk_size zero i so_far = ok so_far
count_chunks io chunk_size (suc left) i so_far = elim (io.size i) [
  | none ↦ err cannot_get_imagesize
  | some input_image_size ↦
      count_chunks io chunk_size left (i + 1) (fewer_chunks so_far (input_image_size / chunk_size))
]

-- `RaidMorph`. What it leaves in the handle on an error is not modelled: xmount gives up then.
unfoldable pub morph : RaidHandle → InputFunctions → Result RaidError RaidHandle
morph h io = elim io.image_count [
  | none ↦ err cannot_get_imagecount
  | some count ↦ do
    chunks ← count_chunks io h.chunk_size count 0 h.chunks_per_image
    ok (record h {
      input_images_count = count;
      input_functions = some io;
      chunks_per_image = chunks;
      morphed_image_size = mul64 (mul64 chunks h.chunk_size) count;
    })
]

-- `RaidSize`
unfoldable pub size : RaidHandle → ℕ
size h = h.morphed_image_size

-- The `while` loop of `RaidRead` over `n` images.
unfoldable pub read_chunks : InputFunctions → ℕ → ℕ → ℕ → ℕ → ℕ → ℕ → Result RaidError (List ℕ)
read_chunks io chunk_size n zero chunk chunk_offset count = if count == 0 then ok [] else fault
read_chunks io chunk_size n (suc fuel) chunk chunk_offset count = elim (count == 0) [
  | true ↦ ok []
  | false ↦
      let image_offset : ℕ = mul64 (chunk / n) chunk_size in
      let cur_count : ℕ =
        if ltb chunk_size (add64 chunk_offset count) then chunk_size - chunk_offset else count in
      elim (io.read (chunk % n) (add64 image_offset chunk_offset) cur_count) [
        | none ↦ err cannot_read_data
        | some bytes ↦ elim (length bytes == cur_count) [
          | false ↦ err cannot_read_data
          | true ↦ read_chunks io chunk_size n fuel (chunk + 1) 0 (count - cur_count) >>= λ rest.
              ok (bytes ++ rest)
        ]
      ]
]

-- `RaidRead`. A round reads at least one byte, so `count` rounds are enough.
unfoldable pub read : RaidHandle → ℕ → ℕ → Result RaidError (List ℕ)
read h offset count =
    if leb h.morphed_image_size offset || ltb h.morphed_image_size (add64 offset count)
    then err read_beyond_end_of_image
    else elim h.input_functions [
      | none ↦ fault
      | some io ↦
          let chunk : ℕ = offset / h.chunk_size in
          read_chunks io h.chunk_size h.input_images_count count chunk
            (sub64 offset (mul64 chunk h.chunk_size)) count
    ]
