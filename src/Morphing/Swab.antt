-- ===== src/Morphing/Swab.antt =====
-- libxmount_morphing_swab.c: the first input image with the bytes of each pair exchanged.
pub mod Read
mod Tests
use xmount.Base.{ℕ, zero, suc, ◌+◌, ◌-◌, ◌%◌, Bool, true, false, Option, none, some, List, [], ◌∷◌}
use xmount.Base.{ltb, leb, ◌==◌, if◌then◌else◌, ◌||◌, add64, length}
use xmount.Base.{Result, ok, err, fault, ◌>>=◌}
use xmount.Morphing.Images.{InputFunctions}

pub data SwabError : Type 0 where
  cannot_get_imagecount cannot_get_imagesize read_beyond_end_of_image cannot_read_data : SwabError

-- `ts_SwabHandle`; the input functions are NULL until `SwabMorph` stores them.
pub record SwabHandle : Type 0 where
  pub debug : Bool
  pub input_images_count : ℕ
  pub input_functions : Option InputFunctions
  pub morphed_image_size : ℕ

-- `SwabCreateHandle`, where the memory is there.
unfoldable pub create_handle : Bool → SwabHandle
create_handle debug = record {
  debug = debug;
  input_images_count = 0;
  input_functions = none;
  morphed_image_size = 0;
}

-- The `for` loop of `SwabMorph` at index `i`, with `left` rounds to go.
unfoldable pub add_sizes : InputFunctions → ℕ → ℕ → ℕ → Result SwabError ℕ
add_sizes io zero i total = ok total
add_sizes io (suc left) i total = elim (io.size i) [
  | none ↦ err cannot_get_imagesize
  | some input_image_size ↦ add_sizes io left (i + 1) (add64 total input_image_size)
]

-- `SwabMorph`. What it leaves in the handle on an error is not modelled: xmount gives up then.
unfoldable pub morph : SwabHandle → InputFunctions → Result SwabError SwabHandle
morph h io = elim io.image_count [
  | none ↦ err cannot_get_imagecount
  | some count ↦ do
    total ← add_sizes io count 0 h.morphed_image_size
    ok (record h {
      input_images_count = count;
      input_functions = some io;
      morphed_image_size = total;
    })
]

-- `SwabSize`
unfoldable pub size : SwabHandle → ℕ
size h = h.morphed_image_size

-- The `for` loop of `SwabRead` at index `i` over what is left of `data`: the bytes that it stores in
-- the buffer of `count` bytes. A read behind the end of `data`, and a store behind the end of the
-- buffer, are faults.
unfoldable pub swap_pairs : ℕ → ℕ → List ℕ → Result SwabError (List ℕ)
swap_pairs i count [] = ok []
swap_pairs i count (a ∷ []) = fault
swap_pairs i count (a ∷ b ∷ others) =
    let rest : Result SwabError (List ℕ) = swap_pairs (i + 2) count others in
    if ltb i count
    then (rest >>= λ bytes. ok (b ∷ (if ltb (i + 1) count then a ∷ bytes else bytes)))
    else fault

-- `SwabRead`: it reads the first image alone.
unfoldable pub read : SwabHandle → ℕ → ℕ → Result SwabError (List ℕ)
read h offset count =
    let odd : ℕ = offset % 2 in
    if leb h.morphed_image_size offset || ltb h.morphed_image_size (add64 offset count)
    then err read_beyond_end_of_image
    else elim h.input_functions [
      | none ↦ fault
      | some io ↦ elim (io.read 0 (offset - odd) (count + odd)) [
        | none ↦ err cannot_read_data
        | some bytes ↦
            if length bytes == count + odd then swap_pairs 0 count bytes else err cannot_read_data
      ]
    ]
