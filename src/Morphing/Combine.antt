-- ===== src/Morphing/Combine.antt =====
-- libxmount_morphing_combine.c: the input images one behind the other.
pub mod Search
pub mod Content
pub mod Read
mod Tests
use xmount.Base.{ℕ, zero, suc, ◌+◌, ◌-◌, Bool, true, false, Option, none, some, List, [], ◌++◌}
use xmount.Base.{ltb, leb, ◌==◌, if◌then◌else◌, ◌||◌, add64, sub64, length}
use xmount.Base.{Result, ok, err, fault, ◌>>=◌}
use xmount.Morphing.Images.{InputFunctions}

pub data CombineError : Type 0 where
  cannot_get_imagecount cannot_get_imagesize read_beyond_end_of_image cannot_read_data :
      CombineError

-- `ts_CombineHandle`; the input functions are NULL until `CombineMorph` stores them.
pub record CombineHandle : Type 0 where
  pub debug : Bool
  pub input_images_count : ℕ
  pub input_functions : Option InputFunctions
  pub morphed_image_size : ℕ

abbrev R : Type 0 → Type 0
R A = Result CombineError A

-- `CombineCreateHandle`, where the memory is there.
unfoldable pub create_handle : Bool → CombineHandle
create_handle debug = record {
  debug = debug;
  input_images_count = 0;
  input_functions = none;
  morphed_image_size = 0;
}

-- The `for` loop of `CombineMorph` at index `i`, with `left` rounds to go.
unfoldable pub add_sizes : InputFunctions → ℕ → ℕ → ℕ → Result CombineError ℕ
add_sizes io zero i total = ok total
add_sizes io (suc left) i total = elim (io.size i) [
  | none ↦ err cannot_get_imagesize
  | some input_image_size ↦ add_sizes io left (i + 1) (add64 total input_image_size)
]

-- `CombineMorph`. What it leaves in the handle on an error is not modelled: xmount gives up then.
unfoldable pub morph : CombineHandle → InputFunctions → Result CombineError CombineHandle
morph h io = elim io.image_count [
  | none ↦ err cannot_get_imagecount
  | some count ↦ do
    total ← add_sizes io count 0 h.morphed_image_size
    ok (record h {
      input_images_count = count;
      input_functions = some io;
      morphed_image_size = total;
    })
]

-- `CombineSize`
unfoldable pub size : CombineHandle → ℕ
size h = h.morphed_image_size

-- The first `while` loop of `CombineRead`: the image that holds the offset, and the offset in it.
unfoldable pub search_image : InputFunctions → ℕ → ℕ → ℕ → Result CombineError (ℕ × ℕ)
search_image io zero image offset = fault
search_image io (suc fuel) image offset = elim (io.size image) [
  | none ↦ err cannot_get_imagesize
  | some image_size ↦ elim (leb image_size offset) [
    | true ↦ search_image io fuel (image + 1) (offset - image_size)
    | false ↦ ok (image, offset)
  ]
]

-- The second one, with `left = input_images_count - cur_input_image`, and the test behind it.
unfoldable pub read_images : InputFunctions → ℕ → ℕ → ℕ → ℕ → Result CombineError (List ℕ)
read_images io zero image offset count = if count == 0 then ok [] else err cannot_read_data
read_images io (suc left) image offset count = elim (count == 0) [
  | true ↦ ok []
  | false ↦ elim (io.size image) [
    | none ↦ err cannot_get_imagesize
    | some image_size ↦
        let cur_count : ℕ =
          if ltb image_size (add64 offset count) then sub64 image_size offset else count in
        elim (io.read image offset cur_count) [
          | none ↦ err cannot_read_data
          | some bytes ↦ elim (length bytes == cur_count) [
            | false ↦ err cannot_read_data
            | true ↦
                read_images io left (image + 1) 0 (count - cur_count) >>= λ rest. ok (bytes ++ rest)
          ]
        ]
  ]
]

-- `CombineRead`. The search looks at no more images than there are, and at the end.
unfoldable pub read : CombineHandle → ℕ → ℕ → Result CombineError (List ℕ)
read h offset count =
    if leb h.morphed_image_size offset || ltb h.morphed_image_size (add64 offset count)
    then err read_beyond_end_of_image
    else elim h.input_functions [
      | none ↦ fault
      | some io ↦ do
        (image, image_offset) ← search_image io (suc h.input_images_count) 0 offset
        read_images io (h.input_images_count - image) image image_offset count
    ]
