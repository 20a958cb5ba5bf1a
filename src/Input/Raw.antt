-- ===== src/Input/Raw.antt =====
-- libxmount_input_raw.c: an image in one or more files, one behind the other. Files are opened by
-- `fopen` by their names.
pub mod Read
mod Tests
use xmount.Base.{ℕ, suc, ◌+◌, ◌-◌, Option, none, some, List, [], ◌∷◌, min}
use xmount.Base.{ltb, if◌then◌else◌, add64, u32, Result, ok, err, ◌>>=◌}
use xmount.Stdio.{File, fread}
use xmount.Input.ReadLoop.{read_loop}

-- The error codes that are returned while there is memory.
pub data RawError : Type 0 where
  file_open_failed cannot_read_data read_beyond_end_of_image : RawError

-- `t_Piece`
pub record Piece : Type 0 where
  pub file_size : ℕ
  pub file : File

-- `t_raw`
pub record RawHandle : Type 0 where
  pub piece_arr : List Piece
  pub total_size : ℕ

-- The loop of `RawOpen`.
unfoldable pub open_pieces :
    (List ℕ → Option File) → List (List ℕ) → ℕ → Result RawError (List Piece × ℕ)
open_pieces fopen [] total_size = ok ([], total_size)
open_pieces fopen (name ∷ names) total_size = elim (fopen name) [
  | none ↦ err file_open_failed
  | some f ↦ open_pieces fopen names (add64 total_size f.size) >>= λ (pieces, total).
      ok (record { file_size = f.size; file = f } ∷ pieces, total)
]

-- `RawOpen` on a new handle.
unfoldable pub raw_open : (List ℕ → Option File) → List (List ℕ) → Result RawError RawHandle
raw_open fopen filename_arr = open_pieces fopen filename_arr 0 >>= λ (pieces, total).
    ok (record { piece_arr = pieces; total_size = total })

-- `RawSize`
unfoldable pub raw_size : RawHandle → ℕ
raw_size h = h.total_size

-- The search in `RawRead0`: the piece, and the position in it.
unfoldable pub find_piece : List Piece → ℕ → Option (Piece × ℕ)
find_piece [] seek = none
find_piece (p ∷ ps) seek =
    let rest = find_piece ps (seek - p.file_size) in
    if ltb seek p.file_size then some (p, seek) else rest

-- `RawRead0`, with the new `*pCount`.
unfoldable pub raw_read0 : RawHandle → ℕ → ℕ → Result RawError (ℕ × List ℕ)
raw_read0 h seek count = elim (find_piece h.piece_arr seek) [
  | none ↦ err read_beyond_end_of_image
  | some (p, o) ↦ elim (fread p.file o (min count (p.file_size - o))) [
    | none ↦ err cannot_read_data
    | some bytes ↦ ok (min count (p.file_size - o), bytes)
  ]
]

-- `RawRead`: `*p_read` and the bytes. Only the low 32 bits of `count` are read.
unfoldable pub raw_read : RawHandle → ℕ → ℕ → Result RawError (ℕ × List ℕ)
raw_read h seek count =
    if ltb h.total_size (add64 seek count)
    then err read_beyond_end_of_image
    else (read_loop (raw_read0 h) (suc (u32 count)) seek (u32 count) >>= λ bytes. ok (count, bytes))
