-- ===== src/Input/Raw/Read.antt =====
-- Reading the pieces of a raw image.
use xmount.Base.{
  ℕ, suc, ◌+◌, ◌-◌, ◌^◌, ◌≤◌, ◌<◌, ◌≡◌, ◌≢◌, refl, ap, sym, ◌∙◌, true, false, inl, inr, Option,
  some, List, [], ◌∷◌, arith, min,
}
use xmount.Base.{
  ltb, leb, ltb→lt, ltb→le, if◌then◌else◌, add64, u32, ok, err, fault, Bool-cases, slice, slice_ext,
  Option-cases, ok-returns, err-returns, bind-returns,
}
use xmount.Stdio.{File, fread, fread-some}
use xmount.Morphing.Images.{Image, total}
use xmount.Morphing.Combine.Content.{byte, byte-lt, byte-add}
use xmount.Input.ReadLoop.{read_loop, read_loop_lem, read_loop-returns}
use xmount.Input.Raw.{
  read_beyond_end_of_image, Piece, RawHandle, open_pieces, raw_open, raw_size, find_piece,
  raw_read0, raw_read,
}

abbrev pub pieces : List File → List Piece
pieces [] = []
pieces (f ∷ fs) = record { file_size = f.size; file = f } ∷ pieces fs

abbrev pub images : List File → List Image
images [] = []
images (f ∷ fs) = record { size = f.size; byte = f.byte } ∷ images fs

-- The files of the names are there.
abbrev pub Opens : (List ℕ → Option File) → List (List ℕ) → List File → Type 0
Opens fopen [] [] = 0 ≤ 0
Opens fopen (x ∷ xs) (f ∷ fs) = (fopen x ≡ some f) × Opens fopen xs fs
Opens fopen [] (f ∷ fs) = 1 ≤ 0
Opens fopen (x ∷ xs) [] = 1 ≤ 0

open_pieces_lem :
    (fopen : List ℕ → Option File) (names : List (List ℕ)) (files : List File) (n : ℕ)
    → Opens fopen names files
    → n + total (images files) < 2 ^ 64
    → open_pieces fopen names n ≡ ok (pieces files, n + total (images files))
unfolding open_pieces
open_pieces_lem fopen [] [] n o small = ap (λ k. ok ([], k)) (omega arith)
open_pieces_lem fopen (x ∷ xs) [] n o small = absurd (omega arith)
open_pieces_lem fopen [] (f ∷ fs) n o small = absurd (omega arith)
open_pieces_lem fopen (x ∷ xs) (f ∷ fs) n (here, o) small =
    let sum : add64 n f.size ≡ n + f.size = omega (arith, small) in
    let rec = open_pieces_lem fopen xs fs (n + f.size) o (omega arith) in
    let all : n + f.size + total (images fs) ≡ n + (f.size + total (images fs)) = omega arith in
    rw (here, open_pieces, sum, rec, all) refl

-- The piece that a position lies in holds the bytes from there on.
find_piece_lem :
    (files : List File) (seek : ℕ)
    → seek < total (images files)
    → (f : File) × (o : ℕ) × (o < f.size)
      × (find_piece (pieces files) seek ≡ some (record { file_size = f.size; file = f }, o))
      × ((i : ℕ) → o + i < f.size → byte (images files) (seek + i) ≡ f.byte (o + i))
      × (f.size - o ≤ total (images files) - seek)
unfolding find_piece
find_piece_lem [] seek lt = absurd (omega arith)
find_piece_lem (f ∷ fs) seek lt = elim (Bool-cases (ltb seek f.size)) [
  | inl here ↦ (
    f,
    seek,
    ltb→lt _ _ here,
    rw (here, find_piece) refl,
    λ i inside. byte-lt (record { size = f.size; byte = f.byte }) (images fs) (seek + i) inside,
    omega arith,
  )
  | inr later ↦
      let le = ltb→le _ _ later in
      let (f', o, inside, found, holds, rest) = find_piece_lem fs (seek - f.size) (omega arith) in
      (
        f',
        o,
        inside,
        rw (later, find_piece, found) refl,
        λ i lt'.
            ap (byte (images (f ∷ fs))) (omega arith)
            ∙ byte-add (record { size = f.size; byte = f.byte }) (images fs) (seek - f.size + i)
            ∙ holds i lt',
        omega (arith, rest, le),
      )
]

-- A handle over the files.
pub record IsRaw (files : List File) (h : RawHandle) : Type 0 where
  pub filed : h.piece_arr ≡ pieces files
  pub sized : h.total_size ≡ total (images files)

raw_read0-step :
    (h : RawHandle) (seek n m o : ℕ) (p : Piece) (bytes : List ℕ)
    → find_piece h.piece_arr seek ≡ some (p, o)
    → min n (p.file_size - o) ≡ m
    → fread p.file o m ≡ some bytes
    → raw_read0 h seek n ≡ ok (m, bytes)
unfolding raw_read0
raw_read0-step h seek n m o p bytes found few done = rw (found, raw_read0, few, done, few) refl

module _ (files : List File) (h : RawHandle) (r : IsRaw files h) where
  raw_read0_lem :
      (seek n : ℕ)
      → 0 < n
      → n < 2 ^ 32
      → seek + n ≤ total (images files)
      → (m : ℕ) × (0 < m)
        × (m ≤ n)
        × (raw_read0 h seek n ≡ ok (m, slice (byte (images files)) seek m))
  raw_read0_lem seek n p few inside =
      let (f, o, lt, found, holds, rest) = find_piece_lem files seek (omega arith) in
      let m : ℕ = min n (f.size - o) in
      (
        m,
        omega arith,
        omega arith,
        raw_read0-step h seek n m o (record { file_size = f.size; file = f }) (slice f.byte o m)
              (ap (λ x. find_piece x seek) r.filed ∙ found) refl
              (fread-some f o m (omega arith) (omega arith))
            ∙ ap (λ bytes. ok (m, bytes))
                (sym (
                  slice_ext (byte (images files)) f.byte seek o m
                    (λ i i_lt. holds i (omega arith)))),
      )

  raw_read_lem :
      (o n : ℕ)
      → 0 < n
      → n < 2 ^ 32
      → o + n < 2 ^ 64
      → total (images files) < 2 ^ 63
      → raw_read h o n ≡ (
          if leb (o + n) (total (images files))
          then ok (n, slice (byte (images files)) o n)
          else err read_beyond_end_of_image)
  unfolding raw_read
  raw_read_lem o n p few short small = elim (Bool-cases (leb (o + n) (total (images files)))) [
    | inl inside ↦
        let le : o + n ≤ total (images files) = ground arith in
        let test : ltb h.total_size (add64 o n) ≡ false = ground (arith, r.sized) in
        let low : u32 n ≡ n = omega arith in
        let all =
          read_loop_lem (raw_read0 h) (byte (images files)) (suc n) o n raw_read0_lem (omega arith)
            p few small le in
        rw (inside, test, raw_read, low, all) refl
    | inr beyond ↦
        let test : ltb h.total_size (add64 o n) ≡ true = ground (arith, r.sized) in
        rw (beyond, test, raw_read) refl
  ]

-- Over files that can be opened, of less than 2 ^ 63 bytes together, `RawOpen` succeeds, `RawSize`
-- is the sum of their sizes, and `RawRead` of at least one byte and less than 2 ^ 32 returns the
-- bytes of the files one behind the other, or its error if the end of the request, which does not
-- wrap, is beyond theirs.
pub raw_read-raw_open :
    (fopen : List ℕ → Option File) (names : List (List ℕ)) (files : List File) (o n : ℕ)
    → Opens fopen names files
    → total (images files) < 2 ^ 63
    → 0 < n
    → n < 2 ^ 32
    → o + n < 2 ^ 64
    → (h : RawHandle) × (raw_open fopen names ≡ ok h)
      × (raw_size h ≡ total (images files))
      × (raw_read h o n ≡ (
          if leb (o + n) (total (images files))
          then ok (n, slice (byte (images files)) o n)
          else err read_beyond_end_of_image))
unfolding raw_open raw_size
raw_read-raw_open fopen names files o n opens small p few short =
    let h : RawHandle = record {
      piece_arr = pieces files;
      total_size = 0 + total (images files);
    } in
    let r : IsRaw files h = record { filed = refl; sized = omega arith } in
    (
      h,
      rw (open_pieces_lem fopen names files 0 opens (omega arith), raw_open) refl,
      omega arith,
      raw_read_lem files h r o n p few short small,
    )

find_piece-inside :
    (ps : List Piece) (seek : ℕ) (p : Piece) (o : ℕ)
    → find_piece ps seek ≡ some (p, o)
    → o < p.file_size
unfolding find_piece
find_piece-inside [] seek p o h = absurd (ground (arith, h))
find_piece-inside (x ∷ ps) seek p o h = elim (Bool-cases (ltb seek x.file_size)) [
  | inl here ↦ ground (arith, h, here)
  | inr later ↦ find_piece-inside ps (seek - x.file_size) p o (ground (arith, h, later))
]

raw_read0-returns : (h : RawHandle) (seek n : ℕ) → raw_read0 h seek n ≢ fault
unfolding raw_read0
raw_read0-returns h seek n e = absurd (ground (arith, e))

raw_read0-some :
    (h : RawHandle) (seek n m : ℕ) (bytes : List ℕ)
    → raw_read0 h seek n ≡ ok (m, bytes)
    → (m ≤ n) × (0 < n → 0 < m)
unfolding raw_read0
raw_read0-some h seek n m bytes e = elim (Option-cases (find_piece h.piece_arr seek)) [
  | inl missing ↦ absurd (ground (arith, e, missing))
  | inr ((p, o), found) ↦
      let inside = find_piece-inside h.piece_arr seek p o found in
      let few : m ≡ min n (p.file_size - o) = ground (arith, e, found) in
      (omega (arith, few), λ pos. omega (arith, few, inside))
]

-- `RawRead` returns on every handle and for every request.
pub raw_read-returns : (h : RawHandle) (seek count : ℕ) → raw_read h seek count ≢ fault
unfolding raw_read
raw_read-returns h seek count = elim (Bool-cases (ltb h.total_size (add64 seek count))) [
  | inl beyond ↦ rw (beyond, raw_read) (err-returns (err read_beyond_end_of_image) _ refl)
  | inr inside ↦
      rw (inside, raw_read)
        (bind-returns (read_loop (raw_read0 h) (suc (u32 count)) seek (u32 count))
          (λ bytes. ok (count, bytes))
          (read_loop-returns (raw_read0 h) (suc (u32 count)) seek (u32 count) (raw_read0-returns h)
            (raw_read0-some h) (omega arith) (omega arith))
          (λ bytes e. ok-returns (ok (count, bytes)) (count, bytes) refl))
]
