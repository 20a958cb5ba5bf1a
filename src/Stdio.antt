-- ===== src/Stdio.antt =====
-- The C library's stdio on one open file, as far as xmount uses it for its cache file: a growing
-- array of bytes on a medium with limited room. Seeking is part of each read and write.
use Prim.Native.Nat.{max}
use xmount.Base.{ℕ, ◌+◌, ◌-◌, ◌≤◌, ◌<◌, ◌≡◌, Option, none, some, List}
use xmount.Base.{ltb, leb, ◌==◌, ◌&&◌, ◌||◌, if◌then◌else◌, length, get_or, slice, arith}

-- `room` is how far the file can grow.
pub record File : Type 0 where
  pub size : ℕ
  pub byte : ℕ → ℕ
  pub room : ℕ

-- `fread(buf, n, 1, f)` at a position: 1 only for a whole element of at least one byte.
unfoldable pub fread : File → ℕ → ℕ → Option (List ℕ)
fread f pos n = if n == 0 || ltb f.size (pos + n) then none else some (slice f.byte pos n)

-- The bytes of a file after a write; a gap behind the old end is filled with zeros.
unfoldable pub overwrite : File → ℕ → List ℕ → ℕ → ℕ
overwrite f pos bytes i =
    if leb pos i && ltb i (pos + length bytes)
    then get_or bytes (i - pos) 0
    else if ltb i f.size
    then f.byte i
    else 0

-- `fwrite(buf, n, 1, f)` at a position. What a failed call has written is not modelled.
unfoldable pub fwrite : File → ℕ → List ℕ → Option File
fwrite f pos bytes =
    if length bytes == 0 || ltb f.room (pos + length bytes)
    then none
    else some (record f { size = max f.size (pos + length bytes); byte = overwrite f pos bytes })

pub overwrite-inside :
    (f : File) (pos : ℕ) (bytes : List ℕ) (i : ℕ)
    → i < length bytes
    → overwrite f pos bytes (pos + i) ≡ get_or bytes i 0
unfolding overwrite
overwrite-inside f pos bytes i lt = let e : pos + i - pos ≡ i = omega arith in ground (arith, e)

pub overwrite-below :
    (f : File) (pos : ℕ) (bytes : List ℕ) (i : ℕ)
    → i < pos
    → i < f.size
    → overwrite f pos bytes i ≡ f.byte i
unfolding overwrite
overwrite-below f pos bytes i lt inside = ground arith

pub overwrite-above :
    (f : File) (pos : ℕ) (bytes : List ℕ) (i : ℕ)
    → pos + length bytes ≤ i
    → i < f.size
    → overwrite f pos bytes i ≡ f.byte i
unfolding overwrite
overwrite-above f pos bytes i le inside = ground arith

pub fwrite-some :
    (f : File) (pos : ℕ) (bytes : List ℕ)
    → 0 < length bytes
    → pos + length bytes ≤ f.room
    → fwrite f pos bytes
      ≡ some (record f { size = max f.size (pos + length bytes); byte = overwrite f pos bytes })
unfolding fwrite
fwrite-some f pos bytes some_bytes fits = ground arith

pub fread-some :
    (f : File) (pos n : ℕ) → 0 < n → pos + n ≤ f.size → fread f pos n ≡ some (slice f.byte pos n)
unfolding fread
fread-some f pos n some_bytes fits = ground arith
