-- ===== src/Input/Raw/Tests.antt =====
-- An image in two files of three and four bytes.
use xmount.Base.{ℕ, ◌+◌, ◌≡◌, ◌≢◌, refl, none, some, List, [], ◌∷◌, arith, slice, ok, fault, Option}
use xmount.Stdio.{File}
use xmount.Morphing.Combine.Content.{byte}
use xmount.Input.Raw.{RawHandle, raw_open, raw_size, raw_read}
use xmount.Input.Raw.Read.{pieces, raw_read-raw_open, raw_read-returns}

abbrev first : File
first = record { size = 3; byte = λ i. i + 10; room = 3 }

abbrev second : File
second = record { size = 4; byte = λ i. i + 20; room = 4 }

abbrev fopen : List ℕ → Option File
fopen (x ∷ []) = some first
fopen (x ∷ y ∷ []) = some second
fopen _ = none

abbrev names : List (List ℕ)
names = (1 ∷ []) ∷ (1 ∷ 2 ∷ []) ∷ []

raw_read-raw_open_example :
    (h : RawHandle) × (raw_open fopen names ≡ ok h)
    × (raw_size h ≡ 7)
    × (raw_read h 2 3 ≡ ok (3, 12 ∷ 20 ∷ 21 ∷ []))
unfolding slice byte
raw_read-raw_open_example =
    raw_read-raw_open fopen names (first ∷ second ∷ []) 2 3 (refl, (refl, omega arith))
      (omega arith) (omega arith) (omega arith) (omega arith)

abbrev handle : RawHandle
handle = record { piece_arr = pieces (first ∷ second ∷ []); total_size = 7 }

raw_read-returns_example : raw_read handle 2 3 ≢ fault
raw_read-returns_example = raw_read-returns handle 2 3
