-- ===== src/Input/Qcow/Tests.antt =====
-- A QCOW2 file with two clusters of 512 bytes, of which the first one is stored and the second one
-- compressed.
use xmount.Base.{
  zero, suc, ◌+◌, ◌*◌, true, false, ltb, if◌then◌else◌, inr, ap, sym, ◌∙◌, length-slice,
  get_or-slice, ℕ, ◌≡◌, ◌≢◌, ◌<◌, ◌≤◌, refl, some, List, [], ◌∷◌, ◌++◌, arith, slice, ok, fault,
  Option, get_or, replicate,
}
use xmount.Stdio.{File}
use xmount.Input.Qcow.{
  Qcow, Inflate, stored, compressed, qcow_read, qcow_open, open_qcow_file, be_value, padded,
  parse_table, check_qcow_header, parse_qcow_header, seek_and_read, sized_qcow,
}
use xmount.Input.Qcow.Format.{Reached, IsImageOf, qcow_read_lem}
use xmount.Input.Qcow.Returns.{qcow_read-returns}

-- As many bytes as there is room for, all of them the first one of the input.
abbrev inflate : Inflate
inflate buf n = some (slice (λ i. get_or buf 0 0) 0 n)

-- The header, the L1 table at 512, the L2 table at 1024, the stored data at 1536, and the
-- compressed data at 2048.
abbrev header_part : List ℕ
header_part =
    (0x51 ∷ 0x46 ∷ 0x49 ∷ 0xfb ∷ 0 ∷ 0 ∷ 0 ∷ 2 ∷ [])
    ++ replicate 15 0
    ++ (9 ∷ 0 ∷ 0 ∷ 0 ∷ 0 ∷ 0 ∷ 0 ∷ 2 ∷ 4 ∷ [])
    ++ (0 ∷ 0 ∷ 0 ∷ 0 ∷ 0 ∷ 0 ∷ 0 ∷ 1 ∷ [])
    ++ (0 ∷ 0 ∷ 0 ∷ 0 ∷ 0 ∷ 0 ∷ 2 ∷ 0 ∷ [])

abbrev tables : List ℕ
tables =
    (0 ∷ 0 ∷ 0 ∷ 0 ∷ 0 ∷ 0 ∷ 4 ∷ 0 ∷ [])
    ++ replicate 504 0
    ++ (0 ∷ 0 ∷ 0 ∷ 0 ∷ 0 ∷ 0 ∷ 6 ∷ 0 ∷ 0x40 ∷ 0 ∷ 0 ∷ 0 ∷ 0 ∷ 0 ∷ 8 ∷ 0 ∷ [])
    ++ replicate 496 0
    ++ (10 ∷ 11 ∷ 12 ∷ 13 ∷ [])
    ++ replicate 508 0
    ++ (77 ∷ [])

abbrev file : File
file = record {
  size = 2049;
  byte = λ i. get_or (header_part ++ (replicate 464 0 ++ tables)) i 0;
  room = 2049;
}

abbrev opened : Qcow
opened = record {
  file = file;
  header = record {
    magic = 0x51 ∷ 0x46 ∷ 0x49 ∷ 0xfb ∷ [];
    version = 2;
    cluster_bits = 9;
    size = 516;
    crypt_method = 0;
    l1_size = 1;
    l1_table_offset = 512;
  };
  l1_table = 1024 ∷ [];
  l2_bits = 6;
  l2_size = 64;
  cluster_size = 512;
}

abbrev fopen : List ℕ → Option File
fopen name = some file

open_lem : qcow_open fopen ((1 ∷ []) ∷ []) ≡ ok opened
unfolding qcow_open open_qcow_file parse_qcow_header check_qcow_header sized_qcow parse_table
    be_value padded seek_and_read slice
open_lem = refl

abbrev image : ℕ → ℕ
image p = if ltb p 512 then padded file (1536 + p) else 77

abbrev pad : ℕ → ℕ
pad i = 77

opened-Reached :
    (i j o : ℕ)
    → j < 64
    → o < 512
    → (i * 64 + j) * 512 + o < 516
    → Reached inflate opened i j o (image ((i * 64 + j) * 512 + o))
unfolding padded slice
opened-Reached zero zero o j_lt lt inside = record {
  listed = omega arith;
  high = 0;
  offset = 2;
  low = 0;
  parts = refl;
  offset_small = omega arith;
  low_small = omega arith;
  cluster = inr (
    omega arith,
    (
      stored 1536,
      (0, 0, 3, 0, refl, omega arith, omega arith, omega arith, refl, omega arith, refl),
      omega arith,
      first ((zero * 64 + zero) * 512 + o) o (omega arith) lt,
    ),
  );
}
  where
    first : (p o : ℕ) → p ≡ o → o < 512 → image p ≡ padded file (1536 + o)
    first p o e lt =
        let test : ltb p 512 ≡ true = ground arith in rw test (ap (λ k. padded file (1536 + k)) e)
opened-Reached zero (suc zero) o j_lt lt inside = record {
  listed = omega arith;
  high = 0;
  offset = 2;
  low = 0;
  parts = refl;
  offset_small = omega arith;
  low_small = omega arith;
  cluster = inr (
    omega arith,
    (
      compressed 2048 512,
      (0, 0, refl, omega arith, omega arith, refl),
      (omega arith, omega arith, slice pad 0 512, refl, length-slice pad 0 512),
      second ((zero * 64 + suc zero) * 512 + o) (omega arith) ∙ sym (get_or-slice pad 0 512 o 0 lt),
    ),
  );
}
  where
    second : (p : ℕ) → 512 ≤ p → image p ≡ 77
    second p le = let test : ltb p 512 ≡ false = ground arith in rw test refl
opened-Reached zero (suc (suc j)) o j_lt lt inside = absurd (omega arith)
opened-Reached (suc i) j o j_lt lt inside = absurd (omega arith)

opened-IsImageOf : IsImageOf inflate opened image
opened-IsImageOf = record {
  above = omega arith;
  below = omega arith;
  cluster = refl;
  bits = refl;
  entries = refl;
  small = omega arith;
  held = refl;
  reached = opened-Reached;
}

-- The last byte of the first cluster and the first one of the second.
qcow_read_lem_example : qcow_read inflate opened 511 2 ≡ ok (2, 0 ∷ 77 ∷ [])
unfolding slice padded
qcow_read_lem_example =
    qcow_read_lem inflate opened image opened-IsImageOf 511 2 (omega arith) (omega arith)
      (omega arith)

qcow_read-returns_example : qcow_read inflate opened 1 2 ≢ fault
qcow_read-returns_example =
    qcow_read-returns inflate fopen ((1 ∷ []) ∷ []) opened 1 2 open_lem (omega arith) (omega arith)
