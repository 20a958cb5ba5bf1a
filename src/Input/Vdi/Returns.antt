-- ===== src/Input/Vdi/Returns.antt =====
-- Reads of a VDI file that was opened end.
use xmount.Base.{
  ℕ, suc, ◌-◌, ◌*◌, ◌/◌, ◌%◌, ◌≤◌, ◌<◌, ◌≡◌, ◌≢◌, refl, sym, ◌∙◌, ◌⊎◌, inl, inr, List, [], ◌∷◌,
  Option, arith, min, Option-cases,
}
use xmount.Base.{
  ltb, leb, leb→lt, add64, u32, ok, err, fault, Bool-cases, length, get_or, get_elem?-eq-get_or,
  ok-returns, err-returns, bind-returns, block_bounds, slice,
}
use xmount.Stdio.{File, fread}
use xmount.Input.ReadLoop.{read_loop, read_loop-returns}
use xmount.Input.Vdi.{
  Vdi, VdiError, bad_block_map_offset, read_beyond_end_of_image, file_read, read_file_block,
  vdi_read0, vdi_read, vdi_open, open_file, parse_vdi_header, check_fields,
}
use xmount.Input.Vdi.Own.{length-parse_bmap}

-- What `VdiOpen` has made sure of.
pub record Opened (v : Vdi) : Type 0 where
  pub block_size : 0 < v.header.block_size
  pub mapped : length v.bmap ≡ v.header.blocks_in_image

open_file-Opened : (f : File) (v : Vdi) → open_file f ≡ ok v → Opened v
unfolding open_file parse_vdi_header check_fields file_read fread
open_file-Opened f v e = record {
  block_size = ground (arith, e);
  mapped = ground (
    arith,
    e,
    length-parse_bmap v.header.blocks_in_image
        (slice f.byte v.header.offset_bmap (v.header.blocks_in_image * 4)),
  );
}

read_file_block-some :
    (v : Vdi) (b o n m : ℕ) (bytes : List ℕ) → read_file_block v b o n ≡ ok (m, bytes) → m ≡ n
unfolding read_file_block file_read fread
read_file_block-some v b o n m bytes e = ground (arith, e)

read_file_block-returns : (v : Vdi) (b o n : ℕ) → read_file_block v b o n ≢ fault
unfolding read_file_block file_read fread
read_file_block-returns v b o n e = absurd (ground (arith, e))

module _ (v : Vdi) (d : Opened v) where
  -- How a part is read.
  vdi_read0_cases :
      (seek n : ℕ)
      → ((x : VdiError) × (vdi_read0 v seek n ≡ err x))
        ⊎ ((b : ℕ) × (vdi_read0 v seek n
              ≡ read_file_block v b
                  (seek % v.header.block_size)
                  (min n (v.header.block_size - seek % v.header.block_size))))
  unfolding vdi_read0
  vdi_read0_cases seek n =
      let block : ℕ = seek / v.header.block_size in
      elim (Bool-cases (leb v.header.blocks_in_image block)) [
        | inl beyond ↦ inl (bad_block_map_offset, rw (beyond, vdi_read0) refl)
        | inr inside ↦
            let found =
              get_elem?-eq-get_or v.bmap block 0 (omega (arith, d.mapped, leb→lt _ _ inside)) in
            inr (get_or v.bmap block 0, rw (inside, vdi_read0, found) refl)
      ]

  vdi_read0-returns : (seek n : ℕ) → vdi_read0 v seek n ≢ fault
  vdi_read0-returns seek n = elim (vdi_read0_cases seek n) [
    | inl (x, e) ↦ err-returns _ x e
    | inr (b, e) ↦ rw e (read_file_block-returns v b _ _)
  ]

  vdi_read0-some :
      (seek n m : ℕ) (bytes : List ℕ)
      → vdi_read0 v seek n ≡ ok (m, bytes)
      → (m ≤ n) × (0 < n → 0 < m)
  vdi_read0-some seek n m bytes h = elim (vdi_read0_cases seek n) [
    | inl (x, e) ↦ absurd (ground (arith, e, h))
    | inr (b, e) ↦
        let few = read_file_block-some v b _ _ m bytes (sym e ∙ h) in
        let lt = (block_bounds seek v.header.block_size d.block_size).1 in
        (omega (arith, few), λ p. omega (arith, few, lt))
  ]

  opened-returns : (seek count : ℕ) → vdi_read v seek count ≢ fault
  unfolding vdi_read
  opened-returns seek count = elim (Bool-cases (ltb v.header.disk_size (add64 seek count))) [
    | inl beyond ↦ rw (beyond, vdi_read) (err-returns (err read_beyond_end_of_image) _ refl)
    | inr inside ↦
        rw (inside, vdi_read)
          (bind-returns (read_loop (vdi_read0 v) (suc (u32 count)) seek (u32 count))
            (λ bytes. ok (count, bytes))
            (read_loop-returns (vdi_read0 v) (suc (u32 count)) seek (u32 count) vdi_read0-returns
              vdi_read0-some (omega arith) (omega arith))
            (λ bytes e. ok-returns (ok (count, bytes)) (count, bytes) refl))
  ]

vdi_open-Opened :
    (fopen : List ℕ → Option File) (names : List (List ℕ)) (v : Vdi)
    → vdi_open fopen names ≡ ok v
    → Opened v
unfolding vdi_open
vdi_open-Opened fopen [] v e = absurd (ground (arith, e))
vdi_open-Opened fopen (name ∷ names) v e = elim (Option-cases (fopen name)) [
  | inl missing ↦ absurd (ground (arith, e, missing))
  | inr (f, found) ↦ open_file-Opened f v (ground (arith, e, found))
]

-- `VdiRead` returns on every file that `VdiOpen` has opened and for every request, whatever the
-- header and the block map say.
pub vdi_read-returns :
    (fopen : List ℕ → Option File) (names : List (List ℕ)) (v : Vdi) (seek count : ℕ)
    → vdi_open fopen names ≡ ok v
    → vdi_read v seek count ≢ fault
vdi_read-returns fopen names v seek count e =
    opened-returns v (vdi_open-Opened fopen names v e) seek count
