-- ===== src/Input/Vdi/Read.antt =====
-- What reads of a VDI file return.
use xmount.Base.{
  ℕ, suc, ◌+◌, ◌-◌, ◌*◌, ◌/◌, ◌%◌, ◌^◌, ◌≤◌, ◌<◌, ◌≡◌, refl, ap, sym, ◌∙◌, true, false, inl, inr,
  some, List, arith, min,
}
use xmount.Base.{
  ltb, leb, if◌then◌else◌, add64, mul64, u32, ok, err, Bool-cases, slice, slice_ext,
  slice-replicate, length, get_or, get_elem?-eq-get_or, block_bounds, block-div, block-mod,
}
use xmount.Stdio.{fread, fread-some}
use xmount.Input.ReadLoop.{read_loop_lem}
use xmount.Input.Vdi.{
  Vdi, read_beyond_end_of_image, unused, file_read, read_file_block, vdi_read0, vdi_read,
}

-- Where a byte of the image stands in the file, and the byte.
abbrev pub file_block : Vdi → ℕ → ℕ
file_block v p = get_or v.bmap (p / v.header.block_size) 0

abbrev pub file_position : Vdi → ℕ → ℕ
file_position v p =
    v.header.offset_data + file_block v p * v.header.block_size + p % v.header.block_size

unfoldable pub vdi_image : Vdi → ℕ → ℕ
vdi_image v p = if unused (file_block v p) then 0 else v.file.byte (file_position v p)

-- The blocks cover the disk, and those that are used hold its bytes in the file.
pub record IsVdi (v : Vdi) : Type 0 where
  pub block_size : 0 < v.header.block_size
  pub small : v.header.disk_size < 2 ^ 63
  pub mapped : length v.bmap ≡ v.header.blocks_in_image
  pub covered :
      (p : ℕ) → p < v.header.disk_size → p / v.header.block_size < v.header.blocks_in_image
  pub inside :
      (p : ℕ)
      → p < v.header.disk_size
      → unused (file_block v p) ≡ false
      → file_position v p < v.file.size
  pub file_small : v.file.size < 2 ^ 63

vdi_read0-step :
    (v : Vdi) (seek n block o m : ℕ)
    → seek / v.header.block_size ≡ block
    → seek % v.header.block_size ≡ o
    → block < v.header.blocks_in_image
    → length v.bmap ≡ v.header.blocks_in_image
    → min n (v.header.block_size - o) ≡ m
    → vdi_read0 v seek n ≡ read_file_block v (get_or v.bmap block 0) o m
unfolding vdi_read0
vdi_read0-step v seek n block o m e e' lt mapped few =
    let inside : leb v.header.blocks_in_image block ≡ false = ground arith in
    let found = get_elem?-eq-get_or v.bmap block 0 (omega (arith, mapped)) in
    rw (e, vdi_read0, inside, found, e', few) refl

read_file_block-step :
    (v : Vdi) (b o n p : ℕ) (bytes : List ℕ)
    → unused b ≡ false
    → add64 (add64 v.header.offset_data (mul64 b v.header.block_size)) o ≡ p
    → p < 2 ^ 63
    → fread v.file p n ≡ some bytes
    → read_file_block v b o n ≡ ok (n, bytes)
unfolding read_file_block file_read
read_file_block-step v b o n p bytes used at below done =
    let sought : leb (2 ^ 63) p ≡ false = ground (arith, below) in
    rw (used, read_file_block, at, file_read, sought, done) refl

module _ (v : Vdi) (d : IsVdi v) where
  module _ (block o : ℕ) where
    -- The bytes of a block, from `o` on.
    vdi_image-block :
        (i : ℕ)
        → o + i < v.header.block_size
        → vdi_image v (block * v.header.block_size + o + i) ≡ (
            if unused (get_or v.bmap block 0)
            then 0
            else v.file.byte
                (v.header.offset_data + get_or v.bmap block 0 * v.header.block_size + o + i))
    unfolding vdi_image
    vdi_image-block i lt =
        let size = v.header.block_size in
        let sum : block * size + o + i ≡ block * size + (o + i) = omega arith in
        let at : v.header.offset_data + get_or v.bmap block 0 * size + o + i
            ≡ v.header.offset_data + get_or v.bmap block 0 * size + (o + i) =
          omega arith in
        rw (sum, at, vdi_image, block-div block size (o + i) lt, block-mod block size (o + i) lt)
          refl

    read_file_block_lem :
        (n : ℕ)
        → 0 < n
        → o + n ≤ v.header.block_size
        → block * v.header.block_size + o + n ≤ v.header.disk_size
        → read_file_block v (get_or v.bmap block 0) o n
          ≡ ok (n, slice (vdi_image v) (block * v.header.block_size + o) n)
    read_file_block_lem n p short inside =
        let size = v.header.block_size in
        let b = get_or v.bmap block 0 in
        elim (Bool-cases (unused b)) [
          | inl zeros ↦
              unfold read_file_block in
              rw (zeros, read_file_block)
                (ap (λ bytes. ok (n, bytes))
                  (sym (
                    slice-replicate (vdi_image v) 0 (block * size + o) n
                      (λ i lt. vdi_image-block i (omega arith) ∙ rw zeros refl))))
          | inr used ↦
              let last : v.header.offset_data + b * size + (o + (n - 1)) < v.file.size =
                position used (n - 1) (omega arith) (omega arith) in
              let at : add64 (add64 v.header.offset_data (mul64 b size)) o
                  ≡ v.header.offset_data + b * size + o =
                omega (arith, d.file_small, last) in
              read_file_block-step v b o n (v.header.offset_data + b * size + o)
                (slice v.file.byte (v.header.offset_data + b * size + o) n) used at
                (omega (arith, d.file_small, last))
                (fread-some v.file (v.header.offset_data + b * size + o) n p (omega (arith, last)))
              ∙ ap (λ bytes. ok (n, bytes))
                  (sym (
                    slice_ext (vdi_image v) v.file.byte (block * size + o)
                      (v.header.offset_data + b * size + o) n
                      (λ i lt. vdi_image-block i (omega arith) ∙ rw used refl)))
        ]
      where
        position :
            unused (get_or v.bmap block 0) ≡ false
            → (i : ℕ) → o + i < v.header.block_size
            → block * v.header.block_size + (o + i) < v.header.disk_size
            → v.header.offset_data + get_or v.bmap block 0 * v.header.block_size + (o + i)
              < v.file.size
        position used i lt lt' =
            let size = v.header.block_size in
            let here = block-div block size (o + i) lt in
            let rest = block-mod block size (o + i) lt in
            rw (here, rest) at (d.inside (block * size + (o + i)) lt' (rw here used))

  vdi_read0_lem :
      (seek n : ℕ)
      → 0 < n
      → n < 2 ^ 32
      → seek + n ≤ v.header.disk_size
      → (m : ℕ) × (0 < m) × (m ≤ n) × (vdi_read0 v seek n ≡ ok (m, slice (vdi_image v) seek m))
  vdi_read0_lem seek n p few inside =
      let size = v.header.block_size in
      let block : ℕ = seek / size in
      let o : ℕ = seek % size in
      let (e, lt) = block_bounds seek size d.block_size in
      let m : ℕ = min n (size - o) in
      (
        m,
        omega arith,
        omega arith,
        vdi_read0-step v seek n block o m refl refl (d.covered seek (omega arith)) d.mapped refl
            ∙ read_file_block_lem block o m (omega arith) (omega arith) (omega (arith, e))
            ∙ ap (λ k. ok (m, slice (vdi_image v) k m)) e,
      )

  pub vdi_read_lem :
      (o n : ℕ)
      → 0 < n
      → n < 2 ^ 32
      → o + n < 2 ^ 64
      → vdi_read v o n ≡ (
          if leb (o + n) v.header.disk_size
          then ok (n, slice (vdi_image v) o n)
          else err read_beyond_end_of_image)
  unfolding vdi_read
  vdi_read_lem o n p few short = elim (Bool-cases (leb (o + n) v.header.disk_size)) [
    | inl inside ↦
        let le : o + n ≤ v.header.disk_size = ground arith in
        let test : ltb v.header.disk_size (add64 o n) ≡ false = ground arith in
        let low : u32 n ≡ n = omega arith in
        let all =
          read_loop_lem (vdi_read0 v) (vdi_image v) (suc n) o n vdi_read0_lem (omega arith) p few
            d.small le in
        rw (inside, test, vdi_read, low, all) refl
    | inr beyond ↦
        let test : ltb v.header.disk_size (add64 o n) ≡ true = ground arith in
        rw (beyond, test, vdi_read) refl
  ]
