-- ===== src/Fuse/Memory.antt =====
-- The files that `FuseRead` and `FuseWrite` keep in memory.
use xmount.Base.{
  ℕ, ◌+◌, ◌-◌, ◌^◌, ◌<◌, ◌≤◌, ◌≡◌, refl, ap, sym, ◌∙◌, true, false, inl, inr, Bool-cases, List, [],
  ◌∷◌, ◌++◌, arith,
}
use xmount.Base.{
  length, length-append, take, drop, length-take, length-drop, slice, length-slice, ok, ltb, leb,
  add64, u32, ◌==◌, if◌then◌else◌,
}
use xmount.Fuse.{
  FuseState, MemFile, str_eq, sign_extend, read_mem_file, grow, copy_into, write_vmdk_file,
  fuse_read, fuse_write,
}

drop-append : (xs ys : List ℕ) → drop (length xs) (xs ++ ys) ≡ ys
drop-append [] ys = refl
drop-append (x ∷ xs) ys = drop-append xs ys

take-append : (xs ys : List ℕ) → take (length xs) (xs ++ ys) ≡ xs
take-append [] ys = refl
take-append (x ∷ xs) ys = ap (◌∷◌ x) (take-append xs ys)

-- The size of a file in memory is that of what is allocated, and is a number that an `int` holds.
pub record MemFits (f : MemFile) : Type 0 where
  pub allocated : length f.content ≡ f.size
  pub small : f.size < 2 ^ 31

length-grow : (garbage : ℕ → ℕ) (f : MemFile) (n : ℕ) → length (grow garbage f n) ≡ n
unfolding grow
length-grow garbage f n = elim (Bool-cases (f.size == 0)) [
  | inl empty ↦ rw empty (length-slice garbage 0 n)
  | inr more ↦
      let gap = slice garbage (length f.content) (n - length f.content) in
      rw more (
        omega (
          arith,
          length-take n (f.content ++ gap),
          length-append f.content gap,
          length-slice garbage (length f.content) (n - length f.content),
        ))
]

-- Bytes that are copied into the middle.
abbrev copied : List ℕ → ℕ → List ℕ → List ℕ
copied content offset bytes = take offset content ++ (bytes ++ drop (offset + length bytes) content)

module _ (content : List ℕ) (size offset : ℕ) (bytes : List ℕ)
    (inside : offset + length bytes ≤ length content) where
  length-copied : length (copied content offset bytes) ≡ length content
  length-copied =
      let back = drop (offset + length bytes) content in
      omega (
        arith,
        inside,
        length-append (take offset content) (bytes ++ back),
        length-append bytes back,
        length-take offset content,
        length-drop (offset + length bytes) content,
      )

  take-copied : take (length bytes) (drop offset (copied content offset bytes)) ≡ bytes
  take-copied =
      let back = drop (offset + length bytes) content in
      let front : length (take offset content) ≡ offset =
        omega (arith, length-take offset content, inside) in
      ap (λ n. take (length bytes) (drop n (take offset content ++ (bytes ++ back)))) (sym front)
      ∙ ap (take (length bytes)) (drop-append (take offset content) (bytes ++ back))
      ∙ take-append bytes back

  copy_into_lem :
      copy_into content size offset bytes
      ≡ ok (record { content = copied content offset bytes; size = size })
  unfolding copy_into
  copy_into_lem =
      let test : leb (offset + length bytes) (length content) ≡ true = ground (arith, inside) in
      rw test refl

  read_copied :
      length content ≡ size
      → size < 2 ^ 31
      → 0 < length bytes
      → read_mem_file (copied content offset bytes) (sign_extend size) (length bytes) offset
        ≡ ok bytes
  unfolding read_mem_file sign_extend
  read_copied e small some_bytes =
      let len : (if ltb size (2 ^ 31) then size else size + (2 ^ 64 - 2 ^ 32)) ≡ size =
        ground (arith, small) in
      let before : ltb offset size ≡ true = ground (arith, inside, e, some_bytes) in
      let whole : ltb size (add64 offset (length bytes)) ≡ false =
        ground (arith, inside, e, small) in
      let test : leb (offset + length bytes) (length (copied content offset bytes)) ≡ true =
        ground (arith, inside, length-copied) in
      rw (len, before, whole, test) (ap ok take-copied)

write_vmdk_file_lem :
    (garbage : ℕ → ℕ) (f : MemFile) (offset : ℕ) (bytes : List ℕ)
    → MemFits f
    → 0 < length bytes
    → offset + length bytes < 2 ^ 31
    → (f' : MemFile) × (write_vmdk_file garbage f offset bytes ≡ ok f')
      × MemFits f'
      × (read_mem_file f'.content (sign_extend f'.size) (length bytes) offset ≡ ok bytes)
unfolding write_vmdk_file sign_extend
write_vmdk_file_lem garbage f offset bytes m some_bytes short =
    let end : add64 offset (length bytes) ≡ offset + length bytes = omega arith in
    let low : u32 (offset + length bytes) ≡ offset + length bytes = omega arith in
    let len : (if ltb f.size (2 ^ 31) then f.size else f.size + (2 ^ 64 - 2 ^ 32)) ≡ f.size =
      ground (arith, m.small) in
    elim (Bool-cases (ltb f.size (offset + length bytes))) [
      | inl more ↦
          let content = grow garbage f (offset + length bytes) in
          let n = length-grow garbage f (offset + length bytes) in
          let fits : offset + length bytes ≤ length content = omega (arith, n) in
          (
            record { content = copied content offset bytes; size = offset + length bytes },
            rw (len, end, more, low)
                (copy_into_lem content (offset + length bytes) offset bytes fits),
            record {
              allocated = length-copied content (offset + length bytes) offset bytes fits ∙ n;
              small = short;
            },
            read_copied content (offset + length bytes) offset bytes fits n short some_bytes,
          )
      | inr enough ↦
          let fits : offset + length bytes ≤ length f.content =
            ground (arith, m.allocated, enough) in
          (
            record { content = copied f.content offset bytes; size = f.size },
            rw (len, end, enough) (copy_into_lem f.content f.size offset bytes fits),
            record {
              allocated = length-copied f.content f.size offset bytes fits ∙ m.allocated;
              small = m.small;
            },
            read_copied f.content f.size offset bytes fits m.allocated m.small some_bytes,
          )
    ]

-- A write of at least one byte, whose end is below 2 ^ 31, to the path of the VMDK file, where that
-- is not also the path of the image or of the info file, and the size of the file is below 2 ^ 31 and
-- that of what is allocated: `FuseWrite` returns the number of bytes, the size of the file is that of
-- what is allocated then, and `FuseRead` returns the bytes.
pub fuse_read-write_mem_file :
    (garbage : ℕ → ℕ) (s : FuseState) (p_path buf : List ℕ) (offset : ℕ)
    → str_eq p_path s.virtual_image_path ≡ false
    → str_eq p_path s.info_path ≡ false
    → str_eq p_path s.virtual_vmdk_path ≡ true
    → MemFits s.vmdk_file
    → 0 < length buf
    → offset + length buf < 2 ^ 31
    → (s' : FuseState) × (fuse_write garbage s p_path buf offset ≡ ok (s', length buf))
      × MemFits s'.vmdk_file
      × (fuse_read s' p_path (length buf) offset ≡ ok (buf, s'))
unfolding fuse_read fuse_write
fuse_read-write_mem_file garbage s p_path buf offset not_image not_info vmdk m some_bytes short =
    let (f, done, m', same) =
      write_vmdk_file_lem garbage s.vmdk_file offset buf m some_bytes short in
    (
      record s { vmdk_file = f },
      rw (not_image, fuse_write, vmdk, done) refl,
      m',
      rw (not_image, fuse_read, not_info, vmdk, same) refl,
    )
