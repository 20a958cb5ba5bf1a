-- ===== src/Input/Vdi/Own.antt =====
-- The VDI library of xmount on a VDI file that xmount shows.
use xmount.Base.{
  ℕ, zero, suc, ◌+◌, ◌*◌, ◌/◌, ◌%◌, ◌^◌, ◌≤◌, ◌<◌, ◌≡◌, refl, ap, sym, ◌∙◌, false, Option, none,
  some, List, [], ◌∷◌, arith, ok, err,
}
use xmount.Base.{
  leb, if◌then◌else◌, Bool-cases, inl, inr, Result, length, get_or, take, drop, slice, slice_ext,
  length-slice, get_or-slice, take-drop-eq-slice,
}
use xmount.Stdio.{File, fread-some}
use xmount.VirtImage.State.{XmountData, sizeof_vdi_header, vdi_cached, vdi_pos}
use xmount.VirtImage.Morphed.{IsMorphed}
use xmount.VirtImage.Get.Content.{HeaderFits}
use xmount.VirtImage.Get.Whole.{VdiFits}
use xmount.VirtImage.Set.{le_bytes}
use xmount.VirtImage.CacheFile.{le_value}
use xmount.VirtImage.CacheFile.Bytes.{le_value-le_bytes}
use xmount.VirtImage.Vdi.{
  VdiIds, type_fields, size_fields, block_entries, init_virt_vdi_header, vdi_image_block_size,
}
use xmount.VirtImage.Vdi.Header.{
  FieldsOf, init_virt_vdi_header-VdiFits, length-type_fields, length-size_fields, length-le_bytes,
  block_entries_lem,
}
use xmount.Input.Vdi.{
  Vdi, VdiHeader, VdiError, sizeof_header, read_beyond_end_of_image, unused, parse_fields,
  check_fields, parse_vdi_header, parse_bmap, file_read, open_file, vdi_open, vdi_size, vdi_read,
}
use xmount.Input.Vdi.Read.{IsVdi, vdi_image, vdi_read_lem}

take-drop-slice :
    (f : ℕ → ℕ) (o n p m : ℕ) → o + n ≤ m → take n (drop o (slice f p m)) ≡ slice f (p + o) n
take-drop-slice f o n p m le =
    take-drop-eq-slice (slice f p m) o n 0 (omega (arith, length-slice f p m))
    ∙ slice_ext (λ i. get_or (slice f p m) i 0) f o (p + o) n
        (λ i lt. get_or-slice f p m (o + i) 0 (omega arith) ∙ ap f (omega arith))

-- A field of a list that stands at `base`.
field_at :
    (f : ℕ → ℕ) (base k n m : ℕ) (fields : List ℕ)
    → ((i : ℕ) → i < length fields → f (base + i) ≡ get_or fields i 0)
    → k + n ≤ length fields
    → base + k + n ≤ m
    → take n (drop (base + k) (slice f 0 m)) ≡ take n (drop k fields)
field_at f base k n m fields h le le' =
    take-drop-slice f (base + k) n 0 m (omega arith)
    ∙ slice_ext f (λ i. get_or fields i 0) (0 + (base + k)) k n
        (λ i lt. ap f (omega arith) ∙ h (k + i) (omega arith))
    ∙ sym (take-drop-eq-slice fields k n 0 le)

drop-nil : (n : ℕ) → drop {A = ℕ} n [] ≡ []
drop-nil zero = refl
drop-nil (suc n) = refl

drop-drop : (m n : ℕ) (xs : List ℕ) → drop m (drop n xs) ≡ drop (n + m) xs
drop-drop m zero xs = ap (λ k. drop k xs) (omega arith)
drop-drop m (suc n) [] = drop-nil m ∙ sym (drop-nil (suc n + m))
drop-drop m (suc n) (x ∷ xs) =
    let e : suc n + m ≡ suc (n + m) = omega arith in
    drop-drop m n xs ∙ sym (ap (λ k. drop k (x ∷ xs)) e)

pub length-parse_bmap : (n : ℕ) (buf : List ℕ) → length (parse_bmap n buf) ≡ n
unfolding parse_bmap
length-parse_bmap zero buf = refl
length-parse_bmap (suc n) buf = ap suc (length-parse_bmap n (drop 4 buf))

get_or-parse_bmap :
    (n b : ℕ) (buf : List ℕ)
    → b < n
    → get_or (parse_bmap n buf) b 0 ≡ le_value (take 4 (drop (b * 4) buf))
unfolding parse_bmap
get_or-parse_bmap zero b buf lt = absurd (omega arith)
get_or-parse_bmap (suc n) zero buf lt = refl
get_or-parse_bmap (suc n) (suc b) buf lt =
    get_or-parse_bmap n b (drop 4 buf) (omega arith)
    ∙ ap (λ xs. le_value (take 4 xs)) (drop-drop (b * 4) 4 buf ∙ ap (λ k. drop k buf) (omega arith))

-- A file that begins with the header and goes on with `content`.
pub record IsCopy (f : File) (header : List ℕ) (size : ℕ) (content : ℕ → ℕ) : Type 0 where
  pub sized : f.size ≡ length header + size
  pub front : (i : ℕ) → i < length header → f.byte i ≡ get_or header i 0
  pub behind : (p : ℕ) → p < size → f.byte (length header + p) ≡ content p

module _ (ids : VdiIds) (size : ℕ) (f : File) (small : size < 2 ^ 49)
    (types : (i : ℕ) → i < 20 → f.byte (64 + i) ≡ get_or type_fields i 0)
    (sizes : (i : ℕ)
      → i < 172
      → f.byte (340 + i)
        ≡ get_or
            (size_fields ids size (block_entries size) (sizeof_vdi_header + block_entries size * 4))
            i
            0) where
  abbrev fields : VdiHeader
  fields = record {
    signature = 0xBEDA107F;
    version = 0x00010001;
    offset_bmap = sizeof_vdi_header;
    offset_data = sizeof_vdi_header + block_entries size * 4;
    disk_size = size;
    block_size = vdi_image_block_size;
    blocks_in_image = block_entries size;
  }

  type_field :
      (k n : ℕ)
      → k + n ≤ 20
      → take n (drop (64 + k) (slice f.byte 0 sizeof_header)) ≡ take n (drop k type_fields)
  type_field k n le =
      field_at f.byte 64 k n sizeof_header type_fields
        (λ i lt. types i (omega (arith, length-type_fields))) (omega (arith, length-type_fields))
        (omega arith)

  abbrev own_sizes : List ℕ
  own_sizes = size_fields ids size (block_entries size) (sizeof_vdi_header + block_entries size * 4)

  size_field :
      (k n : ℕ)
      → k + n ≤ 116
      → take n (drop (340 + k) (slice f.byte 0 sizeof_header)) ≡ take n (drop k own_sizes)
  size_field k n le =
      let m =
        length-size_fields ids size (block_entries size)
          (sizeof_vdi_header + block_entries size * 4) in
      field_at f.byte 340 k n sizeof_header own_sizes (λ i lt. sizes i (omega (arith, m)))
        (omega (arith, m)) (omega arith)

  few_entries : block_entries size < 2 ^ 29 + 1
  few_entries = omega (arith, (block_entries_lem size (omega arith)).1)

  -- The bytes of the fields that are used.
  fields_bytes :
      (take 4 (drop 0 type_fields) ≡ le_bytes 4 0xBEDA107F)
      × (take 4 (drop 4 type_fields) ≡ le_bytes 4 0x00010001)
      × (take 4 (drop 0 own_sizes) ≡ le_bytes 4 sizeof_vdi_header)
      × (take 4 (drop 4 own_sizes) ≡ le_bytes 4 (sizeof_vdi_header + block_entries size * 4))
      × (take 8 (drop 28 own_sizes) ≡ le_bytes 8 size)
      × (take 4 (drop 36 own_sizes) ≡ le_bytes 4 vdi_image_block_size)
      × (take 4 (drop 44 own_sizes) ≡ le_bytes 4 (block_entries size))
  unfolding type_fields size_fields le_bytes
  fields_bytes = (refl, refl, refl, refl, refl, refl, refl)

  -- The fields are found.
  parse_fields_lem : parse_fields (slice f.byte 0 sizeof_header) ≡ fields
  unfolding parse_fields
  parse_fields_lem =
      let (b1, b2, b3, b4, b5, b6, b7) = fields_bytes in
      rw
        (
          type_field 0 4 (omega arith),
          type_field 4 4 (omega arith),
          size_field 0 4 (omega arith),
          size_field 4 4 (omega arith),
          size_field 28 8 (omega arith),
          size_field 36 4 (omega arith),
          size_field 44 4 (omega arith),
          b1,
          b2,
          b3,
          b4,
          b5,
          b6,
          b7,
          le_value-le_bytes 4 0xBEDA107F (omega arith),
          le_value-le_bytes 4 0x00010001 (omega arith),
          le_value-le_bytes 4 sizeof_vdi_header (omega arith),
          le_value-le_bytes 4 (sizeof_vdi_header + block_entries size * 4)
              (omega (arith, few_entries)),
          le_value-le_bytes 8 size (omega (arith, small)),
          le_value-le_bytes 4 vdi_image_block_size (omega arith),
          le_value-le_bytes 4 (block_entries size) (omega (arith, few_entries)),
        )
        refl

  module _ (some_bytes : 0 < size)
      (sized : f.size ≡ sizeof_vdi_header + block_entries size * 4 + size)
      (map : (b k : ℕ)
        → b < block_entries size
        → k < 4
        → f.byte (sizeof_vdi_header + (b * 4 + k)) ≡ get_or (le_bytes 4 b) k 0) where
    abbrev own : Vdi
    own = record {
      file = f;
      header = fields;
      bmap =
          parse_bmap (block_entries size) (slice f.byte sizeof_vdi_header (block_entries size * 4));
    }

    own_entry : (b : ℕ) → b < block_entries size → get_or own.bmap b 0 ≡ b
    own_entry b lt =
        let bytes = le_bytes 4 b in
        let four = length-le_bytes 4 b in
        get_or-parse_bmap (block_entries size) b
          (slice f.byte sizeof_vdi_header (block_entries size * 4)) lt
        ∙ ap le_value (
            take-drop-slice f.byte (b * 4) 4 sizeof_vdi_header (block_entries size * 4)
              (omega arith)
            ∙ slice_ext f.byte (λ i. get_or bytes i 0) (sizeof_vdi_header + b * 4) 0 4
                (λ i lt'.
                  ap f.byte (omega arith)
                  ∙ map b i lt lt'
                  ∙ ap (λ k. get_or bytes k 0) (omega arith))
            ∙ sym (take-drop-eq-slice bytes 0 4 0 (omega (arith, four))))
        ∙ ap le_value (all b)
        ∙ le_value-le_bytes 4 b (omega (arith, few_entries))
      where
        all : (b : ℕ) → take 4 (drop 0 (le_bytes 4 b)) ≡ le_bytes 4 b
        all b = unfold le_bytes in refl

    own_block : (p : ℕ) → p < size → p / vdi_image_block_size < block_entries size
    own_block p lt = omega (arith, (block_entries_lem size (omega arith)).0)

    own_used : (p : ℕ) → p < size → unused (get_or own.bmap (p / vdi_image_block_size) 0) ≡ false
    own_used p lt =
        let e = own_entry (p / vdi_image_block_size) (own_block p lt) in
        ground (arith, e, few_entries, own_block p lt)

    own-IsVdi : IsVdi own
    own-IsVdi = record {
      block_size = omega arith;
      small = omega arith;
      mapped =
          length-parse_bmap (block_entries size)
            (slice f.byte sizeof_vdi_header (block_entries size * 4));
      covered = own_block;
      inside = λ p lt used.
          let e = own_entry (p / vdi_image_block_size) (own_block p lt) in omega (arith, e, sized);
      file_small = omega (arith, sized, few_entries);
    }

    own-image :
        (p : ℕ)
        → p < size
        → vdi_image own p ≡ f.byte (sizeof_vdi_header + block_entries size * 4 + p)
    unfolding vdi_image
    own-image p lt =
        let e = own_entry (p / vdi_image_block_size) (own_block p lt) in
        let at : sizeof_vdi_header
              + block_entries size * 4
              + get_or own.bmap (p / vdi_image_block_size) 0 * vdi_image_block_size
              + p % vdi_image_block_size
            ≡ sizeof_vdi_header + block_entries size * 4 + p =
          omega (arith, e) in
        rw (own_used p lt, vdi_image) (ap f.byte at)

    open_file_lem : open_file f ≡ ok own
    unfolding open_file parse_vdi_header check_fields file_read
    open_file_lem =
        let first = fread-some f 0 sizeof_header (omega arith) (omega (arith, sized)) in
        let entries : 0 < block_entries size =
          omega (arith, (block_entries_lem size (omega arith)).0) in
        let second =
          fread-some f sizeof_vdi_header (block_entries size * 4) (omega (arith, entries))
            (omega (arith, sized)) in
        rw (first, open_file, parse_vdi_header, file_read, parse_fields_lem, check_fields, second)
          refl

-- What is read is the same stretch of the content.
shown :
    {size : ℕ} {content : ℕ → ℕ} (image : ℕ → ℕ) (r : Result VdiError (ℕ × List ℕ)) (o n : ℕ)
    → ((q : ℕ) → q < size → image q ≡ content q)
    → r ≡ (if leb (o + n) size then ok (n, slice image o n) else err read_beyond_end_of_image)
    → r ≡ (if leb (o + n) size then ok (n, slice content o n) else err read_beyond_end_of_image)
shown {size} {content} image r o n same e = elim (Bool-cases (leb (o + n) size)) [
  | inl inside ↦
      let le : o + n ≤ size = ground arith in
      rw inside (
        (rw inside at e)
        ∙ ap (λ bytes. ok (n, bytes))
            (slice_ext image content o o n (λ i lt. same (o + i) (omega arith))))
  | inr beyond ↦ rw beyond (rw beyond at e)
]

own_lem :
    (ids : VdiIds) {size : ℕ} (fopen : List ℕ → Option File) (name : List ℕ) (f : File)
    (content : ℕ → ℕ) (o n : ℕ)
    → 0 < size
    → size < 2 ^ 49
    → (g1 g' : XmountData) → g1 ≡ g'
    → VdiFits g1
    → g1.vdi_block_map_size ≡ block_entries size * 4
    → FieldsOf g1 ids size
    → ((b k : ℕ)
        → b < block_entries size
        → k < 4
        → get_or g1.vdi_header (sizeof_vdi_header + (b * 4 + k)) 0 ≡ get_or (le_bytes 4 b) k 0)
    → fopen name ≡ some f
    → IsCopy f g'.vdi_header size content
    → 0 < n
    → n < 2 ^ 32
    → o + n < 2 ^ 64
    → (v : Vdi) × (vdi_open fopen (name ∷ []) ≡ ok v)
      × (vdi_size v ≡ size)
      × (vdi_read v o n
          ≡ (if leb (o + n) size then ok (n, slice content o n) else err read_beyond_end_of_image))
unfolding vdi_open vdi_size
own_lem ids {size} fopen name f content o n p small g1 g' same v map_size fields_of map opened copy'
      q few below =
    let copy : IsCopy f g1.vdi_header size content = rw same copy' in
    let len : length g1.vdi_header ≡ sizeof_vdi_header + block_entries size * 4 =
      omega (arith, v.in_memory, v.sized, map_size) in
    let types : (i : ℕ) → i < 20 → f.byte (64 + i) ≡ get_or type_fields i 0 =
      λ i lt. copy.front (64 + i) (omega (arith, len)) ∙ fields_of.types i lt in
    let sizes : (i : ℕ)
        → i < 172
        → f.byte (340 + i)
          ≡ get_or
              (size_fields ids size (block_entries size)
                (sizeof_vdi_header + block_entries size * 4))
              i 0 =
      λ i lt. copy.front (340 + i) (omega (arith, len)) ∙ fields_of.sizes i lt in
    let sized : f.size ≡ sizeof_vdi_header + block_entries size * 4 + size =
      omega (arith, copy.sized, len) in
    let entries : (b k : ℕ)
        → b < block_entries size
        → k < 4
        → f.byte (sizeof_vdi_header + (b * 4 + k)) ≡ get_or (le_bytes 4 b) k 0 =
      λ b k lt lt'.
        copy.front (sizeof_vdi_header + (b * 4 + k)) (omega (arith, len)) ∙ map b k lt lt' in
    let w = own ids size f small types sizes p sized entries in
    let is_vdi = own-IsVdi ids size f small types sizes p sized entries in
    (
      w,
      rw (opened, vdi_open) (open_file_lem ids size f small types sizes p sized entries),
      refl,
      shown (vdi_image w) _ o n
          (λ q lt.
            own-image ids size f small types sizes p sized entries q lt
            ∙ ap (λ k. f.byte (k + q)) (sym len)
            ∙ copy.behind q lt)
          (vdi_read_lem w is_vdi o n q few below),
    )

-- A file with the header of `InitVirtVdiHeader` and `content` behind it, for a disk of at least one
-- byte and less than 2 ^ 49, is opened by `VdiOpen`; `VdiSize` is the size of the disk, and `VdiRead`
-- of at least one byte and less than 2 ^ 32 returns the content, or its error if the end of the
-- request, which does not wrap, is beyond the end of the disk.
pub vdi_read-init_virt_vdi_header :
    (g g' : XmountData) {size : ℕ} {byte : ℕ → ℕ} (ids : VdiIds) (fopen : List ℕ → Option File)
    (name : List ℕ) (f : File) (content : ℕ → ℕ) (o n : ℕ)
    → IsMorphed g.morphing size byte
    → 0 < size
    → size < 2 ^ 49
    → length ids.file_comment ≤ 64
    → length ids.header_comment ≤ 256
    → HeaderFits g.cache vdi_cached vdi_pos (sizeof_vdi_header + block_entries size * 4)
    → init_virt_vdi_header g ids ≡ some g'
    → fopen name ≡ some f
    → IsCopy f g'.vdi_header size content
    → 0 < n
    → n < 2 ^ 32
    → o + n < 2 ^ 64
    → (v : Vdi) × (vdi_open fopen (name ∷ []) ≡ ok v)
      × (vdi_size v ≡ size)
      × (vdi_read v o n
          ≡ (if leb (o + n) size then ok (n, slice content o n) else err read_beyond_end_of_image))
vdi_read-init_virt_vdi_header g g' ids fopen name f content o n m p small short short' fits made
      opened copy q few below =
    let (g1, done, v, map_size, fields, map) =
      init_virt_vdi_header-VdiFits g ids m small short short' fits in
    own_lem ids fopen name f content o n p small g1 g' (same g1 done) v map_size fields map opened
      copy q few below
  where
    same : (g1 : XmountData) → init_virt_vdi_header g ids ≡ some g1 → g1 ≡ g'
    same g1 done = ap (λ x. elim x [ none ↦ g' | some y ↦ y ]) (sym done ∙ made)
