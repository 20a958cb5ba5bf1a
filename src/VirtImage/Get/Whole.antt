-- ===== src/VirtImage/Get/Whole.antt =====
-- `GetVirtImageData` returns the bytes of the virtual image.
use xmount.Base.{
  ℕ, ◌+◌, ◌-◌, ◌^◌, ◌≤◌, ◌<◌, ◌≡◌, refl, ap, ◌∙◌, ◌⊎◌, inl, inr, Option, none, some, List, [], min,
}
use xmount.Base.{
  ltb, leb, ◌==◌, if◌then◌else◌, get_or, length, arith, ltb→lt, ltb→le, Bool-cases,
  take-drop-eq-slice,
}
use xmount.Base.{
  slice, slice_ext, leb→le, leb→lt, slice-joined_left, slice-joined_right, slice-joined_both, add64,
  sub64, ok,
}
use xmount.VirtImage.State.{
  XmountData, Cache, CacheFileHeader, vdi_cached, vdi_pos, vhd_cached, vhd_pos,
}
use xmount.VirtImage.State.{
  VirtImageType, dd, dmg, vdi, vmdk, vmdks, vhd, sizeof_vdi_header, sizeof_vhd_header,
}
use xmount.VirtImage.Morphed.{get_virt_image_size, get_morphed_image_size_lem, extra_size}
use xmount.VirtImage.Get.{
  read_header_from, copy_header, read_vdi_header, read_vhd_footer, get_vdi, get_vhd, read_image,
  read_blocks, get_by_type, get_virt_image_data,
}
use xmount.VirtImage.Get.Content.{
  image_byte, header_byte, vdi_byte, vhd_byte, virt_byte, CacheFits, HeaderFits,
}
use xmount.VirtImage.Get.Blocks.{Mounted, read_cache_file_lem, read_image_lem}

read_header_from_lem :
    (cache : Option Cache) (cached pos : CacheFileHeader → ℕ) (bytes : List ℕ) (size o n : ℕ)
    → CacheFits cache size
    → HeaderFits cache cached pos (length bytes)
    → 0 < n
    → o + n ≤ length bytes
    → read_header_from cache cached pos bytes o n
      ≡ ok (slice (header_byte cache cached pos bytes) o n)
unfolding read_header_from copy_header
read_header_from_lem none cached pos bytes size o n fits h p le =
    ground (arith, take-drop-eq-slice bytes o n 0 le)
read_header_from_lem (some c) cached pos bytes size o n fits h p le =
    elim (Bool-cases (cached c.header == 1)) [
      | inl here ↦
          let inside : pos c.header + length bytes ≤ c.file.size = h (ground arith) in
          let at : add64 (pos c.header) o ≡ pos c.header + o =
            omega (arith, inside, fits.within, fits.small) in
          rw (here, read_header_from, at)
            (read_cache_file_lem c.file (pos c.header + o) n p (omega (arith, inside))
              ∙ ap ok (
                  slice_ext c.file.byte (header_byte (some c) cached pos bytes) (pos c.header + o) o
                    n
                    (λ i lt.
                      let e : pos c.header + o + i ≡ pos c.header + (o + i) = omega arith in
                      rw (e, here) refl)))
      | inr not_here ↦ ground (
        arith,
        take-drop-eq-slice bytes o n 0 le,
        slice_ext (λ i. get_or bytes i 0) (header_byte (some c) cached pos bytes) o o n
            (λ i lt. rw not_here refl),
      )
    ]

-- A read of no bytes.
none_read : (g : XmountData) (o n : ℕ) → read_image g o (n - n) ≡ ok []
unfolding read_image read_blocks
none_read g o n = let e : n - n ≡ 0 = omega arith in rw e refl

-- What the type of the virtual image needs of the state.
pub record VdiFits (g : XmountData) : Type 0 where
  pub sized : g.vdi_header_size ≡ sizeof_vdi_header + g.vdi_block_map_size
  pub in_memory : length g.vdi_header ≡ g.vdi_header_size
  pub small : g.vdi_header_size < 2 ^ 32
  pub in_file : HeaderFits g.cache vdi_cached vdi_pos (length g.vdi_header)

pub record VhdFits (g : XmountData) : Type 0 where
  pub in_memory : length g.vhd_header ≡ sizeof_vhd_header
  pub in_file : HeaderFits g.cache vhd_cached vhd_pos (length g.vhd_header)

abbrev pub TypeFits : XmountData → VirtImageType → Type 0
TypeFits g vdi = VdiFits g
TypeFits g vhd = VhdFits g
TypeFits g _ = g.image_size ≤ g.image_size

module _ {g : XmountData} {size : ℕ} {byte : ℕ → ℕ} (m : Mounted g size byte) where
  header :
      (o n : ℕ)
      → VdiFits g
      → 0 < n
      → o + n ≤ g.vdi_header_size
      → read_header_from g.cache vdi_cached vdi_pos g.vdi_header o n ≡ ok (slice (vdi_byte g) o n)
  header o n v p le =
      read_header_from_lem g.cache vdi_cached vdi_pos g.vdi_header size o n m.cached v.in_file p
        (omega (arith, v.in_memory))

  footer :
      (o n : ℕ)
      → VhdFits g
      → 0 < n
      → o + n ≤ sizeof_vhd_header
      → read_header_from g.cache vhd_cached vhd_pos g.vhd_header o n ≡ ok (slice (vhd_byte g) o n)
  footer o n v p le =
      read_header_from_lem g.cache vhd_cached vhd_pos g.vhd_header size o n m.cached v.in_file p
        (omega (arith, v.in_memory))

  get_vdi_lem :
      (o n : ℕ)
      → VdiFits g
      → 0 < n
      → o + n ≤ g.vdi_header_size + size
      → get_vdi g o n ≡ ok (slice (virt_byte g vdi size byte) o n)
  unfolding get_vdi read_vdi_header virt_byte
  get_vdi_lem o n v p le =
      let h = g.vdi_header_size in
      let f = vdi_byte g in
      let i = image_byte g.cache byte in
      elim (Bool-cases (leb h o)) [
        | inl behind ↦ ground (
          arith,
          slice-joined_right h f i o n (omega (arith, leb→le _ _ behind)),
          read_image_lem m (o - h) n (omega (arith, leb→le _ _ behind)),
        )
        | inr before ↦ elim (Bool-cases (ltb h (o + n))) [
          | inl both ↦ ground (
            arith,
            m.small,
            v.small,
            slice-joined_both h f i o n (omega (arith, leb→lt _ _ before))
                (omega (arith, ltb→lt _ _ both)),
            header o (h - o) v (omega (arith, leb→lt _ _ before))
                (omega (arith, leb→lt _ _ before)),
            read_image_lem m 0 (n - (h - o)) (omega (arith, leb→lt _ _ before)),
          )
          | inr only ↦ ground (
            arith,
            m.small,
            v.small,
            slice-joined_left h f i o n (omega (arith, ltb→le _ _ only)),
            header o n v p (omega (arith, ltb→le _ _ only)),
          )
        ]
      ]

  get_vhd_lem :
      (o n : ℕ)
      → VhdFits g
      → 0 < n
      → o + n ≤ size + sizeof_vhd_header
      → get_vhd g size o n ≡ ok (slice (virt_byte g vhd size byte) o n)
  unfolding get_vhd read_vhd_footer virt_byte
  get_vhd_lem o n v p le =
      let f = image_byte g.cache byte in
      let t = vhd_byte g in
      elim (Bool-cases (leb size o)) [
        | inl behind ↦
            let at : o + (n - n) - size ≡ o - size = omega arith in
            ground (
              arith,
              slice-joined_right size f t o n (leb→le _ _ behind),
              none_read g o n,
              at,
              footer (o - size) n v p (omega (arith, leb→le _ _ behind)),
            )
        | inr before ↦ elim (Bool-cases (ltb size (o + n))) [
          | inl both ↦
              let later : sub64 (add64 o n) size ≡ o + n - size =
                omega (arith, m.small, ltb→lt _ _ both) in
              let now : n - (o + n - size) ≡ size - o =
                omega (arith, ltb→lt _ _ both, leb→lt _ _ before) in
              let at : o + (size - o) - size ≡ 0 = omega (arith, leb→lt _ _ before) in
              let rest : n - (size - o) ≡ o + n - size = omega (arith, leb→lt _ _ before) in
              ground (
                arith,
                m.small,
                later,
                now,
                at,
                rest,
                slice-joined_both size f t o n (omega (arith, leb→lt _ _ before))
                    (omega (arith, ltb→lt _ _ both)),
                read_image_lem m o (size - o) (omega (arith, leb→lt _ _ before)),
                footer 0 (o + n - size) v (omega (arith, ltb→lt _ _ both)) (omega arith),
              )
          | inr only ↦ ground (
            arith,
            m.small,
            slice-joined_left size f t o n (ltb→le _ _ only),
            read_image_lem m o n (ltb→le _ _ only),
          )
        ]
      ]

  get_by_type_lem :
      (t : VirtImageType) (o n : ℕ)
      → TypeFits g t
      → 0 < n
      → o + n ≤ size + extra_size g t
      → get_by_type g t size o n ≡ ok (slice (virt_byte g t size byte) o n)
  unfolding get_by_type virt_byte
  get_by_type_lem vdi o n v p le = get_vdi_lem o n v p (omega (arith, v.sized))
  get_by_type_lem vhd o n v p le = get_vhd_lem o n v p le
  get_by_type_lem dd o n v p le = read_image_lem m o n (omega arith)
  get_by_type_lem dmg o n v p le = read_image_lem m o n (omega arith)
  get_by_type_lem vmdk o n v p le = read_image_lem m o n (omega arith)
  get_by_type_lem vmdks o n v p le = read_image_lem m o n (omega arith)

abbrev pub virt_size : XmountData → ℕ → ℕ
virt_size g size = size + extra_size g g.virt_image_type

-- A mounted image that can be read: the cache and the headers fit, and the image size is 0, which
-- stands for "not known yet", or that of the virtual image.
pub record IsMounted (g : XmountData) (size : ℕ) (byte : ℕ → ℕ) : Type 0 where
  pub mounted : Mounted g size byte
  pub typed : TypeFits g g.virt_image_type
  pub headers_small : extra_size g g.virt_image_type < 2 ^ 32
  pub known : (g.image_size ≡ 0) ⊎ (g.image_size ≡ virt_size g size)

pub get_virt_image_size_lem :
    (g : XmountData) {size : ℕ} {byte : ℕ → ℕ}
    → IsMounted g size byte
    → get_virt_image_size g ≡ some (virt_size g size, record g { image_size = virt_size g size })
unfolding get_virt_image_size
get_virt_image_size_lem g {size} v = elim (Bool-cases (g.image_size == 0)) [
  | inl unknown ↦
      let wrap : add64 size (extra_size g g.virt_image_type) ≡ virt_size g size =
        omega (arith, v.mounted.small, v.headers_small) in
      rw (unknown, get_virt_image_size, get_morphed_image_size_lem g v.mounted.morphed)
        (ap (λ s. some (s, record g { image_size = s })) wrap)
  | inr set ↦
      let e : g.image_size ≡ virt_size g size = ground (arith, v.known) in
      rw (set, get_virt_image_size) (ap (λ s. some (s, record g { image_size = s })) e)
]

-- Knowing the size changes nothing else.
TypeFits-sized :
    (g : XmountData) (s : ℕ) (t : VirtImageType)
    → TypeFits g t
    → TypeFits (record g { image_size = s }) t
TypeFits-sized g s vdi f = record {
  sized = f.sized;
  in_memory = f.in_memory;
  small = f.small;
  in_file = f.in_file;
}
TypeFits-sized g s vhd f = record { in_memory = f.in_memory; in_file = f.in_file }
TypeFits-sized g s dd f = omega arith
TypeFits-sized g s dmg f = omega arith
TypeFits-sized g s vmdk f = omega arith
TypeFits-sized g s vmdks f = omega arith

extra_size-sized :
    (g : XmountData) (s : ℕ) (t : VirtImageType)
    → extra_size (record g { image_size = s }) t ≡ extra_size g t
extra_size-sized g s vdi = refl
extra_size-sized g s vhd = refl
extra_size-sized g s _ = refl

pub virt_byte-sized :
    (g : XmountData) (s : ℕ) (t : VirtImageType) (size : ℕ) (byte : ℕ → ℕ)
    → virt_byte (record g { image_size = s }) t size byte ≡ virt_byte g t size byte
unfolding virt_byte
virt_byte-sized g s vdi size byte = refl
virt_byte-sized g s vhd size byte = refl
virt_byte-sized g s _ size byte = refl

Mounted-sized :
    {g : XmountData} {size : ℕ} {byte : ℕ → ℕ} (s : ℕ)
    → Mounted g size byte
    → Mounted (record g { image_size = s }) size byte
Mounted-sized s m = record { morphed = m.morphed; small = m.small; cached = m.cached }

-- For a request of at least one byte whose end does not wrap, `GetVirtImageData` returns the bytes
-- of the virtual image from the offset on, cut off at its end, and none at or behind the end: those
-- of the header or footer and of the blocks in the cache file where it holds them, and those of the
-- morphed image and of the header in memory elsewhere. Of the state only the image size changes.
pub get_virt_image_data_lem :
    (g : XmountData) {size : ℕ} {byte : ℕ → ℕ} (offset n : ℕ)
    → IsMounted g size byte
    → 0 < n
    → offset + n < 2 ^ 64
    → get_virt_image_data g offset n
      ≡ ok (
        slice (virt_byte g g.virt_image_type size byte) offset (min n (virt_size g size - offset)),
        record g { image_size = virt_size g size },
      )
unfolding get_virt_image_data
get_virt_image_data_lem g {size} {byte} offset n v p small =
    let s = virt_size g size in
    let g' : XmountData = record g { image_size = s } in
    let t = g.virt_image_type in
    let m = Mounted-sized s v.mounted in
    let limit : s < 2 ^ 64 = omega (arith, v.mounted.small, v.headers_small) in
    elim (Bool-cases (leb s offset)) [
      | inl behind ↦
          let e : min n (s - offset) ≡ 0 = omega (arith, leb→le _ _ behind) in
          rw (get_virt_image_size_lem g v, get_virt_image_data, behind, e) (unfold slice in refl)
      | inr before ↦
          let cut : (if ltb s (add64 offset n) then sub64 s offset else n) ≡ min n (s - offset) =
            cut_lem s offset n small limit (leb→lt _ _ before) in
          let whole =
            get_by_type_lem m t offset (min n (s - offset)) (TypeFits-sized g s t v.typed)
              (omega (arith, leb→lt _ _ before))
              (omega (arith, extra_size-sized g s t, leb→lt _ _ before)) in
          rw
            (
              get_virt_image_size_lem g v,
              get_virt_image_data,
              before,
              get_morphed_image_size_lem g' m.morphed,
              cut,
              whole,
              virt_byte-sized g s t size byte,
            )
            refl
    ]
  where
    cut_lem :
        (s offset n : ℕ)
        → offset + n < 2 ^ 64
        → s < 2 ^ 64
        → offset < s
        → (if ltb s (add64 offset n) then sub64 s offset else n) ≡ min n (s - offset)
    cut_lem s offset n small limit lt = ground arith
