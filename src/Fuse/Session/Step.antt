-- ===== src/Fuse/Session/Step.antt =====
-- One call on the path of the image.
use xmount.Base.{
  ℕ, ◌+◌, ◌-◌, ◌*◌, ◌/◌, ◌%◌, ◌^◌, ◌≤◌, ◌<◌, ◌≡◌, ◌⊎◌, refl, ap, sym, ◌∙◌, true, false, inl, inr,
  some, List, arith, min, ltb, length, take, length-take, slice, slice_ext, ok,
}
use xmount.VirtImage.State.{XmountData, Cache, cache_block_size}
use xmount.VirtImage.Morphed.{get_virt_image_size}
use xmount.VirtImage.Get.{get_virt_image_data}
use xmount.VirtImage.Get.Content.{virt_byte}
use xmount.VirtImage.Get.Whole.{
  IsMounted, virt_byte-sized, get_virt_image_data_lem, get_virt_image_size_lem,
}
use xmount.VirtImage.Set.Patch.{patched, patched-outside, patched_ap}
use xmount.VirtImage.Set.Invariant.{Writable}
use xmount.VirtImage.Set.Written.{Written}
use xmount.VirtImage.Set.Plain.{
  Request, plain, after, set_lem, sized-Request, after-byte, plain-IsMounted, plain-virt_size,
}
use xmount.VirtImage.CacheFile.{needed_blocks}
use xmount.VirtImage.CacheFile.Synced.{Loadable}
use xmount.Fuse.{FuseState, str_eq, fuse_read, fuse_write, write_image_file}
use xmount.Fuse.Image.{take-take-length, write_image_file-step}
use xmount.Fuse.Session.{Call, reads, writes}

-- The state of a mounted image of a plain type whose bytes are those of the array `f`, over the
-- cache `c`, with room for `budget` more blocks in the cache file.
pub record Shows (s : FuseState) (c : Cache) (size : ℕ) (byte f : ℕ → ℕ) (budget : ℕ) : Type 0 where
  pub mounted : IsMounted s.image size byte
  pub opened : s.image.cache ≡ some c
  pub is_plain : plain s.image.virt_image_type ≡ true
  pub writable : Writable c size
  pub loadable : Loadable c
  pub blocks : length c.blkidx ≡ needed_blocks size
  pub room : c.file.size + budget * cache_block_size ≤ c.file.room
  pub holds : (q : ℕ) → q < size → virt_byte s.image s.image.virt_image_type size byte q ≡ f q

-- A call whose end does not wrap: a read of at least one byte; a write, of which what lies in the
-- image ends before the end of the image or at the end of a block.
abbrev pub Legal : ℕ → Call → Type 0
Legal size (reads n offset) = (0 < n) × (offset + n < 2 ^ 64)
Legal size (writes buf offset) =
    (offset + length buf < 2 ^ 64)
    × ((offset + length buf < size)
        ⊎ ((offset + min (length buf) (size - offset)) % cache_block_size ≡ 0))

fuse_read-step :
    (s : FuseState) (p_path buf : List ℕ) (n offset : ℕ) (g : XmountData)
    → str_eq p_path s.virtual_image_path ≡ true
    → get_virt_image_data s.image offset n ≡ ok (buf, g)
    → fuse_read s p_path n offset ≡ ok (buf, record s { image = g })
unfolding fuse_read
fuse_read-step s p_path buf n offset g on_path done = rw (on_path, fuse_read, done) refl

-- A write behind the end.
fuse_write_behind :
    (garbage : ℕ → ℕ) (s : FuseState) (p_path buf : List ℕ) (offset size : ℕ) (g : XmountData)
    → str_eq p_path s.virtual_image_path ≡ true
    → get_virt_image_size s.image ≡ some (size, g)
    → size ≤ offset
    → fuse_write garbage s p_path buf offset ≡ ok (record s { image = g }, 0)
unfolding fuse_write write_image_file
fuse_write_behind garbage s p_path buf offset size g on_path known le =
    let behind : ltb offset size ≡ false = ground arith in
    rw (on_path, fuse_write, known, write_image_file, behind) refl

module _ {s : FuseState} {c : Cache} {size : ℕ} {byte f : ℕ → ℕ} {budget : ℕ} (p_path : List ℕ)
    (on_path : str_eq p_path s.virtual_image_path ≡ true) (h : Shows s c size byte f budget) where
  pub read_lem :
      (n offset : ℕ)
      → 0 < n
      → offset + n < 2 ^ 64
      → fuse_read s p_path n offset
        ≡ ok (
          slice f offset (min n (size - offset)),
          record s { image = record s.image { image_size = size } },
        )
  read_lem n offset some_bytes short =
      let g = s.image in
      let same = plain-virt_size g size h.is_plain in
      fuse_read-step s p_path _ n offset _ on_path (
        rw same at (get_virt_image_data_lem g offset n h.mounted some_bytes short)
        ∙ ap (λ xs. ok (xs, record g { image_size = size }))
            (slice_ext (virt_byte g g.virt_image_type size byte) f offset offset
              (min n (size - offset)) (λ i lt. h.holds (offset + i) (omega arith))))

  -- When the size gets known, nothing else changes.
  pub sized-Shows :
      (f' : ℕ → ℕ)
      → ((q : ℕ) → f q ≡ f' q)
      → Shows (record s { image = record s.image { image_size = size } }) c size byte f' budget
  sized-Shows f' e = record {
    mounted = plain-IsMounted s.image s.image.cache h.is_plain h.mounted h.mounted.mounted.cached;
    opened = h.opened;
    is_plain = h.is_plain;
    writable = h.writable;
    loadable = h.loadable;
    blocks = h.blocks;
    room = h.room;
    holds = λ q lt.
        ap (λ g. g q) (virt_byte-sized s.image size s.image.virt_image_type size byte)
        ∙ h.holds q lt
        ∙ e q;
  }

  -- The number of bytes of a request that lie in the image.
  request :
      (buf : List ℕ) (offset : ℕ)
      → Legal size (writes buf offset)
      → offset < size
      → length buf / cache_block_size + 2 ≤ budget
      → Request s.image c size byte (length buf / cache_block_size + 2) offset (length buf)
  request buf offset (short, ends) lt afford = record {
    mounted = h.mounted;
    opened = h.opened;
    is_plain = h.is_plain;
    writable = h.writable;
    starts = lt;
    short = short;
    fits = omega arith;
    room = omega (arith, h.room);
    stops = elim ends [ inl before ↦ inl (omega arith) | inr whole ↦ inr (inl whole) ];
  }

  pub write_inside :
      (garbage : ℕ → ℕ) (buf : List ℕ) (offset budget' : ℕ)
      → Legal size (writes buf offset)
      → offset < size
      → length buf / cache_block_size + 2 + budget' ≤ budget
      → (c' : Cache) × (fuse_write garbage s p_path buf offset
          ≡ ok (record s { image = after s.image size c' }, min (length buf) (size - offset)))
        × Shows
            (record s { image = after s.image size c' })
            c'
            size
            byte
            (patched offset (take (min (length buf) (size - offset)) buf) f)
            budget'
  unfolding fuse_write
  write_inside garbage buf offset budget' legal lt afford =
      let g = s.image in
      let t = g.virt_image_type in
      let k : ℕ = min (length buf) (size - offset) in
      let r = request buf offset legal lt (omega arith) in
      let g1 : XmountData = record g { image_size = size } in
      let (known, r1) = sized-Request buf r in
      let n : length (take k buf) ≡ k = omega (arith, length-take k buf) in
      let all : min (length (take k buf)) (size - offset) ≡ k = omega (arith, n) in
      let once : take k (take k buf) ≡ take k buf = rw n at (take-take-length k buf) in
      let (c', done, w) = set_lem (take k buf) r1 in
      let w' : Written c c' size byte (length buf / cache_block_size + 2) offset (take k buf) =
        rw (all, once) at w in
      let g2 : XmountData = record g1 { cache = some c' } in
      (
        c',
        rw (on_path, fuse_write)
            (write_image_file-step s g1 g2 buf size offset k known (ground (arith, lt))
              (ground (arith, lt, r.short, r.mounted.mounted.small)) (rw all at done)),
        record {
          mounted = plain-IsMounted g (some c') h.is_plain h.mounted w'.writable.cached;
          opened = refl;
          is_plain = h.is_plain;
          writable = w'.writable;
          loadable = w'.loadable h.loadable;
          blocks = w'.same_index ∙ h.blocks;
          room = omega (arith, w'.bounded, w'.same_room, h.room);
          holds = λ q lt'.
              after-byte (take k buf) r1 q w' lt'
              ∙ patched_ap offset (take k buf) (virt_byte g1 t size byte) f q
                  (ap (λ x. x q) (virt_byte-sized g size t size byte) ∙ h.holds q lt');
        },
      )

  pub write_behind :
      (garbage : ℕ → ℕ) (buf : List ℕ) (offset : ℕ)
      → size ≤ offset
      → (fuse_write garbage s p_path buf offset
          ≡ ok (
            record s { image = record s.image { image_size = size } },
            min (length buf) (size - offset),
          ))
        × Shows
            (record s { image = record s.image { image_size = size } })
            c
            size
            byte
            (patched offset (take (min (length buf) (size - offset)) buf) f)
            budget
  write_behind garbage buf offset le =
      let none : min (length buf) (size - offset) ≡ 0 = omega arith in
      let known =
        rw (plain-virt_size s.image size h.is_plain) at
          (get_virt_image_size_lem s.image h.mounted) in
      (
        rw none (fuse_write_behind garbage s p_path buf offset size _ on_path known le),
        sized-Shows _ (λ q. sym (
            patched-outside offset (take (min (length buf) (size - offset)) buf) f q
              (grind (arith, length-take (min (length buf) (size - offset)) buf)))),
      )
