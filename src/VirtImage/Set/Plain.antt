-- ===== src/VirtImage/Set/Plain.antt =====
-- `SetVirtImageData` for the types of images that have no header and no footer.
use xmount.Base.{
  ℕ, ◌+◌, ◌-◌, ◌*◌, ◌%◌, ◌^◌, ◌≤◌, ◌<◌, ◌≡◌, refl, ap, ◌∙◌, inl, inr, Option, some, List, arith,
  Bool, true, false, min,
}
use xmount.Base.{
  length, if◌then◌else◌, ltb, leb, take, length-take, add64, sub64, ok, slice, slice_ext,
}
use xmount.VirtImage.State.{
  XmountData, Cache, VirtImageType, dd, dmg, vdi, vmdk, vmdks, vhd, cache_block_size,
}
use xmount.VirtImage.Morphed.{
  extra_size, get_virt_image_size, IsMorphed, get_morphed_image_size, get_morphed_image_size_lem,
}
use xmount.VirtImage.Get.{get_virt_image_data}
use xmount.VirtImage.Get.Content.{virt_byte, image_byte, CacheFits}
use xmount.VirtImage.Get.Whole.{
  IsMounted, TypeFits, virt_size, get_virt_image_size_lem, get_virt_image_data_lem,
}
use xmount.VirtImage.Set.{write_image}
use xmount.VirtImage.Set.Store.{set_by_type, set_cache, set_virt_image_data}
use xmount.VirtImage.Set.Patch.{patched}
use xmount.VirtImage.Set.Invariant.{Writable}
use xmount.VirtImage.Set.Loop.{write_image_lem}
use xmount.VirtImage.Set.Written.{Stops, Written}

-- The types whose file is the image alone.
abbrev pub plain : VirtImageType → Bool
plain vdi = false
plain vhd = false
plain _ = true

plain-extra_size : (g : XmountData) (t : VirtImageType) → plain t ≡ true → extra_size g t ≡ 0
plain-extra_size g dd p = refl
plain-extra_size g dmg p = refl
plain-extra_size g vmdk p = refl
plain-extra_size g vmdks p = refl
plain-extra_size g vdi p = absurd (ground (arith, p))
plain-extra_size g vhd p = absurd (ground (arith, p))

plain-set_by_type :
    (g : XmountData) (t : VirtImageType) (c : Cache) (size o : ℕ) (bytes : List ℕ)
    → plain t ≡ true
    → set_by_type g t c size o bytes ≡ write_image g size c o bytes
unfolding set_by_type
plain-set_by_type g dd c size o bytes p = refl
plain-set_by_type g dmg c size o bytes p = refl
plain-set_by_type g vmdk c size o bytes p = refl
plain-set_by_type g vmdks c size o bytes p = refl
plain-set_by_type g vdi c size o bytes p = absurd (ground (arith, p))
plain-set_by_type g vhd c size o bytes p = absurd (ground (arith, p))

pub plain-virt_byte :
    (g : XmountData) (t : VirtImageType) (size : ℕ) (byte : ℕ → ℕ)
    → plain t ≡ true
    → virt_byte g t size byte ≡ image_byte g.cache byte
unfolding virt_byte
plain-virt_byte g dd size byte p = refl
plain-virt_byte g dmg size byte p = refl
plain-virt_byte g vmdk size byte p = refl
plain-virt_byte g vmdks size byte p = refl
plain-virt_byte g vdi size byte p = absurd (ground (arith, p))
plain-virt_byte g vhd size byte p = absurd (ground (arith, p))

plain-TypeFits : (g : XmountData) (t : VirtImageType) → plain t ≡ true → TypeFits g t
plain-TypeFits g dd p = omega arith
plain-TypeFits g dmg p = omega arith
plain-TypeFits g vmdk p = omega arith
plain-TypeFits g vmdks p = omega arith
plain-TypeFits g vdi p = absurd (ground (arith, p))
plain-TypeFits g vhd p = absurd (ground (arith, p))

-- What a write needs: a mounted image of a plain type, over a writable cache with room for the
-- blocks that are written, and a request of at least one byte that begins in the image, whose end
-- does not wrap.
pub record Request (g : XmountData) (c : Cache) (size : ℕ) (byte : ℕ → ℕ) (rounds offset n : ℕ)
    : Type 0 where
  pub mounted : IsMounted g size byte
  pub opened : g.cache ≡ some c
  pub is_plain : plain g.virt_image_type ≡ true
  pub writable : Writable c size
  pub starts : offset < size
  pub short : offset + n < 2 ^ 64
  pub fits : offset % cache_block_size + min n (size - offset) ≤ rounds * cache_block_size
  pub room : c.file.size + rounds * cache_block_size ≤ c.file.room
  pub stops : Stops c size (offset + min n (size - offset))

abbrev pub after : XmountData → ℕ → Cache → XmountData
after g size c = record g { image_size = size; cache = some c }

-- An image of a plain type stays mounted when its size gets known and the cache is another one.
pub plain-IsMounted :
    (g : XmountData) {size : ℕ} {byte : ℕ → ℕ} (cache : Option Cache)
    → plain g.virt_image_type ≡ true
    → IsMounted g size byte
    → CacheFits cache size
    → IsMounted (record g { image_size = size; cache = cache }) size byte
plain-IsMounted g {size} cache p v fits =
    let g' : XmountData = record g { image_size = size; cache = cache } in
    let none : extra_size g' g.virt_image_type ≡ 0 = plain-extra_size g' g.virt_image_type p in
    let m = v.mounted in
    record {
      mounted = record { morphed = m.morphed; small = m.small; cached = fits };
      typed = plain-TypeFits g' g.virt_image_type p;
      headers_small = omega (arith, none);
      known = inr (omega (arith, none));
    }

-- It is mounted when the cache file is opened.
pub mounted-plain :
    (g : XmountData) {size : ℕ} {byte : ℕ → ℕ} (cache : Option Cache)
    → plain g.virt_image_type ≡ true
    → IsMorphed g.morphing size byte
    → size < 2 ^ 51
    → g.image_size ≡ 0
    → CacheFits cache size
    → IsMounted (record g { cache = cache }) size byte
mounted-plain g {size} cache p morphed small unknown fits =
    let g' : XmountData = record g { cache = cache } in
    let none : extra_size g' g.virt_image_type ≡ 0 = plain-extra_size g' g.virt_image_type p in
    record {
      mounted = record { morphed = morphed; small = small; cached = fits };
      typed = plain-TypeFits g' g.virt_image_type p;
      headers_small = omega (arith, none);
      known = inl unknown;
    }

-- The size of its file.
pub plain-virt_size :
    (g : XmountData) (size : ℕ) → plain g.virt_image_type ≡ true → virt_size g size ≡ size
plain-virt_size g size p = omega (arith, plain-extra_size g g.virt_image_type p)

pub set_virt_image_data-step :
    (g g' : XmountData) (c c' : Cache) (virt size offset n : ℕ) (buf : List ℕ)
    → get_virt_image_size g ≡ some (virt, g')
    → leb virt offset ≡ false
    → (if ltb virt (add64 offset (length buf)) then sub64 virt offset else length buf) ≡ n
    → get_morphed_image_size g' ≡ some size
    → g'.cache ≡ some c
    → set_by_type g' g'.virt_image_type c size offset (take n buf) ≡ ok c'
    → set_virt_image_data g offset buf ≡ ok (record g' { cache = some c' }, n)
unfolding set_virt_image_data set_cache
set_virt_image_data-step g g' c c' virt size offset n buf known inside cut image opened done =
    rw (known, set_virt_image_data, inside, image, opened, cut, done) refl

module _ {g : XmountData} {c : Cache} {size : ℕ} {byte : ℕ → ℕ} {rounds offset : ℕ} (buf : List ℕ)
    (r : Request g c size byte rounds offset (length buf)) where
  pub set_lem :
      (c' : Cache) × (set_virt_image_data g offset buf
        ≡ ok (after g size c', min (length buf) (size - offset)))
      × Written c c' size byte rounds offset (take (min (length buf) (size - offset)) buf)
  set_lem =
      let n : ℕ = min (length buf) (size - offset) in
      let e : length (take n buf) ≡ n = omega (arith, length-take n buf) in
      let g' : XmountData = record g { image_size = size } in
      let m = r.mounted.mounted in
      let none : virt_size g size ≡ size =
        omega (arith, plain-extra_size g g.virt_image_type r.is_plain) in
      let (c', done, w) =
        write_image_lem g' m.morphed m.small rounds c offset (take n buf) (omega (arith, e, r.fits))
          (omega (arith, e, r.starts)) r.writable r.room (rw e r.stops) in
      (
        c',
        set_virt_image_data-step g g' c c' size size offset n buf
            (rw none at (get_virt_image_size_lem g r.mounted)) (ground (arith, r.starts)) cut_lem
            (get_morphed_image_size_lem g' m.morphed) r.opened
            (plain-set_by_type g' g.virt_image_type c size offset (take n buf) r.is_plain ∙ done),
        w,
      )
    where
      cut_lem :
          (if ltb size (add64 offset (length buf)) then sub64 size offset else length buf)
          ≡ min (length buf) (size - offset)
      cut_lem = ground (arith, r.starts, r.short, r.mounted.mounted.small)

  after-IsMounted : {c' : Cache} → Writable c' size → IsMounted (after g size c') size byte
  after-IsMounted {c'} w = plain-IsMounted g (some c') r.is_plain r.mounted w.cached

  pub after-byte :
      {c' : Cache} {bytes : List ℕ} (q : ℕ)
      → Written c c' size byte rounds offset bytes
      → q < size
      → virt_byte (after g size c') g.virt_image_type size byte q
        ≡ patched offset bytes (virt_byte g g.virt_image_type size byte) q
  after-byte {c'} q w lt =
      rw
        (
          plain-virt_byte g g.virt_image_type size byte r.is_plain,
          plain-virt_byte (after g size c') g.virt_image_type size byte r.is_plain,
          r.opened,
        )
        (w.image q lt)

  -- For a request on a mounted image of a plain type over a writable cache with room (see `Request`),
  -- whose bytes in the image end before the end of the image, at the end of a block or in a cached
  -- block, `SetVirtImageData` succeeds,
  -- returns the number of bytes up to the end of the image, and leaves a writable cache; and every
  -- later read of at least one byte whose end does not wrap returns what an array of bytes would
  -- hold in which they have been stored, cut off at the end of the image.
  pub get_virt_image_data-set_virt_image_data :
      (o m : ℕ)
      → 0 < m
      → o + m < 2 ^ 64
      → (c' : Cache) × (set_virt_image_data g offset buf
          ≡ ok (record g { image_size = size; cache = some c' }, min (length buf) (size - offset)))
        × Writable c' size
        × (get_virt_image_data (record g { image_size = size; cache = some c' }) o m
            ≡ ok (
              slice
                  (patched offset
                    (take (min (length buf) (size - offset)) buf)
                    (virt_byte g g.virt_image_type size byte))
                  o
                  (min m (size - o)),
              record g { image_size = size; cache = some c' },
            ))
  get_virt_image_data-set_virt_image_data o m p short =
      let (c', done, w) = set_lem in
      let g' = after g size c' in
      let t = g.virt_image_type in
      let none : virt_size g' size ≡ size = omega (arith, plain-extra_size g' t r.is_plain) in
      (
        c',
        done,
        w.writable,
        (rw none at (get_virt_image_data_lem g' o m (after-IsMounted w.writable) p short))
            ∙ ap (λ bytes. ok (bytes, g'))
                (slice_ext (virt_byte g' t size byte)
                  (patched offset (take (min (length buf) (size - offset)) buf)
                    (virt_byte g t size byte))
                  o o (min m (size - o)) (λ i lt. after-byte (o + i) w (omega arith))),
      )

  -- What is left of the request when the image size is known and the bytes are cut off.
  pub sized-Request :
      (get_virt_image_size g ≡ some (size, record g { image_size = size }))
      × Request
          (record g { image_size = size })
          c
          size
          byte
          rounds
          offset
          (length (take (min (length buf) (size - offset)) buf))
  sized-Request =
      let n : ℕ = min (length buf) (size - offset) in
      let e : length (take n buf) ≡ n = omega (arith, length-take n buf) in
      let g' : XmountData = record g { image_size = size } in
      let t = g.virt_image_type in
      let none : extra_size g' t ≡ 0 = plain-extra_size g' t r.is_plain in
      let none' : virt_size g size ≡ size = omega (arith, plain-extra_size g t r.is_plain) in
      let m = r.mounted.mounted in
      (
        rw none' at (get_virt_image_size_lem g r.mounted),
        record {
          mounted = plain-IsMounted g g.cache r.is_plain r.mounted m.cached;
          opened = r.opened;
          is_plain = r.is_plain;
          writable = r.writable;
          starts = r.starts;
          short = omega (arith, e, r.short);
          fits = omega (arith, e, r.fits);
          room = r.room;
          stops =
              (let same : min (length (take n buf)) (size - offset) ≡ n = omega (arith, e) in
                rw same r.stops);
        },
      )
