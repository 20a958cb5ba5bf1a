-- ===== src/Fuse/Image.antt =====
-- `FuseWrite` and `FuseRead` on the path of the image.
use xmount.Base.{ℕ, ◌+◌, ◌-◌, ◌^◌, ◌<◌, ◌≡◌, refl, ap, true, some, List, [], ◌∷◌, arith, min}
use xmount.Base.{ltb, ◌==◌, if◌then◌else◌, add64, length, take, length-take, slice, ok}
use xmount.VirtImage.State.{XmountData, Cache}
use xmount.VirtImage.Morphed.{get_virt_image_size}
use xmount.VirtImage.Get.Content.{virt_byte}
use xmount.VirtImage.Get.Whole.{virt_byte-sized}
use xmount.VirtImage.Set.Store.{set_virt_image_data}
use xmount.VirtImage.Set.Patch.{patched}
use xmount.VirtImage.Set.Plain.{Request, sized-Request, get_virt_image_data-set_virt_image_data}
use xmount.Fuse.{FuseState, str_eq, fuse_read, fuse_write, write_image_file, finish_write}

pub take-take-length : (k : ℕ) (xs : List ℕ) → take (length (take k xs)) (take k xs) ≡ take k xs
take-take-length k xs = take-length (take k xs)
  where
    take-length : (ys : List ℕ) → take (length ys) ys ≡ ys
    take-length [] = refl
    take-length (y ∷ ys) = ap (◌∷◌ y) (take-length ys)

pub write_image_file-step :
    (s : FuseState) (g1 g2 : XmountData) (buf : List ℕ) (size offset k : ℕ)
    → get_virt_image_size s.image ≡ some (size, g1)
    → ltb offset size ≡ true
    → (if ltb size (add64 offset (length buf)) then size - offset else length buf) ≡ k
    → set_virt_image_data g1 offset (take k buf) ≡ ok (g2, k)
    → write_image_file s buf offset ≡ ok (record s { image = g2 }, k)
unfolding write_image_file finish_write
write_image_file-step s g1 g2 buf size offset k known inside cut done =
    let same : (k == k) ≡ true = ground arith in
    rw (known, write_image_file, inside, cut, done, finish_write, cut, same) refl

-- For a request on a mounted image of a plain type over a writable cache with room (see `Request`),
-- made on the path of the image, whose bytes in the image end before the end of the image, at the end
-- of a block or in a cached block, `FuseWrite` returns the number of bytes up to the end of the image, and every later `FuseRead` of
-- at least one byte whose end does not wrap returns what an array of bytes would hold in which they
-- have been stored, cut off at the end of the image.
pub fuse_read-fuse_write :
    (garbage : ℕ → ℕ) (s : FuseState) (p_path buf : List ℕ) {c : Cache} {size : ℕ} {byte : ℕ → ℕ}
    {rounds offset : ℕ} (o m : ℕ)
    → str_eq p_path s.virtual_image_path ≡ true
    → Request s.image c size byte rounds offset (length buf)
    → 0 < m
    → o + m < 2 ^ 64
    → (s' : FuseState) × (fuse_write garbage s p_path buf offset
        ≡ ok (s', min (length buf) (size - offset)))
      × (fuse_read s' p_path m o
          ≡ ok (
            slice
                (patched offset
                  (take (min (length buf) (size - offset)) buf)
                  (virt_byte s.image s.image.virt_image_type size byte))
                o
                (min m (size - o)),
            s',
          ))
unfolding fuse_read fuse_write
fuse_read-fuse_write garbage s p_path buf {c} {size} {byte} {rounds} {offset} o m on_path r
      some_bytes short =
    let k : ℕ = min (length buf) (size - offset) in
    let g1 : XmountData = record s.image { image_size = size } in
    let (known, r1) = sized-Request buf r in
    let n : length (take k buf) ≡ k = omega (arith, length-take k buf) in
    let all : min (length (take k buf)) (size - offset) ≡ k = omega (arith, n) in
    let (c', done, w, reads) =
      get_virt_image_data-set_virt_image_data (take k buf) r1 o m some_bytes short in
    let once : take k (take k buf) ≡ take k buf = rw n at (take-take-length k buf) in
    let later =
      rw (all, once, virt_byte-sized s.image size s.image.virt_image_type size byte) at reads in
    let g2 : XmountData = record g1 { cache = some c' } in
    let s' : FuseState = record s { image = g2 } in
    (
      s',
      rw (on_path, fuse_write)
          (write_image_file-step s g1 g2 buf size offset k known (ground (arith, r.starts))
            (ground (arith, r.starts, r.short, r.mounted.mounted.small)) (rw all at done)),
      rw (on_path, fuse_read, later) refl,
    )
