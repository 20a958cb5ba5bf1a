-- ===== src/VirtImage/Set/Footed/Whole.antt =====
-- `GetVirtImageData` after `SetVirtImageData`, for a VHD file.
use mathlib.Core.Path.{subst}
use xmount.Base.{
  ℕ, ◌+◌, ◌-◌, ◌^◌, ◌<◌, ◌≡◌, refl, ap, sym, ◌∙◌, inr, some, List, ok, arith, min, joined,
}
use xmount.Base.{length, take, ltb, if◌then◌else◌, add64, sub64, slice, slice_ext}
use xmount.VirtImage.State.{XmountData, Cache, sizeof_vhd_header, vhd, vhd_cached, vhd_pos}
use xmount.VirtImage.Morphed.{extra_size, get_morphed_image_size_lem}
use xmount.VirtImage.Get.{get_virt_image_data}
use xmount.VirtImage.Get.Content.{image_byte, header_byte, virt_byte}
use xmount.VirtImage.Get.Whole.{
  IsMounted, TypeFits, VhdFits, virt_size, get_virt_image_size_lem, get_virt_image_data_lem,
}
use xmount.VirtImage.Set.Store.{set_by_type, set_vhd, set_virt_image_data}
use xmount.VirtImage.Set.Patch.{patched, patched_ap}
use xmount.VirtImage.Set.Invariant.{Writable, Reserved}
use xmount.VirtImage.Set.Plain.{after, set_virt_image_data-step}
use xmount.VirtImage.Set.Footed.{FootedRequest, set_vhd_lem}

vhd-set_by_type :
    (g : XmountData) (c : Cache) (size o : ℕ) (bytes : List ℕ)
    → g.virt_image_type ≡ vhd
    → set_by_type g g.virt_image_type c size o bytes ≡ set_vhd g c size o bytes
unfolding set_by_type
vhd-set_by_type g c size o bytes t = ap (λ k. set_by_type g k c size o bytes) t

vhd-virt_byte :
    (g : XmountData) (c : Cache) (size : ℕ) (byte : ℕ → ℕ) (q : ℕ)
    → g.virt_image_type ≡ vhd
    → g.cache ≡ some c
    → virt_byte g g.virt_image_type size byte q
      ≡ joined size
          (image_byte (some c) byte)
          (header_byte (some c) vhd_cached vhd_pos g.vhd_header)
          q
unfolding virt_byte
vhd-virt_byte g c size byte q t opened =
    ap (λ k. virt_byte g k size byte q) t
    ∙ ap (λ k. joined size (image_byte k byte) (header_byte k vhd_cached vhd_pos g.vhd_header) q)
        opened

vhd-TypeFits : (g : XmountData) → g.virt_image_type ≡ vhd → VhdFits g → TypeFits g g.virt_image_type
vhd-TypeFits g t v = subst (λ k. TypeFits g k) (sym t) v

module _ {g : XmountData} {c : Cache} {size : ℕ} {byte : ℕ → ℕ} {rounds offset : ℕ} (buf : List ℕ)
    (is_vhd : g.virt_image_type ≡ vhd) (mounted : IsMounted g size byte) (opened : g.cache ≡ some c)
    (starts : offset < size + sizeof_vhd_header) (short : offset + length buf < 2 ^ 64)
    (r : FootedRequest g.vhd_header c size rounds offset
      (length (take (min (length buf) (size + sizeof_vhd_header - offset)) buf))) where
  vhd-virt_size : virt_size g size ≡ size + sizeof_vhd_header
  vhd-virt_size = ap (λ k. size + extra_size g k) is_vhd

  after-IsMounted :
      {c' : Cache}
      → Writable c' size
      → (vhd_cached c'.header ≡ 1 → Reserved c' (vhd_pos c'.header) (length g.vhd_header))
      → IsMounted (after g (size + sizeof_vhd_header) c') size byte
  after-IsMounted {c'} w in_file =
      let g' : XmountData = after g (size + sizeof_vhd_header) c' in
      let m = mounted.mounted in
      let extra : extra_size g' g.virt_image_type ≡ sizeof_vhd_header = ap (extra_size g') is_vhd in
      record {
        mounted = record { morphed = m.morphed; small = m.small; cached = w.cached };
        typed =
            vhd-TypeFits g' is_vhd
              (record { in_memory = r.in_memory; in_file = λ here. (in_file here).inside });
        headers_small = omega (arith, extra);
        known = inr (omega (arith, extra));
      }

  -- For a request over a writable cache with room that begins in a VHD file and whose end does not wrap
  -- (see `FootedRequest`), and whose bytes in the image, if there are any, end before the end of the
  -- image, at the end of a block or in a cached block,
  -- `SetVirtImageData` succeeds, returns the number of bytes up to the end of the file, footer
  -- included, and leaves a writable cache; and every later read of at least one byte whose end does
  -- not wrap returns what an array of bytes would hold in which they have been stored, cut off at the
  -- end of the file.
  pub get_virt_image_data-set_vhd :
      (o m : ℕ)
      → 0 < m
      → o + m < 2 ^ 64
      → (c' : Cache) × (set_virt_image_data g offset buf
          ≡ ok (
            record g { image_size = size + sizeof_vhd_header; cache = some c' },
            min (length buf) (size + sizeof_vhd_header - offset),
          ))
        × Writable c' size
        × (get_virt_image_data
              (record g { image_size = size + sizeof_vhd_header; cache = some c' })
              o
              m
            ≡ ok (
              slice
                  (patched offset
                    (take (min (length buf) (size + sizeof_vhd_header - offset)) buf)
                    (virt_byte g g.virt_image_type size byte))
                  o
                  (min m (size + sizeof_vhd_header - o)),
              record g { image_size = size + sizeof_vhd_header; cache = some c' },
            ))
  get_virt_image_data-set_vhd o m p short' =
      let virt : ℕ = size + sizeof_vhd_header in
      let n : ℕ = min (length buf) (virt - offset) in
      let g1 : XmountData = record g { image_size = virt } in
      let morphed = mounted.mounted in
      let (c', done, w, in_file, bytes_at) =
        set_vhd_lem g1 morphed.morphed morphed.small rounds c offset (take n buf) r in
      let g2 : XmountData = after g virt c' in
      let size_lem : virt_size g2 size ≡ virt = ap (λ k. size + extra_size g2 k) is_vhd in
      (
        c',
        set_virt_image_data-step g g1 c c' virt size offset n buf
            (rw vhd-virt_size at (get_virt_image_size_lem g mounted)) (ground (arith, starts))
            cut_lem (get_morphed_image_size_lem g1 morphed.morphed) opened
            (vhd-set_by_type g1 c size offset (take n buf) is_vhd ∙ done),
        w,
        (rw size_lem at (get_virt_image_data_lem g2 o m (after-IsMounted w in_file) p short'))
            ∙ ap (λ bytes. ok (bytes, g2))
                (slice_ext (virt_byte g2 g.virt_image_type size byte)
                  (patched offset (take n buf) (virt_byte g g.virt_image_type size byte)) o o
                  (min m (virt - o))
                  (λ i lt.
                    vhd-virt_byte g2 c' size byte (o + i) is_vhd refl
                    ∙ bytes_at (o + i) (omega arith)
                    ∙ patched_ap offset (take n buf) _ _ (o + i)
                        (sym (vhd-virt_byte g c size byte (o + i) is_vhd opened)))),
      )
    where
      cut_lem :
          (if ltb (size + sizeof_vhd_header) (add64 offset (length buf))
            then sub64 (size + sizeof_vhd_header) offset
            else length buf)
          ≡ min (length buf) (size + sizeof_vhd_header - offset)
      cut_lem = ground (arith, starts, short, mounted.mounted.small)
