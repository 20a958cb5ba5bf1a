-- ===== src/VirtImage/Vhd/Footer.antt =====
-- What stands in the footer that `InitVirtVhdHeader` builds.
use xmount.Base.{
  ℕ, ◌+◌, ◌-◌, ◌%◌, ◌^◌, ◌<◌, List, [], ◌∷◌, ◌++◌, ◌≡◌, refl, ap, ◌∙◌, some, arith, length, take,
  drop, u32, be_at, sum,
}
use xmount.VirtImage.State.{XmountData, sizeof_vhd_header, vhd_cached, vhd_pos}
use xmount.VirtImage.Morphed.{IsMorphed, get_morphed_image_size_lem}
use xmount.VirtImage.Get.Content.{HeaderFits}
use xmount.VirtImage.Get.Whole.{VhdFits}
use xmount.VirtImage.Set.{le_bytes}
use xmount.VirtImage.Vhd.{
  Geometry, be_bytes, footer_bytes, add_bytes, geometry, total_sectors, cylinders,
  init_virt_vhd_header,
}

-- The fields of the footer of a VHD file, and its checksum: the complement of the sum of the other
-- bytes.
pub record IsFooter (size time : ℕ) (geom : Geometry) (footer : List ℕ) : Type 0 where
  pub cookie : take 8 footer ≡ 0x63 ∷ 0x6F ∷ 0x6E ∷ 0x65 ∷ 0x63 ∷ 0x74 ∷ 0x69 ∷ 0x78 ∷ []
  pub features : be_at footer 8 4 ≡ 2
  pub file_format : be_at footer 12 4 ≡ 0x00010000
  pub data_offset : be_at footer 16 8 ≡ 2 ^ 64 - 1
  pub creation_time : (be_at footer 24 4 + 0x386D97E0) % 2 ^ 32 ≡ time % 2 ^ 32
  pub size_original : be_at footer 40 8 ≡ size
  pub size_current : be_at footer 48 8 ≡ size
  pub disk_cylinders : be_at footer 56 2 ≡ cylinders geom
  pub disk_heads : be_at footer 58 1 ≡ geom.geom_h
  pub disk_sectors : be_at footer 59 1 ≡ geom.geom_s
  pub disk_type : be_at footer 60 4 ≡ 2
  pub checksum :
      (be_at footer 64 4 + sum (take 64 footer) + sum (drop 68 footer)) % 2 ^ 32 ≡ 2 ^ 32 - 1

add_bytes-sum : (n : ℕ) (bytes : List ℕ) → add_bytes n bytes % 2 ^ 32 ≡ (n + sum bytes) % 2 ^ 32
unfolding add_bytes
add_bytes-sum n [] = ap (λ k. k % 2 ^ 32) (omega arith)
add_bytes-sum n (b ∷ bytes) = add_bytes-sum (u32 (n + b)) bytes ∙ omega arith

add_bytes-lt : (n : ℕ) (bytes : List ℕ) → n < 2 ^ 32 → add_bytes n bytes < 2 ^ 32
unfolding add_bytes
add_bytes-lt n [] lt = lt
add_bytes-lt n (b ∷ bytes) lt = add_bytes-lt (u32 (n + b)) bytes (omega arith)

footer_bytes_lem :
    (time size : ℕ) (geom : Geometry) (lo hi checksum : ℕ)
    → length (footer_bytes time size geom lo hi checksum) ≡ sizeof_vhd_header
unfolding footer_bytes le_bytes be_bytes
footer_bytes_lem time size geom lo hi checksum = refl

module _ (time size : ℕ) (geom : Geometry) (lo hi : ℕ) where
  -- The bytes in front of the checksum and behind it.
  front : List ℕ
  front = take 64 (footer_bytes time size geom lo hi 0)

  back : List ℕ
  back = drop 68 (footer_bytes time size geom lo hi 0)

  split :
      (checksum : ℕ)
      → footer_bytes time size geom lo hi checksum ≡ front ++ (be_bytes 4 checksum ++ back)
  unfolding footer_bytes le_bytes be_bytes front back
  split checksum = refl

  sum-footer_bytes :
      (checksum : ℕ)
      → checksum < 2 ^ 32
      → (be_at (footer_bytes time size geom lo hi checksum) 64 4 ≡ checksum)
        × (take 64 (footer_bytes time size geom lo hi checksum) ≡ front)
        × (drop 68 (footer_bytes time size geom lo hi checksum) ≡ back)
  unfolding footer_bytes le_bytes be_bytes front back
  sum-footer_bytes checksum lt = (omega arith, refl, refl)

  sum_append : (xs ys : List ℕ) → sum (xs ++ ys) ≡ sum xs + sum ys
  sum_append [] ys = omega arith
  sum_append (x ∷ xs) ys = omega (arith, sum_append xs ys)

  sum_others : sum (footer_bytes time size geom lo hi 0) ≡ sum front + sum back
  unfolding be_bytes
  sum_others =
      ap sum (split 0)
      ∙ omega (arith, sum_append front (be_bytes 4 0 ++ back), sum_append (be_bytes 4 0) back)

  checksum_lem :
      (n : ℕ)
      → n ≡ add_bytes 0 (footer_bytes time size geom lo hi 0)
      → n < 2 ^ 32
      → (be_at (footer_bytes time size geom lo hi (2 ^ 32 - 1 - n)) 64 4
            + sum (take 64 (footer_bytes time size geom lo hi (2 ^ 32 - 1 - n)))
            + sum (drop 68 (footer_bytes time size geom lo hi (2 ^ 32 - 1 - n))))
          % 2 ^ 32
        ≡ 2 ^ 32 - 1
  checksum_lem n e lt =
      let (c, xs, ys) = sum-footer_bytes (2 ^ 32 - 1 - n) (omega arith) in
      rw (c, xs, ys)
        (omega (arith, e, lt, sum_others, add_bytes-sum 0 (footer_bytes time size geom lo hi 0)))

  footer_bytes-IsFooter :
      (n : ℕ)
      → n ≡ add_bytes 0 (footer_bytes time size geom lo hi 0)
      → n < 2 ^ 32
      → size < 2 ^ 64
      → IsFooter size time geom (footer_bytes time size geom lo hi (2 ^ 32 - 1 - n))
  unfolding footer_bytes le_bytes be_bytes cylinders
  footer_bytes-IsFooter n e lt small = record {
    cookie = refl;
    features = refl;
    file_format = refl;
    data_offset = refl;
    creation_time = omega arith;
    size_original = omega arith;
    size_current = omega arith;
    disk_cylinders = omega arith;
    disk_heads = omega arith;
    disk_sectors = omega arith;
    disk_type = refl;
    checksum = checksum_lem n e lt;
  }

-- Over a morphed image of less than 2 ^ 64 bytes, and a cached footer that lies in the cache file if
-- there is one, `InitVirtVhdHeader` succeeds. Of the state only the footer changes, which has the size
-- that reads of a VHD file need, the fixed fields and sizes of a VHD footer in big-endian order, the
-- time since 2000, the geometry that the code computes for the size, and for its checksum the
-- complement of the sum of the other bytes.
pub init_virt_vhd_header-IsFooter :
    (g : XmountData) {size : ℕ} {byte : ℕ → ℕ} (time lo hi : ℕ)
    → IsMorphed g.morphing size byte
    → size < 2 ^ 64
    → HeaderFits g.cache vhd_cached vhd_pos 512
    → (footer : List ℕ) × (init_virt_vhd_header g time lo hi
        ≡ some (record g { vhd_header = footer }))
      × VhdFits (record g { vhd_header = footer })
      × IsFooter size time (geometry (total_sectors size)) footer
unfolding init_virt_vhd_header
init_virt_vhd_header-IsFooter g {size} time lo hi m small fits =
    let geom = geometry (total_sectors size) in
    let n = add_bytes 0 (footer_bytes time size geom lo hi 0) in
    let e = footer_bytes_lem time size geom lo hi (2 ^ 32 - 1 - n) in
    (
      footer_bytes time size geom lo hi (2 ^ 32 - 1 - n),
      rw (get_morphed_image_size_lem g m, init_virt_vhd_header) refl,
      record { in_memory = e; in_file = rw e fits },
      footer_bytes-IsFooter time size geom lo hi n refl
          (add_bytes-lt 0 (footer_bytes time size geom lo hi 0) (omega arith)) small,
    )
