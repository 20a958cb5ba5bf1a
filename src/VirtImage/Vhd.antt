-- ===== src/VirtImage/Vhd.antt =====
-- `InitVirtVhdHeader` of src/xmount.c: the footer of a virtual VHD file.
pub mod Sectors
pub mod Footer
use xmount.Base.{
  ℕ, zero, suc, ◌+◌, ◌-◌, ◌*◌, ◌/◌, ◌%◌, ◌^◌, Bool, true, false, Option, none, some, List, [], ◌∷◌,
  ◌++◌,
}
use xmount.Base.{ltb, leb, ◌==◌, if◌then◌else◌, ◌||◌, u16, u32, replicate}
use xmount.VirtImage.State.{XmountData}
use xmount.VirtImage.Morphed.{get_morphed_image_size}
use xmount.VirtImage.Set.{le_bytes}

-- `htobe16`, `htobe32` and `htobe64`, as the `w` bytes in memory.
unfoldable pub be_bytes : ℕ → ℕ → List ℕ
be_bytes zero n = []
be_bytes (suc w) n = (n / 2 ^ (8 * w) % 2 ^ 8) ∷ be_bytes w n

-- `geom_tot_s`
unfoldable pub total_sectors : ℕ → ℕ
total_sectors orig_image_size =
    if ltb 136899993600 orig_image_size
    then 267382800
    else orig_image_size / 512 + (if orig_image_size % 512 == 0 then 0 else 1)

-- `geom_c_x_h`, `geom_h` and `geom_s`
pub record Geometry : Type 0 where
  pub geom_c_x_h : ℕ
  pub geom_h : ℕ
  pub geom_s : ℕ

-- `geom_h` for 17 sectors per track, in the eight bits of its type.
unfoldable pub heads_17 : ℕ → ℕ
heads_17 geom_c_x_h =
    let geom_h : ℕ = (geom_c_x_h + 1023) / 1024 % 2 ^ 8 in if ltb geom_h 4 then 4 else geom_h

-- The last two `if`s of the calculation.
unfoldable pub geometry_31 : ℕ → Geometry → Geometry
geometry_31 geom_tot_s g =
    if leb (g.geom_h * 1024) g.geom_c_x_h || ltb 16 g.geom_h
    then record { geom_c_x_h = geom_tot_s / 31; geom_h = 16; geom_s = 31 }
    else g

unfoldable pub geometry_63 : ℕ → Geometry → Geometry
geometry_63 geom_tot_s g =
    if leb (g.geom_h * 1024) g.geom_c_x_h
    then record { geom_c_x_h = geom_tot_s / 63; geom_h = 16; geom_s = 63 }
    else g

unfoldable pub geometry : ℕ → Geometry
geometry geom_tot_s =
    if leb 66059280 geom_tot_s
    then record { geom_c_x_h = geom_tot_s / 255; geom_h = 16; geom_s = 255 }
    else (let c_x_h : ℕ = geom_tot_s / 17 in
        geometry_63 geom_tot_s (
          geometry_31 geom_tot_s
            (record { geom_c_x_h = c_x_h; geom_h = heads_17 c_x_h; geom_s = 17 })))

-- `geom_c`, in the sixteen bits of its type.
unfoldable pub cylinders : Geometry → ℕ
cylinders g = u16 (g.geom_c_x_h / g.geom_h)

-- The bytes of the packed `ts_VhdFileHeader`.
unfoldable pub footer_bytes : ℕ → ℕ → Geometry → ℕ → ℕ → ℕ → List ℕ
footer_bytes time orig_image_size g uuid_l uuid_h checksum =
    le_bytes 8 0x78697463656E6F63
    ++ le_bytes 4 0x02000000
    ++ le_bytes 4 0x00000100
    ++ le_bytes 8 0xFFFFFFFFFFFFFFFF
    ++ be_bytes 4 (u32 (time + 2 ^ 32 - 0x386D97E0))
    ++ le_bytes 4 0x746E6D78
    ++ le_bytes 4 0x00000500
    ++ le_bytes 4 0x6B326957
    ++ be_bytes 8 orig_image_size
    ++ be_bytes 8 orig_image_size
    ++ be_bytes 2 (cylinders g)
    ++ (g.geom_h ∷ g.geom_s ∷ [])
    ++ le_bytes 4 0x02000000
    ++ be_bytes 4 checksum
    ++ le_bytes 8 uuid_l
    ++ le_bytes 8 uuid_h
    ++ (0 ∷ replicate 427 0)

-- The `for` loop: the sum of the bytes, in 32 bits.
unfoldable pub add_bytes : ℕ → List ℕ → ℕ
add_bytes checksum [] = checksum
add_bytes checksum (b ∷ bytes) = add_bytes (u32 (checksum + b)) bytes

-- `InitVirtVhdHeader` at a time, with the two halves of the image hash.
unfoldable pub init_virt_vhd_header : XmountData → ℕ → ℕ → ℕ → Option XmountData
init_virt_vhd_header g time image_hash_lo image_hash_hi = elim (get_morphed_image_size g) [
  | none ↦ none
  | some orig_image_size ↦
      let geom : Geometry = geometry (total_sectors orig_image_size) in
      let checksum : ℕ =
        add_bytes 0 (footer_bytes time orig_image_size geom image_hash_lo image_hash_hi 0) in
      some (record g {
        vhd_header =
            footer_bytes time orig_image_size geom image_hash_lo image_hash_hi
              (2 ^ 32 - 1 - checksum);
      })
]
