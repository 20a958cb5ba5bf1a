-- ===== src/VirtImage/Set/Store.antt =====
-- `SetVdiFileHeaderData`, `SetVhdFileHeaderData` and `SetVirtImageData` of src/xmount.c.
use xmount.Base.{ℕ, ◌+◌, ◌-◌, none, some, List, ◌++◌}
use xmount.Base.{ltb, leb, ◌==◌, if◌then◌else◌, add64, sub64, length, take, drop}
use xmount.Base.{Result, ok, err, fault, ◌>>=◌}
use xmount.VirtImage.State.{XmountData, Cache, CacheFileHeader}
use xmount.VirtImage.State.{VirtImageType, vdi, vhd, sizeof_vhd_header}
use xmount.VirtImage.Morphed.{get_morphed_image_size, get_virt_image_size}
use xmount.VirtImage.Set.{Step, write_file, write_image, le_bytes}

-- The bytes of the packed `ts_CacheFileHeader`.
unfoldable pub header_bytes : CacheFileHeader → List ℕ
header_bytes h =
    le_bytes 8 h.file_signature
    ++ le_bytes 4 h.cache_file_version
    ++ le_bytes 8 h.block_size
    ++ le_bytes 8 h.block_count
    ++ le_bytes 8 h.p_block_index
    ++ le_bytes 4 h.vdi_file_header_cached
    ++ le_bytes 8 h.p_vdi_file_header
    ++ le_bytes 4 h.vmdk_file_cached
    ++ le_bytes 8 h.vmdk_file_size
    ++ le_bytes 8 h.p_vmdk_file
    ++ le_bytes 4 h.vhd_file_header_cached
    ++ le_bytes 8 h.p_vhd_file_header
    ++ h.header_padding

-- `fwrite` of a header that is not cached yet: behind the cache file, with what stands in memory in
-- front of the written bytes and behind them. Then the header of the cache file is written.
unfoldable pub append_header :
    Cache
    → (ℕ → CacheFileHeader)
    → (CacheFileHeader → CacheFileHeader)
    → List ℕ
    → ℕ
    → ℕ
    → List ℕ
    → Step
append_header c place mark old size offset bytes = do
  let off : ℕ = c.file.size
  let end : ℕ = offset + length bytes
  let c1 : Cache = record c { header = place off }
  c2 ← (if offset == 0 then ok c1 else write_file c1 off (take offset old))
  c3 ← write_file c2 (off + offset) bytes
  c4 ← (if end == size then ok c3 else write_file c3 (off + end) (take (size - end) (drop end old)))
  let c5 : Cache = record c4 { header = mark c4.header }
  write_file c5 0 (header_bytes c5.header)

-- The number of bytes that is returned goes with the state.
unfoldable pub set_vdi_file_header_data : XmountData → Cache → ℕ → List ℕ → Result Cache (Cache × ℕ)
set_vdi_file_header_data g c offset bytes =
    let size : ℕ =
      if ltb g.vdi_header_size (add64 offset (length bytes))
      then g.vdi_header_size - offset
      else length bytes in
    (if c.header.vdi_file_header_cached == 1
      then write_file c (add64 c.header.p_vdi_file_header offset) (take size bytes)
      else append_header c (λ off. record c.header { p_vdi_file_header = off })
          (λ h. record h { vdi_file_header_cached = 1 }) g.vdi_header g.vdi_header_size offset
          (take size bytes))
    >>= λ c'. ok (c', size)

unfoldable pub set_vhd_file_header_data : XmountData → Cache → ℕ → List ℕ → Result Cache (Cache × ℕ)
set_vhd_file_header_data g c offset bytes =
    (if c.header.vhd_file_header_cached == 1
      then write_file c (add64 c.header.p_vhd_file_header offset) bytes
      else append_header c (λ off. record c.header { p_vhd_file_header = off })
          (λ h. record h { vhd_file_header_cached = 1 }) g.vhd_header sizeof_vhd_header offset
          bytes)
    >>= λ c'. ok (c', length bytes)

-- The header of a VDI file, and what is behind it.
unfoldable pub set_vdi : XmountData → Cache → ℕ → ℕ → List ℕ → Step
set_vdi g c orig_image_size file_off bytes =
    if ltb file_off g.vdi_header_size
    then (set_vdi_file_header_data g c file_off bytes >>= λ (c1, ret).
        if ret == length bytes then ok c1 else write_image g orig_image_size c1 0 (drop ret bytes))
    else write_image g orig_image_size c (file_off - g.vdi_header_size) bytes

-- The image in a VHD file, and the footer behind it.
unfoldable pub set_vhd : XmountData → Cache → ℕ → ℕ → List ℕ → Step
set_vhd g c orig_image_size file_off bytes =
    let later : ℕ =
      if leb orig_image_size file_off
      then length bytes
      else (if ltb orig_image_size (add64 file_off (length bytes))
          then sub64 (add64 file_off (length bytes)) orig_image_size
          else 0) in
    let now : ℕ = length bytes - later in
    write_image g orig_image_size c file_off (take now bytes) >>= λ c1.
    if later == 0
    then ok c1
    else (set_vhd_file_header_data g c1 (file_off + now - orig_image_size) (drop now bytes)
        >>= λ (c2, ret). ok c2)

-- The two `switch` statements, by the type of the virtual image.
unfoldable pub set_by_type : XmountData → VirtImageType → Cache → ℕ → ℕ → List ℕ → Step
set_by_type g vdi c orig_image_size file_off bytes = set_vdi g c orig_image_size file_off bytes
set_by_type g vhd c orig_image_size file_off bytes = set_vhd g c orig_image_size file_off bytes
set_by_type g _ c orig_image_size file_off bytes = write_image g orig_image_size c file_off bytes

-- The state with the cache that a step leaves, and the number of bytes written.
unfoldable pub set_cache : XmountData → ℕ → Step → Result XmountData (XmountData × ℕ)
set_cache g n (ok c) = ok (record g { cache = some c }, n)
set_cache g n (err c) = err (record g { cache = some c })
set_cache g n fault = fault

-- `SetVirtImageData`. Without a cache file it dereferences a null pointer.
unfoldable pub set_virt_image_data : XmountData → ℕ → List ℕ → Result XmountData (XmountData × ℕ)
set_virt_image_data g offset buf = elim (get_virt_image_size g) [
  | none ↦ err g
  | some (virt_image_size, g') ↦
      if leb virt_image_size offset
      then err g'
      else (let size : ℕ =
            if ltb virt_image_size (add64 offset (length buf))
            then sub64 virt_image_size offset
            else length buf in
          elim (get_morphed_image_size g') [
            | none ↦ err g'
            | some orig_image_size ↦ elim g'.cache [
              | none ↦ fault
              | some c ↦
                  set_cache g' size
                    (set_by_type g' g'.virt_image_type c orig_image_size offset (take size buf))
            ]
          ])
]
