-- ===== src/VirtImage/Get.antt =====
-- `GetVirtImageData` of src/xmount.c.
pub mod Content
pub mod Blocks
pub mod Whole
use xmount.Base.{
  ℕ, zero, suc, ◌+◌, ◌-◌, ◌/◌, ◌%◌, Bool, true, false, Option, none, some, List, [], ◌++◌,
}
use xmount.Base.{
  ltb, leb, ◌==◌, if◌then◌else◌, add64, sub64, u32, length, get_or, take, drop, get_elem?,
}
use xmount.Base.{Result, ok, err, fault, ◌>>=◌}
use xmount.Stdio.{File, fread}
use xmount.VirtImage.State.{
  VirtImageType, dd, dmg, vdi, vmdk, vmdks, vhd, XmountData, Cache, Errno, eio,
}
use xmount.VirtImage.State.{
  cache_block_size, CacheFileHeader, vdi_cached, vdi_pos, vhd_cached, vhd_pos,
}
use xmount.VirtImage.Morphed.{get_morphed_image_size, get_virt_image_size, get_morphed_image_data}
use xmount.VirtImage.Morphed.{failed, beyond_end, got}

-- A read of the cache file that fails ends in -EIO.
unfoldable pub read_cache_file : File → ℕ → ℕ → Result Errno (List ℕ)
read_cache_file f pos n = elim (fread f pos n) [ none ↦ err eio | some bytes ↦ ok bytes ]

-- A read of the morphed image has to give all bytes.
unfoldable pub read_morphed : XmountData → ℕ → ℕ → Result Errno (List ℕ)
read_morphed g offset n = elim (get_morphed_image_data g offset n) [
  | failed ↦ err eio
  | beyond_end ↦ err eio
  | got read bytes ↦ if read == n then ok bytes else err eio
]

-- Part of one block: from the cache file if the block is there. An index outside the block index is
-- a fault.
unfoldable pub read_block_from : Option Cache → XmountData → ℕ → ℕ → ℕ → ℕ → Result Errno (List ℕ)
read_block_from none g block block_off file_off n = read_morphed g file_off n
read_block_from (some c) g block block_off file_off n = elim (get_elem? c.blkidx block) [
  | none ↦ fault
  | some b ↦
      if b.assigned == 1
      then read_cache_file c.file (add64 b.off_data block_off) n
      else read_morphed g file_off n
]

unfoldable pub read_block : XmountData → ℕ → ℕ → ℕ → ℕ → Result Errno (List ℕ)
read_block g = read_block_from g.cache g

-- The `while` loop.
unfoldable pub read_blocks : XmountData → ℕ → ℕ → ℕ → ℕ → ℕ → Result Errno (List ℕ)
read_blocks g zero block block_off to_read file_off = if to_read == 0 then ok [] else fault
read_blocks g (suc fuel) block block_off to_read file_off = elim (to_read == 0) [
  | true ↦ ok []
  | false ↦
      let cur_to_read : ℕ =
        if ltb cache_block_size (add64 block_off to_read)
        then cache_block_size - block_off
        else to_read in
      read_block g block block_off file_off cur_to_read >>= λ bytes.
      read_blocks g fuel (u32 (block + 1)) 0 (to_read - cur_to_read) (file_off + cur_to_read)
      >>= λ rest. ok (bytes ++ rest)
]

-- The loop, with the block and offset that it starts from. A round reads at least one byte.
unfoldable pub read_image : XmountData → ℕ → ℕ → Result Errno (List ℕ)
read_image g file_off to_read =
    read_blocks g to_read (u32 (file_off / cache_block_size)) (file_off % cache_block_size) to_read
      file_off

-- `memcpy` out of a header in memory; past its end it is a fault.
unfoldable pub copy_header : List ℕ → ℕ → ℕ → Result Errno (List ℕ)
copy_header bytes offset n =
    if ltb (length bytes) (offset + n) then fault else ok (take n (drop offset bytes))

-- Part of a header: from the cache file if it is there, else from memory.
unfoldable pub read_header_from :
    Option Cache
    → (CacheFileHeader → ℕ)
    → (CacheFileHeader → ℕ)
    → List ℕ
    → ℕ
    → ℕ
    → Result Errno (List ℕ)
read_header_from none cached pos bytes offset n = copy_header bytes offset n
read_header_from (some c) cached pos bytes offset n =
    if cached c.header == 1
    then read_cache_file c.file (add64 (pos c.header) offset) n
    else copy_header bytes offset n

unfoldable pub read_vdi_header : XmountData → ℕ → ℕ → Result Errno (List ℕ)
read_vdi_header g = read_header_from g.cache vdi_cached vdi_pos g.vdi_header

unfoldable pub read_vhd_footer : XmountData → ℕ → ℕ → Result Errno (List ℕ)
read_vhd_footer g = read_header_from g.cache vhd_cached vhd_pos g.vhd_header

-- A VDI file is the header and then the image.
unfoldable pub get_vdi : XmountData → ℕ → ℕ → Result Errno (List ℕ)
get_vdi g file_off to_read =
    if ltb file_off g.vdi_header_size
    then (let cur_to_read : ℕ =
          if ltb g.vdi_header_size (add64 file_off to_read)
          then g.vdi_header_size - file_off
          else to_read in
        read_vdi_header g file_off cur_to_read >>= λ bytes.
        if to_read == cur_to_read
        then ok bytes
        else (read_image g 0 (to_read - cur_to_read) >>= λ rest. ok (bytes ++ rest)))
    else read_image g (file_off - g.vdi_header_size) to_read

-- A VHD file is the image and then the footer.
unfoldable pub get_vhd : XmountData → ℕ → ℕ → ℕ → Result Errno (List ℕ)
get_vhd g image_size file_off to_read =
    let later : ℕ =
      if leb image_size file_off
      then to_read
      else (if ltb image_size (add64 file_off to_read)
          then sub64 (add64 file_off to_read) image_size
          else 0) in
    read_image g file_off (to_read - later) >>= λ bytes.
    if later == 0
    then ok bytes
    else (read_vhd_footer g (file_off + (to_read - later) - image_size) later >>= λ rest.
        ok (bytes ++ rest))

-- The two `switch` statements, by the type of the virtual image.
unfoldable pub get_by_type : XmountData → VirtImageType → ℕ → ℕ → ℕ → Result Errno (List ℕ)
get_by_type g vdi image_size file_off to_read = get_vdi g file_off to_read
get_by_type g vhd image_size file_off to_read = get_vhd g image_size file_off to_read
get_by_type g _ image_size file_off to_read = read_image g file_off to_read

-- `GetVirtImageData`: the bytes that it stores, whose number it returns, and the state, in which
-- the image size may now be known.
unfoldable pub get_virt_image_data : XmountData → ℕ → ℕ → Result Errno (List ℕ × XmountData)
get_virt_image_data g offset size = elim (get_virt_image_size g) [
  | none ↦ err eio
  | some (virt_image_size, g') ↦
      if leb virt_image_size offset
      then ok ([], g')
      else (let to_read : ℕ =
            if ltb virt_image_size (add64 offset size)
            then sub64 virt_image_size offset
            else size in
          elim (get_morphed_image_size g') [
            | none ↦ err eio
            | some image_size ↦
                get_by_type g' g'.virt_image_type image_size offset to_read >>= λ bytes.
                ok (bytes, g')
          ])
]
