-- ===== src/Fuse/Tests.antt =====
-- A write to a VMDK file, and a read.
use xmount.Base.{◌≡◌, refl, none, [], ◌∷◌, arith, ok}
use xmount.VirtImage.State.{vmdk}
use xmount.Fuse.{FuseState, fuse_read, fuse_write}
use xmount.Fuse.Memory.{MemFits, fuse_read-write_mem_file}

abbrev files : FuseState
files = record {
  image = record {
    morphing = record { size = none; read = λ o n. none };
    cache = none;
    virt_image_type = vmdk;
    image_size = 0;
    vdi_header_size = 0;
    vdi_header = [];
    vdi_block_map_size = 0;
    vhd_header = [];
  };
  virtual_image_path = 1 ∷ [];
  info_path = 2 ∷ [];
  info_file = [];
  virtual_vmdk_path = 3 ∷ [];
  vmdk_file = record { content = 10 ∷ 11 ∷ []; size = 2 };
  vmdk_lockfile_name = none;
  vmdk_lockfile = record { content = []; size = 0 };
}

fuse_read-write_mem_file_example :
    (s' : FuseState) × (fuse_write (λ i. 0) files (3 ∷ []) (20 ∷ 21 ∷ []) 4 ≡ ok (s', 2))
    × MemFits s'.vmdk_file
    × (fuse_read s' (3 ∷ []) 2 4 ≡ ok (20 ∷ 21 ∷ [], s'))
fuse_read-write_mem_file_example =
    fuse_read-write_mem_file (λ i. 0) files (3 ∷ []) (20 ∷ 21 ∷ []) 4 refl refl refl
      (record { allocated = refl; small = omega arith }) (omega arith) (omega arith)
