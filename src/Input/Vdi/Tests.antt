-- ===== src/Input/Vdi/Tests.antt =====
-- A VDI file of one block of four bytes, and one with the header that xmount makes.
use xmount.Base.{
  ℕ, ◌+◌, ◌*◌, ◌/◌, ◌≡◌, ◌<◌, refl, none, some, List, [], ◌∷◌, arith, slice, ok, fault, ◌≢◌, Option,
  length, get_or, joined, joined-lt, joined-le,
}
use xmount.Stdio.{File}
use xmount.VirtImage.State.{XmountData, MorphingFunctions, vdi, sizeof_vdi_header}
use xmount.VirtImage.Morphed.{IsMorphed}
use xmount.VirtImage.Get.Whole.{VdiFits}
use xmount.VirtImage.Set.{le_bytes}
use xmount.VirtImage.Vdi.{VdiIds, block_entries, init_virt_vdi_header}
use xmount.VirtImage.Vdi.Header.{FieldsOf, init_virt_vdi_header-VdiFits}
use xmount.Input.Vdi.{Vdi, vdi_open, vdi_size, vdi_read}
use xmount.Input.Vdi.Read.{IsVdi}
use xmount.Input.Vdi.Returns.{vdi_read-returns}
use xmount.Input.Vdi.Own.{IsCopy, vdi_read-init_virt_vdi_header}

abbrev small_vdi : Vdi
small_vdi = record {
  file = record { size = 10; byte = λ i. i; room = 10 };
  header = record {
    signature = 0xbeda107f;
    version = 0x00010001;
    offset_bmap = 1;
    offset_data = 6;
    disk_size = 4;
    block_size = 4;
    blocks_in_image = 1;
  };
  bmap = 0 ∷ [];
}

abbrev small_vdi-IsVdi : IsVdi small_vdi
small_vdi-IsVdi = record {
  block_size = omega arith;
  small = omega arith;
  mapped = refl;
  covered = λ p lt. omega arith;
  inside = λ p lt used. let e : p / 4 ≡ 0 = omega arith in rw e (omega arith);
  file_small = omega arith;
}

abbrev image : ℕ → ℕ
image i = i + 1

abbrev morphed : MorphingFunctions
morphed = record { size = some 10; read = λ o n. some (slice image o n) }

abbrev morphed-IsMorphed : IsMorphed morphed 10 image
morphed-IsMorphed = record { sized = refl; reads = λ o n lt le. refl }

abbrev data_vdi : XmountData
data_vdi = record {
  morphing = morphed;
  cache = none;
  virt_image_type = vdi;
  image_size = 0;
  vdi_header_size = 0;
  vdi_header = [];
  vdi_block_map_size = 0;
  vhd_header = [];
}

abbrev ids : VdiIds
ids = record {
  file_comment = 60 ∷ [];
  header_comment = 84 ∷ [];
  image_hash_lo = 1;
  image_hash_hi = 2;
  modify_l = 3;
  modify_h = 4;
}

abbrev made :
    (g' : XmountData) × (init_virt_vdi_header data_vdi ids ≡ some g')
    × VdiFits g'
    × (g'.vdi_block_map_size ≡ block_entries 10 * 4)
    × FieldsOf g' ids 10
    × ((b k : ℕ)
        → b < block_entries 10
        → k < 4
        → get_or g'.vdi_header (sizeof_vdi_header + (b * 4 + k)) 0 ≡ get_or (le_bytes 4 b) k 0)
made =
    init_virt_vdi_header-VdiFits data_vdi ids morphed-IsMorphed (omega arith) (omega arith)
      (omega arith) (omega arith)

abbrev header : List ℕ
header = made.0.vdi_header

abbrev copy : File
copy = record {
  size = length header + 10;
  byte = joined (length header) (λ i. get_or header i 0) image;
  room = length header + 10;
}

abbrev fopen : List ℕ → Option File
fopen name = some copy

abbrev copy-IsCopy : IsCopy copy header 10 image
copy-IsCopy = record {
  sized = refl;
  front = joined-lt (length header) (λ i. get_or header i 0) image;
  behind = λ p lt. joined-le (length header) (λ i. get_or header i 0) image _ p refl;
}

vdi_read-init_virt_vdi_header_example :
    (v : Vdi) × (vdi_open fopen ((1 ∷ []) ∷ []) ≡ ok v)
    × (vdi_size v ≡ 10)
    × (vdi_read v 7 3 ≡ ok (3, 8 ∷ 9 ∷ 10 ∷ []))
unfolding slice
vdi_read-init_virt_vdi_header_example =
    vdi_read-init_virt_vdi_header data_vdi made.0 ids fopen (1 ∷ []) copy image 7 3
      morphed-IsMorphed (omega arith) (omega arith) (omega arith) (omega arith) (omega arith) made.1
      refl copy-IsCopy (omega arith) (omega arith) (omega arith)

abbrev shown :
    (v : Vdi) × (vdi_open fopen ((1 ∷ []) ∷ []) ≡ ok v)
    × (vdi_size v ≡ 10)
    × (vdi_read v 7 3 ≡ ok (3, slice image 7 3))
shown =
    vdi_read-init_virt_vdi_header data_vdi made.0 ids fopen (1 ∷ []) copy image 7 3
      morphed-IsMorphed (omega arith) (omega arith) (omega arith) (omega arith) (omega arith) made.1
      refl copy-IsCopy (omega arith) (omega arith) (omega arith)

vdi_read-returns_example : vdi_read shown.0 3 20 ≢ fault
vdi_read-returns_example = vdi_read-returns fopen ((1 ∷ []) ∷ []) shown.0 3 20 shown.1
