-- ===== src/Fuse/Session/Tests.antt =====
-- Two sessions on an image of ten bytes.
use xmount.Base.{
  ℕ, ◌+◌, ◌^◌, ◌≡◌, refl, inl, none, some, List, [], ◌∷◌, arith, slice, ok, Option, false,
}
use xmount.Stdio.{File}
use xmount.VirtImage.State.{XmountData, Cache, MorphingFunctions, dd}
use xmount.VirtImage.Set.Patch.{patched}
use xmount.VirtImage.CacheFile.{
  Mode, rb_plus, wb_plus, init_cache_file, open_cache_file, needed_blocks,
}
use xmount.Fuse.{FuseState}
use xmount.Fuse.Session.{
  Call, reads, writes, bytes, count, session, array_session, array_end, array_after, array_reply,
  all_blocks_taken, blocks_taken,
}
use xmount.Fuse.Session.Step.{Shows}
use xmount.Fuse.Session.Whole.{session_lem}
use xmount.Fuse.Session.Remount.{Unmounted, remount, mount_new, session-remount}

abbrev image : ℕ → ℕ
image i = i + 1

abbrev morphed : MorphingFunctions
morphed = record { size = some 10; read = λ o n. some (slice image o n) }

abbrev data_dd : XmountData
data_dd = record {
  morphing = morphed;
  cache = none;
  virt_image_type = dd;
  image_size = 0;
  vdi_header_size = 0;
  vdi_header = [];
  vdi_block_map_size = 0;
  vhd_header = [];
}

abbrev unmounted : Unmounted data_dd 10 image
unmounted = record {
  is_plain = refl;
  morphed = record { sized = refl; reads = λ o n lt le. refl };
  small = omega arith;
  unknown = refl;
}

abbrev files : FuseState
files = record {
  image = data_dd;
  virtual_image_path = 1 ∷ [];
  info_path = 2 ∷ [];
  info_file = [];
  virtual_vmdk_path = 3 ∷ [];
  vmdk_file = record { content = []; size = 0 };
  vmdk_lockfile_name = none;
  vmdk_lockfile = record { content = []; size = 0 };
}

abbrev empty_file : File
empty_file = record { size = 0; byte = λ i. 0; room = 2 ^ 40 }

abbrev fopen : Mode → Option File
fopen rb_plus = none
fopen wb_plus = some empty_file

abbrev first_calls : List Call
first_calls = writes (100 ∷ 101 ∷ []) 3 ∷ reads 4 2 ∷ []

abbrev second_calls : List Call
second_calls = reads 3 4 ∷ []

session-remount_example :
    (g1 : XmountData) × (init_cache_file data_dd false fopen ≡ ok g1)
    × (s1 : FuseState) × (session (λ i. 0) (record files { image = g1 }) (1 ∷ []) first_calls
        ≡ ok (s1, count 2 ∷ bytes (3 ∷ 100 ∷ 101 ∷ 6 ∷ []) ∷ []))
    × (s2 : FuseState) × (remount s1 data_dd ≡ ok s2)
    × (s3 : FuseState) × (session (λ i. 0) s2 (1 ∷ []) second_calls
        ≡ ok (s3, bytes (101 ∷ 6 ∷ 7 ∷ []) ∷ []))
unfolding array_session array_end array_after array_reply all_blocks_taken blocks_taken patched
    slice needed_blocks open_cache_file
session-remount_example =
    session-remount (λ i. 0) data_dd false fopen empty_file files (1 ∷ []) 10 image first_calls
      second_calls refl unmounted refl refl (omega arith) (omega arith)
      ((omega arith, inl (omega arith)), ((omega arith, omega arith), omega arith))
      ((omega arith, omega arith), omega arith)

-- The first session again, from the mounted state.
abbrev mounted :
    (c : Cache) × (init_cache_file data_dd false fopen ≡ ok (record data_dd { cache = some c }))
    × Shows (record files { image = record data_dd { cache = some c } }) c 10 image image 2
unfolding needed_blocks open_cache_file
mounted =
    mount_new data_dd false fopen empty_file files 10 image 2 unmounted refl refl (omega arith)
      (omega arith)

session_lem_example :
    (g : XmountData) × (c' : Cache) × (session
        (λ i. 0)
        (record files { image = record data_dd { cache = some mounted.0 } })
        (1 ∷ [])
        first_calls
      ≡ ok (record files { image = g }, count 2 ∷ bytes (3 ∷ 100 ∷ 101 ∷ 6 ∷ []) ∷ []))
    × Shows (record files { image = g }) c' 10 image (array_end 10 image first_calls) 0
unfolding array_session array_after array_reply all_blocks_taken blocks_taken patched slice
session_lem_example =
    session_lem (λ i. 0) (record files { image = record data_dd { cache = some mounted.0 } })
      mounted.0 (1 ∷ []) 10 image image 0 first_calls refl mounted.2
      ((omega arith, inl (omega arith)), ((omega arith, omega arith), omega arith))
