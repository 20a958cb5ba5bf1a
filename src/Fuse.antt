-- ===== src/Fuse.antt =====
-- `FuseRead` and `FuseWrite` of src/xmount.c. Paths and files in memory are lists of bytes.
pub mod Memory
pub mod Image
pub mod Session
mod Tests
use xmount.Base.{
  ℕ, ◌+◌, ◌-◌, ◌^◌, Bool, true, false, ◌&&◌, ◌||◌, Option, none, some, List, [], ◌∷◌, ◌++◌,
}
use xmount.Base.{
  ltb, leb, u32, ◌==◌, if◌then◌else◌, add64, length, take, drop, slice, Result, ok, err, fault,
  ◌>>=◌,
}
use xmount.VirtImage.State.{XmountData, Errno, enoent}
use xmount.VirtImage.Morphed.{get_virt_image_size}
use xmount.VirtImage.Get.{get_virt_image_data}
use xmount.VirtImage.Set.Store.{set_virt_image_data}

-- A file in memory: the bytes that are allocated for it, and its size, which is an `int`, by its 32
-- bits.
pub record MemFile : Type 0 where
  pub content : List ℕ
  pub size : ℕ

-- An `int` as a number of 64 unsigned bits.
unfoldable pub sign_extend : ℕ → ℕ
sign_extend n = if ltb n (2 ^ 31) then n else n + (2 ^ 64 - 2 ^ 32)

-- `glob_xmount` with the paths and files of `ts_OutputData`.
pub record FuseState : Type 0 where
  pub image : XmountData
  pub virtual_image_path : List ℕ
  pub info_path : List ℕ
  pub info_file : List ℕ
  pub virtual_vmdk_path : List ℕ
  pub vmdk_file : MemFile
  pub vmdk_lockfile_name : Option (List ℕ)
  pub vmdk_lockfile : MemFile

-- `strcmp(a,b)==0`
abbrev pub str_eq : List ℕ → List ℕ → Bool
str_eq [] [] = true
str_eq [] (y ∷ ys) = false
str_eq (x ∷ xs) [] = false
str_eq (x ∷ xs) (y ∷ ys) = (x == y) && str_eq xs ys

-- The test for the lock file.
abbrev pub is_lockfile : Option (List ℕ) → List ℕ → Bool
is_lockfile none p_path = false
is_lockfile (some name) p_path = str_eq p_path name

-- `READ_MEM_FILE` of a file of `len` bytes. A read behind the bytes that are allocated is a fault.
unfoldable pub read_mem_file : List ℕ → ℕ → ℕ → ℕ → Result Errno (List ℕ)
read_mem_file filebuf len size offset =
    let now : ℕ = if ltb len (add64 offset size) then len - offset else size in
    if ltb offset len
    then (if leb (offset + now) (length filebuf)
        then ok (take now (drop offset filebuf))
        else fault)
    else ok []

-- `FuseRead`
unfoldable pub fuse_read : FuseState → List ℕ → ℕ → ℕ → Result Errno (List ℕ × FuseState)
fuse_read s p_path size offset =
    if str_eq p_path s.virtual_image_path
    then (get_virt_image_data s.image offset size >>= λ (bytes, image).
        ok (bytes, record s { image = image }))
    else if str_eq p_path s.info_path
    then (read_mem_file s.info_file (length s.info_file) size offset >>= λ bytes. ok (bytes, s))
    else if str_eq p_path s.virtual_vmdk_path
    then (read_mem_file s.vmdk_file.content (sign_extend s.vmdk_file.size) size offset >>= λ bytes.
        ok (bytes, s))
    else if is_lockfile s.vmdk_lockfile_name p_path
    then (read_mem_file s.vmdk_lockfile.content (sign_extend s.vmdk_lockfile.size) size offset
        >>= λ bytes. ok (bytes, s))
    else err enoent

-- `malloc` for a file whose size is 0, or else `realloc`, of `n` bytes. What they do not set is
-- `garbage`.
unfoldable pub grow : (ℕ → ℕ) → MemFile → ℕ → List ℕ
grow garbage f n =
    if f.size == 0
    then slice garbage 0 n
    else take n (f.content ++ slice garbage (length f.content) (n - length f.content))

-- `memcpy` into the bytes that are allocated; behind them it is a fault.
unfoldable pub copy_into : List ℕ → ℕ → ℕ → List ℕ → Result Errno MemFile
copy_into content size offset bytes =
    if leb (offset + length bytes) (length content)
    then ok (record {
      content = take offset content ++ (bytes ++ drop (offset + length bytes) content);
      size = size;
    })
    else fault

-- A write to the VMDK file.
unfoldable pub write_vmdk_file : (ℕ → ℕ) → MemFile → ℕ → List ℕ → Result Errno MemFile
write_vmdk_file garbage f offset bytes =
    let len : ℕ = add64 offset (length bytes) in
    if ltb (sign_extend f.size) len
    then copy_into (grow garbage f len) (u32 len) offset bytes
    else copy_into f.content f.size offset bytes

-- A write to the lock file, which is allocated by its new size.
unfoldable pub write_lockfile : (ℕ → ℕ) → MemFile → ℕ → List ℕ → Result Errno MemFile
write_lockfile garbage f offset bytes =
    let len : ℕ = add64 offset (length bytes) in
    if ltb (sign_extend f.size) len
    then copy_into (grow garbage f (sign_extend (u32 len))) (u32 len) offset bytes
    else copy_into f.content f.size offset bytes

-- What `FuseWrite` makes of the result of `SetVirtImageData` for `size` bytes.
unfoldable pub finish_write :
    FuseState → ℕ → Result XmountData (XmountData × ℕ) → Result Errno (FuseState × ℕ)
finish_write s size (ok (image, written)) =
    ok (record s { image = image }, (if written == size then size else 0))
finish_write s size (err image) = ok (record s { image = image }, 0)
finish_write s size fault = fault

unfoldable pub write_image_file : FuseState → List ℕ → ℕ → Result Errno (FuseState × ℕ)
write_image_file s buf offset = elim (get_virt_image_size s.image) [
  | none ↦ ok (s, 0)
  | some (len, image) ↦
      let s' : FuseState = record s { image = image } in
      let size : ℕ = if ltb len (add64 offset (length buf)) then len - offset else length buf in
      if ltb offset len
      then finish_write s' size (set_virt_image_data image offset (take size buf))
      else ok (s', 0)
]

-- `FuseWrite`, with the number that it returns.
unfoldable pub fuse_write : (ℕ → ℕ) → FuseState → List ℕ → List ℕ → ℕ → Result Errno (FuseState × ℕ)
fuse_write garbage s p_path buf offset =
    if str_eq p_path s.virtual_image_path
    then write_image_file s buf offset
    else if str_eq p_path s.virtual_vmdk_path
    then (write_vmdk_file garbage s.vmdk_file offset buf >>= λ f.
        ok (record s { vmdk_file = f }, length buf))
    else if is_lockfile s.vmdk_lockfile_name p_path
    then (write_lockfile garbage s.vmdk_lockfile offset buf >>= λ f.
        ok (record s { vmdk_lockfile = f }, length buf))
    else err enoent
