-- ===== src/Lib.antt =====
-- xmount shows one or more input images of a disk, in whatever format, as one file of another
-- format. An input library reads an input image; a morphing library makes one morphed image of the
-- input images; the core puts the header or footer of the output format around it, and keeps what
-- is written in a cache file, since the input is never changed.
--
-- What is modelled, by file:
--     - Stdio: a file of the C library as the code uses it (fseeko, ftello, fread and fwrite on
--     the cache file), as a size and a function from positions to bytes. `room` bounds the growth
--     of the file; a write behind it fails.
--     - Morphing/Images: ts_LibXmountMorphingInputFunctions of
--     libxmount_morphing/libxmount_morphing.h, and what a morphing library may expect of them.
--     - Morphing/Combine, Morphing/Raid, Morphing/Swab: the handle and the functions create,
--     morph, size and read of libxmount_morphing/libxmount_morphing_combine, _raid and _swab
--     (CombineMorph is `morph` of Morphing/Combine, and so on).
--     - Morphing/Unallocated: UnallocatedSize and UnallocatedRead of
--     libxmount_morphing/libxmount_morphing_unallocated, over a map of free blocks; its children
--     Hfs and Fat are BuildHfsBlockMap of hfs_functions.c and BuildFatBlockMap of fat_functions.c
--     there.
--     - Input: the cut of an input image in main, GetInputImageData, and the functions
--     LibXmount_Morphing_* of src/xmount.c. Input/Mount joins them to a morphing library.
--     - VirtImage/State: the part of glob_xmount (src/xmount.h) that the virtual image depends on.
--     - VirtImage/Morphed and VirtImage/Get: GetMorphedImageSize, GetVirtImageSize,
--     GetMorphedImageData and GetVirtImageData of src/xmount.c.
--     - VirtImage/Set and VirtImage/Set/Store: SetVirtImageData, SetVdiFileHeaderData and
--     SetVhdFileHeaderData of src/xmount.c.
--     - VirtImage/Vhd: InitVirtVhdHeader of src/xmount.c.
--     - VirtImage/Vdi: InitVirtVdiHeader of src/xmount.c.
--     - VirtImage/CacheFile: InitCacheFile of src/xmount.c, over what fopen makes of the name of
--     the cache file.
--     - Fuse: FuseRead and FuseWrite of src/xmount.c. Fuse/Session is a sequence of calls of both.
--     - Input/Raw, Input/Vdi and Input/Qcow: open, size and read of
--     libxmount_input/libxmount_input_raw, libxmount_input_vdi and libxmount_input_qcow, the last
--     one over what inflate of zlib makes of a compressed cluster; Input/ReadLoop is the loop that
--     their Read functions share.
--
-- A function that returns an error code is a function into Result: `ok` with what it stores
-- through its pointers, `err` with the error, `fault` for an access that C leaves undefined, or
-- for a loop whose fuel has run out. Buffers are lists of bytes. Numbers are natural numbers with
-- the wrap-around of their type written out; off_t is taken for 64 unsigned bits, which agrees
-- with the code for the offsets below 2 ^ 63 that it is called with. Of numbers of type int, the
-- sizes of the files in memory are kept by their 32 bits; the result of GetVirtImageData and
-- SetVirtImageData, a number of bytes, is not cut off to 31 bits, since a request of FUSE is far
-- smaller. Loops over images and over blocks run on fuel: the number of images, or the number of
-- bytes that are asked for, since each round handles at least one byte. Memory is always there,
-- and texts for the log are left out. Under the morphing libraries the input libraries are
-- parameters: a read inside an image returns its bytes. A read of the raw, vdi and qcow libraries
-- runs on the low 32 bits of the number of bytes, as their code does. Locks are left out, since
-- every operation on the image holds one mutex throughout.
--
-- Not modelled: the command line, the loading of libraries, the FUSE operations on directories and
-- attributes, the texts of the info and VMDK files, the MD5 hash of the input, the reading of the
-- headers and tables of FAT and HFS file systems, and the other input libraries, most of which
-- bind third-party code.
pub mod Base
pub mod Fuse
pub mod Input
pub mod Morphing
pub mod Stdio
pub mod VirtImage
