-- ===== src/Input/Qcow.antt =====
-- libxmount_input_qcow.c: a QCOW2 file, by its two levels of tables. What zlib makes of a compressed
-- cluster is a parameter.
pub mod Entry
pub mod Read
pub mod Format
pub mod Returns
mod Tests
use xmount.Base.{
  ℕ, zero, suc, ◌+◌, ◌-◌, ◌*◌, ◌/◌, ◌%◌, ◌^◌, Bool, true, false, Option, none, some, List, [], ◌∷◌,
  ◌||◌, ◌&&◌, min,
}
use xmount.Base.{
  ltb, leb, ◌==◌, if◌then◌else◌, add64, sub32, u32, take, drop, get_elem?, replicate, slice, Result,
  ok, err, fault, ◌>>=◌,
}
use xmount.Stdio.{File}
use xmount.Fuse.{str_eq}
use xmount.Input.ReadLoop.{read_loop}

-- The error codes that are returned while there is memory and files can be read.
pub data QcowError : Type 0 where
  file_open_failed bad_magic_header bad_version unsupported_encryption cannot_seek : QcowError
  unable_to_decompress_cluster read_beyond_end_of_image bad_l1_offset : QcowError

-- The fields of `t_QcowHeader` that are used.
pub record QcowHeader : Type 0 where
  pub magic : List ℕ
  pub version : ℕ
  pub cluster_bits : ℕ
  pub size : ℕ
  pub crypt_method : ℕ
  pub l1_size : ℕ
  pub l1_table_offset : ℕ

-- `t_Qcow`
pub record Qcow : Type 0 where
  pub file : File
  pub header : QcowHeader
  pub l1_table : List ℕ
  pub l2_bits : ℕ
  pub l2_size : ℕ
  pub cluster_size : ℕ

-- A number in big-endian order, as `be32toh` and `be64toh` make of it.
unfoldable pub be_value : List ℕ → ℕ → ℕ
be_value [] n = n
be_value (b ∷ bytes) n = be_value bytes (n * 256 + b)

-- `QcowUtilFileSeek` and `QcowUtilFileRead`: behind the end of the file are zeros.
unfoldable pub padded : File → ℕ → ℕ
padded f i = if ltb i f.size then f.byte i else 0

unfoldable pub seek_and_read : File → ℕ → ℕ → Result QcowError (List ℕ)
seek_and_read f offset size =
    if leb (2 ^ 63) offset then err cannot_seek else ok (slice (padded f) offset size)

-- `t_QcowHeader` in memory, its 72 bytes.
unfoldable pub parse_qcow_header : List ℕ → QcowHeader
parse_qcow_header buf = record {
  magic = take 4 buf;
  version = be_value (take 4 (drop 4 buf)) 0;
  cluster_bits = be_value (take 4 (drop 20 buf)) 0;
  size = be_value (take 8 (drop 24 buf)) 0;
  crypt_method = be_value (take 4 (drop 32 buf)) 0;
  l1_size = be_value (take 4 (drop 36 buf)) 0;
  l1_table_offset = be_value (take 8 (drop 40 buf)) 0;
}

-- The checks of `QcowParseHeader`.
unfoldable pub check_qcow_header : QcowHeader → Result QcowError QcowHeader
check_qcow_header h =
    if str_eq h.magic (0x51 ∷ 0x46 ∷ 0x49 ∷ 0xfb ∷ [])
    then (if h.version == 2 || h.version == 3
        then (if h.crypt_method == 0 then ok h else err unsupported_encryption)
        else err bad_version)
    else err bad_magic_header

-- The L1 table in memory.
unfoldable pub parse_table : ℕ → List ℕ → List ℕ
parse_table zero buf = []
parse_table (suc n) buf = be_value (take 8 buf) 0 ∷ parse_table n (drop 8 buf)

-- The sizes that follow from the header. C leaves a shift by 64 or more undefined.
unfoldable pub sized_qcow : File → QcowHeader → Result QcowError Qcow
sized_qcow f h =
    if leb 64 h.cluster_bits || leb 64 (sub32 h.cluster_bits 3)
    then fault
    else (seek_and_read f h.l1_table_offset (h.l1_size * 8) >>= λ buf. ok (record {
      file = f;
      header = h;
      l1_table = parse_table h.l1_size buf;
      l2_bits = sub32 h.cluster_bits 3;
      l2_size = 2 ^ (sub32 h.cluster_bits 3);
      cluster_size = 2 ^ h.cluster_bits;
    }))

unfoldable pub open_qcow_file : File → Result QcowError Qcow
open_qcow_file f = do
  buf ← seek_and_read f 0 72
  header ← check_qcow_header (parse_qcow_header buf)
  sized_qcow f header

-- `QcowOpen`; only the first file is used.
unfoldable pub qcow_open : (List ℕ → Option File) → List (List ℕ) → Result QcowError Qcow
qcow_open fopen [] = err file_open_failed
qcow_open fopen (name ∷ names) = elim (fopen name) [
  | none ↦ err file_open_failed
  | some f ↦ open_qcow_file f
]

-- `QcowSize`
unfoldable pub qcow_size : Qcow → ℕ
qcow_size q = q.header.size

-- `QcowClusterOffsetFromAddress`, `QcowL2OffsetFromAddress` and `QcowL1OffsetFromAddress`. An `&`
-- with a power of two less one is a remainder.
unfoldable pub cluster_offset : Qcow → ℕ → ℕ
cluster_offset q address = address % q.cluster_size

unfoldable pub l2_offset : Qcow → ℕ → ℕ
l2_offset q address = address / 2 ^ q.header.cluster_bits % q.l2_size

unfoldable pub l1_offset : Qcow → ℕ → ℕ
l1_offset q address = address / 2 ^ (q.header.cluster_bits + q.l2_bits)

-- `& 0x00fffffffffffe00`
unfoldable pub address_bits : ℕ → ℕ
address_bits n = n % 2 ^ 56 / 2 ^ 9 * 2 ^ 9

-- What an entry of an L2 table says of its cluster: no data, data at an address, or compressed data
-- with its address and size.
pub data Cluster : Type 0 where
  zeros : Cluster
  stored : ℕ → Cluster
  compressed : ℕ → ℕ → Cluster

unfoldable pub stored_at : ℕ → Cluster
stored_at base = if base == 0 then zeros else stored base

unfoldable pub compressed_at : Qcow → ℕ → Cluster
compressed_at q entry =
    let bits : ℕ = 64 - 2 - (q.header.cluster_bits - 8) in
    compressed (entry % 2 ^ bits) (512 * (1 + entry / 2 ^ bits % 2 ^ (q.header.cluster_bits - 8)))

unfoldable pub cluster_of : Qcow → ℕ → Cluster
cluster_of q entry =
    if entry / 2 ^ 62 % 2 == 1
    then compressed_at q entry
    else if entry % 2 == 1
    then zeros
    else stored_at (address_bits entry)

-- The entry of the L2 table at an address.
unfoldable pub l2_entry : Qcow → ℕ → ℕ → ℕ
l2_entry q l2_table_address offset =
    be_value (slice (padded q.file) (l2_table_address + offset * 8) 8) 0

unfoldable pub locate : Qcow → ℕ → ℕ → Cluster
locate q l1_entry offset =
    if address_bits l1_entry == 0
    then zeros
    else cluster_of q (l2_entry q (address_bits l1_entry) offset)

-- `inflate` gives the bytes of the output buffer, or `none` where zlib reports an error.
abbrev pub Inflate : Type 0
Inflate = List ℕ → ℕ → Option (List ℕ)

-- C leaves the shifts of compressed data undefined for `ClusterBits` below 8.
unfoldable pub read_cluster : Inflate → Qcow → Cluster → ℕ → ℕ → Result QcowError (ℕ × List ℕ)
read_cluster inflate q zeros offset count = ok (count, replicate count 0)
read_cluster inflate q (stored base) offset count =
    seek_and_read q.file (base + offset) count >>= λ bytes. ok (count, bytes)
read_cluster inflate q (compressed base size) offset count =
    if ltb q.header.cluster_bits 8
    then fault
    else (seek_and_read q.file base size >>= λ buf. elim (inflate buf q.cluster_size) [
      | none ↦ err unable_to_decompress_cluster
      | some out ↦ ok (count, take count (drop offset out))
    ])

-- `QcowRead0`, with the new `*pCount`. The table has `l1_size` elements. C leaves the shift by 64 or
-- more undefined.
unfoldable pub qcow_read0 : Inflate → Qcow → ℕ → ℕ → Result QcowError (ℕ × List ℕ)
qcow_read0 inflate q seek count =
    if leb 64 (q.header.cluster_bits + q.l2_bits)
    then fault
    else if leb q.header.l1_size (l1_offset q seek)
    then err bad_l1_offset
    else elim (get_elem? q.l1_table (l1_offset q seek)) [
      | none ↦ fault
      | some l1_entry ↦
          read_cluster inflate q (locate q l1_entry (l2_offset q seek)) (cluster_offset q seek)
            (min count (q.cluster_size - cluster_offset q seek))
    ]

-- `QcowRead`: `*pRead` and the bytes. Only the low 32 bits of `count` are read.
unfoldable pub qcow_read : Inflate → Qcow → ℕ → ℕ → Result QcowError (ℕ × List ℕ)
qcow_read inflate q seek count =
    if ltb q.header.size (add64 seek count)
    then err read_beyond_end_of_image
    else (read_loop (qcow_read0 inflate q) (suc (u32 count)) seek (u32 count) >>= λ bytes.
        ok (count, bytes))
