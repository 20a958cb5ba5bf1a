-- ===== src/VirtImage/Set/Header/Write.antt =====
-- `SetVdiFileHeaderData` and `SetVhdFileHeaderData`, cached or not.
use Prim.Native.Nat.{max}
use xmount.Base.{
  ℕ, ◌+◌, ◌-◌, ◌^◌, ◌≤◌, ◌<◌, ◌≡◌, refl, ap, sym, ◌∙◌, true, false, inl, inr, some, List, ok, arith,
  Bool-cases, min,
}
use xmount.Base.{length, get_or, take, length-take, ◌==◌, if◌then◌else◌, ltb, add64}
use xmount.Stdio.{File, fwrite-some, overwrite, overwrite-inside, overwrite-above, overwrite-below}
use xmount.VirtImage.State.{
  XmountData, Cache, CacheFileHeader, sizeof_cache_header, sizeof_vhd_header, vdi_cached, vdi_pos,
  vhd_cached, vhd_pos,
}
use xmount.VirtImage.Get.Content.{image_byte, header_byte}
use xmount.VirtImage.Set.{write_file, le_bytes}
use xmount.VirtImage.Set.Store.{
  append_header, header_bytes, set_vdi_file_header_data, set_vhd_file_header_data,
}
use xmount.VirtImage.Set.Patch.{patched, patched-inside, patched-outside, patched_cases, patched_ap}
use xmount.VirtImage.Set.Invariant.{Writable, Reserved}
use xmount.VirtImage.CacheFile.Bytes.{HeaderFields}
use xmount.VirtImage.Set.Header.{HeaderStored, HeaderStored-Writable, HeaderStored-image}
use xmount.VirtImage.Set.Header.Append.{append_header_lem}

-- A write into a header that is in the cache file.
cached_header_lem :
    (c : Cache) (pos n offset : ℕ) (bytes : List ℕ) {size : ℕ}
    → Writable c size
    → Reserved c pos n
    → 0 < length bytes
    → offset + length bytes ≤ n
    → (f : File) × (write_file c (add64 pos offset) bytes ≡ ok (record c { file = f }))
      × HeaderStored c
          (record c { file = f })
          pos
          n
          (patched offset bytes (λ i. c.file.byte (pos + i)))
unfolding write_file
cached_header_lem c pos n offset bytes w r some_bytes le =
    let inside : pos + n ≤ c.file.size = r.inside in
    let at : add64 pos offset ≡ pos + offset =
      omega (arith, inside, w.cached.within, w.cached.small) in
    let done =
      fwrite-some c.file (pos + offset) bytes some_bytes (omega (arith, inside, w.cached.within)) in
    let f : File = record c.file {
      size = max c.file.size (pos + offset + length bytes);
      byte = overwrite c.file (pos + offset) bytes;
    } in
    let end : max c.file.size (pos + offset + length bytes) ≡ c.file.size = omega (arith, inside) in
    (
      f,
      rw (at, write_file, done) refl,
      record {
        same_blkidx = refl;
        same_room = refl;
        grown = omega (arith, end);
        bounded = omega (arith, end, w.cached.within);
        reserved = record { above = r.above; inside = omega (arith, end, inside); apart = r.apart };
        kept = λ i above lt out. elim out [
          | inl before ↦ overwrite-below c.file (pos + offset) bytes i (omega arith) lt
          | inr behind ↦ overwrite-above c.file (pos + offset) bytes i (omega arith) lt
        ];
        placed = λ i lt. elim (patched_cases offset (length bytes) i) [
          | inl (j, e, j_lt) ↦
              ap (overwrite c.file (pos + offset) bytes) (omega (arith, e))
              ∙ overwrite-inside c.file (pos + offset) bytes j j_lt
              ∙ sym (patched-inside offset bytes (λ k. c.file.byte (pos + k)) i j e j_lt)
          | inr (inl before) ↦
              overwrite-below c.file (pos + offset) bytes (pos + i) (omega arith)
                (omega (arith, inside))
              ∙ sym (patched-outside offset bytes (λ k. c.file.byte (pos + k)) i (inl before))
          | inr (inr behind) ↦
              overwrite-above c.file (pos + offset) bytes (pos + i) (omega arith)
                (omega (arith, inside))
              ∙ sym (patched-outside offset bytes (λ k. c.file.byte (pos + k)) i (inr behind))
        ];
      },
    )

pub header_byte-cached :
    (c : Cache) (cached pos : CacheFileHeader → ℕ) (old : List ℕ) (i : ℕ)
    → (cached c.header == 1) ≡ true
    → header_byte (some c) cached pos old i ≡ c.file.byte (pos c.header + i)
unfolding header_byte
header_byte-cached c cached pos old i here = rw here refl

pub header_byte-uncached :
    (c : Cache) (cached pos : CacheFileHeader → ℕ) (old : List ℕ) (i : ℕ)
    → (cached c.header == 1) ≡ false
    → header_byte (some c) cached pos old i ≡ get_or old i 0
unfolding header_byte
header_byte-uncached c cached pos old i not_here = rw not_here refl

-- The header is cached, with `bytes` at `offset` and otherwise what it was; the image is what it
-- was, and the cache is writable.
pub record HeaderWritten (c c' : Cache) (size : ℕ) (cached pos : CacheFileHeader → ℕ) (old : List ℕ)
    (offset : ℕ) (bytes : List ℕ) : Type 0 where
  pub writable : Writable c' size
  pub now_cached : cached c'.header ≡ 1
  pub reserved : Reserved c' (pos c'.header) (length old)
  pub same_blkidx : c'.blkidx ≡ c.blkidx
  pub image : (byte : ℕ → ℕ) (q : ℕ) → image_byte (some c') byte q ≡ image_byte (some c) byte q
  pub header :
      (i : ℕ)
      → i < length old
      → header_byte (some c') cached pos old i
        ≡ patched offset bytes (header_byte (some c) cached pos old) i

module _ (cached pos : CacheFileHeader → ℕ) (place : CacheFileHeader → ℕ → CacheFileHeader)
    (mark : CacheFileHeader → CacheFileHeader)
    (placed : (h : CacheFileHeader) (off : ℕ) → pos (mark (place h off)) ≡ off)
    (marked : (h : CacheFileHeader) (off : ℕ) → cached (mark (place h off)) ≡ 1)
    (sized : (h : CacheFileHeader) (off : ℕ)
      → HeaderFields h
      → length (header_bytes (mark (place h off))) ≡ sizeof_cache_header) where
  write_header_lem :
      (c : Cache) (old : List ℕ) (n offset : ℕ) (bytes : List ℕ) {size : ℕ}
      → Writable c size
      → HeaderFields c.header
      → (cached c.header ≡ 1 → Reserved c (pos c.header) (length old))
      → length old ≡ n
      → 0 < length bytes
      → offset + length bytes ≤ n
      → c.file.size + n ≤ c.file.room
      → (c' : Cache) × ((if cached c.header == 1
            then write_file c (add64 (pos c.header) offset) bytes
            else append_header c (place c.header) mark old n offset bytes)
          ≡ ok c')
        × HeaderWritten c c' size cached pos old offset bytes
  write_header_lem c old n offset bytes w fields r full some_bytes le room =
      elim (Bool-cases (cached c.header == 1)) [
        | inl here ↦
            let is_one : cached c.header ≡ 1 = ground arith in
            let res = r is_one in
            let (f, done, s) =
              cached_header_lem c (pos c.header) (length old) offset bytes w res some_bytes
                (omega arith) in
            (
              record c { file = f },
              rw here done,
              record {
                writable = HeaderStored-Writable s w;
                now_cached = is_one;
                reserved = s.reserved;
                same_blkidx = refl;
                image = HeaderStored-image s w;
                header = λ i lt.
                    header_byte-cached (record c { file = f }) cached pos old i here
                    ∙ s.placed i lt
                    ∙ sym (
                        patched_ap offset bytes _ _ i (header_byte-cached c cached pos old i here));
              },
            )
        | inr not_here ↦
            let (f, done, s) =
              append_header_lem c (place c.header) mark old n offset bytes w
                (sized c.header c.file.size fields) full some_bytes le room in
            let there : (cached (mark (place c.header c.file.size)) == 1) ≡ true =
              ground (arith, marked c.header c.file.size) in
            (
              record c { header = mark (place c.header c.file.size); file = f },
              rw not_here done,
              record {
                writable = HeaderStored-Writable s w;
                now_cached = marked c.header c.file.size;
                reserved = rw (placed c.header c.file.size, full) s.reserved;
                same_blkidx = refl;
                image = HeaderStored-image s w;
                header = λ i lt.
                    header_byte-cached
                      (record c { header = mark (place c.header c.file.size); file = f }) cached pos
                      old i there
                    ∙ ap (λ x. f.byte (x + i)) (placed c.header c.file.size)
                    ∙ s.placed i (omega (arith, full))
                    ∙ sym (
                        patched_ap offset bytes _ _ i
                          (header_byte-uncached c cached pos old i not_here));
              },
            )
      ]

vdi_sized :
    (h : CacheFileHeader) (off : ℕ)
    → HeaderFields h
    → length (header_bytes (record h { p_vdi_file_header = off; vdi_file_header_cached = 1 }))
      ≡ sizeof_cache_header
unfolding header_bytes le_bytes
vdi_sized h off f = omega (arith, f.header_padding)

vhd_sized :
    (h : CacheFileHeader) (off : ℕ)
    → HeaderFields h
    → length (header_bytes (record h { p_vhd_file_header = off; vhd_file_header_cached = 1 }))
      ≡ sizeof_cache_header
unfolding header_bytes le_bytes
vhd_sized h off f = omega (arith, f.header_padding)

vdi_step :
    (g : XmountData) (c c' : Cache) (offset : ℕ) (bytes : List ℕ) (n : ℕ)
    → (if ltb g.vdi_header_size (add64 offset (length bytes))
        then g.vdi_header_size - offset
        else length bytes)
      ≡ n
    → (if vdi_cached c.header == 1
        then write_file c (add64 (vdi_pos c.header) offset) (take n bytes)
        else append_header c
            (λ off. record c.header { p_vdi_file_header = off })
            (λ h. record h { vdi_file_header_cached = 1 })
            g.vdi_header
            g.vdi_header_size
            offset
            (take n bytes))
      ≡ ok c'
    → set_vdi_file_header_data g c offset bytes ≡ ok (c', n)
unfolding set_vdi_file_header_data
vdi_step g c c' offset bytes n cut done = rw cut (rw done refl)

-- `SetVdiFileHeaderData` of at least one byte that begins in the header, over a writable cache with
-- room for the header, whose stretch for a cached header is reserved, succeeds with the number of
-- bytes up to the end of the header. Then the header is cached, is what it was with those bytes at
-- their place, and is reserved; the cache is writable; and the image is what it was.
pub set_vdi_file_header_data_lem :
    (g : XmountData) (c : Cache) (offset : ℕ) (bytes : List ℕ) {size : ℕ}
    → Writable c size
    → HeaderFields c.header
    → (vdi_cached c.header ≡ 1 → Reserved c (vdi_pos c.header) (length g.vdi_header))
    → length g.vdi_header ≡ g.vdi_header_size
    → 0 < length bytes
    → offset < g.vdi_header_size
    → offset + length bytes < 2 ^ 64
    → c.file.size + g.vdi_header_size ≤ c.file.room
    → (c' : Cache) × (set_vdi_file_header_data g c offset bytes
        ≡ ok (c', min (length bytes) (g.vdi_header_size - offset)))
      × HeaderWritten c c' size vdi_cached vdi_pos g.vdi_header offset
          (take (min (length bytes) (g.vdi_header_size - offset)) bytes)
set_vdi_file_header_data_lem g c offset bytes w fields r full some_bytes lt short room =
    let k : ℕ = min (length bytes) (g.vdi_header_size - offset) in
    let cut : (if ltb g.vdi_header_size (add64 offset (length bytes))
          then g.vdi_header_size - offset
          else length bytes)
        ≡ k =
      ground arith in
    let n : length (take k bytes) ≡ k = omega (arith, length-take k bytes) in
    let (c', done, h) =
      write_header_lem vdi_cached vdi_pos (λ h off. record h { p_vdi_file_header = off })
        (λ h. record h { vdi_file_header_cached = 1 }) (λ h off. refl) (λ h off. refl) vdi_sized c
        g.vdi_header g.vdi_header_size offset (take k bytes) w fields r full (omega (arith, n))
        (omega (arith, n)) room in
    (c', vdi_step g c c' offset bytes k cut done, h)

-- `SetVhdFileHeaderData` of at least one byte that is within the footer, over a writable cache with
-- room for the footer, whose stretch for a cached footer is reserved, succeeds with the number of
-- bytes. Then the footer is cached, is what it was with those bytes at their place, and is reserved;
-- the cache is writable; and the image is what it was.
pub set_vhd_file_header_data_lem :
    (g : XmountData) (c : Cache) (offset : ℕ) (bytes : List ℕ) {size : ℕ}
    → Writable c size
    → HeaderFields c.header
    → (vhd_cached c.header ≡ 1 → Reserved c (vhd_pos c.header) (length g.vhd_header))
    → length g.vhd_header ≡ sizeof_vhd_header
    → 0 < length bytes
    → offset + length bytes ≤ sizeof_vhd_header
    → c.file.size + sizeof_vhd_header ≤ c.file.room
    → (c' : Cache) × (set_vhd_file_header_data g c offset bytes ≡ ok (c', length bytes))
      × HeaderWritten c c' size vhd_cached vhd_pos g.vhd_header offset bytes
unfolding set_vhd_file_header_data
set_vhd_file_header_data_lem g c offset bytes w fields r full some_bytes le room =
    let (c', done, h) =
      write_header_lem vhd_cached vhd_pos (λ h off. record h { p_vhd_file_header = off })
        (λ h. record h { vhd_file_header_cached = 1 }) (λ h off. refl) (λ h off. refl) vhd_sized c
        g.vhd_header sizeof_vhd_header offset bytes w fields r full some_bytes le room in
    (c', rw (set_vhd_file_header_data, done) refl, h)
