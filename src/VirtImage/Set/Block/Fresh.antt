-- ===== src/VirtImage/Set/Block/Fresh.antt =====
-- An uncached block goes to the cache file whole.
use Prim.Native.Nat.{max}
use xmount.Base.{
  ℕ, ◌+◌, ◌-◌, ◌*◌, ◌^◌, ◌≤◌, ◌<◌, ◌≡◌, ◌≢◌, refl, ap, sym, ◌∙◌, some, List, ◌++◌, ok, arith, ◌⊎◌,
  inl, inr,
}
use xmount.Base.{
  length, get_or, set, length-set, get_or-set_self, get_or-set_ne, length-append,
  get_or-append_left, get_or-append_right, slice, length-slice, get_or-slice, if◌then◌else◌, ◌==◌,
}
use xmount.Stdio.{File, fwrite-some, overwrite, overwrite-above, overwrite-inside, overwrite-below}
use xmount.VirtImage.State.{
  XmountData, Cache, CacheFileBlockIndex, free_block, cache_block_size, sizeof_cache_header,
  sizeof_block_index,
}
use xmount.VirtImage.Morphed.{IsMorphed}
use xmount.VirtImage.Get.Content.{image_byte-block}
use xmount.VirtImage.Set.{new_block, write_file, index_bytes, le_bytes}
use xmount.VirtImage.Set.Append.{Extends, write_file-Extends}
use xmount.VirtImage.Set.Block.{Stored, entry, index_end}
use xmount.VirtImage.CacheFile.Synced.{Synced-entry}
use xmount.VirtImage.Set.Block.Old.{prepend_old_lem, append_old_lem, Behind}

pub length-index_bytes : (b : CacheFileBlockIndex) → length (index_bytes b) ≡ 12
unfolding index_bytes le_bytes
length-index_bytes b = refl

-- The data of a whole new block: old bytes, the written ones, and old bytes again.
record WholeBlock (size : ℕ) (byte : ℕ → ℕ) (block o : ℕ) (bytes data_bytes : List ℕ) : Type 0 where
  full : length data_bytes ≡ cache_block_size
  new : (i : ℕ) → i < length bytes → get_or data_bytes (o + i) 0 ≡ get_or bytes i 0
  old :
      (i : ℕ)
      → i < cache_block_size
      → (i < o) ⊎ (o + length bytes ≤ i)
      → block * cache_block_size + i < size
      → get_or data_bytes i 0 ≡ byte (block * cache_block_size + i)

WholeBlock-append :
    (size : ℕ) (byte : ℕ → ℕ) (block o p : ℕ) (bytes ys : List ℕ)
    → p ≡ block * cache_block_size + o
    → o + length bytes ≤ cache_block_size
    → Behind size byte (p + length bytes) (cache_block_size - (o + length bytes)) ys
    → WholeBlock size byte block o bytes ((slice byte (p - o) o ++ bytes) ++ ys)
WholeBlock-append size byte block o p bytes ys at fits b =
    let pre = slice byte (p - o) o in
    let pre_length : length pre ≡ o = length-slice byte (p - o) o in
    let both_length : length (pre ++ bytes) ≡ o + length bytes =
      omega (arith, length-append pre bytes, pre_length) in
    record {
      full = omega (arith, length-append (pre ++ bytes) ys, both_length, b.full);
      new = λ i lt.
          get_or-append_left (pre ++ bytes) ys (o + i) 0 (omega (arith, both_length))
          ∙ ap (λ k. get_or (pre ++ bytes) (k + i) 0) (sym pre_length)
          ∙ get_or-append_right pre bytes i 0;
      old = λ i lt out inside. elim out [
        | inl before ↦
            get_or-append_left (pre ++ bytes) ys i 0 (omega (arith, both_length))
            ∙ get_or-append_left pre bytes i 0 (omega (arith, pre_length))
            ∙ get_or-slice byte (p - o) o i 0 before
            ∙ ap byte (omega arith)
        | inr behind ↦
            let j : ℕ = i - (o + length bytes) in
            let there : i ≡ length (pre ++ bytes) + j = omega (arith, both_length) in
            ap (λ k. get_or ((pre ++ bytes) ++ ys) k 0) there
            ∙ get_or-append_right (pre ++ bytes) ys j 0
            ∙ b.old j (omega arith) (omega arith)
            ∙ ap byte (omega arith)
      ];
    }

-- The cache after the append, with the index entry in memory.
abbrev filed : Cache → ℕ → File → Cache
filed c block f =
    let off : ℕ = c.file.size in
    record c {
      file = f;
      blkidx =
          set (set c.blkidx block (record (entry c block) { off_data = off })) block
            (record { assigned = 1; off_data = off });
    }

entry-filed_self :
    (c : Cache) (block : ℕ) (f : File)
    → block < length c.blkidx
    → entry (filed c block f) block ≡ record { assigned = 1; off_data = c.file.size }
entry-filed_self c block f lt =
    get_or-set_self (set c.blkidx block (record (entry c block) { off_data = c.file.size })) block
      (record { assigned = 1; off_data = c.file.size }) free_block
      (omega (arith, length-set c.blkidx block (record (entry c block) { off_data = c.file.size })))

entry-filed_ne :
    (c : Cache) (block : ℕ) (f : File) (b : ℕ) → b ≢ block → entry (filed c block f) b ≡ entry c b
entry-filed_ne c block f b ne =
    get_or-set_ne (set c.blkidx block (record (entry c block) { off_data = c.file.size })) block b
      (record { assigned = 1; off_data = c.file.size }) free_block (λ e. ne (sym e))
    ∙ get_or-set_ne c.blkidx block b (record (entry c block) { off_data = c.file.size }) free_block
        (λ e. ne (sym e))

-- What is left is to write the index entry into the file.
filed-Stored :
    (c : Cache) (size : ℕ) (byte : ℕ → ℕ) (block o : ℕ) (bytes data_bytes : List ℕ) (f : File)
    → block < length c.blkidx
    → (entry c block).assigned ≢ 1
    → index_end c ≤ c.file.size
    → o + length bytes ≤ cache_block_size
    → c.file.size + cache_block_size ≤ c.file.room
    → WholeBlock size byte block o bytes data_bytes
    → Extends c.file f data_bytes
    → (f' : File) × (write_file
          (filed c block f)
          (sizeof_cache_header + block * sizeof_block_index)
          (index_bytes (record { assigned = 1; off_data = c.file.size }))
        ≡ ok (filed c block f'))
      × Stored c (filed c block f') size byte block o bytes
unfolding write_file
filed-Stored c size byte block o bytes data_bytes f indexed free index fits room w e =
    let pos : ℕ = sizeof_cache_header + block * sizeof_block_index in
    let idx = index_bytes (record { assigned = 1; off_data = c.file.size }) in
    let twelve : length idx ≡ 12 = length-index_bytes _ in
    let below : pos + 12 ≤ index_end c = omega (arith, indexed) in
    let f' : File = record f { size = max f.size (pos + length idx); byte = overwrite f pos idx } in
    let done = fwrite-some f pos idx (omega (arith, twelve)) (omega (arith, twelve, e.room_kept)) in
    let same : (i : ℕ) → index_end c ≤ i → i < f.size → f'.byte i ≡ f.byte i =
      λ i le lt. overwrite-above f pos idx i (omega (arith, twelve)) lt in
    let here = entry-filed_self c block f' indexed in
    let at : (entry (filed c block f') block).off_data ≡ c.file.size = ap (λ x. x.off_data) here in
    let stored : (i : ℕ)
        → i < cache_block_size
        → f'.byte (c.file.size + i) ≡ get_or data_bytes i 0 =
      λ i lt.
        same (c.file.size + i) (omega arith) (omega (arith, e.grown, w.full))
        ∙ e.added i (omega (arith, w.full)) in
    (
      f',
      rw (done, write_file) refl,
      record {
        same_header = refl;
        same_index =
            length-set (set c.blkidx block (record (entry c block) { off_data = c.file.size }))
              block (record { assigned = 1; off_data = c.file.size })
            ∙ length-set c.blkidx block (record (entry c block) { off_data = c.file.size });
        same_room = e.room_kept;
        grown = omega (arith, e.grown, w.full, twelve);
        bounded = omega (arith, e.grown, w.full, twelve);
        assigned = ap (λ x. x.assigned) here;
        others = λ b ne. entry-filed_ne c block f' b ne;
        place = inr at;
        inside = omega (arith, at, e.grown, w.full, twelve);
        kept = λ i le lt out. same i le (omega (arith, e.grown, w.full)) ∙ e.kept i lt;
        written =
            λ i lt. ap (λ k. f'.byte (k + (o + i))) at ∙ stored (o + i) (omega arith) ∙ w.new i lt;
        around = λ i lt out inside.
            ap (λ k. f'.byte (k + i)) at
            ∙ stored i lt
            ∙ w.old i lt out inside
            ∙ sym (image_byte-block (some c) byte block i lt ∙ unassigned i);
        synced = λ above s.
            Synced-entry c (filed c block f') block refl
              (length-set (set c.blkidx block (record (entry c block) { off_data = c.file.size }))
                  block (record { assigned = 1; off_data = c.file.size })
                ∙ length-set c.blkidx block (record (entry c block) { off_data = c.file.size }))
              (λ b ne. entry-filed_ne c block f' b ne)
              (λ i lt out. outside i (omega (arith, e.grown)) out ∙ e.kept i (omega arith))
              (λ k lt lt'.
                overwrite-inside f pos idx k (omega (arith, twelve))
                ∙ ap (λ b. get_or (index_bytes b) k 0) (sym here))
              s;
      },
    )
  where
    unassigned :
        (i : ℕ)
        → (if (entry c block).assigned == 1
            then c.file.byte ((entry c block).off_data + i)
            else byte (block * cache_block_size + i))
          ≡ byte (block * cache_block_size + i)
    unassigned i = ground arith

    outside :
        (i : ℕ)
        → i < f.size
        → (i < sizeof_cache_header + block * sizeof_block_index)
          ⊎ (sizeof_cache_header + block * sizeof_block_index + sizeof_block_index ≤ i)
        → overwrite f
            (sizeof_cache_header + block * sizeof_block_index)
            (index_bytes (record { assigned = 1; off_data = c.file.size }))
            i
          ≡ f.byte i
    outside i lt (inl before) = overwrite-below f _ _ i before lt
    outside i lt (inr behind) =
        overwrite-above f _ (index_bytes (record { assigned = 1; off_data = c.file.size })) i
          (omega (arith, length-index_bytes (record { assigned = 1; off_data = c.file.size }))) lt

module _ (g : XmountData) {size : ℕ} {byte : ℕ → ℕ} (m : IsMorphed g.morphing size byte)
    (small : size < 2 ^ 51) where
  -- The block is appended and its entry written.
  pub new_block_lem :
      (c : Cache) (block o : ℕ) (bytes : List ℕ)
      → block < length c.blkidx
      → (entry c block).assigned ≢ 1
      → index_end c ≤ c.file.size
      → c.file.size + cache_block_size ≤ c.file.room
      → c.file.room < 2 ^ 63
      → 0 < length bytes
      → o + length bytes ≤ cache_block_size
      → block * cache_block_size + o + length bytes ≤ size
      → (o + length bytes ≡ cache_block_size) ⊎ (block * cache_block_size + o + length bytes < size)
      → (c' : Cache) × (new_block g size c
            (entry c block)
            block
            o
            (block * cache_block_size + o)
            bytes
          ≡ ok c')
        × Stored c c' size byte block o bytes
  unfolding new_block
  new_block_lem c block o bytes indexed free index room below some_bytes fits inside stop =
      let p = block * cache_block_size + o in
      let off = c.file.size in
      let c1 : Cache = record c {
        blkidx = set c.blkidx block (record (entry c block) { off_data = off });
      } in
      let (f2, w2, e2) =
        prepend_old_lem g m small c1 o p (omega arith) (omega arith) (omega arith) in
      let pre = slice byte (p - o) o in
      let pre_length : length pre ≡ o = length-slice byte (p - o) o in
      let c2 : Cache = record c1 { file = f2 } in
      let (f3, w3, e3) =
        write_file-Extends c.file c2 pre bytes (off + o) e2 (omega (arith, pre_length)) some_bytes
          (omega (arith, pre_length)) in
      let c3 : Cache = record c1 { file = f3 } in
      let (ys, f4, w4, e4, b) =
        append_old_lem g m small c.file c3 (pre ++ bytes) o p (length bytes) e3
          (omega (arith, length-append pre bytes, pre_length)) (omega arith) fits room below stop in
      let whole = WholeBlock-append size byte block o p bytes ys refl fits b in
      let (f', w5, stored) =
        filed-Stored c size byte block o bytes ((pre ++ bytes) ++ ys) f4 indexed free index fits
          room whole e4 in
      (filed c block f', rw (w2, new_block, w3, w4) w5, stored)
