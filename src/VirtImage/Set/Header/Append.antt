-- ===== src/VirtImage/Set/Header/Append.antt =====
-- A header that is not cached yet goes to the end of the cache file whole: `append_header`.
use Prim.Native.Nat.{max}
use xmount.Base.{
  ℕ, ◌+◌, ◌-◌, ◌≤◌, ◌<◌, ◌≡◌, refl, ap, sym, ◌∙◌, true, false, inl, inr, List, [], ◌∷◌, ◌++◌, Bool,
  ok, arith,
}
use mathlib.Core.List.{append-nil}
use xmount.Base.{
  length, get_or, take, drop, length-take, length-drop, length-append, get_or-take, get_or-drop,
  get_or-append_left, get_or-append_right, ◌==◌, if◌then◌else◌,
}
use xmount.Stdio.{File, fwrite-some, overwrite, overwrite-above}
use xmount.VirtImage.State.{Cache, CacheFileHeader, sizeof_cache_header}
use xmount.VirtImage.Set.{write_file}
use xmount.VirtImage.Set.Store.{append_header, header_bytes}
use xmount.VirtImage.Set.Append.{Extends, Extends-nil, write_file-Extends}
use xmount.VirtImage.Set.Patch.{patched, patched-inside, patched-outside, patched_cases}
use xmount.VirtImage.Set.Invariant.{Writable}
use xmount.VirtImage.Set.Header.{HeaderStored}

-- A write that is skipped where there is nothing to write.
maybe_write :
    (f : File) (c : Cache) (xs ys : List ℕ) (skip : Bool) (pos : ℕ)
    → Extends f c.file xs
    → pos ≡ f.size + length xs
    → (skip ≡ true → length ys ≡ 0)
    → (skip ≡ false → 0 < length ys)
    → f.size + length xs + length ys ≤ f.room
    → (f' : File) × ((if skip then ok c else write_file c pos ys) ≡ ok (record c { file = f' }))
      × Extends f f' (xs ++ ys)
maybe_write f c xs [] true pos e at none some_bytes fits = (c.file, refl, rw append-nil e)
maybe_write f c xs (y ∷ ys) true pos e at none some_bytes fits = absurd (omega (arith, none refl))
maybe_write f c xs ys false pos e at none some_bytes fits =
    write_file-Extends f c xs ys pos e at (some_bytes refl) fits

-- The header as it is written: `bytes` in what stands in memory.
abbrev whole : List ℕ → ℕ → ℕ → List ℕ → List ℕ
whole old size offset bytes =
    (take offset old ++ bytes)
    ++ take (size - (offset + length bytes)) (drop (offset + length bytes) old)

module _ (old : List ℕ) (size offset : ℕ) (bytes : List ℕ) (full : length old ≡ size)
    (inside : offset + length bytes ≤ size) where
  length-whole : length (whole old size offset bytes) ≡ size
  length-whole =
      let end : ℕ = offset + length bytes in
      omega (
        arith,
        length-append (take offset old ++ bytes) (take (size - end) (drop end old)),
        length-append (take offset old) bytes,
        length-take offset old,
        length-take (size - end) (drop end old),
        length-drop end old,
      )

  get_or-whole :
      (i : ℕ)
      → i < size
      → get_or (whole old size offset bytes) i 0 ≡ patched offset bytes (λ k. get_or old k 0) i
  get_or-whole i lt =
      let end : ℕ = offset + length bytes in
      let front = take offset old in
      let n : length front ≡ offset = omega (arith, length-take offset old) in
      let rest = take (size - end) (drop end old) in
      let m : length (front ++ bytes) ≡ end = omega (arith, n, length-append front bytes) in
      elim (patched_cases offset (length bytes) i) [
        | inl (j, at, j_lt) ↦
            let at' : i ≡ length front + j = omega (arith, n) in
            get_or-append_left (front ++ bytes) rest i 0 (omega (arith, m))
            ∙ ap (λ k. get_or (front ++ bytes) k 0) at'
            ∙ get_or-append_right front bytes j 0
            ∙ sym (patched-inside offset bytes (λ k. get_or old k 0) i j at j_lt)
        | inr (inl before) ↦
            get_or-append_left (front ++ bytes) rest i 0 (omega (arith, m))
            ∙ get_or-append_left front bytes i 0 (omega (arith, n))
            ∙ get_or-take offset old i 0 before
            ∙ sym (patched-outside offset bytes (λ k. get_or old k 0) i (inl before))
        | inr (inr behind) ↦
            let j : ℕ = i - end in
            let at : i ≡ length (front ++ bytes) + j = omega (arith, m) in
            ap (λ k. get_or ((front ++ bytes) ++ rest) k 0) at
            ∙ get_or-append_right (front ++ bytes) rest j 0
            ∙ get_or-take (size - end) (drop end old) j 0 (omega arith)
            ∙ get_or-drop end old j 0
            ∙ ap (λ k. get_or old k 0) (omega arith)
            ∙ sym (patched-outside offset bytes (λ k. get_or old k 0) i (inr behind))
      ]

append_header-step :
    (c : Cache) (place : ℕ → CacheFileHeader) (mark : CacheFileHeader → CacheFileHeader)
    (old : List ℕ) (size offset : ℕ) (bytes : List ℕ) (f2 f3 f4 f5 : File)
    → (if offset == 0
        then ok (record c { header = place c.file.size })
        else write_file (record c { header = place c.file.size }) c.file.size (take offset old))
      ≡ ok (record c { header = place c.file.size; file = f2 })
    → write_file (record c { header = place c.file.size; file = f2 }) (c.file.size + offset) bytes
      ≡ ok (record c { header = place c.file.size; file = f3 })
    → (if offset + length bytes == size
        then ok (record c { header = place c.file.size; file = f3 })
        else write_file
            (record c { header = place c.file.size; file = f3 })
            (c.file.size + (offset + length bytes))
            (take (size - (offset + length bytes)) (drop (offset + length bytes) old)))
      ≡ ok (record c { header = place c.file.size; file = f4 })
    → write_file
        (record c { header = mark (place c.file.size); file = f4 })
        0
        (header_bytes (mark (place c.file.size)))
      ≡ ok (record c { header = mark (place c.file.size); file = f5 })
    → append_header c place mark old size offset bytes
      ≡ ok (record c { header = mark (place c.file.size); file = f5 })
unfolding append_header
append_header-step c place mark old size offset bytes f2 f3 f4 f5 w2 w3 w4 w5 =
    rw (w2, append_header, w3, w4) w5

-- Over a writable cache with room for the header, the header is stored at the end of the file, and
-- the header of the cache file says so.
pub append_header_lem :
    (c : Cache) (place : ℕ → CacheFileHeader) (mark : CacheFileHeader → CacheFileHeader)
    (old : List ℕ) (size offset : ℕ) (bytes : List ℕ) {image_size : ℕ}
    → Writable c image_size
    → length (header_bytes (mark (place c.file.size))) ≡ sizeof_cache_header
    → length old ≡ size
    → 0 < length bytes
    → offset + length bytes ≤ size
    → c.file.size + size ≤ c.file.room
    → (f : File) × (append_header c place mark old size offset bytes
        ≡ ok (record c { header = mark (place c.file.size); file = f }))
      × HeaderStored c
          (record c { header = mark (place c.file.size); file = f })
          c.file.size
          size
          (patched offset bytes (λ k. get_or old k 0))
unfolding write_file
append_header_lem c place mark old size offset bytes w header_size full some_bytes inside room =
    let off : ℕ = c.file.size in
    let end : ℕ = offset + length bytes in
    let c1 : Cache = record c { header = place off } in
    let front = take offset old in
    let rest = take (size - end) (drop end old) in
    let n : length front ≡ offset = omega (arith, length-take offset old) in
    let m : length rest ≡ size - end =
      omega (arith, length-take (size - end) (drop end old), length-drop end old) in
    let (f2, w2, e2) =
      maybe_write c.file c1 [] front (offset == 0) off (Extends-nil c.file) (omega arith)
        (λ h. ground (arith, h, n)) (λ h. ground (arith, h, n)) (omega (arith, n)) in
    let c2 : Cache = record c1 { file = f2 } in
    let (f3, w3, e3) =
      write_file-Extends c.file c2 front bytes (off + offset) e2 (omega (arith, n)) some_bytes
        (omega (arith, n)) in
    let c3 : Cache = record c1 { file = f3 } in
    let both : length (front ++ bytes) ≡ end = omega (arith, n, length-append front bytes) in
    let (f4, w4, e4) =
      maybe_write c.file c3 (front ++ bytes) rest (end == size) (off + end) e3 (omega (arith, both))
        (λ h. ground (arith, h, m)) (λ h. ground (arith, h, m)) (omega (arith, both, m)) in
    let hb = header_bytes (mark (place off)) in
    let long = length-whole old size offset bytes full inside in
    let f5 : File = record f4 { size = max f4.size (0 + length hb); byte = overwrite f4 0 hb } in
    let w5 =
      fwrite-some f4 0 hb (omega (arith, header_size))
        (omega (arith, header_size, e4.room_kept, w.index, room)) in
    let same : (i : ℕ) → sizeof_cache_header ≤ i → i < f4.size → f5.byte i ≡ f4.byte i =
      λ i le lt. overwrite-above f4 0 hb i (omega (arith, header_size)) lt in
    (
      f5,
      append_header-step c place mark old size offset bytes f2 f3 f4 f5 w2 w3 w4
          (rw (w5, write_file) refl),
      record {
        same_blkidx = refl;
        same_room = e4.room_kept;
        grown = omega (arith, e4.grown);
        bounded = omega (arith, e4.grown, e4.room_kept, long, room, header_size, w.index);
        reserved = record {
          above = w.index;
          inside = omega (arith, e4.grown, long);
          apart = λ b here. inr (w.cached.inside b here);
        };
        kept = λ i le lt out. same i le (omega (arith, e4.grown)) ∙ e4.kept i lt;
        placed = λ i lt.
            same (off + i) (omega (arith, w.index)) (omega (arith, e4.grown, long))
            ∙ e4.added i (omega (arith, long))
            ∙ get_or-whole old size offset bytes full inside i lt;
      },
    )
